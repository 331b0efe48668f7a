-- ===== src/Hid.antt =====
-- Key reports of a USB keyboard (kernel/hid.c). A report is the list of its 8 bytes.
pub mod Edges
mod Tests
use siathos.Prelude.{
  ℕ, ◌+◌, ◌-◌, ◌/◌, ◌%◌, Bool, true, false, not, ◌&&◌, ◌||◌, Option, none, some, List, [], ◌∷◌,
  ◌++◌, leb, ltb, ◌==◌, if◌then◌else◌, get_or, take, drop,
}

-- The entries behind the last one that is not 0 are 0.
abbrev pub usb_key_to_ascii : List ℕ
usb_key_to_ascii =
    0 ∷ 0 ∷ 0 ∷ 49 ∷ 50 ∷ 51 ∷ 52 ∷ 53 ∷ 54 ∷ 55 ∷ 56 ∷ 57 ∷ 48 ∷ 45 ∷ 61 ∷ 8 ∷ 113 ∷ 119 ∷ 101
    ∷ 114 ∷ 116 ∷ 121 ∷ 117 ∷ 105 ∷ 111 ∷ 112 ∷ 91 ∷ 93 ∷ 10 ∷ 0 ∷ 97 ∷ 115 ∷ 100 ∷ 102 ∷ 103 ∷ 104
    ∷ 106 ∷ 107 ∷ 108 ∷ 59 ∷ 39 ∷ 96 ∷ 0 ∷ 92 ∷ 122 ∷ 120 ∷ 99 ∷ 118 ∷ 98 ∷ 110 ∷ 109 ∷ 44 ∷ 46 ∷ 47
    ∷ 0 ∷ 42 ∷ 32 ∷ 60 ∷ 62 ∷ 63 ∷ []

-- The cases of the `switch`.
abbrev shift_cases : List (ℕ × ℕ)
shift_cases =
    (b'1', b'!')
    ∷ (b'2', b'@')
    ∷ (b'3', b'#')
    ∷ (b'4', b'$')
    ∷ (b'5', b'%')
    ∷ (b'6', b'^')
    ∷ (b'7', b'&')
    ∷ (b'8', b'*')
    ∷ (b'9', b'(')
    ∷ (b'0', b')')
    ∷ (b'-', b'_')
    ∷ (b'=', b'+')
    ∷ (b'[', b'{')
    ∷ (b']', b'}')
    ∷ (92, b'|')
    ∷ (b';', b':')
    ∷ (39, 34)
    ∷ (b'`', b'~')
    ∷ (b',', b'<')
    ∷ (b'.', b'>')
    ∷ (b'/', b'?')
    ∷ []

-- The `default` of the `switch`: the letters change their case.
abbrev other_case : ℕ → ℕ
other_case base =
    if leb b'a' base && leb base b'z'
    then base - b'a' + b'A'
    else if leb b'A' base && leb base b'Z'
    then base - b'A' + b'a'
    else base

abbrev shifted_by : List (ℕ × ℕ) → ℕ → ℕ
shifted_by [] base = other_case base
shifted_by ((from, to) ∷ cases) base = if base == from then to else shifted_by cases base

-- The part behind the two tests of the key code.
pub char_at : ℕ → Bool → ℕ
char_at keycode shift =
    let base = get_or usb_key_to_ascii keycode 0 in
    if base == 0 then 0 else if shift then shifted_by shift_cases base else base

pub usb_keycode_to_ascii : ℕ → Bool → ℕ
unfolding char_at
usb_keycode_to_ascii keycode shift =
    if keycode == 0 || ltb 0x65 keycode then 0 else char_at keycode shift

-- `(report[0] & (1 << 1)) != 0`
abbrev pub is_shift : List ℕ → Bool
is_shift report = get_or report 0 0 / 2 % 2 == 1

-- `report[1]` to `report[6]`
abbrev pub keys : List ℕ → List ℕ
keys report = take 6 (drop 1 report)

pub first_char : List ℕ → Bool → ℕ
first_char [] shift = 0
first_char (k ∷ ks) shift =
    let c = usb_keycode_to_ascii k shift in if c == 0 then first_char ks shift else c

-- The character of a report whose pointers are not null.
pub usb_kbd_parse_report : List ℕ → ℕ
unfolding first_char
usb_kbd_parse_report report = first_char (keys report) (is_shift report)

abbrev pub contains : List ℕ → ℕ → Bool
contains [] k = false
contains (p ∷ ps) k = p == k || contains ps k

-- `prev[1]` to `prev[6]` of the 7 bytes.
abbrev pub compared : List ℕ → List ℕ
compared prev = take 6 (drop 1 prev)

-- The first key of the report that is pressed and was not before.
abbrev pub new_key : List ℕ → List ℕ → Option ℕ
new_key [] prev = none
new_key (k ∷ ks) prev = if k == 0 || contains (compared prev) k then new_key ks prev else some k

-- `memcpy(prev, &report[1], 6)`
abbrev pub remember : List ℕ → List ℕ → List ℕ
remember prev report = keys report ++ drop 6 prev

abbrev pub char_of : Option ℕ → Bool → ℕ
char_of none shift = 0
char_of (some k) shift = usb_keycode_to_ascii k shift

-- `usb_kbd_getc` with its `prev`. `r` is what `usb_kbd_read_report` gives, 0 for a negative number;
-- `report` is the buffer after it. The result is `none` for -1, otherwise the character.
pub usb_kbd_getc : ℕ → List ℕ → List ℕ → Option ℕ × List ℕ
usb_kbd_getc r report prev =
    if ltb r 1
    then (none, prev)
    else (some (char_of (new_key (keys report) prev) (is_shift report)), remember prev report)
