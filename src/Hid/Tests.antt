-- ===== src/Hid/Tests.antt =====
-- Reports of kernel/hid.c.
use siathos.Prelude.{ℕ, ◌≡◌, ◌≢◌, refl, true, false, some, List, [], ◌∷◌, replicate, arith}
use siathos.Hid.{
  usb_keycode_to_ascii, char_at, usb_kbd_parse_report, usb_kbd_getc, first_char, keys, contains,
  compared,
}
use siathos.Hid.Edges.{Typed, usb_kbd_getc-Typed, usb_kbd_getc-held}

-- 0x04 is the usage of the letter `a`; the table gives the digit 2.
usage_a : usb_keycode_to_ascii 4 false ≡ b'2'
unfolding usb_keycode_to_ascii char_at
usage_a = refl

shifted_q : usb_keycode_to_ascii 16 true ≡ b'Q'
unfolding usb_keycode_to_ascii char_at
shifted_q = refl

parsed_second : usb_kbd_parse_report (0 ∷ 0x65 ∷ 30 ∷ 16 ∷ 0 ∷ 0 ∷ 0 ∷ 0 ∷ []) ≡ b'a'
unfolding usb_kbd_parse_report first_char usb_keycode_to_ascii char_at
parsed_second = refl

abbrev no_keys : List ℕ
no_keys = replicate 7 0

-- The key 30 is pressed with the left shift key.
abbrev pressed_a : List ℕ
pressed_a = 2 ∷ 0 ∷ 30 ∷ 0 ∷ 0 ∷ 0 ∷ 0 ∷ 0 ∷ []

shown_a : (usb_kbd_getc 8 pressed_a no_keys).0 ≡ some b'A'
unfolding usb_kbd_getc usb_keycode_to_ascii char_at
shown_a = refl

-- A held key in the second place gives nothing more.
held_a : (usb_kbd_getc 8 pressed_a (usb_kbd_getc 8 pressed_a no_keys).1).0 ≡ some 0
unfolding usb_kbd_getc usb_keycode_to_ascii char_at
held_a = refl

usb_kbd_getc-Typed_example :
    (◌≢◌ {A = ℕ} b'A' 0 → Typed pressed_a no_keys b'A')
    × (((k : ℕ) → contains (keys pressed_a) k ≡ true → k ≢ 0 → contains (compared no_keys) k ≡ true)
        → ◌≡◌ {A = ℕ} b'A' 0)
usb_kbd_getc-Typed_example = usb_kbd_getc-Typed 8 pressed_a no_keys b'A' shown_a

abbrev first_a : List ℕ
first_a = 0 ∷ 30 ∷ 0 ∷ 0 ∷ 0 ∷ 0 ∷ 0 ∷ 0 ∷ []

usb_kbd_getc-held_example :
    let held = (usb_kbd_getc 8 first_a no_keys).1 in
    usb_kbd_getc 8 first_a held ≡ (some (usb_keycode_to_ascii 30 false), held)
usb_kbd_getc-held_example =
    usb_kbd_getc-held 8 0 30 0 0 0 0 0 0 no_keys (omega arith) refl (ground arith) refl
