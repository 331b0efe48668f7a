-- ===== src/Hid/Edges.antt =====
-- Which key presses of kernel/hid.c give a character.
use siathos.Prelude.{
  ℕ, ◌<◌, ◌≤◌, ◌≡◌, ◌≢◌, inl, inr, refl, sym, ap, subst, ◌∙◌, Bool, true, false, ◌&&◌, ◌||◌, Option,
  none, some, List, [], ◌∷◌, ◌++◌, ltb, ◌==◌, if◌then◌else◌, drop, all_below, all_below_lem, arith,
  Bool-cases, Option-cases,
}
use siathos.Hid.{
  usb_keycode_to_ascii, is_shift, keys, contains, compared, new_key, remember, char_of,
  usb_kbd_getc,
}

abbrev is_ascii : ℕ → Bool
is_ascii k = ltb (usb_keycode_to_ascii k false) 127 && ltb (usb_keycode_to_ascii k true) 127

table_ascii : all_below 0x66 is_ascii ≡ true
unfolding all_below usb_keycode_to_ascii
table_ascii = refl

ascii_above : (k : ℕ) (shift : Bool) → 0x65 < k → usb_keycode_to_ascii k shift ≡ 0
unfolding usb_keycode_to_ascii
ascii_above k shift lt = ground arith

usb_keycode_to_ascii_bound : (k : ℕ) (shift : Bool) → usb_keycode_to_ascii k shift < 127
usb_keycode_to_ascii_bound k shift = elim (Bool-cases (ltb 0x65 k)) [
  | inl above ↦ omega (arith, ascii_above k shift (ground arith))
  | inr below ↦ by_shift shift (all_below_lem 0x66 is_ascii k table_ascii (ground arith))
]
  where
    by_shift : (s : Bool) → is_ascii k ≡ true → usb_keycode_to_ascii k s < 127
    by_shift true e = ground arith
    by_shift false e = ground arith

-- Where a report has no new key, each key in it is 0 or was compared.
new_key-none :
    (ks prev : List ℕ)
    → new_key ks prev ≡ none
    → (k : ℕ) → contains ks k ≡ true
    → k ≢ 0
    → contains (compared prev) k ≡ true
new_key-none [] prev e k on ne = absurd (ground arith)
new_key-none (x ∷ ks) prev e k on ne = elim (Bool-cases (x == 0 || contains (compared prev) x)) [
  | inl skip ↦ elim (Bool-cases (x == k)) [
    | inl same ↦ ground (arith, skip, same)
    | inr other ↦
        new_key-none ks prev (sym (ap (λ b. if b then new_key ks prev else some x) skip) ∙ e) k
          (ground (arith, on, other)) ne
  ]
  | inr stop ↦ absurd (ground (arith, stop, e))
]

new_key-some :
    (ks prev : List ℕ) (k : ℕ)
    → new_key ks prev ≡ some k
    → (contains ks k ≡ true) × (contains (compared prev) k ≡ false) × (k ≢ 0)
new_key-some [] prev k e = absurd (ground arith)
new_key-some (x ∷ ks) prev k e = elim (Bool-cases (x == 0 || contains (compared prev) x)) [
  | inl skip ↦
      let rest =
        new_key-some ks prev k (sym (ap (λ b. if b then new_key ks prev else some x) skip) ∙ e) in
      (ground (arith, rest.0), rest.1, rest.2)
  | inr stop ↦
      let same : x ≡ k = ground (arith, stop, e) in
      (ground (arith, same), ground (arith, stop, same), ground (arith, stop, same))
]

-- What a character that `usb_kbd_getc` gives stands for.
pub record Typed (report prev : List ℕ) (c : ℕ) : Type 0 where
  pub key : ℕ
  pub pressed : contains (keys report) key ≡ true
  pub fresh : contains (compared prev) key ≡ false
  pub shown : c ≡ usb_keycode_to_ascii key (is_shift report)
  pub printable : c < 127

-- A character other than 0 that `usb_kbd_getc` gives is below 127 and is that of a key of the report
-- which is not among the second to the seventh byte of the stored keys; and where every key of the
-- report is 0 or among those, it gives the character 0.
pub usb_kbd_getc-Typed :
    (r : ℕ) (report prev : List ℕ) (c : ℕ)
    → (usb_kbd_getc r report prev).0 ≡ some c
    → (c ≢ 0 → Typed report prev c)
      × (((k : ℕ) → contains (keys report) k ≡ true → k ≢ 0 → contains (compared prev) k ≡ true)
          → c ≡ 0)
unfolding usb_kbd_getc
usb_kbd_getc-Typed r report prev c e = elim (Option-cases (new_key (keys report) prev)) [
  | inl off ↦
      let zero_char : c ≡ 0 = sym (shows none off) in (λ ne. absurd (ne zero_char), λ _. zero_char)
  | inr (k, on) ↦
      let found = new_key-some (keys report) prev k on in
      let char_k : usb_keycode_to_ascii k (is_shift report) ≡ c = shows (some k) on in
      (
        λ ne. record {
          key = k;
          pressed = found.0;
          fresh = found.1;
          shown = sym char_k;
          printable = omega (arith, usb_keycode_to_ascii_bound k (is_shift report), char_k);
        },
        λ all. absurd (ground (arith, all k found.0 found.2, found.1)),
      )
]
  where
    shows : (o : Option ℕ) → new_key (keys report) prev ≡ o → char_of o (is_shift report) ≡ c
    shows o found = ap (λ n. char_of n (is_shift report)) (sym found) ∙ ground (arith, e)

poll_state :
    (r : ℕ) (report prev : List ℕ) → 1 ≤ r → (usb_kbd_getc r report prev).1 ≡ remember prev report
unfolding usb_kbd_getc
poll_state r report prev got = ground arith

poll_again :
    (r : ℕ) (report prev : List ℕ) (k : ℕ)
    → 1 ≤ r
    → new_key (keys report) prev ≡ some k
    → remember prev report ≡ prev
    → usb_kbd_getc r report prev ≡ (some (usb_keycode_to_ascii k (is_shift report)), prev)
unfolding usb_kbd_getc
poll_again r report prev k got new same =
    let full : ltb r 1 ≡ false = ground arith in
    ap
      (λ b.
        if b
        then (none, prev)
        else (some (char_of (new_key (keys report) prev) (is_shift report)), remember prev report))
      full
    ∙ (ap (λ o. (some (char_of o (is_shift report)), remember prev report)) new
        ∙ ap (λ (s : List ℕ). (some (usb_keycode_to_ascii k (is_shift report)), s)) same)

-- While the first key of a report is held, and is not also another key of it, each further call of
-- `usb_kbd_getc` gives its character again: after one call on the report, a second one gives it
-- whatever was stored before, where the seventh byte of `prev`, which no call writes, is 0.
pub usb_kbd_getc-held :
    (r m k k2 k3 k4 k5 k6 x : ℕ) (prev : List ℕ)
    → 1 ≤ r
    → drop 6 prev ≡ 0 ∷ []
    → k ≢ 0
    → contains (k2 ∷ k3 ∷ k4 ∷ k5 ∷ k6 ∷ []) k ≡ false
    → let report = m ∷ k ∷ k2 ∷ k3 ∷ k4 ∷ k5 ∷ k6 ∷ x ∷ [] in
      let held = (usb_kbd_getc r report prev).1 in
      usb_kbd_getc r report held ≡ (some (usb_keycode_to_ascii k (is_shift report)), held)
usb_kbd_getc-held r m k k2 k3 k4 k5 k6 x prev got last ne other =
    subst
      (λ (s : List ℕ).
        usb_kbd_getc r report s ≡ (some (usb_keycode_to_ascii k (is_shift report)), s))
      (sym (poll_state r report prev got ∙ ap (λ t. keys report ++ t) last))
      (poll_again r report (keys report ++ (0 ∷ [])) k got (ground (arith, other)) refl)
  where
    report : List ℕ
    report = m ∷ k ∷ k2 ∷ k3 ∷ k4 ∷ k5 ∷ k6 ∷ x ∷ []
