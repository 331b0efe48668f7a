-- ===== src/Crypto/Kdf/Derive.antt =====
-- HMAC and PBKDF2 of kernel/crypto.c: the blocks of a key without fuel or counters, and how much of them is taken.
use mathlib.Core.List.{append-nil}
use siathos.Prelude.{
  ℕ, zero, suc, ◌+◌, ◌-◌, ◌%◌, ◌<◌, ◌≤◌, ◌≡◌, ◌⊎◌, inl, inr, refl, sym, ap, ◌∙◌, true, false, List,
  [], ◌∷◌, ◌++◌, ltb, leb, ◌==◌, if◌then◌else◌, length, length-append, length-take, take, min,
  arith, Bool-cases,
}
use siathos.Crypto.{
  block_size, state_size, word_range, Sha256, sha256_init, sha256_update, sha256_final,
  sha256_compress, fill_to,
}
use siathos.Crypto.Feed.{sha256_init-HasRead, sha256_update-HasRead}
use siathos.Crypto.Padding.{digest, sha256_final-digest}
use siathos.Crypto.Kdf.{block_key, pad_by, hash_two, hmac_sha256, xor_bytes, salted}

-- `n` rounds, without a counter.
unfoldable pub xor_rounds : ℕ → List ℕ → List ℕ → List ℕ → List ℕ
xor_rounds zero pw u t = t
xor_rounds (suc n) pw u t = let v = hmac_sha256 pw u in xor_rounds n pw v (xor_bytes t v)

-- A block of RFC 2898.
unfoldable pub whole_block : List ℕ → List ℕ → ℕ → ℕ → List ℕ
unfolding xor_rounds
whole_block pw salt iters i =
    let u = hmac_sha256 pw (salted salt i) in xor_rounds (iters - 1) pw u u

-- The first `need` bytes of the blocks from the `i`-th on.
unfoldable pub key_loop : ℕ → List ℕ → List ℕ → ℕ → ℕ → ℕ → List ℕ
key_loop zero pw salt iters i need = []
key_loop (suc fuel) pw salt iters i need =
    let t = take need (whole_block pw salt iters i) in
    let rest = key_loop fuel pw salt iters ((i + 1) % word_range) (need - length t) in
    if need == 0 then [] else t ++ rest

hash_two-digest : (a b : List ℕ) → hash_two a b ≡ digest (a ++ b)
hash_two-digest a b = sha256_final-digest (a ++ b) (sha256_update (sha256_update sha256_init a) b) (
    sha256_update-HasRead a b (sha256_update sha256_init a)
      (sha256_update-HasRead [] a sha256_init sha256_init-HasRead))

-- A key of RFC 2104: one block, a longer key by its digest.
abbrev pub hmac_key : List ℕ → List ℕ
hmac_key key = fill_to block_size (if ltb block_size (length key) then digest key else key)

-- `hmac_sha256` is the HMAC of RFC 2104 over the SHA-256 digest, for any key and message.
pub hmac_sha256-digest :
    (key message : List ℕ)
    → hmac_sha256 key message
      ≡ digest (pad_by 0x5c (hmac_key key) ++ digest (pad_by 0x36 (hmac_key key) ++ message))
unfolding hmac_sha256
hmac_sha256-digest key message =
    ap (λ k. hash_two (pad_by 0x5c k) (hash_two (pad_by 0x36 k) message)) keys
    ∙ (hash_two-digest (pad_by 0x5c (hmac_key key)) (hash_two (pad_by 0x36 (hmac_key key)) message)
        ∙ ap (λ m. digest (pad_by 0x5c (hmac_key key) ++ m))
            (hash_two-digest (pad_by 0x36 (hmac_key key)) message))
  where
    keys : block_key key ≡ hmac_key key
    keys =
        ap (λ (d : List ℕ). fill_to block_size (if ltb block_size (length key) then d else key))
          (sha256_final-digest key (sha256_update sha256_init key)
            (sha256_update-HasRead [] key sha256_init sha256_init-HasRead))

length-sha256_final : (s : Sha256) → length (sha256_final s) ≡ state_size
unfolding sha256_final sha256_compress
length-sha256_final s = refl

length-hmac_sha256 : (key message : List ℕ) → length (hmac_sha256 key message) ≡ state_size
unfolding hmac_sha256
length-hmac_sha256 key message = length-sha256_final _

length-xor_bytes : (t u : List ℕ) → length (xor_bytes t u) ≡ length t
length-xor_bytes [] u = refl
length-xor_bytes (a ∷ t) [] = refl
length-xor_bytes (a ∷ t) (b ∷ u) = ap suc (length-xor_bytes t u)

length-xor_rounds : (n : ℕ) (pw u t : List ℕ) → length (xor_rounds n pw u t) ≡ length t
unfolding xor_rounds
length-xor_rounds zero pw u t = refl
length-xor_rounds (suc n) pw u t =
    length-xor_rounds n pw (hmac_sha256 pw u) (xor_bytes t (hmac_sha256 pw u))
    ∙ length-xor_bytes t (hmac_sha256 pw u)

pub length-whole_block :
    (pw salt : List ℕ) (iters i : ℕ) → length (whole_block pw salt iters i) ≡ state_size
unfolding whole_block
length-whole_block pw salt iters i =
    let u = hmac_sha256 pw (salted salt i) in
    length-xor_rounds (iters - 1) pw u u ∙ length-hmac_sha256 pw (salted salt i)

pub take_short : (n : ℕ) (xs ys : List ℕ) → n ≤ length xs → take n (xs ++ ys) ≡ take n xs
take_short zero xs ys le = refl
take_short (suc n) [] ys le = absurd (omega arith)
take_short (suc n) (x ∷ xs) ys le = ap (◌∷◌ x) (take_short n xs ys (omega arith))

pub take_long :
    (n : ℕ) (xs ys : List ℕ) → length xs ≤ n → take n (xs ++ ys) ≡ xs ++ take (n - length xs) ys
take_long n [] ys le = let e : n ≡ n - 0 = omega arith in ap (λ k. take k ys) e
take_long zero (x ∷ xs) ys le = absurd (omega arith)
take_long (suc n) (x ∷ xs) ys le =
    let e : n - length xs ≡ suc n - suc (length xs) = omega arith in
    ap (◌∷◌ x) (take_long n xs ys (omega arith) ∙ ap (λ k. xs ++ take k ys) e)

pub take_whole : (n : ℕ) (xs : List ℕ) → length xs ≤ n → take n xs ≡ xs
take_whole zero [] le = refl
take_whole (suc n) [] le = refl
take_whole zero (x ∷ xs) le = absurd (omega arith)
take_whole (suc n) (x ∷ xs) le = ap (◌∷◌ x) (take_whole n xs (omega arith))

take-take : (m n : ℕ) (xs : List ℕ) → m ≤ n → take m (take n xs) ≡ take m xs
take-take zero n xs le = refl
take-take (suc m) zero xs le = absurd (omega arith)
take-take (suc m) (suc n) [] le = refl
take-take (suc m) (suc n) (x ∷ xs) le = ap (◌∷◌ x) (take-take m n xs (omega arith))

module _ (pw salt : List ℕ) (iters : ℕ) where
  derive_zero : (fuel i : ℕ) → key_loop fuel pw salt iters i 0 ≡ []
  unfolding key_loop
  derive_zero zero i = refl
  derive_zero (suc fuel) i = refl

  derive_more :
      (fuel i need : ℕ)
      → 0 < need
      → key_loop (suc fuel) pw salt iters i need
        ≡ take need (whole_block pw salt iters i)
          ++ key_loop fuel pw salt iters ((i + 1) % word_range) (need - min need state_size)
  unfolding key_loop
  derive_more fuel i need pos =
      let off : (need == 0) ≡ false = ground arith in
      let count : length (take need (whole_block pw salt iters i)) ≡ min need state_size =
        length-take need (whole_block pw salt iters i)
        ∙ ap (min need) (length-whole_block pw salt iters i) in
      ap
        (λ b.
          if b
          then []
          else take need (whole_block pw salt iters i)
            ++ key_loop fuel pw salt iters ((i + 1) % word_range)
                (need - length (take need (whole_block pw salt iters i))))
        off
      ∙ ap
          (λ k.
            take need (whole_block pw salt iters i)
            ++ key_loop fuel pw salt iters ((i + 1) % word_range) (need - k))
          count

  length-key_loop :
      (fuel i need : ℕ) → need ≤ fuel → length (key_loop fuel pw salt iters i need) ≡ need
  length-key_loop zero i need le =
      ap (λ n. length (key_loop 0 pw salt iters i n)) (zero_of need le)
      ∙ (ap length (derive_zero 0 i) ∙ sym (zero_of need le))
    where
      zero_of : (n : ℕ) → n ≤ 0 → n ≡ 0
      zero_of n h = omega (arith, h)
  length-key_loop (suc fuel) i zero le = ap length (derive_zero (suc fuel) i)
  length-key_loop (suc fuel) i (suc need) le =
      let t = take (suc need) (whole_block pw salt iters i) in
      let j = (i + 1) % word_range in
      let left = suc need - min (suc need) state_size in
      ap length (derive_more fuel i (suc need) (omega arith))
      ∙ omega (
        arith,
        le,
        length-append t (key_loop fuel pw salt iters j left),
        length-take (suc need) (whole_block pw salt iters i),
        length-whole_block pw salt iters i,
        length-key_loop fuel j left (omega (arith, le)),
      )

  take-key_loop :
      (f g i m n : ℕ)
      → m ≤ n
      → n ≤ f
      → m ≤ g
      → take m (key_loop f pw salt iters i n) ≡ key_loop g pw salt iters i m
  take-key_loop f g i zero n le lf lg = sym (derive_zero g i)
  take-key_loop zero g i (suc m) n le lf lg = absurd (omega arith)
  take-key_loop (suc f) zero i (suc m) n le lf lg = absurd (omega arith)
  take-key_loop (suc f) (suc g) i (suc m) n le lf lg =
      ap (take (suc m)) (derive_more f i n (omega arith))
      ∙ (by_block
            (take-key_loop f g ((i + 1) % word_range) (suc m - min (suc m) state_size)
              (n - min n state_size) (omega (arith, le)) (omega (arith, le, lf))
              (omega (arith, lg)))
            (Bool-cases (leb (suc m) state_size))
          ∙ sym (derive_more g i (suc m) (omega arith)))
    where
      t : List ℕ
      t = whole_block pw salt iters i

      j : ℕ
      j = (i + 1) % word_range

      whole : length t ≡ state_size
      whole = length-whole_block pw salt iters i

      left : ℕ
      left = suc m - min (suc m) state_size

      more : List ℕ
      more = key_loop f pw salt iters j (n - min n state_size)

      large_of : leb (suc m) state_size ≡ false → state_size < suc m
      large_of e = ground arith

      small_of : leb (suc m) state_size ≡ true → suc m ≤ state_size
      small_of e = ground arith

      nothing_left : suc m ≤ state_size → left ≡ 0
      nothing_left e = omega (arith, e)

      one_block : state_size < suc m → suc m - length t ≡ left
      one_block e = omega (arith, whole, e)

      by_block :
          take left more ≡ key_loop g pw salt iters j left
          → (leb (suc m) state_size ≡ true) ⊎ (leb (suc m) state_size ≡ false)
          → take (suc m) (take n t ++ more) ≡ take (suc m) t ++ key_loop g pw salt iters j left
      by_block ih (inl small) =
          take_short (suc m) (take n t) more
            (omega (arith, length-take n t, whole, le, small_of small))
          ∙ (take-take (suc m) n t le
              ∙ sym (
                  ap (λ k. take (suc m) t ++ key_loop g pw salt iters j k)
                    (nothing_left (small_of small))
                  ∙ (ap (λ (l : List ℕ). take (suc m) t ++ l) (derive_zero g j)
                      ∙ append-nil (take (suc m) t))))
      by_block ih (inr large) =
          ap (λ (l : List ℕ). take (suc m) (l ++ more))
            (take_whole n t (omega (arith, whole, le, large_of large)))
          ∙ (take_long (suc m) t more (omega (arith, whole, large_of large))
              ∙ (ap (λ k. t ++ take k more) (one_block (large_of large))
                  ∙ (ap (λ (l : List ℕ). t ++ l) ih
                      ∙ ap (λ (l : List ℕ). l ++ key_loop g pw salt iters j left)
                          (sym (take_whole (suc m) t (omega (arith, whole, large_of large)))))))

  pub key_loop-take :
      (m n : ℕ)
      → m ≤ n
      → (length (key_loop n pw salt iters 1 n) ≡ n)
        × (take m (key_loop n pw salt iters 1 n) ≡ key_loop m pw salt iters 1 m)
  key_loop-take m n le =
      (length-key_loop n 1 n (omega arith), take-key_loop n m 1 m n le (omega arith) (omega arith))
