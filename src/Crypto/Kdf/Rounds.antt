-- ===== src/Crypto/Kdf/Rounds.antt =====
-- `pbkdf2_hmac_sha256` of kernel/crypto.c: its loops end, but for one number of rounds.
use siathos.Prelude.{
  ℕ, zero, suc, ◌+◌, ◌-◌, ◌%◌, ◌^◌, ◌<◌, ◌≤◌, ◌≡◌, inl, inr, refl, sym, ap, ◌∙◌, Option, none, some,
  ◌>>=◌, true, false, List, [], ◌++◌, leb, ◌==◌, if◌then◌else◌, length, length-take, take, arith,
  Bool-cases,
}
use siathos.Crypto.{word_range}
use siathos.Crypto.Kdf.{
  hmac_sha256, xor_bytes, xor_loop, salted, derived_block, put_block, derive_loop,
  pbkdf2_hmac_sha256,
}
use siathos.Crypto.Kdf.Key.{blocks, key_loop-blocks}
use siathos.Crypto.Kdf.Derive.{xor_rounds, whole_block, key_loop, key_loop-take, length-whole_block}

xor_loop-rounds :
    (fuel r iters : ℕ) (pw u t : List ℕ)
    → iters + 1 < word_range
    → iters + 1 - r < fuel
    → xor_loop fuel r iters pw u t ≡ some (xor_rounds (iters + 1 - r) pw u t)
unfolding xor_loop xor_rounds
xor_loop-rounds zero r iters pw u t lt enough = absurd (omega arith)
xor_loop-rounds (suc fuel) r iters pw u t lt enough = elim (Bool-cases (leb r iters)) [
  | inl on ↦
      let le : r ≤ iters = ground (arith, on) in
      let next : (r + 1) % word_range ≡ r + 1 = omega (arith, le, lt) in
      let more : iters + 1 - r ≡ suc (iters + 1 - (r + 1)) = omega (arith, le) in
      let v = hmac_sha256 pw u in
      ap
        (λ b. if b then xor_loop fuel ((r + 1) % word_range) iters pw v (xor_bytes t v) else some t)
        on
      ∙ (ap (λ q. xor_loop fuel q iters pw v (xor_bytes t v)) next
          ∙ (xor_loop-rounds fuel (r + 1) iters pw v (xor_bytes t v) lt (omega (arith, enough, le))
              ∙ ap (λ n. some (xor_rounds n pw u t)) (sym more)))
  | inr off ↦
      let last : iters + 1 - r ≡ 0 = ground (arith, off) in
      let v = hmac_sha256 pw u in
      ap
        (λ b. if b then xor_loop fuel ((r + 1) % word_range) iters pw v (xor_bytes t v) else some t)
        off
      ∙ ap (λ n. some (xor_rounds n pw u t)) (sym last)
]

-- No `uint32_t` is above the largest one.
xor_loop-none :
    (fuel r : ℕ) (pw u t : List ℕ) → r < word_range → xor_loop fuel r (2 ^ 32 - 1) pw u t ≡ none
unfolding xor_loop
xor_loop-none zero r pw u t lt = refl
xor_loop-none (suc fuel) r pw u t lt =
    let on : leb r (2 ^ 32 - 1) ≡ true = ground (arith, lt) in
    let v = hmac_sha256 pw u in
    ap
      (λ b.
        if b
        then xor_loop fuel ((r + 1) % word_range) (2 ^ 32 - 1) pw v (xor_bytes t v)
        else some t)
      on
    ∙ xor_loop-none fuel ((r + 1) % word_range) pw v (xor_bytes t v) (omega arith)

module _ (pw salt : List ℕ) where
  derived_block-whole :
      (fuel iters i : ℕ)
      → iters + 1 < word_range
      → iters < fuel
      → derived_block fuel pw salt iters i ≡ some (whole_block pw salt iters i)
  unfolding derived_block whole_block
  derived_block-whole fuel iters i lt enough =
      let u = hmac_sha256 pw (salted salt i) in
      let count : iters + 1 - 2 ≡ iters - 1 = omega arith in
      xor_loop-rounds fuel 2 iters pw u u lt (omega (arith, enough))
      ∙ ap (λ n. some (xor_rounds n pw u u)) count

  derive_loop-key_loop :
      (left fuel iters i need : ℕ)
      → iters + 1 < word_range
      → iters < fuel
      → need ≤ left
      → derive_loop left fuel pw salt iters i need ≡ some (key_loop left pw salt iters i need)
  unfolding derive_loop key_loop
  derive_loop-key_loop zero fuel iters i need lt enough le =
      let off : (need == 0) ≡ true = ground (arith, le) in rw off refl
  derive_loop-key_loop (suc left) fuel iters i need lt enough le = elim (Bool-cases (need == 0)) [
    | inl off ↦ rw off refl
    | inr on ↦
        ap (λ b. if b then some [] else put_block need (derived_block fuel pw salt iters i) later)
          on
        ∙ (ap (λ o. put_block need o later) (derived_block-whole fuel iters i lt enough)
            ∙ (ap (λ (o : Option (List ℕ)). o >>= λ rest. some (t ++ rest))
                  (derive_loop-key_loop left fuel iters ((i + 1) % word_range) (need - length t) lt
                    enough (short on))
                ∙ ap (λ b. some (if b then [] else t ++ key)) (sym on)))
  ]
    where
      later : ℕ → Option (List ℕ)
      later = derive_loop left fuel pw salt iters ((i + 1) % word_range)

      t : List ℕ
      t = take need (whole_block pw salt iters i)

      key : List ℕ
      key = key_loop left pw salt iters ((i + 1) % word_range) (need - length t)

      short : (need == 0) ≡ false → need - length t ≤ left
      short on =
          let pos : 0 < need = ground (arith, on) in
          omega (
            arith,
            le,
            pos,
            length-take need (whole_block pw salt iters i),
            length-whole_block pw salt iters i,
          )

  -- For fewer than 2^32 - 1 rounds, any fuel of the loop on `r` above their number is enough for
  -- `pbkdf2_hmac_sha256` to end. It gives exactly as many bytes as are asked for, the first of the
  -- blocks of RFC 2898 (with block numbers modulo 2^32, the salt cut after 128 bytes, and no round
  -- counting as one), and a shorter key is the start of a longer one.
  pub pbkdf2_hmac_sha256-take :
      (fuel iters m n : ℕ)
      → iters + 1 < 2 ^ 32
      → iters < fuel
      → m ≤ n
      → (long : List ℕ) × (pbkdf2_hmac_sha256 fuel pw salt iters n ≡ some long)
        × (length long ≡ n)
        × (long ≡ take n (blocks n pw salt iters 1))
        × (pbkdf2_hmac_sha256 fuel pw salt iters m ≡ some (take m long))
  unfolding pbkdf2_hmac_sha256
  pbkdf2_hmac_sha256-take fuel iters m n lt enough le =
      let (whole, start) = key_loop-take pw salt iters m n le in
      (
        key_loop n pw salt iters 1 n,
        derive_loop-key_loop n fuel iters 1 n lt enough (omega arith),
        whole,
        key_loop-blocks n 1 n pw salt iters (omega arith),
        derive_loop-key_loop m fuel iters 1 m lt enough (omega arith) ∙ ap some (sym start),
      )

  -- For 2^32 - 1 rounds, and at least one byte asked for, `pbkdf2_hmac_sha256` never ends: no fuel of
  -- the loop on `r` is enough.
  pub pbkdf2_hmac_sha256-none :
      (fuel n : ℕ) → 0 < n → pbkdf2_hmac_sha256 fuel pw salt (2 ^ 32 - 1) n ≡ none
  unfolding pbkdf2_hmac_sha256 derive_loop derived_block
  pbkdf2_hmac_sha256-none fuel zero pos = absurd (omega arith)
  pbkdf2_hmac_sha256-none fuel (suc n) pos =
      let u = hmac_sha256 pw (salted salt 1) in
      let later = derive_loop n fuel pw salt (2 ^ 32 - 1) ((1 + 1) % word_range) in
      let on : (suc n == 0) ≡ false = ground arith in
      ap (λ b. if b then some [] else put_block (suc n) (xor_loop fuel 2 (2 ^ 32 - 1) pw u u) later)
        on
      ∙ ap (λ o. put_block (suc n) o later) (xor_loop-none fuel 2 pw u u (omega arith))
