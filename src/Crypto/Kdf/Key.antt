-- ===== src/Crypto/Kdf/Key.antt =====
-- The keys of PBKDF2 as RFC 2898 describes them, over the HMAC of RFC 2104, with the block numbers
-- modulo 2^32 and the salt cut after 128 bytes as kernel/crypto.c has them.
use mathlib.Core.List.{append-nil}
use siathos.Prelude.{
  ℕ, zero, suc, ◌+◌, ◌-◌, ◌%◌, ◌^◌, ◌<◌, ◌≤◌, ◌≡◌, ◌⊎◌, inl, inr, refl, sym, ap, ◌∙◌, true, false,
  List, [], ◌++◌, map, leb, ◌==◌, if◌then◌else◌, length, length-take, take, bit_xor, arith,
  Bool-cases,
}
use siathos.Crypto.{state_size, put_be32}
use siathos.Crypto.Padding.{digest}
use siathos.Crypto.Kdf.{xor_bytes, salted}
use siathos.Crypto.Kdf.Derive.{
  hmac_key, hmac_sha256-digest, xor_rounds, whole_block, key_loop, length-whole_block, take_short,
  take_long, take_whole,
}

abbrev pub hmac : List ℕ → List ℕ → List ℕ
hmac key message = digest (
    map (λ x. bit_xor x 0x5c) (hmac_key key)
    ++ digest (map (λ x. bit_xor x 0x36) (hmac_key key) ++ message))

-- The HMAC of the HMAC of the first, and so on.
pub chain : ℕ → List ℕ → List ℕ → List ℕ
chain zero pw u = u
chain (suc n) pw u = hmac pw (chain n pw u)

-- The exclusive or of the first and `n` more of these.
pub mixed : ℕ → List ℕ → List ℕ → List ℕ
mixed zero pw u = u
mixed (suc n) pw u = xor_bytes (mixed n pw u) (chain (suc n) pw u)

-- Block `i`, of as many HMACs as rounds are asked for, and at least one.
abbrev pub block : List ℕ → List ℕ → ℕ → ℕ → List ℕ
block pw salt iters i = mixed (iters - 1) pw (hmac pw (take 128 salt ++ put_be32 i))

-- The blocks from the `i`-th on.
pub blocks : ℕ → List ℕ → List ℕ → ℕ → ℕ → List ℕ
blocks zero pw salt iters i = []
blocks (suc n) pw salt iters i = block pw salt iters i ++ blocks n pw salt iters ((i + 1) % 2 ^ 32)

xor_rounds-mixed :
    (n j : ℕ) (pw u : List ℕ) → xor_rounds n pw (chain j pw u) (mixed j pw u) ≡ mixed (n + j) pw u
unfolding xor_rounds chain mixed
xor_rounds-mixed zero j pw u =
    let none_more : j ≡ 0 + j = omega arith in ap (λ k. mixed k pw u) none_more
xor_rounds-mixed (suc n) j pw u =
    let more : n + suc j ≡ suc n + j = omega arith in
    ap (λ v. xor_rounds n pw v (xor_bytes (mixed j pw u) v)) (hmac_sha256-digest pw (chain j pw u))
    ∙ (xor_rounds-mixed n (suc j) pw u ∙ ap (λ k. mixed k pw u) more)

whole_block-block :
    (pw salt : List ℕ) (iters i : ℕ) → whole_block pw salt iters i ≡ block pw salt iters i
unfolding whole_block chain mixed
whole_block-block pw salt iters i =
    let all : iters - 1 + 0 ≡ iters - 1 = omega arith in
    ap (λ u. xor_rounds (iters - 1) pw u u) (hmac_sha256-digest pw (salted salt i))
    ∙ (xor_rounds-mixed (iters - 1) 0 pw (hmac pw (salted salt i))
        ∙ ap (λ k. mixed k pw (hmac pw (salted salt i))) all)

pub key_loop-blocks :
    (n i need : ℕ) (pw salt : List ℕ) (iters : ℕ)
    → need ≤ n
    → key_loop n pw salt iters i need ≡ take need (blocks n pw salt iters i)
unfolding key_loop blocks
key_loop-blocks zero i zero pw salt iters le = refl
key_loop-blocks zero i (suc need) pw salt iters le = absurd (omega arith)
key_loop-blocks (suc n) i zero pw salt iters le = refl
key_loop-blocks (suc n) i (suc need) pw salt iters le =
    ap (λ b. if b then [] else take (suc need) t ++ rest) more
    ∙ (by_block
          (key_loop-blocks n j left pw salt iters
            (omega (arith, le, whole, length-take (suc need) t)))
          (Bool-cases (leb (suc need) state_size))
        ∙ ap (λ (b : List ℕ). take (suc need) (b ++ after)) (whole_block-block pw salt iters i))
  where
    t : List ℕ
    t = whole_block pw salt iters i

    whole : length t ≡ state_size
    whole = length-whole_block pw salt iters i

    j : ℕ
    j = (i + 1) % 2 ^ 32

    after : List ℕ
    after = blocks n pw salt iters j

    left : ℕ
    left = suc need - length (take (suc need) t)

    rest : List ℕ
    rest = key_loop n pw salt iters j left

    more : (suc need == 0) ≡ false
    more = ground arith

    by_block :
        rest ≡ take left after
        → (leb (suc need) state_size ≡ true) ⊎ (leb (suc need) state_size ≡ false)
        → take (suc need) t ++ rest ≡ take (suc need) (t ++ after)
    by_block later (inl small) =
        let fits : suc need ≤ state_size = ground (arith, small) in
        let nothing : left ≡ 0 = omega (arith, whole, length-take (suc need) t, fits) in
        ap (λ (r : List ℕ). take (suc need) t ++ r) (later ∙ ap (λ k. take k after) nothing)
        ∙ (append-nil (take (suc need) t)
            ∙ sym (take_short (suc need) t after (omega (arith, whole, fits))))
    by_block later (inr large) =
        let above : state_size < suc need = ground (arith, large) in
        let here : left ≡ suc need - length t =
          omega (arith, whole, length-take (suc need) t, above) in
        ap (λ (x : List ℕ). x ++ rest) (take_whole (suc need) t (omega (arith, whole, above)))
        ∙ (ap (λ (r : List ℕ). t ++ r) (later ∙ ap (λ k. take k after) here)
            ∙ sym (take_long (suc need) t after (omega (arith, whole, above))))
