-- ===== src/Crypto/Kdf.antt =====
-- HMAC and PBKDF2 of kernel/crypto.c.
pub mod Key
pub mod Rounds
pub mod Derive
mod Tests
use siathos.Prelude.{
  ℕ, zero, suc, ◌+◌, ◌-◌, ◌%◌, List, [], ◌∷◌, ◌++◌, map, ltb, leb, ◌==◌, Option, none, some, ◌>>=◌,
  if◌then◌else◌, length, take, bit_xor,
}
use siathos.Crypto.{
  block_size, word_range, sha256_init, sha256_update, sha256_final, fill_to, put_be32,
}

-- `k`, one block long.
abbrev pub block_key : List ℕ → List ℕ
block_key key =
    fill_to block_size
      (if ltb block_size (length key) then sha256_final (sha256_update sha256_init key) else key)

abbrev pub pad_by : ℕ → List ℕ → List ℕ
pad_by c k = map (λ x. bit_xor x c) k

abbrev pub hash_two : List ℕ → List ℕ → List ℕ
hash_two a b = sha256_final (sha256_update (sha256_update sha256_init a) b)

pub hmac_sha256 : List ℕ → List ℕ → List ℕ
hmac_sha256 key message =
    hash_two (pad_by 0x5c (block_key key)) (hash_two (pad_by 0x36 (block_key key)) message)

-- `t[j]^=u[j]`
abbrev pub xor_bytes : List ℕ → List ℕ → List ℕ
xor_bytes [] us = []
xor_bytes (t ∷ ts) [] = t ∷ ts
xor_bytes (t ∷ ts) (u ∷ us) = bit_xor t u ∷ xor_bytes ts us

-- `for(uint32_t r=2;r<=iters;r++)` from `r` on, on fuel; `none` if the fuel does not last.
pub xor_loop : ℕ → ℕ → ℕ → List ℕ → List ℕ → List ℕ → Option (List ℕ)
xor_loop zero r iters pw u t = none
xor_loop (suc fuel) r iters pw u t =
    let v = hmac_sha256 pw u in
    let rest = xor_loop fuel ((r + 1) % word_range) iters pw v (xor_bytes t v) in
    if leb r iters then rest else some t

-- `concat`
abbrev pub salted : List ℕ → ℕ → List ℕ
salted salt i = take 128 salt ++ put_be32 i

-- `t` for the block `i`, with fuel for the loop on `r`.
pub derived_block : ℕ → List ℕ → List ℕ → ℕ → ℕ → Option (List ℕ)
unfolding xor_loop
derived_block fuel pw salt iters i =
    let u = hmac_sha256 pw (salted salt i) in xor_loop fuel 2 iters pw u u

-- The copy of a block to `out` with `need` bytes left, and the rounds after it.
abbrev pub put_block : ℕ → Option (List ℕ) → (ℕ → Option (List ℕ)) → Option (List ℕ)
put_block need none later = none
put_block need (some t) later =
    later (need - length (take need t)) >>= λ rest. some (take need t ++ rest)

-- `while(pos<outlen)` with `need` bytes left, on fuel: a round takes a byte at least.
pub derive_loop : ℕ → ℕ → List ℕ → List ℕ → ℕ → ℕ → ℕ → Option (List ℕ)
derive_loop zero fuel pw salt iters i need = if need == 0 then some [] else none
derive_loop (suc left) fuel pw salt iters i need =
    let later = derive_loop left fuel pw salt iters ((i + 1) % word_range) in
    if need == 0 then some [] else put_block need (derived_block fuel pw salt iters i) later

-- With fuel for the loop on `r`; `iters` is a `uint32_t`.
pub pbkdf2_hmac_sha256 : ℕ → List ℕ → List ℕ → ℕ → ℕ → Option (List ℕ)
pbkdf2_hmac_sha256 fuel pw salt iters outlen = derive_loop outlen fuel pw salt iters 1 outlen
