-- ===== src/Crypto/Tests.antt =====
-- Known digests of kernel/crypto.c.
use siathos.Prelude.{ℕ, ◌≡◌, refl, List, [], ◌∷◌, replicate}
use siathos.Crypto.{
  sha256_init, sha256_update, sha256_final, sha256_compress, update_loop, words_to_bytes,
}
use siathos.Crypto.Padding.{digest, update_all, concat, sha256_final-update_all}

-- SHA-256 of `abc`.
abc_digest :
    sha256_final (sha256_update sha256_init (97 ∷ 98 ∷ 99 ∷ []))
    ≡ words_to_bytes (
        0xba7816bf ∷ 0x8f01cfea ∷ 0x414140de ∷ 0x5dae2223 ∷ 0xb00361a3 ∷ 0x96177a9c ∷ 0xb410ff61
        ∷ 0xf20015ad ∷ [])
unfolding sha256_final sha256_update sha256_init sha256_compress update_loop
abc_digest = refl

-- Three pieces, of 60, 0 and 70 bytes.
abbrev pieces : List (List ℕ)
pieces = replicate 60 7 ∷ [] ∷ replicate 70 9 ∷ []

sha256_final-update_all_example :
    sha256_final (update_all sha256_init pieces) ≡ digest (concat pieces)
sha256_final-update_all_example = sha256_final-update_all pieces
