-- ===== src/Crypto/Kdf/Tests.antt =====
-- Known values of HMAC and PBKDF2 of kernel/crypto.c.
use siathos.Prelude.{ℕ, ◌≡◌, refl, some, List, [], ◌∷◌, length, take, arith}
use siathos.Crypto.{
  sha256_init, sha256_update, sha256_final, sha256_compress, update_loop, words_to_bytes,
}
use siathos.Crypto.Kdf.{hmac_sha256, xor_loop, derived_block, derive_loop, pbkdf2_hmac_sha256}
use siathos.Crypto.Kdf.Key.{blocks}
use siathos.Crypto.Kdf.Rounds.{pbkdf2_hmac_sha256-take}

-- `password`, `salt`
abbrev password : List ℕ
password = 112 ∷ 97 ∷ 115 ∷ 115 ∷ 119 ∷ 111 ∷ 114 ∷ 100 ∷ []

abbrev salt : List ℕ
salt = 115 ∷ 97 ∷ 108 ∷ 116 ∷ []

-- Two rounds, 20 bytes.
two_rounds :
    pbkdf2_hmac_sha256 3 password salt 2 20
    ≡ some (words_to_bytes (0xae4d0c95 ∷ 0xaf6b46d3 ∷ 0x2d0adff9 ∷ 0x28f06dd0 ∷ 0x2a303f8e ∷ []))
unfolding pbkdf2_hmac_sha256 derive_loop derived_block xor_loop hmac_sha256 sha256_final
    sha256_update sha256_init sha256_compress update_loop
two_rounds = refl

pbkdf2_hmac_sha256-take_example :
    (long : List ℕ) × (pbkdf2_hmac_sha256 3 password salt 2 70 ≡ some long)
    × (length long ≡ 70)
    × (long ≡ take 70 (blocks 70 password salt 2 1))
    × (pbkdf2_hmac_sha256 3 password salt 2 40 ≡ some (take 40 long))
pbkdf2_hmac_sha256-take_example =
    pbkdf2_hmac_sha256-take password salt 3 2 40 70 (omega arith) (omega arith) (omega arith)
