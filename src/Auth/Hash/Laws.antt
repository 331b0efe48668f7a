-- ===== src/Auth/Hash/Laws.antt =====
-- The shape of password hashes of kernel/auth.c.
use siathos.Prelude.{
  ℕ, ◌+◌, ◌*◌, ◌/◌, ◌≡◌, refl, ap, ◌∙◌, false, Option, none, some, ◌>>=◌, List, [], ◌∷◌, ltb,
  if◌then◌else◌, length, take, take_all, Text, min, arith,
}
use siathos.Crypto.Kdf.{pbkdf2_hmac_sha256}
use siathos.Crypto.Kdf.Rounds.{pbkdf2_hmac_sha256-take}
use siathos.Auth.Hash.{hash_iter, gen_salt, hex_to_bytes, hex_bytes, auth_hash_password}

length-hex_bytes : (bs : List ℕ) → length (hex_bytes bs) ≡ 2 * length bs
unfolding hex_bytes
length-hex_bytes [] = refl
length-hex_bytes (b ∷ bs) = omega (arith, length-hex_bytes bs)

length-hex_to_bytes : (t : Text) → length (hex_to_bytes t) ≡ length t / 2
unfolding hex_to_bytes
length-hex_to_bytes [] = refl
length-hex_to_bytes (a ∷ []) = refl
length-hex_to_bytes (a ∷ b ∷ t) = omega (arith, length-hex_to_bytes t)

length-gen_salt : (r1 r2 : ℕ) → length (gen_salt r1 r2) ≡ 32
unfolding gen_salt
length-gen_salt r1 r2 = refl

-- With a salt from `gen_salt`, `auth_hash_password` writes no byte behind its buffers and ends: the salt
-- is 16 bytes, all of which go into PBKDF2 with the first 63 bytes of the password, and the hash has 64
-- characters, as many as the account's field holds with the terminator.
auth_hash_password-gen_salt :
    (password : Text) (r1 r2 : ℕ)
    → (length (hex_to_bytes (gen_salt r1 r2)) ≡ 16)
      × ((key : List ℕ) × (pbkdf2_hmac_sha256
              (hash_iter + 1)
              (take 63 password)
              (hex_to_bytes (gen_salt r1 r2))
              hash_iter
              32
            ≡ some key)
          × (auth_hash_password password (gen_salt r1 r2) ≡ some (hex_bytes key))
          × (length (hex_bytes key) ≡ 64))
unfolding auth_hash_password
auth_hash_password-gen_salt password r1 r2 =
    let (key, derived, whole, value, start) =
      pbkdf2_hmac_sha256-take (take 63 password) salt (hash_iter + 1) hash_iter 32 32 (omega arith)
        (omega arith) (omega arith) in
    (
      bytes,
      (
        key,
        derived,
        ap (λ b. if b then none else hashed (take sl salt)) fits
            ∙ (ap hashed (take_all sl salt (omega (arith, bytes, chars)))
                ∙ ap (λ (o : Option (List ℕ)). o >>= λ h. some (hex_bytes h)) derived),
        length-hex_bytes key ∙ ap (λ (n : ℕ). 2 * n) whole,
      ),
    )
  where
    salt : List ℕ
    salt = hex_to_bytes (gen_salt r1 r2)

    hashed : List ℕ → Option Text
    hashed s = pbkdf2_hmac_sha256 (hash_iter + 1) (take 63 password) s hash_iter 32 >>= λ h.
        some (hex_bytes h)

    chars : length (gen_salt r1 r2) ≡ 32
    chars = length-gen_salt r1 r2

    bytes : length salt ≡ 16
    bytes = length-hex_to_bytes (gen_salt r1 r2) ∙ ap (λ (n : ℕ). n / 2) chars

    sl : ℕ
    sl = min (length (gen_salt r1 r2) / 2) 16

    fits : ltb 16 (length salt) ≡ false
    fits = ap (ltb 16) bytes
