-- ===== src/Auth/Hash.antt =====
-- The password hash of kernel/auth.c: `auth_hash_password`, with hexadecimal salts and hashes.
pub mod Laws
use siathos.Prelude.{
  ℕ, zero, suc, ◌+◌, ◌-◌, ◌*◌, ◌/◌, ◌%◌, ◌&&◌, Option, none, some, ◌>>=◌, List, [], ◌∷◌, ◌++◌, leb,
  ltb, if◌then◌else◌, length, take, min, bit_or, Text,
}
use siathos.Crypto.Kdf.{pbkdf2_hmac_sha256}

-- `AUTH_HASH_ITER`
abbrev pub hash_iter : ℕ
hash_iter = 100000

abbrev pub hex_digit : ℕ → ℕ
hex_digit n = if ltb n 10 then b'0' + n else b'a' + n - 10

-- `"%016llx"`, for 16 digits.
abbrev pub hex_word : ℕ → ℕ → Text
hex_word zero r = []
hex_word (suc n) r = hex_word n (r / 16) ++ (hex_digit (r % 16) ∷ [])

-- `r1` and `r2` are what `rand64` gives.
pub gen_salt : ℕ → ℕ → Text
gen_salt r1 r2 = hex_word 16 r1 ++ hex_word 16 r2

-- `v` from `hi`, or `lv` from `lo`.
abbrev pub digit_value : ℕ → ℕ
digit_value c =
    if leb b'0' c && leb c b'9'
    then c - b'0'
    else if leb b'a' c && leb c b'f'
    then c - b'a' + 10
    else if leb b'A' c && leb c b'F'
    then c - b'A' + 10
    else 0

pub hex_to_bytes : Text → List ℕ
hex_to_bytes [] = []
hex_to_bytes (hi ∷ []) = []
hex_to_bytes (hi ∷ lo ∷ hex) =
    bit_or (digit_value hi * 16 % 256) (digit_value lo) ∷ hex_to_bytes hex

-- `"%02x"` of each byte.
pub hex_bytes : List ℕ → Text
hex_bytes [] = []
hex_bytes (b ∷ bs) = hex_digit (b / 16) ∷ hex_digit (b % 16) ∷ hex_bytes bs

-- `none` stands for a write behind the 16 bytes of `salt_bytes`; the fuel is one more than the rounds,
-- which is enough.
pub auth_hash_password : Text → Text → Option Text
unfolding hex_to_bytes hex_bytes
auth_hash_password password salt =
    let salt_bytes = hex_to_bytes salt in
    let sl = min (length salt / 2) 16 in
    if ltb 16 (length salt_bytes)
    then none
    else (pbkdf2_hmac_sha256 (hash_iter + 1) (take 63 password) (take sl salt_bytes) hash_iter 32
        >>= λ h. some (hex_bytes h))
