-- ===== src/Crypto.antt =====
-- SHA-256, HMAC and PBKDF2 of kernel/crypto.c. Bytes and 32-bit words are numbers. `buf` is the list
-- of the first `buflen` bytes of the buffer; the others are written before they are read.
pub mod Feed
pub mod Padding
pub mod Kdf
mod Tests
use siathos.Prelude.{
  ℕ, zero, suc, ◌+◌, ◌-◌, ◌*◌, ◌/◌, ◌%◌, ◌^◌, List, [], ◌∷◌, ◌++◌, map, leb, ltb, ◌==◌,
  if◌then◌else◌, length, get_or, take, drop, replicate, min, bit_and, bit_or, bit_xor,
}

-- `SHA256_BLOCK`
abbrev pub block_size : ℕ
block_size = 64

-- `SHA256_STATE`
abbrev pub state_size : ℕ
state_size = 32

abbrev pub word_range : ℕ
word_range = 2 ^ 32

-- `sha256_ctx_t`
pub record Sha256 : Type 0 where
  pub h : List ℕ
  pub len : ℕ
  pub buf : List ℕ

-- `K`
abbrev round_keys : List ℕ
round_keys =
    0x428a2f98 ∷ 0x71374491 ∷ 0xb5c0fbcf ∷ 0xe9b5dba5 ∷ 0x3956c25b ∷ 0x59f111f1 ∷ 0x923f82a4
    ∷ 0xab1c5ed5 ∷ 0xd807aa98 ∷ 0x12835b01 ∷ 0x243185be ∷ 0x550c7dc3 ∷ 0x72be5d74 ∷ 0x80deb1fe
    ∷ 0x9bdc06a7 ∷ 0xc19bf174 ∷ 0xe49b69c1 ∷ 0xefbe4786 ∷ 0x0fc19dc6 ∷ 0x240ca1cc ∷ 0x2de92c6f
    ∷ 0x4a7484aa ∷ 0x5cb0a9dc ∷ 0x76f988da ∷ 0x983e5152 ∷ 0xa831c66d ∷ 0xb00327c8 ∷ 0xbf597fc7
    ∷ 0xc6e00bf3 ∷ 0xd5a79147 ∷ 0x06ca6351 ∷ 0x14292967 ∷ 0x27b70a85 ∷ 0x2e1b2138 ∷ 0x4d2c6dfc
    ∷ 0x53380d13 ∷ 0x650a7354 ∷ 0x766a0abb ∷ 0x81c2c92e ∷ 0x92722c85 ∷ 0xa2bfe8a1 ∷ 0xa81a664b
    ∷ 0xc24b8b70 ∷ 0xc76c51a3 ∷ 0xd192e819 ∷ 0xd6990624 ∷ 0xf40e3585 ∷ 0x106aa070 ∷ 0x19a4c116
    ∷ 0x1e376c08 ∷ 0x2748774c ∷ 0x34b0bcb5 ∷ 0x391c0cb3 ∷ 0x4ed8aa4a ∷ 0x5b9cca4f ∷ 0x682e6ff3
    ∷ 0x748f82ee ∷ 0x78a5636f ∷ 0x84c87814 ∷ 0x8cc70208 ∷ 0x90befffa ∷ 0xa4506ceb ∷ 0xbef9a3f7
    ∷ 0xc67178f2 ∷ []

abbrev pub rotr32 : ℕ → ℕ → ℕ
rotr32 x n = bit_or (x / 2 ^ n) (x * 2 ^ (32 - n) % word_range)

abbrev pub be32 : ℕ → ℕ → ℕ → ℕ → ℕ
be32 a b c d = bit_or (bit_or (bit_or (a * 2 ^ 24) (b * 2 ^ 16)) (c * 2 ^ 8)) d

abbrev pub put_be32 : ℕ → List ℕ
put_be32 v = v / 2 ^ 24 % 256 ∷ v / 2 ^ 16 % 256 ∷ v / 2 ^ 8 % 256 ∷ v % 256 ∷ []

-- `w[0]` to `w[15]`
abbrev load_words : ℕ → List ℕ → List ℕ
load_words zero block = []
load_words (suc n) block =
    be32 (get_or block 0 0) (get_or block 1 0) (get_or block 2 0) (get_or block 3 0)
    ∷ load_words n (drop 4 block)

abbrev xor3 : ℕ → ℕ → ℕ → ℕ
xor3 a b c = bit_xor (bit_xor a b) c

-- `w[i]` from the words before it.
abbrev next_word : ℕ → List ℕ → ℕ
next_word i w =
    let x = get_or w (i - 15) 0 in
    let y = get_or w (i - 2) 0 in
    let s0 = xor3 (rotr32 x 7) (rotr32 x 18) (x / 2 ^ 3) in
    let s1 = xor3 (rotr32 y 17) (rotr32 y 19) (y / 2 ^ 10) in
    (get_or w (i - 16) 0 + s0 + get_or w (i - 7) 0 + s1) % word_range

abbrev extend : ℕ → ℕ → List ℕ → List ℕ
extend zero i w = w
extend (suc n) i w = extend n (i + 1) (w ++ (next_word i w ∷ []))

-- The variables `a` to `hh`.
pub record Vars : Type 0 where
  pub a : ℕ
  pub b : ℕ
  pub c : ℕ
  pub d : ℕ
  pub e : ℕ
  pub f : ℕ
  pub g : ℕ
  pub hh : ℕ

abbrev round : ℕ → ℕ → Vars → Vars
round k w v =
    let s1 = xor3 (rotr32 v.e 6) (rotr32 v.e 11) (rotr32 v.e 25) in
    let ch = bit_xor (bit_and v.e v.f) (bit_and (word_range - 1 - v.e) v.g) in
    let t1 = (v.hh + s1 + ch + k + w) % word_range in
    let s0 = xor3 (rotr32 v.a 2) (rotr32 v.a 13) (rotr32 v.a 22) in
    let maj = xor3 (bit_and v.a v.b) (bit_and v.a v.c) (bit_and v.b v.c) in
    let t2 = (s0 + maj) % word_range in
    record {
      a = (t1 + t2) % word_range;
      b = v.a;
      c = v.b;
      d = v.c;
      e = (v.d + t1) % word_range;
      f = v.e;
      g = v.f;
      hh = v.g;
    }

abbrev rounds : List ℕ → List ℕ → Vars → Vars
rounds [] ws v = v
rounds (k ∷ ks) [] v = v
rounds (k ∷ ks) (w ∷ ws) v = rounds ks ws (round k w v)

abbrev vars_of : List ℕ → Vars
vars_of h = record {
  a = get_or h 0 0;
  b = get_or h 1 0;
  c = get_or h 2 0;
  d = get_or h 3 0;
  e = get_or h 4 0;
  f = get_or h 5 0;
  g = get_or h 6 0;
  hh = get_or h 7 0;
}

abbrev add32 : ℕ → ℕ → ℕ
add32 x y = (x + y) % word_range

abbrev add_vars : Vars → Vars → List ℕ
add_vars u v =
    add32 u.a v.a
    ∷ add32 u.b v.b
    ∷ add32 u.c v.c
    ∷ add32 u.d v.d
    ∷ add32 u.e v.e
    ∷ add32 u.f v.f
    ∷ add32 u.g v.g
    ∷ add32 u.hh v.hh
    ∷ []

-- The new `h` of `sha256_compress`.
pub sha256_compress : List ℕ → List ℕ → List ℕ
sha256_compress h block =
    add_vars (vars_of h) (rounds round_keys (extend 48 16 (load_words 16 block)) (vars_of h))

abbrev pub initial : List ℕ
initial =
    0x6a09e667 ∷ 0xbb67ae85 ∷ 0x3c6ef372 ∷ 0xa54ff53a ∷ 0x510e527f ∷ 0x9b05688c ∷ 0x1f83d9ab
    ∷ 0x5be0cd19 ∷ []

pub sha256_init : Sha256
sha256_init = record { h = initial; len = 0; buf = [] }

-- The bytes copied in a round of the loop, and the compression where they fill the buffer.
abbrev pub absorb : List ℕ → Sha256 → Sha256
absorb bytes s =
    if length (s.buf ++ bytes) == block_size
    then record s { h = sha256_compress s.h (s.buf ++ bytes); buf = [] }
    else record s { buf = s.buf ++ bytes }

-- The number of bytes that a round takes.
abbrev pub part : Sha256 → List ℕ → ℕ
part s d = min (block_size - length s.buf) (length d)

-- `while(len)`, on fuel; each round takes a byte at least, so `length d` rounds are enough.
pub update_loop : ℕ → Sha256 → List ℕ → Sha256
update_loop fuel s [] = s
update_loop zero s (x ∷ d) = s
update_loop (suc fuel) s (x ∷ d) =
    let n = part s (x ∷ d) in update_loop fuel (absorb (take n (x ∷ d)) s) (drop n (x ∷ d))

pub sha256_update : Sha256 → List ℕ → Sha256
sha256_update s d = update_loop (length d) (record s { len = (s.len + length d) % 2 ^ 64 }) d

-- `bitlen`
abbrev pub bits_bytes : ℕ → List ℕ
bits_bytes bits = put_be32 (bits / 2 ^ 32) ++ put_be32 (bits % word_range)

abbrev pub length_bytes : ℕ → List ℕ
length_bytes len = bits_bytes (len * 8 % 2 ^ 64)

abbrev pub words_to_bytes : List ℕ → List ℕ
words_to_bytes [] = []
words_to_bytes (w ∷ ws) = put_be32 w ++ words_to_bytes ws

-- `while(c->buflen < n) c->buf[c->buflen++] = 0;`
abbrev pub fill_to : ℕ → List ℕ → List ℕ
fill_to n buf = buf ++ replicate (n - length buf) 0

-- The first `if` of `sha256_final`.
abbrev pub make_room : List ℕ → List ℕ → List ℕ × List ℕ
make_room h buf =
    if ltb 56 (length buf) then (sha256_compress h (fill_to block_size buf), []) else (h, buf)

abbrev pub last_block : List ℕ × List ℕ → ℕ → List ℕ
last_block (h, buf) len = sha256_compress h (fill_to 56 buf ++ length_bytes len)

pub sha256_final : Sha256 → List ℕ
sha256_final s = words_to_bytes (last_block (make_room s.h (s.buf ++ (0x80 ∷ []))) s.len)
