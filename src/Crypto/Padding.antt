-- ===== src/Crypto/Padding.antt =====
-- `sha256_final` of kernel/crypto.c against the definition of SHA-256: the message, one bit, zeros and
-- its length make full blocks.
use mathlib.Core.List.{append_assoc, append-nil}
use siathos.Prelude.{
  ℕ, zero, suc, ◌+◌, ◌-◌, ◌*◌, ◌%◌, ◌^◌, ◌<◌, ◌≤◌, ◌≡◌, inl, inr, refl, sym, ap, subst, ◌∙◌, true,
  false, List, [], ◌∷◌, ◌++◌, ltb, if◌then◌else◌, length, length-append, length-replicate,
  replicate, arith, Bool-cases,
}
use siathos.Crypto.{
  block_size, Sha256, sha256_compress, sha256_init, sha256_update, sha256_final, initial,
  length_bytes, bits_bytes, words_to_bytes, fill_to, make_room, last_block,
}
use siathos.Crypto.Feed.{
  feed, feed-append, feed_full, parts, HasRead, waiting, sha256_init-HasRead, sha256_update-HasRead,
}

-- The zeros behind the bit, for a message of `n` bytes.
abbrev pub zeros : ℕ → List ℕ
zeros n = replicate ((119 - n % block_size) % block_size) 0

abbrev pub padding : ℕ → List ℕ
padding n = 0x80 ∷ (zeros n ++ length_bytes n)

-- SHA-256 of a message, its padding in one piece.
abbrev pub digest : List ℕ → List ℕ
digest m = words_to_bytes (feed (initial, []) (m ++ padding (length m))).0

replicate_add : (m n : ℕ) → replicate {A = ℕ} m 0 ++ replicate n 0 ≡ replicate (m + n) 0
replicate_add zero n = let e : n ≡ 0 + n = omega arith in ap (λ k. replicate k 0) e
replicate_add (suc m) n =
    let e : suc (m + n) ≡ suc m + n = omega arith in
    ap (◌∷◌ 0) (replicate_add m n) ∙ ap (λ k. replicate k 0) e

length_bytes_wrap : (n : ℕ) → length_bytes (n % 2 ^ 64) ≡ length_bytes n
length_bytes_wrap n =
    let same : n % 2 ^ 64 * 8 % 2 ^ 64 ≡ n * 8 % 2 ^ 64 = omega arith in ap bits_bytes same

-- The bytes before the length in a block that the bit and zeros lead up to it.
filled :
    (p t : List ℕ) (m k : ℕ)
    → m - length (p ++ (0x80 ∷ [])) ≡ k
    → fill_to m (p ++ (0x80 ∷ [])) ++ t ≡ p ++ (0x80 ∷ (replicate k 0 ++ t))
filled p t m k e =
    ap (λ j. ((p ++ (0x80 ∷ [])) ++ replicate j 0) ++ t) e
    ∙ (append_assoc (p ++ (0x80 ∷ [])) (replicate k 0) t
        ∙ append_assoc p (0x80 ∷ []) (replicate k 0 ++ t))

-- The message ends before the last 8 bytes of a block.
final_one :
    (h p : List ℕ) (n k : ℕ)
    → length p < 56
    → k ≡ 55 - length p
    → last_block (make_room h (p ++ (0x80 ∷ []))) n
      ≡ (feed (h, p) (0x80 ∷ (replicate k 0 ++ length_bytes n))).0
final_one h p n k lt e =
    let one : length (p ++ (0x80 ∷ [])) ≡ length p + 1 =
      omega (arith, length-append p (0x80 ∷ [])) in
    let fits : ltb 56 (length (p ++ (0x80 ∷ []))) ≡ false = ground (arith, one) in
    ap
      (λ b.
        last_block
          (if b
            then (sha256_compress h (fill_to block_size (p ++ (0x80 ∷ []))), [])
            else (h, p ++ (0x80 ∷ [])))
          n)
      fits
    ∙ (ap (sha256_compress h) (filled p (length_bytes n) 56 k (omega (arith, one, e)))
        ∙ sym (
            ap (λ (s : List ℕ × List ℕ). s.0)
              (feed_full h p 0x80 (replicate k 0 ++ length_bytes n) (
                omega (
                  arith,
                  length-append (replicate k 0) (length_bytes n),
                  length-replicate {A = ℕ} k 0,
                  e,
                )))))

-- The bit and zeros fill the block, and one more has zeros and the length.
final_two :
    (h p : List ℕ) (n k : ℕ)
    → 56 ≤ length p
    → length p < block_size
    → k ≡ 119 - length p
    → last_block (make_room h (p ++ (0x80 ∷ []))) n
      ≡ (feed (h, p) (0x80 ∷ (replicate k 0 ++ length_bytes n))).0
final_two h p n k le lt e =
    let one : length (p ++ (0x80 ∷ [])) ≡ length p + 1 =
      omega (arith, length-append p (0x80 ∷ [])) in
    let over : ltb 56 (length (p ++ (0x80 ∷ []))) ≡ true = ground (arith, one) in
    ap
      (λ b.
        last_block
          (if b
            then (sha256_compress h (fill_to block_size (p ++ (0x80 ∷ []))), [])
            else (h, p ++ (0x80 ∷ [])))
          n)
      over
    ∙ (ap (λ b. sha256_compress (sha256_compress h b) (replicate 56 0 ++ length_bytes n)) block
        ∙ sym (ap (λ (s : List ℕ × List ℕ). s.0) fed))
  where
    ones : List ℕ
    ones = replicate (63 - length p) 0

    block : fill_to block_size (p ++ (0x80 ∷ [])) ≡ p ++ (0x80 ∷ ones)
    block =
        sym (append-nil (fill_to block_size (p ++ (0x80 ∷ []))))
        ∙ (filled p [] block_size (63 - length p) (omega (arith, length-append p (0x80 ∷ [])))
            ∙ ap (λ (z : List ℕ). p ++ (0x80 ∷ z)) (append-nil ones))

    count : k ≡ 63 - length p + 56
    count = omega (arith, e, le, lt)

    cut : replicate k 0 ++ length_bytes n ≡ ones ++ (replicate 56 0 ++ length_bytes n)
    cut =
        ap (λ j. replicate j 0 ++ length_bytes n) count
        ∙ (ap (λ (z : List ℕ). z ++ length_bytes n) (sym (replicate_add (63 - length p) 56))
            ∙ append_assoc ones (replicate 56 0) (length_bytes n))

    fed : feed (h, p) (0x80 ∷ (replicate k 0 ++ length_bytes n)) ≡ (
      sha256_compress (sha256_compress h (p ++ (0x80 ∷ ones))) (replicate 56 0 ++ length_bytes n),
      [],
    )
    fed =
        ap (λ (z : List ℕ). feed (h, p) (0x80 ∷ z)) cut
        ∙ (feed-append (h, p) (0x80 ∷ ones) (replicate 56 0 ++ length_bytes n)
            ∙ (ap (λ s. feed s (replicate 56 0 ++ length_bytes n))
                  (feed_full h p 0x80 ones
                    (omega (arith, length-replicate {A = ℕ} (63 - length p) 0, lt)))
                ∙ feed_full (sha256_compress h (p ++ (0x80 ∷ ones))) [] 0
                    (replicate 55 0 ++ length_bytes n) refl))

-- What `sha256_final` writes after the message is the digest.
pub sha256_final-digest : (m : List ℕ) (s : Sha256) → HasRead m s → sha256_final s ≡ digest m
unfolding sha256_final
sha256_final-digest m s r = ap words_to_bytes (
    by_room
    ∙ (ap (λ (l : List ℕ). (feed (parts s) (0x80 ∷ (zeros (length m) ++ l))).0) len
        ∙ (ap (λ t. (feed t (padding (length m))).0) r.fed
            ∙ sym (
                ap (λ (t : List ℕ × List ℕ). t.0)
                  (feed-append (initial, []) m (padding (length m)))))))
  where
    wait : length s.buf ≡ length m % block_size
    wait = waiting m s r

    len : length_bytes s.len ≡ length_bytes (length m)
    len = ap length_bytes r.counted ∙ length_bytes_wrap (length m)

    small_of : ltb (length s.buf) 56 ≡ true → length s.buf < 56
    small_of e = ground arith

    large_of : ltb (length s.buf) 56 ≡ false → 56 ≤ length s.buf
    large_of e = ground arith

    k : ℕ
    k = (119 - length m % block_size) % block_size

    by_room :
        last_block (make_room s.h (s.buf ++ (0x80 ∷ []))) s.len
        ≡ (feed (s.h, s.buf) (0x80 ∷ (replicate k 0 ++ length_bytes s.len))).0
    by_room = elim (Bool-cases (ltb (length s.buf) 56)) [
      | inl small ↦
          final_one s.h s.buf s.len k (small_of small) (omega (arith, wait, small_of small))
      | inr large ↦
          final_two s.h s.buf s.len k (large_of large) (omega (arith, wait))
            (omega (arith, wait, large_of large))
    ]

-- All the pieces of data in turn.
pub update_all : Sha256 → List (List ℕ) → Sha256
update_all s [] = s
update_all s (d ∷ ds) = update_all (sha256_update s d) ds

abbrev pub concat : List (List ℕ) → List ℕ
concat [] = []
concat (d ∷ ds) = d ++ concat ds

update_all-HasRead :
    (m : List ℕ) (ds : List (List ℕ)) (s : Sha256)
    → HasRead m s
    → HasRead (m ++ concat ds) (update_all s ds)
unfolding update_all
update_all-HasRead m [] s r = subst (λ (n : List ℕ). HasRead n s) (sym (append-nil m)) r
update_all-HasRead m (d ∷ ds) s r =
    subst (λ (n : List ℕ). HasRead n (update_all (sha256_update s d) ds))
      (append_assoc m d (concat ds))
      (update_all-HasRead (m ++ d) ds (sha256_update s d) (sha256_update-HasRead m d s r))

-- However a message is cut into pieces for `sha256_update`, also empty ones or ones longer than a
-- block, `sha256_final` gives the SHA-256 digest of the whole message: the compression of each full
-- block, byte by byte, of the message with one bit, zeros and its bit length modulo 2^64.
pub sha256_final-update_all :
    (ds : List (List ℕ)) → sha256_final (update_all sha256_init ds) ≡ digest (concat ds)
sha256_final-update_all ds =
    sha256_final-digest (concat ds) (update_all sha256_init ds)
      (update_all-HasRead [] ds sha256_init sha256_init-HasRead)
