-- ===== src/Crypto/Feed.antt =====
-- SHA-256 of kernel/crypto.c byte by byte: what `sha256_update` comes to, however the data is cut.
use mathlib.Core.List.{append_assoc, append-nil}
use siathos.Prelude.{
  ℕ, zero, suc, ◌+◌, ◌%◌, ◌^◌, ◌<◌, ◌≤◌, ◌≡◌, inl, inr, refl, sym, ap, ◌∙◌, List, [], ◌∷◌, ◌++◌,
  ◌==◌, if◌then◌else◌, length, length-append, length-take, length-drop, take-append-drop, take,
  drop, arith, Bool-cases,
}
use siathos.Crypto.{
  block_size, Sha256, sha256_compress, absorb, part, update_loop, sha256_update, sha256_init,
  initial,
}

-- One byte, to a hash and the bytes that wait for a full block.
abbrev pub push : List ℕ × List ℕ → ℕ → List ℕ × List ℕ
push (h, p) x =
    if length p + 1 == block_size
    then (sha256_compress h (p ++ (x ∷ [])), [])
    else (h, p ++ (x ∷ []))

pub feed : List ℕ × List ℕ → List ℕ → List ℕ × List ℕ
feed s [] = s
feed s (x ∷ m) = feed (push s x) m

pub feed-append : (s : List ℕ × List ℕ) (m n : List ℕ) → feed s (m ++ n) ≡ feed (feed s m) n
unfolding feed
feed-append s [] n = refl
feed-append s (x ∷ m) n = feed-append (push s x) m n

push_short : (h p : List ℕ) (x : ℕ) → length p + 1 < block_size → push (h, p) x ≡ (h, p ++ (x ∷ []))
push_short h p x lt = ground arith

pub feed_short : (h p m : List ℕ) → length p + length m < block_size → feed (h, p) m ≡ (h, p ++ m)
unfolding feed
feed_short h p [] lt = ap (λ (q : List ℕ). (h, q)) (sym (append-nil p))
feed_short h p (x ∷ m) lt =
    ap (λ s. feed s m) (push_short h p x (omega arith))
    ∙ (feed_short h (p ++ (x ∷ [])) m (omega (arith, length-append p (x ∷ [])))
        ∙ ap (λ (q : List ℕ). (h, q)) (append_assoc p (x ∷ []) m))

pub feed_full :
    (h p : List ℕ) (x : ℕ) (m : List ℕ)
    → length p + length (x ∷ m) ≡ block_size
    → feed (h, p) (x ∷ m) ≡ (sha256_compress h (p ++ (x ∷ m)), [])
unfolding feed
feed_full h p x [] e = ground arith
feed_full h p x (y ∷ m) e =
    ap (λ s. feed s (y ∷ m)) (push_short h p x (omega arith))
    ∙ (feed_full h (p ++ (x ∷ [])) y m (omega (arith, length-append p (x ∷ []), e))
        ∙ ap (λ (q : List ℕ). (sha256_compress h q, [])) (append_assoc p (x ∷ []) (y ∷ m)))

abbrev pub parts : Sha256 → List ℕ × List ℕ
parts s = (s.h, s.buf)

absorb-feed :
    (s : Sha256) (x : ℕ) (m : List ℕ)
    → length s.buf + length (x ∷ m) ≤ block_size
    → parts (absorb (x ∷ m) s) ≡ feed (parts s) (x ∷ m)
absorb-feed s x m le = elim (Bool-cases (length (s.buf ++ (x ∷ m)) == block_size)) [
  | inl full ↦
      rw full (sym (feed_full s.h s.buf x m (ground (arith, full, length-append s.buf (x ∷ m)))))
  | inr room ↦
      rw room
        (sym (feed_short s.h s.buf (x ∷ m) (ground (arith, room, length-append s.buf (x ∷ m)))))
]

absorb_part :
    (n : ℕ) (s : Sha256) (x : ℕ) (d : List ℕ)
    → 1 ≤ n
    → length s.buf + n ≤ block_size
    → parts (absorb (take n (x ∷ d)) s) ≡ feed (parts s) (take n (x ∷ d))
absorb_part zero s x d pos le = absurd (omega arith)
absorb_part (suc n) s x d pos le = absorb-feed s x (take n d) (omega (arith, length-take n d))

absorb_len : (m : List ℕ) (s : Sha256) → (absorb m s).len ≡ s.len
absorb_len m s = ground arith

absorb_short :
    (m : List ℕ) (s : Sha256)
    → length s.buf + length m ≤ block_size
    → length (absorb m s).buf < block_size
absorb_short m s le = ground (arith, length-append s.buf m)

-- With fuel for each byte the loop takes all the data.
update_loop-feed :
    (fuel : ℕ) (s : Sha256) (d : List ℕ)
    → length d ≤ fuel
    → length s.buf < block_size
    → parts (update_loop fuel s d) ≡ feed (parts s) d
unfolding update_loop feed
update_loop-feed fuel s [] enough short = refl
update_loop-feed zero s (x ∷ d) enough short = absurd (omega arith)
update_loop-feed (suc fuel) s (x ∷ d) enough short =
    update_loop-feed fuel (absorb (take n (x ∷ d)) s) (drop n (x ∷ d))
      (omega (arith, length-drop n (x ∷ d), enough, takes))
      (absorb_short (take n (x ∷ d)) s (omega (arith, length-take n (x ∷ d), fits)))
    ∙ (ap (λ t. feed t (drop n (x ∷ d))) (absorb_part n s x d takes fits)
        ∙ (sym (feed-append (parts s) (take n (x ∷ d)) (drop n (x ∷ d)))
            ∙ ap (feed (parts s)) (take-append-drop n (x ∷ d))))
  where
    n : ℕ
    n = part s (x ∷ d)

    takes : 1 ≤ n
    takes = omega (arith, short)

    fits : length s.buf + n ≤ block_size
    fits = omega (arith, short)

update_loop_len : (fuel : ℕ) (s : Sha256) (d : List ℕ) → (update_loop fuel s d).len ≡ s.len
unfolding update_loop
update_loop_len zero s [] = refl
update_loop_len (suc fuel) s [] = refl
update_loop_len zero s (x ∷ d) = refl
update_loop_len (suc fuel) s (x ∷ d) =
    let n = part s (x ∷ d) in
    update_loop_len fuel (absorb (take n (x ∷ d)) s) (drop n (x ∷ d))
    ∙ absorb_len (take n (x ∷ d)) s

push_waiting :
    (s : List ℕ × List ℕ) (x : ℕ)
    → length s.1 < block_size
    → length (push s x).1 ≡ (length s.1 + 1) % block_size
push_waiting (h, p) x lt = ground (arith, length-append p (x ∷ []))

-- The bytes that wait are those behind the last full block.
pub feed_waiting :
    (s : List ℕ × List ℕ) (m : List ℕ)
    → length s.1 < block_size
    → length (feed s m).1 ≡ (length s.1 + length m) % block_size
unfolding feed
feed_waiting s [] lt = omega (arith, lt)
feed_waiting s (x ∷ m) lt =
    let now = push_waiting s x lt in
    feed_waiting (push s x) m (omega (arith, now)) ∙ omega (arith, now, lt)

-- The context stands for the message `m` that came in so far.
pub record HasRead (m : List ℕ) (s : Sha256) : Type 0 where
  pub fed : parts s ≡ feed (initial, []) m
  pub counted : s.len ≡ length m % 2 ^ 64

pub sha256_init-HasRead : HasRead [] sha256_init
unfolding sha256_init feed
sha256_init-HasRead = record { fed = refl; counted = refl }

pub waiting : (m : List ℕ) (s : Sha256) → HasRead m s → length s.buf ≡ length m % block_size
waiting m s r = omega (
  arith,
  ap (λ (q : List ℕ × List ℕ). length q.1) r.fed ∙ feed_waiting (initial, []) m (omega arith),
)

pub sha256_update-HasRead :
    (m d : List ℕ) (s : Sha256) → HasRead m s → HasRead (m ++ d) (sha256_update s d)
unfolding sha256_update
sha256_update-HasRead m d s r = record {
  fed =
      update_loop-feed (length d) (record s { len = (s.len + length d) % 2 ^ 64 }) d (omega arith)
        (omega (arith, waiting m s r))
      ∙ (ap (λ t. feed t d) r.fed ∙ sym (feed-append (initial, []) m d));
  counted =
      update_loop_len (length d) (record s { len = (s.len + length d) % 2 ^ 64 }) d
      ∙ omega (arith, r.counted, length-append m d);
}
