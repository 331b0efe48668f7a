-- ===== src/Pmm/Free.antt =====
-- `pmm_free` gives pages back, and `pmm_reserve` takes them; any sequence of calls keeps the count
-- of used pages right.
use siathos.Prelude.{
  ℕ, zero, suc, ◌+◌, ◌-◌, ◌*◌, ◌/◌, ◌^◌, ◌≤◌, ◌<◌, ◌≡◌, ◌≢◌, inl, inr, refl, false, ◌&&◌, ◌||◌,
  arith, ltb, leb, ◌==◌, if◌then◌else◌, Bool-cases, ap, ◌∙◌, List, [], ◌∷◌,
}
use siathos.Pmm.{
  Pmm, add64, sub64, page_down, alloc, free, free_page, free_range, reserve, reserve_page,
  reserve_range, reserve_rounds,
}
use siathos.Pmm.Bitmap.{PageMap, is_used, is_used-clear}
use siathos.Pmm.Count.{IsValid, count_used, count_used_ext, count_used-mark, count_used-clear}
use siathos.Pmm.Alloc.{Allocated, alloc-first_fit, alloc-IsValid, run-le}

free_page-count :
    (total : ℕ) (m : PageMap) (idx freed : ℕ)
    → let (m', freed') = free_page total m idx freed in
      count_used m' total + freed' ≡ count_used m total + freed
unfolding free_page
free_page-count total m idx freed = ground (arith, count_used-clear m idx total)

-- `freed` counts the pages that the loop takes out of use.
free_range-count :
    (total : ℕ) (m : PageMap) (idx n freed : ℕ)
    → let (m', freed') = free_range total m idx n freed in
      count_used m' total + freed' ≡ count_used m total + freed
unfolding free_range
free_range-count total m idx zero freed = refl
free_range-count total m idx (suc n) freed =
    let (m', freed') = free_page total m idx freed in
    omega
      (arith, free_page-count total m idx freed, free_range-count total m' (add64 idx 1) n freed')

free_range-bits :
    (total : ℕ) (m : PageMap) (idx n freed j : ℕ)
    → idx + n ≤ total
    → total < 2 ^ 64
    → is_used (free_range total m idx n freed).0 j
      ≡ (if leb idx j && ltb j (idx + n) then false else is_used m j)
unfolding free_range free_page
free_range-bits total m idx zero freed j h s = ground arith
free_range-bits total m idx (suc n) freed j h s =
    let (m', freed') = free_page total m idx freed in
    rw (next, free_range)
      (ground (arith, is_used-clear m idx j, free_range-bits total m' (idx + 1) n freed' j))
  where
    next : add64 idx 1 ≡ idx + 1
    next = omega arith

-- `freed` never exceeds `pages_used`, so the guard of the last line of `pmm_free` is not needed.
free_count :
    (p : Pmm) (first n : ℕ)
    → IsValid p
    → let (m, freed) = free_range p.pages_total p.bitmap first n 0 in
      (if ltb p.pages_used freed then 0 else p.pages_used - freed) ≡ count_used m p.pages_total
free_count p first n v =
    ground (arith, free_range-count p.pages_total p.bitmap first n 0, v.counted)

pub free-IsValid : (p : Pmm) (addr n : ℕ) → IsValid p → IsValid (free p addr n)
unfolding free
free-IsValid p addr n v = elim (Bool-cases (addr == 0 || n == 0)) [
  | inl e ↦ rw e v
  | inr e ↦ rw e (record {
    counted = free_count p (sub64 addr p.base / 4096) n v;
    small = v.small;
    at_zero = v.at_zero;
  })
]

free-bits :
    (q : Pmm) (k n j : ℕ)
    → IsValid q
    → k ≢ 0
    → n ≢ 0
    → k + n ≤ q.pages_total
    → is_used (free q (k * 4096) n).bitmap j
      ≡ (if leb k j && ltb j (k + n) then false else is_used q.bitmap j)
unfolding free
free-bits q k n j v hk hn h =
    rw (calls, first) (free_range-bits q.pages_total q.bitmap k n 0 j h (omega (arith, v.small)))
  where
    first : sub64 (k * 4096) q.base / 4096 ≡ k
    first = omega (arith, v.small, v.at_zero)

    calls : (k * 4096 == 0 || n == 0) ≡ false
    calls = ground arith

total-free : (q : Pmm) (addr n : ℕ) → (free q addr n).pages_total ≡ q.pages_total
unfolding free
total-free q addr n = ground arith

-- Giving a run back right after `pmm_alloc` returned it restores the use of every page and the
-- number of used pages, if the run does not start at page 0, whose address reads as a failure.
pub free-alloc :
    (p : Pmm) (n : ℕ)
    → IsValid p
    → 0 < n
    → (alloc p n).0 ≢ 0
    → let q = free (alloc p n).1 (alloc p n).0 n in
      ((j : ℕ) → is_used q.bitmap j ≡ is_used p.bitmap j) × (q.pages_used ≡ p.pages_used)
free-alloc p n v pos ok = elim (alloc-first_fit p n v pos) [
  | inl (e, _) ↦ absurd (ok (rw e))
  | inr (k, at, a) ↦ (bits k at a, used k at a)
]
  where
    q : Pmm
    q = (alloc p n).1

    bits :
        (k : ℕ)
        → (alloc p n).0 ≡ k * 4096
        → Allocated p n k q
        → (j : ℕ) → is_used (free q (alloc p n).0 n).bitmap j ≡ is_used p.bitmap j
    bits k at a j = rw at (
        ground (
          arith,
          free-bits q k n j (alloc-IsValid p n v),
          run-le p k n pos a.run,
          a.bits j,
          a.run j,
          a.total,
          at,
        ))

    used :
        (k : ℕ)
        → (alloc p n).0 ≡ k * 4096
        → Allocated p n k q
        → (free q (alloc p n).0 n).pages_used ≡ p.pages_used
    used k at a = omega (
      arith,
      (free-IsValid q (alloc p n).0 n (alloc-IsValid p n v)).counted,
      ap (count_used (free q (alloc p n).0 n).bitmap) (total-free q (alloc p n).0 n ∙ a.total),
      count_used_ext (free q (alloc p n).0 n).bitmap p.bitmap p.pages_total (bits k at a),
      v.counted,
    )

pub reserve_page-IsValid : (p : Pmm) (idx : ℕ) → IsValid p → IsValid (reserve_page p idx)
unfolding reserve_page
reserve_page-IsValid p idx v = ground (arith, count_used-mark p.bitmap idx p.pages_total)

pub reserve_range-IsValid : (p : Pmm) (idx n : ℕ) → IsValid p → IsValid (reserve_range p idx n)
unfolding reserve_range
reserve_range-IsValid p idx zero v = v
reserve_range-IsValid p idx (suc n) v =
    reserve_range-IsValid (reserve_page p idx) (idx + 1) n (reserve_page-IsValid p idx v)

pub reserve-IsValid : (p : Pmm) (base size : ℕ) → IsValid p → IsValid (reserve p base size)
unfolding reserve
reserve-IsValid p base size v =
    ground (arith, reserve_range-IsValid p (page_down base / 4096) (reserve_rounds base size))

pub data Call : Type 0 where
  allocates : ℕ → Call
  frees reserves : ℕ → ℕ → Call

unfoldable pub step : Pmm → Call → Pmm
step p (allocates n) = (alloc p n).1
step p (frees addr n) = free p addr n
step p (reserves base size) = reserve p base size

unfoldable pub run : Pmm → List Call → Pmm
run p [] = p
run p (c ∷ cs) = run (step p c) cs

step-IsValid : (p : Pmm) (c : Call) → IsValid p → IsValid (step p c)
unfolding step
step-IsValid p (allocates n) v = alloc-IsValid p n v
step-IsValid p (frees addr n) v = free-IsValid p addr n v
step-IsValid p (reserves base size) v = reserve-IsValid p base size v

-- After any sequence of calls of `pmm_alloc`, `pmm_free` and `pmm_reserve` on a valid state, whatever
-- their arguments, `pmm_pages_used` is the number of managed pages whose bit is set.
pub run-IsValid : (p : Pmm) (cs : List Call) → IsValid p → IsValid (run p cs)
unfolding run
run-IsValid p [] v = v
run-IsValid p (c ∷ cs) v = run-IsValid (step p c) cs (step-IsValid p c v)
