-- ===== src/Pmm/Alloc.antt =====
-- `pmm_alloc` finds the first run of free pages, and takes that run.
use siathos.Prelude.{
  ℕ, zero, suc, ◌+◌, ◌*◌, ◌≤◌, ◌<◌, ◌≡◌, ◌⊎◌, inl, inr, refl, true, false, none, some, ◌&&◌, arith,
  ltb, leb, if◌then◌else◌, Bool-cases, Option-cases, ℕ_discrete,
}
use siathos.Pmm.{Pmm, add64, mark_range, range_fits, first_fit, alloc}
use siathos.Pmm.Bitmap.{is_used}
use siathos.Pmm.Count.{IsValid, is_used-mark_range, count_used-mark_range}

-- The `n` pages from `i` on are managed and free.
abbrev pub IsRun : Pmm → ℕ → ℕ → Type 0
IsRun p i n = (j : ℕ) → i ≤ j → j < i + n → (j < p.pages_total) × (is_used p.bitmap j ≡ false)

pub range_fits-IsRun : (p : Pmm) (i n : ℕ) → range_fits p i n ≡ true → IsRun p i n
unfolding range_fits
range_fits-IsRun p i zero e j lo hi = absurd (omega arith)
range_fits-IsRun p i (suc n) e j lo hi =
    ground (arith, λ (q : range_fits p (i + 1) n ≡ true). range_fits-IsRun p (i + 1) n q j)

pub range_fits_of_run : (p : Pmm) (i n : ℕ) → IsRun p i n → range_fits p i n ≡ true
unfolding range_fits
range_fits_of_run p i zero h = refl
range_fits_of_run p i (suc n) h = ground (
  arith,
  h i (omega arith) (omega arith),
  range_fits_of_run p (i + 1) n (λ j lo hi. h j (omega arith) (omega arith)),
)

first_fit-some :
    (p : Pmm) (pages i n k : ℕ)
    → first_fit p pages i n ≡ some k
    → (range_fits p k pages ≡ true)
      × (i ≤ k)
      × (k < i + n)
      × ((j : ℕ) → i ≤ j → j < k → range_fits p j pages ≡ false)
unfolding first_fit
first_fit-some p pages i zero k e = absurd (ground arith)
first_fit-some p pages i (suc n) k e = elim (Bool-cases (range_fits p i pages)) [
  | inl fits ↦
      let same : i ≡ k = ground arith in
      (rw (← same) fits, omega arith, omega arith, λ j lo hi. absurd (omega arith))
  | inr busy ↦
      let (fits, lo, hi, first) = first_fit-some p pages (i + 1) n k (ground arith) in
      (fits, omega arith, omega arith, λ j p' q. ground (arith, first j))
]

first_fit-none :
    (p : Pmm) (pages i n : ℕ)
    → first_fit p pages i n ≡ none
    → (j : ℕ) → i ≤ j
    → j < i + n
    → range_fits p j pages ≡ false
unfolding first_fit
first_fit-none p pages i zero e j lo hi = absurd (omega arith)
first_fit-none p pages i (suc n) e j lo hi = elim (ℕ_discrete i j) [
  | yes same ↦ rw (← same) (ground arith)
  | no other ↦ first_fit-none p pages (i + 1) n (ground arith) j (omega arith) (omega arith)
]

-- What a successful call gives: the run, the first of its size, and the state after.
pub record Allocated (p : Pmm) (n k : ℕ) (q : Pmm) : Type 0 where
  pub run : IsRun p k n
  pub first : (j : ℕ) → j < k → ¬ IsRun p j n
  pub bits :
      (j : ℕ) → is_used q.bitmap j ≡ (if leb k j && ltb j (k + n) then true else is_used p.bitmap j)
  pub used : q.pages_used ≡ p.pages_used + n
  pub total : q.pages_total ≡ p.pages_total
  pub at_zero : q.base ≡ 0

pub run-le : (p : Pmm) (k n : ℕ) → 0 < n → IsRun p k n → k + n ≤ p.pages_total
run-le p k zero pos h = absurd (omega arith)
run-le p k (suc n) pos h = omega (arith, (h (k + n) (omega arith) (omega arith)).0)

alloc_of_none :
    (p : Pmm) (n : ℕ) → first_fit p (suc n) 0 p.pages_total ≡ none → alloc p (suc n) ≡ (0, p)
unfolding alloc
alloc_of_none p n e = rw (e, alloc) (ground arith)

alloc_of_some :
    (p : Pmm) (n k : ℕ)
    → first_fit p (suc n) 0 p.pages_total ≡ some k
    → alloc p (suc n) ≡ (
      add64 (k * 4096) p.base,
      record p { bitmap = mark_range p.bitmap k (suc n); pages_used = p.pages_used + suc n },
    )
unfolding alloc
alloc_of_some p n k e = rw (e, alloc) (ground arith)

-- For a positive number of pages, `pmm_alloc` either returns 0, changes nothing and every run of
-- that many pages is broken by a page in use or past the end; or it returns the address of the
-- first run of free pages of that size, and then exactly those pages become used.
pub alloc-first_fit :
    (p : Pmm) (n : ℕ)
    → IsValid p
    → 0 < n
    → ((alloc p n ≡ (0, p)) × ((j : ℕ) → ¬ IsRun p j n))
      ⊎ ((k : ℕ) × ((alloc p n).0 ≡ k * 4096) × Allocated p n k (alloc p n).1)
alloc-first_fit p zero v pos = absurd (omega arith)
alloc-first_fit p (suc n) v pos = elim (Option-cases (first_fit p (suc n) 0 p.pages_total)) [
  | inl e ↦ inl (alloc_of_none p n e, λ j. no_run e j)
  | inr (k, e) ↦ inr (k, (took k e).0, (took k e).1)
]
  where
    no_run : first_fit p (suc n) 0 p.pages_total ≡ none → (j : ℕ) → ¬ IsRun p j (suc n)
    no_run e j run =
        let (in_range, free) = run j (omega arith) (omega arith) in
        let busy =
          first_fit-none p (suc n) 0 p.pages_total e j (omega arith) (omega (arith, in_range)) in
        ground (arith, busy, range_fits_of_run p j (suc n) run)

    took :
        (k : ℕ)
        → first_fit p (suc n) 0 p.pages_total ≡ some k
        → ((alloc p (suc n)).0 ≡ k * 4096) × Allocated p (suc n) k (alloc p (suc n)).1
    took k e =
        let (fits, lo, hi, first) = first_fit-some p (suc n) 0 p.pages_total k e in
        rw (alloc_of_some p n k e) (
          omega (arith, v.small, v.at_zero),
          record {
            run = range_fits-IsRun p k (suc n) fits;
            first = λ j lt earlier.
                ground (arith, first j (omega arith) lt, range_fits_of_run p j (suc n) earlier);
            bits = is_used-mark_range p.bitmap k (suc n);
            used = refl;
            total = refl;
            at_zero = v.at_zero;
          },
        )

pub alloc-IsValid : (p : Pmm) (n : ℕ) → IsValid p → IsValid (alloc p n).1
unfolding alloc
alloc-IsValid p zero v = v
alloc-IsValid p (suc n) v = elim (Option-cases (first_fit p (suc n) 0 p.pages_total)) [
  | inl e ↦ rw (alloc_of_none p n e) v
  | inr (k, e) ↦
      let run = range_fits-IsRun p k (suc n) (first_fit-some p (suc n) 0 p.pages_total k e).0 in
      rw (alloc_of_some p n k e) (record {
        counted = omega (
          arith,
          v.counted,
          count_used-mark_range p.bitmap k (suc n) p.pages_total
              (run-le p k (suc n) (omega arith) run) (λ j lo hi. (run j lo hi).1),
        );
        small = v.small;
        at_zero = v.at_zero;
      })
]
