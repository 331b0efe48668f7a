-- ===== src/Pmm/Tests.antt =====
-- Runs of the page allocator, and inputs that its theorems hold of.
use siathos.Prelude.{ℕ, zero, suc, ◌*◌, ◌≡◌, ◌≢◌, ◌⊎◌, refl, List, [], ◌∷◌, arith}
use siathos.Pmm.{Pmm, alloc, free, reserve}
use siathos.Pmm.Bitmap.{PageMap, is_used, mark, clear}
use siathos.Pmm.Count.{IsValid, count_used}
use siathos.Pmm.Alloc.{IsRun, Allocated, alloc-first_fit}
use siathos.Pmm.Free.{Call, allocates, frees, reserves, step, run, free-alloc, run-IsValid}

-- Eight pages, of which pages 0 and 2 are used.
abbrev eight_bits : PageMap
eight_bits zero = 5
eight_bits (suc j) = 0

abbrev eight : Pmm
eight = record { bitmap = eight_bits; pages_total = 8; pages_used = 2; base = 0 }

eight-IsValid : IsValid eight
unfolding count_used is_used
eight-IsValid = record { counted = refl; small = omega arith; at_zero = refl }

alloc_two : (alloc eight 2).0 ≡ 3 * 4096
unfolding alloc is_used
alloc_two = refl

alloc_six : (alloc eight 6).0 ≡ 0
unfolding alloc is_used
alloc_six = refl

alloc-first_fit_example :
    ((alloc eight 2 ≡ (0, eight)) × ((j : ℕ) → ¬ IsRun eight j 2))
    ⊎ ((k : ℕ) × ((alloc eight 2).0 ≡ k * 4096) × Allocated eight 2 k (alloc eight 2).1)
alloc-first_fit_example = alloc-first_fit eight 2 eight-IsValid (omega arith)

two_given : (alloc eight 2).0 ≢ 0
two_given e = ground (arith, alloc_two, e)

free-alloc_example :
    let q = free (alloc eight 2).1 (alloc eight 2).0 2 in
    ((j : ℕ) → is_used q.bitmap j ≡ is_used eight.bitmap j) × (q.pages_used ≡ 2)
free-alloc_example = free-alloc eight 2 eight-IsValid (omega arith) two_given

abbrev calls : List Call
calls = allocates 2 ∷ frees 8192 1 ∷ reserves 5000 4096 ∷ allocates 9 ∷ []

run_calls : (run eight calls).pages_used ≡ 5
unfolding run step is_used alloc free reserve clear mark
run_calls = refl

run-IsValid_example : IsValid (run eight calls)
run-IsValid_example = run-IsValid eight calls eight-IsValid
