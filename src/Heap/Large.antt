-- ===== src/Heap/Large.antt =====
-- A request of `kmalloc` of kernel/util.c that is larger than the memory it adds to the heap.
use siathos.Prelude.{
  ℕ, ◌+◌, ◌-◌, ◌*◌, ◌^◌, ◌<◌, ◌≤◌, ◌≡◌, inl, inr, refl, sym, ap, ◌∙◌, true, false, not, ◌||◌,
  Option, none, some, List, [], ◌∷◌, ◌++◌, ◌==◌, if◌then◌else◌, arith, Bool-cases,
}
use siathos.Heap.{
  Block, Heap, header, round_up, fits, taken, behind, take_first, grown, answer, kmalloc,
}

-- The heap with every stretch of 256 pages of the list at its end.
pub grown_by : List ℕ → Heap → Heap
grown_by [] h = h
grown_by (p ∷ more) h = grown_by more (grown p h)

behind-none : (b : Block) (o : Option (ℕ × List Block)) → behind b o ≡ none → o ≡ none
behind-none b none e = refl
behind-none b (some (a, bs)) e = absurd (ground (arith, e))

take_first-grown :
    (size : ℕ) (bs : List Block) (n : Block)
    → n.size < size
    → take_first size bs ≡ none
    → take_first size (bs ++ (n ∷ [])) ≡ none
unfolding take_first
take_first-grown size [] n lt e = ground (arith, lt)
take_first-grown size (b ∷ bs) n lt e = elim (Bool-cases (fits size b)) [
  | inl on ↦ absurd (ground (arith, sym (ap (λ x. if x then found else later) on) ∙ e))
  | inr off ↦
      let rest =
        take_first-grown size bs n lt (
          behind-none b (take_first size bs)
            (sym (ap (λ x. if x then found else later) off) ∙ e)) in
      ap
        (λ x.
          if x
          then some (b.addr + header, taken size b (bs ++ (n ∷ [])))
          else behind b (take_first size (bs ++ (n ∷ []))))
        off
      ∙ ap (behind b) rest
]
  where
    found : Option (ℕ × List Block)
    found = some (b.addr + header, taken size b bs)

    later : Option (ℕ × List Block)
    later = behind b (take_first size bs)

round_up-round_up : (size : ℕ) → size ≤ 2 ^ 63 → round_up (round_up size) ≡ round_up size
round_up-round_up size le = omega (arith, le)

round_up_bounds : (size : ℕ) → size ≤ 2 ^ 63 → (size ≤ round_up size) × (round_up size ≤ 2 ^ 63)
round_up_bounds size le = (omega (arith, le), omega (arith, le))

open_for :
    (size : ℕ) (h : Heap)
    → 256 * 4096 - header < size
    → h.ready ≡ true
    → not h.ready || size == 0 ≡ false
open_for size h big on = ground (arith, on, big)

-- A request of more than 256 pages less the header, and of at most 2^63 bytes, that no block of the
-- heap can serve fails, and it has moved all the memory that `pmm_alloc` still gives, 256 pages at a
-- time, into the heap.
pub kmalloc-grown_by :
    (more : List ℕ) (size : ℕ) (h : Heap)
    → 256 * 4096 - header < size
    → size ≤ 2 ^ 63
    → h.ready ≡ true
    → take_first (round_up size) h.blocks ≡ none
    → kmalloc more size h ≡ (none, grown_by more h)
unfolding kmalloc grown_by
kmalloc-grown_by [] size h big le on e =
    ap (λ b. if b then (none, h) else answer (take_first (round_up size) h.blocks) h (none, h))
      (open_for size h big on)
    ∙ ap (λ o. answer o h (none, h)) e
kmalloc-grown_by (p ∷ more) size h big le on e =
    ap (λ b. if b then (none, h) else answer (take_first (round_up size) h.blocks) h rest)
      (open_for size h big on)
    ∙ (ap (λ o. answer o h rest) e
        ∙ kmalloc-grown_by more (round_up size) (grown p h)
            (omega (arith, big, (round_up_bounds size le).0)) (round_up_bounds size le).1 on
            (ap (λ n. take_first n (grown p h).blocks) (round_up-round_up size le)
              ∙ take_first-grown (round_up size) h.blocks
                  (record { addr = p; size = 256 * 4096 - header; free = true })
                  (omega (arith, big, (round_up_bounds size le).0)) e))
  where
    rest : Option ℕ × Heap
    rest = kmalloc more (round_up size) (grown p h)
