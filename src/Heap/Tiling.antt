-- ===== src/Heap/Tiling.antt =====
-- The blocks of the heap of kernel/util.c cover its memory without gap or overlap.
use siathos.Prelude.{
  ℕ, zero, suc, ◌+◌, ◌-◌, ◌^◌, ◌<◌, ◌≤◌, ◌≡◌, inl, inr, refl, sym, ap, subst, ◌∙◌, true, false, not,
  ◌&&◌, ◌||◌, Option, none, some, List, [], ◌∷◌, leb, ◌==◌, if◌then◌else◌, modify, find_slot, ◌%◌,
  arith, Bool-cases,
}
use siathos.Heap.{
  Block, Heap, header, word, round_up, fits, is_split, split_off, taken, behind, take_first, answer,
  kmalloc, merged, merge_from, merge_all, is_at, free_at, kfree,
}

-- The blocks lie one behind the other, each with its header, from the address `base` to `top`.
unfoldable pub Tiles : ℕ → ℕ → List Block → Type 0
Tiles base top [] = base ≡ top
Tiles base top (b ∷ bs) = (b.addr ≡ base) × Tiles (base + header + b.size) top bs

Tiles-below : (base top : ℕ) (bs : List Block) → Tiles base top bs → base ≤ top
unfolding Tiles
Tiles-below base top [] e = omega (arith, e)
Tiles-below base top (b ∷ bs) (_, t) = omega (arith, Tiles-below (base + header + b.size) top bs t)

wrap_small : (n : ℕ) → n < word → n % word ≡ n
wrap_small n lt = omega (arith, lt)

taken-Tiles :
    (base top size : ℕ) (b : Block) (bs : List Block)
    → top < 2 ^ 63
    → fits size b ≡ true
    → Tiles base top (b ∷ bs)
    → Tiles base top (taken size b bs)
unfolding Tiles
taken-Tiles base top size b bs small fit (at, t) = elim (Bool-cases (is_split size b)) [
  | inl on ↦
      subst (Tiles base top) (sym (ap (λ x. if x then halves else whole) on))
        (at, (omega (arith, at), subst (λ n. Tiles n top bs) (same_end on) t))
  | inr off ↦ subst (Tiles base top) (sym (ap (λ x. if x then halves else whole) off)) (at, t)
]
  where
    halves : List Block
    halves = record b { size = size; free = false } ∷ split_off size b ∷ bs

    whole : List Block
    whole = record b { free = false } ∷ bs

    room : b.size < 2 ^ 63
    room = omega (arith, Tiles-below (base + header + b.size) top bs t, small)

    within : size ≤ b.size
    within = ground (arith, fit)

    no_wrap : (size + header + 32) % word ≡ size + header + 32
    no_wrap = wrap_small (size + header + 32) (omega (arith, room, within))

    same_end :
        is_split size b ≡ true
        → base + header + b.size ≡ base + header + size + header + (b.size - size - header)
    same_end on =
        let fits_both : size + header + 32 ≤ b.size =
          ground (arith, sym (ap (λ n. leb n b.size) no_wrap) ∙ on) in
        omega (arith, fits_both)

-- A search that succeeds leaves blocks that tile.
LeavesTiles : ℕ → ℕ → Option (ℕ × List Block) → Type 0
LeavesTiles base top none = base ≡ base
LeavesTiles base top (some (_, bs)) = Tiles base top bs

behind-LeavesTiles :
    (base top : ℕ) (b : Block) (o : Option (ℕ × List Block))
    → b.addr ≡ base
    → LeavesTiles (base + header + b.size) top o
    → LeavesTiles base top (behind b o)
unfolding LeavesTiles Tiles
behind-LeavesTiles base top b none at t = refl
behind-LeavesTiles base top b (some (_, bs)) at t = (at, t)

take_first-LeavesTiles :
    (base top size : ℕ) (bs : List Block)
    → top < 2 ^ 63
    → Tiles base top bs
    → LeavesTiles base top (take_first size bs)
unfolding take_first Tiles LeavesTiles
take_first-LeavesTiles base top size [] small t = refl
take_first-LeavesTiles base top size (b ∷ bs) small (at, t) = elim (Bool-cases (fits size b)) [
  | inl on ↦
      subst (LeavesTiles base top) (sym (ap (λ x. if x then found else later) on))
        (taken-Tiles base top size b bs small on (at, t))
  | inr off ↦ subst (LeavesTiles base top) (sym (ap (λ x. if x then found else later) off)) (
      behind-LeavesTiles base top b (take_first size bs) at
        (take_first-LeavesTiles (base + header + b.size) top size bs small t))
]
  where
    found : Option (ℕ × List Block)
    found = some (b.addr + header, taken size b bs)

    later : Option (ℕ × List Block)
    later = behind b (take_first size bs)

merge_from-Tiles :
    (base top : ℕ) (b : Block) (bs : List Block)
    → top < 2 ^ 63
    → Tiles base top (b ∷ bs)
    → Tiles base top (merge_from b bs)
unfolding merge_from Tiles
merge_from-Tiles base top b [] small t = t
merge_from-Tiles base top b (c ∷ cs) small (at, (at2, t)) = elim (Bool-cases (b.free && c.free)) [
  | inl on ↦
      let whole : (b.size + (header + c.size)) % word ≡ b.size + (header + c.size) =
        wrap_small (b.size + (header + c.size))
          (omega (arith, small, Tiles-below (base + header + b.size + header + c.size) top cs t)) in
      subst (Tiles base top)
        (sym (
          ap
            (λ x.
              if x
              then merge_from (if x then merged b c else c) cs
              else b ∷ merge_from (if x then merged b c else c) cs)
            on))
        (merge_from-Tiles base top (merged b c) cs small
          (at, subst (λ n. Tiles n top cs) (omega (arith, whole)) t))
  | inr off ↦
      subst (Tiles base top)
        (sym (
          ap
            (λ x.
              if x
              then merge_from (if x then merged b c else c) cs
              else b ∷ merge_from (if x then merged b c else c) cs)
            off))
        (at, merge_from-Tiles (base + header + b.size) top c cs small (at2, t))
]

freed-Tiles :
    (base top : ℕ) (i : ℕ) (bs : List Block)
    → Tiles base top bs
    → Tiles base top (modify bs i (λ b. record b { free = true }))
unfolding Tiles
freed-Tiles base top i [] t = t
freed-Tiles base top zero (b ∷ bs) (at, t) = (at, t)
freed-Tiles base top (suc i) (b ∷ bs) (at, t) =
    (at, freed-Tiles (base + header + b.size) top i bs t)

kmalloc-Tiles :
    (base top size : ℕ) (h : Heap)
    → top < 2 ^ 63
    → Tiles base top h.blocks
    → Tiles base top (kmalloc [] size h).1.blocks
unfolding kmalloc LeavesTiles
kmalloc-Tiles base top size h small t = elim (Bool-cases (not h.ready || size == 0)) [
  | inl bad ↦ rw bad t
  | inr good ↦ rw good (
      by_answer (take_first (round_up size) h.blocks)
        (take_first-LeavesTiles base top (round_up size) h.blocks small t))
]
  where
    by_answer :
        (o : Option (ℕ × List Block))
        → LeavesTiles base top o
        → Tiles base top (answer o h (none, h)).1.blocks
    by_answer none _ = t
    by_answer (some (_, bs)) kept = kept

merge_all-Tiles :
    (base top : ℕ) (bs : List Block)
    → top < 2 ^ 63
    → Tiles base top bs
    → Tiles base top (merge_all bs)
merge_all-Tiles base top [] small t = t
merge_all-Tiles base top (b ∷ bs) small t = merge_from-Tiles base top b bs small t

kfree-Tiles :
    (base top ptr : ℕ) (h : Heap)
    → top < 2 ^ 63
    → Tiles base top h.blocks
    → Tiles base top (kfree ptr h).blocks
unfolding kfree
kfree-Tiles base top ptr h small t = elim (Bool-cases (ptr == 0)) [
  | inl bad ↦ rw bad t
  | inr good ↦ rw good (by_found (find_slot (is_at ptr) h.blocks))
]
  where
    by_found : (o : Option (ℕ × Block)) → Tiles base top (free_at o h).blocks
    by_found none = t
    by_found (some (i, _)) =
        merge_all-Tiles base top (modify h.blocks i (λ b. record b { free = true })) small
          (freed-Tiles base top i h.blocks t)

-- A call of the heap: a size to allocate or an address to free.
pub data HeapCall : Type 0 where
  alloc : ℕ → HeapCall
  release : ℕ → HeapCall

-- One call, where `pmm_alloc` gives no more memory.
pub heap_step : HeapCall → Heap → Heap
heap_step (alloc size) h = (kmalloc [] size h).1
heap_step (release ptr) h = kfree ptr h

pub heap_run : List HeapCall → Heap → Heap
heap_run [] h = h
heap_run (c ∷ cs) h = heap_run cs (heap_step c h)

-- While the heap is the one stretch of memory from `base` to `top`, below 2^63, any sequence of calls
-- of `kmalloc`, for which `pmm_alloc` gives no more memory, and of `kfree`, with any sizes and
-- addresses, leaves blocks that lie one behind the other from `base` to `top`: no block overlaps
-- another or its header, and no byte is lost.
pub heap_run-Tiles :
    (cs : List HeapCall) (base top : ℕ) (h : Heap)
    → top < 2 ^ 63
    → Tiles base top h.blocks
    → Tiles base top (heap_run cs h).blocks
unfolding heap_run heap_step
heap_run-Tiles [] base top h small t = t
heap_run-Tiles (alloc size ∷ cs) base top h small t =
    heap_run-Tiles cs base top (kmalloc [] size h).1 small (kmalloc-Tiles base top size h small t)
heap_run-Tiles (release ptr ∷ cs) base top h small t =
    heap_run-Tiles cs base top (kfree ptr h) small (kfree-Tiles base top ptr h small t)
