-- ===== src/Heap.antt =====
-- The kernel heap of kernel/util.c (`kmalloc`, `kfree`): the list of blocks from `heap_head` on. A
-- block with a wrong magic number, which stops the kernel, and messages are left out.
pub mod Tiling
pub mod Large
mod Tests
use siathos.Prelude.{
  ℕ, zero, suc, ◌+◌, ◌-◌, ◌*◌, ◌^◌, Bool, true, false, not, ◌&&◌, ◌||◌, Option, none, some, List,
  [], ◌∷◌, ◌++◌, leb, ◌==◌, if◌then◌else◌, modify, find_slot, ◌%◌, ◌/◌,
}

-- `sizeof(heap_node_t)`
abbrev pub header : ℕ
header = 32

abbrev pub word : ℕ
word = 2 ^ 64

-- `heap_node_t` at the address `addr`
pub record Block : Type 0 where
  pub addr : ℕ
  pub size : ℕ
  pub free : Bool

pub record Heap : Type 0 where
  pub blocks : List Block
  pub ready : Bool

-- `pages` is what `pmm_alloc(1024)` gives.
pub heap_init : Option ℕ → Heap → Heap
heap_init none h = h
heap_init (some p) h = record {
  blocks = record { addr = p; size = 1024 * 4096 - header; free = true } ∷ [];
  ready = true;
}

abbrev pub round_up : ℕ → ℕ
round_up size = (size + 15) % word / 16 * 16

abbrev pub fits : ℕ → Block → Bool
fits size b = b.free && leb size b.size

abbrev pub is_split : ℕ → Block → Bool
is_split size b = leb ((size + header + 32) % word) b.size

abbrev pub split_off : ℕ → Block → Block
split_off size b = record {
  addr = b.addr + header + size;
  size = b.size - size - header;
  free = true;
}

abbrev pub taken : ℕ → Block → List Block → List Block
taken size b bs =
    if is_split size b
    then record b { size = size; free = false } ∷ split_off size b ∷ bs
    else record b { free = false } ∷ bs

abbrev pub behind : Block → Option (ℕ × List Block) → Option (ℕ × List Block)
behind b none = none
behind b (some (a, bs)) = some (a, b ∷ bs)

-- The first block that fits, and the list after it is taken.
pub take_first : ℕ → List Block → Option (ℕ × List Block)
take_first size [] = none
take_first size (b ∷ bs) =
    let rest = take_first size bs in
    if fits size b then some (b.addr + header, taken size b bs) else behind b rest

abbrev pub grown : ℕ → Heap → Heap
grown p h = record h {
  blocks = h.blocks ++ (record { addr = p; size = 256 * 4096 - header; free = true } ∷ []);
}

abbrev pub answer : Option (ℕ × List Block) → Heap → Option ℕ × Heap → Option ℕ × Heap
answer none h other = other
answer (some (a, bs)) h other = (some a, record h { blocks = bs })

-- `more` is what the calls of `pmm_alloc(256)` give before one fails.
pub kmalloc : List ℕ → ℕ → Heap → Option ℕ × Heap
kmalloc [] size h =
    if not h.ready || size == 0
    then (none, h)
    else answer (take_first (round_up size) h.blocks) h (none, h)
kmalloc (p ∷ more) size h =
    let rest = kmalloc more (round_up size) (grown p h) in
    if not h.ready || size == 0
    then (none, h)
    else answer (take_first (round_up size) h.blocks) h rest

abbrev pub merged : Block → Block → Block
merged b c = record b { size = (b.size + (header + c.size)) % word }

-- The second loop of `kfree`, at the block `b` with the rest of the list.
pub merge_from : Block → List Block → List Block
merge_from b [] = b ∷ []
merge_from b (c ∷ cs) =
    let rest = merge_from (if b.free && c.free then merged b c else c) cs in
    if b.free && c.free then rest else b ∷ rest

abbrev pub merge_all : List Block → List Block
merge_all [] = []
merge_all (b ∷ bs) = merge_from b bs

abbrev pub is_at : ℕ → Block → Bool
is_at ptr b = b.addr + header == ptr

abbrev pub free_at : Option (ℕ × Block) → Heap → Heap
free_at none h = h
free_at (some (i, _)) h = record h {
  blocks = merge_all (modify h.blocks i (λ b. record b { free = true }));
}

pub kfree : ℕ → Heap → Heap
kfree ptr h = if ptr == 0 then h else free_at (find_slot (is_at ptr) h.blocks) h
