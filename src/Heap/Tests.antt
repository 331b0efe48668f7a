-- ===== src/Heap/Tests.antt =====
-- The kernel heap on small lists of blocks.
use siathos.Prelude.{◌≡◌, refl, true, false, none, some, List, [], ◌∷◌, arith}
use siathos.Heap.{Heap, take_first, round_up, kmalloc, kfree, merge_from}
use siathos.Heap.Tiling.{Tiles, HeapCall, alloc, release, heap_run, heap_run-Tiles}
use siathos.Heap.Large.{grown_by, kmalloc-grown_by}

-- 1024 bytes at 4096, of which the first 64 are in use.
abbrev small_heap : Heap
small_heap = record {
  blocks =
      record { addr = 4096; size = 64; free = false }
      ∷ record { addr = 4192; size = 896; free = true }
      ∷ [];
  ready = true;
}

abbrev calls : List HeapCall
calls = alloc 20 ∷ alloc 100 ∷ release 4128 ∷ alloc 5000 ∷ release 4224 ∷ []

tiled : Tiles 4096 5120 small_heap.blocks
unfolding Tiles
tiled = (refl, (refl, refl))

-- 20 bytes are rounded up to 32, and the block is cut.
cut : kmalloc [] 20 small_heap ≡ (
  some 4224,
  record {
    blocks =
        record { addr = 4096; size = 64; free = false }
        ∷ record { addr = 4192; size = 32; free = false }
        ∷ record { addr = 4256; size = 832; free = true }
        ∷ [];
    ready = true;
  },
)
unfolding kmalloc take_first
cut = refl

-- Freeing joins the free blocks again.
joined_again : (kfree 4128 small_heap).blocks ≡ record { addr = 4096; size = 992; free = true } ∷ []
unfolding kfree merge_from
joined_again = refl

-- Two stretches of memory that do not touch are joined as well.
joined_apart :
    (kfree 4128 (record {
      blocks =
          record { addr = 4096; size = 992; free = false }
          ∷ record { addr = 65536; size = 992; free = true }
          ∷ [];
      ready = true;
    })).blocks
    ≡ record { addr = 4096; size = 2016; free = true } ∷ []
unfolding kfree merge_from
joined_apart = refl

heap_run-Tiles_example : Tiles 4096 5120 (heap_run calls small_heap).blocks
heap_run-Tiles_example = heap_run-Tiles calls 4096 5120 small_heap (ground arith) tiled

none_fits : take_first (round_up 2000000) small_heap.blocks ≡ none
unfolding take_first
none_fits = refl

kmalloc-grown_by_example :
    kmalloc (1048576 ∷ 8388608 ∷ []) 2000000 small_heap
    ≡ (none, grown_by (1048576 ∷ 8388608 ∷ []) small_heap)
kmalloc-grown_by_example =
    kmalloc-grown_by (1048576 ∷ 8388608 ∷ []) 2000000 small_heap (ground arith) (ground arith) refl
      none_fits
