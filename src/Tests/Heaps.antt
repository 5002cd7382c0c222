-- ===== src/Tests/Heaps.antt =====
-- The theorems about the kernel heap, on the small machine. Frame 4 is a page of two blocks of 2048
-- bytes, of which the second is in use, and frame 5 is a page of pagerefs.
use os161_virtual_memory_imp.Common.{
  ℕ, ◌+◌, ◌≤◌, ◌≡◌, refl, ◌⊎◌, inl, inr, true, some, [], ◌∷◌, arith, range_from, ◌==◌, Bool-cases,
  eqb→eq,
}
use os161_virtual_memory_imp.Frames.{FrameTable, link, reserve}
use os161_virtual_memory_imp.Frames.Alloc.{taken, taken-IsFrameTable}
use os161_virtual_memory_imp.Kmalloc.{World, IsBooted}
use os161_virtual_memory_imp.Kheap.{KHeap, own_page, kpage, owned, sizes, live, size_of, mark}
use os161_virtual_memory_imp.Kheap.Pageref.{set_inuse}
use os161_virtual_memory_imp.Kheap.Subpage.{
  pop_block, kmalloc, kfree, subpage_kmalloc, find_free, do_alloc, first_block, blocktype_from,
}
use os161_virtual_memory_imp.Kheap.Sound.{IsHeap, IsPageRef, mark-IsHeap}
use os161_virtual_memory_imp.Kheap.FreeList.{IsFreeList}
use os161_virtual_memory_imp.Kheap.Updates.{set_root, set_root-IsHeap, set_inuse-IsHeap}
use os161_virtual_memory_imp.Kheap.Placed.{placed, placed-IsHeap, fresh-IsPageRef}
use os161_virtual_memory_imp.Kheap.Blocks.{refilled, refilled-IsHeap}
use os161_virtual_memory_imp.Kheap.Pop.{Failed}
use os161_virtual_memory_imp.Kheap.Claim.{Accounted}
use os161_virtual_memory_imp.Kheap.Free.{Freed}
use os161_virtual_memory_imp.Kheap.Laws.{Allocated, kmalloc-Allocated, kfree-Freed}
use os161_virtual_memory_imp.Kheap.Runs.{
  boot_heap, boot_heap-IsHeap, at_start, allocated, IsSound, Reached-blocks_apart,
}
use os161_virtual_memory_imp.Tests.Fixture.{table, free, frames, table-IsFrameTable}

abbrev at_boot : World KHeap
at_boot = record { heap = boot_heap; frames = frames }

at_boot-IsBooted : IsBooted (owned boot_heap) frames table free
at_boot-IsBooted = record {
  booted = refl;
  sound = table-IsFrameTable;
  held = λ i o. absurd cc;
  within = λ i o. absurd cc;
}

-- The first request of all needs two pages.
kmalloc-Allocated_example :
    Failed at_boot table (kmalloc 100 at_boot) ⊎ Allocated at_boot table 100 (kmalloc 100 at_boot)
kmalloc-Allocated_example =
    kmalloc-Allocated 100 at_boot table free boot_heap-IsHeap at_boot-IsBooted

abbrev pages : KHeap
pages = mark 5 own_page (mark 4 own_page boot_heap)

pages-IsHeap : IsHeap pages
pages-IsHeap =
    mark-IsHeap 5 own_page (mark 4 own_page boot_heap)
      (mark-IsHeap 4 own_page boot_heap boot_heap-IsHeap (λ s e. absurd cc) (λ s e. absurd cc)
        (omega arith) (omega arith))
      (λ s e. absurd cc) (λ s e. absurd cc) (omega arith) (omega arith)

abbrev rooted : KHeap
rooted = set_root 0 (kpage 5) (set_inuse 0 0 pages)

rooted-IsHeap : IsHeap rooted
rooted-IsHeap =
    set_root-IsHeap 0 (kpage 5) (set_inuse 0 0 pages)
      (set_inuse-IsHeap 0 0 pages pages-IsHeap (omega arith) refl (omega arith) (omega arith))
      (omega arith)

fresh : IsPageRef (placed 0 7 4 rooted) 0 4 7
fresh =
    fresh-IsPageRef 0 7 4 rooted rooted-IsHeap refl refl (omega arith) (omega arith) (omega arith)
      (omega arith) refl (omega arith)

abbrev half : KHeap
half = refilled 0 (0 ∷ []) 1 (placed 0 7 4 rooted)

one_free : IsFreeList 7 (0 ∷ [])
unfolding sizes
one_free = record { distinct = (refl, tt); offset = λ x m. ground arith }

half-IsHeap : IsHeap half
half-IsHeap =
    refilled-IsHeap 0 7 4 (placed 0 7 4 rooted)
      (placed-IsHeap 0 7 4 rooted rooted-IsHeap refl refl (omega arith) (omega arith) (omega arith)
        (omega arith) refl (omega arith))
      fresh (0 ∷ []) one_free

half-Accounted : Accounted half
half-Accounted r l = elim (Bool-cases (0 == r)) [
  | inl e ↦ inl (ground (arith, e))
  | inr e ↦ inr (ground (arith, e))
]

abbrev half_table : FrameTable
half_table = taken (taken table 4) 5

abbrev half_world : World KHeap
half_world = record { heap = half; frames = record frames { table = some half_table } }

owned_pages : (i : ℕ) → owned half i ≡ true → (i ≡ 4) ⊎ (i ≡ 5)
owned_pages i o = elim (Bool-cases (i == 4)) [
  | inl e ↦ inl (eqb→eq i 4 e)
  | inr e ↦ inr (ground arith)
]

half-IsBooted : IsBooted (owned half) (half_world.frames) half_table (range_from 6 6)
unfolding link reserve
half-IsBooted = record {
  booted = refl;
  sound =
      taken-IsFrameTable (taken table 4) 5 (range_from 6 6)
        (taken-IsFrameTable table 4 (range_from 5 7) table-IsFrameTable);
  held = λ i o. elim (owned_pages i o) [ inl e ↦ rw e (refl, refl) | inr e ↦ rw e (refl, refl) ];
  within = λ i o. elim (owned_pages i o) [
    | inl e ↦ rw e (omega arith, omega arith)
    | inr e ↦ rw e (omega arith, omega arith)
  ];
}

half_live : live half (kpage 4 + 2048) ≡ true
unfolding live sizes
half_live = refl

-- The last block of the page comes back, and the page with it.
kfree-Freed_example :
    Freed half_world half_table (kpage 4 + 2048) (kfree (kpage 4 + 2048) half_world)
kfree-Freed_example =
    kfree-Freed half_world half_table (range_from 6 6) half-IsHeap half-IsBooted (kpage 4 + 2048)
      half_live half-Accounted

abbrev whole : World KHeap
whole = record half_world { heap = pop_block 0 0 [] half }

second : kmalloc 2000 half_world ≡ some (kpage 4, whole)
unfolding kmalloc subpage_kmalloc find_free do_alloc first_block blocktype_from sizes
second = refl

-- The second block is asked for, and the two do not overlap.
Reached-blocks_apart_example :
    IsSound whole × (kpage 4 + size_of whole.heap (kpage 4) ≤ kpage 4 + 2048)
unfolding live sizes
Reached-blocks_apart_example =
    Reached-blocks_apart half_world whole (kpage 4) (kpage 4 + 2048)
      (half-IsHeap, (half_table, range_from 6 6, half-IsBooted))
      (allocated 2000 (kpage 4) half_world whole (at_start half_world refl) second) refl refl
      (omega arith)
