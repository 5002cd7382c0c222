-- ===== src/Tests/Frames.antt =====
-- The theorems about physical memory, on the small machine.
use os161_virtual_memory_imp.Common.{
  ℕ, ◌+◌, ◌*◌, ◌<◌, ◌≤◌, ◌≡◌, refl, false, Option, none, some, arith, has, range_from,
}
use os161_virtual_memory_imp.Machine.{page_size, frame_to_paddr, paddr_to_kvaddr}
use os161_virtual_memory_imp.Ram.{Ram}
use os161_virtual_memory_imp.Ram.Bump.{IsRam}
use os161_virtual_memory_imp.Frames.{
  FrameTable, Frames, frametable_bootstrap, alloc_kpages, free_kpages, cleared, link, reserve,
}
use os161_virtual_memory_imp.Frames.FreeList.{FreeList, IsFrameTable}
use os161_virtual_memory_imp.Frames.Boot.{
  Boots, frametable_bootstrap-Boots, frametable_bootstrap_loses,
}
use os161_virtual_memory_imp.Frames.Alloc.{Pops, taken, taken-IsFrameTable, alloc_kpages-Pops}
use os161_virtual_memory_imp.Frames.Release.{dropped, free_kpages-dropped}
use os161_virtual_memory_imp.Tests.Fixture.{table, free, frames, table-IsFrameTable}

-- 16 frames, the first 3 of which the kernel's image takes.
abbrev ram : Ram
ram = record { firstpaddr = 3 * page_size; lastpaddr = 16 * page_size }

abbrev after : Ram
after = record { firstpaddr = 4 * page_size; lastpaddr = 16 * page_size }

after-IsRam : IsRam after
after-IsRam = omega arith

ram-IsRam : IsRam ram
ram-IsRam = omega arith

-- Before the bootstrap, and after kmalloc has taken a page for the table.
abbrev empty : Ram → Frames
empty r = record { ram = r; table = none; mem = λ f at. 0 }

abbrev one_page : ℕ → Frames → Option (ℕ × Frames)
one_page size fr = some (0x8000_3000, empty after)

frametable_bootstrap-Boots_example :
    Boots (empty after) (range_from 4 8) (frametable_bootstrap one_page (empty ram))
frametable_bootstrap-Boots_example =
    frametable_bootstrap-Boots one_page (empty ram) (empty after) 0x8000_3000 refl (omega arith)
      refl after-IsRam (omega arith)

frametable_bootstrap_loses_example :
    (t : FrameTable) × (frametable_bootstrap one_page (empty ram)
      ≡ some
          (record (empty after) { ram = record { firstpaddr = 0; lastpaddr = 0 }; table = some t }))
    × FreeList t t.firstfree (range_from 4 8)
    × ((j : ℕ) → 11 < j → j < 16 → (t.entry j ≡ cleared) × (has j (range_from 4 8) ≡ false))
    × (2 * 4 + 1 ≤ 16 → 11 + 1 + 4 ≡ 16)
frametable_bootstrap_loses_example =
    frametable_bootstrap_loses one_page (empty ram) (empty after) 0x8000_3000 refl (omega arith)
      refl after-IsRam (omega arith)

alloc_kpages-Pops_example : Pops frames table free (alloc_kpages 1 frames)
alloc_kpages-Pops_example = alloc_kpages-Pops frames table free refl table-IsFrameTable

-- Frame 4, once it has been allocated.
abbrev busy : Frames
busy = record frames { table = some (taken table 4) }

free_kpages-dropped_example :
    (free_kpages (paddr_to_kvaddr (frame_to_paddr 4)) busy
      ≡ some (record busy { table = some (dropped (taken table 4) 4 0) }))
    × IsFrameTable (dropped (taken table 4) 4 0) (range_from 4 8)
unfolding link reserve
free_kpages-dropped_example =
    free_kpages-dropped busy (taken table 4) (range_from 5 7) refl
      (taken-IsFrameTable table 4 (range_from 5 7) table-IsFrameTable) 4 0 (omega arith)
      (omega arith) refl refl
