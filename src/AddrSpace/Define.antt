-- ===== src/AddrSpace/Define.antt =====
-- as_define_region and as_define_stack: the pages that a new region covers, and its permissions.
use os161_virtual_memory_imp.Common.{
  ℕ, ◌+◌, ◌-◌, ◌/◌, ◌<◌, ◌≤◌, ◌≡◌, ◌≢◌, refl, ap, ◌∙◌, Bool, true, false, some, List, ◌∷◌, arith,
  ltb, leb, ◌&&◌, ne→eqb, if◌then◌else◌,
}
use os161_virtual_memory_imp.Machine.{word, page_size, page_frame, enomem, userstack, stacksize}
use os161_virtual_memory_imp.Frames.{FrameTable}
use os161_virtual_memory_imp.Kmalloc.{World, Kmalloc, KmallocLaws, IsBooted}
use os161_virtual_memory_imp.AddrSpace.{
  Region, AddrSpace, region_size, holds, find_region, as_check_valid_addr, new_perms, region_pages,
  define_in, as_define_region, as_define_stack,
}
use os161_virtual_memory_imp.AddrSpace.Flags.{Grants, new_perms-Grants}

-- The address lies on a page that one of the `memsize` bytes from `vaddr` lies on.
abbrev pub touched : (vaddr memsize addr : ℕ) → Bool
touched vaddr memsize addr =
    leb (vaddr / page_size) (addr / page_size)
    && leb (addr / page_size) ((vaddr + memsize - 1) / page_size)

region_pages-touched :
    (vaddr memsize addr : ℕ) (r : Region)
    → 0 < memsize
    → vaddr + memsize + page_size ≤ word
    → r.as_vbase ≡ page_frame vaddr
    → r.as_npages ≡ region_pages vaddr memsize
    → holds r addr ≡ touched vaddr memsize addr
unfolding region_pages holds
region_pages-touched vaddr memsize addr r some_bytes fits base pages =
    rw (base, pages) (ground arith)

find_region-cons :
    (r : Region) (rs : List Region) (addr : ℕ)
    → find_region (r ∷ rs) addr ≡ (if holds r addr then some r else find_region rs addr)
unfolding find_region
find_region-cons r rs addr = refl

-- `space'` is `space` with one more region, `r`, for `memsize` bytes from `vaddr`.
abbrev pub Defined : AddrSpace → (vaddr memsize : ℕ) → AddrSpace → Region → Type 0
Defined space vaddr memsize space' r =
    (space'.block ≡ space.block)
    × (space'.regions ≡ r ∷ space.regions)
    × ((addr : ℕ)
        → as_check_valid_addr (some space') addr
          ≡ (if touched vaddr memsize addr then some r else as_check_valid_addr (some space) addr))

module _ {H : Type 0} (K : Kmalloc H) (L : KmallocLaws K) (space : AddrSpace) (wd : World H) where
  -- With a sound heap and memory for the structure, as_define_region succeeds for a run of bytes that ends a page
  -- below the top of the address space: the new region holds exactly the addresses on the pages
  -- that the bytes touch, with exactly the permissions asked for, though its block is not
  -- cleared; every other address is looked up as before. Without memory it returns ENOMEM and
  -- leaves the address space alone.
  pub as_define_region-Defined :
      (t : FrameTable) (free : List ℕ) (vaddr memsize : ℕ) (r w x : Bool)
      → L.IsHeap wd.heap
      → IsBooted (L.owned wd.heap) wd.frames t free
      → 0 < memsize
      → vaddr + memsize + page_size ≤ word
      → let (p, wd') = K.kmalloc region_size wd in
        let run = as_define_region K (some space) vaddr memsize r w x wd in
        (p ≡ 0 → run ≡ (enomem, some space, wd'))
        × (p ≢ 0
            → (space' : AddrSpace) × (region : Region) × (run ≡ (0, some space', wd'))
              × Defined space vaddr memsize space' region
              × Grants region.as_perms r w x)
  unfolding as_define_region as_check_valid_addr find_region
  as_define_region-Defined t free vaddr memsize r w x v booted some_bytes fits =
      let p = (K.kmalloc region_size wd).0 in
      let wd' = (K.kmalloc region_size wd).1 in
      let region : Region = record {
        block = p;
        as_perms = new_perms (K.first_word wd' p) r w x;
        as_vbase = page_frame vaddr;
        as_npages = region_pages vaddr memsize;
      } in
      (
        (λ e. rw (e, define_in)),
        λ ne. (
          record space { regions = region ∷ space.regions },
          region,
          rw (ne→eqb p 0 ne, define_in),
          (
            refl,
            refl,
            λ addr.
                find_region-cons region space.regions addr
                ∙ ap (λ b. if b then some region else find_region space.regions addr)
                    (region_pages-touched vaddr memsize addr region some_bytes fits refl refl),
          ),
          new_perms-Grants (K.first_word wd' p) r w x
              (L.first_word_aligned region_size wd t free (omega arith) v booted ne),
        ),
      )

  -- With a sound heap and memory, as_define_stack hands back the top of user space as stack pointer. The 64 kilobytes below it
  -- then belong to a region that may be read and written and not executed; each other address is
  -- looked up as before.
  pub as_define_stack_lem :
      (t : FrameTable) (free : List ℕ)
      → L.IsHeap wd.heap
      → IsBooted (L.owned wd.heap) wd.frames t free
      → (K.kmalloc region_size wd).0 ≢ 0
      → (space' : AddrSpace) × (region : Region) × (as_define_stack K (some space) true wd
          ≡ (0, some userstack, some space', (K.kmalloc region_size wd).1))
        × Grants region.as_perms true true false
        × ((addr : ℕ)
            → as_check_valid_addr (some space') addr ≡ (
                if leb (userstack - stacksize) addr && ltb addr userstack
                then some region
                else as_check_valid_addr (some space) addr))
  unfolding as_define_stack
  as_define_stack_lem t free v booted ne =
      let (space', region, run, defined, grants) =
        (as_define_region-Defined t free (userstack - stacksize) stacksize true true false v booted
            (omega arith) (omega arith)).1
          ne in
      (
        space',
        region,
        rw run,
        grants,
        λ addr.
            defined.2 addr
            ∙ ap (λ b. if b then some region else as_check_valid_addr (some space) addr)
                (ground arith),
      )
