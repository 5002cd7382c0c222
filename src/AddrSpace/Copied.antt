-- ===== src/AddrSpace/Copied.antt =====
-- as_copy_region of kern/vm/addrspace.c.
use os161_virtual_memory_imp.Common.{
  ℕ, ◌+◌, ◌*◌, ◌%◌, ◌≤◌, ◌≡◌, ◌≢◌, refl, some, List, ◌∷◌, arith, ne→eqb,
}
use os161_virtual_memory_imp.Machine.{word, page_size, page_frame, enomem}
use os161_virtual_memory_imp.Frames.{FrameTable}
use os161_virtual_memory_imp.Kmalloc.{World, Kmalloc, KmallocLaws, IsBooted}
use os161_virtual_memory_imp.AddrSpace.{
  Region, AddrSpace, pf_r, pf_w, pf_x, test_flag, region_size, region_pages, new_perms, define_in,
  as_define_region, as_copy_region,
}
use os161_virtual_memory_imp.AddrSpace.Flags.{Grants, new_perms-Grants}

-- A region of whole pages that ends a page below the top of the address space.
abbrev pub IsRegion : Region → Type 0
IsRegion r =
    (r.as_vbase % page_size ≡ 0) × (r.as_vbase + r.as_npages * page_size + page_size ≤ word)

-- The same pages with the same permissions.
abbrev pub IsCopy : Region → Region → Type 0
IsCopy r r' =
    (r'.as_vbase ≡ r.as_vbase)
    × (r'.as_npages ≡ r.as_npages)
    × Grants r'.as_perms (test_flag r.as_perms pf_r) (test_flag r.as_perms pf_w)
        (test_flag r.as_perms pf_x)

base_lem : (r : Region) → IsRegion r → page_frame r.as_vbase ≡ r.as_vbase
base_lem r v = omega (arith, v)

pages_lem :
    (r : Region)
    → IsRegion r
    → region_pages r.as_vbase (r.as_npages * page_size % word) ≡ r.as_npages
unfolding region_pages
pages_lem r v =
    let whole : r.as_npages * page_size % word ≡ r.as_npages * page_size = omega (arith, v) in
    rw (whole, v.0) (omega (arith, v.1))

module _ {H : Type 0} (K : Kmalloc H) (L : KmallocLaws K) (r : Region) (space : AddrSpace)
    (w : World H) where
  -- Without memory for the structure the region is not copied; otherwise its copy heads the list.
  pub as_copy_region-IsCopy :
      (t : FrameTable) (free : List ℕ)
      → IsRegion r
      → L.IsHeap w.heap
      → IsBooted (L.owned w.heap) w.frames t free
      → let (p, w') = K.kmalloc region_size w in
        let run = as_copy_region K (some space) (some r) w in
        (p ≡ 0 → run ≡ (enomem, some space, w'))
        × (p ≢ 0
            → (r' : Region) × (run ≡ (0, some (record space { regions = r' ∷ space.regions }), w'))
              × IsCopy r r'
              × (r'.block ≡ p))
  unfolding as_copy_region as_define_region
  as_copy_region-IsCopy t free v heap booted =
      let p = (K.kmalloc region_size w).0 in
      let w' = (K.kmalloc region_size w).1 in
      let perms : ℕ =
        new_perms (K.first_word w' p) (test_flag r.as_perms pf_r) (test_flag r.as_perms pf_w)
          (test_flag r.as_perms pf_x) in
      let r' : Region = record {
        block = p;
        as_perms = perms;
        as_vbase = r.as_vbase;
        as_npages = r.as_npages;
      } in
      (
        (λ e. rw (e, define_in)),
        λ ne. (
          r',
          rw (ne→eqb p 0 ne, define_in, base_lem r v, pages_lem r v) refl,
          (
            refl,
            refl,
            new_perms-Grants (K.first_word w' p) _ _ _
                (L.first_word_aligned region_size w t free (omega arith) heap booted ne),
          ),
          refl,
        ),
      )
