-- ===== src/Frames/Alloc.antt =====
-- alloc_kpages once the frame table exists: it pops the free list.
use os161_virtual_memory_imp.Common.{
  ℕ, ◌<◌, ◌≡◌, ◌≢◌, refl, inl, inr, true, false, Option, some, List, [], ◌∷◌, arith, ◌==◌, update,
  pos, Bool-cases, ne→eqb, eq→eqb,
}
use os161_virtual_memory_imp.Machine.{page_frame, frame_to_paddr, paddr_to_frame, paddr_to_kvaddr}
use os161_virtual_memory_imp.Frames.{
  FrameTable, Frames, zero_page, alloc_frame, alloc_paddr, finish_alloc, alloc_kpages,
}
use os161_virtual_memory_imp.Frames.FreeList.{IsFrameTable, FreeList-write}

-- The table after frame `i` has been handed out.
abbrev pub taken : FrameTable → ℕ → FrameTable
taken t i = record t {
  entry = update t.entry i (record (t.entry i) { used = true; ref = pos 1 });
  firstfree = (t.entry i).next_free;
}

module _ (t : FrameTable) (i : ℕ) (free : List ℕ) (v : IsFrameTable t (i ∷ free)) where
  pub alloc_frame-cons : alloc_frame 1 t ≡ some (frame_to_paddr i, taken t i)
  unfolding alloc_frame
  alloc_frame-cons = ground (arith, v.chain)

  pub taken-IsFrameTable : IsFrameTable (taken t i) free
  taken-IsFrameTable = record {
    small = v.small;
    chain =
        FreeList-write t (t.entry i).next_free (t.entry i).next_free free i _ v.chain.5 v.chain.4;
    referenced = λ j h u. elim (Bool-cases (i == j)) [
      | inl e ↦ (0, ground arith)
      | inr e ↦ ground (arith, v.referenced j)
    ];
  }

pub alloc_frame-nil : (t : FrameTable) → IsFrameTable t [] → alloc_frame 1 t ≡ some (0, t)
unfolding alloc_frame
alloc_frame-nil t v = ground (arith, v.chain)

finish_alloc_zero : (fr : Frames) → finish_alloc 0 fr ≡ (0, fr)
unfolding finish_alloc
finish_alloc_zero fr = refl

pub finish_alloc-frame :
    (i : ℕ) (fr : Frames)
    → 0 < i
    → i < 131072
    → finish_alloc (frame_to_paddr i) fr
      ≡ (paddr_to_kvaddr (frame_to_paddr i), record fr { mem = update fr.mem i zero_page })
unfolding finish_alloc
finish_alloc-frame i fr h k =
    let back : paddr_to_frame (frame_to_paddr i) ≡ i = omega arith in
    rw (
      ne→eqb (frame_to_paddr i) 0 (omega arith),
      eq→eqb (page_frame (frame_to_paddr i)) (frame_to_paddr i) (omega arith),
      back,
    )

-- What alloc_kpages(1) does to the table `t` whose free list is `free`.
abbrev pub Pops : Frames → FrameTable → List ℕ → Option (ℕ × Frames) → Type 0
Pops fr t [] r = r ≡ some (0, fr)
Pops fr t (i ∷ free) r =
    (r
      ≡ some (
        paddr_to_kvaddr (frame_to_paddr i),
        record fr { table = some (taken t i); mem = update fr.mem i zero_page },
      ))
    × IsFrameTable (taken t i) free
    × ((t.entry i).used ≡ false)

-- On a sound frame table alloc_kpages(1) never faults. With no free frame it returns 0 and changes
-- nothing. Otherwise it returns the kernel address of the frame at the head of the free list, which
-- was unused and is now used once and zeroed; no other frame changes, and the rest of the list
-- is the free list of a table that is again sound.
pub alloc_kpages-Pops :
    (fr : Frames) (t : FrameTable) (free : List ℕ)
    → fr.table ≡ some t
    → IsFrameTable t free
    → Pops fr t free (alloc_kpages 1 fr)
unfolding alloc_kpages alloc_paddr
alloc_kpages-Pops fr t [] e v =
    rw (e, alloc_paddr, alloc_frame-nil t v) (ground (arith, finish_alloc_zero fr))
alloc_kpages-Pops fr t (i ∷ free) e v = (
  rw (e, alloc_paddr, alloc_frame-cons t i free v)
      (rw (finish_alloc-frame i _ v.chain.1 (omega (arith, v.small, v.chain.2)))),
  taken-IsFrameTable t i free v,
  v.chain.3,
)

-- After the bootstrap a request for any number of pages but one fails and changes nothing.
pub alloc_kpages_multiple :
    (npages : ℕ) (fr : Frames) (t : FrameTable) (free : List ℕ)
    → fr.table ≡ some t
    → IsFrameTable t free
    → npages ≢ 1
    → alloc_kpages npages fr ≡ some (0, fr)
unfolding alloc_kpages alloc_paddr alloc_frame
alloc_kpages_multiple npages fr t [] e v ne = ground (arith, v.chain, finish_alloc_zero fr)
alloc_kpages_multiple npages fr t (i ∷ free) e v ne = ground (arith, v.chain, finish_alloc_zero fr)
