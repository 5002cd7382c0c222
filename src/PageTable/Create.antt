-- ===== src/PageTable/Create.antt =====
-- create_page and create_shared_page: what they do to the frames and to the references to them.
use os161_virtual_memory_imp.Common.{
  ℕ, suc, ◌<◌, ◌≡◌, ◌≢◌, refl, ap, ne→eqb, ◌∙◌, ◌⊎◌, inl, inr, true, false, Option, none, some,
  List, [], ◌∷◌, arith, ◌==◌, update, pos, Bool-cases, eqb→ne, eqb→eq, if◌then◌else◌,
}
use os161_virtual_memory_imp.Machine.{frame_to_paddr, paddr_to_kvaddr, frame-paddr_to_kvaddr}
use os161_virtual_memory_imp.Frames.{FrameTable, zero_page}
use os161_virtual_memory_imp.Frames.Alloc.{taken}
use os161_virtual_memory_imp.Frames.Release.{recounted}
use os161_virtual_memory_imp.Kmalloc.{World, Kmalloc, KmallocLaws}
use os161_virtual_memory_imp.PageTable.{
  PageEntry, set_entrylo, entry_size, back_page, create_page, share_page, create_shared_page,
  alloc_page,
}
use os161_virtual_memory_imp.PageTable.Pages.{
  IsWorld, Panics, kmalloc-IsWorld, kfree-IsWorld, with_frame, alloc_page-Allocates,
}
use os161_virtual_memory_imp.PageTable.Recount.{recount, frame_ref_mod_up}

abbrev pub page_of : (block pid pagenumber : ℕ) → (valid dirty frame : ℕ) → PageEntry
page_of block pid pagenumber valid dirty frame = record {
  block = block;
  pid = pid;
  pagenumber = pagenumber;
  lo = set_entrylo valid dirty frame;
}

-- The kernel address of a frame is not NULL.
pub kvaddr_ne_zero : (i : ℕ) → i < 131072 → (paddr_to_kvaddr (frame_to_paddr i) == 0) ≡ false
unfolding paddr_to_kvaddr
kvaddr_ne_zero i h = ground arith

module _ {H : Type 0} {K : Kmalloc H} (L : KmallocLaws K) where
  -- The world after the structure has been asked for.
  abbrev pub asked : World H → World H
  asked w = (K.kmalloc entry_size w).1

  -- Out of memory: no page, and the references and the other blocks are as before. Either kmalloc
  -- has failed, or there was no frame, and then the books of the heap stay in order.
  abbrev pub NoPage : (c : ℕ → ℕ) → World H → Option (Option PageEntry × World H) → Type 0
  NoPage c w r =
      (w' : World H) × (t' : FrameTable) × (free' : List ℕ) × (r ≡ some (none, w'))
      × IsWorld L w' t' free' c
      × ((q : ℕ) → q ≢ (K.kmalloc entry_size w).0 → L.live w'.heap q ≡ L.live w.heap q)
      × (((K.kmalloc entry_size w).0 ≡ 0)
          ⊎ ((alloc_page (asked w) ≡ some (0, asked w)) × (L.steady w.heap → L.steady w'.heap)))

  -- A page in a block that was not in use, on a frame `i` of its own, which is zeroed.
  abbrev pub FreshPage :
      (pid pagenumber dirtybit : ℕ) (c : ℕ → ℕ)
      → World H
      → Option (Option PageEntry × World H)
      → Type 0
  FreshPage pid pagenumber dirtybit c w r =
      (w' : World H) × (t' : FrameTable) × (free' : List ℕ) × (block : ℕ) × (i : ℕ) × (r
        ≡ some (some (page_of block pid pagenumber 1 dirtybit i), w'))
      × (c i ≡ 0)
      × (0 < i)
      × (i < 131072)
      × (w'.frames.mem i ≡ zero_page)
      × IsWorld L w' t' free' (update c i 1)
      × (L.live w.heap block ≡ false)
      × ((q : ℕ) → L.live w'.heap q ≡ (if q == block then true else L.live w.heap q))
      × (L.steady w.heap → L.steady w'.heap)

  abbrev pub Created :
      (pid pagenumber dirtybit : ℕ) (c : ℕ → ℕ)
      → World H
      → Option (Option PageEntry × World H)
      → Type 0
  Created pid pagenumber dirtybit c w r =
      Panics L w r ⊎ NoPage c w r ⊎ FreshPage pid pagenumber dirtybit c w r

  back_page-Created :
      (pid pagenumber dirtybit : ℕ) (w : World H) (t : FrameTable) (free : List ℕ) (c : ℕ → ℕ)
      → L.live w.heap (K.kmalloc entry_size w).0 ≡ false
      → ((q : ℕ)
          → L.live (asked w).heap q
            ≡ (if q == (K.kmalloc entry_size w).0 then true else L.live w.heap q))
      → (L.steady w.heap → L.steady (asked w).heap)
      → IsWorld L (asked w) t free c
      → Created pid pagenumber dirtybit c w
          (back_page K (K.kmalloc entry_size w).0 pid pagenumber dirtybit (asked w))
  unfolding back_page
  back_page-Created pid pagenumber dirtybit w t [] c fresh now steady v =
      let block = (K.kmalloc entry_size w).0 in
      let live : L.live (asked w).heap block ≡ true = now block ∙ ground arith in
      let full = alloc_page-Allocates L (asked w) t c [] v in
      elim (kfree-IsWorld L v block live) [
        | inl (stop, bad) ↦ inl (rw (full, stop) refl, λ st. bad (steady st))
        | inr (w', t', free', run, v', others, kept) ↦ inr (
            inl (
              w',
              t',
              free',
              rw (full, run) refl,
              v',
              (λ q ne.
                  others q ne
                  ∙ now q
                  ∙ ap (λ x. if x then true else L.live w.heap q) (ne→eqb q block ne)),
              inr (full, λ st. kept (steady st)),
            ))
      ]
  back_page-Created pid pagenumber dirtybit w t (i ∷ rest) c fresh now steady v =
      let (run, free, above, small, foreign, v') =
        alloc_page-Allocates L (asked w) t c (i ∷ rest) v in
      inr (
        inr (
          with_frame (asked w) t i,
          taken t i,
          rest,
          (K.kmalloc entry_size w).0,
          i,
          rw (run, kvaddr_ne_zero i small, frame-paddr_to_kvaddr i small),
          free,
          above,
          small,
          ground arith,
          v',
          fresh,
          now,
          steady,
        ))

  -- On a sound world create_page panics only if the books of the heap are out of order, and then
  -- in kfree. Otherwise it gives up, with all references and the other blocks as before, because
  -- kmalloc has failed or because no frame is left, and then the books stay in order; or it makes a
  -- valid entry in a block that was not in use, on a zeroed frame that no other entry refers to, and
  -- no other block changes.
  pub create_page-FreshPage :
      (pid pagenumber dirtybit : ℕ) (w : World H) (t : FrameTable) (free : List ℕ) (c : ℕ → ℕ)
      → IsWorld L w t free c
      → Created pid pagenumber dirtybit c w (create_page K pid pagenumber dirtybit w)
  unfolding create_page
  create_page-FreshPage pid pagenumber dirtybit w t free c v =
      let (t', free', v') = kmalloc-IsWorld L v entry_size in
      let block = (K.kmalloc entry_size w).0 in
      elim (Bool-cases (block == 0)) [
        | inl e ↦
            let e' = eqb→eq block 0 e in
            inr (
              inl (
                asked w,
                t',
                free',
                rw e,
                v',
                (λ q ne. L.kmalloc_none entry_size w t free v.heap v.frames e' q),
                inl e',
              ))
        | inr e ↦
            let ne = eqb→ne block 0 e in
            let (fresh, now) = L.kmalloc_live entry_size w t free v.heap v.frames ne in
            rw e (
              back_page-Created pid pagenumber dirtybit w t' free' c fresh now
                (L.kmalloc_steady entry_size w t free v.heap v.frames ne) v')
      ]

  -- No memory for an entry: no block comes into use either.
  abbrev pub NoShare : (c : ℕ → ℕ) → World H → Option (Option PageEntry × World H) → Type 0
  NoShare c w r =
      (w' : World H) × (t' : FrameTable) × (free' : List ℕ) × (r ≡ some (none, w'))
      × IsWorld L w' t' free' c
      × ((q : ℕ) → L.live w'.heap q ≡ L.live w.heap q)

  -- A page that shares frame `f`, in a block that was not in use.
  abbrev pub SharedPage :
      (pid pagenumber f valid : ℕ) (c : ℕ → ℕ)
      → World H
      → Option (Option PageEntry × World H)
      → Type 0
  SharedPage pid pagenumber f valid c w r =
      (w' : World H) × (t' : FrameTable) × (free' : List ℕ) × (block : ℕ) × (r
        ≡ some (some (page_of block pid pagenumber valid 0 f), w'))
      × IsWorld L w' t' free' (update c f (suc (c f)))
      × (L.live w.heap block ≡ false)
      × ((q : ℕ) → L.live w'.heap q ≡ (if q == block then true else L.live w.heap q))

  pub create_shared_page-SharedPage :
      (pid pagenumber f valid : ℕ) (w : World H) (t : FrameTable) (free : List ℕ) (c : ℕ → ℕ)
      → IsWorld L w t free c
      → 0 < c f
      → NoShare c w (create_shared_page K pid pagenumber f valid w)
        ⊎ SharedPage pid pagenumber f valid c w (create_shared_page K pid pagenumber f valid w)
  unfolding create_shared_page share_page
  create_shared_page-SharedPage pid pagenumber f valid w t free c v p =
      let (t', free', v') = kmalloc-IsWorld L v entry_size in
      let block = (K.kmalloc entry_size w).0 in
      let w' = (K.kmalloc entry_size w).1 in
      elim (Bool-cases (block == 0)) [
        | inl e ↦ inl (
          w',
          t',
          free',
          rw e,
          v',
          L.kmalloc_none entry_size w t free v.heap v.frames (eqb→eq block 0 e),
        )
        | inr e ↦
            (let (fresh, others) =
                L.kmalloc_live entry_size w t free v.heap v.frames (eqb→ne block 0 e) in
              let (run, v2) = frame_ref_mod_up L v' f p in
              inr (
                record w' { frames = recount w'.frames t' f (suc (c f)) },
                recounted t' f (pos (suc (c f))),
                free',
                block,
                rw (e, run),
                v2,
                fresh,
                others,
              ))
      ]
