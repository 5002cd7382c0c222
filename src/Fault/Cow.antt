-- ===== src/Fault/Cow.antt =====
-- readonwrite, the copy on write: a frame with one reference is made writeable in place, and one
-- with more is copied.
use os161_virtual_memory_imp.Common.{
  ℕ, suc, ◌-◌, ◌%◌, ◌^◌, ◌<◌, ◌≡◌, ◌≢◌, refl, ◌⊎◌, inl, inr, false, Option, some, List, [], ◌∷◌,
  arith, ◌==◌, ◌>>=◌, update, pos, eqb_ℤ, Bool-cases,
}
use os161_virtual_memory_imp.Machine.{enomem, frame-paddr_to_kvaddr}
use os161_virtual_memory_imp.Frames.{FrameTable}
use os161_virtual_memory_imp.Frames.Alloc.{taken}
use os161_virtual_memory_imp.Frames.Release.{recounted}
use os161_virtual_memory_imp.Kmalloc.{World, Kmalloc, KmallocLaws}
use os161_virtual_memory_imp.PageTable.{
  PageEntry, set_entrylo, alloc_page, copyframe, unshare, readonwrite,
}
use os161_virtual_memory_imp.PageTable.Pages.{IsWorld, with_frame, alloc_page-Allocates}
use os161_virtual_memory_imp.PageTable.Create.{kvaddr_ne_zero}
use os161_virtual_memory_imp.PageTable.Recount.{
  recount, frame_ref_cnt-count, frame_ref_mod_down, copyframe-IsWorld,
}

-- The entry on its own frame `i`.
abbrev pub private : PageEntry → ℕ → PageEntry
private page i = record page { lo = set_entrylo 1 1 i }

abbrev pub writeable : PageEntry → PageEntry
writeable page = record page { lo = record (page.lo) { dirty = 1 } }

module _ {H : Type 0} {K : Kmalloc H} (L : KmallocLaws K) where
  -- The frame `f` of `page` is copied to frame `i`, to which no entry refers.
  abbrev pub Copied : PageEntry → World H → (c : ℕ → ℕ) → Option (ℕ × PageEntry × World H) → Type 0
  Copied page w c r =
      let f = page.lo.framenum in
      (i : ℕ) × (w' : World H) × (t' : FrameTable) × (free' : List ℕ) × (r
        ≡ some (0, private page i, w'))
      × (c i ≡ 0)
      × (i < 131072)
      × (w'.frames.mem i ≡ w.frames.mem f)
      × ((j : ℕ) → i ≢ j → w'.frames.mem j ≡ w.frames.mem j)
      × IsWorld L w' t' free' (update (update c i 1) f (c f - 1))
      × (w'.heap ≡ w.heap)

  -- What readonwrite does: a sole reference becomes writeable in place. A shared frame is copied,
  -- or there is no memory and nothing changes.
  abbrev pub Writes :
      PageEntry
      → World H
      → (free : List ℕ) → (c : ℕ → ℕ) → Option (ℕ × PageEntry × World H)
      → Type 0
  Writes page w free c r =
      let f = page.lo.framenum in
      ((c f ≡ 1) × (r ≡ some (0, writeable page, w)))
      ⊎ ((1 < c f) × (free ≡ []) × (r ≡ some (enomem, page, w)))
      ⊎ ((1 < c f) × Copied page w c r)

  unshare-Copied :
      (page : PageEntry) (w : World H) (t : FrameTable) (i : ℕ) (rest : List ℕ) (c : ℕ → ℕ)
      → IsWorld L w t (i ∷ rest) c
      → 1 < c page.lo.framenum
      → Copied page w c (do (kvaddr, w') ← alloc_page w; unshare page kvaddr w')
  unfolding unshare copyframe set_entrylo
  unshare-Copied page w t i rest c v shared =
      let f = page.lo.framenum in
      let (run, fresh, above, small, foreign, v') = alloc_page-Allocates L w t c (i ∷ rest) v in
      let k = c f - 2 in
      let apart : (i == f) ≡ false = ground (arith, fresh) in
      let count : update c i 1 f ≡ suc (suc k) = ground arith in
      let (down, v2) = frame_ref_mod_down L v' f k count in
      let v3 = copyframe-IsWorld L v2 f i in
      let index : i % 2 ^ 20 ≡ i = omega arith in
      let left : c f - 1 ≡ suc k = omega arith in
      (
        i,
        record w {
          frames = copyframe f i (recount (with_frame w t i).frames (taken t i) f (suc k));
        },
        recounted (taken t i) f (pos (suc k)),
        rest,
        rw (run, unshare, kvaddr_ne_zero i small, frame-paddr_to_kvaddr i small, down, index),
        fresh,
        small,
        ground arith,
        (λ j ne. ground arith),
        rw left v3,
        refl,
      )

  unshare-outcome :
      (page : PageEntry) (w : World H) (t : FrameTable) (free : List ℕ) (c : ℕ → ℕ)
      → IsWorld L w t free c
      → 1 < c page.lo.framenum
      → let r = (do (kvaddr, w') ← alloc_page w; unshare page kvaddr w') in
        ((free ≡ []) × (r ≡ some (enomem, page, w))) ⊎ Copied page w c r
  unfolding unshare
  unshare-outcome page w t [] c v shared =
      inl (refl, rw (alloc_page-Allocates L w t c [] v, unshare))
  unshare-outcome page w t (i ∷ rest) c v shared = inr (unshare-Copied page w t i rest c v shared)

  -- On the entry of a sound page table readonwrite never faults, and does one of three things. If
  -- the entry is the only one on its frame, it becomes writeable and nothing else changes. If
  -- others share the frame and no frame is free, the result is ENOMEM and nothing changes. Otherwise
  -- the entry moves, writeable, to a frame that no entry refers to, which gets the contents of
  -- the shared one; the shared frame loses one reference, and no other memory changes, nor does the
  -- heap.
  pub readonwrite-Writes :
      (page : PageEntry) (w : World H) (t : FrameTable) (free : List ℕ) (c : ℕ → ℕ)
      → IsWorld L w t free c
      → 0 < c page.lo.framenum
      → Writes page w free c (readonwrite page w)
  unfolding readonwrite
  readonwrite-Writes page w t free c v p =
      let n = c page.lo.framenum in
      let count = frame_ref_cnt-count L v page.lo.framenum p in
      elim (Bool-cases (eqb_ℤ (pos n) (pos 1))) [
        | inl sole ↦ inl (ground arith, rw (count, sole))
        | inr shared ↦
            (let more : 1 < n = ground arith in
              elim (unshare-outcome page w t free c v more) [
                | inl (e, run) ↦ inr (inl (more, e, rw (count, shared) run))
                | inr (i, w', t', free', run, z, q, m, o, v', same) ↦
                    inr
                      (inr (more, (i, w', t', free', rw (count, shared) run, z, q, m, o, v', same)))
              ])
      ]
