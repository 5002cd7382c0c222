-- ===== src/PageTable/Recount.antt =====
-- frame_ref_cnt, frame_ref_mod and copyframe, seen from the page table.
use os161_virtual_memory_imp.Common.{
  ℕ, suc, ◌<◌, ◌≡◌, refl, inl, inr, some, List, arith, ◌==◌, update, ℤ, pos, negsuc, ◌+ℤ◌, +ℤ_pred,
  +ℤ_suc, Bool-cases, lt→ltb,
}
use os161_virtual_memory_imp.Frames.{FrameTable, Frames, frame_ref_cnt, frame_ref_mod}
use os161_virtual_memory_imp.Frames.Release.{recounted, recounted-IsFrameTable}
use os161_virtual_memory_imp.Kmalloc.{World, Kmalloc, KmallocLaws}
use os161_virtual_memory_imp.PageTable.{copyframe}
use os161_virtual_memory_imp.PageTable.Pages.{IsWorld}

-- The frames after the count of frame `f` has become `n`.
abbrev pub recount : Frames → FrameTable → (f n : ℕ) → Frames
recount fr t f n = record fr { table = some (recounted t f (pos n)) }

module _ {H : Type 0} {K : Kmalloc H} (L : KmallocLaws K) {w : World H} {t : FrameTable}
    {free : List ℕ} {c : ℕ → ℕ} (v : IsWorld L w t free c) (f : ℕ) where
  -- The count of a frame is the number of entries that refer to it.
  pub frame_ref_cnt-count : 0 < c f → frame_ref_cnt f w.frames ≡ some (pos (c f))
  unfolding frame_ref_cnt
  frame_ref_cnt-count p =
      let m = v.mapped f p in
      rw (v.frames.booted, frame_ref_cnt, lt→ltb f t.nframes m.within, m.counted)

  frame_ref_mod-recount :
      (modifier : ℤ) (n : ℕ)
      → 0 < c f
      → pos (c f) +ℤ modifier ≡ pos n
      → frame_ref_mod f modifier w.frames ≡ some (recount w.frames t f n)
  unfolding frame_ref_mod
  frame_ref_mod-recount modifier n p e =
      let m = v.mapped f p in
      rw (v.frames.booted, frame_ref_mod, lt→ltb f t.nframes m.within, m.counted, e)

  recount-IsWorld :
      (k : ℕ)
      → 0 < c f
      → IsWorld L
          (record w { frames = recount w.frames t f (suc k) })
          (recounted t f (pos (suc k)))
          free
          (update c f (suc k))
  recount-IsWorld k p =
      let m = v.mapped f p in
      record {
        heap = v.heap;
        frames = record {
          booted = refl;
          sound = recounted-IsFrameTable t free v.frames.sound f k m.within m.used;
          held = λ j o. ground (arith, v.frames.held j o, m.foreign);
          within = v.frames.within;
        };
        mapped = λ g h. elim (Bool-cases (f == g)) [
          | inl e ↦ ground (arith, m)
          | inr e ↦ ground (arith, v.mapped g)
        ];
      }

  -- One more entry may refer to a frame that some entry refers to.
  pub frame_ref_mod_up :
      0 < c f
      → (frame_ref_mod f (pos 1) w.frames ≡ some (recount w.frames t f (suc (c f))))
        × IsWorld L
            (record w { frames = recount w.frames t f (suc (c f)) })
            (recounted t f (pos (suc (c f))))
            free
            (update c f (suc (c f)))
  frame_ref_mod_up p =
      (frame_ref_mod-recount (pos 1) (suc (c f)) p (+ℤ_suc (c f)), recount-IsWorld (c f) p)

  -- One entry less, while another one remains.
  pub frame_ref_mod_down :
      (k : ℕ)
      → c f ≡ suc (suc k)
      → (frame_ref_mod f (negsuc 0) w.frames ≡ some (recount w.frames t f (suc k)))
        × IsWorld L
            (record w { frames = recount w.frames t f (suc k) })
            (recounted t f (pos (suc k)))
            free
            (update c f (suc k))
  frame_ref_mod_down k e =
      let p : 0 < c f = omega arith in
      (frame_ref_mod-recount (negsuc 0) (suc k) p (rw e (+ℤ_pred (suc k))), recount-IsWorld k p)

  -- The contents of frames are nobody's count.
  pub copyframe-IsWorld :
      (to : ℕ) → IsWorld L (record w { frames = copyframe f to w.frames }) t free c
  unfolding copyframe
  copyframe-IsWorld to = record {
    heap = v.heap;
    frames = record {
      booted = v.frames.booted;
      sound = v.frames.sound;
      held = v.frames.held;
      within = v.frames.within;
    };
    mapped = v.mapped;
  }
