-- ===== src/PageTable/Pages.antt =====
-- The kernel's frames under the operations that the page table makes on them: `c f` is the number
-- of page table entries that refer to frame `f`.
use os161_virtual_memory_imp.Common.{
  ℕ, zero, suc, ◌<◌, ◌≡◌, refl, sym, ◌∙◌, ◌⊎◌, inl, inr, true, false, Option, some, none, ◌≢◌, List,
  [], ◌∷◌, arith, ◌==◌, update, pos, Bool-cases, Bool,
}
use os161_virtual_memory_imp.Machine.{frame_to_paddr, paddr_to_kvaddr}
use os161_virtual_memory_imp.Frames.{FrameTable, zero_page}
use os161_virtual_memory_imp.Frames.Alloc.{taken, taken-IsFrameTable, alloc_kpages-Pops}
use os161_virtual_memory_imp.Kmalloc.{World, Kmalloc, KmallocLaws, IsBooted, Spares}
use os161_virtual_memory_imp.PageTable.{alloc_page}

-- A frame that `n` entries refer to.
pub record IsMapped (t : FrameTable) (owned : ℕ → Bool) (f n : ℕ) : Type 0 where
  pub above : 0 < f
  pub within : f < t.nframes
  pub used : (t.entry f).used ≡ true
  pub counted : (t.entry f).ref ≡ pos n
  pub foreign : owned f ≡ false

Pos-cases : (n : ℕ) → (n ≡ 0) ⊎ (0 < n)
Pos-cases zero = inl refl
Pos-cases (suc n) = inr (omega arith)

module _ {H : Type 0} {K : Kmalloc H} (L : KmallocLaws K) where
  -- A run from `w` in which kfree has panicked, and why it could.
  abbrev pub Panics : {A : Type 0} → World H → Option A → Type 0
  Panics w r = (r ≡ none) × ¬ L.steady w.heap

  pub record IsWorld (w : World H) (t : FrameTable) (free : List ℕ) (c : ℕ → ℕ) : Type 0 where
    pub heap : L.IsHeap w.heap
    pub frames : IsBooted (L.owned w.heap) w.frames t free
    pub mapped : (f : ℕ) → 0 < c f → IsMapped t (L.owned w.heap) f (c f)

module _ {H : Type 0} {K : Kmalloc H} (L : KmallocLaws K) {w : World H} {t : FrameTable}
    {free : List ℕ} {c : ℕ → ℕ} (v : IsWorld L w t free c) where
  pub IsWorld-ext : (d : ℕ → ℕ) → ((f : ℕ) → d f ≡ c f) → IsWorld L w t free d
  IsWorld-ext d same = record {
    heap = v.heap;
    frames = v.frames;
    mapped = λ f h. ground (arith, same f, v.mapped f);
  }

  Spares-mapped :
      {w' : World H} {t' : FrameTable}
      → Spares (L.owned w.heap) (L.owned w'.heap) w.frames w'.frames t t'
      → (f : ℕ) → 0 < c f
      → IsMapped t' (L.owned w'.heap) f (c f)
  Spares-mapped s f h =
      let m = v.mapped f h in
      ground (arith, s.same_size, s.same_entry f, s.still_foreign f, m.used, m.foreign)

  pub kmalloc-IsWorld :
      (n : ℕ) → (t' : FrameTable) × (free' : List ℕ) × IsWorld L (K.kmalloc n w).1 t' free' c
  kmalloc-IsWorld n =
      let (t', free', heap, booted, spares) = L.kmalloc_step n w t free v.heap v.frames in
      (t', free', record { heap = heap; frames = booted; mapped = Spares-mapped spares })

  pub kfree-IsWorld :
      (p : ℕ)
      → L.live w.heap p ≡ true
      → Panics L w (K.kfree p w)
        ⊎ ((w' : World H) × (t' : FrameTable) × (free' : List ℕ) × (K.kfree p w ≡ some w')
            × IsWorld L w' t' free' c
            × ((q : ℕ) → q ≢ p → L.live w'.heap q ≡ L.live w.heap q)
            × (L.steady w.heap → L.steady w'.heap))
  kfree-IsWorld p live = elim (L.kfree_step p w t free live v.heap v.frames) [
    | inl stop ↦ inl stop
    | inr (w', run, (t', free', heap, booted, spares), others, steady) ↦ inr (
      w',
      t',
      free',
      run,
      record { heap = heap; frames = booted; mapped = Spares-mapped spares },
      others,
      steady,
    )
  ]

  -- A frame that is not in use is no entry's and not the heap's.
  unused-unmapped : (i : ℕ) → (t.entry i).used ≡ false → (c i ≡ 0) × (L.owned w.heap i ≡ false)
  unused-unmapped i h = (
    elim (Pos-cases (c i)) [ inl e ↦ e | inr p ↦ absurd (cc (sym (v.mapped i p).used ∙ h)) ],
    elim (Bool-cases (L.owned w.heap i)) [
      | inl o ↦ absurd (cc (sym (v.frames.held i o).0 ∙ h))
      | inr n ↦ n
    ],
  )

-- The state after frame `i` has been allocated.
abbrev pub with_frame : {H : Type 0} → World H → FrameTable → ℕ → World H
with_frame w t i = record w {
  frames = record (w.frames) { table = some (taken t i); mem = update (w.frames).mem i zero_page };
}

module _ {H : Type 0} {K : Kmalloc H} (L : KmallocLaws K) (w : World H) (t : FrameTable)
    (c : ℕ → ℕ) where
  -- What allocating a page does to a world whose free frames are `free`.
  abbrev pub Allocates : List ℕ → Option (ℕ × World H) → Type 0
  Allocates [] r = r ≡ some (0, w)
  Allocates (i ∷ rest) r =
      (r ≡ some (paddr_to_kvaddr (frame_to_paddr i), with_frame w t i))
      × (c i ≡ 0)
      × (0 < i)
      × (i < 131072)
      × (L.owned w.heap i ≡ false)
      × IsWorld L (with_frame w t i) (taken t i) rest (update c i 1)

  taken-mapped :
      (i : ℕ) (rest : List ℕ)
      → IsWorld L w t (i ∷ rest) c
      → (f : ℕ) → 0 < update c i 1 f
      → IsMapped (taken t i) (L.owned w.heap) f (update c i 1 f)
  taken-mapped i rest v f h =
      let chain = v.frames.sound.chain in
      let free = unused-unmapped L v i chain.3 in
      elim (Bool-cases (i == f)) [
        | inl e ↦ ground (arith, chain, free.1)
        | inr e ↦ ground (arith, v.mapped f)
      ]

  -- Allocation of a page fails only when no frame is free, and then changes nothing. Otherwise it
  -- yields a frame that no entry refers to, and that may get its first entry.
  pub alloc_page-Allocates : (free : List ℕ) → IsWorld L w t free c → Allocates free (alloc_page w)
  alloc_page-Allocates [] v = rw (alloc_kpages-Pops w.frames t [] v.frames.booted v.frames.sound)
  alloc_page-Allocates (i ∷ rest) v =
      let chain = v.frames.sound.chain in
      let free = unused-unmapped L v i chain.3 in
      (
        rw ((alloc_kpages-Pops w.frames t (i ∷ rest) v.frames.booted v.frames.sound).0),
        free.0,
        chain.1,
        omega (arith, v.frames.sound.small, chain.2),
        free.1,
        record {
          heap = v.heap;
          frames = record {
            booted = refl;
            sound = taken-IsFrameTable t i rest v.frames.sound;
            held = λ j o. ground (arith, v.frames.held j o);
            within = v.frames.within;
          };
          mapped = taken-mapped i rest v;
        },
      )
