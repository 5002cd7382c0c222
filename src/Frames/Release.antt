-- ===== src/Frames/Release.antt =====
-- free_kpages and the reference counts of frames.
use os161_virtual_memory_imp.Common.{
  ℕ, zero, suc, ◌<◌, ◌≡◌, refl, ◌⊎◌, inl, inr, true, false, some, List, ◌∷◌, arith, ◌==◌, update, ℤ,
  pos, Bool-cases, +ℤ_pred, ne→eqb, lt→ltb,
}
use os161_virtual_memory_imp.Machine.{
  frame_to_paddr, paddr_to_frame, paddr_to_kvaddr, kvaddr_to_paddr-paddr_to_kvaddr,
}
use os161_virtual_memory_imp.Frames.{FrameTable, Frames, set_entry, drop_ref, free_kpages}
use os161_virtual_memory_imp.Frames.FreeList.{IsFrameTable, FreeList-write, not_has_of_used}

-- The table after the last reference to frame `i` has gone.
abbrev pub released : FrameTable → ℕ → FrameTable
released t i = record t {
  entry = update t.entry i (record { used = false; ref = pos 0; next_free = t.firstfree });
  firstfree = some i;
}

-- The table after the count of frame `i` has become `ref`.
abbrev pub recounted : FrameTable → ℕ → ℤ → FrameTable
recounted t i ref = set_entry t i (record (t.entry i) { ref = ref })

-- What dropping one of the `suc k` references to frame `i` makes of the table and its free list.
abbrev pub dropped : FrameTable → ℕ → ℕ → FrameTable
dropped t i zero = released t i
dropped t i (suc k) = recounted t i (pos (suc k))

abbrev pub free_after : ℕ → ℕ → List ℕ → List ℕ
free_after i zero free = i ∷ free
free_after i (suc k) free = free

pub drop_ref-dropped :
    (t : FrameTable) (i k : ℕ)
    → i < t.nframes
    → (t.entry i).used ≡ true
    → (t.entry i).ref ≡ pos (suc k)
    → drop_ref i t ≡ some (dropped t i k)
unfolding drop_ref
drop_ref-dropped t i zero within used e = rw (lt→ltb i t.nframes within, used, e, +ℤ_pred zero)
drop_ref-dropped t i (suc k) within used e =
    rw (lt→ltb i t.nframes within, used, e, +ℤ_pred (suc k)) (ground arith)

module _ (t : FrameTable) (free : List ℕ) (v : IsFrameTable t free) (i k : ℕ)
    (within : i < t.nframes) (used : (t.entry i).used ≡ true) where
  pub recounted-IsFrameTable : IsFrameTable (recounted t i (pos (suc k))) free
  recounted-IsFrameTable = record {
    small = v.small;
    chain =
        FreeList-write t t.firstfree t.firstfree free i _ v.chain
          (not_has_of_used t t.firstfree free i v.chain used);
    referenced = λ j h u. elim (Bool-cases (i == j)) [
      | inl e ↦ (k, ground arith)
      | inr e ↦ ground (arith, v.referenced j)
    ];
  }

  pub released-IsFrameTable : 0 < i → IsFrameTable (released t i) (i ∷ free)
  released-IsFrameTable p =
      let out = not_has_of_used t t.firstfree free i v.chain used in
      record {
        small = v.small;
        chain = (
          refl,
          p,
          within,
          ground arith,
          out,
          ground (
            arith,
            FreeList-write t (some i) t.firstfree free i
                (record { used = false; ref = pos 0; next_free = t.firstfree }) v.chain out,
          ),
        );
        referenced = λ j h u. elim (Bool-cases (i == j)) [
          | inl e ↦ absurd (ground arith)
          | inr e ↦ ground (arith, v.referenced j)
        ];
      }

pub dropped-IsFrameTable :
    (t : FrameTable) (free : List ℕ) (i k : ℕ)
    → IsFrameTable t free
    → 0 < i
    → i < t.nframes
    → (t.entry i).used ≡ true
    → IsFrameTable (dropped t i k) (free_after i k free)
dropped-IsFrameTable t free i zero v p within used =
    released-IsFrameTable t free v i 0 within used p
dropped-IsFrameTable t free i (suc k) v p within used =
    recounted-IsFrameTable t free v i k within used

module _ (fr : Frames) (t : FrameTable) (free : List ℕ) (booted : fr.table ≡ some t)
    (v : IsFrameTable t free) where
  -- free_kpages at the address of a used frame with `suc k` references leaves it with `k`. With
  -- the last reference gone the frame is unused and heads the free list; otherwise the list stays.
  -- No other frame and no memory changes, and the table is sound again.
  pub free_kpages-dropped :
      (i k : ℕ)
      → 0 < i
      → i < t.nframes
      → (t.entry i).used ≡ true
      → (t.entry i).ref ≡ pos (suc k)
      → (free_kpages (paddr_to_kvaddr (frame_to_paddr i)) fr
          ≡ some (record fr { table = some (dropped t i k) }))
        × IsFrameTable (dropped t i k) (free_after i k free)
  unfolding free_kpages
  free_kpages-dropped i k p within used e =
      let back = kvaddr_to_paddr-paddr_to_kvaddr (frame_to_paddr i) (omega arith) in
      let index : paddr_to_frame (frame_to_paddr i) ≡ i = omega (arith, v.small) in
      let some_page : (frame_to_paddr i == 0) ≡ false =
        ne→eqb (frame_to_paddr i) 0 (omega (arith, v.small)) in
      (
        rw (booted, free_kpages, back, some_page, index)
            (rw (drop_ref-dropped t i k within used e)),
        dropped-IsFrameTable t free i k v p within used,
      )

  -- Freeing an unused frame, or the address of physical page 0, changes nothing.
  pub free_kpages_unused :
      (i : ℕ)
      → i < t.nframes
      → (i ≡ 0) ⊎ ((t.entry i).used ≡ false)
      → free_kpages (paddr_to_kvaddr (frame_to_paddr i)) fr ≡ some fr
  unfolding free_kpages drop_ref
  free_kpages_unused i within h =
      let back = kvaddr_to_paddr-paddr_to_kvaddr (frame_to_paddr i) (omega arith) in
      let index : paddr_to_frame (frame_to_paddr i) ≡ i = omega (arith, v.small) in
      elim h [
        | inl z ↦ rw (booted, free_kpages, back, z) (ground arith)
        | inr u ↦
            rw (booted, free_kpages, back, index) (rw (lt→ltb i t.nframes within, u) (ground arith))
      ]
