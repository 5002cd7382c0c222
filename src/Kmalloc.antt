-- ===== src/Kmalloc.antt =====
-- The kernel heap as its clients see it: kmalloc and kfree of kern/vm/kmalloc.c, which take their
-- pages from the frame table. A client takes the operations as a section parameter, and its
-- theorems take the laws.
use os161_virtual_memory_imp.Common.{
  ℕ, ◌≤◌, ◌<◌, ◌%◌, ◌≡◌, ◌≢◌, ◌==◌, if◌then◌else◌, pos, Bool, true, false, some, none, List, Option,
  ◌⊎◌,
}
use os161_virtual_memory_imp.Frames.{FrameTable, Frames}
use os161_virtual_memory_imp.Frames.FreeList.{IsFrameTable}

-- The heap's own state, and the frames that it shares with the rest of the kernel.
pub record World (H : Type 0) : Type 0 where
  pub heap : H
  pub frames : Frames

-- `kmalloc` returns an address, NULL being 0. `first_word` is what the first word of a block holds;
-- kmalloc does not clear the block. `kfree` is `none` where it panics.
pub record Kmalloc (H : Type 0) : Type 0 where
  pub kmalloc : ℕ → World H → ℕ × World H
  pub kfree : ℕ → World H → Option (World H)
  pub first_word : World H → ℕ → ℕ

-- The frame table exists, its free list is sound, and the heap's frames are in use, once each.
pub record IsBooted (owned : ℕ → Bool) (fr : Frames) (t : FrameTable) (free : List ℕ) : Type 0 where
  pub booted : fr.table ≡ some t
  pub sound : IsFrameTable t free
  pub held : (i : ℕ) → owned i ≡ true → ((t.entry i).used ≡ true) × ((t.entry i).ref ≡ pos 1)
  pub within : (i : ℕ) → owned i ≡ true → (0 < i) × (i < t.nframes)

-- From `fr` to `fr'` only frames change that are free or that `owned` names; the others stay as
-- they are, and out of the heap.
pub record Spares (owned owned' : ℕ → Bool) (fr fr' : Frames) (t t' : FrameTable) : Type 0 where
  pub same_size : t'.nframes ≡ t.nframes
  pub same_entry : (i : ℕ) → (t.entry i).used ≡ true → owned i ≡ false → t'.entry i ≡ t.entry i
  pub same_memory : (i : ℕ) → (t.entry i).used ≡ true → owned i ≡ false → fr'.mem i ≡ fr.mem i
  pub still_foreign : (i : ℕ) → (t.entry i).used ≡ true → owned i ≡ false → owned' i ≡ false

-- A step of the heap from `w` to `w'`, over the frames that it owns before and after.
abbrev pub HeapStep :
    {H : Type 0} → (H → Type 0) → (H → ℕ → Bool) → World H → World H → FrameTable → Type 0
HeapStep IsHeap owned w w' t =
    (t' : FrameTable) × (free' : List ℕ) × IsHeap w'.heap
    × IsBooted (owned w'.heap) w'.frames t' free'
    × Spares (owned w.heap) (owned w'.heap) w.frames w'.frames t t'

-- What the clients rely on: the heap takes only free frames, frees only frames of its own, hands
-- out blocks that were not in use, and leaves the link word in a small block.
pub record KmallocLaws {H : Type 0} (K : Kmalloc H) : Type 1 where
  pub IsHeap : H → Type 0
  pub owned : H → ℕ → Bool
  pub live : H → ℕ → Bool
  pub kmalloc_step :
      (n : ℕ) (w : World H) (t : FrameTable) (free : List ℕ)
      → IsHeap w.heap
      → IsBooted (owned w.heap) w.frames t free
      → HeapStep IsHeap owned w (K.kmalloc n w).1 t
  -- The heap has its books in order. A kmalloc that gives a block leaves them so.
  pub steady : H → Type 0
  pub kmalloc_steady :
      (n : ℕ) (w : World H) (t : FrameTable) (free : List ℕ)
      → IsHeap w.heap
      → IsBooted (owned w.heap) w.frames t free
      → (K.kmalloc n w).0 ≢ 0
      → steady w.heap
      → steady (K.kmalloc n w).1.heap
  -- Only a block that is in use is freed. kfree may panic on it where the books are not in order.
  pub kfree_step :
      (p : ℕ) (w : World H) (t : FrameTable) (free : List ℕ)
      → live w.heap p ≡ true
      → IsHeap w.heap
      → IsBooted (owned w.heap) w.frames t free
      → ((K.kfree p w ≡ none) × ¬ steady w.heap)
        ⊎ ((w' : World H) × (K.kfree p w ≡ some w')
            × HeapStep IsHeap owned w w' t
            × ((q : ℕ) → q ≢ p → live w'.heap q ≡ live w.heap q)
            × (steady w.heap → steady w'.heap))
  pub kmalloc_live :
      (n : ℕ) (w : World H) (t : FrameTable) (free : List ℕ)
      → IsHeap w.heap
      → IsBooted (owned w.heap) w.frames t free
      → (K.kmalloc n w).0 ≢ 0
      → (live w.heap (K.kmalloc n w).0 ≡ false)
        × ((p : ℕ)
            → live (K.kmalloc n w).1.heap p
              ≡ (if p == (K.kmalloc n w).0 then true else live w.heap p))
  -- Without memory no block comes into use.
  pub kmalloc_none :
      (n : ℕ) (w : World H) (t : FrameTable) (free : List ℕ)
      → IsHeap w.heap
      → IsBooted (owned w.heap) w.frames t free
      → (K.kmalloc n w).0 ≡ 0
      → (p : ℕ) → live (K.kmalloc n w).1.heap p ≡ live w.heap p
  -- A block of 16 bytes still holds the link of its free list, which is NULL or the address of
  -- another block of that size.
  pub first_word_aligned :
      (n : ℕ) (w : World H) (t : FrameTable) (free : List ℕ)
      → n ≤ 16
      → IsHeap w.heap
      → IsBooted (owned w.heap) w.frames t free
      → (K.kmalloc n w).0 ≢ 0
      → K.first_word (K.kmalloc n w).1 (K.kmalloc n w).0 % 16 ≡ 0
