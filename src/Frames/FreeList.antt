-- ===== src/Frames/FreeList.antt =====
-- The free list of kern/vm/frametable.c: what the chain of `next_free` pointers stands for.
use os161_virtual_memory_imp.Common.{
  ℕ, suc, ◌<◌, ◌≤◌, ◌≡◌, refl, true, false, Option, none, some, List, [], ◌∷◌, arith, has, update,
  pos,
}
use os161_virtual_memory_imp.Frames.{FrameEntry, FrameTable}

-- From `p` the pointers lead through the frames `free`, all distinct, unused, inside the table
-- and above frame 0, to NULL.
abbrev pub FreeList : FrameTable → Option ℕ → List ℕ → Type 0
FreeList t p [] = p ≡ none
FreeList t p (i ∷ is) =
    (p ≡ some i)
    × (0 < i)
    × (i < t.nframes)
    × ((t.entry i).used ≡ false)
    × (has i is ≡ false)
    × FreeList t (t.entry i).next_free is

-- The table is small enough for kseg0, the free list is sound, and a used frame has a reference.
pub record IsFrameTable (t : FrameTable) (free : List ℕ) : Type 0 where
  pub small : t.nframes ≤ 131072
  pub chain : FreeList t t.firstfree free
  pub referenced :
      (i : ℕ) → i < t.nframes → (t.entry i).used ≡ true → (k : ℕ) × ((t.entry i).ref ≡ pos (suc k))

-- A frame on the list is unused.
pub not_has_of_used :
    (t : FrameTable) (p : Option ℕ) (free : List ℕ) (i : ℕ)
    → FreeList t p free
    → (t.entry i).used ≡ true
    → has i free ≡ false
not_has_of_used t p [] i c u = refl
not_has_of_used t p (j ∷ free) i c u =
    ground (arith, not_has_of_used t (t.entry j).next_free free i)

-- A write to an entry off the list leaves the list alone, and so does a new list head.
pub FreeList-write :
    (t : FrameTable) (q p : Option ℕ) (free : List ℕ) (i : ℕ) (e : FrameEntry)
    → FreeList t p free
    → has i free ≡ false
    → FreeList (record t { entry = update t.entry i e; firstfree = q }) p free
FreeList-write t q p [] i e c out = c
FreeList-write t q p (j ∷ free) i e c out =
    ground (arith, FreeList-write t q (t.entry j).next_free free i e)
