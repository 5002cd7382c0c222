-- ===== src/Kheap/Silent.antt =====
-- Steps of the heap of kern/vm/kmalloc.c that leave the blocks alone.
use os161_virtual_memory_imp.Common.{ℕ, ◌≡◌, refl, ap, ◌∙◌, inl, inr, List, ◌==◌, Bool-cases}
use os161_virtual_memory_imp.Frames.{FrameTable}
use os161_virtual_memory_imp.Kmalloc.{World, IsBooted}
use os161_virtual_memory_imp.Kheap.{KHeap, free_page, own_page, owned, mark, live}
use os161_virtual_memory_imp.Kheap.Sound.{IsHeap}
use os161_virtual_memory_imp.Kheap.Pages.{Step, Step-trans, same_owner-Step}
use os161_virtual_memory_imp.Kheap.Live.{Quiet, mark-Quiet, roots-Quiet}

-- A step that changes no block and no list, and keeps the heap's own pages.
pub record Silent (w w' : World KHeap) (t : FrameTable) : Type 0 where
  pub step : Step w w' t
  pub quiet : Quiet w.heap w'.heap
  pub own : (i : ℕ) → w.heap.owner i ≡ own_page → w'.heap.owner i ≡ own_page
  pub same_list : w'.heap.allbase ≡ w.heap.allbase

pub Silent-trans :
    (w w1 w2 : World KHeap) (t : FrameTable) (a : Silent w w1 t)
    → Silent w1 w2 a.step.0
    → Silent w w2 t
Silent-trans w w1 w2 t a b = record {
  step = Step-trans w w1 w2 t a.step b.step;
  quiet = λ q. b.quiet q ∙ a.quiet q;
  own = λ i e. b.own i (a.own i e);
  same_list = b.same_list ∙ a.same_list;
}

-- A page is taken.
pub own_page-Silent :
    (w w' : World KHeap) (t : FrameTable) (i : ℕ)
    → Step w w' t
    → w'.heap ≡ mark i own_page w.heap
    → w.heap.owner i ≡ free_page
    → Silent w w' t
own_page-Silent w w' t i step same unused = record {
  step = step;
  quiet = λ q. ap (λ h. live h q) same ∙ mark-Quiet i own_page w.heap (inl unused) (inr refl) q;
  own = λ j e. rw (same) (elim (Bool-cases (i == j)) [ inl f ↦ rw (f) refl | inr f ↦ rw (f) e ]);
  same_list = ap (λ h. h.allbase) same;
}

-- A change of roots and bits alone.
pub same_owner-Silent :
    (w : World KHeap) (h : KHeap) (t : FrameTable) (free : List ℕ)
    → IsHeap h
    → h.owner ≡ w.heap.owner
    → h.pagerefs ≡ w.heap.pagerefs
    → h.allbase ≡ w.heap.allbase
    → IsBooted (owned w.heap) w.frames t free
    → Silent w (record w { heap = h }) t
same_owner-Silent w h t free v owner refs list b = record {
  step = same_owner-Step w h t free v (λ i. rw (owner) refl) b;
  quiet = roots-Quiet w.heap h owner refs;
  own = λ i e. rw (owner) e;
  same_list = list;
}
