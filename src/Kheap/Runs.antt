-- ===== src/Kheap/Runs.antt =====
-- kern/vm/kmalloc.c: the heap from the boot on, over any sequence of requests and releases.
use os161_virtual_memory_imp.Common.{
  ℕ, zero, suc, ◌*◌, ◌+◌, ◌≤◌, ◌<◌, ◌≡◌, refl, sym, ap, subst, ◌∙◌, inl, inr, true, false, some,
  List, [], arith,
}
use os161_virtual_memory_imp.Frames.{FrameTable}
use os161_virtual_memory_imp.Kmalloc.{World, IsBooted}
use os161_virtual_memory_imp.Kheap.{KHeap, free_page, owned, live, size_of}
use os161_virtual_memory_imp.Kheap.Subpage.{kmalloc, kfree}
use os161_virtual_memory_imp.Kheap.Sound.{IsHeap, count}
use os161_virtual_memory_imp.Kheap.Apart.{blocks_apart}
use os161_virtual_memory_imp.Kheap.Laws.{kmalloc-Allocated, kfree-FreedOrNot}

-- The variables before the first call, all of them zero: the roots and the two kinds of list.
abbrev pub boot_heap : KHeap
boot_heap = record {
  root_page = λ _. 0;
  pagerefs_inuse = λ _. false;
  numinuse = λ _. 0;
  pagerefs = λ _. record { pageaddr_and_blocktype = 0; free = []; nfree = 0 };
  sizebases = λ _. [];
  allbase = [];
  link = λ _. 0;
  owner = λ _. free_page;
}

count_none : (n s : ℕ) → count n s (λ _. false) ≡ 0
unfolding count
count_none zero s = refl
count_none (suc n) s = omega (arith, count_none n (suc s))

pub boot_heap-IsHeap : IsHeap boot_heap
boot_heap-IsHeap = record {
  in_kseg = λ i u. absurd cc;
  described = λ s m. absurd cc;
  listed = λ i s e. absurd cc;
  listed_once = tt;
  by_size = λ k s m. absurd cc;
  sized_once = λ k. tt;
  tallied = λ r l. sym (count_none 256 (r * 256));
}

-- What a sequence of calls makes of `start`: kmalloc, which may fail, and kfree of a block in use,
-- as far as the kernel does not panic.
pub data Reached (start : World KHeap) : World KHeap → Type 0 where
  at_start : (w : World KHeap) → w ≡ start → Reached start w
  allocated :
      (sz p : ℕ) (w w' : World KHeap)
      → Reached start w
      → kmalloc sz w ≡ some (p, w')
      → Reached start w'
  freed :
      (p : ℕ) (w w' : World KHeap)
      → Reached start w
      → live w.heap p ≡ true
      → kfree p w ≡ some w'
      → Reached start w'

abbrev pub IsSound : World KHeap → Type 0
IsSound w =
    IsHeap w.heap × ((t : FrameTable) × (free : List ℕ) × IsBooted (owned w.heap) w.frames t free)

some_same {ℓ} : {A : Type ℓ} (a b : A) → some a ≡ some b → a ≡ b
some_same a b e = cc e

Reached-IsSound : (start w : World KHeap) → IsSound start → Reached start w → IsSound w
Reached-IsSound start w v (at_start _ e) = subst IsSound (sym e) v
Reached-IsSound start w v (allocated sz p w0 _ r run) =
    let (h, (t, free, b)) = Reached-IsSound start w0 v r in
    elim (kmalloc-Allocated sz w0 t free h b) [
      | inl (w1, run', (t1, free1, v1, b1, s1), _) ↦
          subst IsSound (ap (λ x. x.1) (some_same (0, w1) (p, w) (sym run' ∙ run)))
            (v1, (t1, free1, b1))
      | inr (p1, size, w1, run', g, _, _) ↦
          let (t1, free1, v1, b1, s1) = g.step in
          subst IsSound (ap (λ x. x.1) (some_same (p1, w1) (p, w) (sym run' ∙ run)))
            (v1, (t1, free1, b1))
    ]
Reached-IsSound start w v (freed p w0 _ r l run) =
    let (h, (t, free, b)) = Reached-IsSound start w0 v r in
    elim (kfree-FreedOrNot w0 t free h b p l) [
      | inl (stop, _) ↦ absurd (cc (stop, run))
      | inr (w1, run', (t1, free1, v1, b1, s1), _, _) ↦
          subst IsSound (some_same w1 w (sym run' ∙ run)) (v1, (t1, free1, b1))
    ]

-- Whatever calls of kmalloc and kfree the kernel makes, starting from a sound heap: the heap stays
-- sound, and of two blocks that are in use at the same time one ends before the other begins.
pub Reached-blocks_apart :
    (start w : World KHeap) (p q : ℕ)
    → IsSound start
    → Reached start w
    → live w.heap p ≡ true
    → live w.heap q ≡ true
    → p < q
    → IsSound w × (p + size_of w.heap p ≤ q)
Reached-blocks_apart start w p q v r a b l =
    (Reached-IsSound start w v r, blocks_apart w.heap p q a b l)
