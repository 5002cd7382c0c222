-- ===== src/Kheap/Implements.antt =====
-- The heap of kern/vm/kmalloc.c as what the rest of the kernel relies on: the operations and the
-- laws of an abstract heap. A kfree that fails an assertion is `none`.
use os161_virtual_memory_imp.Common.{
  ℕ, ◌%◌, ◌≤◌, ◌≡◌, ◌≢◌, sym, ap, ◌∙◌, inl, inr, true, false, Option, some, none, List, ◌==◌,
  if◌then◌else◌, ne→eqb,
}
use os161_virtual_memory_imp.Frames.{FrameTable}
use os161_virtual_memory_imp.Kmalloc.{World, Kmalloc, KmallocLaws, IsBooted, HeapStep}
use os161_virtual_memory_imp.Kheap.{KHeap, owned, live}
use os161_virtual_memory_imp.Kheap.Subpage
use os161_virtual_memory_imp.Kheap.Sound.{IsHeap}
use os161_virtual_memory_imp.Kheap.Claim.{Accounted}
use os161_virtual_memory_imp.Kheap.Laws.{kmalloc-Allocated, kfree-FreedOrNot}

-- On a sound heap kmalloc is never `none`.
abbrev pub after_kmalloc : World KHeap → Option (ℕ × World KHeap) → ℕ × World KHeap
after_kmalloc w none = (0, w)
after_kmalloc w (some r) = r

abbrev pub kheap : Kmalloc KHeap
kheap = record {
  kmalloc = λ n w. after_kmalloc w (Subpage.kmalloc n w);
  kfree = λ p w. Subpage.kfree p w;
  first_word = λ w p. w.heap.link p;
}

module _ (n : ℕ) (w : World KHeap) (t : FrameTable) (free : List ℕ) (v : IsHeap w.heap)
    (b : IsBooted (owned w.heap) w.frames t free) where
  kmalloc-HeapStep : HeapStep IsHeap owned w (kheap.kmalloc n w).1 t
  kmalloc-HeapStep = elim (kmalloc-Allocated n w t free v b) [
    | inl (w', run, step, _) ↦ rw (run) step
    | inr (p, size, w', run, g, _, _) ↦ rw (run) g.step
  ]

  kmalloc_gives :
      (kheap.kmalloc n w).0 ≢ 0
      → (live w.heap (kheap.kmalloc n w).0 ≡ false)
        × ((p : ℕ)
            → live (kheap.kmalloc n w).1.heap p
              ≡ (if p == (kheap.kmalloc n w).0 then true else live w.heap p))
        × (Accounted w.heap → Accounted (kheap.kmalloc n w).1.heap)
        × (n ≤ 16 → (kheap.kmalloc n w).1.heap.link (kheap.kmalloc n w).0 % 16 ≡ 0)
  kmalloc_gives ne = elim (kmalloc-Allocated n w t free v b) [
    | inl (w', run, step, _) ↦ absurd (ne (ap (λ r. (after_kmalloc w r).0) run))
    | inr (p, size, w', run, g, room, link) ↦ rw (run) (g.new, g.others, g.accounted, link)
  ]

  kmalloc_gives_none :
      (kheap.kmalloc n w).0 ≡ 0 → (p : ℕ) → live (kheap.kmalloc n w).1.heap p ≡ live w.heap p
  kmalloc_gives_none none_left p = elim (kmalloc-Allocated n w t free v b) [
    | inl (w', run, step, quiet) ↦ rw (run) (quiet p)
    | inr (a, size, w', run, g, room, link) ↦
        absurd (g.not_null (sym (ap (λ r. (after_kmalloc w r).0) run) ∙ none_left))
  ]

-- The heap of kmalloc.c has all the properties that the page table and the address spaces rely on.
-- Its books are in order while each root with pagerefs in use has a page.
pub kheap_laws : KmallocLaws kheap
kheap_laws = record {
  IsHeap = IsHeap;
  owned = owned;
  live = live;
  steady = Accounted;
  kmalloc_step = kmalloc-HeapStep;
  kmalloc_steady = λ n w t free v b ne. (kmalloc_gives n w t free v b ne).2;
  kfree_step = λ p w t free l v b. elim (kfree-FreedOrNot w t free v b p l) [
    | inl stop ↦ inl stop
    | inr (w', run, step, back, acc) ↦ inr (
      w',
      run,
      step,
      (λ q ne. back q ∙ ap (λ x. if x then false else live w.heap q) (ne→eqb q p ne)),
      acc,
    )
  ];
  kmalloc_live = λ n w t free v b ne.
      ((kmalloc_gives n w t free v b ne).0, (kmalloc_gives n w t free v b ne).1);
  kmalloc_none = kmalloc_gives_none;
  first_word_aligned = λ n w t free small v b ne. (kmalloc_gives n w t free v b ne).3 small;
}
