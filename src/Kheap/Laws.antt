-- ===== src/Kheap/Laws.antt =====
-- kern/vm/kmalloc.c: kmalloc and kfree as their callers see them, and the heap as an implementation
-- of what the rest of the kernel relies on.
use os161_virtual_memory_imp.Common.{
  ℕ, ◌+◌, ◌%◌, ◌≤◌, ◌<◌, ◌≡◌, refl, sym, ap, subst, ◌∙◌, ◌⊎◌, inl, inr, true, false, Option, some,
  List, ◌==◌, leb, arith, has, Bool-cases, eqb→eq, ne→eqb, eq→eqb,
}
use os161_virtual_memory_imp.Machine.{page_offset, word, page_size}
use os161_virtual_memory_imp.Frames.{FrameTable}
use os161_virtual_memory_imp.Kmalloc.{World, IsBooted}
use os161_virtual_memory_imp.Kheap.{
  KHeap, free_page, own_page, whole_page, owned, is_owned, kpage, sizes, frame_at, live, mark,
  pr_blocktype,
}
use os161_virtual_memory_imp.Kheap.Subpage.{put_block, subpage_kfree, kfree_page, kfree, kmalloc}
use os161_virtual_memory_imp.Kheap.Sound.{
  IsHeap, IsPageRef, update_same, blocktype_lem, pageaddr_lem, mark-IsHeap, kpage_inj,
  blocks_of_inj, some_inj,
}
use os161_virtual_memory_imp.Kheap.Pages.{Step-trans, same_owner-Step, give_own, own_page-NotBlocks}
use os161_virtual_memory_imp.Kheap.Live.{mark-Quiet, taken_back_live}
use os161_virtual_memory_imp.Kheap.Claim.{Accounted}
use os161_virtual_memory_imp.Kheap.Pop.{Failed, IsGiven}
use os161_virtual_memory_imp.Kheap.Alloc.{subpage_kmalloc_lem, blocktype_small}
use os161_virtual_memory_imp.Kheap.WholePages.{kmalloc_pages_lem}
use os161_virtual_memory_imp.Kheap.Free.{
  Freed, FreedOrNot, find_pageref_lem, put_block_lem, live_cases,
}

-- What kmalloc(sz) gives: a block that is large enough, whose first word is a multiple of 16 when
-- it comes from the smallest blocks.
abbrev pub Allocated : World KHeap → FrameTable → (sz : ℕ) → Option (ℕ × World KHeap) → Type 0
Allocated w t sz run =
    (p : ℕ) × (size : ℕ) × (w' : World KHeap) × (run ≡ some (p, w'))
    × IsGiven w w' t p size
    × (sz < word → sz ≤ size)
    × (sz ≤ 16 → w'.heap.link p % 16 ≡ 0)

-- On a sound heap over a sound frame table kmalloc never panics. It fails and no block changes, or
-- it gives a block that was not in use, of at least the size asked for, and then just this block
-- more is in use; if each root with pagerefs in use had a page, it still has. In both cases the
-- heap is sound again and owns only frames that are in use; frames in use that were not its own are
-- left alone. The first word of a block for 16 bytes or less is a multiple of 16.
pub kmalloc-Allocated :
    (sz : ℕ) (w : World KHeap) (t : FrameTable) (free : List ℕ)
    → IsHeap w.heap
    → IsBooted (owned w.heap) w.frames t free
    → Failed w t (kmalloc sz w) ⊎ Allocated w t sz (kmalloc sz w)
unfolding kmalloc sizes
kmalloc-Allocated sz w t free v b = elim (Bool-cases (leb 2048 sz)) [
  | inl e ↦ rw (e) (elim (kmalloc_pages_lem sz w t free v b) [
    | inl f ↦ inl f
    | inr ((p, w', run, g, link), one) ↦
        inr (p, page_size, w', run, g, (λ l. omega (arith, one)), (λ l. absurd (ground arith)))
  ])
  | inr e ↦
      let (k, type, room, result) = subpage_kmalloc_lem sz w t free v b (ground arith) in
      rw (e) (elim result [
        | inl f ↦ inl f
        | inr (p, w', run, g, link) ↦ inr (
          p,
          sizes k,
          w',
          run,
          g,
          (λ l. room),
          (λ l. link (ap sizes (some_inj k 0 (sym type ∙ blocktype_small sz l)))),
        )
      ])
]

module _ (w : World KHeap) (t : FrameTable) (free : List ℕ) (v : IsHeap w.heap)
    (b : IsBooted (owned w.heap) w.frames t free) where
  -- A page that was given out whole.
  kfree_page_lem :
      (i : ℕ) → w.heap.owner i ≡ whole_page → Freed w t (kpage i) (kfree_page (kpage i) w)
  unfolding kfree_page
  kfree_page_lem i whole =
      let (above, small) = v.in_kseg i (rw (whole) refl) in
      let at_i : frame_at (kpage i) ≡ i = omega arith in
      let aligned : (kpage i % 4096 == 0) ≡ true = eq→eqb (kpage i % 4096) 0 (omega arith) in
      let h1 = mark i own_page w.heap in
      let w1 : World KHeap = record w { heap = h1 } in
      let mine : h1.owner i ≡ own_page = update_same w.heap.owner i own_page in
      let (t1, free1, v1, b1, s1) =
        same_owner-Step w h1 t free
          (mark-IsHeap i own_page w.heap v (λ s e. absurd (cc (whole, e)))
            (own_page-NotBlocks own_page refl) above small)
          (λ j. elim (Bool-cases (i == j)) [
            | inl e ↦ rw (e) (sym (ap is_owned (ap w.heap.owner (sym (eqb→eq i j e)) ∙ whole)))
            | inr e ↦ rw (e) refl
          ])
          b in
      let (w', run, step, same) = give_own w1 t1 v1 i free1 b1 mine in
      (
        w',
        rw (aligned, at_i) run,
        Step-trans w w1 w' t (t1, free1, v1, b1, s1) step,
        λ q.
            ap (λ h. live h q) same
            ∙ mark-Quiet i free_page h1 (inr mine) (inl refl) q
            ∙ taken_back_live i w.heap q above whole,
        λ acc. subst Accounted (sym same) acc,
      )

  -- kfree of a block in use.
  pub kfree-FreedOrNot : (p : ℕ) → live w.heap p ≡ true → FreedOrNot w t p (kfree p w)
  unfolding kfree subpage_kfree
  kfree-FreedOrNot p l =
      let (low, cases) = live_cases w.heap p l in
      let i : ℕ = frame_at p in
      let some_block : (p == 0) ≡ false = ne→eqb p 0 (omega arith) in
      let search = find_pageref_lem p w.heap.allbase w.heap low v.described in
      elim cases [
        | inl (whole, offset) ↦
            let at_p : kpage i ≡ p = omega (arith, offset) in
            elim search [
              | inl (run, _) ↦
                  rw (some_block, run)
                    (inr (subst (λ x. Freed w t x (kfree_page x w)) at_p (kfree_page_lem i whole)))
              | inr (s, _, m, page) ↦
                  let (j, k, d) = v.described s m in
                  let same : j ≡ i = kpage_inj j i (sym (pageaddr_lem w.heap s j k d) ∙ page) in
                  absurd (cc (whole, d.mine, ap w.heap.owner same))
            ]
        | inr (s, mine, aligned, new) ↦
            let at_p : kpage i + page_offset p ≡ p = omega arith in
            let (m, page) = v.listed i s mine in
            elim search [
              | inl (_, out) ↦ absurd (out s m page)
              | inr (s', run, m', page') ↦
                  let (j, k, d) = v.described s' m' in
                  let same : j ≡ i = kpage_inj j i (sym (pageaddr_lem w.heap s' j k d) ∙ page') in
                  let same_ref : s ≡ s' =
                    blocks_of_inj s s' (sym mine ∙ ap w.heap.owner (sym same) ∙ d.mine) in
                  let d' : IsPageRef w.heap s' i k = subst (λ x. IsPageRef w.heap s' x k) same d in
                  let aligned' =
                    subst (λ x. page_offset p % sizes (pr_blocktype (w.heap.pagerefs x)) ≡ 0)
                      same_ref aligned in
                  let aligned2 =
                    subst (λ x. page_offset p % sizes x ≡ 0) (blocktype_lem w.heap s' i k d')
                      aligned' in
                  let new' =
                    subst (λ x. has (page_offset p) (w.heap.pagerefs x).free ≡ false) same_ref
                      new in
                  let freed =
                    put_block_lem s' k i w v m' d' (page_offset p) t free b aligned2 (omega arith)
                      new' in
                  elim (subst (λ x. FreedOrNot w t x (put_block s' x w)) at_p freed) [
                    | inl (stop, bad) ↦ inl (rw (some_block, run, stop) refl, bad)
                    | inr (w', run2, step, back, acc) ↦
                        inr (w', rw (some_block, run, run2) refl, step, back, acc)
                  ]
            ]
      ]

  -- On a sound heap over a sound frame table, with a page for each root that has pagerefs in use,
  -- kfree of a block in use never panics: the heap is sound again, the block is not in use any more
  -- and no other block changes; frames in use that are not the heap's are left alone, and each root
  -- that has pagerefs in use still has a page.
  pub kfree-Freed : (p : ℕ) → live w.heap p ≡ true → Accounted w.heap → Freed w t p (kfree p w)
  kfree-Freed p l acc = elim (kfree-FreedOrNot p l) [
    | inl (_, bad) ↦ absurd (bad acc)
    | inr freed ↦ freed
  ]
