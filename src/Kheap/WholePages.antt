-- ===== src/Kheap/WholePages.antt =====
-- kern/vm/kmalloc.c: requests of a page or more.
use os161_virtual_memory_imp.Common.{
  ℕ, ◌+◌, ◌-◌, ◌/◌, ◌%◌, ◌<◌, ◌≡◌, refl, sym, ap, subst, ◌∙◌, ◌⊎◌, inl, inr, true, false, List,
  ◌==◌, arith, Bool-cases, if◌then◌else◌, eqb→eq, eqb→ne, ne→eqb, eq→eqb,
}
use os161_virtual_memory_imp.Machine.{word, page_size}
use os161_virtual_memory_imp.Frames.{FrameTable}
use os161_virtual_memory_imp.Frames.Alloc.{alloc_kpages_multiple}
use os161_virtual_memory_imp.Kmalloc.{World, IsBooted}
use os161_virtual_memory_imp.Kheap.{
  KHeap, free_page, own_page, whole_page, owned, is_owned, kpage, frame_at, live, size_of, mark,
}
use os161_virtual_memory_imp.Kheap.Subpage.{kmalloc_pages}
use os161_virtual_memory_imp.Kheap.Sound.{IsHeap, update_same, mark-IsHeap}
use os161_virtual_memory_imp.Kheap.Pages.{
  Step, Step-trans, same_owner-Step, take_page, take_none, own_page-NotBlocks,
}
use os161_virtual_memory_imp.Kheap.Live.{whole_live, unused_live}
use os161_virtual_memory_imp.Kheap.Claim.{Accounted}
use os161_virtual_memory_imp.Kheap.Silent.{own_page-Silent}
use os161_virtual_memory_imp.Kheap.Pop.{Failed, Given, IsGiven}

-- A page given out whole.
whole_page_lem :
    (i : ℕ) (w w1 : World KHeap) (t : FrameTable)
    → Step w w1 t
    → w1.heap ≡ mark i own_page w.heap
    → 0 < i
    → i < 131072
    → w.heap.owner i ≡ free_page
    → IsGiven w (record w1 { heap = mark i whole_page w1.heap }) t (kpage i) page_size
unfolding size_of
whole_page_lem i w w1 t (t1, free1, v1, b1, s1) same above small unused =
    let step : Step w w1 t = (t1, free1, v1, b1, s1) in
    let taken = own_page-Silent w w1 t i step same unused in
    let mine : w1.heap.owner i ≡ own_page =
      ap (λ h. h.owner i) same ∙ update_same w.heap.owner i own_page in
    let at_i : frame_at (kpage i) ≡ i = omega arith in
    let h2 = mark i whole_page w1.heap in
    record {
      not_null = omega arith;
      step =
          Step-trans w w1 (record w1 { heap = h2 }) t step
            (same_owner-Step w1 h2 t1 free1
              (mark-IsHeap i whole_page w1.heap v1 (own_page-NotBlocks (w1.heap.owner i) mine)
                (λ s e. absurd cc) above small)
              (λ j. elim (Bool-cases (i == j)) [
                | inl e ↦ rw (e) (sym (ap is_owned (ap w1.heap.owner (sym (eqb→eq i j e)) ∙ mine)))
                | inr e ↦ rw (e) refl
              ])
              b1);
      new = unused_live w.heap (kpage i) (inl (rw (at_i) unused));
      others = λ q.
          whole_live i w1.heap q above (inr mine)
          ∙ ap (λ x. if q == kpage i then true else x) (taken.quiet q);
      room = rw (at_i, update_same w1.heap.owner i whole_page) refl;
      accounted = λ a. subst Accounted (sym same) a;
    }

-- A request for a page; for more of them alloc_kpages has no answer.
pub kmalloc_pages_lem :
    (sz : ℕ) (w : World KHeap) (t : FrameTable) (free : List ℕ)
    → IsHeap w.heap
    → IsBooted (owned w.heap) w.frames t free
    → Failed w t (kmalloc_pages sz w)
      ⊎ (Given w t page_size (kmalloc_pages sz w) × ((sz + 4096 - 1) % word / 4096 ≡ 1))
unfolding kmalloc_pages
kmalloc_pages_lem sz w t free v b = elim (Bool-cases ((sz + 4096 - 1) % word / 4096 == 1)) [
  | inr e ↦
      let (w', run, step, same) = take_none w t v ((sz + 4096 - 1) % word / 4096) free b (
        alloc_kpages_multiple ((sz + 4096 - 1) % word / 4096) w.frames t free b.booted b.sound
          (eqb→ne ((sz + 4096 - 1) % word / 4096) 1 e)) in
      inl (w', rw (run) refl, step, λ q. ap (λ h. live h q) same)
  | inl e ↦
      let one : (sz + 4096 - 1) % word / 4096 ≡ 1 = eqb→eq ((sz + 4096 - 1) % word / 4096) 1 e in
      elim (take_page w t v free b) [
        | inl (w', run, step, same) ↦
            inl (w', rw (one, run) refl, step, λ q. ap (λ h. live h q) same)
        | inr (i, w1, run, step, same, above, small, unused) ↦
            let aligned : (kpage i % 4096 == 0) ≡ true = eq→eqb (kpage i % 4096) 0 (omega arith) in
            let page : (kpage i == 0) ≡ false = ne→eqb (kpage i) 0 (omega arith) in
            let at_i : frame_at (kpage i) ≡ i = omega arith in
            inr (
              (
                kpage i,
                record w1 { heap = mark i whole_page w1.heap },
                rw (one, run) (rw (page, aligned, at_i) refl),
                whole_page_lem i w w1 t step same above small unused,
                λ no. absurd (omega (arith, no)),
              ),
              one,
            )
      ]
]
