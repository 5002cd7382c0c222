-- ===== src/Kheap/Release.antt =====
-- kern/vm/kmalloc.c: subpage_kfree on a page whose blocks are all free, and freepageref.
use os161_virtual_memory_imp.Common.{
  ℕ, zero, suc, ◌+◌, ◌/◌, ◌≤◌, ◌<◌, ◌≡◌, ◌≢◌, refl, sym, ap, subst, ◌∙◌, ◌⊎◌, inl, inr, true, false,
  some, none, List, ◌==◌, arith, has, Bool-cases, update, eqb→eq, eqb→ne, ne→eqb, lt→ltb,
}
use os161_virtual_memory_imp.Frames.{FrameTable}
use os161_virtual_memory_imp.Kmalloc.{World, IsBooted}
use os161_virtual_memory_imp.Kheap.{
  KHeap, free_page, own_page, owned, is_owned, kpage, frame_at, live,
}
use os161_virtual_memory_imp.Kheap.Pageref.{freepageref_from, on_page, clear_inuse}
use os161_virtual_memory_imp.Kheap.Subpage.{
  remove_first, remove_lists, release_page, blocks_per_page,
}
use os161_virtual_memory_imp.Kheap.Sound.{
  IsHeap, IsPageRef, update_same, blocktype_lem, pageaddr_lem,
}
use os161_virtual_memory_imp.Kheap.Pages.{Step, Step-trans, same_owner-Step, give_own}
use os161_virtual_memory_imp.Kheap.GivenUp.{released, released-IsHeap, numinuse_positive}
use os161_virtual_memory_imp.Kheap.Live.{Quiet, mark-Quiet}
use os161_virtual_memory_imp.Kheap.Shifts.{released-Quiet}
use os161_virtual_memory_imp.Kheap.Claim.{Accounted}

-- freepageref finds the root of the pageref, past roots that have a page or no pageref in use; past
-- any other it panics.
freepageref_from_lem :
    (n r s : ℕ) (h : KHeap)
    → r + n ≡ 16
    → r ≤ s / 256
    → s < 4096
    → h.root_page (s / 256) ≢ 0
    → h.pagerefs_inuse s ≡ true
    → 0 < h.numinuse (s / 256)
    → ((freepageref_from n r s h ≡ none) × ¬ Accounted h)
      ⊎ (freepageref_from n r s h ≡ some (clear_inuse (s / 256) s h))
unfolding freepageref_from
freepageref_from_lem zero r s h e l known rooted inuse positive = absurd (omega (arith, e))
freepageref_from_lem (suc n) r s h e l known rooted inuse positive =
    elim (Bool-cases (r == s / 256)) [
      | inl f ↦
          let f' : r ≡ s / 256 = eqb→eq r (s / 256) f in
          let here : on_page (s / 256) s ≡ true = ground arith in
          inr (
            rw
              (
                f',
                ne→eqb (h.root_page (s / 256)) 0 rooted,
                here,
                inuse,
                ne→eqb (h.numinuse (s / 256)) 0 (omega (arith, positive)),
              )
              refl)
      | inr f ↦
          let ne : r ≢ s / 256 = eqb→ne r (s / 256) f in
          let there : on_page r s ≡ false = ground arith in
          let next =
            freepageref_from_lem n (suc r) s h (omega (arith, e)) (omega (arith, l, ne)) known
              rooted inuse positive in
          elim (Bool-cases (h.root_page r == 0)) [
            | inr y ↦ rw (y, there) next
            | inl y ↦ elim (Bool-cases (h.numinuse r == 0)) [
              | inl x ↦ rw (y, x) next
              | inr x ↦ inl (
                rw (y, x) refl,
                λ acc. elim (acc r (omega (arith, e))) [
                  | inl z ↦ z (eqb→eq (h.root_page r) 0 y)
                  | inr z ↦ eqb→ne (h.numinuse r) 0 x z
                ],
              )
            ]
          ]
    ]

module _ (s k i : ℕ) (w : World KHeap) (v : IsHeap w.heap) (listed : has s w.heap.allbase ≡ true)
    (d : IsPageRef w.heap s i k) where
  released-Accounted : Accounted w.heap → Accounted (released s k i w.heap)
  released-Accounted acc r l = elim (acc r l) [
    | inl x ↦ inl x
    | inr x ↦ elim (Bool-cases (s / 256 == r)) [
      | inl e ↦ inl (subst (λ y. w.heap.root_page y ≢ 0) (eqb→eq (s / 256) r e) d.rooted)
      | inr e ↦ inr (rw (e) x)
    ]
  ]

  -- The page goes back to the frame table, unless the accounts of the roots are wrong.
  pub release_page_lem :
      (t : FrameTable) (free : List ℕ)
      → IsBooted (owned w.heap) w.frames t free
      → (w.heap.pagerefs s).nfree ≡ blocks_per_page k
      → ((release_page s w ≡ none) × ¬ Accounted w.heap)
        ⊎ ((w' : World KHeap) × (release_page s w ≡ some w')
            × Step w w' t
            × Quiet w.heap w'.heap
            × (Accounted w.heap → Accounted w'.heap))
  unfolding release_page remove_lists
  release_page_lem t free b full =
      let h1 = released s k i w.heap in
      let w1 : World KHeap = record w { heap = h1 } in
      let small = (v.in_kseg i (rw (d.mine) refl)).1 in
      let at_i : frame_at (kpage i) ≡ i = omega arith in
      let (t1, free1, v1, b1, s1) =
        same_owner-Step w h1 t free (released-IsHeap s k i w.heap v listed d)
          (λ j. elim (Bool-cases (i == j)) [
            | inl e ↦ rw (e) (sym (ap is_owned (ap w.heap.owner (sym (eqb→eq i j e)) ∙ d.mine)))
            | inr e ↦ rw (e) refl
          ])
          b in
      let mine : h1.owner i ≡ own_page = update_same w.heap.owner i own_page in
      let unlisted : KHeap = record (w.heap) {
        sizebases = update w.heap.sizebases k (remove_first s (w.heap.sizebases k));
        allbase = remove_first s w.heap.allbase;
      } in
      let type = blocktype_lem w.heap s i k d in
      let (w', run, step, same) = give_own w1 t1 v1 i free1 b1 mine in
      elim (freepageref_from_lem 16 0 s unlisted refl (omega arith) d.known d.rooted d.inuse
        (numinuse_positive s k i w.heap v listed d)) [
          | inl (stop, bad) ↦ inl (rw (type, lt→ltb k 8 d.size, stop) refl, bad)
          | inr freed ↦ inr (
            w',
            rw (type, lt→ltb k 8 d.size, freed, pageaddr_lem w.heap s i k d, at_i) run,
            Step-trans w w1 w' t (t1, free1, v1, b1, s1) step,
            (λ q.
                ap (λ h. live h q) same
                ∙ mark-Quiet i free_page h1 (inr mine) (inl refl) q
                ∙ released-Quiet s k i w.heap d full q),
            (λ acc. subst Accounted (sym same) (released-Accounted acc)),
          )
        ]
