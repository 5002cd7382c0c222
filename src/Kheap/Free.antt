-- ===== src/Kheap/Free.antt =====
-- kern/vm/kmalloc.c: kfree of a block in use.
use os161_virtual_memory_imp.Common.{
  ℕ, suc, ◌+◌, ◌-◌, ◌%◌, ◌≤◌, ◌<◌, ◌≡◌, ◌≢◌, refl, sym, ap, ◌∙◌, ◌⊎◌, inl, inr, true, false, Option,
  some, none, List, [], ◌∷◌, ◌==◌, ◌&&◌, leb, ltb, arith, has, Bool-cases, if◌then◌else◌, eqb→eq,
  eqb→ne, lt→ltb, le→leb,
}
use os161_virtual_memory_imp.Machine.{page_offset, mips_kseg0}
use os161_virtual_memory_imp.Frames.{FrameTable}
use os161_virtual_memory_imp.Kmalloc.{World, IsBooted}
use os161_virtual_memory_imp.Kheap.{
  KHeap, Owner, free_page, own_page, whole_page, blocks_of, owned, kpage, sizes, frame_at, live,
  pr_pageaddr, pr_blocktype,
}
use os161_virtual_memory_imp.Kheap.Subpage.{
  find_pageref, put_block, is_head, push_block, blocks_per_page, release_page,
}
use os161_virtual_memory_imp.Kheap.Offsets.{length}
use os161_virtual_memory_imp.Kheap.FreeList.{IsFreeList, cons-IsFreeList, length-IsFreeList}
use os161_virtual_memory_imp.Kheap.Sound.{
  IsHeap, IsPageRef, update_same, blocktype_lem, pageaddr_lem, kpage_inj,
}
use os161_virtual_memory_imp.Kheap.Pages.{Step, Step-trans, same_owner-Step}
use os161_virtual_memory_imp.Kheap.Blocks.{refilled, refilled-IsHeap, refilled-IsPageRef}
use os161_virtual_memory_imp.Kheap.Shifts.{push_live}
use os161_virtual_memory_imp.Kheap.Claim.{Accounted}
use os161_virtual_memory_imp.Kheap.Release.{release_page_lem}

-- The test of subpage_kfree finds the page of the address and no other.
on_page_lem :
    (p j : ℕ) → mips_kseg0 ≤ p → leb (kpage j) p && ltb p (kpage j + 4096) ≡ (j == frame_at p)
on_page_lem p j h = ground arith

pub find_pageref_lem :
    (p : ℕ) (ss : List ℕ) (h : KHeap)
    → mips_kseg0 ≤ p
    → ((s : ℕ) → has s ss ≡ true → (i : ℕ) × (k : ℕ) × IsPageRef h s i k)
    → ((find_pageref p ss h ≡ some none)
        × ((s : ℕ) → has s ss ≡ true → pr_pageaddr (h.pagerefs s) ≢ kpage (frame_at p)))
      ⊎ ((s : ℕ) × (find_pageref p ss h ≡ some (some s))
          × (has s ss ≡ true)
          × (pr_pageaddr (h.pagerefs s) ≡ kpage (frame_at p)))
unfolding find_pageref
find_pageref_lem p [] h l f = inl (refl, λ s m. absurd cc)
find_pageref_lem p (s ∷ ss) h l f =
    let (i, k, d) = f s (ground arith) in
    let page = pageaddr_lem h s i k d in
    let type = blocktype_lem h s i k d in
    let small = lt→ltb k 8 d.size in
    elim (Bool-cases (i == frame_at p)) [
      | inl e ↦ inr (
        s,
        rw (type, small, page, on_page_lem p i l, e) refl,
        ground arith,
        page ∙ ap kpage (eqb→eq i (frame_at p) e),
      )
      | inr e ↦
          rw (type, small, page, on_page_lem p i l, e)
            (elim (find_pageref_lem p ss h l (λ x m. f x (ground arith))) [
              | inl (run, out) ↦ inl (
                run,
                λ x m. elim (Bool-cases (s == x)) [
                  | inl g ↦ (λ q. eqb→ne i (frame_at p) e (
                      kpage_inj i (frame_at p)
                        (sym page ∙ ap (λ y. pr_pageaddr (h.pagerefs y)) (eqb→eq s x g) ∙ q)))
                  | inr g ↦ out x (rw (g) at m)
                ],
              )
              | inr (x, run, m, g) ↦ inr (x, run, ground (arith, m), g)
            ])
    ]

-- A block of a page comes back.
abbrev pub Freed : World KHeap → FrameTable → ℕ → Option (World KHeap) → Type 0
Freed w t p run =
    (w' : World KHeap) × (run ≡ some w')
    × Step w w' t
    × ((q : ℕ) → live w'.heap q ≡ (if q == p then false else live w.heap q))
    × (Accounted w.heap → Accounted w'.heap)

-- It panics only if the accounts of the roots are wrong.
abbrev pub FreedOrNot : World KHeap → FrameTable → ℕ → Option (World KHeap) → Type 0
FreedOrNot w t p run = ((run ≡ none) × ¬ Accounted w.heap) ⊎ Freed w t p run

module _ (s k i : ℕ) (w : World KHeap) (v : IsHeap w.heap) (listed : has s w.heap.allbase ≡ true)
    (d : IsPageRef w.heap s i k) where
  not_head : (o : ℕ) (xs : List ℕ) → has o xs ≡ false → is_head o xs ≡ false
  not_head o [] e = refl
  not_head o (x ∷ xs) e = ground arith

  pub put_block_lem :
      (o : ℕ) (t : FrameTable) (free : List ℕ)
      → IsBooted (owned w.heap) w.frames t free
      → o % sizes k ≡ 0
      → o < 4096
      → has o (w.heap.pagerefs s).free ≡ false
      → FreedOrNot w t (kpage i + o) (put_block s (kpage i + o) w)
  unfolding put_block
  put_block_lem o t free b aligned inside new =
      let xs = (w.heap.pagerefs s).free in
      let sound : IsFreeList k (o ∷ xs) = cons-IsFreeList k o xs d.free_list aligned inside new in
      let n : (w.heap.pagerefs s).nfree + 1 ≡ suc (length xs) = omega (arith, d.counted) in
      let h1 = refilled s (o ∷ xs) (suc (length xs)) w.heap in
      let w1 : World KHeap = record w { heap = h1 } in
      let v1 = refilled-IsHeap s k i w.heap v d (o ∷ xs) sound in
      let small = (v.in_kseg i (rw (d.mine) refl)).1 in
      let offset : kpage i + o - kpage i ≡ o = omega arith in
      let pushed : push_block s o w.heap ≡ h1 = rw (n) refl in
      let room : leb (suc (length xs)) (blocks_per_page k) ≡ true =
        le→leb (suc (length xs)) (blocks_per_page k) (length-IsFreeList k (o ∷ xs) sound) in
      let guards : put_block s (kpage i + o) w
          ≡ (if suc (length xs) == blocks_per_page k then release_page s w1 else some w1) =
        rw
          (
            blocktype_lem w.heap s i k d,
            pageaddr_lem w.heap s i k d,
            offset,
            lt→ltb o 4096 inside,
            aligned,
            not_head o xs new,
            pushed,
          )
          (rw (n, room) refl) in
      let (t1, free1, v2, b1, s1) = same_owner-Step w h1 t free v1 (λ j. refl) b in
      let back = push_live w.heap s i k d v small o sound in
      elim (Bool-cases (suc (length xs) == blocks_per_page k)) [
        | inl e ↦
            let d1 = refilled-IsPageRef s k i w.heap v d (o ∷ xs) sound in
            let full : (h1.pagerefs s).nfree ≡ blocks_per_page k =
              d1.counted
              ∙ ap (λ pr. length pr.free) (update_same w.heap.pagerefs s _)
              ∙ eqb→eq (suc (length xs)) (blocks_per_page k) e in
            elim (release_page_lem s k i w1 v1 listed d1 t1 free1 b1 full) [
              | inl (stop, bad) ↦ inl (guards ∙ rw (e) stop, bad)
              | inr (w', run, step, quiet, acc) ↦ inr (
                w',
                guards ∙ rw (e) run,
                Step-trans w w1 w' t (t1, free1, v2, b1, s1) step,
                (λ q. quiet q ∙ back q),
                acc,
              )
            ]
        | inr e ↦ inr (w1, guards ∙ rw (e) refl, (t1, free1, v2, b1, s1), back, λ acc. acc)
      ]

-- A block in use lies on a page that was given out whole, or is a block of a page and not on its
-- free list.
pub live_cases :
    (h : KHeap) (p : ℕ)
    → live h p ≡ true
    → (mips_kseg0 ≤ p)
      × (((h.owner (frame_at p) ≡ whole_page) × (page_offset p ≡ 0))
          ⊎ ((s : ℕ) × (h.owner (frame_at p) ≡ blocks_of s)
              × (page_offset p % sizes (pr_blocktype (h.pagerefs s)) ≡ 0)
              × (has (page_offset p) (h.pagerefs s).free ≡ false)))
unfolding live
live_cases h p l = (ground arith, by_owner (h.owner (frame_at p)) refl)
  where
    by_owner :
        (o : Owner)
        → h.owner (frame_at p) ≡ o
        → ((h.owner (frame_at p) ≡ whole_page) × (page_offset p ≡ 0))
          ⊎ ((s : ℕ) × (h.owner (frame_at p) ≡ blocks_of s)
              × (page_offset p % sizes (pr_blocktype (h.pagerefs s)) ≡ 0)
              × (has (page_offset p) (h.pagerefs s).free ≡ false))
    by_owner free_page e = absurd (ground (arith, e))
    by_owner own_page e = absurd (ground (arith, e))
    by_owner whole_page e = inl (e, ground (arith, e))
    by_owner (blocks_of s) e = inr (s, e, ground (arith, e), ground (arith, e))
