-- ===== src/Kheap/Alloc.antt =====
-- kern/vm/kmalloc.c: kmalloc on a sound heap.
use os161_virtual_memory_imp.Common.{
  ℕ, zero, suc, ◌+◌, ◌%◌, ◌≤◌, ◌<◌, ◌≡◌, refl, sym, ap, subst, ◌∙◌, ◌⊎◌, inl, inr, true, false,
  some, List, ◌==◌, leb, arith, Bool-cases, eqb→eq, ne→eqb, eq→eqb,
}
use os161_virtual_memory_imp.Frames.{FrameTable}
use os161_virtual_memory_imp.Kmalloc.{World, IsBooted}
use os161_virtual_memory_imp.Kheap.{KHeap, free_page, own_page, owned, is_owned, kpage, sizes, live}
use os161_virtual_memory_imp.Kheap.Subpage.{
  set_up, alloc_in, fresh_page, blocktype, blocktype_from, subpage_kmalloc, blocks_per_page,
}
use os161_virtual_memory_imp.Kheap.Offsets.{blocks_positive}
use os161_virtual_memory_imp.Kheap.Sound.{IsHeap, update_same, blocktype_lem}
use os161_virtual_memory_imp.Kheap.Pages.{Step-trans, same_owner-Step, take_page, give_own}
use os161_virtual_memory_imp.Kheap.Placed.{placed, set_up-placed, placed-IsHeap, fresh-IsPageRef}
use os161_virtual_memory_imp.Kheap.Live.{mark-Quiet}
use os161_virtual_memory_imp.Kheap.Shifts.{placed-Quiet}
use os161_virtual_memory_imp.Kheap.Claim.{Accounted, allocpageref_from_lem, IsReady}
use os161_virtual_memory_imp.Kheap.Silent.{own_page-Silent}
use os161_virtual_memory_imp.Kheap.Pop.{Failed, Given, Given-after, alloc_in_lem, find_free_lem}

last_size : (i sz : ℕ) → i ≡ 7 → sz ≤ 2048 → leb sz (sizes i) ≡ true
unfolding sizes
last_size i sz e h = rw (e) (ground arith)

-- The type of a request below a page: its blocks are large enough.
blocktype_from_lem :
    (n i sz : ℕ)
    → i + n ≡ 7
    → sz ≤ 2048
    → (k : ℕ) × (blocktype_from (suc n) i sz ≡ some k) × (k < 8) × (sz ≤ sizes k)
unfolding blocktype_from
blocktype_from_lem zero i sz e h =
    let large : leb sz (sizes i) ≡ true = last_size i sz (omega (arith, e)) h in
    (i, rw (large) refl, omega (arith, e), ground arith)
blocktype_from_lem (suc n) i sz e h = elim (Bool-cases (leb sz (sizes i))) [
  | inl f ↦ (i, rw (f) refl, omega (arith, e), ground arith)
  | inr f ↦
      let (k, run, small, room) = blocktype_from_lem n (suc i) sz (omega (arith, e)) h in
      (k, rw (f) run, small, room)
]

pub blocktype_small : (sz : ℕ) → sz ≤ 16 → blocktype sz ≡ some 0
unfolding blocktype_from sizes
blocktype_small sz h = let small : leb sz 16 ≡ true = ground arith in rw (small) refl

module _ (w : World KHeap) (t : FrameTable) (free : List ℕ) (v : IsHeap w.heap)
    (b : IsBooted (owned w.heap) w.frames t free) where
  -- A page with its pageref set up gives out its first block.
  set_up_lem :
      (s i k : ℕ)
      → IsReady w.heap s
      → w.heap.owner i ≡ own_page
      → 0 < i
      → i < 131072
      → k < 8
      → Given w t (sizes k) (alloc_in s (record w { heap = set_up s k (kpage i) w.heap }))
  set_up_lem s i k ready mine above small size =
      let h = placed s k i w.heap in
      let d =
        fresh-IsPageRef s k i w.heap v ready.unlisted mine above small size ready.known ready.inuse
          ready.rooted in
      let v' =
        placed-IsHeap s k i w.heap v ready.unlisted mine above small size ready.known ready.inuse
          ready.rooted in
      let step =
        same_owner-Step w h t free v'
          (λ j. elim (Bool-cases (i == j)) [
            | inl e ↦ rw (e) (sym (ap is_owned (ap w.heap.owner (sym (eqb→eq i j e)) ∙ mine)))
            | inr e ↦ rw (e) refl
          ])
          b in
      let (t1, free1, v1, b1, s1) = step in
      let filled : (h.pagerefs s).nfree ≡ blocks_per_page k =
        ap (λ pr. pr.nfree) (update_same w.heap.pagerefs s _) in
      rw (set_up-placed s k i w.heap small size) (
        Given-after w (record w { heap = h }) t (sizes k) (alloc_in s (record w { heap = h }))
          (t1, free1, v1, b1, s1) (placed-Quiet s k i w.heap v ready.unlisted mine d) (λ a. a)
          (alloc_in_lem s i k (record w { heap = h }) v' d t1 free1 b1
            (omega (arith, filled, blocks_positive k))))

-- subpage_kmalloc without a free block: a new page is made, or everything is as before.
fresh_page_lem :
    (k : ℕ) (w : World KHeap) (t : FrameTable) (free : List ℕ)
    → IsHeap w.heap
    → IsBooted (owned w.heap) w.frames t free
    → k < 8
    → Failed w t (fresh_page k w) ⊎ Given w t (sizes k) (fresh_page k w)
unfolding fresh_page
fresh_page_lem k w t free v b size = elim (take_page w t v free b) [
  | inl (w1, run, step, same) ↦ inl (w1, rw (run) refl, step, λ q. ap (λ h. live h q) same)
  | inr (i, w1, run, step, same, above, small, unused) ↦
      let (t1, free1, v1, b1, s1) = step in
      let taken = own_page-Silent w w1 t i (t1, free1, v1, b1, s1) same unused in
      let mine : w1.heap.owner i ≡ own_page =
        ap (λ h. h.owner i) same ∙ update_same w.heap.owner i own_page in
      let page : (kpage i == 0) ≡ false = ne→eqb (kpage i) 0 (omega arith) in
      let aligned : (kpage i % 4096 == 0) ≡ true = eq→eqb (kpage i % 4096) 0 (omega arith) in
      elim (allocpageref_from_lem 16 0 w1 t1 free1 v1 b1 refl) [
        | inl (w2, run2, silent) ↦
            let (t2, free2, v2, b2, s2) = silent.step in
            let mine2 = silent.own i mine in
            let (w3, run3, step3, same3) = give_own w2 t2 v2 i free2 b2 mine2 in
            inl (
              w3,
              rw (run) (rw (page, aligned, run2, run3) refl),
              Step-trans w w1 w3 t (t1, free1, v1, b1, s1)
                  (Step-trans w1 w2 w3 t1 (t2, free2, v2, b2, s2) step3),
              λ q.
                  ap (λ h. live h q) same3
                  ∙ mark-Quiet i free_page w2.heap (inr mine2) (inl refl) q
                  ∙ silent.quiet q
                  ∙ taken.quiet q,
            )
        | inr (s, w2, run2, silent, ready, acc) ↦
            let (t2, free2, v2, b2, s2) = silent.step in
            let given =
              set_up_lem w2 t2 free2 v2 b2 s i k ready (silent.own i mine) above small size in
            inr (
              rw (run) (
                rw (page, aligned, run2)
                  (Given-after w w1 t (sizes k) _ (t1, free1, v1, b1, s1) taken.quiet
                    (λ a. subst Accounted (sym same) a)
                    (Given-after w1 w2 t1 (sizes k) _ (t2, free2, v2, b2, s2) silent.quiet acc
                      given))))
      ]
]

-- A request below a page.
pub subpage_kmalloc_lem :
    (sz : ℕ) (w : World KHeap) (t : FrameTable) (free : List ℕ)
    → IsHeap w.heap
    → IsBooted (owned w.heap) w.frames t free
    → sz ≤ 2048
    → (k : ℕ) × (blocktype sz ≡ some k)
      × (sz ≤ sizes k)
      × (Failed w t (subpage_kmalloc sz w) ⊎ Given w t (sizes k) (subpage_kmalloc sz w))
unfolding subpage_kmalloc
subpage_kmalloc_lem sz w t free v b h =
    let (k, run, size, room) = blocktype_from_lem 7 0 sz refl h in
    (
      k,
      run,
      room,
      elim (find_free_lem (w.heap.sizebases k) k w.heap (v.by_size k)) [
        | inl e ↦ rw (run, e) (fresh_page_lem k w t free v b size)
        | inr (s, e, listed, type, some_free) ↦
            let (i, k', d) = v.described s listed in
            let same : k' ≡ k = sym (blocktype_lem w.heap s i k' d) ∙ type in
            rw (run, e)
              (inr (
                subst (λ x. Given w t (sizes x) (alloc_in s w)) same
                  (alloc_in_lem s i k' w v d t free b some_free)))
      ],
    )
