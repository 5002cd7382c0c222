-- ===== src/Kheap/Shifts.antt =====
-- The blocks of kern/vm/kmalloc.c that are in use, when a page of blocks comes or goes and when a
-- block leaves or enters a free list.
use os161_virtual_memory_imp.Common.{
  ℕ, suc, ◌+◌, ◌%◌, ◌<◌, ◌≡◌, ◌≢◌, refl, sym, ap, subst, ◌∙◌, inl, inr, true, false, List, ◌∷◌,
  ◌==◌, ◌&&◌, not, leb, arith, has, Bool-cases, if◌then◌else◌, eqb→eq, eqb→ne, ne→eqb,
}
use os161_virtual_memory_imp.Machine.{mips_kseg0, page_offset}
use os161_virtual_memory_imp.Kheap.{KHeap, own_page, kpage, frame_at, pr_pageaddr, sizes, live}
use os161_virtual_memory_imp.Kheap.Subpage.{blocks_per_page}
use os161_virtual_memory_imp.Kheap.Offsets.{length}
use os161_virtual_memory_imp.Kheap.FreeList.{IsFreeList}
use os161_virtual_memory_imp.Kheap.Sound.{
  IsHeap, IsPageRef, update_same, update_other, pageaddr_lem, kpage_inj,
}
use os161_virtual_memory_imp.Kheap.Placed.{placed, Unlisted}
use os161_virtual_memory_imp.Kheap.GivenUp.{released}
use os161_virtual_memory_imp.Kheap.Blocks.{refilled, refilled-IsPageRef}
use os161_virtual_memory_imp.Kheap.Live.{Quiet, unused_live, page_live, full_live, live_elsewhere}

-- A fresh page of blocks has none in use.
pub placed-Quiet :
    (s k i : ℕ) (h : KHeap)
    → IsHeap h
    → Unlisted s h
    → h.owner i ≡ own_page
    → IsPageRef (placed s k i h) s i k
    → Quiet h (placed s k i h)
placed-Quiet s k i h v new mine d q = elim (Bool-cases (i == frame_at q)) [
  | inl e ↦
      let e' : i ≡ frame_at q = eqb→eq i (frame_at q) e in
      let full : ((placed s k i h).pagerefs s).nfree ≡ blocks_per_page k = ground arith in
      full_live (placed s k i h) s i k d full q (sym e')
      ∙ sym (unused_live h q (inr (ap h.owner (sym e') ∙ mine)))
  | inr e ↦ live_elsewhere h (placed s k i h) q (rw (e) refl) (λ s' o.
      update_other h.pagerefs s s' _
        (λ f. absurd (cc (new, (v.listed (frame_at q) s' o).0, ap (λ x. has x h.allbase) f))))
]

-- Giving up a page whose blocks are all free.
pub released-Quiet :
    (s k i : ℕ) (h : KHeap)
    → IsPageRef h s i k
    → (h.pagerefs s).nfree ≡ blocks_per_page k
    → Quiet h (released s k i h)
released-Quiet s k i h d full q = elim (Bool-cases (i == frame_at q)) [
  | inl e ↦
      unused_live (released s k i h) q (inr (rw (e) refl))
      ∙ sym (full_live h s i k d full q (sym (eqb→eq i (frame_at q) e)))
  | inr e ↦ live_elsewhere h (released s k i h) q (rw (e) refl) (λ s' o. refl)
]

module _ (h : KHeap) (s i k : ℕ) (d : IsPageRef h s i k) (v : IsHeap h) (small : i < 131072) where
  refilled_elsewhere :
      (xs : List ℕ) (n q : ℕ) → i ≢ frame_at q → live (refilled s xs n h) q ≡ live h q
  refilled_elsewhere xs n q ne = live_elsewhere h (refilled s xs n h) q refl (λ s' o.
      update_other h.pagerefs s s' _ (λ f. ne (
        kpage_inj i (frame_at q) (
          sym (pageaddr_lem h s i k d)
          ∙ ap (λ x. pr_pageaddr (h.pagerefs x)) f
          ∙ (v.listed (frame_at q) s' o).1))))

  refilled_live :
      (xs : List ℕ) (q : ℕ)
      → IsFreeList k xs
      → frame_at q ≡ i
      → live (refilled s xs (length xs) h) q
        ≡ leb mips_kseg0 q && ((page_offset q % sizes k == 0) && not (has (page_offset q) xs))
  refilled_live xs q sound e =
      page_live (refilled s xs (length xs) h) s i k (refilled-IsPageRef s k i h v d xs sound) q e
      ∙ ap
          (λ pr.
            leb mips_kseg0 q
            && ((page_offset q % sizes k == 0) && not (has (page_offset q) pr.free)))
          (update_same h.pagerefs s (record (h.pagerefs s) { free = xs; nfree = length xs }))

  -- Of the two free lists one has the block `o` more.
  other_block :
      (o q : ℕ) (rest : List ℕ)
      → frame_at q ≡ i
      → q ≢ kpage i + o
      → leb mips_kseg0 q && ((page_offset q % sizes k == 0) && not (has (page_offset q) (o ∷ rest)))
        ≡ leb mips_kseg0 q && ((page_offset q % sizes k == 0) && not (has (page_offset q) rest))
  other_block o q rest f ne = elim (Bool-cases (leb mips_kseg0 q)) [
    | inl e ↦ rw (ne→eqb o (page_offset q) (ground arith)) refl
    | inr e ↦ rw (e) refl
  ]

  -- The block at the head of the free list comes into use.
  pub pop_live :
      (o : ℕ) (rest : List ℕ)
      → (h.pagerefs s).free ≡ o ∷ rest
      → IsFreeList k rest
      → (live h (kpage i + o) ≡ false)
        × ((q : ℕ)
            → live (refilled s rest (length rest) h) q
              ≡ (if q == kpage i + o then true else live h q))
  pop_live o rest list sound =
      let p : ℕ = kpage i + o in
      let whole : IsFreeList k (o ∷ rest) = subst (λ xs. IsFreeList k xs) list d.free_list in
      let (aligned, inside) = whole.offset o (ground arith) in
      let at_o : page_offset p ≡ o = omega arith in
      let frame_p : frame_at p ≡ i = omega arith in
      let old : (q : ℕ)
          → frame_at q ≡ i
          → live h q
            ≡ leb mips_kseg0 q
              && ((page_offset q % sizes k == 0) && not (has (page_offset q) (o ∷ rest))) =
        λ q f.
          page_live h s i k d q f
          ∙ ap
              (λ xs.
                leb mips_kseg0 q
                && ((page_offset q % sizes k == 0) && not (has (page_offset q) xs)))
              list in
      (
        old p frame_p ∙ rw (at_o, aligned) (ground arith),
        λ q. elim (Bool-cases (q == p)) [
          | inl e ↦ rw (e) (
              ap (live (refilled s rest (length rest) h)) (eqb→eq q p e)
              ∙ refilled_live rest p sound frame_p
              ∙ rw (at_o, aligned, whole.distinct.0) (ground arith))
          | inr e ↦ rw (e) (elim (Bool-cases (i == frame_at q)) [
            | inl f ↦
                let f' = sym (eqb→eq i (frame_at q) f) in
                refilled_live rest q sound f'
                ∙ sym (other_block o q rest f' (eqb→ne q p e))
                ∙ sym (old q f')
            | inr f ↦ refilled_elsewhere rest (length rest) q (eqb→ne i (frame_at q) f)
          ])
        ],
      )

  -- A block in use comes back to the free list.
  pub push_live :
      (o : ℕ)
      → IsFreeList k (o ∷ (h.pagerefs s).free)
      → (q : ℕ)
      → live (refilled s (o ∷ (h.pagerefs s).free) (suc (length (h.pagerefs s).free)) h) q
        ≡ (if q == kpage i + o then false else live h q)
  push_live o sound q =
      let p : ℕ = kpage i + o in
      let inside = (sound.offset o (ground arith)).1 in
      let at_o : page_offset p ≡ o = omega arith in
      let frame_p : frame_at p ≡ i = omega arith in
      let xs = (h.pagerefs s).free in
      elim (Bool-cases (q == p)) [
        | inl e ↦ rw (e) (
            ap (live (refilled s (o ∷ xs) (suc (length xs)) h)) (eqb→eq q p e)
            ∙ refilled_live (o ∷ xs) p sound frame_p
            ∙ rw (at_o) (ground arith))
        | inr e ↦ rw (e) (elim (Bool-cases (i == frame_at q)) [
          | inl f ↦
              let f' = sym (eqb→eq i (frame_at q) f) in
              refilled_live (o ∷ xs) q sound f'
              ∙ other_block o q xs f' (eqb→ne q p e)
              ∙ sym (page_live h s i k d q f')
          | inr f ↦ refilled_elsewhere (o ∷ xs) (suc (length xs)) q (eqb→ne i (frame_at q) f)
        ])
      ]
