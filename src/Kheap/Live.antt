-- ===== src/Kheap/Live.antt =====
-- The blocks of kern/vm/kmalloc.c that are in use, across the changes of the heap's variables.
use os161_virtual_memory_imp.Common.{
  ℕ, ◌%◌, ◌<◌, ◌≡◌, refl, sym, ap, subst, ◌∙◌, ◌⊎◌, inl, inr, true, false, ◌==◌, ◌&&◌, not, leb,
  arith, has, Bool-cases, if◌then◌else◌, eqb→eq, eqb→ne, ne→eqb,
}
use os161_virtual_memory_imp.Machine.{mips_kseg0, page_offset}
use os161_virtual_memory_imp.Kheap.{
  KHeap, Owner, free_page, own_page, whole_page, blocks_of, kpage, frame_at, mark, pr_blocktype,
  sizes, live, live_in,
}
use os161_virtual_memory_imp.Kheap.Subpage.{blocks_per_page}
use os161_virtual_memory_imp.Kheap.FreeList.{full-IsFreeList}
use os161_virtual_memory_imp.Kheap.Sound.{IsPageRef, blocktype_lem}

-- No change in what is in use.
abbrev pub Quiet : KHeap → KHeap → Type 0
Quiet h h' = (q : ℕ) → live h' q ≡ live h q

-- A page without a block in use.
abbrev pub IsPlain : Owner → Type 0
IsPlain o = (o ≡ free_page) ⊎ (o ≡ own_page)

pub plain_live : (h : KHeap) (p : ℕ) (o : Owner) → IsPlain o → live_in h p o ≡ false
plain_live h p o (inl e) = rw e refl
plain_live h p o (inr e) = rw e refl

pub unused_live : (h : KHeap) (q : ℕ) → IsPlain (h.owner (frame_at q)) → live h q ≡ false
unfolding live
unused_live h q a = rw (plain_live h q (h.owner (frame_at q)) a) (ground arith)

pub mark-Quiet :
    (i : ℕ) (o : Owner) (h : KHeap) → IsPlain (h.owner i) → IsPlain o → Quiet h (mark i o h)
unfolding live
mark-Quiet i o h a b q = elim (Bool-cases (i == frame_at q)) [
  | inl e ↦
      let old : live_in h q (h.owner (frame_at q)) ≡ false =
        subst (λ x. live_in h q (h.owner x) ≡ false) (eqb→eq i (frame_at q) e)
          (plain_live h q (h.owner i) a) in
      rw (e, old) (ap (λ b. leb mips_kseg0 q && b) (plain_live h q o b))
  | inr e ↦ rw (e) refl
]

-- A page whose owner changes.
pub mark_live :
    (i : ℕ) (o : Owner) (h : KHeap) (q : ℕ)
    → 0 < i
    → live (mark i o h) q
      ≡ (if frame_at q == i then leb mips_kseg0 q && live_in h q o else live h q)
unfolding live
mark_live i o h q above = elim (Bool-cases (i == frame_at q)) [
  | inl e ↦ let e' : (frame_at q == i) ≡ true = ground arith in rw (e, e') refl
  | inr e ↦ let e' : (frame_at q == i) ≡ false = ground arith in rw (e, e') refl
]

-- A page of the heap's own, or one that is free, is given to a client whole.
pub whole_live :
    (i : ℕ) (h : KHeap) (q : ℕ)
    → 0 < i
    → IsPlain (h.owner i)
    → live (mark i whole_page h) q ≡ (if q == kpage i then true else live h q)
whole_live i h q above a = elim (Bool-cases (frame_at q == i)) [
  | inl e ↦
      let old =
        unused_live h q (subst (λ x. IsPlain (h.owner x)) (sym (eqb→eq (frame_at q) i e)) a) in
      mark_live i whole_page h q above ∙ rw (e, old) (ground arith)
  | inr e ↦
      let other : (q == kpage i) ≡ false =
        ne→eqb q (kpage i) (λ f. eqb→ne (frame_at q) i e (omega (arith, f))) in
      mark_live i whole_page h q above ∙ rw (e, other) refl
]

module _ (h : KHeap) (s i k : ℕ) (d : IsPageRef h s i k) where
  pub page_live :
      (q : ℕ)
      → frame_at q ≡ i
      → live h q
        ≡ leb mips_kseg0 q
          && ((page_offset q % sizes k == 0) && not (has (page_offset q) (h.pagerefs s).free))
  unfolding live
  page_live q e = rw (e, d.mine, blocktype_lem h s i k d) refl

  -- A page whose blocks are all free has none in use.
  pub full_live :
      (h.pagerefs s).nfree ≡ blocks_per_page k → (q : ℕ) → frame_at q ≡ i → live h q ≡ false
  full_live full q e = elim (Bool-cases (page_offset q % sizes k == 0)) [
    | inl a ↦
        let on_list =
          full-IsFreeList k (page_offset q) (h.pagerefs s).free d.free_list (sym d.counted ∙ full)
            (eqb→eq (page_offset q % sizes k) 0 a) (omega arith) in
        page_live q e ∙ rw (on_list, a) (ground arith)
    | inr a ↦ page_live q e ∙ rw (a) (ground arith)
  ]

-- Elsewhere the blocks in use are those of the same owner and pageref.
pub live_elsewhere :
    (h h' : KHeap) (q : ℕ)
    → h'.owner (frame_at q) ≡ h.owner (frame_at q)
    → ((s : ℕ) → h.owner (frame_at q) ≡ blocks_of s → h'.pagerefs s ≡ h.pagerefs s)
    → live h' q ≡ live h q
unfolding live
live_elsewhere h h' q same refs =
    rw (same) (ap (λ b. leb mips_kseg0 q && b) (same_in (h.owner (frame_at q)) refs))
  where
    same_in :
        (o : Owner)
        → ((s : ℕ) → o ≡ blocks_of s → h'.pagerefs s ≡ h.pagerefs s)
        → live_in h' q o ≡ live_in h q o
    same_in free_page f = refl
    same_in own_page f = refl
    same_in whole_page f = refl
    same_in (blocks_of s) f =
        ap
          (λ pr.
            (page_offset q % sizes (pr_blocktype pr) == 0) && not (has (page_offset q) pr.free))
          (f s refl)

-- The bits and the pages of the roots have no part in it.
pub roots-Quiet : (h h' : KHeap) → h'.owner ≡ h.owner → h'.pagerefs ≡ h.pagerefs → Quiet h h'
roots-Quiet h h' o r q = live_elsewhere h h' q (ap (λ f. f (frame_at q)) o) (λ s _. ap (λ f. f s) r)

-- A page that a client had whole becomes the heap's own.
pub taken_back_live :
    (i : ℕ) (h : KHeap) (q : ℕ)
    → 0 < i
    → h.owner i ≡ whole_page
    → live (mark i own_page h) q ≡ (if q == kpage i then false else live h q)
unfolding live
taken_back_live i h q above whole = elim (Bool-cases (frame_at q == i)) [
  | inl e ↦
      let owner : h.owner (frame_at q) ≡ whole_page =
        ap h.owner (eqb→eq (frame_at q) i e) ∙ whole in
      mark_live i own_page h q above ∙ rw (e, owner) (ground arith)
  | inr e ↦
      let other : (q == kpage i) ≡ false =
        ne→eqb q (kpage i) (λ f. eqb→ne (frame_at q) i e (omega (arith, f))) in
      mark_live i own_page h q above ∙ rw (e, other) refl
]
