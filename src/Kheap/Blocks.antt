-- ===== src/Kheap/Blocks.antt =====
-- kern/vm/kmalloc.c: a block leaves the free list of its page, in subpage_kmalloc, and comes back to
-- it, in subpage_kfree.
use os161_virtual_memory_imp.Common.{
  ℕ, ◌≡◌, refl, sym, ap, subst, ◌∙◌, inl, inr, List, ◌==◌, Bool-cases, update, eqb→eq,
}
use os161_virtual_memory_imp.Machine.{page_frame, page_offset}
use os161_virtual_memory_imp.Kheap.{KHeap}
use os161_virtual_memory_imp.Kheap.Offsets.{length}
use os161_virtual_memory_imp.Kheap.FreeList.{IsFreeList}
use os161_virtual_memory_imp.Kheap.Sound.{IsHeap, IsPageRef, update_same}
use os161_virtual_memory_imp.Kheap.Updates.{IsPageRef-ext}

-- Pageref `s` gets another free list.
abbrev pub refilled : (s : ℕ) → List ℕ → (nfree : ℕ) → KHeap → KHeap
refilled s xs nfree h = record h {
  pagerefs = update h.pagerefs s (record (h.pagerefs s) { free = xs; nfree = nfree });
}

module _ (s k i : ℕ) (h : KHeap) (v : IsHeap h) (d : IsPageRef h s i k) (xs : List ℕ)
    (sound : IsFreeList k xs) where
  abbrev after : KHeap
  after = refilled s xs (length xs) h

  -- The page and the size of each pageref stay.
  refilled_page :
      (s' : ℕ) → (after.pagerefs s').pageaddr_and_blocktype ≡ (h.pagerefs s').pageaddr_and_blocktype
  refilled_page s' = elim (Bool-cases (s == s')) [
    | inl e ↦ rw (e) (ap (λ x. (h.pagerefs x).pageaddr_and_blocktype) (eqb→eq s s' e))
    | inr e ↦ rw (e) refl
  ]

  pub refilled-IsPageRef : IsPageRef after s i k
  refilled-IsPageRef =
      let same =
        update_same h.pagerefs s (record (h.pagerefs s) { free = xs; nfree = length xs }) in
      record {
        page = refilled_page s ∙ d.page;
        size = d.size;
        mine = d.mine;
        known = d.known;
        inuse = d.inuse;
        rooted = d.rooted;
        free_list = subst (λ pr. IsFreeList k pr.free) (sym same) sound;
        counted = subst (λ pr. pr.nfree ≡ length pr.free) (sym same) refl;
      }

  pub refilled-IsHeap : IsHeap after
  refilled-IsHeap = record {
    in_kseg = v.in_kseg;
    described = λ s' m. elim (Bool-cases (s == s')) [
      | inl e ↦ (i, k, subst (λ x. IsPageRef after x i k) (eqb→eq s s' e) refilled-IsPageRef)
      | inr e ↦
          let (j, k', d') = v.described s' m in
          (j, k', IsPageRef-ext h after s' j k' d' (rw (e) refl) refl d'.inuse d'.rooted)
    ];
    listed =
        λ j s' u. let (m, page) = v.listed j s' u in (m, ap page_frame (refilled_page s') ∙ page);
    listed_once = v.listed_once;
    by_size =
        λ k' s' m. let (a, b) = v.by_size k' s' m in (a, ap page_offset (refilled_page s') ∙ b);
    sized_once = v.sized_once;
    tallied = v.tallied;
  }
