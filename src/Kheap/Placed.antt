-- ===== src/Kheap/Placed.antt =====
-- kern/vm/kmalloc.c: a page enters the lists of the heap, in subpage_kmalloc, and leaves them, in
-- subpage_kfree.
use os161_virtual_memory_imp.Common.{
  ℕ, ◌+◌, ◌*◌, ◌/◌, ◌%◌, ◌<◌, ◌≡◌, ◌≢◌, refl, sym, ap, subst, ◌∙◌, inl, inr, true, false, ◌∷◌, ◌==◌,
  arith, has, Bool-cases, update, eqb→eq, ne→eqb,
}
use os161_virtual_memory_imp.Kheap.{
  KHeap, own_page, blocks_of, kpage, frame_at, pr_blocktype, pr_pageaddr, sizes,
}
use os161_virtual_memory_imp.Kheap.Subpage.{set_up, fresh_offsets, blocks_per_page}
use os161_virtual_memory_imp.Kheap.Offsets.{length, length-fresh_offsets}
use os161_virtual_memory_imp.Kheap.FreeList.{IsFreeList, fresh_offsets-IsFreeList}
use os161_virtual_memory_imp.Kheap.Sound.{
  IsHeap, IsPageRef, update_same, update_other, blocks_of_inj, pageaddr_lem, blocktype_lem,
}
use os161_virtual_memory_imp.Kheap.Updates.{IsPageRef-ext}

-- The page of frame `i` gets pageref `s`.
abbrev pub placed : (s k i : ℕ) → KHeap → KHeap
placed s k i h = record h {
  pagerefs = update h.pagerefs s (record {
    pageaddr_and_blocktype = kpage i + k;
    free = fresh_offsets (blocks_per_page k) (sizes k);
    nfree = blocks_per_page k;
  });
  sizebases = update h.sizebases k (s ∷ h.sizebases k);
  allbase = s ∷ h.allbase;
  owner = update h.owner i (blocks_of s);
}

pub set_up-placed :
    (s k i : ℕ) (h : KHeap) → i < 131072 → k < 8 → set_up s k (kpage i) h ≡ placed s k i h
set_up-placed s k i h small size =
    let index : frame_at (kpage i) ≡ i = omega arith in
    let pab : kpage i / 4096 * 4096 + k % 4096 ≡ kpage i + k = omega arith in rw (index, pab) refl

abbrev pub Unlisted : ℕ → KHeap → Type 0
Unlisted s h = has s h.allbase ≡ false

module _ (s k i : ℕ) (h : KHeap) (v : IsHeap h) (new : Unlisted s h) (mine : h.owner i ≡ own_page)
    (above : 0 < i) (small : i < 131072) (size : k < 8) (known : s < 4096)
    (inuse : h.pagerefs_inuse s ≡ true) (rooted : h.root_page (s / 256) ≢ 0) where
  listed_other : (s' : ℕ) → has s' h.allbase ≡ true → s ≢ s'
  listed_other s' m e = absurd (cc (subst (λ x. has x h.allbase ≡ true) (sym e) m, new))

  pub fresh-IsPageRef : IsPageRef (placed s k i h) s i k
  fresh-IsPageRef =
      let same : (placed s k i h).pagerefs s ≡ record {
        pageaddr_and_blocktype = kpage i + k;
        free = fresh_offsets (blocks_per_page k) (sizes k);
        nfree = blocks_per_page k;
      } =
        update_same h.pagerefs s _ in
      record {
        page = ap (λ pr. pr.pageaddr_and_blocktype) same;
        size = size;
        mine = update_same h.owner i (blocks_of s);
        known = known;
        inuse = inuse;
        rooted = rooted;
        free_list = subst (λ pr. IsFreeList k pr.free) (sym same) (fresh_offsets-IsFreeList k);
        counted =
            subst (λ pr. pr.nfree ≡ length pr.free) (sym same)
              (sym (length-fresh_offsets (blocks_per_page k) (sizes k)));
      }

  pub placed-IsHeap : IsHeap (placed s k i h)
  placed-IsHeap = record {
    in_kseg = λ j u. elim (Bool-cases (i == j)) [
      | inl e ↦ subst (λ x. (0 < x) × (x < 131072)) (eqb→eq i j e) (above, small)
      | inr e ↦ v.in_kseg j (rw (e) at u)
    ];
    described = λ s' m. elim (Bool-cases (s == s')) [
      | inl e ↦
          (i, k, subst (λ x. IsPageRef (placed s k i h) x i k) (eqb→eq s s' e) fresh-IsPageRef)
      | inr e ↦
          let (j, k', d) = v.described s' (rw (e) at m) in
          (
            j,
            k',
            IsPageRef-ext h (placed s k i h) s' j k' d (rw (e) refl)
                (update_other h.owner i j (blocks_of s)
                  (λ f. absurd (cc (mine, d.mine, ap h.owner f))))
                d.inuse d.rooted,
          )
    ];
    listed = λ j s' u. elim (Bool-cases (i == j)) [
      | inl e ↦
          let f : s ≡ s' = blocks_of_inj s s' (rw (e) at u) in
          (
            ground (arith, f),
            subst (λ x. pr_pageaddr ((placed s k i h).pagerefs x) ≡ kpage j) f
                (pageaddr_lem (placed s k i h) s i k fresh-IsPageRef ∙ ap kpage (eqb→eq i j e)),
          )
      | inr e ↦
          let (m, page) = v.listed j s' (rw (e) at u) in
          (ground (arith, m), rw (ne→eqb s s' (listed_other s' m)) page)
    ];
    listed_once = (new, v.listed_once);
    by_size = λ k' s' m. elim (Bool-cases (s == s')) [
      | inl e ↦ elim (Bool-cases (k == k')) [
        | inl e' ↦ (
          rw (e) refl,
          subst (λ x. pr_blocktype ((placed s k i h).pagerefs x) ≡ k') (eqb→eq s s' e)
              (blocktype_lem (placed s k i h) s i k fresh-IsPageRef ∙ eqb→eq k k' e'),
        )
        | inr e' ↦ absurd (listed_other s' (v.by_size k' s' (rw (e') at m)).0 (eqb→eq s s' e))
      ]
      | inr e ↦ elim (Bool-cases (k == k')) [
        | inl e' ↦
            let (a, b) =
              v.by_size k' s'
                (subst (λ x. has s' (h.sizebases x) ≡ true) (eqb→eq k k' e') (rw (e', e) at m)) in
            (rw (e) a, rw (e) b)
        | inr e' ↦ let (a, b) = v.by_size k' s' (rw (e') at m) in (rw (e) a, rw (e) b)
      ]
    ];
    sized_once = λ k'. elim (Bool-cases (k == k')) [
      | inl e ↦ rw (e) (
        elim (Bool-cases (has s (h.sizebases k))) [
          | inl f ↦ absurd (listed_other s (v.by_size k s f).0 refl)
          | inr f ↦ f
        ],
        v.sized_once k,
      )
      | inr e ↦ rw (e) (v.sized_once k')
    ];
    tallied = v.tallied;
  }
