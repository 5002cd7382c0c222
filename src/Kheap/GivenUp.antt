-- ===== src/Kheap/GivenUp.antt =====
-- kern/vm/kmalloc.c: a page of blocks is given up.
use os161_virtual_memory_imp.Common.{
  ℕ, ◌+◌, ◌-◌, ◌*◌, ◌/◌, ◌<◌, ◌≡◌, ◌≢◌, refl, sym, ap, subst, ◌∙◌, inl, inr, true, false, ◌==◌,
  arith, has, Bool-cases, update, eqb→eq, eqb→ne,
}
use os161_virtual_memory_imp.Kheap.{KHeap, own_page, is_owned, pr_blocktype, pr_pageaddr}
use os161_virtual_memory_imp.Kheap.Subpage.{remove_first}
use os161_virtual_memory_imp.Kheap.Offsets.{
  remove_first-has, remove_first_other, remove_first-Distinct,
}
use os161_virtual_memory_imp.Kheap.Sound.{
  IsHeap, IsPageRef, count, update_other, blocks_of_inj, pageaddr_lem, blocktype_lem, kpage_inj,
}
use os161_virtual_memory_imp.Kheap.Pages.{own_page-NotBlocks}
use os161_virtual_memory_imp.Kheap.Updates.{IsPageRef-ext, count_inside, count_outside, bit}

-- The page of frame `i` and its pageref `s` are given up.
abbrev pub released : (s k i : ℕ) → KHeap → KHeap
released s k i h = record h {
  pagerefs_inuse = update h.pagerefs_inuse s false;
  numinuse = update h.numinuse (s / 256) (h.numinuse (s / 256) - 1);
  sizebases = update h.sizebases k (remove_first s (h.sizebases k));
  allbase = remove_first s h.allbase;
  owner = update h.owner i own_page;
}

module _ (s k i : ℕ) (h : KHeap) (v : IsHeap h) (listed : has s h.allbase ≡ true)
    (d : IsPageRef h s i k) where
  cleared_count :
      (r : ℕ)
      → s / 256 ≡ r
      → count 256 (r * 256) (update h.pagerefs_inuse s false) + 1
        ≡ count 256 (r * 256) h.pagerefs_inuse
  cleared_count r e =
      let sum =
        count_inside 256 (r * 256) s h.pagerefs_inuse false (omega (arith, e)) (omega (arith, e)) in
      let sum' : count 256 (r * 256) (update h.pagerefs_inuse s false) + 1
          ≡ count 256 (r * 256) h.pagerefs_inuse + 0 =
        subst
          (λ b.
            count 256 (r * 256) (update h.pagerefs_inuse s false) + bit b
            ≡ count 256 (r * 256) h.pagerefs_inuse + 0)
          d.inuse sum in
      omega (arith, sum')

  pub numinuse_positive : 0 < h.numinuse (s / 256)
  numinuse_positive =
      omega (arith, v.tallied (s / 256) (omega (arith, d.known)), cleared_count (s / 256) refl)

  still_listed :
      (k' s' : ℕ)
      → s ≢ s'
      → has s' (h.sizebases k') ≡ true
      → (has s' (remove_first s h.allbase) ≡ true) × (pr_blocktype (h.pagerefs s') ≡ k')
  still_listed k' s' ne m =
      let (a, b) = v.by_size k' s' m in (remove_first_other s s' h.allbase ne ∙ a, b)

  pub released-IsHeap : IsHeap (released s k i h)
  released-IsHeap = record {
    in_kseg = λ j u. elim (Bool-cases (i == j)) [
      | inl e ↦
          subst (λ x. (0 < x) × (x < 131072)) (eqb→eq i j e) (v.in_kseg i (ap is_owned d.mine))
      | inr e ↦ v.in_kseg j (rw (e) at u)
    ];
    described = λ s' m.
        let (m', ne) = remove_first-has s s' h.allbase v.listed_once m in
        let (j, k', d') = v.described s' m' in
        (
          j,
          k',
          IsPageRef-ext h (released s k i h) s' j k' d' refl
              (update_other h.owner i j own_page
                (λ f. ne (blocks_of_inj s s' (sym d.mine ∙ ap h.owner f ∙ d'.mine))))
              (update_other h.pagerefs_inuse s s' false ne ∙ d'.inuse) d'.rooted,
        );
    listed = λ j s' u. elim (Bool-cases (i == j)) [
      | inl e ↦ absurd (own_page-NotBlocks own_page refl s' (rw (e) at u))
      | inr e ↦
          let (m, page) = v.listed j s' (rw (e) at u) in
          let ne : s ≢ s' = λ f. eqb→ne i j e (
            kpage_inj i j
              (sym (pageaddr_lem h s i k d) ∙ ap (λ x. pr_pageaddr (h.pagerefs x)) f ∙ page)) in
          (remove_first_other s s' h.allbase ne ∙ m, page)
    ];
    listed_once = remove_first-Distinct s h.allbase v.listed_once;
    by_size = λ k' s' m. elim (Bool-cases (k == k')) [
      | inl e ↦
          let (m', ne) = remove_first-has s s' (h.sizebases k) (v.sized_once k) (rw (e) at m) in
          still_listed k' s' ne (subst (λ x. has s' (h.sizebases x) ≡ true) (eqb→eq k k' e) m')
      | inr e ↦
          let m' : has s' (h.sizebases k') ≡ true = rw (e) at m in
          still_listed k' s'
            (λ f. eqb→ne k k' e (
              sym (blocktype_lem h s i k d)
              ∙ ap (λ x. pr_blocktype (h.pagerefs x)) f
              ∙ (v.by_size k' s' m').1))
            m'
    ];
    sized_once = λ k'. elim (Bool-cases (k == k')) [
      | inl e ↦ rw (e) (remove_first-Distinct s (h.sizebases k) (v.sized_once k))
      | inr e ↦ rw (e) (v.sized_once k')
    ];
    tallied = λ r l. elim (Bool-cases (s / 256 == r)) [
      | inl e ↦
          let e' : s / 256 ≡ r = eqb→eq (s / 256) r e in
          rw (e) (
            subst (λ x. h.numinuse x - 1 ≡ count 256 (r * 256) (update h.pagerefs_inuse s false))
              (sym e') (omega (arith, v.tallied r l, cleared_count r e')))
      | inr e ↦ rw (e) (
          v.tallied r l
          ∙ sym (
              count_outside 256 (r * 256) s h.pagerefs_inuse false
                (ground (arith, eqb→ne (s / 256) r e))))
    ];
  }
