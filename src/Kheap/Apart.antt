-- ===== src/Kheap/Apart.antt =====
-- kern/vm/kmalloc.c: the blocks in use do not overlap.
use os161_virtual_memory_imp.Common.{
  ℕ, ◌+◌, ◌%◌, ◌≤◌, ◌<◌, ◌≡◌, refl, sym, subst, inl, inr, true, arith, ◌==◌, Bool-cases, eqb→eq,
  eqb→ne,
}
use os161_virtual_memory_imp.Machine.{page_offset, mips_kseg0}
use os161_virtual_memory_imp.Kheap.{
  KHeap, Owner, free_page, own_page, whole_page, blocks_of, sizes, frame_at, live, live_in, size_of,
  size_in, pr_blocktype,
}
use os161_virtual_memory_imp.Kheap.Offsets.{of_sizes}

-- A multiple of a block size ends before the next one begins, and before the page ends.
abbrev IsApart : ℕ → Type 0
IsApart size = (x y : ℕ) → x % size ≡ 0 → y % size ≡ 0 → x < y → x + size ≤ y

apart : (k : ℕ) → IsApart (sizes k)
apart k = of_sizes IsApart k (
  (λ x y a b l. omega arith),
  (λ x y a b l. omega arith),
  (λ x y a b l. omega arith),
  (λ x y a b l. omega arith),
  (λ x y a b l. omega arith),
  (λ x y a b l. omega arith),
  (λ x y a b l. omega arith),
  (λ x y a b l. omega arith),
)

divides_page : (k : ℕ) → 4096 % sizes k ≡ 0
divides_page k = of_sizes (λ s. 4096 % s ≡ 0) k (refl, refl, refl, refl, refl, refl, refl, refl)

module _ (h : KHeap) where
  -- A block ends on its page.
  block_fits : (p : ℕ) → live h p ≡ true → (mips_kseg0 ≤ p) × (page_offset p + size_of h p ≤ 4096)
  unfolding live size_of
  block_fits p l = (ground arith, in_page (h.owner (frame_at p)) (ground arith))
    where
      in_page : (o : Owner) → live_in h p o ≡ true → page_offset p + size_in h o ≤ 4096
      in_page free_page e = absurd cc
      in_page own_page e = absurd cc
      in_page whole_page e = ground arith
      in_page (blocks_of s) e =
          apart (pr_blocktype (h.pagerefs s)) (page_offset p) 4096 (ground arith)
            (divides_page (pr_blocktype (h.pagerefs s))) (omega arith)

  -- Two blocks of a page.
  same_page :
      (p q : ℕ)
      → live h p ≡ true
      → live h q ≡ true
      → frame_at p ≡ frame_at q
      → page_offset p < page_offset q
      → page_offset p + size_of h p ≤ page_offset q
  unfolding live size_of
  same_page p q a b e l =
      in_page (h.owner (frame_at p)) (ground arith)
        (subst (λ i. live_in h q (h.owner i) ≡ true) (sym e) (ground arith))
    where
      in_page :
          (o : Owner)
          → live_in h p o ≡ true
          → live_in h q o ≡ true
          → page_offset p + size_in h o ≤ page_offset q
      in_page free_page x y = absurd cc
      in_page own_page x y = absurd cc
      in_page whole_page x y = absurd (ground arith)
      in_page (blocks_of s) x y =
          apart (pr_blocktype (h.pagerefs s)) (page_offset p) (page_offset q) (ground arith)
            (ground arith) l

  -- Of two blocks in use at different addresses one ends before the other begins.
  pub blocks_apart : (p q : ℕ) → live h p ≡ true → live h q ≡ true → p < q → p + size_of h p ≤ q
  blocks_apart p q a b l =
      let (low, fits) = block_fits p a in
      let (low', _) = block_fits q b in
      elim (Bool-cases (frame_at p == frame_at q)) [
        | inl e ↦
            let e' : frame_at p ≡ frame_at q = eqb→eq (frame_at p) (frame_at q) e in
            omega (arith, same_page p q a b e' (omega arith), low, low', e')
        | inr e ↦ omega (arith, fits, low, low', eqb→ne (frame_at p) (frame_at q) e)
      ]
