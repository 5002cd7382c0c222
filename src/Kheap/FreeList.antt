-- ===== src/Kheap/FreeList.antt =====
-- The free list of a page of kern/vm/kmalloc.c: distinct multiples of the block size.
use os161_virtual_memory_imp.Common.{
  ℕ, ◌%◌, ◌≤◌, ◌<◌, ◌≡◌, sym, subst, inl, inr, true, false, List, ◌∷◌, ◌==◌, arith, has, Bool-cases,
  eqb→eq,
}
use os161_virtual_memory_imp.Kheap.{sizes}
use os161_virtual_memory_imp.Kheap.Subpage.{fresh_offsets, blocks_per_page}
use os161_virtual_memory_imp.Kheap.Offsets.{
  length, Distinct, sizes_positive, blocks_fill, length_multiples, fresh_below,
  fresh_offsets-Distinct,
}

-- The offsets of a free list: distinct multiples of the block size, inside the page.
pub record IsFreeList (k : ℕ) (xs : List ℕ) : Type 0 where
  pub distinct : Distinct xs
  pub offset : (x : ℕ) → has x xs ≡ true → (x % sizes k ≡ 0) × (x < 4096)

pub fresh_offsets-IsFreeList : (k : ℕ) → IsFreeList k (fresh_offsets (blocks_per_page k) (sizes k))
fresh_offsets-IsFreeList k = record {
  distinct = fresh_offsets-Distinct (sizes k) (sizes_positive k) (blocks_per_page k);
  offset = λ x m.
      let (a, b) = fresh_below (sizes k) (sizes_positive k) (blocks_per_page k) x m in
      (a, subst (λ y. x < y) (blocks_fill k) b);
}

pub length-IsFreeList : (k : ℕ) (xs : List ℕ) → IsFreeList k xs → length xs ≤ blocks_per_page k
length-IsFreeList k xs v =
    length_multiples (sizes k) (sizes_positive k) (blocks_per_page k) xs v.distinct
      (λ x m. ((v.offset x m).0, subst (λ y. x < y) (sym (blocks_fill k)) (v.offset x m).1))

pub cons-IsFreeList :
    (k x : ℕ) (xs : List ℕ)
    → IsFreeList k xs
    → x % sizes k ≡ 0
    → x < 4096
    → has x xs ≡ false
    → IsFreeList k (x ∷ xs)
cons-IsFreeList k x xs v h l new = record {
  distinct = (new, v.distinct);
  offset = λ y m. elim (Bool-cases (x == y)) [
    | inl e ↦ subst (λ z. (z % sizes k ≡ 0) × (z < 4096)) (eqb→eq x y e) (h, l)
    | inr e ↦ v.offset y (rw (e) at m)
  ];
}

pub tail-IsFreeList : (k x : ℕ) (xs : List ℕ) → IsFreeList k (x ∷ xs) → IsFreeList k xs
tail-IsFreeList k x xs v = record {
  distinct = v.distinct.1;
  offset = λ y m. v.offset y (ground arith);
}

-- When all blocks of a page are free, each of them is on the list.
pub full-IsFreeList :
    (k x : ℕ) (xs : List ℕ)
    → IsFreeList k xs
    → length xs ≡ blocks_per_page k
    → x % sizes k ≡ 0
    → x < 4096
    → has x xs ≡ true
full-IsFreeList k x xs v full h l = elim (Bool-cases (has x xs)) [
  | inl e ↦ e
  | inr e ↦
      absurd (omega (arith, full, length-IsFreeList k (x ∷ xs) (cons-IsFreeList k x xs v h l e)))
]
