-- ===== src/Kheap/Offsets.antt =====
-- The offsets of the blocks of a page: how many there can be, and the free list of a fresh page.
use os161_virtual_memory_imp.Common.{
  ℕ, zero, suc, ◌*◌, ◌/◌, ◌%◌, ◌≤◌, ◌<◌, ◌≡◌, ◌≢◌, refl, sym, ap, subst, ◌∙◌, inl, inr, true, false,
  List, [], ◌∷◌, ◌==◌, arith, has, Bool-cases, eqb→eq, eqb→ne,
}
use native.Mathlib.Nat.{lt_of_mul-lt-mul_right, mul-lt-mul_of_pos_right, mul-mod_left, mod-add-div'}
use os161_virtual_memory_imp.Kheap.{sizes}
use os161_virtual_memory_imp.Kheap.Subpage.{remove_first, fresh_offsets, blocks_per_page}

abbrev pub length : List ℕ → ℕ
length [] = 0
length (x ∷ xs) = suc (length xs)

abbrev pub Distinct : List ℕ → Type 0
Distinct [] = Unit
Distinct (x ∷ xs) = (has x xs ≡ false) × Distinct xs

-- Removal from a list of distinct numbers takes out that number and no other.
pub remove_first_other : (s a : ℕ) (xs : List ℕ) → s ≢ a → has a (remove_first s xs) ≡ has a xs
unfolding remove_first
remove_first_other s a [] h = refl
remove_first_other s a (x ∷ xs) h = ground (arith, remove_first_other s a xs h)

pub remove_first_same : (s : ℕ) (xs : List ℕ) → Distinct xs → has s (remove_first s xs) ≡ false
unfolding remove_first
remove_first_same s [] d = refl
remove_first_same s (x ∷ xs) d = ground (arith, remove_first_same s xs d.1, d.0)

pub remove_first-has :
    (s a : ℕ) (xs : List ℕ)
    → Distinct xs
    → has a (remove_first s xs) ≡ true
    → (has a xs ≡ true) × (s ≢ a)
remove_first-has s a xs d h = elim (Bool-cases (s == a)) [
  | inl e ↦ absurd (ground (arith, remove_first_same s xs d, eqb→eq s a e))
  | inr e ↦ (sym (remove_first_other s a xs (eqb→ne s a e)) ∙ h, eqb→ne s a e)
]

pub remove_first-Distinct : (s : ℕ) (xs : List ℕ) → Distinct xs → Distinct (remove_first s xs)
unfolding remove_first
remove_first-Distinct s [] d = d
remove_first-Distinct s (x ∷ xs) d = elim (Bool-cases (x == s)) [
  | inl e ↦ rw (e) d.1
  | inr e ↦ rw (e) (
    remove_first_other s x xs (ground (arith, eqb→ne x s e)) ∙ d.0,
    remove_first-Distinct s xs d.1,
  )
]

length-remove_first : (s : ℕ) (xs : List ℕ) → length xs ≤ suc (length (remove_first s xs))
unfolding remove_first
length-remove_first s [] = omega arith
length-remove_first s (x ∷ xs) = ground (arith, length-remove_first s xs)

-- What holds of the eight block sizes holds of `sizes k`.
pub of_sizes :
    (P : ℕ → Type 0) (k : ℕ)
    → P 16 × P 32 × P 64 × P 128 × P 256 × P 512 × P 1024 × P 2048
    → P (sizes k)
unfolding sizes
of_sizes P k (a, b, c, d, e, f, g, h) = elim (Bool-cases (k == 0)) [
  | inl x ↦ rw (x) a
  | inr x ↦ elim (Bool-cases (k == 1)) [
    | inl y ↦ rw (x, y) b
    | inr y ↦ elim (Bool-cases (k == 2)) [
      | inl z ↦ rw (x, y, z) c
      | inr z ↦ elim (Bool-cases (k == 3)) [
        | inl u ↦ rw (x, y, z, u) d
        | inr u ↦ elim (Bool-cases (k == 4)) [
          | inl v ↦ rw (x, y, z, u, v) e
          | inr v ↦ elim (Bool-cases (k == 5)) [
            | inl r ↦ rw (x, y, z, u, v, r) f
            | inr r ↦ elim (Bool-cases (k == 6)) [
              | inl s ↦ rw (x, y, z, u, v, r, s) g
              | inr s ↦ rw (x, y, z, u, v, r, s) h
            ]
          ]
        ]
      ]
    ]
  ]
]

-- The blocks fill a page.
pub sizes_positive : (k : ℕ) → 0 < sizes k
sizes_positive k =
    of_sizes (λ s. 0 < s) k
      (
        omega arith,
        omega arith,
        omega arith,
        omega arith,
        omega arith,
        omega arith,
        omega arith,
        omega arith,
      )

pub blocks_fill : (k : ℕ) → blocks_per_page k * sizes k ≡ 4096
blocks_fill k =
    of_sizes (λ s. 4096 / s * s ≡ 4096) k (refl, refl, refl, refl, refl, refl, refl, refl)

module _ (size : ℕ) (positive : 0 < size) where
  quotient : (x : ℕ) → x % size ≡ 0 → x / size * size ≡ x
  quotient x h = omega (arith, mod-add-div' x size)

  -- A multiple of the size below n + 1 multiples is the last one or below n of them.
  multiple_below : (x n : ℕ) → x % size ≡ 0 → x < suc n * size → x ≢ n * size → x < n * size
  multiple_below x n h l e =
      let q : ℕ = x / size in
      let back : q * size ≡ x = quotient x h in
      let small : q < suc n =
        lt_of_mul-lt-mul_right size (subst (λ y. y < suc n * size) (sym back) l) in
      let other : q ≢ n = λ d. e (sym back ∙ ap (λ y. y * size) d) in
      subst (λ y. y < n * size) back
        (mul-lt-mul_of_pos_right (omega (arith, small, other)) positive)

  -- Distinct multiples below n of them are at most n.
  pub length_multiples :
      (n : ℕ) (xs : List ℕ)
      → Distinct xs
      → ((x : ℕ) → has x xs ≡ true → (x % size ≡ 0) × (x < n * size))
      → length xs ≤ n
  length_multiples zero [] d f = omega arith
  length_multiples zero (x ∷ xs) d f = absurd (ground (arith, f x))
  length_multiples (suc n) xs d f =
      let ys = remove_first (n * size) xs in
      let shorter : length ys ≤ n =
        length_multiples n ys (remove_first-Distinct (n * size) xs d) (λ x m.
          let (m', ne) = remove_first-has (n * size) x xs d m in
          ((f x m').0, multiple_below x n (f x m').0 (f x m').1 (λ e. ne (sym e)))) in
      omega (arith, shorter, length-remove_first (n * size) xs)

  pub fresh_below :
      (n x : ℕ) → has x (fresh_offsets n size) ≡ true → (x % size ≡ 0) × (x < n * size)
  unfolding fresh_offsets
  fresh_below zero x h = absurd (ground arith)
  fresh_below (suc n) x h = elim (Bool-cases (n * size == x)) [
    | inl e ↦
        let e' : n * size ≡ x = eqb→eq (n * size) x e in
        (subst (λ y. y % size ≡ 0) e' (mul-mod_left n size), omega (arith, positive, e'))
    | inr e ↦ let (a, b) = fresh_below n x (rw (e) at h) in (a, omega (arith, b))
  ]

  pub fresh_offsets-Distinct : (n : ℕ) → Distinct (fresh_offsets n size)
  unfolding fresh_offsets
  fresh_offsets-Distinct zero = tt
  fresh_offsets-Distinct (suc n) = (
    elim (Bool-cases (has (n * size) (fresh_offsets n size))) [
      | inl e ↦ absurd (omega (arith, (fresh_below n (n * size) e).1))
      | inr e ↦ e
    ],
    fresh_offsets-Distinct n,
  )

  -- Every multiple below is there.
  pub has-fresh_offsets :
      (n x : ℕ) → x % size ≡ 0 → x < n * size → has x (fresh_offsets n size) ≡ true
  unfolding fresh_offsets
  has-fresh_offsets zero x h l = absurd (omega arith)
  has-fresh_offsets (suc n) x h l = elim (Bool-cases (n * size == x)) [
    | inl e ↦ rw (e) refl
    | inr e ↦
        rw (e)
          (has-fresh_offsets n x h (multiple_below x n h l (λ d. eqb→ne (n * size) x e (sym d))))
  ]

pub length-fresh_offsets : (n size : ℕ) → length (fresh_offsets n size) ≡ n
unfolding fresh_offsets
length-fresh_offsets zero size = refl
length-fresh_offsets (suc n) size = ap suc (length-fresh_offsets n size)

pub blocks_positive : (k : ℕ) → 0 < blocks_per_page k
blocks_positive k =
    of_sizes (λ s. 0 < 4096 / s) k
      (
        omega arith,
        omega arith,
        omega arith,
        omega arith,
        omega arith,
        omega arith,
        omega arith,
        omega arith,
      )
