-- ===== src/Destroy/Blocks.antt =====
-- The blocks of the heap that the page table and an address space hold: each of them once, and each
-- in use.
use os161_virtual_memory_imp.Common.{
  ◌++◌, false, ℕ, zero, suc, ◌+◌, ◌≤◌, ◌<◌, ◌≡◌, ◌≢◌, refl, sym, subst, inl, inr, true, Bool-cases,
  eqb→eq, eqb→ne, List, [], ◌∷◌, arith, ◌==◌, if◌then◌else◌, update,
}
use os161_virtual_memory_imp.Kmalloc.{Kmalloc, KmallocLaws}
use os161_virtual_memory_imp.AddrSpace.{Region, AddrSpace}
use os161_virtual_memory_imp.PageTable.{PageEntry}

abbrev pub is_block : (p q : ℕ) → ℕ
is_block p q = if p == q then 1 else 0

abbrev pub blocks_in : List PageEntry → ℕ → ℕ
blocks_in [] q = 0
blocks_in (e ∷ es) q = is_block e.block q + blocks_in es q

-- Over the first `n` chains.
abbrev pub blocks : (n : ℕ) → (ℕ → List PageEntry) → ℕ → ℕ
blocks zero chain q = 0
blocks (suc n) chain q = blocks n chain q + blocks_in (chain n) q

abbrev pub region_blocks : List Region → ℕ → ℕ
region_blocks [] q = 0
region_blocks (r ∷ rs) q = is_block r.block q + region_blocks rs q

-- The blocks of an address space and its regions.
abbrev pub space_blocks : AddrSpace → ℕ → ℕ
space_blocks space q = is_block space.block q + region_blocks space.regions q

blocks-update_above :
    (n : ℕ) (chain : ℕ → List PageEntry) (i : ℕ) (es : List PageEntry) (q : ℕ)
    → n ≤ i
    → blocks n (update chain i es) q ≡ blocks n chain q
blocks-update_above zero chain i es q h = refl
blocks-update_above (suc n) chain i es q h = ground (arith, blocks-update_above n chain i es q)

pub blocks-update :
    (n : ℕ) (chain : ℕ → List PageEntry) (i : ℕ) (es : List PageEntry) (q : ℕ)
    → i < n
    → blocks n (update chain i es) q + blocks_in (chain i) q ≡ blocks n chain q + blocks_in es q
blocks-update zero chain i es q h = elim h [ ]
blocks-update (suc n) chain i es q h =
    ground (arith, blocks-update n chain i es q, blocks-update_above n chain i es q)

pub blocks_in-append :
    (es fs : List PageEntry) (q : ℕ) → blocks_in (es ++ fs) q ≡ blocks_in es q + blocks_in fs q
blocks_in-append [] fs q = omega arith
blocks_in-append (e ∷ es) fs q = omega (arith, blocks_in-append es fs q)

module _ {H : Type 0} {K : Kmalloc H} (L : KmallocLaws K) where
  -- Of the blocks that `b` counts each is in use, and counted once.
  abbrev pub Holds : H → (ℕ → ℕ) → Type 0
  Holds heap b = (q : ℕ) → b q ≤ (if L.live heap q then 1 else 0)

  pub Holds-ext : (heap : H) (b b' : ℕ → ℕ) → Holds heap b → ((q : ℕ) → b' q ≡ b q) → Holds heap b'
  Holds-ext heap b b' h same q = omega (arith, h q, same q)

  pub Holds-same :
      (heap heap' : H) (b : ℕ → ℕ)
      → Holds heap b
      → ((q : ℕ) → L.live heap' q ≡ L.live heap q)
      → Holds heap' b
  Holds-same heap heap' b h same q = rw (same q) (h q)

  -- A block that comes into use is held besides the others.
  pub Holds-new :
      (heap heap' : H) (p : ℕ) (b : ℕ → ℕ)
      → Holds heap b
      → L.live heap p ≡ false
      → ((q : ℕ) → L.live heap' q ≡ (if q == p then true else L.live heap q))
      → Holds heap' (λ q. is_block p q + b q)
  Holds-new heap heap' p b h fresh now q = elim (Bool-cases (q == p)) [
    | inl e ↦
        let e' : q ≡ p = eqb→eq q p e in
        let none_yet : b p ≤ 0 = ap_le (h p) fresh in
        rw (now q, e) (subst (λ x. is_block p x + b x ≤ 1) (sym e') (ground (arith, none_yet)))
    | inr e ↦ rw (now q, e) (ground (arith, h q, eqb→ne q p e))
  ]
    where
      ap_le : b p ≤ (if L.live heap p then 1 else 0) → L.live heap p ≡ false → b p ≤ 0
      ap_le h' f = ground arith

  pub Holds-live :
      (heap : H) (p : ℕ) (b : ℕ → ℕ) → Holds heap (λ q. is_block p q + b q) → L.live heap p ≡ true
  Holds-live heap p b h = ground (arith, h p)

  -- A block that is held is freed: the others are still held.
  pub kfree-Holds :
      (heap heap' : H) (p : ℕ) (b : ℕ → ℕ)
      → Holds heap (λ q. is_block p q + b q)
      → ((q : ℕ) → q ≢ p → L.live heap' q ≡ L.live heap q)
      → Holds heap' b
  kfree-Holds heap heap' p b h others q =
      let out : b p ≡ 0 = ground (arith, h p) in
      elim (Bool-cases (q == p)) [
        | inl e ↦
            subst (λ x. b x ≤ (if L.live heap' x then 1 else 0)) (sym (eqb→eq q p e))
              (omega (arith, out))
        | inr e ↦ let same = others q (eqb→ne q p e) in rw (same) (omega (arith, h q))
      ]
