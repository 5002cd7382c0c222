-- ===== src/AddrSpace/Lookup.antt =====
-- as_check_valid_addr finds the first region that holds an address.
use os161_virtual_memory_imp.Common.{
  ℕ, ◌+◌, ◌*◌, ◌%◌, ◌^◌, ◌≤◌, ◌<◌, arith, ◌≡◌, refl, ap, ◌⊎◌, inl, inr, true, false, Option, none,
  some, List, [], ◌∷◌, ◌++◌, All, Bool-cases,
}
use os161_virtual_memory_imp.Machine.{word}
use os161_virtual_memory_imp.AddrSpace.{Region, AddrSpace, holds, find_region, as_check_valid_addr}

-- From the base of a region, and below its end, which the code computes in 32 bits.
abbrev pub IsIn : ℕ → Region → Type 0
IsIn addr r = (r.as_vbase ≤ addr) × (addr < (r.as_vbase + r.as_npages * 4096) % 2 ^ 32)

holds-IsIn : (addr : ℕ) (r : Region) → holds r addr ≡ true → IsIn addr r
unfolding holds
holds-IsIn addr r h =
    let size = r.as_npages * 4096 in
    let low : r.as_vbase ≤ addr = ground (arith, h) in
    let high : addr < (r.as_vbase + size % word) % word = ground (arith, h) in
    (low, omega (arith, high))

not_holds-IsIn : (addr : ℕ) (r : Region) → holds r addr ≡ false → ¬ IsIn addr r
unfolding holds
not_holds-IsIn addr r h i =
    let size = r.as_npages * 4096 in
    let high : addr < (r.as_vbase + size % word) % word = omega (arith, i.1) in
    absurd (ground (arith, h, i.0, high))

abbrev pub Outside : ℕ → List Region → Type 0
Outside addr = All λ r. ¬ IsIn addr r

-- Either no region holds the address, or the result is the first one that does.
abbrev pub Finds : List Region → ℕ → Option Region → Type 0
Finds rs addr o =
    (Outside addr rs × (o ≡ none))
    ⊎ ((before : List Region) × (r : Region) × (after : List Region) × (rs ≡ before ++ r ∷ after)
        × Outside addr before
        × IsIn addr r
        × (o ≡ some r))

find_region-Finds : (rs : List Region) (addr : ℕ) → Finds rs addr (find_region rs addr)
unfolding find_region
find_region-Finds [] addr = inl (tt, refl)
find_region-Finds (r ∷ rs) addr = elim (Bool-cases (holds r addr)) [
  | inl hit ↦ inr ([], r, rs, refl, tt, holds-IsIn addr r hit, rw hit)
  | inr miss ↦ (elim (find_region-Finds rs addr) [
    | inl (out, e) ↦ inl ((not_holds-IsIn addr r miss, out), rw miss e)
    | inr (before, s, after, split, out, hit, e) ↦
        inr (
          r ∷ before,
          s,
          after,
          ap (◌∷◌ r) split,
          (not_holds-IsIn addr r miss, out),
          hit,
          rw miss e,
        )
  ])
]

-- as_check_valid_addr returns NULL just when the address lies in no region of the address space, and
-- otherwise the first region in the list that it lies in: from the base, and below the end, which
-- is computed in 32 bits.
pub as_check_valid_addr-Finds :
    (space : AddrSpace) (addr : ℕ)
    → Finds space.regions addr (as_check_valid_addr (some space) addr)
unfolding as_check_valid_addr
as_check_valid_addr-Finds space addr = find_region-Finds space.regions addr
