-- ===== src/Copy/Regions.antt =====
-- as_create and the copies of the regions in as_copy of kern/vm/addrspace.c.
use os161_virtual_memory_imp.Common.{
  ℕ, ◌+◌, ◌≡◌, ◌≢◌, refl, ap, ◌∙◌, inl, inr, Bool, false, ◌||◌, some, List, [], ◌∷◌, All, arith,
  ◌==◌, Bool-cases, eqb→eq, eqb→ne,
}
use os161_virtual_memory_imp.Machine.{enomem}
use os161_virtual_memory_imp.Frames.{FrameTable}
use os161_virtual_memory_imp.Kmalloc.{World, Kmalloc, KmallocLaws}
use os161_virtual_memory_imp.AddrSpace.{Region, AddrSpace, region_size, holds}
use os161_virtual_memory_imp.AddrSpace.Copied.{IsRegion, IsCopy, as_copy_region-IsCopy}
use os161_virtual_memory_imp.PageTable.Pages.{IsWorld, kmalloc-IsWorld}
use os161_virtual_memory_imp.Destroy.Blocks.{
  is_block, space_blocks, Holds, Holds-ext, Holds-same, Holds-new,
}
use os161_virtual_memory_imp.Copy.{copy_regions}

-- `rs'` is `acc` with copies of `rs` in front of it, in the opposite order.
abbrev pub Reversed : List Region → (acc rs' : List Region) → Type 0
Reversed [] acc rs' = rs' ≡ acc
Reversed (r ∷ rs) acc rs' = (r' : Region) × IsCopy r r' × Reversed rs (r' ∷ acc) rs'

-- Some region holds the address.
abbrev pub covers : List Region → ℕ → Bool
covers [] addr = false
covers (r ∷ rs) addr = holds r addr || covers rs addr

or_swap : (a b c : Bool) → b || (a || c) ≡ a || b || c
or_swap a b c = ground arith

pub Reversed-covers :
    (rs acc rs' : List Region) (addr : ℕ)
    → Reversed rs acc rs'
    → covers rs' addr ≡ covers rs addr || covers acc addr
unfolding holds
Reversed-covers [] acc rs' addr e = ap (λ x. covers x addr) e
Reversed-covers (r ∷ rs) acc rs' addr (r', (base, size, _), more) =
    let same : holds r' addr ≡ holds r addr = rw (base, size) refl in
    Reversed-covers rs (r' ∷ acc) rs' addr more
    ∙ ap (λ x. covers rs addr || (x || covers acc addr)) same
    ∙ or_swap (holds r addr) (covers rs addr) (covers acc addr)

module _ {H : Type 0} {K : Kmalloc H} (L : KmallocLaws K) where
  -- A block for a structure, or none: the references stay, and the new block is held.
  pub block_lem :
      (n : ℕ) (w : World H) (t : FrameTable) (free : List ℕ) (c b : ℕ → ℕ)
      → IsWorld L w t free c
      → Holds L w.heap b
      → let (p, w') = K.kmalloc n w in
        ((t' : FrameTable) × (free' : List ℕ) × IsWorld L w' t' free' c)
        × (p ≡ 0 → Holds L w'.heap b)
        × (p ≢ 0 → (L.live w.heap p ≡ false) × Holds L w'.heap (λ q. is_block p q + b q))
  block_lem n w t free c b v h =
      let (p, w') = K.kmalloc n w in
      (
        kmalloc-IsWorld L v n,
        (λ e. Holds-same L w.heap w'.heap b h (L.kmalloc_none n w t free v.heap v.frames e)),
        (λ ne.
            let (fresh, now) = L.kmalloc_live n w t free v.heap v.frames ne in
            (fresh, Holds-new L w.heap w'.heap p b h fresh now)),
      )

  -- What the loop leaves: on success copies of all the regions, and in any case an address space
  -- that holds its blocks, besides those that `b` counts.
  pub record Copying (rs : List Region) (space : AddrSpace) (c b : ℕ → ℕ) (e : ℕ)
      (space' : AddrSpace) (w' : World H) : Type 0 where
    pub table : FrameTable
    pub free : List ℕ
    pub world : IsWorld L w' table free c
    pub holds : Holds L w'.heap (λ q. space_blocks space' q + b q)
    pub same_block : space'.block ≡ space.block
    pub copied : e ≡ 0 → Reversed rs space.regions space'.regions

  pub copy_regions-Copying :
      (rs : List Region) (space : AddrSpace) (w : World H) (t : FrameTable) (free : List ℕ)
      (c b : ℕ → ℕ)
      → All IsRegion rs
      → IsWorld L w t free c
      → Holds L w.heap (λ q. space_blocks space q + b q)
      → (e : ℕ) × (space' : AddrSpace) × (w' : World H) × (copy_regions K rs (some space) w
          ≡ (e, some space', w'))
        × Copying rs space c b e space' w'
  unfolding copy_regions
  copy_regions-Copying [] space w t free c b all v h = (
    0,
    space,
    w,
    refl,
    record { table = t; free = free; world = v; holds = h; same_block = refl; copied = λ z. refl },
  )
  copy_regions-Copying (r ∷ rs) space w t free c b all v h =
      let p = (K.kmalloc region_size w).0 in
      let w1 = (K.kmalloc region_size w).1 in
      let (full, fits) = as_copy_region-IsCopy K L r space w t free all.0 v.heap v.frames in
      let ((t1, free1, v1), none_left, new) =
        block_lem region_size w t free c (λ q. space_blocks space q + b q) v h in
      elim (Bool-cases (p == 0)) [
        | inl z ↦
            let z' = eqb→eq p 0 z in
            (
              enomem,
              space,
              w1,
              rw (full z') refl,
              record {
                table = t1;
                free = free1;
                world = v1;
                holds = none_left z';
                same_block = refl;
                copied = λ no. absurd (omega (arith, no));
              },
            )
        | inr nz ↦
            let ne = eqb→ne p 0 nz in
            let (r', run, copy, at_p) = fits ne in
            let space1 : AddrSpace = record space { regions = r' ∷ space.regions } in
            let (e, space', w', run', more) =
              copy_regions-Copying rs space1 w1 t1 free1 c b all.1 v1 (
                Holds-ext L w1.heap _ (λ q. space_blocks space1 q + b q) (new ne).1
                  (λ q. rw at_p (omega arith))) in
            (
              e,
              space',
              w',
              rw (run) run',
              record {
                table = more.table;
                free = more.free;
                world = more.world;
                holds = more.holds;
                same_block = more.same_block;
                copied = λ z. (r', copy, more.copied z);
              },
            )
      ]
