-- ===== src/Complete/Chains.antt =====
-- What as_complete_load does to the page table: the regions' marks come off after the first chain,
-- so the entries of the other chains keep their dirty bits.
use os161_virtual_memory_imp.Common.{
  ℕ, zero, suc, ◌+◌, ◌<◌, ◌≤◌, ◌≡◌, refl, ap, ◌∙◌, ◌⊎◌, inl, inr, false, none, some, List, [], ◌∷◌,
  map, arith, All, if◌then◌else◌, update, Bool-cases, Option-cases, ne→eqb,
}
use os161_virtual_memory_imp.Machine.{frame_to_paddr}
use os161_virtual_memory_imp.AddrSpace.{
  Region, AddrSpace, os_m, test_flag, holds, find_region, as_check_valid_addr, restore_region,
}
use os161_virtual_memory_imp.AddrSpace.Load.{Unmarked}
use os161_virtual_memory_imp.PageTable.{PageEntry, Vm, npages, entry_size}
use os161_virtual_memory_imp.Fault.{Current}
use os161_virtual_memory_imp.Tlb.{as_activate}
use os161_virtual_memory_imp.Complete.{
  loaded_by, protect, complete_chain, restore, complete_chains, as_complete_load,
}

-- The entry is not a loaded one of this address space, or its page lies in a region.
abbrev pub Covered : AddrSpace → PageEntry → Type 0
Covered space e =
    (loaded_by space e ≡ false)
    ⊎ ((r : Region) × (as_check_valid_addr (some space) (frame_to_paddr e.pagenumber) ≡ some r))

-- The entry as the inner loop leaves it.
abbrev pub completed : AddrSpace → PageEntry → PageEntry
completed space e =
    if loaded_by space e
    then elim (as_check_valid_addr (some space) (frame_to_paddr e.pagenumber)) [
      | none ↦ e
      | some r ↦ protect r e
    ]
    else e

pub complete_chain_lem :
    (space : AddrSpace) (es : List PageEntry)
    → All (Covered space) es
    → complete_chain space es ≡ (0, map (completed space) es)
unfolding complete_chain
complete_chain_lem space [] c = refl
complete_chain_lem space (e ∷ es) (inl other, c) = rw (complete_chain_lem space es c, other)
complete_chain_lem space (e ∷ es) (inr (r, valid), c) =
    rw valid (elim (Bool-cases (loaded_by space e)) [
      | inl own ↦ rw (own, complete_chain_lem space es c)
      | inr other ↦ rw (other, complete_chain_lem space es c)
    ])

restore_marks : (rs : List Region) → Unmarked (map restore_region rs)
unfolding restore_region
restore_marks [] = tt
restore_marks (r ∷ rs) = (ground arith, restore_marks rs)

found_Unmarked :
    (rs : List Region) (addr : ℕ) (r : Region)
    → Unmarked rs
    → find_region rs addr ≡ some r
    → test_flag r.as_perms os_m ≡ false
unfolding find_region
found_Unmarked [] addr r u h = absurd (ground arith)
found_Unmarked (s ∷ rs) addr r u h = ground (arith, found_Unmarked rs addr r)

-- Without a mark the loop writes what is there.
completed-Unmarked :
    (space : AddrSpace) (e : PageEntry) → Unmarked space.regions → completed space e ≡ e
unfolding as_check_valid_addr
completed-Unmarked space e u =
    let addr = frame_to_paddr e.pagenumber in
    elim (Option-cases (find_region space.regions addr)) [
      | inl missing ↦ rw missing (ground arith)
      | inr (r, found) ↦ rw (found, found_Unmarked space.regions addr r u found) (ground arith)
    ]

restore_lookup :
    (rs : List Region) (addr : ℕ) (r : Region)
    → find_region rs addr ≡ some r
    → find_region (map restore_region rs) addr ≡ some (restore_region r)
unfolding find_region restore_region holds
restore_lookup [] addr r h = absurd (ground arith)
restore_lookup (s ∷ rs) addr r h = ground (arith, restore_lookup rs addr r)

map_unchanged :
    (space : AddrSpace) (es : List PageEntry)
    → Unmarked space.regions
    → map (completed space) es ≡ es
map_unchanged space [] u = refl
map_unchanged space (e ∷ es) u = rw (completed-Unmarked space e u, map_unchanged space es u)

restore_twice : (rs : List Region) → Unmarked rs → map restore_region rs ≡ rs
unfolding restore_region
restore_twice [] u = refl
restore_twice (r ∷ rs) u = rw (u.0, restore_twice rs u.1)

restore-Covered :
    (space : AddrSpace) (es : List PageEntry)
    → All (Covered space) es
    → All (Covered (restore space)) es
unfolding as_check_valid_addr
restore-Covered space [] c = tt
restore-Covered space (e ∷ es) (inl other, c) = (inl other, restore-Covered space es c)
restore-Covered space (e ∷ es) (inr (r, valid), c) = (
  inr (restore_region r, restore_lookup space.regions (frame_to_paddr e.pagenumber) r valid),
  restore-Covered space es c,
)

-- The rounds behind the first one: the regions bear no mark any more, and no chain changes.
later_rounds :
    (n i : ℕ) (space : AddrSpace) (chain : ℕ → List PageEntry)
    → Unmarked space.regions
    → ((j : ℕ) → i ≤ j → j < i + n → All (Covered space) (chain j))
    → (chain' : ℕ → List PageEntry) × (complete_chains n i space chain ≡ (0, space, chain'))
      × ((j : ℕ) → chain' j ≡ chain j)
unfolding complete_chains
later_rounds zero i space chain u c = (chain, refl, λ j. refl)
later_rounds (suc n) i space chain u c =
    let es : complete_chain space (chain i) ≡ (0, chain i) =
      complete_chain_lem space (chain i) (c i (omega arith) (omega arith))
      ∙ ap (λ (es : List PageEntry). let r : ℕ × List PageEntry = (0, es) in r)
          (map_unchanged space (chain i) u) in
    let (chain', run, same) =
      later_rounds n (suc i) space (update chain i (chain i)) u
        (λ j h k. rw (ne→eqb i j (omega arith)) (c j (omega arith) (omega arith))) in
    (chain', rw (es, restore_twice space.regions u) run, λ j. same j ∙ ground arith)

whole_table :
    (m : ℕ) (space : AddrSpace) (chain : ℕ → List PageEntry)
    → 1 ≤ m
    → ((i : ℕ) → i < m → All (Covered space) (chain i))
    → (chain' : ℕ → List PageEntry) × (complete_chains m 0 space chain ≡ (0, restore space, chain'))
      × (chain' 0 ≡ map (completed space) (chain 0))
      × ((i : ℕ) → 1 ≤ i → chain' i ≡ chain i)
unfolding complete_chains
whole_table zero space chain room c = absurd (omega arith)
whole_table (suc n) space chain room c =
    let first = complete_chain_lem space (chain 0) (c 0 (omega arith)) in
    let chain1 = update chain 0 (map (completed space) (chain 0)) in
    let (chain', run, same) =
      later_rounds n 1 (restore space) chain1 (restore_marks space.regions) (λ j h k.
        rw (ne→eqb 0 j (omega arith)) (restore-Covered space (chain j) (c j (omega arith)))) in
    (chain', rw first run, same 0, λ i h. same i ∙ ground arith)

module _ {H : Type 0} (cur : Current) (space : AddrSpace) (vm : Vm H)
    (room : entry_size ≤ vm.pagespace)
    (covered : (i : ℕ) → i < npages vm.pagespace → All (Covered space) (vm.chain i)) where
  -- Where each loaded page of the address space lies in a region, as_complete_load returns 0 with
  -- the marks taken off all regions. In chain 0 it turns off the dirty bit of the loaded pages
  -- whose regions were marked; no entry of another chain changes. So a page of a read-only region
  -- that the loader has written to stays writeable, unless the hash has put it into chain 0.
  pub as_complete_load_lem :
      (vm' : Vm H) × (as_complete_load cur (some space) vm
        ≡ (0, some (restore space), as_activate cur vm'))
      × (vm'.chain 0 ≡ map (completed space) (vm.chain 0))
      × ((i : ℕ) → 1 ≤ i → vm'.chain i ≡ vm.chain i)
  unfolding as_complete_load
  as_complete_load_lem =
      let (chain', run, first, others) =
        whole_table (npages vm.pagespace) space vm.chain (omega arith) covered in
      (record vm { chain = chain' }, rw run, first, others)
