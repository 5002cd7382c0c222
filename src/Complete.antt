-- ===== src/Complete.antt =====
-- as_complete_load of kern/vm/addrspace.c.
pub mod Chains
use os161_virtual_memory_imp.Common.{
  ℕ, zero, suc, ◌+◌, Bool, true, false, ◌&&◌, Option, none, some, List, [], ◌∷◌, map, ◌==◌,
  if◌then◌else◌, update,
}
use os161_virtual_memory_imp.Machine.{frame_to_paddr, efault}
use os161_virtual_memory_imp.AddrSpace.{
  Region, AddrSpace, os_m, test_flag, as_check_valid_addr, restore_region,
}
use os161_virtual_memory_imp.PageTable.{EntryLo, PageEntry, Vm, npages}
use os161_virtual_memory_imp.Fault.{Current}
use os161_virtual_memory_imp.Tlb.{as_activate}

-- The test of the inner loop.
abbrev pub loaded_by : AddrSpace → PageEntry → Bool
loaded_by space e = (e.pid == space.block) && (e.lo.valid == 1)

-- The dirty bit goes off in a region that as_prepare_load has marked.
abbrev pub protect : Region → PageEntry → PageEntry
protect r e = if test_flag r.as_perms os_m then record e { lo = record (e.lo) { dirty = 0 } } else e

-- One chain: an error number, and the chain as far as it has been written to.
unfoldable pub complete_chain : AddrSpace → List PageEntry → ℕ × List PageEntry
complete_chain space [] = (0, [])
complete_chain space (e ∷ es) =
    let (error, es') = complete_chain space es in
    if loaded_by space e
    then elim (as_check_valid_addr (some space) (frame_to_paddr e.pagenumber)) [
      | none ↦ (efault, e ∷ es)
      | some r ↦ (error, protect r e ∷ es')
    ]
    else (error, e ∷ es')

abbrev pub restore : AddrSpace → AddrSpace
restore space = record space { regions = map restore_region space.regions }

-- The outer loop, over the rounds that are left. The regions are reset within it, at the end of
-- each round.
unfoldable pub complete_chains :
    (rounds i : ℕ) → AddrSpace → (ℕ → List PageEntry) → ℕ × AddrSpace × (ℕ → List PageEntry)
complete_chains zero i space chain = (0, space, chain)
complete_chains (suc n) i space chain =
    let (error, es) = complete_chain space (chain i) in
    let chain' = update chain i es in
    let rest = complete_chains n (suc i) (restore space) chain' in
    if error == 0 then rest else (error, space, chain')

unfoldable pub as_complete_load :
    {H : Type 0} → Current → Option AddrSpace → Vm H → ℕ × Option AddrSpace × Vm H
as_complete_load cur none vm = (efault, none, vm)
as_complete_load cur (some space) vm =
    let (error, space', chain') = complete_chains (npages vm.pagespace) 0 space vm.chain in
    let vm' = record vm { chain = chain' } in
    (error, some space', if error == 0 then as_activate cur vm' else vm')
