-- ===== src/Tests/Spaces.antt =====
-- The theorems about address spaces, on the small machine.
use os161_virtual_memory_imp.Common.{
  ℕ, ◌-◌, ◌/◌, ◌%◌, ◌^◌, ◌<◌, ◌≤◌, ◌≡◌, ◌≢◌, refl, inl, inr, true, false, none, some, [], ◌∷◌, map,
  arith, All, ◌&&◌, leb, ltb, ◌==◌, if◌then◌else◌, Bool-cases,
}
use os161_virtual_memory_imp.Machine.{userstack, stacksize, enomem}
use os161_virtual_memory_imp.AddrSpace.{
  Region, AddrSpace, pf_w, test_flag, region_size, as_check_valid_addr, find_region, holds,
  as_define_region, as_define_stack, restore_region, as_prepare_load,
}
use os161_virtual_memory_imp.AddrSpace.Flags.{Grants}
use os161_virtual_memory_imp.AddrSpace.Lookup.{Finds, as_check_valid_addr-Finds}
use os161_virtual_memory_imp.AddrSpace.Define.{
  Defined, as_define_region-Defined, as_define_stack_lem,
}
use os161_virtual_memory_imp.AddrSpace.Load.{as_prepare_load_lem}
use os161_virtual_memory_imp.PageTable.{Vm, npages}
use os161_virtual_memory_imp.Fault.{running, no_process}
use os161_virtual_memory_imp.Tlb.{num_tlb, tlb_invalid, as_activate, as_activate_flushes}
use os161_virtual_memory_imp.Complete.{restore, as_complete_load}
use os161_virtual_memory_imp.Complete.Chains.{Covered, completed, as_complete_load_lem}
use os161_virtual_memory_imp.Destroy.{as_destroy}
use os161_virtual_memory_imp.Destroy.Space.{Destroyed, as_destroy-others}
use os161_virtual_memory_imp.Tests.Fixture.{
  table, free, world-IsWorld, Run, paged-IsVm, paged-Owns, run, laws, world, vm, space, data_region,
  page, paged,
}

as_check_valid_addr-Finds_example :
    Finds space.regions 0x10_2000 (as_check_valid_addr (some space) 0x10_2000)
as_check_valid_addr-Finds_example = as_check_valid_addr-Finds space 0x10_2000

-- 0x1234 bytes that are not aligned, to be read and executed.
as_define_region-Defined_example :
    let (p, world') = run.kmalloc region_size world in
    let result = as_define_region run (some space) 0x50_0123 0x1234 true false true world in
    (p ≡ 0 → result ≡ (enomem, some space, world'))
    × (p ≢ 0
        → (space' : AddrSpace) × (region : Region) × (result ≡ (0, some space', world'))
          × Defined space 0x50_0123 0x1234 space' region
          × Grants region.as_perms true false true)
as_define_region-Defined_example =
    as_define_region-Defined run laws space world table free 0x50_0123 0x1234 true false true
      (world-IsWorld (λ _. 0) (λ f. refl)).heap (world-IsWorld (λ _. 0) (λ f. refl)).frames
      (omega arith) (omega arith)

as_define_stack_lem_example :
    (space' : AddrSpace) × (region : Region) × (as_define_stack run (some space) true world
      ≡ (0, some userstack, some space', (run.kmalloc region_size world).1))
    × Grants region.as_perms true true false
    × ((addr : ℕ)
        → as_check_valid_addr (some space') addr ≡ (
            if leb (userstack - stacksize) addr && ltb addr userstack
            then some region
            else as_check_valid_addr (some space) addr))
as_define_stack_lem_example =
    as_define_stack_lem run laws space world table free (world-IsWorld (λ _. 0) (λ f. refl)).heap
      (world-IsWorld (λ _. 0) (λ f. refl)).frames (omega arith)

as_prepare_load_lem_example :
    (loading : AddrSpace) × (as_prepare_load (some space) ≡ (0, some loading))
    × ((addr : ℕ) (r : Region)
        → as_check_valid_addr (some space) addr ≡ some r
        → (r' : Region) × (as_check_valid_addr (some loading) addr ≡ some r')
          × (test_flag r'.as_perms pf_w ≡ true))
    × ((addr : ℕ)
        → as_check_valid_addr (some space) addr ≡ none
        → as_check_valid_addr (some loading) addr ≡ none)
    × (map restore_region loading.regions ≡ space.regions)
as_prepare_load_lem_example = as_prepare_load_lem space (refl, (refl, tt))

as_activate_flushes_example :
    ((s : ℕ)
      → s < num_tlb
      → ((as_activate (running space) vm).tlb s ≡ tlb_invalid s)
        × (userstack ≤ (tlb_invalid s).hi)
        × ((tlb_invalid s).lo / 2 ^ 9 % 2 ≡ 0))
    × ((s : ℕ) → num_tlb ≤ s → (as_activate (running space) vm).tlb s ≡ vm.tlb s)
    × (record (as_activate (running space) vm) { tlb = vm.tlb } ≡ vm)
as_activate_flushes_example = as_activate_flushes space vm

paged-Covered : (i : ℕ) → i < npages 128 → All (Covered space) ((paged 1).chain i)
unfolding as_check_valid_addr find_region holds
paged-Covered i within = elim (Bool-cases (0 == i)) [
  | inl hit ↦ rw hit (inr (data_region, refl), tt)
  | inr miss ↦ rw miss tt
]

as_complete_load_lem_example :
    (vm' : Vm Run) × (as_complete_load (running space) (some space) (paged 1)
      ≡ (0, some (restore space), as_activate (running space) vm'))
    × (vm'.chain 0 ≡ map (completed space) (page 1 ∷ []))
    × ((i : ℕ) → 1 ≤ i → vm'.chain i ≡ (paged 1).chain i)
as_complete_load_lem_example =
    as_complete_load_lem (running space) space (paged 1) (omega arith) paged-Covered

only_chain_0 : (j : ℕ) → 128 / 16 ≤ j → (paged 1).chain j ≡ []
only_chain_0 j above = ground arith

as_destroy-others_example :
    Destroyed laws no_process space
      (λ _. 0)
      (paged 1)
      (as_destroy run no_process (some space) (paged 1))
as_destroy-others_example =
    as_destroy-others laws no_process space (paged 1) (λ _. 0) (paged-IsVm 1)
      (λ q. omega (arith, paged-Owns 1 q)) only_chain_0
