-- ===== src/Tests/Faults.antt =====
-- The theorems about the page table and about faults, on the small machine.
use os161_virtual_memory_imp.Common.{ℕ, ◌/◌, ◌%◌, ◌^◌, ◌≡◌, ◌≢◌, refl, some, [], arith}
use os161_virtual_memory_imp.Machine.{page_frame, efault}
use os161_virtual_memory_imp.AddrSpace.{as_check_valid_addr, find_region, holds}
use os161_virtual_memory_imp.PageTable.{
  Vm, uint, set_entrylo, hpt_hash, find_page, find_in, create_page, readonwrite,
}
use os161_virtual_memory_imp.PageTable.Entry.{set_entrylo-IsEntryLo}
use os161_virtual_memory_imp.PageTable.Counts.{refs}
use os161_virtual_memory_imp.PageTable.Create.{Created, create_page-FreshPage}
use os161_virtual_memory_imp.Fault.{
  running, fault_read, fault_write, fault_readonly, tlb_random, load_tlb, vm_fault, fault_in,
  fault_at, known_page,
}
use os161_virtual_memory_imp.Fault.Cow.{Writes, readonwrite-Writes}
use os161_virtual_memory_imp.Fault.Safety.{Keeps, vm_fault-Keeps}
use os161_virtual_memory_imp.Fault.Written.{Loads}
use os161_virtual_memory_imp.Fault.Loads.{vm_fault-Loads, vm_fault-vm_fault}
use os161_virtual_memory_imp.Fault.Collide.{colliding_pages_share, read_then_write_refused}
use os161_virtual_memory_imp.Fork.{copy_page_table}
use os161_virtual_memory_imp.Fork.Table.{Copied, copy_page_table-Copied}
use os161_virtual_memory_imp.Tests.Fixture.{
  Run, run, laws, world, table, free, vm, vm-IsVm, world-IsWorld, space, data_region, page, paged,
  paged-IsVm,
}

-- A read of the first page of the data region, with no page in the table yet.
vm_fault-Keeps_example : Keeps laws vm (vm_fault run (running space) fault_read 0x40_0000 0 vm)
vm_fault-Keeps_example = vm_fault-Keeps laws vm vm-IsVm fault_read 0x40_0000 0 (running space)

vm_fault-Loads_example :
    (index : ℕ) × (hpt_hash 128 space.block (page_frame 0x40_0000) ≡ some index)
    × Loads laws vm space.block 0x40_0000 index 0
        (vm_fault run (running space) fault_read 0x40_0000 0 vm)
vm_fault-Loads_example = vm_fault-Loads laws vm vm-IsVm space 0x40_0000 0 fault_read (omega arith)

-- The state after a read of the page that is there.
abbrev read_back : Vm Run
read_back = tlb_random 0 0x40_0000 (uint (page 1).lo) (paged 1)

vm_fault-vm_fault_example :
    vm_fault run (running space) fault_read 0x40_0010 5 read_back
    ≡ some (0, tlb_random 5 (read_back.tlb 0).hi (read_back.tlb 0).lo read_back)
unfolding vm_fault fault_in fault_at hpt_hash find_page find_in known_page load_tlb set_entrylo
vm_fault-vm_fault_example =
    vm_fault-vm_fault laws (paged 1) (paged-IsVm 1) space 0x40_0010 0 fault_read 5 read_back
      (omega arith) refl

copy_page_table-Copied_example :
    (error : ℕ) × (vm' : Vm Run) × (copy_page_table run 0x8000_2000 0x8000_4000 (paged 1)
      ≡ some (error, vm'))
    × Copied laws 0x8000_2000 0x8000_4000 (omega arith) (paged 1) error vm'
copy_page_table-Copied_example =
    copy_page_table-Copied laws 0x8000_2000 0x8000_4000 (omega arith) (paged 1) (paged-IsVm 1)

create_page-FreshPage_example :
    Created laws 0x8000_2000 0x400 1 (λ _. 0) world (create_page run 0x8000_2000 0x400 1 world)
create_page-FreshPage_example =
    create_page-FreshPage laws 0x8000_2000 0x400 1 world table free (λ _. 0)
      (world-IsWorld (λ _. 0) (λ f. refl))

readonwrite-Writes_example :
    let v = paged-IsVm 0 in
    Writes laws
      (page 0)
      (paged 0).world
      v.free
      (refs 32 (paged 0).chain)
      (readonwrite (page 0) (paged 0).world)
unfolding set_entrylo
readonwrite-Writes_example =
    let v = paged-IsVm 0 in
    readonwrite-Writes laws (page 0) (paged 0).world v.table v.free (refs 32 (paged 0).chain)
      v.world (omega arith)

-- Pages 0x400 and 0x408 of the data region.
colliding_pages_share_example :
    (vm2 : Vm Run) × (vm_fault run (running space) fault_read 0x40_8000 1 read_back ≡ some (0, vm2))
    × (vm2.tlb 0 ≡ record { hi = 0x40_0000; lo = (read_back.tlb 0).lo })
    × (vm2.tlb 1 ≡ record { hi = 0x40_8000; lo = (read_back.tlb 0).lo })
    × ((i : ℕ) → vm2.chain i ≡ read_back.chain i)
unfolding vm_fault fault_in fault_at hpt_hash find_page find_in known_page load_tlb set_entrylo
colliding_pages_share_example =
    colliding_pages_share laws (paged 1) (paged-IsVm 1) space fault_read 0x40_0000 0x40_8000 0 1
      read_back (omega arith) refl (omega arith) refl (omega arith)

-- The page of the data region that is read-only in the table.
read_then_write_refused_example :
    let v = paged-IsVm 0 in
    (vm' : Vm Run) × (vm_fault run (running space) fault_read 0x40_0000 0 (paged 0) ≡ some (0, vm'))
    × ((vm'.tlb 0).hi ≡ 0x40_0000)
    × ((vm'.tlb 0).lo / 2 ^ 10 % 2 ≡ 0)
    × (vm_fault run (running space) fault_readonly 0x40_0000 0 vm' ≡ some (efault, vm'))
    × (v.free ≢ []
        → (vm2 : Vm Run) × (vm_fault run (running space) fault_write 0x40_0000 0 (paged 0)
            ≡ some (0, vm2)))
unfolding hpt_hash find_in set_entrylo as_check_valid_addr find_region holds
read_then_write_refused_example =
    read_then_write_refused laws (paged 0) (paged-IsVm 0) space 0x40_0000 0 0 (page 0) data_region
      refl refl (set_entrylo-IsEntryLo 1 0 4) refl refl refl
