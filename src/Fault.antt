-- ===== src/Fault.antt =====
-- vm_bootstrap and vm_fault of kern/vm/vm.c. The environment of a fault is passed in: `cur` says
-- what curproc and proc_getas() are, and `slot` is the TLB slot that the processor picks.
pub mod Written
pub mod Loads
pub mod Cow
pub mod Collide
pub mod Safety
use os161_virtual_memory_imp.Common.{
  ℕ, ◌+◌, ◌*◌, ◌/◌, Bool, true, false, not, ◌&&◌, ◌||◌, Option, none, some, List, [], ◌==◌,
  if◌then◌else◌, ◌>>=◌, update,
}
use os161_virtual_memory_imp.Machine.{page_size, page_frame, efault, einval, enomem}
use os161_virtual_memory_imp.Ram.{ram_getsize}
use os161_virtual_memory_imp.Frames.{Frames, frametable_bootstrap}
use os161_virtual_memory_imp.Kmalloc.{World, Kmalloc}
use os161_virtual_memory_imp.AddrSpace.{Region, AddrSpace, pf_w, test_flag, as_check_valid_addr}
use os161_virtual_memory_imp.PageTable.{
  PageEntry, TlbEntry, Vm, uint, pointer_size, hpt_hash, find_page, replace_in, insert_page,
  create_page, readonwrite,
}

-- VM_FAULT_READ, VM_FAULT_WRITE and VM_FAULT_READONLY.
abbrev pub fault_read : ℕ
fault_read = 0

abbrev pub fault_write : ℕ
fault_write = 1

abbrev pub fault_readonly : ℕ
fault_readonly = 2

pub data Current : Type 0 where
  no_process no_space : Current
  running : AddrSpace → Current

-- tlb_random
abbrev pub tlb_random : {H : Type 0} → (slot hi lo : ℕ) → Vm H → Vm H
tlb_random slot hi lo vm = record vm { tlb = update vm.tlb slot (record { hi = hi; lo = lo }) }

-- The end of vm_fault: the translation goes into the TLB.
unfoldable pub load_tlb : {H : Type 0} → (addr slot : ℕ) → PageEntry → Vm H → Vm H
load_tlb addr slot page vm = tlb_random slot (page_frame addr) (uint page.lo) vm

module _ {H : Type 0} (K : Kmalloc H) where
  -- No entry in the page table: `region` is what as_check_valid_addr has found.
  unfoldable pub new_page : Option Region → (pid addr index slot : ℕ) → Vm H → Option (ℕ × Vm H)
  new_page none pid addr index slot vm = some (efault, vm)
  new_page (some region) pid addr index slot vm = do
    let dirtybit = if test_flag region.as_perms pf_w then 1 else 0
    (made, w) ← create_page K pid (addr / page_size) dirtybit vm.world
    elim made [
      | none ↦ some (enomem, record vm { world = w })
      | some page ↦
          some
            (0, load_tlb addr slot page (insert_page index (some page) (record vm { world = w })))
    ]

-- A write to an entry that is read-only, with the region that as_check_valid_addr has found.
unfoldable pub write_page :
    {H : Type 0} → Option Region → PageEntry → (pid addr index slot : ℕ) → Vm H → Option (ℕ × Vm H)
write_page none page pid addr index slot vm = some (efault, vm)
write_page (some region) page pid addr index slot vm =
    if not (test_flag region.as_perms pf_w) then some (efault, vm) else (do
      (e, page', w) ← readonwrite page vm.world
      let vm' = record vm {
        world = w;
        chain = update vm.chain index (replace_in pid page' (vm.chain index));
      }
      if e == 0 then some (0, load_tlb addr slot page' vm') else some (e, vm'))

-- An entry in the page table.
unfoldable pub known_page :
    {H : Type 0}
    → AddrSpace
    → PageEntry
    → (faulttype addr index slot : ℕ) → Vm H
    → Option (ℕ × Vm H)
known_page space page faulttype addr index slot vm =
    if (faulttype == fault_write) && (page.lo.dirty == 0)
    then write_page (as_check_valid_addr (some space) addr) page space.block addr index slot vm
    else some (0, load_tlb addr slot page vm)

module _ {H : Type 0} (K : Kmalloc H) where
  -- The search of the page table, and what follows it.
  unfoldable pub fault_at :
      AddrSpace → (faulttype addr slot : ℕ) → Vm H → (index : ℕ) → Option (ℕ × Vm H)
  fault_at space faulttype addr slot vm index = elim (find_page space.block index vm) [
    | none ↦ new_page K (as_check_valid_addr (some space) addr) space.block addr index slot vm
    | some page ↦ known_page space page faulttype addr index slot vm
  ]

  unfoldable pub fault_in : AddrSpace → (faulttype addr slot : ℕ) → Vm H → Option (ℕ × Vm H)
  fault_in space faulttype addr slot vm = do
    index ← hpt_hash vm.pagespace space.block (page_frame addr)
    fault_at space faulttype addr slot vm index

  -- An error number, and the state afterwards.
  unfoldable pub vm_fault : Current → (faulttype addr slot : ℕ) → Vm H → Option (ℕ × Vm H)
  vm_fault cur faulttype addr slot vm =
      if faulttype == fault_readonly
      then some (efault, vm)
      else if not (faulttype == fault_read || faulttype == fault_write)
      then some (einval, vm)
      else elim cur [
        | no_process ↦ some (efault, vm)
        | no_space ↦ some (efault, vm)
        | running space ↦ fault_in space faulttype addr slot vm
      ]

-- The table has two chains for each frame. `kmalloc` serves the heap before the frame table exists;
-- the KASSERT on its result is a fault.
unfoldable pub vm_bootstrap :
    {H : Type 0} → (ℕ → Frames → Option (ℕ × Frames)) → World H → (ℕ → TlbEntry) → Option (Vm H)
vm_bootstrap kmalloc w tlb = do
  let pagespace = ram_getsize w.frames.ram / page_size * 2 * pointer_size
  (p, fr) ← kmalloc pagespace w.frames
  let booted = frametable_bootstrap kmalloc fr
  if p == 0 then none else (do
    fr' ← booted
    some (record {
      world = record w { frames = fr' };
      pagespace = pagespace;
      chain = λ _. [];
      tlb = tlb;
    }))
