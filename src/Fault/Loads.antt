-- ===== src/Fault/Loads.antt =====
-- What vm_fault leaves in the TLB and in the page table.
use os161_virtual_memory_imp.Common.{
  ℕ, ◌<◌, ◌≡◌, refl, sym, subst, ◌∙◌, inl, inr, true, Option, some, arith, ◌==◌, ◌||◌, Option-cases,
  ne→eqb,
}
use os161_virtual_memory_imp.Machine.{page_frame}
use os161_virtual_memory_imp.Kmalloc.{Kmalloc, KmallocLaws}
use os161_virtual_memory_imp.AddrSpace.{AddrSpace, as_check_valid_addr}
use os161_virtual_memory_imp.PageTable.{PageEntry, Vm, npages, hpt_hash, find_page, find_in}
use os161_virtual_memory_imp.Fault.{
  running, fault_read, fault_write, fault_readonly, load_tlb, known_page, fault_at, fault_in,
  vm_fault, tlb_random,
}
use os161_virtual_memory_imp.Fault.Safety.{IsVm, hpt_hash-lt}
use os161_virtual_memory_imp.Fault.Written.{Loaded, Loads, new_page-Loads, known_page-Loads}

-- A read that the page table serves.
pub read_served :
    {H : Type 0} (K : Kmalloc H) (vm : Vm H) (space : AddrSpace) (addr slot index : ℕ)
    (page : PageEntry)
    → hpt_hash vm.pagespace space.block (page_frame addr) ≡ some index
    → find_in space.block (vm.chain index) ≡ some page
    → vm_fault K (running space) fault_read addr slot vm ≡ some (0, load_tlb addr slot page vm)
unfolding vm_fault fault_in fault_at find_page known_page
read_served K vm space addr slot index page hash found = rw hash (rw (found, fault_at))

module _ {H : Type 0} {K : Kmalloc H} (L : KmallocLaws K) (vm : Vm H) (v : IsVm L vm)
    (space : AddrSpace) (addr slot : ℕ) where
  fault_at-Loads :
      (faulttype index : ℕ)
      → index < npages vm.pagespace
      → Loads L vm space.block addr index slot (fault_at K space faulttype addr slot vm index)
  unfolding fault_at find_page
  fault_at-Loads faulttype index within =
      elim (Option-cases (find_in space.block (vm.chain index))) [
        | inl e ↦
            rw (e, fault_at)
              (new_page-Loads L vm v space.block addr index slot within
                (as_check_valid_addr (some space) addr))
        | inr (page, e) ↦
            rw (e, fault_at)
              (known_page-Loads L vm v space.block addr index slot within page e space faulttype
                refl)
      ]

  -- A read or write fault of a process with an address space looks at one chain, the one that the
  -- hash gives. It panics only if the books of the heap are out of order. If it returns 0, the first valid entry of the process in that chain is what the
  -- chosen TLB slot holds, for the page of the address. If it returns an error, neither the TLB nor
  -- the page table has changed. No other slot and no other chain changes.
  pub vm_fault-Loads :
      (faulttype : ℕ)
      → faulttype < 2
      → (index : ℕ) × (hpt_hash vm.pagespace space.block (page_frame addr) ≡ some index)
        × Loads L vm space.block addr index slot (vm_fault K (running space) faulttype addr slot vm)
  unfolding vm_fault fault_in
  vm_fault-Loads faulttype known =
      let (index, hash, within) = hpt_hash-lt vm.pagespace space.block (page_frame addr) v.room in
      let read_write : (faulttype == fault_read || faulttype == fault_write) ≡ true =
        ground arith in
      (
        index,
        hash,
        rw (ne→eqb faulttype fault_readonly (omega arith), read_write, hash)
            (fault_at-Loads faulttype index within),
      )

  -- What has returned has not panicked.
  returned :
      {r : Option (ℕ × Vm H)} {x : ℕ × Vm H} {index : ℕ}
      → r ≡ some x
      → Loads L vm space.block addr index slot r
      → (e : ℕ) × (vm' : Vm H) × (r ≡ some (e, vm')) × Loaded vm space.block addr index slot e vm'
  returned run (inl (stop, _)) = absurd (cc (run, stop))
  returned run (inr loads) = loads

  -- A read at any address with the same hash is served with the frame that the fault has loaded.
  pub served_again :
      (faulttype addr' slot' : ℕ) (vm' : Vm H)
      → faulttype < 2
      → vm_fault K (running space) faulttype addr slot vm ≡ some (0, vm')
      → hpt_hash vm.pagespace space.block (page_frame addr')
        ≡ hpt_hash vm.pagespace space.block (page_frame addr)
      → (vm_fault K (running space) fault_read addr' slot' vm'
          ≡ some (0, tlb_random slot' (page_frame addr') (vm'.tlb slot).lo vm'))
        × ((vm'.tlb slot).hi ≡ page_frame addr)
  unfolding load_tlb
  served_again faulttype addr' slot' vm' known run same_hash =
      let (index, hash, loads) = vm_fault-Loads faulttype known in
      let (e, vm2, run2, (same, tlb, chains, outcome)) = returned run loads in
      let done : ◌≡◌ {A = Option (ℕ × Vm H)} (some (0, vm')) (some (e, vm2)) = sym run ∙ run2 in
      elim outcome [
        | inl (ne, _, _) ↦ absurd (ne (ground arith))
        | inr (z, (page, found, _, entry)) ↦
            (let same_vm : vm2 ≡ vm' = ground arith in
              let again =
                read_served K vm2 space addr' slot' index page (rw same (same_hash ∙ hash)) found in
              subst
                (λ (x : Vm H).
                  (vm_fault K (running space) fault_read addr' slot' x
                    ≡ some (0, tlb_random slot' (page_frame addr') (x.tlb slot).lo x))
                  × ((x.tlb slot).hi ≡ page_frame addr))
                same_vm (rw entry again, rw entry))
      ]

  -- After a fault has been served, a read of the same page is served from the page table: whatever
  -- slot is picked, it gets the translation that the first fault has loaded, and nothing else
  -- changes.
  pub vm_fault-vm_fault :
      (faulttype slot' : ℕ) (vm' : Vm H)
      → faulttype < 2
      → vm_fault K (running space) faulttype addr slot vm ≡ some (0, vm')
      → vm_fault K (running space) fault_read addr slot' vm'
        ≡ some (0, tlb_random slot' (vm'.tlb slot).hi (vm'.tlb slot).lo vm')
  vm_fault-vm_fault faulttype slot' vm' known run =
      let (again, own) = served_again faulttype addr slot' vm' known run refl in rw own again
