-- ===== src/Fault/Collide.antt =====
-- Where vm_fault departs from what it means to do: find_page compares the process and the valid
-- bit and not the page number, and a write to a page that the TLB holds read-only is refused
-- before the copy on write is tried.
use os161_virtual_memory_imp.Common.{
  ℕ, ◌/◌, ◌%◌, ◌^◌, ◌<◌, ◌≡◌, ◌≢◌, refl, some, [], inl, inr, arith, update, true, eq→eqb,
}
use os161_virtual_memory_imp.Machine.{page_frame, efault}
use os161_virtual_memory_imp.Kmalloc.{World, Kmalloc, KmallocLaws}
use os161_virtual_memory_imp.AddrSpace.{Region, AddrSpace, pf_w, test_flag, as_check_valid_addr}
use os161_virtual_memory_imp.PageTable.{
  PageEntry, Vm, hpt_hash, find_in, find_page, replace_in, readonwrite,
}
use os161_virtual_memory_imp.PageTable.Entry.{IsEntryLo, uint_fields}
use os161_virtual_memory_imp.Fault.{
  running, fault_read, fault_write, fault_readonly, load_tlb, vm_fault, tlb_random, fault_in,
  fault_at, known_page, write_page,
}
use os161_virtual_memory_imp.Fault.Loads.{served_again, read_served}
use os161_virtual_memory_imp.Fault.Safety.{IsVm, hpt_hash-within, referenced}
use os161_virtual_memory_imp.Fault.Cow.{readonwrite-Writes}

module _ {H : Type 0} {K : Kmalloc H} (L : KmallocLaws K) (vm : Vm H) (v : IsVm L vm)
    (space : AddrSpace) where
  -- Two pages of a process whose numbers the hash sends to one chain share a frame: once a fault on
  -- the first has been served, a read on the second returns 0 and gives the TLB the very same low
  -- word, with the frame of the first, under the page of the second. No region is looked up.
  pub colliding_pages_share :
      (faulttype addr addr' slot slot' : ℕ) (vm' : Vm H)
      → faulttype < 2
      → vm_fault K (running space) faulttype addr slot vm ≡ some (0, vm')
      → page_frame addr ≢ page_frame addr'
      → hpt_hash vm.pagespace space.block (page_frame addr')
        ≡ hpt_hash vm.pagespace space.block (page_frame addr)
      → slot ≢ slot'
      → (vm2 : Vm H) × (vm_fault K (running space) fault_read addr' slot' vm' ≡ some (0, vm2))
        × (vm2.tlb slot ≡ record { hi = page_frame addr; lo = (vm'.tlb slot).lo })
        × (vm2.tlb slot' ≡ record { hi = page_frame addr'; lo = (vm'.tlb slot).lo })
        × ((i : ℕ) → vm2.chain i ≡ vm'.chain i)
  colliding_pages_share faulttype addr addr' slot slot' vm' known run apart same_hash ne =
      let (again, own) =
        served_again L vm v space addr slot faulttype addr' slot' vm' known run same_hash in
      (
        tlb_random slot' (page_frame addr') (vm'.tlb slot).lo vm',
        again,
        ground arith,
        ground arith,
        λ i. refl,
      )

refused :
    {H : Type 0} (K : Kmalloc H) (space : AddrSpace) (addr slot : ℕ) (vm : Vm H)
    → vm_fault K (running space) fault_readonly addr slot vm ≡ some (efault, vm)
unfolding vm_fault
refused K space addr slot vm = refl

-- A write that misses the TLB, to a read-only entry.
write_served :
    {H : Type 0} (K : Kmalloc H) (vm : Vm H) (space : AddrSpace) (addr slot index : ℕ)
    (page : PageEntry)
    → hpt_hash vm.pagespace space.block (page_frame addr) ≡ some index
    → find_in space.block (vm.chain index) ≡ some page
    → page.lo.dirty ≡ 0
    → vm_fault K (running space) fault_write addr slot vm
      ≡ write_page (as_check_valid_addr (some space) addr) page space.block addr index slot vm
unfolding vm_fault fault_in fault_at find_page known_page
write_served K vm space addr slot index page hash found clean =
    rw hash (rw (found, fault_at) (rw (clean, known_page)))

write_page-zero :
    {H : Type 0} (region : Region) (page page' : PageEntry) (pid addr index slot : ℕ) (vm : Vm H)
    (w : World H)
    → test_flag region.as_perms pf_w ≡ true
    → readonwrite page vm.world ≡ some (0, page', w)
    → (vm' : Vm H) × (write_page (some region) page pid addr index slot vm ≡ some (0, vm'))
unfolding write_page
write_page-zero region page page' pid addr index slot vm w writeable run = (
  load_tlb addr slot page' (record vm {
    world = w;
    chain = update vm.chain index (replace_in pid page' (vm.chain index));
  }),
  rw (writeable, run),
)

module _ {H : Type 0} {K : Kmalloc H} (L : KmallocLaws K) (vm : Vm H) (v : IsVm L vm)
    (space : AddrSpace) (addr slot index : ℕ) (page : PageEntry) (region : Region)
    (hash : hpt_hash vm.pagespace space.block (page_frame addr) ≡ some index)
    (found : find_in space.block (vm.chain index) ≡ some page) (fields : IsEntryLo page.lo)
    (clean : page.lo.dirty ≡ 0) (valid : as_check_valid_addr (some space) addr ≡ some region)
    (writeable : test_flag region.as_perms pf_w ≡ true) where
  -- A page that a fork has made read-only, in a region that may be written. If the process reads
  -- it first, the TLB gets it without the dirty bit (bit 10), the write that follows is a
  -- VM_FAULT_READONLY, and vm_fault answers EFAULT; it does not copy. Had the process written
  -- without reading first, the same write would have been served, given a free frame.
  pub read_then_write_refused :
      (vm' : Vm H) × (vm_fault K (running space) fault_read addr slot vm ≡ some (0, vm'))
      × ((vm'.tlb slot).hi ≡ page_frame addr)
      × ((vm'.tlb slot).lo / 2 ^ 10 % 2 ≡ 0)
      × (vm_fault K (running space) fault_readonly addr slot vm' ≡ some (efault, vm'))
      × (v.free ≢ []
          → (vm2 : Vm H) × (vm_fault K (running space) fault_write addr slot vm ≡ some (0, vm2)))
  unfolding load_tlb
  read_then_write_refused =
      let within = hpt_hash-within vm.pagespace space.block (page_frame addr) index v.room hash in
      let used = referenced L vm v space.block addr index slot within page found in
      let serve = write_served K vm space addr slot index page hash found clean in
      (
        load_tlb addr slot page vm,
        read_served K vm space addr slot index page hash found,
        rw (eq→eqb slot slot refl),
        rw (eq→eqb slot slot refl) (omega (arith, uint_fields page.lo fields)),
        refused K space addr slot _,
        λ some_free.
            rw (serve, valid)
              (elim (readonwrite-Writes L page vm.world v.table v.free _ v.world used) [
                | inl (sole, run) ↦
                    write_page-zero region page _ space.block addr index slot vm _ writeable run
                | inr (inl (more, full, run)) ↦ absurd (some_free full)
                | inr (inr (more, copied)) ↦
                    write_page-zero region page _ space.block addr index slot vm _ writeable
                      copied.4
              ]),
      )
