-- ===== src/Tlb.antt =====
-- as_activate and as_deactivate of kern/vm/addrspace.c: every slot of the TLB gets a translation
-- of an address that the TLB never matches.
use os161_virtual_memory_imp.Common.{
  ℕ, zero, suc, ◌+◌, ◌*◌, ◌%◌, ◌/◌, ◌^◌, ◌<◌, ◌≤◌, ◌≡◌, refl, arith, ltb, if◌then◌else◌, update,
}
use os161_virtual_memory_imp.Machine.{word, page_size, userstack}
use os161_virtual_memory_imp.AddrSpace.{AddrSpace}
use os161_virtual_memory_imp.PageTable.{TlbEntry, Vm}
use os161_virtual_memory_imp.Fault.{Current, no_process, no_space, running}

abbrev pub num_tlb : ℕ
num_tlb = 64

-- TLBHI_INVALID(i) and TLBLO_INVALID() of kern/arch/mips/include/tlb.h.
abbrev pub tlb_invalid : ℕ → TlbEntry
tlb_invalid i = record { hi = (0x80000 + i) * page_size % word; lo = 0 }

unfoldable pub flush : (rounds i : ℕ) → (ℕ → TlbEntry) → ℕ → TlbEntry
flush zero i tlb = tlb
flush (suc n) i tlb = flush n (suc i) (update tlb i (tlb_invalid i))

-- `cur` says what proc_getas() is: without an address space nothing happens.
unfoldable pub as_activate : {H : Type 0} → Current → Vm H → Vm H
as_activate no_process vm = vm
as_activate no_space vm = vm
as_activate (running space) vm = record vm { tlb = flush num_tlb 0 vm.tlb }

unfoldable pub as_deactivate : {H : Type 0} → Current → Vm H → Vm H
as_deactivate cur vm = as_activate cur vm

flush_lem :
    (n i : ℕ) (tlb : ℕ → TlbEntry) (s : ℕ)
    → flush n i tlb s ≡ (if ltb s i then tlb s else if ltb s (i + n) then tlb_invalid s else tlb s)
unfolding flush
flush_lem zero i tlb s = ground arith
flush_lem (suc n) i tlb s = ground (arith, flush_lem n (suc i) (update tlb i (tlb_invalid i)) s)

-- While a process runs, as_activate leaves no slot with a valid translation, nor one of a user
-- address, among the 64 slots of the TLB; it writes to no other slot and to nothing else.
pub as_activate_flushes :
    {H : Type 0} (space : AddrSpace) (vm : Vm H)
    → ((s : ℕ)
        → s < num_tlb
        → ((as_activate (running space) vm).tlb s ≡ tlb_invalid s)
          × (userstack ≤ (tlb_invalid s).hi)
          × ((tlb_invalid s).lo / 2 ^ 9 % 2 ≡ 0))
      × ((s : ℕ) → num_tlb ≤ s → (as_activate (running space) vm).tlb s ≡ vm.tlb s)
      × (record (as_activate (running space) vm) { tlb = vm.tlb } ≡ vm)
unfolding as_activate
as_activate_flushes space vm = (
  (λ s h. (ground (arith, flush_lem num_tlb 0 vm.tlb s), omega arith, omega arith)),
  (λ s h. ground (arith, flush_lem num_tlb 0 vm.tlb s)),
  refl,
)
