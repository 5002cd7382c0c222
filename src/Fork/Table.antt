-- ===== src/Fork/Table.antt =====
-- copy_page_table of kern/vm/vm.c: what a fork leaves in the page table.
use os161_virtual_memory_imp.Common.{ℕ, ◌/◌, ◌+◌, ◌≤◌, ◌<◌, ◌≡◌, ◌≢◌, some, [], All, arith}
use os161_virtual_memory_imp.Kmalloc.{Kmalloc, KmallocLaws}
use os161_virtual_memory_imp.PageTable.{Vm, npages, entry_size}
use os161_virtual_memory_imp.Fault.Safety.{IsVm}
use os161_virtual_memory_imp.Destroy.Blocks.{Holds-ext}
use os161_virtual_memory_imp.Destroy.Rounds.{Owns}
use os161_virtual_memory_imp.Fork.{copy_page_table}
use os161_virtual_memory_imp.Fork.Tally.{tally}
use os161_virtual_memory_imp.Fork.Steps.{stock, ReadonlyFor}
use os161_virtual_memory_imp.Fork.Rounds.{tally_from-tally, tally_from-ext, copy_chains-Rounds}

module _ {H : Type 0} {K : Kmalloc H} (L : KmallocLaws K) (old new : ℕ) (apart : old ≢ new) where
  -- What copying has done, by the number of entries that map a page of a process to a frame.
  pub record Copied (vm : Vm H) (error : ℕ) (vm' : Vm H) : Type 0 where
    pub sound : IsVm L vm'
    pub same_size : vm'.pagespace ≡ vm.pagespace
    pub same_tlb : (s : ℕ) → vm'.tlb s ≡ vm.tlb s
    pub kept :
        (pn f : ℕ)
        → tally (npages vm.pagespace) vm'.chain old pn f
          ≡ tally (npages vm.pagespace) vm.chain old pn f
    pub shared :
        error ≡ 0
        → (pn f : ℕ)
        → tally (npages vm.pagespace) vm'.chain new pn f
          ≡ tally (npages vm.pagespace) vm.chain new pn f
            + tally (npages vm.pagespace) vm.chain old pn f
    pub protected :
        error ≡ 0 → (j : ℕ) → j < npages vm.pagespace → All (ReadonlyFor old) (vm'.chain j)
    pub holds : (b : ℕ → ℕ) → Owns L vm b → Owns L vm' b
    pub reached : (j : ℕ) → vm.pagespace / entry_size ≤ j → vm.chain j ≡ [] → vm'.chain j ≡ []

  -- copy_page_table never faults on a sound state, and what it returns is sound again: each frame
  -- counts the entries of both processes, also when memory runs out on the way. The old process
  -- keeps every mapping. On success the new process has got each mapping of the old one, to the
  -- same frame, and no entry of the old process may be written any more. The TLB is not touched.
  -- Each block that the table held, and each other one that was held, is still in use and held once.
  pub copy_page_table-Copied :
      (vm : Vm H)
      → IsVm L vm
      → (error : ℕ) × (vm' : Vm H) × (copy_page_table K old new vm ≡ some (error, vm'))
        × Copied vm error vm'
  unfolding copy_page_table
  copy_page_table-Copied vm v =
      let n = npages vm.pagespace in
      let (error, vm', run, r) = copy_chains-Rounds L old new apart n 0 vm v (omega arith) in
      (
        error,
        vm',
        run,
        record {
          sound = r.sound;
          same_size = r.same_size;
          same_tlb = r.same_tlb;
          kept = λ pn f. omega (
            arith,
            tally_from-tally n 0 n vm.chain old pn f (omega arith),
            tally_from-tally n 0 n vm'.chain old pn f (omega arith),
            tally_from-ext n 0 vm.chain vm'.chain old pn f (λ j. r.kept j pn f),
          );
          shared = λ z pn f.
              omega
                (arith, r.gained z pn f, tally_from-tally n 0 n vm.chain old pn f (omega arith));
          protected = λ z j h. r.protected z j (omega arith) (omega (arith, h));
          holds = λ b h.
              Holds-ext L vm'.world.heap (stock vm' [] b) _
                (r.holds b (Holds-ext L vm.world.heap _ (stock vm [] b) h (λ q. omega arith)))
                (λ q. omega arith);
          reached = r.reached;
        },
      )
