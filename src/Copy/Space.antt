-- ===== src/Copy/Space.antt =====
-- as_copy of kern/vm/addrspace.c as a whole.
use os161_virtual_memory_imp.Common.{
  ℕ, ◌+◌, ◌<◌, ◌≡◌, ◌≢◌, ◌⊎◌, false, Option, ◌>>=◌, none, some, [], All,
}
use os161_virtual_memory_imp.Kmalloc.{Kmalloc, KmallocLaws}
use os161_virtual_memory_imp.AddrSpace.{AddrSpace}
use os161_virtual_memory_imp.PageTable.{Vm, npages}
use os161_virtual_memory_imp.Fault.{Current}
use os161_virtual_memory_imp.Fault.Safety.{IsVm}
use os161_virtual_memory_imp.Fork.Tally.{tally}
use os161_virtual_memory_imp.Fork.Steps.{ReadonlyFor}
use os161_virtual_memory_imp.Destroy.Blocks.{space_blocks}
use os161_virtual_memory_imp.Destroy.Rounds.{Owns}
use os161_virtual_memory_imp.Destroy.{as_destroy}
use os161_virtual_memory_imp.Copy.Regions.{Reversed}

module _ {H : Type 0} {K : Kmalloc H} (L : KmallocLaws K) (old : AddrSpace) (vm : Vm H)
    (b : ℕ → ℕ) where
  -- On failure nothing is returned, and everything that was held is held as before.
  abbrev NotCopied : (error : ℕ) → Option AddrSpace → Vm H → Type 0
  NotCopied error ret vm' = (error ≢ 0) × (ret ≡ none) × Owns L vm' (λ q. space_blocks old q + b q)

  -- On success the new space is in a block that was not in use, with copies of the regions; the
  -- new process has each mapping of the old one, which cannot write any more.
  abbrev IsCopied : (error : ℕ) → Option AddrSpace → Vm H → Type 0
  IsCopied error ret vm' =
      (space : AddrSpace) × (error ≡ 0)
      × (ret ≡ some space)
      × (L.live vm.world.heap space.block ≡ false)
      × Reversed old.regions [] space.regions
      × ((pn f : ℕ)
          → tally (npages vm.pagespace) vm'.chain space.block pn f
            ≡ tally (npages vm.pagespace) vm.chain space.block pn f
              + tally (npages vm.pagespace) vm.chain old.block pn f)
      × ((j : ℕ) → j < npages vm.pagespace → All (ReadonlyFor old.block) (vm'.chain j))
      × Owns L vm' (λ q. space_blocks space q + (space_blocks old q + b q))

  -- On the way out of a failed copy kfree has panicked: as_destroy has been called for the new
  -- space on a sound state whose heap has its books out of order.
  abbrev IsStopped : Current → Option (ℕ × Option AddrSpace × Vm H) → Type 0
  IsStopped cur run =
      (run ≡ none)
      × ((new : AddrSpace) × (vm1 : Vm H) × IsVm L vm1
          × Owns L vm1 (λ q. space_blocks new q + (space_blocks old q + b q))
          × (as_destroy K cur (some new) vm1 ≡ none)
          × ¬ L.steady vm1.world.heap)

  -- Where as_copy returns, the state is sound, and the old process keeps every mapping.
  abbrev pub AsCopied : Current → Option (ℕ × Option AddrSpace × Vm H) → Type 0
  AsCopied cur run =
      IsStopped cur run
      ⊎ ((error : ℕ) × (ret : Option AddrSpace) × (vm' : Vm H) × (run ≡ some (error, ret, vm'))
          × IsVm L vm'
          × ((pn f : ℕ)
              → tally (npages vm.pagespace) vm'.chain old.block pn f
                ≡ tally (npages vm.pagespace) vm.chain old.block pn f)
          × (NotCopied error ret vm' ⊎ IsCopied error ret vm'))
