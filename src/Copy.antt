-- ===== src/Copy.antt =====
-- as_copy of kern/vm/addrspace.c: the address space of a new process.
pub mod Regions
pub mod Space
use os161_virtual_memory_imp.Common.{
  ℕ, Option, none, some, List, [], ◌∷◌, ◌==◌, if◌then◌else◌, ◌>>=◌,
}
use os161_virtual_memory_imp.Machine.{enomem, efault}
use os161_virtual_memory_imp.Kmalloc.{World, Kmalloc}
use os161_virtual_memory_imp.AddrSpace.{Region, AddrSpace, as_create, as_copy_region}
use os161_virtual_memory_imp.PageTable.{Vm}
use os161_virtual_memory_imp.Fault.{Current}
use os161_virtual_memory_imp.Fork.{with_world, copy_page_table}
use os161_virtual_memory_imp.Destroy.{as_destroy}

module _ {H : Type 0} (K : Kmalloc H) where
  -- The loop over the regions of the old address space.
  unfoldable pub copy_regions :
      List Region → Option AddrSpace → World H → ℕ × Option AddrSpace × World H
  copy_regions [] new w = (0, new, w)
  copy_regions (r ∷ rs) new w =
      let (e, new', w') = as_copy_region K new (some r) w in
      let next = copy_regions rs new' w' in if e == 0 then next else (e, new', w')

  -- The new address space is destroyed; nothing is returned in `*ret`.
  abbrev pub give_up : Current → ℕ → Option AddrSpace → Vm H → Option (ℕ × Option AddrSpace × Vm H)
  give_up cur error new vm = do vm' ← as_destroy K cur new vm; some (error, none, vm')

  -- The error number, what is stored in `*ret`, and the state. `cur` says what proc_getas() is.
  unfoldable pub as_copy : Current → Option AddrSpace → Vm H → Option (ℕ × Option AddrSpace × Vm H)
  as_copy cur none vm = some (efault, none, vm)
  as_copy cur (some old) vm =
      let (made, w) = as_create K vm.world in
      elim made [
        | none ↦ some (enomem, none, with_world vm w)
        | some new ↦
            let (e, new', w') = copy_regions old.regions (some new) w in
            let vm' = with_world vm w' in
            if e == 0
            then (do
              (result, vm'') ← copy_page_table K old.block new.block vm'
              if result == 0 then some (0, new', vm'') else give_up cur result new' vm'')
            else give_up cur e new' vm'
      ]
