-- ===== src/Destroy.antt =====
-- as_destroy of kern/vm/addrspace.c: the pages, the regions and the structure of an address space
-- are given back.
pub mod Blocks
pub mod Chain
pub mod Rounds
pub mod Space
use os161_virtual_memory_imp.Common.{
  ℕ, zero, suc, ◌/◌, Option, none, some, List, [], ◌∷◌, ◌==◌, if◌then◌else◌, ◌>>=◌, update,
}
use os161_virtual_memory_imp.Machine.{frame_to_paddr, paddr_to_kvaddr}
use os161_virtual_memory_imp.Frames.{free_kpages}
use os161_virtual_memory_imp.Kmalloc.{World, Kmalloc}
use os161_virtual_memory_imp.AddrSpace.{Region, AddrSpace}
use os161_virtual_memory_imp.PageTable.{EntryLo, PageEntry, Vm, entry_size}
use os161_virtual_memory_imp.Fault.{Current}
use os161_virtual_memory_imp.Tlb.{as_activate}

module _ {H : Type 0} (K : Kmalloc H) where
  -- The frame of an entry, and then the entry itself, are freed.
  unfoldable pub free_page : PageEntry → World H → Option (World H)
  free_page e w = do
    fr ← free_kpages (paddr_to_kvaddr (frame_to_paddr e.lo.framenum)) w.frames
    K.kfree e.block (record w { frames = fr })

  -- The walk down one chain. The entries of `pid` are unlinked: what is left is the result.
  unfoldable pub destroy_chain :
      (pid : ℕ) → List PageEntry → World H → Option (List PageEntry × World H)
  destroy_chain pid [] w = some ([], w)
  destroy_chain pid (e ∷ es) w =
      let next = λ (w' : World H). destroy_chain pid es w' in
      let unlink = (do w' ← free_page e w; next w') in
      let keep = (do (es', w') ← next w; some (e ∷ es', w')) in
      if e.pid == pid then unlink else keep

  -- The walk along the table, over the rounds that are left.
  unfoldable pub destroy_chains : (pid : ℕ) → (rounds i : ℕ) → Vm H → Option (Vm H)
  destroy_chains pid zero i vm = some vm
  destroy_chains pid (suc n) i vm =
      let next = λ (vm' : Vm H). destroy_chains pid n (suc i) vm' in
      do
        (es, w) ← destroy_chain pid (vm.chain i) vm.world
        next (record vm { world = w; chain = update vm.chain i es })

  unfoldable pub destroy_regions : List Region → World H → Option (World H)
  destroy_regions [] w = some w
  destroy_regions (r ∷ rs) w = do w' ← K.kfree r.block w; destroy_regions rs w'

  -- `cur` says what proc_getas() is at the end.
  unfoldable pub as_destroy : Current → Option AddrSpace → Vm H → Option (Vm H)
  as_destroy cur none vm = some vm
  as_destroy cur (some space) vm = do
    vm' ← destroy_chains space.block (vm.pagespace / entry_size) 0 vm
    w ← destroy_regions space.regions vm'.world
    w' ← K.kfree space.block w
    some (as_activate cur (record vm' { world = w' }))
