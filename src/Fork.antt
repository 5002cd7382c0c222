-- ===== src/Fork.antt =====
-- copy_page_table of kern/vm/vm.c: the entries of one address space are shared with another one.
pub mod Tally
pub mod Steps
pub mod Chain
pub mod Rounds
pub mod Table
use os161_virtual_memory_imp.Common.{
  ℕ, zero, suc, ◌+◌, Bool, true, false, Option, none, some, List, [], ◌∷◌, ◌++◌, ◌==◌,
  if◌then◌else◌, ◌>>=◌, update,
}
use os161_virtual_memory_imp.Machine.{frame_to_paddr, enomem}
use os161_virtual_memory_imp.Kmalloc.{World, Kmalloc}
use os161_virtual_memory_imp.PageTable.{
  EntryLo, PageEntry, Vm, npages, hpt_hash, insert_page, create_shared_page,
}

-- The entry made read-only.
abbrev pub readonly : PageEntry → PageEntry
readonly e = record e { lo = record (e.lo) { dirty = 0 } }

abbrev pub with_world : {H : Type 0} → Vm H → World H → Vm H
with_world vm w = record vm { world = w }

-- The chain put back behind what has been inserted in front of it.
abbrev pub put_back : {H : Type 0} → ℕ → List PageEntry → Vm H → Vm H
put_back i es vm = record vm { chain = update vm.chain i (vm.chain i ++ es) }

module _ {H : Type 0} (K : Kmalloc H) (old new : ℕ) where
  -- The walk down one chain, `es` being what is left of it. The chain itself is taken out of the
  -- table while it is walked, so that what insert_page puts in front of it is found there. The
  -- result is an error number, the rest of the chain as it has been written to, and the state.
  unfoldable pub copy_chain : List PageEntry → Vm H → Option (ℕ × List PageEntry × Vm H)
  copy_chain [] vm = some (0, [], vm)
  copy_chain (e ∷ es) vm =
      let next = λ (vm' : Vm H). copy_chain es vm' in
      let skip = (do (error, es', vm') ← next vm; some (error, e ∷ es', vm')) in
      let share = (do
        index ← hpt_hash vm.pagespace new (frame_to_paddr e.pagenumber)
        (made, w) ← create_shared_page K new e.pagenumber e.lo.framenum e.lo.valid vm.world
        elim made [
          | none ↦ some (enomem, readonly e ∷ es, with_world vm w)
          | some page ↦ (do
            (error, es', vm') ← next (insert_page index (some page) (with_world vm w))
            some (error, readonly e ∷ es', vm'))
        ]) in
      if e.pid == old then share else skip

  -- The walk along the table, over the rounds that are left.
  unfoldable pub copy_chains : (rounds i : ℕ) → Vm H → Option (ℕ × Vm H)
  copy_chains zero i vm = some (0, vm)
  copy_chains (suc n) i vm =
      let next = λ (vm' : Vm H). copy_chains n (suc i) vm' in
      do
        (error, es, vm') ← copy_chain (vm.chain i) (record vm { chain = update vm.chain i [] })
        let rest = next (put_back i es vm')
        if error == 0 then rest else some (error, put_back i es vm')

  unfoldable pub copy_page_table : Vm H → Option (ℕ × Vm H)
  copy_page_table vm = copy_chains (npages vm.pagespace) 0 vm
