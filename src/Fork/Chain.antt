-- ===== src/Fork/Chain.antt =====
-- The walk of copy_page_table over one chain.
use os161_virtual_memory_imp.Common.{
  ℕ, ◌+◌, ◌≤◌, ◌<◌, ◌≡◌, ◌≢◌, refl, inl, inr, true, List, [], ◌∷◌, arith, ◌==◌, Bool-cases,
}
use os161_virtual_memory_imp.Machine.{frame_to_paddr, enomem}
use os161_virtual_memory_imp.Frames.{FrameTable}
use os161_virtual_memory_imp.Kmalloc.{Kmalloc, KmallocLaws}
use os161_virtual_memory_imp.PageTable.{PageEntry, Vm, entry_size, insert_page}
use os161_virtual_memory_imp.PageTable.Counts.{refers}
use os161_virtual_memory_imp.PageTable.Pages.{IsWorld, IsWorld-ext}
use os161_virtual_memory_imp.PageTable.Create.{create_shared_page-SharedPage}
use os161_virtual_memory_imp.Fault.Safety.{hpt_hash-lt, hpt_hash-reached}
use os161_virtual_memory_imp.Fork.{readonly, with_world, copy_chain}
use os161_virtual_memory_imp.Fork.Steps.{
  held, shared_entry, inserted_in, shift, skip_step, no_memory, inserted-held, share_step, Walks,
}

module _ {H : Type 0} {K : Kmalloc H} (L : KmallocLaws K) (old new : ℕ) (apart : old ≢ new) where
  share_Walks :
      (vm : Vm H) (t : FrameTable) (free : List ℕ) (k : ℕ → ℕ) (e : PageEntry) (es : List PageEntry)
      → entry_size ≤ vm.pagespace
      → IsWorld L vm.world t free (held vm k (e ∷ es))
      → (e.pid == old) ≡ true
      → ((vm1 : Vm H) (t1 : FrameTable) (free1 : List ℕ) (k1 : ℕ → ℕ)
          → entry_size ≤ vm1.pagespace
          → IsWorld L vm1.world t1 free1 (held vm1 k1 es)
          → Walks L old new apart vm1 k1 es (copy_chain K old new es vm1))
      → Walks L old new apart vm k (e ∷ es) (copy_chain K old new (e ∷ es) vm)
  unfolding copy_chain insert_page
  share_Walks vm t free k e es room v own ih =
      let f = e.lo.framenum in
      let c = held vm k (e ∷ es) in
      let p : 0 < c f = ground arith in
      let small : f < 131072 = omega (arith, (v.mapped f p).within, v.frames.sound.small) in
      let (index, hash, within) = hpt_hash-lt vm.pagespace new (frame_to_paddr e.pagenumber) room in
      let near = hpt_hash-reached vm.pagespace new (frame_to_paddr e.pagenumber) index room hash in
      elim (create_shared_page-SharedPage L new e.pagenumber f e.lo.valid vm.world t free c v p) [
        | inl (w, t', free', run, v', same) ↦ (
          enomem,
          readonly e ∷ es,
          with_world vm w,
          rw (own, hash) (rw run),
          no_memory L old new apart vm k e es w t' free' v' same,
        )
        | inr (w, t', free', block, run, v', fresh, now) ↦
            (let vm1 = inserted_in vm index (shared_entry block new e) w in
              let k1 = λ (g : ℕ). k g + refers g (readonly e) in
              let v1 =
                IsWorld-ext L v' (held vm1 k1 es)
                  (inserted-held L old new apart vm k e es index block within near small own w) in
              let (error, es', vm', run', walked) = ih vm1 t' free' k1 room v1 in
              (
                error,
                readonly e ∷ es',
                vm',
                rw (own, hash) (rw run (rw run')),
                share_step L old new apart vm k e es index block within near small own w es' error
                    vm' fresh now walked,
              ))
      ]

  -- The walk never faults, and leaves frames and entries in step, also when memory runs out.
  pub copy_chain-Walks :
      (es : List PageEntry) (vm : Vm H) (t : FrameTable) (free : List ℕ) (k : ℕ → ℕ)
      → entry_size ≤ vm.pagespace
      → IsWorld L vm.world t free (held vm k es)
      → Walks L old new apart vm k es (copy_chain K old new es vm)
  unfolding copy_chain
  copy_chain-Walks [] vm t free k room v = (
    0,
    [],
    vm,
    refl,
    record {
      table = t;
      free = free;
      same_size = refl;
      same_tlb = λ s. refl;
      world = v;
      gained = λ z pn f. omega arith;
      kept_rest = λ pn f. refl;
      kept_chain = λ j pn f. refl;
      protected = λ z. tt;
      still_protected = λ j h. h;
      holds = λ b h. h;
      reached = λ j far empty. empty;
      ended = λ none. refl;
    },
  )
  copy_chain-Walks (e ∷ es) vm t free k room v = elim (Bool-cases (e.pid == old)) [
    | inl own ↦ share_Walks vm t free k e es room v own (copy_chain-Walks es)
    | inr other ↦
        (let (error, es', vm', run, walked) =
            copy_chain-Walks es vm t free (λ g. k g + refers g e) room
              (IsWorld-ext L v _ (shift L old new apart vm k e e es refl)) in
          (
            error,
            e ∷ es',
            vm',
            rw other (rw run),
            skip_step L old new apart vm k e es es' error vm' other walked,
          ))
  ]
