-- ===== src/Destroy/Rounds.antt =====
-- The loop of as_destroy over the chains.
use os161_virtual_memory_imp.Common.{
  ℕ, zero, suc, ◌+◌, ◌≤◌, ◌<◌, ◌≡◌, ◌⊎◌, refl, ◌∙◌, inl, inr, ◌&&◌, some, List, [], arith, leb, ltb,
  if◌then◌else◌, update,
}
use os161_virtual_memory_imp.Kmalloc.{World, Kmalloc, KmallocLaws}
use os161_virtual_memory_imp.PageTable.{PageEntry, Vm, npages}
use os161_virtual_memory_imp.PageTable.Counts.{refs_in, refs, refs-update}
use os161_virtual_memory_imp.PageTable.Pages.{Panics, IsWorld-ext}
use os161_virtual_memory_imp.Fault.Safety.{IsVm}
use os161_virtual_memory_imp.Destroy.{destroy_chain, destroy_chains}
use os161_virtual_memory_imp.Destroy.Blocks.{blocks_in, blocks, blocks-update, Holds}
use os161_virtual_memory_imp.Destroy.Chain.{others, destroy_chain-Clears}

module _ {H : Type 0} {K : Kmalloc H} (L : KmallocLaws K) where
  -- The page table holds its blocks, besides those that `b` counts.
  abbrev pub Owns : Vm H → (b : ℕ → ℕ) → Type 0
  Owns vm b = Holds L vm.world.heap (λ q. b q + blocks (npages vm.pagespace) vm.chain q)

  -- `n` rounds from chain `i` have led from `vm` to `vm'`.
  pub record Cleared (pid n i : ℕ) (b : ℕ → ℕ) (vm vm' : Vm H) : Type 0 where
    pub sound : IsVm L vm'
    pub owns : Owns vm' b
    pub same_size : vm'.pagespace ≡ vm.pagespace
    pub same_tlb : vm'.tlb ≡ vm.tlb
    pub chains :
        (j : ℕ)
        → vm'.chain j ≡ (if leb i j && ltb j (i + n) then others pid (vm.chain j) else vm.chain j)
    pub steady : L.steady vm.world.heap → L.steady vm'.world.heap

  module _ (i : ℕ) (vm : Vm H) (within : i < npages vm.pagespace) (es : List PageEntry) where
    swap-refs :
        (g : ℕ)
        → refs (npages vm.pagespace) (update vm.chain i es) g
          ≡ refs (npages vm.pagespace) (update vm.chain i []) g + refs_in g es
    swap-refs g = omega (
      arith,
      refs-update (npages vm.pagespace) vm.chain i es g within,
      refs-update (npages vm.pagespace) vm.chain i [] g within,
    )

    swap-blocks :
        (q : ℕ)
        → blocks (npages vm.pagespace) (update vm.chain i es) q
          ≡ blocks (npages vm.pagespace) (update vm.chain i []) q + blocks_in es q
    swap-blocks q = omega (
      arith,
      blocks-update (npages vm.pagespace) vm.chain i es q within,
      blocks-update (npages vm.pagespace) vm.chain i [] q within,
    )

  module _ (pid : ℕ) (b : ℕ → ℕ) (i : ℕ) (vm : Vm H) (v : IsVm L vm) (h : Owns vm b)
      (within : i < npages vm.pagespace) where
    one_chain :
        Panics L vm.world (destroy_chain K pid (vm.chain i) vm.world)
        ⊎ ((w : World H) × (destroy_chain K pid (vm.chain i) vm.world
              ≡ some (others pid (vm.chain i), w))
            × IsVm L (record vm { world = w; chain = update vm.chain i (others pid (vm.chain i)) })
            × Owns (record vm { world = w; chain = update vm.chain i (others pid (vm.chain i)) }) b
            × (L.steady vm.world.heap → L.steady w.heap))
    one_chain =
        let n = npages vm.pagespace in
        let c = refs n (update vm.chain i []) in
        let d = λ (q : ℕ). b q + blocks n (update vm.chain i []) q in
        elim (destroy_chain-Clears L pid (vm.chain i) vm.world v.table v.free c d
          (IsWorld-ext L v.world _ (λ g. omega (arith, refs-update n vm.chain i [] g within)))
          (λ q. omega (arith, h q, blocks-update n vm.chain i [] q within))) [
            | inl stop ↦ inl stop
            | inr (w, t, free, run, u, k, steady) ↦ inr (
              w,
              run,
              record {
                table = t;
                free = free;
                world = IsWorld-ext L u _ (swap-refs i vm within (others pid (vm.chain i)));
                room = v.room;
              },
              (λ q. omega (arith, k q, swap-blocks i vm within (others pid (vm.chain i)) q)),
              steady,
            )
          ]

  pub destroy_chains-Cleared :
      (pid : ℕ) (b : ℕ → ℕ) (n i : ℕ) (vm : Vm H)
      → IsVm L vm
      → Owns vm b
      → i + n ≤ npages vm.pagespace
      → Panics L vm.world (destroy_chains K pid n i vm)
        ⊎ ((vm' : Vm H) × (destroy_chains K pid n i vm ≡ some vm') × Cleared pid n i b vm vm')
  unfolding destroy_chains
  destroy_chains-Cleared pid b zero i vm v h fits = inr (
    vm,
    refl,
    record {
      sound = v;
      owns = h;
      same_size = refl;
      same_tlb = refl;
      chains = λ j. ground arith;
      steady = λ st. st;
    },
  )
  destroy_chains-Cleared pid b (suc n) i vm v h fits =
      let within : i < npages vm.pagespace = omega arith in
      elim (one_chain pid b i vm v h within) [
        | inl (stop, bad) ↦ inl (rw stop refl, bad)
        | inr (w, run, v1, h1, st) ↦
            let vm1 = record vm {
              world = w;
              chain = update vm.chain i (others pid (vm.chain i));
            } in
            elim (destroy_chains-Cleared pid b n (suc i) vm1 v1 h1 (omega arith)) [
              | inl (stop, bad) ↦ inl (rw (run) stop, λ steady. bad (st steady))
              | inr (vm', run', r) ↦ inr (
                vm',
                rw run run',
                record {
                  sound = r.sound;
                  owns = r.owns;
                  same_size = r.same_size;
                  same_tlb = r.same_tlb;
                  chains = λ j. r.chains j ∙ ground arith;
                  steady = λ steady. r.steady (st steady);
                },
              )
            ]
      ]
