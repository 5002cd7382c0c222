-- ===== src/Destroy/Space.antt =====
-- as_destroy as a whole.
use os161_virtual_memory_imp.Common.{
  ℕ, ◌+◌, ◌/◌, ◌≤◌, ◌≡◌, ◌⊎◌, refl, ◌∙◌, inl, inr, ◌&&◌, Option, none, some, ◌>>=◌, List, [], ◌∷◌,
  arith, leb, ltb, if◌then◌else◌, Bool-cases,
}
use os161_virtual_memory_imp.Frames.{FrameTable}
use os161_virtual_memory_imp.Kmalloc.{World, Kmalloc, KmallocLaws}
use os161_virtual_memory_imp.AddrSpace.{Region, AddrSpace}
use os161_virtual_memory_imp.PageTable.{PageEntry, Vm, npages, entry_size}
use os161_virtual_memory_imp.PageTable.Pages.{Panics, IsWorld}
use os161_virtual_memory_imp.Fault.{Current, no_process, no_space, running}
use os161_virtual_memory_imp.Fault.Safety.{IsVm}
use os161_virtual_memory_imp.Tlb.{as_activate}
use os161_virtual_memory_imp.Destroy.{destroy_regions, as_destroy}
use os161_virtual_memory_imp.Destroy.Blocks.{is_block, blocks, region_blocks, space_blocks, Holds}
use os161_virtual_memory_imp.Destroy.Chain.{others, Frees, kfree-Frees}
use os161_virtual_memory_imp.Destroy.Rounds.{Owns, destroy_chains-Cleared}

bind_assoc :
    {A B C : Type 0} (m : Option A) (f : A → Option B) (g : B → Option C)
    → (do a ← m; x ← f a; g x) ≡ (do x ← (do a ← m; f a); g x)
bind_assoc none f g = refl
bind_assoc (some a) f g = refl

cleared-others :
    (pid n : ℕ) (chain chain' : ℕ → List PageEntry) (j : ℕ)
    → chain' j ≡ (if leb 0 j && ltb j (0 + n) then others pid (chain j) else chain j)
    → (n ≤ j → chain j ≡ [])
    → chain' j ≡ others pid (chain j)
cleared-others pid n chain chain' j e reached = elim (Bool-cases (ltb j n)) [
  | inl below ↦ ground arith
  | inr above ↦
      (let empty = reached (ground arith) in
        let same : others pid (chain j) ≡ chain j = rw empty in ground arith)
]

module _ {H : Type 0} {K : Kmalloc H} (L : KmallocLaws K) where
  destroy_regions-Frees :
      (rs : List Region) (w : World H) (t : FrameTable) (free : List ℕ) (c b : ℕ → ℕ)
      → IsWorld L w t free c
      → Holds L w.heap (λ q. region_blocks rs q + b q)
      → Frees L c b w (destroy_regions K rs w)
  unfolding destroy_regions
  destroy_regions-Frees [] w t free c b v h =
      inr (w, t, free, refl, v, (λ q. omega (arith, h q)), λ st. st)
  destroy_regions-Frees (r ∷ rs) w t free c b v h =
      elim (kfree-Frees L w t free c (λ q. region_blocks rs q + b q) r.block v
        (λ q. omega (arith, h q))) [
          | inl (stop, bad) ↦ inl (rw stop refl, bad)
          | inr (w1, t1, free1, run1, v1, h1, st1) ↦
              elim (destroy_regions-Frees rs w1 t1 free1 c b v1 h1) [
                | inl (stop, bad) ↦ inl (rw (run1) stop, λ st. bad (st1 st))
                | inr (w2, t2, free2, run2, v2, h2, st2) ↦
                    inr (w2, t2, free2, rw (run1) run2, v2, h2, λ st. st2 (st1 st))
              ]
        ]

  as_activate-IsVm : (cur : Current) (vm : Vm H) → IsVm L vm → IsVm L (as_activate cur vm)
  unfolding as_activate
  as_activate-IsVm no_process vm v = v
  as_activate-IsVm no_space vm v = v
  as_activate-IsVm (running space) vm v = record {
    table = v.table;
    free = v.free;
    world = v.world;
    room = v.room;
  }

  as_activate-chain :
      (cur : Current) (vm : Vm H) (j : ℕ) → (as_activate cur vm).chain j ≡ vm.chain j
  unfolding as_activate
  as_activate-chain no_process vm j = refl
  as_activate-chain no_space vm j = refl
  as_activate-chain (running space) vm j = refl

  as_activate-Owns :
      (cur : Current) (vm : Vm H) (b : ℕ → ℕ) → Owns L vm b → Owns L (as_activate cur vm) b
  unfolding as_activate
  as_activate-Owns no_process vm b h = h
  as_activate-Owns no_space vm b h = h
  as_activate-Owns (running space) vm b h = h

  as_activate-steady :
      (cur : Current) (vm : Vm H)
      → L.steady vm.world.heap
      → L.steady (as_activate cur vm).world.heap
  unfolding as_activate
  as_activate-steady no_process vm h = h
  as_activate-steady no_space vm h = h
  as_activate-steady (running space) vm h = h

  -- The regions and then the structure itself.
  freed_structures :
      (space : AddrSpace) (w : World H) (t : FrameTable) (free : List ℕ) (c b : ℕ → ℕ)
      → IsWorld L w t free c
      → Holds L w.heap (λ q. space_blocks space q + b q)
      → Frees L c b w (do w1 ← destroy_regions K space.regions w; K.kfree space.block w1)
  freed_structures space w t free c b v h =
      elim (destroy_regions-Frees space.regions w t free c (λ q. is_block space.block q + b q) v
        (λ q. omega (arith, h q))) [
          | inl (stop, bad) ↦ inl (rw stop refl, bad)
          | inr (w1, t1, free1, run1, v1, h1, st1) ↦
              elim (kfree-Frees L w1 t1 free1 c b space.block v1 h1) [
                | inl (stop, bad) ↦ inl (rw (run1) stop, λ st. bad (st1 st))
                | inr (w2, t2, free2, run2, v2, h2, st2) ↦
                    inr (w2, t2, free2, rw (run1) run2, v2, h2, λ st. st2 (st1 st))
              ]
        ]

  -- What as_destroy leaves, besides the blocks that `b` counts.
  abbrev pub Destroyed : Current → AddrSpace → (b : ℕ → ℕ) → Vm H → Option (Vm H) → Type 0
  Destroyed cur space b vm r =
      Panics L vm.world r
      ⊎ ((vm' : Vm H) × (r ≡ some (as_activate cur vm'))
          × (vm'.tlb ≡ vm.tlb)
          × ((j : ℕ) → (as_activate cur vm').chain j ≡ others space.block (vm.chain j))
          × IsVm L (as_activate cur vm')
          × Owns L (as_activate cur vm') b
          × (L.steady vm.world.heap → L.steady (as_activate cur vm').world.heap))

  -- On a sound state in which the page table and the address space hold their blocks of the heap
  -- once each, besides those that `b` counts, and only the chains that the hash can reach are in
  -- use, as_destroy panics only if the books of the heap are out of order. Otherwise it leaves just
  -- the entries of the other processes, in their order, in a state that is sound again: each frame
  -- that entries are left for is in use and counts just these. The blocks of the entries that are
  -- left, and those of `b`, are still in use, each held once, and books in order stay so. The TLB
  -- is flushed if a process runs.
  pub as_destroy-others :
      (cur : Current) (space : AddrSpace) (vm : Vm H) (b : ℕ → ℕ)
      → IsVm L vm
      → Owns L vm (λ q. space_blocks space q + b q)
      → ((j : ℕ) → vm.pagespace / entry_size ≤ j → vm.chain j ≡ [])
      → Destroyed cur space b vm (as_destroy K cur (some space) vm)
  unfolding as_destroy
  as_destroy-others cur space vm b v h reached =
      let pid = space.block in
      let n = vm.pagespace / entry_size in
      elim (destroy_chains-Cleared L pid (λ q. space_blocks space q + b q) n 0 vm v h
        (omega arith)) [
          | inl (stop, bad) ↦ inl (rw stop refl, bad)
          | inr (vm1, run, r) ↦
              let rest = λ (q : ℕ). b q + blocks (npages vm1.pagespace) vm1.chain q in
              let u = r.sound in
              elim (freed_structures space vm1.world u.table u.free _ rest u.world
                (λ q. omega (arith, r.owns q))) [
                  | inl (stop, bad) ↦ inl (
                    rw (run) (
                        bind_assoc (destroy_regions K space.regions vm1.world)
                          (λ w1. K.kfree pid w1)
                          (λ w'. some (as_activate cur (record vm1 { world = w' })))
                        ∙ rw stop refl),
                    λ st. bad (r.steady st),
                  )
                  | inr (w, t, free, run2, v2, h2, st2) ↦
                      let vm' = record vm1 { world = w } in
                      inr (
                        vm',
                        rw (run) (
                            bind_assoc (destroy_regions K space.regions vm1.world)
                              (λ w1. K.kfree pid w1)
                              (λ w'. some (as_activate cur (record vm1 { world = w' })))
                            ∙ rw (run2) refl),
                        r.same_tlb,
                        (λ j.
                            as_activate-chain cur vm' j
                            ∙ cleared-others pid n vm.chain vm1.chain j (r.chains j) (reached j)),
                        as_activate-IsVm cur vm'
                            (record { table = t; free = free; world = v2; room = u.room }),
                        as_activate-Owns cur vm' b h2,
                        λ st. as_activate-steady cur vm' (st2 (r.steady st)),
                      )
                ]
        ]
