-- ===== src/Fault/Safety.antt =====
-- vm_fault keeps the page table and the frame table in step.
use Prim.Native.Nat.{bit_xor}
use os161_virtual_memory_imp.Common.{
  ◌≢◌, ◌⊎◌, false, subst, ℕ, ◌+◌, ◌/◌, ◌%◌, ◌^◌, ◌≤◌, ◌<◌, ◌≡◌, refl, sym, ◌∙◌, inl, inr, not,
  Option, none, some, List, ◌∷◌, arith, ◌==◌, ◌&&◌, ◌||◌, if◌then◌else◌, update, Bool-cases,
  Option-cases, ne→eqb,
}
use os161_virtual_memory_imp.Machine.{page_size, page_frame, enomem, efault, einval}
use os161_virtual_memory_imp.Frames.{FrameTable}
use os161_virtual_memory_imp.Kmalloc.{World, Kmalloc, KmallocLaws}
use os161_virtual_memory_imp.AddrSpace.{Region, AddrSpace, pf_w, test_flag, as_check_valid_addr}
use os161_virtual_memory_imp.PageTable.{
  PageEntry, TlbEntry, Vm, set_entrylo, npages, entry_size, hpt_hash, find_page, find_in,
  replace_in, insert_page,
}
use os161_virtual_memory_imp.PageTable.Counts.{
  refers, refs, refs-update, refs_in-le-refs, refs_in-replace, refers-le-refs_in,
}
use os161_virtual_memory_imp.PageTable.Pages.{Panics, IsWorld, IsWorld-ext}
use os161_virtual_memory_imp.PageTable.Create.{page_of, create_page-FreshPage}
use os161_virtual_memory_imp.Fault.Cow.{private, writeable, readonwrite-Writes}
use os161_virtual_memory_imp.Fault.{
  Current, no_process, no_space, running, fault_read, fault_write, fault_readonly, load_tlb,
  new_page, write_page, known_page, fault_at, fault_in, vm_fault,
}

module _ {H : Type 0} {K : Kmalloc H} (L : KmallocLaws K) where
  -- The frame table is sound; each frame that page table entries refer to is in use, is not the
  -- heap's, and counts just these entries; and the table is large enough for the hash.
  pub record IsVm (vm : Vm H) : Type 0 where
    pub table : FrameTable
    pub free : List ℕ
    pub world : IsWorld L vm.world table free (refs (npages vm.pagespace) vm.chain)
    pub room : entry_size ≤ vm.pagespace

  -- The operation leaves a sound state, and the books of the heap in order if they were so and
  -- memory has not run out; or kfree has panicked, for books that were out of order.
  abbrev pub Keeps : Vm H → Option (ℕ × Vm H) → Type 0
  Keeps vm r =
      Panics L vm.world r
      ⊎ ((e : ℕ) × (vm' : Vm H) × (r ≡ some (e, vm'))
          × IsVm vm'
          × (e ≢ enomem → L.steady vm.world.heap → L.steady vm'.world.heap))

pub hpt_hash-lt :
    (pagespace pid addr : ℕ)
    → entry_size ≤ pagespace
    → (index : ℕ) × (hpt_hash pagespace pid addr ≡ some index) × (index < npages pagespace)
unfolding hpt_hash
hpt_hash-lt pagespace pid addr room = (
  bit_xor pid (addr / page_size) % (pagespace / entry_size),
  rw (ne→eqb (pagespace / entry_size) 0 (omega arith)),
  grind arith,
)

-- The hash reaches the first quarter of the chains only.
pub hpt_hash-reached :
    (pagespace pid addr index : ℕ)
    → entry_size ≤ pagespace
    → hpt_hash pagespace pid addr ≡ some index
    → index < pagespace / entry_size
unfolding hpt_hash
hpt_hash-reached pagespace pid addr index room hash =
    let some_chains : (pagespace / entry_size == 0) ≡ false =
      ne→eqb (pagespace / entry_size) 0 (omega arith) in
    let same : ◌≡◌ {A = Option ℕ} (some (bit_xor pid (addr / page_size) % (pagespace / entry_size)))
        (some index) =
      rw (some_chains) at hash in
    let eq : bit_xor pid (addr / page_size) % (pagespace / entry_size) ≡ index = cc in
    subst (λ x. x < pagespace / entry_size) eq (grind arith)

pub hpt_hash-within :
    (pagespace pid addr index : ℕ)
    → entry_size ≤ pagespace
    → hpt_hash pagespace pid addr ≡ some index
    → index < npages pagespace
hpt_hash-within pagespace pid addr index room hash =
    let (i, e, within) = hpt_hash-lt pagespace pid addr room in
    let same : ◌≡◌ {A = Option ℕ} (some i) (some index) = sym e ∙ hash in
    let eq : i ≡ index = cc in rw eq at within

refers-page_of :
    (block pid pagenumber valid dirty i f : ℕ)
    → i < 131072
    → refers f (page_of block pid pagenumber valid dirty i) ≡ (if i == f then 1 else 0)
unfolding set_entrylo
refers-page_of block pid pagenumber valid dirty i f small =
    let e : i % 2 ^ 20 ≡ i = omega arith in rw e

module _ {H : Type 0} {K : Kmalloc H} (L : KmallocLaws K) (vm : Vm H) (v : IsVm L vm)
    (pid addr index slot : ℕ) (within : index < npages vm.pagespace) where
  -- A new state with the counts `d`, if these are the references of its chains.
  store_IsVm :
      (w : World H) (t : FrameTable) (free : List ℕ) (es : List PageEntry) (d : ℕ → ℕ)
      (tlb : ℕ → TlbEntry)
      → IsWorld L w t free d
      → ((f : ℕ) → refs (npages vm.pagespace) (update vm.chain index es) f ≡ d f)
      → IsVm L (record vm { world = w; chain = update vm.chain index es; tlb = tlb })
  store_IsVm w t free es d tlb u same = record {
    table = t;
    free = free;
    world = IsWorld-ext L u _ same;
    room = v.room;
  }

  new_page-Keeps : (o : Option Region) → Keeps L vm (new_page K o pid addr index slot vm)
  unfolding new_page load_tlb insert_page
  new_page-Keeps none = inr (efault, vm, refl, v, λ ne st. st)
  new_page-Keeps (some region) =
      let dirtybit : ℕ = if test_flag region.as_perms pf_w then 1 else 0 in
      let c = refs (npages vm.pagespace) vm.chain in
      elim (create_page-FreshPage L pid (addr / page_size) dirtybit vm.world v.table v.free _
        v.world) [
          | inl (stop, bad) ↦ inl (rw (stop, new_page), bad)
          | inr (inl (w', t', free', run, v', others, why)) ↦ inr (
            enomem,
            record vm { world = w' },
            rw (run, new_page),
            record { table = t'; free = free'; world = v'; room = v.room },
            λ ne. absurd (ne refl),
          )
          | inr (inr (w', t', free', block, i, run, fresh, above, small, clean, v', _, _, steady)) ↦
              inr (
                let page = page_of block pid (addr / page_size) 1 dirtybit i in
                (
                  0,
                  load_tlb addr slot page
                      (insert_page index (some page) (record vm { world = w' })),
                  rw (run, new_page),
                  store_IsVm w' t' free' (page ∷ vm.chain index) (update c i 1) _ v' (λ f. ground (
                    arith,
                    refs-update (npages vm.pagespace) vm.chain index (page ∷ vm.chain index) f
                        within,
                    refers-page_of block pid (addr / page_size) 1 dirtybit i f small,
                  )),
                  λ ne. steady,
                ))
        ]

  module _ (page : PageEntry) (found : find_in pid (vm.chain index) ≡ some page) where
    pub referenced : 0 < refs (npages vm.pagespace) vm.chain page.lo.framenum
    referenced = omega (
      arith,
      refers-le-refs_in pid page (vm.chain index) found,
      refs_in-le-refs (npages vm.pagespace) vm.chain index page.lo.framenum within,
    )

    -- The references after the entry has been written to.
    replaced :
        (page' : PageEntry) (f : ℕ)
        → let c = refs (npages vm.pagespace) vm.chain in
          refs
              (npages vm.pagespace)
              (update vm.chain index (replace_in pid page' (vm.chain index)))
              f
            + refers f page
          ≡ c f + refers f page'
    replaced page' f = omega (
      arith,
      refs-update (npages vm.pagespace) vm.chain index (replace_in pid page' (vm.chain index)) f
          within,
      refs_in-replace pid page page' (vm.chain index) f found,
    )

    write_page-Keeps : (o : Option Region) → Keeps L vm (write_page o page pid addr index slot vm)
    unfolding write_page load_tlb
    write_page-Keeps none = inr (efault, vm, refl, v, λ ne st. st)
    write_page-Keeps (some region) = elim (Bool-cases (test_flag region.as_perms pf_w)) [
      | inr e ↦ inr (efault, vm, rw e, v, λ ne st. st)
      | inl e ↦ inr (
          let c = refs (npages vm.pagespace) vm.chain in
          let chain' =
            λ (page' : PageEntry). update vm.chain index (replace_in pid page' (vm.chain index)) in
          elim (readonwrite-Writes L page vm.world v.table v.free c v.world referenced) [
            | inl (sole, run) ↦ (
              0,
              load_tlb addr slot (writeable page) (record vm { chain = chain' (writeable page) }),
              rw (e, run),
              store_IsVm vm.world v.table v.free _ c _ v.world
                  (λ f. ground (arith, replaced (writeable page) f)),
              λ ne st. st,
            )
            | inr (inl (more, full, run)) ↦ (
              enomem,
              record vm { chain = chain' page },
              rw (e, run),
              store_IsVm vm.world v.table v.free _ c _ v.world
                  (λ f. omega (arith, replaced page f)),
              λ ne st. st,
            )
            | inr (inr (more, (i, w', t', free', run, fresh, small, copy, others, v', same))) ↦ (
              0,
              load_tlb addr slot (private page i)
                  (record vm { world = w'; chain = chain' (private page i) }),
              rw (e, run),
              store_IsVm w' t' free' _ _ _ v' (λ f. ground (
                arith,
                replaced (private page i) f,
                refers-page_of page.block page.pid page.pagenumber 1 1 i f small,
              )),
              λ ne st. subst L.steady (sym same) st,
            )
          ])
    ]

    known_page-Keeps :
        (space : AddrSpace) (faulttype : ℕ)
        → space.block ≡ pid
        → Keeps L vm (known_page space page faulttype addr index slot vm)
    unfolding known_page load_tlb as_check_valid_addr
    known_page-Keeps space faulttype own =
        elim (Bool-cases ((faulttype == fault_write) && (page.lo.dirty == 0))) [
          | inl e ↦ rw (e, own) (write_page-Keeps (as_check_valid_addr (some space) addr))
          | inr e ↦ inr (
            0,
            load_tlb addr slot page vm,
            rw e,
            record { table = v.table; free = v.free; world = v.world; room = v.room },
            λ ne st. st,
          )
        ]

module _ {H : Type 0} {K : Kmalloc H} (L : KmallocLaws K) (vm : Vm H) (v : IsVm L vm)
    (faulttype addr slot : ℕ) where
  fault_in-Keeps : (space : AddrSpace) → Keeps L vm (fault_in K space faulttype addr slot vm)
  unfolding fault_in fault_at find_page
  fault_in-Keeps space =
      let (index, hash, within) = hpt_hash-lt vm.pagespace space.block (page_frame addr) v.room in
      elim (Option-cases (find_in space.block (vm.chain index))) [
        | inl e ↦
            rw (hash, fault_in)
              (rw (e, fault_at)
                (new_page-Keeps L vm v space.block addr index slot within
                  (as_check_valid_addr (some space) addr)))
        | inr (page, e) ↦
            rw (hash, fault_in)
              (rw (e, fault_at)
                (known_page-Keeps L vm v space.block addr index slot within page e space faulttype
                  refl))
      ]

  current :
      (cur : Current)
      → Keeps L vm (elim cur [
        | no_process ↦ some (efault, vm)
        | no_space ↦ some (efault, vm)
        | running space ↦ fault_in K space faulttype addr slot vm
      ])
  current no_process = inr (efault, vm, refl, v, λ ne st. st)
  current no_space = inr (efault, vm, refl, v, λ ne st. st)
  current (running space) = fault_in-Keeps space

  -- On a sound state vm_fault panics only if the books of the heap are out of order. Otherwise it
  -- returns an error number and a state that is sound again, whatever the fault and whoever runs: a
  -- frame that a page uses is not on the free list or in the kernel heap, and its count is the
  -- number of page table entries that refer to it. Unless it returns ENOMEM, books that were in
  -- order are so again.
  pub vm_fault-Keeps : (cur : Current) → Keeps L vm (vm_fault K cur faulttype addr slot vm)
  unfolding vm_fault
  vm_fault-Keeps cur = elim (Bool-cases (faulttype == fault_readonly)) [
    | inl e ↦ inr (efault, vm, rw e, v, λ ne st. st)
    | inr e ↦ elim (Bool-cases (not (faulttype == fault_read || faulttype == fault_write))) [
      | inl e' ↦ inr (einval, vm, rw (e, e'), v, λ ne st. st)
      | inr e' ↦ rw (e, e', vm_fault) (current cur)
    ]
  ]
