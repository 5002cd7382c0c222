-- ===== src/Fault/Written.antt =====
-- What vm_fault has in the TLB and in the page table after a miss or a hit: new_page and write_page.
use os161_virtual_memory_imp.Common.{
  ℕ, ◌/◌, ◌%◌, ◌<◌, ◌≡◌, ◌≢◌, refl, ◌⊎◌, inl, inr, true, Option, none, some, List, [], ◌∷◌, arith,
  ◌==◌, ◌&&◌, if◌then◌else◌, update, Bool-cases, eq→eqb,
}
use os161_virtual_memory_imp.Machine.{page_size, page_frame, enomem, efault}
use os161_virtual_memory_imp.Kmalloc.{World, Kmalloc, KmallocLaws}
use os161_virtual_memory_imp.AddrSpace.{Region, AddrSpace, pf_w, test_flag, as_check_valid_addr}
use os161_virtual_memory_imp.PageTable.{
  PageEntry, Vm, uint, set_entrylo, npages, find_in, replace_in, insert_page, translates,
}
use os161_virtual_memory_imp.PageTable.Counts.{refs, find_in-translates, find_in-replace}
use os161_virtual_memory_imp.PageTable.Pages.{Panics}
use os161_virtual_memory_imp.PageTable.Create.{page_of, create_page-FreshPage}
use os161_virtual_memory_imp.Fault.Cow.{private, writeable, readonwrite-Writes}
use os161_virtual_memory_imp.Fault.{fault_write, load_tlb, new_page, write_page, known_page}
use os161_virtual_memory_imp.Fault.Safety.{IsVm, referenced}

-- Writing an entry back as it is changes nothing.
replace_in_self :
    (pid : ℕ) (page : PageEntry) (es : List PageEntry)
    → find_in pid es ≡ some page
    → replace_in pid page es ≡ es
unfolding find_in replace_in
replace_in_self pid page [] h = refl
replace_in_self pid page (e ∷ es) h = ground (arith, replace_in_self pid page es)

translates-page_of :
    (block pid pagenumber valid dirty frame : ℕ)
    → valid % 2 ≡ 1
    → translates pid (page_of block pid pagenumber valid dirty frame) ≡ true
unfolding set_entrylo
translates-page_of block pid pagenumber valid dirty frame h = rw (eq→eqb pid pid refl, h)

private-translates :
    (pid : ℕ) (page : PageEntry) (i : ℕ)
    → translates pid page ≡ true
    → translates pid (private page i) ≡ true
unfolding set_entrylo
private-translates pid page i h = ground arith

module _ {H : Type 0} (vm : Vm H) (pid addr index slot : ℕ) where
  -- After success the entry that the search finds is the one that the slot of the TLB holds, for
  -- the page of `addr`. After an error the TLB and the page table are as before. The other slots
  -- and chains never change.
  abbrev pub Loaded : ℕ → Vm H → Type 0
  Loaded e vm' =
      (vm'.pagespace ≡ vm.pagespace)
      × ((s : ℕ) → slot ≢ s → vm'.tlb s ≡ vm.tlb s)
      × ((i : ℕ) → index ≢ i → vm'.chain i ≡ vm.chain i)
      × (((e ≢ 0) × (vm'.tlb slot ≡ vm.tlb slot) × (vm'.chain index ≡ vm.chain index))
          ⊎ ((e ≡ 0)
              × ((page : PageEntry) × (find_in pid (vm'.chain index) ≡ some page)
                  × (translates pid page ≡ true)
                  × (vm'.tlb slot ≡ record { hi = page_frame addr; lo = uint page.lo }))))

  unchanged : (e : ℕ) → e ≢ 0 → Loaded e vm
  unchanged e ne = (refl, (λ s h. refl), (λ i h. refl), inl (ne, refl, refl))

module _ {H : Type 0} {K : Kmalloc H} (L : KmallocLaws K) where
  -- kfree may have panicked, for books of the heap that were out of order.
  abbrev pub Loads : (vm : Vm H) (pid addr index slot : ℕ) → Option (ℕ × Vm H) → Type 0
  Loads vm pid addr index slot r =
      Panics L vm.world r
      ⊎ ((e : ℕ) × (vm' : Vm H) × (r ≡ some (e, vm')) × Loaded vm pid addr index slot e vm')

module _ {H : Type 0} {K : Kmalloc H} (L : KmallocLaws K) (vm : Vm H) (v : IsVm L vm)
    (pid addr index slot : ℕ) (within : index < npages vm.pagespace) where
  -- The search of a chain that has just been written finds the first entry of the process.
  found_written :
      (es : List PageEntry) {page : PageEntry}
      → find_in pid es ≡ some page
      → find_in pid (update vm.chain index es index) ≡ some page
  found_written es h = rw (eq→eqb index index refl) h

  found_at_head :
      (page : PageEntry) (es : List PageEntry)
      → translates pid page ≡ true
      → find_in pid (update vm.chain index (page ∷ es) index) ≡ some page
  unfolding find_in
  found_at_head page es hit = found_written (page ∷ es) (rw hit)

  pub new_page-Loads :
      (o : Option Region) → Loads L vm pid addr index slot (new_page K o pid addr index slot vm)
  unfolding new_page load_tlb insert_page
  new_page-Loads none =
      inr (efault, vm, refl, unchanged vm pid addr index slot efault (omega arith))
  new_page-Loads (some region) =
      let dirtybit : ℕ = if test_flag region.as_perms pf_w then 1 else 0 in
      elim (create_page-FreshPage L pid (addr / page_size) dirtybit vm.world v.table v.free _
        v.world) [
          | inl (stop, bad) ↦ inl (rw (stop, new_page), bad)
          | inr (inl (w', t', free', run, v', _, _)) ↦ inr (
            enomem,
            record vm { world = w' },
            rw (run, new_page),
            (refl, (λ s h. refl), (λ i h. refl), inl (omega arith, refl, refl)),
          )
          | inr (inr (w', t', free', block, i, run, fresh, above, small, clean, v', _, _, _)) ↦
              inr (
                let page = page_of block pid (addr / page_size) 1 dirtybit i in
                let hit = translates-page_of block pid (addr / page_size) 1 dirtybit i refl in
                (
                  0,
                  load_tlb addr slot page
                      (insert_page index (some page) (record vm { world = w' })),
                  rw (run, new_page),
                  (
                    refl,
                    (λ s h. ground arith),
                    (λ j h. ground arith),
                    inr (refl, (page, found_at_head page (vm.chain index) hit, hit, ground arith)),
                  ),
                ))
        ]

  module _ (page : PageEntry) (found : find_in pid (vm.chain index) ≡ some page) where
    hit : translates pid page ≡ true
    hit = find_in-translates pid page (vm.chain index) found

    -- Success with the entry rewritten to `page'` in the world `w`.
    written-Loaded :
        (page' : PageEntry) (w : World H)
        → translates pid page' ≡ true
        → Loaded vm pid addr index slot 0 (
            load_tlb addr slot page' (record vm {
              world = w;
              chain = update vm.chain index (replace_in pid page' (vm.chain index));
            }))
    unfolding load_tlb
    written-Loaded page' w hit' = (
      refl,
      (λ s h. ground arith),
      (λ j h. ground arith),
      inr (
        refl,
        (
          page',
          found_written _ (find_in-replace pid page page' (vm.chain index) found hit'),
          hit',
          ground arith,
        ),
      ),
    )

    write_page-Loads :
        (o : Option Region)
        → Loads L vm pid addr index slot (write_page o page pid addr index slot vm)
    unfolding write_page
    write_page-Loads none =
        inr (efault, vm, refl, unchanged vm pid addr index slot efault (omega arith))
    write_page-Loads (some region) = elim (Bool-cases (test_flag region.as_perms pf_w)) [
      | inr e ↦ inr (efault, vm, rw e, unchanged vm pid addr index slot efault (omega arith))
      | inl e ↦ inr (
          let c = refs (npages vm.pagespace) vm.chain in
          let chain' =
            λ (page' : PageEntry). update vm.chain index (replace_in pid page' (vm.chain index)) in
          let used = referenced L vm v pid addr index slot within page found in
          elim (readonwrite-Writes L page vm.world v.table v.free c v.world used) [
            | inl (sole, run) ↦ (
              0,
              load_tlb addr slot (writeable page) (record vm { chain = chain' (writeable page) }),
              rw (e, run),
              written-Loaded (writeable page) vm.world hit,
            )
            | inr (inl (more, full, run)) ↦ (
              enomem,
              record vm { chain = chain' page },
              rw (e, run),
              (
                refl,
                (λ s h. refl),
                (λ i h. ground arith),
                inl (
                  omega arith,
                  refl,
                  ground (arith, replace_in_self pid page (vm.chain index) found),
                ),
              ),
            )
            | inr (inr (more, (i, w', t', free', run, fresh, small, copy, others, v', _))) ↦ (
              0,
              load_tlb addr slot (private page i)
                  (record vm { world = w'; chain = chain' (private page i) }),
              rw (e, run),
              written-Loaded (private page i) w' (private-translates pid page i hit),
            )
          ])
    ]

    pub known_page-Loads :
        (space : AddrSpace) (faulttype : ℕ)
        → space.block ≡ pid
        → Loads L vm pid addr index slot (known_page space page faulttype addr index slot vm)
    unfolding known_page load_tlb as_check_valid_addr
    known_page-Loads space faulttype own =
        elim (Bool-cases ((faulttype == fault_write) && (page.lo.dirty == 0))) [
          | inl e ↦ rw (e, own) (write_page-Loads (as_check_valid_addr (some space) addr))
          | inr e ↦ inr (
            0,
            load_tlb addr slot page vm,
            rw e,
            (
              refl,
              (λ s h. ground arith),
              (λ i h. refl),
              inr (refl, (page, found, hit, ground arith)),
            ),
          )
        ]
