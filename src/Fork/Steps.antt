-- ===== src/Fork/Steps.antt =====
-- One entry of a chain, in the walk of copy_page_table: what each way to treat it leaves.
use os161_virtual_memory_imp.Common.{
  ℕ, suc, ◌+◌, ◌%◌, ◌^◌, ◌≤◌, ◌<◌, ◌≡◌, ◌≢◌, refl, sym, ◌∙◌, inl, inr, true, false, ◌/◌, Option,
  some, List, [], ◌∷◌, All, arith, ◌==◌, if◌then◌else◌, update, Bool-cases, ne→eqb, eq→eqb, eqb→eq,
}
use os161_virtual_memory_imp.Machine.{enomem}
use os161_virtual_memory_imp.Frames.{FrameTable}
use os161_virtual_memory_imp.Kmalloc.{World, Kmalloc, KmallocLaws}
use os161_virtual_memory_imp.PageTable.{PageEntry, Vm, npages, entry_size, set_entrylo, insert_page}
use os161_virtual_memory_imp.PageTable.Counts.{refers, refs_in, refs, refs-update}
use os161_virtual_memory_imp.PageTable.Pages.{IsWorld, IsWorld-ext}
use os161_virtual_memory_imp.PageTable.Create.{page_of}
use os161_virtual_memory_imp.Destroy.Blocks.{
  is_block, blocks_in, blocks, blocks-update, Holds, Holds-ext, Holds-same, Holds-new,
}
use os161_virtual_memory_imp.Fork.{readonly, with_world}
use os161_virtual_memory_imp.Fork.Tally.{maps, tally_in, tally, tally-update}

-- The references from the table, from a part `k` of a chain, and from the rest `es` of it.
abbrev pub held : {H : Type 0} → Vm H → (k : ℕ → ℕ) → List PageEntry → ℕ → ℕ
held vm k es g = refs (npages vm.pagespace) vm.chain g + k g + refs_in g es

abbrev pub mapped : {H : Type 0} → Vm H → List PageEntry → (pid pn f : ℕ) → ℕ
mapped vm es pid pn f = tally (npages vm.pagespace) vm.chain pid pn f + tally_in pid pn f es

-- The blocks of the table, those of the rest of a chain, and those that `b` counts.
abbrev pub stock : {H : Type 0} → Vm H → List PageEntry → (b : ℕ → ℕ) → ℕ → ℕ
stock vm es b q = blocks (npages vm.pagespace) vm.chain q + (blocks_in es q + b q)

-- The new process's entry for what `e` maps.
abbrev pub shared_entry : (block new : ℕ) → PageEntry → PageEntry
shared_entry block new e = page_of block new e.pagenumber e.lo.valid 0 e.lo.framenum

abbrev pub inserted_in : {H : Type 0} → Vm H → (index : ℕ) → PageEntry → World H → Vm H
inserted_in vm index page w = insert_page index (some page) (with_world vm w)

-- One more reference to `f`.
bump : (c : ℕ → ℕ) (f g : ℕ) → c g + (if f == g then 1 else 0) ≡ update c f (suc (c f)) g
bump c f g = elim (Bool-cases (f == g)) [
  | inl e ↦ rw (e, eqb→eq f g e) (omega arith)
  | inr e ↦ rw e (omega arith)
]

-- The entry is not one of the process, or may not be written.
abbrev pub ReadonlyFor : ℕ → PageEntry → Type 0
ReadonlyFor pid e = (e.pid == pid) ≡ true → e.lo.dirty ≡ 0

module _ {H : Type 0} {K : Kmalloc H} (L : KmallocLaws K) (old new : ℕ) (apart : old ≢ new) where
  -- After the walk the frames are in step with the entries again. On success each mapping of the
  -- old process has become one of the new process besides, and none has been lost.
  pub record Walked (vm : Vm H) (k : ℕ → ℕ) (es : List PageEntry) (error : ℕ) (es' : List PageEntry)
      (vm' : Vm H) : Type 0 where
    pub table : FrameTable
    pub free : List ℕ
    pub same_size : vm'.pagespace ≡ vm.pagespace
    pub same_tlb : (s : ℕ) → vm'.tlb s ≡ vm.tlb s
    pub world : IsWorld L vm'.world table free (held vm' k es')
    pub gained :
        error ≡ 0
        → (pn f : ℕ) → mapped vm' es' new pn f ≡ mapped vm es new pn f + tally_in old pn f es
    pub kept_rest : (pn f : ℕ) → tally_in old pn f es' ≡ tally_in old pn f es
    pub kept_chain : (j pn f : ℕ) → tally_in old pn f (vm'.chain j) ≡ tally_in old pn f (vm.chain j)
    pub protected : error ≡ 0 → All (ReadonlyFor old) es'
    pub still_protected :
        (j : ℕ) → All (ReadonlyFor old) (vm.chain j) → All (ReadonlyFor old) (vm'.chain j)
    -- The blocks of the heap, besides those that `b` counts.
    pub holds :
        (b : ℕ → ℕ)
        → Holds L vm.world.heap (stock vm es b)
        → Holds L vm'.world.heap (stock vm' es' b)
    pub reached : (j : ℕ) → vm.pagespace / entry_size ≤ j → vm.chain j ≡ [] → vm'.chain j ≡ []
    pub ended : es ≡ [] → es' ≡ []

  abbrev pub Walks : Vm H → (ℕ → ℕ) → List PageEntry → Option (ℕ × List PageEntry × Vm H) → Type 0
  Walks vm k es r =
      (error : ℕ) × (es' : List PageEntry) × (vm' : Vm H) × (r ≡ some (error, es', vm'))
      × Walked vm k es error es' vm'

  -- An entry that is passed by, or that has been shared already, goes over to the part `k`.
  pub shift :
      (vm : Vm H) (k : ℕ → ℕ) (e e' : PageEntry) (es : List PageEntry)
      → e'.lo.framenum ≡ e.lo.framenum
      → (g : ℕ) → held vm (λ g. k g + refers g e') es g ≡ held vm k (e ∷ es) g
  shift vm k e e' es same g = ground arith

  pub skip_step :
      (vm : Vm H) (k : ℕ → ℕ) (e : PageEntry) (es es' : List PageEntry) (error : ℕ) (vm' : Vm H)
      → (e.pid == old) ≡ false
      → Walked vm (λ g. k g + refers g e) es error es' vm'
      → Walked vm k (e ∷ es) error (e ∷ es') vm'
  skip_step vm k e es es' error vm' other ih = record {
    table = ih.table;
    free = ih.free;
    same_size = ih.same_size;
    same_tlb = ih.same_tlb;
    world = IsWorld-ext L ih.world _ (λ g. omega arith);
    gained = λ z pn f. ground (arith, ih.gained z pn f);
    kept_rest = λ pn f. omega (arith, ih.kept_rest pn f);
    kept_chain = ih.kept_chain;
    protected = λ z. ((λ own. cc), ih.protected z);
    still_protected = ih.still_protected;
    holds = λ b h q.
        omega (arith, ih.holds (λ q. is_block e.block q + b q) (λ q. omega (arith, h q)) q);
    reached = ih.reached;
    ended = λ none. absurd cc;
  }

  pub no_memory :
      (vm : Vm H) (k : ℕ → ℕ) (e : PageEntry) (es : List PageEntry) (w : World H) (t : FrameTable)
      (free : List ℕ)
      → IsWorld L w t free (held vm k (e ∷ es))
      → ((q : ℕ) → L.live w.heap q ≡ L.live vm.world.heap q)
      → Walked vm k (e ∷ es) enomem (readonly e ∷ es) (with_world vm w)
  no_memory vm k e es w t free v same = record {
    table = t;
    free = free;
    same_size = refl;
    same_tlb = λ s. refl;
    world = v;
    gained = λ z pn f. absurd (omega arith);
    kept_rest = λ pn f. refl;
    kept_chain = λ j pn f. refl;
    protected = λ z. absurd (omega arith);
    still_protected = λ j h. h;
    holds = λ b h. Holds-same L vm.world.heap w.heap (stock vm (e ∷ es) b) h same;
    reached = λ j far empty. empty;
    ended = λ none. absurd cc;
  }

  module _ (vm : Vm H) (k : ℕ → ℕ) (e : PageEntry) (es : List PageEntry) (index block : ℕ)
      (within : index < npages vm.pagespace) (near : index < vm.pagespace / entry_size)
      (small : e.lo.framenum < 131072) (own : (e.pid == old) ≡ true) where
    shared-refers : (g : ℕ) → refers g (shared_entry block new e) ≡ refers g e
    unfolding set_entrylo
    shared-refers g = let cut : e.lo.framenum % 2 ^ 20 ≡ e.lo.framenum = omega arith in rw cut

    shared-maps_new : (pn f : ℕ) → maps new pn f (shared_entry block new e) ≡ maps old pn f e
    unfolding set_entrylo
    shared-maps_new pn f =
        let cut : e.lo.framenum % 2 ^ 20 ≡ e.lo.framenum = omega arith in
        rw (cut, own, eq→eqb new new refl)

    shared-maps_old : (pn f : ℕ) → maps old pn f (shared_entry block new e) ≡ 0
    unfolding set_entrylo
    shared-maps_old pn f = rw (ne→eqb new old (λ h. apart (sym h)))

    inserted-refs :
        (w : World H) (g : ℕ)
        → refs (npages vm.pagespace) (inserted_in vm index (shared_entry block new e) w).chain g
          ≡ refs (npages vm.pagespace) vm.chain g + refers g (shared_entry block new e)
    unfolding insert_page
    inserted-refs w g = omega (
      arith,
      refs-update (npages vm.pagespace) vm.chain index (shared_entry block new e ∷ vm.chain index) g
          within,
    )

    inserted-tally :
        (w : World H) (pid pn f : ℕ)
        → tally
            (npages vm.pagespace)
            (inserted_in vm index (shared_entry block new e) w).chain
            pid
            pn
            f
          ≡ tally (npages vm.pagespace) vm.chain pid pn f + maps pid pn f (shared_entry block new e)
    unfolding insert_page
    inserted-tally w pid pn f = omega (
      arith,
      tally-update pid pn f (npages vm.pagespace) vm.chain index
          (shared_entry block new e ∷ vm.chain index) within,
    )

    inserted-tally_in :
        (w : World H) (j pn f : ℕ)
        → tally_in old pn f ((inserted_in vm index (shared_entry block new e) w).chain j)
          ≡ tally_in old pn f (vm.chain j)
    unfolding insert_page
    inserted-tally_in w j pn f = elim (Bool-cases (index == j)) [
      | inl hit ↦ rw (hit, eqb→eq index j hit) (omega (arith, shared-maps_old pn f))
      | inr miss ↦ rw miss
    ]

    inserted-protected :
        (w : World H) (j : ℕ)
        → All (ReadonlyFor old) (vm.chain j)
        → All (ReadonlyFor old) ((inserted_in vm index (shared_entry block new e) w).chain j)
    unfolding insert_page set_entrylo
    inserted-protected w j h = elim (Bool-cases (index == j)) [
      | inl hit ↦ rw (hit, eqb→eq index j hit) ((λ own. refl), h)
      | inr miss ↦ rw miss h
    ]

    pub inserted-held :
        (w : World H) (g : ℕ)
        → held
            (inserted_in vm index (shared_entry block new e) w)
            (λ g. k g + refers g (readonly e))
            es
            g
          ≡ update (held vm k (e ∷ es)) e.lo.framenum (suc (held vm k (e ∷ es) e.lo.framenum)) g
    unfolding insert_page
    inserted-held w g =
        let f = e.lo.framenum in
        let more : held (inserted_in vm index (shared_entry block new e) w)
              (λ h. k h + refers h (readonly e)) es g
            ≡ held vm k (e ∷ es) g + refers g e =
          omega (arith, inserted-refs w g, shared-refers g) in
        more ∙ bump (held vm k (e ∷ es)) f g

    inserted-stock :
        (w : World H) (b : ℕ → ℕ) (q : ℕ)
        → stock
            (inserted_in vm index (shared_entry block new e) w)
            es
            (λ q. is_block e.block q + b q)
            q
          ≡ is_block block q + stock vm (e ∷ es) b q
    unfolding insert_page
    inserted-stock w b q = omega (
      arith,
      blocks-update (npages vm.pagespace) vm.chain index (shared_entry block new e ∷ vm.chain index)
          q within,
    )

    inserted-reached :
        (w : World H) (j : ℕ)
        → vm.pagespace / entry_size ≤ j
        → vm.chain j ≡ []
        → (inserted_in vm index (shared_entry block new e) w).chain j ≡ []
    unfolding insert_page
    inserted-reached w j far empty = rw (ne→eqb index j (omega (arith, near, far))) empty

    pub share_step :
        (w : World H) (es' : List PageEntry) (error : ℕ) (vm' : Vm H)
        → L.live vm.world.heap block ≡ false
        → ((q : ℕ) → L.live w.heap q ≡ (if q == block then true else L.live vm.world.heap q))
        → Walked
            (inserted_in vm index (shared_entry block new e) w)
            (λ g. k g + refers g (readonly e))
            es
            error
            es'
            vm'
        → Walked vm k (e ∷ es) error (readonly e ∷ es') vm'
    unfolding insert_page
    share_step w es' error vm' fresh now ih = record {
      table = ih.table;
      free = ih.free;
      same_size = ih.same_size;
      same_tlb = ih.same_tlb;
      world = IsWorld-ext L ih.world _ (λ g. omega arith);
      gained = λ z pn f.
          omega (arith, ih.gained z pn f, inserted-tally w new pn f, shared-maps_new pn f);
      kept_rest = λ pn f. omega (arith, ih.kept_rest pn f);
      kept_chain = λ j pn f. ih.kept_chain j pn f ∙ inserted-tally_in w j pn f;
      protected = λ z. ((λ own. refl), ih.protected z);
      still_protected = λ j h. ih.still_protected j (inserted-protected w j h);
      holds = λ b h q. omega (
        arith,
        ih.holds (λ q. is_block e.block q + b q)
            (Holds-ext L w.heap _ _
              (Holds-new L vm.world.heap w.heap block (stock vm (e ∷ es) b) h fresh now)
              (inserted-stock w b))
            q,
      );
      reached = λ j far empty. ih.reached j far (inserted-reached w j far empty);
      ended = λ none. absurd cc;
    }
