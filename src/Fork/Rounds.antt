-- ===== src/Fork/Rounds.antt =====
-- The loop of copy_page_table over the chains.
use os161_virtual_memory_imp.Common.{
  ℕ, zero, suc, ◌/◌, ◌+◌, ◌≤◌, ◌<◌, ◌≡◌, ◌≢◌, refl, sym, ap, ◌∙◌, inl, inr, false, some, List, [],
  ◌∷◌, ◌++◌, All, arith, ◌==◌, update, Bool-cases, eq→eqb, eqb→eq, eqb→ne,
}
use os161_virtual_memory_imp.Kmalloc.{Kmalloc, KmallocLaws}
use os161_virtual_memory_imp.PageTable.{PageEntry, Vm, npages, entry_size}
use os161_virtual_memory_imp.PageTable.Counts.{refs, refs-update}
use os161_virtual_memory_imp.PageTable.Pages.{IsWorld, IsWorld-ext}
use os161_virtual_memory_imp.Fault.Safety.{IsVm}
use os161_virtual_memory_imp.Destroy.Blocks.{blocks-update, blocks_in-append, Holds, Holds-ext}
use os161_virtual_memory_imp.Fork.{put_back, copy_chains}
use os161_virtual_memory_imp.Fork.Tally.{
  tally_in, tally, tally-update, tally_in-append, refs_in-append,
}
use os161_virtual_memory_imp.Fork.Steps.{held, stock, ReadonlyFor, Walked}
use os161_virtual_memory_imp.Fork.Chain.{copy_chain-Walks}

-- The mappings of the `n` chains from chain `i`.
abbrev pub tally_from : (n i : ℕ) → (ℕ → List PageEntry) → (pid pn f : ℕ) → ℕ
tally_from zero i chain pid pn f = 0
tally_from (suc n) i chain pid pn f =
    tally_in pid pn f (chain i) + tally_from n (suc i) chain pid pn f

pub tally_from-tally :
    (n i m : ℕ) (chain : ℕ → List PageEntry) (pid pn f : ℕ)
    → i + n ≡ m
    → tally_from n i chain pid pn f + tally i chain pid pn f ≡ tally m chain pid pn f
tally_from-tally zero i m chain pid pn f e = let same : i ≡ m = omega arith in rw same (omega arith)
tally_from-tally (suc n) i m chain pid pn f e =
    omega (arith, tally_from-tally n (suc i) m chain pid pn f (omega arith))

pub tally_from-ext :
    (n i : ℕ) (chain chain' : ℕ → List PageEntry) (pid pn f : ℕ)
    → ((j : ℕ) → tally_in pid pn f (chain' j) ≡ tally_in pid pn f (chain j))
    → tally_from n i chain' pid pn f ≡ tally_from n i chain pid pn f
tally_from-ext zero i chain chain' pid pn f h = refl
tally_from-ext (suc n) i chain chain' pid pn f h =
    omega (arith, h i, tally_from-ext n (suc i) chain chain' pid pn f h)

All-append :
    (P : PageEntry → Type 0) (es fs : List PageEntry) → All P es → All P fs → All P (es ++ fs)
All-append P [] fs h k = k
All-append P (e ∷ es) fs h k = (h.0, All-append P es fs h.1 k)

abbrev without : {H : Type 0} → Vm H → ℕ → Vm H
without vm i = record vm { chain = update vm.chain i [] }

gained_over :
    (n m : ℕ) (chain chain' : ℕ → List PageEntry) (pid pn f b : ℕ)
    → n ≡ m
    → tally n chain' pid pn f ≡ tally n chain pid pn f + b
    → tally m chain' pid pn f ≡ tally m chain pid pn f + b
gained_over n m chain chain' pid pn f b e h = rw (sym e) h

gained_on :
    (n m : ℕ) (chain : ℕ → List PageEntry) (pid pn f a b : ℕ)
    → n ≡ m
    → tally n chain pid pn f + a ≡ b
    → tally m chain pid pn f + a ≡ b
gained_on n m chain pid pn f a b e h = rw (sym e) h

module _ {H : Type 0} {K : Kmalloc H} (L : KmallocLaws K) (old new : ℕ) (apart : old ≢ new) where
  -- `n` rounds from chain `i` have led from `vm` to `vm'`.
  pub record Rounds (n i : ℕ) (vm : Vm H) (error : ℕ) (vm' : Vm H) : Type 0 where
    pub sound : IsVm L vm'
    pub same_size : vm'.pagespace ≡ vm.pagespace
    pub same_tlb : (s : ℕ) → vm'.tlb s ≡ vm.tlb s
    pub gained :
        error ≡ 0
        → (pn f : ℕ)
        → tally (npages vm.pagespace) vm'.chain new pn f
          ≡ tally (npages vm.pagespace) vm.chain new pn f + tally_from n i vm.chain old pn f
    pub kept : (j pn f : ℕ) → tally_in old pn f (vm'.chain j) ≡ tally_in old pn f (vm.chain j)
    pub protected : error ≡ 0 → (j : ℕ) → i ≤ j → j < i + n → All (ReadonlyFor old) (vm'.chain j)
    pub still_protected :
        error ≡ 0
        → (j : ℕ) → All (ReadonlyFor old) (vm.chain j)
        → All (ReadonlyFor old) (vm'.chain j)
    pub holds :
        (b : ℕ → ℕ)
        → Holds L vm.world.heap (stock vm [] b)
        → Holds L vm'.world.heap (stock vm' [] b)
    pub reached : (j : ℕ) → vm.pagespace / entry_size ≤ j → vm.chain j ≡ [] → vm'.chain j ≡ []

  -- One chain is taken out, walked and put back.
  module _ (i : ℕ) (vm : Vm H) (v : IsVm L vm) (within : i < npages vm.pagespace) where
    out_IsWorld : IsWorld L vm.world v.table v.free (held (without vm i) (λ _. 0) (vm.chain i))
    out_IsWorld =
        IsWorld-ext L v.world _
          (λ g. omega (arith, refs-update (npages vm.pagespace) vm.chain i [] g within))

    emptied : (pn f : ℕ) → tally_in old pn f ((without vm i).chain i) ≡ 0
    emptied pn f = rw (eq→eqb i i refl)

    module _ (error : ℕ) (es : List PageEntry) (vm' : Vm H)
        (w : Walked L old new apart (without vm i) (λ _. 0) (vm.chain i) error es vm') where
      same_npages : npages vm'.pagespace ≡ npages vm.pagespace
      same_npages = ap npages w.same_size

      back-refs :
          (g : ℕ) → refs (npages vm'.pagespace) (put_back i es vm').chain g ≡ held vm' (λ _. 0) es g
      back-refs g =
          let size : i < npages vm'.pagespace = rw same_npages within in
          omega (
            arith,
            refs-update (npages vm'.pagespace) vm'.chain i (vm'.chain i ++ es) g size,
            refs_in-append g (vm'.chain i) es,
          )

      back-IsVm : IsVm L (put_back i es vm')
      back-IsVm = record {
        table = w.table;
        free = w.free;
        world = IsWorld-ext L w.world _ back-refs;
        room = rw w.same_size v.room;
      }

      back-tally :
          (pid pn f : ℕ)
          → tally (npages vm.pagespace) (put_back i es vm').chain pid pn f
            ≡ tally (npages vm.pagespace) vm'.chain pid pn f + tally_in pid pn f es
      back-tally pid pn f = omega (
        arith,
        tally-update pid pn f (npages vm.pagespace) vm'.chain i (vm'.chain i ++ es) within,
        tally_in-append pid pn f (vm'.chain i) es,
      )

      back-gained :
          error ≡ 0
          → (pn f : ℕ)
          → tally (npages vm.pagespace) (put_back i es vm').chain new pn f
            ≡ tally (npages vm.pagespace) vm.chain new pn f + tally_in old pn f (vm.chain i)
      back-gained z pn f =
          let got : tally (npages vm.pagespace) vm'.chain new pn f + tally_in new pn f es
              ≡ tally (npages vm.pagespace) (without vm i).chain new pn f
                + tally_in new pn f (vm.chain i)
                + tally_in old pn f (vm.chain i) =
            gained_on _ _ _ _ _ _ _ _ same_npages (w.gained z pn f) in
          omega (
            arith,
            got,
            back-tally new pn f,
            tally-update new pn f (npages vm.pagespace) vm.chain i [] within,
          )

      back-kept :
          (j pn f : ℕ)
          → tally_in old pn f ((put_back i es vm').chain j) ≡ tally_in old pn f (vm.chain j)
      back-kept j pn f = elim (Bool-cases (i == j)) [
        | inl hit ↦
            (let same : i ≡ j = eqb→eq i j hit in
              let none_left : tally_in old pn f (vm'.chain i) ≡ 0 =
                w.kept_chain i pn f ∙ emptied pn f in
              rw (sym same) (
                rw (eq→eqb i i refl) (
                  omega (
                    arith,
                    tally_in-append old pn f (vm'.chain i) es,
                    none_left,
                    w.kept_rest pn f,
                  ))))
        | inr miss ↦ rw miss (w.kept_chain j pn f ∙ rw miss)
      ]

      back-protected : error ≡ 0 → All (ReadonlyFor old) ((put_back i es vm').chain i)
      back-protected z = rw (eq→eqb i i refl) (
          All-append (ReadonlyFor old) (vm'.chain i) es
            (w.still_protected i (rw (eq→eqb i i refl) tt)) (w.protected z))

      back-still_protected :
          error ≡ 0
          → (j : ℕ) → All (ReadonlyFor old) (vm.chain j)
          → All (ReadonlyFor old) ((put_back i es vm').chain j)
      back-still_protected z j h = elim (Bool-cases (i == j)) [
        | inl hit ↦ rw (sym (eqb→eq i j hit)) (back-protected z)
        | inr miss ↦ rw miss (w.still_protected j (rw miss h))
      ]

      back-holds :
          (b : ℕ → ℕ)
          → Holds L vm.world.heap (stock vm [] b)
          → Holds L vm'.world.heap (stock (put_back i es vm') [] b)
      back-holds b h =
          let size : i < npages vm'.pagespace = rw same_npages within in
          Holds-ext L vm'.world.heap (stock vm' es b) _
            (w.holds b (
              Holds-ext L vm.world.heap (stock vm [] b) _ h
                (λ q. omega (arith, blocks-update (npages vm.pagespace) vm.chain i [] q within))))
            (λ q. omega (
              arith,
              blocks-update (npages vm'.pagespace) vm'.chain i (vm'.chain i ++ es) q size,
              blocks_in-append (vm'.chain i) es q,
            ))

      back-reached :
          (j : ℕ)
          → vm.pagespace / entry_size ≤ j
          → vm.chain j ≡ []
          → (put_back i es vm').chain j ≡ []
      back-reached j far empty = elim (Bool-cases (i == j)) [
        | inl hit ↦
            let same : i ≡ j = eqb→eq i j hit in
            let first : vm'.chain i ≡ [] = w.reached i (rw same far) (rw (eq→eqb i i refl) refl) in
            let last : es ≡ [] = w.ended (ap vm.chain same ∙ empty) in rw (hit, first, last) refl
        | inr miss ↦ rw miss (w.reached j far (rw miss empty))
      ]

      one_round : Rounds 1 i vm error (put_back i es vm')
      one_round = record {
        sound = back-IsVm;
        same_size = w.same_size;
        same_tlb = w.same_tlb;
        gained = λ z pn f. omega (arith, back-gained z pn f);
        kept = back-kept;
        protected = λ z j lo hi. let same : i ≡ j = omega arith in rw (sym same) (back-protected z);
        still_protected = back-still_protected;
        holds = back-holds;
        reached = back-reached;
      }

  far_from :
      (vm vm' : Vm H) (j : ℕ)
      → vm'.pagespace ≡ vm.pagespace
      → vm.pagespace / entry_size ≤ j
      → vm'.pagespace / entry_size ≤ j
  far_from vm vm' j same far = rw same far

  trans-Rounds :
      (n i : ℕ) (vm vm' vm'' : Vm H) (first error : ℕ)
      → first ≡ 0
      → Rounds 1 i vm first vm'
      → Rounds n (suc i) vm' error vm''
      → Rounds (suc n) i vm error vm''
  trans-Rounds n i vm vm' vm'' first error ok r rs = record {
    sound = rs.sound;
    same_size = rs.same_size ∙ r.same_size;
    same_tlb = λ s. rs.same_tlb s ∙ r.same_tlb s;
    gained = λ z pn f. omega (
      arith,
      gained_over _ _ _ _ _ _ _ _ (ap npages r.same_size) (rs.gained z pn f),
      r.gained ok pn f,
      tally_from-ext n (suc i) vm.chain vm'.chain old pn f (λ j. r.kept j pn f),
    );
    kept = λ j pn f. rs.kept j pn f ∙ r.kept j pn f;
    protected = λ z j lo hi. elim (Bool-cases (i == j)) [
      | inl hit ↦
          (let same : i ≡ j = eqb→eq i j hit in
            rs.still_protected z j (r.protected ok j lo (omega arith)))
      | inr miss ↦ rs.protected z j (ground (arith, eqb→ne i j miss)) (omega arith)
    ];
    still_protected = λ z j h. rs.still_protected z j (r.still_protected ok j h);
    holds = λ b h. rs.holds b (r.holds b h);
    reached =
        λ j far empty. rs.reached j (far_from vm vm' j r.same_size far) (r.reached j far empty);
  }

  nil-Rounds : (i : ℕ) (vm : Vm H) → IsVm L vm → Rounds 0 i vm 0 vm
  nil-Rounds i vm v = record {
    sound = v;
    same_size = refl;
    same_tlb = λ s. refl;
    gained = λ z pn f. omega arith;
    kept = λ j pn f. refl;
    protected = λ z j lo hi. absurd (omega arith);
    still_protected = λ z j h. h;
    holds = λ b h. h;
    reached = λ j far empty. empty;
  }

  stopped :
      (n i : ℕ) (vm vm' : Vm H) (error : ℕ)
      → (error == 0) ≡ false
      → Rounds 1 i vm error vm'
      → Rounds (suc n) i vm error vm'
  stopped n i vm vm' error bad r =
      let no = λ (z : error ≡ 0). eqb→ne error 0 bad z in
      record {
        sound = r.sound;
        same_size = r.same_size;
        same_tlb = r.same_tlb;
        gained = λ z. absurd (no z);
        kept = r.kept;
        protected = λ z. absurd (no z);
        still_protected = λ z. absurd (no z);
        holds = r.holds;
        reached = r.reached;
      }

  pub copy_chains-Rounds :
      (n i : ℕ) (vm : Vm H)
      → IsVm L vm
      → i + n ≡ npages vm.pagespace
      → (error : ℕ) × (vm' : Vm H) × (copy_chains K old new n i vm ≡ some (error, vm'))
        × Rounds n i vm error vm'
  unfolding copy_chains
  copy_chains-Rounds zero i vm v all = (0, vm, refl, nil-Rounds i vm v)
  copy_chains-Rounds (suc n) i vm v all =
      let within : i < npages vm.pagespace = omega arith in
      let (error, es, vm', run, w) =
        copy_chain-Walks L old new apart (vm.chain i) (without vm i) v.table v.free (λ _. 0) v.room
          (out_IsWorld i vm v within) in
      let r = one_round i vm v within error es vm' w in
      elim (Bool-cases (error == 0)) [
        | inl z ↦
            (let vm1 = put_back i es vm' in
              let (last, vm'', run', rs) =
                copy_chains-Rounds n (suc i) vm1 r.sound (omega (arith, ap npages r.same_size)) in
              (
                last,
                vm'',
                rw (run, z) run',
                trans-Rounds n i vm vm1 vm'' error last (eqb→eq error 0 z) r rs,
              ))
        | inr bad ↦ (
          error,
          put_back i es vm',
          rw (run, bad),
          stopped n i vm (put_back i es vm') error bad r,
        )
      ]
