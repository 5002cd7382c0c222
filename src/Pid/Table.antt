-- ===== src/Pid/Table.antt =====
-- The invariant of the process table, under the operations on one slot.
use os161_virtual_memory_imp.Common.{
  ℕ, zero, suc, ◌+◌, ◌-◌, ◌%◌, ◌≤◌, ◌<◌, ◌≡◌, ◌≢◌, refl, sym, ◌∙◌, inl, inr, true, Option, none,
  some, arith, ◌==◌, update, Bool-cases, eqb→eq, eq→eqb,
}
use os161_virtual_memory_imp.Pid.{
  PidInfo, Pids, procs_max, pid_min, pid_max, invalid_pid, pi_drop, store,
}

abbrev pub present : Option PidInfo → ℕ
present none = 0
present (some pi) = 1

-- The number of used slots below `n`.
abbrev pub used_slots : (n : ℕ) → (ℕ → Option PidInfo) → ℕ
used_slots zero slots = 0
used_slots (suc n) slots = used_slots n slots + present (slots n)

used_slots-update_above :
    (n i : ℕ) (slots : ℕ → Option PidInfo) (o : Option PidInfo)
    → n ≤ i
    → used_slots n (update slots i o) ≡ used_slots n slots
used_slots-update_above zero i slots o h = refl
used_slots-update_above (suc n) i slots o h = ground (arith, used_slots-update_above n i slots o)

pub used_slots-update :
    (n i : ℕ) (slots : ℕ → Option PidInfo) (o : Option PidInfo)
    → i < n
    → used_slots n (update slots i o) + present (slots i) ≡ used_slots n slots + present o
used_slots-update zero i slots o h = elim h [ ]
used_slots-update (suc n) i slots o h =
    ground (arith, used_slots-update n i slots o, used_slots-update_above n i slots o)

present-update :
    (i : ℕ) (slots : ℕ → Option PidInfo) (pi : PidInfo) → present (update slots i (some pi) i) ≡ 1
present-update i slots pi = rw (eq→eqb i i refl)

used_slots-store :
    (n i : ℕ) (slots : ℕ → Option PidInfo) (pi pi' : PidInfo)
    → i < n
    → slots i ≡ some pi
    → used_slots n (update slots i (some pi')) ≡ used_slots n slots
used_slots-store n i slots pi pi' h there =
    let before : present (slots i) ≡ 1 = rw there in
    omega (arith, before, used_slots-update n i slots (some pi') h)

used_slots-clear :
    (n i : ℕ) (slots : ℕ → Option PidInfo) (pi pi' : PidInfo)
    → i < n
    → slots i ≡ some pi
    → suc (used_slots n (update (update slots i (some pi')) i none)) ≡ used_slots n slots
used_slots-clear n i slots pi pi' h there = omega (
  arith,
  used_slots-store n i slots pi pi' h there,
  used_slots-update n i (update slots i (some pi')) none h,
  present-update i slots pi',
)

-- What a slot may hold: a process whose number belongs there, and whose status somebody may still
-- want to know.
pub record IsInfo (slot : ℕ) (pi : PidInfo) : Type 0 where
  pub slotted : pi.pi_pid % procs_max ≡ slot
  pub numbered : 0 < pi.pi_pid
  pub small : pi.pi_pid ≤ pid_max
  pub wanted : pi.pi_exited ≡ true → pi.pi_ppid ≢ invalid_pid

pub record IsPids (ps : Pids) : Type 0 where
  pub low : pid_min ≤ ps.nextpid
  pub high : ps.nextpid ≤ pid_max
  pub counted : ps.nprocs ≡ used_slots procs_max ps.pidinfo
  pub infos : (i : ℕ) (pi : PidInfo) → ps.pidinfo i ≡ some pi → IsInfo i pi

-- The table without the process of a slot.
abbrev pub without : Pids → (slot : ℕ) → PidInfo → Pids
without ps slot pi = record ps {
  pidinfo = update (update ps.pidinfo slot (some pi)) slot none;
  nprocs = ps.nprocs - 1;
}

AllInfos : (ℕ → Option PidInfo) → Type 0
AllInfos slots = (i : ℕ) (pi : PidInfo) → slots i ≡ some pi → IsInfo i pi

infos-update :
    (slots : ℕ → Option PidInfo) (slot : ℕ) (o : Option PidInfo)
    → AllInfos slots
    → ((pi : PidInfo) → o ≡ some pi → IsInfo slot pi)
    → AllInfos (update slots slot o)
unfolding AllInfos
infos-update slots slot o v new i pi e = elim (Bool-cases (slot == i)) [
  | inl hit ↦
      (let same : slot ≡ i = eqb→eq slot i hit in
        let there : o ≡ some pi = rw hit at e in rw (sym same) (new pi there))
  | inr miss ↦ v i pi (rw miss at e)
]

none-IsInfo : (slot : ℕ) (pi : PidInfo) → ◌≡◌ {A = Option PidInfo} none (some pi) → IsInfo slot pi
none-IsInfo slot pi e = absurd cc

some-IsInfo : (slot : ℕ) (pi pi' : PidInfo) → IsInfo slot pi → some pi ≡ some pi' → IsInfo slot pi'
some-IsInfo slot pi pi' v e = let same : pi ≡ pi' = cc in rw (sym same) v

module _ (ps : Pids) (v : IsPids ps) where
  pub put-IsPids :
      (slot : ℕ) (pi : PidInfo)
      → IsInfo slot pi
      → ps.pidinfo slot ≡ none
      → IsPids (record ps { pidinfo = update ps.pidinfo slot (some pi); nprocs = suc ps.nprocs })
  unfolding AllInfos
  put-IsPids slot pi w empty =
      let within : slot < procs_max = omega (arith, w.slotted) in
      record {
        low = v.low;
        high = v.high;
        counted =
            ground (arith, v.counted, used_slots-update procs_max slot ps.pidinfo (some pi) within);
        infos =
            infos-update ps.pidinfo slot (some pi) v.infos (λ pi' e. some-IsInfo slot pi pi' w e);
      }

  module _ (slot : ℕ) (pi : PidInfo) (there : ps.pidinfo slot ≡ some pi) (pi' : PidInfo)
      (same_pid : pi'.pi_pid ≡ pi.pi_pid) where
    within : slot < procs_max
    within = omega (arith, (v.infos slot pi there).slotted)

    stored-used :
        used_slots procs_max (update ps.pidinfo slot (some pi')) ≡ used_slots procs_max ps.pidinfo
    stored-used = used_slots-store procs_max slot ps.pidinfo pi pi' within there

    pub store-IsPids :
        (pi'.pi_exited ≡ true → pi'.pi_ppid ≢ invalid_pid) → IsPids (store slot pi' ps)
    unfolding AllInfos
    store-IsPids wanted =
        let w = v.infos slot pi there in
        let new : IsInfo slot pi' = record {
          slotted = rw same_pid w.slotted;
          numbered = rw same_pid w.numbered;
          small = rw same_pid w.small;
          wanted = wanted;
        } in
        record {
          low = v.low;
          high = v.high;
          counted = v.counted ∙ sym stored-used;
          infos =
              infos-update ps.pidinfo slot (some pi') v.infos
                (λ pi2 e. some-IsInfo slot pi' pi2 new e);
        }

    without-used :
        suc (used_slots procs_max (update (update ps.pidinfo slot (some pi')) slot none))
        ≡ used_slots procs_max ps.pidinfo
    without-used = used_slots-clear procs_max slot ps.pidinfo pi pi' within there

    kept_infos : AllInfos (update (update ps.pidinfo slot (some pi')) slot none)
    unfolding AllInfos
    kept_infos i pi2 e = elim (Bool-cases (slot == i)) [
      | inl hit ↦ none-IsInfo i pi2 (rw hit at e)
      | inr miss ↦ v.infos i pi2 (rw miss at e)
    ]

    pub drop-IsPids :
        pi'.pi_exited ≡ true
        → pi'.pi_ppid ≡ invalid_pid
        → (pi_drop pi.pi_pid (store slot pi' ps) ≡ some (without ps slot pi'))
          × IsPids (without ps slot pi')
    unfolding pi_drop AllInfos
    drop-IsPids exited orphan =
        let own = eq→eqb pi'.pi_pid pi.pi_pid same_pid in
        (
          rw ((v.infos slot pi there).slotted, eq→eqb slot slot refl, own, exited, orphan),
          record {
            low = v.low;
            high = v.high;
            counted = omega (arith, v.counted, without-used);
            infos = kept_infos;
          },
        )
