-- ===== src/Pid/Slots.antt =====
-- pid_disown and pi_get: what becomes of one slot of the table, and of the slots of the children.
use os161_virtual_memory_imp.Common.{
  ℕ, zero, suc, ◌+◌, ◌%◌, ◌<◌, ◌≡◌, refl, sym, ap, ◌∙◌, inl, inr, true, false, ◌&&◌, Option, none,
  some, arith, ltb, leb, ◌==◌, if◌then◌else◌, Bool-cases, Option-cases, eq→eqb, eqb→eq,
}
use os161_virtual_memory_imp.Pid.{
  PidInfo, Pids, procs_max, invalid_pid, pi_get, pi_drop, store, disown_info, disown_slot,
  disown_children,
}
use os161_virtual_memory_imp.Pid.Table.{IsPids, store-IsPids, drop-IsPids, without}

-- A process whose parent goes away: its data are not needed any more if it has exited.
abbrev pub orphaned : PidInfo → Option PidInfo
orphaned pi = if pi.pi_exited then none else some (record pi { pi_ppid = invalid_pid })

abbrev pub disowned : (cur : ℕ) → Option PidInfo → Option PidInfo
disowned cur none = none
disowned cur (some pi) = if pi.pi_ppid == cur then orphaned pi else some pi

-- The process itself: its status stays while it has a parent.
abbrev pub finished : (cur status : ℕ) → Option PidInfo → Option PidInfo
finished cur status none = none
finished cur status (some pi) =
    if pi.pi_pid == cur
    then (if pi.pi_ppid == invalid_pid
        then none
        else some (record pi { pi_exitstatus = status; pi_exited = true }))
    else some pi

-- The operation does not fail; it leaves a sound table, with `o` in one slot and the rest as it was.
abbrev pub Sets : Pids → (slot : ℕ) → Option PidInfo → Option Pids → Type 0
Sets ps slot o r =
    (ps' : Pids) × (r ≡ some ps')
    × IsPids ps'
    × ((j : ℕ) → ps'.pidinfo j ≡ (if slot == j then o else ps.pidinfo j))

pub disown_info-Sets :
    (ps : Pids) (slot : ℕ) (pi : PidInfo)
    → IsPids ps
    → ps.pidinfo slot ≡ some pi
    → Sets ps slot (orphaned pi) (disown_info slot pi ps)
unfolding disown_info
disown_info-Sets ps slot pi v there =
    let pi' = record pi { pi_ppid = invalid_pid } in
    elim (Bool-cases pi.pi_exited) [
      | inl exited ↦
          (let (run, w) = drop-IsPids ps v slot pi there pi' refl exited refl in
            (
              without ps slot pi',
              ap
                    (λ b.
                      if b then pi_drop pi.pi_pid (store slot pi' ps) else some (store slot pi' ps))
                    exited
                  ∙ run,
              w,
              λ j. rw exited (ground arith),
            ))
      | inr runs ↦ (
        store slot pi' ps,
        rw runs,
        store-IsPids ps v slot pi there pi' refl (λ e. absurd cc),
        (λ j. rw runs),
      )
    ]

unchanged_slot :
    (slots : ℕ → Option PidInfo) (i j : ℕ) (o : Option PidInfo)
    → slots i ≡ o
    → slots j ≡ (if i == j then o else slots j)
unchanged_slot slots i j o e = elim (Bool-cases (i == j)) [
  | inl hit ↦ let same : i ≡ j = eqb→eq i j hit in rw hit (rw (sym same) e)
  | inr miss ↦ rw miss
]

next_slot :
    (cur n i j : ℕ) (slots slots1 : ℕ → Option PidInfo)
    → slots1 j ≡ (if i == j then disowned cur (slots i) else slots j)
    → (if leb (suc i) j && ltb j (suc i + n) then disowned cur (slots1 j) else slots1 j)
      ≡ (if leb i j && ltb j (i + suc n) then disowned cur (slots j) else slots j)
next_slot cur n i j slots slots1 e = elim (Bool-cases (i == j)) [
  | inl hit ↦
      (let same : i ≡ j = eqb→eq i j hit in
        let later : leb (suc i) j ≡ false = ground arith in
        let now : (leb i j && ltb j (i + suc n)) ≡ true = ground arith in
        let written : slots1 j ≡ disowned cur (slots i) = rw hit at e in
        rw (later, now, written, same))
  | inr miss ↦
      (let kept : slots1 j ≡ slots j = rw miss at e in
        let range : (leb (suc i) j && ltb j (suc i + n)) ≡ (leb i j && ltb j (i + suc n)) =
          ground arith in
        rw (kept, range))
]

disown_slot-Sets :
    (ps : Pids) (cur i : ℕ)
    → IsPids ps
    → Sets ps i (disowned cur (ps.pidinfo i)) (disown_slot cur i ps)
unfolding disown_slot
disown_slot-Sets ps cur i v = elim (Option-cases (ps.pidinfo i)) [
  | inl empty ↦
      (ps, rw (empty, disown_slot), v, λ j. rw empty (unchanged_slot ps.pidinfo i j none empty))
  | inr (pi, there) ↦ elim (Bool-cases (pi.pi_ppid == cur)) [
    | inl child ↦
        (let (ps', run, w, slots) = disown_info-Sets ps i pi v there in
          (ps', rw (there, disown_slot) (rw child run), w, λ j. slots j ∙ rw there (rw child)))
    | inr other ↦ (
      ps,
      rw (there, disown_slot) (rw other),
      v,
      λ j. rw there (rw other (unchanged_slot ps.pidinfo i j (some pi) there)),
    )
  ]
]

pub disown_children-disowned :
    (cur n i : ℕ) (ps : Pids)
    → IsPids ps
    → (ps' : Pids) × (disown_children cur n i ps ≡ some ps')
      × IsPids ps'
      × ((j : ℕ)
          → ps'.pidinfo j
            ≡ (if leb i j && ltb j (i + n) then disowned cur (ps.pidinfo j) else ps.pidinfo j))
unfolding disown_children
disown_children-disowned cur zero i ps v = (ps, refl, v, λ j. ground arith)
disown_children-disowned cur (suc n) i ps v =
    let (ps1, run, v1, slots) = disown_slot-Sets ps cur i v in
    let (ps2, run2, v2, slots2) = disown_children-disowned cur n (suc i) ps1 v1 in
    (ps2, rw run run2, v2, λ j. slots2 j ∙ next_slot cur n i j ps.pidinfo ps1.pidinfo (slots j))

pub pi_get-slot :
    (pid : ℕ) (ps : Pids) (pi : PidInfo)
    → pi_get pid ps ≡ some pi
    → (ps.pidinfo (pid % procs_max) ≡ some pi) × (pi.pi_pid ≡ pid)
unfolding pi_get
pi_get-slot pid ps pi e = elim (Option-cases (ps.pidinfo (pid % procs_max))) [
  | inl empty ↦ absurd (ground (arith, empty, e))
  | inr (there, f) ↦ ground (arith, f, e)
]

pub slot-pi_get :
    (pid : ℕ) (ps : Pids) (pi : PidInfo)
    → ps.pidinfo (pid % procs_max) ≡ some pi
    → pi.pi_pid ≡ pid
    → pi_get pid ps ≡ some pi
unfolding pi_get
slot-pi_get pid ps pi there same = rw (there, pi_get, eq→eqb pi.pi_pid pid same)

pub in_loop :
    (j : ℕ)
    → j < procs_max
    → (o o' : Option PidInfo) → (if leb 0 j && ltb j (0 + procs_max) then o else o') ≡ o
in_loop j below o o' =
    let within : (leb 0 j && ltb j (0 + procs_max)) ≡ true = ground arith in rw within

-- Where the running process itself is after the loop over its children.
pub disowned_self :
    (cur : ℕ) (us : PidInfo)
    → us.pi_exited ≡ false
    → us.pi_pid ≡ cur
    → (us1 : PidInfo) × (disowned cur (some us) ≡ some us1) × (us1.pi_pid ≡ cur)
disowned_self cur us runs same = elim (Bool-cases (us.pi_ppid == cur)) [
  | inl own ↦ (record us { pi_ppid = invalid_pid }, rw own (rw runs), same)
  | inr other ↦ (us, rw other, same)
]
