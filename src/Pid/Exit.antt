-- ===== src/Pid/Exit.antt =====
-- pid_setexitstatus, pid_disown and pid_unalloc: what becomes of each slot of the table.
use os161_virtual_memory_imp.Common.{
  ℕ, ◌%◌, ◌<◌, ◌≡◌, ◌≢◌, refl, sym, ap, ◌∙◌, inl, inr, true, false, not, ◌&&◌, Option, none, some,
  arith, ◌==◌, if◌then◌else◌, ◌>>=◌, update, Bool-cases, Option-cases, eq→eqb, ne→eqb, eqb→eq,
  eqb→ne,
}
use os161_virtual_memory_imp.Pid.{
  PidInfo, Pids, procs_max, invalid_pid, pi_get, pi_drop, store, pid_setexitstatus, in_range,
  pid_disown, pid_unalloc,
}
use os161_virtual_memory_imp.Pid.Table.{IsPids, store-IsPids, drop-IsPids, without}
use os161_virtual_memory_imp.Pid.Slots.{
  Sets, disown_children-disowned, disown_info-Sets, disowned, disowned_self, finished, in_loop,
  orphaned, pi_get-slot, slot-pi_get,
}

-- The last part of pid_setexitstatus, on the slot of the process itself.
abbrev exit_slot : (cur status : ℕ) → PidInfo → Pids → Option (ℕ × Pids)
exit_slot cur status us ps =
    let ps2 = store (cur % procs_max) (record us { pi_exitstatus = status; pi_exited = true }) ps in
    let dropped = (pi_drop cur ps2 >>= λ ps3. some (invalid_pid, ps3)) in
    if us.pi_ppid == invalid_pid then dropped else some (invalid_pid, ps2)

finished-others :
    (cur status : ℕ) (ps : Pids) (j : ℕ)
    → IsPids ps
    → cur % procs_max ≢ j
    → ps.pidinfo j ≡ finished cur status (ps.pidinfo j)
finished-others cur status ps j v other = elim (Option-cases (ps.pidinfo j)) [
  | inl empty ↦ rw empty
  | inr (pi, there) ↦
      (let slotted = (v.infos j pi there).slotted in
        let ne : pi.pi_pid ≢ cur = λ e. other (rw e at slotted) in
        rw there (rw (ne→eqb pi.pi_pid cur ne)))
]

finished-slot :
    (cur status : ℕ) (ps : Pids) (us : PidInfo) (o : Option PidInfo) (j : ℕ)
    → IsPids ps
    → ps.pidinfo (cur % procs_max) ≡ some us
    → finished cur status (some us) ≡ o
    → (if cur % procs_max == j then o else ps.pidinfo j) ≡ finished cur status (ps.pidinfo j)
finished-slot cur status ps us o j v there e = elim (Bool-cases (cur % procs_max == j)) [
  | inl hit ↦
      (let same : cur % procs_max ≡ j = eqb→eq (cur % procs_max) j hit in
        let at : ps.pidinfo j ≡ some us = rw (sym same) there in
        rw hit (sym (ap (finished cur status) at ∙ e)))
  | inr miss ↦ rw miss (finished-others cur status ps j v (eqb→ne (cur % procs_max) j miss))
]

cleared_slot :
    (slots : ℕ → Option PidInfo) (i j : ℕ) (pi : PidInfo)
    → update (update slots i (some pi)) i none j ≡ (if i == j then none else slots j)
cleared_slot slots i j pi = ground arith

exit_slot-finished :
    (cur status : ℕ) (ps : Pids) (us : PidInfo)
    → IsPids ps
    → ps.pidinfo (cur % procs_max) ≡ some us
    → us.pi_pid ≡ cur
    → (ps' : Pids) × (exit_slot cur status us ps ≡ some (invalid_pid, ps'))
      × IsPids ps'
      × ((j : ℕ) → ps'.pidinfo j ≡ finished cur status (ps.pidinfo j))
exit_slot-finished cur status ps us v there same =
    let slot = cur % procs_max in
    let us' = record us { pi_exitstatus = status; pi_exited = true } in
    elim (Bool-cases (us.pi_ppid == invalid_pid)) [
      | inl orphan ↦
          (let (run, w) =
              drop-IsPids ps v slot us there us' refl refl (eqb→eq us.pi_ppid invalid_pid orphan) in
            let run' : pi_drop cur (store slot us' ps) ≡ some (without ps slot us') =
              ap (λ p. pi_drop p (store slot us' ps)) (sym same) ∙ run in
            let gone : finished cur status (some us) ≡ none =
              rw (eq→eqb us.pi_pid cur same) (rw orphan) in
            (
              without ps slot us',
              rw orphan (ap (λ o. o >>= λ ps3. some (invalid_pid, ps3)) run'),
              w,
              (λ j.
                  cleared_slot ps.pidinfo slot j us'
                  ∙ finished-slot cur status ps us none j v there gone),
            ))
      | inr wanted ↦
          (let stays : finished cur status (some us) ≡ some us' =
              rw (eq→eqb us.pi_pid cur same) (rw wanted) in
            (
              store slot us' ps,
              rw wanted,
              store-IsPids ps v slot us there us' refl (λ e. eqb→ne us.pi_ppid invalid_pid wanted),
              (λ j. finished-slot cur status ps us (some us') j v there stays),
            ))
    ]

-- On a sound table pid_setexitstatus of a running process never fails an assertion. Each child of
-- the process that has exited is dropped, each other child loses its parent, and the process itself
-- is dropped if it has no parent and otherwise keeps its status for it; nothing else changes. The
-- process gives up its number, and the table is sound again.
pub pid_setexitstatus-finished :
    (cur status : ℕ) (ps : Pids) (us : PidInfo)
    → cur ≢ invalid_pid
    → IsPids ps
    → pi_get cur ps ≡ some us
    → us.pi_exited ≡ false
    → (ps' : Pids) × (pid_setexitstatus cur status ps ≡ some (invalid_pid, ps'))
      × IsPids ps'
      × ((j : ℕ)
          → j < procs_max
          → ps'.pidinfo j ≡ finished cur status (disowned cur (ps.pidinfo j)))
unfolding pid_setexitstatus
pid_setexitstatus-finished cur status ps us valid v found runs =
    let slot = cur % procs_max in
    let (there, same) = pi_get-slot cur ps us found in
    let (ps1, run1, v1, slots1) = disown_children-disowned cur procs_max 0 ps v in
    let (us1, self, same1) = disowned_self cur us runs same in
    let there1 : ps1.pidinfo slot ≡ some us1 =
      slots1 slot
      ∙ in_loop slot (omega arith) (disowned cur (ps.pidinfo slot)) (ps.pidinfo slot)
      ∙ ap (disowned cur) there
      ∙ self in
    let (ps2, run2, v2, slots2) = exit_slot-finished cur status ps1 us1 v1 there1 same1 in
    (
      ps2,
      rw (ne→eqb cur invalid_pid valid) (rw run1 (rw (slot-pi_get cur ps1 us1 there1 same1) run2)),
      v2,
      (λ j below.
          slots2 j
          ∙ ap (finished cur status)
              (slots1 j ∙ in_loop j below (disowned cur (ps.pidinfo j)) (ps.pidinfo j))),
    )

child_runs :
    (them : PidInfo) (cur : ℕ)
    → them.pi_exited ≡ false
    → them.pi_ppid ≡ cur
    → (not them.pi_exited && (them.pi_ppid == cur)) ≡ true
child_runs them cur runs child = ground arith

module _ (cur theirpid : ℕ) (ps : Pids) (them : PidInfo) (v : IsPids ps)
    (range : in_range theirpid ≡ true) (found : pi_get theirpid ps ≡ some them)
    (child : them.pi_ppid ≡ cur) where
  -- pid_disown of a child never fails an assertion: the child loses its parent, and is dropped if it
  -- has exited. No other slot changes, and the table is sound again.
  pub pid_disown-Sets : Sets ps (theirpid % procs_max) (orphaned them) (pid_disown cur theirpid ps)
  unfolding pid_disown
  pid_disown-Sets =
      let (there, same) = pi_get-slot theirpid ps them found in
      let (ps', run, w, slots) = disown_info-Sets ps (theirpid % procs_max) them v there in
      (ps', rw range (rw found (rw (eq→eqb them.pi_ppid cur child) run)), w, slots)

  -- pid_unalloc of a child that has not run never fails an assertion: its slot is free afterwards,
  -- no other slot changes, and the table is sound again.
  pub pid_unalloc-Sets :
      them.pi_exited ≡ false → Sets ps (theirpid % procs_max) none (pid_unalloc cur theirpid ps)
  unfolding pid_unalloc
  pid_unalloc-Sets runs =
      let slot = theirpid % procs_max in
      let (there, same) = pi_get-slot theirpid ps them found in
      let them' = record them { pi_exitstatus = 0xdead; pi_exited = true; pi_ppid = invalid_pid } in
      let (run, w) = drop-IsPids ps v slot them there them' refl refl refl in
      (
        without ps slot them',
        rw range (
            rw found (
              rw (child_runs them cur runs child)
                (ap (λ p. pi_drop p (store slot them' ps)) (sym same) ∙ run))),
        w,
        (λ j. cleared_slot ps.pidinfo slot j them'),
      )
