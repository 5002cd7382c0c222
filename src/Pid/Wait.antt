-- ===== src/Pid/Wait.antt =====
-- pid_wait: who may wait for whom, and what a successful wait leaves behind.
use os161_virtual_memory_imp.Common.{
  ℕ, ◌%◌, ◌≡◌, ◌≢◌, refl, ap, ◌∙◌, ◌⊎◌, true, false, Option, none, some, ◌>>=◌, ℤ, pos, negsuc,
  eq→eqb, ne→eqb,
}
use os161_virtual_memory_imp.Machine.{einval}
use os161_virtual_memory_imp.Pid.{
  PidInfo, Pids, procs_max, invalid_pid, wnohang, enosys, esrch, eperm, pi_get, pi_drop, store,
  Pointers, stored_at, Waited, failed, nothing_yet, asleep, collected, collect,
}
use os161_virtual_memory_imp.Pid.Table.{IsPids, drop-IsPids, without}
use os161_virtual_memory_imp.Pid.Slots.{pi_get-slot}

abbrev pub IsOption : (flags : ℕ) → Type 0
IsOption flags = (flags ≡ 0) ⊎ (flags ≡ wnohang)

-- `them` is a child of `cur`, which has a number of its own.
abbrev pub IsChild : (cur pid : ℕ) → Pids → PidInfo → Type 0
IsChild cur pid ps them =
    (pi_get pid ps ≡ some them) × (them.pi_ppid ≡ cur) × (pid ≢ cur) × (pid ≢ invalid_pid)

-- Why pid_wait fails: negative numbers and 0; the caller's own number; unknown flags; a number that
-- no process has; or a process that is no child.
abbrev pub Refused : (cur : ℕ) → ℤ → (flags : ℕ) → Pids → (error : ℕ) → Type 0
Refused cur theirpid flags ps error =
    (((n : ℕ) × (theirpid ≡ negsuc n)) × (error ≡ enosys))
    ⊎ ((pid : ℕ) × (theirpid ≡ pos pid)
        × (((pid ≡ cur) × (error ≡ einval))
            ⊎ ((pid ≢ cur) × (pid ≡ invalid_pid) × (error ≡ enosys))
            ⊎ ((pid ≢ cur)
                × (pid ≢ invalid_pid)
                × (flags ≢ 0)
                × (flags ≢ wnohang)
                × (error ≡ einval))
            ⊎ ((pid ≢ cur)
                × (pid ≢ invalid_pid)
                × IsOption flags
                × (pi_get pid ps ≡ none)
                × (error ≡ esrch))
            ⊎ ((pid ≢ cur)
                × (pid ≢ invalid_pid)
                × IsOption flags
                × ((them : PidInfo) × (pi_get pid ps ≡ some them) × (them.pi_ppid ≢ cur))
                × (error ≡ eperm))))

-- The child has exited, its status is handed over, and its slot is the only one that changes.
abbrev pub Collected : Pointers → (cur pid : ℕ) → (status ret : Option ℕ) → Pids → Pids → Type 0
Collected ptrs cur pid status ret ps ps' =
    (them : PidInfo) × IsChild cur pid ps them
    × (them.pi_exited ≡ true)
    × (status ≡ stored_at ptrs.status them.pi_exitstatus)
    × (ret ≡ stored_at ptrs.ret pid)
    × (ps'.pidinfo (pid % procs_max) ≡ none)
    × ((i : ℕ) → pid % procs_max ≢ i → ps'.pidinfo i ≡ ps.pidinfo i)

-- What each result of pid_wait says.
abbrev pub Outcome : Pointers → (cur : ℕ) → ℤ → (flags : ℕ) → Pids → Waited → Pids → Type 0
Outcome ptrs cur theirpid flags ps (failed e) ps' = (ps' ≡ ps) × Refused cur theirpid flags ps e
Outcome ptrs cur theirpid flags ps nothing_yet ps' =
    (ps' ≡ ps)
    × (flags ≡ wnohang)
    × ((pid : ℕ) × (them : PidInfo) × (theirpid ≡ pos pid)
        × IsChild cur pid ps them
        × (them.pi_exited ≡ false))
Outcome ptrs cur theirpid flags ps asleep ps' =
    (ps' ≡ ps)
    × (flags ≡ 0)
    × ((pid : ℕ) × (them : PidInfo) × (theirpid ≡ pos pid)
        × IsChild cur pid ps them
        × (them.pi_exited ≡ false))
Outcome ptrs cur theirpid flags ps (collected status ret) ps' =
    (pid : ℕ) × (theirpid ≡ pos pid) × IsOption flags × Collected ptrs cur pid status ret ps ps'

abbrev pub Waits : Pointers → (cur : ℕ) → ℤ → (flags : ℕ) → Pids → Option (Waited × Pids) → Type 0
Waits ptrs cur theirpid flags ps r =
    (waited : Waited) × (ps' : Pids) × (r ≡ some (waited, ps'))
    × IsPids ps'
    × Outcome ptrs cur theirpid flags ps waited ps'

module _ (ptrs : Pointers) (cur : ℕ) (ps : Pids) (v : IsPids ps) where
  pub collect-Collected :
      (pid : ℕ) (them : PidInfo)
      → IsChild cur pid ps them
      → them.pi_exited ≡ true
      → let status = stored_at ptrs.status them.pi_exitstatus in
        let ret = stored_at ptrs.ret pid in
        (ps' : Pids) × (collect ptrs pid them ps ≡ some (collected status ret, ps'))
        × IsPids ps'
        × Collected ptrs cur pid status ret ps ps'
  unfolding collect
  collect-Collected pid them child exited =
      let (there, same) = pi_get-slot pid ps them child.0 in
      let slot = pid % procs_max in
      let them' = record them { pi_ppid = invalid_pid } in
      let (run, w) = drop-IsPids ps v slot them there them' refl exited refl in
      (
        without ps slot them',
        ap
              (λ p. pi_drop them.pi_pid (store (p % procs_max) them' ps) >>= λ ps'. some (
                collected (stored_at ptrs.status them.pi_exitstatus) (stored_at ptrs.ret pid),
                ps',
              ))
              same
            ∙ ap
                (λ o. o >>= λ ps'. some (
                  collected (stored_at ptrs.status them.pi_exitstatus) (stored_at ptrs.ret pid),
                  ps',
                ))
                run,
        w,
        (
          them,
          child,
          exited,
          refl,
          refl,
          rw (eq→eqb slot slot refl),
          λ i other. rw (ne→eqb slot i other),
        ),
      )
