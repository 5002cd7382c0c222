-- ===== src/Pid/Search.antt =====
-- The loop of pid_alloc that looks for a number whose slot is free.
use os161_virtual_memory_imp.Common.{
  ℕ, zero, suc, ◌+◌, ◌-◌, ◌*◌, ◌%◌, ◌≤◌, ◌<◌, ◌≡◌, inl, inr, Option, none, some, arith, ltb,
  Option-cases, Bool-cases, ◌⊎◌,
}
use os161_virtual_memory_imp.Pid.{PidInfo, procs_max, pid_min, pid_max, inc_nextpid, find_pid}

le_cases : (a b : ℕ) → (a ≤ b) ⊎ (b < a)
le_cases a b = elim (Bool-cases (ltb b a)) [
  | inl e ↦ inr (ground arith)
  | inr e ↦ inl (ground arith)
]

module _ (slots : ℕ → Option PidInfo) where
  -- A number in range whose slot is free.
  abbrev pub Free : ℕ → Type 0
  Free pid = (pid_min ≤ pid) × (pid ≤ pid_max) × (slots (pid % procs_max) ≡ none)

  abbrev pub FindsFree : Option ℕ → Type 0
  FindsFree r = (pid : ℕ) × (r ≡ some pid) × Free pid

  here : (rounds pid : ℕ) → Free pid → FindsFree (find_pid rounds slots pid)
  unfolding find_pid
  here zero pid v = (pid, rw (v.2, find_pid), v)
  here (suc n) pid v = (pid, rw (v.2, find_pid), v)

  further :
      (n pid : ℕ) (pi : PidInfo)
      → slots (pid % procs_max) ≡ some pi
      → FindsFree (find_pid n slots (inc_nextpid pid))
      → FindsFree (find_pid (suc n) slots pid)
  unfolding find_pid
  further n pid pi used (found, run, v) = (found, rw (used, find_pid) run, v)

  -- Without a wrap: the number `pid + d` ends the search at the latest.
  search :
      (d rounds pid : ℕ)
      → d ≤ rounds
      → pid_min ≤ pid
      → pid + d ≤ pid_max
      → slots ((pid + d) % procs_max) ≡ none
      → FindsFree (find_pid rounds slots pid)
  unfolding inc_nextpid
  search zero rounds pid enough low high empty =
      let same : pid + 0 ≡ pid = omega arith in here rounds pid (low, omega arith, rw same at empty)
  search (suc d) zero pid enough low high empty = absurd (omega arith)
  search (suc d) (suc n) pid enough low high empty = elim (Option-cases (slots (pid % procs_max))) [
    | inl free ↦ here (suc n) pid (low, omega arith, free)
    | inr (pi, used) ↦
        (let same : pid + suc d ≡ suc pid + d = omega arith in
          let next : inc_nextpid pid ≡ suc pid = ground arith in
          further n pid pi used (
            rw next
              (search d n (suc pid) (omega arith) (omega arith) (omega arith) (rw same at empty))))
  ]

  -- Up to the largest number and then from the smallest one.
  search_wrapped :
      (d rounds pid slot : ℕ)
      → d + procs_max ≤ rounds
      → pid_min ≤ pid
      → pid + d ≡ pid_max
      → slot < procs_max
      → slots slot ≡ none
      → FindsFree (find_pid rounds slots pid)
  unfolding inc_nextpid
  search_wrapped d zero pid slot enough low high within empty = absurd (omega arith)
  search_wrapped zero (suc n) pid slot enough low high within empty =
      elim (Option-cases (slots (pid % procs_max))) [
        | inl free ↦ here (suc n) pid (low, omega arith, free)
        | inr (pi, used) ↦
            (let wrap : inc_nextpid pid ≡ pid_min = ground arith in
              let d : ℕ = (slot + 126) % procs_max in
              let at : (pid_min + d) % procs_max ≡ slot = omega arith in
              further n pid pi used (
                rw wrap
                  (search d n pid_min (omega arith) (omega arith) (omega arith) (rw at empty))))
      ]
  search_wrapped (suc d) (suc n) pid slot enough low high within empty =
      elim (Option-cases (slots (pid % procs_max))) [
        | inl free ↦ here (suc n) pid (low, omega arith, free)
        | inr (pi, used) ↦
            (let next : inc_nextpid pid ≡ suc pid = ground arith in
              further n pid pi used (
                rw next (
                  search_wrapped d n (suc pid) slot (omega arith) (omega arith) (omega arith) within
                    empty)))
      ]

  -- While any slot is free, the loop finds a number before its assertion fails.
  pub find_pid-Free :
      (pid slot : ℕ)
      → pid_min ≤ pid
      → pid ≤ pid_max
      → slot < procs_max
      → slots slot ≡ none
      → FindsFree (find_pid (procs_max * 2 + 5) slots pid)
  find_pid-Free pid slot low high within empty = elim (le_cases (pid + procs_max) (suc pid_max)) [
    | inl fits ↦
        (let d : ℕ = (slot + procs_max - pid % procs_max) % procs_max in
          let at : (pid + d) % procs_max ≡ slot = omega arith in
          search d (procs_max * 2 + 5) pid (omega arith) low (omega arith) (rw at empty))
    | inr late ↦
        search_wrapped (pid_max - pid) (procs_max * 2 + 5) pid slot (omega arith) low (omega arith)
          within empty
  ]
