-- ===== src/Pid/Alloc.antt =====
-- pid_alloc gives out a number that no process has.
use os161_virtual_memory_imp.Common.{
  ℕ, suc, ◌%◌, ◌≤◌, ◌≡◌, ◌≢◌, ◌⊎◌, true, false, Bool, Option, none, some, update,
}
use os161_virtual_memory_imp.Machine.{enomem}
use os161_virtual_memory_imp.Pid.{
  Pids, procs_max, pid_min, pid_max, invalid_pid, eagain, new_pidinfo, pi_get, inc_nextpid,
}
use os161_virtual_memory_imp.Pid.Search.{Free}
use os161_virtual_memory_imp.Pid.Table.{IsPids}

-- What pid_alloc comes to. EAGAIN: the table is full, and nothing changes. ENOMEM: only the hint for
-- the next number has moved. Otherwise the process with the new number is the only change.
abbrev pub Allocates : (room : Bool) → (cur : ℕ) → Pids → Option (ℕ × ℕ × Pids) → Type 0
Allocates room cur ps r =
    ((ps.nprocs ≡ procs_max) × (r ≡ some (eagain, 0, ps)))
    ⊎ ((ps.nprocs ≢ procs_max)
        × (room ≡ false)
        × ((pid : ℕ) × (r ≡ some (enomem, 0, record ps { nextpid = pid }))
            × IsPids (record ps { nextpid = pid })))
    ⊎ ((pid : ℕ) × (ps' : Pids) × (r ≡ some (0, pid, ps'))
        × (ps.nprocs ≢ procs_max)
        × (room ≡ true)
        × IsPids ps'
        × (pid_min ≤ pid)
        × (pid ≤ pid_max)
        × (pi_get pid ps ≡ none)
        × (pi_get pid ps' ≡ some (new_pidinfo pid cur))
        × ((i : ℕ) → pid % procs_max ≢ i → ps'.pidinfo i ≡ ps.pidinfo i))

module _ (room : Bool) (cur : ℕ) (running : cur ≢ invalid_pid) (ps : Pids) (v : IsPids ps) where
  module _ (pid : ℕ) (free : Free ps.pidinfo pid) where
    allocated : Pids
    allocated = record {
      pidinfo = update ps.pidinfo (pid % procs_max) (some (new_pidinfo pid cur));
      nextpid = inc_nextpid pid;
      nprocs = suc ps.nprocs;
    }
