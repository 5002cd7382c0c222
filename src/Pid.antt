-- ===== src/Pid.antt =====
-- kern/proc/pid.c: the process table. A slot holds the data of one process; `cur` is
-- curproc->p_pid. A failed KASSERT is a fault (`none`). Each operation holds the lock of the table
-- throughout, so it runs alone; pid_wait gives the lock up while it sleeps, and is two operations.
pub mod Search
pub mod Table
pub mod Slots
pub mod Exit
pub mod Alloc
pub mod Wait
pub mod Wake
use os161_virtual_memory_imp.Common.{
  ℕ, zero, suc, ◌+◌, ◌-◌, ◌*◌, ◌%◌, Bool, true, false, not, ◌&&◌, ◌||◌, Option, none, some, ltb,
  leb, ◌==◌, if◌then◌else◌, ◌>>=◌, update, ℤ, pos, negsuc,
}
use os161_virtual_memory_imp.Machine.{enomem, einval}

abbrev pub enosys : ℕ
enosys = 1

abbrev pub eagain : ℕ
eagain = 4

abbrev pub eperm : ℕ
eperm = 9

abbrev pub esrch : ℕ
esrch = 15

abbrev pub wnohang : ℕ
wnohang = 1

abbrev pub invalid_pid : ℕ
invalid_pid = 0

abbrev pub kernel_pid : ℕ
kernel_pid = 1

abbrev pub pid_min : ℕ
pid_min = 2

abbrev pub pid_max : ℕ
pid_max = 32767

abbrev pub procs_max : ℕ
procs_max = 128

-- struct pidinfo, but for the condition variable.
pub record PidInfo : Type 0 where
  pub pi_pid : ℕ
  pub pi_ppid : ℕ
  pub pi_exited : Bool
  pub pi_exitstatus : ℕ

pub record Pids : Type 0 where
  pub pidinfo : ℕ → Option PidInfo
  pub nextpid : ℕ
  pub nprocs : ℕ

-- The structure that pidinfo_create fills in.
abbrev pub new_pidinfo : (pid ppid : ℕ) → PidInfo
new_pidinfo pid ppid = record {
  pi_pid = pid;
  pi_ppid = ppid;
  pi_exited = false;
  pi_exitstatus = 0xbeef;
}

-- `room` says whether there is memory for the structure and its condition variable.
unfoldable pub pidinfo_create : (room : Bool) → (pid ppid : ℕ) → Option PidInfo
pidinfo_create room pid ppid = if room then some (new_pidinfo pid ppid) else none

-- A panic, when there is no memory, is a fault.
unfoldable pub pid_bootstrap : (room : Bool) → Option Pids
pid_bootstrap room = do
  pi ← pidinfo_create room kernel_pid invalid_pid
  some (record { pidinfo = update (λ _. none) kernel_pid (some pi); nextpid = pid_min; nprocs = 1 })

-- NULL is `none` here.
unfoldable pub pi_get : ℕ → Pids → Option PidInfo
pi_get pid ps = do pi ← ps.pidinfo (pid % procs_max); if pi.pi_pid == pid then some pi else none

unfoldable pub pi_put : ℕ → PidInfo → Pids → Option Pids
pi_put pid pi ps = elim (ps.pidinfo (pid % procs_max)) [
  | some other ↦ none
  | none ↦ some (record ps {
    pidinfo = update ps.pidinfo (pid % procs_max) (some pi);
    nprocs = suc ps.nprocs;
  })
]

-- With the assertions of pidinfo_destroy.
unfoldable pub pi_drop : ℕ → Pids → Option Pids
pi_drop pid ps = do
  pi ← ps.pidinfo (pid % procs_max)
  if (pi.pi_pid == pid) && (pi.pi_exited && (pi.pi_ppid == invalid_pid))
      then some
          (record ps { pidinfo = update ps.pidinfo (pid % procs_max) none; nprocs = ps.nprocs - 1 })
      else none

unfoldable pub inc_nextpid : ℕ → ℕ
inc_nextpid pid = if ltb pid_max (suc pid) then pid_min else suc pid

-- The loop of pid_alloc, over the rounds that its assertion leaves.
unfoldable pub find_pid : (rounds : ℕ) → (ℕ → Option PidInfo) → (pid : ℕ) → Option ℕ
find_pid zero slots pid = elim (slots (pid % procs_max)) [ none ↦ some pid | some pi ↦ none ]
find_pid (suc n) slots pid =
    let next = find_pid n slots (inc_nextpid pid) in
    elim (slots (pid % procs_max)) [ none ↦ some pid | some pi ↦ next ]

-- An error number, the new process's number, and the table.
unfoldable pub pid_alloc : (room : Bool) → (cur : ℕ) → Pids → Option (ℕ × ℕ × Pids)
pid_alloc room cur ps =
    if cur == invalid_pid
    then none
    else if ps.nprocs == procs_max
    then some (eagain, 0, ps)
    else (do
      pid ← find_pid (procs_max * 2 + 5) ps.pidinfo ps.nextpid
      elim (pidinfo_create room pid cur) [
        | none ↦ some (enomem, 0, record ps { nextpid = pid })
        | some pi ↦ (do
          ps' ← pi_put pid pi (record ps { nextpid = pid })
          some (0, pid, record ps' { nextpid = inc_nextpid pid }))
      ])

abbrev pub store : (slot : ℕ) → PidInfo → Pids → Pids
store slot pi ps = record ps { pidinfo = update ps.pidinfo slot (some pi) }

abbrev pub in_range : ℕ → Bool
in_range pid = leb pid_min pid && leb pid pid_max

unfoldable pub pid_unalloc : (cur theirpid : ℕ) → Pids → Option Pids
pid_unalloc cur theirpid ps = if not (in_range theirpid) then none else (do
  them ← pi_get theirpid ps
  let them' = record them { pi_exitstatus = 0xdead; pi_exited = true; pi_ppid = invalid_pid }
  let rest = pi_drop theirpid (store (theirpid % procs_max) them' ps)
  if not them.pi_exited && (them.pi_ppid == cur) then rest else none)

-- A process that nobody will wait for is dropped if it has exited.
unfoldable pub disown_info : (slot : ℕ) → PidInfo → Pids → Option Pids
disown_info slot pi ps =
    let ps' = store slot (record pi { pi_ppid = invalid_pid }) ps in
    if pi.pi_exited then pi_drop pi.pi_pid ps' else some ps'

unfoldable pub pid_disown : (cur theirpid : ℕ) → Pids → Option Pids
pid_disown cur theirpid ps = if not (in_range theirpid) then none else (do
  them ← pi_get theirpid ps
  if them.pi_ppid == cur then disown_info (theirpid % procs_max) them ps else none)

-- The first loop of pid_setexitstatus, over the rounds that are left.
unfoldable pub disown_slot : (cur i : ℕ) → Pids → Option Pids
disown_slot cur i ps = elim (ps.pidinfo i) [
  | none ↦ some ps
  | some pi ↦ if pi.pi_ppid == cur then disown_info i pi ps else some ps
]

unfoldable pub disown_children : (cur rounds i : ℕ) → Pids → Option Pids
disown_children cur zero i ps = some ps
disown_children cur (suc n) i ps =
    let next = λ (ps' : Pids). disown_children cur n (suc i) ps' in
    do ps' ← disown_slot cur i ps; next ps'

-- The new curproc->p_pid, and the table.
unfoldable pub pid_setexitstatus : (cur status : ℕ) → Pids → Option (ℕ × Pids)
pid_setexitstatus cur status ps = if cur == invalid_pid then none else (do
  ps' ← disown_children cur procs_max 0 ps
  us ← pi_get cur ps'
  let us' = record us { pi_exitstatus = status; pi_exited = true }
  let ps2 = store (cur % procs_max) us' ps'
  let dropped = (do ps3 ← pi_drop cur ps2; some (invalid_pid, ps3))
  if us.pi_ppid == invalid_pid then dropped else some (invalid_pid, ps2))

-- What pid_wait comes to: an error; nothing yet (WNOHANG), with 0 in `*ret`; what is stored in
-- `*status` and in `*ret`, NULL pointers getting nothing; or sleep on the condition variable.
pub data Waited : Type 0 where
  failed : (error : ℕ) → Waited
  nothing_yet asleep : Waited
  collected : (status pid : Option ℕ) → Waited

-- Which of the pointers `status` and `ret` are not NULL.
pub record Pointers : Type 0 where
  pub status : Bool
  pub ret : Bool

abbrev pub stored_at : (given : Bool) → ℕ → Option ℕ
stored_at given x = if given then some x else none

-- The end of pid_wait, with the process found. After a sleep its first assertion is that the
-- process has exited.
unfoldable pub collect : Pointers → (theirpid : ℕ) → PidInfo → Pids → Option (Waited × Pids)
collect ptrs theirpid them ps = do
  ps' ←
      pi_drop them.pi_pid
        (store (them.pi_pid % procs_max) (record them { pi_ppid = invalid_pid }) ps)
  some (collected (stored_at ptrs.status them.pi_exitstatus) (stored_at ptrs.ret theirpid), ps')

unfoldable pub pid_wake : Pointers → (theirpid : ℕ) → Pids → Option (Waited × Pids)
pid_wake ptrs theirpid ps = do
  them ← pi_get theirpid ps
  if them.pi_exited then collect ptrs theirpid them ps else none

-- `pid_wait` on a number that is not negative and not 0, the guards before that being passed.
unfoldable pub wait_for : Pointers → (cur theirpid flags : ℕ) → Pids → Option (Waited × Pids)
wait_for ptrs cur theirpid flags ps = elim (pi_get theirpid ps) [
  | none ↦ some (failed esrch, ps)
  | some them ↦
      (let done = collect ptrs theirpid them ps in
        if not (them.pi_ppid == cur)
        then some (failed eperm, ps)
        else if them.pi_exited
        then done
        else if flags == wnohang
        then (if not ptrs.ret then none else some (nothing_yet, ps))
        else some (asleep, ps))
]

unfoldable pub pid_wait :
    Pointers → (cur : ℕ) → (theirpid : ℤ) → (flags : ℕ) → Pids → Option (Waited × Pids)
pid_wait ptrs cur (negsuc n) flags ps =
    if cur == invalid_pid then none else some (failed enosys, ps)
pid_wait ptrs cur (pos theirpid) flags ps =
    if cur == invalid_pid
    then none
    else if theirpid == cur
    then some (failed einval, ps)
    else if theirpid == invalid_pid
    then some (failed enosys, ps)
    else if not (flags == 0) && not (flags == wnohang)
    then some (failed einval, ps)
    else wait_for ptrs cur theirpid flags ps
