-- ===== src/Tests/Processes.antt =====
-- The theorems about the process table, on a table of three processes.
use os161_virtual_memory_imp.Common.{ℕ, ◌<◌, ◌≡◌, refl, true, false, none, some, arith, update}
use os161_virtual_memory_imp.Pid.{
  PidInfo, Pids, procs_max, pi_get, pid_setexitstatus, Pointers, pid_disown, pid_unalloc,
}
use os161_virtual_memory_imp.Pid.Table.{IsPids, put-IsPids}
use os161_virtual_memory_imp.Pid.Slots.{Sets, orphaned, finished, disowned}
use os161_virtual_memory_imp.Pid.Exit.{
  pid_disown-Sets, pid_unalloc-Sets, pid_setexitstatus-finished,
}

-- The kernel; its child, which runs; and a child of that, which has exited.
abbrev kernel : PidInfo
kernel = record { pi_pid = 1; pi_ppid = 0; pi_exited = false; pi_exitstatus = 0 }

abbrev shell : PidInfo
shell = record { pi_pid = 2; pi_ppid = 1; pi_exited = false; pi_exitstatus = 0 }

abbrev job : PidInfo
job = record { pi_pid = 3; pi_ppid = 2; pi_exited = true; pi_exitstatus = 7 }

abbrev nobody : Pids
nobody = record { pidinfo = λ _. none; nextpid = 4; nprocs = 0 }

abbrev with_kernel : Pids
with_kernel = record nobody { pidinfo = update nobody.pidinfo 1 (some kernel); nprocs = 1 }

abbrev with_shell : Pids
with_shell = record with_kernel { pidinfo = update with_kernel.pidinfo 2 (some shell); nprocs = 2 }

abbrev processes : Pids
processes = record with_shell { pidinfo = update with_shell.pidinfo 3 (some job); nprocs = 3 }

nobody-IsPids : IsPids nobody
nobody-IsPids = record {
  low = omega arith;
  high = omega arith;
  counted = refl;
  infos = λ i pi e. absurd cc;
}

processes-IsPids : IsPids processes
processes-IsPids =
    let v1 =
      put-IsPids nobody nobody-IsPids 1 kernel
        (record {
          slotted = refl;
          numbered = omega arith;
          small = omega arith;
          wanted = λ e. absurd cc;
        })
        refl in
    let v2 =
      put-IsPids with_kernel v1 2 shell
        (record {
          slotted = refl;
          numbered = omega arith;
          small = omega arith;
          wanted = λ e. absurd cc;
        })
        refl in
    put-IsPids with_shell v2 3 job
      (record {
        slotted = refl;
        numbered = omega arith;
        small = omega arith;
        wanted = λ e. omega arith;
      })
      refl

pid_setexitstatus-finished_example :
    (ps' : Pids) × (pid_setexitstatus 2 9 processes ≡ some (0, ps'))
    × IsPids ps'
    × ((j : ℕ) → j < procs_max → ps'.pidinfo j ≡ finished 2 9 (disowned 2 (processes.pidinfo j)))
unfolding pi_get
pid_setexitstatus-finished_example =
    pid_setexitstatus-finished 2 9 processes shell (omega arith) processes-IsPids refl refl

abbrev pointers : Pointers
pointers = record { status = true; ret = false }

pid_disown-Sets_example : Sets processes 3 (orphaned job) (pid_disown 2 3 processes)
unfolding pi_get
pid_disown-Sets_example = pid_disown-Sets 2 3 processes job processes-IsPids refl refl refl

-- The kernel takes back the number of its child.
pid_unalloc-Sets_example : Sets processes 2 none (pid_unalloc 1 2 processes)
unfolding pi_get
pid_unalloc-Sets_example = pid_unalloc-Sets 1 2 processes shell processes-IsPids refl refl refl refl
