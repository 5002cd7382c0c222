-- ===== src/Pid/Wake.antt =====
-- pid_wait after its sleep, when the child has exited.
use os161_virtual_memory_imp.Common.{ℕ, ◌≡◌, false}
use os161_virtual_memory_imp.Pid.{PidInfo, Pids, Pointers}
use os161_virtual_memory_imp.Pid.Wait.{IsChild}

module _ (ptrs : Pointers) (cur pid flags : ℕ) (ps : Pids) where
  -- The child that pid_wait sleeps on.
  abbrev Sleeps : Type 0
  Sleeps = (them : PidInfo) × IsChild cur pid ps them × (them.pi_exited ≡ false)
