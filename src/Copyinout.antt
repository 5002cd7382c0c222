-- ===== src/Copyinout.antt =====
-- kern/vm/copyinout.c: copies between the kernel and a user process. User memory answers a read with
-- a byte or, where the access would be fatal, with `none`: the trap code then resumes in copyfail,
-- which returns to setjmp, and the copy ends with EFAULT.
pub mod Blocks
pub mod Strings
pub mod Kernel
pub mod Reads
use os161_virtual_memory_imp.Common.{
  ℕ, zero, suc, ◌+◌, ◌-◌, ◌%◌, Bool, true, false, not, Option, some, none, ltb, leb, ◌==◌,
  if◌then◌else◌, update,
}
use os161_virtual_memory_imp.Machine.{word, mips_kseg0, efault}

abbrev pub userspacetop : ℕ
userspacetop = mips_kseg0

abbrev pub enametoolong : ℕ
enametoolong = 7

-- The error number, and what is stored in `*stoplen`.
unfoldable pub copycheck : (userptr len : ℕ) → ℕ × ℕ
copycheck userptr len =
    let bot = userptr in
    let top = (bot + len + word - 1) % word in
    if ltb top bot
    then (efault, len)
    else if leb userspacetop bot
    then (efault, len)
    else if leb userspacetop top
    then (0, userspacetop - bot)
    else (0, len)

-- Memory as bytes, for the kernel's and the user's; `access` says which user addresses may be
-- written to.
abbrev pub Bytes : Type 0
Bytes = ℕ → ℕ

-- memcpy over the rounds that are left: whether it came to its end, and what it has written.
unfoldable pub memcpy_in : (rounds i usersrc : ℕ) → (ℕ → Option ℕ) → Bytes → Bool × Bytes
memcpy_in zero i usersrc user dest = (true, dest)
memcpy_in (suc n) i usersrc user dest = elim (user (usersrc + i)) [
  | none ↦ (false, dest)
  | some c ↦ memcpy_in n (suc i) usersrc user (update dest i c)
]

unfoldable pub memcpy_out : (rounds i userdest : ℕ) → (ℕ → Bool) → (src mem : Bytes) → Bool × Bytes
memcpy_out zero i userdest access src mem = (true, mem)
memcpy_out (suc n) i userdest access src mem = elim (access (userdest + i)) [
  | false ↦ (false, mem)
  | true ↦ memcpy_out n (suc i) userdest access src (update mem (userdest + i) (src i))
]

abbrev pub after_setjmp : Bool × Bytes → ℕ × Bytes
after_setjmp (true, mem) = (0, mem)
after_setjmp (false, mem) = (efault, mem)

unfoldable pub copyin : (usersrc len : ℕ) → (ℕ → Option ℕ) → Bytes → ℕ × Bytes
copyin usersrc len user dest =
    let (result, stoplen) = copycheck usersrc len in
    if not (result == 0)
    then (result, dest)
    else if not (stoplen == len)
    then (efault, dest)
    else after_setjmp (memcpy_in len 0 usersrc user dest)

unfoldable pub copyout : (userdest len : ℕ) → (ℕ → Bool) → (src mem : Bytes) → ℕ × Bytes
copyout userdest len access src mem =
    let (result, stoplen) = copycheck userdest len in
    if not (result == 0)
    then (result, mem)
    else if not (stoplen == len)
    then (efault, mem)
    else after_setjmp (memcpy_out len 0 userdest access src mem)

-- How copystr ends: with an error number and the length found, or in a fatal access.
pub data StringEnd : Type 0 where
  found : (gotlen : ℕ) → StringEnd
  failed : (error : ℕ) → StringEnd
  fatal : StringEnd

-- What the callers of copystr return; after a fatal access setjmp has returned again.
abbrev pub string_error : StringEnd → ℕ
string_error (found gotlen) = 0
string_error (failed error) = error
string_error fatal = efault

-- The loop of copystr over the rounds that `maxlen` leaves, and what follows it. `read` and `write`
-- are the accesses to the two strings, one of which is the user's.
unfoldable pub copystr :
    (rounds i maxlen stoplen : ℕ)
    → (ℕ → Option ℕ)
    → (ℕ → ℕ → Bytes → Option Bytes)
    → Bytes
    → StringEnd × Bytes
copystr zero i maxlen stoplen read write mem =
    (failed (if ltb stoplen maxlen then efault else enametoolong), mem)
copystr (suc n) i maxlen stoplen read write mem = elim (ltb i stoplen) [
  | false ↦ (failed (if ltb stoplen maxlen then efault else enametoolong), mem)
  | true ↦ elim (read i) [
    | none ↦ (fatal, mem)
    | some c ↦ elim (write i c mem) [
      | none ↦ (fatal, mem)
      | some mem' ↦ elim (c == 0) [
        | true ↦ (found (i + 1), mem')
        | false ↦ copystr n (suc i) maxlen stoplen read write mem'
      ]
    ]
  ]
]

abbrev pub write_kernel : ℕ → ℕ → Bytes → Option Bytes
write_kernel i c dest = some (update dest i c)

abbrev pub write_user : (userdest : ℕ) → (ℕ → Bool) → ℕ → ℕ → Bytes → Option Bytes
write_user userdest access i c mem =
    if access (userdest + i) then some (update mem (userdest + i) c) else none

unfoldable pub copyinstr : (usersrc len : ℕ) → (ℕ → Option ℕ) → Bytes → StringEnd × Bytes
copyinstr usersrc len user dest =
    let (result, stoplen) = copycheck usersrc len in
    if not (result == 0)
    then (failed result, dest)
    else copystr len 0 len stoplen (λ i. user (usersrc + i)) write_kernel dest

unfoldable pub copyoutstr : (userdest len : ℕ) → (ℕ → Bool) → (src mem : Bytes) → StringEnd × Bytes
copyoutstr userdest len access src mem =
    let (result, stoplen) = copycheck userdest len in
    if not (result == 0)
    then (failed result, mem)
    else copystr len 0 len stoplen (λ i. some (src i)) (write_user userdest access) mem
