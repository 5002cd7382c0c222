-- ===== src/Tests/UserCopies.antt =====
-- The theorems about copies between the kernel and a user, on a user with one page.
use os161_virtual_memory_imp.Common.{
  ℕ, ◌+◌, ◌≤◌, ◌<◌, ◌≡◌, refl, ◌⊎◌, inl, Bool, Option, some, none, ltb, leb, ◌==◌, ◌&&◌,
  if◌then◌else◌, arith,
}
use os161_virtual_memory_imp.Machine.{word, efault}
use os161_virtual_memory_imp.Copyinout.{
  userspacetop, Bytes, failed, string_error, copycheck, copystr, memcpy_in, copyin, copyout,
  copyinstr, copyoutstr,
}
use os161_virtual_memory_imp.Copyinout.Blocks.{InUserSpace, AllRead, OneFatal, room, copyin-Copies}
use os161_virtual_memory_imp.Copyinout.Strings.{Ends, copyinstr-Ends}
use os161_virtual_memory_imp.Copyinout.Kernel.{copyout-Kept}
use os161_virtual_memory_imp.Copyinout.Reads.{AgreeBelow, copyin-Agrees}

-- A page with the string "hi".
abbrev mapped : ℕ → Bool
mapped a = leb 4096 a && ltb a 8192

abbrev user : ℕ → Option ℕ
user a = if mapped a then some (if a == 4096 then 104 else if a == 4097 then 105 else 0) else none

-- The same below the top of user space, where the kernel's bytes can be read as well.
abbrev leaking : ℕ → Option ℕ
leaking a = if leb userspacetop a then some 42 else user a

abbrev blank : Bytes
blank a = 7

copyin-Copies_example :
    let (error, dest') = copyin 4096 3 user blank in
    ((j : ℕ) → 3 ≤ j → dest' j ≡ 7)
    × (((error ≡ 0) × InUserSpace 4096 3 × AllRead 3 0 4096 user dest')
        ⊎ ((error ≡ efault) × ((¬ InUserSpace 4096 3) ⊎ OneFatal 3 0 4096 user)))
copyin-Copies_example = copyin-Copies 4096 3 user blank (omega arith) (omega arith)

copyin_test : (copyin 4096 3 user blank).0 ≡ 0
unfolding copyin copycheck memcpy_in
copyin_test = refl

copyin_fatal_test : (copyin 8190 3 user blank).0 ≡ efault
unfolding copyin copycheck memcpy_in
copyin_fatal_test = refl

copyinstr_test : string_error (copyinstr 4096 16 user blank).0 ≡ 0
unfolding copyinstr copycheck copystr
copyinstr_test = refl

copyinstr_fatal_test : string_error (copyinstr 8192 16 user blank).0 ≡ efault
unfolding copyinstr copycheck copystr
copyinstr_fatal_test = refl

copyinstr-Ends_example :
    let (end, dest') = copyinstr 4096 16 user blank in
    (((userspacetop ≤ 4096) ⊎ (word < 4096 + 16)) × (end ≡ failed efault) × (dest' ≡ blank))
    ⊎ ((4096 < userspacetop)
        × (4096 + 16 ≤ word)
        × Ends 0 16 (room 4096 16) (λ i. user (4096 + i)) dest' end
        × ((j : ℕ) → room 4096 16 ≤ j → dest' j ≡ 7))
copyinstr-Ends_example = copyinstr-Ends 4096 16 user blank (omega arith) (omega arith) (omega arith)

copyout-Kept_example :
    ((copyout 4096 3 mapped blank blank).1 userspacetop ≡ 7)
    × ((copyoutstr 4096 3 mapped blank blank).1 userspacetop ≡ 7)
copyout-Kept_example =
    copyout-Kept 4096 3 mapped blank blank userspacetop (omega arith) (omega arith)
      (inl (omega arith))

leaking-AgreeBelow : AgreeBelow userspacetop user leaking
leaking-AgreeBelow a h = ground (arith, h)

copyin-Agrees_example :
    (copyin 4096 3 user blank ≡ copyin 4096 3 leaking blank)
    × (copyinstr 4096 3 user blank ≡ copyinstr 4096 3 leaking blank)
copyin-Agrees_example =
    copyin-Agrees 4096 3 user leaking blank (omega arith) (omega arith) leaking-AgreeBelow
