-- ===== src/Copyinout/Kernel.antt =====
-- kern/vm/copyinout.c: the kernel's addresses are neither read nor written for a user.
use os161_virtual_memory_imp.Common.{
  ℕ, zero, suc, ◌+◌, ◌-◌, ◌≤◌, ◌<◌, ◌≡◌, refl, ap, ◌∙◌, ◌⊎◌, inl, inr, Bool, true, false, some, ltb,
  ◌==◌, if◌then◌else◌, update, arith, Bool-cases, eq→eqb, ne→eqb,
}
use os161_virtual_memory_imp.Machine.{word}
use os161_virtual_memory_imp.Copyinout.{
  userspacetop, Bytes, memcpy_out, after_setjmp, copyout, copystr, write_user, copyoutstr,
}
use os161_virtual_memory_imp.Copyinout.Blocks.{room, copycheck-cases, copycheck-room}

after_setjmp-memory : (r : Bool × Bytes) → (after_setjmp r).1 ≡ r.1
after_setjmp-memory (true, mem) = refl
after_setjmp-memory (false, mem) = refl

-- A byte that the user's block does not hold.
abbrev Outside : (userdest len a : ℕ) → Type 0
Outside userdest len a = (userspacetop ≤ a) ⊎ ((a < userdest) ⊎ (userdest + len ≤ a))

memcpy_out-outside :
    (n i userdest : ℕ) (access : ℕ → Bool) (src mem : Bytes) (a : ℕ)
    → (a < userdest) ⊎ (userdest + i + n ≤ a)
    → (memcpy_out n i userdest access src mem).1 a ≡ mem a
unfolding memcpy_out
memcpy_out-outside zero i userdest access src mem a h = refl
memcpy_out-outside (suc n) i userdest access src mem a h =
    elim (Bool-cases (access (userdest + i))) [
      | inr e ↦ rw (e, memcpy_out) refl
      | inl e ↦
          rw (e, memcpy_out)
            (memcpy_out-outside n (suc i) userdest access src (update mem (userdest + i) (src i)) a
                (ground arith)
              ∙ ap (λ b. if b then src i else mem a) (ne→eqb (userdest + i) a (ground arith)))
    ]

copystr-outside :
    (n i maxlen stoplen userdest : ℕ) (access : ℕ → Bool) (src mem : Bytes) (a : ℕ)
    → (a < userdest) ⊎ (userdest + stoplen ≤ a)
    → (copystr n i maxlen stoplen (λ i. some (src i)) (write_user userdest access) mem).1 a ≡ mem a
unfolding copystr
copystr-outside zero i maxlen stoplen userdest access src mem a h = refl
copystr-outside (suc n) i maxlen stoplen userdest access src mem a h =
    elim (Bool-cases (ltb i stoplen)) [
      | inr stop ↦ rw (stop, copystr) refl
      | inl go ↦ elim (Bool-cases (access (userdest + i))) [
        | inr e ↦ rw (go, e, copystr) refl
        | inl e ↦
            let kept : update mem (userdest + i) (src i) a ≡ mem a =
              ap (λ b. if b then src i else mem a) (ne→eqb (userdest + i) a (ground arith)) in
            elim (Bool-cases (src i == 0)) [
              | inl z ↦ rw (go, e, z, copystr) kept
              | inr z ↦
                  rw (go, e, z, copystr)
                    (copystr-outside n (suc i) maxlen stoplen userdest access src
                        (update mem (userdest + i) (src i)) a h
                      ∙ kept)
            ]
      ]
    ]

copyout-Outside :
    (userdest len : ℕ) (access : ℕ → Bool) (src mem : Bytes) (a : ℕ)
    → userdest < word
    → len < word
    → Outside userdest len a
    → (copyout userdest len access src mem).1 a ≡ mem a
unfolding copyout
copyout-Outside userdest len access src mem a p l h = elim (copycheck-cases userdest len p l) [
  | inl (inside, run) ↦
      rw (run, eq→eqb len len refl)
        (ap (λ m. m a) (after_setjmp-memory (memcpy_out len 0 userdest access src mem))
          ∙ memcpy_out-outside len 0 userdest access src mem a (ground (arith, h)))
  | inr (outside, inl run) ↦ rw run refl
  | inr (outside, inr (run, _, other)) ↦ rw (run, ne→eqb (userspacetop - userdest) len other) refl
]

copyoutstr-Outside :
    (userdest len : ℕ) (access : ℕ → Bool) (src mem : Bytes) (a : ℕ)
    → userdest < word
    → len < word
    → Outside userdest len a
    → (copyoutstr userdest len access src mem).1 a ≡ mem a
unfolding copyoutstr copystr
copyoutstr-Outside userdest zero access src mem a p l h = elim (copycheck-cases userdest 0 p l) [
  | inl (inside, run) ↦ rw run refl
  | inr (outside, inl run) ↦ rw run refl
  | inr (outside, inr (run, _, _)) ↦ rw run refl
]
copyoutstr-Outside userdest (suc n) access src mem a p l h =
    elim (copycheck-room userdest (suc n) p l (omega arith)) [
      | inr (bad, run) ↦ rw run refl
      | inl (low, whole, run) ↦ rw run (
          copystr-outside (suc n) 0 (suc n) (room userdest (suc n)) userdest access src mem a
            (ground (arith, h)))
    ]

-- copyout and copyoutstr, for any 32-bit address and length, successful or not, change no byte at
-- or above the top of user space, and none outside the block the caller names.
pub copyout-Kept :
    (userdest len : ℕ) (access : ℕ → Bool) (src mem : Bytes) (a : ℕ)
    → userdest < word
    → len < word
    → Outside userdest len a
    → ((copyout userdest len access src mem).1 a ≡ mem a)
      × ((copyoutstr userdest len access src mem).1 a ≡ mem a)
copyout-Kept userdest len access src mem a p l h = (
  copyout-Outside userdest len access src mem a p l h,
  copyoutstr-Outside userdest len access src mem a p l h,
)
