-- ===== src/Copyinout/Reads.antt =====
-- kern/vm/copyinout.c: copyin and copyinstr read user space alone.
use os161_virtual_memory_imp.Common.{
  ℕ, zero, suc, ◌+◌, ◌-◌, ◌≤◌, ◌<◌, ◌≡◌, refl, ap, ◌∙◌, inl, inr, Option, ltb, ◌==◌, update, arith,
  Bool-cases, Option-cases, eq→eqb, ne→eqb,
}
use os161_virtual_memory_imp.Machine.{word}
use os161_virtual_memory_imp.Copyinout.{
  userspacetop, Bytes, memcpy_in, after_setjmp, copyin, copystr, write_kernel, copyinstr,
}
use os161_virtual_memory_imp.Copyinout.Blocks.{room, copycheck-cases, copycheck-room}

-- Two memories that answer alike below an address.
abbrev pub AgreeBelow : (limit : ℕ) → (user user' : ℕ → Option ℕ) → Type 0
AgreeBelow limit user user' = (a : ℕ) → a < limit → user a ≡ user' a

memcpy_in-agree :
    (n i usersrc limit : ℕ) (user user' : ℕ → Option ℕ) (dest : Bytes)
    → AgreeBelow limit user user'
    → usersrc + i + n ≤ limit
    → memcpy_in n i usersrc user dest ≡ memcpy_in n i usersrc user' dest
unfolding memcpy_in
memcpy_in-agree zero i usersrc limit user user' dest same h = refl
memcpy_in-agree (suc n) i usersrc limit user user' dest same h =
    let here : user (usersrc + i) ≡ user' (usersrc + i) = same (usersrc + i) (omega arith) in
    elim (Option-cases (user' (usersrc + i))) [
      | inl e ↦ rw (here ∙ e, e, memcpy_in) refl
      | inr (c, e) ↦
          rw (here ∙ e, e, memcpy_in)
            (memcpy_in-agree n (suc i) usersrc limit user user' (update dest i c) same
              (omega arith))
    ]

copystr-agree :
    (n i maxlen stoplen : ℕ) (read read' : ℕ → Option ℕ) (dest : Bytes)
    → AgreeBelow stoplen read read'
    → copystr n i maxlen stoplen read write_kernel dest
      ≡ copystr n i maxlen stoplen read' write_kernel dest
unfolding copystr
copystr-agree zero i maxlen stoplen read read' dest same = refl
copystr-agree (suc n) i maxlen stoplen read read' dest same = elim (Bool-cases (ltb i stoplen)) [
  | inr stop ↦ rw (stop, copystr) refl
  | inl go ↦
      let here : read i ≡ read' i = same i (ground arith) in
      elim (Option-cases (read' i)) [
        | inl e ↦ rw (go, here ∙ e, e, copystr) refl
        | inr (c, e) ↦ elim (Bool-cases (c == 0)) [
          | inl z ↦ rw (go, here ∙ e, e, z, copystr) refl
          | inr z ↦
              rw (go, here ∙ e, e, z, copystr)
                (copystr-agree n (suc i) maxlen stoplen read read' (update dest i c) same)
        ]
      ]
]

copyin-agree :
    (usersrc len : ℕ) (user user' : ℕ → Option ℕ) (dest : Bytes)
    → usersrc < word
    → len < word
    → AgreeBelow userspacetop user user'
    → copyin usersrc len user dest ≡ copyin usersrc len user' dest
unfolding copyin
copyin-agree usersrc len user user' dest p l same = elim (copycheck-cases usersrc len p l) [
  | inl (inside, run) ↦
      rw (run, eq→eqb len len refl)
        (ap after_setjmp (
          memcpy_in-agree len 0 usersrc userspacetop user user' dest same
            (omega (arith, inside.1))))
  | inr (outside, inl run) ↦ rw run refl
  | inr (outside, inr (run, _, other)) ↦ rw (run, ne→eqb (userspacetop - usersrc) len other) refl
]

copyinstr-agree :
    (usersrc len : ℕ) (user user' : ℕ → Option ℕ) (dest : Bytes)
    → usersrc < word
    → len < word
    → AgreeBelow userspacetop user user'
    → copyinstr usersrc len user dest ≡ copyinstr usersrc len user' dest
unfolding copyinstr copystr
copyinstr-agree usersrc zero user user' dest p l same = refl
copyinstr-agree usersrc (suc n) user user' dest p l same =
    elim (copycheck-room usersrc (suc n) p l (omega arith)) [
      | inr (bad, run) ↦ rw run refl
      | inl (low, whole, run) ↦ rw run (
          copystr-agree (suc n) 0 (suc n) (room usersrc (suc n)) (λ i. user (usersrc + i))
            (λ i. user' (usersrc + i)) dest (λ i h. same (usersrc + i) (ground (arith, h))))
    ]

-- If two memories answer alike below the top of user space, copyin and copyinstr do the same with
-- both, at any 32-bit address and length: the same error or end, and the same bytes stored.
pub copyin-Agrees :
    (usersrc len : ℕ) (user user' : ℕ → Option ℕ) (dest : Bytes)
    → usersrc < word
    → len < word
    → AgreeBelow userspacetop user user'
    → (copyin usersrc len user dest ≡ copyin usersrc len user' dest)
      × (copyinstr usersrc len user dest ≡ copyinstr usersrc len user' dest)
copyin-Agrees usersrc len user user' dest p l same = (
  copyin-agree usersrc len user user' dest p l same,
  copyinstr-agree usersrc len user user' dest p l same,
)
