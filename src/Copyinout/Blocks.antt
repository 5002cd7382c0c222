-- ===== src/Copyinout/Blocks.antt =====
-- kern/vm/copyinout.c: copycheck and copyin.
use os161_virtual_memory_imp.Common.{
  ℕ, zero, suc, ◌+◌, ◌-◌, ◌%◌, ◌≤◌, ◌<◌, ◌≡◌, ◌≢◌, refl, sym, ap, ◌∙◌, ◌⊎◌, inl, inr, Bool, true,
  false, Option, some, none, ltb, leb, ◌==◌, if◌then◌else◌, update, arith, Bool-cases, Option-cases,
  eqb→eq, eq→eqb, ne→eqb, eqb→ne,
}
use os161_virtual_memory_imp.Machine.{word, efault}
use os161_virtual_memory_imp.Copyinout.{
  userspacetop, copycheck, Bytes, memcpy_in, after_setjmp, copyin,
}

-- A block that has bytes and lies below the top of user space.
abbrev pub InUserSpace : (userptr len : ℕ) → Type 0
InUserSpace userptr len = (0 < len) × (userptr + len ≤ userspacetop)

-- What copycheck answers: the block, the part of it below the top, or EFAULT.
pub copycheck-cases :
    (userptr len : ℕ)
    → userptr < word
    → len < word
    → (InUserSpace userptr len × (copycheck userptr len ≡ (0, len)))
      ⊎ ((¬ InUserSpace userptr len)
          × ((copycheck userptr len ≡ (efault, len))
              ⊎ ((copycheck userptr len ≡ (0, userspacetop - userptr))
                  × (userptr < userspacetop)
                  × (userspacetop - userptr ≢ len))))
unfolding copycheck
copycheck-cases userptr len p l =
    let top : ℕ = (userptr + len + word - 1) % word in
    elim (Bool-cases (ltb top userptr)) [
      | inl a ↦ inr ((λ h. absurd (ground (arith, h))), inl (rw a refl))
      | inr a ↦ elim (Bool-cases (leb userspacetop userptr)) [
        | inl c ↦ inr ((λ h. absurd (ground (arith, h))), inl (rw (a, c) refl))
        | inr c ↦ elim (Bool-cases (leb userspacetop top)) [
          | inl d ↦ inr (
            (λ h. absurd (ground (arith, h))),
            inr (rw (a, c, d) refl, ground arith, λ e. ground (arith, e)),
          )
          | inr d ↦ inl ((ground arith, ground arith), rw (a, c, d) refl)
        ]
      ]
    ]

-- How many bytes of a block lie below the top.
abbrev pub room : (userptr len : ℕ) → ℕ
room userptr len = if ltb userspacetop (userptr + len) then userspacetop - userptr else len

pub copycheck-room :
    (userptr len : ℕ)
    → userptr < word
    → len < word
    → 0 < len
    → ((userptr < userspacetop)
        × (userptr + len ≤ word)
        × (copycheck userptr len ≡ (0, room userptr len)))
      ⊎ (((userspacetop ≤ userptr) ⊎ (word < userptr + len))
          × (copycheck userptr len ≡ (efault, len)))
unfolding copycheck
copycheck-room userptr len p l some_len =
    let top : ℕ = (userptr + len + word - 1) % word in
    elim (Bool-cases (ltb top userptr)) [
      | inl a ↦ inr (inr (ground arith), rw a refl)
      | inr a ↦ elim (Bool-cases (leb userspacetop userptr)) [
        | inl c ↦ inr (inl (ground arith), rw (a, c) refl)
        | inr c ↦ elim (Bool-cases (leb userspacetop top)) [
          | inl d ↦
              let over : ltb userspacetop (userptr + len) ≡ true = ground arith in
              inl (ground arith, ground arith, rw (a, c, d, over) refl)
          | inr d ↦
              let under : ltb userspacetop (userptr + len) ≡ false = ground arith in
              inl (ground arith, ground arith, rw (a, c, d, under) refl)
        ]
      ]
    ]

-- The `n` user bytes from the i-th one can all be read, or one of them cannot.
abbrev pub AllRead : (n i usersrc : ℕ) → (ℕ → Option ℕ) → Bytes → Type 0
AllRead n i usersrc user dest = (j : ℕ) → i ≤ j → j < i + n → user (usersrc + j) ≡ some (dest j)

abbrev pub OneFatal : (n i usersrc : ℕ) → (ℕ → Option ℕ) → Type 0
OneFatal n i usersrc user = (j : ℕ) × (i ≤ j) × (j < i + n) × (user (usersrc + j) ≡ none)

-- What has been written so far stays as the rest is copied.
memcpy_in-earlier :
    (n i usersrc : ℕ) (user : ℕ → Option ℕ) (dest : Bytes) (j : ℕ)
    → (j < i) ⊎ (i + n ≤ j)
    → (memcpy_in n i usersrc user dest).1 j ≡ dest j
unfolding memcpy_in
memcpy_in-earlier zero i usersrc user dest j h = refl
memcpy_in-earlier (suc n) i usersrc user dest j h = elim (Option-cases (user (usersrc + i))) [
  | inl e ↦ rw (e, memcpy_in) refl
  | inr (c, e) ↦
      rw (e, memcpy_in)
        (memcpy_in-earlier n (suc i) usersrc user (update dest i c) j (ground arith)
          ∙ ap (λ b. if b then c else dest j) (ne→eqb i j (ground arith)))
]

memcpy_in_lem :
    (n i usersrc : ℕ) (user : ℕ → Option ℕ) (dest : Bytes)
    → let run = memcpy_in n i usersrc user dest in
      ((run.0 ≡ true) × AllRead n i usersrc user run.1)
      ⊎ ((run.0 ≡ false) × OneFatal n i usersrc user)
unfolding memcpy_in
memcpy_in_lem zero i usersrc user dest = inl (refl, λ j lo hi. absurd (omega arith))
memcpy_in_lem (suc n) i usersrc user dest = elim (Option-cases (user (usersrc + i))) [
  | inl e ↦ inr (rw (e, memcpy_in) refl, (i, omega arith, omega arith, e))
  | inr (c, e) ↦ elim (memcpy_in_lem n (suc i) usersrc user (update dest i c)) [
    | inr (run, (j, lo, hi, bad)) ↦ inr (rw (e, memcpy_in) run, (j, omega arith, omega arith, bad))
    | inl (run, all) ↦ inl (
      rw (e, memcpy_in) run,
      λ j lo hi. elim (Bool-cases (i == j)) [
        | inl same ↦
            let same' : i ≡ j = eqb→eq i j same in
            let first =
              memcpy_in-earlier n (suc i) usersrc user (update dest i c) j (inl (omega arith)) in
            rw (e, memcpy_in)
              (ap (λ x. user (usersrc + x)) (sym same')
                ∙ e
                ∙ ap some (sym (first ∙ ap (λ b. if b then c else dest j) same)))
        | inr other ↦ rw (e, memcpy_in) (all j (omega (arith, eqb→ne i j other)) (omega arith))
      ],
    )
  ]
]

after_setjmp-true : (r : Bool × Bytes) → r.0 ≡ true → after_setjmp r ≡ (0, r.1)
after_setjmp-true (true, mem) e = refl
after_setjmp-true (false, mem) e = absurd (grind (arith, e))

after_setjmp-false : (r : Bool × Bytes) → r.0 ≡ false → after_setjmp r ≡ (efault, r.1)
after_setjmp-false (true, mem) e = absurd (grind (arith, e))
after_setjmp-false (false, mem) e = refl

-- copyin of a block of `len` bytes, both numbers being 32-bit words. It succeeds for a block that
-- is not empty, lies below the top of user space and can be read: then the bytes are there, and
-- nothing behind them has changed. Otherwise it returns EFAULT, also for an empty block.
pub copyin-Copies :
    (usersrc len : ℕ) (user : ℕ → Option ℕ) (dest : Bytes)
    → usersrc < word
    → len < word
    → let (error, dest') = copyin usersrc len user dest in
      ((j : ℕ) → len ≤ j → dest' j ≡ dest j)
      × (((error ≡ 0) × InUserSpace usersrc len × AllRead len 0 usersrc user dest')
          ⊎ ((error ≡ efault) × ((¬ InUserSpace usersrc len) ⊎ OneFatal len 0 usersrc user)))
unfolding copyin
copyin-Copies usersrc len user dest p l = elim (copycheck-cases usersrc len p l) [
  | inl (inside, run) ↦ elim (memcpy_in_lem len 0 usersrc user dest) [
    | inl (ok, all) ↦
        rw (run, eq→eqb len len refl, after_setjmp-true (memcpy_in len 0 usersrc user dest) ok)
          (
            (λ j h. memcpy_in-earlier len 0 usersrc user dest j (inr (omega arith))),
            inl (refl, inside, all),
          )
    | inr (bad, fatal) ↦
        rw (run, eq→eqb len len refl, after_setjmp-false (memcpy_in len 0 usersrc user dest) bad)
          (
            (λ j h. memcpy_in-earlier len 0 usersrc user dest j (inr (omega arith))),
            inr (refl, inr fatal),
          )
  ]
  | inr (outside, inl run) ↦ rw (run) ((λ j h. refl), inr (refl, inl outside))
  | inr (outside, inr (run, _, other)) ↦
      rw (run, ne→eqb (userspacetop - usersrc) len other) ((λ j h. refl), inr (refl, inl outside))
]
