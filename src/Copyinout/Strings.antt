-- ===== src/Copyinout/Strings.antt =====
-- kern/vm/copyinout.c: copystr and copyinstr.
use os161_virtual_memory_imp.Common.{
  ℕ, zero, suc, ◌+◌, ◌-◌, ◌≤◌, ◌<◌, ◌≡◌, ◌≢◌, refl, sym, ap, ◌∙◌, ◌⊎◌, inl, inr, false, Option,
  some, none, ltb, ◌==◌, if◌then◌else◌, update, arith, Bool-cases, Option-cases, eqb→eq, eq→eqb,
  ne→eqb, eqb→ne,
}
use os161_virtual_memory_imp.Machine.{word, efault}
use os161_virtual_memory_imp.Copyinout.{
  userspacetop, enametoolong, Bytes, StringEnd, found, failed, fatal, copystr, write_kernel,
  copyinstr,
}
use os161_virtual_memory_imp.Copyinout.Blocks.{room, copycheck-room}

-- The bytes from the i-th up to, and without, the k-th are read, copied and not the terminator.
abbrev pub Prefix : (i k : ℕ) → (ℕ → Option ℕ) → Bytes → Type 0
Prefix i k read dest = (j : ℕ) → i ≤ j → j < k → (read j ≡ some (dest j)) × (dest j ≢ 0)

-- What the end of copystr says of the string and of the copy, from the i-th byte on.
unfoldable pub Ends : (i maxlen stoplen : ℕ) → (ℕ → Option ℕ) → Bytes → StringEnd → Type 0
Ends i maxlen stoplen read dest (found gotlen) =
    (i < gotlen)
    × (gotlen ≤ stoplen)
    × Prefix i (gotlen - 1) read dest
    × (read (gotlen - 1) ≡ some 0)
    × (dest (gotlen - 1) ≡ 0)
Ends i maxlen stoplen read dest (failed error) =
    Prefix i stoplen read dest × (error ≡ (if ltb stoplen maxlen then efault else enametoolong))
Ends i maxlen stoplen read dest fatal =
    (j : ℕ) × (i ≤ j) × (j < stoplen) × Prefix i j read dest × (read j ≡ none)

copystr-earlier :
    (n i maxlen stoplen : ℕ) (read : ℕ → Option ℕ) (dest : Bytes) (j : ℕ)
    → (j < i) ⊎ (stoplen ≤ j)
    → (copystr n i maxlen stoplen read write_kernel dest).1 j ≡ dest j
unfolding copystr
copystr-earlier zero i maxlen stoplen read dest j h = refl
copystr-earlier (suc n) i maxlen stoplen read dest j h = elim (Bool-cases (ltb i stoplen)) [
  | inr stop ↦ rw (stop, copystr) refl
  | inl go ↦ elim (Option-cases (read i)) [
    | inl e ↦ rw (go, e, copystr) refl
    | inr (c, e) ↦
        let kept : update dest i c j ≡ dest j =
          ap (λ b. if b then c else dest j) (ne→eqb i j (ground arith)) in
        elim (Bool-cases (c == 0)) [
          | inl z ↦ rw (go, e, z, copystr) kept
          | inr z ↦
              rw (go, e, z, copystr)
                (copystr-earlier n (suc i) maxlen stoplen read (update dest i c) j (ground arith)
                  ∙ kept)
        ]
  ]
]

-- A prefix grows by the byte before it.
grown :
    (i k c : ℕ) (read : ℕ → Option ℕ) (dest : Bytes)
    → read i ≡ some c
    → dest i ≡ c
    → (c == 0) ≡ false
    → Prefix (suc i) k read dest
    → Prefix i k read dest
grown i k c read dest e d z rest j lo hi = elim (Bool-cases (j == i)) [
  | inl same ↦
      let same' : j ≡ i = eqb→eq j i same in
      rw same' ((e ∙ ap some (sym d)), λ q. eqb→ne c 0 z (sym d ∙ q))
  | inr other ↦ rest j (omega (arith, eqb→ne j i other)) hi
]

Ends-earlier :
    (i maxlen stoplen c : ℕ) (read : ℕ → Option ℕ) (dest : Bytes) (end : StringEnd)
    → i < stoplen
    → read i ≡ some c
    → dest i ≡ c
    → (c == 0) ≡ false
    → Ends (suc i) maxlen stoplen read dest end
    → Ends i maxlen stoplen read dest end
unfolding Ends
Ends-earlier i maxlen stoplen c read dest (found g) go e d z (lo, hi, pre, r, q) =
    (omega arith, hi, grown i (g - 1) c read dest e d z pre, r, q)
Ends-earlier i maxlen stoplen c read dest (failed error) go e d z (pre, q) =
    (grown i stoplen c read dest e d z pre, q)
Ends-earlier i maxlen stoplen c read dest fatal go e d z (j, lo, hi, pre, r) =
    (j, omega arith, hi, grown i j c read dest e d z pre, r)

pub copystr-Ends :
    (n i maxlen stoplen : ℕ) (read : ℕ → Option ℕ) (dest : Bytes)
    → i + n ≡ maxlen
    → stoplen ≤ maxlen
    → let run = copystr n i maxlen stoplen read write_kernel dest in
      Ends i maxlen stoplen read run.1 run.0
unfolding copystr Ends
copystr-Ends zero i maxlen stoplen read dest len stop = ((λ j lo hi. absurd (omega arith)), refl)
copystr-Ends (suc n) i maxlen stoplen read dest len stop = elim (Bool-cases (ltb i stoplen)) [
  | inr end ↦ rw (end, copystr) ((λ j lo hi. absurd (ground arith)), refl)
  | inl go ↦ elim (Option-cases (read i)) [
    | inl e ↦
        rw (go, e, copystr) (i, omega arith, ground arith, (λ j lo hi. absurd (omega arith)), e)
    | inr (c, e) ↦
        let stored : update dest i c i ≡ c = ap (λ b. if b then c else dest i) (eq→eqb i i refl) in
        elim (Bool-cases (c == 0)) [
          | inl z ↦
              let last : i + 1 - 1 ≡ i = omega arith in
              let null : c ≡ 0 = eqb→eq c 0 z in
              rw (go, e, z, copystr)
                (
                  omega arith,
                  ground arith,
                  (λ j lo hi. absurd (omega arith)),
                  ap read last ∙ e ∙ ap some null,
                  ap (update dest i c) last ∙ stored ∙ null,
                )
          | inr z ↦
              rw (go, e, z, copystr)
                (Ends-earlier i maxlen stoplen c read
                  (copystr n (suc i) maxlen stoplen read write_kernel (update dest i c)).1
                  (copystr n (suc i) maxlen stoplen read write_kernel (update dest i c)).0
                  (ground arith) e
                  (copystr-earlier n (suc i) maxlen stoplen read (update dest i c) i
                      (inl (omega arith))
                    ∙ stored)
                  z
                  (copystr-Ends n (suc i) maxlen stoplen read (update dest i c) (omega arith) stop))
        ]
  ]
]

-- copyinstr of at most `len` bytes, both numbers being 32-bit words and `len` not zero. From the
-- kernel's addresses, or around the end of the address space, it fails with EFAULT and leaves the
-- destination as it was. Otherwise it ends at the first null, the first byte that cannot be read or
-- the end of the room, whichever comes first. The bytes before it are copied and none is zero. A
-- null is copied and counted, a byte that cannot be read is a fatal end, and the end of the room is
-- EFAULT if the top of user space cuts it short, else ENAMETOOLONG. Nothing past the room changes.
pub copyinstr-Ends :
    (usersrc len : ℕ) (user : ℕ → Option ℕ) (dest : Bytes)
    → usersrc < word
    → len < word
    → 0 < len
    → let (end, dest') = copyinstr usersrc len user dest in
      (((userspacetop ≤ usersrc) ⊎ (word < usersrc + len)) × (end ≡ failed efault) × (dest' ≡ dest))
      ⊎ ((usersrc < userspacetop)
          × (usersrc + len ≤ word)
          × Ends 0 len (room usersrc len) (λ i. user (usersrc + i)) dest' end
          × ((j : ℕ) → room usersrc len ≤ j → dest' j ≡ dest j))
unfolding copyinstr
copyinstr-Ends usersrc len user dest p l some_len = elim (copycheck-room usersrc len p l some_len) [
  | inr (bad, run) ↦ inl (bad, rw run refl, rw run refl)
  | inl (low, whole, run) ↦ inr (
    low,
    whole,
    rw run (
        copystr-Ends len 0 len (room usersrc len) (λ i. user (usersrc + i)) dest (omega arith)
          (ground arith)),
    λ j h.
        rw run
          (copystr-earlier len 0 len (room usersrc len) (λ i. user (usersrc + i)) dest j (inr h)),
  )
]
