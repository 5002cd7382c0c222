-- ===== src/Files/Place.antt =====
-- filetable_place uses the smallest free descriptor.
use os161_virtual_memory_imp.Common.{
  ℕ, zero, suc, ◌+◌, ◌≤◌, ◌<◌, ◌≡◌, ◌≢◌, refl, sym, ◌⊎◌, inl, inr, none, some, arith, ◌==◌, update,
  pos, Option-cases, Bool-cases, eq→eqb, ne→eqb, eqb→eq, lt→ltb,
}
use os161_virtual_memory_imp.Files.{
  FileTable, emfile, open_max, filetable_okfd, filetable_get, place_from, filetable_place,
}

-- A descriptor that is in use.
abbrev pub InUse : FileTable → ℕ → Type 0
InUse ft fd = (f : ℕ) × (ft fd ≡ some f)

-- Of `n` descriptors from `fd`: all are in use, or the first free one gets the file.
abbrev pub Places : (n fd : ℕ) → FileTable → (file : ℕ) → ℕ ⊎ (ℕ × FileTable) → Type 0
Places n fd ft file r =
    (((i : ℕ) → fd ≤ i → i < fd + n → InUse ft i) × (r ≡ inl emfile))
    ⊎ ((i : ℕ) × (fd ≤ i)
        × (i < fd + n)
        × ((j : ℕ) → fd ≤ j → j < i → InUse ft j)
        × (ft i ≡ none)
        × (r ≡ inr (i, update ft i (some file))))

first_or_later :
    (ft : FileTable) (fd i : ℕ) → InUse ft fd → fd ≤ i → (suc fd ≤ i → InUse ft i) → InUse ft i
first_or_later ft fd i used low later = elim (Bool-cases (fd == i)) [
  | inl hit ↦ let same : fd ≡ i = eqb→eq fd i hit in rw (sym same) used
  | inr miss ↦ later (ground arith)
]

pub place_from-Places :
    (n fd : ℕ) (ft : FileTable) (file : ℕ) → Places n fd ft file (place_from n fd ft file)
unfolding place_from
place_from-Places zero fd ft file = inl ((λ i low high. absurd (omega arith)), refl)
place_from-Places (suc n) fd ft file = elim (Option-cases (ft fd)) [
  | inl empty ↦ inr (
    fd,
    omega arith,
    omega arith,
    (λ j low high. absurd (omega arith)),
    empty,
    rw (empty, place_from),
  )
  | inr (f, used) ↦ elim (place_from-Places n (suc fd) ft file) [
    | inl (all, run) ↦ inl (
      (λ i low high. first_or_later ft fd i (f, used) low (λ above. all i above (omega arith))),
      rw (used, place_from) run,
    )
    | inr (i, low, high, before, empty, run) ↦ inr (
      i,
      omega arith,
      omega arith,
      (λ j from until. first_or_later ft fd j (f, used) from (λ above. before j above until)),
      empty,
      rw (used, place_from) run,
    )
  ]
]

-- filetable_place puts the file at the smallest free descriptor, or answers EMFILE when all 128 are
-- in use. The file is what filetable_get finds at that descriptor afterwards.
pub filetable_place-Places :
    (ft : FileTable) (file : ℕ)
    → (((i : ℕ) → i < open_max → InUse ft i) × (filetable_place ft file ≡ inl emfile))
      ⊎ ((i : ℕ) × (ft' : FileTable) × (i < open_max)
          × ((j : ℕ) → j < i → InUse ft j)
          × (ft i ≡ none)
          × (filetable_place ft file ≡ inr (i, ft'))
          × (filetable_get ft' (pos i) ≡ inr file)
          × ((j : ℕ) → i ≢ j → ft' j ≡ ft j))
unfolding filetable_place filetable_get filetable_okfd
filetable_place-Places ft file = elim (place_from-Places open_max 0 ft file) [
  | inl (all, run) ↦ inl ((λ i below. all i (omega arith) (omega arith)), run)
  | inr (i, low, high, before, empty, run) ↦
      (let below : i < open_max = omega arith in
        inr (
          i,
          update ft i (some file),
          below,
          (λ j less. before j (omega arith) less),
          empty,
          run,
          rw (lt→ltb i open_max below, filetable_get) (rw (eq→eqb i i refl)),
          (λ j other. rw (ne→eqb i j other)),
        ))
]
