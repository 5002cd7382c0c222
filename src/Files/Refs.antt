-- ===== src/Files/Refs.antt =====
-- The reference count of an open file is the number of places that refer to it.
use os161_virtual_memory_imp.Common.{
  ℕ, zero, suc, ◌+◌, ◌-◌, ◌<◌, ◌≡◌, ◌≢◌, refl, sym, ◌∙◌, inl, inr, Option, none, some, arith, ◌==◌,
  if◌then◌else◌, update, Bool-cases, Option-cases, lt→ltb, eq→eqb, ne→eqb, eqb→eq, eqb→ne,
}
use os161_virtual_memory_imp.Files.Kept.{Keeps, set_refcount-Keeps, openfile_destroy-Keeps}
use os161_virtual_memory_imp.Files.{
  OpenFile, Files, FileTable, set_refcount, openfile_destroy, openfile_incref, openfile_decref,
}

abbrev pub is_file : (f g : ℕ) → ℕ
is_file f g = if f == g then 1 else 0

abbrev pub in_slot : Option ℕ → ℕ → ℕ
in_slot none g = 0
in_slot (some f) g = is_file f g

-- The references to `g` from `n` descriptors from `fd`.
abbrev pub held_from : (n fd : ℕ) → FileTable → ℕ → ℕ
held_from zero fd ft g = 0
held_from (suc n) fd ft g = in_slot (ft fd) g + held_from n (suc fd) ft g

pub held_from-update :
    (n fd : ℕ) (ft : FileTable) (i : ℕ) (o : Option ℕ) (g : ℕ)
    → i < fd
    → held_from n fd (update ft i o) g ≡ held_from n fd ft g
held_from-update zero fd ft i o g h = refl
held_from-update (suc n) fd ft i o g h =
    rw (ne→eqb i fd (omega arith))
      (omega (arith, held_from-update n (suc fd) ft i o g (omega arith)))

-- The count of a file that exists, and 0 for one that does not.
abbrev pub refcount : Option OpenFile → ℕ
refcount none = 0
refcount (some file) = file.of_refcount

abbrev pub IsUsed : Option OpenFile → Type 0
IsUsed none = Unit {0}
IsUsed (some file) = 0 < file.of_refcount

-- Each file that exists has just the references that `c` counts, and one at least.
pub record Counts (fs : Files) (c : ℕ → ℕ) : Type 0 where
  pub counted : (f : ℕ) → refcount (fs.existing f) ≡ c f
  pub used : (f : ℕ) → IsUsed (fs.existing f)

pub Counts-ext : (fs : Files) (c d : ℕ → ℕ) → Counts fs c → ((f : ℕ) → d f ≡ c f) → Counts fs d
Counts-ext fs c d v same = record { counted = λ f. v.counted f ∙ sym (same f); used = v.used }

referred :
    (fs : Files) (c : ℕ → ℕ) (f : ℕ)
    → Counts fs c
    → 0 < c f
    → (file : OpenFile) × (fs.existing f ≡ some file) × (file.of_refcount ≡ c f)
referred fs c f v p = elim (Option-cases (fs.existing f)) [
  | inl missing ↦ absurd (ground (arith, v.counted f, missing))
  | inr (file, there) ↦
      (let same : refcount (some file) ≡ c f = rw there at (v.counted f) in (file, there, same))
]

-- The table of files after one of them has changed.
pub stored :
    (fs fs' : Files) (c d : ℕ → ℕ) (f : ℕ) (o : Option OpenFile)
    → Counts fs c
    → ((g : ℕ) → fs'.existing g ≡ update fs.existing f o g)
    → refcount o ≡ d f
    → IsUsed o
    → ((g : ℕ) → f ≢ g → d g ≡ c g)
    → Counts fs' d
stored fs fs' c d f o v write now used rest = record {
  counted = λ g. elim (Bool-cases (f == g)) [
    | inl hit ↦ (let same : f ≡ g = eqb→eq f g hit in rw (write g, hit) (rw (sym same) now))
    | inr miss ↦ rw (write g, miss) (v.counted g ∙ sym (rest g (eqb→ne f g miss)))
  ];
  used = λ g. elim (Bool-cases (f == g)) [
    | inl hit ↦ rw (write g, hit) used
    | inr miss ↦ rw (write g, miss) (v.used g)
  ];
}

-- A file without references does not exist.
pub uncounted : (fs : Files) (c : ℕ → ℕ) → Counts fs c → (f : ℕ) → c f ≡ 0 → fs.existing f ≡ none
uncounted fs c v f z = elim (Option-cases (fs.existing f)) [
  | inl missing ↦ missing
  | inr (file, there) ↦
      let count : refcount (some file) ≡ c f = rw there at (v.counted f) in
      let some_left : IsUsed (some file) = rw there at (v.used f) in
      absurd (omega (arith, count, some_left, z))
]

module _ (fs : Files) (c : ℕ → ℕ) (f : ℕ) where
  -- A place that gets a reference.
  pub openfile_incref-Counts :
      Counts fs c
      → 0 < c f
      → (fs' : Files) × (openfile_incref f fs ≡ some fs')
        × Counts fs' (λ g. is_file f g + c g)
        × Keeps fs fs'
  unfolding openfile_incref
  openfile_incref-Counts v p =
      let (file, there, count) = referred fs c f v p in
      let fs' = set_refcount f file (suc file.of_refcount) fs in
      (
        fs',
        rw there,
        stored fs fs' c (λ g. is_file f g + c g) f _ v (λ g. refl)
            (rw (eq→eqb f f refl) (omega arith)) (omega arith)
            (λ g other. rw (ne→eqb f g other) (omega arith)),
        set_refcount-Keeps fs f (suc file.of_refcount) file there,
      )

  -- A place that gives its reference up. With the last one the file is closed.
  pub openfile_decref-Counts :
      Counts fs (λ g. is_file f g + c g)
      → (fs' : Files) × (openfile_decref f fs ≡ some fs') × Counts fs' c × Keeps fs fs'
  unfolding openfile_decref openfile_destroy
  openfile_decref-Counts v =
      let one : is_file f f ≡ 1 = rw (eq→eqb f f refl) in
      let (file, there, count) = referred fs (λ g. is_file f g + c g) f v (omega (arith, one)) in
      let rest : (g : ℕ) → f ≢ g → c g ≡ is_file f g + c g =
        λ g other. rw (ne→eqb f g other) (omega arith) in
      elim (Bool-cases (file.of_refcount == 1)) [
        | inl last ↦ (
          openfile_destroy f file fs,
          rw there (rw last),
          stored fs _ (λ g. is_file f g + c g) c f none v (λ g. refl)
              (omega (arith, one, count, eqb→eq file.of_refcount 1 last)) tt rest,
          openfile_destroy-Keeps fs f file there,
        )
        | inr more ↦
            (let ne = eqb→ne file.of_refcount 1 more in
              let several : 1 < file.of_refcount = omega (arith, one, count, ne) in
              (
                set_refcount f file (file.of_refcount - 1) fs,
                rw there (rw (more, lt→ltb 1 file.of_refcount several)),
                stored fs _ (λ g. is_file f g + c g) c f _ v (λ g. refl) (omega (arith, one, count))
                    (omega (arith, several)) rest,
                set_refcount-Keeps fs f (file.of_refcount - 1) file there,
              ))
      ]
