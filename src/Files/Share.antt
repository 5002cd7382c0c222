-- ===== src/Files/Share.antt =====
-- filetable_copy and filetable_destroy keep the reference counts in step with the tables.
use os161_virtual_memory_imp.Common.{
  ℕ, zero, suc, ◌+◌, ◌≤◌, ◌<◌, ◌≡◌, refl, ◌∙◌, ◌⊎◌, inl, inr, true, false, Bool, ◌&&◌, Option, none,
  some, arith, leb, ltb, ◌==◌, if◌then◌else◌, update, Option-cases, Bool-cases, eq→eqb, eqb→eq,
}
use os161_virtual_memory_imp.Machine.{enomem}
use os161_virtual_memory_imp.Files.{
  Files, FileTable, open_max, close_file, close_files, filetable_create, filetable_destroy,
  share_file, share_files, filetable_copy,
}
use os161_virtual_memory_imp.Files.Kept.{Keeps, refl-Keeps, trans-Keeps}
use os161_virtual_memory_imp.Files.Refs.{
  uncounted, is_file, in_slot, held_from, held_from-update, Counts, Counts-ext,
  openfile_incref-Counts, openfile_decref-Counts,
}

-- The references that a file table holds.
unfoldable pub held_by : FileTable → ℕ → ℕ
held_by ft g = held_from open_max 0 ft g

share_file-Counts :
    (o : Option ℕ) (fs : Files) (c : ℕ → ℕ)
    → Counts fs c
    → ((g : ℕ) → in_slot o g ≤ c g)
    → (fs' : Files) × (share_file o fs ≡ some fs')
      × Counts fs' (λ g. in_slot o g + c g)
      × Keeps fs fs'
unfolding share_file
share_file-Counts none fs c v some_left =
    (fs, refl, Counts-ext fs c _ v (λ g. omega arith), refl-Keeps fs)
share_file-Counts (some f) fs c v some_left =
    let one : is_file f f ≡ 1 = rw (eq→eqb f f refl) in
    openfile_incref-Counts fs c f v (omega (arith, some_left f, one))

whole_table :
    (j : ℕ)
    → j < open_max
    → (o o' : Option ℕ) → (if leb 0 j && ltb j (0 + open_max) then o else o') ≡ o
whole_table j below o o' =
    let within : (leb 0 j && ltb j (0 + open_max)) ≡ true = ground arith in rw within

copied_slot :
    (n fd j : ℕ) (src dest : FileTable)
    → (if leb (suc fd) j && ltb j (suc fd + n) then src j else update dest fd (src fd) j)
      ≡ (if leb fd j && ltb j (fd + suc n) then src j else dest j)
copied_slot n fd j src dest = elim (Bool-cases (fd == j)) [
  | inl hit ↦
      (let same : fd ≡ j = eqb→eq fd j hit in
        let later : leb (suc fd) j ≡ false = ground arith in
        let now : (leb fd j && ltb j (fd + suc n)) ≡ true = ground arith in
        rw (later, now, hit, same))
  | inr miss ↦
      (let range : (leb (suc fd) j && ltb j (suc fd + n)) ≡ (leb fd j && ltb j (fd + suc n)) =
          ground arith in
        rw (range, miss))
]

share_files-Counts :
    (n fd : ℕ) (src dest : FileTable) (fs : Files) (c : ℕ → ℕ)
    → Counts fs c
    → ((g : ℕ) → held_from n fd src g ≤ c g)
    → (dest' : FileTable) × (fs' : Files) × (share_files n fd src dest fs ≡ some (dest', fs'))
      × Counts fs' (λ g. held_from n fd src g + c g)
      × ((j : ℕ) → dest' j ≡ (if leb fd j && ltb j (fd + n) then src j else dest j))
      × Keeps fs fs'
unfolding share_files
share_files-Counts zero fd src dest fs c v some_left =
    (dest, fs, refl, Counts-ext fs c _ v (λ g. omega arith), (λ j. ground arith), refl-Keeps fs)
share_files-Counts (suc n) fd src dest fs c v some_left =
    let (fs1, run1, v1, k1) = share_file-Counts (src fd) fs c v (λ g. omega (arith, some_left g)) in
    let (dest', fs', run2, v2, slots, k2) =
      share_files-Counts n (suc fd) src (update dest fd (src fd)) fs1
        (λ g. in_slot (src fd) g + c g) v1 (λ g. omega (arith, some_left g)) in
    (
      dest',
      fs',
      rw run1 run2,
      Counts-ext fs' _ _ v2 (λ g. omega arith),
      (λ j. slots j ∙ copied_slot n fd j src dest),
      trans-Keeps fs fs1 fs' k1 k2,
    )

close_file-Counts :
    (fd : ℕ) (ft : FileTable) (fs : Files) (c : ℕ → ℕ)
    → Counts fs (λ g. in_slot (ft fd) g + c g)
    → (ft' : FileTable) × (fs' : Files) × (close_file fd ft fs ≡ some (ft', fs'))
      × Counts fs' c
      × ((n : ℕ) (g : ℕ) → held_from n (suc fd) ft' g ≡ held_from n (suc fd) ft g)
      × Keeps fs fs'
unfolding close_file
close_file-Counts fd ft fs c v = elim (Option-cases (ft fd)) [
  | inl empty ↦
      (let v' : Counts fs (λ g. in_slot none g + c g) = rw empty at v in
        (
          ft,
          fs,
          rw (empty, close_file),
          Counts-ext fs _ c v' (λ g. omega arith),
          (λ n g. refl),
          refl-Keeps fs,
        ))
  | inr (f, there) ↦
      (let v' : Counts fs (λ g. is_file f g + c g) = rw there at v in
        let (fs', run, w, k) = openfile_decref-Counts fs c f v' in
        (
          update ft fd none,
          fs',
          rw (there, close_file) (rw run),
          w,
          (λ n g. held_from-update n (suc fd) ft fd none g (omega arith)),
          k,
        ))
]

close_files-Counts :
    (n fd : ℕ) (ft : FileTable) (fs : Files) (c : ℕ → ℕ)
    → Counts fs (λ g. held_from n fd ft g + c g)
    → (ft' : FileTable) × (fs' : Files) × (close_files n fd ft fs ≡ some (ft', fs'))
      × Counts fs' c
      × Keeps fs fs'
unfolding close_files
close_files-Counts zero fd ft fs c v =
    (ft, fs, refl, Counts-ext fs _ c v (λ g. omega arith), refl-Keeps fs)
close_files-Counts (suc n) fd ft fs c v =
    let (ft1, fs1, run1, v1, same, k1) =
      close_file-Counts fd ft fs (λ g. held_from n (suc fd) ft g + c g)
        (Counts-ext fs _ _ v (λ g. omega arith)) in
    let (ft', fs', run2, w, k2) =
      close_files-Counts n (suc fd) ft1 fs1 c
        (Counts-ext fs1 _ _ v1 (λ g. omega (arith, same n g))) in
    (ft', fs', rw run1 run2, w, trans-Keeps fs fs1 fs' k1 k2)

-- filetable_destroy gives up just the references of its table: where each file counts these and
-- others `c`, it fails no assertion, and each file counts the others afterwards. Each file that had
-- no others is gone, and its vnode has been closed, once; the files that stay keep all but their counts,
-- and no vnode has been closed but of a file that is gone.
pub filetable_destroy-Counts :
    (ft : FileTable) (fs : Files) (c : ℕ → ℕ)
    → Counts fs (λ g. held_by ft g + c g)
    → (fs' : Files) × (filetable_destroy ft fs ≡ some fs')
      × Counts fs' c
      × ((f : ℕ) → c f ≡ 0 → fs'.existing f ≡ none)
      × Keeps fs fs'
unfolding filetable_destroy held_by
filetable_destroy-Counts ft fs c v =
    let (ft', fs', run, w, k) = close_files-Counts open_max 0 ft fs c v in
    (fs', rw run, w, uncounted fs' c w, k)

-- filetable_copy of a table whose references are counted gives the new table the same file in each
-- of the 128 slots, and each file one reference more for each slot that it stands in; but for the
-- counts no file changes. Without
-- memory it answers ENOMEM and changes nothing.
pub filetable_copy-Counts :
    (room : Bool) (src : FileTable) (fs : Files) (c : ℕ → ℕ)
    → Counts fs (λ g. held_by src g + c g)
    → ((room ≡ false) × (filetable_copy room (some src) fs ≡ some (enomem, none, fs)))
      ⊎ ((dest : FileTable) × (fs' : Files) × (filetable_copy room (some src) fs
            ≡ some (0, some dest, fs'))
          × ((j : ℕ) → j < open_max → dest j ≡ src j)
          × Counts fs' (λ g. held_by src g + (held_by src g + c g))
          × Keeps fs fs')
unfolding filetable_copy filetable_create held_by
filetable_copy-Counts false src fs c v = inl (refl, refl)
filetable_copy-Counts true src fs c v =
    let (dest, fs', run, w, slots, k) =
      share_files-Counts open_max 0 src (λ _. none) fs (λ g. held_by src g + c g) v
        (λ g. omega arith) in
    inr (dest, fs', rw run, (λ j below. slots j ∙ whole_table j below (src j) none), w, k)
