-- ===== src/FileCalls/Counts.antt =====
-- close and dup2 keep the reference counts of the files in step with the file table.
use os161_virtual_memory_imp.Common.{
  ℕ, ◌+◌, ◌<◌, ◌≡◌, ◌≢◌, refl, ◌⊎◌, inl, inr, true, Option, none, some, arith, ltb, update, ℤ, pos,
  negsuc, Option-cases, Bool-cases, ltb→lt,
}
use os161_virtual_memory_imp.Files.{
  Files, FileTable, ebadf, open_max, filetable_okfd, filetable_placeat,
}
use os161_virtual_memory_imp.Files.Kept.{Keeps}
use os161_virtual_memory_imp.Files.Refs.{Counts, Counts-ext, openfile_decref-Counts}
use os161_virtual_memory_imp.Files.Share.{held_by}
use os161_virtual_memory_imp.FileCalls.{sys_close}
use os161_virtual_memory_imp.FileCalls.Slots.{
  NotOpen, OutOfRange, above_NotOpen, empty_NotOpen, held_by-slot, negative, same_slot,
}

module _ (ft : FileTable) (fs : Files) (c : ℕ → ℕ) (v : Counts fs (λ g. held_by ft g + c g)) where
  -- What close comes to.
  abbrev pub Closes : (fd : ℤ) → Option (ℕ × FileTable × Files) → Type 0
  Closes fd r =
      ((ft' : FileTable) × (r ≡ some (ebadf, ft', fs)) × ((j : ℕ) → ft' j ≡ ft j) × NotOpen ft fd)
      ⊎ ((i : ℕ) × (f : ℕ) × (fs' : Files) × (fd ≡ pos i)
          × (i < open_max)
          × (ft i ≡ some f)
          × (r ≡ some (0, update ft i none, fs'))
          × Counts fs' (λ g. held_by (update ft i none) g + c g)
          × Keeps fs fs')

  close_open :
      (i f : ℕ) → ltb i open_max ≡ true → ft i ≡ some f → Closes (pos i) (sys_close (pos i) ft fs)
  unfolding sys_close filetable_okfd filetable_placeat
  close_open i f within there =
      let (fs', run, w, k) =
        openfile_decref-Counts fs (λ g. held_by (update ft i none) g + c g) f
          (Counts-ext fs _ _ v
            (λ g. omega (arith, held_by-slot ft i f g (ltb→lt i open_max within) there))) in
      inr (i, f, fs', refl, ltb→lt i open_max within, there, rw within (rw there (rw run)), w, k)

  -- Where each file counts the references of the table and others, close fails no assertion. It
  -- answers EBADF just to a descriptor that is out of range or not open, and no slot changes.
  -- Otherwise the slot is free afterwards, and each file counts the references of the new table and
  -- the others. Files that are gone have had their vnodes closed, once each, and no vnode
  -- has been closed but of a file that is gone.
  pub sys_close-Closes : (fd : ℤ) → Closes fd (sys_close fd ft fs)
  unfolding sys_close filetable_okfd filetable_placeat
  sys_close-Closes (negsuc n) = inl (ft, refl, (λ j. refl), λ i e. negative n i e)
  sys_close-Closes (pos i) = elim (Bool-cases (ltb i open_max)) [
    | inr above ↦ inl (ft, rw above, (λ j. refl), above_NotOpen ft i above)
    | inl within ↦ elim (Option-cases (ft i)) [
      | inl empty ↦ inl (
        update ft i none,
        rw within (rw empty),
        (λ j. same_slot ft i j none empty),
        empty_NotOpen ft i empty,
      )
      | inr (f, there) ↦ close_open i f within there
    ]
  ]

  -- What dup2 comes to.
  abbrev pub Dups : (oldfd newfd : ℤ) → Option (ℕ × FileTable × Files) → Type 0
  Dups oldfd newfd r =
      ((r ≡ some (ebadf, ft, fs)) × (OutOfRange newfd ⊎ ((oldfd ≢ newfd) × NotOpen ft oldfd)))
      ⊎ ((j : ℕ) × (j < open_max) × (newfd ≡ pos j) × (oldfd ≡ newfd) × (r ≡ some (0, ft, fs)))
      ⊎ ((i j f : ℕ) × (fs' : Files) × (oldfd ≡ pos i)
          × (newfd ≡ pos j)
          × (i < open_max)
          × (j < open_max)
          × (i ≢ j)
          × (ft i ≡ some f)
          × (r ≡ some (0, update ft j (some f), fs'))
          × Counts fs' (λ g. held_by (update ft j (some f)) g + c g)
          × Keeps fs fs')
