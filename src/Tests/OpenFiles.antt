-- ===== src/Tests/OpenFiles.antt =====
-- The theorems about file tables, on a table with one file at descriptors 0 and 1.
use os161_virtual_memory_imp.Common.{
  ℕ, sym, ◌+◌, ◌<◌, ◌≡◌, ◌≢◌, ◌⊎◌, inl, inr, true, false, none, some, [], arith, update, pos, ◌==◌,
  Bool-cases,
}
use os161_virtual_memory_imp.Machine.{enomem}
use os161_virtual_memory_imp.Files.{
  OpenFile, Files, FileTable, emfile, open_max, filetable_destroy, filetable_copy, filetable_place,
  filetable_get,
}
use os161_virtual_memory_imp.Files.Kept.{Keeps}
use os161_virtual_memory_imp.Files.Refs.{Counts}
use Prim.Native.Nat.{bit_and}
use os161_virtual_memory_imp.Files.Share.{held_by, filetable_destroy-Counts, filetable_copy-Counts}
use os161_virtual_memory_imp.FileCalls.{sys_open, sys_close}
use os161_virtual_memory_imp.FileCalls.Opens.{Opens, sys_open-Opens}
use os161_virtual_memory_imp.FileCalls.Counts.{Closes, sys_close-Closes}
use os161_virtual_memory_imp.Files.Place.{InUse, filetable_place-Places}

abbrev console : OpenFile
console = record { of_vnode = 5; of_accmode = 2; of_offset = 0; of_refcount = 2 }

abbrev files : Files
files = record { existing = update (λ _. none) 40 (some console); closed = [] }

abbrev descriptors : FileTable
descriptors = update (update (λ _. none) 0 (some 40)) 1 (some 40)

files-Counts : Counts files (λ g. held_by descriptors g + 0)
unfolding held_by
files-Counts = record {
  counted = λ f. elim (Bool-cases (40 == f)) [ inl hit ↦ rw hit | inr miss ↦ rw miss ];
  used =
      λ f. elim (Bool-cases (40 == f)) [ inl hit ↦ rw hit (omega arith) | inr miss ↦ rw miss tt ];
}

filetable_destroy-Counts_example :
    (fs' : Files) × (filetable_destroy descriptors files ≡ some fs')
    × Counts fs' (λ _. 0)
    × ((f : ℕ) → ◌≡◌ {A = ℕ} 0 0 → fs'.existing f ≡ none)
    × Keeps files fs'
filetable_destroy-Counts_example = filetable_destroy-Counts descriptors files (λ _. 0) files-Counts

filetable_copy-Counts_example :
    ((true ≡ false) × (filetable_copy true (some descriptors) files ≡ some (enomem, none, files)))
    ⊎ ((dest : FileTable) × (fs' : Files) × (filetable_copy true (some descriptors) files
          ≡ some (0, some dest, fs'))
        × ((j : ℕ) → j < open_max → dest j ≡ descriptors j)
        × Counts fs' (λ g. held_by descriptors g + (held_by descriptors g + 0))
        × Keeps files fs')
filetable_copy-Counts_example = filetable_copy-Counts true descriptors files (λ _. 0) files-Counts

filetable_place-Places_example :
    (((i : ℕ) → i < open_max → InUse descriptors i) × (filetable_place descriptors 41 ≡ inl emfile))
    ⊎ ((i : ℕ) × (ft' : FileTable) × (i < open_max)
        × ((j : ℕ) → j < i → InUse descriptors j)
        × (descriptors i ≡ none)
        × (filetable_place descriptors 41 ≡ inr (i, ft'))
        × (filetable_get ft' (pos i) ≡ inr 41)
        × ((j : ℕ) → i ≢ j → ft' j ≡ descriptors j))
filetable_place-Places_example = filetable_place-Places descriptors 41

sys_close-Closes_example :
    Closes descriptors files (λ _. 0) files-Counts (pos 1) (sys_close (pos 1) descriptors files)
sys_close-Closes_example = sys_close-Closes descriptors files (λ _. 0) files-Counts (pos 1)

one_accmode : (vnode : ℕ) → ◌≡◌ {A = ℕ ⊎ ℕ} (inr 6) (inr vnode) → bit_and 1 3 < 3
one_accmode vnode e = omega arith

new_block : (f : ℕ) → some 41 ≡ some f → files.existing f ≡ none
new_block f e = let same : 41 ≡ f = cc in rw (sym same)

sys_open-Opens_example :
    Opens true 0
      (inr 6)
      (some 41)
      1
      descriptors
      files
      (λ _. 0)
      (sys_open true 0 (inr 6) (some 41) 1 descriptors files)
sys_open-Opens_example =
    sys_open-Opens descriptors (λ _. 0) files files-Counts true 0 (inr 6) (some 41) 1 one_accmode
      new_block
