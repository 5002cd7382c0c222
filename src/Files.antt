-- ===== src/Files.antt =====
-- kern/syscall/filetable.c, and the reference counts of kern/syscall/openfile.c. An open file is
-- known by its address; `existing` holds the files that exist, and `closed` the vnodes that vfs_close
-- has been called on, the last one first. Each operation on a file holds its lock throughout.
pub mod Kept
pub mod Refs
pub mod Share
pub mod Place
use os161_virtual_memory_imp.Common.{
  ℕ, zero, suc, ◌+◌, ◌-◌, Bool, true, false, not, ◌⊎◌, inl, inr, Option, none, some, List, [], ◌∷◌,
  ltb, ◌==◌, if◌then◌else◌, ◌>>=◌, update, ℤ, pos, negsuc,
}
use os161_virtual_memory_imp.Machine.{enomem}

abbrev pub emfile : ℕ
emfile = 28

abbrev pub ebadf : ℕ
ebadf = 30

abbrev pub open_max : ℕ
open_max = 128

pub record OpenFile : Type 0 where
  pub of_vnode : ℕ
  pub of_accmode : ℕ
  pub of_offset : ℕ
  pub of_refcount : ℕ

pub record Files : Type 0 where
  pub existing : ℕ → Option OpenFile
  pub closed : List ℕ

-- ft_openfiles; NULL is `none`.
abbrev pub FileTable : Type 0
FileTable = ℕ → Option ℕ

unfoldable pub openfile_destroy : ℕ → OpenFile → Files → Files
openfile_destroy f file fs = record {
  existing = update fs.existing f none;
  closed = file.of_vnode ∷ fs.closed;
}

abbrev pub set_refcount : ℕ → OpenFile → ℕ → Files → Files
set_refcount f file n fs = record fs {
  existing = update fs.existing f (some (record file { of_refcount = n }));
}

-- A file that does not exist is a fault.
unfoldable pub openfile_incref : ℕ → Files → Option Files
openfile_incref f fs = do file ← fs.existing f; some (set_refcount f file (suc file.of_refcount) fs)

unfoldable pub openfile_decref : ℕ → Files → Option Files
openfile_decref f fs = do
  file ← fs.existing f
  if file.of_refcount == 1
      then some (openfile_destroy f file fs)
      else if not (ltb 1 file.of_refcount)
      then none
      else some (set_refcount f file (file.of_refcount - 1) fs)

-- `room` says whether there is memory.
unfoldable pub filetable_create : (room : Bool) → Option FileTable
filetable_create room = if room then some (λ _. none) else none

unfoldable pub close_file : (fd : ℕ) → FileTable → Files → Option (FileTable × Files)
close_file fd ft fs = elim (ft fd) [
  | none ↦ some (ft, fs)
  | some f ↦ (do fs' ← openfile_decref f fs; some (update ft fd none, fs'))
]

-- The loops over the descriptors, over the rounds that are left.
unfoldable pub close_files : (rounds fd : ℕ) → FileTable → Files → Option (FileTable × Files)
close_files zero fd ft fs = some (ft, fs)
close_files (suc n) fd ft fs =
    let next = λ (ft' : FileTable) (fs' : Files). close_files n (suc fd) ft' fs' in
    do (ft', fs') ← close_file fd ft fs; next ft' fs'

unfoldable pub filetable_destroy : FileTable → Files → Option Files
filetable_destroy ft fs = do (ft', fs') ← close_files open_max 0 ft fs; some fs'

unfoldable pub share_file : Option ℕ → Files → Option Files
share_file none fs = some fs
share_file (some f) fs = openfile_incref f fs

unfoldable pub share_files :
    (rounds fd : ℕ) → (src dest : FileTable) → Files → Option (FileTable × Files)
share_files zero fd src dest fs = some (dest, fs)
share_files (suc n) fd src dest fs =
    let next = λ (fs' : Files). share_files n (suc fd) src (update dest fd (src fd)) fs' in
    do fs' ← share_file (src fd) fs; next fs'

-- An error number, and the new table.
unfoldable pub filetable_copy :
    (room : Bool) → Option FileTable → Files → Option (ℕ × Option FileTable × Files)
filetable_copy room none fs = some (0, none, fs)
filetable_copy room (some src) fs = elim (filetable_create room) [
  | none ↦ some (enomem, none, fs)
  | some dest ↦ (do (dest', fs') ← share_files open_max 0 src dest fs; some (0, some dest', fs'))
]

unfoldable pub filetable_okfd : ℤ → Bool
filetable_okfd (negsuc n) = false
filetable_okfd (pos fd) = ltb fd open_max

-- An error number, or the file.
unfoldable pub filetable_get : FileTable → ℤ → ℕ ⊎ ℕ
filetable_get ft (negsuc n) = inl ebadf
filetable_get ft (pos fd) =
    if not (filetable_okfd (pos fd))
    then inl ebadf
    else elim (ft fd) [ none ↦ inl ebadf | some f ↦ inr f ]

-- The loop of filetable_place: EMFILE, or the descriptor and the table.
unfoldable pub place_from : (rounds fd : ℕ) → FileTable → (file : ℕ) → ℕ ⊎ (ℕ × FileTable)
place_from zero fd ft file = inl emfile
place_from (suc n) fd ft file =
    let next = place_from n (suc fd) ft file in
    elim (ft fd) [ none ↦ inr (fd, update ft fd (some file)) | some f ↦ next ]

unfoldable pub filetable_place : FileTable → (file : ℕ) → ℕ ⊎ (ℕ × FileTable)
filetable_place ft file = place_from open_max 0 ft file

-- The file that was there, and the table. A descriptor out of range is a fault.
unfoldable pub filetable_placeat :
    FileTable → (newfile : Option ℕ) → ℤ → Option (Option ℕ × FileTable)
filetable_placeat ft newfile (negsuc n) = none
filetable_placeat ft newfile (pos fd) =
    if not (filetable_okfd (pos fd)) then none else some (ft fd, update ft fd newfile)
