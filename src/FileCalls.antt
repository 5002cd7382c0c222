-- ===== src/FileCalls.antt =====
-- open, close and dup2 of kern/syscall/file_syscalls.c, with openfile_open of
-- kern/syscall/openfile.c. `ft` is the file table of the current process. What the layers below
-- answer is passed in: `path_room` says whether there is memory for the path, `copied` is the error
-- number of copyinstr, `opened` the result of vfs_open (an error number or a vnode), and `block` the
-- address of the new structure, if there is memory for it and its lock.

pub mod Slots
pub mod Counts
pub mod Opens
use Prim.Native.Nat.{bit_and}
use os161_virtual_memory_imp.Common.{
  ℕ, ◌+◌, Bool, true, false, not, ◌⊎◌, inl, inr, Option, none, some, List, [], ◌∷◌, ltb, ◌==◌,
  if◌then◌else◌, ◌>>=◌, update, ℤ, pos, negsuc, eqb_ℤ,
}
use os161_virtual_memory_imp.Machine.{enomem, einval}
use os161_virtual_memory_imp.Files.{
  OpenFile, Files, FileTable, ebadf, openfile_incref, openfile_decref, filetable_okfd,
  filetable_get, filetable_place, filetable_placeat,
}

-- O_ACCMODE | O_CREAT | O_EXCL | O_TRUNC | O_APPEND | O_NOCTTY
abbrev pub allflags : ℕ
allflags = 3 + 4 + 8 + 16 + 32 + 64

abbrev pub accmode_of : ℕ → ℕ
accmode_of flags = bit_and flags 3

abbrev pub new_file : (vnode accmode : ℕ) → OpenFile
new_file vnode accmode = record {
  of_vnode = vnode;
  of_accmode = accmode;
  of_offset = 0;
  of_refcount = 1;
}

-- The new file, or NULL. The assertion is that the access mode is one of three.
unfoldable pub openfile_create :
    (block : Option ℕ) → (vnode accmode : ℕ) → Files → Option (Option ℕ × Files)
openfile_create block vnode accmode fs =
    let made : Option ℕ × Files = elim block [
      | none ↦ (none, fs)
      | some f ↦
          (some f, record fs { existing = update fs.existing f (some (new_file vnode accmode)) })
    ] in
    if not (ltb accmode 3) then none else some made

unfoldable pub openfile_open :
    (opened : ℕ ⊎ ℕ) → (block : Option ℕ) → (flags : ℕ) → Files → Option ((ℕ ⊎ ℕ) × Files)
openfile_open (inl error) block flags fs = some (inl error, fs)
openfile_open (inr vnode) block flags fs = do
  (made, fs') ← openfile_create block vnode (accmode_of flags) fs
  elim made [
    | none ↦ some (inl enomem, record fs' { closed = vnode ∷ fs'.closed })
    | some f ↦ some (inr f, fs')
  ]

-- The end of sys_open: the file goes into the table, or is given up.
unfoldable pub place_or_drop : FileTable → (f : ℕ) → Files → Option ((ℕ ⊎ ℕ) × FileTable × Files)
place_or_drop ft f fs = elim (filetable_place ft f) [
  | inl error ↦ (do fs' ← openfile_decref f fs; some (inl error, ft, fs'))
  | inr placed ↦ some (inr placed.0, placed.1, fs)
]

-- An error number or the descriptor, with the new table.
unfoldable pub sys_open :
    (path_room : Bool)
    → (copied : ℕ) → (opened : ℕ ⊎ ℕ) → (block : Option ℕ) → (flags : ℕ) → FileTable
    → Files
    → Option ((ℕ ⊎ ℕ) × FileTable × Files)
sys_open path_room copied opened block flags ft fs =
    let open_it = (do
      (result, fs') ← openfile_open opened block flags fs
      elim result [ inl error ↦ some (inl error, ft, fs') | inr f ↦ place_or_drop ft f fs' ]) in
    if not (bit_and flags allflags == flags)
    then some (inl einval, ft, fs)
    else if not path_room
    then some (inl enomem, ft, fs)
    else if not (copied == 0)
    then some (inl copied, ft, fs)
    else open_it

unfoldable pub drop_old : Option ℕ → Files → Option Files
drop_old none fs = some fs
drop_old (some f) fs = openfile_decref f fs

-- An error number.
unfoldable pub sys_close : (fd : ℤ) → FileTable → Files → Option (ℕ × FileTable × Files)
sys_close fd ft fs =
    let close_it = (do
      (file, ft') ← filetable_placeat ft none fd
      elim file [
        | none ↦ some (ebadf, ft', fs)
        | some f ↦ (do fs' ← openfile_decref f fs; some (0, ft', fs'))
      ]) in
    if not (filetable_okfd fd) then some (ebadf, ft, fs) else close_it

-- An error number; on success the result is `newfd`.
unfoldable pub sys_dup2 : (oldfd newfd : ℤ) → FileTable → Files → Option (ℕ × FileTable × Files)
sys_dup2 oldfd newfd ft fs =
    let dup_it : Option (ℕ × FileTable × Files) = elim (filetable_get ft oldfd) [
      | inl error ↦ some (error, ft, fs)
      | inr f ↦ (do
        fs1 ← openfile_incref f fs
        (old, ft') ← filetable_placeat ft (some f) newfd
        fs2 ← drop_old old fs1
        some (0, ft', fs2))
    ] in
    if not (filetable_okfd newfd)
    then some (ebadf, ft, fs)
    else if eqb_ℤ oldfd newfd
    then some (0, ft, fs)
    else dup_it
