-- ===== src/FileCalls/Opens.antt =====
-- open makes a file with one reference, and puts it into the table or closes it again.
use os161_virtual_memory_imp.Common.{
  ℕ, ◌+◌, ◌<◌, ◌≡◌, ◌≢◌, refl, sym, subst, ◌∙◌, true, false, ap, eqb→eq, eqb→ne, ◌⊎◌, inl, inr,
  Bool, Option, none, some, ◌∷◌, arith, ◌==◌, ◌>>=◌, update, Bool-cases, eq→eqb, ne→eqb, lt→ltb,
}
use Prim.Native.Nat.{bit_and}
use os161_virtual_memory_imp.Machine.{enomem, einval}
use os161_virtual_memory_imp.Files.{
  OpenFile, Files, FileTable, emfile, open_max, filetable_place, openfile_decref, openfile_destroy,
}
use os161_virtual_memory_imp.Files.Refs.{
  is_file, in_slot, refcount, IsUsed, Counts, Counts-ext, stored,
}
use os161_virtual_memory_imp.Files.Share.{held_by}
use os161_virtual_memory_imp.Files.Place.{InUse, place_from-Places}
use os161_virtual_memory_imp.FileCalls.{
  allflags, openfile_create, openfile_open, place_or_drop, sys_open,
}
use os161_virtual_memory_imp.FileCalls.Slots.{held_by-swap}

-- The file that open makes.
abbrev pub opened_file : (vnode flags : ℕ) → OpenFile
opened_file vnode flags = record {
  of_vnode = vnode;
  of_accmode = bit_and flags 3;
  of_offset = 0;
  of_refcount = 1;
}

module _ (path_room : Bool) (copied : ℕ) (opened : ℕ ⊎ ℕ) (block : Option ℕ) (flags : ℕ)
    (ft : FileTable) (fs : Files) where
  -- Why open has failed, and with what: before the vnode is there nothing changes; after it the
  -- vnode is closed again, and no file is left behind.
  abbrev pub Fails : (error : ℕ) → Files → Type 0
  Fails error fs' =
      ((fs' ≡ fs)
        × (((bit_and flags allflags ≢ flags) × (error ≡ einval))
            ⊎ ((bit_and flags allflags ≡ flags) × (path_room ≡ false) × (error ≡ enomem))
            ⊎ ((bit_and flags allflags ≡ flags)
                × (path_room ≡ true)
                × (copied ≢ 0)
                × (error ≡ copied))
            ⊎ ((bit_and flags allflags ≡ flags)
                × (path_room ≡ true)
                × (copied ≡ 0)
                × (opened ≡ inl error))))
      ⊎ ((vnode : ℕ) × (opened ≡ inr vnode)
          × (fs'.closed ≡ vnode ∷ fs.closed)
          × ((g : ℕ) → fs'.existing g ≡ fs.existing g)
          × (((block ≡ none) × (error ≡ enomem))
              ⊎ ((block ≢ none) × ((j : ℕ) → j < open_max → InUse ft j) × (error ≡ emfile))))

  -- What open comes to: an error, and the table as before; or the smallest free descriptor, which
  -- gets the new file, and nothing else changes.
  abbrev pub Opens : (c : ℕ → ℕ) → Option ((ℕ ⊎ ℕ) × FileTable × Files) → Type 0
  Opens c r =
      ((error : ℕ) × (fs' : Files) × (r ≡ some (inl error, ft, fs'))
        × Fails error fs'
        × Counts fs' (λ g. held_by ft g + c g))
      ⊎ ((i f vnode : ℕ) × (fs' : Files) × (i < open_max)
          × (ft i ≡ none)
          × ((j : ℕ) → j < i → InUse ft j)
          × (r ≡ some (inr i, update ft i (some f), fs'))
          × (block ≡ some f)
          × (opened ≡ inr vnode)
          × (fs'.existing f ≡ some (opened_file vnode flags))
          × ((g : ℕ) → f ≢ g → fs'.existing g ≡ fs.existing g)
          × (fs'.closed ≡ fs.closed)
          × Counts fs' (λ g. held_by (update ft i (some f)) g + c g))

module _ (ft : FileTable) (c : ℕ → ℕ) (fs : Files) (v : Counts fs (λ g. held_by ft g + c g)) where
  with_file : (f : ℕ) → OpenFile → Files
  with_file f file = record fs { existing = update fs.existing f (some file) }

  created-Counts :
      (f vnode flags : ℕ)
      → fs.existing f ≡ none
      → Counts (with_file f (opened_file vnode flags)) (λ g. is_file f g + (held_by ft g + c g))
  unfolding with_file
  created-Counts f vnode flags fresh =
      let unheld : 0 ≡ held_by ft f + c f = rw fresh at (v.counted f) in
      let one : is_file f f ≡ 1 = rw (eq→eqb f f refl) in
      stored fs _ (λ g. held_by ft g + c g) (λ g. is_file f g + (held_by ft g + c g)) f
        (some (opened_file vnode flags)) v (λ g. refl) (omega (arith, unheld, one)) (omega arith)
        (λ g other. rw (ne→eqb f g other) (omega arith))

  closed_more :
      (vnode : ℕ) → Counts (record fs { closed = vnode ∷ fs.closed }) (λ g. held_by ft g + c g)
  closed_more vnode = record { counted = v.counted; used = v.used }

  -- The only reference to the new file is given up.
  drop_new :
      (f vnode flags : ℕ)
      → openfile_decref f (with_file f (opened_file vnode flags))
        ≡ some
            (openfile_destroy f (opened_file vnode flags) (with_file f (opened_file vnode flags)))
  unfolding openfile_decref with_file
  drop_new f vnode flags = rw (eq→eqb f f refl) refl

  gone_again :
      (f g : ℕ) (file : OpenFile)
      → fs.existing f ≡ none
      → update (update fs.existing f (some file)) f none g ≡ fs.existing g
  gone_again f g file fresh = elim (Bool-cases (f == g)) [
    | inl hit ↦ rw hit (sym (ap fs.existing (sym (eqb→eq f g hit)) ∙ fresh))
    | inr miss ↦ rw miss refl
  ]

  place_or_drop-Opens :
      (path_room : Bool) (copied f vnode flags : ℕ)
      → fs.existing f ≡ none
      → Opens path_room copied
          (inr vnode)
          (some f)
          flags
          ft
          fs
          c
          (place_or_drop ft f (with_file f (opened_file vnode flags)))
  unfolding place_or_drop filetable_place with_file openfile_destroy
  place_or_drop-Opens path_room copied f vnode flags fresh =
      let file = opened_file vnode flags in
      let counts = created-Counts f vnode flags fresh in
      elim (place_from-Places open_max 0 ft f) [
        | inl (all, run) ↦
            let same = λ (g : ℕ). gone_again f g file fresh in
            inl (
              emfile,
              openfile_destroy f file (with_file f file),
              rw (run, place_or_drop) (rw (drop_new f vnode flags) refl),
              inr (
                vnode,
                refl,
                refl,
                same,
                inr ((λ e. absurd cc), (λ j less. all j (omega arith) (omega arith)), refl),
              ),
              record {
                counted = λ g. ap refcount (same g) ∙ v.counted g;
                used = λ g. subst IsUsed (sym (same g)) (v.used g);
              },
            )
        | inr (i, low, high, before, empty, run) ↦
            let below : i < open_max = omega arith in
            let slot = λ (g : ℕ). ap (λ o. in_slot o g) empty in
            inr (
              i,
              f,
              vnode,
              with_file f file,
              below,
              empty,
              (λ j less. before j (omega arith) less),
              rw (run, place_or_drop),
              refl,
              refl,
              rw (eq→eqb f f refl) refl,
              (λ g other. rw (ne→eqb f g other) refl),
              refl,
              Counts-ext (with_file f file) _ _ counts
                  (λ g. omega (arith, held_by-swap ft i (some f) g below, slot g)),
            )
      ]

  -- sys_open behind its checks.
  abbrev open_it :
      (opened : ℕ ⊎ ℕ) → (block : Option ℕ) → (flags : ℕ) → Option ((ℕ ⊎ ℕ) × FileTable × Files)
  open_it opened block flags = do
    (result, fs') ← openfile_open opened block flags fs
    elim result [ inl error ↦ some (inl error, ft, fs') | inr f ↦ place_or_drop ft f fs' ]

  open_it-Opens :
      (path_room : Bool) (copied : ℕ) (opened : ℕ ⊎ ℕ) (block : Option ℕ) (flags : ℕ)
      → bit_and flags allflags ≡ flags
      → path_room ≡ true
      → copied ≡ 0
      → ((vnode : ℕ) → opened ≡ inr vnode → bit_and flags 3 < 3)
      → ((f : ℕ) → block ≡ some f → fs.existing f ≡ none)
      → Opens path_room copied opened block flags ft fs c (open_it opened block flags)
  unfolding openfile_open openfile_create with_file
  open_it-Opens path_room copied (inl error) block flags good room fine mode fresh =
      inl (error, fs, refl, inl (refl, inr (inr (inr (good, room, fine, refl)))), v)
  open_it-Opens path_room copied (inr vnode) none flags good room fine mode fresh =
      let ok = lt→ltb (bit_and flags 3) 3 (mode vnode refl) in
      inl (
        enomem,
        record fs { closed = vnode ∷ fs.closed },
        rw ok,
        inr (vnode, refl, refl, (λ g. refl), inl (refl, refl)),
        closed_more vnode,
      )
  open_it-Opens path_room copied (inr vnode) (some f) flags good room fine mode fresh =
      let ok = lt→ltb (bit_and flags 3) 3 (mode vnode refl) in
      rw ok (place_or_drop-Opens path_room copied f vnode flags (fresh f refl))

  -- Where each file counts the references of the table and others, and the block of a new file is
  -- not in use, open fails no assertion, given that vfs_open has checked the access mode. An error
  -- has its reason: unknown flags, no memory, what copyinstr or vfs_open answer, or a full table;
  -- the table is as it was, every file is as before, and a vnode that was opened is closed again.
  -- Otherwise the smallest free descriptor gets the new file, in the new block, with the vnode, the
  -- access mode, offset 0 and one reference; nothing else changes, and each file counts the
  -- references of the new table and the others.
  pub sys_open-Opens :
      (path_room : Bool) (copied : ℕ) (opened : ℕ ⊎ ℕ) (block : Option ℕ) (flags : ℕ)
      → ((vnode : ℕ) → opened ≡ inr vnode → bit_and flags 3 < 3)
      → ((f : ℕ) → block ≡ some f → fs.existing f ≡ none)
      → Opens path_room copied opened block flags ft fs c
          (sys_open path_room copied opened block flags ft fs)
  unfolding sys_open
  sys_open-Opens path_room copied opened block flags mode fresh =
      elim (Bool-cases (bit_and flags allflags == flags)) [
        | inr bad ↦ inl (
          einval,
          fs,
          rw bad,
          inl (refl, inl (eqb→ne (bit_and flags allflags) flags bad, refl)),
          v,
        )
        | inl good ↦
            let good' = eqb→eq (bit_and flags allflags) flags good in
            elim (Bool-cases path_room) [
              | inr no_room ↦
                  inl (
                    enomem,
                    fs,
                    rw (good, no_room),
                    inl (refl, inr (inl (good', no_room, refl))),
                    v,
                  )
              | inl room ↦ elim (Bool-cases (copied == 0)) [
                | inr fault ↦ inl (
                  copied,
                  fs,
                  rw (good, room, fault),
                  inl (refl, inr (inr (inl (good', room, eqb→ne copied 0 fault, refl)))),
                  v,
                )
                | inl fine ↦
                    let run : sys_open path_room copied opened block flags ft fs
                        ≡ open_it opened block flags =
                      rw (good, room, fine) refl in
                    subst (Opens path_room copied opened block flags ft fs c) (sym run) (
                      open_it-Opens path_room copied opened block flags good' room
                        (eqb→eq copied 0 fine) mode fresh)
              ]
            ]
      ]
