-- ===== src/Files/Kept.antt =====
-- Which files an operation of kern/syscall/openfile.c has closed.
use os161_virtual_memory_imp.Common.{
  ℕ, ◌≡◌, ◌⊎◌, ap, true, has, refl, sym, ◌∙◌, inl, inr, Option, none, some, ◌∷◌, update, ◌∷◌, ◌==◌,
  Bool-cases, Option-cases, eq→eqb, eqb→eq,
}
use os161_virtual_memory_imp.Files.{OpenFile, Files, set_refcount, openfile_destroy}

-- A vnode that vfs_close has been called on.
abbrev pub IsClosed : ℕ → Files → Type 0
IsClosed v fs = has v fs.closed ≡ true

-- A run of changes to counts and of closings: a file that exists goes, and its vnode is closed once.
pub data Drops : Files → Files → Type 0 where
  done : (fs : Files) → Drops fs fs
  recount :
      (fs fs' : Files) (f n : ℕ) (file : OpenFile)
      → fs.existing f ≡ some file
      → Drops (set_refcount f file n fs) fs'
      → Drops fs fs'
  close :
      (fs fs' : Files) (f : ℕ) (file : OpenFile)
      → fs.existing f ≡ some file
      → Drops
          (record { existing = update fs.existing f none; closed = file.of_vnode ∷ fs.closed })
          fs'
      → Drops fs fs'

trans-Drops : {fs fs1 fs2 : Files} → Drops fs fs1 → Drops fs1 fs2 → Drops fs fs2
trans-Drops (done fs) l = l
trans-Drops {fs2 = fs2} (recount fs fs1 f n file there k) l =
    recount fs fs2 f n file there (trans-Drops k l)
trans-Drops {fs2 = fs2} (close fs fs1 f file there k) l =
    close fs fs2 f file there (trans-Drops k l)

-- From `fs` to `fs'` files may have gone: these, and no others, have been closed. The others keep
-- what they are, but for their counts.
pub record Keeps (fs fs' : Files) : Type 0 where
  pub remain :
      (f : ℕ) (file : OpenFile)
      → fs.existing f ≡ some file
      → ((fs'.existing f ≡ none) × IsClosed file.of_vnode fs')
        ⊎ ((n : ℕ) × (fs'.existing f ≡ some (record file { of_refcount = n })))
  pub none_new : (f : ℕ) → fs.existing f ≡ none → fs'.existing f ≡ none
  pub still_closed : (v : ℕ) → IsClosed v fs → IsClosed v fs'
  pub newly_closed :
      (v : ℕ)
      → IsClosed v fs'
      → IsClosed v fs
        ⊎ ((f : ℕ) × (file : OpenFile) × (fs.existing f ≡ some file)
            × (fs'.existing f ≡ none)
            × (file.of_vnode ≡ v))
  pub drops : Drops fs fs'

abbrev vnode_of : Option OpenFile → ℕ
vnode_of none = 0
vnode_of (some file) = file.of_vnode

pub refl-Keeps : (fs : Files) → Keeps fs fs
refl-Keeps fs = record {
  remain = λ f file there. inr (file.of_refcount, there);
  none_new = λ f missing. missing;
  still_closed = λ v h. h;
  newly_closed = λ v h. inl h;
  drops = done fs;
}

pub trans-Keeps : (fs fs1 fs2 : Files) → Keeps fs fs1 → Keeps fs1 fs2 → Keeps fs fs2
trans-Keeps fs fs1 fs2 k l = record {
  remain = λ f file there. elim (k.remain f file there) [
    | inl (gone, closed) ↦ inl (l.none_new f gone, l.still_closed file.of_vnode closed)
    | inr (n, kept) ↦ elim (l.remain f (record file { of_refcount = n }) kept) [
      | inl gone ↦ inl gone
      | inr (m, kept') ↦ inr (m, kept')
    ]
  ];
  none_new = λ f missing. l.none_new f (k.none_new f missing);
  drops = trans-Drops k.drops l.drops;
  still_closed = λ v h. l.still_closed v (k.still_closed v h);
  newly_closed = λ v h. elim (l.newly_closed v h) [
    | inl before ↦ elim (k.newly_closed v before) [
      | inl first ↦ inl first
      | inr (f, file, there, gone, vnode) ↦ inr (f, file, there, l.none_new f gone, vnode)
    ]
    | inr (f, file1, there1, gone, vnode) ↦ elim (Option-cases (fs.existing f)) [
      | inl missing ↦ absurd (cc (k.none_new f missing, there1))
      | inr (file, there) ↦ elim (k.remain f file there) [
        | inl (gone1, _) ↦ absurd (cc (gone1, there1))
        | inr (n, kept) ↦
            let same : ◌≡◌ {A = Option OpenFile} (some (record file { of_refcount = n }))
                (some file1) =
              sym kept ∙ there1 in
            inr (f, file, there, gone, ap vnode_of same ∙ vnode)
      ]
    ]
  ];
}

-- A file whose count changes.
pub set_refcount-Keeps :
    (fs : Files) (f n : ℕ) (file : OpenFile)
    → fs.existing f ≡ some file
    → Keeps fs (set_refcount f file n fs)
set_refcount-Keeps fs f n file there = record {
  drops = recount fs _ f n file there (done _);
  remain = λ g other h. elim (Bool-cases (f == g)) [
    | inl hit ↦
        let same : f ≡ g = eqb→eq f g hit in
        let file' : ◌≡◌ {A = Option OpenFile} (some file) (some other) =
          sym there ∙ ap fs.existing same ∙ h in
        inr (n, rw hit (ap (reset n) file'))
    | inr miss ↦ inr (other.of_refcount, rw miss h)
  ];
  none_new = λ g missing. elim (Bool-cases (f == g)) [
    | inl hit ↦ absurd (cc (there, missing, ap fs.existing (eqb→eq f g hit)))
    | inr miss ↦ rw miss missing
  ];
  still_closed = λ v h. h;
  newly_closed = λ v h. inl h;
}
  where
    reset : ℕ → Option OpenFile → Option OpenFile
    reset m none = none
    reset m (some x) = some (record x { of_refcount = m })

pub openfile_destroy-Keeps :
    (fs : Files) (f : ℕ) (file : OpenFile)
    → fs.existing f ≡ some file
    → Keeps fs (openfile_destroy f file fs)
unfolding openfile_destroy
openfile_destroy-Keeps fs f file there = record {
  drops = close fs _ f file there (done _);
  remain = λ g other h. elim (Bool-cases (f == g)) [
    | inl hit ↦
        let same : f ≡ g = eqb→eq f g hit in
        let file' : ◌≡◌ {A = Option OpenFile} (some file) (some other) =
          sym there ∙ ap fs.existing same ∙ h in
        inl (rw hit refl, rw (eq→eqb file.of_vnode other.of_vnode (ap vnode_of file')) refl)
    | inr miss ↦ inr (other.of_refcount, rw miss h)
  ];
  none_new = λ g missing. elim (Bool-cases (f == g)) [
    | inl hit ↦ rw hit refl
    | inr miss ↦ rw miss missing
  ];
  still_closed =
      λ v h. elim (Bool-cases (file.of_vnode == v)) [ inl e ↦ rw e refl | inr e ↦ rw e h ];
  newly_closed = λ v h. elim (Bool-cases (file.of_vnode == v)) [
    | inl e ↦ inr (f, file, there, rw (eq→eqb f f refl) refl, eqb→eq file.of_vnode v e)
    | inr e ↦ inl (rw e at h)
  ];
}
