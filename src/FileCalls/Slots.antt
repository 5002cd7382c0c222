-- ===== src/FileCalls/Slots.antt =====
-- The references of a table whose slot changes, and descriptors that are not open.
use os161_virtual_memory_imp.Common.{
  ℕ, zero, suc, ◌+◌, ◌≤◌, ◌<◌, ◌≡◌, sym, ap, inl, inr, true, false, Option, none, some, arith, ltb,
  ◌==◌, update, ℤ, pos, negsuc, eqb_ℤ, Bool-cases, eqb→eq, eqb→ne,
}
use os161_virtual_memory_imp.Files.{FileTable, open_max}
use os161_virtual_memory_imp.Files.Refs.{is_file, in_slot, held_from, held_from-update}
use os161_virtual_memory_imp.Files.Share.{held_by}

-- The references of a table whose slot `i` has been written to.
held_from-swap :
    (n fd : ℕ) (ft : FileTable) (i : ℕ) (o : Option ℕ) (g : ℕ)
    → fd ≤ i
    → i < fd + n
    → held_from n fd (update ft i o) g + in_slot (ft i) g ≡ held_from n fd ft g + in_slot o g
held_from-swap zero fd ft i o g low high = absurd (omega arith)
held_from-swap (suc n) fd ft i o g low high = elim (Bool-cases (i == fd)) [
  | inl hit ↦
      (let same : i ≡ fd = eqb→eq i fd hit in
        let rest = held_from-update n (suc fd) ft i o g (omega arith) in
        let slot : in_slot (ft i) g ≡ in_slot (ft fd) g = ap (λ j. in_slot (ft j) g) same in
        rw hit (omega (arith, rest, slot)))
  | inr miss ↦
      (let ne = eqb→ne i fd miss in
        rw miss (omega (arith, held_from-swap n (suc fd) ft i o g (omega arith) (omega arith))))
]

pub held_by-swap :
    (ft : FileTable) (i : ℕ) (o : Option ℕ) (g : ℕ)
    → i < open_max
    → held_by (update ft i o) g + in_slot (ft i) g ≡ held_by ft g + in_slot o g
unfolding held_by
held_by-swap ft i o g within = held_from-swap open_max 0 ft i o g (omega arith) (omega arith)

-- The file of a slot is counted.
pub held_by-slot :
    (ft : FileTable) (i f g : ℕ)
    → i < open_max
    → ft i ≡ some f
    → held_by ft g ≡ is_file f g + held_by (update ft i none) g
held_by-slot ft i f g within there =
    let slot : in_slot (ft i) g ≡ is_file f g = ap (λ o. in_slot o g) there in
    omega (arith, held_by-swap ft i none g within, slot)

pub same_slot : (ft : FileTable) (i j : ℕ) (o : Option ℕ) → ft i ≡ o → update ft i o j ≡ ft j
same_slot ft i j o e = elim (Bool-cases (i == j)) [
  | inl hit ↦ let same : i ≡ j = eqb→eq i j hit in rw hit (sym (rw (sym same) e))
  | inr miss ↦ rw miss
]

pub equal_pos : (i j : ℕ) → (i == j) ≡ true → eqb_ℤ (pos i) (pos j) ≡ true
equal_pos i j e = ground (arith, e)

pub not_equal : (i j : ℕ) → (i == j) ≡ false → eqb_ℤ (pos i) (pos j) ≡ false
not_equal i j e = ground (arith, e)

pub not_equal_neg : (m j : ℕ) → eqb_ℤ (negsuc m) (pos j) ≡ false
not_equal_neg m j = ground arith

-- The descriptor is negative or too large.
abbrev pub OutOfRange : ℤ → Type 0
OutOfRange fd = (i : ℕ) → fd ≡ pos i → open_max ≤ i

-- The descriptor is out of range, or its slot is empty.
abbrev pub NotOpen : FileTable → ℤ → Type 0
NotOpen ft fd = (i : ℕ) → fd ≡ pos i → i < open_max → ft i ≡ none

pub pos_inj : (i j : ℕ) → ◌≡◌ {A = ℤ} (pos i) (pos j) → i ≡ j
pos_inj i j e = ap number e
  where
    number : ℤ → ℕ
    number (pos n) = n
    number (negsuc n) = 0

pub negative : (m i : ℕ) → ◌≡◌ {A = ℤ} (negsuc m) (pos i) → {A : Type 0} → A
negative m i e = absurd cc

pub above_OutOfRange : (j : ℕ) → ltb j open_max ≡ false → OutOfRange (pos j)
above_OutOfRange j above i e = rw (sym (pos_inj j i e)) (ground arith)

pub above_NotOpen : (ft : FileTable) (j : ℕ) → ltb j open_max ≡ false → NotOpen ft (pos j)
above_NotOpen ft j above i e within =
    let same = pos_inj j i e in absurd (ground (arith, above, within, same))

pub empty_NotOpen : (ft : FileTable) (j : ℕ) → ft j ≡ none → NotOpen ft (pos j)
empty_NotOpen ft j empty i e within = rw (sym (pos_inj j i e)) empty
