-- ===== src/AddrSpace/Flags.antt =====
-- The permission bits of a region.
use os161_virtual_memory_imp.Common.{ℕ, ◌%◌, ◌≡◌, ap, ◌∙◌, Bool, false, ◌||◌, arith}
use os161_virtual_memory_imp.AddrSpace.{pf_x, pf_w, pf_r, os_m, test_flag, set_flag_if, new_perms}

-- Setting one bit leaves the four bits as they were but for its own.
module _ (b : Bool) (p : ℕ) where
  pub flags-set_r :
      let q = set_flag_if b p pf_r in
      (test_flag q pf_r ≡ (test_flag p pf_r || b))
      × (test_flag q pf_w ≡ test_flag p pf_w)
      × (test_flag q pf_x ≡ test_flag p pf_x)
      × (test_flag q os_m ≡ test_flag p os_m)
  flags-set_r = (ground arith, ground arith, ground arith, ground arith)

  pub flags-set_w :
      let q = set_flag_if b p pf_w in
      (test_flag q pf_r ≡ test_flag p pf_r)
      × (test_flag q pf_w ≡ (test_flag p pf_w || b))
      × (test_flag q pf_x ≡ test_flag p pf_x)
      × (test_flag q os_m ≡ test_flag p os_m)
  flags-set_w = (ground arith, ground arith, ground arith, ground arith)

  pub flags-set_x :
      let q = set_flag_if b p pf_x in
      (test_flag q pf_r ≡ test_flag p pf_r)
      × (test_flag q pf_w ≡ test_flag p pf_w)
      × (test_flag q pf_x ≡ (test_flag p pf_x || b))
      × (test_flag q os_m ≡ test_flag p os_m)
  flags-set_x = (ground arith, ground arith, ground arith, ground arith)

-- The permissions of a region are exactly `r w x`, and OS_M is clear.
abbrev pub Grants : ℕ → (r w x : Bool) → Type 0
Grants q r w x =
    (test_flag q pf_r ≡ r)
    × (test_flag q pf_w ≡ w)
    × (test_flag q pf_x ≡ x)
    × (test_flag q os_m ≡ false)

pub new_perms-Grants : (old : ℕ) (r w x : Bool) → old % 16 ≡ 0 → Grants (new_perms old r w x) r w x
unfolding new_perms
new_perms-Grants old r w x clean =
    let a = set_flag_if r old pf_r in
    let b = set_flag_if w a pf_w in
    let fr = flags-set_r r old in
    let fw = flags-set_w w a in
    let fx = flags-set_x x b in
    let ox : test_flag old pf_x ≡ false = ground arith in
    let ow : test_flag old pf_w ≡ false = ground arith in
    let or' : test_flag old pf_r ≡ false = ground arith in
    let om : test_flag old os_m ≡ false = ground arith in
    (
      fx.0 ∙ fw.0 ∙ fr.0 ∙ ap (λ z. z || r) or',
      fx.1 ∙ fw.1 ∙ ap (λ z. z || w) (fr.1 ∙ ow),
      fx.2 ∙ ap (λ z. z || x) (fw.2 ∙ fr.2 ∙ ox),
      fx.3 ∙ fw.3 ∙ fr.3 ∙ om,
    )
