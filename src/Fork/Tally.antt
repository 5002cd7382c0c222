-- ===== src/Fork/Tally.antt =====
-- How many entries of the page table map a page of a process to a frame.
use os161_virtual_memory_imp.Common.{
  ℕ, zero, suc, ◌+◌, ◌≤◌, ◌<◌, ◌≡◌, refl, ◌&&◌, List, [], ◌∷◌, ◌++◌, arith, ◌==◌, if◌then◌else◌,
  update,
}
use os161_virtual_memory_imp.PageTable.{PageEntry}
use os161_virtual_memory_imp.PageTable.Counts.{refs_in}

-- The entry maps page `pn` of process `pid` to frame `f`.
abbrev pub maps : (pid pn f : ℕ) → PageEntry → ℕ
maps pid pn f e = if (e.pid == pid) && ((e.pagenumber == pn) && (e.lo.framenum == f)) then 1 else 0

abbrev pub tally_in : (pid pn f : ℕ) → List PageEntry → ℕ
tally_in pid pn f [] = 0
tally_in pid pn f (e ∷ es) = maps pid pn f e + tally_in pid pn f es

-- Over the first `n` chains.
abbrev pub tally : (n : ℕ) → (ℕ → List PageEntry) → (pid pn f : ℕ) → ℕ
tally zero chain pid pn f = 0
tally (suc n) chain pid pn f = tally n chain pid pn f + tally_in pid pn f (chain n)

module _ (pid pn f : ℕ) where
  tally-update_above :
      (n : ℕ) (chain : ℕ → List PageEntry) (i : ℕ) (es : List PageEntry)
      → n ≤ i
      → tally n (update chain i es) pid pn f ≡ tally n chain pid pn f
  tally-update_above zero chain i es h = refl
  tally-update_above (suc n) chain i es h = ground (arith, tally-update_above n chain i es)

  pub tally-update :
      (n : ℕ) (chain : ℕ → List PageEntry) (i : ℕ) (es : List PageEntry)
      → i < n
      → tally n (update chain i es) pid pn f + tally_in pid pn f (chain i)
        ≡ tally n chain pid pn f + tally_in pid pn f es
  tally-update zero chain i es h = elim h [ ]
  tally-update (suc n) chain i es h =
      ground (arith, tally-update n chain i es, tally-update_above n chain i es)

  pub tally_in-append :
      (es fs : List PageEntry)
      → tally_in pid pn f (es ++ fs) ≡ tally_in pid pn f es + tally_in pid pn f fs
  tally_in-append [] fs = omega arith
  tally_in-append (e ∷ es) fs = omega (arith, tally_in-append es fs)

pub refs_in-append :
    (f : ℕ) (es fs : List PageEntry) → refs_in f (es ++ fs) ≡ refs_in f es + refs_in f fs
refs_in-append f [] fs = omega arith
refs_in-append f (e ∷ es) fs = omega (arith, refs_in-append f es fs)
