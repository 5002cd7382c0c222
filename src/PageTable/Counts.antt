-- ===== src/PageTable/Counts.antt =====
-- How many page table entries refer to a frame.
use os161_virtual_memory_imp.Common.{
  ℕ, zero, suc, ◌+◌, ◌≤◌, ◌<◌, ◌≡◌, refl, true, some, List, [], ◌∷◌, arith, ◌==◌, if◌then◌else◌,
  update,
}
use os161_virtual_memory_imp.PageTable.{PageEntry, translates, find_in, replace_in}

abbrev pub refers : ℕ → PageEntry → ℕ
refers f e = if e.lo.framenum == f then 1 else 0

abbrev pub refs_in : ℕ → List PageEntry → ℕ
refs_in f [] = 0
refs_in f (e ∷ es) = refers f e + refs_in f es

-- Over the first `n` chains.
abbrev pub refs : (n : ℕ) → (ℕ → List PageEntry) → ℕ → ℕ
refs zero chain f = 0
refs (suc n) chain f = refs n chain f + refs_in f (chain n)

pub refs-update_above :
    (n : ℕ) (chain : ℕ → List PageEntry) (i : ℕ) (es : List PageEntry) (f : ℕ)
    → n ≤ i
    → refs n (update chain i es) f ≡ refs n chain f
refs-update_above zero chain i es f h = refl
refs-update_above (suc n) chain i es f h = ground (arith, refs-update_above n chain i es f)

pub refs-update :
    (n : ℕ) (chain : ℕ → List PageEntry) (i : ℕ) (es : List PageEntry) (f : ℕ)
    → i < n
    → refs n (update chain i es) f + refs_in f (chain i) ≡ refs n chain f + refs_in f es
refs-update zero chain i es f h = elim h [ ]
refs-update (suc n) chain i es f h =
    ground (arith, refs-update n chain i es f, refs-update_above n chain i es f)

pub refs_in-le-refs :
    (n : ℕ) (chain : ℕ → List PageEntry) (i f : ℕ) → i < n → refs_in f (chain i) ≤ refs n chain f
refs_in-le-refs zero chain i f h = elim h [ ]
refs_in-le-refs (suc n) chain i f h = ground (arith, refs_in-le-refs n chain i f)

-- Replacing the entry that is found moves one reference.
pub refs_in-replace :
    (pid : ℕ) (e e' : PageEntry) (es : List PageEntry) (f : ℕ)
    → find_in pid es ≡ some e
    → refs_in f (replace_in pid e' es) + refers f e ≡ refs_in f es + refers f e'
unfolding find_in replace_in
refs_in-replace pid e e' [] f h = absurd (ground arith)
refs_in-replace pid e e' (x ∷ es) f h = ground (arith, refs_in-replace pid e e' es f)

pub refers-le-refs_in :
    (pid : ℕ) (e : PageEntry) (es : List PageEntry)
    → find_in pid es ≡ some e
    → 0 < refs_in e.lo.framenum es
unfolding find_in
refers-le-refs_in pid e [] h = absurd (ground arith)
refers-le-refs_in pid e (x ∷ es) h = ground (arith, refers-le-refs_in pid e es)

pub find_in-translates :
    (pid : ℕ) (e : PageEntry) (es : List PageEntry)
    → find_in pid es ≡ some e
    → translates pid e ≡ true
unfolding find_in
find_in-translates pid e [] h = absurd (ground arith)
find_in-translates pid e (x ∷ es) h = ground (arith, find_in-translates pid e es)

-- What has been written through the pointer is what the next search finds.
pub find_in-replace :
    (pid : ℕ) (e e' : PageEntry) (es : List PageEntry)
    → find_in pid es ≡ some e
    → translates pid e' ≡ true
    → find_in pid (replace_in pid e' es) ≡ some e'
unfolding find_in replace_in
find_in-replace pid e e' [] h k = absurd (ground arith)
find_in-replace pid e e' (x ∷ es) h k = ground (arith, find_in-replace pid e e' es)
