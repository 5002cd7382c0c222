-- ===== src/AddrSpace/Load.antt =====
-- The permissions of regions while a program is loaded.
use mathlib.Core.Option
use os161_virtual_memory_imp.Common.{
  ℕ, ◌≡◌, refl, true, false, List, [], ◌∷◌, map, none, some, arith, All,
}
use os161_virtual_memory_imp.AddrSpace.{
  Region, AddrSpace, pf_w, os_m, test_flag, holds, prepare_region, restore_region, find_region,
  as_check_valid_addr, as_prepare_load,
}

-- No region is marked as modified by the operating system.
abbrev pub Unmarked : List Region → Type 0
Unmarked = All λ r. test_flag r.as_perms os_m ≡ false

pub restore-prepare :
    (r : Region) → test_flag r.as_perms os_m ≡ false → restore_region (prepare_region r) ≡ r
unfolding restore_region prepare_region
restore-prepare r h = ground arith

pub prepare_writable : (r : Region) → test_flag (prepare_region r).as_perms pf_w ≡ true
unfolding prepare_region
prepare_writable r = ground arith

-- Loading does not move regions, and once the marks are taken off again it leaves no trace.
pub restore-prepare_all :
    (rs : List Region) → Unmarked rs → map restore_region (map prepare_region rs) ≡ rs
restore-prepare_all [] u = refl
restore-prepare_all (r ∷ rs) u = rw (restore-prepare r u.0, restore-prepare_all rs u.1)

prepare_holds : (r : Region) (addr : ℕ) → holds (prepare_region r) addr ≡ holds r addr
unfolding prepare_region holds
prepare_holds r addr = ground arith

find_region-prepare :
    (rs : List Region) (addr : ℕ)
    → find_region (map prepare_region rs) addr ≡ Option.map prepare_region (find_region rs addr)
unfolding find_region
find_region-prepare [] addr = refl
find_region-prepare (r ∷ rs) addr =
    ground (arith, prepare_holds r addr, find_region-prepare rs addr)

-- While a program is loaded, an address is valid just when it was before, and its region is
-- writable; taking the marks off the regions afterwards restores each of them, if none bore one.
pub as_prepare_load_lem :
    (space : AddrSpace)
    → Unmarked space.regions
    → (loading : AddrSpace) × (as_prepare_load (some space) ≡ (0, some loading))
      × ((addr : ℕ) (r : Region)
          → as_check_valid_addr (some space) addr ≡ some r
          → (r' : Region) × (as_check_valid_addr (some loading) addr ≡ some r')
            × (test_flag r'.as_perms pf_w ≡ true))
      × ((addr : ℕ)
          → as_check_valid_addr (some space) addr ≡ none
          → as_check_valid_addr (some loading) addr ≡ none)
      × (map restore_region loading.regions ≡ space.regions)
unfolding as_prepare_load as_check_valid_addr
as_prepare_load_lem space u = (
  record space { regions = map prepare_region space.regions },
  refl,
  (λ addr r e.
      (prepare_region r, rw (find_region-prepare space.regions addr, e), prepare_writable r)),
  (λ addr e. rw (find_region-prepare space.regions addr, e)),
  restore-prepare_all space.regions u,
)
