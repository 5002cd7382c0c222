-- ===== src/AddrSpace.antt =====
-- kern/vm/addrspace.c, the part about regions: an address space is its own address, which serves as
-- the process identifier of page table entries, and its list of regions. A `struct addrspace *`
-- argument that may be NULL is an `Option`.
pub mod Flags
pub mod Lookup
pub mod Define
pub mod Load
pub mod Copied
use os161_virtual_memory_imp.Common.{
  ℕ, suc, ◌+◌, ◌-◌, ◌*◌, ◌/◌, ◌%◌, Bool, true, false, not, ◌&&◌, Option, none, some, List, [], ◌∷◌,
  map, ltb, leb, ◌==◌, if◌then◌else◌,
}
use os161_virtual_memory_imp.Machine.{
  word, page_size, userstack, stacksize, efault, enomem, page_frame, page_offset,
}
use os161_virtual_memory_imp.Kmalloc.{World, Kmalloc}

-- The permission bits of kern/include/elf.h.
abbrev pub pf_x : ℕ
pf_x = 1

abbrev pub pf_w : ℕ
pf_w = 2

abbrev pub pf_r : ℕ
pf_r = 4

-- OS_M: the permissions have been modified by the operating system.
abbrev pub os_m : ℕ
os_m = 8

-- `p & m`, `p |= m` and `p &= ~m` for a mask of one bit.
abbrev pub test_flag : (p m : ℕ) → Bool
test_flag p m = p / m % 2 == 1

abbrev pub set_flag : (p m : ℕ) → ℕ
set_flag p m = if test_flag p m then p else p + m

abbrev pub clear_flag : (p m : ℕ) → ℕ
clear_flag p m = if test_flag p m then p - m else p

abbrev pub set_flag_if : Bool → (p m : ℕ) → ℕ
set_flag_if b p m = if b then set_flag p m else p

-- `block` is the address of the structure.
pub record Region : Type 0 where
  pub block : ℕ
  pub as_perms : ℕ
  pub as_vbase : ℕ
  pub as_npages : ℕ

pub record AddrSpace : Type 0 where
  pub block : ℕ
  pub regions : List Region

-- sizeof(struct region_spec) and sizeof(struct addrspace)
abbrev pub region_size : ℕ
region_size = 16

abbrev pub addrspace_size : ℕ
addrspace_size = 4

unfoldable pub holds : Region → ℕ → Bool
holds r addr =
    leb r.as_vbase addr && ltb addr ((r.as_vbase + r.as_npages * page_size % word) % word)

unfoldable pub find_region : List Region → ℕ → Option Region
find_region [] addr = none
find_region (r ∷ rs) addr = if holds r addr then some r else find_region rs addr

unfoldable pub as_check_valid_addr : Option AddrSpace → ℕ → Option Region
as_check_valid_addr none addr = none
as_check_valid_addr (some space) addr = find_region space.regions addr

-- The three lines that set the permissions of a new region: the block is not cleared before.
unfoldable pub new_perms : (old : ℕ) (readable writeable executable : Bool) → ℕ
new_perms old readable writeable executable =
    set_flag_if executable (set_flag_if writeable (set_flag_if readable old pf_r) pf_w) pf_x

-- The number of pages that as_define_region gives to `memsize` bytes from `vaddr`.
unfoldable pub region_pages : (vaddr memsize : ℕ) → ℕ
region_pages vaddr memsize =
    page_frame (((memsize + page_offset vaddr) % word + page_size - 1) % word) / page_size

module _ {H : Type 0} (K : Kmalloc H) where
  unfoldable pub as_create : World H → Option AddrSpace × World H
  as_create w =
      let (p, w') = K.kmalloc addrspace_size w in
      if p == 0 then (none, w') else (some (record { block = p; regions = [] }), w')

  -- An operation on an address space returns its error number and the new address space.
  define_in :
      AddrSpace
      → (vaddr memsize : ℕ) → (readable writeable executable : Bool) → World H
      → ℕ × AddrSpace × World H
  define_in space vaddr memsize readable writeable executable w =
      let (p, w') = K.kmalloc region_size w in
      if p == 0 then (enomem, space, w') else (
        0,
        record space {
          regions =
              record {
                block = p;
                as_perms = new_perms (K.first_word w' p) readable writeable executable;
                as_vbase = page_frame vaddr;
                as_npages = region_pages vaddr memsize;
              }
              ∷ space.regions;
        },
        w',
      )

  unfoldable pub as_define_region :
      Option AddrSpace
      → (vaddr memsize : ℕ) → (readable writeable executable : Bool) → World H
      → ℕ × Option AddrSpace × World H
  unfolding define_in
  as_define_region none vaddr memsize readable writeable executable w = (efault, none, w)
  as_define_region (some space) vaddr memsize readable writeable executable w =
      let (e, space', w') = define_in space vaddr memsize readable writeable executable w in
      (e, some space', w')

  -- The stack pointer is handed back on success; `wanted` is `stackptr != NULL`.
  unfoldable pub as_define_stack :
      Option AddrSpace → (wanted : Bool) → World H → ℕ × Option ℕ × Option AddrSpace × World H
  as_define_stack none wanted w = (efault, none, none, w)
  as_define_stack (some space) false w = (efault, none, some space, w)
  as_define_stack (some space) true w =
      let (e, space', w') =
        as_define_region (some space) (userstack - stacksize) stacksize true true false w in
      if e == 0 then (0, some userstack, space', w') else (e, none, space', w')

  unfoldable pub as_copy_region :
      Option AddrSpace → Option Region → World H → ℕ × Option AddrSpace × World H
  as_copy_region none region w = (efault, none, w)
  as_copy_region (some space) none w = (efault, some space, w)
  as_copy_region (some space) (some r) w =
      as_define_region (some space) r.as_vbase (r.as_npages * page_size % word)
        (test_flag r.as_perms pf_r) (test_flag r.as_perms pf_w) (test_flag r.as_perms pf_x) w

-- The body of as_prepare_load's loop, and what as_complete_load does to a region at the end.
unfoldable pub prepare_region : Region → Region
prepare_region r =
    if test_flag r.as_perms pf_w
    then r
    else record r { as_perms = set_flag (set_flag r.as_perms pf_w) os_m }

unfoldable pub restore_region : Region → Region
restore_region r =
    if test_flag r.as_perms os_m
    then record r { as_perms = clear_flag (clear_flag r.as_perms pf_w) os_m }
    else r

unfoldable pub as_prepare_load : Option AddrSpace → ℕ × Option AddrSpace
as_prepare_load none = (efault, none)
as_prepare_load (some space) =
    (0, some (record space { regions = map prepare_region space.regions }))
