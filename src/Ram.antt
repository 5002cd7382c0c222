-- ===== src/Ram.antt =====
-- kern/arch/mips/vm/ram.c: the bump allocator that hands out physical memory before the frame
-- table exists. `firstpaddr` and `lastpaddr` are the file's two static variables.
pub mod Bump
use os161_virtual_memory_imp.Common.{ℕ, ◌+◌, ◌-◌, ◌*◌, ◌%◌, ltb, if◌then◌else◌}
use os161_virtual_memory_imp.Machine.{word, page_size, mips_kseg0}

pub record Ram : Type 0 where
  pub firstpaddr : ℕ
  pub lastpaddr : ℕ

abbrev pub max_ram : ℕ
max_ram = 512 * 1024 * 1024

-- `ramsize` is what mainbus_ramsize() reports, `firstfree` what start.S has saved.
unfoldable pub ram_bootstrap : (ramsize firstfree : ℕ) → Ram
ram_bootstrap ramsize firstfree = record {
  firstpaddr = (firstfree + word - mips_kseg0) % word;
  lastpaddr = if ltb max_ram ramsize then max_ram else ramsize;
}

-- 0 is failure. The products and sums are those of 32-bit words.
unfoldable pub ram_stealmem : ℕ → Ram → ℕ × Ram
ram_stealmem npages r =
    let size = npages * page_size % word in
    if ltb r.lastpaddr ((r.firstpaddr + size) % word)
    then (0, r)
    else (r.firstpaddr, record r { firstpaddr = (r.firstpaddr + size) % word })

unfoldable pub ram_getsize : Ram → ℕ
ram_getsize r = r.lastpaddr

unfoldable pub ram_getfirstfree : Ram → ℕ × Ram
ram_getfirstfree r = (r.firstpaddr, record { firstpaddr = 0; lastpaddr = 0 })
