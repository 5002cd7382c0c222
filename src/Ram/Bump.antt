-- ===== src/Ram/Bump.antt =====
-- The bump allocator hands out disjoint, page-aligned runs of the memory that it was given.
use os161_virtual_memory_imp.Common.{ℕ, ◌+◌, ◌*◌, ◌%◌, ◌≤◌, ◌<◌, ◌≡◌, ◌⊎◌, arith}
use os161_virtual_memory_imp.Machine.{page_size}
use os161_virtual_memory_imp.Ram.{Ram, max_ram, ram_stealmem}

-- Page-aligned bounds below the window of kseg0. Physical page 0 is never free: it holds the
-- exception handlers.
pub record IsRam (r : Ram) : Type 0 where
  pub above : page_size ≤ r.firstpaddr
  pub ordered : r.firstpaddr ≤ r.lastpaddr
  pub capped : r.lastpaddr ≤ max_ram
  pub first_aligned : r.firstpaddr % page_size ≡ 0
  pub last_aligned : r.lastpaddr % page_size ≡ 0

pub ram_stealmem-IsRam :
    (npages : ℕ) (r : Ram) → npages ≤ 131072 → IsRam r → IsRam (ram_stealmem npages r).1
unfolding ram_stealmem
ram_stealmem-IsRam npages r small v = ground arith

-- With less than 512 megabytes asked for, ram_stealmem gives the pages at the bottom of the free
-- memory and raises its bottom past them, if they fit below the top; otherwise it returns 0 and
-- changes nothing.
pub ram_stealmem_lem :
    (npages : ℕ) (r : Ram)
    → npages ≤ 131072
    → IsRam r
    → ((r.firstpaddr + npages * page_size ≤ r.lastpaddr)
        × (ram_stealmem npages r
            ≡ (r.firstpaddr, record r { firstpaddr = r.firstpaddr + npages * page_size })))
      ⊎ ((r.lastpaddr < r.firstpaddr + npages * page_size) × (ram_stealmem npages r ≡ (0, r)))
unfolding ram_stealmem
ram_stealmem_lem npages r small v = ground arith
