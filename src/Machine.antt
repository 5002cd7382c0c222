-- ===== src/Machine.antt =====
-- The constants and address conversions of kern/arch/mips/include/vm.h, kern/include/vm.h and the
-- error numbers of kern/include/kern/errno.h. Addresses are 32-bit words, kept as numbers.
use os161_virtual_memory_imp.Common.{ℕ, ◌+◌, ◌-◌, ◌*◌, ◌/◌, ◌%◌, ◌^◌, ◌<◌, ◌≡◌, arith}

abbrev pub word : ℕ
word = 2 ^ 32

abbrev pub page_size : ℕ
page_size = 4096

abbrev pub mips_kseg0 : ℕ
mips_kseg0 = 0x8000_0000

-- `userstack` is USERSPACETOP.
abbrev pub userstack : ℕ
userstack = mips_kseg0

-- STACKPAGES * PAGE_SIZE
abbrev pub stacksize : ℕ
stacksize = 16 * page_size

abbrev pub enomem : ℕ
enomem = 3

abbrev pub efault : ℕ
efault = 6

abbrev pub einval : ℕ
einval = 8

-- `x & PAGE_FRAME` and `x & ~PAGE_FRAME`: the twelve low bits cleared, and they alone.
abbrev pub page_frame : ℕ → ℕ
page_frame x = x / page_size * page_size

abbrev pub page_offset : ℕ → ℕ
page_offset x = x % page_size

-- `x << FRAME_TO_PADDR` and `x >> PADDR_TO_FRAME` on 32-bit words.
abbrev pub frame_to_paddr : ℕ → ℕ
frame_to_paddr x = x * page_size % word

abbrev pub paddr_to_frame : ℕ → ℕ
paddr_to_frame x = x / page_size

unfoldable pub paddr_to_kvaddr : ℕ → ℕ
paddr_to_kvaddr paddr = (paddr + mips_kseg0) % word

unfoldable pub kvaddr_to_paddr : ℕ → ℕ
kvaddr_to_paddr vaddr = (vaddr + word - mips_kseg0) % word

-- The kernel's window undoes itself.
pub kvaddr_to_paddr-paddr_to_kvaddr : (p : ℕ) → p < word → kvaddr_to_paddr (paddr_to_kvaddr p) ≡ p
unfolding paddr_to_kvaddr kvaddr_to_paddr
kvaddr_to_paddr-paddr_to_kvaddr p h = omega arith

-- The number of a frame is recovered from its kernel address.
pub frame-paddr_to_kvaddr :
    (i : ℕ) → i < 131072 → paddr_to_frame (kvaddr_to_paddr (paddr_to_kvaddr (frame_to_paddr i))) ≡ i
unfolding paddr_to_kvaddr kvaddr_to_paddr
frame-paddr_to_kvaddr i h = omega arith
