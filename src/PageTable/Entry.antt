-- ===== src/PageTable/Entry.antt =====
-- The word that set_entrylo builds is the one that the TLB reads: TLBLO_PPAGE, TLBLO_NOCACHE,
-- TLBLO_DIRTY, TLBLO_VALID and TLBLO_GLOBAL of kern/arch/mips/include/tlb.h.
use os161_virtual_memory_imp.Common.{ℕ, ◌*◌, ◌/◌, ◌%◌, ◌^◌, ◌<◌, ◌≡◌, arith}
use os161_virtual_memory_imp.Machine.{word, page_frame}
use os161_virtual_memory_imp.PageTable.{EntryLo, uint, set_entrylo}

-- Each field is within its width.
pub record IsEntryLo (e : EntryLo) : Type 0 where
  pub framenum : e.framenum < 2 ^ 20
  pub nocache : e.nocache < 2
  pub dirty : e.dirty < 2
  pub valid : e.valid < 2
  pub global : e.global < 2
  pub unused : e.unused < 2 ^ 8

pub set_entrylo-IsEntryLo :
    (valid dirty framenum : ℕ) → IsEntryLo (set_entrylo valid dirty framenum)
unfolding set_entrylo
set_entrylo-IsEntryLo valid dirty framenum = omega arith

-- The word of a bit field in range fits 32 bits, and each field is read back from the bits that
-- the TLB assigns to it: bits 12 to 31 are the frame, bit 11 nocache, bit 10 dirty (writeable),
-- bit 9 valid, bit 8 global.
pub uint_fields :
    (e : EntryLo)
    → IsEntryLo e
    → (uint e < word)
      × (page_frame (uint e) ≡ e.framenum * 2 ^ 12)
      × (uint e / 2 ^ 11 % 2 ≡ e.nocache)
      × (uint e / 2 ^ 10 % 2 ≡ e.dirty)
      × (uint e / 2 ^ 9 % 2 ≡ e.valid)
      × (uint e / 2 ^ 8 % 2 ≡ e.global)
unfolding uint
uint_fields e v = omega arith
