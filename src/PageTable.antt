-- ===== src/PageTable.antt =====
-- The hashed page table of kern/vm/vm.c: its entries and the operations on them. A chain of
-- `struct pagetable_entry` is a list, head first; a pointer into a chain is the entry that
-- find_page finds there. Each operation runs alone: the locks and interrupts are not modelled.
pub mod Entry
pub mod Counts
pub mod Pages
pub mod Recount
pub mod Create
use Prim.Native.Nat.{bit_xor}
use os161_virtual_memory_imp.Common.{
  ℕ, suc, ◌+◌, ◌*◌, ◌/◌, ◌%◌, ◌^◌, Bool, true, false, not, ◌&&◌, Option, none, some, List, [], ◌∷◌,
  ltb, ◌==◌, if◌then◌else◌, ◌>>=◌, update, ℤ, pos, negsuc, eqb_ℤ,
}
use os161_virtual_memory_imp.Machine.{
  word, page_size, enomem, paddr_to_frame, paddr_to_kvaddr, kvaddr_to_paddr,
}
use os161_virtual_memory_imp.Frames.{Frames, alloc_kpages, frame_ref_cnt, frame_ref_mod}
use os161_virtual_memory_imp.Kmalloc.{World, Kmalloc}

-- struct EntryLo, from the high bits of the word to the low ones.
pub record EntryLo : Type 0 where
  pub framenum : ℕ
  pub nocache : ℕ
  pub dirty : ℕ
  pub valid : ℕ
  pub global : ℕ
  pub unused : ℕ

-- `entrylo.uint`: the compiler lays bit fields out from the high end of the word.
unfoldable pub uint : EntryLo → ℕ
uint e =
    e.framenum * 2 ^ 12
    + e.nocache * 2 ^ 11
    + e.dirty * 2 ^ 10
    + e.valid * 2 ^ 9
    + e.global * 2 ^ 8
    + e.unused

-- Each value is cut to the width of its field.
unfoldable pub set_entrylo : (valid dirty framenum : ℕ) → EntryLo
set_entrylo valid dirty framenum = record {
  framenum = framenum % 2 ^ 20;
  nocache = 0;
  dirty = dirty % 2;
  valid = valid % 2;
  global = 0;
  unused = 0;
}

-- `block` is the address of the structure.
pub record PageEntry : Type 0 where
  pub block : ℕ
  pub pid : ℕ
  pub pagenumber : ℕ
  pub lo : EntryLo

-- sizeof(struct pagetable_entry) and sizeof(struct pagetable_entry *)
abbrev pub entry_size : ℕ
entry_size = 16

abbrev pub pointer_size : ℕ
pointer_size = 4

pub record TlbEntry : Type 0 where
  pub hi : ℕ
  pub lo : ℕ

-- `pagespace` is the size of the table in bytes; `chain` is the table.
pub record Vm (H : Type 0) : Type 0 where
  pub world : World H
  pub pagespace : ℕ
  pub chain : ℕ → List PageEntry
  pub tlb : ℕ → TlbEntry

-- The number of chains.
abbrev pub npages : ℕ → ℕ
npages pagespace = pagespace / pointer_size

-- A division by zero is a fault.
unfoldable pub hpt_hash : (pagespace pid faultaddr : ℕ) → Option ℕ
hpt_hash pagespace pid faultaddr =
    if pagespace / entry_size == 0
    then none
    else some (bit_xor pid (faultaddr / page_size) % (pagespace / entry_size))

-- The test of find_page.
abbrev pub translates : ℕ → PageEntry → Bool
translates pid e = (e.pid == pid) && not (e.lo.valid == 0)

unfoldable pub find_in : ℕ → List PageEntry → Option PageEntry
find_in pid [] = none
find_in pid (e ∷ es) = if translates pid e then some e else find_in pid es

unfoldable pub find_page : {H : Type 0} → (pid index : ℕ) → Vm H → Option PageEntry
find_page pid index vm = find_in pid (vm.chain index)

-- A write through the pointer that find_page has returned.
unfoldable pub replace_in : ℕ → PageEntry → List PageEntry → List PageEntry
replace_in pid e' [] = []
replace_in pid e' (e ∷ es) = if translates pid e then e' ∷ es else e ∷ replace_in pid e' es

unfoldable pub insert_page : {H : Type 0} → (index : ℕ) → Option PageEntry → Vm H → Vm H
insert_page index none vm = vm
insert_page index (some e) vm = record vm { chain = update vm.chain index (e ∷ vm.chain index) }

unfoldable pub copyframe : (from to : ℕ) → Frames → Frames
copyframe from to fr = record fr { mem = update fr.mem to (fr.mem from) }

-- alloc_kpages(1) in the kernel's state.
abbrev pub alloc_page : {H : Type 0} → World H → Option (ℕ × World H)
alloc_page w = do (kvaddr, fr) ← alloc_kpages 1 w.frames; some (kvaddr, record w { frames = fr })

-- The frame behind a kernel address.
abbrev pub frame_of : ℕ → ℕ
frame_of kvaddr = paddr_to_frame (kvaddr_to_paddr kvaddr)

module _ {H : Type 0} (K : Kmalloc H) where
  -- create_page with its structure allocated.
  unfoldable pub back_page :
      (block pid pagenumber dirtybit : ℕ) → World H → Option (Option PageEntry × World H)
  back_page block pid pagenumber dirtybit w = do
    (kvaddr, w') ← alloc_page w
    if kvaddr == 0
        then (do w'' ← K.kfree block w'; some (none, w''))
        else some (
          some (record {
            block = block;
            pid = pid;
            pagenumber = pagenumber;
            lo = set_entrylo 1 dirtybit (frame_of kvaddr);
          }),
          w',
        )

  unfoldable pub create_page :
      (pid pagenumber dirtybit : ℕ) → World H → Option (Option PageEntry × World H)
  create_page pid pagenumber dirtybit w =
      let (block, w') = K.kmalloc entry_size w in
      if block == 0 then some (none, w') else back_page block pid pagenumber dirtybit w'

  -- create_shared_page with its structure allocated.
  unfoldable pub share_page :
      (block pid pagenumber sharedframe valid : ℕ) → World H → Option (Option PageEntry × World H)
  share_page block pid pagenumber sharedframe valid w = do
    fr ← frame_ref_mod sharedframe (pos 1) w.frames
    some (
      some (record {
        block = block;
        pid = pid;
        pagenumber = pagenumber;
        lo = set_entrylo valid 0 sharedframe;
      }),
      record w { frames = fr },
    )

  unfoldable pub create_shared_page :
      (pid pagenumber sharedframe valid : ℕ) → World H → Option (Option PageEntry × World H)
  create_shared_page pid pagenumber sharedframe valid w =
      let (block, w') = K.kmalloc entry_size w in
      if block == 0 then some (none, w') else share_page block pid pagenumber sharedframe valid w'

-- readonwrite once a new frame has been asked for, `kvaddr` being its address or 0.
unfoldable pub unshare :
    {H : Type 0} → PageEntry → (kvaddr : ℕ) → World H → Option (ℕ × PageEntry × World H)
unshare page kvaddr w =
    let from_frame = page.lo.framenum in
    let page' = record page { lo = set_entrylo 1 1 (frame_of kvaddr) } in
    if kvaddr == 0 then some (enomem, page, w) else (do
      fr ← frame_ref_mod from_frame (negsuc 0) w.frames
      some (0, page', record w { frames = copyframe from_frame page'.lo.framenum fr }))

-- An error number, 0 for none; the page as it has been written to; and the state.
unfoldable pub readonwrite : {H : Type 0} → PageEntry → World H → Option (ℕ × PageEntry × World H)
readonwrite page w = do
  refs ← frame_ref_cnt page.lo.framenum w.frames
  let unshared = (do (kvaddr, w') ← alloc_page w; unshare page kvaddr w')
  if eqb_ℤ refs (pos 1)
      then some (0, record page { lo = record (page.lo) { dirty = 1 } }, w)
      else unshared
