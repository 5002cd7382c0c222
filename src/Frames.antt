-- ===== src/Frames.antt =====
-- kern/vm/frametable.c: the table of physical frames, and the allocator of whole pages on it.
-- A `struct frametable_entry *` is the index of an entry, and NULL is `none`. The table is a
-- function of the index; a read outside its `nframes` entries is a fault (`none`). The lock is
-- not modelled: each operation holds it across everything that it changes.
pub mod FreeList
pub mod Boot
pub mod Alloc
pub mod Release
use os161_virtual_memory_imp.Common.{
  ℕ, zero, suc, ◌+◌, ◌-◌, ◌*◌, ◌/◌, ◌%◌, Bool, true, false, not, Option, none, some, ltb, ◌==◌,
  ◌||◌, if◌then◌else◌, ◌>>=◌, update, ℤ, pos, negsuc, ◌+ℤ◌, leb_ℤ,
}
use os161_virtual_memory_imp.Machine.{
  word, page_size, page_frame, frame_to_paddr, paddr_to_frame, paddr_to_kvaddr, kvaddr_to_paddr,
}
use os161_virtual_memory_imp.Ram.{Ram, ram_stealmem, ram_getsize, ram_getfirstfree}

-- `used` is `used == FRAME_USED`.
pub record FrameEntry : Type 0 where
  pub used : Bool
  pub ref : ℤ
  pub next_free : Option ℕ

pub record FrameTable : Type 0 where
  pub nframes : ℕ
  pub entry : ℕ → FrameEntry
  pub firstfree : Option ℕ

-- Physical memory: the byte at an offset of a frame.
abbrev pub Memory : Type 0
Memory = ℕ → ℕ → ℕ

-- `table` is NULL until frametable_bootstrap has run.
pub record Frames : Type 0 where
  pub ram : Ram
  pub table : Option FrameTable
  pub mem : Memory

abbrev pub zero_page : ℕ → ℕ
zero_page _ = 0

abbrev pub set_entry : FrameTable → ℕ → FrameEntry → FrameTable
set_entry t i e = record t { entry = update t.entry i e }

-- The entry after memset, that of a frame of the operating system, and one on the free list.
abbrev pub cleared : FrameEntry
cleared = record { used = false; ref = pos 0; next_free = none }

abbrev pub os_frame : FrameEntry
os_frame = record { used = true; ref = pos 1; next_free = none }

abbrev pub free_frame : Option ℕ → FrameEntry
free_frame next = record { used = false; ref = pos 0; next_free = next }

-- The two loops of frametable_bootstrap, over the rounds that are left. The first ends at
-- `i + rounds`; the second links each frame to the next one.
unfoldable pub reserve : (rounds i : ℕ) → FrameTable → FrameTable
reserve zero i t = t
reserve (suc n) i t = reserve n (suc i) (set_entry t i os_frame)

unfoldable pub link : (rounds i : ℕ) → FrameTable → FrameTable
link zero i t = t
link (suc n) i t = link n (suc i) (set_entry t i (free_frame (some (suc i))))

-- `(ramtop - freebase) / PAGE_SIZE - 1`, the bound of the second loop, on 32-bit words.
abbrev pub link_bound : (ramtop freebase : ℕ) → ℕ
link_bound ramtop freebase = ((ramtop + word - freebase) % word / page_size + word - 1) % word

-- The second loop runs while `i < freeframes`; the write behind it ends the list.
abbrev pub bump_frames : ℕ → ℕ
bump_frames freebase = freebase / page_size

abbrev pub last_linked : (ramtop freebase : ℕ) → ℕ
last_linked ramtop freebase =
    let i = bump_frames freebase in
    let freeframes = link_bound ramtop freebase in if ltb i freeframes then freeframes else i

abbrev pub build_table : (ramtop freebase : ℕ) → FrameTable
build_table ramtop freebase =
    let i = bump_frames freebase in
    let last = last_linked ramtop freebase in
    let t : FrameTable = record {
      nframes = ramtop / page_size;
      entry = λ _. cleared;
      firstfree = some i;
    } in
    set_entry (link (last - i) i (reserve i 0 t)) last (free_frame none)

-- sizeof(struct frametable_entry)
abbrev pub entry_size : ℕ
entry_size = 12

-- `kmalloc` gives the room for the table; the KASSERT on its result, and a write outside the table,
-- are faults.
unfoldable pub frametable_bootstrap : (ℕ → Frames → Option (ℕ × Frames)) → Frames → Option Frames
frametable_bootstrap kmalloc fr = do
  let ramtop = ram_getsize fr.ram
  (ft, fr') ← kmalloc (ramtop / page_size * entry_size) fr
  let first = ram_getfirstfree fr'.ram
  if ft == 0 || not (ltb (last_linked ramtop first.0) (ramtop / page_size))
      then none
      else some (record fr' { ram = first.1; table = some (build_table ramtop first.0) })

-- alloc_kpages on the table: a physical address, 0 on failure.
take_frame : ℕ → FrameTable → ℕ → Option (ℕ × FrameTable)
take_frame npages t i =
    if not (ltb i t.nframes)
    then none
    else if (t.entry i).used
    then some (0, t)
    else if not (npages == 1)
    then some (0, t)
    else some (
      frame_to_paddr i,
      record t {
        entry = update t.entry i (record (t.entry i) { used = true; ref = pos 1 });
        firstfree = (t.entry i).next_free;
      },
    )

unfoldable pub alloc_frame : ℕ → FrameTable → Option (ℕ × FrameTable)
unfolding take_frame
alloc_frame npages t = elim t.firstfree [ none ↦ some (0, t) | some i ↦ take_frame npages t i ]

-- The locked part of alloc_kpages.
unfoldable pub alloc_paddr : ℕ → Frames → Option (ℕ × Frames)
alloc_paddr npages fr = elim fr.table [
  | none ↦ (let (paddr, ram) = ram_stealmem npages fr.ram in some (paddr, record fr { ram = ram }))
  | some t ↦ (do (paddr, t') ← alloc_frame npages t; some (paddr, record fr { table = some t' }))
]

-- Its end: the checks on the address, the bzero of the first page, and the kernel address.
unfoldable pub finish_alloc : ℕ → Frames → ℕ × Frames
finish_alloc paddr fr =
    if paddr == 0
    then (0, fr)
    else if not (page_frame paddr == paddr)
    then (0, fr)
    else (paddr_to_kvaddr paddr, record fr { mem = update fr.mem (paddr_to_frame paddr) zero_page })

unfoldable pub alloc_kpages : ℕ → Frames → Option (ℕ × Frames)
alloc_kpages npages fr = do (paddr, fr') ← alloc_paddr npages fr; some (finish_alloc paddr fr')

-- free_kpages on the table, for the frame of index `i`.
unfoldable pub drop_ref : ℕ → FrameTable → Option FrameTable
drop_ref i t =
    if not (ltb i t.nframes)
    then none
    else if not (t.entry i).used
    then some t
    else (let ref = (t.entry i).ref +ℤ negsuc 0 in
        if leb_ℤ ref (pos 0)
        then some (record t {
          entry = update t.entry i (record { used = false; ref = ref; next_free = t.firstfree });
          firstfree = some i;
        })
        else some (set_entry t i (record (t.entry i) { ref = ref })))

unfoldable pub free_kpages : ℕ → Frames → Option Frames
free_kpages addr fr = elim fr.table [
  | none ↦ some fr
  | some t ↦
      (let paddr = kvaddr_to_paddr addr in
        if paddr == 0
        then some fr
        else (do t' ← drop_ref (paddr_to_frame paddr) t; some (record fr { table = some t' })))
]

-- A call before the bootstrap dereferences NULL.
unfoldable pub frame_ref_cnt : ℕ → Frames → Option ℤ
frame_ref_cnt i fr = elim fr.table [
  | none ↦ none
  | some t ↦ if ltb i t.nframes then some (t.entry i).ref else none
]

unfoldable pub frame_ref_mod : ℕ → ℤ → Frames → Option Frames
frame_ref_mod i modifier fr = elim fr.table [
  | none ↦ none
  | some t ↦
      (let e = t.entry i in
        if ltb i t.nframes
        then some
            (record fr { table = some (set_entry t i (record e { ref = e.ref +ℤ modifier })) })
        else none)
]
