-- ===== src/Kheap.antt =====
-- kern/vm/kmalloc.c: the kernel heap, built without its debugging modes. Blocks below 2048 bytes
-- come from pages cut into blocks of one size, which `struct pageref`s describe; larger requests
-- go to alloc_kpages. The lists that the code threads through the pagerefs and through the free
-- blocks of a page are lists, their heads first. A pageref is known by its number, 256 to each of
-- the 16 roots. The lock is not modelled, and other calls of the heap that come in while
-- alloc_kpages runs are not either. A failed KASSERT or a panic is `none`.
pub mod Pageref
pub mod Subpage
pub mod Offsets
pub mod Sound
pub mod Pages
pub mod Updates
pub mod Placed
pub mod Blocks
pub mod Live
pub mod Shifts
pub mod FreeList
pub mod Silent
pub mod WholePages
pub mod GivenUp
pub mod Claim
pub mod Pop
pub mod Alloc
pub mod Release
pub mod Free
pub mod Apart
pub mod Laws
pub mod Runs
pub mod Implements
use os161_virtual_memory_imp.Common.{
  ℕ, ◌-◌, ◌+◌, ◌*◌, ◌/◌, ◌%◌, ◌≡◌, Bool, true, false, not, ◌&&◌, Option, some, none, List, ltb, leb,
  ◌==◌, if◌then◌else◌, ◌>>=◌, has, update,
}
use os161_virtual_memory_imp.Machine.{page_size, page_frame, page_offset, mips_kseg0}
use os161_virtual_memory_imp.Frames.{alloc_kpages, free_kpages}
use os161_virtual_memory_imp.Kmalloc.{World}

-- `free` holds the offsets of the free blocks of the page: its head is `freelist_offset`, and
-- INVALID_OFFSET is the empty list.
pub record PageRef : Type 0 where
  pub pageaddr_and_blocktype : ℕ
  pub free : List ℕ
  pub nfree : ℕ

-- What a frame is to the heap: nothing, a page for its own use, a page that it has given to a
-- client, or a page of blocks, with the number of its pageref. The code keeps no such record.
pub data Owner : Type 0 where
  free_page : Owner
  own_page : Owner
  whole_page : Owner
  blocks_of : ℕ → Owner

-- The variables of the allocator. `link` is the first word of a block when it is handed out, and
-- `owner` is what the model adds.
pub record KHeap : Type 0 where
  pub root_page : ℕ → ℕ
  pub pagerefs_inuse : ℕ → Bool
  pub numinuse : ℕ → ℕ
  pub pagerefs : ℕ → PageRef
  pub sizebases : ℕ → List ℕ
  pub allbase : List ℕ
  pub link : ℕ → ℕ
  pub owner : ℕ → Owner

abbrev pub npagerefs_per_page : ℕ
npagerefs_per_page = 256

abbrev pub num_pagerefpages : ℕ
num_pagerefpages = 16

abbrev pub nsizes : ℕ
nsizes = 8

-- The table of the block sizes.
unfoldable pub sizes : ℕ → ℕ
sizes k =
    if k == 0
    then 16
    else if k == 1
    then 32
    else if k == 2
    then 64
    else if k == 3
    then 128
    else if k == 4
    then 256
    else if k == 5
    then 512
    else if k == 6
    then 1024
    else 2048

abbrev pub pr_pageaddr : PageRef → ℕ
pr_pageaddr pr = page_frame pr.pageaddr_and_blocktype

abbrev pub pr_blocktype : PageRef → ℕ
pr_blocktype pr = page_offset pr.pageaddr_and_blocktype

-- The two parts have no bit in common.
abbrev pub mkpab : (pa blk : ℕ) → ℕ
mkpab pa blk = page_frame pa + page_offset blk

-- The frame behind a kernel address, and the address of a frame.
abbrev pub frame_at : ℕ → ℕ
frame_at va = (va - mips_kseg0) / page_size

abbrev pub kpage : ℕ → ℕ
kpage i = i * page_size + mips_kseg0

abbrev pub mark : ℕ → Owner → KHeap → KHeap
mark i o h = record h { owner = update h.owner i o }

-- alloc_kpages and free_kpages as the heap calls them. The page becomes the heap's own.
unfoldable pub take_pages : ℕ → World KHeap → Option (ℕ × World KHeap)
take_pages npages w = do
  (va, fr) ← alloc_kpages npages w.frames
  let w' : World KHeap = record w { frames = fr }
  some (va, if va == 0 then w' else record w' { heap = mark (frame_at va) own_page w.heap })

unfoldable pub give_page : ℕ → World KHeap → Option (World KHeap)
give_page va w = do
  fr ← free_kpages va w.frames
  some (record { heap = mark (frame_at va) free_page w.heap; frames = fr })

abbrev pub is_owned : Owner → Bool
is_owned free_page = false
is_owned own_page = true
is_owned whole_page = true
is_owned (blocks_of s) = true

abbrev pub owned : KHeap → ℕ → Bool
owned h i = is_owned (h.owner i)

-- The blocks that clients hold: the pages given out whole, and the blocks of a page that are not on
-- its free list.
abbrev pub live_in : KHeap → ℕ → Owner → Bool
live_in h p free_page = false
live_in h p own_page = false
live_in h p whole_page = page_offset p == 0
live_in h p (blocks_of s) =
    (page_offset p % sizes (pr_blocktype (h.pagerefs s)) == 0)
    && not (has (page_offset p) (h.pagerefs s).free)

unfoldable pub live : KHeap → ℕ → Bool
live h p = leb mips_kseg0 p && live_in h p (h.owner (frame_at p))

-- The bytes of the block at an address.
abbrev pub size_in : KHeap → Owner → ℕ
size_in h free_page = 0
size_in h own_page = 0
size_in h whole_page = page_size
size_in h (blocks_of s) = sizes (pr_blocktype (h.pagerefs s))

unfoldable pub size_of : KHeap → ℕ → ℕ
size_of h p = size_in h (h.owner (frame_at p))
