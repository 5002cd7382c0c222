-- ===== src/Kheap/Subpage.antt =====
-- kern/vm/kmalloc.c from remove_lists on: the allocator of blocks below a page, kmalloc and kfree.
use os161_virtual_memory_imp.Common.{
  ℕ, zero, suc, ◌+◌, ◌-◌, ◌*◌, ◌/◌, ◌%◌, Bool, false, not, ◌&&◌, Option, some, none, List, [], ◌∷◌,
  ltb, leb, ◌==◌, if◌then◌else◌, ◌>>=◌, update,
}
use os161_virtual_memory_imp.Machine.{page_size, word}
use os161_virtual_memory_imp.Kmalloc.{World}
use os161_virtual_memory_imp.Kheap.{
  KHeap, own_page, whole_page, blocks_of, nsizes, sizes, pr_pageaddr, pr_blocktype, mkpab, frame_at,
  mark, take_pages, give_page,
}
use os161_virtual_memory_imp.Kheap.Pageref.{allocpageref, freepageref}

-- A loop of remove_lists: the first occurrence leaves the list.
unfoldable pub remove_first : ℕ → List ℕ → List ℕ
remove_first s [] = []
remove_first s (x ∷ xs) = if x == s then xs else x ∷ remove_first s xs

unfoldable pub remove_lists : (s blktype : ℕ) → KHeap → Option KHeap
remove_lists s blktype h =
    if not (ltb blktype nsizes)
    then none
    else some (record h {
      sizebases = update h.sizebases blktype (remove_first s (h.sizebases blktype));
      allbase = remove_first s h.allbase;
    })

unfoldable pub blocktype_from : (rounds i clientsz : ℕ) → Option ℕ
blocktype_from zero i clientsz = none
blocktype_from (suc n) i clientsz =
    let rest = blocktype_from n (suc i) clientsz in if leb clientsz (sizes i) then some i else rest

abbrev pub blocktype : ℕ → Option ℕ
blocktype clientsz = blocktype_from nsizes 0 clientsz

-- subpage_kmalloc at `doalloc`: the block at the head of the free list.
unfoldable pub first_block : List ℕ → ℕ → Bool
first_block [] nfree = nfree == 0
first_block (next ∷ _) nfree = ltb 0 nfree && ltb next page_size

abbrev pub link_of : (prpage : ℕ) → List ℕ → ℕ
link_of prpage [] = 0
link_of prpage (next ∷ _) = prpage + next

abbrev pub pop_block : (s o : ℕ) → List ℕ → KHeap → KHeap
pop_block s o rest h =
    let pr = h.pagerefs s in
    record h {
      pagerefs = update h.pagerefs s (record pr { free = rest; nfree = pr.nfree - 1 });
      link = update h.link (pr_pageaddr pr + o) (link_of (pr_pageaddr pr) rest);
    }

unfoldable pub do_alloc : ℕ → KHeap → Option (ℕ × KHeap)
do_alloc s h = elim (h.pagerefs s).free [
  | [] ↦ none
  | o ∷ rest ↦
      if ltb o page_size && first_block rest ((h.pagerefs s).nfree - 1)
      then some (pr_pageaddr (h.pagerefs s) + o, pop_block s o rest h)
      else none
]

-- The loop over the pages of a size: the first one with a free block.
unfoldable pub find_free : List ℕ → ℕ → KHeap → Option (Option ℕ)
find_free [] blktype h = some none
find_free (s ∷ ss) blktype h =
    let rest = find_free ss blktype h in
    if not (pr_blocktype (h.pagerefs s) == blktype)
    then none
    else if ltb 0 (h.pagerefs s).nfree
    then some (some s)
    else rest

-- The loop that links the blocks of a fresh page: the last one becomes the head.
unfoldable pub fresh_offsets : (n size : ℕ) → List ℕ
fresh_offsets zero size = []
fresh_offsets (suc n) size = n * size ∷ fresh_offsets n size

abbrev pub blocks_per_page : ℕ → ℕ
blocks_per_page blktype = page_size / sizes blktype

abbrev pub set_up : (s blktype prpage : ℕ) → KHeap → KHeap
set_up s blktype prpage h = record h {
  pagerefs = update h.pagerefs s (record {
    pageaddr_and_blocktype = mkpab prpage blktype;
    free = fresh_offsets (blocks_per_page blktype) (sizes blktype);
    nfree = blocks_per_page blktype;
  });
  sizebases = update h.sizebases blktype (s ∷ h.sizebases blktype);
  allbase = s ∷ h.allbase;
  owner = update h.owner (frame_at prpage) (blocks_of s);
}

abbrev pub alloc_in : ℕ → World KHeap → Option (ℕ × World KHeap)
alloc_in s w = do (p, h) ← do_alloc s w.heap; some (p, record w { heap = h })

-- subpage_kmalloc behind the loop.
unfoldable pub fresh_page : ℕ → World KHeap → Option (ℕ × World KHeap)
fresh_page blktype w = do
  (prpage, w1) ← take_pages 1 w
  if prpage == 0 then some (0, w1) else if not (prpage % page_size == 0) then none else (do
    (pr, w2) ← allocpageref w1
    elim pr [
      | none ↦ (do w3 ← give_page prpage w2; some (0, w3))
      | some s ↦ alloc_in s (record w2 { heap = set_up s blktype prpage w2.heap })
    ])

unfoldable pub subpage_kmalloc : ℕ → World KHeap → Option (ℕ × World KHeap)
subpage_kmalloc sz w = do
  blktype ← blocktype sz
  found ← find_free (w.heap.sizebases blktype) blktype w.heap
  elim found [ none ↦ fresh_page blktype w | some s ↦ alloc_in s w ]

-- The loop of subpage_kfree: the pageref of the page that `p` lies on.
unfoldable pub find_pageref : ℕ → List ℕ → KHeap → Option (Option ℕ)
find_pageref p [] h = some none
find_pageref p (s ∷ ss) h =
    let rest = find_pageref p ss h in
    let pr = h.pagerefs s in
    if not (ltb (pr_blocktype pr) nsizes)
    then none
    else if leb (pr_pageaddr pr) p && ltb p (pr_pageaddr pr + page_size)
    then some (some s)
    else rest

abbrev pub is_head : ℕ → List ℕ → Bool
is_head o [] = false
is_head o (x ∷ _) = x == o

abbrev pub push_block : (s o : ℕ) → KHeap → KHeap
push_block s o h =
    let pr = h.pagerefs s in
    record h {
      pagerefs = update h.pagerefs s (record pr { free = o ∷ pr.free; nfree = pr.nfree + 1 });
    }

-- The end of subpage_kfree, for a page that is free as a whole.
unfoldable pub release_page : ℕ → World KHeap → Option (World KHeap)
release_page s w = do
  let pr = w.heap.pagerefs s
  h ← remove_lists s (pr_blocktype pr) w.heap
  h' ← freepageref s h
  let page = pr_pageaddr pr
  give_page page (record w { heap = mark (frame_at page) own_page h' })

unfoldable pub put_block : (s p : ℕ) → World KHeap → Option (World KHeap)
put_block s p w =
    let pr = w.heap.pagerefs s in
    let size = sizes (pr_blocktype pr) in
    let offset : ℕ = p - pr_pageaddr pr in
    let w' : World KHeap = record w { heap = push_block s offset w.heap } in
    if not (ltb offset page_size && (offset % size == 0))
    then none
    else if is_head offset pr.free
    then none
    else if not (leb (pr.nfree + 1) (page_size / size))
    then none
    else if pr.nfree + 1 == page_size / size
    then release_page s w'
    else some w'

-- `some none` is the answer -1.
unfoldable pub subpage_kfree : ℕ → World KHeap → Option (Option (World KHeap))
subpage_kfree p w = do
  found ← find_pageref p w.heap.allbase w.heap
  elim found [ none ↦ some none | some s ↦ (do w' ← put_block s p w; some (some w')) ]

unfoldable pub kmalloc_pages : ℕ → World KHeap → Option (ℕ × World KHeap)
kmalloc_pages sz w = do
  (address, w') ← take_pages ((sz + page_size - 1) % word / page_size) w
  if address == 0
      then some (0, w')
      else if not (address % page_size == 0)
      then none
      else some (address, record w' { heap = mark (frame_at address) whole_page w'.heap })

unfoldable pub kmalloc : ℕ → World KHeap → Option (ℕ × World KHeap)
kmalloc sz w = if leb 2048 sz then kmalloc_pages sz w else subpage_kmalloc sz w

unfoldable pub kfree_page : ℕ → World KHeap → Option (World KHeap)
kfree_page p w =
    if p % page_size == 0
    then give_page p (record w { heap = mark (frame_at p) own_page w.heap })
    else none

unfoldable pub kfree : ℕ → World KHeap → Option (World KHeap)
kfree p w =
    if p == 0
    then some w
    else (do r ← subpage_kfree p w; elim r [ some w' ↦ some w' | none ↦ kfree_page p w ])
