-- ===== src/Kheap/Pageref.antt =====
-- kern/vm/kmalloc.c, allocpagerefpage, allocpageref and freepageref: the allocator of pagerefs.
use os161_virtual_memory_imp.Common.{
  ℕ, zero, suc, ◌+◌, ◌-◌, ◌*◌, ◌%◌, Bool, true, false, not, Option, some, none, ltb, leb, ◌==◌,
  if◌then◌else◌, ◌>>=◌, ◌&&◌, ◌||◌, update,
}
use os161_virtual_memory_imp.Machine.{page_size}
use os161_virtual_memory_imp.Kmalloc.{World}
use os161_virtual_memory_imp.Kheap.{KHeap, npagerefs_per_page, num_pagerefpages, take_pages}

-- No other call has set `root->page` in the meantime. On failure the root stays without a page.
unfoldable pub allocpagerefpage : ℕ → World KHeap → Option (World KHeap)
allocpagerefpage r w = if not (w.heap.root_page r == 0) then none else (do
  (va, w') ← take_pages 1 w
  if va == 0
      then some w'
      else if not (va % page_size == 0)
      then none
      else some (record w' { heap = record w'.heap { root_page = update w'.heap.root_page r va } }))

-- The two inner loops over the bits of a root: the first clear bit of the `rounds` from `s` on. A
-- word that is full has none.
unfoldable pub find_clear : (rounds s : ℕ) → (ℕ → Bool) → Option ℕ
find_clear zero s inuse = none
find_clear (suc n) s inuse = if inuse s then find_clear n (suc s) inuse else some s

abbrev pub set_inuse : (r s : ℕ) → KHeap → KHeap
set_inuse r s h = record h {
  pagerefs_inuse = update h.pagerefs_inuse s true;
  numinuse = update h.numinuse r (h.numinuse r + 1);
}

-- The body of the search for the clear bit `s` of root `r`.
unfoldable pub claim_pageref : (r s : ℕ) → World KHeap → Option (Option ℕ × World KHeap)
claim_pageref r s w = do
  let w' : World KHeap = record w { heap = set_inuse r s w.heap }
  w'' ← (if w'.heap.root_page r == 0 then allocpagerefpage r w' else some w')
  some (if w''.heap.root_page r == 0 then none else some s, w'')

unfoldable pub allocpageref_from : (rounds r : ℕ) → World KHeap → Option (Option ℕ × World KHeap)
allocpageref_from zero r w = some (none, w)
allocpageref_from (suc n) r w =
    let rest = allocpageref_from n (suc r) w in
    if leb npagerefs_per_page (w.heap.numinuse r)
    then rest
    else elim (find_clear npagerefs_per_page (r * npagerefs_per_page) w.heap.pagerefs_inuse) [
      | none ↦ rest
      | some s ↦ claim_pageref r s w
    ]

abbrev pub allocpageref : World KHeap → Option (Option ℕ × World KHeap)
allocpageref w = allocpageref_from num_pagerefpages 0 w

abbrev pub clear_inuse : (r s : ℕ) → KHeap → KHeap
clear_inuse r s h = record h {
  pagerefs_inuse = update h.pagerefs_inuse s false;
  numinuse = update h.numinuse r (h.numinuse r - 1);
}

-- Pageref `s` lies on the page of root `r` when its distance from the first one there is below 256,
-- as an unsigned number.
abbrev pub on_page : (r s : ℕ) → Bool
on_page r s =
    not (ltb s (r * npagerefs_per_page)) && ltb (s - r * npagerefs_per_page) npagerefs_per_page

unfoldable pub freepageref_from : (rounds r s : ℕ) → KHeap → Option KHeap
freepageref_from zero r s h = none
freepageref_from (suc n) r s h =
    let rest = freepageref_from n (suc r) s h in
    if h.root_page r == 0
    then (if h.numinuse r == 0 then rest else none)
    else if on_page r s
    then (if not (h.pagerefs_inuse s) || h.numinuse r == 0 then none else some (clear_inuse r s h))
    else rest

abbrev pub freepageref : ℕ → KHeap → Option KHeap
freepageref s h = freepageref_from num_pagerefpages 0 s h
