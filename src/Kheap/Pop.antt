-- ===== src/Kheap/Pop.antt =====
-- kern/vm/kmalloc.c: subpage_kmalloc at `doalloc`, which takes the head of a page's free list.
use os161_virtual_memory_imp.Common.{
  ℕ, ◌+◌, ◌-◌, ◌%◌, ◌<◌, ◌≡◌, ◌≢◌, refl, sym, ap, subst, ◌∙◌, ◌⊎◌, inl, inr, true, false, Option,
  some, none, List, [], ◌∷◌, ◌==◌, ltb, arith, has, Bool-cases, if◌then◌else◌, update, eq→eqb,
  lt→ltb,
}
use os161_virtual_memory_imp.Frames.{FrameTable}
use os161_virtual_memory_imp.Kmalloc.{World, IsBooted}
use os161_virtual_memory_imp.Kheap.{
  KHeap, owned, kpage, sizes, frame_at, live, size_of, pr_blocktype,
}
use os161_virtual_memory_imp.Kheap.Subpage.{
  first_block, link_of, pop_block, do_alloc, alloc_in, find_free,
}
use os161_virtual_memory_imp.Kheap.Offsets.{length}
use os161_virtual_memory_imp.Kheap.FreeList.{IsFreeList, tail-IsFreeList}
use os161_virtual_memory_imp.Kheap.Sound.{
  IsHeap, IsPageRef, update_same, pageaddr_lem, blocktype_lem,
}
use os161_virtual_memory_imp.Kheap.Pages.{Step, Step-trans, same_owner-Step}
use os161_virtual_memory_imp.Kheap.Updates.{IsPageRef-ext}
use os161_virtual_memory_imp.Kheap.Blocks.{refilled, refilled-IsHeap, refilled-IsPageRef}
use os161_virtual_memory_imp.Kheap.Live.{Quiet, roots-Quiet}
use os161_virtual_memory_imp.Kheap.Shifts.{pop_live}
use os161_virtual_memory_imp.Kheap.Claim.{Accounted}

-- The allocation fails and no block changes, or it gives a block that was not in use, of `size`
-- bytes at least, and then just that one more is in use.
abbrev pub Failed : World KHeap → FrameTable → Option (ℕ × World KHeap) → Type 0
Failed w t run = (w' : World KHeap) × (run ≡ some (0, w')) × Step w w' t × Quiet w.heap w'.heap

pub record IsGiven (w w' : World KHeap) (t : FrameTable) (p size : ℕ) : Type 0 where
  pub not_null : p ≢ 0
  pub step : Step w w' t
  pub new : live w.heap p ≡ false
  pub others : (q : ℕ) → live w'.heap q ≡ (if q == p then true else live w.heap q)
  pub room : size_of w'.heap p ≡ size
  pub accounted : Accounted w.heap → Accounted w'.heap

abbrev pub Given : World KHeap → FrameTable → (size : ℕ) → Option (ℕ × World KHeap) → Type 0
Given w t size run =
    (p : ℕ) × (w' : World KHeap) × (run ≡ some (p, w'))
    × IsGiven w w' t p size
    × (size ≡ 16 → w'.heap.link p % 16 ≡ 0)

-- A step before that leaves the blocks alone.
pub Given-after :
    (w w1 : World KHeap) (t : FrameTable) (size : ℕ) (run : Option (ℕ × World KHeap))
    (a : Step w w1 t)
    → Quiet w.heap w1.heap
    → (Accounted w.heap → Accounted w1.heap)
    → Given w1 a.0 size run
    → Given w t size run
Given-after w w1 t size run a quiet acc (p, w', e, g, l) = (
  p,
  w',
  e,
  record {
    not_null = g.not_null;
    step = Step-trans w w1 w' t a g.step;
    new = sym (quiet p) ∙ g.new;
    others = λ q. g.others q ∙ ap (λ b. if q == p then true else b) (quiet q);
    room = g.room;
    accounted = λ x. g.accounted (acc x);
  },
  l,
)

-- The contents of blocks are nobody's business.
relinked-IsHeap : (h : KHeap) (link : ℕ → ℕ) → IsHeap h → IsHeap (record h { link = link })
relinked-IsHeap h link v = record {
  in_kseg = v.in_kseg;
  described = λ s m.
      let (i, k, d) = v.described s m in
      (i, k, IsPageRef-ext h (record h { link = link }) s i k d refl refl d.inuse d.rooted);
  listed = v.listed;
  listed_once = v.listed_once;
  by_size = v.by_size;
  sized_once = v.sized_once;
  tallied = v.tallied;
}

list_cases : (xs : List ℕ) → (xs ≡ []) ⊎ ((o : ℕ) × (rest : List ℕ) × (xs ≡ o ∷ rest))
list_cases [] = inl refl
list_cases (o ∷ rest) = inr (o, rest, refl)

module _ (s i k : ℕ) (w : World KHeap) (v : IsHeap w.heap) (d : IsPageRef w.heap s i k) where
  -- The KASSERTs on the head and on the block behind it hold.
  first_block_lem :
      (o : ℕ) (rest : List ℕ) → IsFreeList k (o ∷ rest) → first_block rest (length rest) ≡ true
  unfolding first_block
  first_block_lem o [] f = refl
  first_block_lem o (next ∷ rest) f =
      rw (lt→ltb next 4096 (f.offset next (ground arith)).1) (ground arith)

  link_lem :
      (o : ℕ) (rest : List ℕ)
      → IsFreeList k (o ∷ rest)
      → sizes k ≡ 16
      → link_of (kpage i) rest % 16 ≡ 0
  link_lem o [] f e = refl
  link_lem o (next ∷ rest) f e =
      let aligned = subst (λ x. next % x ≡ 0) e (f.offset next (ground arith)).0 in
      omega (arith, aligned)

  pop_block_lem :
      (o : ℕ) (rest : List ℕ)
      → (w.heap.pagerefs s).free ≡ o ∷ rest
      → pop_block s o rest w.heap ≡ record (refilled s rest (length rest) w.heap) {
        link = update w.heap.link (kpage i + o) (link_of (kpage i) rest);
      }
  pop_block_lem o rest e =
      let n : (w.heap.pagerefs s).nfree - 1 ≡ length rest = omega (arith, d.counted, ap length e) in
      rw (n, pageaddr_lem w.heap s i k d) refl

  do_alloc_lem :
      (o : ℕ) (rest : List ℕ)
      → (w.heap.pagerefs s).free ≡ o ∷ rest
      → do_alloc s w.heap ≡ some (kpage i + o, pop_block s o rest w.heap)
  unfolding do_alloc
  do_alloc_lem o rest e =
      let whole : IsFreeList k (o ∷ rest) = subst (λ xs. IsFreeList k xs) e d.free_list in
      let n : (w.heap.pagerefs s).nfree - 1 ≡ length rest = omega (arith, d.counted, ap length e) in
      rw
        (
          e,
          do_alloc,
          n,
          pageaddr_lem w.heap s i k d,
          first_block_lem o rest whole,
          lt→ltb o 4096 (whole.offset o (ground arith)).1,
        )
        refl

  -- A page with a free block gives it out.
  pub alloc_in_lem :
      (t : FrameTable) (free : List ℕ)
      → IsBooted (owned w.heap) w.frames t free
      → 0 < (w.heap.pagerefs s).nfree
      → Given w t (sizes k) (alloc_in s w)
  unfolding size_of
  alloc_in_lem t free b some_free = elim (list_cases (w.heap.pagerefs s).free) [
    | inl e ↦ absurd (omega (arith, d.counted, ap length e))
    | inr (o, rest, e) ↦
        let whole : IsFreeList k (o ∷ rest) = subst (λ xs. IsFreeList k xs) e d.free_list in
        let sound = tail-IsFreeList k o rest whole in
        let inside = (whole.offset o (ground arith)).1 in
        let small = (v.in_kseg i (rw (d.mine) refl)).1 in
        let (new, others) = pop_live w.heap s i k d v small o rest e sound in
        let h1 = refilled s rest (length rest) w.heap in
        let link = update w.heap.link (kpage i + o) (link_of (kpage i) rest) in
        let h2 = record h1 { link = link } in
        let at_i : frame_at (kpage i + o) ≡ i = omega arith in
        (
          kpage i + o,
          record w { heap = h2 },
          rw (do_alloc_lem o rest e, pop_block_lem o rest e) refl,
          record {
            not_null = omega arith;
            step =
                same_owner-Step w h2 t free
                  (relinked-IsHeap h1 link (refilled-IsHeap s k i w.heap v d rest sound))
                  (λ j. refl) b;
            new = new;
            others = λ q. roots-Quiet h1 h2 refl refl q ∙ others q;
            room =
                rw (at_i, d.mine)
                  (ap sizes
                    (blocktype_lem h1 s i k (refilled-IsPageRef s k i w.heap v d rest sound)));
            accounted = λ a. a;
          },
          λ sixteen.
              ap (λ x. x % 16) (update_same w.heap.link (kpage i + o) (link_of (kpage i) rest))
              ∙ link_lem o rest whole sixteen,
        )
  ]

-- The pages of a size: the first one with a free block, if there is one.
pub find_free_lem :
    (ss : List ℕ) (k : ℕ) (h : KHeap)
    → ((s : ℕ) → has s ss ≡ true → (has s h.allbase ≡ true) × (pr_blocktype (h.pagerefs s) ≡ k))
    → (find_free ss k h ≡ some none)
      ⊎ ((s : ℕ) × (find_free ss k h ≡ some (some s))
          × (has s h.allbase ≡ true)
          × (pr_blocktype (h.pagerefs s) ≡ k)
          × (0 < (h.pagerefs s).nfree))
unfolding find_free
find_free_lem [] k h f = inl refl
find_free_lem (s ∷ ss) k h f =
    let (listed, type) = f s (ground arith) in
    let type' = eq→eqb (pr_blocktype (h.pagerefs s)) k type in
    elim (Bool-cases (ltb 0 (h.pagerefs s).nfree)) [
      | inl e ↦ inr (s, rw (type', e) refl, listed, type, ground arith)
      | inr e ↦ rw (type', e) (find_free_lem ss k h (λ x m. f x (ground arith)))
    ]
