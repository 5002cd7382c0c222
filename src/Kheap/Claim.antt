-- ===== src/Kheap/Claim.antt =====
-- kern/vm/kmalloc.c: allocpageref on a sound heap.
use os161_virtual_memory_imp.Kheap.Silent.{Silent, Silent-trans, own_page-Silent, same_owner-Silent}
use os161_virtual_memory_imp.Common.{
  ℕ, zero, suc, ◌+◌, ◌*◌, ◌/◌, ◌%◌, ◌≤◌, ◌<◌, ◌≡◌, ◌≢◌, refl, sym, ap, subst, ◌∙◌, ◌⊎◌, inl, inr,
  true, false, Option, some, none, List, ◌==◌, leb, arith, has, Bool-cases, eqb→eq, eqb→ne, ne→eqb,
  eq→eqb, Option-cases,
}
use os161_virtual_memory_imp.Frames.{FrameTable}
use os161_virtual_memory_imp.Kmalloc.{World, IsBooted}
use os161_virtual_memory_imp.Kheap.{KHeap, owned, kpage, live}
use os161_virtual_memory_imp.Kheap.Pageref.{
  allocpagerefpage, claim_pageref, allocpageref_from, set_inuse, find_clear,
}
use os161_virtual_memory_imp.Kheap.Sound.{IsHeap, update_same, update_other}
use os161_virtual_memory_imp.Kheap.Pages.{take_page}
use os161_virtual_memory_imp.Kheap.Updates.{
  set_root, set_root-IsHeap, set_inuse-IsHeap, find_clear_lem,
}

-- Every root that has pagerefs in use has a page.
abbrev pub Accounted : KHeap → Type 0
Accounted h = (r : ℕ) → r < 16 → (h.root_page r ≢ 0) ⊎ (h.numinuse r ≡ 0)

-- allocpagerefpage gives the root a page, or leaves it without one.
pub record PagerefPage (r : ℕ) (w w' : World KHeap) (t : FrameTable) : Type 0 where
  pub silent : Silent w w' t
  pub same_inuse : w'.heap.pagerefs_inuse ≡ w.heap.pagerefs_inuse
  pub same_count : w'.heap.numinuse ≡ w.heap.numinuse
  pub same_root : (r' : ℕ) → r ≢ r' → w'.heap.root_page r' ≡ w.heap.root_page r'

allocpagerefpage_lem :
    (r : ℕ) (w : World KHeap) (t : FrameTable) (free : List ℕ)
    → IsHeap w.heap
    → IsBooted (owned w.heap) w.frames t free
    → w.heap.root_page r ≡ 0
    → (w' : World KHeap) × (allocpagerefpage r w ≡ some w') × PagerefPage r w w' t
unfolding allocpagerefpage
allocpagerefpage_lem r w t free v b none_yet = elim (take_page w t v free b) [
  | inl (w', run, step, same) ↦ (
    w',
    rw (eq→eqb (w.heap.root_page r) 0 none_yet, run) refl,
    record {
      silent = record {
        step = step;
        quiet = λ q. ap (λ h. live h q) same;
        own = λ i e. rw (same) e;
        same_list = ap (λ h. h.allbase) same;
      };
      same_inuse = ap (λ h. h.pagerefs_inuse) same;
      same_count = ap (λ h. h.numinuse) same;
      same_root = λ r' ne. ap (λ h. h.root_page r') same;
    },
  )
  | inr (i, w', run, step, same, above, small, unused) ↦
      let va : ℕ = kpage i in
      let taken = own_page-Silent w w' t i step same unused in
      let (t1, free1, v1, b1, s1) = taken.step in
      (
        record w' { heap = set_root r va w'.heap },
        rw (eq→eqb (w.heap.root_page r) 0 none_yet, run)
            (rw (ne→eqb va 0 (omega arith)) (rw (eq→eqb (va % 4096) 0 (omega arith)) refl)),
        record {
          silent =
              Silent-trans w w' (record w' { heap = set_root r va w'.heap }) t taken
                (same_owner-Silent w' (set_root r va w'.heap) t1 free1
                  (set_root-IsHeap r va w'.heap v1 (omega arith)) refl refl refl b1);
          same_inuse = ap (λ h. h.pagerefs_inuse) same;
          same_count = ap (λ h. h.numinuse) same;
          same_root =
              λ r' ne. update_other w'.heap.root_page r r' va ne ∙ ap (λ h. h.root_page r') same;
        },
      )
]

-- The pageref `s` may describe a new page.
pub record IsReady (h : KHeap) (s : ℕ) : Type 0 where
  pub unlisted : has s h.allbase ≡ false
  pub known : s < 4096
  pub inuse : h.pagerefs_inuse s ≡ true
  pub rooted : h.root_page (s / 256) ≢ 0

-- allocpageref finds none, or one that may describe a new page.
abbrev pub NoPageref : World KHeap → FrameTable → Option (Option ℕ × World KHeap) → Type 0
NoPageref w t run = (w' : World KHeap) × (run ≡ some (none, w')) × Silent w w' t

abbrev pub APageref : World KHeap → FrameTable → Option (Option ℕ × World KHeap) → Type 0
APageref w t run =
    (s : ℕ) × (w' : World KHeap) × (run ≡ some (some s, w'))
    × Silent w w' t
    × IsReady w'.heap s
    × (Accounted w.heap → Accounted w'.heap)

unlisted_lem : (h : KHeap) (s : ℕ) → IsHeap h → h.pagerefs_inuse s ≡ false → has s h.allbase ≡ false
unlisted_lem h s v clear = elim (Bool-cases (has s h.allbase)) [
  | inl e ↦ absurd (cc ((v.described s e).2.inuse, clear))
  | inr e ↦ e
]

module _ (r s : ℕ) (w : World KHeap) (t : FrameTable) (free : List ℕ) (v : IsHeap w.heap)
    (b : IsBooted (owned w.heap) w.frames t free) (root : r < 16)
    (clear : w.heap.pagerefs_inuse s ≡ false) (low : r * 256 ≤ s) (high : s < r * 256 + 256) where
  abbrev marked : World KHeap
  marked = record w { heap = set_inuse r s w.heap }

  marked-Silent : Silent w marked t
  marked-Silent =
      same_owner-Silent w marked.heap t free (set_inuse-IsHeap r s w.heap v root clear low high)
        refl refl refl b

  marked-Ready :
      (h : KHeap)
      → h.allbase ≡ w.heap.allbase
      → h.pagerefs_inuse ≡ marked.heap.pagerefs_inuse
      → h.root_page r ≢ 0
      → IsReady h s
  marked-Ready h list bits ne =
      let root_of : s / 256 ≡ r = omega arith in
      record {
        unlisted = ap (has s) list ∙ unlisted_lem w.heap s v clear;
        known = omega arith;
        inuse = ap (λ f. f s) bits ∙ update_same w.heap.pagerefs_inuse s true;
        rooted = rw (root_of) ne;
      }

  marked-Accounted :
      (h : KHeap)
      → h.numinuse ≡ marked.heap.numinuse
      → ((r' : ℕ) → r ≢ r' → h.root_page r' ≡ w.heap.root_page r')
      → h.root_page r ≢ 0
      → Accounted w.heap
      → Accounted h
  marked-Accounted h counts roots ne a r' l = elim (Bool-cases (r == r')) [
    | inl e ↦ inl (subst (λ x. h.root_page x ≢ 0) (eqb→eq r r' e) ne)
    | inr e ↦ elim (a r' l) [
      | inl x ↦ inl (λ z. x (sym (roots r' (eqb→ne r r' e)) ∙ z))
      | inr x ↦ inr (
          ap (λ f. f r') counts
          ∙ update_other w.heap.numinuse r r' (w.heap.numinuse r + 1) (eqb→ne r r' e)
          ∙ x)
    ]
  ]

  pub claim_pageref_lem : NoPageref w t (claim_pageref r s w) ⊎ APageref w t (claim_pageref r s w)
  unfolding claim_pageref
  claim_pageref_lem = elim (Bool-cases (w.heap.root_page r == 0)) [
    | inr e ↦
        let ne = eqb→ne (w.heap.root_page r) 0 e in
        inr (
          s,
          marked,
          rw (e) (rw (e) refl),
          marked-Silent,
          marked-Ready marked.heap refl refl ne,
          marked-Accounted marked.heap refl (λ r' _. refl) ne,
        )
    | inl e ↦
        let (t1, free1, v1, b1, s1) = marked-Silent.step in
        let (w', run, p) =
          allocpagerefpage_lem r marked t1 free1 v1 b1 (eqb→eq (w.heap.root_page r) 0 e) in
        let silent : Silent w w' t = Silent-trans w marked w' t marked-Silent p.silent in
        elim (Bool-cases (w'.heap.root_page r == 0)) [
          | inl f ↦ inl (w', rw (e, run, f) refl, silent)
          | inr f ↦
              let ne = eqb→ne (w'.heap.root_page r) 0 f in
              inr (
                s,
                w',
                rw (e, run, f) refl,
                silent,
                marked-Ready w'.heap silent.same_list p.same_inuse ne,
                marked-Accounted w'.heap p.same_count p.same_root ne,
              )
        ]
  ]

-- allocpageref never panics on a sound heap. It finds no pageref, though it may have marked one, or
-- finds one that no page has.
pub allocpageref_from_lem :
    (n r : ℕ) (w : World KHeap) (t : FrameTable) (free : List ℕ)
    → IsHeap w.heap
    → IsBooted (owned w.heap) w.frames t free
    → r + n ≡ 16
    → NoPageref w t (allocpageref_from n r w) ⊎ APageref w t (allocpageref_from n r w)
unfolding allocpageref_from
allocpageref_from_lem zero r w t free v b e =
    inl (w, refl, same_owner-Silent w w.heap t free v refl refl refl b)
allocpageref_from_lem (suc n) r w t free v b e =
    let next = allocpageref_from_lem n (suc r) w t free v b (omega (arith, e)) in
    elim (Bool-cases (leb 256 (w.heap.numinuse r))) [
      | inl f ↦ rw (f) next
      | inr f ↦ elim (Option-cases (find_clear 256 (r * 256) w.heap.pagerefs_inuse)) [
        | inl g ↦ rw (f, g) next
        | inr (s, g) ↦
            let (clear, low, high) = find_clear_lem 256 (r * 256) s w.heap.pagerefs_inuse g in
            rw (f, g) (claim_pageref_lem r s w t free v b (omega (arith, e)) clear low high)
      ]
    ]
