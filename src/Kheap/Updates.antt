-- ===== src/Kheap/Updates.antt =====
-- The changes of the heap's variables in kern/vm/kmalloc.c, each of which keeps the heap sound.
use os161_virtual_memory_imp.Common.{
  ℕ, zero, suc, ◌+◌, ◌*◌, ◌/◌, ◌≤◌, ◌<◌, ◌≡◌, ◌≢◌, refl, sym, ap, subst, ◌∙◌, ◌⊎◌, inl, inr, Bool,
  true, false, some, ◌==◌, arith, Bool-cases, if◌then◌else◌, update, eqb→eq, eqb→ne,
}
use os161_virtual_memory_imp.Kheap.{KHeap}
use os161_virtual_memory_imp.Kheap.Pageref.{set_inuse, find_clear}
use os161_virtual_memory_imp.Kheap.Offsets.{length}
use os161_virtual_memory_imp.Kheap.FreeList.{IsFreeList}
use os161_virtual_memory_imp.Kheap.Sound.{IsHeap, IsPageRef, count}

abbrev pub bit : Bool → ℕ
bit b = if b then 1 else 0

pub count_outside :
    (n lo s : ℕ) (f : ℕ → Bool) (b : Bool)
    → (s < lo) ⊎ (lo + n ≤ s)
    → count n lo (update f s b) ≡ count n lo f
unfolding count
count_outside zero lo s f b h = refl
count_outside (suc n) lo s f b h = ground (arith, count_outside n (suc lo) s f b)

pub count_inside :
    (n lo s : ℕ) (f : ℕ → Bool) (b : Bool)
    → lo ≤ s
    → s < lo + n
    → count n lo (update f s b) + bit (f s) ≡ count n lo f + bit b
unfolding count
count_inside zero lo s f b l h = absurd (omega arith)
count_inside (suc n) lo s f b l h = elim (Bool-cases (s == lo)) [
  | inl e ↦
      let e' : s ≡ lo = eqb→eq s lo e in
      let rest = count_outside n (suc lo) s f b (inl (omega arith)) in
      rw (e, rest)
        (subst
          (λ x.
            (bit b + count n (suc lo) f) + bit (f x) ≡ (bit (f lo) + count n (suc lo) f) + bit b)
          (sym e') (omega arith))
  | inr e ↦
      let rest = count_inside n (suc lo) s f b (omega (arith, eqb→ne s lo e)) (omega arith) in
      rw (e) (omega (arith, rest))
]

pub find_clear_lem :
    (n lo s : ℕ) (f : ℕ → Bool)
    → find_clear n lo f ≡ some s
    → (f s ≡ false) × (lo ≤ s) × (s < lo + n)
unfolding find_clear
find_clear_lem zero lo s f h = absurd cc
find_clear_lem (suc n) lo s f h = ground (arith, find_clear_lem n (suc lo) s f)

pub IsPageRef-ext :
    (h h' : KHeap) (s i k : ℕ)
    → IsPageRef h s i k
    → h'.pagerefs s ≡ h.pagerefs s
    → h'.owner i ≡ h.owner i
    → h'.pagerefs_inuse s ≡ true
    → h'.root_page (s / 256) ≢ 0
    → IsPageRef h' s i k
IsPageRef-ext h h' s i k d same mine inuse rooted = record {
  page = ap (λ pr. pr.pageaddr_and_blocktype) same ∙ d.page;
  size = d.size;
  mine = mine ∙ d.mine;
  known = d.known;
  inuse = inuse;
  rooted = rooted;
  free_list = subst (λ pr. IsFreeList k pr.free) (sym same) d.free_list;
  counted = subst (λ pr. pr.nfree ≡ length pr.free) (sym same) d.counted;
}

-- A root takes the clear bit `s`.
pub set_inuse-IsHeap :
    (r s : ℕ) (h : KHeap)
    → IsHeap h
    → r < 16
    → h.pagerefs_inuse s ≡ false
    → r * 256 ≤ s
    → s < r * 256 + 256
    → IsHeap (set_inuse r s h)
set_inuse-IsHeap r s h v small clear low high = record {
  in_kseg = v.in_kseg;
  described = λ s' m.
      let (i, k, d) = v.described s' m in
      (
        i,
        k,
        IsPageRef-ext h (set_inuse r s h) s' i k d refl refl
            (elim (Bool-cases (s == s')) [ inl e ↦ rw (e) refl | inr e ↦ rw (e) d.inuse ]) d.rooted,
      );
  listed = v.listed;
  listed_once = v.listed_once;
  by_size = v.by_size;
  sized_once = v.sized_once;
  tallied = λ r' l. elim (Bool-cases (r == r')) [
    | inl e ↦
        let e' : r ≡ r' = eqb→eq r r' e in
        let sum = count_inside 256 (r' * 256) s h.pagerefs_inuse true (omega arith) (omega arith) in
        let sum' : count 256 (r' * 256) (update h.pagerefs_inuse s true) + 0
            ≡ count 256 (r' * 256) h.pagerefs_inuse + 1 =
          subst
            (λ b.
              count 256 (r' * 256) (update h.pagerefs_inuse s true) + bit b
              ≡ count 256 (r' * 256) h.pagerefs_inuse + 1)
            clear sum in
        rw (e) (
          subst (λ x. h.numinuse x + 1 ≡ count 256 (r' * 256) (update h.pagerefs_inuse s true))
            (sym e') (omega (arith, v.tallied r' l, sum')))
    | inr e ↦ rw (e) (
        v.tallied r' l
        ∙ sym
            (count_outside 256 (r' * 256) s h.pagerefs_inuse true (ground (arith, eqb→ne r r' e))))
  ];
}

-- A root gets its page.
abbrev pub set_root : (r va : ℕ) → KHeap → KHeap
set_root r va h = record h { root_page = update h.root_page r va }

pub set_root-IsHeap : (r va : ℕ) (h : KHeap) → IsHeap h → va ≢ 0 → IsHeap (set_root r va h)
set_root-IsHeap r va h v ne = record {
  in_kseg = v.in_kseg;
  described = λ s m.
      let (i, k, d) = v.described s m in
      (
        i,
        k,
        IsPageRef-ext h (set_root r va h) s i k d refl refl d.inuse
            (elim (Bool-cases (r == s / 256)) [ inl e ↦ rw (e) ne | inr e ↦ rw (e) d.rooted ]),
      );
  listed = v.listed;
  listed_once = v.listed_once;
  by_size = v.by_size;
  sized_once = v.sized_once;
  tallied = v.tallied;
}
