-- ===== src/Kheap/Sound.antt =====
-- Soundness of the kernel heap of kern/vm/kmalloc.c, and the changes of its variables that keep it.
use os161_virtual_memory_imp.Common.{
  ℕ, zero, suc, ◌+◌, ◌*◌, ◌/◌, ◌<◌, ◌≡◌, ◌≢◌, refl, ap, subst, ◌∙◌, inl, inr, Bool, true, some,
  ◌==◌, arith, has, Bool-cases, if◌then◌else◌, update, eqb→eq, ne→eqb,
}
use os161_virtual_memory_imp.Kheap.{
  KHeap, Owner, blocks_of, owned, kpage, pr_blocktype, pr_pageaddr, mark,
}
use os161_virtual_memory_imp.Kheap.Offsets.{Distinct, length}
use os161_virtual_memory_imp.Kheap.FreeList.{IsFreeList}

-- How many of the `rounds` bits from `s` on are set.
unfoldable pub count : (rounds s : ℕ) → (ℕ → Bool) → ℕ
count zero s f = 0
count (suc n) s f = (if f s then 1 else 0) + count n (suc s) f

-- The pageref `s` describes the page of frame `i`, which is cut into blocks of type `k`.
pub record IsPageRef (h : KHeap) (s i k : ℕ) : Type 0 where
  pub page : (h.pagerefs s).pageaddr_and_blocktype ≡ kpage i + k
  pub size : k < 8
  pub mine : h.owner i ≡ blocks_of s
  pub known : s < 4096
  pub inuse : h.pagerefs_inuse s ≡ true
  pub rooted : h.root_page (s / 256) ≢ 0
  pub free_list : IsFreeList k (h.pagerefs s).free
  pub counted : (h.pagerefs s).nfree ≡ length (h.pagerefs s).free

-- Each page of blocks has one pageref, which is on the list of all and describes it; a list of a
-- size has pagerefs of that size only; a root counts the bits that are set.
pub record IsHeap (h : KHeap) : Type 0 where
  pub in_kseg : (i : ℕ) → owned h i ≡ true → (0 < i) × (i < 131072)
  pub described : (s : ℕ) → has s h.allbase ≡ true → (i : ℕ) × (k : ℕ) × IsPageRef h s i k
  pub listed :
      (i s : ℕ)
      → h.owner i ≡ blocks_of s
      → (has s h.allbase ≡ true) × (pr_pageaddr (h.pagerefs s) ≡ kpage i)
  pub listed_once : Distinct h.allbase
  pub by_size :
      (k s : ℕ)
      → has s (h.sizebases k) ≡ true
      → (has s h.allbase ≡ true) × (pr_blocktype (h.pagerefs s) ≡ k)
  pub sized_once : (k : ℕ) → Distinct (h.sizebases k)
  pub tallied : (r : ℕ) → r < 16 → h.numinuse r ≡ count 256 (r * 256) h.pagerefs_inuse

module _ (h : KHeap) (s i k : ℕ) (d : IsPageRef h s i k) where
  pub pageaddr_lem : pr_pageaddr (h.pagerefs s) ≡ kpage i
  pageaddr_lem = omega (arith, d.page, d.size)

  pub blocktype_lem : pr_blocktype (h.pagerefs s) ≡ k
  blocktype_lem = omega (arith, d.page, d.size)

-- Two pagerefs on the list describe different frames.
pub blocks_of_inj : (s s' : ℕ) → blocks_of s ≡ blocks_of s' → s ≡ s'
blocks_of_inj s s' e = ap (λ o. elim o [ blocks_of x ↦ x | _ ↦ s ]) e

abbrev pub NotBlocks : Owner → Type 0
NotBlocks o = (s : ℕ) → o ≢ blocks_of s

pub some_inj : (a b : ℕ) → some a ≡ some b → a ≡ b
some_inj a b e = cc e

pub update_same {ℓ} : {A : Type ℓ} (f : ℕ → A) (i : ℕ) (v : A) → update f i v i ≡ v
update_same f i v = ground arith

pub update_other {ℓ} : {A : Type ℓ} (f : ℕ → A) (i j : ℕ) (v : A) → i ≢ j → update f i v j ≡ f j
update_other f i j v ne = rw (ne→eqb i j ne) refl

-- An owner that is not a page of blocks is replaced by another such owner.
pub mark-IsHeap :
    (i : ℕ) (o : Owner) (h : KHeap)
    → IsHeap h
    → NotBlocks (h.owner i)
    → NotBlocks o
    → 0 < i
    → i < 131072
    → IsHeap (mark i o h)
mark-IsHeap i o h v old new low high = record {
  in_kseg = λ j u. elim (Bool-cases (i == j)) [
    | inl e ↦ subst (λ x. (0 < x) × (x < 131072)) (eqb→eq i j e) (low, high)
    | inr e ↦ v.in_kseg j (rw (e) at u)
  ];
  described = λ s m.
      let (j, k, d) = v.described s m in
      (
        j,
        k,
        record {
          page = d.page;
          size = d.size;
          mine = update_other h.owner i j o (λ e. old s (ap h.owner e ∙ d.mine)) ∙ d.mine;
          known = d.known;
          inuse = d.inuse;
          rooted = d.rooted;
          free_list = d.free_list;
          counted = d.counted;
        },
      );
  listed = λ j s u. elim (Bool-cases (i == j)) [
    | inl e ↦ absurd (new s (rw (e) at u))
    | inr e ↦ v.listed j s (rw (e) at u)
  ];
  listed_once = v.listed_once;
  by_size = v.by_size;
  sized_once = v.sized_once;
  tallied = v.tallied;
}

pub kpage_inj : (i j : ℕ) → kpage i ≡ kpage j → i ≡ j
kpage_inj i j e = omega arith
