-- ===== src/Kheap/Pages.antt =====
-- The pages that the heap of kern/vm/kmalloc.c takes from the frame table and gives back.
use os161_virtual_memory_imp.Common.{
  ℕ, ◌<◌, ◌≡◌, refl, sym, ap, subst, ◌∙◌, ◌⊎◌, inl, inr, Bool, true, false, Option, some, List, [],
  ◌∷◌, ◌==◌, arith, Bool-cases, update, eqb→eq, ne→eqb,
}
use os161_virtual_memory_imp.Machine.{paddr_to_kvaddr, frame_to_paddr}
use os161_virtual_memory_imp.Frames.{FrameTable, Frames, zero_page, alloc_kpages, free_kpages}
use os161_virtual_memory_imp.Frames.Alloc.{taken, alloc_kpages-Pops}
use os161_virtual_memory_imp.Frames.Release.{dropped, free_kpages-dropped}
use os161_virtual_memory_imp.Kmalloc.{World, IsBooted, Spares, HeapStep}
use os161_virtual_memory_imp.Kheap.{
  KHeap, Owner, free_page, own_page, whole_page, blocks_of, owned, is_owned, kpage, frame_at, mark,
  take_pages, give_page,
}
use os161_virtual_memory_imp.Kheap.Sound.{IsHeap, NotBlocks, mark-IsHeap}

-- A step of the heap, and two in a row. A change of the heap's variables alone is a step when it
-- keeps the heap sound and owns the same frames.
abbrev pub Step : World KHeap → World KHeap → FrameTable → Type 0
Step w w' t = HeapStep IsHeap owned w w' t

Spares-trans :
    (o o1 o2 : ℕ → Bool) (fr fr1 fr2 : Frames) (t t1 t2 : FrameTable)
    → Spares o o1 fr fr1 t t1
    → Spares o1 o2 fr1 fr2 t1 t2
    → Spares o o2 fr fr2 t t2
Spares-trans o o1 o2 fr fr1 fr2 t t1 t2 a b =
    let used1 : (i : ℕ) → (t.entry i).used ≡ true → o i ≡ false → (t1.entry i).used ≡ true =
      λ i u f. ap (λ e. e.used) (a.same_entry i u f) ∙ u in
    record {
      same_size = b.same_size ∙ a.same_size;
      same_entry =
          λ i u f. b.same_entry i (used1 i u f) (a.still_foreign i u f) ∙ a.same_entry i u f;
      same_memory =
          λ i u f. b.same_memory i (used1 i u f) (a.still_foreign i u f) ∙ a.same_memory i u f;
      still_foreign = λ i u f. b.still_foreign i (used1 i u f) (a.still_foreign i u f);
    }

pub Step-trans :
    (w w1 w2 : World KHeap) (t : FrameTable) (a : Step w w1 t) → Step w1 w2 a.0 → Step w w2 t
Step-trans w w1 w2 t (t1, free1, v1, b1, s1) (t2, free2, v2, b2, s2) = (
  t2,
  free2,
  v2,
  b2,
  Spares-trans (owned w.heap) (owned w1.heap) (owned w2.heap) w.frames w1.frames w2.frames t t1 t2
      s1 s2,
)

pub same_owner-Step :
    (w : World KHeap) (h : KHeap) (t : FrameTable) (free : List ℕ)
    → IsHeap h
    → ((i : ℕ) → owned h i ≡ owned w.heap i)
    → IsBooted (owned w.heap) w.frames t free
    → Step w (record w { heap = h }) t
same_owner-Step w h t free v same b = (
  t,
  free,
  v,
  record {
    booted = b.booted;
    sound = b.sound;
    held = λ i o. b.held i (sym (same i) ∙ o);
    within = λ i o. b.within i (sym (same i) ∙ o);
  },
  record {
    same_size = refl;
    same_entry = λ i u f. refl;
    same_memory = λ i u f. refl;
    still_foreign = λ i u f. same i ∙ f;
  },
)

pub unowned : (o : Owner) → is_owned o ≡ false → o ≡ free_page
unowned free_page e = refl
unowned own_page e = absurd cc
unowned whole_page e = absurd cc
unowned (blocks_of s) e = absurd cc

pub free_page-NotBlocks : (o : Owner) → o ≡ free_page → NotBlocks o
free_page-NotBlocks o e s f = absurd cc

pub own_page-NotBlocks : (o : Owner) → o ≡ own_page → NotBlocks o
own_page-NotBlocks o e s f = absurd cc

-- The address of a page, as the frame table computes it, and back.
pub kpage_lem : (i : ℕ) → i < 131072 → paddr_to_kvaddr (frame_to_paddr i) ≡ kpage i
unfolding paddr_to_kvaddr
kpage_lem i h = omega arith

-- take_pages finds no page, or it makes a frame that was free the heap's own.
abbrev pub NoPages : World KHeap → FrameTable → Option (ℕ × World KHeap) → Type 0
NoPages w t r = (w' : World KHeap) × (r ≡ some (0, w')) × Step w w' t × (w'.heap ≡ w.heap)

abbrev pub OnePage : World KHeap → FrameTable → Option (ℕ × World KHeap) → Type 0
OnePage w t r =
    (i : ℕ) × (w' : World KHeap) × (r ≡ some (kpage i, w'))
    × Step w w' t
    × (w'.heap ≡ mark i own_page w.heap)
    × (0 < i)
    × (i < 131072)
    × (w.heap.owner i ≡ free_page)

module _ (w : World KHeap) (t : FrameTable) (v : IsHeap w.heap) where
  pub take_none :
      (npages : ℕ) (free : List ℕ)
      → IsBooted (owned w.heap) w.frames t free
      → alloc_kpages npages w.frames ≡ some (0, w.frames)
      → NoPages w t (take_pages npages w)
  unfolding take_pages
  take_none npages free b run =
      (w, rw (run) refl, same_owner-Step w w.heap t free v (λ i. refl) b, refl)

  pub take_page :
      (free : List ℕ)
      → IsBooted (owned w.heap) w.frames t free
      → NoPages w t (take_pages 1 w) ⊎ OnePage w t (take_pages 1 w)
  unfolding take_pages
  take_page [] b = inl (take_none 1 [] b (alloc_kpages-Pops w.frames t [] b.booted b.sound))
  take_page (i ∷ free) b =
      let (run, sound, unused) = alloc_kpages-Pops w.frames t (i ∷ free) b.booted b.sound in
      let small : i < 131072 = omega (arith, b.sound.chain.2, b.sound.small) in
      let index : frame_at (kpage i) ≡ i = omega arith in
      let old : w.heap.owner i ≡ free_page = elim (Bool-cases (is_owned (w.heap.owner i))) [
        | inl o ↦ absurd (ground (arith, b.held i o))
        | inr o ↦ unowned (w.heap.owner i) o
      ] in
      inr (
        i,
        record {
          heap = mark i own_page w.heap;
          frames = record (w.frames) {
            table = some (taken t i);
            mem = update (w.frames).mem i zero_page;
          };
        },
        rw (run, kpage_lem i small, index, ne→eqb (kpage i) 0 (omega arith)) refl,
        (
          taken t i,
          free,
          mark-IsHeap i own_page w.heap v (free_page-NotBlocks (w.heap.owner i) old)
              (own_page-NotBlocks own_page refl) b.sound.chain.1 small,
          record {
            booted = refl;
            sound = sound;
            held = λ j o. elim (Bool-cases (i == j)) [
              | inl e ↦ (rw (e) refl, rw (e) refl)
              | inr e ↦ rw (e) (b.held j (rw (e) at o))
            ];
            within = λ j o. elim (Bool-cases (i == j)) [
              | inl e ↦ omega (arith, b.sound.chain, eqb→eq i j e)
              | inr e ↦ b.within j (rw (e) at o)
            ];
          },
          record {
            same_size = refl;
            same_entry = λ j u f. ground (arith, unused);
            same_memory = λ j u f. ground (arith, unused);
            still_foreign = λ j u f. ground (arith, unused);
          },
        ),
        refl,
        b.sound.chain.1,
        small,
        old,
      )

  -- A page of the heap's own goes back to the frame table.
  pub give_own :
      (i : ℕ) (free : List ℕ)
      → IsBooted (owned w.heap) w.frames t free
      → w.heap.owner i ≡ own_page
      → (w' : World KHeap) × (give_page (kpage i) w ≡ some w')
        × Step w w' t
        × (w'.heap ≡ mark i free_page w.heap)
  unfolding give_page
  give_own i free b mine =
      let mine' : owned w.heap i ≡ true = ap is_owned mine in
      let (used, ref) = b.held i mine' in
      let (above, within) = b.within i mine' in
      let small : i < 131072 = omega (arith, within, b.sound.small) in
      let index : frame_at (kpage i) ≡ i = omega arith in
      let (run, sound) =
        free_kpages-dropped w.frames t free b.booted b.sound i 0 above within used ref in
      let run' =
        subst
          (λ a. free_kpages a w.frames ≡ some (record (w.frames) { table = some (dropped t i 0) }))
          (kpage_lem i small) run in
      (
        record {
          heap = mark i free_page w.heap;
          frames = record (w.frames) { table = some (dropped t i 0) };
        },
        rw (run', index) refl,
        (
          dropped t i 0,
          i ∷ free,
          mark-IsHeap i free_page w.heap v (own_page-NotBlocks (w.heap.owner i) mine)
              (free_page-NotBlocks free_page refl) above small,
          record {
            booted = refl;
            sound = sound;
            held = λ j o. elim (Bool-cases (i == j)) [
              | inl e ↦ absurd (ground arith)
              | inr e ↦ rw (e) (b.held j (rw (e) at o))
            ];
            within = λ j o. elim (Bool-cases (i == j)) [
              | inl e ↦ absurd (ground arith)
              | inr e ↦ b.within j (rw (e) at o)
            ];
          },
          record {
            same_size = refl;
            same_entry = λ j u f. ground (arith, mine');
            same_memory = λ j u f. refl;
            still_foreign = λ j u f. ground (arith, mine');
          },
        ),
        refl,
      )
