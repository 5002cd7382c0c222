-- ===== src/Destroy/Chain.antt =====
-- The walk of as_destroy down one chain.
use os161_virtual_memory_imp.Common.{
  ℕ, zero, suc, ◌+◌, ◌<◌, ◌≡◌, ◌⊎◌, refl, inl, inr, true, Option, some, List, [], ◌∷◌, arith, ◌==◌,
  if◌then◌else◌, update, pos, Bool-cases,
}
use os161_virtual_memory_imp.Machine.{frame_to_paddr, paddr_to_kvaddr}
use os161_virtual_memory_imp.Frames.{FrameTable, Frames, free_kpages}
use os161_virtual_memory_imp.Frames.Release.{dropped, free_after, free_kpages-dropped}
use os161_virtual_memory_imp.Kmalloc.{World, Kmalloc, KmallocLaws}
use os161_virtual_memory_imp.PageTable.{PageEntry}
use os161_virtual_memory_imp.PageTable.Counts.{refers, refs_in}
use os161_virtual_memory_imp.PageTable.Pages.{Panics, IsMapped, IsWorld, IsWorld-ext, kfree-IsWorld}
use os161_virtual_memory_imp.Destroy.{free_page, destroy_chain}
use os161_virtual_memory_imp.Destroy.Blocks.{is_block, blocks_in, Holds, Holds-live, kfree-Holds}

-- The entries of the other processes.
abbrev pub others : (pid : ℕ) → List PageEntry → List PageEntry
others pid [] = []
others pid (e ∷ es) = if e.pid == pid then others pid es else e ∷ others pid es

Predecessor : (n : ℕ) → 0 < n → (k : ℕ) × (n ≡ suc k)
Predecessor zero h = absurd (omega arith)
Predecessor (suc k) h = (k, refl)

module _ {H : Type 0} {K : Kmalloc H} (L : KmallocLaws K) where
  dropped-mapped :
      (w : World H) (t : FrameTable) (free : List ℕ) (c : ℕ → ℕ) (f k : ℕ)
      → IsWorld L w t free c
      → c f ≡ suc k
      → (g : ℕ) → 0 < update c f k g
      → IsMapped (dropped t f k) (L.owned w.heap) g (update c f k g)
  dropped-mapped w t free c f zero v e g h = ground (arith, v.mapped g)
  dropped-mapped w t free c f (suc k) v e g h = ground (arith, v.mapped g, v.mapped f)

  dropped-held :
      (w : World H) (t : FrameTable) (free : List ℕ) (c : ℕ → ℕ) (f k : ℕ)
      → IsWorld L w t free c
      → c f ≡ suc k
      → (i : ℕ) → L.owned w.heap i ≡ true
      → (((dropped t f k).entry i).used ≡ true) × (((dropped t f k).entry i).ref ≡ pos 1)
  dropped-held w t free c f zero v e i o = ground (arith, v.mapped f, v.frames.held i o)
  dropped-held w t free c f (suc k) v e i o = ground (arith, v.mapped f, v.frames.held i o)

  -- One entry less refers to the frame.
  free_kpages-IsWorld :
      (w : World H) (t : FrameTable) (free : List ℕ) (c : ℕ → ℕ) (f k : ℕ)
      → IsWorld L w t free c
      → c f ≡ suc k
      → (fr : Frames) × (free_kpages (paddr_to_kvaddr (frame_to_paddr f)) w.frames ≡ some fr)
        × IsWorld L (record w { frames = fr }) (dropped t f k) (free_after f k free) (update c f k)
  free_kpages-IsWorld w t free c f k v e =
      let m = v.mapped f (omega arith) in
      let (run, sound) =
        free_kpages-dropped w.frames t free v.frames.booted v.frames.sound f k m.above m.within
          m.used (rw e at m.counted) in
      (
        record (w.frames) { table = some (dropped t f k) },
        run,
        record {
          heap = v.heap;
          frames = record {
            booted = refl;
            sound = sound;
            held = dropped-held w t free c f k v e;
            within = λ i o. ground (arith, v.frames.within i o);
          };
          mapped = dropped-mapped w t free c f k v e;
        },
      )

  -- What freeing leaves: the references `c` and the blocks `b` of all the others.
  abbrev pub Frees : (c b : ℕ → ℕ) → World H → Option (World H) → Type 0
  Frees c b w r =
      Panics L w r
      ⊎ ((w' : World H) × (t' : FrameTable) × (free' : List ℕ) × (r ≡ some w')
          × IsWorld L w' t' free' c
          × Holds L w'.heap b
          × (L.steady w.heap → L.steady w'.heap))

  -- A block that is held is given back, besides those that `b` counts; or kfree panics.
  pub kfree-Frees :
      (w : World H) (t : FrameTable) (free : List ℕ) (c b : ℕ → ℕ) (p : ℕ)
      → IsWorld L w t free c
      → Holds L w.heap (λ q. is_block p q + b q)
      → Frees c b w (K.kfree p w)
  kfree-Frees w t free c b p v h = elim (kfree-IsWorld L v p (Holds-live L w.heap p b h)) [
    | inl stop ↦ inl stop
    | inr (w', t', free', run, v', others, steady) ↦
        inr (w', t', free', run, v', kfree-Holds L w.heap w'.heap p b h others, steady)
  ]

  free_page-Frees :
      (e : PageEntry) (w : World H) (t : FrameTable) (free : List ℕ) (c b : ℕ → ℕ)
      → IsWorld L w t free (λ g. refers g e + c g)
      → Holds L w.heap (λ q. is_block e.block q + b q)
      → Frees c b w (free_page K e w)
  unfolding free_page
  free_page-Frees e w t free c b v h =
      let f = e.lo.framenum in
      let (fr, run, v1) =
        free_kpages-IsWorld w t free (λ g. refers g e + c g) f (c f) v (ground arith) in
      rw run (
        kfree-Frees (record w { frames = fr }) _ _ c b e.block
          (IsWorld-ext L v1 c (λ g. ground arith)) h)

  -- What the walk leaves of a chain `es`, with the references `c` and the blocks `b` of the rest.
  abbrev pub Clears :
      (pid : ℕ)
      → List PageEntry
      → (c b : ℕ → ℕ) → World H
      → Option (List PageEntry × World H)
      → Type 0
  Clears pid es c b w r =
      Panics L w r
      ⊎ ((w' : World H) × (t' : FrameTable) × (free' : List ℕ) × (r ≡ some (others pid es, w'))
          × IsWorld L w' t' free' (λ g. c g + refs_in g (others pid es))
          × Holds L w'.heap (λ q. b q + blocks_in (others pid es) q)
          × (L.steady w.heap → L.steady w'.heap))

  pub destroy_chain-Clears :
      (pid : ℕ) (es : List PageEntry) (w : World H) (t : FrameTable) (free : List ℕ) (c b : ℕ → ℕ)
      → IsWorld L w t free (λ g. c g + refs_in g es)
      → Holds L w.heap (λ q. b q + blocks_in es q)
      → Clears pid es c b w (destroy_chain K pid es w)
  unfolding destroy_chain
  destroy_chain-Clears pid [] w t free c b v h = inr (w, t, free, refl, v, h, λ st. st)
  destroy_chain-Clears pid (e ∷ es) w t free c b v h = elim (Bool-cases (e.pid == pid)) [
    | inl own ↦
        elim (free_page-Frees e w t free (λ g. c g + refs_in g es) (λ q. b q + blocks_in es q)
          (IsWorld-ext L v _ (λ g. omega arith)) (λ q. omega (arith, h q))) [
            | inl (stop, bad) ↦ inl (rw (own, stop) refl, bad)
            | inr (w1, t1, free1, run1, v1, h1, st1) ↦
                elim (destroy_chain-Clears pid es w1 t1 free1 c b v1 h1) [
                  | inl (stop, bad) ↦ inl (rw (own, run1, stop) refl, λ st. bad (st1 st))
                  | inr (w2, t2, free2, run2, v2, h2, st2) ↦ inr (
                    w2,
                    t2,
                    free2,
                    rw own (rw run1 (rw run2)),
                    IsWorld-ext L v2 _ (λ g. rw own),
                    (λ q. rw own (h2 q)),
                    λ st. st2 (st1 st),
                  )
                ]
          ]
    | inr other ↦
        elim (destroy_chain-Clears pid es w t free (λ g. c g + refers g e)
          (λ q. b q + is_block e.block q) (IsWorld-ext L v _ (λ g. omega arith))
          (λ q. omega (arith, h q))) [
            | inl (stop, bad) ↦ inl (rw (other, stop) refl, bad)
            | inr (w1, t1, free1, run1, v1, h1, st1) ↦ inr (
              w1,
              t1,
              free1,
              rw other (rw run1),
              IsWorld-ext L v1 _ (λ g. rw other (omega arith)),
              (λ q. rw other (omega (arith, h1 q))),
              st1,
            )
          ]
  ]
