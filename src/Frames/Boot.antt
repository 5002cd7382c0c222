-- ===== src/Frames/Boot.antt =====
-- frametable_bootstrap: which frames of physical memory the free list holds afterwards.
use os161_virtual_memory_imp.Common.{
  ℕ, zero, suc, ◌+◌, ◌-◌, ◌*◌, ◌/◌, ◌<◌, ◌≤◌, ◌≡◌, ◌≢◌, refl, ◌∙◌, false, Option, none, some, List,
  arith, ◌==◌, has, update, range_from, ltb, lt→ltb, ne→eqb, if◌then◌else◌, has-range_from_below,
  has-range_from_above,
}
use os161_virtual_memory_imp.Machine.{page_size}
use os161_virtual_memory_imp.Ram.{Ram, ram_getsize, ram_getfirstfree}
use os161_virtual_memory_imp.Ram.Bump.{IsRam}
use os161_virtual_memory_imp.Frames.{
  FrameTable, Frames, cleared, os_frame, free_frame, reserve, link, link_bound, last_linked,
  entry_size, frametable_bootstrap,
}
use os161_virtual_memory_imp.Frames.FreeList.{FreeList, IsFrameTable}

-- The entries after each loop: rounds `n` from `i`.
reserve-entry :
    (n i : ℕ) (t : FrameTable) (j : ℕ)
    → (reserve n i t).entry j
      ≡ (if ltb j i then t.entry j else if ltb j (i + n) then os_frame else t.entry j)
unfolding reserve
reserve-entry zero i t j = ground arith
reserve-entry (suc n) i t j =
    ground (arith, reserve-entry n (suc i) (record t { entry = update t.entry i os_frame }) j)

link-entry :
    (n i : ℕ) (t : FrameTable) (j : ℕ)
    → (link n i t).entry j ≡ (
        if ltb j i
        then t.entry j
        else if ltb j (i + n)
        then free_frame (some (suc j))
        else t.entry j)
unfolding link
link-entry zero i t j = ground arith
link-entry (suc n) i t j = ground (
  arith,
  link-entry n (suc i) (record t { entry = update t.entry i (free_frame (some (suc i))) }) j,
)

link-firstfree : (n i : ℕ) (t : FrameTable) → (link n i t).firstfree ≡ t.firstfree
unfolding link
link-firstfree zero i t = refl
link-firstfree (suc n) i t = link-firstfree n (suc i) _

reserve-firstfree : (n i : ℕ) (t : FrameTable) → (reserve n i t).firstfree ≡ t.firstfree
unfolding reserve
reserve-firstfree zero i t = refl
reserve-firstfree (suc n) i t = reserve-firstfree n (suc i) _

link-nframes : (n i : ℕ) (t : FrameTable) → (link n i t).nframes ≡ t.nframes
unfolding link
link-nframes zero i t = refl
link-nframes (suc n) i t = link-nframes n (suc i) _

reserve-nframes : (n i : ℕ) (t : FrameTable) → (reserve n i t).nframes ≡ t.nframes
unfolding reserve
reserve-nframes zero i t = refl
reserve-nframes (suc n) i t = reserve-nframes n (suc i) _

-- A table whose entries `i`, …, `i + n` are unused and linked in order has that free list.
FreeList-linked :
    (t : FrameTable) (n i : ℕ)
    → 0 < i
    → i + n < t.nframes
    → ((j : ℕ) → i ≤ j → j < i + n → t.entry j ≡ free_frame (some (suc j)))
    → t.entry (i + n) ≡ free_frame none
    → FreeList t (some i) (range_from i (suc n))
FreeList-linked t zero i p within linked last =
    let e : i + 0 ≡ i = omega arith in let last' = rw e at last in ground arith
FreeList-linked t (suc n) i p within linked last = ground (
  arith,
  linked i,
  has-range_from_below (suc n) (suc i) i (omega arith),
  FreeList-linked t n (suc i) (omega arith) (omega arith)
      (λ j h k. linked j (omega arith) (omega arith))
      (rw (let e : suc i + n ≡ i + suc n = omega arith in e) last),
)

-- Of `n` frames with `b` taken at the bottom, the last one that the second loop links.
abbrev pub last_free : (n b : ℕ) → ℕ
last_free n b = if ltb b (n - b - 1) then n - b - 1 else b

-- Where some memory is free, the loop's bound does not wrap.
last_linked_lem :
    (r : Ram)
    → IsRam r
    → r.firstpaddr < r.lastpaddr
    → last_linked r.lastpaddr r.firstpaddr
      ≡ last_free (r.lastpaddr / page_size) (r.firstpaddr / page_size)
last_linked_lem r v some_free =
    let bound : link_bound r.lastpaddr r.firstpaddr
        ≡ r.lastpaddr / page_size - r.firstpaddr / page_size - 1 =
      omega arith in
    rw bound

-- The table that the two loops and the final write build from `n` cleared entries.
abbrev pub built : (n b last : ℕ) → FrameTable
built n b last =
    let t : FrameTable = record { nframes = n; entry = λ _. cleared; firstfree = some b } in
    let linked = link (last - b) b (reserve b 0 t) in
    record linked { entry = update linked.entry last (free_frame none) }

module _ (n b last : ℕ) (p : 0 < b) (q : b ≤ last) (within : last < n) where
  built-entry :
      (j : ℕ)
      → (built n b last).entry j ≡ (
          if ltb j b
          then os_frame
          else if ltb j last
          then free_frame (some (suc j))
          else if j == last
          then free_frame none
          else cleared)
  built-entry j =
      let t : FrameTable = record { nframes = n; entry = λ _. cleared; firstfree = some b } in
      ground (arith, link-entry (last - b) b (reserve b 0 t) j, reserve-entry b 0 t j)

  built-nframes : (built n b last).nframes ≡ n
  built-nframes =
      let t : FrameTable = record { nframes = n; entry = λ _. cleared; firstfree = some b } in
      link-nframes (last - b) b (reserve b 0 t) ∙ reserve-nframes b 0 t

  pub built-IsFrameTable :
      n ≤ 131072 → IsFrameTable (built n b last) (range_from b (suc (last - b)))
  built-IsFrameTable small =
      let t : FrameTable = record { nframes = n; entry = λ _. cleared; firstfree = some b } in
      let head : (built n b last).firstfree ≡ some b =
        link-firstfree (last - b) b (reserve b 0 t) ∙ reserve-firstfree b 0 t in
      let end : b + (last - b) ≡ last = omega arith in
      record {
        small = omega (arith, built-nframes);
        chain = rw head (
            FreeList-linked (built n b last) (last - b) b p (omega (arith, built-nframes))
              (λ j h k. ground (arith, built-entry j)) (rw end (ground (arith, built-entry last))));
        referenced = λ j h u. (0, ground (arith, built-entry j));
      }

-- What the bootstrap leaves behind: a table for all of memory whose free list is `free`.
abbrev pub Boots : Frames → List ℕ → Option Frames → Type 0
Boots fr free r =
    (t : FrameTable) × (r
      ≡ some (record fr { ram = record { firstpaddr = 0; lastpaddr = 0 }; table = some t }))
    × (t.nframes ≡ fr.ram.lastpaddr / page_size)
    × IsFrameTable t free

module _ (kmalloc : ℕ → Frames → Option (ℕ × Frames)) (fr fr' : Frames) (ft : ℕ)
    (got : kmalloc (fr.ram.lastpaddr / page_size * entry_size) fr ≡ some (ft, fr')) (ne : ft ≢ 0)
    (top : fr'.ram.lastpaddr ≡ fr.ram.lastpaddr) (v : IsRam fr'.ram)
    (some_free : fr'.ram.firstpaddr < fr'.ram.lastpaddr) where
  runs :
      let n = fr'.ram.lastpaddr / page_size in
      let b = fr'.ram.firstpaddr / page_size in
      (b ≤ last_free n b)
      × (last_free n b < n)
      × (frametable_bootstrap kmalloc fr
          ≡ some (record fr' {
            ram = record { firstpaddr = 0; lastpaddr = 0 };
            table = some (built n b (last_free n b));
          }))
  unfolding frametable_bootstrap ram_getsize ram_getfirstfree
  runs =
      let n = fr'.ram.lastpaddr / page_size in
      let b = fr'.ram.firstpaddr / page_size in
      let within : last_free n b < n = ground arith in
      (
        ground arith,
        within,
        rw (
          got,
          frametable_bootstrap,
          ← top,
          last_linked_lem fr'.ram v some_free,
          ne→eqb ft 0 ne,
          lt→ltb (last_free n b) n within,
        ),
      )

  -- Once kmalloc has found room for the table below the top of memory, and `b` of the `n` frames
  -- of memory are taken by then, frametable_bootstrap does not fault; the bump allocator is closed,
  -- and the table is sound, with the free list b, b + 1, …, n - b - 1 (or b alone, if that is less).
  pub frametable_bootstrap-Boots :
      let n = fr'.ram.lastpaddr / page_size in
      let b = fr'.ram.firstpaddr / page_size in
      Boots fr' (range_from b (suc (last_free n b - b))) (frametable_bootstrap kmalloc fr)
  frametable_bootstrap-Boots =
      let n = fr'.ram.lastpaddr / page_size in
      let b = fr'.ram.firstpaddr / page_size in
      let p : 0 < b = omega arith in
      (
        built n b (last_free n b),
        runs.2,
        built-nframes n b (last_free n b) p runs.0 runs.1,
        built-IsFrameTable n b (last_free n b) p runs.0 runs.1 (omega arith),
      )

  -- The loop's bound counts the free frames, while its variable is a frame number. So each frame
  -- behind the last linked one is unused and yet on no free list: it is lost. With `b` frames taken
  -- of `n`, and 2 * b + 1 ≤ n, these are the top `b` frames of memory.
  pub frametable_bootstrap_loses :
      let n = fr'.ram.lastpaddr / page_size in
      let b = fr'.ram.firstpaddr / page_size in
      let free = range_from b (suc (last_free n b - b)) in
      (t : FrameTable) × (frametable_bootstrap kmalloc fr
        ≡ some (record fr' { ram = record { firstpaddr = 0; lastpaddr = 0 }; table = some t }))
      × FreeList t t.firstfree free
      × ((j : ℕ) → last_free n b < j → j < n → (t.entry j ≡ cleared) × (has j free ≡ false))
      × (2 * b + 1 ≤ n → last_free n b + 1 + b ≡ n)
  frametable_bootstrap_loses =
      let n = fr'.ram.lastpaddr / page_size in
      let b = fr'.ram.firstpaddr / page_size in
      let last = last_free n b in
      let p : 0 < b = omega arith in
      let order : b ≤ last = runs.0 in
      (
        built n b last,
        runs.2,
        (built-IsFrameTable n b last p order runs.1 (omega arith)).chain,
        (λ j above below. (
          ground (arith, built-entry n b last p order runs.1 j),
          has-range_from_above (suc (last - b)) b j (omega arith),
        )),
        ground arith,
      )
