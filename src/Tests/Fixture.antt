-- ===== src/Tests/Fixture.antt =====
-- The machine that the tests share: its heap, its frames, and two states of its page table.
use os161_virtual_memory_imp.Common.{
  ℕ, inl, inr, ◌≤◌, ◌<◌, not, has, Bool-cases, eqb→eq, zero, suc, ◌+◌, ◌%◌, ◌≡◌, ◌≢◌, refl, Bool,
  true, false, ◌&&◌, some, List, [], ◌∷◌, arith, ltb, ◌==◌, if◌then◌else◌, update, range_from,
}
use os161_virtual_memory_imp.Frames.{FrameTable, Frames}
use os161_virtual_memory_imp.Frames.FreeList.{IsFrameTable}
use os161_virtual_memory_imp.Frames.Boot.{built, built-IsFrameTable}
use os161_virtual_memory_imp.Kmalloc.{World, Kmalloc, IsBooted, HeapStep, KmallocLaws}
use os161_virtual_memory_imp.AddrSpace.{Region, AddrSpace}
use os161_virtual_memory_imp.PageTable.{PageEntry, Vm, set_entrylo}
use os161_virtual_memory_imp.PageTable.Counts.{refs_in, refs, refs-update}
use os161_virtual_memory_imp.PageTable.Pages.{
  IsWorld, IsWorld-ext, with_frame, alloc_page-Allocates,
}
use os161_virtual_memory_imp.PageTable.Create.{page_of}
use os161_virtual_memory_imp.Frames.Alloc.{taken}
use os161_virtual_memory_imp.Fault.Safety.{IsVm}
use os161_virtual_memory_imp.Destroy.Blocks.{is_block, blocks, blocks-update, space_blocks}
use os161_virtual_memory_imp.Destroy.Rounds.{Owns}

-- The heap knows the address of the next block, and which blocks have been freed; a block is 16
-- bytes, and is not used again.
pub record Run : Type 0 where
  pub next : ℕ
  pub freed : List ℕ

abbrev pub run : Kmalloc Run
run = record {
  kmalloc = λ n w. (w.heap.next, record w { heap = record (w.heap) { next = w.heap.next + 16 } });
  kfree = λ p w. some (record w { heap = record (w.heap) { freed = p ∷ w.heap.freed } });
  first_word = λ w p. 0;
}

abbrev pub IsRun : Run → Type 0
IsRun h = (h.next % 16 ≡ 0) × ((p : ℕ) → h.next ≤ p → has p h.freed ≡ false) × (0 < h.next)

abbrev pub in_run : Run → ℕ → Bool
in_run h p = (ltb p h.next && (p % 16 == 0)) && not (has p h.freed)

pub same_frames :
    (w w' : World Run) (t : FrameTable) (free : List ℕ)
    → IsRun w'.heap
    → w'.frames ≡ w.frames
    → IsBooted (λ _. false) w.frames t free
    → HeapStep IsRun (λ _ _. false) w w' t
same_frames w w' t free v same booted = (
  t,
  free,
  v,
  rw same booted,
  record {
    same_size = refl;
    same_entry = λ i u o. refl;
    same_memory = λ i u o. rw same;
    still_foreign = λ i u o. refl;
  },
)

pub allocated : (h : Run) → IsRun h → IsRun (record h { next = h.next + 16 })
allocated h v = (omega (arith, v.0), (λ p above. v.1 p (omega arith)), omega arith)

pub freed_in :
    (h : Run) (p : ℕ) → in_run h p ≡ true → IsRun h → IsRun (record h { freed = p ∷ h.freed })
freed_in h p live v = (v.0, (λ q above. ground (arith, v.1 q above)), v.2)

pub next_block :
    (h : Run)
    → IsRun h
    → (in_run h h.next ≡ false)
      × ((p : ℕ)
          → in_run (record h { next = h.next + 16 }) p ≡ (if p == h.next then true else in_run h p))
next_block h v =
    let out = v.1 h.next (omega arith) in
    (
      ground arith,
      λ p. elim (Bool-cases (p == h.next)) [
        | inl e ↦ let same : p ≡ h.next = eqb→eq p h.next e in rw same (ground (arith, v.0, out))
        | inr e ↦ rw e (ground (arith, v.0))
      ],
    )

pub after_free :
    (h : Run) (p q : ℕ) → q ≢ p → in_run (record h { freed = p ∷ h.freed }) q ≡ in_run h q
after_free h p q ne = ground arith

abbrev pub laws : KmallocLaws run
laws = record {
  IsHeap = IsRun;
  owned = λ heap i. false;
  live = in_run;
  kmalloc_step = λ n w t free v booted.
      same_frames w (run.kmalloc n w).1 t free (allocated w.heap v) refl booted;
  steady = λ heap. Unit {0};
  kmalloc_steady = λ n w t free v booted ne st. tt;
  kfree_step = λ p w t free live v booted.
      let w' : World Run = record w { heap = record (w.heap) { freed = p ∷ w.heap.freed } } in
      inr (
        w',
        refl,
        same_frames w w' t free (freed_in w.heap p live v) refl booted,
        (λ q ne. after_free w.heap p q ne),
        λ st. tt,
      );
  kmalloc_live = λ n w t free v booted ne. next_block w.heap v;
  kmalloc_none = λ n w t free v booted none_left p. absurd (omega (arith, v.2, none_left));
  first_word_aligned = λ n w t free small v booted ne. refl;
}

-- Frames 0 to 3 are the kernel's; 4 to 11 are free, and the bootstrap has lost 12 to 15.
abbrev pub table : FrameTable
table = built 16 4 11

abbrev pub free : List ℕ
free = range_from 4 8

abbrev pub frames : Frames
frames = record {
  ram = record { firstpaddr = 0; lastpaddr = 0 };
  table = some table;
  mem = λ f at. f;
}

pub table-IsFrameTable : IsFrameTable table free
table-IsFrameTable =
    built-IsFrameTable 16 4 11 (omega arith) (omega arith) (omega arith) (omega arith)

abbrev pub world : World Run
world = record { heap = record { next = 0x8000_4000; freed = [] }; frames = frames }

abbrev pub vm : Vm Run
vm = record {
  world = world;
  pagespace = 128;
  chain = λ _. [];
  tlb = λ s. record { hi = 0; lo = 0 };
}

pub world-IsWorld : (c : ℕ → ℕ) → ((f : ℕ) → c f ≡ 0) → IsWorld laws world table free c
world-IsWorld c none_mapped = record {
  heap = (refl, (λ p above. refl), omega arith);
  frames = record {
    booted = refl;
    sound = table-IsFrameTable;
    held = λ i o. absurd cc;
    within = λ i o. absurd cc;
  };
  mapped = λ f h. absurd (omega (arith, none_mapped f));
}

pub vm-IsVm : IsVm laws vm
vm-IsVm = record {
  table = table;
  free = free;
  world = world-IsWorld _ (λ f. omega arith);
  room = omega arith;
}

-- A process with a region of 16 pages that may be read and written, and one that may only be read.
abbrev pub data_region : Region
data_region = record { block = 0x8000_2020; as_perms = 6; as_vbase = 0x40_0000; as_npages = 16 }

abbrev pub text_region : Region
text_region = record { block = 0x8000_2010; as_perms = 5; as_vbase = 0x10_0000; as_npages = 8 }

abbrev pub space : AddrSpace
space = record { block = 0x8000_2000; regions = data_region ∷ text_region ∷ [] }

-- The state once a page of the first region has been read and frame 4 been given to it; `dirty`
-- says whether it may be written. The hash sends the page to chain 0, with page 0x408 and others.
abbrev pub page : ℕ → PageEntry
page dirty = page_of 0x8000_3000 0x8000_2000 0x400 1 dirty 4

abbrev pub paged : ℕ → Vm Run
paged dirty = record vm {
  world = with_frame world table 4;
  chain = update (λ _. []) 0 (page dirty ∷ []);
}

page-refers : (dirty f : ℕ) → refs_in f (page dirty ∷ []) ≡ update (λ _. 0) 4 1 f
unfolding set_entrylo
page-refers dirty f = ground arith

refs-empty : (n f : ℕ) → refs n (λ _. []) f ≡ 0
refs-empty zero f = refl
refs-empty (suc n) f = omega (arith, refs-empty n f)

paged-refs :
    (dirty f : ℕ) → refs 32 (update (λ _. []) 0 (page dirty ∷ [])) f ≡ update (λ _. 0) 4 1 f
paged-refs dirty f = omega (
  arith,
  refs-update 32 (λ _. []) 0 (page dirty ∷ []) f (omega arith),
  refs-empty 32 f,
  page-refers dirty f,
)

pub paged-IsVm : (dirty : ℕ) → IsVm laws (paged dirty)
paged-IsVm dirty =
    let v = world-IsWorld (λ _. 0) (λ f. refl) in
    let made = alloc_page-Allocates laws world table (λ _. 0) (4 ∷ range_from 5 7) v in
    record {
      table = taken table 4;
      free = range_from 5 7;
      world = IsWorld-ext laws made.5 _ (paged-refs dirty);
      room = omega arith;
    }

blocks-empty : (n q : ℕ) → blocks n (λ _. []) q ≡ 0
blocks-empty zero q = refl
blocks-empty (suc n) q = omega (arith, blocks-empty n q)

-- The entry, the two regions and the address space stand in four blocks.
pub paged-Owns : (dirty : ℕ) → Owns laws (paged dirty) (space_blocks space)
paged-Owns dirty q =
    let count : blocks 32 (update (λ _. []) 0 (page dirty ∷ [])) q ≡ is_block 0x8000_3000 q =
      omega (
        arith,
        blocks-update 32 (λ _. []) 0 (page dirty ∷ []) q (omega arith),
        blocks-empty 32 q,
      ) in
    ground (arith, count)
