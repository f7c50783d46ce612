-- ===== src/KernelHeap/Inverse.antt =====
-- kmalloc of kern/kheap.c keeps the heap valid: its two address tables are inverse to each other.
use mathlib.Core.Path.{subst}
use os_memory_management.Base.{
  ℕ, zero, suc, ◌+◌, ◌*◌, ◌/◌, ◌%◌, ◌^◌, ◌≤◌, ◌<◌, ◌≡◌, refl, sym, ap, ◌∙◌, inl, inr, arith, false,
  some, List, ◌∷◌, ◌≢◌, length, All, Avoids, Distinct, update, update_self, update-ne, leb, lt→ltb,
  ok, Returns, returns, below_suc, List-cases,
}
use os_memory_management.Mmu.{add32, sub32, mul32, ppn, kernel_heap_max}
use os_memory_management.Frames.{allocate_frame, map_frame, frame_entry}
use os_memory_management.KernelHeap.{
  Block, Kheap, max_blocks, grow_heap, grow_pages, add_block, kmalloc,
}

-- The pages from `lo` to `hi` are the heap: each is mapped to a frame of its own that is not free, whose
-- entry in virtualAddresses is the page. The low bits of its entry are PERM_PRESENT and PERM_WRITEABLE
-- alone, 3. No page behind is mapped.
pub record IsHeap (lo hi : ℕ) (k : Kheap) : Type 0 where
  pub first : k.first_free ≡ hi * 4096
  pub fresh : (q : ℕ) → hi ≤ q → k.frames.pte q ≡ 0
  pub small : All (λ f. f < 2 ^ 20) k.frames.free
  pub distinct : Distinct k.frames.free
  pub inverse : (q : ℕ) → lo ≤ q → q < hi → k.virtual_addresses (ppn (k.frames.pte q)) ≡ q * 4096
  pub flags : (q : ℕ) → lo ≤ q → q < hi → k.frames.pte q % 4096 ≡ 3
  pub taken : (q : ℕ) → lo ≤ q → q < hi → Avoids (ppn (k.frames.pte q)) k.frames.free

ppn-frame_entry : (f : ℕ) → f < 2 ^ 20 → ppn (frame_entry f 3) ≡ f
ppn-frame_entry f lt = omega arith

flags-frame_entry : (f : ℕ) → frame_entry f 3 % 4096 ≡ 3
flags-frame_entry f = omega arith

-- The state after one round, which takes the frame `f`.
abbrev grown : ℕ → List ℕ → Kheap → Kheap
grown f fs k = record k {
  frames = record k.frames {
    free = fs;
    references =
        update (update k.frames.references f 0) f ((update k.frames.references f 0 f + 1) % 2 ^ 16);
    pte = update k.frames.pte (ppn k.first_free) (frame_entry f 3);
  };
  virtual_addresses = update k.virtual_addresses f k.first_free;
  first_free = add32 k.first_free 4096;
}

grow_heap-grown :
    (lo hi : ℕ) (k : Kheap) (f : ℕ) (fs : List ℕ)
    → IsHeap lo hi k
    → k.frames.free ≡ f ∷ fs
    → grow_heap k ≡ ok (grown f fs k)
unfolding grow_heap allocate_frame map_frame
grow_heap-grown lo hi k f fs v e =
    let unmapped : k.frames.pte (ppn k.first_free) ≡ 0 =
      v.fresh (ppn k.first_free) (omega (arith, v.first)) in
    rw (e, unmapped) refl

grown-IsHeap :
    (lo hi : ℕ) (k : Kheap) (f : ℕ) (fs : List ℕ)
    → IsHeap lo hi k
    → k.frames.free ≡ f ∷ fs
    → hi + 1 < 2 ^ 20
    → IsHeap lo (hi + 1) (grown f fs k)
grown-IsHeap lo hi k f fs v e room =
    let small = subst (All (λ a. a < 2 ^ 20)) e v.small in
    let distinct = subst Distinct e v.distinct in
    let page : ppn k.first_free ≡ hi = omega (arith, v.first) in
    let pte = (grown f fs k).frames.pte in
    let old : (q : ℕ) → q < hi → pte q ≡ k.frames.pte q = λ q lt.
      update-ne k.frames.pte (ppn k.first_free) q (frame_entry f 3) (λ s. omega (arith, page)) in
    let now : pte hi ≡ frame_entry f 3 =
      ap (λ p. update k.frames.pte p (frame_entry f 3) hi) page
      ∙ update_self k.frames.pte hi (frame_entry f 3) in
    let new : ppn (pte hi) ≡ f = ap ppn now ∙ ppn-frame_entry f small.0 in
    let out : (q : ℕ) → lo ≤ q → q < hi → Avoids (ppn (k.frames.pte q)) (f ∷ fs) =
      λ q le lt. subst (Avoids (ppn (k.frames.pte q))) e (v.taken q le lt) in
    let below =
      λ (P : ℕ → Type 0) (h : (q : ℕ) → q < hi → P q) (t : P hi) (q : ℕ) (lt : q < hi + 1).
        below_suc P hi h t q (omega arith) in
    record {
      first = omega (arith, v.first);
      fresh = λ q le.
          update-ne k.frames.pte (ppn k.first_free) q (frame_entry f 3) (λ s. omega (arith, page))
          ∙ v.fresh q (omega arith);
      small = small.1;
      distinct = distinct.1;
      inverse = λ q le lt.
          below (λ q. lo ≤ q → (grown f fs k).virtual_addresses (ppn (pte q)) ≡ q * 4096)
            (λ q lt le.
              ap (λ a. (grown f fs k).virtual_addresses (ppn a)) (old q lt)
              ∙ update-ne k.virtual_addresses f (ppn (k.frames.pte q)) k.first_free (out q le lt).0
              ∙ v.inverse q le lt)
            (λ le.
              ap (grown f fs k).virtual_addresses new
              ∙ update_self k.virtual_addresses f k.first_free
              ∙ v.first)
            q lt le;
      flags = λ q le lt.
          below (λ q. lo ≤ q → pte q % 4096 ≡ 3)
            (λ q lt le. ap (λ a. a % 4096) (old q lt) ∙ v.flags q le lt)
            (λ le. ap (λ a. a % 4096) now ∙ flags-frame_entry f) q lt le;
      taken = λ q le lt.
          below (λ q. lo ≤ q → Avoids (ppn (pte q)) fs)
            (λ q lt le. subst (λ a. Avoids (ppn a) fs) (sym (old q lt)) (out q le lt).1)
            (λ le. subst (λ g. Avoids g fs) (sym new) distinct.0) q lt le;
    }

-- What the rounds leave of the blocks, and how many free frames
record Grown (n lo hi : ℕ) (k k' : Kheap) : Type 0 where
  is_heap : IsHeap lo (hi + n) k'
  same_idx : k'.idx ≡ k.idx
  same_blocks : k'.blocks ≡ k.blocks
  left : length k'.frames.free + n ≡ length k.frames.free

grow_pages-Grown :
    (n lo hi : ℕ) (k : Kheap)
    → IsHeap lo hi k
    → hi + n < 2 ^ 20
    → n ≤ length k.frames.free
    → Returns (Grown n lo hi k) (grow_pages n k)
unfolding grow_pages
grow_pages-Grown zero lo hi k v room enough = returns k refl record {
  is_heap = subst (λ h. IsHeap lo h k) {x = hi} {y = hi + 0} (omega arith) v;
  same_idx = refl;
  same_blocks = refl;
  left = omega arith;
}
grow_pages-Grown (suc n) lo hi k v room enough = elim (List-cases k.frames.free) [
  | inl none_free ↦ absurd (omega (arith, ap length none_free))
  | inr (f, fs, e) ↦
      rw (grow_heap-grown lo hi k f fs v e)
        elim (grow_pages-Grown n lo (hi + 1) (grown f fs k)
          (grown-IsHeap lo hi k f fs v e (omega arith)) (omega arith)
          (omega (arith, ap length e))) [
            | returns k' e' g ↦ returns k' e' record {
              is_heap =
                  subst (λ h. IsHeap lo h k') {x = hi + 1 + n} {y = hi + suc n} (omega arith)
                    g.is_heap;
              same_idx = g.same_idx;
              same_blocks = g.same_blocks;
              left = omega (arith, g.left, ap length e);
            }
          ]
]

-- The pages that `size` bytes take.
abbrev pub pages_of : ℕ → ℕ
pages_of size = (size + 4095) / 4096

-- What kmalloc leaves: a valid heap with the pages of the block, which is entered at the end of
-- allocatedHAddresses, and a free frame less for each page.
pub record Allocated (pages lo hi : ℕ) (k k' : Kheap) : Type 0 where
  pub is_heap : IsHeap lo (hi + pages) k'
  pub idx : k'.idx ≡ k.idx + 1
  pub block : k'.blocks k.idx ≡ record { size = pages; va = hi * 4096; empty = 0 }
  pub others : (i : ℕ) → i ≢ k.idx → k'.blocks i ≡ k.blocks i
  pub left : length k'.frames.free + pages ≡ length k.frames.free

-- The state with the block entered
abbrev with_block : ℕ → ℕ → Kheap → Kheap
with_block pages va k = record k {
  blocks = update k.blocks k.idx (record { size = pages; va = va; empty = 0 });
  idx = k.idx + 1;
}

add_block-with_block :
    (pages va : ℕ) (k : Kheap)
    → k.idx < max_blocks
    → add_block pages va k ≡ ok (with_block pages va k)
unfolding add_block
add_block-with_block pages va k lt = rw (lt→ltb _ _ lt) refl

with_block-Allocated :
    (pages va lo hi : ℕ) (k k1 : Kheap)
    → va ≡ hi * 4096
    → Grown pages lo hi k k1
    → Allocated pages lo hi k (with_block pages va k1)
with_block-Allocated pages va lo hi k k1 first g = record {
  is_heap = record {
    first = g.is_heap.first;
    fresh = g.is_heap.fresh;
    small = g.is_heap.small;
    distinct = g.is_heap.distinct;
    inverse = g.is_heap.inverse;
    flags = g.is_heap.flags;
    taken = g.is_heap.taken;
  };
  idx = omega (arith, g.same_idx);
  block =
      subst (λ i. (with_block pages va k1).blocks i ≡ record { size = pages; va = va; empty = 0 })
        g.same_idx (update_self k1.blocks k1.idx (record { size = pages; va = va; empty = 0 }))
      ∙ ap (λ (a : ℕ). record { size = pages; va = a; empty = 0 }) first;
  others = λ i ne.
      update-ne k1.blocks k1.idx i _ (λ e. ne (sym e ∙ g.same_idx))
      ∙ ap (λ (b : ℕ → Block). b i) g.same_blocks;
  left = g.left;
}

-- Where the heap is valid and has room below KERNEL_HEAP_MAX, the size does not wrap, a frame is
-- free for every page and allocatedHAddresses is not full, kmalloc returns the address behind the
-- heap, and the heap has the pages of the block, too: all its pages are present and writeable, mapped to
-- frames of their own, and virtualAddresses has the page of each of these frames. The block is entered with
-- its address and its number of pages behind the others, which stay, and every page takes one free frame.
pub kmalloc-IsHeap :
    (size lo hi : ℕ) (k : Kheap)
    → IsHeap lo hi k
    → size + 4095 < 2 ^ 32
    → hi * 4096 + pages_of size * 4096 < kernel_heap_max
    → pages_of size ≤ length k.frames.free
    → k.idx < max_blocks
    → Returns
        (λ r. (r.0 ≡ some (hi * 4096)) × Allocated (pages_of size) lo hi k r.1)
        (kmalloc size k)
unfolding kmalloc
kmalloc-IsHeap size lo hi k v small room enough lt =
    let n : (size + 4095) % 2 ^ 32 / 4096 ≡ pages_of size = omega arith in
    let fits : leb (sub32 kernel_heap_max (mul32 (pages_of size) 4096)) k.first_free ≡ false =
      ground (arith, v.first) in
    rw (n, fits)
      elim (grow_pages-Grown (pages_of size) lo hi k v (omega arith) enough) [
        | returns k1 e g ↦
            rw
              (
                e,
                add_block-with_block (pages_of size) k.first_free k1
                    (omega (arith, g.same_idx, lt)),
              )
              (returns _ refl (
                ap some v.first,
                with_block-Allocated (pages_of size) k.first_free lo hi k k1 v.first g,
              ))
      ]
