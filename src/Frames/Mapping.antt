-- ===== src/Frames/Mapping.antt =====
-- Mapping and unmapping keep the reference counts of kern/memory_manager.c.
use mathlib.Core.Path.{subst, fun_ext}
use os_memory_management.Base.{
  ℕ, ◌+◌, ◌-◌, ◌%◌, ◌^◌, ◌≤◌, ◌<◌, ◌≡◌, ◌≢◌, ◌⊎◌, inl, inr, refl, sym, ap, ◌∙◌, arith, Bool-cases,
  ◌∷◌, All, ◌==◌, ==_iff, lt→ltb, update, update-ne, update_self, Returns, returns,
}
use os_memory_management.Mmu.{ppn}
use os_memory_management.Frames.{
  Frames, free_frame, decrement_references, get_frame_info, unmap_frame,
}
use os_memory_management.Frames.Counted.{
  IsCounted, hit, hit_one, hit-other, mapped, mapped-update, mapped-pos, used-Avoids, All-update,
}

-- What decrement_references leaves
record Decremented (f : ℕ) (s s' : Frames) : Type 0 where
  refs : (g : ℕ) → s'.references g ≡ update s.references f (s.references f - 1) g
  free :
      ((s.references f ≡ 1) × (s'.free ≡ f ∷ s.free)) ⊎ ((2 ≤ s.references f) × (s'.free ≡ s.free))
  pte : s'.pte ≡ s.pte
  count : s'.count ≡ s.count

decrement_lem :
    (f : ℕ) (s : Frames)
    → 1 ≤ s.references f
    → s.references f < 2 ^ 16
    → Decremented f s (decrement_references f s)
unfolding decrement_references free_frame
decrement_lem f s pos small =
    let n : (s.references f + 2 ^ 16 - 1) % 2 ^ 16 ≡ s.references f - 1 = omega arith in
    elim (Bool-cases (s.references f - 1 == 0)) [
      | inl last ↦
          rw (n, last)
            record {
              refs = λ g. ground (arith, last);
              free = inl (ground (arith, last), refl);
              pte = refl;
              count = refl;
            }
      | inr more ↦
          rw (n, more)
            record {
              refs = λ g. refl;
              free = inr (ground (arith, more), refl);
              pte = refl;
              count = refl;
            }
    ]

-- The state after the page has been unmapped from its frame
abbrev unmapped : ℕ → Frames → Frames
unmapped k s = record s { pte = update s.pte k 0 }

unmapped-counts :
    (pages k : ℕ) (pins : ℕ → ℕ) (s s' : Frames)
    → IsCounted pages pins s
    → k < pages
    → s.pte k ≢ 0
    → Decremented (ppn (s.pte k)) s s'
    → (g : ℕ) → s'.references g ≡ pins g + mapped pages g (update s.pte k 0)
unmapped-counts pages k pins s s' v lt ne d g = elim (Bool-cases (ppn (s.pte k) == g)) [
  | inl same ↦
      let e : ppn (s.pte k) ≡ g = (==_iff (ppn (s.pte k)) g).0 same in
      let one : hit g (s.pte k) ≡ 1 = subst (λ f. hit f (s.pte k) ≡ 1) e (hit_one (s.pte k) ne) in
      let now : s'.references g ≡ s.references g - 1 =
        d.refs g
        ∙ subst (λ f. update s.references f (s.references f - 1) g ≡ s.references g - 1) (sym e)
            (update_self s.references g (s.references g - 1)) in
      omega (arith, now, one, v.counts g, mapped-update pages g k 0 s.pte lt)
  | inr other ↦
      let ne' : ppn (s.pte k) ≢ g = λ e. ground (arith, other, e) in
      let now =
        d.refs g
        ∙ update-ne s.references (ppn (s.pte k)) g (s.references (ppn (s.pte k)) - 1) ne' in
      omega (arith, now, hit-other g (s.pte k) ne', v.counts g, mapped-update pages g k 0 s.pte lt)
]

used_pos :
    (pages k : ℕ) (pins : ℕ → ℕ) (s : Frames)
    → IsCounted pages pins s
    → k < pages
    → s.pte k ≢ 0
    → 1 ≤ s.references (ppn (s.pte k))
used_pos pages k pins s v lt ne = omega (
  arith,
  v.counts (ppn (s.pte k)),
  mapped-pos pages (ppn (s.pte k)) k s.pte lt (hit_one (s.pte k) ne),
)

unmapped-IsCounted :
    (pages k : ℕ) (pins : ℕ → ℕ) (s s' : Frames)
    → IsCounted pages pins s
    → k < pages
    → s.pte k ≢ 0
    → Decremented (ppn (s.pte k)) s s'
    → IsCounted pages pins (unmapped k s')
unmapped-IsCounted pages k pins s s' v lt ne d =
    let f = ppn (s.pte k) in
    let pos = used_pos pages k pins s v lt ne in
    let out = used-Avoids s.references f s.free pos v.unused in
    let others : All (λ g. s'.references g ≡ 0) s.free =
      subst (λ r. All (λ g. r g ≡ 0) s.free) (fun_ext (λ g. sym (d.refs g)))
        (All-update s.references f (s.references f - 1) s.free out v.unused) in
    let here : s'.references f ≡ s.references f - 1 =
      d.refs f ∙ update_self s.references f (s.references f - 1) in
    record {
      counts = λ g. rw d.pte (unmapped-counts pages k pins s s' v lt ne d g);
      small = λ g. elim (Bool-cases (g == f)) [
        | inl same ↦
            let e : g ≡ f = (==_iff g f).0 same in
            subst (λ a. s'.references a < 2 ^ 16) (sym e) (omega (arith, here, v.small f))
        | inr other ↦ omega (
          arith,
          d.refs g,
          update-ne s.references f g (s.references f - 1) (λ e. ground (arith, other, e)),
          v.small g,
        )
      ];
      present = λ q. elim (Bool-cases (q == k)) [
        | inl same ↦ inl (ground (arith, same))
        | inr other ↦
            let e : update s'.pte k 0 q ≡ s.pte q =
              update-ne s'.pte k q 0 (λ e. ground (arith, other, e))
              ∙ ap (λ (p : ℕ → ℕ). p q) d.pte in
            rw (e, d.count) (v.present q)
      ];
      unused = elim d.free [
        | inl last ↦ rw last.1 (omega (arith, here, last.0), others)
        | inr more ↦ rw more.1 others
      ];
      distinct = elim d.free [
        | inl last ↦ rw last.1 (out, v.distinct)
        | inr more ↦ rw more.1 v.distinct
      ];
    }

-- What becomes of the frame `f` that a page loses: it goes in front of the free ones where the page was
-- its last reference, and otherwise the free frames stay, with one reference less.
pub data Loses (f : ℕ) (s s' : Frames) : Type 0 where
  becomes_free : s.references f ≡ 1 → s'.references f ≡ 0 → s'.free ≡ f ∷ s.free → Loses f s s'
  stays_used :
      2 ≤ s.references f → s'.references f + 1 ≡ s.references f → s'.free ≡ s.free → Loses f s s'

-- What unmap_frame leaves: only the entry of the page changes, and is 0.
pub record Unmapped (pages va : ℕ) (pins : ℕ → ℕ) (s s' : Frames) : Type 0 where
  pub counted : IsCounted pages pins s'
  pub entries : (q : ℕ) → s'.pte q ≡ update s.pte (ppn va) 0 q
  pub frames : s'.count ≡ s.count
  pub frees :
      ((s.pte (ppn va) ≡ 0) × (s'.free ≡ s.free))
      ⊎ ((s.pte (ppn va) ≢ 0) × Loses (ppn (s.pte (ppn va))) s s')
  pub same_refs : (f : ℕ) → f ≢ ppn (s.pte (ppn va)) → s'.references f ≡ s.references f

Decremented-Loses : (f k : ℕ) (s s' : Frames) → Decremented f s s' → Loses f s (unmapped k s')
Decremented-Loses f k s s' d =
    let here = d.refs f ∙ update_self s.references f (s.references f - 1) in
    elim d.free [
      | inl last ↦ becomes_free last.0 (omega (arith, here, last.0)) last.1
      | inr more ↦ stays_used more.0 (omega (arith, here, more.0)) more.1
    ]

pub update-same : (f : ℕ → ℕ) (k q : ℕ) → f k ≡ 0 → f q ≡ update f k 0 q
update-same f k q e = elim (Bool-cases (q == k)) [
  | inl same ↦ rw same (ap f ((==_iff q k).0 same) ∙ e)
  | inr other ↦ rw other refl
]

-- unmap_frame keeps the reference counts: every frame's count is the number of the pages mapped to it and
-- of its other references. The frame of a mapped page loses one; it goes in front of the free frames where
-- that was the last, and otherwise the free frames stay, as they do where the page is not mapped. It clears the page's entry and
-- changes no other.
pub unmap_frame-Unmapped :
    (pages va : ℕ) (pins : ℕ → ℕ) (s : Frames)
    → IsCounted pages pins s
    → ppn va < pages
    → Returns (Unmapped pages va pins s) (unmap_frame va s)
unfolding unmap_frame get_frame_info
unmap_frame-Unmapped pages va pins s v lt = elim (Bool-cases (s.pte (ppn va) == 0)) [
  | inl unused ↦ rw unused (
      returns s refl record {
        counted = v;
        entries = λ q. update-same s.pte (ppn va) q (ground (arith, unused));
        frames = refl;
        frees = inl (ground (arith, unused), refl);
        same_refs = λ f ne. refl;
      })
  | inr used ↦
      let ne : s.pte (ppn va) ≢ 0 = ground (arith, used) in
      let f = ppn (s.pte (ppn va)) in
      let d = decrement_lem f s (used_pos pages (ppn va) pins s v lt ne) (v.small f) in
      elim (v.present (ppn va)) [
        | inl e ↦ absurd (ne e)
        | inr (p, below) ↦
            rw (used, lt→ltb _ _ below)
              (returns (unmapped (ppn va) (decrement_references f s)) refl record {
                counted = unmapped-IsCounted pages (ppn va) pins s _ v lt ne d;
                entries = λ q. ap (λ p. update p (ppn va) 0 q) d.pte;
                frames = d.count;
                frees = inr (ne, Decremented-Loses f (ppn va) s _ d);
                same_refs = λ g other. d.refs g ∙ update-ne s.references f g _ (λ e. other (sym e));
              })
      ]
]
