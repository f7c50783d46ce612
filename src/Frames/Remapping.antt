-- ===== src/Frames/Remapping.antt =====
-- map_frame keeps the reference counts.
use mathlib.Core.Path.{subst}
use os_memory_management.Base.{
  ℕ, ◌+◌, ◌%◌, ◌^◌, ◌<◌, ◌≡◌, ◌≢◌, ◌⊎◌, inl, inr, refl, sym, ap, ◌∙◌, arith, true, false,
  Bool-cases, Avoids, ◌==◌, ==_iff, update, update-ne, update_self, Returns, returns,
}
use os_memory_management.Mmu.{is_present, ppn}
use os_memory_management.Frames.{Frames, add_mapping, frame_entry, map_frame}
use os_memory_management.Frames.Counted.{
  IsCounted, hit, hit_one, hit-other, mapped, mapped-update, All-update,
}
use os_memory_management.Frames.Mapping.{
  Loses, becomes_free, stays_used, unmap_frame-Unmapped, update-same,
}

entry_lem :
    (f perm : ℕ)
    → f < 2 ^ 20
    → perm < 4096
    → (ppn (frame_entry f perm) ≡ f)
      × (is_present (frame_entry f perm) ≡ true)
      × (frame_entry f perm ≢ 0)
entry_lem f perm small p = elim (Bool-cases (is_present perm)) [
  | inl odd ↦
      let o : perm % 2 ≡ 1 = ground (arith, odd) in
      rw odd (omega (arith, small, p), ground (arith, o, small, p), λ e. omega (arith, e, o))
  | inr even ↦
      let o : perm % 2 ≡ 0 = ground (arith, even) in
      rw even (omega (arith, small, p, o), ground (arith, o, small, p), λ e. omega (arith, e, o))
]

-- The frame may be mapped at a page: it exists, is not free, and its count has room.
pub record CanMap (f perm : ℕ) (s : Frames) : Type 0 where
  pub exists : f < s.count
  pub small : f < 2 ^ 20
  pub permissions : perm < 4096
  pub not_free : Avoids f s.free
  pub room : s.references f + 1 < 2 ^ 16

add_mapping-IsCounted :
    (pages f va perm : ℕ) (pins : ℕ → ℕ) (s : Frames)
    → IsCounted pages pins s
    → ppn va < pages
    → s.pte (ppn va) ≡ 0
    → CanMap f perm s
    → IsCounted pages pins (add_mapping f va perm s)
add_mapping-IsCounted pages f va perm pins s v lt zero_entry can =
    let k = ppn va in
    let e = frame_entry f perm in
    let (number, present, ne) = entry_lem f perm can.small can.permissions in
    let n : (s.references f + 1) % 2 ^ 16 ≡ s.references f + 1 = omega (arith, can.room) in
    let old : (g : ℕ) → hit g (s.pte k) ≡ 0 = λ g. rw zero_entry refl in
    let one : hit f e ≡ 1 = subst (λ a. hit a e ≡ 1) number (hit_one e ne) in
    record {
      counts = λ g. elim (Bool-cases (g == f)) [
        | inl same ↦
            subst
              (λ a.
                (update s.references f ((s.references f + 1) % 2 ^ 16)) a
                ≡ pins a + mapped pages a (update s.pte k e))
              (sym ((==_iff g f).0 same))
              (omega (
                arith,
                update_self s.references f ((s.references f + 1) % 2 ^ 16),
                n,
                v.counts f,
                old f,
                one,
                mapped-update pages f k e s.pte lt,
              ))
        | inr other ↦
            let ne' : f ≢ g = λ q. ground (arith, other, q) in
            omega (
              arith,
              update-ne s.references f g ((s.references f + 1) % 2 ^ 16) ne',
              v.counts g,
              old g,
              hit-other g e (λ q. ne' (sym number ∙ q)),
              mapped-update pages g k e s.pte lt,
            )
      ];
      small = λ g. elim (Bool-cases (g == f)) [
        | inl same ↦ rw same (omega (arith, n, can.room))
        | inr other ↦ rw other (v.small g)
      ];
      present = λ q. elim (Bool-cases (q == k)) [
        | inl same ↦ rw same (inr (present, subst (λ a. a < s.count) (sym number) can.exists))
        | inr other ↦ rw other (v.present q)
      ];
      unused =
          All-update s.references f ((s.references f + 1) % 2 ^ 16) s.free can.not_free v.unused;
      distinct = v.distinct;
    }

-- What map_frame leaves: the page is mapped to the frame, and no other entry changes.
pub record Mapped (pages f va : ℕ) (pins : ℕ → ℕ) (s s' : Frames) : Type 0 where
  pub counted : IsCounted pages pins s'
  pub here : (is_present (s'.pte (ppn va)) ≡ true) × (ppn (s'.pte (ppn va)) ≡ f)
  pub others : (q : ℕ) → q ≢ ppn va → s'.pte q ≡ s.pte q
  pub frees :
      (((s.pte (ppn va) ≡ 0) ⊎ (ppn (s.pte (ppn va)) ≡ f)) × (s'.free ≡ s.free))
      ⊎ ((s.pte (ppn va) ≢ 0) × (ppn (s.pte (ppn va)) ≢ f) × Loses (ppn (s.pte (ppn va))) s s')

added :
    (pages f va perm : ℕ) (pins : ℕ → ℕ) (s s1 : Frames)
    → IsCounted pages pins s1
    → ppn va < pages
    → CanMap f perm s1
    → ((q : ℕ) → s1.pte q ≡ update s.pte (ppn va) 0 q)
    → (((s.pte (ppn va) ≡ 0) ⊎ (ppn (s.pte (ppn va)) ≡ f)) × (s1.free ≡ s.free))
      ⊎ ((s.pte (ppn va) ≢ 0)
          × (ppn (s.pte (ppn va)) ≢ f)
          × Loses (ppn (s.pte (ppn va))) s (add_mapping f va perm s1))
    → Mapped pages f va pins s (add_mapping f va perm s1)
added pages f va perm pins s s1 v lt can entries frees =
    let zero_entry = entries (ppn va) ∙ update_self s.pte (ppn va) 0 in
    let (number, present, ne) = entry_lem f perm can.small can.permissions in
    let now = update_self s1.pte (ppn va) (frame_entry f perm) in
    record {
      counted = add_mapping-IsCounted pages f va perm pins s1 v lt zero_entry can;
      here = (ap is_present now ∙ present, ap ppn now ∙ number);
      others = λ q ne'.
          update-ne s1.pte (ppn va) q (frame_entry f perm) (λ e. ne' (sym e))
          ∙ entries q
          ∙ update-ne s.pte (ppn va) q 0 (λ e. ne' (sym e));
      frees = frees;
    }

-- A reference to another frame changes nothing of what becomes of a frame.
Loses-add :
    (f va perm g : ℕ) (s s1 : Frames) → g ≢ f → Loses g s s1 → Loses g s (add_mapping f va perm s1)
Loses-add f va perm g s s1 ne (becomes_free a b c) =
    becomes_free a (update-ne s1.references f g _ (λ e. ne (sym e)) ∙ b) c
Loses-add f va perm g s s1 ne (stays_used a b c) =
    stays_used a (ap (λ n. n + 1) (update-ne s1.references f g _ (λ e. ne (sym e))) ∙ b) c

Loses-Avoids : (f g : ℕ) (s s1 : Frames) → f ≢ g → Loses g s s1 → Avoids f s.free → Avoids f s1.free
Loses-Avoids f g s s1 ne (becomes_free a b c) out = rw c ((λ e. ne (sym e)), out)
Loses-Avoids f g s s1 ne (stays_used a b c) out = rw c out

-- map_frame ends, with the page mapped to the frame and all other entries unchanged, and keeps the
-- reference counts: where the page was mapped to another frame, that one loses a reference, and goes in
-- front of the free frames where this was the last; otherwise the free frames stay. The frame exists, is not free, and its count has room.
pub map_frame-Mapped :
    (pages f va perm : ℕ) (pins : ℕ → ℕ) (s : Frames)
    → IsCounted pages pins s
    → ppn va < pages
    → CanMap f perm s
    → Returns (Mapped pages f va pins s) (map_frame f va perm s)
unfolding map_frame
map_frame-Mapped pages f va perm pins s v lt can = elim (v.present (ppn va)) [
  | inl unused ↦
      let absent : is_present (s.pte (ppn va)) ≡ false = rw unused refl in
      rw absent (
        returns (add_mapping f va perm s) refl (
          added pages f va perm pins s s v lt can (λ q. update-same s.pte (ppn va) q unused)
            (inl (inl unused, refl))))
  | inr (p, below) ↦ elim (Bool-cases (ppn (s.pte (ppn va)) == f)) [
    | inl same ↦
        rw (p, same)
          (returns s refl record {
            counted = v;
            here = (p, (==_iff _ f).0 same);
            others = λ q ne. refl;
            frees = inl (inr ((==_iff _ f).0 same), refl);
          })
    | inr other ↦
        let ne : f ≢ ppn (s.pte (ppn va)) = λ e. ground (arith, other, e) in
        elim (unmap_frame-Unmapped pages va pins s v lt) [
          | returns s1 e u ↦
              let can' : CanMap f perm s1 = record {
                exists = rw u.frames can.exists;
                small = can.small;
                permissions = can.permissions;
                not_free = elim u.frees [
                  | inl (z, q) ↦ rw q can.not_free
                  | inr (z, loses) ↦ Loses-Avoids f _ s s1 ne loses can.not_free
                ];
                room = rw (u.same_refs f ne) can.room;
              } in
              rw (p, other, e)
                (returns (add_mapping f va perm s1) refl (
                  added pages f va perm pins s s1 u.counted lt can' u.entries (elim u.frees [
                    | inl (z, q) ↦ absurd (ground (arith, z, p))
                    | inr (z, loses) ↦
                        inr
                          (z, (λ e. ne (sym e)), Loses-add f va perm _ s s1 (λ e. ne (sym e)) loses)
                  ])))
        ]
  ]
]
