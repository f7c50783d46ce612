-- ===== src/Frames/Counted.antt =====
-- The reference counts of kern/memory_manager.c: a frame's count is the number of the pages that are mapped
-- to it, and of the references from elsewhere.
use mathlib.Core.Path.{subst}
use os_memory_management.Base.{
  ℕ, zero, suc, ◌+◌, ◌^◌, ◌≤◌, ◌<◌, ◌≡◌, ◌≢◌, ◌⊎◌, inl, inr, refl, sym, ◌∙◌, arith, true, List, [],
  ◌∷◌, All, Avoids, Distinct, ◌==◌, lt_cases, if◌then◌else◌, update, update-ne, update_self,
}
use os_memory_management.Mmu.{is_present, ppn}
use os_memory_management.Frames.{Frames}

-- Whether an entry maps the frame, and how many of the first `n` entries do
abbrev pub hit : ℕ → ℕ → ℕ
hit f e = if e == 0 then 0 else if ppn e == f then 1 else 0

unfoldable pub mapped : ℕ → ℕ → (ℕ → ℕ) → ℕ
mapped zero f pte = 0
mapped (suc n) f pte = mapped n f pte + hit f (pte n)

mapped-above : (n f k v : ℕ) (pte : ℕ → ℕ) → n ≤ k → mapped n f (update pte k v) ≡ mapped n f pte
unfolding mapped
mapped-above zero f k v pte le = refl
mapped-above (suc n) f k v pte le =
    rw (mapped-above n f k v pte (omega arith), update-ne pte k n v (λ e. omega (arith, e))) refl

pub mapped-update :
    (n f k v : ℕ) (pte : ℕ → ℕ)
    → k < n
    → mapped n f (update pte k v) + hit f (pte k) ≡ mapped n f pte + hit f v
unfolding mapped
mapped-update zero f k v pte lt = absurd (omega arith)
mapped-update (suc n) f k v pte lt = elim (lt_cases k n) [
  | inl (inl below) ↦
      rw (update-ne pte k n v (λ e. omega (arith, e, below)))
        (omega (arith, mapped-update n f k v pte below))
  | inl (inr here) ↦
      rw (mapped-above n f k v pte (omega (arith, here)), here, update_self pte n v) (omega arith)
  | inr above ↦ absurd (omega arith)
]

-- In an address space of `pages` pages: each entry in use maps a frame, a frame's count is that of its
-- pages and of its `pins`, and the free frames, which are in the list once, have the count 0.
pub record IsCounted (pages : ℕ) (pins : ℕ → ℕ) (s : Frames) : Type 0 where
  pub counts : (f : ℕ) → s.references f ≡ pins f + mapped pages f s.pte
  pub small : (f : ℕ) → s.references f < 2 ^ 16
  pub present :
      (q : ℕ) → (s.pte q ≡ 0) ⊎ ((is_present (s.pte q) ≡ true) × (ppn (s.pte q) < s.count))
  pub unused : All (λ f. s.references f ≡ 0) s.free
  pub distinct : Distinct s.free

pub hit_one : (e : ℕ) → e ≢ 0 → hit (ppn e) e ≡ 1
hit_one e ne = ground arith

pub hit-other : (f e : ℕ) → ppn e ≢ f → hit f e ≡ 0
hit-other f e ne = ground arith

pub mapped-pos : (n f k : ℕ) (pte : ℕ → ℕ) → k < n → hit f (pte k) ≡ 1 → 1 ≤ mapped n f pte
mapped-pos n f k pte lt one = omega (arith, one, mapped-update n f k 0 pte lt)

-- A frame that is in use is not free.
pub used-Avoids :
    (references : ℕ → ℕ) (f : ℕ) (fs : List ℕ)
    → 1 ≤ references f
    → All (λ g. references g ≡ 0) fs
    → Avoids f fs
used-Avoids references f [] pos h = tt
used-Avoids references f (g ∷ fs) pos h = (
  (λ e. omega (arith, h.0, subst (λ a. 1 ≤ references a) (sym e) pos)),
  used-Avoids references f fs pos h.1,
)

pub All-update :
    (references : ℕ → ℕ) (f v : ℕ) (fs : List ℕ)
    → Avoids f fs
    → All (λ g. references g ≡ 0) fs
    → All (λ g. update references f v g ≡ 0) fs
All-update references f v [] out h = tt
All-update references f v (g ∷ fs) out h =
    (update-ne references f g v (λ e. out.0 (sym e)) ∙ h.0, All-update references f v fs out.1 h.1)
