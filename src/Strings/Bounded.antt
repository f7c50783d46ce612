-- ===== src/Strings/Bounded.antt =====
-- strlcpy stays within the size it is given, and ends the copy with a null byte.
use os_memory_management.Base.{
  ℕ, zero, suc, ◌+◌, ◌-◌, ◌≤◌, ◌<◌, ◌≡◌, ◌⊎◌, refl, ap, ◌∙◌, inl, inr, arith, Bool-cases, ◌==◌,
  update, update_self, update-ne,
}
use os_memory_management.Strings.{Memory, strlcpy, strlcpy_loop}

-- The loop ends at most `left` bytes further, and has written only below its end.
record Copied (dst left : ℕ) (m : Memory) (r : ℕ × Memory) : Type 0 where
  low : dst ≤ r.0
  high : r.0 ≤ dst + left
  rest : (a : ℕ) → (a < dst) ⊎ (r.0 ≤ a) → r.1 a ≡ m a

strlcpy_loop-Copied :
    (left dst src : ℕ) (m : Memory) → Copied dst left m (strlcpy_loop left dst src m)
unfolding strlcpy_loop
strlcpy_loop-Copied zero dst src m = record {
  low = omega arith;
  high = omega arith;
  rest = λ a out. refl;
}
strlcpy_loop-Copied (suc left) dst src m = elim (Bool-cases (m src == 0)) [
  | inl end ↦ rw end record { low = omega arith; high = omega arith; rest = λ a out. refl }
  | inr more ↦
      let v = strlcpy_loop-Copied left (dst + 1) (src + 1) (update m dst (m src)) in
      rw more record {
        low = omega (arith, v.low);
        high = omega (arith, v.high);
        rest = λ a out.
            v.rest a (ground (arith, out))
            ∙ update-ne m dst a (m src) (λ e. ground (arith, out, v.low));
      }
]

-- strlcpy with a size that is not 0 copies fewer bytes than the size, puts a null byte behind them, and
-- changes no byte outside the `size` bytes from the target on.
pub strlcpy_bound :
    (dst src size : ℕ) (m : Memory)
    → 0 < size
    → let r = strlcpy dst src size m in
      (r.0 < size) × (r.1 (dst + r.0) ≡ 0) × ((a : ℕ) → (a < dst) ⊎ (dst + size ≤ a) → r.1 a ≡ m a)
unfolding strlcpy
strlcpy_bound dst src zero m pos = absurd (omega arith)
strlcpy_bound dst src (suc size) m pos =
    let r = strlcpy_loop size dst src m in
    let v = strlcpy_loop-Copied size dst src m in
    (
      omega (arith, v.low, v.high),
      ap (update r.1 r.0 0) {x = dst + (r.0 - dst)} {y = r.0} (omega (arith, v.low))
          ∙ update_self r.1 r.0 0,
      λ a out.
          update-ne r.1 r.0 a 0 (λ e. ground (arith, out, v.low, v.high))
          ∙ v.rest a (ground (arith, out, v.low, v.high)),
    )
