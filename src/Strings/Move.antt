-- ===== src/Strings/Move.antt =====
-- The moves of blocks: every byte of the target is the byte that the source had before.
use native.Mathlib.Decide.{dec_lt}
use os_memory_management.Base.{
  ℕ, zero, suc, ◌+◌, ◌-◌, ◌%◌, ◌^◌, ◌≤◌, ◌<◌, ◌≡◌, ◌⊎◌, refl, ap, ◌∙◌, inl, inr, arith, ◌&&◌,
  Bool-cases, ltb, leb, if◌then◌else◌, update, update_self, update-ne,
}
use os_memory_management.Strings.{Memory, fill, memset, copy_up, copy_down, memcpy, memmove}

-- `n` bytes at `dst` are what `m` has at `src`, and all others are unchanged.
pub record Moved (dst src n : ℕ) (m m' : Memory) : Type 0 where
  pub target : (j : ℕ) → j < n → m' (dst + j) ≡ m (src + j)
  pub rest : (a : ℕ) → (a < dst) ⊎ (dst + n ≤ a) → m' a ≡ m a

pub copy_up-Moved :
    (n d s : ℕ) (m : Memory) → (d ≤ s) ⊎ (s + n ≤ d) → Moved d s n m (copy_up n d s m)
unfolding copy_up
copy_up-Moved zero d s m apart = record {
  target = λ j lt. absurd (omega arith);
  rest = λ a out. refl;
}
copy_up-Moved (suc n) d s m apart =
    let m' = copy_up n (d + 1) (s + 1) (update m d (m s)) in
    let v = copy_up-Moved n (d + 1) (s + 1) (update m d (m s)) (ground arith) in
    record {
      target = λ j lt. elim (dec_lt 0 j) [
        | yes pos ↦
            ap m' (omega arith)
            ∙ v.target (j - 1) (omega arith)
            ∙ update-ne m d (s + 1 + (j - 1)) _ (λ e. ground arith)
            ∙ ap m (omega arith)
        | no first ↦
            ap m' (omega arith)
            ∙ v.rest d (inl (omega arith))
            ∙ update_self m d _
            ∙ ap m (omega arith)
      ];
      rest = λ a out. v.rest a (ground arith) ∙ update-ne m d a _ (λ e. ground arith);
    }

copy_down-Moved : (n d s : ℕ) (m : Memory) → s < d → Moved d s n m (copy_down n (d + n) (s + n) m)
unfolding copy_down
copy_down-Moved zero d s m lt = record {
  target = λ j lt'. absurd (omega arith);
  rest = λ a out. refl;
}
copy_down-Moved (suc n) d s m lt =
    let m' = copy_down n (d + n) (s + n) (update m (d + n) (m (s + n))) in
    let ed : d + suc n - 1 ≡ d + n = omega arith in
    let es : s + suc n - 1 ≡ s + n = omega arith in
    let v = copy_down-Moved n d s (update m (d + n) (m (s + n))) lt in
    rw (ed, es)
      record {
        target = λ j le. elim (dec_lt j n) [
          | yes before ↦ v.target j before ∙ update-ne m (d + n) (s + j) _ (λ e. omega arith)
          | no last ↦
              ap m' (omega arith)
              ∙ v.rest (d + n) (inr (omega arith))
              ∙ update_self m (d + n) _
              ∙ ap m (omega arith)
        ];
        rest = λ a out. v.rest a (ground arith) ∙ update-ne m (d + n) a _ (λ e. ground arith);
      }

-- memmove copies the bytes that the source has before the call, wherever the two blocks overlap, and
-- changes no byte outside the target.
pub memmove-Moved : (dst src n : ℕ) (m : Memory) → Moved dst src n m (memmove dst src n m)
unfolding memmove
memmove-Moved dst src n m = elim (Bool-cases (ltb src dst && ltb dst (src + n))) [
  | inl behind ↦ rw behind (copy_down-Moved n dst src m (ground (arith, behind)))
  | inr apart ↦ rw apart (copy_up-Moved n dst src m (ground (arith, apart)))
]

-- memcpy does so where the target does not begin within the source, behind its first byte.
memcpy-Moved :
    (dst src n : ℕ) (m : Memory)
    → (dst ≤ src) ⊎ (src + n ≤ dst)
    → Moved dst src n m (memcpy dst src n m)
unfolding memcpy
memcpy-Moved dst src n m apart = copy_up-Moved n dst src m apart

fill_lem :
    (n p c : ℕ) (m : Memory) (a : ℕ)
    → fill n p c m a ≡ (if leb p a && ltb a (p + n) then c % 256 else m a)
unfolding fill
fill_lem zero p c m a = ground arith
fill_lem (suc n) p c m a = fill_lem n (p + 1) c (update m p (c % 256)) a ∙ ground arith

-- memset sets the bytes of the block to the low byte of `c` and changes no other, for a count below
-- 2^31; from there on it changes nothing.
memset_lem :
    (v c n : ℕ) (m : Memory) (a : ℕ)
    → memset v c n m a ≡ (if ltb n (2 ^ 31) && (leb v a && ltb a (v + n)) then c % 256 else m a)
unfolding memset
memset_lem v c n m a = elim (Bool-cases (ltb n (2 ^ 31))) [
  | inl small ↦ rw small (fill_lem n v c m a)
  | inr large ↦ rw large refl
]
