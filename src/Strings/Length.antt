-- ===== src/Strings/Length.antt =====
-- The length of a string, and its copy.
use os_memory_management.Base.{
  ℕ, zero, suc, ◌+◌, ◌≤◌, ◌<◌, ◌≡◌, ◌≢◌, ◌⊎◌, refl, sym, ap, ◌∙◌, arith, false, ◌==◌, update,
  update-ne, ok, Returns, returns,
}
use os_memory_management.Strings.{Memory, strlen, strlen_loop, strcpy, copy_up}
use os_memory_management.Strings.Move.{Moved, copy_up-Moved}

-- The string at `s` has `n` characters.
pub record IsString (m : Memory) (s n : ℕ) : Type 0 where
  pub full : (j : ℕ) → j < n → m (s + j) ≢ 0
  pub end : m (s + n) ≡ 0

first_char : (m : Memory) (s n : ℕ) → IsString m s (suc n) → (m s == 0) ≡ false
first_char m s n v =
    let ne : m s ≢ 0 = λ e. v.full 0 (omega arith) (ap m (omega arith) ∙ e) in ground (arith, ne)

next-IsString : (m : Memory) (s n : ℕ) → IsString m s (suc n) → IsString m (s + 1) n
next-IsString m s n v = record {
  full = λ j lt e. v.full (suc j) (omega arith) (ap m (omega arith) ∙ e);
  end = ap m (omega arith) ∙ v.end;
}

strlen_loop_lem :
    (n fuel k s : ℕ) (m : Memory) → IsString m s n → n < fuel → strlen_loop fuel k s m ≡ ok (k + n)
unfolding strlen_loop
strlen_loop_lem n zero k s m v enough = absurd (omega arith)
strlen_loop_lem zero (suc fuel) k s m v enough =
    let e : m s ≡ 0 = ap m (omega arith) ∙ v.end in rw e (ap ok (omega arith))
strlen_loop_lem (suc n) (suc fuel) k s m v enough = rw (first_char m s n v) (
    strlen_loop_lem n fuel (k + 1) (s + 1) m (next-IsString m s n v) (omega arith)
    ∙ ap ok (omega arith))

-- strlen returns the number of bytes before the first null byte, where the memory it may read has one.
strlen_lem : (n fuel s : ℕ) (m : Memory) → IsString m s n → n < fuel → strlen fuel s m ≡ ok n
unfolding strlen
strlen_lem n fuel s m v enough = strlen_loop_lem n fuel 0 s m v enough ∙ ap ok (omega arith)

IsString-update :
    (m : Memory) (s n d x : ℕ)
    → (d < s) ⊎ (s + n < d)
    → IsString m s n
    → IsString (update m d x) s n
IsString-update m s n d x out v = record {
  full = λ j lt e. v.full j lt (sym (update-ne m d (s + j) x (λ q. ground arith)) ∙ e);
  end = update-ne m d (s + n) x (λ q. ground arith) ∙ v.end;
}

strcpy-copy_up :
    (n fuel dst src : ℕ) (m : Memory)
    → IsString m src n
    → (dst ≤ src) ⊎ (src + (n + 1) ≤ dst)
    → n < fuel
    → strcpy fuel dst src m ≡ ok (copy_up (n + 1) dst src m)
unfolding strcpy copy_up
strcpy-copy_up n zero dst src m v apart enough = absurd (omega arith)
strcpy-copy_up zero (suc fuel) dst src m v apart enough =
    let e : m src ≡ 0 = ap m (omega arith) ∙ v.end in rw e refl
strcpy-copy_up (suc n) (suc fuel) dst src m v apart enough = rw (first_char m src n v) (
    strcpy-copy_up n fuel (dst + 1) (src + 1) _
      (IsString-update m (src + 1) n dst _ (ground arith) (next-IsString m src n v)) (ground arith)
      (omega arith)
    ∙ ap (λ k. ok (copy_up k dst src m)) {x = suc (n + 1)} {y = suc n + 1} (omega arith))

-- strcpy copies the string with its null byte, and changes no byte outside the copy. The
-- target does not begin within the source, behind its first byte, and the memory it may read holds the string.
strcpy-Moved :
    (n fuel dst src : ℕ) (m : Memory)
    → IsString m src n
    → (dst ≤ src) ⊎ (src + (n + 1) ≤ dst)
    → n < fuel
    → Returns (Moved dst src (n + 1) m) (strcpy fuel dst src m)
strcpy-Moved n fuel dst src m v apart enough =
    returns _ (strcpy-copy_up n fuel dst src m v apart enough)
      (copy_up-Moved (n + 1) dst src m apart)
