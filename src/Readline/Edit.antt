-- ===== src/Readline/Edit.antt =====
-- readline is a line editor: what it leaves in the buffer is the line as it was edited.
use mathlib.Core.Path.{subst}
use os_memory_management.Base.{
  ℕ, suc, ◌+◌, ◌-◌, ◌%◌, ◌≤◌, ◌<◌, ◌≡◌, refl, ap, ◌∙◌, ◌⊎◌, inl, inr, arith, true, false,
  Bool-cases, ◌&&◌, ◌||◌, List, [], ◌∷◌, ltb, leb, ◌==◌, if◌then◌else◌, Option, some, none, length,
  update, update_self, update-ne, Returns, returns,
}
use os_memory_management.Strings.{Memory}
use os_memory_management.Readline.{
  Input, typed, failed, Reader, max_line, echoed, read_loop, readline, atomic_readline,
}

some_injective : (a b : List ℕ) → some a ≡ some b → a ≡ b
some_injective a b e = ap (λ (o : Option (List ℕ)). elim o [ none ↦ [] | some l ↦ l ]) e

-- The state after a character is stored.
abbrev stored : ℕ → ℕ → ℕ → Reader → Reader
stored buf c i s = record (echoed c s) { memory = update s.memory (buf + i) (c % 256) }

abbrev rest_of : List ℕ → List ℕ
rest_of [] = []
rest_of (c ∷ line) = line

-- A line editor: the line is a list with the last character first, and a character is dropped where the
-- line is full.
abbrev pub edit : List Input → List ℕ → Option (List ℕ)
edit [] line = none
edit (failed ∷ rest) line = none
edit (typed c ∷ rest) line =
    if leb 32 c && ltb (length line) max_line
    then edit rest ((c % 256) ∷ line)
    else (if c == 8 && ltb 0 (length line)
        then edit rest (rest_of line)
        else (if c == 10 || c == 13 then some line else edit rest line))

-- The bytes before `p` are the line.
abbrev pub Before : Memory → ℕ → List ℕ → Type 0
Before m p [] = Unit
Before m p (c ∷ line) = (m (p - 1) ≡ c) × Before m (p - 1) line

-- The buffer holds the line as a string, and nothing outside it is written.
pub record HasLine (buf : ℕ) (m : Memory) (line : List ℕ) (m' : Memory) : Type 0 where
  pub fits : length line ≤ max_line
  pub text : Before m' (buf + length line) line
  pub null : m' (buf + length line) ≡ 0
  pub outside : (a : ℕ) → (a < buf) ⊎ (buf + (max_line + 1) ≤ a) → m' a ≡ m a

-- A write from `p` on leaves what is before `p`.
Before-update :
    (m : Memory) (p q v : ℕ) (line : List ℕ)
    → length line ≤ q
    → q ≤ p
    → Before m q line
    → Before (update m p v) q line
Before-update m p q v [] short le h = tt
Before-update m p q v (c ∷ line) short le (here, h) = (
  update-ne m p (q - 1) v (λ e. omega arith) ∙ here,
  Before-update m p (q - 1) v line (omega arith) (omega arith) h,
)

module _ (buf : ℕ) where
  -- The state while the line is edited.
  record Editing (m : Memory) (line : List ℕ) (m' : Memory) : Type 0 where
    fits : length line ≤ max_line
    text : Before m' (buf + length line) line
    outside : (a : ℕ) → (a < buf) ⊎ (buf + (max_line + 1) ≤ a) → m' a ≡ m a

  write :
      (m : Memory) (line : List ℕ) (m' : Memory) (c : ℕ)
      → Editing m line m'
      → length line < max_line
      → Editing m (c ∷ line) (update m' (buf + length line) c)
  write m line m' c v room = record {
    fits = omega arith;
    text = (
      ap (update m' (buf + length line) c) (omega arith) ∙ update_self m' (buf + length line) c,
      subst (λ p. Before (update m' (buf + length line) c) p line) {x = buf + length line}
          {y = buf + suc (length line) - 1} (omega arith)
          (Before-update m' (buf + length line) (buf + length line) c line (omega arith)
            (omega arith) v.text),
    );
    outside = λ a out.
        update-ne m' (buf + length line) a c (λ e. ground (arith, out, v.fits)) ∙ v.outside a out;
  }

  end :
      (m : Memory) (line : List ℕ) (m' : Memory)
      → Editing m line m'
      → HasLine buf m line (update m' (buf + length line) 0)
  end m line m' v = record {
    fits = v.fits;
    text =
        Before-update m' (buf + length line) (buf + length line) 0 line (omega arith) (omega arith)
          v.text;
    null = update_self m' (buf + length line) 0;
    outside = λ a out.
        update-ne m' (buf + length line) a 0 (λ e. ground (arith, out, v.fits)) ∙ v.outside a out;
  }

  -- A character goes.
  erase :
      (m : Memory) (line : List ℕ) (m' : Memory) → Editing m line m' → Editing m (rest_of line) m'
  erase m [] m' v = v
  erase m (c ∷ line) m' v = record {
    fits = omega (arith, v.fits);
    text =
        subst (λ p. Before m' p line) {x = buf + suc (length line) - 1} {y = buf + length line}
          (omega arith) v.text.1;
    outside = v.outside;
  }

  length-rest_of : (line : List ℕ) → length (rest_of line) ≡ length line - 1
  length-rest_of [] = refl
  length-rest_of (c ∷ line) = omega arith

  read_loop-HasLine :
      (inputs : List Input) (m : Memory) (line final : List ℕ) (s : Reader)
      → Editing m line s.memory
      → edit inputs line ≡ some final
      → Returns
          (λ s'. HasLine buf m final s'.memory × (s'.enabled ≡ s.enabled))
          (read_loop inputs buf (length line) s)
  unfolding read_loop
  read_loop-HasLine [] m line final s v e = absurd (ground (arith, e))
  read_loop-HasLine (failed ∷ rest) m line final s v e = absurd (ground (arith, e))
  read_loop-HasLine (typed c ∷ rest) m line final s v e =
      let P = λ (s' : Reader). HasLine buf m final s'.memory × (s'.enabled ≡ s.enabled) in
      elim (Bool-cases (leb 32 c && ltb (length line) max_line)) [
        | inl more ↦
            let e' : edit rest ((c % 256) ∷ line) ≡ some final = rw more at e in
            rw more (
              subst (λ k. Returns P (read_loop rest buf k (stored buf c (length line) s)))
                {x = suc (length line)} {y = length line + 1} (omega arith)
                (read_loop-HasLine rest m ((c % 256) ∷ line) final (stored buf c (length line) s)
                  (write m line s.memory (c % 256) v (ground (arith, more))) e'))
        | inr full ↦ elim (Bool-cases (c == 8 && ltb 0 (length line))) [
          | inl back ↦
              let e' : edit rest (rest_of line) ≡ some final = rw (full, back) at e in
              rw (full, back)
                (subst (λ k. Returns P (read_loop rest buf k (echoed c s))) (length-rest_of line)
                  (read_loop-HasLine rest m (rest_of line) final (echoed c s)
                    (erase m line s.memory v) e'))
          | inr other ↦ elim (Bool-cases (c == 10 || c == 13)) [
            | inl enter ↦
                let e' : some line ≡ some final = rw (full, other, enter) at e in
                rw (full, other, enter)
                  (returns _ refl (
                    subst (λ l. HasLine buf m l (update s.memory (buf + length line) 0))
                        (some_injective line final e') (end m line s.memory v),
                    refl,
                  ))
            | inr else_ ↦
                let e' : edit rest line ≡ some final = rw (full, other, else_) at e in
                rw (full, other, else_) (read_loop-HasLine rest m line final s v e')
          ]
        ]
      ]

  editing : (m : Memory) → Editing m [] m
  editing m = record { fits = omega arith; text = tt; outside = λ a out. refl }

  -- Where the input edits to a line, readline returns with this line as a string in the buffer, and no
  -- byte outside the 1024 of the buffer is written.
  pub readline-HasLine :
      (inputs : List Input) (line : List ℕ) (s : Reader)
      → edit inputs [] ≡ some line
      → Returns (λ s'. HasLine buf s.memory line s'.memory) (readline inputs buf s)
  unfolding readline
  readline-HasLine inputs line s e =
      elim (read_loop-HasLine inputs s.memory [] line s (editing s.memory) e) [
        | returns s' e' (v, _) ↦ returns s' e' v
      ]

  -- atomic_readline does the same, and interrupts are enabled when it returns.
  pub atomic_readline-HasLine :
      (inputs : List Input) (line : List ℕ) (s : Reader)
      → edit inputs [] ≡ some line
      → Returns
          (λ s'. HasLine buf s.memory line s'.memory × (s'.enabled ≡ true))
          (atomic_readline inputs buf s)
  unfolding atomic_readline
  atomic_readline-HasLine inputs line s e =
      elim (read_loop-HasLine inputs s.memory [] line (record s { enabled = false })
        (editing s.memory) e) [ returns s' e' (v, _) ↦ rw e' (returns _ refl (v, refl)) ]
