-- ===== src/Strings/Words.antt =====
-- strsplit of lib/string.c, which cuts a command into its words. `sep` says whether strchr finds a character
-- in SPLIT_CHARS. The arguments are the list of the addresses stored in `argv`.
use os_memory_management.Base.{
  ℕ, zero, suc, ◌+◌, ◌≤◌, ◌<◌, ◌≡◌, ◌≢◌, refl, sym, ap, ◌∙◌, arith, Bool, true, false, not, ◌&&◌,
  Bool-cases, inl, inr, List, [], ◌∷◌, ◌++◌, All, length, leb, ◌==◌, if◌then◌else◌, update,
  update-ne, Run, ok, out_of_fuel, ◌>>=◌, Returns, returns,
}
use os_memory_management.Strings.{Memory}
use os_memory_management.Strings.Parsed.{Holds}

-- The loop over the separators, which become 0
unfoldable pub trim : (ℕ → Bool) → ℕ → ℕ → Memory → Run (ℕ × Memory)
trim sep zero s m = out_of_fuel
trim sep (suc fuel) s m =
    let rest = trim sep fuel (s + 1) (update m s 0) in
    if not (m s == 0) && sep (m s) then rest else ok (s, m)

-- The loop over the characters of a word
unfoldable pub skip_word : (ℕ → Bool) → ℕ → ℕ → Memory → Run ℕ
skip_word sep zero s m = out_of_fuel
skip_word sep (suc fuel) s m =
    let rest = skip_word sep fuel (s + 1) m in
    if not (m s == 0) && not (sep (m s)) then rest else ok s

-- `MAX_ARGUMENTS-1`
abbrev pub max_words : ℕ
max_words = 15

-- The loop of strsplit, with `argc` arguments so far: what it returns, the other arguments, and memory
unfoldable pub split_words : (ℕ → Bool) → ℕ → ℕ → ℕ → ℕ → Memory → Run (Bool × List ℕ × Memory)
unfolding trim skip_word
split_words sep inner zero argc s m = out_of_fuel
split_words sep inner (suc fuel) argc s m = trim sep inner s m >>= (λ t.
    if t.1 t.0 == 0
    then ok (true, [], t.1)
    else if argc == max_words
    then ok (false, [], t.1)
    else skip_word sep inner t.0 t.1
      >>= (λ q. split_words sep inner fuel (argc + 1) q t.1 >>= (λ r. ok (r.0, t.0 ∷ r.1, r.2))))

-- strsplit
unfoldable pub strsplit : (ℕ → Bool) → ℕ → ℕ → Memory → Run (Bool × List ℕ × Memory)
unfolding split_words
strsplit sep fuel s m = split_words sep fuel fuel 0 s m

-- Where the words of a text at an address begin; the flag says whether the text goes on within a word.
abbrev pub starts : (ℕ → Bool) → ℕ → Bool → List ℕ → List ℕ
starts sep a w [] = []
starts sep a false (c ∷ cs) =
    if sep c then starts sep (a + 1) false cs else a ∷ starts sep (a + 1) true cs
starts sep a true (c ∷ cs) =
    if sep c then starts sep (a + 1) false cs else starts sep (a + 1) true cs

abbrev pub first_words : ℕ → List ℕ → List ℕ
first_words zero xs = []
first_words (suc n) [] = []
first_words (suc n) (x ∷ xs) = x ∷ first_words n xs

-- A text without 0, with one behind it, in memory
abbrev pub Text : Memory → ℕ → List ℕ → Type 0
Text m s cs = Holds m s (cs ++ 0 ∷ []) × All (λ c. c ≢ 0) cs

Holds-update :
    (m : Memory) (a v s : ℕ) (cs : List ℕ) → a < s → Holds m s cs → Holds (update m a v) s cs
Holds-update m a v s [] lt h = tt
Holds-update m a v s (c ∷ cs) lt h = (
  update-ne m a s v (λ e. omega (arith, e, lt)) ∙ h.0,
  Holds-update m a v (s + 1) cs (omega (arith, lt)) h.1,
)

-- What is left after the separators
data Trimmed (sep : ℕ → Bool) (s : ℕ) (cs : List ℕ) (t : ℕ × Memory) : Type 0 where
  finished : t.1 t.0 ≡ 0 → starts sep s false cs ≡ [] → Trimmed sep s cs t
  word :
      (c : ℕ) (rest : List ℕ)
      → sep c ≡ false
      → Text t.1 t.0 (c ∷ rest)
      → length rest < length cs
      → starts sep s false cs ≡ t.0 ∷ starts sep (t.0 + 1) true rest
      → Trimmed sep s cs t

trim-Trimmed :
    (sep : ℕ → Bool) (cs : List ℕ) (fuel s : ℕ) (m : Memory)
    → Text m s cs
    → length cs < fuel
    → Returns (Trimmed sep s cs) (trim sep fuel s m)
unfolding trim
trim-Trimmed sep cs zero s m h enough = absurd (omega arith)
trim-Trimmed sep [] (suc fuel) s m h enough =
    let e : (m s == 0) ≡ true = ground (arith, h.0.0) in
    rw e (returns (s, m) refl (finished h.0.0 refl))
trim-Trimmed sep (c ∷ cs) (suc fuel) s m h enough =
    let e : (m s == 0) ≡ false = ground (arith, h.0.0, h.1.0) in
    elim (Bool-cases (sep c)) [
      | inl t ↦
          elim (trim-Trimmed sep cs fuel (s + 1) (update m s 0)
            (Holds-update m s 0 (s + 1) (cs ++ 0 ∷ []) (omega arith) h.0.1, h.1.1) (omega arith)) [
              | returns r q (finished z st) ↦ rw (e, h.0.0, t) (returns r q (finished z (rw t st)))
              | returns r q (word d rest n x le st) ↦
                  rw (e, h.0.0, t) (returns r q (word d rest n x (omega (arith, le)) (rw t st)))
            ]
      | inr n ↦ rw (e, h.0.0, n) (returns (s, m) refl (word c cs n h (omega arith) (rw n refl)))
    ]

-- What is left after a word
record Skipped (sep : ℕ → Bool) (s : ℕ) (cs : List ℕ) (m : Memory) (q : ℕ) : Type 0 where
  rest : List ℕ
  text : Text m q rest
  shorter : length rest ≤ length cs
  same : starts sep s true cs ≡ starts sep q false rest

skip_word-Skipped :
    (sep : ℕ → Bool) (cs : List ℕ) (fuel s : ℕ) (m : Memory)
    → Text m s cs
    → length cs < fuel
    → Returns (Skipped sep s cs m) (skip_word sep fuel s m)
unfolding skip_word
skip_word-Skipped sep cs zero s m h enough = absurd (omega arith)
skip_word-Skipped sep [] (suc fuel) s m h enough =
    let e : (m s == 0) ≡ true = ground (arith, h.0.0) in
    rw e (returns s refl record { rest = []; text = h; shorter = omega arith; same = refl })
skip_word-Skipped sep (c ∷ cs) (suc fuel) s m h enough =
    let e : (m s == 0) ≡ false = ground (arith, h.0.0, h.1.0) in
    elim (Bool-cases (sep c)) [
      | inl t ↦
          rw (e, h.0.0, t)
            (returns s refl
              record { rest = c ∷ cs; text = h; shorter = omega arith; same = rw t refl })
      | inr n ↦ elim (skip_word-Skipped sep cs fuel (s + 1) m (h.0.1, h.1.1) (omega arith)) [
        | returns q e' k ↦
            rw (e, h.0.0, n)
              (returns q e' record {
                rest = k.rest;
                text = k.text;
                shorter = omega (arith, k.shorter);
                same = rw n k.same;
              })
      ]
    ]

-- The arguments are the first `k` of the words `ws`, and the return value says whether that are all.
abbrev pub Split : ℕ → List ℕ → Bool × List ℕ × Memory → Type 0
Split k ws r = (r.1 ≡ first_words k ws) × (r.0 ≡ leb (length ws) k)

no_words : (k : ℕ) (m : Memory) → Split k [] (true, [], m)
no_words zero m = (refl, refl)
no_words (suc k) m = (refl, ground arith)

split_words-Split :
    (sep : ℕ → Bool) (k : ℕ) (cs : List ℕ) (inner fuel argc s : ℕ) (m : Memory)
    → Text m s cs
    → length cs < inner
    → k < fuel
    → argc + k ≡ max_words
    → Returns (Split k (starts sep s false cs)) (split_words sep inner fuel argc s m)
unfolding split_words
split_words-Split sep k cs inner zero argc s m h enough more total = absurd (omega arith)
split_words-Split sep zero cs inner (suc fuel) argc s m h enough more total =
    elim (trim-Trimmed sep cs inner s m h enough) [
      | returns t q (finished z st) ↦
          let e : (t.1 t.0 == 0) ≡ true = ground (arith, z) in
          rw (q, e, st) (returns (true, [], t.1) refl (no_words zero t.1))
      | returns t q (word c rest n x le st) ↦
          let e : (t.1 t.0 == 0) ≡ false = ground (arith, x.0.0, x.1.0) in
          let full : (argc == max_words) ≡ true = ground (arith, total) in
          rw (q, e, full, st) (returns (false, [], t.1) refl (refl, ground arith))
    ]
split_words-Split sep (suc k) cs inner (suc fuel) argc s m h enough more total =
    elim (trim-Trimmed sep cs inner s m h enough) [
      | returns t q (finished z st) ↦
          let e : (t.1 t.0 == 0) ≡ true = ground (arith, z) in
          rw (q, e, st) (returns (true, [], t.1) refl (no_words (suc k) t.1))
      | returns t q (word c rest n x le st) ↦
          let e : (t.1 t.0 == 0) ≡ false = ground (arith, x.0.0, x.1.0) in
          let room : (argc == max_words) ≡ false = ground (arith, total) in
          elim (skip_word-Skipped sep (c ∷ rest) inner t.0 t.1 x (omega (arith, le, enough))) [
            | returns p q' w ↦
                let others : starts sep (t.0 + 1) true rest ≡ starts sep p false w.rest =
                  sym (rw n refl) ∙ w.same in
                elim (split_words-Split sep k w.rest inner fuel (argc + 1) p t.1 w.text
                  (omega (arith, le, enough, w.shorter)) (omega arith) (omega (arith, total))) [
                    | returns r q2 (words, all) ↦
                        rw (q, e, room, q', q2, st)
                          (returns (r.0, t.0 ∷ r.1, r.2) refl
                            (
                              ap (λ l. t.0 ∷ l) (words ∙ ap (first_words k) (sym others)),
                              all ∙ ap (λ l. leb (length l) k) (sym others) ∙ ground arith,
                            ))
                  ]
          ]
    ]

-- strsplit ends. It stores the addresses of the words of a text, in order, the first 15 at most, and
-- returns 1 where these are all words, and 0 where there are more. The text ends with a 0, and the fuel is
-- more than its length and than 15.
pub strsplit-Split :
    (sep : ℕ → Bool) (cs : List ℕ) (fuel s : ℕ) (m : Memory)
    → Text m s cs
    → length cs < fuel
    → max_words < fuel
    → Returns (Split max_words (starts sep s false cs)) (strsplit sep fuel s m)
unfolding strsplit
strsplit-Split sep cs fuel s m h enough more =
    split_words-Split sep max_words cs fuel fuel 0 s m h enough more (omega arith)
