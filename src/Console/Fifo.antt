-- ===== src/Console/Fifo.antt =====
-- The console's buffer is a queue of characters, as long as fewer than 512 of them wait.
use mathlib.Core.List.{append-nil, append_assoc}
use mathlib.Core.Path.{subst}
use os_memory_management.Base.{
  ℕ, suc, ◌+◌, ◌%◌, ◌<◌, ◌≡◌, ◌≢◌, refl, sym, ap, ◌∙◌, inl, inr, arith, Bool, true, false,
  Bool-cases, ◌==◌, if◌then◌else◌, lt→ltb, List, [], ◌∷◌, ◌++◌, length, length-append, All, update,
  update_self, update-ne, Returns, returns,
}
use os_memory_management.Base.Circle.{hand, hand-hand, hand_bound, hand_apart}
use os_memory_management.Console.{
  Cons, cons_buf_size, next_pos, store, cons_intr, take_char, cons_getc,
}

-- The buffer has `q` from index `i` on.
abbrev pub Holds : (ℕ → ℕ) → ℕ → List ℕ → Type 0
Holds buf i [] = Unit
Holds buf i (c ∷ q) = (buf i ≡ c) × Holds buf ((i + 1) % cons_buf_size) q

-- The characters `q` wait.
pub record IsQueue (s : Cons) (q : List ℕ) : Type 0 where
  pub start : s.rpos < cons_buf_size
  pub room : length q < cons_buf_size
  pub end : s.wpos ≡ hand cons_buf_size s.rpos (length q)
  pub holds : Holds s.buf s.rpos q

eq-false : (x y : ℕ) → x ≢ y → (x == y) ≡ false
eq-false x y ne = ground arith

next_pos_lem : (i : ℕ) → i < cons_buf_size → next_pos i ≡ (i + 1) % cons_buf_size
unfolding next_pos
next_pos_lem i lt = ground arith

-- A write at an index that the characters do not reach.
Holds-update :
    (buf : ℕ → ℕ) (i p v : ℕ) (q : List ℕ)
    → ((j : ℕ) → j < length q → hand cons_buf_size i j ≢ p)
    → Holds buf i q
    → Holds (update buf p v) i q
Holds-update buf i p v [] out h = tt
Holds-update buf i p v (c ∷ q) out (here, h) = (
  update-ne buf p i v (λ e. out 0 (omega arith) (sym e)) ∙ here,
  Holds-update buf ((i + 1) % cons_buf_size) p v q
      (λ j lt e. out (suc j) (omega arith) (sym (hand-hand cons_buf_size i j) ∙ e)) h,
)

Holds-append :
    (buf : ℕ → ℕ) (i c : ℕ) (q : List ℕ)
    → Holds buf i q
    → buf (hand cons_buf_size i (length q)) ≡ c
    → Holds buf i (q ++ c ∷ [])
Holds-append buf i c [] h e = (e, tt)
Holds-append buf i c (x ∷ q) (here, h) e = (
  here,
  Holds-append buf ((i + 1) % cons_buf_size) c q h
      (ap buf (hand-hand cons_buf_size i (length q)) ∙ e),
)

store-IsQueue :
    (s : Cons) (q : List ℕ) (c : ℕ)
    → IsQueue s q
    → c < 256
    → length q + 1 < cons_buf_size
    → Returns (λ s'. IsQueue s' (q ++ c ∷ [])) (store c s)
unfolding store
store-IsQueue s q c v small room =
    let max = cons_buf_size in
    let bound : s.wpos < max =
      subst (λ p. p < max) (sym v.end) (hand_bound max s.rpos (length q) v.start (omega arith)) in
    let longer : length (q ++ c ∷ []) ≡ suc (length q) = omega (arith, length-append q (c ∷ [])) in
    rw (lt→ltb _ _ bound) (
      returns _ refl record {
        start = v.start;
        room = omega (arith, longer);
        end =
            next_pos_lem s.wpos bound
            ∙ ap (λ p. (p + 1) % max) v.end
            ∙ ap (hand max s.rpos) (sym longer);
        holds =
            Holds-append (update s.buf s.wpos (c % 256)) s.rpos c q
              (Holds-update s.buf s.rpos s.wpos (c % 256) q
                (λ j lt e. hand_apart max s.rpos j (length q) v.start lt (omega arith) (e ∙ v.end))
                v.holds)
              (ap (update s.buf s.wpos (c % 256)) (sym v.end)
                ∙ update_self s.buf s.wpos (c % 256)
                ∙ omega arith);
      })

-- The characters that a device has given: 0 stands for none.
abbrev pub typed : List ℕ → List ℕ
typed [] = []
typed (c ∷ cs) = if c == 0 then typed cs else c ∷ typed cs

cons_intr-IsQueue :
    (cs : List ℕ) (s : Cons) (q : List ℕ)
    → IsQueue s q
    → All (λ c. c < 256) cs
    → length q + length (typed cs) < cons_buf_size
    → Returns (λ s'. IsQueue s' (q ++ typed cs)) (cons_intr cs s)
unfolding cons_intr
cons_intr-IsQueue [] s q v small room = returns s refl (subst (IsQueue s) (sym (append-nil q)) v)
cons_intr-IsQueue (c ∷ cs) s q v small room = elim (Bool-cases (c == 0)) [
  | inl none ↦
      let room' =
        subst (λ b. length q + length (if b then typed cs else c ∷ typed cs) < cons_buf_size) none
          room in
      rw none (cons_intr-IsQueue cs s q v small.1 room')
  | inr some ↦
      let room' =
        subst (λ b. length q + length (if b then typed cs else c ∷ typed cs) < cons_buf_size) some
          room in
      rw some elim (store-IsQueue s q c v small.0 (omega (arith, room'))) [
        | returns s1 e v1 ↦ rw e (
            subst (λ l. Returns (λ s'. IsQueue s' l) (cons_intr cs s1))
              (append_assoc q (c ∷ []) (typed cs))
              (cons_intr-IsQueue cs s1 (q ++ c ∷ []) v1 small.1
                (omega (arith, room', length-append q (c ∷ [])))))
      ]
]

-- What a queue gives: its first character and the rest, or 0.
abbrev pub Gives : List ℕ → ℕ × Cons → Type 0
Gives [] (c, s) = (c ≡ 0) × IsQueue s []
Gives (x ∷ q) (c, s) = (c ≡ x) × IsQueue s q

take_char-Gives : (s : Cons) (q : List ℕ) → IsQueue s q → Returns (Gives q) (take_char s)
unfolding take_char
take_char-Gives s [] v =
    let none : (s.rpos == s.wpos) ≡ true = ground (arith, v.end) in
    rw none (returns _ refl (refl, v))
take_char-Gives s (c ∷ q) v =
    let some : (s.rpos == s.wpos) ≡ false = eq-false s.rpos s.wpos (λ e.
      hand_apart cons_buf_size s.rpos 0 (suc (length q)) v.start (omega arith) v.room
        (e ∙ v.end)) in
    rw (some, lt→ltb _ _ v.start)
      (returns _ refl (
        v.holds.0,
        record {
          start = subst (λ p. p < cons_buf_size) (sym (next_pos_lem s.rpos v.start)) (omega arith);
          room = omega (arith, v.room);
          end =
              v.end
              ∙ sym (hand-hand cons_buf_size s.rpos (length q))
              ∙ ap (λ p. hand cons_buf_size p (length q)) (sym (next_pos_lem s.rpos v.start));
          holds = subst (λ p. Holds s.buf p q) (sym (next_pos_lem s.rpos v.start)) v.holds.1;
        },
      ))

-- The buffer is a queue: cons_getc returns the first of the characters that wait and of those that the
-- serial line and the keyboard give, in this order, and all others wait in this order; it returns
-- 0 where there is none. The devices give bytes, and fewer than 512 characters are there in all.
pub cons_getc-Gives :
    (serial_exists : Bool) (serial kbd : List ℕ) (s : Cons) (q : List ℕ)
    → IsQueue s q
    → All (λ c. c < 256) (if serial_exists then serial else [])
    → All (λ c. c < 256) kbd
    → length q + length (typed (if serial_exists then serial else [])) + length (typed kbd)
      < cons_buf_size
    → Returns
        (Gives ((q ++ typed (if serial_exists then serial else [])) ++ typed kbd))
        (cons_getc serial_exists serial kbd s)
unfolding cons_getc
cons_getc-Gives serial_exists serial kbd s q v bytes bytes' room =
    let line = if serial_exists then serial else [] in
    elim (cons_intr-IsQueue line s q v bytes (omega arith)) [
      | returns s1 e1 v1 ↦
          rw e1
            elim (cons_intr-IsQueue kbd s1 (q ++ typed line) v1 bytes'
              (omega (arith, length-append q (typed line)))) [
                | returns s2 e2 v2 ↦ rw e2 (take_char-Gives s2 ((q ++ typed line) ++ typed kbd) v2)
              ]
    ]
