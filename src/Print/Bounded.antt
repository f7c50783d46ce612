-- ===== src/Print/Bounded.antt =====
-- vsnprintf writes what fits in the buffer.
use os_memory_management.Base.{
  ℕ, zero, suc, ◌+◌, ◌-◌, ◌%◌, ◌≤◌, ◌<◌, ◌≡◌, refl, ap, ◌∙◌, ◌⊎◌, inl, inr, arith, false,
  Bool-cases, ◌||◌, List, [], ◌∷◌, length, get_or, some, ltb, ◌==◌, update, update-ne, update_self,
  ok, Returns, returns,
}
use os_memory_management.Strings.{Memory}
use os_memory_management.Format.{vprintfmt, plain}
use os_memory_management.Print.{SprintBuf, sprintputch, sprint_all, sprint_end, vsnprintf}

-- What the characters leave: they are stored as far as there is room.
record Stored (out : List ℕ) (b b' : SprintBuf) : Type 0 where
  cnt : b'.cnt ≡ b.cnt + length out
  start : b.buf ≤ b'.buf
  short : b'.buf ≤ b.ebuf
  end : (b'.buf ≡ b.buf + length out) ⊎ (b'.buf ≡ b.ebuf)
  most : b'.buf ≤ b.buf + length out
  chars : (i : ℕ) → b.buf + i < b'.buf → b'.memory (b.buf + i) ≡ get_or out i 0 % 256
  outside : (a : ℕ) → (a < b.buf) ⊎ (b'.buf ≤ a) → b'.memory a ≡ b.memory a

stored_char :
    (c : ℕ) (out : List ℕ) (buf end : ℕ) (m : Memory)
    → m buf ≡ c % 256
    → ((i : ℕ) → buf + 1 + i < end → m (buf + 1 + i) ≡ get_or out i 0 % 256)
    → (i : ℕ) → buf + i < end
    → m (buf + i) ≡ get_or (c ∷ out) i 0 % 256
stored_char c out buf end m first rest zero lt = ap m {x = buf + 0} {y = buf} (omega arith) ∙ first
stored_char c out buf end m first rest (suc i) lt =
    ap m {x = buf + suc i} {y = buf + 1 + i} (omega arith) ∙ rest i (omega arith)

sprint_all-Stored :
    (out : List ℕ) (b : SprintBuf) → b.buf ≤ b.ebuf → Stored out b (sprint_all out b)
unfolding sprint_all sprintputch
sprint_all-Stored [] b le = record {
  cnt = omega arith;
  start = omega arith;
  short = le;
  end = inl (omega arith);
  most = omega arith;
  chars = λ i lt. absurd (omega (arith, lt));
  outside = λ a h. refl;
}
sprint_all-Stored (c ∷ out) b le = elim (Bool-cases (ltb b.buf b.ebuf)) [
  | inr full ↦
      let v = sprint_all-Stored out (record b { cnt = b.cnt + 1 }) le in
      let at_end : b.buf ≡ b.ebuf = ground (arith, full, le) in
      rw full record {
        cnt = omega (arith, v.cnt);
        start = v.start;
        short = v.short;
        end = inr (omega (arith, v.start, v.short));
        most = omega (arith, v.short);
        chars = λ i lt. absurd (omega (arith, lt, v.short));
        outside = v.outside;
      }
  | inl room ↦
      let b1 : SprintBuf = record b {
        cnt = b.cnt + 1;
        memory = update b.memory b.buf (c % 256);
        buf = b.buf + 1;
      } in
      let v = sprint_all-Stored out b1 (ground (arith, room)) in
      rw room record {
        cnt = omega (arith, v.cnt);
        start = omega (arith, v.start);
        short = v.short;
        end = elim v.end [ inl e ↦ inl (omega (arith, e)) | inr e ↦ inr e ];
        most = omega (arith, v.most);
        chars = λ i lt.
            stored_char c out b.buf (sprint_all out b1).buf (sprint_all out b1).memory
              (v.outside b.buf (inl (omega arith)) ∙ update_self b.memory b.buf (c % 256)) v.chars i
              lt;
        outside = λ a h. elim h [
          | inl low ↦
              v.outside a (inl (omega arith))
              ∙ update-ne b.memory b.buf a (c % 256) (λ e. omega (arith, e, low))
          | inr high ↦
              v.outside a (inr high)
              ∙ update-ne b.memory b.buf a (c % 256) (λ e. omega (arith, e, high, v.start))
        ];
      }
]

-- The buffer of `n` bytes after the output: as many characters as fit, then a 0, and nothing else is
-- written.
pub record Written (buf n : ℕ) (out : List ℕ) (m m' : Memory) : Type 0 where
  pub stop : ℕ
  pub all_or_full : (stop ≡ length out) ⊎ ((stop ≡ n - 1) × (n - 1 ≤ length out))
  pub room : stop < n
  pub chars : (i : ℕ) → i < stop → m' (buf + i) ≡ get_or out i 0 % 256
  pub null : m' (buf + stop) ≡ 0
  pub outside : (a : ℕ) → (a < buf) ⊎ (buf + n ≤ a) → m' a ≡ m a

sprint_end-Written :
    (buf n : ℕ) (m : Memory) (out : List ℕ)
    → 0 < n
    → ((sprint_end buf n m out).0 ≡ length out) × Written buf n out m (sprint_end buf n m out).1
unfolding sprint_end
sprint_end-Written buf n m out pos =
    let b : SprintBuf = record { memory = m; buf = buf; ebuf = buf + n - 1; cnt = 0 } in
    let v = sprint_all-Stored out b (omega arith) in
    let b' = sprint_all out b in
    (
      omega (arith, v.cnt),
      record {
        stop = b'.buf - buf;
        all_or_full = elim v.end [
          | inl e ↦ inl (omega (arith, e))
          | inr e ↦ inr (omega (arith, e), omega (arith, e, v.most))
        ];
        room = omega (arith, v.short, v.start);
        chars = λ i lt.
            update-ne b'.memory b'.buf (buf + i) 0 (λ e. omega (arith, e, lt))
            ∙ v.chars i (omega (arith, lt));
        null =
            ap (update b'.memory b'.buf 0) {x = buf + (b'.buf - buf)} {y = b'.buf}
              (omega (arith, v.start))
            ∙ update_self b'.memory b'.buf 0;
        outside = λ a h. elim h [
          | inl low ↦
              update-ne b'.memory b'.buf a 0 (λ e. omega (arith, e, low, v.start))
              ∙ v.outside a (inl low)
          | inr high ↦
              update-ne b'.memory b'.buf a 0 (λ e. omega (arith, e, high, v.short))
              ∙ v.outside a (inr (omega (arith, high, v.short)))
        ];
      },
    )

-- Where vprintfmt has an output, vsnprintf with a buffer returns the output's length, the buffer holds
-- the characters that fit with a 0 after them, and no byte outside the buffer is written.
pub vsnprintf-Written :
    (text : ℕ → List ℕ) (buf n : ℕ) (fmt args : List ℕ) (m : Memory) (out : List ℕ)
    → 0 < buf
    → 0 < n
    → vprintfmt text fmt plain args ≡ ok out
    → Returns
        (λ r. (r.0 ≡ some (length out)) × Written buf n out m r.1)
        (vsnprintf text buf n fmt args m)
unfolding vsnprintf
vsnprintf-Written text buf n fmt args m out there pos e =
    let test : (buf == 0 || ltb n 1) ≡ false = ground (arith, there, pos) in
    let (count, v) = sprint_end-Written buf n m out pos in
    rw (test, e) (returns _ refl (ap some count, v))
