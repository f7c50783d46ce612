-- ===== src/Print/Flushed.antt =====
-- The calls of sys_cputs that vcprintf of lib/printf.c makes.
use mathlib.Core.List.{append-nil, append_assoc, map-append, flatten}
use mathlib.Core.Path.{subst}
use native.Mathlib.Numerals.{add-one}
use os_memory_management.Base.{
  ℕ, zero, suc, ◌+◌, ◌%◌, ◌≤◌, ◌<◌, ◌≡◌, refl, sym, ap, ◌∙◌, arith, Bool-cases, ==_iff, inl, inr,
  List, [], ◌∷◌, ◌++◌, map, length, length-append, All, All-append, ◌==◌, update, update-ne,
  update_self, ok, Returns, returns,
}
use os_memory_management.Format.{vprintfmt, plain}
use os_memory_management.Print.{PrintBuf, chunk, send, putch, putch_all, vcprintf}

-- The characters as bytes.
abbrev pub bytes : List ℕ → List ℕ
bytes out = map (λ c. c % 256) out

flatten-append : (xs ys : List (List ℕ)) → flatten (xs ++ ys) ≡ flatten xs ++ flatten ys
unfolding flatten
flatten-append [] ys = refl
flatten-append (x ∷ xs) ys =
    ap (λ l. x ++ l) (flatten-append xs ys) ∙ sym (append_assoc x (flatten xs) (flatten ys))

flatten-one : (xs : List (List ℕ)) (x : List ℕ) → flatten (xs ++ x ∷ []) ≡ flatten xs ++ x
unfolding flatten
flatten-one xs x = flatten-append xs (x ∷ []) ∙ ap (λ l. flatten xs ++ l) (append-nil x)

length-chunk : (buf : ℕ → ℕ) (n : ℕ) → length (chunk buf n) ≡ n
unfolding chunk
length-chunk buf zero = refl
length-chunk buf (suc n) =
    omega (arith, length-append (chunk buf n) (buf n ∷ []), length-chunk buf n)

chunk-update : (buf : ℕ → ℕ) (i v n : ℕ) → n ≤ i → chunk (update buf i v) n ≡ chunk buf n
unfolding chunk
chunk-update buf i v zero le = refl
chunk-update buf i v (suc n) le =
    rw (chunk-update buf i v n (omega arith), update-ne buf i n v (λ e. omega (arith, e))) refl

chunk-next : (buf : ℕ → ℕ) (i v : ℕ) → chunk (update buf i v) (i + 1) ≡ chunk buf i ++ v ∷ []
unfolding chunk
chunk-next buf i v = rw (add-one, chunk-update buf i v i (omega arith), update_self buf i v) refl

-- The characters put so far: full buffers have been sent, and the rest waits.
record Buffered (put : List ℕ) (b : PrintBuf) : Type 0 where
  room : b.idx < 255
  full : All (λ c. length c ≡ 255) b.sent
  text : flatten b.sent ++ chunk b.buf b.idx ≡ bytes put
  cnt : b.cnt ≡ length put

putch-Buffered :
    (put : List ℕ) (c : ℕ) (b : PrintBuf) → Buffered put b → Buffered (put ++ c ∷ []) (putch c b)
unfolding putch send
putch-Buffered put c b v =
    let next = chunk-next b.buf b.idx (c % 256) in
    let text : flatten b.sent ++ chunk (update b.buf b.idx (c % 256)) (b.idx + 1)
        ≡ bytes (put ++ c ∷ []) =
      ap (λ l. flatten b.sent ++ l) next
      ∙ sym (append_assoc (flatten b.sent) (chunk b.buf b.idx) (c % 256 ∷ []))
      ∙ ap (λ l. l ++ c % 256 ∷ []) v.text
      ∙ sym (map-append (λ a. a % 256) put (c ∷ [])) in
    let cnt : b.cnt + 1 ≡ length (put ++ c ∷ []) =
      omega (arith, v.cnt, length-append put (c ∷ [])) in
    elim (Bool-cases (b.idx + 1 == 255)) [
      | inl last ↦ rw last record {
        room = omega arith;
        full =
            All-append (λ l. length l ≡ 255) b.sent _ v.full
              (length-chunk _ (b.idx + 1) ∙ (==_iff (b.idx + 1) 255).0 last, tt);
        text = append-nil _ ∙ flatten-one b.sent _ ∙ text;
        cnt = cnt;
      }
      | inr more ↦
          rw more
            record { room = ground (arith, more, v.room); full = v.full; text = text; cnt = cnt }
    ]

putch_all-Buffered :
    (out put : List ℕ) (b : PrintBuf) → Buffered put b → Buffered (put ++ out) (putch_all out b)
unfolding putch_all
putch_all-Buffered [] put b v = subst (λ l. Buffered l b) (sym (append-nil put)) v
putch_all-Buffered (c ∷ out) put b v =
    subst (λ l. Buffered l (putch_all out (putch c b))) (append_assoc put (c ∷ []) out)
      (putch_all-Buffered out (put ++ c ∷ []) (putch c b) (putch-Buffered put c b v))

start : (buf : ℕ → ℕ) → Buffered [] (record { idx = 0; cnt = 0; buf = buf; sent = [] })
unfolding flatten chunk
start buf = record { room = omega arith; full = tt; text = refl; cnt = refl }

-- What the calls of sys_cputs are given: full buffers of 255 characters and a shorter last one, which
-- are the output in a row.
pub record Sent (out : List ℕ) (r : ℕ × List (List ℕ)) : Type 0 where
  pub fulls : List (List ℕ)
  pub last : List ℕ
  pub calls : r.1 ≡ fulls ++ last ∷ []
  pub full : All (λ c. length c ≡ 255) fulls
  pub short : length last < 255
  pub text : flatten fulls ++ last ≡ bytes out
  pub cnt : r.0 ≡ length out

-- Where vprintfmt has an output, vcprintf returns its length, and the buffers that it gives to sys_cputs
-- are the output in a row: all hold 255 characters but for the last, which is shorter. What the
-- buffer holds before does not matter.
pub vcprintf-Sent :
    (text : ℕ → List ℕ) (fmt args : List ℕ) (buf : ℕ → ℕ) (out : List ℕ)
    → vprintfmt text fmt plain args ≡ ok out
    → Returns (Sent out) (vcprintf text fmt args buf)
unfolding vcprintf send
vcprintf-Sent text fmt args buf out e =
    let b : PrintBuf = record { idx = 0; cnt = 0; buf = buf; sent = [] } in
    let v = putch_all-Buffered out [] b (start buf) in
    rw e (
      returns _ refl record {
        fulls = (putch_all out b).sent;
        last = chunk (putch_all out b).buf (putch_all out b).idx;
        calls = refl;
        full = v.full;
        short = omega (arith, length-chunk (putch_all out b).buf (putch_all out b).idx, v.room);
        text = v.text;
        cnt = v.cnt;
      })
