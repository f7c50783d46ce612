-- ===== src/Format.antt =====
-- lib/printfmt.c: formatted output. A string is the list of its characters without the 0 at its end, the
-- arguments are words, and what putch gets is the output; `text` is the string at an address.
pub mod Digits
use os_memory_management.Base.{
  ℕ, zero, suc, ◌+◌, ◌-◌, ◌*◌, ◌/◌, ◌%◌, ◌^◌, Bool, true, false, ◌&&◌, ◌||◌, List, [], ◌∷◌, ◌++◌,
  map, take, length, get_elem?, Option, none, some, ltb, leb, ◌==◌, if◌then◌else◌, Run, ok, fault,
  out_of_fuel, ◌>>=◌,
}

-- `"0123456789abcdef"[d]`
abbrev pub digit : ℕ → ℕ
digit d = if ltb d 10 then 48 + d else 87 + d

-- `n` times the character.
unfoldable pub pads : ℕ → ℕ → List ℕ
pads zero c = []
pads (suc n) c = c ∷ pads n c

-- printnum: a width of 0 or less is 0.
unfoldable pub printnum : ℕ → ℕ → ℕ → ℕ → ℕ → Run (List ℕ)
unfolding pads
printnum zero num base width padc = out_of_fuel
printnum (suc fuel) num base width padc =
    let before = printnum fuel (num / base) base (width - 1) padc in
    if leb base num
    then before >>= (λ out. ok (out ++ digit (num % base) ∷ []))
    else ok (pads (width - 1) padc ++ digit (num % base) ∷ [])

-- The bits of a number, which bound its digits.
abbrev pub number_fuel : ℕ
number_fuel = 64

-- getuint and getint: a 64-bit number of one word, or of two where `lflag` is 2 or more.
unfoldable pub getuint : ℕ → List ℕ → Run (ℕ × List ℕ)
getuint lflag [] = fault
getuint lflag (a ∷ []) = if leb 2 lflag then fault else ok (a, [])
getuint lflag (a ∷ b ∷ rest) = if leb 2 lflag then ok (a + b * 2 ^ 32, rest) else ok (a, b ∷ rest)

abbrev extend : ℕ → ℕ → ℕ
extend lflag a = if leb 2 lflag then a else if leb (2 ^ 31) a then a + 2 ^ 64 - 2 ^ 32 else a

unfoldable pub getint : ℕ → List ℕ → Run (ℕ × List ℕ)
unfolding getuint
getint lflag args = getuint lflag args >>= (λ r. ok (extend lflag r.0, r.1))

-- What stands between '%' and the conversion: `none` is a negative width or precision.
pub record Spec : Type 0 where
  pub padc : ℕ
  pub width : Option ℕ
  pub precision : Option ℕ
  pub lflag : ℕ
  pub alt : Bool

abbrev pub default_spec : Spec
default_spec = record { padc = 32; width = none; precision = none; lflag = 0; alt = false }

abbrev width_of : Spec → ℕ
width_of sp = elim sp.width [ none ↦ 0 | some w ↦ w ]

-- process_precision, given the precision
unfoldable pub process : Option ℕ → Spec → Spec
process precision sp = elim sp.width [
  | none ↦ record sp { width = precision; precision = none }
  | some w ↦ record sp { precision = precision }
]

abbrev pub int_arg : ℕ → Option ℕ
int_arg a = if leb (2 ^ 31) a then none else some a

-- "(null)"
abbrev null_text : List ℕ
null_text = 40 ∷ 110 ∷ 117 ∷ 108 ∷ 108 ∷ 41 ∷ []

-- The conversion 's'
unfoldable pub format_string : Spec → List ℕ → List ℕ
unfolding pads
format_string sp chars =
    let shown : List ℕ = elim sp.precision [ none ↦ chars | some n ↦ take n chars ] in
    let out = map (λ c. if sp.alt && (ltb c 32 || ltb 126 c) then 63 else c) shown in
    let n = width_of sp - length shown in
    if sp.padc == 45 then out ++ pads n 32 else pads n sp.padc ++ out

abbrev number : ℕ → ℕ → Spec → List ℕ → Run (List ℕ × List ℕ)
number num base sp rest =
    printnum number_fuel num base (width_of sp) sp.padc >>= (λ out. ok (out, rest))

-- The conversion 'd' of a 64-bit number
unfoldable pub format_signed : ℕ → Spec → List ℕ → Run (List ℕ × List ℕ)
format_signed num sp rest =
    if leb (2 ^ 63) num
    then number (2 ^ 64 - num) 10 sp rest >>= (λ r. ok (45 ∷ r.0, r.1))
    else number num 10 sp rest

-- error_string from index 1 on
abbrev pub error_string : List (List ℕ)
error_string =
    (117 ∷ 110 ∷ 115 ∷ 112 ∷ 101 ∷ 99 ∷ 105 ∷ 102 ∷ 105 ∷ 101 ∷ 100 ∷ 32 ∷ 101 ∷ 114 ∷ 114 ∷ 111
      ∷ 114 ∷ [])
    ∷ (98 ∷ 97 ∷ 100 ∷ 32 ∷ 101 ∷ 110 ∷ 118 ∷ 105 ∷ 114 ∷ 111 ∷ 110 ∷ 109 ∷ 101 ∷ 110 ∷ 116 ∷ [])
    ∷ (105 ∷ 110 ∷ 118 ∷ 97 ∷ 108 ∷ 105 ∷ 100 ∷ 32 ∷ 112 ∷ 97 ∷ 114 ∷ 97 ∷ 109 ∷ 101 ∷ 116 ∷ 101
        ∷ 114 ∷ [])
    ∷ (111 ∷ 117 ∷ 116 ∷ 32 ∷ 111 ∷ 102 ∷ 32 ∷ 109 ∷ 101 ∷ 109 ∷ 111 ∷ 114 ∷ 121 ∷ [])
    ∷ (111 ∷ 117 ∷ 116 ∷ 32 ∷ 111 ∷ 102 ∷ 32 ∷ 101 ∷ 110 ∷ 118 ∷ 105 ∷ 114 ∷ 111 ∷ 110 ∷ 109 ∷ 101
        ∷ 110 ∷ 116 ∷ 115 ∷ [])
    ∷ (115 ∷ 101 ∷ 103 ∷ 109 ∷ 101 ∷ 110 ∷ 116 ∷ 97 ∷ 116 ∷ 105 ∷ 111 ∷ 110 ∷ 32 ∷ 102 ∷ 97 ∷ 117
        ∷ 108 ∷ 116 ∷ [])
    ∷ []

-- The conversion 'e': the least integer has no absolute value.
unfoldable pub format_error : ℕ → Run (List ℕ)
format_error a =
    let err = if leb (2 ^ 31) a then 2 ^ 32 - a else a in
    if err == 2 ^ 31
    then fault
    else elim (if err == 0 then none else get_elem? error_string (err - 1)) [
      | some out ↦ ok out
      | none ↦
          printnum number_fuel err 10 0 32 >>= (λ out. ok (101 ∷ 114 ∷ 114 ∷ 111 ∷ 114 ∷ 32 ∷ out))
    ]

abbrev with_arg : List ℕ → (ℕ → List ℕ → Run (List ℕ × List ℕ)) → Run (List ℕ × List ℕ)
with_arg [] f = fault
with_arg (a ∷ rest) f = f a rest

-- The conversions: the output and the arguments left; `none` where the character is none.
unfoldable pub convert : (ℕ → List ℕ) → ℕ → Spec → List ℕ → Option (Run (List ℕ × List ℕ))
unfolding getuint getint format_string format_signed format_error
convert text c sp args =
    if c == 99
    then some (with_arg args (λ a rest. ok (a ∷ [], rest)))
    else (if c == 101
        then some (with_arg args (λ a rest. format_error a >>= (λ out. ok (out, rest))))
        else (if c == 115
            then some (
                with_arg args
                  (λ a rest. ok (format_string sp (if a == 0 then null_text else text a), rest)))
            else (if c == 100
                then some (getint sp.lflag args >>= (λ r. format_signed r.0 sp r.1))
                else (if c == 117
                    then some (getuint sp.lflag args >>= (λ r. number r.0 10 sp r.1))
                    else (if c == 111
                        then some (ok (88 ∷ 88 ∷ 88 ∷ [], args))
                        else (if c == 112
                            then some (
                                with_arg args (λ a rest.
                                  number a 16 sp rest >>= (λ r. ok (48 ∷ 120 ∷ r.0, r.1))))
                            else (if c == 120
                                then some (getuint sp.lflag args >>= (λ r. number r.0 16 sp r.1))
                                else (if c == 37 then some (ok (37 ∷ [], args)) else none))))))))

-- Where the loop is: in plain text; after '%' and the characters `seen`; or in a number of a width or
-- precision.
pub data Mode : Type 0 where
  plain : Mode
  escape : Spec → List ℕ → Mode
  digits : ℕ → Spec → List ℕ → Mode

-- The switch of vprintfmt, given what happens to the text after the character. An unrecognized sequence
-- is printed as it is.
unfoldable pub switch :
    (ℕ → List ℕ) → ℕ → Spec → List ℕ → List ℕ → (Mode → List ℕ → Run (List ℕ)) → Run (List ℕ)
unfolding process convert
switch text c sp seen args go =
    let seen' = seen ++ c ∷ [] in
    if c == 45
    then go (escape (record sp { padc = 45 }) seen') args
    else (if c == 48
        then go (escape (record sp { padc = 48 }) seen') args
        else (if leb 49 c && leb c 57
            then go (digits (c - 48) sp seen') args
            else (if c == 42
                then (elim args [
                  | [] ↦ fault
                  | a ∷ rest ↦ go (escape (process (int_arg a) sp) seen') rest
                ])
                else (if c == 46
                    then go (escape (record sp { width = some (width_of sp) }) seen') args
                    else (if c == 35
                        then go (escape (record sp { alt = true }) seen') args
                        else (if c == 108
                            then go (escape (record sp { lflag = sp.lflag + 1 }) seen') args
                            else (elim (convert text c sp args) [
                              | none ↦ go plain args >>= (λ out. ok (37 ∷ seen' ++ out))
                              | some r ↦ r >>= (λ o. go plain o.1 >>= (λ out. ok (o.0 ++ out)))
                            ])))))))

-- vprintfmt: its output
unfoldable pub vprintfmt : (ℕ → List ℕ) → List ℕ → Mode → List ℕ → Run (List ℕ)
unfolding switch process
vprintfmt text [] plain args = ok []
vprintfmt text [] (escape sp seen) args = ok (37 ∷ seen)
vprintfmt text [] (digits n sp seen) args = ok (37 ∷ seen)
vprintfmt text (c ∷ cs) plain args =
    let go = λ (m : Mode). vprintfmt text cs m args in
    if c == 37 then go (escape default_spec []) else go plain >>= (λ out. ok (c ∷ out))
vprintfmt text (c ∷ cs) (escape sp seen) args =
    switch text c sp seen args (λ m rest. vprintfmt text cs m rest)
vprintfmt text (c ∷ cs) (digits n sp seen) args =
    let go = λ (m : Mode) (rest : List ℕ). vprintfmt text cs m rest in
    if leb 48 c && leb c 57
    then go (digits (n * 10 + (c - 48)) sp (seen ++ c ∷ [])) args
    else switch text c (process (some n) sp) seen args go
