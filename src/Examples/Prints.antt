-- ===== src/Examples/Prints.antt =====
-- Formatted output at concrete inputs.
use os_memory_management.Base.{ℕ, ◌≡◌, refl, arith, some, List, [], ◌∷◌, ok, Returns}
use os_memory_management.Format.{vprintfmt, plain, printnum}
use os_memory_management.Format.Digits.{Printed, printnum-Printed}
use os_memory_management.Print.{vsnprintf, vcprintf}
use os_memory_management.Print.Bounded.{Written, vsnprintf-Written}
use os_memory_management.Print.Flushed.{Sent, vcprintf-Sent}

-- "a%-5d|%05x|%q" of 4294967289 and 255
abbrev fmt : List ℕ
fmt = 97 ∷ 37 ∷ 45 ∷ 53 ∷ 100 ∷ 124 ∷ 37 ∷ 48 ∷ 53 ∷ 120 ∷ 124 ∷ 37 ∷ 113 ∷ []

fmt_test :
    vprintfmt (λ p. []) fmt plain (4294967289 ∷ 255 ∷ [])
    ≡ ok (97 ∷ 45 ∷ 45 ∷ 45 ∷ 45 ∷ 45 ∷ 55 ∷ 124 ∷ 48 ∷ 48 ∷ 48 ∷ 102 ∷ 102 ∷ 124 ∷ 37 ∷ 113 ∷ [])
unfolding vprintfmt printnum
fmt_test = refl

-- "ab%d" of 12, in a buffer of 4 bytes
abbrev short : List ℕ
short = 97 ∷ 98 ∷ 37 ∷ 100 ∷ []

short_lem : vprintfmt (λ p. []) short plain (12 ∷ []) ≡ ok (97 ∷ 98 ∷ 49 ∷ 50 ∷ [])
unfolding vprintfmt printnum
short_lem = refl

vsnprintf_example :
    Returns
      (λ r. (r.0 ≡ some 4) × Written 100 4 (97 ∷ 98 ∷ 49 ∷ 50 ∷ []) (λ a. 7) r.1)
      (vsnprintf (λ p. []) 100 4 short (12 ∷ []) (λ a. 7))
vsnprintf_example =
    vsnprintf-Written (λ p. []) 100 4 short (12 ∷ []) (λ a. 7) (97 ∷ 98 ∷ 49 ∷ 50 ∷ [])
      (omega arith) (omega arith) short_lem

vcprintf_example :
    Returns (Sent (97 ∷ 98 ∷ 49 ∷ 50 ∷ [])) (vcprintf (λ p. []) short (12 ∷ []) (λ a. 7))
vcprintf_example =
    vcprintf-Sent (λ p. []) short (12 ∷ []) (λ a. 7) (97 ∷ 98 ∷ 49 ∷ 50 ∷ []) short_lem

printnum_example : Returns (Printed 255 16 5 48) (printnum 64 255 16 5 48)
printnum_example =
    printnum-Printed 64 255 16 5 48 (omega arith) (omega arith) (omega arith) (omega arith)
