-- ===== src/Examples/Numbers.antt =====
-- Numbers in text and the words of a text, at concrete inputs.
use os_memory_management.Base.{
  ◌+◌, ◌*◌, ◌≡◌, refl, arith, true, [], ◌∷◌, update, ok, false, ◌==◌, Returns, ◌>>=◌,
}
use os_memory_management.Strings.{Memory}
use os_memory_management.Strings.Numbers.{
  strtol, strtol_from, strtol_digits, strtol_prefix, skip_space, digit_in, ltostr, ltostr_digits,
  reverse_chars,
}
use os_memory_management.Strings.Parsed.{strtol-printnum}
use os_memory_management.Strings.Words.{strsplit, max_words, starts, Split, strsplit-Split}
use os_memory_management.Format.{printnum}

-- "-120" at the address 10
abbrev text : Memory
text = update (update (update (update (λ a. 0) 10 45) 11 49) 12 50) 13 48

printed : printnum 64 120 10 0 32 ≡ ok (49 ∷ 50 ∷ 48 ∷ [])
unfolding printnum
printed = refl

strtol_example : strtol 20 10 10 text ≡ ok (4294967176, 14)
strtol_example =
    strtol-printnum 120 20 10 true text (49 ∷ 50 ∷ 48 ∷ []) (omega arith) printed
      (refl, (refl, (refl, (refl, (refl, tt))))) (omega arith)

strtol_test : strtol 20 11 16 text ≡ ok (288, 14)
unfolding strtol skip_space strtol_from strtol_digits digit_in strtol_prefix
strtol_test = refl

-- ltostr stops at a 0 within the number: of 101 it writes the last digit.
ltostr_test : ltostr 101 10 (λ a. 0) >>= (λ m. ok (m 10 + 256 * m 11)) ≡ ok 49
unfolding ltostr ltostr_digits reverse_chars
ltostr_test = refl

-- "ab c" at the address 100
abbrev command : Memory
command = update (update (update (update (λ a. 0) 100 97) 101 98) 102 32) 103 99

strsplit_example :
    Returns
      (Split max_words (starts (λ c. c == 32) 100 false (97 ∷ 98 ∷ 32 ∷ 99 ∷ [])))
      (strsplit (λ c. c == 32) 20 100 command)
strsplit_example =
    strsplit-Split (λ c. c == 32) (97 ∷ 98 ∷ 32 ∷ 99 ∷ []) 20 100 command
      ((refl, (refl, (refl, (refl, (refl, tt))))), omega arith) (omega arith) (omega arith)

starts_test : starts (λ c. c == 32) 100 false (97 ∷ 98 ∷ 32 ∷ 99 ∷ []) ≡ 100 ∷ 103 ∷ []
starts_test = refl
