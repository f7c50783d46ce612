-- ===== src/Strings.antt =====
-- lib/string.c: blocks of memory and strings. Memory is a function of the address, and a `char` is the
-- number of its byte. Pointers do not wrap around: an object of C ends below 2^32. The loops that
-- only a byte of the memory ends run on fuel, which is the number of bytes they may read.
use os_memory_management.Base.{
  ℕ, zero, suc, ◌+◌, ◌-◌, ◌*◌, ◌/◌, ◌%◌, ◌^◌, Bool, true, false, not, ◌&&◌, ◌||◌, ltb, leb, ◌==◌,
  if◌then◌else◌, update, Run, ok, fault, out_of_fuel, ◌>>=◌,
}
use os_memory_management.Mmu.{sub32}
pub mod Move
pub mod Length
pub mod Bounded
pub mod Numbers
pub mod Parsed
pub mod Words

abbrev pub Memory : Type 0
Memory = ℕ → ℕ

-- `n` bytes from `p` on are set to `c`.
unfoldable pub fill : ℕ → ℕ → ℕ → Memory → Memory
fill zero p c m = m
fill (suc n) p c m = fill n (p + 1) c (update m p (c % 256))

-- memset: the count is an int, so the loop does not run for counts from 2^31 on.
unfoldable pub memset : ℕ → ℕ → ℕ → Memory → Memory
unfolding fill
memset v c n m = if ltb n (2 ^ 31) then fill n v c m else m

-- `while (n-- > 0) *d++ = *s++`
unfoldable pub copy_up : ℕ → ℕ → ℕ → Memory → Memory
copy_up zero d s m = m
copy_up (suc n) d s m = copy_up n (d + 1) (s + 1) (update m d (m s))

-- `while (n-- > 0) *--d = *--s`
unfoldable pub copy_down : ℕ → ℕ → ℕ → Memory → Memory
copy_down zero d s m = m
copy_down (suc n) d s m = copy_down n (d - 1) (s - 1) (update m (d - 1) (m (s - 1)))

-- memcpy
unfoldable pub memcpy : ℕ → ℕ → ℕ → Memory → Memory
unfolding copy_up
memcpy dst src n m = copy_up n dst src m

-- memmove
unfoldable pub memmove : ℕ → ℕ → ℕ → Memory → Memory
unfolding copy_up copy_down
memmove dst src n m =
    if ltb src dst && ltb dst (src + n)
    then copy_down n (dst + n) (src + n) m
    else copy_up n dst src m

-- memcmp: an int in two's complement.
unfoldable pub memcmp : ℕ → ℕ → ℕ → Memory → ℕ
memcmp a b zero m = 0
memcmp a b (suc n) m =
    let rest = memcmp (a + 1) (b + 1) n m in if m a == m b then rest else sub32 (m a) (m b)

-- memfind: `n` bytes are left.
unfoldable pub memfind : ℕ → ℕ → ℕ → Memory → ℕ
memfind s c zero m = s
memfind s c (suc n) m = let rest = memfind (s + 1) c n m in if m s == c % 256 then s else rest

-- The loop of strlen, which counts in `n`.
unfoldable pub strlen_loop : ℕ → ℕ → ℕ → Memory → Run ℕ
strlen_loop zero n s m = out_of_fuel
strlen_loop (suc fuel) n s m =
    let rest = strlen_loop fuel (n + 1) (s + 1) m in if m s == 0 then ok n else rest

-- strlen
unfoldable pub strlen : ℕ → ℕ → Memory → Run ℕ
unfolding strlen_loop
strlen fuel s m = strlen_loop fuel 0 s m

-- strnlen
unfoldable pub strnlen : ℕ → ℕ → Memory → ℕ
strnlen s zero m = 0
strnlen s (suc size) m = let rest = strnlen (s + 1) size m in if m s == 0 then 0 else rest + 1

-- strcpy
unfoldable pub strcpy : ℕ → ℕ → ℕ → Memory → Run Memory
strcpy zero dst src m = out_of_fuel
strcpy (suc fuel) dst src m =
    let m1 = update m dst (m src) in
    let rest = strcpy fuel (dst + 1) (src + 1) m1 in if m src == 0 then ok m1 else rest

-- strncpy
unfoldable pub strncpy : ℕ → ℕ → ℕ → Memory → Memory
strncpy dst src zero m = m
strncpy dst src (suc size) m =
    let m1 = update m dst (m src) in
    strncpy (dst + 1) (if m1 src == 0 then src else src + 1) size m1

-- The loop of strlcpy: `left` is the size less one. The result has the final `dst`.
unfoldable pub strlcpy_loop : ℕ → ℕ → ℕ → Memory → ℕ × Memory
strlcpy_loop zero dst src m = (dst, m)
strlcpy_loop (suc left) dst src m =
    let rest = strlcpy_loop left (dst + 1) (src + 1) (update m dst (m src)) in
    if m src == 0 then (dst, m) else rest

-- strlcpy: the number of bytes copied, and the memory.
unfoldable pub strlcpy : ℕ → ℕ → ℕ → Memory → ℕ × Memory
unfolding strlcpy_loop
strlcpy dst src zero m = (0, m)
strlcpy dst src (suc size) m =
    let (end, m1) = strlcpy_loop size dst src m in (end - dst, update m1 end 0)

-- strcmp
unfoldable pub strcmp : ℕ → ℕ → ℕ → Memory → Run ℕ
strcmp zero p q m = out_of_fuel
strcmp (suc fuel) p q m =
    let rest = strcmp fuel (p + 1) (q + 1) m in
    if not (m p == 0) && m p == m q then rest else ok (sub32 (m p) (m q))

-- strncmp
unfoldable pub strncmp : ℕ → ℕ → ℕ → Memory → ℕ
strncmp p q zero m = 0
strncmp p q (suc n) m =
    let rest = strncmp (p + 1) (q + 1) n m in
    if not (m p == 0) && m p == m q then rest else sub32 (m p) (m q)

-- strchr, with 0 for the null pointer
unfoldable pub strchr : ℕ → ℕ → ℕ → Memory → Run ℕ
strchr zero s c m = out_of_fuel
strchr (suc fuel) s c m =
    let rest = strchr fuel (s + 1) c m in if m s == 0 then ok 0 else if m s == c then ok s else rest

-- strfind
unfoldable pub strfind : ℕ → ℕ → ℕ → Memory → Run ℕ
strfind zero s c m = out_of_fuel
strfind (suc fuel) s c m =
    let rest = strfind fuel (s + 1) c m in
    if m s == 0 then ok s else if m s == c then ok s else rest

-- strcconcat
unfoldable pub strcconcat : ℕ → ℕ → ℕ → ℕ → Memory → Run Memory
unfolding strlen copy_up
strcconcat fuel str1 str2 final m = strlen fuel str1 m >>= (λ len1. strlen fuel str2 m >>= (λ len2.
    let m1 = copy_up len1 final str1 m in
    let m2 = copy_up len2 (final + len1) str2 m1 in ok (update m2 (final + len1 + len2) 0)))
