-- ===== src/Keyboard.antt =====
-- kern/console.c: the keyboard, a state machine over the scan codes. Its tables have the codes of
-- characters; the entries that are given by index are in a function of their own.
pub mod Codes
use os_memory_management.Base.{
  ℕ, zero, suc, ◌+◌, ◌-◌, Bool, true, false, not, ◌&&◌, ◌||◌, List, [], ◌∷◌, get_or, Option, none,
  some, ltb, leb, ◌==◌, if◌then◌else◌,
}

-- The flags of `shift`: SHIFT, CTL, ALT, CAPSLOCK, NUMLOCK, SCROLLLOCK and E0ESC.
pub record Flags : Type 0 where
  pub shift : Bool
  pub ctl : Bool
  pub alt : Bool
  pub caps : Bool
  pub num : Bool
  pub scroll : Bool
  pub escape : Bool

-- shiftcode: the key is one of SHIFT, CTL, ALT.
unfoldable pub is_shift : ℕ → Bool
is_shift key = key == 0x2A || key == 0x36

unfoldable pub is_ctl : ℕ → Bool
is_ctl key = key == 0x1D || key == 0x9D

unfoldable pub is_alt : ℕ → Bool
is_alt key = key == 0x38 || key == 0xB8

abbrev xor : Bool → Bool → Bool
xor true b = not b
xor false b = b

-- `shift |= shiftcode[key]; shift ^= togglecode[key]`
unfoldable pub press : ℕ → Flags → Flags
unfolding is_shift is_ctl is_alt
press key f = record {
  shift = f.shift || is_shift key;
  ctl = f.ctl || is_ctl key;
  alt = f.alt || is_alt key;
  caps = xor (key == 0x3A) f.caps;
  num = xor (key == 0x45) f.num;
  scroll = xor (key == 0x46) f.scroll;
  escape = f.escape;
}

-- `shift &= ~(shiftcode[key] | E0ESC)`
unfoldable pub release : ℕ → Flags → Flags
unfolding is_shift is_ctl is_alt
release key f = record f {
  shift = f.shift && not (is_shift key);
  ctl = f.ctl && not (is_ctl key);
  alt = f.alt && not (is_alt key);
  escape = false;
}

-- normalmap, shiftmap and ctlmap from index 0 on
abbrev pub normalmap : List ℕ
normalmap =
    0 ∷ 27 ∷ 49 ∷ 50 ∷ 51 ∷ 52 ∷ 53 ∷ 54 ∷ 55 ∷ 56 ∷ 57 ∷ 48 ∷ 45 ∷ 61 ∷ 8 ∷ 9 ∷ 113 ∷ 119 ∷ 101
    ∷ 114 ∷ 116 ∷ 121 ∷ 117 ∷ 105 ∷ 111 ∷ 112 ∷ 91 ∷ 93 ∷ 10 ∷ 0 ∷ 97 ∷ 115 ∷ 100 ∷ 102 ∷ 103 ∷ 104
    ∷ 106 ∷ 107 ∷ 108 ∷ 59 ∷ 39 ∷ 96 ∷ 0 ∷ 92 ∷ 122 ∷ 120 ∷ 99 ∷ 118 ∷ 98 ∷ 110 ∷ 109 ∷ 44 ∷ 46 ∷ 47
    ∷ 0 ∷ 42 ∷ 0 ∷ 32 ∷ 0 ∷ 0 ∷ 0 ∷ 0 ∷ 0 ∷ 0 ∷ 0 ∷ 0 ∷ 0 ∷ 0 ∷ 0 ∷ 0 ∷ 0 ∷ 55 ∷ 56 ∷ 57 ∷ 45 ∷ 52
    ∷ 53 ∷ 54 ∷ 43 ∷ 49 ∷ 50 ∷ 51 ∷ 48 ∷ 46 ∷ 0 ∷ 0 ∷ 0 ∷ 0 ∷ []

abbrev pub shiftmap : List ℕ
shiftmap =
    0 ∷ 27 ∷ 33 ∷ 64 ∷ 35 ∷ 36 ∷ 37 ∷ 94 ∷ 38 ∷ 42 ∷ 40 ∷ 41 ∷ 95 ∷ 43 ∷ 8 ∷ 9 ∷ 81 ∷ 87 ∷ 69 ∷ 82
    ∷ 84 ∷ 89 ∷ 85 ∷ 73 ∷ 79 ∷ 80 ∷ 123 ∷ 125 ∷ 10 ∷ 0 ∷ 65 ∷ 83 ∷ 68 ∷ 70 ∷ 71 ∷ 72 ∷ 74 ∷ 75 ∷ 76
    ∷ 58 ∷ 34 ∷ 126 ∷ 0 ∷ 124 ∷ 90 ∷ 88 ∷ 67 ∷ 86 ∷ 66 ∷ 78 ∷ 77 ∷ 60 ∷ 62 ∷ 63 ∷ 0 ∷ 42 ∷ 0 ∷ 32
    ∷ 0 ∷ 0 ∷ 0 ∷ 0 ∷ 0 ∷ 0 ∷ 0 ∷ 0 ∷ 0 ∷ 0 ∷ 0 ∷ 0 ∷ 0 ∷ 55 ∷ 56 ∷ 57 ∷ 45 ∷ 52 ∷ 53 ∷ 54 ∷ 43 ∷ 49
    ∷ 50 ∷ 51 ∷ 48 ∷ 46 ∷ 0 ∷ 0 ∷ 0 ∷ 0 ∷ []

abbrev pub ctlmap : List ℕ
ctlmap =
    0 ∷ 0 ∷ 0 ∷ 0 ∷ 0 ∷ 0 ∷ 0 ∷ 0 ∷ 0 ∷ 0 ∷ 0 ∷ 0 ∷ 0 ∷ 0 ∷ 0 ∷ 0 ∷ 17 ∷ 23 ∷ 5 ∷ 18 ∷ 20 ∷ 25 ∷ 21
    ∷ 9 ∷ 15 ∷ 16 ∷ 0 ∷ 0 ∷ 13 ∷ 0 ∷ 1 ∷ 19 ∷ 4 ∷ 6 ∷ 7 ∷ 8 ∷ 10 ∷ 11 ∷ 12 ∷ 0 ∷ 0 ∷ 0 ∷ 0 ∷ 28 ∷ 26
    ∷ 24 ∷ 3 ∷ 22 ∷ 2 ∷ 14 ∷ 13 ∷ 0 ∷ 0 ∷ 239 ∷ 0 ∷ 0 ∷ []

-- The entries that normalmap and shiftmap, and ctlmap, have by index.
unfoldable pub special : ℕ → ℕ
special key =
    if key == 0x97
    then 224
    else (if key == 0x9C
        then 10
        else (if key == 0xB5
            then 47
            else (if key == 0xC8
                then 226
                else (if key == 0xC9
                    then 230
                    else (if key == 0xCB
                        then 228
                        else (if key == 0xCD
                            then 229
                            else (if key == 0xCF
                                then 225
                                else (if key == 0xD0
                                    then 227
                                    else (if key == 0xD1
                                        then 231
                                        else (if key == 0xD2
                                            then 232
                                            else (if key == 0xD3 then 233 else 0)))))))))))

unfoldable pub ctl_special : ℕ → ℕ
ctl_special key =
    if key == 0x97
    then 224
    else (if key == 0xB5
        then 239
        else (if key == 0xC8
            then 226
            else (if key == 0xC9
                then 230
                else (if key == 0xCB
                    then 228
                    else (if key == 0xCD
                        then 229
                        else (if key == 0xCF
                            then 225
                            else (if key == 0xD0
                                then 227
                                else (if key == 0xD1
                                    then 231
                                    else (if key == 0xD2
                                        then 232
                                        else (if key == 0xD3 then 233 else 0))))))))))

unfoldable pub entry : List ℕ → (ℕ → ℕ) → ℕ → ℕ
entry table by_index key = let c = get_or table key 0 in if c == 0 then by_index key else c

-- `charcode[shift & (CTL | SHIFT)][key]`
unfoldable pub char_code : Flags → ℕ → ℕ
unfolding entry special ctl_special
char_code f key =
    if f.ctl
    then entry ctlmap ctl_special key
    else if f.shift
    then entry shiftmap special key
    else entry normalmap special key

-- The other case of a letter.
unfoldable pub other_case : ℕ → ℕ
other_case c = if leb 97 c && leb c 122 then c - 32 else if leb 65 c && leb c 90 then c + 32 else c

-- What kbd_proc_data returns, whether it reboots, and the flags.
pub record Key : Type 0 where
  pub result : ℕ
  pub reboot : Bool
  pub flags : Flags

unfoldable pub key_down : ℕ → Flags → Key
unfolding press char_code other_case
key_down key f0 =
    let f = press key f0 in
    let c = char_code f key in
    let c1 = if f.caps then other_case c else c in
    record { result = c1; reboot = f.ctl && f.alt && c1 == 0xE9; flags = f }

-- kbd_proc_data, given a byte of the keyboard.
unfoldable pub kbd_proc_data : ℕ → Flags → Key
unfolding release key_down
kbd_proc_data scan f =
    if scan == 0xE0
    then record { result = 0; reboot = false; flags = record f { escape = true } }
    else if leb 0x80 scan
    then record {
      result = 0;
      reboot = false;
      flags = release (if f.escape then scan else scan - 0x80) f;
    }
    else if f.escape
    then key_down (scan + 0x80) (record f { escape = false })
    else key_down scan f

-- What kbd_proc_data returns for the bytes of the keyboard, one call after the other, until there is
-- none left and it returns -1.
unfoldable pub kbd_results : List ℕ → Flags → List ℕ
unfolding kbd_proc_data
kbd_results [] f = []
kbd_results (b ∷ bs) f = let k = kbd_proc_data b f in k.result ∷ kbd_results bs k.flags
