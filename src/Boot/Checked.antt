-- ===== src/Boot/Checked.antt =====
-- check_va2pa of kern/helpers.c after boot_map_range of kern/memory_manager.c.
use os_memory_management.Base.{
  ℕ, zero, suc, ◌+◌, ◌-◌, ◌*◌, ◌/◌, ◌%◌, ◌^◌, ◌≤◌, ◌<◌, ◌≡◌, ◌⊎◌, inl, inr, refl, sym, ap, ◌∙◌,
  arith, true, Bool-cases, ltb, lt→ltb, if◌then◌else◌, ok, Returns, returns,
}
use os_memory_management.Mmu.{kernel_base, add32, pdx, ptx, ppn, is_present, extract_address}
use os_memory_management.Boot.{Boot, present_entry, word_of, boot_map_range, check_va2pa}
use os_memory_management.Boot.Tables.{HasTable, IsBoot, Room}
use os_memory_management.Boot.Mapped.{Reserve, entry, entry_word, loop_lem}

-- What check_va2pa makes of the entry of a page
abbrev address_of : ℕ → ℕ
address_of e = if is_present e then extract_address e else 2 ^ 32 - 1

check_lem :
    (q : ℕ) (s : Boot)
    → q < 2 ^ 20
    → HasTable s (q / 1024)
    → Room 0 s
    → check_va2pa (q * 4096) s ≡ ok (address_of (entry s q))
unfolding check_va2pa
check_lem q s small t room =
    let d = s.dir (q / 1024) in
    let index : pdx (q * 4096) ≡ q / 1024 = omega (arith, small) in
    let exists : ltb (ppn (extract_address d)) s.count ≡ true =
      lt→ltb _ _ (omega (arith, t.below_free, room.0)) in
    let word : word_of (add32 (extract_address d) kernel_base) (ptx (q * 4096)) ≡ entry_word s q =
      omega (arith, small, t.below_free, room.0, room.1) in
    rw (index, t.present, exists, word) refl

Reserve-Room : (n p : ℕ) (s : Boot) → Reserve n p s → Room 0 s
Reserve-Room zero p s room = room
Reserve-Room (suc n) p s (inl (t, room)) = (omega (arith, room.0), room.1)
Reserve-Room (suc n) p s (inr room) = (omega (arith, room.0), room.1)

address_lem : (f perm : ℕ) → perm < 4096 → address_of (present_entry (f * 4096) perm) ≡ f * 4096
address_lem f perm lt = elim (Bool-cases (is_present perm)) [
  | inl odd ↦
      let o : perm % 2 ≡ 1 = ground (arith, odd) in
      let p : is_present (f * 4096 + perm) ≡ true = ground (arith, o) in
      rw (odd, p) (omega (arith, lt))
  | inr even ↦
      let o : perm % 2 ≡ 0 = ground (arith, even) in
      let p : is_present (f * 4096 + (perm + 1)) ≡ true = ground (arith, o) in
      rw (even, p) (omega (arith, lt, o))
]

-- The `n` pages from `p` on are mapped to the frames from `f` on, and all other pages that had a table
-- are mapped as before; page tables are still apart.
pub record Maps (n p f : ℕ) (s s' : Boot) : Type 0 where
  pub is_boot : IsBoot s'
  pub range : (k : ℕ) → k < n → check_va2pa ((p + k) * 4096) s' ≡ ok ((f + k) * 4096)
  pub others :
      (q : ℕ)
      → q < 2 ^ 20
      → (q < p) ⊎ (p + n ≤ q)
      → HasTable s (q / 1024)
      → check_va2pa (q * 4096) s' ≡ check_va2pa (q * 4096) s

-- boot_map_range maps the pages of the range to the frames of the physical range, in order, as check_va2pa
-- reads them, and all other pages whose page table was there as before; no two page tables have the same
-- frame. The addresses are divisible by 4096, both ranges end at 4 GB at the latest, the page tables
-- are apart before, and the memory is enough for a page table for every 4 MB that the range touches, the
-- first excepted where that has one.
pub boot_map_range-Maps :
    (n fuel p size f perm : ℕ) (s : Boot)
    → n < fuel
    → size ≤ n * 4096
    → n * 4096 < size + 4096
    → size + 4096 ≤ 2 ^ 32
    → p + n ≤ 2 ^ 20
    → f + n ≤ 2 ^ 20
    → perm < 4096
    → IsBoot s
    → Reserve n p s
    → Returns
        (Maps n p f s)
        (boot_map_range fuel (p * 4096 % 2 ^ 32) size (f * 4096 % 2 ^ 32) perm s)
unfolding boot_map_range
boot_map_range-Maps n fuel p size f perm s enough lo hi small pn fn perms v room =
    elim (loop_lem n fuel 0 p size (f * 4096) perm s enough (omega arith) (omega arith) small pn
      (omega arith) v room) [
        | returns s' q r ↦ returns s' q record {
          is_boot = r.is_boot;
          range = λ k lt.
              let (t, e) = r.mapped k lt in
              let start : f * 4096 + k * 4096 ≡ (f + k) * 4096 = omega arith in
              check_lem (p + k) s' (omega arith) t r.room
              ∙ ap (λ b. ok (address_of b)) (e ∙ ap (λ b. present_entry b perm) start)
              ∙ ap ok (address_lem (f + k) perm perms);
          others = λ q small' out t.
              let (t', e) = r.kept q out t in
              check_lem q s' small' t' r.room
              ∙ ap (λ b. ok (address_of b)) e
              ∙ sym (check_lem q s small' t (Reserve-Room n p s room));
        }
      ]
