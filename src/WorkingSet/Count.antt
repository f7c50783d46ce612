-- ===== src/WorkingSet/Count.antt =====
-- How the operations on an element of the page working set change the number of pages in it.
use native.Mathlib.Decide.{ℕ_discrete}
use os_memory_management.Base.{
  ℕ, zero, suc, ◌+◌, ◌^◌, ◌≤◌, ◌<◌, ◌≡◌, ◌≢◌, refl, sym, ap, arith, ◌==◌, lt→ltb, if◌then◌else◌,
  update, update_self, update-ne, ok, Returns, returns,
}
use os_memory_management.Mmu.{page_size, user_top, round_down}
use os_memory_management.WorkingSet.{
  Element, Env, count_used, cleared, entered, page_get_size, page_get_va, page_get_time_stamp,
  page_clear_entry, page_set_entry,
}

round_down-twice :
    (va : ℕ)
    → va < 2 ^ 32
    → round_down (round_down va page_size) page_size ≡ round_down va page_size
unfolding round_down
round_down-twice va lt = omega arith

abbrev pub used : Element → ℕ
used x = if x.empty == 0 then 1 else 0

count_used-beyond :
    (n i : ℕ) (x : Element) (ws : ℕ → Element)
    → n ≤ i
    → count_used n (update ws i x) ≡ count_used n ws
unfolding count_used
count_used-beyond zero i x ws le = refl
count_used-beyond (suc n) i x ws le =
    let same = update-ne ws i n x (λ e. omega arith) in
    rw (count_used-beyond n i x ws (omega arith), same) refl

count_used-update :
    (n i : ℕ) (x : Element) (ws : ℕ → Element)
    → i < n
    → count_used n (update ws i x) + used (ws i) ≡ count_used n ws + used x
unfolding count_used
count_used-update zero i x ws lt = absurd (omega arith)
count_used-update (suc n) i x ws lt = elim (ℕ_discrete i n) [
  | yes e ↦
      rw (sym e)
        (omega (arith, count_used-beyond i i x ws (omega arith), ap used (update_self ws i x)))
  | no ne ↦
      let ih = count_used-update n i x ws (omega arith) in rw (update-ne ws i n x ne) (omega arith)
]

-- A page below USER_TOP entered at an empty index within the set adds one to the size, and is
-- read back, with a fresh stamp.
page_set_entry-size :
    (i va : ℕ) (e : Env)
    → i < e.page_max
    → va < user_top
    → (e.pages i).empty ≢ 0
    → Returns
        (λ e'.
          (page_get_size e' ≡ page_get_size e + 1)
          × (page_get_va i e' ≡ ok (round_down va page_size))
          × (page_get_time_stamp i e' ≡ ok 0x80000000))
        (page_set_entry i va e)
unfolding page_set_entry page_get_size page_get_va page_get_time_stamp
page_set_entry-size i va e lt user vacant =
    let more = count_used-update e.page_max i (entered (round_down va page_size)) e.pages lt in
    let free : used (e.pages i) ≡ 0 = ground (arith, vacant) in
    rw (lt→ltb _ _ lt, lt→ltb _ _ user)
      (returns _ refl (
        omega arith,
        rw (update_self e.pages i (entered (round_down va page_size)), lt→ltb _ _ lt)
            (ap ok (round_down-twice va (omega arith))),
        rw (update_self e.pages i (entered (round_down va page_size)), lt→ltb _ _ lt) refl,
      ))

-- Clearing an element in use, within the set, takes one from the size.
page_clear_entry-size :
    (i : ℕ) (e : Env)
    → i < e.page_max
    → (e.pages i).empty ≡ 0
    → Returns (λ e'. page_get_size e' + 1 ≡ page_get_size e) (page_clear_entry i e)
unfolding page_clear_entry page_get_size
page_clear_entry-size i e lt full =
    let less = count_used-update e.page_max i cleared e.pages lt in
    let one : used (e.pages i) ≡ 1 = ground (arith, full) in
    rw (lt→ltb _ _ lt) (returns _ refl (omega arith))
