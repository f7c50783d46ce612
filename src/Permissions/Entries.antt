-- ===== src/Permissions/Entries.antt =====
-- Setting and reading the flags of a page's entry in kern/memory_manager.c.
use os_memory_management.Base.{
  ℕ, ◌+◌, ◌*◌, ◌^◌, ◌<◌, ◌≡◌, ◌≢◌, refl, sym, ap, ◌∙◌, arith, true, false, some, ltb, lt→ltb, ◌==◌,
  update, update-ne, update_self, bit_and, Run, ok, Returns, returns,
}
use os_memory_management.Mmu.{kernel_base, user_top, pdx, ptx, is_present}
use os_memory_management.Permissions.{
  Space, table_address, change_entry, set_flags, pt_set_page_permissions, pt_get_page_permissions,
}
use os_memory_management.Permissions.Bits.{HasFlags, HasLow, set_flags-HasFlags, bit_and-HasLow}

-- The entry of a page is `e`, in a table in memory or in one in the page file.
pub data HasEntry (va e : ℕ) (s : Space) : Type 0 where
  in_memory :
      (t : ℕ)
      → is_present (s.dir (pdx va)) ≡ true
      → table_address va s ≡ ok t
      → s.memory (t + 4 * ptx va) ≡ e
      → HasEntry va e s
  on_disk :
      (t : ℕ → ℕ)
      → is_present (s.dir (pdx va)) ≡ false
      → s.dir (pdx va) ≢ 0
      → va < kernel_base
      → s.disk (pdx va) ≡ some t
      → t (ptx va) ≡ e
      → HasEntry va e s

-- Pages of one table, whose addresses are on the same side of USER_TOP
same_side :
    (va vb : ℕ) → va < 2 ^ 32 → vb < 2 ^ 32 → pdx va ≡ pdx vb → ltb va user_top ≡ ltb vb user_top
same_side va vb la lb e = ground (arith, la, lb, e)

some_injective : {A : Type 0} {x y : A} → some x ≡ some y → x ≡ y
some_injective q = cc

ok_same : {A : Type 0} {x y : A} {r : Run A} → r ≡ ok x → r ≡ ok y → x ≡ y
ok_same p q = cc

-- What a change of the entry of a page leaves: the entry has the new value, and those of the other pages
-- of the table are as before.
pub record Changed (va e : ℕ) (s s' : Space) : Type 0 where
  pub here : HasEntry va e s'
  pub others :
      (vb b : ℕ)
      → vb < 2 ^ 32
      → pdx vb ≡ pdx va
      → ptx vb ≢ ptx va
      → HasEntry vb b s
      → HasEntry vb b s'

-- The state with the entry of a page changed in memory, and in the page file
abbrev in_table : ℕ → ℕ → ℕ → Space → Space
in_table t va v s = record s { memory = update s.memory (t + 4 * ptx va) v }

abbrev in_file : (ℕ → ℕ) → ℕ → ℕ → Space → Space
in_file t va v s = record s {
  temp = update t (ptx va) v;
  disk = update s.disk (pdx va) (some (update t (ptx va) v));
}

in_table-address :
    (t va v vb : ℕ) (s : Space) → table_address vb (in_table t va v s) ≡ table_address vb s
unfolding table_address
in_table-address t va v vb s = refl

in_file-address :
    (t : ℕ → ℕ) (va v vb : ℕ) (s : Space) → table_address vb (in_file t va v s) ≡ table_address vb s
unfolding table_address
in_file-address t va v vb s = refl

same_table :
    (va vb : ℕ) (s : Space)
    → va < 2 ^ 32
    → vb < 2 ^ 32
    → pdx vb ≡ pdx va
    → table_address vb s ≡ table_address va s
unfolding table_address
same_table va vb s la lb e = rw (e, same_side vb va lb la e) refl

in_table-Changed :
    (t va v : ℕ) (s : Space)
    → va < 2 ^ 32
    → is_present (s.dir (pdx va)) ≡ true
    → table_address va s ≡ ok t
    → Changed va v s (in_table t va v s)
in_table-Changed t va v s la p a = record {
  here = in_memory t p (in_table-address t va v va s ∙ a) (update_self s.memory (t + 4 * ptx va) v);
  others = λ vb b lb same ne h. elim h [
    | in_memory t2 p2 a2 e2 ↦
        let tt' : t ≡ t2 = ok_same a (sym (same_table va vb s la lb same) ∙ a2) in
        in_memory t2 p2 (in_table-address t va v vb s ∙ a2) (
          update-ne s.memory (t + 4 * ptx va) (t2 + 4 * ptx vb) v (λ q. omega (arith, q, tt', ne))
          ∙ e2)
    | on_disk t2 p2 nz small q2 e2 ↦ absurd (ground (arith, p, p2, ap s.dir same))
  ];
}

in_file-Changed :
    (t : ℕ → ℕ) (va v : ℕ) (s : Space)
    → is_present (s.dir (pdx va)) ≡ false
    → s.dir (pdx va) ≢ 0
    → va < kernel_base
    → s.disk (pdx va) ≡ some t
    → Changed va v s (in_file t va v s)
in_file-Changed t va v s p nz small q = record {
  here =
      on_disk (update t (ptx va) v) p nz small
        (update_self s.disk (pdx va) (some (update t (ptx va) v))) (update_self t (ptx va) v);
  others = λ vb b lb same ne h. elim h [
    | in_memory t2 p2 a2 e2 ↦ absurd (ground (arith, p, p2, ap s.dir same))
    | on_disk t2 p2 nz2 small2 q2 e2 ↦
        let tables : t ≡ t2 = some_injective (sym q ∙ ap s.disk (sym same) ∙ q2) in
        on_disk (update t (ptx va) v) p2 nz2 small2
          (ap (update s.disk (pdx va) (some (update t (ptx va) v))) same
            ∙ update_self s.disk (pdx va) (some (update t (ptx va) v)))
          (update-ne t (ptx va) (ptx vb) v (λ q. ne (sym q))
            ∙ ap (λ (g : ℕ → ℕ). g (ptx vb)) tables
            ∙ e2)
  ];
}

change_entry-Changed :
    (va e : ℕ) (f : ℕ → ℕ) (s : Space)
    → va < 2 ^ 32
    → HasEntry va e s
    → Returns (Changed va (f e) s) (change_entry va f s)
unfolding change_entry
change_entry-Changed va e f s la (in_memory t p a q) =
    rw (p, a, q) (returns (in_table t va (f e) s) refl (in_table-Changed t va (f e) s la p a))
change_entry-Changed va e f s la (on_disk t p nz small q h) =
    let used : (s.dir (pdx va) == 0) ≡ false = ground (arith, nz) in
    let below : ltb va kernel_base ≡ true = lt→ltb _ _ small in
    rw (p, used, q, below, h)
      (returns (in_file t va (f e) s) refl (in_file-Changed t va (f e) s p nz small q))

get_lem :
    (va e : ℕ) (s : Space)
    → HasEntry va e s
    → Returns (λ r. HasLow e r.0) (pt_get_page_permissions va s)
unfolding pt_get_page_permissions
get_lem va e s (in_memory t p a q) =
    rw (p, a, q) (returns (bit_and e 4095, s) refl (bit_and-HasLow e))
get_lem va e s (on_disk t p nz small q h) =
    let used : (s.dir (pdx va) == 0) ≡ false = ground (arith, nz) in
    rw (p, used, q, h) (returns (bit_and e 4095, record s { temp = t }) refl (bit_and-HasLow e))

-- The entry of the page changes from `e` to one with the flags `set` set and then the flags `clear` cleared,
-- and the low twelve bits of this are what pt_get_page_permissions returns.
pub record Flagged (va e set clear : ℕ) (s s' : Space) : Type 0 where
  pub value : ℕ
  pub flags : HasFlags set clear e value
  pub changed : Changed va value s s'
  pub read : Returns (λ r. HasLow value r.0) (pt_get_page_permissions va s')

-- pt_set_page_permissions of a page that has an entry sets the flags in it and then clears the others, bit
-- by bit, wherever its table is, in memory or in the page file, and pt_get_page_permissions then returns
-- the low twelve bits of the new entry; the entries of the other pages of the table stay.
pub pt_set_page_permissions-Changed :
    (va e set clear : ℕ) (s : Space)
    → va < 2 ^ 32
    → clear < 2 ^ 32
    → HasEntry va e s
    → Returns (Flagged va e set clear s) (pt_set_page_permissions va set clear s)
unfolding pt_set_page_permissions
pt_set_page_permissions-Changed va e set clear s la small h =
    elim (change_entry-Changed va e (set_flags set clear) s la h) [
      | returns s' q c ↦ returns s' q record {
        value = set_flags set clear e;
        flags = set_flags-HasFlags set clear e small;
        changed = c;
        read = get_lem va (set_flags set clear e) s' c.here;
      }
    ]
