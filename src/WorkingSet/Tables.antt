-- ===== src/WorkingSet/Tables.antt =====
-- addTableToTableWorkingSet fills the table working set in circular order.
use os_memory_management.Base.{
  ℕ, zero, suc, ◌≤◌, ◌<◌, ◌≡◌, ◌≢◌, refl, sym, ap, ◌∙◌, arith, List, [], ◌∷◌, length, get_elem?,
  Option, some, none, update_self, update-ne,
}
use os_memory_management.Mmu.{round_down}
use os_memory_management.WorkingSet.{Element, Env, add_table, table_max, table_size}
use os_memory_management.Base.Circle.{hand, hand-hand, hand_apart}

-- The calls for a list of addresses.
abbrev pub add_tables : List ℕ → Env → Env
add_tables [] e = e
add_tables (va ∷ vas) e = add_tables vas (add_table va e)

-- The element that holds the table of an address.
abbrev pub table_element : ℕ → Element
table_element va = record { va = round_down va table_size; empty = 0; time_stamp = 0 }

-- An option as a number.
abbrev code : Option ℕ → ℕ
code none = 0
code (some a) = suc a

add_table_last :
    (va : ℕ) (e : Env)
    → e.table_last < table_max
    → (add_table va e).table_last ≡ hand table_max e.table_last 1
unfolding add_table
add_table_last va e lt = omega arith

add_table_bound : (va : ℕ) (e : Env) → (add_table va e).table_last < table_max
unfolding add_table
add_table_bound va e = omega arith

hand_after :
    (va : ℕ) (e : Env) (k : ℕ)
    → e.table_last < table_max
    → hand table_max (add_table va e).table_last k ≡ hand table_max e.table_last (suc k)
hand_after va e k lt =
    ap (λ i. hand table_max i k) (add_table_last va e lt) ∙ hand-hand table_max e.table_last k

-- An index that the calls do not reach keeps its element.
add_tables-ne :
    (vas : List ℕ) (e : Env) (p : ℕ)
    → e.table_last < table_max
    → ((j : ℕ) → j < length vas → hand table_max e.table_last j ≢ p)
    → (add_tables vas e).tables p ≡ e.tables p
unfolding add_table
add_tables-ne [] e p lt out = refl
add_tables-ne (va ∷ vas) e p lt out =
    add_tables-ne vas (add_table va e) p (add_table_bound va e)
      (λ j jl s. out (suc j) (omega arith) (sym (hand_after va e j lt) ∙ s))
    ∙ update-ne e.tables e.table_last p (table_element va) (out 0 (omega arith))

-- After calls for at most as many addresses as the set has elements, every one of them is in the
-- table working set, in circular order from the index before the calls, which is within the set.
add_tables_lem :
    (vas : List ℕ) (e : Env) (k va : ℕ)
    → e.table_last < table_max
    → length vas ≤ table_max
    → get_elem? vas k ≡ some va
    → (add_tables vas e).tables (hand table_max e.table_last k) ≡ table_element va
unfolding add_table
add_tables_lem [] e k va lt short at = absurd (omega (arith, ap code at))
add_tables_lem (x ∷ vas) e zero va lt short at =
    add_tables-ne vas (add_table x e) e.table_last (add_table_bound x e) (λ j jl s.
      hand_apart table_max e.table_last 0 (suc j) lt (omega arith) (omega arith)
        (sym (sym (hand_after x e j lt) ∙ s)))
    ∙ update_self e.tables e.table_last (table_element x)
    ∙ ap table_element {x = x} {y = va} (omega (arith, ap code at))
add_tables_lem (x ∷ vas) e (suc k) va lt short at =
    ap (add_tables vas (add_table x e)).tables (sym (hand_after x e k lt))
    ∙ add_tables_lem vas (add_table x e) k va (add_table_bound x e) (omega arith) at
