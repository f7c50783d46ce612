-- ===== src/Queue.antt =====
-- inc/queue.h: the doubly linked lists of the kernel. An element is an address, `null` is NULL;
-- `Links` holds the member `prev_next_info` of every element, `Head` the list's own structure.
pub mod Seg
pub mod Insert
pub mod Before
pub mod Remove
pub mod Walk
use os_memory_management.Base.{
  ℕ, zero, suc, ◌+◌, ◌-◌, ◌%◌, ◌^◌, Bool, List, [], ◌∷◌, if◌then◌else◌, ◌==◌, update,
}

abbrev pub null : ℕ
null = 0

-- `LIST_HEAD`, without the cursor of `LIST_FOREACH`, which `foreach` carries.
pub record Head : Type 0 where
  pub first : ℕ
  pub last : ℕ
  pub size : ℕ

-- `LIST_ENTRY` of every element.
pub record Links : Type 0 where
  pub next : ℕ → ℕ
  pub prev : ℕ → ℕ

-- `LIST_NEXT(a) = b` and `LIST_PREV(a) = b`.
unfoldable pub set_next : Links → ℕ → ℕ → Links
set_next l a b = record l { next = update l.next a b }

unfoldable pub set_prev : Links → ℕ → ℕ → Links
set_prev l a b = record l { prev = update l.prev a b }

unfoldable pub list_empty : Head → Bool
list_empty h = h.first == null

unfoldable pub list_init : Head
list_init = record { first = null; last = null; size = 0 }

-- `size` is a uint32.
abbrev pub incr : ℕ → ℕ
incr n = (n + 1) % 2 ^ 32

abbrev pub decr : ℕ → ℕ
decr n = (n + 2 ^ 32 - 1) % 2 ^ 32

unfoldable pub insert_after : ℕ → ℕ → Head → Links → Head × Links
unfolding set_next set_prev
insert_after listelm elm h l =
    let l1 = set_next l elm (l.next listelm) in
    let l2 = if l1.next elm == null then l1 else set_prev l1 (l1.next listelm) elm in
    let l3 = set_next l2 listelm elm in
    let l4 = set_prev l3 elm listelm in
    (record h { last = if l4.next elm == null then elm else h.last; size = incr h.size }, l4)

unfoldable pub insert_before : ℕ → ℕ → Head → Links → Head × Links
unfolding set_next set_prev
insert_before listelm elm h l =
    let l1 = set_prev l elm (l.prev listelm) in
    let l2 = set_next l1 elm listelm in
    let at_front = l2.prev listelm == null in
    let l3 = if at_front then l2 else set_next l2 (l2.prev listelm) elm in
    let l4 = set_prev l3 listelm elm in
    (record h { first = if at_front then elm else h.first; size = incr h.size }, l4)

unfoldable pub insert_head : ℕ → Head → Links → Head × Links
unfolding set_next set_prev
insert_head elm h l =
    let l1 = set_next l elm h.first in
    let was_empty = l1.next elm == null in
    let l2 = if was_empty then l1 else set_prev l1 h.first elm in
    let l3 = set_prev l2 elm null in
    (record { first = elm; last = if was_empty then elm else h.last; size = incr h.size }, l3)

unfoldable pub insert_tail : ℕ → Head → Links → Head × Links
unfolding set_next set_prev
insert_tail elm h l =
    let l1 = set_prev l elm h.last in
    let was_empty = l1.prev elm == null in
    let l2 = if was_empty then l1 else set_next l1 h.last elm in
    let l3 = set_next l2 elm null in
    (record { first = if was_empty then elm else h.first; last = elm; size = incr h.size }, l3)

unfoldable pub remove : ℕ → Head → Links → Head × Links
unfolding set_next set_prev
remove elm h l =
    let at_end = l.next elm == null in
    let l1 = if at_end then l else set_prev l (l.next elm) (l.prev elm) in
    let last = if at_end then l.prev elm else h.last in
    let at_front = l1.prev elm == null in
    let l2 = if at_front then l1 else set_next l1 (l1.prev elm) (l1.next elm) in
    let first = if at_front then l1.next elm else h.first in
    let l3 = set_next l2 elm null in
    let l4 = set_prev l3 elm null in (record { first = first; last = last; size = decr h.size }, l4)

-- `LIST_CONCAT`: both heads and the links.
unfoldable pub concat : Head → Head → Links → Head × Head × Links
unfolding set_next set_prev list_init
concat h1 h2 l =
    if h1.first == null
    then (record { first = h2.first; last = h2.last; size = (h1.size + h2.size) % 2 ^ 32 }, h2, l)
    else (if h2.first == null then (record h1 { size = (h1.size + h2.size) % 2 ^ 32 }, h2, l) else (
      record h1 { last = h2.last; size = (h1.size + list_init.size) % 2 ^ 32 },
      list_init,
      set_prev (set_next l h1.last h2.first) h2.first h1.last,
    ))

-- The elements that `LIST_FOREACH` visits from `a` on, if its body leaves the links alone.
unfoldable pub foreach : ℕ → ℕ → Links → List ℕ
foreach zero a l = []
foreach (suc fuel) a l = let rest = foreach fuel (l.next a) l in if a == null then [] else a ∷ rest
