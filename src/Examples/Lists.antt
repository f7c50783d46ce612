-- ===== src/Examples/Lists.antt =====
-- inc/queue.h at concrete lists.
use os_memory_management.Base.{◌≡◌, refl, [], ◌∷◌, arith, update}
use os_memory_management.Queue.{
  Head, Links, list_init, insert_head, insert_tail, insert_before, remove, foreach, concat,
}
use os_memory_management.Queue.Seg.{IsList, Yields}
use os_memory_management.Queue.Remove.{remove_lem}
use os_memory_management.Queue.Walk.{concat_lem, IsConcat}

abbrev no_links : Links
no_links = record { next = λ a. 0; prev = λ a. 0 }

-- 1, 2, 3 in a row, and 8, 9
abbrev links : Links
links = record {
  next = update (update (update (λ a. 0) 1 2) 2 3) 8 9;
  prev = update (update (update (λ a. 0) 2 1) 3 2) 9 8;
}

abbrev three : Head
three = record { first = 1; last = 3; size = 3 }

abbrev two : Head
two = record { first = 8; last = 9; size = 2 }

three-IsList : IsList three links (1 ∷ 2 ∷ 3 ∷ [])
three-IsList = record {
  first_is = refl;
  last_is = refl;
  size_is = refl;
  seg = omega arith;
  distinct = omega arith;
}

two-IsList : IsList two links (8 ∷ 9 ∷ [])
two-IsList = record {
  first_is = refl;
  last_is = refl;
  size_is = refl;
  seg = omega arith;
  distinct = omega arith;
}

remove_example : Yields (1 ∷ 2 ∷ 3 ∷ []) links (1 ∷ 3 ∷ []) (remove 2 three links)
remove_example = remove_lem 2 three links (1 ∷ []) (3 ∷ []) three-IsList

concat_example : IsConcat (1 ∷ 2 ∷ 3 ∷ []) (8 ∷ 9 ∷ []) (concat three two links)
concat_example =
    concat_lem three two links 1 (2 ∷ 3 ∷ []) 8 (9 ∷ []) three-IsList two-IsList (omega arith)

-- A list built from nothing, and the order of its elements.
built :
    let (h1, l1) = insert_tail 4 list_init no_links in
    let (h2, l2) = insert_head 5 h1 l1 in
    let (h3, l3) = insert_before 4 6 h2 l2 in
    let (h4, l4) = remove 5 h3 l3 in foreach 9 h4.first l4 ≡ 6 ∷ 4 ∷ []
unfolding insert_tail insert_head insert_before remove foreach list_init
built = refl
