-- ===== src/PageFile/Reach.antt =====
-- The page file's states that its operations reach.
use mathlib.Core.Path.{subst}
use os_memory_management.Base.{
  ℕ, zero, suc, ◌+◌, ◌-◌, ◌<◌, ◌≡◌, arith, Bool, List, [], ◌∷◌, All, Avoids, Distinct, ok,
}
use os_memory_management.PageFile.{
  PageFile, Page, Code, pf_free_env, pf_remove_env_page, pf_remove_env_table, pf_add_env_page,
  pf_add_empty_env_page, pf_update_env_page, pf_write_env_table, insert_frames,
  initialize_disk_page_file, pages_per_file,
}
use os_memory_management.PageFile.Apart.{IsApart, IsPageFile}
use os_memory_management.PageFile.Keeps.{
  Keeps, state, add-Keeps, add_empty-Keeps, update-Keeps, remove-Keeps, free_env-Keeps,
  write_table-Keeps, remove_table-IsPageFile,
}

All-weaken : (i : ℕ) (l : List ℕ) → All (λ x. x < i) l → All (λ x. x < i + 1) l
All-weaken i [] h = tt
All-weaken i (x ∷ l) h = (omega (arith, h.0), All-weaken i l h.1)

Avoids-above : (i : ℕ) (l : List ℕ) → All (λ x. x < i) l → Avoids i l
Avoids-above i [] h = tt
Avoids-above i (x ∷ l) h = (λ e. omega (arith, h.0, e), Avoids-above i l h.1)

insert_frames-IsApart :
    (f : ℕ → ℕ → ℕ) (n i : ℕ) (free : List ℕ)
    → ((e k : ℕ) → f e k ≡ 0)
    → 0 < i
    → All (λ x. x < i) free
    → Avoids 0 free
    → Distinct free
    → IsApart f (insert_frames n i free)
unfolding insert_frames
insert_frames-IsApart f zero i free empty pos below nz d = record {
  distinct = d;
  nonzero = nz;
  unused = λ e k ne. absurd (ne (empty e k));
  apart = λ e k e' k' ne eq. absurd (ne (empty e k));
}
insert_frames-IsApart f (suc n) i free empty pos below nz d =
    insert_frames-IsApart f n (i + 1) (i ∷ free) empty (omega arith)
      (omega arith, All-weaken i free below) (omega arith, nz) (Avoids-above i free below, d)

-- An operation of the page file that returns.
pub data Step (s s' : PageFile) : Type 0 where
  add : (e va : ℕ) (page : Page) (c : Code) → pf_add_env_page e va page s ≡ ok (c, s') → Step s s'
  add_empty :
      (zero_page : Page) (e va : ℕ) (by_zero : Bool) (c : Code)
      → pf_add_empty_env_page zero_page e va by_zero s ≡ ok (c, s')
      → Step s s'
  write :
      (e va : ℕ) (page : Page) (c : Code) → pf_update_env_page e va page s ≡ ok (c, s') → Step s s'
  remove_page : (e va : ℕ) → pf_remove_env_page e va s ≡ ok s' → Step s s'
  free_env : (e : ℕ) → pf_free_env e s ≡ ok s' → Step s s'
  write_table :
      (e va : ℕ) (page : Page) (c : Code) → pf_write_env_table e va page s ≡ ok (c, s') → Step s s'
  remove_table : (e va : ℕ) → pf_remove_env_table e va s ≡ s' → Step s s'

-- The states from the initialization on, which no environment has entries before.
pub data Reachable : PageFile → Type 0 where
  start : (s : PageFile) → ((e k : ℕ) → s.entry e k ≡ 0) → Reachable (initialize_disk_page_file s)
  next : (s s' : PageFile) → Reachable s → Step s s' → Reachable s'

initialize-IsPageFile :
    (s : PageFile) → ((e k : ℕ) → s.entry e k ≡ 0) → IsPageFile (initialize_disk_page_file s)
unfolding initialize_disk_page_file
initialize-IsPageFile s empty =
    insert_frames-IsApart s.entry (pages_per_file - 1) 1 [] empty (omega arith) tt tt tt

Step-IsPageFile : (s s' : PageFile) → Step s s' → IsPageFile s → IsPageFile s'
Step-IsPageFile s s' (add e va page c eq) v = subst (Keeps state) eq (add-Keeps e va page s v)
Step-IsPageFile s s' (add_empty z e va b c eq) v =
    subst (Keeps state) eq (add_empty-Keeps z e va b s v)
Step-IsPageFile s s' (write e va page c eq) v = subst (Keeps state) eq (update-Keeps e va page s v)
Step-IsPageFile s s' (remove_page e va eq) v = subst (Keeps (λ x. x)) eq (remove-Keeps e va s v)
Step-IsPageFile s s' (free_env e eq) v = subst (Keeps (λ x. x)) eq (free_env-Keeps e s v)
Step-IsPageFile s s' (write_table e va page c eq) v =
    subst (Keeps state) eq (write_table-Keeps e va page s v)
Step-IsPageFile s s' (remove_table e va eq) v =
    subst IsPageFile eq (remove_table-IsPageFile e va s v)

-- In every state that the operations reach from an initialized page file without entries, no two pages or
-- page tables, of one environment or of two, have the same disk frame, and none has a free one; every
-- free frame is in the list once, and frame 0 is not.
pub Reachable-IsPageFile : (s : PageFile) → Reachable s → IsPageFile s
Reachable-IsPageFile _ (start s empty) = initialize-IsPageFile s empty
Reachable-IsPageFile s' (next s _ r step) = Step-IsPageFile s s' step (Reachable-IsPageFile s r)
