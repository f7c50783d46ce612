-- ===== src/Examples/Disks.antt =====
-- The page file at concrete inputs.
use os_memory_management.Base.{◌+◌, ◌≡◌, refl, arith, true, false, [], ◌∷◌, ok, Returns}
use os_memory_management.PageFile.{
  PageFile, Page, success, not_exist_in_pf, initialize_disk_page_file, get_disk_page_directory,
  pf_add_env_page, pf_update_env_page,
}
use os_memory_management.PageFile.Apart.{IsPageFile}
use os_memory_management.PageFile.Reach.{start, next, write, Reachable-IsPageFile}
use os_memory_management.PageFile.RoundTrip.{Added, pf_read-pf_add}

abbrev page : Page
page i = i + 100

-- No page, and memory for two tables.
abbrev no_pages : PageFile
no_pages = record {
  free = 5 ∷ 3 ∷ [];
  disk = λ i. 0;
  dir = λ e. false;
  table = λ e i. false;
  entry = λ e k. 0;
  table_dir = λ e. false;
  memory = true ∷ true ∷ [];
}

no_pages-IsPageFile : IsPageFile no_pages
no_pages-IsPageFile = record {
  distinct = ((λ e. omega (arith, e), tt), (tt, tt));
  nonzero = (λ e. omega (arith, e), (λ e. omega (arith, e), tt));
  unused = λ e k ne. absurd (ne refl);
  apart = λ e k e' k' ne eq. absurd (ne refl);
}

pf_add_example :
    Returns
      (λ r. (r.0 ≡ success) × Added 1 0x800000 page no_pages r.1)
      (pf_add_env_page 1 0x800000 page no_pages)
pf_add_example =
    pf_read-pf_add 1 0x800000 page no_pages [] 5 (3 ∷ []) no_pages-IsPageFile (omega arith) refl
      refl

-- The write of a page that is not there makes a directory only.
abbrev with_dir : PageFile
with_dir = (get_disk_page_directory 1 (initialize_disk_page_file no_pages)).1

with_dir_lem :
    pf_update_env_page 1 0x800000 page (initialize_disk_page_file no_pages)
    ≡ ok (not_exist_in_pf, with_dir)
unfolding pf_update_env_page get_disk_page_directory initialize_disk_page_file
with_dir_lem = refl

reachable_example : IsPageFile with_dir
reachable_example = Reachable-IsPageFile with_dir (
    next (initialize_disk_page_file no_pages) with_dir (start no_pages (λ e k. refl))
      (write 1 0x800000 page not_exist_in_pf with_dir_lem))
