-- ===== src/Dropbox/Tests.antt =====
-- The theorem about pkg/dropbox at a concrete directory of two pages.
use tgdownloader.Prelude.{ℕ, ◌≡◌, refl, true, false, some, [], ◌∷◌, arith}
use tgdownloader.Dropbox.Listing.{
  Page, ListingService, DirListing, listed, fetch_page, refilled, read_dir, readdir_loop, readdir,
  new_listing,
}
use tgdownloader.Dropbox.Listing.First.{Serves, readdir-new_listing}

abbrev first_page : Page ℕ
first_page = record { entries = 1 ∷ 2 ∷ []; cursor = 7 ∷ []; has_more = true }

abbrev last_page : Page ℕ
last_page = record { entries = 3 ∷ 4 ∷ []; cursor = 8 ∷ []; has_more = false }

abbrev service : ListingService ℕ
service = record { list_folder = some first_page; list_folder_continue = λ cursor. some last_page }

two_pages : Serves service [] ((1 ∷ 2 ∷ []) ∷ (3 ∷ 4 ∷ []) ∷ [])
unfolding fetch_page
two_pages = (
  record { page = first_page; fetched = refl; has_entries = refl; says_more = refl },
  (record { page = last_page; fetched = refl; has_entries = refl; says_more = refl }, tt),
)

readdir-new_listing_example :
    (s : DirListing ℕ) × (readdir service 3 3 new_listing ≡ listed s (1 ∷ 2 ∷ 3 ∷ []))
readdir-new_listing_example =
    readdir-new_listing service 3 3 (1 ∷ 2 ∷ []) ((3 ∷ 4 ∷ []) ∷ []) two_pages (omega arith)

-- The listing that this leaves has an entry in its queue.
abbrev one_left : DirListing ℕ
one_left = record { dir_list = 4 ∷ []; dir_list_cursor = 8 ∷ []; dir_list_done = true }

first_listing : readdir service 3 3 new_listing ≡ listed one_left (1 ∷ 2 ∷ 3 ∷ [])
unfolding readdir readdir_loop refilled read_dir fetch_page
first_listing = refl

-- It is never returned.
second_listing : readdir service 3 3 one_left ≡ listed one_left []
unfolding readdir readdir_loop
second_listing = refl
