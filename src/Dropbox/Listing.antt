-- ===== src/Dropbox/Listing.antt =====
-- pkg/dropbox/file.go: `Readdir` and `_readDir`, which fetch a directory by pages. Dropbox's service is
-- a parameter. The channel that serves as a queue holds 2,000 entries, as many as a page has at most,
-- and a page is fetched when it is empty, so it is a list. `count` is not negative: the source makes a
-- slice with it as its capacity, which panics below 0.
pub mod First
use tgdownloader.Prelude.{
  is_empty, ℕ, zero, suc, ◌-◌, Bool, true, false, ◌&&◌, not, Option, none, some, List, [], ◌∷◌,
  ◌++◌, Text, ltb, length, take, drop, if◌then◌else◌,
}

-- `files.ListFolderResult`.
pub record Page (A : Type 0) : Type 0 where
  pub entries : List A
  pub cursor : Text
  pub has_more : Bool

pub record ListingService (A : Type 0) : Type 0 where
  pub list_folder : Option (Page A)
  pub list_folder_continue : Text → Option (Page A)

-- The fields `dirList`, `dirListCursor` and `dirListDone`.
pub record DirListing (A : Type 0) : Type 0 where
  pub dir_list : List A
  pub dir_list_cursor : Text
  pub dir_list_done : Bool

-- What `Readdir` returns, or that the fuel did not do.
pub data Listed (A : Type 0) : Type 0 where
  list_failed out_of_fuel : Listed A
  listed : DirListing A → List A → Listed A

module _ {A : Type 0} (service : ListingService A) where
  -- The next page: `_readDir`'s request.
  unfoldable pub fetch_page : Text → Option (Page A)
  fetch_page cursor =
      if is_empty cursor then service.list_folder else service.list_folder_continue cursor

  -- The first page comes to a new queue.
  abbrev pub queued : DirListing A → Page A → DirListing A
  queued s page = record {
    dir_list = (if is_empty s.dir_list_cursor then [] else s.dir_list) ++ page.entries;
    dir_list_cursor = page.cursor;
    dir_list_done = not page.has_more;
  }

  unfoldable pub read_dir : DirListing A → Option (DirListing A)
  unfolding fetch_page
  read_dir s = elim (fetch_page s.dir_list_cursor) [
    | none ↦ none
    | some page ↦ some (queued s page)
  ]

  -- The entries that the inner loop moves.
  abbrev pub moved : ℕ → DirListing A → List A → DirListing A × List A
  moved count s list = (
    record s { dir_list = drop (count - length list) s.dir_list },
    list ++ take (count - length list) s.dir_list,
  )

  unfoldable pub refilled : DirListing A → Option (DirListing A)
  unfolding read_dir
  refilled s = elim s.dir_list [ [] ↦ read_dir s | _ ∷ _ ↦ some s ]

  unfoldable pub readdir_loop : ℕ → ℕ → DirListing A → List A → Listed A
  unfolding refilled
  readdir_loop zero count s list = out_of_fuel
  readdir_loop (suc fuel) count s list =
      if ltb (length list) count && not s.dir_list_done
      then elim (refilled s) [
        | none ↦ list_failed
        | some s' ↦ readdir_loop fuel count (moved count s' list).0 (moved count s' list).1
      ]
      else listed s list

  unfoldable pub readdir : ℕ → ℕ → DirListing A → Listed A
  unfolding readdir_loop
  readdir fuel count s = readdir_loop fuel count s []

abbrev pub new_listing : {A : Type 0} → DirListing A
new_listing = record { dir_list = []; dir_list_cursor = []; dir_list_done = false }
