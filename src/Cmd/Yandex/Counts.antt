-- ===== src/Cmd/Yandex/Counts.antt =====
-- The counts of a link and of a run of links.
use tgdownloader.Prelude.{
  is_empty, ℕ, suc, ◌+◌, ◌<◌, ◌≡◌, refl, sym, ap, ◌∙◌, Bool, true, false, Option, none, some, List,
  [], ◌∷◌, Text, nat_eq, list_eq, length, if◌then◌else◌, branches, codes, arith,
}
use tgdownloader.Downloader.Resume.{Disk}
use tgdownloader.Apperr.{Error, io}
use tgdownloader.Yadisk.Http.{failed, ok, Library, Client}
use tgdownloader.Yadisk.Resolve.{PublicDownload}
use tgdownloader.Yadisk.Directory.{ResolvedPublicResource, resolve_public_resource_downloads}
use tgdownloader.Yadisk.Download.{Outcome}
use tgdownloader.Cmd.Yandex.{
  YandexDownloadSummary, add_link_result, DownloadOptions, ExternalLink, LinkAnswers, Tracker,
  LinkRun, LinkEvent, context_done, link_came, LinksRun, filtered_files, cmd_error, io_text,
  failed_run, after_file, download_items, link_target, download_filtered,
  download_single_yandex_disk_link, run_link, first_error, context_error,
  download_yandex_disk_links, no_downloads,
}

-- Without an error every one of the `n` files has been counted and the tracker is done; with one, at
-- least a file has not, and the tracker has failed.
abbrev pub EndsWith : ℕ → Tracker → Option Error → Type 0
EndsWith n t none = (t.increments ≡ n) × (t.ends ≡ true ∷ [])
EndsWith n t (some e) = (t.increments < n) × (t.ends ≡ false ∷ [])

-- The tracker has counted what has been downloaded or skipped.
abbrev pub IsCounted : ℕ → LinkRun → Type 0
IsCounted n run =
    (run.tracker.increments ≡ run.downloaded + run.skipped) × EndsWith n run.tracker run.error

failed_run-IsCounted :
    (n : ℕ) (disk : Disk) (downloaded skipped increments : ℕ) (e : Error)
    → increments ≡ downloaded + skipped
    → increments < n
    → IsCounted n (failed_run disk downloaded skipped increments e)
failed_run-IsCounted n disk downloaded skipped increments e h k = (h, (k, refl))

after_file-IsCounted :
    (n downloaded skipped increments : ℕ) (outcome : Outcome) (skip next : Disk → LinkRun)
    → increments ≡ downloaded + skipped
    → increments < n
    → ((disk : Disk) → IsCounted n (skip disk))
    → ((disk : Disk) → IsCounted n (next disk))
    → IsCounted n (after_file downloaded skipped increments outcome skip next)
unfolding after_file
after_file-IsCounted n downloaded skipped increments (disk, failed e) skip next h k s x =
    (h, (k, refl))
after_file-IsCounted n downloaded skipped increments (disk, ok none) skip next h k s x = s disk
after_file-IsCounted n downloaded skipped increments (disk, ok (some d)) skip next h k s x = x disk

filtered_files-not_empty :
    (lower : ℕ → ℕ) (files : List PublicDownload) {item : PublicDownload}
    {items : List PublicDownload}
    → filtered_files lower files ≡ item ∷ items
    → is_empty files ≡ false
unfolding filtered_files
filtered_files-not_empty lower [] e = cc
filtered_files-not_empty lower (f ∷ fs) e = refl

module _ (lib : Library) (client : Client) (opts : DownloadOptions) (link : ExternalLink) where
  download_items-IsCounted :
      (answers : LinkAnswers) (target : Text) (n i : ℕ) (disk : Disk)
      (downloaded skipped increments : ℕ) (items : List PublicDownload)
      → increments ≡ downloaded + skipped
      → increments + length items ≡ n
      → IsCounted n (
          download_items lib client opts link answers target i disk downloaded skipped increments
            items)
  unfolding download_items
  download_items-IsCounted answers target n i disk downloaded skipped increments [] h k =
      (h, (omega (arith, k), refl))
  download_items-IsCounted answers target n i disk downloaded skipped increments (item ∷ items) h
        k =
      let left : increments < n = omega (arith, k) in
      branches (IsCounted n) (answers.file i).mkdir_fails
        (failed_run-IsCounted n disk downloaded skipped increments
          (cmd_error (codes "prepare_item_dir") io (io_text (codes "prepare item dir"))) h left)
        (after_file-IsCounted n downloaded skipped increments _ _ _ h left
          (λ disk'.
            download_items-IsCounted answers target n (suc i) disk' downloaded (suc skipped)
              (suc increments) items (omega (arith, h)) (omega (arith, k)))
          (λ disk'.
            download_items-IsCounted answers target n (suc i) disk' (suc downloaded) skipped
              (suc increments) items (omega (arith, h)) (omega (arith, k))))

  download_filtered-IsCounted :
      (answers : LinkAnswers) (disk : Disk) (target : Text) (item : PublicDownload)
      (items : List PublicDownload)
      → IsCounted
          (length (item ∷ items))
          (download_filtered lib client opts link answers disk target (item ∷ items))
  unfolding download_filtered
  download_filtered-IsCounted answers disk target item items =
      let n : ℕ = length (item ∷ items) in
      branches (IsCounted n) opts.dry_run (omega arith, (refl, refl))
        (branches (IsCounted n) answers.mkdir_fails (omega arith, (omega arith, refl))
          (download_items-IsCounted answers target n 0 disk 0 0 0 (item ∷ items) (omega arith)
            (omega arith)))

  -- When the resource of a link has been resolved and files are left behind the system files, the
  -- link's tracker has counted exactly the files that were downloaded or skipped; without an error
  -- these are all and the tracker is done, once; with an error some file is missing and the tracker
  -- has failed, once.
  pub download_single_yandex_disk_link-IsCounted :
      (depth pages : ℕ) (answers : LinkAnswers) (output_dir : Text) (disk : Disk)
      (resource : ResolvedPublicResource) (item : PublicDownload) (items : List PublicDownload)
      → resolve_public_resource_downloads lib client answers.service depth pages link.url
        ≡ ok resource
      → filtered_files lib.lower resource.files ≡ item ∷ items
      → IsCounted (length (item ∷ items)) (
          download_single_yandex_disk_link lib client opts link depth pages answers output_dir disk)
  unfolding download_single_yandex_disk_link
  download_single_yandex_disk_link-IsCounted depth pages answers output_dir disk resource item items
        q h =
      rw (q, filtered_files-not_empty lib.lower resource.files h, h)
        (download_filtered-IsCounted answers disk
          (link_target lib client opts link output_dir resource) item items)

first_error_assoc :
    (a b c : Option Error) → first_error (first_error a b) c ≡ first_error a (first_error b c)
first_error_assoc none b c = refl
first_error_assoc (some a) b c = refl

first_error-none : (a : Option Error) → first_error a none ≡ a
first_error-none none = refl
first_error-none (some a) = refl

abbrev pub is_failed : Option Error → ℕ
is_failed none = 0
is_failed (some e) = 1

abbrev pub was_cancelled : List LinkEvent → Bool
was_cancelled [] = false
was_cancelled (context_done ∷ events) = true
was_cancelled (link_came link answers ∷ events) = was_cancelled events

add_link_result_lem :
    (s : YandexDownloadSummary) (downloaded skipped : ℕ) (e : Option Error)
    → ((add_link_result s downloaded skipped e).downloaded ≡ s.downloaded + downloaded)
      × (((add_link_result s downloaded skipped e).skipped ≡ s.skipped + skipped)
          × ((add_link_result s downloaded skipped e).failed_links ≡ s.failed_links + is_failed e))
unfolding add_link_result
add_link_result_lem s downloaded skipped none = (refl, (refl, omega arith))
add_link_result_lem s downloaded skipped (some e) = (refl, (refl, refl))

-- The sums over the runs of the links, and the first of their errors.
pub sum_of : (LinkRun → ℕ) → List LinkRun → ℕ
sum_of count [] = 0
sum_of count (r ∷ rs) = count r + sum_of count rs

pub first_failure : List LinkRun → Option Error
first_failure [] = none
first_failure (r ∷ rs) = first_error r.error (first_failure rs)

module _ (lib : Library) (client : Client) (opts : DownloadOptions) (depth pages : ℕ)
    (output_dir : Text) where
  -- The links that come before the context ends, each on the disk that the last one left.
  pub link_runs : Disk → List LinkEvent → List LinkRun
  link_runs disk [] = []
  link_runs disk (context_done ∷ events) = []
  link_runs disk (link_came link answers ∷ events) =
      let run = run_link lib client opts depth pages output_dir link answers disk in
      run ∷ link_runs run.disk events

  -- The summary adds up the runs, and the error is the context's or the first of theirs.
  pub record Sums (before : YandexDownloadSummary) (first : Option Error) (runs : List LinkRun)
      (cancelled : Bool) (result : LinksRun) : Type 0 where
    pub all_downloaded :
        result.summary.downloaded ≡ before.downloaded + sum_of (λ r. r.downloaded) runs
    pub all_skipped : result.summary.skipped ≡ before.skipped + sum_of (λ r. r.skipped) runs
    pub all_failed :
        result.summary.failed_links
        ≡ before.failed_links + sum_of (λ r. is_failed r.error) runs + (if cancelled then 1 else 0)
    pub error_is :
        result.error
        ≡ (if cancelled then some context_error else first_error first (first_failure runs))

  Sums-link :
      (before : YandexDownloadSummary) (first : Option Error) (run : LinkRun) (runs : List LinkRun)
      (cancelled : Bool) (result : LinksRun)
      → Sums
          (add_link_result before run.downloaded run.skipped run.error)
          (first_error first run.error)
          runs
          cancelled
          result
      → Sums before first (run ∷ runs) cancelled result
  unfolding sum_of first_failure
  Sums-link before first run runs cancelled result s =
      let (d, (k, f)) = add_link_result_lem before run.downloaded run.skipped run.error in
      record {
        all_downloaded = omega (arith, s.all_downloaded, d);
        all_skipped = omega (arith, s.all_skipped, k);
        all_failed = omega (arith, s.all_failed, f);
        error_is =
            s.error_is
            ∙ ap (λ e. if cancelled then some context_error else e)
                (first_error_assoc first run.error (first_failure runs));
      }

  later_links-Sums :
      (disk : Disk) (before : YandexDownloadSummary) (first : Option Error)
      (events : List LinkEvent)
      → Sums before first (link_runs disk events) (was_cancelled events) (
          download_yandex_disk_links lib client opts depth pages output_dir disk before first
            events)
  unfolding download_yandex_disk_links link_runs sum_of first_failure
  later_links-Sums disk before first [] = record {
    all_downloaded = omega arith;
    all_skipped = omega arith;
    all_failed = omega arith;
    error_is = sym (first_error-none first);
  }
  later_links-Sums disk before first (context_done ∷ events) = record {
    all_downloaded = omega arith;
    all_skipped = omega arith;
    all_failed = omega arith;
    error_is = refl;
  }
  later_links-Sums disk before first (link_came link answers ∷ events) =
      let run = run_link lib client opts depth pages output_dir link answers disk in
      Sums-link before first run (link_runs run.disk events) (was_cancelled events) _ (
        later_links-Sums run.disk (add_link_result before run.downloaded run.skipped run.error)
          (first_error first run.error) events)

  -- From nothing downloaded, the summary of a run of links is the sum over the links that came before
  -- the context ended, each run on the files that the last one left: of what was downloaded, of what
  -- was skipped, and of the links that failed, with one more for a context that ended. A link that
  -- fails does not keep the later ones from being run, and the error returned is that of the first
  -- link that failed, or the context's where it ended.
  pub download_yandex_disk_links-Sums :
      (disk : Disk) (events : List LinkEvent)
      → Sums no_downloads none (link_runs disk events) (was_cancelled events) (
          download_yandex_disk_links lib client opts depth pages output_dir disk no_downloads none
            events)
  download_yandex_disk_links-Sums disk events = later_links-Sums disk no_downloads none events
