-- ===== src/Cmd/Yandex.antt =====
-- cmd/cmd/download_yadisk.go: the files of the Yandex Disk links of a peer. What the network and the
-- file system answer, per link and file, are arguments. Of a tracker its increments and its ends are
-- kept; the byte trackers and the log are left out.
pub mod Counts
use tgdownloader.Prelude.{
  is_empty, ℕ, zero, suc, ◌+◌, Bool, true, false, ◌&&◌, not, Option, none, some, List, [], ◌∷◌,
  ◌++◌, Text, ◌==◌, nat_eq, list_eq, length, if◌then◌else◌, codes,
}
use tgdownloader.Prelude.Map
use tgdownloader.Renderer.Sanitize.{trim_space}
use tgdownloader.Downloader.FilePath.{join}
use tgdownloader.Downloader.Resume.{Disk}
use tgdownloader.Apperr.{Error, Kind, cancel, network, io, new_error}
use tgdownloader.Yadisk.Names.{is_skippable_yandex_file_name, build_subdirectories}
use tgdownloader.Yadisk.Http.{Result, failed, ok, Library, Client, Service}
use tgdownloader.Yadisk.Resolve.{PublicDownload}
use tgdownloader.Yadisk.Directory.{
  ResolvedPublicResource, resolve_public_resource_downloads, dir_type,
}
use tgdownloader.Yadisk.Direct.{DownloadedFile}
use tgdownloader.Yadisk.Download.{FileDownloadOptions, DownloadAnswers, Outcome, download_file}

pub record YandexDownloadSummary : Type 0 where
  pub downloaded : ℕ
  pub skipped : ℕ
  pub failed_links : ℕ

abbrev pub no_downloads : YandexDownloadSummary
no_downloads = record { downloaded = 0; skipped = 0; failed_links = 0 }

abbrev pub mark_failed : YandexDownloadSummary → YandexDownloadSummary
mark_failed s = record s { failed_links = s.failed_links + 1 }

unfoldable pub add_link_result :
    YandexDownloadSummary → ℕ → ℕ → Option Error → YandexDownloadSummary
add_link_result s downloaded skipped none = record s {
  downloaded = s.downloaded + downloaded;
  skipped = s.skipped + skipped;
}
add_link_result s downloaded skipped (some e) =
    mark_failed (record s { downloaded = s.downloaded + downloaded; skipped = s.skipped + skipped })

pub record DownloadOptions : Type 0 where
  pub rewrite : Bool
  pub dry_run : Bool
  pub hashtags : Bool

pub record ExternalLink : Type 0 where
  pub url : Text
  pub peername : Option Text
  pub hashtags : Option (List Text)

-- What one file of a link meets: `os.MkdirAll`, `os.Stat` here and in the downloader, the network.
pub record FileAnswers : Type 0 where
  pub mkdir_fails : Bool
  pub stat_fails : Bool
  pub downloader_stat_fails : Bool
  pub surroundings : DownloadAnswers

pub record LinkAnswers : Type 0 where
  pub service : Service
  pub mkdir_fails : Bool
  pub file : ℕ → FileAnswers

-- The increments of the link's tracker, and its ends: `true` for Done, `false` for Fail.
pub record Tracker : Type 0 where
  pub increments : ℕ
  pub ends : List Bool

-- `linkDownloaded` and `linkSkipped` with what they are returned with.
pub record LinkRun : Type 0 where
  pub disk : Disk
  pub downloaded : ℕ
  pub skipped : ℕ
  pub tracker : Tracker
  pub error : Option Error

abbrev pub joined : Text → List Text → Text
joined target [] = target
joined target (s ∷ ss) = joined (join (target ∷ s ∷ [])) ss

abbrev pub item_dir : Text → PublicDownload → Text
item_dir target item =
    if is_empty (trim_space item.relative_dir)
    then target
    else join (target ∷ item.relative_dir ∷ [])

unfoldable pub filtered_files : (ℕ → ℕ) → List PublicDownload → List PublicDownload
filtered_files lower [] = []
filtered_files lower (item ∷ items) =
    let rest = filtered_files lower items in
    if is_skippable_yandex_file_name lower item.name then rest else item ∷ rest

abbrev pub tracked : ℕ → Bool → Tracker
tracked increments done = record { increments = increments; ends = done ∷ [] }

abbrev pub cmd_error : Text → Kind → Error → Error
cmd_error op kind e = new_error (codes "cmd.download.yadisk." ++ op) kind e.message

abbrev pub io_text : Text → Error
io_text text = record { message = text; kind = none }

-- A file that fails ends the link.
abbrev pub failed_run : Disk → ℕ → ℕ → ℕ → Error → LinkRun
failed_run disk downloaded skipped increments e = record {
  disk = disk;
  downloaded = downloaded;
  skipped = skipped;
  tracker = tracked increments false;
  error = some e;
}

-- What becomes of one file, of which one that exists counts as a skip; `skip` and `next` are the rest of the loop.
unfoldable pub after_file : ℕ → ℕ → ℕ → Outcome → (Disk → LinkRun) → (Disk → LinkRun) → LinkRun
after_file downloaded skipped increments (disk, failed e) skip next =
    failed_run disk downloaded skipped increments (cmd_error (codes "download_file") network e)
after_file downloaded skipped increments (disk, ok none) skip next = skip disk
after_file downloaded skipped increments (disk, ok (some d)) skip next = next disk

module _ (lib : Library) (client : Client) (opts : DownloadOptions) (link : ExternalLink) where
  abbrev pub download_item : FileAnswers → Disk → PublicDownload → Text → Outcome
  download_item answers disk item path =
      download_file lib client answers.surroundings link.url item path
        (record { allow_rewrite = opts.rewrite; dry_run = opts.dry_run })
        answers.downloader_stat_fails disk

  -- The loop over the files, from the file of number `i`.
  unfoldable pub download_items :
      LinkAnswers → Text → ℕ → Disk → ℕ → ℕ → ℕ → List PublicDownload → LinkRun
  unfolding after_file
  download_items answers target i disk downloaded skipped increments [] = record {
    disk = disk;
    downloaded = downloaded;
    skipped = skipped;
    tracker = tracked increments true;
    error = none;
  }
  download_items answers target i disk downloaded skipped increments (item ∷ items) =
      let path = join (item_dir target item ∷ item.name ∷ []) in
      if (answers.file i).mkdir_fails
      then failed_run disk downloaded skipped increments
          (cmd_error (codes "prepare_item_dir") io (io_text (codes "prepare item dir")))
      else after_file downloaded skipped increments
          (if Map.has disk path && not (answers.file i).stat_fails && not opts.rewrite
            then (disk, ok none)
            else download_item (answers.file i) disk item path)
          (λ disk'.
            download_items answers target (suc i) disk' downloaded (suc skipped) (suc increments)
              items)
          (λ disk'.
            download_items answers target (suc i) disk' (suc downloaded) skipped (suc increments)
              items)

  abbrev pub link_target : Text → ResolvedPublicResource → Text
  link_target output_dir resource =
      let target =
        joined output_dir (build_subdirectories link.peername link.hashtags opts.hashtags) in
      if resource.resource_type == dir_type then join (target ∷ resource.name ∷ []) else target

  abbrev pub no_run : Disk → List Bool → Option Error → LinkRun
  no_run disk ends error = record {
    disk = disk;
    downloaded = 0;
    skipped = 0;
    tracker = record { increments = 0; ends = ends };
    error = error;
  }

  -- The files that are left; a dry run counts them as skipped.
  unfoldable pub download_filtered : LinkAnswers → Disk → Text → List PublicDownload → LinkRun
  unfolding download_items
  download_filtered answers disk target [] = no_run disk [] none
  download_filtered answers disk target (item ∷ items) =
      if opts.dry_run
      then record {
        disk = disk;
        downloaded = 0;
        skipped = length (item ∷ items);
        tracker = tracked (length (item ∷ items)) true;
        error = none;
      }
      else if answers.mkdir_fails
      then failed_run disk 0 0 0
          (cmd_error (codes "prepare_dir") io (io_text (codes "prepare target dir")))
      else download_items answers target 0 disk 0 0 0 (item ∷ items)

  abbrev pub after_resolve : LinkAnswers → Text → Disk → Result ResolvedPublicResource → LinkRun
  after_resolve answers output_dir disk (failed e) =
      no_run disk [] (some (cmd_error (codes "resolve") network e))
  after_resolve answers output_dir disk (ok resource) =
      if is_empty resource.files
      then no_run disk (false ∷ [])
          (some (cmd_error (codes "resolve") io (io_text (codes "yadisk resource has no files"))))
      else download_filtered answers disk (link_target output_dir resource)
          (filtered_files lib.lower resource.files)

  unfoldable pub download_single_yandex_disk_link : ℕ → ℕ → LinkAnswers → Text → Disk → LinkRun
  unfolding download_filtered filtered_files
  download_single_yandex_disk_link depth pages answers output_dir disk =
      after_resolve answers output_dir disk
        (resolve_public_resource_downloads lib client answers.service depth pages link.url)

-- What the loop over the links meets in each round: the context has ended, or a link has come. The end
-- of the list is the closed channel.
pub data LinkEvent : Type 0 where
  context_done : LinkEvent
  link_came : ExternalLink → LinkAnswers → LinkEvent

pub record LinksRun : Type 0 where
  pub disk : Disk
  pub summary : YandexDownloadSummary
  pub error : Option Error

abbrev pub first_error : Option Error → Option Error → Option Error
first_error none e = e
first_error (some f) e = some f

abbrev pub context_error : Error
context_error = new_error (codes "cmd.download.yadisk.loop") cancel (codes "context canceled")

module _ (lib : Library) (client : Client) (opts : DownloadOptions) (depth pages : ℕ)
    (output_dir : Text) where
  abbrev pub run_link : ExternalLink → LinkAnswers → Disk → LinkRun
  run_link link answers disk =
      download_single_yandex_disk_link lib client opts link depth pages answers output_dir disk

  unfoldable pub download_yandex_disk_links :
      Disk → YandexDownloadSummary → Option Error → List LinkEvent → LinksRun
  unfolding add_link_result
  download_yandex_disk_links disk summary first [] = record {
    disk = disk;
    summary = summary;
    error = first;
  }
  download_yandex_disk_links disk summary first (context_done ∷ events) = record {
    disk = disk;
    summary = mark_failed summary;
    error = some context_error;
  }
  download_yandex_disk_links disk summary first (link_came link answers ∷ events) =
      let run = run_link link answers disk in
      download_yandex_disk_links run.disk
        (add_link_result summary run.downloaded run.skipped run.error) (first_error first run.error)
        events
