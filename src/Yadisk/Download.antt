-- ===== src/Yadisk/Download.antt =====
-- pkg/yadisk/downloader.go: DownloadFile above the direct download, and the stream of a video. The
-- network at each step and the file system are arguments; the log is left out.
pub mod File
use tgdownloader.Prelude.{
  is_empty, ℕ, zero, suc, ◌+◌, ◌*◌, Bool, true, false, ◌&&◌, ◌||◌, not, Option, none, some, List,
  [], ◌∷◌, ◌++◌, Text, ◌==◌, nat_eq, list_eq, length, take, ltb, leb, if◌then◌else◌, codes, ℤ, pos,
  negsuc, pos_part,
}
use tgdownloader.Prelude.Decimal.{decimal}
use tgdownloader.Prelude.Map
use tgdownloader.Renderer.Sanitize.{trim_space}
use tgdownloader.Downloader.Resume.{Disk}
use tgdownloader.Apperr.{Error, network, io, new_error, wrap}
use tgdownloader.Yadisk.Names.{should_use_hls_fallback, is_skippable_yandex_item}
use tgdownloader.Yadisk.Media.{VideoStream, choose_best_video_stream}
use tgdownloader.Yadisk.Http.{Result, failed, ok, Library, Client, Service, Body}
use tgdownloader.Yadisk.Resolve.{PublicDownload, resolve_public_file_download_url}
use tgdownloader.Yadisk.Open.{PublicFile, open_direct_file, open_direct_file_range}
use tgdownloader.Yadisk.Streams.{get_video_streams, download_hls_stream}
use tgdownloader.Yadisk.Direct.{
  Direct, DownloadedFile, Resumed, after_copy, after_first_copy, after_open, closed, copy,
  direct_error, download_via_direct, first_copy, io_error, io_failed, kept_content, kept_count,
  max_range_parts, part_error, restarts, resume_download, resume_parts, stopped, wrap_resume,
  wrapped_error,
}

pub record FileDownloadOptions : Type 0 where
  pub allow_rewrite : Bool
  pub dry_run : Bool

-- The stream of a video, as its calls are answered.
pub record Hls : Type 0 where
  pub streams_service : Service
  pub create_fails : Bool
  pub stream_service : Service
  pub stat_fails : Bool

abbrev pub hls_written : Hls → Disk → Text → Text × Option Error → Disk × Result DownloadedFile
hls_written hls disk path (content, some e) =
    (Map.delete disk path, failed (direct_error (codes "download_hls_stream") e))
hls_written hls disk path (content, none) = (
  Map.put disk path content,
  if hls.stat_fails
      then io_failed (codes "stat_hls_file")
      else ok (record { path = path; size = length content; is_hls_stream = true }),
)

-- `write` is what the segments of a stream write.
abbrev pub after_best :
    Hls
    → Disk
    → Text
    → (Text → Text × Option Error)
    → Option VideoStream
    → Disk × Result DownloadedFile
after_best hls disk path write none = (disk, io_failed (codes "video_streams_empty"))
after_best hls disk path write (some best) =
    if hls.create_fails
    then (disk, io_failed (codes "create_hls_file"))
    else hls_written hls disk path (write best.url)

abbrev pub after_streams :
    Hls
    → Disk
    → Text
    → (Text → Text × Option Error)
    → Result (List VideoStream)
    → Disk × Result DownloadedFile
after_streams hls disk path write (failed e) =
    (disk, failed (direct_error (codes "get_video_streams") e))
after_streams hls disk path write (ok streams) =
    after_best hls disk path write (choose_best_video_stream streams)

unfoldable pub download_via_hls :
    Library → Hls → Disk → Text → PublicDownload → Text → Disk × Result DownloadedFile
unfolding get_video_streams download_hls_stream choose_best_video_stream
download_via_hls lib hls disk public_url file path =
    after_streams hls disk path (download_hls_stream lib hls.stream_service)
      (get_video_streams lib hls.streams_service public_url file.path)

-- All the answers that one `DownloadFile` may get: both steps of each resolution, the two direct
-- downloads, and the stream.
pub record DownloadAnswers : Type 0 where
  pub resource_service : Service
  pub chain_service : Service
  pub refreshed_resource_service : Service
  pub refreshed_chain_service : Service
  pub first : Direct
  pub second : Direct
  pub hls : Hls

-- `none` is a file that is skipped.
abbrev pub Outcome : Type 0
Outcome = Disk × Result (Option DownloadedFile)

abbrev pub found : Disk × Result DownloadedFile → Outcome
found (disk, failed e) = (disk, failed e)
found (disk, ok f) = (disk, ok (some f))

abbrev pub with_url : PublicDownload → Text → PublicDownload
with_url file url = record file { direct_url = url }

module _ (lib : Library) (client : Client) (env : DownloadAnswers) (public_url : Text)
    (file : PublicDownload) (path : Text) where
  abbrev pub refreshed_file : PublicDownload
  refreshed_file = record {
    name = file.name;
    size = file.size;
    direct_url = [];
    path = file.path;
    relative_dir = [];
  }

  -- The second direct download, with the new URL; `e` is the error of the first.
  abbrev pub retried : Disk → Error → Result Text → Disk × Result DownloadedFile
  retried disk e (failed refresh_error) = (disk, failed e)
  retried disk e (ok url) =
      if is_empty (trim_space url)
      then (disk, failed e)
      else download_via_direct env.second disk (with_url file (trim_space url)) path

  abbrev pub after_first : Disk × Result DownloadedFile → Disk × Result DownloadedFile
  after_first (disk, ok f) = (disk, ok f)
  after_first (disk, failed e) =
      if is_empty (trim_space file.path)
      then (disk, failed e)
      else retried disk e (
          resolve_public_file_download_url lib client env.refreshed_resource_service
            env.refreshed_chain_service public_url refreshed_file)

  unfoldable pub download_direct : Disk → Text → Disk × Result DownloadedFile
  unfolding download_via_direct resolve_public_file_download_url
  download_direct disk url =
      after_first (download_via_direct env.first disk (with_url file url) path)

  abbrev pub resolve_error : Error → Error
  resolve_error e =
      new_error (codes "yadisk.downloader.resolve_download_url") network
        (codes "resolve download url for " ++ lib.quote file.name ++ codes ": " ++ e.message)

  abbrev pub skipped_or_failed : Disk → Error → Outcome
  skipped_or_failed disk e =
      if is_skippable_yandex_item lib.lower file.name (some e.message)
      then (disk, ok none)
      else (disk, failed (resolve_error e))

  abbrev pub after_hls : Error → Disk × Result DownloadedFile → Outcome
  after_hls e (disk, ok f) = (disk, ok (some f))
  after_hls e (disk, failed hls_error) = skipped_or_failed disk e

  -- No URL: a video may still come as a stream.
  unfoldable pub without_url : Disk → Error → Outcome
  unfolding download_via_hls
  without_url disk e =
      if should_use_hls_fallback lib.lower file.name (some e.message)
      then after_hls e (download_via_hls lib env.hls disk public_url file path)
      else skipped_or_failed disk e

  abbrev pub after_resolve : Disk → Result Text → Outcome
  after_resolve disk (failed e) = without_url disk e
  after_resolve disk (ok url) = found (download_direct disk url)

  unfoldable pub download_new : Disk → Outcome
  unfolding download_direct without_url resolve_public_file_download_url
  download_new disk =
      if is_empty (trim_space file.direct_url)
      then after_resolve disk (
          resolve_public_file_download_url lib client env.resource_service env.chain_service
            public_url file)
      else found (download_direct disk (trim_space file.direct_url))

  abbrev pub not_downloaded : DownloadedFile
  not_downloaded = record { path = path; size = 0; is_hls_stream = false }

  -- `stat_fails` is an error of `os.Stat` on a file that exists: it counts as no file.
  unfoldable pub download_file : FileDownloadOptions → Bool → Disk → Outcome
  unfolding download_new
  download_file opts stat_fails disk =
      if opts.dry_run || (Map.has disk path && not stat_fails && not opts.allow_rewrite)
      then (disk, ok (some not_downloaded))
      else download_new disk
