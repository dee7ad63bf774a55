-- ===== src/Yadisk/Direct.antt =====
-- The direct download of pkg/yadisk/downloader.go, with its ranges: downloadViaDirect and
-- resumeDownload. The network at each step and the answers of the file system and of the writers are
-- arguments; `os.Remove` removes. The progress writer is given, as its caller in cmd/cmd does. The texts
-- of its own errors are cut to the name of what failed.
pub mod Content
pub mod Leaves
pub mod Ends
use tgdownloader.Prelude.{
  is_empty, ℕ, zero, suc, ◌+◌, ◌*◌, Bool, true, false, ◌&&◌, ◌||◌, not, Option, none, some, List,
  [], ◌∷◌, ◌++◌, Text, ◌==◌, nat_eq, list_eq, length, take, ltb, leb, if◌then◌else◌, codes, ℤ, pos,
  negsuc, pos_part,
}
use tgdownloader.Prelude.Decimal.{decimal}
use tgdownloader.Prelude.Map
use tgdownloader.Renderer.Sanitize.{trim_space}
use tgdownloader.Downloader.Resume.{Disk}
use tgdownloader.Apperr.{Error, network, io, new_error, wrap}
use tgdownloader.Yadisk.Names.{should_use_hls_fallback, is_skippable_yandex_item}
use tgdownloader.Yadisk.Media.{VideoStream, choose_best_video_stream}
use tgdownloader.Yadisk.Http.{Result, failed, ok, Library, Client, Service, Body}
use tgdownloader.Yadisk.Resolve.{PublicDownload, resolve_public_file_download_url}
use tgdownloader.Yadisk.Open.{PublicFile, open_direct_file, open_direct_file_range}
use tgdownloader.Yadisk.Streams.{get_video_streams, download_hls_stream}

pub record DownloadedFile : Type 0 where
  pub path : Text
  pub size : ℕ
  pub is_hls_stream : Bool

-- One direct download, as its calls are answered: the network when the file is opened and at each
-- part, and the file system. `writer` gives the bytes that a part's writer takes before it fails.
pub record Direct : Type 0 where
  pub open_service : Service
  pub part_service : ℕ → Service
  pub create_fails : Bool
  pub first_writer : Option ℕ
  pub writer : ℕ → Option ℕ
  pub truncate_fails : ℕ → Bool
  pub seek_fails : ℕ → Bool
  pub close_fails : Bool

-- `io.Copy`: what has been written, and whether it ended in an error.
unfoldable pub copy : Option ℕ → Body → Text × Bool
copy none body = (body.bytes, body.read_fails)
copy (some n) body = (take n body.bytes, true)

abbrev pub max_range_parts : ℕ
max_range_parts = 256

-- The file, the count of the loop, and the error.
pub record Resumed : Type 0 where
  pub content : Text
  pub written : ℕ
  pub error : Option Error

abbrev pub stopped : Text → ℕ → Text → Error → Resumed
stopped content written op e = record {
  content = content;
  written = written;
  error = some (wrap op e);
}

abbrev pub part_error : Text → ℕ → Text → Resumed
part_error content written op = record {
  content = content;
  written = written;
  error = some (new_error (codes "yadisk.downloader." ++ op) network op);
}

-- A part that has been copied behind `content`; `rest` is the next round of the loop.
unfoldable pub after_copy : Text → ℕ → Text × Bool → Bool → Resumed → Resumed
after_copy content written (bytes, copy_fails) close_fails rest =
    if copy_fails
    then part_error (content ++ bytes) written (codes "copy_range")
    else if close_fails
    then part_error (content ++ bytes) written (codes "close_range_body")
    else if is_empty bytes
    then part_error content written (codes "no_progress")
    else rest

-- The server has ignored the range: the file starts again.
abbrev pub restarts : ℕ → PublicFile → Bool
restarts written f = f.offset == 0 && ltb 0 written

abbrev pub kept_content : ℕ → PublicFile → Text → Text
kept_content written f content = if restarts written f then [] else content

abbrev pub kept_count : ℕ → PublicFile → ℕ
kept_count written f = if restarts written f then 0 else written

-- What the loop makes of an answer; `rest` is its next round.
unfoldable pub after_open :
    Direct → ℕ → Text → ℕ → Result PublicFile → (PublicFile → Resumed) → Resumed
unfolding copy after_copy
after_open direct part content written (failed e) rest =
    stopped content written (codes "yadisk.downloader.open_range") e
after_open direct part content written (ok f) rest =
    if restarts written f && direct.truncate_fails part
    then part_error content written (codes "truncate_file")
    else if restarts written f && direct.seek_fails part
    then part_error [] written (codes "seek_start")
    else after_copy (kept_content written f content) (kept_count written f)
        (copy (direct.writer part) f.body) f.body.close_fails (rest f)

module _ (direct : Direct) (file : PublicDownload) (total : ℕ) where
  -- The loop, with the rounds that are left.
  unfoldable pub resume_parts : ℕ → ℕ → Text → ℕ → Resumed
  unfolding after_open
  resume_parts zero part content written =
      if ltb written total
      then part_error content written (codes "incomplete_download")
      else record { content = content; written = written; error = none }
  resume_parts (suc rounds) part content written =
      if leb total written
      then record { content = content; written = written; error = none }
      else after_open direct part content written
          (open_direct_file_range (direct.part_service part) file written)
          (λ f.
            let bytes = (copy (direct.writer part) f.body).0 in
            resume_parts rounds (suc part) (kept_content written f content ++ bytes)
              (kept_count written f + length bytes))

  unfoldable pub resume_download : Text → ℕ → Resumed
  unfolding resume_parts
  resume_download content current_offset = resume_parts max_range_parts 0 content current_offset

abbrev pub direct_error : Text → Error → Error
direct_error op e = wrap (codes "yadisk.downloader." ++ op) e

abbrev pub io_error : Text → Error
io_error op = new_error (codes "yadisk.downloader." ++ op) io op

abbrev pub io_failed : Text → Result DownloadedFile
io_failed op = failed (io_error op)

-- The file is closed, and is removed where that or the download failed; the removal is taken to
-- succeed.
abbrev pub closed : Bool → Disk → Text → Resumed → Disk × Result DownloadedFile
closed close_fails disk path r = elim r.error [
  | some e ↦ (Map.delete disk path, failed e)
  | none ↦ if close_fails then (Map.delete disk path, io_failed (codes "close_target_file")) else (
    Map.put disk path r.content,
    ok (record { path = path; size = r.written; is_hls_stream = false }),
  )
]

abbrev pub wrapped_error : Option Error → Option Error
wrapped_error none = none
wrapped_error (some e) = some (direct_error (codes "resume_download") e)

abbrev pub wrap_resume : Resumed → Resumed
wrap_resume r = record r { error = wrapped_error r.error }

-- What the first copy leaves to the loop; `resumed` is what the loop makes of it.
abbrev pub after_first_copy : ℕ → Text × Bool → Resumed → Resumed
after_first_copy total (bytes, copy_fails) resumed =
    if copy_fails
    then part_error bytes (length bytes) (codes "copy_body")
    else if ltb 0 total && ltb (length bytes) total
    then wrap_resume resumed
    else record { content = bytes; written = length bytes; error = none }

unfoldable pub first_copy : Direct → PublicDownload → PublicFile → Resumed
unfolding copy resume_download
first_copy direct file f =
    let out = copy direct.first_writer f.body in
    after_first_copy (pos_part f.size) out
      (resume_download direct file (pos_part f.size) out.0 (length out.0))

unfoldable pub download_via_direct :
    Direct → Disk → PublicDownload → Text → Disk × Result DownloadedFile
unfolding first_copy
download_via_direct direct disk file path = elim (open_direct_file direct.open_service file) [
  | failed e ↦ (disk, failed (direct_error (codes "open_direct_file") e))
  | ok f ↦
      if direct.create_fails
      then (disk, io_failed (codes "create_target_file"))
      else closed direct.close_fails disk path (first_copy direct file f)
]
