-- ===== src/Downloader/Transfer.antt =====
-- internal/downloader/downloader.go and file.go, the workers' side: `aferoSaver`, the download of a
-- file with its retries, and the counters. What the file system, the service and the context answer
-- is the environment; logging and the tracker's display are left out.
pub mod Keep
pub mod Count
pub mod Retry
use tgdownloader.Prelude.{
  ℕ, zero, suc, ◌+◌, Bool, true, false, ◌&&◌, ◌||◌, not, Option, none, some, List, [], ◌∷◌, ◌++◌,
  Text, ◌==◌, nat_eq, list_eq, length, take, if◌then◌else◌,
}
use tgdownloader.Prelude.Map
use tgdownloader.Prelude.Map.{Map}
use tgdownloader.Downloader.Resume.{Disk, ResumeError, resume_existing_partial_file, append_to}
use tgdownloader.Downloader.Resume

pub data WriteError : Type 0 where
  device_error short_write : WriteError

-- One call of `service.Download`: the pieces that it writes, whether it ends without an error, and
-- whether the context is done behind it. A write error ends it.
pub record Attempt : Type 0 where
  pub pieces : List Text
  pub succeeds : Bool
  pub done_after : Bool

pub record Env : Type 0 where
  pub mkdir_fails : Text → Bool
  pub exists_fails : Text → Bool
  pub create_fails : Text → Bool
  pub device : Text → Text → Option ℕ
  pub close_fails : Bool
  pub remove_fails : Text → Bool
  pub attempts : ℕ → Attempt
  pub can_resume : Bool
  pub resume_stat_fails : Bool
  pub resume_attempts : ℕ → Resume.Attempt

pub record Settings : Type 0 where
  pub rewrite : Bool
  pub dry_run : Bool
  pub retry_count : ℕ

-- `aferoSaver.Write`: every open file gets the bytes, and the counts add up. A write that fails with
-- an error is taken to have written nothing.
unfoldable pub saver_write :
    (Text → Text → Option ℕ) → Disk → List Text → Text → ℕ → Disk × ℕ × Option WriteError
saver_write device disk [] p n = (disk, n, none)
saver_write device disk (path ∷ paths) p n = elim (device path p) [
  | none ↦ (disk, n, some device_error)
  | some written ↦ elim (written == length p) [
    | false ↦ (append_to disk path (take written p), n, some short_write)
    | true ↦ saver_write device (append_to disk path p) paths p (n + written)
  ]
]

-- The pieces of one attempt, up to the first write error.
unfoldable pub write_pieces :
    (Text → Text → Option ℕ) → Disk → List Text → List Text → Disk × Option WriteError
write_pieces device disk paths [] = (disk, none)
write_pieces device disk paths (p ∷ ps) =
    let (disk', n, error) = saver_write device disk paths p 0 in
    elim error [ none ↦ write_pieces device disk' paths ps | some e ↦ (disk', some e) ]

pub data DownloadError : Type 0 where
  service_failed context_done : DownloadError
  write_error : WriteError → DownloadError

attempt_error : Bool → Option WriteError → Option DownloadError
attempt_error succeeds (some e) = some (write_error e)
attempt_error succeeds none = if succeeds then none else some service_failed

-- The retry loop, with the rounds left, the number of the attempt and the error so far.
unfoldable pub download_loop :
    Env → ℕ → ℕ → Disk → List Text → Option DownloadError → Disk × Option DownloadError
unfolding attempt_error
download_loop env zero k disk paths error = (disk, error)
download_loop env (suc rounds) k disk paths error =
    let a = env.attempts k in
    let (disk', written) = write_pieces env.device disk paths a.pieces in
    elim (attempt_error a.succeeds written) [
      | none ↦ (disk', none)
      | some e ↦
          if a.done_after
          then (disk', some context_done)
          else download_loop env rounds (suc k) disk' paths (some e)
    ]

pub data FileError : Type 0 where
  create_directory prepare_output download cleanup_failed_file : FileError
  resume_failed : ResumeError → FileError

-- `createDirectoryIfNotExists` for each output path.
mkdir_all : Env → Settings → List Text → Bool
mkdir_all env s [] = true
mkdir_all env s (p ∷ ps) = (s.dry_run || not (env.mkdir_fails p)) && mkdir_all env s ps

-- `addFileToSaver` for each output path. `none` is an error; the files created before it stay.
unfoldable pub add_files : Env → Settings → Disk → List Text → List Text → Disk × Option (List Text)
add_files env s disk added [] = (disk, some added)
add_files env s disk added (p ∷ ps) =
    let skip = add_files env s disk added ps in
    let create = add_files env s (Map.put disk p []) (added ++ p ∷ []) ps in
    let dry = add_files env s disk (added ++ p ∷ []) ps in
    if env.exists_fails p
    then (disk, none)
    else if Map.has disk p && not s.rewrite
    then skip
    else if s.dry_run
    then dry
    else if env.create_fails p
    then (disk, none)
    else create

-- `Remove` behind a successful `Close`: every file is tried, the first error is returned.
unfoldable pub remove_files : Env → Disk → List Text → Disk × Bool
remove_files env disk [] = (disk, true)
remove_files env disk (p ∷ ps) =
    let kept = remove_files env disk ps in
    let removed = remove_files env (Map.delete disk p) ps in
    if env.remove_fails p then (kept.0, false) else removed

unfoldable pub saver_remove : Env → Disk → List Text → Disk × Bool
unfolding remove_files
saver_remove env disk paths = if env.close_fails then (disk, false) else remove_files env disk paths

pub record Stats : Type 0 where
  pub downloaded : ℕ
  pub skipped : ℕ
  pub failed : ℕ

abbrev pub Outcome : Type 0
Outcome = Disk × Stats × Option FileError

abbrev add_downloaded : Stats → Stats
add_downloaded n = record n { downloaded = n.downloaded + 1 }

-- Behind the retry loop. A dry run writes to `nullSaver`, which keeps and removes nothing.
finish : Env → Bool → Stats → List Text → Disk × Option DownloadError → Outcome
finish env dry_run n paths (disk, none) = (disk, add_downloaded n, none)
finish env dry_run n paths (disk, some e) =
    let (disk', removed) = saver_remove env disk paths in
    (disk', n, some (if dry_run || removed then download else cleanup_failed_file))

-- `IsValid`: `nullSaver` is always valid.
fresh_download : Env → Settings → Stats → Disk × Option (List Text) → Outcome
unfolding finish
fresh_download env s n (disk, none) = (disk, n, some prepare_output)
fresh_download env s n (disk, some added) =
    let paths = if s.dry_run then [] else added in
    if not s.dry_run && length added == 0
    then (disk, record n { skipped = n.skipped + 1 }, none)
    else finish env s.dry_run n paths (download_loop env s.retry_count 1 disk paths none)

resumed_outcome : Stats → Disk × Option ResumeError → Outcome
resumed_outcome n (disk, none) = (disk, add_downloaded n, none)
resumed_outcome n (disk, some e) = (disk, n, some (resume_failed e))

-- Where the service can resume and there is a partial file, that is the result.
resumed_or : Bool → Option (Disk × Option ResumeError) → Stats → Outcome → Outcome
unfolding resumed_outcome
resumed_or true (some r) n fresh = resumed_outcome n r
resumed_or true none n fresh = fresh
resumed_or false r n fresh = fresh

-- `downloadFile` for a file whose output paths are reserved.
unfoldable pub download_file : Env → Settings → Disk → Stats → List Text → ℕ → Outcome
unfolding mkdir_all fresh_download resumed_or
download_file env s disk n paths size =
    let fresh = fresh_download env s n (add_files env s disk [] paths) in
    let resumed =
      resume_existing_partial_file s.dry_run s.rewrite env.resume_stat_fails s.retry_count
        env.resume_attempts disk paths size in
    if not (mkdir_all env s paths)
    then (disk, n, some create_directory)
    else resumed_or env.can_resume resumed n fresh

count_failure : Outcome → Outcome
count_failure (disk, n, none) = (disk, n, none)
count_failure (disk, n, some e) = (disk, record n { failed = n.failed + 1 }, some e)

-- The job of a worker: an error is counted and recorded.
unfoldable pub work : Env → Settings → Disk → Stats → List Text → ℕ → Outcome
unfolding count_failure
work env s disk n paths size = count_failure (download_file env s disk n paths size)
