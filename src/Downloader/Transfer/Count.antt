-- ===== src/Downloader/Transfer/Count.antt =====
-- The counters, and what the retries write.
use tgdownloader.Prelude.{
  ℕ, ◌+◌, ◌≡◌, refl, Bool, true, false, not, ◌&&◌, Option, none, some, List, [], Text, ◌==◌, nat_eq,
  length, arith, Bool-cases, inl, inr, if◌then◌else◌,
}
use tgdownloader.Downloader.Resume.{Disk, ResumeError}
use tgdownloader.Downloader.Transfer.{
  Env, Settings, Stats, Outcome, FileError, DownloadError, finish, fresh_download, resumed_or,
  resumed_outcome, download_file, count_failure, work, add_files, mkdir_all, download_loop,
}

abbrev pub total : Stats → ℕ
total n = n.downloaded + n.skipped + n.failed

-- One file: a result without error is counted, one with an error is not counted yet.
Counts : Stats → Outcome → Type 0
Counts n (disk, m, none) = (total m ≡ total n + 1) × (m.failed ≡ n.failed)
Counts n (disk, m, some e) = m ≡ n

finish-Counts :
    (env : Env) (dry_run : Bool) (n : Stats) (paths : List Text) (r : Disk × Option DownloadError)
    → Counts n (finish env dry_run n paths r)
unfolding finish Counts
finish-Counts env dry_run n paths (disk, none) = (omega arith, refl)
finish-Counts env dry_run n paths (disk, some e) = refl

fresh_download-Counts :
    (env : Env) (s : Settings) (n : Stats) (r : Disk × Option (List Text))
    → Counts n (fresh_download env s n r)
unfolding fresh_download
fresh_download-Counts env s n (disk, none) = unfold Counts in refl
fresh_download-Counts env s n (disk, some added) =
    let paths : List Text = if s.dry_run then [] else added in
    elim (Bool-cases (not s.dry_run && length added == 0)) [
      | inl e ↦ rw e (unfold Counts in (omega arith, refl))
      | inr e ↦
          rw e (
            finish-Counts env s.dry_run n paths (download_loop env s.retry_count 1 disk paths none))
    ]

resumed-Counts : (n : Stats) (r : Disk × Option ResumeError) → Counts n (resumed_outcome n r)
unfolding resumed_outcome Counts
resumed-Counts n (disk, none) = (omega arith, refl)
resumed-Counts n (disk, some e) = refl

resumed_or-Counts :
    (can_resume : Bool) (r : Option (Disk × Option ResumeError)) (n : Stats) (fresh : Outcome)
    → Counts n fresh
    → Counts n (resumed_or can_resume r n fresh)
unfolding resumed_or
resumed_or-Counts true (some r) n fresh h = resumed-Counts n r
resumed_or-Counts true none n fresh h = h
resumed_or-Counts false r n fresh h = h

download_file-Counts :
    (env : Env) (s : Settings) (disk : Disk) (n : Stats) (paths : List Text) (size : ℕ)
    → Counts n (download_file env s disk n paths size)
unfolding download_file
download_file-Counts env s disk n paths size = elim (Bool-cases (mkdir_all env s paths)) [
  | inl m ↦ rw m (
      resumed_or-Counts env.can_resume _ n _
        (fresh_download-Counts env s n (add_files env s disk [] paths)))
  | inr m ↦ rw m (unfold Counts in refl)
]

abbrev pub error_count : Option FileError → ℕ
error_count none = 0
error_count (some e) = 1

count_failure-total :
    (n : Stats) (r : Outcome)
    → Counts n r
    → (total (count_failure r).1 ≡ total n + 1)
      × ((count_failure r).1.failed ≡ n.failed + error_count (count_failure r).2)
unfolding count_failure Counts
count_failure-total n (disk, m, none) h = (h.0, omega arith)
count_failure-total n (disk, m, some e) h = (rw h (omega arith), rw h refl)

-- Whatever happens to a file, a worker counts it exactly once, as downloaded, skipped or failed, and
-- as failed exactly where an error is recorded.
pub work-total :
    (env : Env) (s : Settings) (disk : Disk) (n : Stats) (paths : List Text) (size : ℕ)
    → (total (work env s disk n paths size).1 ≡ total n + 1)
      × ((work env s disk n paths size).1.failed
          ≡ n.failed + error_count (work env s disk n paths size).2)
unfolding work
work-total env s disk n paths size =
    count_failure-total n (download_file env s disk n paths size)
      (download_file-Counts env s disk n paths size)
