-- ===== src/Downloader/Resume.antt =====
-- `DownloadFromOffset` of pkg/telegram/file.go, and `resumeExistingPartialFile` of
-- internal/downloader/downloader.go, which appends what is missing to a partial file. What the
-- Telegram API, the writer, the file system and the context answer are parameters.
pub mod Fetch
pub mod Refused
pub mod Attempts
use tgdownloader.Prelude.{
  ℕ, zero, suc, ◌+◌, ◌*◌, Bool, true, false, ◌&&◌, ◌||◌, not, Option, none, some, List, [], ◌∷◌,
  ◌++◌, Text, ◌==◌, nat_eq, list_eq, leb, ltb, length, take, if◌then◌else◌,
}
use tgdownloader.Prelude.Map
use tgdownloader.Prelude.Map.{Map}

unfoldable pub part_size : ℕ
part_size = 512 * 1024

-- What `UploadGetFile` answers.
pub data Response : Type 0 where
  upload_file : Text → Response
  rpc_error unexpected : Response

pub data FetchError : Type 0 where
  context_done get_chunk unexpected_response write_failed short_write out_of_fuel : FetchError

-- What the calls of one download answer: the API at each offset, the writer (the count that it
-- reports, or an error), and the context at each offset.
pub record Service : Type 0 where
  pub upload_get_file : ℕ → Response
  pub writer : Text → Option ℕ
  pub is_done : ℕ → Bool

-- Behind a complete write the loop stops at the file's size or at a short part.
last_part : ℕ → ℕ → Text → Bool
last_part size offset bytes =
    (ltb 0 size && leb size (offset + length bytes)) || ltb (length bytes) part_size

-- The loop on fuel, over the current offset and what has been written.
unfoldable pub fetch_loop : ℕ → Service → ℕ → ℕ → Text → Text × Option FetchError
unfolding last_part
fetch_loop zero s size offset out = (out, some out_of_fuel)
fetch_loop (suc fuel) s size offset out = elim (s.is_done offset) [
  | true ↦ (out, some context_done)
  | false ↦ elim (s.upload_get_file offset) [
    | rpc_error ↦ (out, some get_chunk)
    | unexpected ↦ (out, some unexpected_response)
    | upload_file bytes ↦ elim (length bytes == 0) [
      | true ↦ (out, none)
      | false ↦ elim (s.writer bytes) [
        | none ↦ (out, some write_failed)
        | some n ↦ elim (n == length bytes) [
          | false ↦ (out ++ take n bytes, some short_write)
          | true ↦ elim (last_part size offset bytes) [
            | true ↦ (out ++ bytes, none)
            | false ↦ fetch_loop fuel s size (offset + n) (out ++ bytes)
          ]
        ]
      ]
    ]
  ]
]

-- Offsets are not negative here, so the first check of the source does not apply.
pub download_from_offset : ℕ → Service → ℕ → ℕ → Text × Option FetchError
unfolding fetch_loop
download_from_offset fuel s size offset =
    if ltb 0 size && leb size offset then ([], none) else fetch_loop fuel s size offset []

-- One attempt of the resume loop, as its calls answer it; `download` is what the service appends from
-- an offset, and its error.
pub record Attempt : Type 0 where
  pub done_before : Bool
  pub stat_fails : Bool
  pub open_fails : Bool
  pub download : ℕ → Text × Option FetchError
  pub close_fails : Bool
  pub final_stat_fails : Bool
  pub done_after : Bool

pub data ResumeError : Type 0 where
  cancelled stat_failed open_failed close_failed final_stat_failed failed retry_limit : ResumeError

-- The bytes of each file, by path.
abbrev pub Disk : Type 0
Disk = Map Text Text

abbrev content_or_empty : Option Text → Text
content_or_empty none = []
content_or_empty (some c) = c

-- `O_APPEND`.
unfoldable pub append_to : Disk → Text → Text → Disk
append_to disk path bytes = Map.put disk path (content_or_empty (Map.get disk path) ++ bytes)

abbrev pub stat_size : Bool → Option Text → Option ℕ
stat_size true found = none
stat_size false none = none
stat_size false (some c) = some (length c)

-- What one attempt comes to: the loop ends with a result, or goes on.
pub data Verdict : Type 0 where
  complete : Verdict
  stop : ResumeError → Verdict
  retry : Verdict

abbrev is_none : Option FetchError → Bool
is_none none = true
is_none (some e) = false

after_download : Attempt → Disk → Text → ℕ → Option FetchError → Verdict
after_download a disk path size error = if a.close_fails then stop close_failed else elim error [
  | some e ↦ retry
  | none ↦ elim (stat_size a.final_stat_fails (Map.get disk path)) [
    | none ↦ stop final_stat_failed
    | some n ↦ if ltb n size then retry else complete
  ]
]

appended : Attempt → Disk → Text → ℕ → ℕ → Disk × Verdict
unfolding after_download
appended a disk path size offset =
    let (bytes, error) = a.download offset in
    let disk' = append_to disk path bytes in (disk', after_download a disk' path size error)

unfoldable pub attempt : Attempt → Disk → Text → ℕ → Disk × Verdict
unfolding appended
attempt a disk path size =
    if a.done_before
    then (disk, stop cancelled)
    else elim (stat_size a.stat_fails (Map.get disk path)) [
      | none ↦ (disk, stop stat_failed)
      | some offset ↦
          if leb size offset
          then (disk, complete)
          else if a.open_fails
          then (disk, stop open_failed)
          else appended a disk path size offset
    ]

-- Behind an attempt: the loop ends, or goes on where a round is left. `none` is success.
next_round : ℕ → Bool → Disk → Verdict → Disk × Option ResumeError → Disk × Option ResumeError
next_round rounds is_done disk complete rest = (disk, none)
next_round rounds is_done disk (stop e) rest = (disk, some e)
next_round rounds is_done disk retry rest =
    if is_done then (disk, some cancelled) else if rounds == 0 then (disk, some failed) else rest

-- The loop over the attempts, with the rounds that are left.
unfoldable pub resume_loop : ℕ → (ℕ → Attempt) → ℕ → Disk → Text → ℕ → Disk × Option ResumeError
unfolding next_round
resume_loop zero env k disk path size = (disk, some retry_limit)
resume_loop (suc rounds) env k disk path size =
    let (disk', verdict) = attempt (env k) disk path size in
    let rest = resume_loop rounds env (suc k) disk' path size in
    next_round rounds (env k).done_after disk' verdict rest

-- `none`: there is nothing to resume and the file is downloaded from the start. An error of the
-- first `Stat` but "not found" is an error of the whole.
unfoldable pub resume_existing_partial_file :
    Bool
    → Bool
    → Bool
    → ℕ
    → (ℕ → Attempt)
    → Disk
    → List Text
    → ℕ
    → Option (Disk × Option ResumeError)
unfolding resume_loop
resume_existing_partial_file dry_run rewrite stat_fails retry_count env disk (path ∷ []) size =
    if dry_run || rewrite || size == 0
    then none
    else if stat_fails
    then some (disk, some stat_failed)
    else elim (Map.get disk path) [
      | none ↦ none
      | some c ↦
          if length c == 0 || leb size (length c)
          then none
          else some (resume_loop retry_count env 1 disk path size)
    ]
resume_existing_partial_file dry_run rewrite stat_fails retry_count env disk [] size = none
resume_existing_partial_file dry_run rewrite stat_fails retry_count env disk (p ∷ q ∷ ps) size =
    none
