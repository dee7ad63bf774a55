-- ===== src/Downloader/Tests.antt =====
-- The theorems about internal/downloader and pkg/telegram/file.go at concrete inputs.
use tgdownloader.Prelude.{
  ℕ, ◌≡◌, ◌≢◌, ◌≤◌, refl, true, false, Option, none, some, List, [], ◌∷◌, ◌++◌, Text, codes, arith,
  length, drop, list_eq, nat_eq,
}
use tgdownloader.Prelude.Map
use tgdownloader.Prelude.Map.{Map}
use tgdownloader.Prelude.{suc, zero}
use tgdownloader.Prelude.Decimal.{decimal}
use tgdownloader.Downloader.FilePath.{clean, join, ext, trim_prefix, trim_suffix}
use tgdownloader.Downloader.Manifest.{lookup, clean_manifest_path}
use tgdownloader.Downloader.Reserve.{
  File, Queue, Stat, new_queue, reserve_all, reserve_output_paths, reserve_paths, reserve_path,
  known_path, choose_path, store_choice, claim_identified_path, numbered, path_with_identity,
  relative_output_path, has_ambiguous_existing_file, subdir_paths,
}
use tgdownloader.Downloader.Reserve.Fresh.{IsClaimed, claim_identified_path-ends}
use tgdownloader.Downloader.Reserve.Sharing.{
  PathsRoundTrip, reserve_all-distinct, new_queue-IsConsistent,
}
use tgdownloader.Downloader.Resume.{Disk, resume_loop, attempt, append_to, download_from_offset}
use tgdownloader.Downloader.Resume
use tgdownloader.Downloader.Resume.Fetch.{
  honest, is_allowed, AreAllowed, download_from_offset-honest,
}
use tgdownloader.Downloader.Resume.Refused.{resume_loop-refused}
use tgdownloader.Downloader.Resume.Attempts.{Grows, content, resume_loop-Grows, resume_loop-whole}
use tgdownloader.Downloader.Transfer.{
  Env, Settings, Stats, Attempt, download_file, download_loop, DownloadError,
}
use tgdownloader.Downloader.Transfer.Keep.{OnlyGrows, download_file-OnlyGrows}
use tgdownloader.Downloader.Transfer.Retry.{perfect, steady, download_loop-retry}

abbrev output_dir : Text
output_dir = codes "out"

abbrev photo : File
photo = record {
  name = codes "a";
  identity = codes "7";
  stable = true;
  size = 3;
  subdirs = [];
  output_paths = [];
}

abbrev nothing_there : Stat
nothing_there path = none

abbrev requests : List (Stat × File)
requests = (nothing_there, photo) ∷ (nothing_there, photo) ∷ []

abbrev saved_photo : File
saved_photo = record photo { output_paths = codes "out/a" ∷ [] }

abbrev start : Queue
start = new_queue output_dir true

abbrev queue_end : Queue
queue_end = record start { path_claims = (codes "out/a", codes "7") ∷ [] }

reserved : reserve_all start requests ≡ some (saved_photo ∷ saved_photo ∷ [], queue_end)
unfolding reserve_all reserve_output_paths reserve_paths reserve_path known_path choose_path
    store_choice relative_output_path has_ambiguous_existing_file subdir_paths clean join
    trim_prefix trim_suffix lookup new_queue Map.get Map.put clean_manifest_path
reserved = refl

photo-PathsRoundTrip : PathsRoundTrip output_dir (saved_photo ∷ saved_photo ∷ [])
unfolding relative_output_path clean_manifest_path join clean trim_prefix trim_suffix
photo-PathsRoundTrip = ((round, tt), ((round, tt), tt))
  where
    round :
        (actual : Text)
        → clean_manifest_path (relative_output_path output_dir (codes "out/a")) ≡ some actual
        → join (output_dir ∷ actual ∷ []) ≡ codes "out/a"
    round actual e = let q : codes "a" ≡ actual = cc in rw⁻¹ q refl

reserve_all-distinct_example : photo.identity ≡ photo.identity
unfolding new_queue
reserve_all-distinct_example =
    reserve_all-distinct start queue_end requests (saved_photo ∷ saved_photo ∷ [])
      (new_queue-IsConsistent output_dir true) reserved photo-PathsRoundTrip 0 1 0 0 saved_photo
      saved_photo (codes "out/a") refl refl refl refl

abbrev claims : Map Text Text
claims = (codes "out/a_7.jpg", codes "8") ∷ (codes "out/a_7-2.jpg", codes "8") ∷ []

claim_identified_path-ends_example :
    (r : Text × Map Text Text) × (claim_identified_path claims (codes "out/a.jpg") (codes "7")
      ≡ some r)
    × IsClaimed claims (codes "7") r
claim_identified_path-ends_example =
    claim_identified_path-ends claims (codes "out/a.jpg") (codes "7")

third_candidate :
    claim_identified_path claims (codes "out/a.jpg") (codes "7")
    ≡ some (codes "out/a_7-3.jpg", claims ++ (codes "out/a_7-3.jpg", codes "7") ∷ [])
unfolding claim_identified_path path_with_identity ext trim_suffix numbered decimal Map.get Map.put
third_candidate = refl

abbrev partial : Disk
partial = (codes "out/a", codes "he") ∷ (codes "out/b", codes "x") ∷ []

-- The service delivers the bytes of "hello" from the offset.
abbrev resuming : ℕ → Resume.Attempt
resuming k = record {
  done_before = false;
  stat_fails = false;
  open_fails = false;
  download = λ offset. (drop offset (codes "hello"), none);
  close_fails = false;
  final_stat_fails = false;
  done_after = false;
}

resumed :
    resume_loop 2 resuming 1 partial (codes "out/a") 5
    ≡ ((codes "out/a", codes "hello") ∷ (codes "out/b", codes "x") ∷ [], none)
unfolding resume_loop attempt append_to Map.get Map.put
resumed = refl

resume_loop-whole_example :
    5 ≤ length (content (resume_loop 2 resuming 1 partial (codes "out/a") 5).0 (codes "out/a"))
resume_loop-whole_example =
    resume_loop-whole 2 resuming 1 partial (codes "out/a") 5 (rw resumed refl)

resume_loop-Grows_example :
    Grows (codes "out/a") partial (resume_loop 2 resuming 1 partial (codes "out/a") 5).0
resume_loop-Grows_example = resume_loop-Grows 2 resuming 1 partial (codes "out/a") 5

-- The same attempts at Telegram: two bytes are no KiB.
abbrev refused : ℕ → Resume.Attempt
refused k = record (resuming k) {
  download = λ offset. download_from_offset 8 (honest (codes "hello")) 5 offset;
}

resume_loop-refused_example :
    (Map.get (resume_loop 2 refused 1 partial (codes "out/a") 5).0 (codes "out/a")
      ≡ some (codes "he"))
    × ((resume_loop 2 refused 1 partial (codes "out/a") 5).1 ≢ none)
unfolding Map.get is_allowed
resume_loop-refused_example =
    resume_loop-refused (codes "out/a") (codes "hello") (codes "he") (omega arith) refl 2 refused 1
      partial (λ n. (7, λ offset. refl)) refl

-- A KiB and three bytes.
unfoldable letters : ℕ → Text
letters zero = codes "end"
letters (suc n) = b'k' ∷ letters n

unfoldable kib : Text
unfolding letters
kib = letters 1024

length-kib : length kib ≡ 1027
unfolding kib
length-kib = refl

kib-AreAllowed : AreAllowed 1027 1024
unfolding Resume.part_size is_allowed
kib-AreAllowed j h = ground (arith, h)

download_from_offset-honest_example :
    download_from_offset 8 (honest kib) (length kib) 1024 ≡ (drop 1024 kib, none)
download_from_offset-honest_example =
    download_from_offset-honest 8 kib 1024 (omega (arith, length-kib))
      (rw length-kib kib-AreAllowed) (omega (arith, length-kib))

abbrev settings : Settings
settings = record { rewrite = false; dry_run = false; retry_count = 3 }

-- The first attempt writes a piece and fails, the second delivers the file.
abbrev attempts : ℕ → Attempt
attempts k = elim k [
  | suc (suc n) ↦ record { pieces = codes "hello" ∷ []; succeeds = true; done_after = false }
  | _ ↦ record { pieces = codes "he" ∷ []; succeeds = false; done_after = false }
]

abbrev env : Env
env = record {
  mkdir_fails = λ p. false;
  exists_fails = λ p. false;
  create_fails = λ p. false;
  device = perfect;
  close_fails = false;
  remove_fails = λ p. false;
  attempts = attempts;
  can_resume = true;
  resume_stat_fails = false;
  resume_attempts = resuming;
}

abbrev no_stats : Stats
no_stats = record { downloaded = 0; skipped = 0; failed = 0 }

download_file-OnlyGrows_example :
    OnlyGrows partial (download_file env settings partial no_stats (codes "out/c" ∷ []) 5).0
download_file-OnlyGrows_example =
    download_file-OnlyGrows env settings partial no_stats (codes "out/c" ∷ []) 5 refl

download_loop-retry_example :
    (r : Disk × Option DownloadError) × (download_loop
        (steady env attempts)
        3
        1
        partial
        (codes "out/c" ∷ [])
        none
      ≡ r)
    × (r.1 ≡ none)
    × (content r.0 (codes "out/c") ≡ codes "hehello")
    × (content r.0 (codes "out/c") ≢ codes "hello")
unfolding Map.get
download_loop-retry_example =
    download_loop-retry env attempts 1 partial (codes "out/c") (codes "he") (codes "hello")
      (λ e. cc) refl refl refl
