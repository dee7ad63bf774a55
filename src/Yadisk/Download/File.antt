-- ===== src/Yadisk/Download/File.antt =====
-- What `DownloadFile` leaves under its path, through the retry and the stream.
use tgdownloader.Prelude.{ℕ, ◌≡◌, ◌⊎◌, Bool, true, none, some, Text, nat_eq, list_eq, length, pos}
use tgdownloader.Prelude.Map
use tgdownloader.Downloader.Resume.{Disk}
use tgdownloader.Yadisk.Http.{Result, failed, ok}
use tgdownloader.Yadisk.Resolve.{PublicDownload}
use tgdownloader.Yadisk.Open.{PublicFile, open_direct_file_at}
use tgdownloader.Yadisk.Direct.{DownloadedFile, Direct}
use tgdownloader.Yadisk.Download.{Outcome, with_url}
use tgdownloader.Yadisk.Direct.Leaves.{Leaves, Others}
use tgdownloader.Yadisk.Direct.Content.{ServesContent}

-- Under whichever URL, a direct download is served the file `c`, and told its size.
pub record DirectServes (direct : Direct) (file : PublicDownload) (c : Text) : Type 0 where
  pub opened : (url : Text) → ServesContent direct.open_service (with_url file url) c
  pub parts :
      (url : Text) (part : ℕ) → ServesContent (direct.part_service part) (with_url file url) c
  pub sized :
      (url : Text) (f : PublicFile)
      → open_direct_file_at direct.open_service (with_url file url) 0 ≡ ok f
      → f.size ≡ pos (length c)

module _ (c path : Text) where
  -- The stream's bytes, whatever they are, under the path.
  abbrev pub HasStream : Disk → DownloadedFile → Type 0
  HasStream disk d =
      (content : Text) × ((Map.get disk path ≡ some content)
        × ((d.size ≡ length content) × (d.is_hls_stream ≡ true)))

  abbrev pub Untouched : Disk → Disk → Type 0
  Untouched disk disk' = (Map.get disk' path ≡ Map.get disk path) ⊎ (Map.get disk' path ≡ none)

  -- Without a file: what was there or nothing; or the stream's bytes, where `os.Stat` of them failed.
  abbrev pub Left : Bool → Disk → Disk → Type 0
  Left stat_fails disk disk' =
      Untouched disk disk'
      ⊎ ((content : Text) × ((Map.get disk' path ≡ some content) × (stat_fails ≡ true)))

  -- Of a file that is downloaded, `c` or a stream is under the path.
  abbrev pub LeavesFile : Bool → Disk → Outcome → Type 0
  LeavesFile stat_fails disk (disk', failed e) =
      Others c path disk disk' × Left stat_fails disk disk'
  LeavesFile stat_fails disk (disk', ok none) =
      Others c path disk disk' × Left stat_fails disk disk'
  LeavesFile stat_fails disk (disk', ok (some d)) =
      Others c path disk disk'
      × (((Map.get disk' path ≡ some c) × (d.size ≡ length c)) ⊎ HasStream disk' d)

  abbrev LeavesStream : Bool → Disk → Disk × Result DownloadedFile → Type 0
  LeavesStream stat_fails disk (disk', failed e) =
      Others c path disk disk' × Left stat_fails disk disk'
  LeavesStream stat_fails disk (disk', ok d) = Others c path disk disk' × HasStream disk' d
