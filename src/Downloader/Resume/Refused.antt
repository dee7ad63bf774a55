-- ===== src/Downloader/Resume/Refused.antt =====
-- A partial file of a length from which Telegram serves no part is never resumed.
use tgdownloader.Prelude.{
  ℕ, zero, suc, ◌<◌, ◌≡◌, ◌≢◌, refl, branches, Bool, true, false, Option, none, some, [], Text,
  ◌==◌, nat_eq, list_eq, length, leb, arith, append-nil, Bool-cases, inl, inr,
}
use tgdownloader.Prelude.Map
use tgdownloader.Downloader.Resume.{
  Attempt, Disk, ResumeError, Verdict, complete, stop, retry, append_to, attempt, appended,
  after_download, download_from_offset, next_round, resume_loop, get_chunk,
}
use tgdownloader.Downloader.Resume.Fetch.{honest, is_allowed, download_from_offset-refused}

module _ (path content c : Text) (short : length c < length content)
    (refused : is_allowed (length c) ≡ false) where
  abbrev HasPart : Disk → Type 0
  HasPart disk = Map.get disk path ≡ some c

  -- An attempt whose download is Telegram's; all its other answers are open.
  abbrev pub FromTelegram : Attempt → Type 0
  FromTelegram a =
      (fuel : ℕ) × ((offset : ℕ)
        → a.download offset
          ≡ download_from_offset (suc fuel) (honest content) (length content) offset)

  -- No attempt completes the file, or adds to it.
  abbrev Refused : Disk × Verdict → Type 0
  Refused (disk, v) = HasPart disk × (v ≢ complete)

  appended-Refused :
      (a : Attempt) (disk : Disk)
      → FromTelegram a
      → HasPart disk
      → Refused (appended a disk path (length content) (length c))
  unfolding appended after_download append_to
  appended-Refused a disk (fuel, same) h =
      let nothing : a.download (length c) ≡ ([], some get_chunk) =
        rw (same (length c)) (download_from_offset-refused fuel content (length c) short refused) in
      rw (nothing, h, append-nil)
        (
          Map.get-put_same disk path c,
          branches (λ (v : Verdict). v ≢ complete) a.close_fails (λ e. cc) (λ e. cc),
        )

  attempt-Refused :
      (a : Attempt) (disk : Disk)
      → FromTelegram a
      → HasPart disk
      → Refused (attempt a disk path (length content))
  unfolding attempt
  attempt-Refused a disk f h =
      let too_short : leb (length content) (length c) ≡ false = ground (arith, short) in
      branches Refused a.done_before (h, λ e. cc)
        (elim (Bool-cases a.stat_fails) [
          | inl q ↦ rw q (h, λ e. cc)
          | inr q ↦
              rw (q, h, too_short)
                (branches Refused a.open_fails (h, λ e. cc) (appended-Refused a disk f h))
        ])

  -- Where every attempt downloads from a server that keeps to the rules of a precise
  -- `upload.getFile` (the offset divisible by a KiB, the part within one block of a MiB), a
  -- partial file of a length that the rules do not allow is never resumed: however often it is
  -- tried and whatever else happens, the loop ends in an error, and the file has the bytes that
  -- it had.
  pub resume_loop-refused :
      (rounds : ℕ) (env : ℕ → Attempt) (k : ℕ) (disk : Disk)
      → ((n : ℕ) → FromTelegram (env n))
      → Map.get disk path ≡ some c
      → (Map.get (resume_loop rounds env k disk path (length content)).0 path ≡ some c)
        × ((resume_loop rounds env k disk path (length content)).1 ≢ none)
  unfolding resume_loop
  resume_loop-refused zero env k disk f h = (h, (λ e. cc))
  resume_loop-refused (suc rounds) env k disk f h =
      let a = attempt-Refused (env k) disk (f k) h in
      after_round (attempt (env k) disk path (length content)).0
        (attempt (env k) disk path (length content)).1 (env k).done_after _ a.0 a.1
        (resume_loop-refused rounds env (suc k) (attempt (env k) disk path (length content)).0 f
          a.0)
    where
      after_round :
          (disk' : Disk) (v : Verdict) (b : Bool) (rest : Disk × Option ResumeError)
          → HasPart disk'
          → v ≢ complete
          → (Map.get rest.0 path ≡ some c) × (rest.1 ≢ none)
          → (Map.get (next_round rounds b disk' v rest).0 path ≡ some c)
            × ((next_round rounds b disk' v rest).1 ≢ none)
      after_round disk' complete b rest p n r = absurd (n refl)
      after_round disk' (stop x) b rest p n r = (p, λ e. cc)
      after_round disk' retry true rest p n r = (p, λ e. cc)
      after_round disk' retry false rest p n r =
          branches (λ (o : Disk × Option ResumeError). (Map.get o.0 path ≡ some c) × (o.1 ≢ none))
            (rounds == 0) (p, λ e. cc) r
