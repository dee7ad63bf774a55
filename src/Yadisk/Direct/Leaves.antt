-- ===== src/Yadisk/Direct/Leaves.antt =====
-- What a direct download leaves under its path.
use tgdownloader.Prelude.{
  ℕ, ◌≡◌, ◌⊎◌, inl, inr, refl, ap, ◌∙◌, subst, Bool, false, Option, none, some, Text, ◌==◌, nat_eq,
  list_eq, length, if◌then◌else◌, branches, codes, arith, pos_part, pos, beq_refl,
}
use tgdownloader.Prelude.Map
use tgdownloader.Downloader.Resume.{Disk}
use tgdownloader.Apperr.{Error}
use tgdownloader.Yadisk.Http.{Result, failed, ok}
use tgdownloader.Yadisk.Resolve.{PublicDownload}
use tgdownloader.Yadisk.Open.{PublicFile, open_direct_file_at}
use tgdownloader.Yadisk.Direct.{
  Direct, DownloadedFile, Resumed, closed, first_copy, download_via_direct, direct_error, io_failed,
  io_error,
}
use tgdownloader.Yadisk.Direct.Content.{IsPrefix-whole, IsSound, ServesContent, first_copy-IsSound}

module _ (c : Text) where
  -- Only the file at the path has changed.
  abbrev pub Others : Text → Disk → Disk → Type 0
  Others path disk disk' = (q : Text) → (path == q) ≡ false → Map.get disk' q ≡ Map.get disk q

  -- A download that succeeds leaves `c` under the path; one that fails leaves what was there, or
  -- nothing.
  abbrev pub Leaves : Text → Disk → Disk × Result DownloadedFile → Type 0
  Leaves path disk (disk', failed e) =
      Others path disk disk'
      × ((Map.get disk' path ≡ Map.get disk path) ⊎ (Map.get disk' path ≡ none))
  Leaves path disk (disk', ok d) =
      Others path disk disk' × ((Map.get disk' path ≡ some c) × (d.size ≡ length c))

  Others-delete : (path : Text) (disk : Disk) → Others path disk (Map.delete disk path)
  Others-delete path disk q h = let g = Map.get-delete disk path q in ground (arith, g, h)

  pub Others-put : (path : Text) (disk : Disk) (v : Text) → Others path disk (Map.put disk path v)
  Others-put path disk v q h = let g = Map.get-put disk path q v in ground (arith, g, h)

  get-delete_same : (path : Text) (disk : Disk) → Map.get (Map.delete disk path) path ≡ none
  get-delete_same path disk =
      let g = Map.get-delete disk path path in ground (arith, g, beq_refl path)

  pub deleted-Leaves :
      (path : Text) (disk : Disk) (e : Error) → Leaves path disk (Map.delete disk path, failed e)
  deleted-Leaves path disk e = (Others-delete path disk, inr (get-delete_same path disk))

  pub unchanged-Leaves : (path : Text) (disk : Disk) (e : Error) → Leaves path disk (disk, failed e)
  unchanged-Leaves path disk e = (λ q h. refl, inl refl)

  closed-Leaves :
      (close_fails : Bool) (disk : Disk) (path : Text) (r : Resumed)
      → IsSound c (length c) r
      → Leaves path disk (closed close_fails disk path r)
  closed-Leaves close_fails disk path r h = by_error r.error h
    where
      by_error :
          (e : Option Error)
          → IsSound c (length c) (record r { error = e })
          → Leaves path disk (closed close_fails disk path (record r { error = e }))
      by_error (some e) k = deleted-Leaves path disk e
      by_error none k =
          let (len, front) = (k refl).0 in
          let whole : r.content ≡ c =
            IsPrefix-whole r.content c front (omega (arith, len, (k refl).1)) in
          branches (Leaves path disk) close_fails
            (deleted-Leaves path disk (io_error (codes "close_target_file")))
            (
              Others-put path disk r.content,
              (Map.get-put_same disk path r.content ∙ ap some whole, len ∙ ap length whole),
            )

  module _ (direct : Direct) (file : PublicDownload) (path : Text)
      (first : ServesContent direct.open_service file c)
      (serves : (part : ℕ) → ServesContent (direct.part_service part) file c)
      (sized : (f : PublicFile)
        → open_direct_file_at direct.open_service file 0 ≡ ok f
        → f.size ≡ pos (length c)) where
    pub download_via_direct-Leaves :
        (disk : Disk) → Leaves path disk (download_via_direct direct disk file path)
    unfolding download_via_direct
    download_via_direct-Leaves disk =
        by_answer (open_direct_file_at direct.open_service file 0) refl
      where
        by_answer :
            (r : Result PublicFile)
            → open_direct_file_at direct.open_service file 0 ≡ r
            → Leaves path disk (elim r [
              | failed e ↦ (disk, failed (direct_error (codes "open_direct_file") e))
              | ok f ↦
                  if direct.create_fails
                  then (disk, io_failed (codes "create_target_file"))
                  else closed direct.close_fails disk path (first_copy direct file f)
            ])
        by_answer (failed e) q =
            unchanged-Leaves path disk (direct_error (codes "open_direct_file") e)
        by_answer (ok f) q =
            let total : pos_part f.size ≡ length c = ap pos_part (sized f q) in
            branches (Leaves path disk) direct.create_fails
              (unchanged-Leaves path disk (io_error (codes "create_target_file")))
              (closed-Leaves direct.close_fails disk path (first_copy direct file f) (
                subst (λ n. IsSound c n (first_copy direct file f)) total
                  (first_copy-IsSound c direct file serves direct.open_service f first q)))
