-- ===== src/Downloader/Transfer/Retry.antt =====
-- What a retry leaves on the disk: the saver is neither rewound nor truncated between attempts.
use tgdownloader.Prelude.{
  ℕ, suc, ◌+◌, ◌*◌, ◌≡◌, ◌≢◌, refl, sym, ap, ◌∙◌, true, false, Option, none, some, List, [], ◌∷◌,
  ◌++◌, Text, nat_eq, list_eq, length, length-append, arith, beq_refl,
}
use tgdownloader.Prelude.Map
use tgdownloader.Downloader.Resume.{Disk, append_to}
use tgdownloader.Downloader.Resume.Attempts.{content}
use tgdownloader.Downloader.Transfer.{
  Env, Attempt, DownloadError, WriteError, service_failed, saver_write, write_pieces, download_loop,
}

-- A device that writes everything.
abbrev pub perfect : Text → Text → Option ℕ
perfect path p = some (length p)

content-append_to :
    (disk : Disk) (path bytes : Text)
    → content (append_to disk path bytes) path ≡ content disk path ++ bytes
unfolding append_to
content-append_to disk path bytes = rw (Map.get-put, beq_refl path) refl

saver_write_one :
    (disk : Disk) (path p : Text)
    → saver_write perfect disk (path ∷ []) p 0 ≡ (append_to disk path p, 0 + length p, none)
unfolding saver_write
saver_write_one disk path p = rw (beq_refl (length p), saver_write) refl

write_one :
    (disk : Disk) (path p : Text)
    → write_pieces perfect disk (path ∷ []) (p ∷ []) ≡ (append_to disk path p, none)
unfolding write_pieces
write_one disk path p =
    rw (saver_write_one, write_pieces)
      (ap (λ (t : Disk × ℕ × Option WriteError). (t.0, none)) (saver_write_one disk path p))

saver_write-count_from :
    (disk : Disk) (paths : List Text) (p : Text) (n : ℕ)
    → (saver_write perfect disk paths p n).1 ≡ n + length paths * length p
unfolding saver_write
saver_write-count_from disk [] p n = omega arith
saver_write-count_from disk (path ∷ paths) p n =
    rw (beq_refl (length p), saver_write)
      (saver_write-count_from (append_to disk path p) paths p (n + length p) ∙ grind arith)

-- Where every file takes every byte, the count that `aferoSaver.Write` returns is the number of files
-- times the number of bytes.
pub saver_write-count :
    (disk : Disk) (paths : List Text) (p : Text)
    → (saver_write perfect disk paths p 0).1 ≡ length paths * length p
saver_write-count disk paths p = saver_write-count_from disk paths p 0 ∙ omega arith

append_ne : (xs ys : Text) → xs ≢ [] → xs ++ ys ≢ ys
append_ne [] ys n e = n refl
append_ne (x ∷ xs) ys n e = absurd (omega (arith, ap length e, length-append {0} xs ys))

module _ (env : Env) (attempts : ℕ → Attempt) where
  abbrev pub steady : Env
  steady = record env { device = perfect; attempts = attempts }

  after_failure :
      (rounds k : ℕ) (disk : Disk) (path part : Text) (e : Option DownloadError)
      → attempts k ≡ record { pieces = part ∷ []; succeeds = false; done_after = false }
      → download_loop steady (suc rounds) k disk (path ∷ []) e
        ≡ download_loop steady rounds
            (suc k)
            (append_to disk path part)
            (path ∷ [])
            (some service_failed)
  unfolding download_loop
  after_failure rounds k disk path part e a = ground (arith, write_one disk path part)

  after_success :
      (rounds k : ℕ) (disk : Disk) (path whole : Text) (e : Option DownloadError)
      → attempts k ≡ record { pieces = whole ∷ []; succeeds = true; done_after = false }
      → download_loop steady (suc rounds) k disk (path ∷ []) e ≡ (append_to disk path whole, none)
  unfolding download_loop
  after_success rounds k disk path whole e a = ground (arith, write_one disk path whole)

-- Where the first attempt at a newly created output writes some bytes and fails, and the second
-- delivers the whole file, the download is reported as a success, and the output holds the bytes of
-- the failed attempt in front of the file: it is not the file.
pub download_loop-retry :
    (env : Env) (attempts : ℕ → Attempt) (rounds : ℕ) (disk : Disk) (path part whole : Text)
    → part ≢ []
    → content disk path ≡ []
    → attempts 1 ≡ record { pieces = part ∷ []; succeeds = false; done_after = false }
    → attempts 2 ≡ record { pieces = whole ∷ []; succeeds = true; done_after = false }
    → (r : Disk × Option DownloadError) × (download_loop
          (steady env attempts)
          (suc (suc rounds))
          1
          disk
          (path ∷ [])
          none
        ≡ r)
      × (r.1 ≡ none)
      × (content r.0 path ≡ part ++ whole)
      × (content r.0 path ≢ whole)
download_loop-retry env attempts rounds disk path part whole n e a1 a2 = (
  (append_to (append_to disk path part) path whole, none),
  after_failure env attempts (suc rounds) 1 disk path part none a1
      ∙ after_success env attempts rounds 2 (append_to disk path part) path whole
          (some service_failed) a2,
  refl,
  holds,
  λ q. append_ne part whole n (sym holds ∙ q),
)
  where
    holds : content (append_to (append_to disk path part) path whole) path ≡ part ++ whole
    holds =
        content-append_to _ path whole
        ∙ ap (λ t. t ++ whole) (content-append_to disk path part ∙ ap (λ t. t ++ part) e)
