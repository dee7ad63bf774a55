-- ===== src/Downloader/Transfer/Keep.antt =====
-- Files that were there before lose no byte unless they are to be rewritten: a fresh download leaves
-- them as they are, and a resumed one only adds to its file.
use tgdownloader.Prelude.{
  ℕ, zero, suc, ◌+◌, ◌≡◌, refl, ap, Bool, true, false, not, ◌&&◌, Option, none, some, List, [], ◌∷◌,
  ◌++◌, Text, ◌==◌, nat_eq, list_eq, list_beq_iff, length, arith, Bool-cases, inl, inr,
  if◌then◌else◌, Option-cases, All, All-append, append-nil, ◌⊎◌,
}
use mathlib.Core.Path.{subst}
use tgdownloader.Prelude.Map
use tgdownloader.Downloader.Resume.{
  Disk, append_to, ResumeError, resume_existing_partial_file, Attempt, resume_loop,
}
use tgdownloader.Downloader.Resume.Attempts.{content, Grows, resume_loop-Grows}
use tgdownloader.Downloader.Transfer.{
  Env, Settings, Stats, Outcome, saver_write, write_pieces, download_loop, add_files, remove_files,
  saver_remove, finish, fresh_download, DownloadError, attempt_error, resumed_or, resumed_outcome,
  download_file, mkdir_all,
}

-- Every file of the first disk is on the second with the same bytes.
pub record Preserves (d0 d : Disk) : Type 0 where
  pub at : (p c : Text) → Map.get d0 p ≡ some c → Map.get d p ≡ some c

abbrev Fresh : Disk → List Text → Type 0
Fresh d0 paths = All (λ p. Map.get d0 p ≡ none) paths

some-none : {c : Text} → none ≡ some c → ⊥
some-none h = cc

other_file :
    (d0 : Disk) (path p : Text) {c : Text}
    → Map.get d0 path ≡ none
    → Map.get d0 p ≡ some c
    → (path == p) ≡ false
other_file d0 path p new e = elim (Bool-cases (path == p)) [
  | inl same ↦ absurd (clash (ap (λ (k : Text). Map.get d0 k) ((list_beq_iff path p).0 same)))
  | inr other ↦ other
]
  where
    clash : Map.get d0 path ≡ Map.get d0 p → ⊥
    clash q = cc

module _ (d0 d : Disk) (path : Text) (h : Preserves d0 d) (new : Map.get d0 path ≡ none) where
  Preserves-put : (v : Text) → Preserves d0 (Map.put d path v)
  Preserves-put v = record {
    at = λ p c e. rw (Map.get-put, other_file d0 path p new e) (h.at p c e);
  }

  Preserves-delete : Preserves d0 (Map.delete d path)
  Preserves-delete = record {
    at = λ p c e. rw (Map.get-delete, other_file d0 path p new e) (h.at p c e);
  }

  Preserves-append_to : (bytes : Text) → Preserves d0 (append_to d path bytes)
  unfolding append_to
  Preserves-append_to bytes = Preserves-put _

saver_write-Preserves :
    (device : Text → Text → Option ℕ) (d0 d : Disk) (paths : List Text) (p : Text) (n : ℕ)
    → Fresh d0 paths
    → Preserves d0 d
    → Preserves d0 (saver_write device d paths p n).0
unfolding saver_write
saver_write-Preserves device d0 d [] p n f h = h
saver_write-Preserves device d0 d (path ∷ paths) p n f h = elim (Option-cases (device path p)) [
  | inl e ↦ rw (e, saver_write) h
  | inr (w, e) ↦ elim (Bool-cases (w == length p)) [
    | inl full ↦
        rw (e, saver_write, full)
          (saver_write-Preserves device d0 (append_to d path p) paths p (n + w) f.1
            (Preserves-append_to d0 d path h f.0 p))
    | inr short ↦ rw (e, saver_write, short) (Preserves-append_to d0 d path h f.0 _)
  ]
]

write_pieces-Preserves :
    (device : Text → Text → Option ℕ) (d0 d : Disk) (paths : List Text) (ps : List Text)
    → Fresh d0 paths
    → Preserves d0 d
    → Preserves d0 (write_pieces device d paths ps).0
unfolding write_pieces
write_pieces-Preserves device d0 d paths [] f h = h
write_pieces-Preserves device d0 d paths (p ∷ ps) f h =
    let h' = saver_write-Preserves device d0 d paths p 0 f h in
    elim (Option-cases (saver_write device d paths p 0).2) [
      | inl e ↦
          rw (e, write_pieces)
            (write_pieces-Preserves device d0 (saver_write device d paths p 0).0 paths ps f h')
      | inr (x, e) ↦ rw (e, write_pieces) h'
    ]

download_loop-Preserves :
    (env : Env) (d0 : Disk) (rounds k : ℕ) (d : Disk) (paths : List Text) (e : Option DownloadError)
    → Fresh d0 paths
    → Preserves d0 d
    → Preserves d0 (download_loop env rounds k d paths e).0
unfolding download_loop
download_loop-Preserves env d0 zero k d paths e f h = h
download_loop-Preserves env d0 (suc rounds) k d paths e f h =
    let a = env.attempts k in
    let w = write_pieces env.device d paths a.pieces in
    let h' = write_pieces-Preserves env.device d0 d paths a.pieces f h in
    elim (Option-cases (attempt_error a.succeeds w.1)) [
      | inl x ↦ rw (x, download_loop) h'
      | inr (err, x) ↦ elim (Bool-cases a.done_after) [
        | inl b ↦ rw (x, download_loop, b) h'
        | inr b ↦
            rw (x, download_loop, b)
              (download_loop-Preserves env d0 rounds (suc k) w.0 paths (some err) f h')
      ]
    ]

remove_files-Preserves :
    (env : Env) (d0 d : Disk) (paths : List Text)
    → Fresh d0 paths
    → Preserves d0 d
    → Preserves d0 (remove_files env d paths).0
unfolding remove_files
remove_files-Preserves env d0 d [] f h = h
remove_files-Preserves env d0 d (p ∷ ps) f h = elim (Bool-cases (env.remove_fails p)) [
  | inl e ↦ rw e (remove_files-Preserves env d0 d ps f.1 h)
  | inr e ↦
      rw e (remove_files-Preserves env d0 (Map.delete d p) ps f.1 (Preserves-delete d0 d p h f.0))
]

saver_remove-Preserves :
    (env : Env) (d0 d : Disk) (paths : List Text)
    → Fresh d0 paths
    → Preserves d0 d
    → Preserves d0 (saver_remove env d paths).0
unfolding saver_remove
saver_remove-Preserves env d0 d paths f h = elim (Bool-cases env.close_fails) [
  | inl e ↦ rw e h
  | inr e ↦ rw e (remove_files-Preserves env d0 d paths f h)
]

-- What `add_files` leaves: old files as they were, and only new paths in the saver.
record Adds (d0 : Disk) (r : Disk × Option (List Text)) : Type 0 where
  keeps : Preserves d0 r.0
  fresh : (added : List Text) → r.1 ≡ some added → Fresh d0 added

absent : (d0 d : Disk) (p : Text) → Preserves d0 d → Map.has d p ≡ false → Map.get d0 p ≡ none
absent d0 d p h e = elim (Option-cases (Map.get d0 p)) [
  | inl n ↦ n
  | inr (c, s) ↦ absurd (clash (h.at p c s))
]
  where
    clash : {c : Text} → Map.get d p ≡ some c → ⊥
    clash q = ground (arith)

not_there : (b r : Bool) → r ≡ false → (b && not r) ≡ false → b ≡ false
not_there b r w h = ground arith

add_files-Adds :
    (env : Env) (s : Settings) (d0 d : Disk) (added ps : List Text)
    → s.rewrite ≡ false
    → Fresh d0 added
    → Preserves d0 d
    → Adds d0 (add_files env s d added ps)
unfolding add_files
add_files-Adds env s d0 d added [] w f h = record {
  keeps = h;
  fresh = λ a e. let q : added ≡ a = cc in subst (λ l. Fresh d0 l) q f;
}
add_files-Adds env s d0 d added (p ∷ ps) w f h = elim (Bool-cases (env.exists_fails p)) [
  | inl x ↦ rw x (record { keeps = h; fresh = λ a e. cc })
  | inr x ↦ elim (Bool-cases (Map.has d p && not s.rewrite)) [
    | inl skip ↦ rw (x, skip) (add_files-Adds env s d0 d added ps w f h)
    | inr free ↦
        let new = absent d0 d p h (not_there (Map.has d p) s.rewrite w free) in
        let f' = All-append (λ q. Map.get d0 q ≡ none) added (p ∷ []) f (new, tt) in
        elim (Bool-cases s.dry_run) [
          | inl dry ↦ rw (x, free, dry) (add_files-Adds env s d0 d (added ++ p ∷ []) ps w f' h)
          | inr wet ↦ elim (Bool-cases (env.create_fails p)) [
            | inl y ↦ rw (x, free, wet, y) (record { keeps = h; fresh = λ a e. cc })
            | inr y ↦
                rw (x, free, wet, y)
                  (add_files-Adds env s d0 (Map.put d p []) (added ++ p ∷ []) ps w f'
                    (Preserves-put d0 d p h new []))
          ]
        ]
  ]
]

-- On the second disk every path holds the bytes that it held on the first, with more behind them or
-- not.
abbrev pub OnlyGrows : Disk → Disk → Type 0
OnlyGrows d0 d = (p : Text) → (tail : Text) × (content d p ≡ content d0 p ++ tail)

OnlyGrows-Preserves : (d0 d : Disk) → Preserves d0 d → OnlyGrows d0 d
OnlyGrows-Preserves d0 d h p = elim (Option-cases (Map.get d0 p)) [
  | inl n ↦ (content d p, rw n refl)
  | inr (c, e) ↦ ([], rw (e, h.at p c e, append-nil) refl)
]

OnlyGrows-Grows : (path : Text) (d0 d : Disk) → Grows path d0 d → OnlyGrows d0 d
OnlyGrows-Grows path d0 d g p = elim (Bool-cases (path == p)) [
  | inl same ↦
      let q : path ≡ p = (list_beq_iff path p).0 same in
      (g.tail, subst (λ k. content d k ≡ content d0 k ++ g.tail) q g.grown)
  | inr other ↦ ([], rw (g.others p (λ q. cc (other, (list_beq_iff path p).1 q)), append-nil) refl)
]

finish-Preserves :
    (env : Env) (dry_run : Bool) (n : Stats) (d0 : Disk) (paths : List Text)
    (r : Disk × Option DownloadError)
    → Fresh d0 paths
    → Preserves d0 r.0
    → Preserves d0 (finish env dry_run n paths r).0
unfolding finish
finish-Preserves env dry_run n d0 paths (d, none) f h = h
finish-Preserves env dry_run n d0 paths (d, some e) f h = saver_remove-Preserves env d0 d paths f h

fresh_download-Preserves :
    (env : Env) (s : Settings) (n : Stats) (d0 : Disk) (r : Disk × Option (List Text))
    → Adds d0 r
    → Preserves d0 (fresh_download env s n r).0
unfolding fresh_download
fresh_download-Preserves env s n d0 (d, none) a = a.keeps
fresh_download-Preserves env s n d0 (d, some added) a =
    let paths : List Text = if s.dry_run then [] else added in
    let f : Fresh d0 paths = elim (Bool-cases s.dry_run) [
      | inl e ↦ rw e tt
      | inr e ↦ rw e (a.fresh added refl)
    ] in
    elim (Bool-cases (not s.dry_run && length added == 0)) [
      | inl e ↦ rw e a.keeps
      | inr e ↦ rw e (
          finish-Preserves env s.dry_run n d0 paths _ f
            (download_loop-Preserves env d0 s.retry_count 1 d paths none f a.keeps))
    ]

resumed_or-OnlyGrows :
    (b : Bool) (r : Option (Disk × Option ResumeError)) (n : Stats) (fresh : Outcome) (d0 : Disk)
    → ((x : Disk × Option ResumeError) → r ≡ some x → OnlyGrows d0 x.0)
    → OnlyGrows d0 fresh.0
    → OnlyGrows d0 (resumed_or b r n fresh).0
unfolding resumed_or resumed_outcome
resumed_or-OnlyGrows true (some (d, none)) n fresh d0 h k = h (d, none) refl
resumed_or-OnlyGrows true (some (d, some e)) n fresh d0 h k = h (d, some e) refl
resumed_or-OnlyGrows true none n fresh d0 h k = k
resumed_or-OnlyGrows false r n fresh d0 h k = k

resumed_cases :
    (dry rw_ fails : Bool) (count : ℕ) (env : ℕ → Attempt) (d0 : Disk) (path : Text) (size : ℕ)
    (x : Disk × Option ResumeError)
    → resume_existing_partial_file dry rw_ fails count env d0 (path ∷ []) size ≡ some x
    → (x.0 ≡ d0) ⊎ (x ≡ resume_loop count env 1 d0 path size)
unfolding resume_existing_partial_file
resumed_cases dry rw_ fails count env d0 path size x h = ground arith

resume-OnlyGrows :
    (dry rw_ fails : Bool) (count : ℕ) (env : ℕ → Attempt) (d0 : Disk) (paths : List Text)
    (size : ℕ) (x : Disk × Option ResumeError)
    → resume_existing_partial_file dry rw_ fails count env d0 paths size ≡ some x
    → OnlyGrows d0 x.0
unfolding resume_existing_partial_file
resume-OnlyGrows dry rw_ fails count env d0 [] size x h = cc
resume-OnlyGrows dry rw_ fails count env d0 (p ∷ q ∷ ps) size x h = cc
resume-OnlyGrows dry rw_ fails count env d0 (path ∷ []) size x h =
    elim (resumed_cases dry rw_ fails count env d0 path size x h) [
      | inl same ↦ rw same (λ p. ([], rw append-nil refl))
      | inr run ↦ rw run (OnlyGrows-Grows path d0 _ (resume_loop-Grows count env 1 d0 path size))
    ]

-- Without the rewrite option a download, whatever fails in it, never takes a byte away from a file
-- that exists: at every path the disk afterwards holds what it held before, with more behind it or
-- not. Resumed files and failed downloads, which remove what they created, are included.
pub download_file-OnlyGrows :
    (env : Env) (s : Settings) (disk : Disk) (n : Stats) (paths : List Text) (size : ℕ)
    → s.rewrite ≡ false
    → OnlyGrows disk (download_file env s disk n paths size).0
unfolding download_file
download_file-OnlyGrows env s disk n paths size w = elim (Bool-cases (mkdir_all env s paths)) [
  | inl m ↦ rw m (
      resumed_or-OnlyGrows env.can_resume _ n _ disk
        (λ x e.
          resume-OnlyGrows s.dry_run s.rewrite env.resume_stat_fails s.retry_count
            env.resume_attempts disk paths size x e)
        (OnlyGrows-Preserves disk _ (
          fresh_download-Preserves env s n disk (add_files env s disk [] paths)
            (add_files-Adds env s disk disk [] paths w tt (record { at = λ p c e. e })))))
  | inr m ↦ rw m (λ p. ([], rw append-nil refl))
]
