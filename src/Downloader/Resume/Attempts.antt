-- ===== src/Downloader/Resume/Attempts.antt =====
-- What the resume loop does to the disk, and what its success means.
use tgdownloader.Prelude.{
  ℕ, zero, suc, ◌≤◌, ◌≡◌, refl, ap, ◌∙◌, Bool, true, false, Option, none, some, [], ◌++◌, Text,
  ◌==◌, nat_eq, list_eq, beq_refl, beq_ne, leb, ltb, length, append_assoc, append-nil, arith,
  Bool-cases, Option-cases, inl, inr, ◌≢◌,
}
use tgdownloader.Prelude.Map
use tgdownloader.Downloader.Resume.{
  Attempt, Disk, Verdict, complete, stop, retry, ResumeError, FetchError, content_or_empty,
  append_to, stat_size, attempt, appended, after_download, resume_loop, next_round,
}

abbrev pub content : Disk → Text → Text
content disk path = content_or_empty (Map.get disk path)

-- Between the two disks only the one file changed, and it only grew at its end.
pub record Grows (path : Text) (disk disk' : Disk) : Type 0 where
  pub others : (p : Text) → path ≢ p → Map.get disk' p ≡ Map.get disk p
  pub tail : Text
  pub grown : content disk' path ≡ content disk path ++ tail

Grows-refl : {path : Text} {disk : Disk} → Grows path disk disk
Grows-refl = record { others = λ p n. refl; tail = []; grown = rw append-nil refl }

Grows-trans : {path : Text} {a b c : Disk} → Grows path a b → Grows path b c → Grows path a c
Grows-trans {path} {a} g h = record {
  others = λ p n. h.others p n ∙ g.others p n;
  tail = g.tail ++ h.tail;
  grown = h.grown ∙ ap (λ t. t ++ h.tail) g.grown ∙ append_assoc (content a path) g.tail h.tail;
}

Grows-append_to : (path bytes : Text) (disk : Disk) → Grows path disk (append_to disk path bytes)
unfolding append_to
Grows-append_to path bytes disk = record {
  others = λ p n. rw (Map.get-put, beq_ne path p n) refl;
  tail = bytes;
  grown = rw (Map.get-put, beq_refl path) refl;
}

appended-Grows :
    (a : Attempt) (disk : Disk) (path : Text) (size offset : ℕ)
    → Grows path disk (appended a disk path size offset).0
unfolding appended
appended-Grows a disk path size offset = Grows-append_to path (a.download offset).0 disk

attempt-Grows :
    (a : Attempt) (disk : Disk) (path : Text) (size : ℕ)
    → Grows path disk (attempt a disk path size).0
unfolding attempt
attempt-Grows a disk path size = elim (Bool-cases a.done_before) [
  | inl d ↦ rw d Grows-refl
  | inr d ↦ elim (Option-cases (stat_size a.stat_fails (Map.get disk path))) [
    | inl n ↦ rw (d, n) Grows-refl
    | inr (offset, s) ↦ elim (Bool-cases (leb size offset)) [
      | inl l ↦ rw (d, s, l) Grows-refl
      | inr l ↦ elim (Bool-cases a.open_fails) [
        | inl o ↦ rw (d, s, l, o) Grows-refl
        | inr o ↦ rw (d, s, l, o) (appended-Grows a disk path size offset)
      ]
    ]
  ]
]

stat_size-content :
    (b : Bool) (o : Option Text) (n : ℕ) → stat_size b o ≡ some n → n ≡ length (content_or_empty o)
stat_size-content true o n h = cc
stat_size-content false none n h = cc
stat_size-content false (some c) n h = cc

-- `complete` is only said of a file that has all its bytes.
Verified : Text → ℕ → Disk × Verdict → Type 0
Verified path size r = r.1 ≡ complete → size ≤ length (content r.0 path)

after_download-Verified :
    (a : Attempt) (disk : Disk) (path : Text) (size : ℕ) (e : Option FetchError)
    → Verified path size (disk, after_download a disk path size e)
unfolding after_download Verified
after_download-Verified a disk path size (some x) = elim (Bool-cases a.close_fails) [
  | inl c ↦ rw c (λ h. cc)
  | inr c ↦ rw c (λ h. cc)
]
after_download-Verified a disk path size none = elim (Bool-cases a.close_fails) [
  | inl c ↦ rw c (λ h. cc)
  | inr c ↦ elim (Option-cases (stat_size a.final_stat_fails (Map.get disk path))) [
    | inl n ↦ rw (c, n) (λ h. cc)
    | inr (n, s) ↦ elim (Bool-cases (ltb n size)) [
      | inl l ↦ rw (c, s, l) (λ h. cc)
      | inr l ↦
          rw (c, s, l)
            (λ h. ground (arith, stat_size-content a.final_stat_fails (Map.get disk path) n s))
    ]
  ]
]

attempt-Verified :
    (a : Attempt) (disk : Disk) (path : Text) (size : ℕ)
    → Verified path size (attempt a disk path size)
unfolding attempt appended Verified
attempt-Verified a disk path size = elim (Bool-cases a.done_before) [
  | inl d ↦ rw d (λ h. cc)
  | inr d ↦ elim (Option-cases (stat_size a.stat_fails (Map.get disk path))) [
    | inl n ↦ rw (d, n) (λ h. cc)
    | inr (offset, s) ↦ elim (Bool-cases (leb size offset)) [
      | inl l ↦
          rw (d, s, l)
            (λ h. ground (arith, stat_size-content a.stat_fails (Map.get disk path) offset s))
      | inr l ↦ elim (Bool-cases a.open_fails) [
        | inl o ↦ rw (d, s, l, o) (λ h. cc)
        | inr o ↦ rw (d, s, l, o) (after_download-Verified a _ path size (a.download offset).1)
      ]
    ]
  ]
]

-- What the loop as a whole guarantees.
record IsSafe (path : Text) (size : ℕ) (disk : Disk) (r : Disk × Option ResumeError) : Type 0 where
  grows : Grows path disk r.0
  whole : r.1 ≡ none → size ≤ length (content r.0 path)

next_round-IsSafe :
    (rounds : ℕ) (is_done : Bool) (disk disk' : Disk) (v : Verdict)
    (rest : Disk × Option ResumeError) (path : Text) (size : ℕ)
    → Grows path disk disk'
    → Verified path size (disk', v)
    → IsSafe path size disk' rest
    → IsSafe path size disk (next_round rounds is_done disk' v rest)
unfolding next_round Verified
next_round-IsSafe rounds b d d' complete rest path size g v r = record {
  grows = g;
  whole = λ h. v refl;
}
next_round-IsSafe rounds b d d' (stop e) rest path size g v r = record {
  grows = g;
  whole = λ h. cc;
}
next_round-IsSafe rounds b d d' retry rest path size g v r = elim (Bool-cases b) [
  | inl x ↦ rw x (record { grows = g; whole = λ h. cc })
  | inr x ↦ elim (Bool-cases (rounds == 0)) [
    | inl z ↦ rw (x, z) (record { grows = g; whole = λ h. cc })
    | inr z ↦ rw (x, z) (record { grows = Grows-trans g r.grows; whole = r.whole })
  ]
]

resume_loop-IsSafe :
    (rounds : ℕ) (env : ℕ → Attempt) (k : ℕ) (disk : Disk) (path : Text) (size : ℕ)
    → IsSafe path size disk (resume_loop rounds env k disk path size)
unfolding resume_loop
resume_loop-IsSafe zero env k disk path size = record { grows = Grows-refl; whole = λ h. cc }
resume_loop-IsSafe (suc rounds) env k disk path size =
    let (disk', v) = attempt (env k) disk path size in
    next_round-IsSafe rounds (env k).done_after disk disk' v _ path size
      (attempt-Grows (env k) disk path size) (attempt-Verified (env k) disk path size)
      (resume_loop-IsSafe rounds env (suc k) disk' path size)

-- Whatever the service, the file system and the context answer in whichever attempt: resuming a
-- partial file leaves every other file alone, and the file itself keeps the bytes that it had and
-- only gains bytes behind them.
pub resume_loop-Grows :
    (rounds : ℕ) (env : ℕ → Attempt) (k : ℕ) (disk : Disk) (path : Text) (size : ℕ)
    → Grows path disk (resume_loop rounds env k disk path size).0
resume_loop-Grows rounds env k disk path size =
    (resume_loop-IsSafe rounds env k disk path size).grows

-- Where the loop reports success, the file on the disk has at least the size that Telegram gave.
pub resume_loop-whole :
    (rounds : ℕ) (env : ℕ → Attempt) (k : ℕ) (disk : Disk) (path : Text) (size : ℕ)
    → (resume_loop rounds env k disk path size).1 ≡ none
    → size ≤ length (content (resume_loop rounds env k disk path size).0 path)
resume_loop-whole rounds env k disk path size h =
    (resume_loop-IsSafe rounds env k disk path size).whole h
