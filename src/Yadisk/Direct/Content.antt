-- ===== src/Yadisk/Direct/Content.antt =====
-- What a direct download leaves in the file.
use tgdownloader.Prelude.{
  is_empty, ℕ, zero, suc, ◌+◌, ◌≤◌, ◌≡◌, inl, inr, refl, sym, ap, ◌∙◌, subst, Bool, true, false,
  ◌&&◌, Option, none, some, [], ◌∷◌, ◌++◌, Text, ◌==◌, nat_eq, list_eq, length, drop, drop-append,
  ltb, leb, if◌then◌else◌, branches, codes, arith, Bool-cases, append-nil, append_assoc,
  length-append, pos_part,
}
use tgdownloader.Apperr.{Error}
use tgdownloader.Yadisk.Http.{
  Result, failed, ok, Service, Body, Request, Response, Exchange, bad_request, unreachable,
  answered,
}
use tgdownloader.Yadisk.Resolve.{PublicDownload}
use tgdownloader.Yadisk.Open.{
  PublicFile, opened, opened_file, range_request, actual_offset, is_success, open_direct_file_at,
  open_direct_file_at-offset,
}
use tgdownloader.Yadisk.Direct.{
  Direct, wrapped_error, wrap_resume, copy, Resumed, part_error, after_copy, after_open, restarts,
  kept_content, kept_count, resume_parts, resume_download, first_copy, after_first_copy,
  max_range_parts,
}

abbrev pub IsPrefix : Text → Text → Type 0
IsPrefix xs ys = (rest : Text) × (ys ≡ xs ++ rest)

IsPrefix-append :
    (xs bytes c : Text)
    → IsPrefix xs c
    → IsPrefix bytes (drop (length xs) c)
    → IsPrefix (xs ++ bytes) c
IsPrefix-append xs bytes c (rest, e) (others, q) =
    let left : drop (length xs) c ≡ rest = ap (drop (length xs)) e ∙ drop-append xs rest in
    (others, e ∙ ap (xs ++◌) (sym left ∙ q) ∙ sym (append_assoc xs bytes others))

nil_of_length : (xs : Text) → length xs ≡ 0 → xs ≡ []
nil_of_length [] h = refl
nil_of_length (x ∷ xs) h = ground (arith, h)

pub IsPrefix-whole : (xs c : Text) → IsPrefix xs c → length c ≤ length xs → xs ≡ c
IsPrefix-whole xs c (rest, e) h =
    let none_left : rest ≡ [] =
      nil_of_length rest (omega (arith, h, ap length e ∙ length-append xs rest)) in
    sym (append-nil xs) ∙ ap (xs ++◌) (sym none_left) ∙ sym e

-- The service serves the file `c`: what it answers at an offset are bytes of `c` from there on.
pub record ServesContent (service : Service) (file : PublicDownload) (c : Text) : Type 0 where
  pub body_of :
      (offset : ℕ) (f : PublicFile)
      → open_direct_file_at service file offset ≡ ok f
      → IsPrefix f.body.bytes (drop f.offset c)

-- Where the body of an answer starts: a status of 206 honours the range.
abbrev pub start_at : Option ℕ → Response → ℕ
start_at none response = 0
start_at (some o) response = if response.status_code == 206 then o else 0

opened-body :
    (file : PublicDownload) (offset : ℕ) (response : Response) (f : PublicFile)
    → opened file offset (answered response) ≡ ok f
    → opened_file file offset response ≡ f
opened-body file offset response f q = elim (Bool-cases (is_success response)) [
  | inl s ↦ ground (arith, q, s)
  | inr s ↦ ground (arith, q, s)
]

opened-IsPrefix :
    (file : PublicDownload) (c : Text) (offset : ℕ) (e : Exchange) (f : PublicFile)
    → ((response : Response)
        → e ≡ answered response
        → IsPrefix response.body.bytes (drop (actual_offset offset response) c))
    → opened file offset e ≡ ok f
    → IsPrefix f.body.bytes (drop f.offset c)
opened-IsPrefix file c offset (bad_request t) f h q = cc
opened-IsPrefix file c offset (unreachable t) f h q = cc
opened-IsPrefix file c offset (answered response) f h q =
    subst (λ (x : PublicFile). IsPrefix x.body.bytes (drop x.offset c))
      (opened-body file offset response f q) (h response refl)

start_at-range :
    (offset : ℕ) (response : Response)
    → start_at (if ltb 0 offset then some offset else none) response ≡ actual_offset offset response
start_at-range offset response = elim (Bool-cases (ltb 0 offset)) [
  | inl q ↦ rw q refl
  | inr q ↦ rw q refl
]

-- A service that answers each request with bytes of `c` from there on serves `c`.
pub ServesContent_of_answers :
    (service : Service) (file : PublicDownload) (c : Text)
    → ((request : Request) (response : Response)
        → service request ≡ answered response
        → IsPrefix response.body.bytes (drop (start_at request.range response) c))
    → ServesContent service file c
unfolding open_direct_file_at
ServesContent_of_answers service file c answers = record { body_of = serve }
  where
    serve :
        (offset : ℕ) (f : PublicFile)
        → open_direct_file_at service file offset ≡ ok f
        → IsPrefix f.body.bytes (drop f.offset c)
    serve offset f q =
        let request = range_request file offset in
        opened-IsPrefix file c offset (service request) f
          (λ response e.
            subst (λ n. IsPrefix response.body.bytes (drop n c)) (start_at-range offset response)
              (answers request response e))
          (ground (arith, q))

module _ (c : Text) where
  -- The count is the length of the file, which is the front of `c`.
  abbrev pub IsPart : Text → ℕ → Type 0
  IsPart content written = (written ≡ length content) × IsPrefix content c

  -- Without an error, all has been downloaded.
  abbrev pub IsSound : ℕ → Resumed → Type 0
  IsSound total r = r.error ≡ none → IsPart r.content r.written × (total ≤ r.written)

  part_error-IsSound :
      (total : ℕ) (content : Text) (written : ℕ) (op : Text)
      → IsSound total (part_error content written op)
  part_error-IsSound total content written op h = cc

  after_copy-IsSound :
      (total : ℕ) (content : Text) (written : ℕ) (out : Text × Bool) (close_fails : Bool)
      (rest : Resumed)
      → (out.1 ≡ false → IsSound total rest)
      → IsSound total (after_copy content written out close_fails rest)
  unfolding after_copy
  after_copy-IsSound total content written (bytes, true) close_fails rest h =
      part_error-IsSound total (content ++ bytes) written (codes "copy_range")
  after_copy-IsSound total content written (bytes, false) close_fails rest h =
      branches (IsSound total) close_fails
        (part_error-IsSound total (content ++ bytes) written (codes "close_range_body"))
        (branches (IsSound total) (is_empty bytes)
          (part_error-IsSound total content written (codes "no_progress")) (h refl))

  after_open-IsSound :
      (direct : Direct) (total part : ℕ) (content : Text) (written : ℕ) (r : Result PublicFile)
      (rest : PublicFile → Resumed)
      → ((f : PublicFile)
          → r ≡ ok f
          → (copy (direct.writer part) f.body).1 ≡ false
          → IsSound total (rest f))
      → IsSound total (after_open direct part content written r rest)
  unfolding after_open
  after_open-IsSound direct total part content written (failed e) rest h = λ q. cc
  after_open-IsSound direct total part content written (ok f) rest h =
      branches (IsSound total) (restarts written f && direct.truncate_fails part)
        (part_error-IsSound total content written (codes "truncate_file"))
        (branches (IsSound total) (restarts written f && direct.seek_fails part)
          (part_error-IsSound total [] written (codes "seek_start"))
          (after_copy-IsSound total (kept_content written f content) (kept_count written f)
            (copy (direct.writer part) f.body) f.body.close_fails (rest f) (h f refl)))

  wrapped_error-none : (o : Option Error) → wrapped_error o ≡ none → o ≡ none
  wrapped_error-none none h = refl
  wrapped_error-none (some e) h = cc

  wrap_resume-IsSound : (total : ℕ) (r : Resumed) → IsSound total r → IsSound total (wrap_resume r)
  wrap_resume-IsSound total r h q = h (wrapped_error-none r.error q)

  after_first_copy-IsSound :
      (total : ℕ) (out : Text × Bool) (resumed : Resumed)
      → (out.1 ≡ false → IsPart out.0 (length out.0))
      → (IsPart out.0 (length out.0) → IsSound total resumed)
      → IsSound total (after_first_copy total out resumed)
  after_first_copy-IsSound total (bytes, true) resumed h k =
      part_error-IsSound total bytes (length bytes) (codes "copy_body")
  after_first_copy-IsSound total (bytes, false) resumed h k =
      elim (Bool-cases (ltb 0 total && ltb (length bytes) total)) [
        | inl r ↦ rw r (wrap_resume-IsSound total resumed (k (h refl)))
        | inr r ↦ rw r (λ _. (h refl, ground (arith, r)))
      ]

  copied :
      (writer : Option ℕ) (body : Body)
      → (copy writer body).1 ≡ false
      → (copy writer body).0 ≡ body.bytes
  unfolding copy
  copied none body h = refl
  copied (some n) body h = cc

  IsPart-kept :
      (service : Service) (file : PublicDownload) (content : Text) (written : ℕ) (f : PublicFile)
      → ServesContent service file c
      → open_direct_file_at service file written ≡ ok f
      → IsPart content written
      → IsPart
          (kept_content written f content ++ f.body.bytes)
          (kept_count written f + length f.body.bytes)
  IsPart-kept service file content written f serves q (len, front) =
      let bytes : IsPrefix f.body.bytes (drop f.offset c) = serves.body_of written f q in
      elim (Bool-cases (restarts written f)) [
        | inl r ↦
            let o : f.offset ≡ 0 = ground (arith, r) in
            rw r (omega arith, subst (λ n. IsPrefix f.body.bytes (drop n c)) o bytes)
        | inr r ↦
            let o : f.offset ≡ length content =
              ground (arith, r, len, open_direct_file_at-offset service file written f q) in
            rw r (
              omega (arith, len, length-append content f.body.bytes),
              IsPrefix-append content f.body.bytes c front
                  (subst (λ n. IsPrefix f.body.bytes (drop n c)) o bytes),
            )
      ]

  module _ (direct : Direct) (file : PublicDownload)
      (serves : (part : ℕ) → ServesContent (direct.part_service part) file c) where
    resume_parts-IsSound :
        (total rounds part : ℕ) (content : Text) (written : ℕ)
        → IsPart content written
        → IsSound total (resume_parts direct file total rounds part content written)
    unfolding resume_parts
    resume_parts-IsSound total zero part content written h = elim (Bool-cases (ltb written total)) [
      | inl q ↦ rw q (part_error-IsSound total content written (codes "incomplete_download"))
      | inr q ↦ rw q (λ _. (h, ground (arith, q)))
    ]
    resume_parts-IsSound total (suc rounds) part content written h =
        elim (Bool-cases (leb total written)) [
          | inl q ↦ rw q (λ _. (h, ground (arith, q)))
          | inr q ↦ rw q (
              after_open-IsSound direct total part content written
                (open_direct_file_at (direct.part_service part) file written) _
                (λ f o e. resume_parts-IsSound total rounds (suc part) _ _ (
                  rw (copied (direct.writer part) f.body e) (
                    IsPart-kept (direct.part_service part) file content written f (serves part) o
                      h))))
        ]

    resume_download-IsSound :
        (total : ℕ) (content : Text) (written : ℕ)
        → IsPart content written
        → IsSound total (resume_download direct file total content written)
    unfolding resume_download
    resume_download-IsSound total = resume_parts-IsSound total max_range_parts 0

    pub first_copy-IsSound :
        (service : Service) (f : PublicFile)
        → ServesContent service file c
        → open_direct_file_at service file 0 ≡ ok f
        → IsSound (pos_part f.size) (first_copy direct file f)
    unfolding first_copy
    first_copy-IsSound service f first o =
        let start : f.offset ≡ 0 = ground (arith, open_direct_file_at-offset service file 0 f o) in
        let bytes : IsPrefix f.body.bytes c =
          subst (λ n. IsPrefix f.body.bytes (drop n c)) start (first.body_of 0 f o) in
        after_first_copy-IsSound (pos_part f.size) (copy direct.first_writer f.body) _
          (λ q. rw (copied direct.first_writer f.body q) (refl, bytes))
          (resume_download-IsSound (pos_part f.size) _ _)
