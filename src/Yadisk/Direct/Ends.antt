-- ===== src/Yadisk/Direct/Ends.antt =====
-- That the resume loop reaches the end of the file.
use tgdownloader.Prelude.{
  is_empty, ℕ, zero, suc, ◌+◌, ◌*◌, ◌≤◌, ◌<◌, ◌≡◌, refl, false, none, [], ◌∷◌, Text, nat_eq, length,
  ltb, leb, arith, Bool-cases, inl, inr, ◌⊎◌,
}
use tgdownloader.Yadisk.Http.{ok}
use tgdownloader.Yadisk.Resolve.{PublicDownload}
use tgdownloader.Yadisk.Open.{PublicFile, open_direct_file_at}
use tgdownloader.Yadisk.Direct.{
  Direct, copy, Resumed, after_copy, after_open, restarts, kept_count, resume_parts,
  resume_download, max_range_parts,
}

-- The request for a range is answered from its offset on, with at least `least` bytes or with all that
-- are missing.
pub record Answers (direct : Direct) (file : PublicDownload) (total least part written : ℕ)
    : Type 0 where
  pub f : PublicFile
  pub opened : open_direct_file_at (direct.part_service part) file written ≡ ok f
  pub in_range : f.offset ≡ written
  pub reads : f.body.read_fails ≡ false
  pub closes : f.body.close_fails ≡ false
  pub has_some : 1 ≤ length f.body.bytes
  pub enough : (least ≤ length f.body.bytes) ⊎ (total ≤ written + length f.body.bytes)

module _ (direct : Direct) (file : PublicDownload) (total least : ℕ) where
  nonempty : (xs : Text) → 1 ≤ length xs → is_empty xs ≡ false
  nonempty [] h = absurd (omega (arith, h))
  nonempty (x ∷ xs) h = refl

  after_open-answered :
      (part written : ℕ) (content : Text) (a : Answers direct file total least part written)
      (rest : PublicFile → Resumed)
      → direct.writer part ≡ none
      → 1 ≤ written
      → after_open direct part content written
          (open_direct_file_at (direct.part_service part) file written)
          rest
        ≡ rest a.f
  unfolding after_open after_copy copy
  after_open-answered part written content a rest writes w =
      let kept : restarts written a.f ≡ false = ground (arith, a.in_range, w) in
      let some_bytes : is_empty a.f.body.bytes ≡ false = nonempty a.f.body.bytes a.has_some in
      rw (a.opened, kept, writes, a.reads, a.closes, some_bytes) refl

  kept-written :
      (part written : ℕ) (a : Answers direct file total least part written)
      → direct.writer part ≡ none
      → 1 ≤ written
      → kept_count written a.f + length (copy (direct.writer part) a.f.body).0
        ≡ written + length a.f.body.bytes
  unfolding copy
  kept-written part written a writes w =
      let kept : restarts written a.f ≡ false = ground (arith, a.in_range, w) in
      rw (writes, kept) refl

  resume_parts-ends :
      (answers : (part written : ℕ)
        → written < total
        → Answers direct file total least part written)
      (writes : (part : ℕ) → direct.writer part ≡ none) (rounds part : ℕ) (content : Text)
      (written : ℕ)
      → 1 ≤ written
      → total ≤ written + rounds * least
      → (resume_parts direct file total rounds part content written).error ≡ none
  unfolding resume_parts
  resume_parts-ends answers writes zero part content written w h =
      let done : ltb written total ≡ false = ground (arith, h) in rw done refl
  resume_parts-ends answers writes (suc rounds) part content written w h =
      elim (Bool-cases (leb total written)) [
        | inl q ↦ rw q refl
        | inr q ↦
            let a = answers part written (ground (arith, q)) in
            rw (q, after_open-answered part written content a _ (writes part) w)
              (resume_parts-ends answers writes rounds (suc part) _ _
                (omega (arith, w, kept-written part written a (writes part) w))
                (ground (arith, h, a.enough, kept-written part written a (writes part) w)))
      ]

  -- Where the service honours every range, answers each with at least `least` bytes or all that
  -- are missing, and nothing fails, the 256 rounds of `resumeDownload` reach the end of every
  -- file of which at least one byte has been written and at most 256 times `least` bytes are
  -- missing: it returns without an error.
  pub resume_download-ends :
      (answers : (part written : ℕ)
        → written < total
        → Answers direct file total least part written)
      (writes : (part : ℕ) → direct.writer part ≡ none) (content : Text) (written : ℕ)
      → 1 ≤ written
      → total ≤ written + 256 * least
      → (resume_download direct file total content written).error ≡ none
  unfolding resume_download
  resume_download-ends answers writes = resume_parts-ends answers writes max_range_parts 0
