-- ===== src/Cmd/Completion/Scanned.antt =====
-- What the loop over the runes of the line does with a run of them: in quotes, and outside.
use tgdownloader.Prelude.{
  ℕ, ◌+◌, ◌≡◌, refl, sym, ap, ◌∙◌, Bool, true, false, ◌&&◌, ◌||◌, [], ◌∷◌, ◌++◌, Text, ◌==◌, nat_eq,
  any, length, if◌then◌else◌, arith, append_assoc, append-nil, nat_beq_iff, Bool-cases, inl, inr,
}
use tgdownloader.Cmd.Prompt.{quote, double_quotes}
use tgdownloader.Cmd.Completion.{
  CompletionToken, Scan, idle, open_token, flush, is_blank, write_rune, quotes_open, step,
  flush_blank, scan_tokens,
}

-- The text around it: nothing, or a blank next.
abbrev pub StartsBlank : Text → Type 0
StartsBlank [] = Unit
StartsBlank (r ∷ rs) = is_blank r ≡ true

abbrev starts_quote : Text → Bool
starts_quote [] = false
starts_quote (r ∷ rs) = r == quote

-- One round of the loop that takes one rune.
pub scan-step :
    (i r : ℕ) (s : Scan) (rs : Text)
    → (quotes_open s && (r == quote && starts_quote rs)) ≡ false
    → scan_tokens i s (r ∷ rs) ≡ flush_blank i r s (scan_tokens (i + 1) (step i r s) rs)
unfolding scan_tokens
scan-step i r s [] h = refl
scan-step i r s (d ∷ ds) h = rw h refl

pub StartsBlank-quote : (rs : Text) → StartsBlank rs → starts_quote rs ≡ false
StartsBlank-quote [] h = refl
StartsBlank-quote (r ∷ rs) h = ground arith

-- A blank, or the end of the line, closes a token outside of quotes.
pub scan_close :
    (i : ℕ) (t : CompletionToken) (rs : Text)
    → StartsBlank rs
    → scan_tokens i (open_token t false) rs ≡ flush i (open_token t false) (scan_tokens i idle rs)
unfolding flush step
scan_close i t [] h = unfold scan_tokens in refl
scan_close i t (r ∷ rs) h =
    rw (scan-step i r (open_token t false) rs refl, scan-step i r idle rs refl, step)
      (rw (h, flush) refl)

pub scan_at : {i j : ℕ} (s : Scan) (rs : Text) → i ≡ j → scan_tokens i s rs ≡ scan_tokens j s rs
scan_at s rs e = ap (λ (n : ℕ). scan_tokens n s rs) e

-- The runes `v` written to a token from index `i` on.
pub written : CompletionToken → ℕ → Text → CompletionToken
written t i [] = t
written t i (r ∷ rs) = written (write_rune i r t) (i + 1) rs

pub scan_bare :
    (i : ℕ) (t : CompletionToken) (v rs : Text)
    → any (λ (c : ℕ). c == b' ' || c == 9 || c == quote) v ≡ false
    → scan_tokens i (open_token t false) (v ++ rs)
      ≡ scan_tokens (i + length v) (open_token (written t i v) false) rs
unfolding written step
scan_bare i t [] rs h = scan_at _ rs (omega arith)
scan_bare i t (r ∷ v) rs h =
    let a : (r == quote) ≡ false = ground arith in
    let b : is_blank r ≡ false = ground arith in
    let c : any (λ (x : ℕ). x == b' ' || x == 9 || x == quote) v ≡ false = ground arith in
    rw (scan-step i r (open_token t false) (v ++ rs) refl, b, a)
      (scan_bare (i + 1) (write_rune i r t) v rs c ∙ scan_at _ rs (omega arith))

-- The runes `v` written to a token inside quotes, their quotes doubled.
pub quoted_text : CompletionToken → ℕ → Text → CompletionToken
quoted_text t i [] = t
quoted_text t i (r ∷ rs) =
    if r == quote
    then quoted_text (record t { value = t.value ++ quote ∷ []; end = i + 2 }) (i + 2) rs
    else quoted_text (write_rune i r t) (i + 1) rs

scan_doubled :
    (i : ℕ) (t : CompletionToken) (rs : Text)
    → scan_tokens i (open_token t true) (quote ∷ quote ∷ rs)
      ≡ scan_tokens
          (i + 2)
          (open_token (record t { value = t.value ++ quote ∷ []; end = i + 2 }) true)
          rs
unfolding scan_tokens
scan_doubled i t rs = refl

scan_inside :
    (i r : ℕ) (t : CompletionToken) (rs : Text)
    → (r == quote) ≡ false
    → scan_tokens i (open_token t true) (r ∷ rs)
      ≡ scan_tokens (i + 1) (open_token (write_rune i r t) true) rs
unfolding step
scan_inside i r t rs q = scan-step i r (open_token t true) rs (rw q refl) ∙ rw q refl

pub scan_quoted :
    (i : ℕ) (t : CompletionToken) (v rs : Text)
    → scan_tokens i (open_token t true) (double_quotes v ++ quote ∷ rs)
      ≡ scan_tokens
          (i + length (double_quotes v))
          (open_token (quoted_text t i v) true)
          (quote ∷ rs)
unfolding double_quotes quoted_text
scan_quoted i t [] rs = scan_at _ _ (omega arith)
scan_quoted i t (r ∷ v) rs = elim (Bool-cases (r == quote)) [
  | inl q ↦
      let t' : CompletionToken = record t { value = t.value ++ quote ∷ []; end = i + 2 } in
      let e : i + 2 + length (double_quotes v) ≡ i + length (quote ∷ quote ∷ double_quotes v) =
        omega arith in
      rw q (
        scan_doubled i t (double_quotes v ++ quote ∷ rs)
        ∙ (scan_quoted (i + 2) t' v rs
            ∙ scan_at (open_token (quoted_text t' (i + 2) v) true) (quote ∷ rs) e))
  | inr q ↦
      let e : i + 1 + length (double_quotes v) ≡ i + length (r ∷ double_quotes v) = omega arith in
      rw q (
        scan_inside i r t (double_quotes v ++ quote ∷ rs) q
        ∙ (scan_quoted (i + 1) (write_rune i r t) v rs
            ∙ scan_at (open_token (quoted_text (write_rune i r t) (i + 1) v) true) (quote ∷ rs) e))
]

-- What the two ways of writing make of a token.
pub written_lem :
    (t : CompletionToken) (i : ℕ) (v : Text)
    → ((written t i v).value ≡ t.value ++ v)
      × ((written t i v).raw_start ≡ t.raw_start)
      × ((written t i v).start ≡ t.start)
      × ((written t i v).quoted ≡ t.quoted)
      × ((written t i v).quote_closed ≡ t.quote_closed)
unfolding written
written_lem t i [] = (sym (append-nil t.value), refl, refl, refl, refl)
written_lem t i (r ∷ v) =
    let (a, b, c, d, e) = written_lem (write_rune i r t) (i + 1) v in
    (a ∙ append_assoc t.value (r ∷ []) v, b, c, d, e)

pub quoted_text_lem :
    (t : CompletionToken) (i : ℕ) (v : Text)
    → ((quoted_text t i v).value ≡ t.value ++ v)
      × ((quoted_text t i v).raw_start ≡ t.raw_start)
      × ((quoted_text t i v).start ≡ t.start)
      × ((quoted_text t i v).quoted ≡ t.quoted)
      × ((quoted_text t i v).quote_closed ≡ t.quote_closed)
unfolding quoted_text
quoted_text_lem t i [] = (sym (append-nil t.value), refl, refl, refl, refl)
quoted_text_lem t i (r ∷ v) = elim (Bool-cases (r == quote)) [
  | inl q ↦
      let (a, b, c, d, e) =
        quoted_text_lem (record t { value = t.value ++ quote ∷ []; end = i + 2 }) (i + 2) v in
      let same : r ≡ quote = (nat_beq_iff r quote).0 q in
      rw q (
        a ∙ append_assoc t.value (quote ∷ []) v ∙ ap (λ (c : ℕ). t.value ++ c ∷ v) (sym same),
        b,
        c,
        d,
        e,
      )
  | inr q ↦
      let (a, b, c, d, e) = quoted_text_lem (write_rune i r t) (i + 1) v in
      rw q (a ∙ append_assoc t.value (r ∷ []) v, b, c, d, e)
]
