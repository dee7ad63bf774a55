-- ===== src/Cmd/Completion/Encoded.antt =====
-- The encoded value of a completion is read back as one token with the candidate's value.
use tgdownloader.Prelude.{
  ℕ, ◌+◌, ◌≡◌, refl, ap, ◌∙◌, Bool, true, false, ◌||◌, not, [], ◌∷◌, ◌++◌, Text, ◌==◌, nat_eq, any,
  leb, ltb, length, if◌then◌else◌, arith, append_assoc, length-append, Bool-cases, inl, inr,
}
use tgdownloader.Cmd.Prompt.{quote, double_quotes, encode_prompt_completion_value}
use tgdownloader.Cmd.Completion.{
  CompletionToken, idle, open_token, flush, is_blank, quoted_at, bare_at, write_rune, step,
  scan_tokens,
}
use tgdownloader.Cmd.Completion.Scanned.{
  StartsBlank, scan-step, StartsBlank-quote, scan_close, scan_at, written, scan_bare, quoted_text,
  scan_quoted, written_lem, quoted_text_lem,
}

-- The encoded value between the quotes that a token has that is in quotes from its first rune to its
-- last.
unfoldable pub in_line : Bool → Bool → Text → Text
in_line false closed v = encode_prompt_completion_value v false closed
in_line true false v = quote ∷ encode_prompt_completion_value v true false
in_line true true v = quote ∷ (encode_prompt_completion_value v true true ++ quote ∷ [])

-- The token is read, and the scan goes on behind it.
pub record ReadsAs (i : ℕ) (text v rest : Text) : Type 0 where
  pub token : CompletionToken
  pub reads : scan_tokens i idle (text ++ rest) ≡ token ∷ scan_tokens (i + length text) idle rest
  pub same_value : token.value ≡ v
  pub from : token.raw_start ≡ i
  pub to : token.raw_end ≡ i + length text

-- A token that is open behind the text is closed by what follows.
read_open :
    (i : ℕ) (text v rest : Text) (t : CompletionToken)
    → scan_tokens i idle (text ++ rest) ≡ scan_tokens (i + length text) (open_token t false) rest
    → t.value ≡ v
    → t.raw_start ≡ i
    → StartsBlank rest
    → ReadsAs i text v rest
unfolding flush
read_open i text v rest t e hv hs b = record {
  token = record t {
    raw_end = i + length text;
    end = if not (leb t.start t.end) then t.start else t.end;
  };
  reads = e ∙ scan_close (i + length text) t rest b;
  same_value = hv;
  from = hs;
  to = refl;
}

read_bare :
    (i r : ℕ) (v rest : Text)
    → any (λ (c : ℕ). c == b' ' || c == 9 || c == quote) (r ∷ v) ≡ false
    → StartsBlank rest
    → ReadsAs i (r ∷ v) (r ∷ v) rest
unfolding step
read_bare i r v rest h b =
    let t = written (write_rune i r (bare_at i)) (i + 1) v in
    let facts = written_lem (write_rune i r (bare_at i)) (i + 1) v in
    let blank : is_blank r ≡ false = ground arith in
    let quotes : (r == quote) ≡ false = ground arith in
    let plain : any (λ (c : ℕ). c == b' ' || c == 9 || c == quote) v ≡ false = ground arith in
    let e : i + 1 + length v ≡ i + length (r ∷ v) = omega arith in
    let first : scan_tokens i idle (r ∷ (v ++ rest))
        ≡ scan_tokens (i + 1) (open_token (write_rune i r (bare_at i)) false) (v ++ rest) =
      scan-step i r idle (v ++ rest) refl ∙ rw (blank, quotes) refl in
    read_open i (r ∷ v) (r ∷ v) rest t
      (first
        ∙ (scan_bare (i + 1) (write_rune i r (bare_at i)) v rest plain
            ∙ scan_at (open_token t false) rest e))
      facts.0 facts.1 b

read_quoted :
    (i : ℕ) (v rest : Text)
    → StartsBlank rest
    → ReadsAs i (quote ∷ (double_quotes v ++ quote ∷ [])) v rest
unfolding step
read_quoted i v rest b =
    let t = quoted_text (quoted_at i) (i + 1) v in
    let facts = quoted_text_lem (quoted_at i) (i + 1) v in
    let j : ℕ = i + 1 + length (double_quotes v) in
    let t' : CompletionToken = record t { end = j; quote_closed = t.quote_closed || t.quoted } in
    let e : j + 1 ≡ i + length (quote ∷ (double_quotes v ++ quote ∷ [])) =
      omega (arith, length-append {0} (double_quotes v) (quote ∷ [])) in
    let opens : scan_tokens i idle (quote ∷ (double_quotes v ++ quote ∷ rest))
        ≡ scan_tokens (i + 1) (open_token (quoted_at i) true) (double_quotes v ++ quote ∷ rest) =
      scan-step i quote idle (double_quotes v ++ quote ∷ rest) refl in
    let closes : scan_tokens j (open_token t true) (quote ∷ rest)
        ≡ scan_tokens (j + 1) (open_token t' false) rest =
      scan-step j quote (open_token t true) rest (StartsBlank-quote rest b) in
    read_open i _ v rest t'
      (ap (λ (x : Text). scan_tokens i idle (quote ∷ x))
          (append_assoc (double_quotes v) (quote ∷ []) rest)
        ∙ (opens
            ∙ (scan_quoted (i + 1) (quoted_at i) v rest
                ∙ (closes ∙ scan_at (open_token t' false) rest e))))
      facts.0 facts.1 b

double_quotes_plain :
    (v : Text)
    → any (λ (c : ℕ). c == b' ' || c == 9 || c == quote) (double_quotes v) ≡ false
    → double_quotes v ≡ v
unfolding double_quotes
double_quotes_plain [] h = refl
double_quotes_plain (r ∷ v) h = ground (arith, double_quotes_plain v)

read_unquoted :
    (closed : Bool) (i : ℕ) (v rest : Text)
    → ltb 0 (length v) ≡ true
    → StartsBlank rest
    → ReadsAs i (encode_prompt_completion_value v false closed) v rest
unfolding encode_prompt_completion_value
read_unquoted closed i [] rest h b = cc
read_unquoted closed i (r ∷ v) rest h b =
    elim (Bool-cases (any (λ (c : ℕ). c == b' ' || c == 9 || c == quote) (double_quotes (r ∷ v)))) [
      | inl q ↦ rw q (read_quoted i (r ∷ v) rest b)
      | inr q ↦
          rw q (let e = double_quotes_plain (r ∷ v) q in rw e (read_bare i r v rest (rw e at q) b))
    ]

-- The encoded value of a completion, between the quotes of a token that is in quotes from its first
-- rune to its last, is one token before a blank or the line's end.
pub scan_tokens-in_line :
    (quoted closed : Bool) (i : ℕ) (v rest : Text)
    → (quoted || ltb 0 (length v)) ≡ true
    → StartsBlank rest
    → ReadsAs i (in_line quoted closed v) v rest
unfolding in_line
scan_tokens-in_line true false i v rest h b =
    unfold encode_prompt_completion_value in read_quoted i v rest b
scan_tokens-in_line true true i v rest h b =
    unfold encode_prompt_completion_value in read_quoted i v rest b
scan_tokens-in_line false closed i v rest h b = read_unquoted closed i v rest h b
