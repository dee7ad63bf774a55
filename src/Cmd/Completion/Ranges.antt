-- ===== src/Cmd/Completion/Ranges.antt =====
-- The ranges of the tokens, and the token at the cursor.
use tgdownloader.Prelude.{
  ℕ, ◌+◌, ◌≡◌, ◌≤◌, ◌<◌, refl, true, false, ◌&&◌, not, some, List, [], ◌∷◌, Text, ◌==◌, nat_eq, leb,
  length, arith, Bool-cases, Option-cases, inl, inr,
}
use tgdownloader.Cmd.Prompt.{quote}
use tgdownloader.Cmd.Completion.{
  CompletionToken, Scan, idle, open_token, flush, is_blank, quotes_open, doubled_quote, step,
  flush_blank, scan_tokens, split_prompt_completion_tokens, active_prompt_completion_token,
  token_at,
}

-- The tokens stand in order from `lo` to `n`, a rune at least between two of them, and the range that
-- a completion replaces lies inside its token.
abbrev pub InOrder : ℕ → List CompletionToken → ℕ → Type 0
InOrder lo [] n = Unit
InOrder lo (t ∷ ts) n =
    (lo ≤ t.raw_start)
    × (t.raw_start < t.raw_end)
    × (t.raw_start ≤ t.start)
    × (t.start ≤ t.end)
    × (t.end ≤ t.raw_end)
    × (t.raw_end ≤ n)
    × InOrder (t.raw_end + 1) ts n

-- What holds of the variables at index `i`.
Fits : ℕ → ℕ → Scan → Type 0
Fits lo i idle = lo ≤ i
Fits lo i (open_token t in_quotes) =
    (lo ≤ t.raw_start)
    × (t.raw_start < i)
    × (t.raw_start ≤ t.start)
    × (t.start ≤ t.end)
    × (t.end ≤ i)

InOrder-mono :
    (lo lo' : ℕ) (ts : List CompletionToken) (n : ℕ) → lo ≤ lo' → InOrder lo' ts n → InOrder lo ts n
InOrder-mono lo lo' [] n h o = tt
InOrder-mono lo lo' (t ∷ ts) n h (a, b, c, d, e, f, rest) = (omega arith, b, c, d, e, f, rest)

flush-InOrder :
    (lo i n : ℕ) (s : Scan) (rest : List CompletionToken)
    → Fits lo i s
    → i ≤ n
    → InOrder (i + 1) rest n
    → InOrder lo (flush i s rest) n
unfolding Fits flush
flush-InOrder lo i n idle rest f h o = InOrder-mono lo (i + 1) rest n (omega arith) o
flush-InOrder lo i n (open_token t q) rest (a, b, c, d, e) h o =
    (a, b, c, ground arith, ground arith, h, o)

step-Fits :
    (lo i r : ℕ) (s : Scan)
    → (not (quotes_open s) && is_blank r) ≡ false
    → Fits lo i s
    → Fits lo (i + 1) (step i r s)
unfolding Fits step
step-Fits lo i r idle h f = ground arith
step-Fits lo i r (open_token t true) h f = ground arith
step-Fits lo i r (open_token t false) h f = ground arith

doubled_quote-Fits : (lo i : ℕ) (s : Scan) → Fits lo i s → Fits lo (i + 2) (doubled_quote i s)
unfolding Fits
doubled_quote-Fits lo i idle f = omega arith
doubled_quote-Fits lo i (open_token t q) f = ground arith

step-blank : (i r : ℕ) (s : Scan) → (not (quotes_open s) && is_blank r) ≡ true → step i r s ≡ idle
unfolding step
step-blank i r s h = rw h refl

Fits-idle : (i : ℕ) (s : Scan) → s ≡ idle → Fits i i s
unfolding Fits
Fits-idle i s e = rw e (omega arith)

-- A blank outside of quotes, and any other rune.
blank-InOrder :
    (lo i r n : ℕ) (s : Scan) (next : Scan → List CompletionToken)
    → Fits lo i s
    → i ≤ n
    → ((lo' : ℕ) → Fits lo' (i + 1) (step i r s) → InOrder lo' (next (step i r s)) n)
    → InOrder lo (flush_blank i r s (next (step i r s))) n
blank-InOrder lo i r n s next f h go = elim (Bool-cases (not (quotes_open s) && is_blank r)) [
  | inl q ↦ rw q (
      flush-InOrder lo i n s (next (step i r s)) f h
        (go (i + 1) (Fits-idle (i + 1) (step i r s) (step-blank i r s q))))
  | inr q ↦ rw q (go lo (step-Fits lo i r s q f))
]

scan-InOrder :
    (lo i n : ℕ) (s : Scan) (line : Text)
    → i + length line ≡ n
    → Fits lo i s
    → InOrder lo (scan_tokens i s line) n
unfolding scan_tokens
scan-InOrder lo i n s [] e f = flush-InOrder lo i n s [] f (omega arith) tt
scan-InOrder lo i n s (r ∷ []) e f =
    blank-InOrder lo i r n s (λ s'. flush (i + 1) s' []) f (omega arith)
      (λ lo' f'. flush-InOrder lo' (i + 1) n (step i r s) [] f' (omega arith) tt)
scan-InOrder lo i n s (r ∷ d ∷ ds) e f =
    elim (Bool-cases (quotes_open s && (r == quote && d == quote))) [
      | inl q ↦ rw q (
          scan-InOrder lo (i + 2) n (doubled_quote i s) ds (omega arith)
            (doubled_quote-Fits lo i s f))
      | inr q ↦ rw q (
          blank-InOrder lo i r n s (λ s'. scan_tokens (i + 1) s' (d ∷ ds)) f (omega arith)
            (λ lo' f'. scan-InOrder lo' (i + 1) n (step i r s) (d ∷ ds) (omega arith) f'))
    ]

-- Where the cursor is, and the range inside the token.
abbrev pub Holds : CompletionToken → ℕ → ℕ → Type 0
Holds t cursor n =
    (t.raw_start ≤ cursor)
    × (cursor ≤ t.raw_end)
    × (t.raw_start ≤ t.start)
    × (t.start ≤ t.end)
    × (t.end ≤ t.raw_end)
    × (t.raw_end ≤ n)

active-Holds :
    (lo n : ℕ) (ts : List CompletionToken) (cursor : ℕ) (t : CompletionToken)
    → InOrder lo ts n
    → active_prompt_completion_token ts cursor ≡ some t
    → Holds t cursor n
unfolding active_prompt_completion_token
active-Holds lo n [] cursor t o e = cc
active-Holds lo n (u ∷ ts) cursor t (a, b, c, d, f, g, rest) e =
    elim (Bool-cases (leb u.raw_start cursor && leb cursor u.raw_end)) [
      | inl q ↦ ground arith
      | inr q ↦ active-Holds (u.raw_end + 1) n ts cursor t rest (rw q at e)
    ]

-- The tokens of a line stand in order and apart, inside the line, and the range that a completion
-- replaces lies inside its token, behind an opening quote and before a closing one.
pub split_prompt_completion_tokens-InOrder :
    (line : Text) → InOrder 0 (split_prompt_completion_tokens line) (length line)
unfolding split_prompt_completion_tokens Fits
split_prompt_completion_tokens-InOrder line =
    scan-InOrder 0 0 (length line) idle line (omega arith) (omega arith)

-- What `completePrompt` answers for a cursor inside the line: the active token holds the cursor, and
-- the range from `start` to `end` that an accepted completion replaces lies inside the token and the
-- line, also where no token is at the cursor.
pub token_at-Holds :
    (line : Text) (cursor : ℕ)
    → cursor ≤ length line
    → Holds (token_at (split_prompt_completion_tokens line) cursor) cursor (length line)
unfolding token_at
token_at-Holds line cursor h =
    elim (Option-cases
      (active_prompt_completion_token (split_prompt_completion_tokens line) cursor)) [
        | inl q ↦ rw (q, token_at) (omega arith)
        | inr (t, q) ↦
            rw (q, token_at)
              (active-Holds 0 (length line) (split_prompt_completion_tokens line) cursor t
                (split_prompt_completion_tokens-InOrder line) q)
      ]
