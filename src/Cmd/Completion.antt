-- ===== src/Cmd/Completion.antt =====
-- cmd/cmd/prompt_completion.go: the tokens of the prompt's line and the one at the cursor. Indices
-- are positions in the runes of the line.
pub mod Ranges
pub mod Scanned
pub mod Encoded
pub mod Accepted
use tgdownloader.Prelude.{
  ℕ, ◌+◌, Bool, true, false, ◌&&◌, ◌||◌, not, Option, none, some, List, [], ◌∷◌, ◌++◌, Text, ◌==◌,
  nat_eq, leb, length, if◌then◌else◌,
}
use tgdownloader.Cmd.Prompt.{quote}

pub record CompletionToken : Type 0 where
  pub value : Text
  pub raw_start : ℕ
  pub raw_end : ℕ
  pub start : ℕ
  pub end : ℕ
  pub quoted : Bool
  pub quote_closed : Bool

-- The variables of the loop. A token is open, or `rawStart`, `start` and `end` are -1; between tokens
-- the value is empty and the flags are false, but for `inQuotes`, which is false there too.
pub data Scan : Type 0 where
  idle : Scan
  open_token : CompletionToken → Bool → Scan

-- `flush(rawEnd)`.
unfoldable pub flush : ℕ → Scan → List CompletionToken → List CompletionToken
flush raw_end idle rest = rest
flush raw_end (open_token t in_quotes) rest =
    record t { raw_end = raw_end; end = if not (leb t.start t.end) then t.start else t.end } ∷ rest

abbrev pub is_blank : ℕ → Bool
is_blank r = r == b' ' || r == 9

-- A token that opens at `i` by a quote, and by another rune.
abbrev pub quoted_at : ℕ → CompletionToken
quoted_at i = record {
  value = [];
  raw_start = i;
  raw_end = i;
  start = i + 1;
  end = i + 1;
  quoted = true;
  quote_closed = false;
}

abbrev pub bare_at : ℕ → CompletionToken
bare_at i = record {
  value = [];
  raw_start = i;
  raw_end = i;
  start = i;
  end = i;
  quoted = false;
  quote_closed = false;
}

abbrev pub write_rune : ℕ → ℕ → CompletionToken → CompletionToken
write_rune i r t = record t { value = t.value ++ r ∷ []; end = i + 1 }

-- A quote that is not doubled.
abbrev pub toggle_quote : ℕ → CompletionToken → Bool → Scan
toggle_quote i t true =
    open_token (record t { end = i; quote_closed = t.quote_closed || t.quoted }) false
toggle_quote i t false = open_token t true

-- The rest of the body of the loop, behind the test for a blank outside of quotes.
abbrev pub other_rune : ℕ → ℕ → Scan → Scan
other_rune i r idle = open_token (write_rune i r (bare_at i)) false
other_rune i r (open_token t in_quotes) = open_token (write_rune i r t) in_quotes

abbrev pub one_quote : ℕ → Scan → Scan
one_quote i idle = toggle_quote i (quoted_at i) false
one_quote i (open_token t in_quotes) = toggle_quote i t in_quotes

abbrev pub quotes_open : Scan → Bool
quotes_open idle = false
quotes_open (open_token t in_quotes) = in_quotes

abbrev pub doubled_quote : ℕ → Scan → Scan
doubled_quote i idle = idle
doubled_quote i (open_token t in_quotes) =
    open_token (record t { value = t.value ++ quote ∷ []; end = i + 2 }) in_quotes

-- What a rune that does not skip the next one makes of the variables.
unfoldable pub step : ℕ → ℕ → Scan → Scan
step i r s =
    if not (quotes_open s) && is_blank r
    then idle
    else if r == quote
    then one_quote i s
    else other_rune i r s

abbrev pub flush_blank : ℕ → ℕ → Scan → List CompletionToken → List CompletionToken
flush_blank i r s rest = if not (quotes_open s) && is_blank r then flush i s rest else rest

-- The loop from index `i`; a doubled quote inside quotes takes two runes.
unfoldable pub scan_tokens : ℕ → Scan → Text → List CompletionToken
unfolding flush step
scan_tokens i s [] = flush i s []
scan_tokens i s (r ∷ []) = flush_blank i r s (flush (i + 1) (step i r s) [])
scan_tokens i s (r ∷ d ∷ ds) =
    let skip = scan_tokens (i + 2) (doubled_quote i s) ds in
    let go = scan_tokens (i + 1) (step i r s) (d ∷ ds) in
    if quotes_open s && (r == quote && d == quote) then skip else flush_blank i r s go

unfoldable pub split_prompt_completion_tokens : Text → List CompletionToken
unfolding scan_tokens
split_prompt_completion_tokens line = scan_tokens 0 idle line

unfoldable pub active_prompt_completion_token : List CompletionToken → ℕ → Option CompletionToken
active_prompt_completion_token [] cursor = none
active_prompt_completion_token (t ∷ ts) cursor =
    if leb t.raw_start cursor && leb cursor t.raw_end
    then some t
    else active_prompt_completion_token ts cursor

-- The token at the cursor, or an empty one there.
unfoldable pub token_at : List CompletionToken → ℕ → CompletionToken
unfolding active_prompt_completion_token
token_at tokens cursor = elim (active_prompt_completion_token tokens cursor) [
  | none ↦ bare_at cursor
  | some t ↦ t
]

-- The values of the tokens before the active one.
unfoldable pub args_before : List CompletionToken → CompletionToken → List Text
args_before [] active = []
args_before (t ∷ ts) active =
    let rest = args_before ts active in
    if leb t.raw_end active.raw_start then t.value ∷ rest else rest
