-- ===== src/Yadisk/Playlist.antt =====
-- The HLS playlists of pkg/yadisk/client.go: parseMasterPlaylist, parseMediaPlaylist, resolveURL.
-- `fmt.Sscanf` with "%d" is a parameter. `bufio.Scanner` is written out for text of which a code point
-- is a byte: a line of 65,536 bytes or more ends the scan, and the source does not look at its error.
pub mod Written
pub mod Master
use tgdownloader.Prelude.{
  is_empty, ℕ, ◌*◌, Bool, false, ◌&&◌, ◌||◌, not, Option, none, some, List, [], ◌∷◌, ◌++◌, Text,
  ◌==◌, nat_eq, length, ltb, leb, if◌then◌else◌, codes, ℤ, pos_part,
}
use tgdownloader.Renderer.Sanitize.{trim_space}
use tgdownloader.Downloader.FilePath.{has_prefix, trim_prefix}

abbrev pub newline : ℕ
newline = 10

abbrev pub hash : ℕ
hash = 35

abbrev pub push_first : ℕ → List Text → List Text
push_first c [] = (c ∷ []) ∷ []
push_first c (s ∷ ss) = (c ∷ s) ∷ ss

-- `strings.Split` by one byte.
unfoldable pub split_on : ℕ → Text → List Text
split_on sep [] = [] ∷ []
split_on sep (c ∷ cs) = if c == sep then [] ∷ split_on sep cs else push_first c (split_on sep cs)

-- The lines up to the end of the input, or up to one that is too long. A carriage return at a line's
-- end stays: the callers trim the line.
unfoldable pub scan_tokens_of : List Text → List Text
scan_tokens_of [] = []
scan_tokens_of (l ∷ []) = if is_empty l || leb (64 * 1024) (length l) then [] else l ∷ []
scan_tokens_of (l ∷ m ∷ ls) =
    let rest = scan_tokens_of (m ∷ ls) in if leb (64 * 1024) (length l) then [] else l ∷ rest

unfoldable pub scan_lines : Text → List Text
unfolding split_on scan_tokens_of
scan_lines text = scan_tokens_of (split_on newline text)

unfoldable pub has_suffix_slash : Text → Bool
has_suffix_slash [] = false
has_suffix_slash (c ∷ []) = c == b'/'
has_suffix_slash (c ∷ d ∷ cs) = has_suffix_slash (d ∷ cs)

unfoldable pub resolve_url : Text → Text → Text
unfolding has_suffix_slash
resolve_url base_url ref =
    if has_prefix ref (codes "http://") || has_prefix ref (codes "https://")
    then ref
    else if has_suffix_slash base_url
    then base_url ++ ref
    else base_url ++ codes "/" ++ ref

-- A line that is neither empty nor a comment.
abbrev pub is_uri_line : Text → Bool
is_uri_line line = not (is_empty line) && not (has_prefix line (hash ∷ []))

unfoldable pub media_segments : Text → List Text → List Text
media_segments base_url [] = []
media_segments base_url (l ∷ ls) =
    let rest = media_segments base_url ls in
    if is_uri_line (trim_space l) then resolve_url base_url (trim_space l) ∷ rest else rest

-- `none` is the error that there are no segments.
unfoldable pub parse_media_playlist : Text → Text → Option (List Text)
unfolding media_segments
parse_media_playlist playlist base_url =
    let segments = media_segments base_url (scan_lines playlist) in
    if is_empty segments then none else some segments

abbrev pub Entry : Type 0
Entry = ℕ × Text

-- The later entry is taken only where its bandwidth is greater.
unfoldable pub best_entry : Entry → List Entry → Entry
best_entry best [] = best
best_entry best (e ∷ es) = best_entry (if ltb best.0 e.0 then e else best) es

abbrev pub best_uri : List Entry → Option Text
best_uri [] = none
best_uri (e ∷ es) = some (best_entry e es).1

abbrev stream_inf : Text
stream_inf = codes "#EXT-X-STREAM-INF"

abbrev bandwidth_key : Text
bandwidth_key = codes "BANDWIDTH="

module _ (sscan : Text → Option ℤ) where
  -- The attributes of a line; a number that does not parse leaves the bandwidth as it is. One below
  -- 1 is as good as none.
  unfoldable pub bandwidth_of : ℕ → List Text → ℕ
  bandwidth_of current [] = current
  bandwidth_of current (part ∷ parts) =
      bandwidth_of
        (if has_prefix part bandwidth_key
          then elim (sscan (trim_prefix part bandwidth_key)) [
            | none ↦ current
            | some n ↦ pos_part n
          ]
          else current)
        parts

  unfoldable pub master_entries : Text → ℕ → List Text → List Entry
  unfolding bandwidth_of split_on
  master_entries base_url current [] = []
  master_entries base_url current (l ∷ ls) =
      let line = trim_space l in
      let is_stream = has_prefix line stream_inf in
      let is_entry = not is_stream && is_uri_line line && ltb 0 current in
      let rest =
        master_entries base_url
          (if is_stream
            then bandwidth_of 0 (split_on b',' line)
            else if is_entry
            then 0
            else current)
          ls in
      if is_entry then (current, resolve_url base_url line) ∷ rest else rest

  -- `none` is the error that there are no sub-playlists.
  unfoldable pub parse_master_playlist : Text → Text → Option Text
  unfolding master_entries best_entry
  parse_master_playlist playlist base_url =
      best_uri (master_entries base_url 0 (scan_lines playlist))
