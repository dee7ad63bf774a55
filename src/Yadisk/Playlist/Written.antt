-- ===== src/Yadisk/Playlist/Written.antt =====
-- A media playlist that is written for a list of URIs is read back.
use tgdownloader.Prelude.{
  ℕ, Bool, ◌||◌, beq_refl, ◌*◌, ◌<◌, ◌≡◌, refl, ap, ◌∙◌, true, false, some, List, [], ◌∷◌, ◌++◌,
  Text, ◌==◌, nat_eq, length, leb, if◌then◌else◌, codes, arith, All, map,
}
use tgdownloader.Renderer.Sanitize.{trim_space, trim_left, trim_right, is_space, keep_unless_blank}
use tgdownloader.Downloader.FilePath.{has_prefix}
use tgdownloader.Yadisk.Playlist.{
  newline, push_first, split_on, scan_tokens_of, scan_lines, is_uri_line, resolve_url,
  media_segments, has_suffix_slash, parse_media_playlist,
}

-- A line of a file: no line break in it, and not too long for the scanner.
pub record IsLine (l : Text) : Type 0 where
  pub no_break : All (λ c. (c == newline) ≡ false) l
  pub short : length l < 64 * 1024

-- A line that the playlist gives as a URI, as it stands.
pub record IsUri (u : Text) : Type 0 where
  pub is_line : IsLine u
  pub trimmed : trim_space u ≡ u
  pub is_uri : is_uri_line u ≡ true

pub split_on-part :
    (sep : ℕ) (l rest : Text)
    → All (λ c. (c == sep) ≡ false) l
    → split_on sep (l ++ (sep ∷ rest)) ≡ l ∷ split_on sep rest
unfolding split_on
split_on-part sep [] rest h = rw (beq_refl sep) refl
split_on-part sep (c ∷ l) rest (h, hs) = rw (h, split_on-part sep l rest hs) refl

-- There is always a last element.
split_on-nonempty : (t : Text) → (l : Text) × ((ls : List Text) × (split_on newline t ≡ l ∷ ls))
unfolding split_on
split_on-nonempty [] = ([], ([], refl))
split_on-nonempty (c ∷ t) =
    let (l, (ls, e)) = split_on-nonempty t in
    elim (c == newline)
      as (λ b.
        (l' : Text) × ((ls' : List Text) × ((if b
              then [] ∷ split_on newline t
              else push_first c (split_on newline t))
            ≡ l' ∷ ls'))) [
              | true ↦ ([], (split_on newline t, refl))
              | false ↦ (c ∷ l, (ls, ap (push_first c) e))
            ]

pub scan_lines-line :
    (l rest : Text) → IsLine l → scan_lines (l ++ (newline ∷ rest)) ≡ l ∷ scan_lines rest
unfolding scan_lines scan_tokens_of
scan_lines-line l rest h =
    let (m, (ls, e)) = split_on-nonempty rest in
    let short : leb (64 * 1024) (length l) ≡ false = ground (arith, h.short) in
    rw (split_on-part newline l rest h.no_break, e, short) refl

pub scan_lines-nil : scan_lines [] ≡ []
unfolding scan_lines
scan_lines-nil = refl

abbrev duration_line : Text
duration_line = codes "#EXTINF:10,"

duration_line-IsLine : IsLine duration_line
duration_line-IsLine = record {
  no_break =
      (refl, (refl, (refl, (refl, (refl, (refl, (refl, (refl, (refl, (refl, (refl, tt)))))))))));
  short = omega arith;
}

-- Each URI behind the duration of its segment.
unfoldable pub written_segments : List Text → Text
written_segments [] = []
written_segments (u ∷ us) = duration_line ++ (newline ∷ (u ++ (newline ∷ written_segments us)))

media_segments-comment :
    (base_url : Text) (ls : List Text)
    → media_segments base_url (duration_line ∷ ls) ≡ media_segments base_url ls
unfolding media_segments trim_space trim_left trim_right is_space keep_unless_blank has_prefix
media_segments-comment base_url ls = refl

pub header-IsLine : IsLine (codes "#EXTM3U")
header-IsLine = record {
  no_break = (refl, (refl, (refl, (refl, (refl, (refl, (refl, tt)))))));
  short = omega arith;
}

-- A playlist as servers write it.
unfoldable pub written_playlist : List Text → Text
unfolding written_segments
written_playlist us = codes "#EXTM3U" ++ (newline ∷ written_segments us)

media_segments-header :
    (base_url : Text) (ls : List Text)
    → media_segments base_url (codes "#EXTM3U" ∷ ls) ≡ media_segments base_url ls
unfolding media_segments trim_space trim_left trim_right is_space keep_unless_blank has_prefix
media_segments-header base_url ls = refl

-- A reference as a playlist holds it: with its scheme, or below the playlist's directory.
pub data Ref : Type 0 where
  absolute relative : Text → Ref

abbrev pub ref_text : Ref → Text
ref_text (absolute u) = u
ref_text (relative u) = u

abbrev pub has_scheme : Text → Bool
has_scheme u = has_prefix u (codes "http://") || has_prefix u (codes "https://")

abbrev pub IsRef : Ref → Type 0
IsRef (absolute u) = IsUri u × (has_scheme u ≡ true)
IsRef (relative u) = IsUri u × (has_scheme u ≡ false)

-- What it stands for below the directory `dir`.
abbrev pub full_url : Text → Ref → Text
full_url dir (absolute u) = u
full_url dir (relative u) = dir ++ codes "/" ++ u

-- The directory, with its slash or without.
abbrev pub base_of : Bool → Text → Text
base_of false dir = dir
base_of true dir = dir ++ codes "/"

has_suffix_slash-append : (dir : Text) → has_suffix_slash (dir ++ codes "/") ≡ true
unfolding has_suffix_slash
has_suffix_slash-append [] = refl
has_suffix_slash-append (c ∷ []) = refl
has_suffix_slash-append (c ∷ d ∷ dir) = has_suffix_slash-append (d ∷ dir)

pub IsRef-IsUri : (r : Ref) → IsRef r → IsUri (ref_text r)
IsRef-IsUri (absolute u) h = h.0
IsRef-IsUri (relative u) h = h.0

pub resolve_url-full_url :
    (with_slash : Bool) (dir : Text) (r : Ref)
    → has_suffix_slash dir ≡ false
    → IsRef r
    → resolve_url (base_of with_slash dir) (ref_text r) ≡ full_url dir r
unfolding resolve_url
resolve_url-full_url with_slash dir (absolute u) d (h, s) = rw s refl
resolve_url-full_url false dir (relative u) d (h, s) = rw (s, d) refl
resolve_url-full_url true dir (relative u) d (h, s) = rw (s, has_suffix_slash-append dir) refl

module _ (with_slash : Bool) (dir : Text) (is_dir : has_suffix_slash dir ≡ false) where
  media_segments-written :
      (rs : List Ref)
      → All IsRef rs
      → media_segments (base_of with_slash dir) (scan_lines (written_segments (map ref_text rs)))
        ≡ map (full_url dir) rs
  unfolding written_segments media_segments
  media_segments-written [] h = rw scan_lines-nil refl
  media_segments-written (r ∷ rs) (h, hs) =
      let u : Text = ref_text r in
      let others : Text = written_segments (map ref_text rs) in
      let uri : IsUri u = IsRef-IsUri r h in
      rw
        (
          scan_lines-line duration_line (u ++ (newline ∷ others)) duration_line-IsLine,
          scan_lines-line u others uri.is_line,
          media_segments-comment (base_of with_slash dir) (u ∷ scan_lines others),
          uri.trimmed,
          uri.is_uri,
          resolve_url-full_url with_slash dir r is_dir h,
          media_segments-written rs hs,
        )
        refl

  -- Of a media playlist that is written for one reference or more, each on its line behind the
  -- duration of its segment, `parseMediaPlaylist` gives exactly these in their order: one with
  -- http:// or https:// as it stands, and any other below the base, a directory that is given
  -- with its slash or without. Each reference is assumed to be a line of less than 64 KiB, with
  -- no white space around it, not empty and not a comment.
  pub parse_media_playlist-written_playlist :
      (r : Ref) (rs : List Ref)
      → All IsRef (r ∷ rs)
      → parse_media_playlist (written_playlist (map ref_text (r ∷ rs))) (base_of with_slash dir)
        ≡ some (map (full_url dir) (r ∷ rs))
  unfolding parse_media_playlist written_playlist
  parse_media_playlist-written_playlist r rs h =
      let read =
        ap (media_segments (base_of with_slash dir)) (
          scan_lines-line (codes "#EXTM3U") (written_segments (map ref_text (r ∷ rs)))
            header-IsLine)
        ∙ media_segments-header (base_of with_slash dir)
            (scan_lines (written_segments (map ref_text (r ∷ rs))))
        ∙ media_segments-written (r ∷ rs) h in
      rw read refl
