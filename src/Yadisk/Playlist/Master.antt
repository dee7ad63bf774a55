-- ===== src/Yadisk/Playlist/Master.antt =====
-- A master playlist that is written for a list of streams gives the one of the greatest bandwidth.
use tgdownloader.Prelude.{
  ℕ, Bool, true, false, ◌≤◌, ◌≡◌, refl, ap, ◌∙◌, Option, some, List, [], ◌∷◌, ◌++◌, Text, ◌==◌,
  nat_eq, list_eq, ltb, codes, arith, All, any, map, ℤ, pos,
}
use tgdownloader.Renderer.Sanitize.{trim_space, trim_left, trim_right, is_space, keep_unless_blank}
use tgdownloader.Downloader.FilePath.{has_prefix, trim_prefix-append}
use tgdownloader.Yadisk.Media.Best.{best_uri-IsBestEntry, IsBestEntry}
use tgdownloader.Yadisk.Playlist.{
  Entry, newline, split_on, scan_lines, has_suffix_slash, is_uri_line, bandwidth_of, master_entries,
  parse_master_playlist,
}
use tgdownloader.Yadisk.Playlist.Written.{
  IsLine, IsUri, Ref, IsRef, IsRef-IsUri, ref_text, full_url, base_of, resolve_url-full_url,
  split_on-part, scan_lines-line, scan_lines-nil, header-IsLine,
}

-- A stream of a master playlist: its bandwidth, the digits that write it, and its playlist.
pub record Variant : Type 0 where
  pub bandwidth : ℕ
  pub digits : Text
  pub ref : Ref

abbrev first_attribute : Text
first_attribute = codes "#EXT-X-STREAM-INF:PROGRAM-ID=1"

-- The bandwidth behind another attribute, as servers write it.
abbrev pub stream_line : Text → Text
stream_line digits = first_attribute ++ (b',' ∷ (codes "BANDWIDTH=" ++ digits))

unfoldable pub written_variants : List Variant → Text
written_variants [] = []
written_variants (v ∷ vs) =
    stream_line v.digits ++ (newline ∷ (ref_text v.ref ++ (newline ∷ written_variants vs)))

unfoldable pub written_master : List Variant → Text
unfolding written_variants
written_master vs = codes "#EXTM3U" ++ (newline ∷ written_variants vs)

-- The streams as entries: each with the URL that it stands for.
abbrev pub variant_entry : Text → Variant → Entry
variant_entry dir v = (v.bandwidth, full_url dir v.ref)

split_on-last : (sep : ℕ) (t : Text) → All (λ c. (c == sep) ≡ false) t → split_on sep t ≡ t ∷ []
unfolding split_on
split_on-last sep [] h = refl
split_on-last sep (c ∷ t) (h, hs) = rw (h, split_on-last sep t hs) refl

pub Lacks-any :
    (x : ℕ) (t : Text) → any (λ (c : ℕ). c == x) t ≡ false → All (λ c. (c == x) ≡ false) t
Lacks-any x [] h = tt
Lacks-any x (c ∷ t) h = (ground (arith, h), Lacks-any x t (ground (arith, h)))

first_attribute-one : All (λ c. (c == b',') ≡ false) first_attribute
first_attribute-one = Lacks-any b',' first_attribute refl

split_on-stream_line :
    (digits : Text)
    → All (λ c. (c == b',') ≡ false) digits
    → split_on b',' (stream_line digits) ≡ first_attribute ∷ (codes "BANDWIDTH=" ++ digits) ∷ []
split_on-stream_line digits h =
    split_on-part b',' first_attribute (codes "BANDWIDTH=" ++ digits) first_attribute-one
    ∙ ap (first_attribute ∷◌) (
        split_on-last b',' (codes "BANDWIDTH=" ++ digits)
          (refl, (refl, (refl, (refl, (refl, (refl, (refl, (refl, (refl, (refl, h)))))))))))

-- A URI is not taken for a stream's line.
not_stream : (u : Text) → is_uri_line u ≡ true → has_prefix u (codes "#EXT-X-STREAM-INF") ≡ false
unfolding has_prefix
not_stream [] h = refl
not_stream (c ∷ u) h = ground (arith, h)

module _ (sscan : Text → Option ℤ) where
  -- `fmt.Sscanf` reads the digits, and the lines are lines.
  pub record IsVariant (v : Variant) : Type 0 where
    pub read : sscan v.digits ≡ some (pos v.bandwidth)
    pub positive : 1 ≤ v.bandwidth
    pub no_comma : All (λ c. (c == b',') ≡ false) v.digits
    pub is_line : IsLine (stream_line v.digits)
    pub trimmed : trim_space (stream_line v.digits) ≡ stream_line v.digits
    pub is_ref : IsRef v.ref

  bandwidth_of-stream_line :
      (v : Variant)
      → IsVariant v
      → bandwidth_of sscan 0 (split_on b',' (stream_line v.digits)) ≡ v.bandwidth
  unfolding bandwidth_of has_prefix
  bandwidth_of-stream_line v h =
      rw
        (
          split_on-stream_line v.digits h.no_comma,
          trim_prefix-append (codes "BANDWIDTH=") v.digits,
          h.read,
        )
        refl

  module _ (with_slash : Bool) (dir : Text) (is_dir : has_suffix_slash dir ≡ false) where
    master_entries-stream :
        (current : ℕ) (v : Variant) (ls : List Text)
        → IsVariant v
        → master_entries sscan (base_of with_slash dir) current (stream_line v.digits ∷ ls)
          ≡ master_entries sscan (base_of with_slash dir) v.bandwidth ls
    unfolding master_entries has_prefix
    master_entries-stream current v ls h = rw (h.trimmed, bandwidth_of-stream_line v h) refl

    master_entries-uri :
        (v : Variant) (ls : List Text)
        → IsVariant v
        → master_entries sscan (base_of with_slash dir) v.bandwidth (ref_text v.ref ∷ ls)
          ≡ variant_entry dir v ∷ master_entries sscan (base_of with_slash dir) 0 ls
    unfolding master_entries
    master_entries-uri v ls h =
        let uri : IsUri (ref_text v.ref) = IsRef-IsUri v.ref h.is_ref in
        let some_bandwidth : ltb 0 v.bandwidth ≡ true = ground (arith, h.positive) in
        rw
          (
            uri.trimmed,
            not_stream (ref_text v.ref) uri.is_uri,
            uri.is_uri,
            some_bandwidth,
            resolve_url-full_url with_slash dir v.ref is_dir h.is_ref,
          )
          refl

    master_entries-written :
        (vs : List Variant) (current : ℕ)
        → All IsVariant vs
        → master_entries sscan (base_of with_slash dir) current (scan_lines (written_variants vs))
          ≡ map (variant_entry dir) vs
    unfolding written_variants
    master_entries-written [] current h = rw scan_lines-nil (unfold master_entries in refl)
    master_entries-written (v ∷ vs) current (h, hs) =
        let base_url : Text = base_of with_slash dir in
        let others : Text = written_variants vs in
        let uri : IsUri (ref_text v.ref) = IsRef-IsUri v.ref h.is_ref in
        ap (master_entries sscan base_url current) (
          scan_lines-line (stream_line v.digits) (ref_text v.ref ++ (newline ∷ others)) h.is_line
          ∙ ap (stream_line v.digits ∷◌) (scan_lines-line (ref_text v.ref) others uri.is_line))
        ∙ master_entries-stream current v (ref_text v.ref ∷ scan_lines others) h
        ∙ master_entries-uri v (scan_lines others) h
        ∙ ap (variant_entry dir v ∷◌) (master_entries-written vs 0 hs)

    master_entries-header :
        (ls : List Text)
        → master_entries sscan (base_of with_slash dir) 0 (codes "#EXTM3U" ∷ ls)
          ≡ master_entries sscan (base_of with_slash dir) 0 ls
    unfolding master_entries trim_space trim_left trim_right is_space keep_unless_blank has_prefix
    master_entries-header ls = refl

    -- Of a master playlist that is written for any streams, each with its bandwidth behind
    -- another attribute and its reference on the next line, `parseMasterPlaylist` gives the URL
    -- of the first of the greatest bandwidth, as it stands or below the base directory, and an
    -- error exactly where there is no stream. `fmt.Sscanf` is assumed to read the digits of
    -- each bandwidth, which is not 0 and has no comma in its digits; each line is assumed to be
    -- shorter than 64 KiB with no white space around it, and no reference to be empty or a
    -- comment.
    pub parse_master_playlist-written_master :
        (vs : List Variant)
        → All IsVariant vs
        → IsBestEntry
            (map (variant_entry dir) vs)
            (parse_master_playlist sscan (written_master vs) (base_of with_slash dir))
    unfolding parse_master_playlist written_master
    parse_master_playlist-written_master vs h =
        let read =
          ap (master_entries sscan (base_of with_slash dir) 0)
            (scan_lines-line (codes "#EXTM3U") (written_variants vs) header-IsLine)
          ∙ master_entries-header (scan_lines (written_variants vs))
          ∙ master_entries-written vs 0 h in
        rw read (best_uri-IsBestEntry (map (variant_entry dir) vs))
