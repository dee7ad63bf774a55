-- ===== src/Yadisk/Tests/Playlists.antt =====
-- The playlists of pkg/yadisk at two segments and at two streams.
use tgdownloader.Prelude.{
  ◌≡◌, refl, true, false, none, some, Option, [], ◌∷◌, List, Text, codes, arith, map, ℕ, ◌==◌,
  nat_eq, list_eq, if◌then◌else◌, ℤ, pos,
}
use tgdownloader.Renderer.Sanitize.{trim_space, trim_left, trim_right, is_space, keep_unless_blank}
use tgdownloader.Downloader.FilePath.{has_prefix}
use tgdownloader.Yadisk.Media.Best.{IsBestEntry}
use tgdownloader.Yadisk.Playlist.{
  parse_media_playlist, parse_master_playlist, has_suffix_slash, newline,
}
use tgdownloader.Yadisk.Playlist.Written.{
  Ref, relative, absolute, IsRef, ref_text, written_playlist, parse_media_playlist-written_playlist,
}
use tgdownloader.Yadisk.Playlist.Master.{
  Variant, IsVariant, Lacks-any, stream_line, variant_entry, written_master,
  parse_master_playlist-written_master,
}

below : IsRef (relative (codes "a.ts"))
unfolding trim_space trim_left trim_right is_space keep_unless_blank has_prefix
below = (
  record {
    is_line = record { no_break = Lacks-any newline (codes "a.ts") refl; short = omega arith };
    trimmed = refl;
    is_uri = refl;
  },
  refl,
)

elsewhere : IsRef (absolute (codes "http://h/b"))
unfolding trim_space trim_left trim_right is_space keep_unless_blank has_prefix
elsewhere = (
  record {
    is_line = record {
      no_break = Lacks-any newline (codes "http://h/b") refl;
      short = omega arith;
    };
    trimmed = refl;
    is_uri = refl;
  },
  refl,
)

abbrev refs : List Ref
refs = relative (codes "a.ts") ∷ absolute (codes "http://h/b") ∷ []

parse_media_playlist-written_playlist_example :
    parse_media_playlist (written_playlist (map ref_text refs)) (codes "dir/")
    ≡ some (codes "dir/a.ts" ∷ codes "http://h/b" ∷ [])
unfolding has_suffix_slash
parse_media_playlist-written_playlist_example =
    parse_media_playlist-written_playlist true (codes "dir") refl (relative (codes "a.ts"))
      (absolute (codes "http://h/b") ∷ []) (below, (elsewhere, tt))

abbrev sscan : Text → Option ℤ
sscan t =
    if t == codes "800" then some (pos 800) else if t == codes "1200" then some (pos 1200) else none

abbrev variant : ℕ → Text → Ref → Variant
variant n digits ref = record { bandwidth = n; digits = digits; ref = ref }

low : IsVariant sscan (variant 800 (codes "800") (relative (codes "a.ts")))
unfolding trim_space trim_left trim_right is_space keep_unless_blank
low = record {
  read = refl;
  positive = omega arith;
  no_comma = Lacks-any b',' (codes "800") refl;
  is_line = record {
    no_break = Lacks-any newline (stream_line (codes "800")) refl;
    short = omega arith;
  };
  trimmed = refl;
  is_ref = below;
}

high : IsVariant sscan (variant 1200 (codes "1200") (absolute (codes "http://h/b")))
unfolding trim_space trim_left trim_right is_space keep_unless_blank
high = record {
  read = refl;
  positive = omega arith;
  no_comma = Lacks-any b',' (codes "1200") refl;
  is_line = record {
    no_break = Lacks-any newline (stream_line (codes "1200")) refl;
    short = omega arith;
  };
  trimmed = refl;
  is_ref = elsewhere;
}

abbrev variants : List Variant
variants =
    variant 800 (codes "800") (relative (codes "a.ts"))
    ∷ variant 1200 (codes "1200") (absolute (codes "http://h/b"))
    ∷ []

parse_master_playlist-written_master_example :
    IsBestEntry
      (map (variant_entry (codes "dir")) variants)
      (parse_master_playlist sscan (written_master variants) (codes "dir"))
unfolding has_suffix_slash
parse_master_playlist-written_master_example =
    parse_master_playlist-written_master sscan false (codes "dir") refl variants (low, (high, tt))
