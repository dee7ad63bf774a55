-- ===== src/Yadisk/Streams.antt =====
-- GetVideoStreams and DownloadHLSStream of pkg/yadisk/client.go: the streams of a video, and the
-- segments of one, written one behind the other.
use tgdownloader.Prelude.{
  is_empty, ◌*◌, ◌||◌, any, Option, none, some, List, [], ◌∷◌, ◌++◌, Text, ◌==◌, nat_eq,
  if◌then◌else◌, codes, inl, inr,
}
use tgdownloader.Prelude.Decimal.{decimal}
use mathlib.Core.List.{reverse}
use tgdownloader.Renderer.Sanitize.{trim_space}
use tgdownloader.Downloader.FilePath.{has_prefix, segments, slash}
use tgdownloader.Cmd.History.Sensitive.{contains}
use tgdownloader.Apperr.{Error, config, network, internal, io, new_error, wrap, plain_error}
use tgdownloader.Yadisk.Names.{with_slash}
use tgdownloader.Yadisk.Media.{VideoStream}
use tgdownloader.Yadisk.Http.{
  Result, failed, ok, Library, Request, get, Exchange, bad_request, unreachable, answered, Service,
  VideoStreams, ok_answer, decoded, read_limited, format_http_error,
}
use tgdownloader.Yadisk.Playlist.{parse_master_playlist, parse_media_playlist}

abbrev pub yadisk_base_url : Text
yadisk_base_url = codes "https://disk.yandex.ru"

abbrev videos_or_error : VideoStreams → Result (List VideoStream)
videos_or_error result =
    if result.api_error
    then failed (
        new_error (codes "yadisk.get_video_streams.api_error") network (
          codes "get-video-streams api returned error (statusCode="
          ++ decimal result.status_code
          ++ codes ")"))
    else ok result.videos

abbrev pub bind {ℓ κ} : {A : Type ℓ} {B : Type κ} → Result A → (A → Result B) → Result B
bind (failed e) next = failed e
bind (ok a) next = next a

-- An error of an operation, wrapped.
abbrev pub wrapping {ℓ} : {A : Type ℓ} → Text → Result A → Result A
wrapping op (failed e) = failed (wrap op e)
wrapping op (ok a) = ok a

abbrev found_in_page : Text → Text → Option Text → Result Text
found_in_page op text none = failed (new_error op io text)
found_in_page op text (some found) = ok found

-- The page of the link, whatever its status is.
abbrev page_text : Exchange → Result Text
page_text (bad_request e) = failed (plain_error e)
page_text (unreachable e) = failed (
    new_error (codes "yadisk.get_video_streams.fetch_page") network
      (codes "fetch yadisk public page: " ++ e))
page_text (answered response) = elim (read_limited (4 * 1024 * 1024) response.body) [
  | none ↦
      failed (
        new_error (codes "yadisk.get_video_streams.read_page") io (codes "read yadisk public page"))
  | some text ↦ ok text
]

abbrev with_leading_slash : Text → Text
with_leading_slash item_path =
    if has_prefix item_path (slash ∷ []) then item_path else slash ∷ item_path

-- A media playlist as `fetchM3U8` gives it: its text and the URL that its entries are relative to.
abbrev pub Playlist : Type 0
Playlist = Text × Text

abbrev up_to_last_slash : Text → Text
up_to_last_slash path =
    if any (λ c. c == slash) path then with_slash (reverse (segments path)) else path

module _ (lib : Library) where
  abbrev streams_request : Text → Text → Text → Request
  streams_request root_hash item_path sk = record {
    url = yadisk_base_url ++ codes "/public/api/get-video-streams";
    range = none;
    payload = some (
        lib.query_escape
          (lib.marshal_payload (root_hash ++ codes ":" ++ with_leading_slash item_path) sk));
  }

  -- The browser's API, with the tokens that the page of the link holds.
  unfoldable pub get_video_streams : Service → Text → Text → Result (List VideoStream)
  unfolding ok_answer read_limited
  get_video_streams service public_url item_path =
      let url = trim_space public_url in
      let path = trim_space item_path in
      if is_empty url || is_empty path
      then failed (
          new_error (codes "yadisk.get_video_streams.validate") config
            (codes "yadisk GetVideoStreams: empty publicURL or itemPath"))
      else bind (page_text (service (get url))) (λ page.
        bind
          (found_in_page (codes "yadisk.get_video_streams.extract_sk")
            (codes "yadisk page: could not extract sk token") (lib.find_sk page))
          (λ sk.
            bind
              (found_in_page (codes "yadisk.get_video_streams.extract_root_hash")
                (codes "yadisk page: could not extract root hash") (lib.find_root_hash page))
              (λ root_hash.
                bind
                  (ok_answer (codes "yadisk.get_video_streams") (codes "get-video-streams api")
                    (λ response.
                      decoded (codes "yadisk.get_video_streams")
                        (lib.decode_streams response.body.bytes))
                    (service (streams_request root_hash path sk)))
                  videos_or_error)))

  abbrev parsed_base : Text → Text → Result Playlist
  parsed_base m3u8_url text = elim (lib.parse_url m3u8_url) [
    | inl e ↦ failed (new_error (codes "yadisk.fetch_m3u8.parse_url") config e)
    | inr parsed ↦ ok (text, parsed.text_at (up_to_last_slash parsed.path))
  ]

  unfoldable pub fetch_m3u8 : Service → Text → Result Playlist
  unfolding ok_answer read_limited
  fetch_m3u8 service m3u8_url =
      ok_answer (codes "yadisk.fetch_m3u8") (codes "fetch m3u8")
        (λ response. elim (read_limited (1024 * 1024) response.body) [
          | none ↦ failed (new_error (codes "yadisk.fetch_m3u8.read_body") io (codes "read"))
          | some text ↦ parsed_base m3u8_url text
        ])
        (service (get m3u8_url))

  abbrev media_of : Playlist → Result (List Text)
  media_of (text, base_url) = elim (parse_media_playlist text base_url) [
    | none ↦ failed (
        new_error (codes "yadisk.resolve_hls_segments.parse_media") io
          (codes "no segments found in HLS media playlist"))
    | some segments ↦ ok segments
  ]

  abbrev sub_playlist : Service → Playlist → Result Playlist
  sub_playlist service (text, base_url) = elim (parse_master_playlist lib.sscan text base_url) [
    | none ↦ failed (
        new_error (codes "yadisk.resolve_hls_segments.parse_master") io
          (codes "no sub-playlists found in HLS master playlist"))
    | some sub_url ↦
        wrapping (codes "yadisk.resolve_hls_segments.fetch_sub_playlist")
          (fetch_m3u8 service sub_url)
  ]

  -- A master playlist leads to one of its media playlists.
  unfoldable pub resolve_hls_segments : Service → Text → Result (List Text)
  unfolding fetch_m3u8
  resolve_hls_segments service m3u8_url =
      bind
        (wrapping (codes "yadisk.resolve_hls_segments.fetch_playlist")
          (fetch_m3u8 service m3u8_url))
        (λ playlist.
          bind
            (if contains playlist.0 (codes "#EXT-X-STREAM-INF")
              then sub_playlist service playlist
              else ok playlist)
            media_of)

-- The body of a segment, up to where reading or writing it stops, and the error.
abbrev segment_body : Exchange → Text × Option Error
segment_body (bad_request e) =
    ([], some (new_error (codes "yadisk.download_segment.new_request") internal e))
segment_body (unreachable e) =
    ([], some (new_error (codes "yadisk.download_segment.http") network e))
segment_body (answered response) =
    if response.status_code == 200
    then (
      response.body.bytes,
      if response.body.read_fails
          then some (new_error (codes "yadisk.download_segment.copy") io (codes "copy"))
          else none,
    )
    else (
      [],
      some (
          new_error (codes "yadisk.download_segment.status") network
            (format_http_error (codes "download segment") response)),
    )

unfoldable pub download_segment : Service → Text → Text × Option Error
unfolding format_http_error
download_segment service url = segment_body (service (get url))

abbrev segment_error : Text → Error → Error
segment_error url e =
    new_error (codes "yadisk.download_hls_stream.segment") network
      (codes "download HLS segment " ++ url ++ codes ": " ++ e.message)

-- What has been written behind `out`, and the error that ended it.
unfoldable pub download_segments : Service → Text → List Text → Text × Option Error
unfolding download_segment
download_segments service out [] = (out, none)
download_segments service out (url ∷ urls) =
    let (bytes, error) = download_segment service url in
    let rest = download_segments service (out ++ bytes) urls in
    elim error [ some e ↦ (out ++ bytes, some (segment_error url e)) | none ↦ rest ]

abbrev segments_written : Service → Result (List Text) → Text × Option Error
segments_written service (failed e) =
    ([], some (wrap (codes "yadisk.download_hls_stream.resolve_segments") e))
segments_written service (ok urls) = download_segments service [] urls

unfoldable pub download_hls_stream : Library → Service → Text → Text × Option Error
unfolding resolve_hls_segments download_segments
download_hls_stream lib service m3u8_url =
    segments_written service (resolve_hls_segments lib service m3u8_url)
