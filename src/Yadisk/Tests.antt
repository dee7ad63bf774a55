-- ===== src/Yadisk/Tests.antt =====
-- The theorems about pkg/yadisk at concrete inputs: a small service and library, and a video.
mod Downloads
mod Links
mod Playlists
use tgdownloader.Prelude.{
  ℕ, zero, suc, ◌+◌, ◌≤◌, ◌≡◌, refl, Bool, true, false, ◌&&◌, Option, none, some, List, [], ◌∷◌,
  ◌++◌, Text, codes, leb, if◌then◌else◌, ℤ, pos, inl, inr, arith, nat_eq, list_eq, ◌==◌,
}
use tgdownloader.Prelude.Decimal.{decimal}
use tgdownloader.Renderer.Sanitize.{trim_space, trim_left, trim_right, is_space, keep_unless_blank}
use tgdownloader.Downloader.FilePath.{has_prefix, ext, segments, trim_prefix, join_segments, clean}
use tgdownloader.Cmd.History.Sensitive.{contains}
use tgdownloader.Apperr.{Error, wrap}
use tgdownloader.Yadisk.Names.{
  to_lower, sanitize_filename, replace_all, is_video_file, should_use_hls_fallback, empty_href_text,
  forbids_text, is_skippable_yandex_file_name, base, dir,
}
use tgdownloader.Yadisk.Media.{
  PublicResource, ResourceAnswer, VideoStream, choose_best_video_stream, media_fallback_url,
  can_use_media_fallback, choose_resource_size_url,
}
use tgdownloader.Yadisk.Media.Best.{
  IsBestStream, non_adaptive, choose_best_video_stream-IsBestStream,
}
use tgdownloader.Yadisk.Http.{
  Result, failed, Library, Client, new_client, Service, Request, Response, Body, answered,
  VideoStreams, resolve_download_url, get_public_resource, ok_answer, download_endpoint,
}
use tgdownloader.Yadisk.Resolve.{
  PublicDownload, resolve_file_direct_url, resolve_public_file_download_url,
}
use tgdownloader.Yadisk.Resolve.Urls.{GivesUrl, resolve_public_file_download_url-GivesUrl}
use tgdownloader.Yadisk.Resolve.Fallback.{KeepsLower, NoUrls, resolve_file_direct_url-fallback}
use tgdownloader.Yadisk.Playlist.{
  Entry, parse_master_playlist, master_entries, bandwidth_of, split_on, scan_lines, resolve_url,
  has_suffix_slash, best_entry, parse_media_playlist, media_segments,
}
use tgdownloader.Yadisk.Directory.{page_size}
use tgdownloader.Yadisk.Directory.Entry.{
  IsPlain, IsListed, regular_file, listed_file, names_system_file,
}
use tgdownloader.Yadisk.Directory.Tree.{
  Nodes, nil, cons, leaf, folder, resources, Lists, PageAt, Serves, nodes_depth, node_files,
}

-- Upper case letters of ASCII.
abbrev pub lower : ℕ → ℕ
lower c = if leb b'A' c && leb c b'Z' then c + 32 else c

abbrev pub resource : Text → Text → Text → PublicResource
resource kind name path = record {
  resource_type = kind;
  name = name;
  path = path;
  file = [];
  mime_type = [];
  preview = [];
  sizes = [];
  size = pos 3;
}

abbrev pub video : PublicResource
video = resource (codes "file") (codes "a.mp4") (codes "/r/a.mp4")

abbrev pub inner_file : PublicResource
inner_file = resource (codes "file") (codes "b.txt") (codes "/r/s/b.txt")

abbrev pub inner : PublicResource
inner = resource (codes "dir") (codes "s") (codes "/r/s")

abbrev pub root : PublicResource
root = resource (codes "dir") (codes "r") (codes "/r")

abbrev listing : PublicResource → List PublicResource → ℕ → ResourceAnswer
listing r items total = record {
  resource = r;
  embedded = some (record { items = items; total = pos total });
}

abbrev pub body : Text → Body
body bytes = record { bytes = bytes; read_fails = false; close_fails = false }

abbrev pub answer : ℕ → Text → Response
answer status bytes = record {
  status_code = status;
  status = [];
  content_length = pos 0;
  disposition = none;
  url_path = none;
  body = body bytes;
}

-- The answer's body is the URL of the request.
abbrev pub echo : Service
echo request = answered (answer 200 request.url)

abbrev values : List (Text × Text) → Text
values [] = []
values ((k, v) ∷ vs) = v ++ values vs

-- What the service says of each path and offset.
abbrev decode : Text → ResourceAnswer
decode url =
    if contains url (codes "a.mp4")
    then listing video [] 0
    else if contains url (codes "/r/s10000")
    then listing inner (inner_file ∷ []) 1
    else if contains url (codes "/r10000")
    then listing root (video ∷ inner ∷ []) 2
    else if contains url (codes "/r10001")
    then listing root (inner ∷ []) 2
    else listing root [] (if contains url (codes "/r/s") then 1 else 2)

abbrev pub library : Library
library = record {
  lower = lower;
  quote = λ t. t;
  query_escape = λ t. t;
  encode_values = values;
  decode_download = λ t. inr [];
  decode_resource = λ t. inr (decode t);
  decode_streams = λ t. inl t;
  marshal_payload = λ a b. a;
  find_sk = λ t. none;
  find_root_hash = λ t. none;
  parse_url = λ t. inl t;
  sscan = λ t. some (pos 5);
}

abbrev pub tree : Nodes
tree = cons (leaf video (listed_file video (codes "a.mp4") ∷ [])) (
    cons (folder inner (cons (leaf inner_file (listed_file inner_file (codes "s/b.txt") ∷ [])) nil))
      nil)

sanitized :
    (sanitize_filename (codes " a/b\\c ") ≡ codes "a_b_c")
    × (sanitize_filename (codes "..") ≡ codes "..")
unfolding sanitize_filename trim_space trim_left trim_right is_space keep_unless_blank
sanitized = (refl, refl)

abbrev stream : Text → ℕ → VideoStream
stream dimension height = record { dimension = dimension; width = 0; height = height; url = [] }

choose_best_video_stream-IsBestStream_example :
    (b : VideoStream) × ((choose_best_video_stream
          (stream (codes "adaptive") 0 ∷ stream (codes "360p") 360 ∷ stream (codes "720p") 720 ∷ [])
        ≡ some b)
      × IsBestStream
          (stream (codes "adaptive") 0)
          (non_adaptive (
            stream (codes "adaptive") 0
            ∷ stream (codes "360p") 360
            ∷ stream (codes "720p") 720
            ∷ []))
          b)
choose_best_video_stream-IsBestStream_example =
    choose_best_video_stream-IsBestStream (stream (codes "adaptive") 0)
      (stream (codes "360p") 360 ∷ stream (codes "720p") 720 ∷ [])

resolve_public_file_download_url-GivesUrl_example : GivesUrl (
    resolve_public_file_download_url library new_client echo echo
      (codes "u")
      (record { name = []; size = pos 0; direct_url = codes " x "; path = []; relative_dir = [] }))
resolve_public_file_download_url-GivesUrl_example =
    resolve_public_file_download_url-GivesUrl library new_client echo echo (codes "u")
      (record { name = []; size = pos 0; direct_url = codes " x "; path = []; relative_dir = [] })

keeps : KeepsLower lower
unfolding to_lower
keeps = record { empty_href = refl; forbids = refl }

no_urls : NoUrls library new_client echo (codes "u") video
unfolding resolve_download_url ok_answer get_public_resource contains has_prefix trim_space
    trim_left trim_right media_fallback_url can_use_media_fallback choose_resource_size_url
    download_endpoint to_lower ext is_space keep_unless_blank
no_urls = record {
  no_href_of = λ path. refl;
  no_file = refl;
  no_media = refl;
  answer = listing video [] 0;
  answered_with = refl;
  answer_no_file = refl;
  answer_no_media = refl;
}

resolve_file_direct_url-fallback_example :
    (e : Error) × ((resolve_file_direct_url library new_client echo (codes "u") video ≡ failed e)
      × (should_use_hls_fallback lower (codes "a.mp4") (some (wrap (codes "op") e).message) ≡ true))
unfolding is_video_file trim_space trim_left trim_right is_space keep_unless_blank to_lower ext
resolve_file_direct_url-fallback_example =
    resolve_file_direct_url-fallback library new_client echo (codes "u") keeps video (codes "op")
      (codes "a.mp4") no_urls refl

inner_listed : Lists library new_client echo (codes "u") (codes "/r/s") (inner_file ∷ [])
unfolding get_public_resource ok_answer contains has_prefix trim_space trim_left trim_right is_space
    keep_unless_blank decimal
inner_listed zero h = record {
  answer = listing inner (inner_file ∷ []) 1;
  fetched = refl;
  others = [];
  splits = refl;
  has_some = λ q. refl;
  counts = refl;
}
inner_listed (suc zero) h = record {
  answer = listing root [] 1;
  fetched = refl;
  others = [];
  splits = refl;
  has_some = λ q. refl;
  counts = refl;
}
inner_listed (suc (suc n)) h = absurd (omega (arith, h))

root_listed : Lists library new_client echo (codes "u") (codes "/r") (video ∷ inner ∷ [])
unfolding get_public_resource ok_answer contains has_prefix trim_space trim_left trim_right is_space
    keep_unless_blank decimal
root_listed zero h = record {
  answer = listing root (video ∷ inner ∷ []) 2;
  fetched = refl;
  others = [];
  splits = refl;
  has_some = λ q. refl;
  counts = refl;
}
root_listed (suc zero) h = record {
  answer = listing root (inner ∷ []) 2;
  fetched = refl;
  others = [];
  splits = refl;
  has_some = λ q. refl;
  counts = refl;
}
root_listed (suc (suc zero)) h = record {
  answer = listing root [] 2;
  fetched = refl;
  others = [];
  splits = refl;
  has_some = λ q. refl;
  counts = refl;
}
root_listed (suc (suc (suc n))) h = absurd (omega (arith, h))

video-IsPlain : IsPlain (codes "a.mp4")
unfolding trim_space trim_left trim_right is_space keep_unless_blank
video-IsPlain = record {
  filled = refl;
  trimmed = refl;
  no_slash = (refl, (refl, (refl, (refl, (refl, tt)))));
  no_backslash = (refl, (refl, (refl, (refl, (refl, tt)))));
  no_placeholder = refl;
}

inner-IsPlain : IsPlain (codes "b.txt")
unfolding trim_space trim_left trim_right is_space keep_unless_blank
inner-IsPlain = record {
  filled = refl;
  trimmed = refl;
  no_slash = (refl, (refl, (refl, (refl, (refl, tt)))));
  no_backslash = (refl, (refl, (refl, (refl, (refl, tt)))));
  no_placeholder = refl;
}

video_entry : IsListed lower (codes "/r") video (listed_file video (codes "a.mp4") ∷ [])
unfolding names_system_file
video_entry = regular_file (codes "a.mp4") refl video-IsPlain refl refl

inner_entry : IsListed lower (codes "/r") inner_file (listed_file inner_file (codes "s/b.txt") ∷ [])
unfolding names_system_file
inner_entry = regular_file (codes "s/b.txt") refl inner-IsPlain refl refl

pub tree_served : Serves library new_client echo (codes "u") 3 (codes "/r") (folder root tree)
unfolding Serves
tree_served = (
  refl,
  (
    root_listed,
    (
      omega arith,
      ((refl, video_entry), ((refl, (inner_listed, (omega arith, ((refl, inner_entry), tt)))), tt)),
    ),
  ),
)

-- The bandwidth is found behind a comma, and not where it is the first attribute.
bandwidths :
    (parse_master_playlist library.sscan (codes "#EXT-X-STREAM-INF:X,BANDWIDTH=5\nu") (codes "b")
      ≡ some (codes "b/u"))
    × (parse_master_playlist library.sscan (codes "#EXT-X-STREAM-INF:BANDWIDTH=5,X\nu") (codes "b")
        ≡ none)
unfolding parse_master_playlist scan_lines master_entries split_on bandwidth_of trim_space trim_left
    trim_right is_space keep_unless_blank has_prefix resolve_url trim_prefix
bandwidths = (refl, refl)
