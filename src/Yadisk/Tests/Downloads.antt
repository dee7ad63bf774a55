-- ===== src/Yadisk/Tests/Downloads.antt =====
-- The downloads of pkg/yadisk and cmd/cmd/download_yadisk.go at a file of three bytes, of which the
-- first answer holds two.
use tgdownloader.Prelude.{
  ℕ, zero, suc, ◌<◌, ◌≡◌, refl, false, Option, none, some, [], ◌∷◌, Text, codes, pos, inl, arith,
  nat_eq, list_eq, drop,
}
use tgdownloader.Prelude.Map
use tgdownloader.Renderer.Sanitize.{trim_space, trim_left, trim_right, is_space, keep_unless_blank}
use tgdownloader.Downloader.Resume.{Disk}
use tgdownloader.Yadisk.Media.{resolve_download_size}
use tgdownloader.Yadisk.Http.{Service, Response, answered, new_client}
use tgdownloader.Yadisk.Resolve.{PublicDownload}
use tgdownloader.Yadisk.Open.{open_direct_file_at, opened_file, filename_from_response}
use tgdownloader.Yadisk.Direct.{Direct, resume_download}
use tgdownloader.Yadisk.Download.{Hls, DownloadAnswers, download_file}
use tgdownloader.Yadisk.Direct.Ends.{Answers, resume_download-ends}
use tgdownloader.Yadisk.Tests.{library, echo, answer}

abbrev abc : Text
abc = codes "abc"

-- Two bytes at first, and what is missing for a range.
abbrev serve_range : Option ℕ → Response
serve_range none = record (answer 200 (codes "ab")) { content_length = pos 3 }
serve_range (some o) = answer 206 (drop o abc)

abbrev server : Service
server request = answered (serve_range request.range)

abbrev file : PublicDownload
file = record {
  name = codes "a.mp4";
  size = pos 3;
  direct_url = codes "u";
  path = codes "/r/a.mp4";
  relative_dir = [];
}

abbrev direct : Direct
direct = record {
  open_service = server;
  part_service = λ part. server;
  create_fails = false;
  first_writer = none;
  writer = λ part. none;
  truncate_fails = λ part. false;
  seek_fails = λ part. false;
  close_fails = false;
}

abbrev hls : Hls
hls = record {
  streams_service = echo;
  create_fails = false;
  stream_service = echo;
  stat_fails = false;
}

abbrev env : DownloadAnswers
env = record {
  resource_service = echo;
  chain_service = echo;
  refreshed_resource_service = echo;
  refreshed_chain_service = echo;
  first = direct;
  second = direct;
  hls = hls;
}

abbrev disk : Disk
disk = (codes "old", codes "x") ∷ []

-- The download runs: two bytes, and the third with a range.
download_runs :
    (download_file library new_client env
      (codes "u")
      file
      (codes "out")
      (record { allow_rewrite = false; dry_run = false })
      false
      disk).0
    ≡ (codes "old", codes "x") ∷ (codes "out", abc) ∷ []
unfolding download_file Map.get Map.put trim_space trim_left trim_right is_space keep_unless_blank
    open_direct_file_at filename_from_response resolve_download_size
download_runs = refl

answers : (part written : ℕ) → written < 3 → Answers direct file 3 1 part written
unfolding open_direct_file_at trim_space trim_left trim_right is_space keep_unless_blank
answers part zero h = record {
  f = opened_file file 0 (serve_range none);
  opened = refl;
  in_range = refl;
  reads = refl;
  closes = refl;
  has_some = omega arith;
  enough = inl (omega arith);
}
answers part (suc zero) h = record {
  f = opened_file file 1 (serve_range (some 1));
  opened = refl;
  in_range = refl;
  reads = refl;
  closes = refl;
  has_some = omega arith;
  enough = inl (omega arith);
}
answers part (suc (suc zero)) h = record {
  f = opened_file file 2 (serve_range (some 2));
  opened = refl;
  in_range = refl;
  reads = refl;
  closes = refl;
  has_some = omega arith;
  enough = inl (omega arith);
}
answers part (suc (suc (suc n))) h = absurd (omega (arith, h))

resume_download-ends_example : (resume_download direct file 3 (codes "ab") 2).error ≡ none
resume_download-ends_example =
    resume_download-ends direct file 3 1 answers (λ part. refl) (codes "ab") 2 (omega arith)
      (omega arith)
