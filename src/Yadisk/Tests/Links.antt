-- ===== src/Yadisk/Tests/Links.antt =====
-- The counts of cmd/cmd/download_yadisk.go at a link to the tree of two files.
use tgdownloader.Prelude.{
  ◌≡◌, refl, true, false, none, List, [], ◌∷◌, codes, arith, nat_eq, list_eq,
}
use tgdownloader.Renderer.Sanitize.{trim_space, trim_left, trim_right, is_space, keep_unless_blank}
use tgdownloader.Downloader.FilePath.{has_prefix, segments, clean, join_segments, trim_prefix}
use tgdownloader.Cmd.History.Sensitive.{contains}
use tgdownloader.Yadisk.Names.{
  to_lower, sanitize_filename, replace_all, is_skippable_yandex_file_name, base, dir,
}
use tgdownloader.Yadisk.Http.{ok, new_client, get_public_resource, ok_answer}
use tgdownloader.Yadisk.Resolve.{PublicDownload}
use tgdownloader.Yadisk.Directory.{
  ResolvedPublicResource, resolve_public_resource_downloads, dir_type,
}
use tgdownloader.Yadisk.Directory.Tree.{
  nodes_files, node_files, node_depth, collect_directory_files-Serves,
}
use tgdownloader.Yadisk.Direct.{Direct}
use tgdownloader.Yadisk.Download.{DownloadAnswers}
use tgdownloader.Yadisk.Tests.{library, echo, tree, tree_served, root}
use tgdownloader.Cmd.Yandex.{
  DownloadOptions, ExternalLink, LinkAnswers, link_came, context_done, filtered_files,
  download_single_yandex_disk_link, download_yandex_disk_links, no_downloads,
}
use tgdownloader.Cmd.Yandex.Counts.{
  IsCounted, download_single_yandex_disk_link-IsCounted, Sums, link_runs,
  download_yandex_disk_links-Sums,
}

abbrev direct : Direct
direct = record {
  open_service = echo;
  part_service = λ part. echo;
  create_fails = false;
  first_writer = none;
  writer = λ part. none;
  truncate_fails = λ part. false;
  seek_fails = λ part. false;
  close_fails = false;
}

abbrev env : DownloadAnswers
env = record {
  resource_service = echo;
  chain_service = echo;
  refreshed_resource_service = echo;
  refreshed_chain_service = echo;
  first = direct;
  second = direct;
  hls = record {
    streams_service = echo;
    create_fails = false;
    stream_service = echo;
    stat_fails = false;
  };
}

abbrev answers : LinkAnswers
answers = record {
  service = echo;
  mkdir_fails = false;
  file = λ i. record {
    mkdir_fails = false;
    stat_fails = false;
    downloader_stat_fails = false;
    surroundings = env;
  };
}

abbrev options : DownloadOptions
options = record { rewrite = false; dry_run = false; hashtags = false }

abbrev link : ExternalLink
link = record { url = codes "u"; peername = none; hashtags = none }

abbrev files : List PublicDownload
files =
    record {
      name = codes "a.mp4";
      size = root.size;
      direct_url = [];
      path = codes "/r/a.mp4";
      relative_dir = [];
    }
    ∷ record {
      name = codes "b.txt";
      size = root.size;
      direct_url = [];
      path = codes "/r/s/b.txt";
      relative_dir = codes "s";
    }
    ∷ []

abbrev resolved : ResolvedPublicResource
resolved = record { name = codes "r"; resource_type = dir_type; files = files }

tree_files : nodes_files tree ≡ files
unfolding node_files is_skippable_yandex_file_name to_lower trim_space trim_left trim_right is_space
    keep_unless_blank sanitize_filename replace_all base dir segments clean join_segments
    trim_prefix has_prefix
tree_files = refl

link_resolves :
    resolve_public_resource_downloads library new_client echo 3 3 (codes "u") ≡ ok resolved
unfolding resolve_public_resource_downloads get_public_resource ok_answer contains has_prefix
    node_depth sanitize_filename trim_space trim_left trim_right is_space keep_unless_blank
    replace_all
link_resolves =
    let collected =
      collect_directory_files-Serves library new_client echo (codes "u") 3 3 root tree (omega arith)
        tree_served in
    rw (collected, tree_files) refl

none_skipped : filtered_files library.lower files ≡ files
unfolding filtered_files is_skippable_yandex_file_name to_lower trim_space trim_left trim_right
    is_space keep_unless_blank replace_all base segments
none_skipped = refl

download_single_yandex_disk_link-IsCounted_example :
    IsCounted 2 (
      download_single_yandex_disk_link library new_client options link 3 3 answers (codes "out") [])
download_single_yandex_disk_link-IsCounted_example =
    download_single_yandex_disk_link-IsCounted library new_client options link 3 3 answers
      (codes "out") [] resolved _ _ link_resolves none_skipped

download_yandex_disk_links-Sums_example :
    Sums library new_client options 3 3
      (codes "out")
      no_downloads
      none
      (link_runs library new_client options 3 3
        (codes "out")
        []
        (link_came link answers ∷ context_done ∷ []))
      true
      (download_yandex_disk_links library new_client options 3 3
        (codes "out")
        []
        no_downloads
        none
        (link_came link answers ∷ context_done ∷ []))
download_yandex_disk_links-Sums_example =
    download_yandex_disk_links-Sums library new_client options 3 3 (codes "out") []
      (link_came link answers ∷ context_done ∷ [])
