-- ===== src/Lib.antt =====
-- tgdownloader: a command line program that lists dialogs of Telegram and downloads files from them,
-- to a local disk or to Dropbox, with an interactive prompt and commands that run once.
--
-- A command produces `File`s; the downloader's queue reserves for each the paths it is written to,
-- and its workers download it or resume a partial file. Commands report by events, which the models
-- of the terminal (a prompt, or one command) turn into output blocks and progress rows.
--
-- The files and the code they model:
--   * Downloader/Manifest.antt, Downloader/Reserve.antt: internal/downloader/manifest.go and the queue
--     of internal/downloader/downloader.go. `Queue` holds the fields `outputDir`, `dryRun`,
--     `pathClaims`, `manifest`, `manifestDirty`; `reserve_output_paths` is `reserveOutputPaths` and
--     `reserve_all` the loop of `AddDownloadQueue` over the files that it receives.
--   * Downloader/Transfer.antt: `downloadFile`, the job of `worker` and internal/downloader/file.go.
--     The disk is the bytes of each file by path; every answer of the file system, the service and
--     the context is a field of `Env`.
--   * Downloader/Resume.antt: `resumeExistingPartialFile` and, from pkg/telegram/file.go,
--     `DownloadFromOffset`. The answers of each attempt are a record; the rules by which Telegram
--     serves a part of a file are written in Downloader/Resume/Fetch.antt.
--   * Downloader/FilePath.antt: what is used of Go's `path` and `strings`, with examples.
--   * Renderer/Sanitize.antt: internal/renderer/sanitize.go. Text is a list of runes;
--     `unicode.IsGraphic` is a parameter.
--   * Renderer/Events.antt: the data of internal/renderer/events.go and table.go, and `EventWriter`.
--   * Renderer/Progress.antt: internal/renderer/tui_progress.go. The trackers are stored by number, and
--     a call of one of them or of the progress is a step.
--   * Renderer/Bar.antt, Renderer/Format.antt: internal/renderer/progress_format.go; widths, clusters, styles and floating
--     point numbers are fields of `Terminal`.
--   * Renderer/Table.antt: the layout of the columns in internal/renderer/table.go.
--   * Cmd/Prompt.antt: the layout, the completions and the history walk of cmd/cmd/prompt_model.go.
--   * Cmd/Completion.antt: the tokens of cmd/cmd/prompt_completion.go and, of `completePrompt`, the
--     range that a completion replaces and the arguments before it.
--   * Cmd/Session.antt: the state of `promptModel` in cmd/cmd/prompt_model.go. Its children
--     Session/Show, Session/Command, Session/Edit, Session/Startup, Session/Keys and Session/Update
--     are `Update` and all that it calls; an update returns the new session and its effects in order.
--     The text input, `complete`, the splitter of a line and the texts of errors are fields of
--     `Surroundings`.
--   * Cmd/Output.antt: the output blocks, rows and states that the two models of cmd/cmd share.
--   * Cmd/OneShot.antt: cmd/cmd/oneshot_model.go, `Update` and all that it calls. An update returns the
--     new model and its commands as a list of actions.
--   * Cmd/History.antt: cmd/cmd/prompt_history.go. Writes of the file take their outcome as an
--     argument; `bufio.Scanner` and `strings.ToLower` are parameters.
--   * Telegram/Store.antt: pkg/telegram/dialog_cache_store.go, with bbolt's buckets and gotd's keys,
--     peers and peer storage as records of operations and laws. Telegram/Cache.antt is `dialogCache`
--     above it, and Telegram/Peers.antt the names, filters and `GetDialogPeers` of
--     pkg/telegram/cache.go.
--   * Telegram/Updates.antt: the handlers of pkg/telegram/dialog_updates.go as steps on the cache.
--   * Telegram/AccessHash.antt: pkg/telegram/update_storage.go.
--   * Dropbox/Listing.antt: `Readdir` and `_readDir` of pkg/dropbox/file.go.
--   * Apperr.antt: pkg/apperr/apperr.go. An error is its text and the kind that is found in it.
--   * Yadisk/Names.antt: pkg/yadisk/utils.go and the file names of pkg/yadisk/client.go.
--     Yadisk/Media.antt is the metadata of a resource and what is chosen from it, Yadisk/Http.antt the
--     requests (a `Service` answers a `Request` by an `Exchange`; a `Library` is what is called of
--     Go's library), Yadisk/Resolve.antt the chains that look for a URL, Yadisk/Directory.antt the
--     walk through a shared directory, Yadisk/Open.antt the opening of a file or of a range,
--     Yadisk/Playlist.antt and Yadisk/Streams.antt the HLS streams of a video.
--   * Yadisk/Direct.antt, Yadisk/Download.antt: pkg/yadisk/downloader.go; `DownloadAnswers` is what one download meets.
--   * Cmd/Yandex.antt: cmd/cmd/download_yadisk.go, from a link to the summary.
-- The children of each module hold its theorems, and the Tests modules apply them to concrete inputs.
-- Prelude holds lists, maps, orders and sorting, and Boolean tests over the native numbers.
--
-- Fuel: `claim_loop` gets one round more than there are claims, and different suffixes give different
-- candidates; `emit_lines` gets one round more than there are runes, and each round takes a newline;
-- `readdir_loop` takes its fuel as an argument, and one round for each page and one more is enough;
-- `fetch_loop` takes its fuel as an argument, and one round for each missing byte and one more is
-- enough where the server answers; `list_from` and `collect_directory_files` take theirs as
-- arguments, one round more than there are entries and one level more than the tree has; the 256
-- rounds of `resume_parts` are the source's; the loops of a table's layout get as many rounds as there
-- are columns to leave out or cells to take away. The retry loops count down the rounds of `retryCount`.
--
-- Integers: an `int64` that only grows from 0 by sizes of data is a natural number; a value whose sign
-- is tested (`Total`) or whose bytes are stored (an access hash) is a bit pattern below 2^64.
--
-- Not modelled: the Telegram client and its services, Dropbox's streams, the
-- configuration, the wiring of commands, goroutines and locks (each method that takes a mutex is one
-- step), the text of log lines and error messages, styles and the lines of tables.
mod Prelude
pub mod Renderer
pub mod Cmd
pub mod Downloader
pub mod Telegram
pub mod Dropbox
pub mod Apperr
pub mod Yadisk
