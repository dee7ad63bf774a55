-- ===== src/Cmd/Tests.antt =====
-- The theorems about cmd/cmd at concrete inputs.
mod Session
use Prim.Native.Nat.{max}
use tgdownloader.Prelude.{
  list_eq, nat_eq, ℕ, ◌≡◌, ◌≤◌, ◌-◌, refl, Bool, true, false, Option, none, some, List, [], ◌∷◌,
  ◌++◌, Text, codes, arith, length, take, drop, inr,
}
use tgdownloader.Prelude.Map
use tgdownloader.Renderer.Sanitize.{trim_space, trim_left, trim_right, is_space, keep_unless_blank}
use tgdownloader.Renderer.Events.{Event, EventKind, barrier, progress_create, count}
use tgdownloader.Downloader.FilePath.{has_prefix}
use tgdownloader.Cmd.Prompt.{
  PromptModel, PromptCandidate, prompt_layout_for_height, max_prompt_visible_completions,
  visible_completion_count, page_completions, select_previous, select_next, accept_completion,
  history_previous, history_next, remember,
}
use tgdownloader.Cmd.Prompt.Layout.{layout_fills_height, rendered_rows, row_if}
use tgdownloader.Cmd.Prompt.Completion.{
  IsShown, page_completions-IsShown, select_previous-select_next, accept_completion_lem, start_of,
  end_of, inserted, remember_lem,
}
use tgdownloader.Cmd.Output.{CommandError, ready, stopping}
use tgdownloader.Cmd.OneShot.{
  OneShotModel, new_one_shot_model, quit, command_cancel, renderer_event, startup_done,
  command_done, context_done, update,
}
use tgdownloader.Cmd.OneShot.Rows.{RowsAgree, update-RowsAgree, new_one_shot_model-RowsAgree}
use tgdownloader.Cmd.OneShot.Finish.{update-either_order, cancel_work-stops}
use tgdownloader.Cmd.History.{
  HistoryStore, Outcomes, append_done, rewrite_done, record_entry, unchanged,
  new_prompt_history_store, file_lines, file_line, last_or_empty,
}
use tgdownloader.Cmd.History.Sensitive.{
  should_skip_prompt_history_entry, is_sensitive_prompt_token, contains, trim_left_dashes,
  cut_equals,
}
use tgdownloader.Cmd.History.File.{IsSaved, record_entry-IsSaved, new_prompt_history_store-IsSaved}
use tgdownloader.Cmd.History.Secrets.{record_entry-sensitive}

abbrev candidate : PromptCandidate
candidate = record { value = codes "download"; display = []; description = [] }

abbrev no_error : CommandError → Text
no_error e = codes "error"

abbrev ascii : ℕ → Bool
ascii r = true

-- Before the startup, and with the command running.
abbrev new_model : OneShotModel
new_model = new_one_shot_model true true true

abbrev model : OneShotModel
model = record new_model {
  state = ready;
  startup = false;
  has_command_cancel = true;
  running = true;
  preparing = true;
}

abbrev event : EventKind → Event
event k = record {
  kind = k;
  id = codes "run";
  text = [];
  label = [];
  current = 0;
  total = 0;
  unit = count;
  elapsed = 0;
  table = none;
}

update-RowsAgree_example :
    RowsAgree (update ascii no_error new_model (renderer_event (event progress_create))).0
update-RowsAgree_example =
    update-RowsAgree ascii no_error new_model (renderer_event (event progress_create))
      (new_one_shot_model-RowsAgree true true true)

update-either_order_example :
    (update ascii no_error model (command_done (codes "run") none)
      ≡ (record model { pending_done = Map.put model.pending_done (codes "run") none }, []))
    × (update ascii no_error model (renderer_event (event barrier))
        ≡ (record model { barriers = Map.put model.barriers (codes "run") true }, []))
    × (update ascii no_error
          (update ascii no_error model (command_done (codes "run") none)).0
          (renderer_event (event barrier))
        ≡ update ascii no_error
            (update ascii no_error model (renderer_event (event barrier))).0
            (command_done (codes "run") none))
    × ((update ascii no_error
          (update ascii no_error model (command_done (codes "run") none)).0
          (renderer_event (event barrier))).0.running
        ≡ false)
    × ((update ascii no_error
          (update ascii no_error model (command_done (codes "run") none)).0
          (renderer_event (event barrier))).1
        ≡ command_cancel ∷ quit ∷ [])
unfolding Map.get new_one_shot_model
update-either_order_example =
    update-either_order ascii no_error model (event barrier) none refl refl refl

abbrev prompt : PromptModel
prompt = record {
  height = 24;
  completions = candidate ∷ record candidate { value = codes "dialogs" } ∷ [];
  selected = 1;
  completion_offset = 0;
  completion_start = 0;
  completion_end = 1;
  completion_quoted = false;
  completion_quote_closed = false;
  completion_status = [];
  editor_value = codes "d --x";
  editor_cursor = 1;
  history = codes "help" ∷ codes "peers" ∷ [];
  history_index = 1;
  history_limit = 2;
}

abbrev store : HistoryStore
store = record {
  path = codes "h";
  max_entries = 2;
  entries = codes "peers" ∷ codes "help" ∷ [];
  last_entry = codes "help";
}

abbrev file : Option Text
file = some (codes "peers" ++ (10 ∷ codes "help" ++ 10 ∷ []))

abbrev outcomes : Outcomes
outcomes = record { appending = append_done; rewriting = rewrite_done }

store-IsSaved : IsSaved store file
unfolding trim_space trim_left trim_right is_space keep_unless_blank file_lines file_line
    last_or_empty
store-IsSaved = record {
  positive = omega arith;
  bounded = omega arith;
  are_entries = (
    record { trimmed = refl; filled = refl; one_line = refl; short = omega arith },
    (record { trimmed = refl; filled = refl; one_line = refl; short = omega arith }, tt),
  );
  last = refl;
  stored = refl;
  has_path = refl;
}

abbrev keep_all : Text → List Text → Bool
keep_all entry args = false

record_entry-IsSaved_example :
    IsSaved
      (record_entry keep_all store outcomes file (codes " user 1 ") []).store
      (record_entry keep_all store outcomes file (codes " user 1 ") []).file
unfolding trim_space trim_left trim_right is_space keep_unless_blank
record_entry-IsSaved_example =
    record_entry-IsSaved keep_all store outcomes file (codes " user 1 ") [] refl refl refl
      (omega arith) store-IsSaved

-- A scanner that knows this file alone.
abbrev scan_file : Text → Option (List Text)
scan_file text = some store.entries

new_prompt_history_store-IsSaved_example :
    new_prompt_history_store scan_file none (codes "h") 2 rewrite_done file ≡ (file, inr store)
new_prompt_history_store-IsSaved_example =
    new_prompt_history_store-IsSaved scan_file none store rewrite_done file refl store-IsSaved

abbrev same_case : Text → Text
same_case text = text

abbrev secret_arg : Text
secret_arg = codes "--token"

record_entry-sensitive_example :
    record_entry
      (should_skip_prompt_history_entry same_case)
      store
      outcomes
      file
      (codes "login --token x")
      (codes "login" ∷ secret_arg ∷ codes "x" ∷ [])
    ≡ unchanged store file
unfolding is_sensitive_prompt_token contains trim_left_dashes cut_equals has_prefix trim_space
    trim_left trim_right is_space keep_unless_blank
record_entry-sensitive_example =
    record_entry-sensitive same_case store outcomes file (codes "login --token x")
      (codes "login" ∷ []) (codes "x" ∷ []) secret_arg refl refl refl
