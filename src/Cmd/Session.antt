-- ===== src/Cmd/Session.antt =====
-- cmd/cmd/prompt_model.go: the interactive prompt as a state machine. A session is the model: the
-- part that Prompt describes and the state of startup, authentication, the running command and the
-- output. An update returns the new session and its effects in order. The viewport, the widths and
-- the transcript's text (which the output blocks repeat) are left out. What the text input does with a
-- key, the completions, the splitter of a line and the text of an error are parameters. The session
-- has the text input's focus and whether it masks its text.
pub mod Show
pub mod Command
pub mod Edit
pub mod Startup
pub mod Keys
pub mod Update
pub mod Rows
pub mod Runs
pub mod Finish
use tgdownloader.Prelude.{
  is_empty, ℕ, ◌+◌, Bool, true, false, ◌&&◌, ◌||◌, not, Option, none, some, List, [], ◌∷◌, ◌++◌,
  Text, ◌==◌, nat_eq, list_eq, ltb, codes, length, if◌then◌else◌,
}
use Prim.Native.Nat.{max}
use tgdownloader.Prelude.Map
use tgdownloader.Prelude.Map.{Map}
use tgdownloader.Renderer.Sanitize.{trim_space}
use tgdownloader.Renderer.Events.{
  Event, EventKind, line, progress_create, progress_update, progress_done, progress_fail, table,
  barrier, TableData,
}
use tgdownloader.Cmd.Prompt.{
  PromptModel, PromptCandidate, clear_completions, accept_completion, page_completions,
  select_previous, select_next, history_previous, history_next, remember,
}
use tgdownloader.Cmd.Output.{
  PromptState, starting, auth, ready, failed, stopping, is_state, CommandError, canceled,
  other_error, OutputBlock, output_text, output_table, output_progress, rows_unknown,
  remove_active_row_id, sanitize_text, sanitize_table, sanitize_event,
}

-- `promptCommandDoneMsg` without its run id.
pub record CommandDone : Type 0 where
  pub line : Text
  pub error : Option CommandError
  pub history_stored : Bool
  pub history_ok : Bool

pub record CompletionResult : Type 0 where
  pub start : ℕ
  pub end : ℕ
  pub quoted : Bool
  pub quote_closed : Bool
  pub candidates : List PromptCandidate
  pub error : Option Text

pub record PromptSession : Type 0 where
  pub prompt : PromptModel
  pub state : PromptState
  pub connected : Bool
  pub startup : Bool
  pub has_startup_cancel : Bool
  pub auth_request : Option ℕ
  pub running : Bool
  pub quitting : Bool
  pub has_cancel : Bool
  pub has_complete : Bool
  pub has_submit : Bool
  pub output_blocks : List OutputBlock
  pub active_rows : Map Text Event
  pub active_row_order : List Text
  pub terminal_rows : Map Text Bool
  pub pending_done : Map Text CommandDone
  pub barriers : Map Text Bool
  pub completed_runs : Map Text Bool
  pub progress_frame : ℕ
  pub progress_ticking : Bool
  pub startup_err : Option CommandError
  pub focused : Bool
  pub masked : Bool

pub data Effect : Type 0 where
  quit wait_for_event wait_for_auth tick scroll edit : Effect
  startup_cancel command_cancel : Effect
  run_command : Text → Effect
  respond : ℕ → Text → Effect
  respond_canceled : ℕ → Effect

pub data SessionKey : Type 0 where
  scroll_up scroll_down page_up page_down ctrl_c ctrl_d escape tab up down enter keypad_enter :
      SessionKey
  other_key : ℕ → SessionKey

-- What the text input is given: a key or another message.
pub data EditorInput : Type 0 where
  key_input : SessionKey → EditorInput
  other_input : ℕ → EditorInput

pub data SessionMessage : Type 0 where
  window_size : ℕ → SessionMessage
  renderer_event : Event → SessionMessage
  renderer_events_closed context_done progress_tick auth_requests_closed mouse_wheel :
      SessionMessage
  command_done : Text → CommandDone → SessionMessage
  startup_done : Option CommandError → List Text → ℕ → SessionMessage
  auth_code_request : Option ℕ → SessionMessage
  key_press : SessionKey → SessionMessage
  other_message : ℕ → SessionMessage

-- What the model calls: `unicode.IsGraphic`, `RenderErrorConcise`, the text input on a key or message
-- (from its focus, text and cursor), `complete`, and the splitter of a line into arguments.
pub record Surroundings : Type 0 where
  pub is_graphic : ℕ → Bool
  pub render_error : CommandError → Text
  pub edit_text : Bool → EditorInput → Text × ℕ → Text × ℕ
  pub complete : Text → ℕ → CompletionResult
  pub split_prompt_line : Text → Option (List Text)

abbrev pub Updated : Type 0
Updated = PromptSession × List Effect

abbrev pub with_prompt : PromptSession → PromptModel → PromptSession
with_prompt m p = record m { prompt = p }

abbrev pub add_block : PromptSession → OutputBlock → PromptSession
add_block m b = record m { output_blocks = m.output_blocks ++ b ∷ [] }

abbrev pub add_text : PromptSession → Text → PromptSession
add_text m t = if is_empty t then m else add_block m (output_text t)

abbrev pub set_value : PromptModel → Text → PromptModel
set_value p v = record p { editor_value = v; editor_cursor = length v }

abbrev pub has_completions : PromptSession → Bool
has_completions m = ltb 0 (length m.prompt.completions)

-- `newPromptModel`.
unfoldable pub new_prompt_session : Bool → Bool → Bool → Bool → Bool → List Text → ℕ → PromptSession
new_prompt_session connected has_complete has_submit startup has_startup_cancel history limit =
    record {
      prompt = record {
        editor_value = [];
        editor_cursor = 0;
        height = 24;
        selected = 0;
        completion_offset = 0;
        completions = [];
        completion_start = 0;
        completion_end = 0;
        completion_quoted = false;
        completion_quote_closed = false;
        completion_status = [];
        history = history;
        history_index = length history;
        history_limit = limit;
      };
      state = if startup then starting else ready;
      connected = if startup then false else connected;
      startup = startup;
      has_startup_cancel = has_startup_cancel;
      auth_request = none;
      running = false;
      quitting = false;
      has_cancel = false;
      has_complete = has_complete;
      has_submit = has_submit;
      output_blocks = [];
      active_rows = [];
      active_row_order = [];
      terminal_rows = [];
      pending_done = [];
      barriers = [];
      completed_runs = [];
      progress_frame = 0;
      progress_ticking = false;
      startup_err = none;
      focused = not startup;
      masked = false;
    }
