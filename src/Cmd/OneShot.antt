-- ===== src/Cmd/OneShot.antt =====
-- cmd/cmd/oneshot_model.go: the model of a command that runs once, as a state machine. An update
-- returns the new model and what it does, in order: calls of the cancel functions, answers to an
-- authentication request, and the commands for the runtime. Times and the look of the view are left
-- out; a wait on a channel that is closed or absent stands in the list like any other.
pub mod Rows
pub mod Finish
use tgdownloader.Prelude.{
  is_empty, ℕ, ◌+◌, ◌-◌, ◌^◌, Bool, true, false, ◌&&◌, ◌||◌, not, Option, none, some, List, [], ◌∷◌,
  ◌++◌, Text, ◌==◌, nat_eq, list_eq, ltb, codes, map, any, if◌then◌else◌,
}
use tgdownloader.Cmd.Output.{
  PromptState, starting, auth, ready, failed, stopping, is_state, CommandError, canceled,
  other_error, OutputBlock, output_text, output_table, output_progress, rows_unknown,
  remove_active_row_id, sanitize_text, sanitize_table, sanitize_event,
}
use tgdownloader.Prelude.Map
use tgdownloader.Prelude.Map.{Map}
use tgdownloader.Renderer.Sanitize.{sanitize_terminal_text, trim_space}
use tgdownloader.Renderer.Events.{
  Event, EventKind, line, progress_create, progress_update, progress_done, progress_fail, table,
  barrier, TableData, TableColumn,
}

pub data Action : Type 0 where
  quit wait_for_event wait_for_auth tick execute edit : Action
  startup_cancel command_cancel : Action
  respond : ℕ → Text → Action
  respond_canceled : ℕ → Action

-- The functions and channels that may be nil are present or not; an authentication request is its
-- number.
pub record OneShotModel : Type 0 where
  pub width : ℕ
  pub state : PromptState
  pub startup : Bool
  pub can_execute : Bool
  pub has_startup_cancel : Bool
  pub has_command_cancel : Bool
  pub auth_request : Option ℕ
  pub editor : Text
  pub output_blocks : List OutputBlock
  pub active_rows : Map Text Event
  pub active_row_order : List Text
  pub terminal_rows : Map Text Bool
  pub pending_done : Map Text (Option CommandError)
  pub barriers : Map Text Bool
  pub progress_frame : ℕ
  pub progress_ticking : Bool
  pub preparing : Bool
  pub running : Bool
  pub quitting : Bool
  pub startup_err : Option CommandError
  pub command_err : Option CommandError

-- `newOneShotModel`: which of the options are there.
unfoldable pub new_one_shot_model : Bool → Bool → Bool → OneShotModel
new_one_shot_model startup can_execute has_startup_cancel = record {
  width = 80;
  state = starting;
  startup = startup;
  can_execute = can_execute;
  has_startup_cancel = has_startup_cancel;
  has_command_cancel = false;
  auth_request = none;
  editor = [];
  output_blocks = [];
  active_rows = [];
  active_row_order = [];
  terminal_rows = [];
  pending_done = [];
  barriers = [];
  progress_frame = 0;
  progress_ticking = false;
  preparing = false;
  running = false;
  quitting = false;
  startup_err = none;
  command_err = none;
}

-- `other_key` and `other_message` carry what the text input, which is not the program's, makes of its
-- value with them.
pub data Key : Type 0 where
  ctrl_c ctrl_d enter keypad_enter : Key
  other_key : (Text → Text) → Key

pub data Message : Type 0 where
  window_size : ℕ → Message
  renderer_event : Event → Message
  renderer_events_closed : Message
  startup_done : Option CommandError → Message
  command_done : Text → Option CommandError → Message
  auth_code_request : Option ℕ → Message
  auth_requests_closed : Message
  progress_tick : Message
  context_done : Message
  key_press : Key → Message
  other_message : (Text → Text) → Message

abbrev pub Update : Type 0
Update = OneShotModel × List Action

unfoldable pub has_unknown_progress : OneShotModel → Bool
unfolding rows_unknown
has_unknown_progress m = m.preparing || rows_unknown m.active_rows

append_block : OneShotModel → OutputBlock → OneShotModel
append_block m b = record m { output_blocks = m.output_blocks ++ b ∷ [] }

append_text : OneShotModel → Text → OneShotModel
unfolding append_block
append_text m text = if is_empty text then m else append_block m (output_text text)

-- `EventProgressDone` and `EventProgressFail`.
unfoldable pub finish_row : OneShotModel → Event → OneShotModel
finish_row m e = if Map.has m.terminal_rows e.id then m else record m {
  active_rows = Map.delete m.active_rows e.id;
  active_row_order = remove_active_row_id m.active_row_order e.id;
  terminal_rows = Map.put m.terminal_rows e.id true;
  output_blocks = m.output_blocks ++ output_progress e ∷ [];
}

-- `EventProgressCreate` and `EventProgressUpdate`.
unfoldable pub show_row : OneShotModel → Event → OneShotModel
show_row m e = if Map.has m.terminal_rows e.id then m else record m {
  active_row_order =
      if Map.has m.active_rows e.id then m.active_row_order else m.active_row_order ++ e.id ∷ [];
  active_rows = Map.put m.active_rows e.id e;
}

module _ (is_graphic : ℕ → Bool) where
  -- The switch of `applyRendererEvent`, on an event that is sanitized.
  apply_event : OneShotModel → EventKind → Event → OneShotModel
  unfolding sanitize_table append_block append_text
  apply_event m line e = append_text m e.text
  apply_event m table e = elim e.table [
    | none ↦ m
    | some t ↦ append_block m (output_table (sanitize_table is_graphic t))
  ]
  apply_event m progress_done e = finish_row m e
  apply_event m progress_fail e = finish_row m e
  apply_event m progress_create e = show_row m e
  apply_event m progress_update e = show_row m e
  apply_event m barrier e = m

  unfoldable pub apply_renderer_event : OneShotModel → Event → OneShotModel
  unfolding apply_event sanitize_event
  apply_renderer_event m e =
      apply_event (record m { preparing = false }) e.kind (sanitize_event is_graphic e)

-- The cancel calls and the answer of `cancelWork`, where there is something to cancel.
abbrev pub when : Bool → Action → List Action
when b a = if b then a ∷ [] else []

abbrev answer_canceled : Option ℕ → List Action
answer_canceled none = []
answer_canceled (some r) = respond_canceled r ∷ []

unfoldable pub cancel_work : OneShotModel → Update
cancel_work m = (
  record m {
    quitting = true;
    state = stopping;
    auth_request = none;
    has_startup_cancel = false;
    has_command_cancel = false;
  },
  answer_canceled m.auth_request
      ++ (when m.has_startup_cancel startup_cancel
          ++ (when m.has_command_cancel command_cancel
              ++ when (not m.running && not m.startup) quit)),
)

begin_entry : OneShotModel → PromptState → Option ℕ → Update
begin_entry m s none = (m, [])
begin_entry m stopping (some r) = (m, [])
begin_entry m failed (some r) = (m, [])
begin_entry m s (some r) = (record m { state = auth; auth_request = some r; editor = [] }, [])

unfoldable pub begin_auth_code_entry : OneShotModel → Option ℕ → Update
unfolding begin_entry
begin_auth_code_entry m request = begin_entry m m.state request

submit_code : OneShotModel → Update
submit_code m = (
  record m { auth_request = none; state = starting; editor = [] },
  (elim m.auth_request [ none ↦ [] | some r ↦ respond r (trim_space m.editor) ∷ [] ])
      ++ wait_for_auth ∷ [],
)

-- `edit` stands for the command that the text input returns beside its value.
unfoldable pub edit_value : OneShotModel → (Text → Text) → Update
edit_value m input = (record m { editor = input m.editor }, edit ∷ [])

unfoldable pub update_key : OneShotModel → Key → Update
unfolding submit_code edit_value
update_key m ctrl_c = if is_state m.state failed then (m, quit ∷ []) else cancel_work m
update_key m ctrl_d = if is_state m.state failed then (m, quit ∷ []) else cancel_work m
update_key m enter = if is_state m.state auth then submit_code m else (m, [])
update_key m keypad_enter = if is_state m.state auth then submit_code m else (m, [])
update_key m (other_key input) = if is_state m.state auth then edit_value m input else (m, [])

-- `RenderErrorConcise` is not modelled: what it prints for an error is a parameter.
module _ (is_graphic : ℕ → Bool) (render_error : CommandError → Text) where
  append_error : OneShotModel → CommandError → OneShotModel
  unfolding append_text sanitize_text
  append_error m e = append_text m (sanitize_text is_graphic (render_error e))

  started : OneShotModel → Update
  started m =
      if m.can_execute
      then (
        record m {
          state = ready;
          has_command_cancel = true;
          running = true;
          preparing = true;
          progress_ticking = true;
        },
        execute ∷ tick ∷ [],
      )
      else (record m { state = ready }, quit ∷ [])

  startup_result : OneShotModel → Option CommandError → Update
  unfolding started append_error
  startup_result m none = started m
  startup_result m (some e) = (append_error (record m { state = failed }) e, [])

  unfoldable pub finish_startup : OneShotModel → Option CommandError → Update
  unfolding startup_result
  finish_startup m error =
      let m' = record m { startup = false; startup_err = error } in
      if m.quitting || is_state m.state stopping then (m', quit ∷ []) else startup_result m' error

  show_error : OneShotModel → Option CommandError → OneShotModel
  unfolding append_error append_block
  show_error m none = m
  show_error m (some canceled) = append_block m (output_text (codes "Interrupted"))
  show_error m (some (other_error t)) = append_error m (other_error t)

  finished : OneShotModel → Text → Option CommandError → Update
  unfolding show_error
  finished m run_id error = (
    show_error
        (record m {
          pending_done = Map.delete m.pending_done run_id;
          barriers = Map.delete m.barriers run_id;
          running = false;
          preparing = false;
          command_err = error;
          has_command_cancel = false;
        })
        error,
    when m.has_command_cancel command_cancel ++ quit ∷ [],
  )

  finalize : OneShotModel → Text → Option (Option CommandError) → Bool → Update
  unfolding finished
  finalize m run_id (some error) true = finished m run_id error
  finalize m run_id _ _ = (m, [])

  -- A command is over when its result and its barrier are both there.
  unfoldable pub finalize_command : OneShotModel → Text → Update
  unfolding finalize
  finalize_command m run_id =
      finalize m run_id (Map.get m.pending_done run_id) (Map.has m.barriers run_id)

  render_step : OneShotModel → Event → Update
  render_step m e =
      let m' = apply_renderer_event is_graphic m e in
      if not m'.progress_ticking && has_unknown_progress m'
      then (record m' { progress_ticking = true }, wait_for_event ∷ tick ∷ [])
      else (m', wait_for_event ∷ [])

  abbrev is_barrier : EventKind → Bool
  is_barrier barrier = true
  is_barrier _ = false

  unfoldable pub update : OneShotModel → Message → Update
  unfolding render_step edit_value
  update m (window_size w) = (record m { width = if ltb w 1 then 1 else w }, [])
  update m (renderer_event e) =
      if is_barrier e.kind
      then finalize_command (record m { barriers = Map.put m.barriers e.id true }) e.id
      else render_step m e
  update m renderer_events_closed = (m, [])
  update m (startup_done error) = finish_startup m error
  update m (command_done run_id error) =
      finalize_command (record m { pending_done = Map.put m.pending_done run_id error }) run_id
  update m (auth_code_request request) = begin_auth_code_entry m request
  update m auth_requests_closed = (m, [])
  update m progress_tick =
      let m' = record m { progress_frame = m.progress_frame + 1 } in
      if has_unknown_progress m'
      then (m', tick ∷ [])
      else (record m' { progress_ticking = false }, [])
  update m context_done = cancel_work m
  update m (key_press k) = update_key m k
  update m (other_message input) = if is_state m.state auth then edit_value m input else (m, [])
