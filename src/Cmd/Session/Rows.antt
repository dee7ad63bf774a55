-- ===== src/Cmd/Session/Rows.antt =====
-- The progress rows of a session: the rows on display, their order, and the rows that are over.
use tgdownloader.Prelude.{
  List, refl, ℕ, ◌≡◌, Bool, true, false, Option, none, some, List, Text, nat_eq, list_eq, arith,
}
use tgdownloader.Prelude.Map
use tgdownloader.Renderer.Events.{Event, EventKind, TableData}
use tgdownloader.Cmd.Output.{CommandError, sanitize_event}
use tgdownloader.Cmd.Output.Agree.{Agree, occurrences, Agree-finish, Agree-show}
use tgdownloader.Cmd.Session.{
  PromptSession, new_prompt_session, Surroundings, key_input, SessionKey, EditorInput, other_input,
  SessionMessage, CommandDone, window_size, renderer_event, renderer_events_closed, context_done,
  progress_tick, auth_requests_closed, mouse_wheel, command_done, startup_done, auth_code_request,
  key_press, other_message,
}
use tgdownloader.Cmd.Session.Show.{
  finish_progress, show_progress, progress_event, row_event, table_event, render_event,
  label_or_text,
}
use tgdownloader.Cmd.Session.Command.{
  add_error, show_command_error, finish_command, finalized, finalize_run, submitted, submit_line,
}
use tgdownloader.Cmd.Session.Edit.{update_editor, refresh_completions}
use tgdownloader.Cmd.Session.Startup.{
  begin_code_entry, cancel_startup, code_entered, update_startup_key, started_session,
  finish_session_startup,
}
use tgdownloader.Cmd.Session.Keys.{
  ready_key, running_key, page_key, command_key, update_ready_key, update_session_key,
}
use tgdownloader.Cmd.Session.Update.{
  render_and_tick, barrier_reached, command_finished, context_ended, progress_ticked,
  update_session,
}

pub SessionRowsAgree : PromptSession → Type 0
unfolding Agree
SessionRowsAgree m = Agree m.active_rows m.active_row_order m.terminal_rows

-- A new prompt has no rows.
pub new_prompt_session-SessionRowsAgree :
    (connected has_complete has_submit startup has_startup_cancel : Bool) (history : List Text)
    (limit : ℕ)
    → SessionRowsAgree (
        new_prompt_session connected has_complete has_submit startup has_startup_cancel history
          limit)
unfolding SessionRowsAgree Agree occurrences new_prompt_session Map.get
new_prompt_session-SessionRowsAgree connected has_complete has_submit startup has_startup_cancel
      history limit id =
    (refl, refl)

-- What a step keeps, where it does not touch the rows.
record SameRows (m n : PromptSession) : Type 0 where
  active : n.active_rows ≡ m.active_rows
  order : n.active_row_order ≡ m.active_row_order
  over : n.terminal_rows ≡ m.terminal_rows

SameRows-SessionRowsAgree :
    (m n : PromptSession) → SameRows m n → SessionRowsAgree m → SessionRowsAgree n
unfolding SessionRowsAgree Agree
SameRows-SessionRowsAgree m n s h id = rw (s.active, s.order, s.over) (h id)

progress_event-SessionRowsAgree :
    (m : PromptSession) (k : EventKind) (e : Event)
    → Map.has m.terminal_rows e.id ≡ false
    → SessionRowsAgree m
    → SessionRowsAgree (progress_event m k e)
unfolding progress_event finish_progress show_progress SessionRowsAgree Agree
progress_event-SessionRowsAgree m k e n h id = ground (
  arith,
  h id,
  Agree-finish m.active_rows m.active_row_order m.terminal_rows e.id h id,
  Agree-show m.active_rows m.active_row_order m.terminal_rows e.id e n h id,
)

row_event-SessionRowsAgree :
    (m : PromptSession) (k : EventKind) (e : Event)
    → SessionRowsAgree m
    → SessionRowsAgree (row_event m k e)
unfolding row_event SessionRowsAgree Agree
row_event-SessionRowsAgree m k e h id =
    ground (arith, h id, progress_event-SessionRowsAgree m k e _ h id)

module _ (env : Surroundings) where
  editor-SameRows : (m : PromptSession) (k : EditorInput) → SameRows m (update_editor env m k).0
  unfolding update_editor refresh_completions
  editor-SameRows m k = ground arith

  finalized-SameRows :
      (m : PromptSession) (id : Text) (d : Option CommandDone) (b : Bool)
      → SameRows m (finalized env m id d b).0
  unfolding finalized finish_command show_command_error add_error
  finalized-SameRows m id d b = ground arith

  finalize-SameRows : (m : PromptSession) (id : Text) → SameRows m (finalize_run env m id).0
  unfolding finalize_run
  finalize-SameRows m id =
      ground (arith, finalized-SameRows m id (Map.get m.pending_done id) (Map.has m.barriers id))

  startup-SameRows :
      (m : PromptSession) (d : Option CommandError) (history : List Text) (limit : ℕ)
      → SameRows m (finish_session_startup env m d history limit).0
  unfolding finish_session_startup started_session add_error
  startup-SameRows m d history limit = ground arith

  startup_key-SameRows :
      (m : PromptSession) (k : SessionKey) → SameRows m (update_startup_key env m k).0
  unfolding update_startup_key code_entered cancel_startup
  startup_key-SameRows m k = ground (arith, editor-SameRows m (key_input k))

  ready_key-SameRows : (m : PromptSession) (k : SessionKey) → SameRows m (ready_key env m k).0
  unfolding ready_key submit_line submitted
  ready_key-SameRows m k = ground (arith, editor-SameRows m (key_input k))

  key-SameRows : (m : PromptSession) (k : SessionKey) → SameRows m (update_session_key env m k).0
  unfolding update_session_key update_ready_key command_key page_key running_key
  key-SameRows m k = ground (arith, ready_key-SameRows m k, startup_key-SameRows m k)

  barrier-SameRows : (m : PromptSession) (id : Text) → SameRows m (barrier_reached env m id).0
  unfolding barrier_reached
  barrier-SameRows m id =
      ground (arith, finalize-SameRows (record m { barriers = Map.put m.barriers id true }) id)

  finished-SameRows :
      (m : PromptSession) (id : Text) (d : CommandDone) → SameRows m (command_finished env m id d).0
  unfolding command_finished
  finished-SameRows m id d =
      ground (arith, finalize-SameRows (record m { pending_done = Map.put m.pending_done id d }) id)

  context-SameRows : (m : PromptSession) → SameRows m (context_ended env m).0
  unfolding context_ended cancel_startup
  context-SameRows m = ground arith

  tick-SameRows : (m : PromptSession) → SameRows m (progress_ticked env m).0
  unfolding progress_ticked
  tick-SameRows m = ground arith

  request-SameRows : (m : PromptSession) (r : Option ℕ) → SameRows m (begin_code_entry env m r).0
  unfolding begin_code_entry
  request-SameRows m r = ground arith

  other-SameRows :
      (m : PromptSession) (k : ℕ) → SameRows m (update_session env m (other_message k)).0
  unfolding update_session
  other-SameRows m k = ground (arith, editor-SameRows m (other_input k))

  add_table-SessionRowsAgree :
      (m : PromptSession) (t : Option TableData)
      → SessionRowsAgree m
      → SessionRowsAgree (table_event env.is_graphic m t)
  unfolding table_event SessionRowsAgree
  add_table-SessionRowsAgree m none h = h
  add_table-SessionRowsAgree m (some t) h = h

  render_event-SessionRowsAgree :
      (m : PromptSession) (e : Event)
      → SessionRowsAgree m
      → SessionRowsAgree (render_event env.is_graphic m e)
  unfolding render_event SessionRowsAgree Agree
  render_event-SessionRowsAgree m e h id =
      let clean = sanitize_event env.is_graphic e in
      ground (
        arith,
        h id,
        add_table-SessionRowsAgree m clean.table h id,
        row_event-SessionRowsAgree m clean.kind (label_or_text clean) h id,
      )

  shown-SessionRowsAgree :
      (m : PromptSession) (e : Event)
      → SessionRowsAgree m
      → SessionRowsAgree (update_session env m (renderer_event e)).0
  unfolding update_session render_and_tick SessionRowsAgree Agree
  shown-SessionRowsAgree m e h id = ground (
    arith,
    SameRows-SessionRowsAgree m _ (barrier-SameRows m e.id) h id,
    render_event-SessionRowsAgree m e h id,
  )

  -- Every message keeps the session's progress rows in order: the list of active rows names each row
  -- on display exactly once and no other, and a row that is done or failed is not on display.
  pub update_session-SessionRowsAgree :
      (m : PromptSession) (message : SessionMessage)
      → SessionRowsAgree m
      → SessionRowsAgree (update_session env m message).0
  unfolding update_session SessionRowsAgree
  update_session-SessionRowsAgree m (window_size n) h = h
  update_session-SessionRowsAgree m (renderer_event e) h = shown-SessionRowsAgree m e h
  update_session-SessionRowsAgree m renderer_events_closed h = h
  update_session-SessionRowsAgree m context_done h =
      SameRows-SessionRowsAgree m _ (context-SameRows m) h
  update_session-SessionRowsAgree m progress_tick h =
      SameRows-SessionRowsAgree m _ (tick-SameRows m) h
  update_session-SessionRowsAgree m auth_requests_closed h = h
  update_session-SessionRowsAgree m mouse_wheel h = h
  update_session-SessionRowsAgree m (command_done id d) h =
      SameRows-SessionRowsAgree m _ (finished-SameRows m id d) h
  update_session-SessionRowsAgree m (startup_done d history limit) h =
      SameRows-SessionRowsAgree m _ (startup-SameRows m d history limit) h
  update_session-SessionRowsAgree m (auth_code_request r) h =
      SameRows-SessionRowsAgree m _ (request-SameRows m r) h
  update_session-SessionRowsAgree m (key_press k) h =
      SameRows-SessionRowsAgree m _ (key-SameRows m k) h
  update_session-SessionRowsAgree m (other_message k) h =
      SameRows-SessionRowsAgree m _ (other-SameRows m k) h
