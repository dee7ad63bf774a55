-- ===== src/Cmd/Session/Runs.antt =====
-- What holds of a session after every message, and the end of a command.
use tgdownloader.Prelude.{
  ℕ, ◌≡◌, Bool, true, ◌||◌, not, Option, List, [], ◌∷◌, Text, nat_eq, list_eq, arith,
}
use tgdownloader.Prelude.Map
use tgdownloader.Prelude.Map.{Map, get-put}
use tgdownloader.Renderer.Events.{Event, EventKind}
use tgdownloader.Cmd.Output.{CommandError, auth, ready, is_state}
use tgdownloader.Cmd.Session.{
  PromptSession, Surroundings, SessionKey, EditorInput, key_input, other_input, SessionMessage,
  window_size, renderer_event, renderer_events_closed, context_done, progress_tick,
  auth_requests_closed, mouse_wheel, command_done, startup_done, auth_code_request, key_press,
  other_message, new_prompt_session,
}
use tgdownloader.Cmd.Session.Show.{
  finish_progress, show_progress, progress_event, row_event, table_event, render_event,
}
use tgdownloader.Cmd.Session.Command.{
  add_error, show_command_error, finish_command, finalized, finalize_run, submitted, submit_line,
}
use tgdownloader.Cmd.Session.Edit.{update_editor, refresh_completions}
use tgdownloader.Cmd.Session.Startup.{
  begin_code_entry, cancel_startup, code_entered, update_startup_key, started_session,
  finish_session_startup,
}
use tgdownloader.Cmd.Session.Keys.{
  ready_key, running_key, page_key, command_key, update_ready_key, update_session_key,
}
use tgdownloader.Cmd.Session.Update.{
  render_and_tick, barrier_reached, command_finished, context_ended, progress_ticked,
  update_session, update_all,
}

-- A running command can be canceled; the code is asked for with the input masked; a prompt
-- that is ready shows its line.
pub record SessionIsValid (m : PromptSession) : Type 0 where
  pub cancelable : (not m.running || m.has_cancel) ≡ true
  pub code_masked : (not (is_state m.state auth) || m.masked) ≡ true
  pub line_clear : (not (is_state m.state ready) || not m.masked) ≡ true

-- What a step keeps, where it does not touch these.
record SameRun (m n : PromptSession) : Type 0 where
  running : n.running ≡ m.running
  has_cancel : n.has_cancel ≡ m.has_cancel
  state : n.state ≡ m.state
  masked : n.masked ≡ m.masked

SameRun-SessionIsValid : (m n : PromptSession) → SameRun m n → SessionIsValid m → SessionIsValid n
SameRun-SessionIsValid m n s v = ground arith

row_event-SameRun : (m : PromptSession) (k : EventKind) (e : Event) → SameRun m (row_event m k e)
unfolding row_event progress_event finish_progress show_progress
row_event-SameRun m k e = ground arith

module _ (env : Surroundings) where
  render_event-SameRun :
      (m : PromptSession) (e : Event) → SameRun m (render_event env.is_graphic m e)
  unfolding render_event table_event
  render_event-SameRun m e = ground (arith, row_event-SameRun m)

  editor-SameRun : (m : PromptSession) (k : EditorInput) → SameRun m (update_editor env m k).0
  unfolding update_editor refresh_completions
  editor-SameRun m k = ground arith

  editor-SessionIsValid :
      (m : PromptSession) (k : EditorInput)
      → SessionIsValid m
      → SessionIsValid (update_editor env m k).0
  editor-SessionIsValid m k v = SameRun-SessionIsValid m _ (editor-SameRun m k) v

  finalize-SessionIsValid :
      (m : PromptSession) (id : Text) → SessionIsValid m → SessionIsValid (finalize_run env m id).0
  unfolding finalize_run finalized finish_command show_command_error add_error
  finalize-SessionIsValid m id v = ground arith

  startup_key-SessionIsValid :
      (m : PromptSession) (k : SessionKey)
      → SessionIsValid m
      → SessionIsValid (update_startup_key env m k).0
  unfolding update_startup_key code_entered cancel_startup
  startup_key-SessionIsValid m k v = ground (arith, editor-SessionIsValid m (key_input k) v)

  ready_key-SessionIsValid :
      (m : PromptSession) (k : SessionKey) → SessionIsValid m → SessionIsValid (ready_key env m k).0
  unfolding ready_key submit_line submitted
  ready_key-SessionIsValid m k v = ground (arith, editor-SessionIsValid m (key_input k) v)

  key-SessionIsValid :
      (m : PromptSession) (k : SessionKey)
      → SessionIsValid m
      → SessionIsValid (update_session_key env m k).0
  unfolding update_session_key update_ready_key command_key page_key running_key
  key-SessionIsValid m k v =
      ground (arith, ready_key-SessionIsValid m k v, startup_key-SessionIsValid m k v)

  shown-SessionIsValid :
      (m : PromptSession) (e : Event)
      → SessionIsValid m
      → SessionIsValid (update_session env m (renderer_event e)).0
  unfolding update_session render_and_tick barrier_reached
  shown-SessionIsValid m e v = ground (
    arith,
    finalize-SessionIsValid (record m { barriers = Map.put m.barriers e.id true }) e.id _,
    SameRun-SessionIsValid m _ (render_event-SameRun m e) v,
  )

  startup-SessionIsValid :
      (m : PromptSession) (d : Option CommandError) (history : List Text) (limit : ℕ)
      → SessionIsValid m
      → SessionIsValid (finish_session_startup env m d history limit).0
  unfolding finish_session_startup started_session add_error
  startup-SessionIsValid m d history limit v = ground arith

  update_session-SessionIsValid :
      (m : PromptSession) (message : SessionMessage)
      → SessionIsValid m
      → SessionIsValid (update_session env m message).0
  unfolding update_session context_ended cancel_startup progress_ticked command_finished
      begin_code_entry
  update_session-SessionIsValid m (window_size n) v = SameRun-SessionIsValid m _ (ground arith) v
  update_session-SessionIsValid m (renderer_event e) v = shown-SessionIsValid m e v
  update_session-SessionIsValid m renderer_events_closed v = v
  update_session-SessionIsValid m context_done v = ground arith
  update_session-SessionIsValid m progress_tick v = ground arith
  update_session-SessionIsValid m auth_requests_closed v = v
  update_session-SessionIsValid m mouse_wheel v = v
  update_session-SessionIsValid m (command_done id d) v =
      finalize-SessionIsValid (record m { pending_done = Map.put m.pending_done id d }) id
        (ground arith)
  update_session-SessionIsValid m (startup_done d history limit) v =
      startup-SessionIsValid m d history limit v
  update_session-SessionIsValid m (auth_code_request r) v = ground arith
  update_session-SessionIsValid m (key_press k) v = key-SessionIsValid m k v
  update_session-SessionIsValid m (other_message k) v =
      ground (arith, editor-SessionIsValid m (other_input k) v)

  from_valid :
      (m : PromptSession) (messages : List SessionMessage)
      → SessionIsValid m
      → SessionIsValid (update_all env m messages)
  unfolding update_all
  from_valid m [] v = v
  from_valid m (message ∷ rest) v =
      from_valid (update_session env m message).0 rest (update_session-SessionIsValid m message v)

  -- Whatever messages a new prompt has received, and in whatever order: a command that runs can be
  -- canceled, so the unguarded call of its cancel function at the end of the context is safe; while
  -- a login code is asked for, the text input masks it; and a prompt that is ready does not.
  pub update_all-SessionIsValid :
      (connected has_complete has_submit startup has_startup_cancel : Bool) (history : List Text)
      (limit : ℕ) (messages : List SessionMessage)
      → SessionIsValid (
          update_all env
            (new_prompt_session connected has_complete has_submit startup has_startup_cancel history
              limit)
            messages)
  unfolding new_prompt_session
  update_all-SessionIsValid connected has_complete has_submit startup has_startup_cancel history
        limit messages =
      from_valid _ messages (ground arith)
