-- ===== src/Cmd/Session/Update.antt =====
-- `Update`: what the model does with a message.
use tgdownloader.Prelude.{
  ◌+◌, Bool, true, false, ◌&&◌, not, List, [], ◌∷◌, Text, nat_eq, list_eq, if◌then◌else◌,
}
use Prim.Native.Nat.{max}
use tgdownloader.Prelude.Map
use tgdownloader.Prelude.Map.{Map}
use tgdownloader.Renderer.Events.{EventKind, barrier}
use tgdownloader.Cmd.Output.{ready, is_state}
use tgdownloader.Cmd.Session.{
  CommandDone, PromptSession, Effect, quit, wait_for_event, tick, scroll, command_cancel,
  other_input, SessionMessage, window_size, renderer_event, renderer_events_closed, context_done,
  progress_tick, auth_requests_closed, mouse_wheel, command_done, startup_done, auth_code_request,
  other_message, key_press, Surroundings, Updated, with_prompt,
}
use tgdownloader.Cmd.Session.Show.{unknown_progress, render_event}
use tgdownloader.Cmd.Session.Command.{finalize_run}
use tgdownloader.Cmd.Session.Edit.{update_editor}
use tgdownloader.Cmd.Session.Startup.{begin_code_entry, cancel_startup, finish_session_startup}
use tgdownloader.Cmd.Session.Keys.{update_session_key}

abbrev event_is_barrier : EventKind → Bool
event_is_barrier barrier = true
event_is_barrier _ = false

-- A barrier of the renderer: the model waits for the next event unless it quits.
abbrev is_quit : Effect → Bool
is_quit quit = true
is_quit _ = false

unfoldable pub wait_unless_quit : List Effect → List Effect
wait_unless_quit [] = wait_for_event ∷ []
wait_unless_quit (e ∷ rest) = e ∷ (if is_quit e then rest else wait_unless_quit rest)

module _ (env : Surroundings) where
  unfoldable pub render_and_tick : PromptSession → Updated
  render_and_tick m =
      if not m.progress_ticking && unknown_progress m
      then (record m { progress_ticking = true }, wait_for_event ∷ tick ∷ [])
      else (m, wait_for_event ∷ [])

  unfoldable pub barrier_reached : PromptSession → Text → Updated
  unfolding finalize_run wait_unless_quit
  barrier_reached m run_id =
      let (m', effects) =
        finalize_run env (record m { barriers = Map.put m.barriers run_id true }) run_id in
      (m', wait_unless_quit effects)

  unfoldable pub command_finished : PromptSession → Text → CommandDone → Updated
  unfolding finalize_run
  command_finished m run_id d =
      finalize_run env (record m { pending_done = Map.put m.pending_done run_id d }) run_id

  -- `m.cancel()` is called without a test for nil.
  unfoldable pub context_ended : PromptSession → Updated
  unfolding cancel_startup
  context_ended m =
      if not (is_state m.state ready)
      then cancel_startup env m
      else if m.running
      then (record m { quitting = true }, command_cancel ∷ [])
      else (m, quit ∷ [])

  unfoldable pub progress_ticked : PromptSession → Updated
  progress_ticked m =
      if unknown_progress m
      then (record m { progress_frame = m.progress_frame + 1 }, tick ∷ [])
      else (record m { progress_frame = m.progress_frame + 1; progress_ticking = false }, [])

  -- `Update`.
  unfoldable pub update_session : PromptSession → SessionMessage → Updated
  unfolding barrier_reached render_and_tick
  update_session m (window_size height) =
      (with_prompt m (record m.prompt { height = max 1 height }), [])
  update_session m (renderer_event e) =
      if event_is_barrier e.kind
      then barrier_reached m e.id
      else render_and_tick (render_event env.is_graphic m e)
  update_session m renderer_events_closed = (m, [])
  update_session m context_done = context_ended m
  update_session m progress_tick = progress_ticked m
  update_session m (command_done run_id d) = command_finished m run_id d
  update_session m (startup_done error history limit) =
      finish_session_startup env m error history limit
  update_session m (auth_code_request r) = begin_code_entry env m r
  update_session m auth_requests_closed = (m, [])
  update_session m (key_press k) = update_session_key env m k
  update_session m mouse_wheel = (m, scroll ∷ [])
  update_session m (other_message k) =
      if m.running then (m, []) else update_editor env m (other_input k)

  -- The messages of a session in order: the session they leave.
  unfoldable pub update_all : PromptSession → List SessionMessage → PromptSession
  unfolding update_session
  update_all m [] = m
  update_all m (message ∷ rest) = let (m', _) = update_session m message in update_all m' rest
