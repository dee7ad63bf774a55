-- ===== src/Cmd/Session/Finish.antt =====
-- The end of a command in a session: its result and the renderer's barrier.
use tgdownloader.Prelude.{
  ◌≡◌, refl, Bool, true, false, Option, none, some, [], ◌∷◌, Text, nat_eq, list_eq, arith,
}
use tgdownloader.Prelude.Map
use tgdownloader.Prelude.Map.{Map, get-put_same, has-put_same}
use tgdownloader.Renderer.Events.{Event, barrier}
use tgdownloader.Cmd.Session.{
  PromptSession, Surroundings, CommandDone, wait_for_event, renderer_event, command_done,
}
use tgdownloader.Cmd.Session.Command.{
  add_error, show_command_error, finish_command, finalized, finalize_run,
}
use tgdownloader.Cmd.Session.Update.{
  barrier_reached, command_finished, update_session, wait_unless_quit,
}

-- The command is over: nothing runs, the line takes input, and the run alone is remembered.
pub record Ended (m : PromptSession) (id : Text) : Type 0 where
  pub running : m.running ≡ false
  pub has_cancel : m.has_cancel ≡ false
  pub focused : m.focused ≡ true
  pub pending : m.pending_done ≡ []
  pub barriers : m.barriers ≡ []
  pub completed : m.completed_runs ≡ (id, true) ∷ []

module _ (env : Surroundings) where
  finalized-none : (m : PromptSession) (id : Text) (b : Bool) → finalized env m id none b ≡ (m, [])
  unfolding finalized
  finalized-none m id b = refl

  finalized-false :
      (m : PromptSession) (id : Text) (d : Option CommandDone)
      → finalized env m id d false ≡ (m, [])
  unfolding finalized
  finalized-false m id none = refl
  finalized-false m id (some d) = refl

  done_first :
      (m : PromptSession) (id : Text) (d : CommandDone)
      → Map.has m.completed_runs id ≡ false
      → Map.has m.barriers id ≡ false
      → update_session env m (command_done id d)
        ≡ (record m { pending_done = Map.put m.pending_done id d }, [])
  unfolding update_session command_finished finalize_run
  done_first m id d c h = rw (c, h) (finalized-false _ id _)

  barrier_first :
      (m : PromptSession) (e : Event)
      → e.kind ≡ barrier
      → Map.has m.completed_runs e.id ≡ false
      → Map.get m.pending_done e.id ≡ none
      → update_session env m (renderer_event e)
        ≡ (record m { barriers = Map.put m.barriers e.id true }, wait_for_event ∷ [])
  unfolding update_session barrier_reached finalize_run finalized wait_unless_quit
  barrier_first m e hk c h = rw (hk, c, h) refl

  both : PromptSession → Text → CommandDone → PromptSession
  both m id d = record m {
    pending_done = Map.put m.pending_done id d;
    barriers = Map.put m.barriers id true;
  }

  done_last :
      (m : PromptSession) (id : Text) (d : CommandDone)
      → Map.has m.completed_runs id ≡ false
      → update_session env (record m { barriers = Map.put m.barriers id true }) (command_done id d)
        ≡ finalized env (both m id d) id (some d) true
  unfolding update_session command_finished finalize_run both
  done_last m id d c =
      rw (c, get-put_same m.pending_done id d, has-put_same m.barriers id true) refl

  barrier_last :
      (m : PromptSession) (e : Event) (d : CommandDone)
      → e.kind ≡ barrier
      → Map.has m.completed_runs e.id ≡ false
      → update_session env
          (record m { pending_done = Map.put m.pending_done e.id d })
          (renderer_event e)
        ≡ (let last = finalized env (both m e.id d) e.id (some d) true in
            (last.0, wait_unless_quit last.1))
  unfolding update_session barrier_reached finalize_run both
  barrier_last m e d hk c =
      rw (hk, c, get-put_same m.pending_done e.id d, has-put_same m.barriers e.id true) refl

  finalized-Ended :
      (m : PromptSession) (id : Text) (d : CommandDone)
      → Ended (finalized env m id (some d) true).0 id
  unfolding finalized finish_command show_command_error add_error
  finalized-Ended m id d = ground arith

  -- While a run is not over and neither its result nor its barrier has arrived, the two may come in
  -- either order: the first ends nothing and only the barrier waits for a further event, the second
  -- leaves the same session whichever it is, and there the command is over, whatever its error.
  pub update_session-either_order :
      (m : PromptSession) (e : Event) (d : CommandDone)
      → e.kind ≡ barrier
      → Map.has m.completed_runs e.id ≡ false
      → Map.get m.pending_done e.id ≡ none
      → Map.has m.barriers e.id ≡ false
      → let done = update_session env m (command_done e.id d) in
        let barred = update_session env m (renderer_event e) in
        let last = update_session env done.0 (renderer_event e) in
        (done.1 ≡ [])
        × (done.0.running ≡ m.running)
        × (barred.1 ≡ wait_for_event ∷ [])
        × (barred.0.running ≡ m.running)
        × (last.0 ≡ (update_session env barred.0 (command_done e.id d)).0)
        × Ended last.0 e.id
  unfolding both
  update_session-either_order m e d hk c hd hb =
      let p = done_first m e.id d c hb in
      let q = barrier_first m e hk c hd in
      let b = barrier_last m e d hk c in
      let l = done_last m e.id d c in
      rw (p, q, b, l) (refl, refl, refl, refl, refl, finalized-Ended (both m e.id d) e.id d)
