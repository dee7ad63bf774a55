-- ===== src/Cmd/OneShot/Finish.antt =====
-- The end of a command: its result and its barrier, and what a cancellation leaves.
use tgdownloader.Prelude.{
  ◌≡◌, refl, Bool, true, false, not, Option, none, some, [], ◌∷◌, ◌++◌, Text, ℕ, nat_eq, list_eq,
  arith, ◌&&◌,
}
use tgdownloader.Prelude.Map
use tgdownloader.Prelude.Map.{Map, get-put_same, has-put_same}
use tgdownloader.Renderer.Events.{Event, barrier}
use tgdownloader.Cmd.Output.{CommandError, stopping}
use tgdownloader.Cmd.OneShot.{
  OneShotModel, quit, command_cancel, renderer_event, startup_done, command_done, context_done,
  cancel_work, finish_startup, finalize_command, finalize, finished, show_error, append_error,
  append_text, append_block, update, when,
}

module _ (is_graphic : ℕ → Bool) (render_error : CommandError → Text) where
  finalize-none :
      (m : OneShotModel) (id : Text) (b : Bool)
      → finalize is_graphic render_error m id none b ≡ (m, [])
  unfolding finalize
  finalize-none m id b = refl

  finalize-false :
      (m : OneShotModel) (id : Text) (d : Option (Option CommandError))
      → finalize is_graphic render_error m id d false ≡ (m, [])
  unfolding finalize
  finalize-false m id none = refl
  finalize-false m id (some d) = refl

  -- The first of the two to arrive.
  done_first :
      (m : OneShotModel) (id : Text) (error : Option CommandError)
      → Map.has m.barriers id ≡ false
      → update is_graphic render_error m (command_done id error)
        ≡ (record m { pending_done = Map.put m.pending_done id error }, [])
  unfolding update finalize_command
  done_first m id error h = rw h (finalize-false _ id _)

  barrier_first :
      (m : OneShotModel) (e : Event)
      → e.kind ≡ barrier
      → Map.get m.pending_done e.id ≡ none
      → update is_graphic render_error m (renderer_event e)
        ≡ (record m { barriers = Map.put m.barriers e.id true }, [])
  unfolding update finalize_command
  barrier_first m e hk h =
      rw (hk, h) (finalize-none _ e.id (Map.has (Map.put m.barriers e.id true) e.id))

  both : OneShotModel → Text → Option CommandError → OneShotModel
  both m id error = record m {
    pending_done = Map.put m.pending_done id error;
    barriers = Map.put m.barriers id true;
  }

  done_last :
      (m : OneShotModel) (id : Text) (error : Option CommandError)
      → update is_graphic render_error
          (record m { barriers = Map.put m.barriers id true })
          (command_done id error)
        ≡ finished is_graphic render_error (both m id error) id error
  unfolding update finalize_command finalize both
  done_last m id error =
      rw (get-put_same m.pending_done id error, has-put_same m.barriers id true) refl

  barrier_last :
      (m : OneShotModel) (e : Event) (error : Option CommandError)
      → e.kind ≡ barrier
      → update is_graphic render_error
          (record m { pending_done = Map.put m.pending_done e.id error })
          (renderer_event e)
        ≡ finished is_graphic render_error (both m e.id error) e.id error
  unfolding update finalize_command finalize both
  barrier_last m e error hk =
      rw (hk, get-put_same m.pending_done e.id error, has-put_same m.barriers e.id true) refl

  running-finished :
      (m : OneShotModel) (id : Text) (error : Option CommandError)
      → (finished is_graphic render_error m id error).0.running ≡ false
  unfolding finished show_error append_error append_text append_block
  running-finished m id error = ground arith

  actions-finished :
      (m : OneShotModel) (id : Text) (error : Option CommandError)
      → (finished is_graphic render_error m id error).1
        ≡ when m.has_command_cancel command_cancel ++ quit ∷ []
  unfolding finished
  actions-finished m id error = refl

  -- While neither the result of a run nor its barrier has arrived, the two may come in either
  -- order: the first changes nothing but the record of it and causes no action, and the second
  -- leaves the same model whichever it is, with no command running, and cancels what is left of
  -- the command before it quits.
  pub update-either_order :
      (m : OneShotModel) (e : Event) (error : Option CommandError)
      → e.kind ≡ barrier
      → Map.get m.pending_done e.id ≡ none
      → Map.has m.barriers e.id ≡ false
      → let done = update is_graphic render_error m (command_done e.id error) in
        let barred = update is_graphic render_error m (renderer_event e) in
        let last = update is_graphic render_error done.0 (renderer_event e) in
        (done ≡ (record m { pending_done = Map.put m.pending_done e.id error }, []))
        × (barred ≡ (record m { barriers = Map.put m.barriers e.id true }, []))
        × (last ≡ update is_graphic render_error barred.0 (command_done e.id error))
        × (last.0.running ≡ false)
        × (last.1 ≡ when m.has_command_cancel command_cancel ++ quit ∷ [])
  unfolding both
  update-either_order m e error hk hd hb =
      let p = done_first m e.id error hb in
      let q = barrier_first m e hk hd in
      let b = barrier_last m e error hk in
      let d = done_last m e.id error in
      rw (p, q, b, d)
        (
          refl,
          refl,
          refl,
          running-finished (both m e.id error) e.id error,
          actions-finished (both m e.id error) e.id error,
        )

  -- After a cancellation, the model is stopping and asks for no code; a second cancellation answers
  -- and cancels nothing, and the end of the startup, however it ends, quits and starts no command.
  pub cancel_work-stops :
      (m : OneShotModel) (error : Option CommandError)
      → let m' = (update is_graphic render_error m context_done).0 in
        (m'.auth_request ≡ none)
        × ((update is_graphic render_error m' context_done).1
            ≡ when (not m.running && not m.startup) quit)
        × ((update is_graphic render_error m' (startup_done error)).1 ≡ quit ∷ [])
        × ((update is_graphic render_error m' (startup_done error)).0.running ≡ m.running)
        × ((update is_graphic render_error m' (startup_done error)).0.state ≡ stopping)
  unfolding update cancel_work finish_startup
  cancel_work-stops m error = ground arith
