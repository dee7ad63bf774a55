-- ===== src/Cmd/OneShot/Rows.antt =====
-- The progress rows of the model: the rows on display, their order, and the rows that are over.
use tgdownloader.Prelude.{
  ℕ, ◌≡◌, refl, Bool, true, false, ◌&&◌, not, Option, [], ◌∷◌, Text, nat_eq, list_eq, arith,
  Bool-cases, Option-cases, inl, inr,
}
use tgdownloader.Prelude.Map
use tgdownloader.Prelude.Map.{Map, get-put, get-delete}
use tgdownloader.Renderer.Events.{
  Event, EventKind, line, progress_create, progress_update, progress_done, progress_fail, table,
  barrier,
}
use tgdownloader.Cmd.Output.{CommandError, sanitize_event}
use tgdownloader.Cmd.Output.Agree.{Agree-finish, Agree-show, Agree, occurrences}
use tgdownloader.Cmd.OneShot.{
  OneShotModel, new_one_shot_model, Key, Message, window_size, renderer_event,
  renderer_events_closed, startup_done, command_done, auth_code_request, auth_requests_closed,
  progress_tick, context_done, key_press, other_message, has_unknown_progress, is_barrier,
  finish_row, show_row, apply_renderer_event, apply_event, append_text, append_block, cancel_work,
  begin_auth_code_entry, begin_entry, update_key, submit_code, append_error, finish_startup,
  startup_result, started, finalize_command, finalize, finished, show_error, render_step, update,
}

pub RowsAgree : OneShotModel → Type 0
unfolding Agree
RowsAgree m = Agree m.active_rows m.active_row_order m.terminal_rows

-- A new model has no rows.
pub new_one_shot_model-RowsAgree :
    (startup can_execute has_cancel : Bool)
    → RowsAgree (new_one_shot_model startup can_execute has_cancel)
unfolding RowsAgree Agree occurrences new_one_shot_model Map.get
new_one_shot_model-RowsAgree startup can_execute has_cancel id = (refl, refl)

finish_row-RowsAgree : (m : OneShotModel) (e : Event) → RowsAgree m → RowsAgree (finish_row m e)
unfolding finish_row RowsAgree Agree
finish_row-RowsAgree m e h id =
    ground (arith, h id, Agree-finish m.active_rows m.active_row_order m.terminal_rows e.id h id)

show_row-RowsAgree : (m : OneShotModel) (e : Event) → RowsAgree m → RowsAgree (show_row m e)
unfolding show_row RowsAgree Agree
show_row-RowsAgree m e h id = elim (Bool-cases (Map.has m.terminal_rows e.id)) [
  | inl q ↦ rw q (h id)
  | inr q ↦ rw q (Agree-show m.active_rows m.active_row_order m.terminal_rows e.id e q h id)
]

append_text-RowsAgree : (m : OneShotModel) (t : Text) → RowsAgree m → RowsAgree (append_text m t)
unfolding append_text append_block RowsAgree
append_text-RowsAgree m [] h = h
append_text-RowsAgree m (c ∷ cs) h = h

module _ (is_graphic : ℕ → Bool) where
  add_table-RowsAgree :
      (m : OneShotModel) (e : Event) → RowsAgree m → RowsAgree (apply_event is_graphic m table e)
  unfolding apply_event append_block RowsAgree
  add_table-RowsAgree m e h = elim (Option-cases e.table) [ inl q ↦ rw q h | inr (t, q) ↦ rw q h ]

  apply_event-RowsAgree :
      (m : OneShotModel) (k : EventKind) (e : Event)
      → RowsAgree m
      → RowsAgree (apply_event is_graphic m k e)
  unfolding apply_event
  apply_event-RowsAgree m line e h = append_text-RowsAgree m e.text h
  apply_event-RowsAgree m progress_create e h = show_row-RowsAgree m e h
  apply_event-RowsAgree m progress_update e h = show_row-RowsAgree m e h
  apply_event-RowsAgree m progress_done e h = finish_row-RowsAgree m e h
  apply_event-RowsAgree m progress_fail e h = finish_row-RowsAgree m e h
  apply_event-RowsAgree m table e h = add_table-RowsAgree m e h
  apply_event-RowsAgree m barrier e h = h

  apply_renderer_event-RowsAgree :
      (m : OneShotModel) (e : Event) → RowsAgree m → RowsAgree (apply_renderer_event is_graphic m e)
  unfolding apply_renderer_event RowsAgree
  apply_renderer_event-RowsAgree m e h =
      apply_event-RowsAgree (record m { preparing = false }) e.kind (sanitize_event is_graphic e) h

  module _ (render_error : CommandError → Text) where
    -- What a step keeps, where it does not touch the rows.
    record SameRows (m n : OneShotModel) : Type 0 where
      active : n.active_rows ≡ m.active_rows
      order : n.active_row_order ≡ m.active_row_order
      over : n.terminal_rows ≡ m.terminal_rows

    cancel_work-SameRows : (m : OneShotModel) → SameRows m (cancel_work m).0
    unfolding cancel_work
    cancel_work-SameRows m = record { active = refl; order = refl; over = refl }

    finalize-SameRows :
        (m : OneShotModel) (id : Text) (d : Option (Option CommandError)) (b : Bool)
        → SameRows m (finalize is_graphic render_error m id d b).0
    unfolding finalize finished show_error append_error append_text append_block
    finalize-SameRows m id d b = ground arith

    startup-SameRows :
        (m : OneShotModel) (d : Option CommandError)
        → SameRows m (finish_startup is_graphic render_error m d).0
    unfolding finish_startup startup_result started append_error append_text append_block
    startup-SameRows m d = ground arith

    key-SameRows : (m : OneShotModel) (k : Key) → SameRows m (update_key m k).0
    unfolding update_key submit_code cancel_work
    key-SameRows m k = ground arith

    request-SameRows : (m : OneShotModel) (r : Option ℕ) → SameRows m (begin_auth_code_entry m r).0
    unfolding begin_auth_code_entry begin_entry
    request-SameRows m r = ground arith

    SameRows-RowsAgree : (m n : OneShotModel) → SameRows m n → RowsAgree m → RowsAgree n
    unfolding RowsAgree Agree
    SameRows-RowsAgree m n s h id = rw (s.active, s.order, s.over) (h id)

    render_step-RowsAgree :
        (m : OneShotModel) (e : Event)
        → RowsAgree m
        → RowsAgree (render_step is_graphic render_error m e).0
    unfolding render_step RowsAgree
    render_step-RowsAgree m e h =
        let n = apply_renderer_event is_graphic m e in
        let h' = apply_renderer_event-RowsAgree m e h in
        elim (Bool-cases (not n.progress_ticking && has_unknown_progress n)) [
          | inl q ↦ rw q h'
          | inr q ↦ rw q h'
        ]

    event-RowsAgree :
        (m : OneShotModel) (e : Event)
        → RowsAgree m
        → RowsAgree (update is_graphic render_error m (renderer_event e)).0
    unfolding update finalize_command RowsAgree
    event-RowsAgree m e h = elim (Bool-cases (is_barrier is_graphic render_error e.kind)) [
      | inl q ↦ rw q (
          SameRows-RowsAgree _ _
            (finalize-SameRows (record m { barriers = Map.put m.barriers e.id true }) e.id
              (Map.get m.pending_done e.id) (Map.has (Map.put m.barriers e.id true) e.id))
            h)
      | inr q ↦ rw q (render_step-RowsAgree m e h)
    ]

    tick-SameRows :
        (m : OneShotModel) → SameRows m (update is_graphic render_error m progress_tick).0
    unfolding update
    tick-SameRows m = ground arith

    editing-SameRows :
        (m : OneShotModel) (input : Text → Text)
        → SameRows m (update is_graphic render_error m (other_message input)).0
    unfolding update
    editing-SameRows m = ground arith

    -- Every message keeps the progress rows in order: the list of active rows names each row on
    -- display exactly once and no other, and a row that is done or failed is not on display.
    pub update-RowsAgree :
        (m : OneShotModel) (msg : Message)
        → RowsAgree m
        → RowsAgree (update is_graphic render_error m msg).0
    unfolding update RowsAgree finalize_command cancel_work
    update-RowsAgree m (window_size w) h = h
    update-RowsAgree m (renderer_event e) h = event-RowsAgree m e h
    update-RowsAgree m renderer_events_closed h = h
    update-RowsAgree m (startup_done d) h = SameRows-RowsAgree m _ (startup-SameRows m d) h
    update-RowsAgree m (command_done id d) h =
        SameRows-RowsAgree _ _
          (finalize-SameRows (record m { pending_done = Map.put m.pending_done id d }) id
            (Map.get (Map.put m.pending_done id d) id) (Map.has m.barriers id))
          h
    update-RowsAgree m (auth_code_request r) h = SameRows-RowsAgree m _ (request-SameRows m r) h
    update-RowsAgree m auth_requests_closed h = h
    update-RowsAgree m progress_tick h = SameRows-RowsAgree m _ (tick-SameRows m) h
    update-RowsAgree m context_done h = h
    update-RowsAgree m (key_press k) h = SameRows-RowsAgree m _ (key-SameRows m k) h
    update-RowsAgree m (other_message input) h = SameRows-RowsAgree m _ (editing-SameRows m input) h
