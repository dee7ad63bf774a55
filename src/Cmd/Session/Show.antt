-- ===== src/Cmd/Session/Show.antt =====
-- The renderer's events: `applyRendererEvent` and what it adds to the output and the rows.
-- An event always has one of the kinds that the writers send: the empty kind has no constructor.
use tgdownloader.Prelude.{
  is_empty, ℕ, Bool, true, false, Option, none, some, [], ◌∷◌, ◌++◌, nat_eq, list_eq, if◌then◌else◌,
}
use tgdownloader.Prelude.Map
use tgdownloader.Prelude.Map.{Map}
use tgdownloader.Renderer.Events.{
  Event, EventKind, line, progress_create, progress_update, progress_done, progress_fail, table,
  barrier, TableData,
}
use tgdownloader.Cmd.Output.{
  output_table, output_progress, rows_unknown, remove_active_row_id, sanitize_table, sanitize_event,
}
use tgdownloader.Cmd.Session.{PromptSession, add_block, add_text}

unfoldable pub finish_progress : PromptSession → Event → PromptSession
finish_progress m e =
    let m' : PromptSession = record m {
      active_rows = Map.delete m.active_rows e.id;
      active_row_order = remove_active_row_id m.active_row_order e.id;
      terminal_rows = Map.put m.terminal_rows e.id true;
    } in
    if is_empty e.label then m' else add_block m' (output_progress e)

unfoldable pub show_progress : PromptSession → Event → PromptSession
show_progress m e = record m {
  active_row_order =
      if Map.has m.active_rows e.id then m.active_row_order else m.active_row_order ++ e.id ∷ [];
  active_rows = Map.put m.active_rows e.id e;
}

-- The last switch of `applyRendererEvent`.
unfoldable pub progress_event : PromptSession → EventKind → Event → PromptSession
unfolding finish_progress show_progress
progress_event m progress_done e = finish_progress m e
progress_event m progress_fail e = finish_progress m e
progress_event m progress_create e = show_progress m e
progress_event m progress_update e = show_progress m e
progress_event m line e = m
progress_event m table e = m
progress_event m barrier e = m

abbrev pub label_or_text : Event → Event
label_or_text e = if is_empty e.label then record e { label = e.text } else e

-- Behind the case of a table and with the label set.
unfoldable pub row_event : PromptSession → EventKind → Event → PromptSession
unfolding progress_event
row_event m k e =
    if is_empty e.id
    then add_text m e.text
    else if Map.has m.terminal_rows e.id
    then m
    else progress_event m k e

unfoldable pub unknown_progress : PromptSession → Bool
unknown_progress m = rows_unknown m.active_rows

module _ (is_graphic : ℕ → Bool) where
  unfoldable pub table_event : PromptSession → Option TableData → PromptSession
  table_event m none = m
  table_event m (some t) = add_block m (output_table (sanitize_table is_graphic t))

  abbrev is_table : EventKind → Bool
  is_table table = true
  is_table _ = false

  abbrev is_line : EventKind → Bool
  is_line line = true
  is_line _ = false

  -- `applyRendererEvent`.
  unfoldable pub render_event : PromptSession → Event → PromptSession
  unfolding table_event row_event
  render_event m raw =
      let e = sanitize_event is_graphic raw in
      if is_table e.kind
      then table_event m e.table
      else if is_line e.kind
      then add_text m e.text
      else row_event m e.kind (label_or_text e)
