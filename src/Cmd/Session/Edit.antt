-- ===== src/Cmd/Session/Edit.antt =====
-- The text input and the completions that follow it: `updateEditor`, `refreshCompletions`.
use tgdownloader.Prelude.{
  ◌&&◌, ◌||◌, not, none, some, [], ◌∷◌, ◌++◌, ◌==◌, nat_eq, list_eq, codes, if◌then◌else◌,
}
use tgdownloader.Cmd.Prompt.{PromptModel, clear_completions}
use tgdownloader.Cmd.Output.{ready, is_state, sanitize_text}
use tgdownloader.Cmd.Session.{
  CompletionResult, PromptSession, edit, EditorInput, Surroundings, Updated, with_prompt,
}

module _ (env : Surroundings) where
  unfoldable pub completions_of : PromptModel → CompletionResult → PromptModel
  completions_of p r = elim r.error [
    | some e ↦ record p {
      completion_status = sanitize_text env.is_graphic (codes "Completion: " ++ e);
    }
    | none ↦ record p {
      completions = r.candidates;
      completion_start = r.start;
      completion_end = r.end;
      completion_quoted = r.quoted;
      completion_quote_closed = r.quote_closed;
    }
  ]

  unfoldable pub refresh_completions : PromptSession → PromptSession
  unfolding completions_of
  refresh_completions m =
      let p = clear_completions m.prompt in
      if not (is_state m.state ready) || not m.has_complete
      then with_prompt m p
      else with_prompt m (completions_of p (env.complete p.editor_value p.editor_cursor))

  -- `updateEditor`: completions follow a change of the text or the cursor.
  unfoldable pub update_editor : PromptSession → EditorInput → Updated
  unfolding refresh_completions
  update_editor m k =
      let (value, cursor) =
        env.edit_text m.focused k (m.prompt.editor_value, m.prompt.editor_cursor) in
      let m' = with_prompt m (record m.prompt { editor_value = value; editor_cursor = cursor }) in
      if value == m.prompt.editor_value && cursor == m.prompt.editor_cursor
      then (m', edit ∷ [])
      else (refresh_completions m', edit ∷ [])
