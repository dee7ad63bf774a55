-- ===== src/Cmd/Session/Command.antt =====
-- A command from the line that starts it to its result: `submitLine`, `finalizeCommand`, `finishCommand`.
use tgdownloader.Prelude.{
  ◌==◌, list_eq, nat_eq, Bool, false, is_empty, true, ◌&&◌, Option, none, some, [], ◌∷◌, ◌++◌, Text,
  codes, if◌then◌else◌, List,
}
use tgdownloader.Prelude.Map
use tgdownloader.Prelude.Map.{Map}
use tgdownloader.Renderer.Sanitize.{trim_space}
use tgdownloader.Cmd.Prompt.{clear_completions, remember}
use tgdownloader.Cmd.Output.{CommandError, canceled, other_error, output_text, sanitize_text}
use tgdownloader.Cmd.Session.{
  CommandDone, PromptSession, quit, command_cancel, run_command, Surroundings, Updated, add_block,
  add_text, set_value,
}

abbrev is_exit : Option (List Text) → Bool
is_exit (some (arg ∷ [])) = arg == codes "exit"
is_exit _ = false

module _ (env : Surroundings) where
  unfoldable pub add_error : PromptSession → CommandError → PromptSession
  add_error m e = add_text m (sanitize_text env.is_graphic (env.render_error e))

  unfoldable pub show_command_error : PromptSession → Option CommandError → PromptSession
  unfolding add_error
  show_command_error m none = m
  show_command_error m (some canceled) = add_block m (output_text (codes "Interrupted"))
  show_command_error m (some (other_error t)) = add_error m (other_error t)

  -- `finishCommand`. The call of the cancel function is an effect of `finalize_run`.
  unfoldable pub finish_command : PromptSession → CommandDone → PromptSession
  unfolding show_command_error
  finish_command m d =
      let m' = show_command_error m d.error in
      record m' {
        has_cancel = false;
        running = false;
        focused = true;
        prompt = remember (d.history_ok && d.history_stored) d.line m'.prompt;
      }

  unfoldable pub finalized : PromptSession → Text → Option CommandDone → Bool → Updated
  unfolding finish_command
  finalized m run_id (some d) true = (
    finish_command
        (record m { pending_done = []; barriers = []; completed_runs = (run_id, true) ∷ [] }) d,
    (if m.has_cancel then command_cancel ∷ [] else []) ++ (if m.quitting then quit ∷ [] else []),
  )
  finalized m run_id d b = (m, [])

  -- `finalizeCommand`.
  unfoldable pub finalize_run : PromptSession → Text → Updated
  unfolding finalized
  finalize_run m run_id =
      if Map.has m.completed_runs run_id
      then (m, [])
      else finalized m run_id (Map.get m.pending_done run_id) (Map.has m.barriers run_id)

  unfoldable pub submitted : PromptSession → Text → Updated
  submitted m text = (
    add_block
        (record m {
          has_cancel = true;
          running = true;
          focused = false;
          prompt = set_value (clear_completions m.prompt) [];
        })
        (output_text (codes "tg> " ++ text)),
    if m.has_submit then run_command text ∷ [] else [],
  )

  unfoldable pub is_prompt_exit_line : Text → Bool
  is_prompt_exit_line line = is_exit (env.split_prompt_line line)

  unfoldable pub submit_line : PromptSession → Updated
  unfolding submitted is_prompt_exit_line
  submit_line m =
      let text = trim_space m.prompt.editor_value in
      if is_empty text
      then (m, [])
      else if is_prompt_exit_line text
      then (m, quit ∷ [])
      else submitted m text
