-- ===== src/Cmd/Session/Keys.antt =====
-- `updateKey`: what a key does when the prompt is ready, and while a command runs.
use tgdownloader.Prelude.{Bool, true, false, ◌&&◌, [], ◌∷◌, nat_eq, list_eq, if◌then◌else◌}
use tgdownloader.Cmd.Prompt.{
  clear_completions, accept_completion, page_completions, select_previous, select_next,
  history_previous, history_next,
}
use tgdownloader.Cmd.Output.{ready, is_state}
use tgdownloader.Cmd.Session.{
  PromptSession, quit, scroll, command_cancel, SessionKey, scroll_up, scroll_down, page_up,
  page_down, ctrl_c, ctrl_d, escape, tab, up, down, enter, keypad_enter, other_key, key_input,
  Surroundings, Updated, with_prompt, has_completions,
}
use tgdownloader.Cmd.Session.Command.{submit_line}
use tgdownloader.Cmd.Session.Edit.{update_editor}
use tgdownloader.Cmd.Session.Startup.{update_startup_key}

abbrev is_ctrl_c : SessionKey → Bool
is_ctrl_c ctrl_c = true
is_ctrl_c _ = false

module _ (env : Surroundings) where
  -- Behind the keys that scroll and those that work while a command runs.
  unfoldable pub ready_key : PromptSession → SessionKey → Updated
  unfolding submit_line update_editor
  ready_key m escape = (with_prompt m (clear_completions m.prompt), [])
  ready_key m tab =
      (if has_completions m then with_prompt m (accept_completion m.prompt) else m, [])
  ready_key m up = (
    with_prompt m
        (if has_completions m then select_previous m.prompt else history_previous m.prompt),
    [],
  )
  ready_key m down = (
    with_prompt m (if has_completions m then select_next m.prompt else history_next m.prompt),
    [],
  )
  ready_key m enter =
      if has_completions m
      then (with_prompt m (accept_completion m.prompt), [])
      else submit_line env m
  ready_key m keypad_enter =
      if has_completions m
      then (with_prompt m (accept_completion m.prompt), [])
      else submit_line env m
  ready_key m ctrl_c = (m, quit ∷ [])
  ready_key m ctrl_d = (m, quit ∷ [])
  ready_key m scroll_up = (m, scroll ∷ [])
  ready_key m scroll_down = (m, scroll ∷ [])
  ready_key m page_up = (m, scroll ∷ [])
  ready_key m page_down = (m, scroll ∷ [])
  ready_key m (other_key k) = update_editor env m (key_input (other_key k))

  -- While a command runs, a key can cancel it.
  unfoldable pub running_key : PromptSession → SessionKey → Updated
  running_key m k = (m, if is_ctrl_c k && m.has_cancel then command_cancel ∷ [] else [])

  unfoldable pub page_key : PromptSession → Bool → Updated
  page_key m forward =
      if has_completions m
      then (with_prompt m (page_completions forward m.prompt), [])
      else (m, scroll ∷ [])

  unfoldable pub command_key : PromptSession → SessionKey → Updated
  unfolding running_key
  command_key m k = if m.running then running_key m k else ready_key m k

  unfoldable pub update_ready_key : PromptSession → SessionKey → Updated
  unfolding command_key page_key
  update_ready_key m scroll_up = (m, scroll ∷ [])
  update_ready_key m scroll_down = (m, scroll ∷ [])
  update_ready_key m page_up = page_key m false
  update_ready_key m page_down = page_key m true
  update_ready_key m k = command_key m k

  unfoldable pub update_session_key : PromptSession → SessionKey → Updated
  update_session_key m k =
      if is_state m.state ready then update_ready_key m k else update_startup_key env m k
