-- ===== src/Cmd/Session/Startup.antt =====
-- The startup and the code it may ask for: `beginAuthCodeEntry`, `updateStartupKey`, `cancelStartup`,
-- `finishStartup`.
use tgdownloader.Prelude.{
  ℕ, Bool, true, false, ◌||◌, not, Option, none, some, List, [], ◌∷◌, ◌++◌, Text, nat_eq, list_eq,
  length, if◌then◌else◌,
}
use tgdownloader.Renderer.Sanitize.{trim_space}
use tgdownloader.Cmd.Prompt.{clear_completions}
use tgdownloader.Cmd.Output.{starting, auth, ready, failed, stopping, is_state, CommandError}
use tgdownloader.Cmd.Session.{
  PromptSession, Effect, quit, wait_for_auth, startup_cancel, respond, respond_canceled, SessionKey,
  ctrl_c, ctrl_d, enter, keypad_enter, key_input, Surroundings, Updated, set_value,
}
use tgdownloader.Cmd.Session.Command.{add_error}
use tgdownloader.Cmd.Session.Edit.{update_editor}

abbrev canceled_answer : Option ℕ → List Effect
canceled_answer none = []
canceled_answer (some r) = respond_canceled r ∷ []

abbrev is_interrupt : SessionKey → Bool
is_interrupt ctrl_c = true
is_interrupt ctrl_d = true
is_interrupt _ = false

abbrev is_enter : SessionKey → Bool
is_enter enter = true
is_enter keypad_enter = true
is_enter _ = false

module _ (env : Surroundings) where
  unfoldable pub begin_code_entry : PromptSession → Option ℕ → Updated
  begin_code_entry m none = (m, [])
  begin_code_entry m (some r) =
      if is_state m.state stopping || is_state m.state failed then (m, []) else (
        record m {
          state = auth;
          auth_request = some r;
          focused = true;
          masked = true;
          prompt = set_value (clear_completions m.prompt) [];
        },
        [],
      )

  unfoldable pub cancel_startup : PromptSession → Updated
  cancel_startup m = if is_state m.state failed then (m, quit ∷ []) else (
    record m {
      quitting = true;
      state = stopping;
      auth_request = none;
      has_startup_cancel = false;
      focused = false;
      prompt = set_value m.prompt [];
    },
    canceled_answer m.auth_request ++ (if m.has_startup_cancel then startup_cancel ∷ [] else []),
  )

  unfoldable pub code_entered : PromptSession → Updated
  code_entered m = (
    record m {
      auth_request = none;
      state = starting;
      focused = false;
      masked = false;
      prompt = set_value m.prompt [];
    },
    (elim m.auth_request [ none ↦ [] | some r ↦ respond r (trim_space m.prompt.editor_value) ∷ [] ])
        ++ wait_for_auth ∷ [],
  )

  unfoldable pub update_startup_key : PromptSession → SessionKey → Updated
  unfolding code_entered
  update_startup_key m k =
      if is_interrupt k
      then (if is_state m.state failed then (m, quit ∷ []) else cancel_startup m)
      else if not (is_state m.state auth)
      then (m, [])
      else if is_enter k
      then code_entered m
      else update_editor env m (key_input k)

  unfoldable pub started_session : PromptSession → List Text → ℕ → PromptSession
  started_session m history limit = record m {
    state = ready;
    connected = true;
    focused = true;
    masked = false;
    prompt =
        set_value
          (record m.prompt {
            history = history;
            history_index = length history;
            history_limit = limit;
          })
          [];
  }

  unfoldable pub finish_session_startup :
      PromptSession → Option CommandError → List Text → ℕ → Updated
  unfolding started_session add_error
  finish_session_startup m error history limit =
      let m' : PromptSession = record m { startup = false; startup_err = error } in
      if m.quitting || is_state m.state stopping then (m', quit ∷ []) else elim error [
        | some e ↦ (
          add_error env
              (record m' { state = failed; focused = false; prompt = set_value m'.prompt [] }) e,
          [],
        )
        | none ↦ (started_session m' history limit, [])
      ]
