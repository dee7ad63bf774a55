-- ===== src/Cmd/Tests/Session.antt =====
-- The theorems about the prompt's session and its completions at concrete inputs.
use tgdownloader.Prelude.{◌≡◌, refl, true, false, none, some, List, [], ◌∷◌, codes}
use tgdownloader.Prelude.Map
use tgdownloader.Renderer.Events.{Event, EventKind, barrier, progress_create, count}
use tgdownloader.Cmd.Prompt.{PromptModel, PromptCandidate}
use tgdownloader.Cmd.Session.{
  PromptSession, Surroundings, CommandDone, SessionMessage, renderer_event, command_done,
  auth_code_request, context_done, new_prompt_session, wait_for_event, key_press, enter,
}
use tgdownloader.Cmd.Session.Rows.{
  SessionRowsAgree, new_prompt_session-SessionRowsAgree, update_session-SessionRowsAgree,
}
use tgdownloader.Cmd.Session.Runs.{SessionIsValid, update_all-SessionIsValid}
use tgdownloader.Cmd.Session.Finish.{Ended, update_session-either_order}
use tgdownloader.Cmd.Session.Update.{update_session, update_all}

abbrev candidate : PromptCandidate
candidate = record { value = codes "my file"; display = []; description = [] }

-- The cursor is in the quotes of the second token.
abbrev completing : PromptModel
completing = record {
  height = 24;
  completions = candidate ∷ [];
  selected = 0;
  completion_offset = 0;
  completion_start = 5;
  completion_end = 7;
  completion_quoted = true;
  completion_quote_closed = true;
  completion_status = [];
  editor_value = codes "get \"my\" x";
  editor_cursor = 7;
  history = [];
  history_index = 0;
  history_limit = 2;
}

abbrev env : Surroundings
env = record {
  is_graphic = λ r. true;
  render_error = λ e. codes "error";
  edit_text = λ focused k t. t;
  complete = λ t n. record {
    start = 0;
    end = 0;
    quoted = false;
    quote_closed = false;
    candidates = [];
    error = none;
  };
  split_prompt_line = λ t. some (t ∷ []);
}

abbrev session : PromptSession
session = new_prompt_session true true true false false [] 10

abbrev event : EventKind → Event
event k = record {
  kind = k;
  id = codes "run";
  text = [];
  label = codes "a file";
  current = 0;
  total = 0;
  unit = count;
  elapsed = 0;
  table = none;
}

update_session-SessionRowsAgree_example :
    SessionRowsAgree (update_session env session (renderer_event (event progress_create))).0
update_session-SessionRowsAgree_example =
    update_session-SessionRowsAgree env session (renderer_event (event progress_create))
      (new_prompt_session-SessionRowsAgree true true true false false [] 10)

abbrev messages : List SessionMessage
messages = auth_code_request (some 1) ∷ key_press enter ∷ context_done ∷ []

update_all-SessionIsValid_example :
    SessionIsValid (update_all env (new_prompt_session true true true true true [] 10) messages)
update_all-SessionIsValid_example =
    update_all-SessionIsValid env true true true true true [] 10 messages

abbrev done : CommandDone
done = record { line = codes "get"; error = none; history_stored = true; history_ok = true }

abbrev running : PromptSession
running = record session { running = true; has_cancel = true; focused = false }

update_session-either_order_example :
    ((update_session env running (command_done (codes "run") done)).1 ≡ [])
    × ((update_session env running (command_done (codes "run") done)).0.running ≡ true)
    × ((update_session env running (renderer_event (event barrier))).1 ≡ wait_for_event ∷ [])
    × ((update_session env running (renderer_event (event barrier))).0.running ≡ true)
    × ((update_session env
          (update_session env running (command_done (codes "run") done)).0
          (renderer_event (event barrier))).0
        ≡ (update_session env
            (update_session env running (renderer_event (event barrier))).0
            (command_done (codes "run") done)).0)
    × Ended
        (update_session env
          (update_session env running (command_done (codes "run") done)).0
          (renderer_event (event barrier))).0
        (codes "run")
update_session-either_order_example =
    unfold Map.get new_prompt_session in
    update_session-either_order env running (event barrier) done refl refl refl refl
