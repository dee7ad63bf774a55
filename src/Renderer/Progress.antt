-- ===== src/Renderer/Progress.antt =====
-- internal/renderer/tui_progress.go: the progress and its trackers. A tracker is shared by pointer;
-- the trackers of a progress are stored by the number that they took from the sequence. Each method
-- that takes a mutex is one step, and the time since a tracker started is an argument.
pub mod Active
pub mod Ends
use tgdownloader.Prelude.{
  ℕ, ◌+◌, ◌-◌, ◌%◌, ◌^◌, Bool, true, false, ◌&&◌, not, Option, none, some, List, [], ◌∷◌, ◌++◌,
  Text, codes, if◌then◌else◌, ltb, ◌==◌, nat_eq, ◌||◌,
}
use tgdownloader.Prelude.Map
use tgdownloader.Prelude.Map.{Map}
use tgdownloader.Prelude.Decimal.{decimal}
use tgdownloader.Renderer.Events.{
  Event, EventKind, progress_create, progress_update, progress_done, progress_fail, count, bytes,
}

pub record TuiTracker : Type 0 where
  pub id : Text
  pub is_bytes : Bool
  pub counted : Bool
  pub message : Text
  pub current : ℕ
  pub total : ℕ
  pub terminal : Bool

-- The sink is the list of events emitted so far; `signals` counts how often `changed` was closed.
pub record TuiProgress : Type 0 where
  pub sink : List Event
  pub sequence : ℕ
  pub active : ℕ
  pub signals : ℕ
  pub stopped : Bool
  pub trackers : Map ℕ TuiTracker

-- The calls of a progress and its trackers; an `int64` is its bit pattern.
pub data Call : Type 0 where
  units_tracker bytes_tracker : Text → ℕ → Call
  increment : ℕ → ℕ → Call
  update_message : ℕ → Text → Call
  fail done : ℕ → Call
  stop : Call

-- `NewTUIProgress`, where the sequence stands at `n`.
unfoldable pub new_tui_progress : ℕ → TuiProgress
new_tui_progress n = record {
  sink = [];
  sequence = n;
  active = 0;
  signals = 0;
  stopped = false;
  trackers = [];
}

unfoldable pub tracker_id : ℕ → Text
tracker_id n = codes "progress-" ++ decimal n

abbrev pub tracker_event : ℕ → EventKind → TuiTracker → Event
tracker_event elapsed kind t = record {
  kind = kind;
  id = t.id;
  text = [];
  label = t.message;
  current = t.current;
  total = t.total;
  unit = if t.is_bytes then bytes else count;
  elapsed = elapsed;
  table = none;
}

-- `emitLocked` with the tracker as it is then stored.
unfoldable pub emit_tracker : ℕ → EventKind → TuiProgress → ℕ → TuiTracker → TuiProgress
emit_tracker elapsed kind p k t = record p {
  trackers = Map.put p.trackers k t;
  sink = p.sink ++ tracker_event elapsed kind t ∷ [];
}

unfoldable pub new_tracker : ℕ → TuiProgress → Text → ℕ → Bool → Bool → TuiProgress
unfolding emit_tracker
new_tracker elapsed p message total is_bytes counted =
    let n = p.sequence + 1 in
    emit_tracker elapsed progress_create
      (record p { sequence = n; active = if counted then p.active + 1 else p.active }) n
      (record {
        id = tracker_id n;
        is_bytes = is_bytes;
        counted = counted;
        message = message;
        current = 0;
        total = total;
        terminal = false;
      })

unfoldable pub tracker_done : TuiProgress → TuiProgress
tracker_done p = record p {
  active = if ltb 0 p.active then p.active - 1 else p.active;
  signals = p.signals + 1;
}

-- `finish`: `Fail` and `Done` of a tracker.
unfoldable pub finish_tracker : ℕ → EventKind → TuiProgress → ℕ → Option TuiTracker → TuiProgress
unfolding emit_tracker tracker_done
finish_tracker elapsed kind p k none = p
finish_tracker elapsed kind p k (some t) =
    let p' = emit_tracker elapsed kind p k (record t { terminal = true }) in
    if t.terminal then p else if t.counted then tracker_done p' else p'

unfoldable pub increment_tracker : ℕ → TuiProgress → ℕ → ℕ → Option TuiTracker → TuiProgress
unfolding emit_tracker
increment_tracker elapsed p k n none = p
increment_tracker elapsed p k n (some t) =
    if t.terminal
    then p
    else emit_tracker elapsed progress_update p k (record t { current = (t.current + n) % 2 ^ 64 })

unfoldable pub update_tracker_message : ℕ → TuiProgress → ℕ → Text → Option TuiTracker → TuiProgress
unfolding emit_tracker
update_tracker_message elapsed p k s none = p
update_tracker_message elapsed p k s (some t) =
    if t.terminal then p else emit_tracker elapsed progress_update p k (record t { message = s })

unfoldable pub stop_progress : TuiProgress → TuiProgress
stop_progress p = if p.stopped then p else record p { stopped = true; signals = p.signals + 1 }

-- One call. A call of a tracker names one that was created before.
unfoldable pub call : ℕ → TuiProgress → Call → TuiProgress
unfolding new_tracker finish_tracker increment_tracker update_tracker_message stop_progress
call elapsed p (units_tracker message total) = new_tracker elapsed p message total false true
call elapsed p (bytes_tracker message total) = new_tracker elapsed p message total true true
call elapsed p (increment k n) = increment_tracker elapsed p k n (Map.get p.trackers k)
call elapsed p (update_message k s) = update_tracker_message elapsed p k s (Map.get p.trackers k)
call elapsed p (fail k) = finish_tracker elapsed progress_fail p k (Map.get p.trackers k)
call elapsed p (done k) = finish_tracker elapsed progress_done p k (Map.get p.trackers k)
call elapsed p stop = stop_progress p

-- `Wait` returns at once, or waits for the next change.
unfoldable pub wait_returns : TuiProgress → Bool
wait_returns p = p.active == 0 || p.stopped
