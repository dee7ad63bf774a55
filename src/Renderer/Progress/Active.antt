-- ===== src/Renderer/Progress/Active.antt =====
-- What the count of active trackers means, which `Wait` waits for.
use tgdownloader.Prelude.{
  ℕ, ◌+◌, ◌<◌, ◌≡◌, refl, ◌↔◌, ◌⊎◌, Bool, true, false, ◌&&◌, not, Option, none, some, List, [], ◌∷◌,
  Text, arith, if◌then◌else◌, nat_eq,
}
use tgdownloader.Prelude.Map
use tgdownloader.Prelude.Map.{Map, get-put}
use tgdownloader.Renderer.Events.{EventKind, progress_create}
use tgdownloader.Renderer.Progress.{
  TuiTracker, TuiProgress, Call, units_tracker, bytes_tracker, increment, update_message, fail,
  done, stop, new_tui_progress, emit_tracker, new_tracker, tracker_done, finish_tracker,
  increment_tracker, update_tracker_message, stop_progress, call, wait_returns,
}

abbrev weight : TuiTracker → ℕ
weight t = if t.counted && not t.terminal then 1 else 0

-- The trackers that count and are not over.
pub live : Map ℕ TuiTracker → ℕ
live [] = 0
live ((k, t) ∷ m) = weight t + live m

pub record IsCounted (p : TuiProgress) : Type 0 where
  pub counts : p.active ≡ live p.trackers
  pub new_numbers : (k : ℕ) → p.sequence < k → Map.get p.trackers k ≡ none

live-put_new :
    (m : Map ℕ TuiTracker) (k : ℕ) (t : TuiTracker)
    → Map.get m k ≡ none
    → live (Map.put m k t) ≡ live m + weight t
unfolding live Map.get Map.put
live-put_new [] k t h = ground arith
live-put_new ((j, u) ∷ m) k t h = ground (arith, live-put_new m k t)

live-put :
    (m : Map ℕ TuiTracker) (k : ℕ) (t u : TuiTracker)
    → Map.get m k ≡ some u
    → live (Map.put m k t) + weight u ≡ live m + weight t
unfolding live Map.get Map.put
live-put [] k t u h = cc
live-put ((j, v) ∷ m) k t u h = ground (arith, live-put m k t u)

-- A tracker whose weight stays, stored again.
emit-IsCounted :
    (elapsed : ℕ) (kind : EventKind) (p : TuiProgress) (k : ℕ) (t u : TuiTracker)
    → Map.get p.trackers k ≡ some u
    → weight t ≡ weight u
    → IsCounted p
    → IsCounted (emit_tracker elapsed kind p k t)
unfolding emit_tracker
emit-IsCounted elapsed kind p k t u h w c = record {
  counts = let e = live-put p.trackers k t u h in omega (arith, c.counts);
  new_numbers =
      λ j lt. ground (arith, get-put p.trackers k j t, c.new_numbers j lt, c.new_numbers k);
}

finish-IsCounted :
    (elapsed : ℕ) (kind : EventKind) (p : TuiProgress) (k : ℕ) (u : TuiTracker)
    → Map.get p.trackers k ≡ some u
    → IsCounted p
    → IsCounted (finish_tracker elapsed kind p k (some u))
unfolding finish_tracker emit_tracker tracker_done
finish-IsCounted elapsed kind p k u h c = record {
  counts =
      let e = live-put p.trackers k (record u { terminal = true }) u h in ground (arith, c.counts);
  new_numbers = λ j lt. ground (
    arith,
    get-put p.trackers k j (record u { terminal = true }),
    c.new_numbers j,
    c.new_numbers k,
  );
}

add-IsCounted :
    (elapsed : ℕ) (p : TuiProgress) (active : ℕ) (t : TuiTracker)
    → active ≡ p.active + weight t
    → IsCounted p
    → IsCounted (
        emit_tracker elapsed progress_create
          (record p { sequence = p.sequence + 1; active = active })
          (p.sequence + 1)
          t)
unfolding emit_tracker
add-IsCounted elapsed p active t a c = record {
  counts =
      let e =
        live-put_new p.trackers (p.sequence + 1) t (c.new_numbers (p.sequence + 1) (omega arith)) in
      omega (arith, c.counts);
  new_numbers = λ j lt.
      let old = c.new_numbers j (omega arith) in
      ground (arith, get-put p.trackers (p.sequence + 1) j t);
}

new-IsCounted :
    (elapsed : ℕ) (p : TuiProgress) (message : Text) (total : ℕ) (is_bytes counted : Bool)
    → IsCounted p
    → IsCounted (new_tracker elapsed p message total is_bytes counted)
unfolding new_tracker
new-IsCounted elapsed p message total is_bytes counted c =
    add-IsCounted elapsed p (if counted then p.active + 1 else p.active) _ (ground arith) c

IsCounted-if :
    (b : Bool) (p q : TuiProgress) → IsCounted p → IsCounted q → IsCounted (if b then p else q)
IsCounted-if true p q cp cq = cp
IsCounted-if false p q cp cq = cq

stop-IsCounted : (p : TuiProgress) → IsCounted p → IsCounted (stop_progress p)
unfolding stop_progress
stop-IsCounted p c =
    IsCounted-if p.stopped p _ c (record { counts = c.counts; new_numbers = c.new_numbers })

increment-IsCounted :
    (elapsed : ℕ) (p : TuiProgress) (k n : ℕ) (o : Option TuiTracker)
    → Map.get p.trackers k ≡ o
    → IsCounted p
    → IsCounted (increment_tracker elapsed p k n o)
unfolding increment_tracker
increment-IsCounted elapsed p k n none h c = c
increment-IsCounted elapsed p k n (some u) h c =
    IsCounted-if u.terminal p _ c (emit-IsCounted elapsed _ p k _ u h refl c)

message-IsCounted :
    (elapsed : ℕ) (p : TuiProgress) (k : ℕ) (s : Text) (o : Option TuiTracker)
    → Map.get p.trackers k ≡ o
    → IsCounted p
    → IsCounted (update_tracker_message elapsed p k s o)
unfolding update_tracker_message
message-IsCounted elapsed p k s none h c = c
message-IsCounted elapsed p k s (some u) h c =
    IsCounted-if u.terminal p _ c (emit-IsCounted elapsed _ p k _ u h refl c)

end-IsCounted :
    (elapsed : ℕ) (kind : EventKind) (p : TuiProgress) (k : ℕ) (o : Option TuiTracker)
    → Map.get p.trackers k ≡ o
    → IsCounted p
    → IsCounted (finish_tracker elapsed kind p k o)
unfolding finish_tracker
end-IsCounted elapsed kind p k none h c = c
end-IsCounted elapsed kind p k (some u) h c = finish-IsCounted elapsed kind p k u h c

pub call-IsCounted :
    (elapsed : ℕ) (p : TuiProgress) (c : Call) → IsCounted p → IsCounted (call elapsed p c)
unfolding call
call-IsCounted elapsed p (units_tracker s n) c = new-IsCounted elapsed p s n false true c
call-IsCounted elapsed p (bytes_tracker s n) c = new-IsCounted elapsed p s n true true c
call-IsCounted elapsed p (increment k n) c = increment-IsCounted elapsed p k n _ refl c
call-IsCounted elapsed p (update_message k s) c = message-IsCounted elapsed p k s _ refl c
call-IsCounted elapsed p (fail k) c = end-IsCounted elapsed _ p k _ refl c
call-IsCounted elapsed p (done k) c = end-IsCounted elapsed _ p k _ refl c
call-IsCounted elapsed p stop c = stop-IsCounted p c

-- A sequence of calls, each with the time that its event reports.
unfoldable pub run : TuiProgress → List (ℕ × Call) → TuiProgress
run p [] = p
run p ((elapsed, c) ∷ cs) = run (call elapsed p c) cs

run-IsCounted : (p : TuiProgress) (cs : List (ℕ × Call)) → IsCounted p → IsCounted (run p cs)
unfolding run
run-IsCounted p [] c = c
run-IsCounted p ((elapsed, x) ∷ xs) c =
    run-IsCounted (call elapsed p x) xs (call-IsCounted elapsed p x c)

pub new_tui_progress-IsCounted : (n : ℕ) → IsCounted (new_tui_progress n)
unfolding new_tui_progress live Map.get
new_tui_progress-IsCounted n = record { counts = refl; new_numbers = λ k lt. refl }

-- After any calls of a new progress and its trackers, in any order and with trackers finished more
-- than once, waiting is over exactly where every tracker is done or failed, or the progress was
-- stopped.
pub run-wait_returns :
    (sequence : ℕ) (cs : List (ℕ × Call))
    → (wait_returns (run (new_tui_progress sequence) cs) ≡ true) ↔ (
        (live (run (new_tui_progress sequence) cs).trackers ≡ 0)
        ⊎ ((run (new_tui_progress sequence) cs).stopped ≡ true))
unfolding wait_returns
run-wait_returns sequence cs =
    let c = run-IsCounted (new_tui_progress sequence) cs (new_tui_progress-IsCounted sequence) in
    let e = c.counts in ground arith
