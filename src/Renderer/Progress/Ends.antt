-- ===== src/Renderer/Progress/Ends.antt =====
-- The last event of a tracker: `EventProgressDone` or `EventProgressFail`.
use tgdownloader.Prelude.{
  ℕ, ◌+◌, ◌≡◌, refl, sym, ap, ◌∙◌, Bool, true, false, ◌&&◌, Option, none, some, List, [], ◌∷◌, ◌++◌,
  Text, arith, if◌then◌else◌, nat_eq, list_eq, ◌==◌, inl, inr, beq_ne, list_beq_iff, Bool-cases,
  nat_beq_iff, codes,
}
use tgdownloader.Prelude.Map
use tgdownloader.Prelude.Map.{Map, get-put}
use tgdownloader.Prelude.Decimal.{decimal, decimal_inj}
use tgdownloader.Renderer.Events.{
  Event, EventKind, progress_create, progress_update, progress_done, progress_fail,
}
use tgdownloader.Renderer.Progress.{
  TuiTracker, TuiProgress, Call, units_tracker, bytes_tracker, increment, update_message, fail,
  done, stop, new_tui_progress, emit_tracker, new_tracker, tracker_done, finish_tracker,
  increment_tracker, update_tracker_message, stop_progress, call, tracker_id, tracker_event,
}
use tgdownloader.Renderer.Progress.Active.{
  run, IsCounted, call-IsCounted, new_tui_progress-IsCounted,
}

abbrev pub is_end : EventKind → Bool
is_end progress_done = true
is_end progress_fail = true
is_end _ = false

-- How many events of a tracker say that it is done or failed.
pub ends : Text → List Event → ℕ
ends id [] = 0
ends id (e ∷ es) = let n = ends id es in if e.id == id && is_end e.kind then n + 1 else n

abbrev pub over : Option TuiTracker → ℕ
over none = 0
over (some t) = if t.terminal then 1 else 0

record IsReported (p : TuiProgress) : Type 0 where
  reported : (k : ℕ) → ends (tracker_id k) p.sink ≡ over (Map.get p.trackers k)
  named : (k : ℕ) (t : TuiTracker) → Map.get p.trackers k ≡ some t → t.id ≡ tracker_id k

ends-append :
    (id : Text) (es : List Event) (e : Event)
    → ends id (es ++ e ∷ []) ≡ ends id es + (if e.id == id && is_end e.kind then 1 else 0)
unfolding ends
ends-append id [] e = ground arith
ends-append id (x ∷ xs) e = ground (arith, ends-append id xs e)

append_inj : (xs ys zs : Text) → xs ++ ys ≡ xs ++ zs → ys ≡ zs
append_inj [] ys zs e = e
append_inj (x ∷ xs) ys zs e = append_inj xs ys zs (cc)

tracker_id_inj : (j k : ℕ) → tracker_id j ≡ tracker_id k → j ≡ k
unfolding tracker_id
tracker_id_inj j k e = decimal_inj j k (append_inj (codes "progress-") (decimal j) (decimal k) e)

tracker_id_beq : (j k : ℕ) → (tracker_id j == tracker_id k) ≡ (j == k)
tracker_id_beq j k = elim (Bool-cases (j == k)) [
  | inl q ↦
      rw q ((list_beq_iff (tracker_id j) (tracker_id k)).1 (ap tracker_id ((nat_beq_iff j k).0 q)))
  | inr q ↦ rw q (
      beq_ne (tracker_id j) (tracker_id k) (λ (e : tracker_id j ≡ tracker_id k).
        let same = (nat_beq_iff j k).1 (tracker_id_inj j k e) in cc))
]

event_ends :
    (elapsed : ℕ) (kind : EventKind) (k j : ℕ) (t : TuiTracker)
    → t.id ≡ tracker_id k
    → ((tracker_event elapsed kind t).id == tracker_id j) ≡ (k == j)
event_ends elapsed kind k j t i = rw i (tracker_id_beq k j)

emit-IsReported :
    (elapsed : ℕ) (kind : EventKind) (p : TuiProgress) (k : ℕ) (t : TuiTracker)
    → t.id ≡ tracker_id k
    → over (some t) ≡ over (Map.get p.trackers k) + (if is_end kind then 1 else 0)
    → IsReported p
    → IsReported (emit_tracker elapsed kind p k t)
unfolding emit_tracker
emit-IsReported elapsed kind p k t i o r = record {
  reported = λ j.
      let a = ends-append (tracker_id j) p.sink (tracker_event elapsed kind t) in
      let b = event_ends elapsed kind k j t i in
      a
      ∙ rw (b, r.reported j, get-put)
          (elim (Bool-cases (k == j)) [
            | inl q ↦ let s = (nat_beq_iff k j).0 q in rw q (rw (← s) (sym o))
            | inr q ↦ rw q (omega arith)
          ]);
  named = λ j u e.
      let e' = sym (get-put p.trackers k j t) ∙ e in
      elim (Bool-cases (k == j)) [
        | inl q ↦
            let s = (nat_beq_iff k j).0 q in
            let e'' : some t ≡ some u = sym (rw q refl) ∙ e' in
            let same : t ≡ u = cc in rw (← same, ← s) i
        | inr q ↦ r.named j u (rw q at e')
      ];
}

kept-IsReported :
    (p q : TuiProgress) → q.sink ≡ p.sink → q.trackers ≡ p.trackers → IsReported p → IsReported q
kept-IsReported p q s t r = record {
  reported = λ k. rw (s, t) (r.reported k);
  named = λ k u e. r.named k u (ap (λ (m : Map ℕ TuiTracker). Map.get m k) (sym t) ∙ e);
}

IsReported-if :
    (b : Bool) (p q : TuiProgress)
    → (b ≡ true → IsReported p)
    → (b ≡ false → IsReported q)
    → IsReported (if b then p else q)
IsReported-if true p q hp hq = hp refl
IsReported-if false p q hp hq = hq refl

update-IsReported :
    (elapsed : ℕ) (p : TuiProgress) (k : ℕ) (t u : TuiTracker)
    → Map.get p.trackers k ≡ some u
    → t.id ≡ u.id
    → t.terminal ≡ u.terminal
    → IsReported p
    → IsReported (emit_tracker elapsed progress_update p k t)
update-IsReported elapsed p k t u h i e r =
    emit-IsReported elapsed progress_update p k t (i ∙ r.named k u h) (rw (h, e) (omega arith)) r

finish-IsReported :
    (elapsed : ℕ) (kind : EventKind) (p : TuiProgress) (k : ℕ) (o : Option TuiTracker)
    → is_end kind ≡ true
    → Map.get p.trackers k ≡ o
    → IsReported p
    → IsReported (finish_tracker elapsed kind p k o)
unfolding finish_tracker tracker_done
finish-IsReported elapsed kind p k none d h r = r
finish-IsReported elapsed kind p k (some u) d h r =
    let p' = emit_tracker elapsed kind p k (record u { terminal = true }) in
    IsReported-if u.terminal p _ (λ q. r)
      (λ q.
        let r' =
          emit-IsReported elapsed kind p k (record u { terminal = true }) (r.named k u h)
            (rw (h, d) (ground arith)) r in
        IsReported-if u.counted _ p' (λ c. kept-IsReported p' _ refl refl r') (λ c. r'))

new-IsReported :
    (elapsed : ℕ) (p : TuiProgress) (message : Text) (total : ℕ) (is_bytes counted : Bool)
    → IsCounted p
    → IsReported p
    → IsReported (new_tracker elapsed p message total is_bytes counted)
unfolding new_tracker
new-IsReported elapsed p message total is_bytes counted c r =
    emit-IsReported elapsed progress_create _ (p.sequence + 1) _ refl
      (rw (c.new_numbers (p.sequence + 1) (omega arith)) refl)
      (record { reported = r.reported; named = r.named })

increment-IsReported :
    (elapsed : ℕ) (p : TuiProgress) (k n : ℕ) (o : Option TuiTracker)
    → Map.get p.trackers k ≡ o
    → IsReported p
    → IsReported (increment_tracker elapsed p k n o)
unfolding increment_tracker
increment-IsReported elapsed p k n none h r = r
increment-IsReported elapsed p k n (some u) h r =
    IsReported-if u.terminal p _ (λ q. r) (λ q. update-IsReported elapsed p k _ u h refl refl r)

message-IsReported :
    (elapsed : ℕ) (p : TuiProgress) (k : ℕ) (s : Text) (o : Option TuiTracker)
    → Map.get p.trackers k ≡ o
    → IsReported p
    → IsReported (update_tracker_message elapsed p k s o)
unfolding update_tracker_message
message-IsReported elapsed p k s none h r = r
message-IsReported elapsed p k s (some u) h r =
    IsReported-if u.terminal p _ (λ q. r) (λ q. update-IsReported elapsed p k _ u h refl refl r)

stop-IsReported : (p : TuiProgress) → IsReported p → IsReported (stop_progress p)
unfolding stop_progress
stop-IsReported p r = IsReported-if p.stopped p _ (λ q. r) (λ q. kept-IsReported p _ refl refl r)

call-IsReported :
    (elapsed : ℕ) (p : TuiProgress) (c : Call)
    → IsCounted p
    → IsReported p
    → IsReported (call elapsed p c)
unfolding call
call-IsReported elapsed p (units_tracker s n) c r = new-IsReported elapsed p s n false true c r
call-IsReported elapsed p (bytes_tracker s n) c r = new-IsReported elapsed p s n true true c r
call-IsReported elapsed p (increment k n) c r = increment-IsReported elapsed p k n _ refl r
call-IsReported elapsed p (update_message k s) c r = message-IsReported elapsed p k s _ refl r
call-IsReported elapsed p (fail k) c r = finish-IsReported elapsed progress_fail p k _ refl refl r
call-IsReported elapsed p (done k) c r = finish-IsReported elapsed progress_done p k _ refl refl r
call-IsReported elapsed p stop c r = stop-IsReported p r

run-IsReported :
    (p : TuiProgress) (cs : List (ℕ × Call)) → IsCounted p → IsReported p → IsReported (run p cs)
unfolding run
run-IsReported p [] c r = r
run-IsReported p ((elapsed, x) ∷ xs) c r =
    run-IsReported (call elapsed p x) xs (call-IsCounted elapsed p x c)
      (call-IsReported elapsed p x c r)

new_tui_progress-IsReported : (n : ℕ) → IsReported (new_tui_progress n)
unfolding new_tui_progress ends Map.get
new_tui_progress-IsReported n = record { reported = λ k. refl; named = λ k t e. cc }

-- After any calls of a new progress and its trackers, in any order, the events hold exactly one that
-- says that a tracker is done or failed where the tracker is over, and none where it is not.
pub run-ends :
    (sequence : ℕ) (cs : List (ℕ × Call)) (k : ℕ)
    → ends (tracker_id k) (run (new_tui_progress sequence) cs).sink
      ≡ over (Map.get (run (new_tui_progress sequence) cs).trackers k)
run-ends sequence cs k =
    (run-IsReported (new_tui_progress sequence) cs (new_tui_progress-IsCounted sequence)
        (new_tui_progress-IsReported sequence)).reported
      k
