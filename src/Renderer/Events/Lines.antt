-- ===== src/Renderer/Events/Lines.antt =====
-- The lines of a text, and what `EventWriter` emits of them.
use tgdownloader.Prelude.{
  ℕ, zero, suc, ◌<◌, ◌≡◌, refl, ◌∙◌, sym, ap, false, Option, none, some, List, [], ◌∷◌, ◌++◌, Text,
  ◌==◌, nat_eq, length, if◌then◌else◌, map, arith, append_assoc, append-nil, Bool-cases, inl, inr,
  ◌≢◌, All, nat_beq_iff,
}
use tgdownloader.Renderer.Events.{
  newline, cut_newline, trim_carriage_return, EventWriter, emit_lines, write, line_event, Event,
  push_cut,
}

-- The specification: complete lines, and the fragment behind the last newline.
unfoldable pub add_rune : ℕ → List Text × Text → List Text × Text
add_rune c ([], rest) = ([], c ∷ rest)
add_rune c (l ∷ ls, rest) = ((c ∷ l) ∷ ls, rest)

unfoldable pub lines : Text → List Text × Text
lines [] = ([], [])
lines (c ∷ cs) = if c == newline then ([] ∷ (lines cs).0, (lines cs).1) else add_rune c (lines cs)

abbrev pub line_events : List Text → List Event
line_events ls = map (λ l. line_event (trim_carriage_return l)) ls

abbrev from_cut : Text → Option (Text × Text) → List Text × Text
from_cut s none = ([], s)
from_cut s (some (before, after)) = (before ∷ (lines after).0, (lines after).1)

add_rune-from_cut :
    (c : ℕ) (cs : Text) (o : Option (Text × Text))
    → add_rune c (from_cut cs o) ≡ from_cut (c ∷ cs) (push_cut c o)
unfolding add_rune
add_rune-from_cut c cs none = refl
add_rune-from_cut c cs (some (before, after)) = refl

-- `cut_newline` takes the first line.
lines-cut_newline : (s : Text) → lines s ≡ from_cut s (cut_newline s)
unfolding cut_newline lines
lines-cut_newline [] = refl
lines-cut_newline (c ∷ cs) = elim (Bool-cases (c == newline)) [
  | inl e ↦ rw e refl
  | inr e ↦ rw e (ap (add_rune c) (lines-cut_newline cs) ∙ add_rune-from_cut c cs (cut_newline cs))
]

abbrev Shorter : Text → Option (Text × Text) → Type 0
Shorter s none = Unit
Shorter s (some (before, after)) = length after < length s

Shorter-push_cut :
    (c : ℕ) (cs : Text) (o : Option (Text × Text)) → Shorter cs o → Shorter (c ∷ cs) (push_cut c o)
Shorter-push_cut c cs none h = tt
Shorter-push_cut c cs (some (before, after)) h = omega arith

Shorter-cut_newline : (s : Text) → Shorter s (cut_newline s)
unfolding cut_newline
Shorter-cut_newline [] = tt
Shorter-cut_newline (c ∷ cs) = elim (Bool-cases (c == newline)) [
  | inl e ↦ rw e (omega arith)
  | inr e ↦ rw e (Shorter-push_cut c cs _ (Shorter-cut_newline cs))
]

abbrev emitted : List Event → List Text × Text → EventWriter
emitted sink (ls, rest) = record { sink = sink ++ line_events ls; pending = rest }

emitted-cons :
    (sink : List Event) (l : Text) (r : List Text × Text)
    → emitted (sink ++ line_event (trim_carriage_return l) ∷ []) r ≡ emitted sink (l ∷ r.0, r.1)
emitted-cons sink l (ls, rest) = rw append_assoc refl

-- One round of the loop, over what is assumed of the rounds that follow.
emit_lines-round :
    (fuel : ℕ) (sink : List Event) (s : Text) (o : Option (Text × Text))
    → ((sink' : List Event) (t : Text)
        → length t < fuel
        → emit_lines fuel (record { sink = sink'; pending = t }) ≡ emitted sink' (lines t))
    → length s < suc fuel
    → Shorter s o
    → cut_newline s ≡ o
    → emit_lines (suc fuel) (record { sink = sink; pending = s }) ≡ emitted sink (from_cut s o)
unfolding emit_lines
emit_lines-round fuel sink s none ih h sh e = rw (e, emit_lines, append-nil) refl
emit_lines-round fuel sink s (some (before, after)) ih h sh e =
    rw (e, emit_lines) (ih _ after (omega arith) ∙ emitted-cons sink before (lines after))

-- With fuel above the length the loop emits every complete line and keeps the fragment.
emit_lines-lines :
    (fuel : ℕ) (sink : List Event) (s : Text)
    → length s < fuel
    → emit_lines fuel (record { sink = sink; pending = s }) ≡ emitted sink (lines s)
emit_lines-lines zero sink s h = absurd (omega arith)
emit_lines-lines (suc fuel) sink s h = rw (lines-cut_newline s) (
    emit_lines-round fuel sink s (cut_newline s) (λ sink' t. emit_lines-lines fuel sink' t) h
      (Shorter-cut_newline s) refl)

-- One call of `Write` emits exactly the complete lines of the pending text followed by the new
-- bytes, keeps the fragment behind the last newline, and reports every byte as written.
pub write-lines :
    (w : EventWriter) (p : Text) → write w p ≡ (emitted w.sink (lines (w.pending ++ p)), length p)
unfolding write
write-lines w p =
    rw (emit_lines-lines (suc (length (w.pending ++ p))) w.sink (w.pending ++ p) (omega arith)) refl

abbrev resume : List Text × Text → Text → List Text × Text
resume p ys = (p.0 ++ (lines (p.1 ++ ys)).0, (lines (p.1 ++ ys)).1)

add_rune-resume :
    (c : ℕ) (ys : Text) (p : List Text × Text)
    → (c == newline) ≡ false
    → add_rune c (resume p ys) ≡ resume (add_rune c p) ys
unfolding lines add_rune
add_rune-resume c ys ([], rest) e = rw e refl
add_rune-resume c ys (l ∷ ls, rest) e = refl

-- The lines of a text can be computed chunk by chunk.
lines-append : (xs ys : Text) → lines (xs ++ ys) ≡ resume (lines xs) ys
unfolding lines add_rune
lines-append [] ys = refl
lines-append (c ∷ cs) ys = elim (Bool-cases (c == newline)) [
  | inl e ↦ rw e (ap (λ (p : List Text × Text). ([] ∷ p.0, p.1)) (lines-append cs ys))
  | inr e ↦ rw e (ap (add_rune c) (lines-append cs ys) ∙ add_rune-resume c ys (lines cs) e)
]

line_events-append : (xs ys : List Text) → line_events (xs ++ ys) ≡ line_events xs ++ line_events ys
line_events-append [] ys = refl
line_events-append (x ∷ xs) ys =
    ap (line_event (trim_carriage_return x) ∷◌) (line_events-append xs ys)

emitted-resume :
    (sink : List Event) (p : List Text × Text) (q : Text)
    → emitted (emitted sink p).sink (lines ((emitted sink p).pending ++ q))
      ≡ emitted sink (resume p q)
emitted-resume sink (ls, rest) q = rw (line_events-append, append_assoc) refl

-- How the bytes are cut into writes does not matter: two writes leave the same events, in the same
-- order, and the same pending fragment as one write of the concatenation.
pub write-write : (w : EventWriter) (p q : Text) → (write (write w p).0 q).0 ≡ (write w (p ++ q)).0
write-write w p q =
    rw (write-lines (write w p).0 q, write-lines w p, write-lines w (p ++ q))
      (emitted-resume w.sink (lines (w.pending ++ p)) q
        ∙ ap (emitted w.sink)
            (sym (lines-append (w.pending ++ p) q) ∙ ap lines (append_assoc w.pending p q)))

-- The text that lines and a last fragment stand for.
abbrev pub unlines : List Text × Text → Text
unlines ([], rest) = rest
unlines (l ∷ ls, rest) = l ++ (newline ∷ unlines (ls, rest))

abbrev pub HasNoNewline : Text → Type 0
HasNoNewline s = All (λ c. c ≢ newline) s

unlines-add_rune : (c : ℕ) (p : List Text × Text) → unlines (add_rune c p) ≡ c ∷ unlines p
unfolding add_rune
unlines-add_rune c ([], rest) = refl
unlines-add_rune c (l ∷ ls, rest) = refl

unlines-lines : (s : Text) → unlines (lines s) ≡ s
unfolding lines
unlines-lines [] = refl
unlines-lines (c ∷ cs) = elim (Bool-cases (c == newline)) [
  | inl e ↦ rw (e, (nat_beq_iff c newline).0 e) (ap (newline ∷◌) (unlines-lines cs))
  | inr e ↦ rw (e, unlines-add_rune) (ap (c ∷◌) (unlines-lines cs))
]

abbrev AreLines : List Text × Text → Type 0
AreLines p = All HasNoNewline p.0 × HasNoNewline p.1

AreLines-add_rune :
    (c : ℕ) (p : List Text × Text) → c ≢ newline → AreLines p → AreLines (add_rune c p)
unfolding add_rune
AreLines-add_rune c ([], rest) n (a, b) = (tt, (n, b))
AreLines-add_rune c (l ∷ ls, rest) n (a, b) = (((n, a.0), a.1), b)

AreLines-lines : (s : Text) → AreLines (lines s)
unfolding lines
AreLines-lines [] = (tt, tt)
AreLines-lines (c ∷ cs) = elim (Bool-cases (c == newline)) [
  | inl e ↦ rw e ((tt, (AreLines-lines cs).0), (AreLines-lines cs).1)
  | inr e ↦ rw e (
      AreLines-add_rune c (lines cs) (λ q. cc (e, (nat_beq_iff c newline).1 q)) (AreLines-lines cs))
]

-- A write of `p` behind a pending fragment: there are lines `ls` and a rest, none of them with a
-- newline, that make up the pending fragment followed by `p`; the events emitted are those of `ls`,
-- in order, each without its carriage return; the rest stays pending; all of `p` is reported written.
pub write_content :
    (w : EventWriter) (p : Text)
    → (ls : List Text) × (rest : Text) × (write w p ≡ (
      record { sink = w.sink ++ map (λ l. line_event (trim_carriage_return l)) ls; pending = rest },
      length p,
    ))
      × (unlines (ls, rest) ≡ w.pending ++ p)
      × All HasNoNewline ls
      × HasNoNewline rest
write_content w p =
    let s : Text = w.pending ++ p in
    (
      (lines s).0,
      (lines s).1,
      write-lines w p,
      unlines-lines s,
      (AreLines-lines s).0,
      (AreLines-lines s).1,
    )
