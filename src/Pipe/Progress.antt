-- ===== src/Pipe/Progress.antt =====
-- The goroutine that writes to a pipe comes to its end.
use protonmail_go.Prelude.{
  ℕ, zero, suc, ◌+◌, ◌<◌, ◌≤◌, ◌≡◌, ◌≢◌, subst, ap, ◌∙◌, refl, sym, ◌⊎◌, inl, inr, Option, none,
  some, List, [], ◌∷◌, ◌++◌, arith, length,
}
use protonmail_go.Errors.{Error}
use protonmail_go.Http.{Bytes}
use protonmail_go.Pipe.{
  Reader, Pipe, pipe_at, new_pipe, move, Demand, more, stop, read_from, stop_reading, demand,
  source_ended, waiting, next_write, proceed, run, rounds, body_of,
}
use protonmail_go.Pipe.Whole.{Explains, IsPart, Event, asks, runs, events, events-Explains}

-- One for each byte that is left, and one for each write.
abbrev pub size : List Reader → ℕ
size [] = 0
size (r ∷ rest) = length r.bytes + 1 + size rest

-- The writing end is closed.
abbrev pub IsEnded : Pipe → Type 0
IsEnded p = (e : Option Error) × (p.writer_end ≡ some e)

-- Ended, or with less to write than a bound.
abbrev IsAdvanced : ℕ → Pipe → Type 0
IsAdvanced n p = IsEnded p ⊎ (size p.todo < n)

length-move : (n : ℕ) (bytes received : Bytes) → length (move n bytes received).0 ≤ length bytes
length-move zero bytes received = omega arith
length-move (suc n) [] received = omega arith
length-move (suc n) (b ∷ bytes) received = omega (arith, length-move n bytes (received ++ b ∷ []))

-- A Read of one byte and more takes something of a write of which something is left.
length-move_some :
    (n : ℕ) (bytes received : Bytes)
    → (move (suc n) bytes received).0 ≢ []
    → length (move (suc n) bytes received).0 < length bytes
length-move_some n [] received some_left = absurd (some_left refl)
length-move_some n (b ∷ bytes) received some_left =
    omega (arith, length-move n bytes (received ++ b ∷ []))

waiting-IsAdvanced :
    (n : ℕ) (p : Pipe) (e : Option Error)
    → (e ≡ none → size p.todo < n)
    → IsAdvanced n (waiting e p)
unfolding waiting
waiting-IsAdvanced n p (some x) less = inl (some x, refl)
waiting-IsAdvanced n p none less = inr (less refl)

next_write-IsAdvanced :
    (n : ℕ) (bytes : Bytes) (failure : Option Error) (rest : List Reader) (p : Pipe)
    → (bytes ≢ [] → p.reader_end ≡ none → size p.todo < n)
    → size rest < n
    → IsAdvanced n (next_write bytes failure rest p)
unfolding next_write source_ended
next_write-IsAdvanced n [] (some x) rest p less left = inl (some x, refl)
next_write-IsAdvanced n [] none rest p less left = inr left
next_write-IsAdvanced n (b ∷ bytes) failure rest p less left =
    waiting-IsAdvanced n p p.reader_end (less (λ e. cc))

-- One turn of both sides of a pipe that has not ended.
turn-IsAdvanced :
    (d : Demand) (todo : List Reader) (received : Bytes) (e : Option Error)
    → IsAdvanced (size todo) (run (demand d (pipe_at todo received none e)))
unfolding demand run proceed read_from stop_reading
turn-IsAdvanced (more n) [] received e = inl (none, refl)
turn-IsAdvanced (more n) (r ∷ rest) received (some x) =
    next_write-IsAdvanced _ r.bytes r.failure rest _ (λ s e. absurd (cc)) (omega arith)
turn-IsAdvanced (more n) (r ∷ rest) received none =
    next_write-IsAdvanced _ (move (suc n) r.bytes received).0 r.failure rest _
      (λ s e. omega (arith, length-move_some n r.bytes received s)) (omega arith)
turn-IsAdvanced (stop x) [] received (some y) = inl (none, refl)
turn-IsAdvanced (stop x) [] received none = inl (none, refl)
turn-IsAdvanced (stop x) (r ∷ rest) received (some y) =
    next_write-IsAdvanced _ r.bytes r.failure rest _ (λ s e. absurd (cc)) (omega arith)
turn-IsAdvanced (stop x) (r ∷ rest) received none =
    next_write-IsAdvanced _ r.bytes r.failure rest _ (λ s e. absurd (cc)) (omega arith)

-- A pipe that has ended stays so.
turn-IsEnded :
    (d : Demand) (todo : List Reader) (received : Bytes) (w e : Option Error)
    → IsEnded (run (demand d (pipe_at todo received (some w) e)))
unfolding demand run proceed read_from stop_reading
turn-IsEnded (more n) [] received w e = (w, refl)
turn-IsEnded (more n) (r ∷ rest) received w (some x) = (w, refl)
turn-IsEnded (more n) (r ∷ rest) received w none = (w, refl)
turn-IsEnded (stop x) todo received w (some y) = (w, refl)
turn-IsEnded (stop x) todo received w none = (w, refl)

turn :
    (d : Demand) (p : Pipe) (w : Option (Option Error))
    → p.writer_end ≡ w
    → IsAdvanced (size p.todo) (run (demand d p))
turn d p none h =
    subst (λ w. IsAdvanced (size p.todo) (run (demand d (record p { writer_end = w })))) (sym h)
      (turn-IsAdvanced d p.todo p.received p.reader_end)
turn d p (some w) h =
    subst (λ v. IsAdvanced (size p.todo) (run (demand d (record p { writer_end = v })))) (sym h)
      (inl (turn-IsEnded d p.todo p.received w p.reader_end))

rounds-keep-IsEnded : (ds : List Demand) (p : Pipe) → IsEnded p → IsEnded (rounds ds p)
unfolding rounds
rounds-keep-IsEnded [] p h = h
rounds-keep-IsEnded (d ∷ ds) p (w, e) = rounds-keep-IsEnded ds (run (demand d p)) (
    subst (λ v. IsEnded (run (demand d (record p { writer_end = v })))) (sym e)
      (turn-IsEnded d p.todo p.received w p.reader_end))

rounds-IsEnded : (ds : List Demand) (p : Pipe) → size p.todo < length ds → IsEnded (rounds ds p)
unfolding rounds
rounds-IsEnded [] p h = absurd (omega arith)
rounds-IsEnded (d ∷ ds) p h = elim (turn d p p.writer_end refl) [
  | inl ended ↦ rounds-keep-IsEnded ds (run (demand d p)) ended
  | inr less ↦ rounds-IsEnded ds (run (demand d p)) (omega arith)
]

turns : List Demand → List Event
turns [] = []
turns (d ∷ ds) = asks d ∷ runs ∷ turns ds

rounds-events : (ds : List Demand) (p : Pipe) → rounds ds p ≡ events (turns ds) p
unfolding rounds turns
rounds-events [] p = refl
rounds-events (d ∷ ds) p = rounds-events ds (run (demand d p))

-- How a pipe ends: as its sources do, which were read up to there, or with the reader's error.
abbrev pub Finishes : List Reader → Pipe → Type 0
Finishes start p =
    ((p.writer_end ≡ some (body_of start).failure) × (p.received ≡ (body_of start).bytes))
    ⊎ ((x : Error) × (p.writer_end ≡ some (some x)) × (p.reader_end ≡ some x))

IsEnded-Finishes :
    (start : List Reader) (p : Pipe) (w : Option Error)
    → p.writer_end ≡ some w
    → Explains start p
    → Finishes start p
IsEnded-Finishes start p w e x = elim (subst (λ v. IsPart start v p) e x).1 [
  | inl (whole, ends) ↦ inl (e ∙ ap (λ v. some v) ends, whole)
  | inr (y, is, closed, part) ↦ inr (y, e ∙ ap (λ v. some v) is, closed)
]

-- However a reader goes on, by reads of one byte and more or by closing its end, after one round more
-- than there are writes and bytes the goroutine has come to its end and closed the pipe: as the sources
-- one after another end, which were then read up to there, or with the error that the reader closed
-- with.
pub rounds-Finishes :
    (start : List Reader) (ds : List Demand)
    → size start < length ds
    → Finishes start (rounds ds (new_pipe start))
rounds-Finishes start ds h =
    let (w, e) = rounds-IsEnded ds (new_pipe start) h in
    IsEnded-Finishes start (rounds ds (new_pipe start)) w e (
      subst (Explains start) (sym (rounds-events ds (new_pipe start)))
        (events-Explains start (turns ds)))
