-- ===== src/Pipe/Whole.antt =====
-- Whoever reads a pipe to io.EOF has read everything.
use protonmail_go.Prelude.{
  ℕ, zero, suc, ◌≡◌, refl, sym, ◌∙◌, ap, ◌⊎◌, inl, inr, Option, none, some, List, [], ◌∷◌, ◌++◌,
}
use mathlib.Core.List.{append_assoc, append-nil}
use protonmail_go.Errors.{Error}
use protonmail_go.Http.{Bytes}
use protonmail_go.Pipe.{
  Reader, Pipe, pipe_at, new_pipe, move, Demand, more, stop, read_from, stop_reading, demand,
  source_ended, waiting, next_write, proceed, run, body_of, multi_reader,
}

-- Any schedule of the two sides.
pub data Event : Type 0 where
  asks : Demand → Event
  runs : Event

abbrev pub event : Event → Pipe → Pipe
event (asks d) p = demand d p
event runs p = run p

abbrev pub events : List Event → Pipe → Pipe
events [] p = p
events (e ∷ rest) p = events rest (event e p)

-- A pipe against the sources it was made for. While the goroutine writes, what was read and what is
-- left make up the sources one after another. The pipe ends as they do, and only after they were read
-- up to there, unless the reader has closed it: then it ends with the reader's error, after a first
-- part of them.
abbrev pub IsPart : List Reader → Option (Option Error) → Pipe → Type 0
IsPart start none p =
    (p.received ++ (body_of p.todo).bytes ≡ (body_of start).bytes)
    × ((body_of p.todo).failure ≡ (body_of start).failure)
IsPart start (some e) p =
    (p.todo ≡ [])
    × (((p.received ≡ (body_of start).bytes) × (e ≡ (body_of start).failure))
        ⊎ ((x : Error) × (e ≡ some x)
            × (p.reader_end ≡ some x)
            × ((rest : Bytes) × (p.received ++ rest ≡ (body_of start).bytes))))

abbrev pub Explains : List Reader → Pipe → Type 0
Explains start p = IsPart start p.writer_end p

move-append :
    (n : ℕ) (bytes received : Bytes)
    → (move n bytes received).1 ++ (move n bytes received).0 ≡ received ++ bytes
move-append zero bytes received = refl
move-append (suc n) [] received = refl
move-append (suc n) (b ∷ bytes) received =
    move-append n bytes (received ++ b ∷ []) ∙ append_assoc received (b ∷ []) bytes

-- Bytes that move from a source to the reader.
moved-bytes :
    (n : ℕ) (bytes received : Bytes) (failure : Option Error) (rest : Reader)
    → (move n bytes received).1
        ++ (multi_reader
            (record { bytes = (move n bytes received).0; failure = failure })
            rest).bytes
      ≡ received ++ (multi_reader (record { bytes = bytes; failure = failure }) rest).bytes
moved-bytes n bytes received (some e) rest = move-append n bytes received
moved-bytes n bytes received none rest =
    sym (append_assoc (move n bytes received).1 (move n bytes received).0 rest.bytes)
    ∙ ap (λ b. b ++ rest.bytes) (move-append n bytes received)
    ∙ append_assoc received bytes rest.bytes

same_failure :
    (bytes bytes' : Bytes) (failure : Option Error) (rest : Reader)
    → (multi_reader (record { bytes = bytes; failure = failure }) rest).failure
      ≡ (multi_reader (record { bytes = bytes'; failure = failure }) rest).failure
same_failure bytes bytes' (some e) rest = refl
same_failure bytes bytes' none rest = refl

module _ (start : List Reader) where
  read_from-Explains :
      (n : ℕ) (todo : List Reader) (received : Bytes) (w : Option (Option Error)) (e : Option Error)
      → Explains start (pipe_at todo received w e)
      → Explains start (read_from n todo e (pipe_at todo received w e))
  unfolding read_from
  read_from-Explains n [] received w e h = h
  read_from-Explains n (r ∷ rest) received w (some e) h = h
  read_from-Explains n (r ∷ rest) received none none (whole, ends) = (
    moved-bytes (suc n) r.bytes received r.failure (body_of rest) ∙ whole,
    same_failure (move (suc n) r.bytes received).0 r.bytes r.failure (body_of rest) ∙ ends,
  )
  read_from-Explains n (r ∷ rest) received (some w) none h = absurd (cc (h.0))

  stop_reading-Explains :
      (x : Error) (todo : List Reader) (received : Bytes) (w : Option (Option Error))
      (e : Option Error)
      → Explains start (pipe_at todo received w e)
      → Explains start (stop_reading x e (pipe_at todo received w e))
  unfolding stop_reading
  stop_reading-Explains x todo received w (some e) h = h
  stop_reading-Explains x todo received none none h = h
  stop_reading-Explains x todo received (some w) none (left, inl whole) = (left, inl whole)
  stop_reading-Explains x todo received (some w) none (left, inr (y, e, r, part)) = absurd (cc)

  next_write-Explains :
      (bytes : Bytes) (failure : Option Error) (rest : List Reader) (received : Bytes)
      (e : Option Error)
      → Explains start
          (pipe_at (record { bytes = bytes; failure = failure } ∷ rest) received none e)
      → Explains start (
          next_write bytes failure rest
            (pipe_at (record { bytes = bytes; failure = failure } ∷ rest) received none e))
  unfolding next_write source_ended waiting
  next_write-Explains [] (some x) rest received e (whole, ends) =
      (refl, inl (sym (append-nil received) ∙ whole, ends))
  next_write-Explains [] none rest received e (whole, ends) = (whole, ends)
  next_write-Explains (b ∷ bytes) failure rest received none h = h
  next_write-Explains (b ∷ bytes) failure rest received (some x) (whole, ends) =
      (refl, inr (x, refl, refl, (_, whole)))

  proceed-Explains :
      (todo : List Reader) (received : Bytes) (w : Option (Option Error)) (e : Option Error)
      → Explains start (pipe_at todo received w e)
      → Explains start (proceed todo w (pipe_at todo received w e))
  unfolding proceed
  proceed-Explains todo received (some w) e h = h
  proceed-Explains [] received none e (whole, ends) =
      (refl, inl (sym (append-nil received) ∙ whole, ends))
  proceed-Explains (r ∷ rest) received none e h =
      next_write-Explains r.bytes r.failure rest received e h

  event-Explains : (v : Event) (p : Pipe) → Explains start p → Explains start (event v p)
  unfolding demand run
  event-Explains (asks (more n)) p h =
      read_from-Explains n p.todo p.received p.writer_end p.reader_end h
  event-Explains (asks (stop x)) p h =
      stop_reading-Explains x p.todo p.received p.writer_end p.reader_end h
  event-Explains runs p h = proceed-Explains p.todo p.received p.writer_end p.reader_end h

  pub events-keeps : (vs : List Event) (p : Pipe) → Explains start p → Explains start (events vs p)
  events-keeps [] p h = h
  events-keeps (v ∷ vs) p h = events-keeps vs (event v p) (event-Explains v p h)

  -- In whatever order the two sides of a new pipe act, and wherever the reader stops: the pipe ends as
  -- the sources one after another end, without an error or with that of the first that fails, and only
  -- after they were read up to there; or the reader has closed it, and it ends with the reader's error.
  -- At every time what was read is a first part of the sources.
  pub events-Explains : (vs : List Event) → Explains start (events vs (new_pipe start))
  events-Explains vs = events-keeps vs (new_pipe start) (refl, refl)
