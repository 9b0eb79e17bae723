-- ===== src/Pipe.antt =====
-- The pipes of io.Pipe between the goroutine that writes a multipart body, in attachments.go and
-- import.go, and the HTTP client that reads it. The goroutine's writes go on until one fails, and
-- then, or at their end, it closes the pipe.
pub mod Whole
pub mod Progress
mod Tests
use protonmail_go.Prelude.{ℕ, zero, suc, ◌+◌, Option, none, some, List, [], ◌∷◌, ◌++◌, length}
use protonmail_go.Errors.{Error}
use protonmail_go.Http.{Bytes}

-- What can be read of an io.Reader before its end, and the error at its end unless it is io.EOF.
pub record Reader : Type 0 where
  pub bytes : Bytes
  pub failure : Option Error

abbrev pub reader : Bytes → Reader
reader b = record { bytes = b; failure = none }

-- `io.MultiReader` of two
abbrev pub multi_reader : Reader → Reader → Reader
multi_reader first second = elim first.failure [
  | some e ↦ first
  | none ↦ record second { bytes = first.bytes ++ second.bytes }
]

-- A pipe and the goroutine that writes to it: the writes it has not finished, each the copying of a
-- source, by what is left of it; the bytes that were read from the pipe; and for each end whether it
-- is closed. The writing end is closed with an error, or with none, which is read as io.EOF.
pub record Pipe : Type 0 where
  pub todo : List Reader
  pub received : Bytes
  pub writer_end : Option (Option Error)
  pub reader_end : Option Error

abbrev pub pipe_at : List Reader → Bytes → Option (Option Error) → Option Error → Pipe
pipe_at todo received w e = record {
  todo = todo;
  received = received;
  writer_end = w;
  reader_end = e;
}

abbrev pub new_pipe : List Reader → Pipe
new_pipe todo = pipe_at todo [] none none

abbrev pub close_with_error : Option Error → Pipe → Pipe
close_with_error e p = record p { todo = []; writer_end = some e }

-- Up to a number of bytes of the write that waits move to the reader.
abbrev pub move : ℕ → Bytes → Bytes → Bytes × Bytes
move zero bytes received = (bytes, received)
move (suc n) [] received = ([], received)
move (suc n) (b ∷ bytes) received = move n bytes (received ++ b ∷ [])

-- What the reader does: a Read with room for one byte and more, or a close with an error.
pub data Demand : Type 0 where
  more : ℕ → Demand
  stop : Error → Demand

read_from : ℕ → List Reader → Option Error → Pipe → Pipe
read_from n [] closed p = p
read_from n (r ∷ rest) (some e) p = p
read_from n (r ∷ rest) none p =
    let (bytes, received) = move (suc n) r.bytes p.received in
    record p { todo = record r { bytes = bytes } ∷ rest; received = received }

stop_reading : Error → Option Error → Pipe → Pipe
stop_reading e (some earlier) p = p
stop_reading e none p = record p { reader_end = some e }

unfoldable pub demand : Demand → Pipe → Pipe
unfolding read_from stop_reading
demand (more n) p = read_from n p.todo p.reader_end p
demand (stop e) p = stop_reading e p.reader_end p

-- A write that was taken whole has ended, and its source with it.
source_ended : Option Error → List Reader → Pipe → Pipe
source_ended (some e) rest p = close_with_error (some e) p
source_ended none rest p = record p { todo = rest }

-- A write of which some bytes are left waits for the reader, and fails once that has closed.
waiting : Option Error → Pipe → Pipe
waiting (some e) p = close_with_error (some e) p
waiting none p = p

next_write : Bytes → Option Error → List Reader → Pipe → Pipe
unfolding source_ended waiting
next_write [] failure rest p = source_ended failure rest p
next_write (b ∷ bytes) failure rest p = waiting p.reader_end p

proceed : List Reader → Option (Option Error) → Pipe → Pipe
unfolding next_write
proceed todo (some e) p = p
proceed [] none p = close_with_error none p
proceed (r ∷ rest) none p = next_write r.bytes r.failure rest p

-- The goroutine goes on as far as its next write, or to its end.
unfoldable pub run : Pipe → Pipe
unfolding proceed
run p = proceed p.todo p.writer_end p

-- The two sides in turn.
unfoldable pub rounds : List Demand → Pipe → Pipe
rounds [] p = p
rounds (d ∷ rest) p = rounds rest (run (demand d p))

-- Sources one after another, up to the first that fails.
abbrev pub body_of : List Reader → Reader
body_of [] = reader []
body_of (r ∷ rest) = multi_reader r (body_of rest)
