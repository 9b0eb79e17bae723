-- ===== src/Pipe/Tests.antt =====
-- Two sources through a pipe, the first read in pieces.
use protonmail_go.Prelude.{◌≡◌, refl, some, List, [], ◌∷◌, arith}
use protonmail_go.Errors.{other}
use protonmail_go.Pipe.{Reader, reader, new_pipe, Demand, more, stop, demand, run, rounds}
use protonmail_go.Pipe.Whole.{Event, asks, runs, events, Explains, events-Explains}
use protonmail_go.Pipe.Progress.{Finishes, rounds-Finishes}

abbrev sources : List Reader
sources = reader (1 ∷ 2 ∷ 3 ∷ []) ∷ reader [] ∷ reader (4 ∷ []) ∷ []

abbrev schedule : List Event
schedule = asks (more 1) ∷ runs ∷ runs ∷ asks (more 5) ∷ asks (stop (other "bye")) ∷ runs ∷ []

schedule_reads : (events schedule (new_pipe sources)).received ≡ 1 ∷ 2 ∷ 3 ∷ []
unfolding demand run
schedule_reads = refl

-- After the reader has closed its end, the next write fails with the reader's error.
stopped_ends :
    (events (asks (more 0) ∷ asks (stop (other "bye")) ∷ runs ∷ []) (new_pipe sources)).writer_end
    ≡ some (some (other "bye"))
unfolding demand run
stopped_ends = refl

events-Explains_example : Explains sources (events schedule (new_pipe sources))
events-Explains_example = events-Explains sources schedule

abbrev demands : List Demand
demands = more 1 ∷ more 0 ∷ more 0 ∷ more 0 ∷ more 7 ∷ more 0 ∷ stop (other "bye") ∷ more 0 ∷ []

rounds-Finishes_example : Finishes sources (rounds demands (new_pipe sources))
rounds-Finishes_example = rounds-Finishes sources demands (omega arith)
