-- ===== src/Audit/Concurrent.antt =====
-- The writer among the threads that log, and the one that stops it: no event is lost.
use open_arango_dbcore.Prelude.{
  ◌≡◌, refl, sym, ap, subst, ◌∙◌, Bool, true, false, List, [], ◌∷◌, ◌++◌, length, if◌then◌else◌,
  Str, append_assoc, append_nil, map, arith,
}
use open_arango_dbcore.Audit.{
  AuditEvent, format, FileOutput, Phase, waiting, checking, rechecking, draining, ended, writing,
  final_writing, AuditLogger, drain_step_at, drain_step, drain_loop, steps_left, lower_flag, stop,
  log,
}
use open_arango_dbcore.Audit.Files.{Kept}
use open_arango_dbcore.Audit.Drain.{
  pending, takes, Accounted, Settled, AllWritten, Accounted-drain_step_at, drain_loop-ends,
}

-- From `first`, the events logged so far and the state: a thread logs, the writer makes a step, or
-- stop lowers the flag.
pub data Run (first : AuditLogger) : List AuditEvent → AuditLogger → Type 0 where
  begun : Run first [] first
  logs :
      (events : List AuditEvent) (l : AuditLogger) (event : AuditEvent)
      → Run first events l
      → Run first (events ++ event ∷ []) (log event l)
  writes :
      (events : List AuditEvent) (l : AuditLogger)
      → Run first events l
      → Run first events (drain_step l)
  lowers :
      (events : List AuditEvent) (l : AuditLogger)
      → Run first events l
      → Run first events (lower_flag l)

-- Only a writer that has seen the flag down is past its loop.
abbrev Taking : Bool → Phase → Type 0
Taking running phase = running ≡ true → takes phase ≡ true

Taking-test : (running : Bool) → Taking running (if running then waiting else rechecking)
Taking-test true up = refl
Taking-test false up = cc

Taking-drain_step_at :
    (phase : Phase) (l : AuditLogger)
    → Taking l.running phase
    → Taking (drain_step_at phase l).running (drain_step_at phase l).phase
unfolding drain_step_at
Taking-drain_step_at waiting l taking up = refl
Taking-drain_step_at (writing []) l taking up = refl
Taking-drain_step_at (writing (event ∷ batch)) l taking up = refl
Taking-drain_step_at checking l taking up = Taking-test l.running up
Taking-drain_step_at rechecking l taking up = let never : false ≡ true = taking up in cc
Taking-drain_step_at draining l taking up = taking up
Taking-drain_step_at (final_writing []) l taking up = taking up
Taking-drain_step_at (final_writing (event ∷ remaining)) l taking up = taking up
Taking-drain_step_at ended l taking up = taking up

Run-Taking :
    (first l : AuditLogger) (events : List AuditEvent)
    → takes first.phase ≡ true
    → Run first events l
    → Taking l.running l.phase
unfolding drain_step log lower_flag
Run-Taking first l events started begun up = started
Run-Taking first l events started (logs events' before event run) up =
    Run-Taking first before events' started run up
Run-Taking first l events started (writes events' before run) up =
    Taking-drain_step_at before.phase before (Run-Taking first before events' started run) up
Run-Taking first l events started (lowers events' before run) up = cc

Accounted-log :
    (all : List AuditEvent) (before : List FileOutput) (event : AuditEvent) (l : AuditLogger)
    → Accounted all before l.phase l.buffer l.file_outputs
    → Accounted (all ++ event ∷ []) before l.phase (l.buffer ++ event ∷ []) l.file_outputs
Accounted-log all before event l (written, same, kept) = (
  written,
  ap (λ es. written ++ es) (sym (append_assoc (pending l.phase) l.buffer (event ∷ [])))
      ∙ sym (append_assoc written (pending l.phase ++ l.buffer) (event ∷ []))
      ∙ ap (λ es. es ++ event ∷ []) same,
  kept,
)

-- Whatever the interleaving of logging threads, writer and stop, no event is lost, doubled or
-- reordered: from a state accounted for, what the open files got, then what the writer holds, then
-- the buffer is what there was followed by what was logged.
pub Run-Accounted :
    (first l : AuditLogger) (events all : List AuditEvent) (before : List FileOutput)
    → Accounted all before first.phase first.buffer first.file_outputs
    → Run first events l
    → Accounted (all ++ events) before l.phase l.buffer l.file_outputs
unfolding drain_step log lower_flag
Run-Accounted first l events all before accounted begun =
    subst (λ es. Accounted es before first.phase first.buffer first.file_outputs)
      (sym (append_nil all)) accounted
Run-Accounted first l events all before accounted (logs events' l' event run) =
    subst (λ es. Accounted es before l'.phase (l'.buffer ++ event ∷ []) l'.file_outputs)
      (append_assoc all events' (event ∷ []))
      (Accounted-log (all ++ events') before event l'
        (Run-Accounted first l' events' all before accounted run))
Run-Accounted first l events all before accounted (writes events' l' run) =
    Accounted-drain_step_at l'.phase l' (all ++ events) before
      (Run-Accounted first l' events' all before accounted run)
Run-Accounted first l events all before accounted (lowers events' l' run) =
    Run-Accounted first l' events' all before accounted run

in_the_loop :
    (phase : Phase) (buffer : List AuditEvent) (outputs : List FileOutput)
    → takes phase ≡ true
    → Settled phase buffer outputs
in_the_loop waiting buffer outputs taking = tt
in_the_loop (writing batch) buffer outputs taking = tt
in_the_loop checking buffer outputs taking = tt
in_the_loop rechecking buffer outputs taking = tt
in_the_loop draining buffer outputs taking = tt
in_the_loop (final_writing remaining) buffer outputs taking = cc
in_the_loop ended buffer outputs taking = cc

nothing_written :
    (opened : Bool) (lines : List Str) → lines ≡ lines ++ (if opened then map format [] else [])
nothing_written true lines = sym (append_nil lines)
nothing_written false lines = sym (append_nil lines)

as_before : (outputs : List FileOutput) → Kept [] outputs outputs
as_before [] = tt
as_before (fo ∷ outputs) = (refl, refl, nothing_written fo.is_open fo.lines, as_before outputs)

abbrev stopped_from : Bool → AuditLogger → AuditLogger
stopped_from joinable l =
    if joinable
    then record (drain_loop (steps_left l.phase (length l.buffer)) (lower_flag l)) {
      joinable = false;
    }
    else lower_flag l

-- stop loses no event: after any run of a writer that began with its wait, in which the flag has not
-- been lowered, stop ends the writer, and every open file has, in order, what was in the buffer and
-- all that was logged, and was flushed.
pub Run-stop :
    (first l : AuditLogger) (events : List AuditEvent)
    → first.phase ≡ waiting
    → Run first events l
    → l.running ≡ true
    → l.joinable ≡ true
    → AllWritten (first.buffer ++ events) first.file_outputs (stop l)
unfolding stop lower_flag
Run-stop first l events at_start run up threaded =
    let (written, same, kept) : Accounted (first.buffer ++ events) first.file_outputs l.phase
        l.buffer l.file_outputs =
      Run-Accounted first l events first.buffer first.file_outputs
        ([], ap (λ p. pending p ++ first.buffer) at_start, as_before first.file_outputs) run in
    let taking : takes l.phase ≡ true = Run-Taking first l events (ap takes at_start) run up in
    subst (λ j. AllWritten (first.buffer ++ events) first.file_outputs (stopped_from j l))
      (sym threaded)
      (drain_loop-ends (steps_left l.phase (length l.buffer)) (lower_flag l)
        (first.buffer ++ events) first.file_outputs refl (omega arith) (written, same, kept)
        (in_the_loop l.phase l.buffer l.file_outputs taking))
