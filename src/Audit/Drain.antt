-- ===== src/Audit/Drain.antt =====
-- The writer thread by itself: it ends, and writes what is in the buffer.
use open_arango_dbcore.Prelude.{
  ℕ, zero, suc, ◌+◌, ◌*◌, ◌≤◌, ◌≡◌, refl, sym, subst, ◌∙◌, Bool, true, false, List, [], ◌∷◌, ◌++◌,
  if◌then◌else◌, length, append_nil, append_assoc, arith,
}
use open_arango_dbcore.Audit.{
  AuditEvent, FileOutput, Phase, waiting, checking, rechecking, draining, ended, writing,
  final_writing, AuditLogger, is_empty, drain_step_at, drain_step, drain_loop, steps_left,
}
use open_arango_dbcore.Audit.Files.{
  Kept, AllFlushed, AllFlushed-flush_all, Kept-flush_all, Kept-write_event,
}

-- The events taken from the buffer and not written.
abbrev pub pending : Phase → List AuditEvent
pending (writing batch) = batch
pending (final_writing remaining) = remaining
pending waiting = []
pending checking = []
pending rechecking = []
pending draining = []
pending ended = []

-- The phases before the writer has seen the flag down.
abbrev pub takes : Phase → Bool
takes waiting = true
takes (writing batch) = true
takes checking = true
takes rechecking = false
takes draining = false
takes (final_writing remaining) = false
takes ended = false

-- What was written is what was there, less what is pending and what is in the buffer.
abbrev pub Accounted :
    List AuditEvent → List FileOutput → Phase → List AuditEvent → List FileOutput → Type 0
Accounted all before phase buffer outputs =
    (written : List AuditEvent) × (written ++ (pending phase ++ buffer) ≡ all)
    × Kept written before outputs

-- The writer has ended, nothing is left, and every open file got the events and was flushed.
abbrev pub AllWritten : List AuditEvent → List FileOutput → AuditLogger → Type 0
AllWritten all before l =
    (l.phase ≡ ended) × (l.buffer ≡ []) × Kept all before l.file_outputs × AllFlushed l.file_outputs

-- After the last swap the buffer is only filled by log; the end is after a flush.
abbrev pub Settled : Phase → List AuditEvent → List FileOutput → Type 0
Settled (final_writing remaining) buffer outputs = buffer ≡ []
Settled ended buffer outputs = (buffer ≡ []) × AllFlushed outputs
Settled waiting buffer outputs = Unit {0}
Settled (writing batch) buffer outputs = Unit {0}
Settled checking buffer outputs = Unit {0}
Settled rechecking buffer outputs = Unit {0}
Settled draining buffer outputs = Unit {0}

-- The two tests of drainLoop leave nothing pending.
nothing_pending :
    (test : Bool) (first second : Phase)
    → pending first ≡ []
    → pending second ≡ []
    → pending (if test then first else second) ≡ []
nothing_pending true first second first_nothing second_nothing = first_nothing
nothing_pending false first second first_nothing second_nothing = second_nothing

-- A step of the writer accounts for the same events.
pub Accounted-drain_step_at :
    (phase : Phase) (l : AuditLogger) (all : List AuditEvent) (before : List FileOutput)
    → Accounted all before phase l.buffer l.file_outputs
    → Accounted all before
        (drain_step_at phase l).phase
        (drain_step_at phase l).buffer
        (drain_step_at phase l).file_outputs
unfolding drain_step_at
Accounted-drain_step_at waiting l all before (written, same, kept) =
    (written, rw (append_nil l.buffer) (same), kept)
Accounted-drain_step_at (writing []) l all before (written, same, kept) =
    (written, same, Kept-flush_all written before l.file_outputs kept)
Accounted-drain_step_at (writing (event ∷ batch)) l all before (written, same, kept) = (
  written ++ event ∷ [],
  append_assoc written (event ∷ []) (batch ++ l.buffer) ∙ same,
  Kept-write_event event written before l.file_outputs kept,
)
Accounted-drain_step_at checking l all before (written, same, kept) =
    (written, rw (nothing_pending l.running waiting rechecking refl refl) (same), kept)
Accounted-drain_step_at rechecking l all before (written, same, kept) =
    (written, rw (nothing_pending (is_empty l.buffer) draining waiting refl refl) (same), kept)
Accounted-drain_step_at draining l all before (written, same, kept) =
    (written, rw (append_nil l.buffer) (same), kept)
Accounted-drain_step_at (final_writing []) l all before (written, same, kept) =
    (written, same, Kept-flush_all written before l.file_outputs kept)
Accounted-drain_step_at (final_writing (event ∷ remaining)) l all before (written, same, kept) = (
  written ++ event ∷ [],
  append_assoc written (event ∷ []) (remaining ++ l.buffer) ∙ same,
  Kept-write_event event written before l.file_outputs kept,
)
Accounted-drain_step_at ended l all before (written, same, kept) = (written, same, kept)

Settled-test :
    (test : Bool) (first second : Phase) (buffer : List AuditEvent) (outputs : List FileOutput)
    → Settled first buffer outputs
    → Settled second buffer outputs
    → Settled (if test then first else second) buffer outputs
Settled-test true first second buffer outputs at_first at_second = at_first
Settled-test false first second buffer outputs at_first at_second = at_second

pub Settled-drain_step_at :
    (phase : Phase) (l : AuditLogger)
    → Settled phase l.buffer l.file_outputs
    → Settled
        (drain_step_at phase l).phase
        (drain_step_at phase l).buffer
        (drain_step_at phase l).file_outputs
unfolding drain_step_at
Settled-drain_step_at waiting l settled = tt
Settled-drain_step_at (writing []) l settled = tt
Settled-drain_step_at (writing (event ∷ batch)) l settled = tt
Settled-drain_step_at checking l settled =
    Settled-test l.running waiting rechecking l.buffer l.file_outputs tt tt
Settled-drain_step_at rechecking l settled =
    Settled-test (is_empty l.buffer) draining waiting l.buffer l.file_outputs tt tt
Settled-drain_step_at draining l settled = refl
Settled-drain_step_at (final_writing []) l settled = (settled, AllFlushed-flush_all l.file_outputs)
Settled-drain_step_at (final_writing (event ∷ remaining)) l settled = settled
Settled-drain_step_at ended l settled = settled

pub running-drain_step_at :
    (phase : Phase) (l : AuditLogger) → (drain_step_at phase l).running ≡ l.running
unfolding drain_step_at
running-drain_step_at waiting l = refl
running-drain_step_at (writing []) l = refl
running-drain_step_at (writing (event ∷ batch)) l = refl
running-drain_step_at checking l = refl
running-drain_step_at rechecking l = refl
running-drain_step_at draining l = refl
running-drain_step_at (final_writing []) l = refl
running-drain_step_at (final_writing (event ∷ remaining)) l = refl
running-drain_step_at ended l = refl

rechecked_steps :
    (buffer : List AuditEvent) (fuel : ℕ)
    → 10 * length buffer + 4 ≤ suc fuel
    → steps_left (if is_empty buffer then draining else waiting) (length buffer) ≤ fuel
unfolding steps_left
rechecked_steps [] fuel enough = omega arith
rechecked_steps (event ∷ buffer) fuel enough = omega arith

-- With the flag down, each step brings the writer nearer to its end.
steps_left-drain_step_at :
    (phase : Phase) (l : AuditLogger) (fuel : ℕ)
    → l.running ≡ false
    → steps_left phase (length l.buffer) ≤ suc fuel
    → steps_left (drain_step_at phase l).phase (length (drain_step_at phase l).buffer) ≤ fuel
unfolding steps_left drain_step_at
steps_left-drain_step_at waiting l fuel down enough = omega arith
steps_left-drain_step_at (writing []) l fuel down enough = omega arith
steps_left-drain_step_at (writing (event ∷ batch)) l fuel down enough = omega arith
steps_left-drain_step_at checking l fuel down enough = rw (down) (omega arith)
steps_left-drain_step_at rechecking l fuel down enough = rechecked_steps l.buffer fuel enough
steps_left-drain_step_at draining l fuel down enough = omega arith
steps_left-drain_step_at (final_writing []) l fuel down enough = omega arith
steps_left-drain_step_at (final_writing (event ∷ remaining)) l fuel down enough = omega arith
steps_left-drain_step_at ended l fuel down enough = omega arith

no_steps_left : (phase : Phase) (n : ℕ) → steps_left phase n ≤ 0 → phase ≡ ended
unfolding steps_left
no_steps_left waiting n none_left = absurd (omega arith)
no_steps_left (writing batch) n none_left = absurd (omega arith)
no_steps_left checking n none_left = absurd (omega arith)
no_steps_left rechecking n none_left = absurd (omega arith)
no_steps_left draining n none_left = absurd (omega arith)
no_steps_left (final_writing remaining) n none_left = absurd (omega arith)
no_steps_left ended n none_left = refl

-- With enough fuel the writer ends, having written every event there was.
pub drain_loop-ends :
    (fuel : ℕ) (l : AuditLogger) (all : List AuditEvent) (before : List FileOutput)
    → l.running ≡ false
    → steps_left l.phase (length l.buffer) ≤ fuel
    → Accounted all before l.phase l.buffer l.file_outputs
    → Settled l.phase l.buffer l.file_outputs
    → AllWritten all before (drain_loop fuel l)
unfolding drain_loop drain_step
drain_loop-ends zero l all before down enough (written, same, kept) settled =
    let at_end : l.phase ≡ ended = no_steps_left l.phase (length l.buffer) enough in
    let (nothing, flushed) : (l.buffer ≡ []) × AllFlushed l.file_outputs =
      subst (λ p. Settled p l.buffer l.file_outputs) at_end settled in
    let everything : written ≡ all =
      sym (append_nil written)
      ∙ (λ i. written ++ (pending (sym at_end i) ++ sym nothing i))
      ∙ same in
    (at_end, nothing, subst (λ es. Kept es before l.file_outputs) everything kept, flushed)
drain_loop-ends (suc fuel) l all before down enough accounted settled =
    drain_loop-ends fuel (drain_step_at l.phase l) all before
      (running-drain_step_at l.phase l ∙ down) (steps_left-drain_step_at l.phase l fuel down enough)
      (Accounted-drain_step_at l.phase l all before accounted)
      (Settled-drain_step_at l.phase l settled)
