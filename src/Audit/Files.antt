-- ===== src/Audit/Files.antt =====
-- AuditLogger::writeEvent and the flush, on the audit files.
use open_arango_dbcore.Prelude.{
  ◌≡◌, refl, Bool, true, false, List, [], ◌∷◌, ◌++◌, map, if◌then◌else◌, Str, append_assoc,
}
use mathlib.Core.List.{map-append}
use open_arango_dbcore.Audit.{AuditEvent, format, FileOutput, write_event, flush_all}

-- The files of `before`, with `events` written to those that are open.
abbrev pub Kept : List AuditEvent → List FileOutput → List FileOutput → Type 0
Kept events [] [] = Unit {0}
Kept events [] (fo ∷ outputs) = ⊥
Kept events (s ∷ before) [] = ⊥
Kept events (s ∷ before) (fo ∷ outputs) =
    (fo.path ≡ s.path)
    × (fo.is_open ≡ s.is_open)
    × (fo.lines ≡ s.lines ++ (if s.is_open then map format events else []))
    × Kept events before outputs

abbrev pub AllFlushed : List FileOutput → Type 0
AllFlushed [] = Unit {0}
AllFlushed (fo ∷ outputs) = (fo.is_open ≡ true → fo.flushed ≡ fo.lines) × AllFlushed outputs

pub AllFlushed-flush_all : (outputs : List FileOutput) → AllFlushed (flush_all outputs)
unfolding flush_all
AllFlushed-flush_all [] = tt
AllFlushed-flush_all (fo ∷ outputs) =
    (λ (opened : fo.is_open ≡ true). rw (opened) (refl), AllFlushed-flush_all outputs)

pub Kept-flush_all :
    (events : List AuditEvent) (before outputs : List FileOutput)
    → Kept events before outputs
    → Kept events before (flush_all outputs)
unfolding flush_all
Kept-flush_all events [] [] kept = tt
Kept-flush_all events [] (fo ∷ outputs) kept = elim kept [ ]
Kept-flush_all events (s ∷ before) [] kept = elim kept [ ]
Kept-flush_all events (s ∷ before) (fo ∷ outputs) (named, opened, lines, rest) =
    (named, opened, lines, Kept-flush_all events before outputs rest)

lines_written :
    (opened : Bool) (lines before : List Str) (event : AuditEvent) (events : List AuditEvent)
    → lines ≡ before ++ (if opened then map format events else [])
    → (if opened then lines ++ format event ∷ [] else lines)
      ≡ before ++ (if opened then map format (events ++ event ∷ []) else [])
lines_written false lines before event events same = same
lines_written true lines before event events same =
    rw (same, map-append format events (event ∷ []))
      (append_assoc before (map format events) (format event ∷ []))

pub Kept-write_event :
    (event : AuditEvent) (events : List AuditEvent) (before outputs : List FileOutput)
    → Kept events before outputs
    → Kept (events ++ event ∷ []) before (write_event event outputs)
unfolding write_event
Kept-write_event event events [] [] kept = tt
Kept-write_event event events [] (fo ∷ outputs) kept = elim kept [ ]
Kept-write_event event events (s ∷ before) [] kept = elim kept [ ]
Kept-write_event event events (s ∷ before) (fo ∷ outputs) (named, opened, lines, rest) = (
  named,
  opened,
  rw (opened) (lines_written s.is_open fo.lines s.lines event events lines),
  Kept-write_event event events before outputs rest,
)
