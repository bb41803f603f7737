-- ===== src/Audit/Examples.antt =====
-- Tests of the audit log, and the theorems at small events.
use open_arango_dbcore.Prelude.{◌≡◌, refl, Bool, true, false, none, some, [], ◌∷◌, Str, str_key}
use open_arango_dbcore.Audit.{
  AuditEvent, format, FileOutput, AuditLogger, waiting, start, stop, log, drain_step, destroy,
}
use open_arango_dbcore.Audit.Drain.{AllWritten}
use open_arango_dbcore.Audit.Concurrent.{Run, begun, logs, writes, Run-stop}
use open_arango_dbcore.Audit.Formatting.{Separable, format-injective}
use open_arango_dbcore.Audit.Feature.{
  AuditFeature, Report, validate_options, log_database, start_feature, stop_feature, unprepare,
  set_output_specs, hostname, unknown_host,
}

abbrev event : AuditEvent
event = record {
  timestamp = b't' ∷ [];
  server = b'h' ∷ [];
  topic = b'd' ∷ b'b' ∷ [];
  username = b'u' ∷ [];
  database = [];
  client_ip = b'1' ∷ [];
  auth_method = b'j' ∷ [];
  text = b'a' ∷ b'|' ∷ [];
}

abbrev audit_file : FileOutput
audit_file = record { path = b'/' ∷ b'a' ∷ []; is_open = true; lines = []; flushed = [] }

abbrev running : AuditLogger
running = record {
  buffer = [];
  running = true;
  joinable = true;
  phase = waiting;
  file_outputs = audit_file ∷ [];
  syslog_outputs = [];
}

abbrev file_spec : Str
file_spec = b'f' ∷ b'i' ∷ b'l' ∷ b'e' ∷ b':' ∷ b'/' ∷ b'/' ∷ b'/' ∷ b'a' ∷ []

abbrev syslog_spec : Str
syslog_spec = b's' ∷ b'y' ∷ b's' ∷ b'l' ∷ b'o' ∷ b'g' ∷ b':' ∷ b'/' ∷ b'/' ∷ b'l' ∷ []

abbrev feature : AuditFeature
feature = record { logger = none; output_specs = file_spec ∷ syslog_spec ∷ [] }

abbrev all_open : Str → Bool
all_open path = true

abbrev report : Report
report = record { username = b'u' ∷ []; database = []; client_ip = []; auth_method = []; text = [] }

formatted :
    format event
    ≡ b't' ∷ b'|' ∷ b'h' ∷ b'|' ∷ b'd' ∷ b'b' ∷ b'|' ∷ b'u' ∷ b'|' ∷ b'|' ∷ b'1' ∷ b'|' ∷ b'j'
      ∷ b'|' ∷ b'a' ∷ b'|' ∷ []
unfolding format
formatted = refl

unknown_scheme : validate_options ((b'x' ∷ []) ∷ []) ≡ false
unfolding validate_options
unknown_scheme = refl

started_twice : start running ≡ none
unfolding start
started_twice = refl

-- Logged after the end of the writer, an event stays in the buffer.
logged_too_late : (destroy (log event (stop running))).buffer ≡ event ∷ []
unfolding destroy stop log
logged_too_late = refl

silent_without_logger : log_database [] none report feature ≡ feature
unfolding log_database
silent_without_logger = refl

unknown : hostname none ≡ unknown_host
unfolding hostname
unknown = refl

life_of_feature : (unprepare (stop_feature (set_output_specs [] feature))).1 ≡ none
unfolding unprepare stop_feature set_output_specs
life_of_feature = refl

not_started : start_feature feature ≡ some feature
unfolding start_feature
not_started = refl

one_logged : Run running (event ∷ []) (drain_step (log event running))
one_logged = writes (event ∷ []) (log event running) (logs [] running event begun)

Run-stop_example : AllWritten (event ∷ []) (audit_file ∷ []) (stop (drain_step (log event running)))
unfolding drain_step log
Run-stop_example =
    Run-stop running (drain_step (log event running)) (event ∷ []) refl one_logged refl refl

event-Separable : Separable event
event-Separable =
    ((refl, tt), (refl, tt), (refl, (refl, tt)), (refl, tt), tt, (refl, tt), (refl, tt))

format-injective_example : event ≡ event
format-injective_example = format-injective event event event-Separable event-Separable refl
