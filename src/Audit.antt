-- ===== src/Audit.antt =====
-- Enterprise/Audit/AuditLogger.{h,cpp} and AuditFeature.{h,cpp}: events are put into a buffer by the
-- threads of the server and written by one thread, which is a machine of phases here: a phase begins
-- where the code takes or leaves the mutex, reads the flag or writes an event. The clock, the host's
-- name and which files open are parameters.
pub mod Formatting
pub mod Feature
pub mod Outputs
pub mod Files
pub mod Drain
pub mod Concurrent
mod Examples
use open_arango_dbcore.Prelude.{
  ℕ, zero, suc, ◌+◌, ◌*◌, Bool, true, false, not, Option, none, some, List, [], ◌∷◌, ◌++◌, map,
  if◌then◌else◌, length, take, drop, Str, str_key, str_eq,
}

pub record AuditEvent : Type 0 where
  pub timestamp : Str
  pub server : Str
  pub topic : Str
  pub username : Str
  pub database : Str
  pub client_ip : Str
  pub auth_method : Str
  pub text : Str

unfoldable pub format : AuditEvent → Str
format e =
    e.timestamp
    ++ b'|'
      ∷ (e.server
          ++ b'|'
            ∷ (e.topic
                ++ b'|'
                  ∷ (e.username
                      ++ b'|'
                        ∷ (e.database
                            ++ b'|' ∷ (e.client_ip ++ b'|' ∷ (e.auth_method ++ b'|' ∷ e.text))))))

pub data OutputType : Type 0 where
  file syslog : OutputType

-- The lines given to the stream, and those of them a flush has put into the file.
pub record FileOutput : Type 0 where
  pub path : Str
  pub is_open : Bool
  pub lines : List Str
  pub flushed : List Str

-- Where drainLoop is; an event that is to be written is still in the batch. `checking` is before the
-- read of the flag, `rechecking` before the second lock.
pub data Phase : Type 0 where
  waiting checking rechecking draining ended : Phase
  writing final_writing : List AuditEvent → Phase

pub record AuditLogger : Type 0 where
  pub buffer : List AuditEvent
  pub running : Bool
  pub joinable : Bool
  pub phase : Phase
  pub file_outputs : List FileOutput
  pub syslog_outputs : List Str

unfoldable pub new_logger : AuditLogger
new_logger = record {
  buffer = [];
  running = false;
  joinable = false;
  phase = ended;
  file_outputs = [];
  syslog_outputs = [];
}

-- `none` is the exception for a file that does not open.
unfoldable pub add_output : (Str → Bool) → AuditLogger → OutputType → Str → Option AuditLogger
add_output opens l file target =
    if opens target
    then some (record l {
      file_outputs =
          l.file_outputs ++ record { path = target; is_open = true; lines = []; flushed = [] } ∷ [];
    })
    else none
add_output opens l syslog target =
    some (record l { syslog_outputs = l.syslog_outputs ++ target ∷ [] })

unfoldable pub log : AuditEvent → AuditLogger → AuditLogger
log event l = record l { buffer = l.buffer ++ event ∷ [] }

-- `none` is std::terminate: the assignment to a thread that is still joinable.
unfoldable pub start : AuditLogger → Option AuditLogger
start l =
    if l.joinable
    then none
    else some (record l { running = true; joinable = true; phase = waiting })

-- writeEvent on the files, as built for anything but macOS.
unfoldable pub write_event : AuditEvent → List FileOutput → List FileOutput
unfolding format
write_event event [] = []
write_event event (fo ∷ outputs) =
    record fo { lines = if fo.is_open then fo.lines ++ format event ∷ [] else fo.lines }
    ∷ write_event event outputs

unfoldable pub flush_all : List FileOutput → List FileOutput
flush_all [] = []
flush_all (fo ∷ outputs) =
    record fo { flushed = if fo.is_open then fo.lines else fo.flushed } ∷ flush_all outputs

abbrev pub is_empty : List AuditEvent → Bool
is_empty [] = true
is_empty (e ∷ es) = false

-- One step of drainLoop from a phase. The wait may also end by its timeout, so it is no guard.
unfoldable pub drain_step_at : Phase → AuditLogger → AuditLogger
unfolding write_event flush_all
drain_step_at waiting l = record l { phase = writing l.buffer; buffer = [] }
drain_step_at (writing []) l = record l {
  phase = checking;
  file_outputs = flush_all l.file_outputs;
}
drain_step_at (writing (event ∷ batch)) l = record l {
  phase = writing batch;
  file_outputs = write_event event l.file_outputs;
}
drain_step_at checking l = record l { phase = if l.running then waiting else rechecking }
drain_step_at rechecking l = record l { phase = if is_empty l.buffer then draining else waiting }
drain_step_at draining l = record l { phase = final_writing l.buffer; buffer = [] }
drain_step_at (final_writing []) l = record l {
  phase = ended;
  file_outputs = flush_all l.file_outputs;
}
drain_step_at (final_writing (event ∷ remaining)) l = record l {
  phase = final_writing remaining;
  file_outputs = write_event event l.file_outputs;
}
drain_step_at ended l = record l { phase = ended }

unfoldable pub drain_step : AuditLogger → AuditLogger
unfolding drain_step_at
drain_step l = drain_step_at l.phase l

-- drainLoop for a number of steps in which no other thread takes part.
unfoldable pub drain_loop : ℕ → AuditLogger → AuditLogger
unfolding drain_step
drain_loop zero l = l
drain_loop (suc fuel) l = drain_loop fuel (drain_step l)

-- The steps to the end of drainLoop once the flag is down and nothing is logged.
unfoldable pub steps_left : Phase → ℕ → ℕ
steps_left waiting n = n + 7
steps_left (writing batch) n = length batch + 10 * n + 6
steps_left checking n = 10 * n + 5
steps_left rechecking n = 10 * n + 4
steps_left draining n = n + 2
steps_left (final_writing remaining) n = length remaining + 1
steps_left ended n = 0

unfoldable pub lower_flag : AuditLogger → AuditLogger
lower_flag l = record l { running = false }

-- stop while no other thread logs: the writer runs to its end and is joined.
unfoldable pub stop : AuditLogger → AuditLogger
unfolding lower_flag drain_loop steps_left
stop l =
    if l.joinable
    then record (drain_loop (steps_left l.phase (length l.buffer)) (lower_flag l)) {
      joinable = false;
    }
    else lower_flag l

unfoldable pub destroy : AuditLogger → AuditLogger
unfolding stop
destroy l = if l.running then stop l else l
