-- ===== src/Audit/Feature.antt =====
-- Enterprise/Audit/AuditFeature.{h,cpp}: the feature that owns the logger. The clock, the host's name
-- and which files open are parameters.
use open_arango_dbcore.Prelude.{
  Bool, true, false, ◌&&◌, not, Option, none, some, List, [], ◌∷◌, if◌then◌else◌, take, drop, Str,
  str_key, str_eq,
}
use open_arango_dbcore.Audit.{
  file, syslog, AuditLogger, new_logger, add_output, log, start, stop, destroy,
}

pub record AuditFeature : Type 0 where
  pub logger : Option AuditLogger
  pub output_specs : List Str

abbrev pub file_scheme : Str
file_scheme = b'f' ∷ b'i' ∷ b'l' ∷ b'e' ∷ b':' ∷ b'/' ∷ b'/' ∷ []

abbrev pub syslog_scheme : Str
syslog_scheme = b's' ∷ b'y' ∷ b's' ∷ b'l' ∷ b'o' ∷ b'g' ∷ b':' ∷ b'/' ∷ b'/' ∷ []

unfoldable pub is_file_spec : Str → Bool
unfolding str_eq
is_file_spec spec = str_eq (take 7 spec) file_scheme

unfoldable pub is_syslog_spec : Str → Bool
unfolding str_eq
is_syslog_spec spec = str_eq (take 9 spec) syslog_scheme

-- Whether no spec makes validateOptions throw.
unfoldable pub validate_options : List Str → Bool
unfolding is_file_spec is_syslog_spec
validate_options [] = true
validate_options (spec ∷ specs) =
    if not (is_file_spec spec) && not (is_syslog_spec spec) then false else validate_options specs

-- The loop of prepare; `none` is the exception of addOutput.
unfoldable pub add_outputs : (Str → Bool) → List Str → AuditLogger → Option AuditLogger
unfolding is_file_spec is_syslog_spec add_output
add_outputs opens [] l = some l
add_outputs opens (spec ∷ specs) l =
    let added =
      if is_file_spec spec
      then add_output opens l file (drop 7 spec)
      else if is_syslog_spec spec
      then add_output opens l syslog (drop 9 spec)
      else some l in
    elim added [ none ↦ none | some l' ↦ add_outputs opens specs l' ]

unfoldable pub prepare : (Str → Bool) → AuditFeature → Option AuditFeature
unfolding add_outputs new_logger
prepare opens f = elim (add_outputs opens f.output_specs new_logger) [
  | none ↦ none
  | some l ↦ some (record f { logger = some l })
]

-- `none` is std::terminate in the logger's start.
unfoldable pub start_feature : AuditFeature → Option AuditFeature
unfolding start
start_feature f = elim f.logger [
  | none ↦ some f
  | some l ↦ elim (start l) [ none ↦ none | some l' ↦ some (record f { logger = some l' }) ]
]

unfoldable pub stop_feature : AuditFeature → AuditFeature
unfolding stop
stop_feature f = elim f.logger [ none ↦ f | some l ↦ record f { logger = some (stop l) } ]

-- The feature without its logger, and the logger as its destructor leaves it.
unfoldable pub unprepare : AuditFeature → AuditFeature × Option AuditLogger
unfolding destroy
unprepare f = elim f.logger [
  | none ↦ (f, none)
  | some l ↦ (record f { logger = none }, some (destroy l))
]

unfoldable pub set_output_specs : List Str → AuditFeature → AuditFeature
set_output_specs specs f = record f { output_specs = specs }

abbrev pub unknown_host : Str
unknown_host = b'u' ∷ b'n' ∷ b'k' ∷ b'n' ∷ b'o' ∷ b'w' ∷ b'n' ∷ []

-- gethostname, and "unknown" where it fails.
unfoldable pub hostname : Option Str → Str
hostname none = unknown_host
hostname (some name) = name

-- What a caller of the eight methods gives.
pub record Report : Type 0 where
  pub username : Str
  pub database : Str
  pub client_ip : Str
  pub auth_method : Str
  pub text : Str

module _ (timestamp : Str) (host : Option Str) where
  unfoldable pub log_event : Str → Report → AuditFeature → AuditFeature
  unfolding hostname log
  log_event topic r f = elim f.logger [
    | none ↦ f
    | some l ↦ record f {
      logger = some (
          log
            record {
              timestamp = timestamp;
              server = hostname host;
              topic = topic;
              username = r.username;
              database = r.database;
              client_ip = r.client_ip;
              auth_method = r.auth_method;
              text = r.text;
            }
            l);
    }
  ]

  unfoldable pub log_authentication : Report → AuditFeature → AuditFeature
  unfolding log_event
  log_authentication = log_event (
      b'a' ∷ b'u' ∷ b't' ∷ b'h' ∷ b'e' ∷ b'n' ∷ b't' ∷ b'i' ∷ b'c' ∷ b'a' ∷ b't' ∷ b'i' ∷ b'o'
      ∷ b'n' ∷ [])

  unfoldable pub log_authorization : Report → AuditFeature → AuditFeature
  unfolding log_event
  log_authorization = log_event (
      b'a' ∷ b'u' ∷ b't' ∷ b'h' ∷ b'o' ∷ b'r' ∷ b'i' ∷ b'z' ∷ b'a' ∷ b't' ∷ b'i' ∷ b'o' ∷ b'n' ∷ [])

  unfoldable pub log_collection : Report → AuditFeature → AuditFeature
  unfolding log_event
  log_collection =
      log_event (b'c' ∷ b'o' ∷ b'l' ∷ b'l' ∷ b'e' ∷ b'c' ∷ b't' ∷ b'i' ∷ b'o' ∷ b'n' ∷ [])

  unfoldable pub log_database : Report → AuditFeature → AuditFeature
  unfolding log_event
  log_database = log_event (b'd' ∷ b'a' ∷ b't' ∷ b'a' ∷ b'b' ∷ b'a' ∷ b's' ∷ b'e' ∷ [])

  unfoldable pub log_document : Report → AuditFeature → AuditFeature
  unfolding log_event
  log_document = log_event (b'd' ∷ b'o' ∷ b'c' ∷ b'u' ∷ b'm' ∷ b'e' ∷ b'n' ∷ b't' ∷ [])

  unfoldable pub log_view : Report → AuditFeature → AuditFeature
  unfolding log_event
  log_view = log_event (b'v' ∷ b'i' ∷ b'e' ∷ b'w' ∷ [])

  unfoldable pub log_service : Report → AuditFeature → AuditFeature
  unfolding log_event
  log_service = log_event (b's' ∷ b'e' ∷ b'r' ∷ b'v' ∷ b'i' ∷ b'c' ∷ b'e' ∷ [])

  unfoldable pub log_hotbackup : Report → AuditFeature → AuditFeature
  unfolding log_event
  log_hotbackup = log_event (b'h' ∷ b'o' ∷ b't' ∷ b'b' ∷ b'a' ∷ b'c' ∷ b'k' ∷ b'u' ∷ b'p' ∷ [])
