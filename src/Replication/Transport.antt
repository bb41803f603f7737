-- ===== src/Replication/Transport.antt =====
-- Enterprise/Replication/ConnectionRetryPolicy.{h,cpp}, TlsConnectionConfig.{h,cpp} and
-- DirectMQClient.{h,cpp}: the connection that the batches go over. The socket and TLS calls stand
-- in the source as comments, so the client is the state machine that is left; a pointer is whether
-- it is set. The jitter of the retry delay, a random factor, is a parameter.
pub mod Backoff
pub mod Connection
mod Examples
use open_arango_dbcore.Prelude.{
  ℕ, zero, suc, ◌+◌, ◌*◌, ◌%◌, ◌^◌, min, Bool, true, false, ◌&&◌, ◌||◌, not, Option, none, some,
  List, [], ◌∷◌, ltb, ◌==◌, if◌then◌else◌, length, Str, str_eq, u32_mod, u64_mod, ℤ, pos, negsuc,
}
use open_arango_dbcore.Replication.Protocol.{frame_message}

pub record ConnectionRetryPolicy : Type 0 where
  pub max_retries : ℕ
  pub base_delay_ms : ℕ
  pub max_delay_ms : ℕ
  pub attempt : ℕ

abbrev pub new_policy : ℕ → ℕ → ℕ → ConnectionRetryPolicy
new_policy max_retries base_delay_ms max_delay_ms = record {
  max_retries = max_retries;
  base_delay_ms = base_delay_ms;
  max_delay_ms = max_delay_ms;
  attempt = 0;
}

unfoldable pub should_retry : ConnectionRetryPolicy → Bool
should_retry p = ltb p.attempt p.max_retries

-- A shift of a 64-bit number by 64 or more is undefined.
unfoldable pub raw_delay : ConnectionRetryPolicy → Option ℕ
raw_delay p =
    if ltb p.attempt 64
    then some (min ((p.base_delay_ms * 2 ^ p.attempt) % u64_mod) p.max_delay_ms)
    else none

unfoldable pub next_delay : (ℕ → ℕ) → ConnectionRetryPolicy → Option (ConnectionRetryPolicy × ℕ)
next_delay jitter p = elim (raw_delay p) [
  | none ↦ none
  | some clamped ↦ some (record p { attempt = (p.attempt + 1) % u32_mod }, jitter clamped)
]

unfoldable pub reset : ConnectionRetryPolicy → ConnectionRetryPolicy
reset p = record p { attempt = 0 }

pub record TlsConnectionConfig : Type 0 where
  pub target_url : Str
  pub client_cert_path : Str
  pub client_key_path : Str
  pub ca_path : Str
  pub min_tls_version : Str
  pub cipher_suites : Str

-- std::invalid_argument, with the message's variable part
pub data TlsConfigError : Type 0 where
  empty_target_url empty_client_cert_path empty_ca_path : TlsConfigError
  bad_min_tls_version : (got : Str) → TlsConfigError

pub data TlsConfigResult : Type 0 where
  configured : TlsConnectionConfig → TlsConfigResult
  invalid_argument : TlsConfigError → TlsConfigResult

abbrev pub is_empty : Str → Bool
is_empty [] = true
is_empty (c ∷ rest) = false

-- "1.2" and "1.3"
abbrev pub tls_1_2 : Str
tls_1_2 = b'1' ∷ b'.' ∷ b'2' ∷ []

abbrev pub tls_1_3 : Str
tls_1_3 = b'1' ∷ b'.' ∷ b'3' ∷ []

unfoldable pub tls_connection_config : Str → Str → Str → Str → Str → Str → TlsConfigResult
tls_connection_config target_url cert key ca version ciphers =
    if is_empty target_url
    then invalid_argument empty_target_url
    else if is_empty cert
    then invalid_argument empty_client_cert_path
    else if is_empty ca
    then invalid_argument empty_ca_path
    else if not (str_eq version tls_1_2) && not (str_eq version tls_1_3)
    then invalid_argument (bad_min_tls_version version)
    else configured (record {
      target_url = target_url;
      client_cert_path = cert;
      client_key_path = key;
      ca_path = ca;
      min_tls_version = version;
      cipher_suites = ciphers;
    })

pub data ClientError : Type 0 where
  retries_exhausted : (target_url : Str) → ClientError
  not_connected : ClientError

pub record DirectMqResult : Type 0 where
  pub ok : Bool
  pub ack_status : ℕ
  pub error_message : Option ClientError

abbrev pub done : DirectMqResult
done = record { ok = true; ack_status = 0; error_message = none }

abbrev pub failed : ClientError → DirectMqResult
failed e = record { ok = false; ack_status = 0; error_message = some e }

pub record DirectMqClient : Type 0 where
  pub config : TlsConnectionConfig
  pub retry_policy : ConnectionRetryPolicy
  pub ssl_ctx : Bool
  pub ssl : Bool
  pub socket_fd : ℤ
  pub connected : Bool

abbrev pub new_client : TlsConnectionConfig → ConnectionRetryPolicy → DirectMqClient
new_client config policy = record {
  config = config;
  retry_policy = policy;
  ssl_ctx = false;
  ssl = false;
  socket_fd = negsuc 0;
  connected = false;
}

unfoldable pub initialize_ssl_context : DirectMqClient → DirectMqResult
initialize_ssl_context c = done

unfoldable pub perform_connect : DirectMqClient → DirectMqClient × DirectMqResult
perform_connect c =
    let ctx_result = initialize_ssl_context c in
    if ctx_result.ok then (record c { connected = true }, done) else (c, ctx_result)

-- The retries, on fuel; `none` is an undefined delay, or fuel that ran out.
unfoldable pub retry_loop : ℕ → (ℕ → ℕ) → DirectMqClient → Option (DirectMqClient × DirectMqResult)
retry_loop zero jitter c = none
retry_loop (suc fuel) jitter c = elim (should_retry c.retry_policy) [
  | false ↦ some (c, failed (retries_exhausted c.config.target_url))
  | true ↦ elim (next_delay jitter c.retry_policy) [
    | none ↦ none
    | some (policy, delay) ↦
        let (tried, result) = perform_connect (record c { retry_policy = policy }) in
        elim result.ok [ true ↦ some (tried, result) | false ↦ retry_loop fuel jitter tried ]
  ]
]

-- One try, and at most as many again as the policy allows.
unfoldable pub connect : (ℕ → ℕ) → DirectMqClient → Option (DirectMqClient × DirectMqResult)
connect jitter c =
    if c.connected
    then some (c, done)
    else let (tried, result) = perform_connect (record c { retry_policy = reset c.retry_policy }) in
      if result.ok
      then some (tried, result)
      else retry_loop (suc tried.retry_policy.max_retries) jitter tried

-- `none` is the exception of a payload that no frame can hold; the frame is built and dropped.
unfoldable pub send_message : DirectMqClient → List ℕ → Option DirectMqResult
send_message c payload =
    if not c.connected
    then some (failed not_connected)
    else elim (frame_message payload) [ none ↦ none | some frame ↦ some done ]

unfoldable pub receive_ack : DirectMqClient → DirectMqResult
receive_ack c = if not c.connected then failed not_connected else done

unfoldable pub disconnect : DirectMqClient → DirectMqClient
disconnect c =
    if not c.connected && (not c.ssl && not c.ssl_ctx)
    then c
    else record c { ssl = false; ssl_ctx = false; socket_fd = negsuc 0; connected = false }

-- What a client is left with when it has been moved from.
unfoldable pub moved_from : DirectMqClient → DirectMqClient
moved_from other = record other {
  ssl_ctx = false;
  ssl = false;
  socket_fd = negsuc 0;
  connected = false;
}

-- The new client, and the other one afterwards.
unfoldable pub move_construct : DirectMqClient → DirectMqClient × DirectMqClient
move_construct other = (other, moved_from other)

-- Assignment from another object than this one.
unfoldable pub move_assign : DirectMqClient → DirectMqClient → DirectMqClient × DirectMqClient
move_assign this other =
    let gone = disconnect this in
    (
      record gone {
        config = other.config;
        retry_policy = other.retry_policy;
        ssl_ctx = other.ssl_ctx;
        ssl = other.ssl;
        socket_fd = other.socket_fd;
        connected = other.connected;
      },
      moved_from other,
    )
