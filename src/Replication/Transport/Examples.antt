-- ===== src/Replication/Transport/Examples.antt =====
-- Runs of the code modelled in Transport.antt.
use open_arango_dbcore.Prelude.{
  ℕ, ◌*◌, ◌^◌, ◌≤◌, ◌<◌, ◌≡◌, ◌↔◌, ◌⊎◌, min, refl, Bool, true, false, Option, none, some, List, [],
  ◌∷◌, length, Str, arith,
}
use open_arango_dbcore.Replication.Transport.{
  ConnectionRetryPolicy, TlsConnectionConfig, tls_connection_config, configured, tls_1_3,
}
use open_arango_dbcore.Replication.Transport.Connection.{
  Call, call_connect, call_disconnect, call_send_message,
}

abbrev policy : ConnectionRetryPolicy
policy = record { max_retries = 5; base_delay_ms = 100; max_delay_ms = 30000; attempt = 3 }

abbrev late_policy : ConnectionRetryPolicy
late_policy = record { max_retries = 100; base_delay_ms = 100; max_delay_ms = 30000; attempt = 62 }

abbrev url : Str
url = b'h' ∷ []

abbrev config : TlsConnectionConfig
config = record {
  target_url = url;
  client_cert_path = url;
  client_key_path = [];
  ca_path = url;
  min_tls_version = tls_1_3;
  cipher_suites = [];
}

abbrev ping : List ℕ
ping = 7 ∷ []

abbrev calls : List Call
calls = call_disconnect ∷ call_connect ∷ call_send_message (1 ∷ []) ∷ []

accepted : tls_connection_config url url [] url tls_1_3 [] ≡ configured config
unfolding tls_connection_config open_arango_dbcore.Prelude.str_eq
accepted = refl
