-- ===== src/Replication/Transport/Connection.antt =====
-- When DirectMQClient.cpp takes a message, and when TlsConnectionConfig.cpp a configuration.
use open_arango_dbcore.Prelude.{
  ℕ, ◌≤◌, ◌≡◌, ◌↔◌, ◌⊎◌, refl, sym, ap, ◌∙◌, Bool, true, false, ◌&&◌, not, Option, none, some, inl,
  inr, List, [], ◌∷◌, length, Str, str_eq_iff, Bool-cases, Option-cases, arith,
}
use open_arango_dbcore.Replication.Protocol.{max_payload_size, frame_message}
use open_arango_dbcore.Replication.Protocol.RoundTrip.{frame_message-none_iff}
use open_arango_dbcore.Replication.Transport.{
  ConnectionRetryPolicy, TlsConnectionConfig, tls_connection_config, configured, is_empty, tls_1_2,
  tls_1_3, DirectMqClient, DirectMqResult, done, new_client, connect, perform_connect,
  initialize_ssl_context, disconnect, send_message,
}

-- The calls of one client, in order.
pub data Call : Type 0 where
  call_connect call_disconnect call_receive_ack : Call
  call_send_message : (payload : List ℕ) → Call

client_after : DirectMqClient → Option (DirectMqClient × DirectMqResult) → DirectMqClient
client_after c none = c
client_after c (some (after, result)) = after

unfoldable pub run_calls : (ℕ → ℕ) → List Call → DirectMqClient → DirectMqClient
unfolding client_after
run_calls jitter [] c = c
run_calls jitter (call_connect ∷ calls) c =
    run_calls jitter calls (client_after c (connect jitter c))
run_calls jitter (call_disconnect ∷ calls) c = run_calls jitter calls (disconnect c)
run_calls jitter (call_receive_ack ∷ calls) c = run_calls jitter calls c
run_calls jitter (call_send_message payload ∷ calls) c = run_calls jitter calls c

-- The last `connect` or `disconnect` of the calls is a `connect`; `before` if there is none.
unfoldable pub ends_connected : Bool → List Call → Bool
ends_connected before [] = before
ends_connected before (call_connect ∷ calls) = ends_connected true calls
ends_connected before (call_disconnect ∷ calls) = ends_connected false calls
ends_connected before (call_receive_ack ∷ calls) = ends_connected before calls
ends_connected before (call_send_message payload ∷ calls) = ends_connected before calls

connect-connected :
    (jitter : ℕ → ℕ) (c : DirectMqClient) → (client_after c (connect jitter c)).connected ≡ true
unfolding client_after connect perform_connect initialize_ssl_context
connect-connected jitter c = elim (Bool-cases c.connected) [
  | inl already ↦ rw (already, connect) refl
  | inr fresh ↦ rw (fresh, connect) refl
]

disconnect-connected : (c : DirectMqClient) → (disconnect c).connected ≡ false
unfolding disconnect
disconnect-connected c = elim (Bool-cases (not c.connected && (not c.ssl && not c.ssl_ctx))) [
  | inl idle ↦ rw (idle, disconnect) (ground (arith, idle))
  | inr live ↦ rw (live, disconnect) refl
]

run_calls-connected :
    (jitter : ℕ → ℕ) (calls : List Call) (c : DirectMqClient)
    → (run_calls jitter calls c).connected ≡ ends_connected c.connected calls
unfolding run_calls ends_connected
run_calls-connected jitter [] c = refl
run_calls-connected jitter (call_connect ∷ calls) c =
    run_calls-connected jitter calls (client_after c (connect jitter c))
    ∙ ap (λ b. ends_connected b calls) (connect-connected jitter c)
run_calls-connected jitter (call_disconnect ∷ calls) c =
    run_calls-connected jitter calls (disconnect c)
    ∙ ap (λ b. ends_connected b calls) (disconnect-connected c)
run_calls-connected jitter (call_receive_ack ∷ calls) c = run_calls-connected jitter calls c
run_calls-connected jitter (call_send_message payload ∷ calls) c =
    run_calls-connected jitter calls c

send_message-done :
    (c : DirectMqClient) (payload : List ℕ)
    → (send_message c payload ≡ some done)
      ↔ ((c.connected ≡ true) × (length payload ≤ max_payload_size))
unfolding send_message
send_message-done c payload = elim (Bool-cases c.connected) [
  | inr closed ↦
      (λ h. absurd (ground (arith, closed, h)), λ h. absurd (ground (arith, closed, h.0)))
  | inl live ↦ elim (Option-cases (frame_message payload)) [
    | inl too_long ↦ (
      λ h. absurd (ground (arith, live, too_long, h)),
      λ h. absurd (omega (arith, h.1, (frame_message-none_iff payload).0 too_long)),
    )
    | inr (frame, framed) ↦ (
      λ h. (live, ground (arith, frame_message-none_iff payload, framed)),
      λ h. rw (live, framed, send_message) refl,
    )
  ]
]

-- After any calls on a new client, a message is taken exactly if the last `connect` or
-- `disconnect` among them was a `connect` and the payload fits a frame.
pub send_message-after_calls :
    (config : TlsConnectionConfig) (policy : ConnectionRetryPolicy) (jitter : ℕ → ℕ)
    (calls : List Call) (payload : List ℕ)
    → (send_message (run_calls jitter calls (new_client config policy)) payload ≡ some done)
      ↔ ((ends_connected false calls ≡ true) × (length payload ≤ max_payload_size))
send_message-after_calls config policy jitter calls payload =
    let last = run_calls-connected jitter calls (new_client config policy) in
    let taken = send_message-done (run_calls jitter calls (new_client config policy)) payload in
    (λ h. (sym last ∙ (taken.0 h).0, (taken.0 h).1), λ h. taken.1 (last ∙ h.0, h.1))

is_empty_iff : (s : Str) → (is_empty s ≡ true) ↔ (s ≡ [])
is_empty_iff [] = (λ h. refl, λ h. refl)
is_empty_iff (c ∷ s) = (λ h. cc, λ h. cc)

-- A configuration is accepted exactly when the target, the client certificate and the CA are given
-- and the version is 1.2 or 1.3; the key's path and the ciphers may be empty.
pub tls_connection_config_iff :
    (url cert key ca version ciphers : Str)
    → (tls_connection_config url cert key ca version ciphers
        ≡ configured (record {
          target_url = url;
          client_cert_path = cert;
          client_key_path = key;
          ca_path = ca;
          min_tls_version = version;
          cipher_suites = ciphers;
        }))
      ↔ ((is_empty url ≡ false)
          × (is_empty cert ≡ false)
          × (is_empty ca ≡ false)
          × ((version ≡ tls_1_2) ⊎ (version ≡ tls_1_3)))
unfolding tls_connection_config
tls_connection_config_iff url cert key ca version ciphers =
    ground (arith, str_eq_iff version tls_1_2, str_eq_iff version tls_1_3)
