-- ===== src/Errors.antt =====
-- p2p/errors.go: the sentinel errors, and the Go convention `(T, error)`.
-- `fmt.Errorf("%w, ...", err)` wraps a sentinel, so an error is known by its sentinel; errors of
-- packages outside the repository are `external`.
use drt_go_chain_communicati.Prelude.{
  ℕ, Bool, true, false, Option, none, some, ◌≡◌, ◌⊎◌, inl, inr, refl,
}

pub data Error : Type 0 where
  nil_context nil_mock_net nil_topic channel_does_not_exist channel_can_not_be_deleted : Error
  channel_can_not_be_re_added nil_message already_seen_message message_too_new : Error
  message_too_old nil_direct_send_message_handler peer_not_directly_connected nil_host : Error
  nil_validator peer_discovery_process_already_started message_too_large : Error
  empty_buffer_to_send nil_fetch_peers_on_topic_handler invalid_duration_provided : Error
  too_many_goroutines invalid_value invalid_port_value invalid_ports_range_string : Error
  invalid_starting_port_value invalid_ending_port_value : Error
  end_port_is_smaller_than_start_port no_free_port_in_range nil_sharder : Error
  nil_peer_shard_resolver nil_marshaller wrong_type_assertion nil_reconnecter : Error
  unwanted_peer nil_peer_denial_evaluator message_unmarshal_error unsupported_fields : Error
  unsupported_message_version nil_sync_timer nil_preferred_peers_holder : Error
  invalid_seeders_reconnection_interval message_processor_already_defined : Error
  message_processor_does_not_exists wrong_type_assertions nil_connections_watcher : Error
  nil_peers_rating_handler nil_p2p_private_key nil_p2p_single_signer nil_p2p_key_generator : Error
  nil_cacher nil_p2_p_signer nil_pub_sub nil_direct_sender nil_throttler : Error
  nil_channel_load_balancer nil_debugger invalid_config nil_peers_on_channel : Error
  nil_connection_monitor nil_network nil_peer_discoverer nil_connections_metric : Error
  nil_connections_handler nil_logger invalid_tcp_address invalid_quic_address : Error
  invalid_ws_address invalid_web_transport_address no_transports_defined : Error
  unknown_resource_limiter_type : Error
  external : ℕ → Error

-- What a Go function with an `error` result returns: an error, or its value.
pub data Result {ℓ} (T : Type ℓ) : Type ℓ where
  err : Error → Result T
  ok : T → Result T

infixl 5 ◌>>=◌ ◌>>◌
abbrev pub ◌>>=◌ {ℓ κ} : {T : Type ℓ} {U : Type κ} → Result T → (T → Result U) → Result U
err e >>= next = err e
ok value >>= next = next value

abbrev pub ◌>>◌ {ℓ} : {T : Type ℓ} → Result (Unit {0}) → Result T → Result T
first >> second = first >>= λ done. second

-- `if test { return err }`.
abbrev pub fail_if : Bool → Error → Result (Unit {0})
fail_if true e = err e
fail_if false e = ok tt

-- `if check.IfNil(x) { return err }`, where `none` is nil.
abbrev pub not_nil {ℓ} : {A : Type ℓ} → Option A → Error → Result A
not_nil none e = err e
not_nil (some a) e = ok a

pub ok_injective {ℓ} : {A : Type ℓ} {a b : A} → ok a ≡ ok b → a ≡ b
ok_injective h = cc

pub Result-cases {ℓ} :
    {A : Type ℓ} (r : Result A) → ((e : Error) × (r ≡ err e)) ⊎ ((a : A) × (r ≡ ok a))
Result-cases (err e) = inl (e, refl)
Result-cases (ok a) = inr (a, refl)
