-- ===== src/Websocket.antt =====
-- websocket/: what its parts share. The websocket connections of gorilla and the payload handler are
-- known by what their calls return. A call with an `error` result returns an `Option` of the error.
pub mod Transceiver
pub mod Connection
pub mod Peers
use drt_go_chain_communicati.Prelude.{
  ℕ, Bool, true, false, Option, none, some, List, Bytes, ◌≡◌, ◌⊎◌, inl, inr, refl,
}

-- The sentinel errors of websocket/data/errors.go and `core.ErrNilLogger`; `foreign_error` is one of
-- another package.
pub data WsError : Type 0 where
  server_is_closed nil_marshaller nil_payload_processor nil_payload_converter empty_url : WsError
  zero_value_retry_duration zero_value_ack_timeout connection_already_open : WsError
  connection_not_open expected_ack_was_not_received_on_close : WsError
  invalid_websocket_host_mode no_clients_connected ack_timeout nil_logger : WsError
  foreign_error : ℕ → WsError

-- What a call with results `(T, error)` returns.
pub data WsResult {ℓ} (T : Type ℓ) : Type ℓ where
  failed : WsError → WsResult T
  done : T → WsResult T

pub WsResult-cases {ℓ} :
    {A : Type ℓ} (r : WsResult A) → ((e : WsError) × (r ≡ failed e)) ⊎ ((a : A) × (r ≡ done a))
WsResult-cases (failed e) = inl (e, refl)
WsResult-cases (done a) = inr (a, refl)

pub done_injective {ℓ} : {A : Type ℓ} {a b : A} → done a ≡ done b → a ≡ b
done_injective h = cc

infixl 5 ◌>>=◌
abbrev pub ◌>>=◌ {ℓ κ} : {T : Type ℓ} {U : Type κ} → WsResult T → (T → WsResult U) → WsResult U
failed e >>= next = failed e
done value >>= next = next value

abbrev pub fail_if : Bool → WsError → WsResult (Unit {0})
fail_if true e = failed e
fail_if false e = done tt

-- data.WsMessage of websocket/data/wsMessage.proto.
pub record WsMessage : Type 0 where
  pub with_acknowledge : Bool
  pub counter : ℕ
  pub message_type : ℕ
  pub payload : Bytes
  pub topic : Bytes
  pub version : ℕ

-- The two values of websocket/data/wsMessage.go.
abbrev pub ack_message : ℕ
ack_message = 1

abbrev pub payload_message : ℕ
payload_message = 2

-- webSocketsPayloadConverter: its two methods are those of the marshaller it is made with.
pub record Marshaller : Type 0 where
  pub marshal : WsMessage → WsResult Bytes
  pub unmarshal : Bytes → WsResult WsMessage

pub new_websocket_payload_converter : Option Marshaller → WsResult Marshaller
new_websocket_payload_converter none = failed nil_marshaller
new_websocket_payload_converter (some marshaller) = done marshaller

pub extract_ws_message : Marshaller → Bytes → WsResult WsMessage
extract_ws_message converter payload = do ws_message ← converter.unmarshal payload; done ws_message

pub construct_payload : Marshaller → WsMessage → WsResult Bytes
construct_payload converter ws_message = converter.marshal ws_message
