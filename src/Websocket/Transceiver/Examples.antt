-- ===== src/Websocket/Transceiver/Examples.antt =====
-- websocket/transceiver/transceiver.go: the theorem at a concrete input.
use drt_go_chain_communicati.Prelude.{
  ℕ, ◌++◌, Bool, true, false, [], ◌∷◌, some, ◌≡◌, refl, Bytes, length, take, drop, take-append,
  drop-append, nat_beq, arith,
}
use drt_go_chain_communicati.Websocket.{
  WsMessage, Marshaller, WsResult, failed, done, foreign_error,
}
use drt_go_chain_communicati.Websocket.Transceiver.{
  ArgsTransceiver, Transceiver, new_transceiver, check_args, send_prepare, prepare_chan_and_counter,
}
use drt_go_chain_communicati.Websocket.Transceiver.Reached.{Reach, reach_new, reach_send}
use drt_go_chain_communicati.Websocket.Transceiver.RoundTrip.{
  MarshallerLaws, Delivered, send-Delivered,
}

bit : Bool → ℕ
bit true = 1
bit false = 0

decode : Bytes → WsResult WsMessage
decode (t ∷ c ∷ a ∷ v ∷ n ∷ rest) = done (record {
  with_acknowledge = nat_beq a 1;
  counter = c;
  message_type = t;
  payload = take n rest;
  topic = drop n rest;
  version = v;
})
decode b = failed (foreign_error 0)

encode : WsMessage → Bytes
unfolding bit
encode m =
    m.message_type ∷ m.counter ∷ bit m.with_acknowledge ∷ m.version ∷ length m.payload ∷ m.payload
    ++ m.topic

is_bit : (b : Bool) → nat_beq (bit b) 1 ≡ b
unfolding bit
is_bit true = refl
is_bit false = refl

decode-encode : (m : WsMessage) → decode (encode m) ≡ done m
unfolding decode encode
decode-encode m =
    rw (is_bit m.with_acknowledge, take-append m.payload m.topic, drop-append m.payload m.topic)
      refl

abbrev converter : Marshaller
converter = record { marshal = λ m. done (encode m); unmarshal = decode }

laws : MarshallerLaws converter
unfolding encode
laws = record { encodes = λ m h. (encode m, refl, ground arith, decode-encode m) }

abbrev args : ArgsTransceiver
args = record {
  payload_converter = some converter;
  log = some tt;
  retry_duration_in_sec = 1;
  ack_timeout_in_sec = 1;
  blocking_ack_on_error = true;
  with_acknowledge = true;
  payload_version = 2;
}

abbrev fresh : Transceiver
fresh = record {
  payload_parser = converter;
  map_ack = [];
  counter = 0;
  blocking_ack_on_error = true;
  with_acknowledge = true;
  payload_version = 2;
  made_channels = 0;
  closed_channels = [];
}

-- One message was sent before and still waits.
sender : Transceiver
sender = (send_prepare fresh (1 ∷ []) (2 ∷ [])).0

sender-Reach : Reach sender
unfolding sender new_transceiver check_args
sender-Reach = reach_send (1 ∷ []) (2 ∷ []) (reach_new args refl)

send-Delivered_example : Delivered sender fresh (λ m. true) (λ m. true) (3 ∷ []) (4 ∷ [])
unfolding sender send_prepare prepare_chan_and_counter
send-Delivered_example =
    send-Delivered sender fresh (λ m. true) (λ m. true) (3 ∷ []) (4 ∷ []) laws refl sender-Reach
      refl refl
