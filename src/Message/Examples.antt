-- ===== src/Message/Examples.antt =====
-- p2p/libp2p/message.go: the theorem at a concrete input.
use drt_go_chain_communicati.Prelude.{Option, none, some, [], ◌∷◌, ◌≡◌, ◌↔◌, Bytes}
use drt_go_chain_communicati.Prelude.Int.{pos}
use drt_go_chain_communicati.Errors.{ok}
use drt_go_chain_communicati.Message.{PbMessage, TopicMessage, Message, direct, new_message}
use drt_go_chain_communicati.Message.Accepted.{Accepts, new_message_iff}

abbrev unmarshal : Bytes → Option TopicMessage
unmarshal b =
    some (record { version = 1; payload = b; timestamp = pos 5; pk = []; signature_on_pid = [] })

abbrev id_from_bytes : Bytes → Option Bytes
id_from_bytes b = some b

abbrev sent : PbMessage
sent = record {
  from_peer = 1 ∷ [];
  payload = 2 ∷ [];
  seqno = 3 ∷ [];
  topic = some (4 ∷ []);
  signature = 5 ∷ [];
  key = none;
  unrecognized = [];
}

abbrev read : Message
read = record {
  from_field = 1 ∷ [];
  data_field = 2 ∷ [];
  payload_field = 2 ∷ [];
  seq_no_field = 3 ∷ [];
  topic_field = 4 ∷ [];
  signature_field = 5 ∷ [];
  key_field = none;
  peer_field = 1 ∷ [];
  timestamp_field = pos 5;
  broadcast_method_field = direct;
}

new_message_iff_example :
    (new_message (some unmarshal) id_from_bytes (some sent) direct ≡ ok read)
    ↔ Accepts unmarshal id_from_bytes sent direct read
new_message_iff_example = new_message_iff unmarshal id_from_bytes sent direct read
