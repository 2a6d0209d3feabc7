-- ===== src/Message/Accepted.antt =====
-- p2p/libp2p/message.go: which messages NewMessage accepts.
use drt_go_chain_communicati.Prelude.{
  Option, none, some, [], ◌≡◌, ◌≢◌, ◌↔◌, ◌⊎◌, inl, inr, Bytes, Option-cases, empty_of_length, arith,
}
use drt_go_chain_communicati.Errors.{ok}
use drt_go_chain_communicati.Message.{
  PbMessage, TopicMessage, BroadcastMethod, Message, new_message,
}

-- What a message must be, apart from the code's order of tests.
pub record Accepts (unmarshal : Bytes → Option TopicMessage) (id_from_bytes : Bytes → Option Bytes)
    (m : PbMessage) (method : BroadcastMethod) (r : Message) : Type 0 where
  pub tm : TopicMessage
  pub topic_known : m.topic ≡ some r.topic_field
  pub unmarshalled : unmarshal m.payload ≡ some tm
  pub version_one : tm.version ≡ 1
  pub no_pk : tm.pk ≡ []
  pub no_signature_on_pid : tm.signature_on_pid ≡ []
  pub peer_known : id_from_bytes m.from_peer ≡ some r.peer_field
  pub same_data : r.data_field ≡ tm.payload
  pub same_timestamp : r.timestamp_field ≡ tm.timestamp
  pub same_from : r.from_field ≡ m.from_peer
  pub same_payload : r.payload_field ≡ m.payload
  pub same_seq_no : r.seq_no_field ≡ m.seqno
  pub same_signature : r.signature_field ≡ m.signature
  pub same_key : r.key_field ≡ m.key
  pub same_method : r.broadcast_method_field ≡ method

module _ (unmarshal : Bytes → Option TopicMessage) (id_from_bytes : Bytes → Option Bytes) where
  accepted :
      (m : PbMessage) (method : BroadcastMethod) (r : Message) (tm : TopicMessage)
      (topic id : Bytes)
      → m.topic ≡ some topic
      → unmarshal m.payload ≡ some tm
      → id_from_bytes m.from_peer ≡ some id
      → new_message (some unmarshal) id_from_bytes (some m) method ≡ ok r
      → Accepts unmarshal id_from_bytes m method r
  unfolding new_message
  accepted m method r tm topic id t u i h = record {
    tm = tm;
    topic_known = ground arith;
    unmarshalled = u;
    version_one = ground arith;
    no_pk = empty_of_length tm.pk (ground arith);
    no_signature_on_pid = empty_of_length tm.signature_on_pid (ground arith);
    peer_known = ground arith;
    same_data = ground arith;
    same_timestamp = ground arith;
    same_from = ground arith;
    same_payload = ground arith;
    same_seq_no = ground arith;
    same_signature = ground arith;
    same_key = ground arith;
    same_method = ground arith;
  }

  no_part :
      (m : PbMessage) (method : BroadcastMethod) (r : Message)
      → (m.topic ≡ none) ⊎ ((unmarshal m.payload ≡ none) ⊎ (id_from_bytes m.from_peer ≡ none))
      → new_message (some unmarshal) id_from_bytes (some m) method ≢ ok r
  unfolding new_message
  no_part m method r missing h = ground arith

  new_message-Accepts :
      (m : PbMessage) (method : BroadcastMethod) (r : Message)
      → new_message (some unmarshal) id_from_bytes (some m) method ≡ ok r
      → Accepts unmarshal id_from_bytes m method r
  new_message-Accepts m method r h = elim (Option-cases m.topic) [
    | inl t ↦ absurd (no_part m method r (inl t) h)
    | inr (topic, t) ↦ elim (Option-cases (unmarshal m.payload)) [
      | inl u ↦ absurd (no_part m method r (inr (inl u)) h)
      | inr (tm, u) ↦ elim (Option-cases (id_from_bytes m.from_peer)) [
        | inl i ↦ absurd (no_part m method r (inr (inr i)) h)
        | inr (id, i) ↦ accepted m method r tm topic id t u i h
      ]
    ]
  ]

  Accepts-new_message :
      (m : PbMessage) (method : BroadcastMethod) (r : Message)
      → Accepts unmarshal id_from_bytes m method r
      → new_message (some unmarshal) id_from_bytes (some m) method ≡ ok r
  unfolding new_message
  Accepts-new_message m method r a = ground arith

  -- NewMessage returns a message exactly if the pubsub message has a topic, its data is a topic message
  -- of version 1 without the two unsupported fields, and its sender is a peer ID; the message then has
  -- these values and those of the other fields.
  pub new_message_iff :
      (m : PbMessage) (method : BroadcastMethod) (r : Message)
      → (new_message (some unmarshal) id_from_bytes (some m) method ≡ ok r)
        ↔ Accepts unmarshal id_from_bytes m method r
  new_message_iff m method r = (new_message-Accepts m method r, Accepts-new_message m method r)
