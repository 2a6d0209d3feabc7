-- ===== src/Message.antt =====
-- p2p/libp2p/message.go and p2p/message/message.go: a pubsub message read as a p2p message.
-- The protobuf marshaller and `peer.IDFromBytes` are arguments; `none` is their error.
pub mod Accepted
mod Examples
use drt_go_chain_communicati.Prelude.{
  ℕ, ◌+◌, Bool, true, false, Option, none, some, Bytes, length, ltb, nat_beq, if◌then◌else◌, not,
}
use drt_go_chain_communicati.Prelude.Int.{ℤ}
use drt_go_chain_communicati.Errors.{
  Error, external, Result, ok, err, ◌>>=◌, ◌>>◌, fail_if, not_nil, nil_marshaller, nil_message,
  nil_topic, message_unmarshal_error, unsupported_message_version, unsupported_fields,
}

-- pubsubPb.Message; `unrecognized` is its XXX_unrecognized, the bytes of fields that the protocol does
-- not know. Only for the key does the code tell a nil slice from an empty one.
pub record PbMessage : Type 0 where
  pub from_peer : Bytes
  pub payload : Bytes
  pub seqno : Bytes
  pub topic : Option Bytes
  pub signature : Bytes
  pub key : Option Bytes
  pub unrecognized : Bytes

-- p2p/data/topicMessage.proto.
pub record TopicMessage : Type 0 where
  pub version : ℕ
  pub payload : Bytes
  pub timestamp : ℤ
  pub pk : Bytes
  pub signature_on_pid : Bytes

pub data BroadcastMethod : Type 0 where
  direct broadcast : BroadcastMethod

-- Message of p2p/message/message.go; its methods are the fields.
pub record Message : Type 0 where
  pub from_field : Bytes
  pub data_field : Bytes
  pub payload_field : Bytes
  pub seq_no_field : Bytes
  pub topic_field : Bytes
  pub signature_field : Bytes
  pub key_field : Option Bytes
  pub peer_field : Bytes
  pub timestamp_field : ℤ
  pub broadcast_method_field : BroadcastMethod

abbrev pub current_topic_message_version : ℕ
current_topic_message_version = 1

-- The error of a package outside the repository.
abbrev pub foreign {ℓ} : {A : Type ℓ} → Option A → Error → Result A
foreign none e = err e
foreign (some a) e = ok a

-- The error that `peer.IDFromBytes` returns.
abbrev pub bad_peer_id : Error
bad_peer_id = external 0

unfoldable pub new_message :
    Option (Bytes → Option TopicMessage)
    → (Bytes → Option Bytes)
    → Option PbMessage
    → BroadcastMethod
    → Result Message
new_message marshaller id_from_bytes msg method = do
  unmarshal ← not_nil marshaller nil_marshaller
  m ← not_nil msg nil_message
  topic ← not_nil m.topic nil_topic
  topic_message ← foreign (unmarshal m.payload) message_unmarshal_error
  fail_if (not (nat_beq topic_message.version current_topic_message_version))
      unsupported_message_version
  fail_if (ltb 0 (length topic_message.signature_on_pid + length topic_message.pk))
      unsupported_fields
  id ← foreign (id_from_bytes m.from_peer) bad_peer_id
  ok (record {
    from_field = m.from_peer;
    data_field = topic_message.payload;
    payload_field = m.payload;
    seq_no_field = m.seqno;
    topic_field = topic;
    signature_field = m.signature;
    key_field = m.key;
    peer_field = id;
    timestamp_field = topic_message.timestamp;
    broadcast_method_field = method;
  })
