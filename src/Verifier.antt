-- ===== src/Verifier.antt =====
-- p2p/messageCheck/messageVerifier.go: the signature of a message, and lists of messages as bytes.
-- `Net`, of the direct sender, has the protobuf encoding, the signer and `peer.IDFromBytes`; `Codec`
-- has what else the verifier takes from other packages.
pub mod RoundTrip
pub mod Signature
mod Examples
use drt_go_chain_communicati.Prelude.{
  ℕ, Bool, true, false, List, [], ◌∷◌, ◌++◌, Option, none, some, Bytes, length, nat_beq,
  if◌then◌else◌,
}
use drt_go_chain_communicati.Errors.{
  Result, ok, err, ◌>>=◌, ◌>>◌, not_nil, nil_marshaller, nil_p2_p_signer, nil_logger, nil_message,
}
use drt_go_chain_communicati.Message.{PbMessage, TopicMessage, Message, broadcast, new_message}
use drt_go_chain_communicati.DirectSender.{Net}

-- `pubsubPb.Message.Unmarshal`, and the marshaller on a `batch.Batch`, whose field Data is the list.
pub record Codec : Type 0 where
  pub unmarshal_pb : Bytes → Result PbMessage
  pub marshal_batch : List Bytes → Result Bytes
  pub unmarshal_batch : Bytes → Result (List Bytes)

-- ArgsMessageVerifier; `none` is a nil interface.
pub record ArgsMessageVerifier : Type 1 where
  pub marshaller : Option Codec
  pub p2p_signer : Option Net
  pub logger : Option (Unit {0})

pub record MessageVerifier : Type 1 where
  pub codec : Codec
  pub net : Net

-- NewMessageVerifier, with its `checkArgs`.
pub new_message_verifier : ArgsMessageVerifier → Result MessageVerifier
new_message_verifier args = do
  codec ← not_nil args.marshaller nil_marshaller
  net ← not_nil args.p2p_signer nil_p2_p_signer
  logger ← not_nil args.logger nil_logger
  ok (record { codec = codec; net = net })

pub convert_p2p_message_to_pub_sub_message : Option Message → Result PbMessage
convert_p2p_message_to_pub_sub_message message = do
  msg ← not_nil message nil_message
  ok (record {
    from_peer = msg.from_field;
    payload = msg.payload_field;
    seqno = msg.seq_no_field;
    topic = some msg.topic_field;
    signature = msg.signature_field;
    key = msg.key_field;
    unrecognized = [];
  })

module _ (net : Net) where
  pub with_sign_prefix : Bytes → Bytes
  with_sign_prefix bytes = net.sign_prefix ++ bytes

  pub prepare_pub_sub_message_payload : Option Message → Result Bytes
  prepare_pub_sub_message_payload message = do
    xm ← convert_p2p_message_to_pub_sub_message message
    bytes ← net.marshal_pb (record xm { signature = []; key = none })
    ok (with_sign_prefix bytes)

  pub verify : Option Message → Result (Unit {0})
  verify message = do
    msg ← not_nil message nil_message
    payload ← prepare_pub_sub_message_payload message
    net.verify payload msg.peer_field msg.signature_field

  -- `convertPubSubMessagestoP2PMessage`; `ReceivedFrom` and `ValidatorData`, which NewMessage does
  -- not read, are left out.
  pub convert_pub_sub_message_to_p2p_message : Option PbMessage → Result Message
  convert_pub_sub_message_to_p2p_message message = do
    msg ← not_nil message nil_message
    new_message (some net.unmarshal) net.id_from_bytes (some msg) broadcast

  module _ (codec : Codec) where
    -- The loop of Serialize: a nil message is left out, and an encoding error returned.
    pub serialize_loop : List (Option Message) → Result (List Bytes)
    serialize_loop [] = ok []
    serialize_loop (msg ∷ messages) = elim (convert_p2p_message_to_pub_sub_message msg) [
      | err e ↦ serialize_loop messages
      | ok pubsub_msg ↦ net.marshal_pb pubsub_msg >>= λ bytes.
          serialize_loop messages >>= λ rest. ok (bytes ∷ rest)
    ]

    pub serialize : List (Option Message) → Result Bytes
    serialize messages = do
      pubsub_messages ← serialize_loop messages
      if nat_beq (length pubsub_messages) 0 then ok [] else codec.marshal_batch pubsub_messages

    -- The loop of Deserialize: a message that NewMessage refuses is left out.
    pub deserialize_loop : List Bytes → Result (List Message)
    deserialize_loop [] = ok []
    deserialize_loop (bytes ∷ rest) = do
      pubsub_msg ← codec.unmarshal_pb bytes
      elim (convert_pub_sub_message_to_p2p_message (some pubsub_msg)) [
        | err e ↦ deserialize_loop rest
        | ok msg ↦ deserialize_loop rest >>= λ messages. ok (msg ∷ messages)
      ]

    pub deserialize : Bytes → Result (List Message)
    deserialize messages_bytes = do
      pubsub_messages_bytes ← codec.unmarshal_batch messages_bytes
      deserialize_loop pubsub_messages_bytes
