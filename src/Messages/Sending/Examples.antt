-- ===== src/Messages/Sending/Examples.antt =====
-- p2p/libp2p/messagesHandler.go: the theorem on a node's own message at a concrete input, and a run of the
-- code that sends.
use drt_go_chain_communicati.Prelude.{
  ℕ, zero, suc, ◌++◌, false, List, [], ◌∷◌, Option, none, some, Bytes, length, take, drop,
}
use drt_go_chain_communicati.Prelude.Int.{ℤ, pos, negsuc}
use drt_go_chain_communicati.Errors.{Result, ok}
use drt_go_chain_communicati.Message.{TopicMessage}
use drt_go_chain_communicati.DirectSender.{Net, DirectSender}
use drt_go_chain_communicati.Messages.{MessageProcessor, PubSub, Registry}

with_sign : ℤ → Bytes → Bytes
with_sign (pos n) rest = 0 ∷ n ∷ rest
with_sign (negsuc n) rest = 1 ∷ n ∷ rest

encode : TopicMessage → Bytes
encode tm =
    tm.version
    ∷ with_sign tm.timestamp
        (length tm.payload ∷ tm.payload ++ (length tm.pk ∷ tm.pk ++ tm.signature_on_pid))

decode_keys : ℕ → ℤ → Bytes → Bytes → Option TopicMessage
decode_keys version timestamp payload [] = none
decode_keys version timestamp payload (n ∷ rest) = some (record {
  version = version;
  payload = payload;
  timestamp = timestamp;
  pk = take n rest;
  signature_on_pid = drop n rest;
})

decode_payload : ℕ → ℤ → Bytes → Option TopicMessage
decode_payload version timestamp [] = none
decode_payload version timestamp (n ∷ rest) =
    decode_keys version timestamp (take n rest) (drop n rest)

decode : Bytes → Option TopicMessage
decode (version ∷ zero ∷ n ∷ rest) = decode_payload version (pos n) rest
decode (version ∷ suc s ∷ n ∷ rest) = decode_payload version (negsuc n) rest
decode b = none

abbrev marshal : TopicMessage → Result Bytes
marshal tm = ok (encode tm)

abbrev net : Net
net = record {
  SeenMessages = List Bytes;
  has = λ s b. false;
  add = λ s b. b ∷ s;
  unmarshal = decode;
  id_from_bytes = λ b. some b;
  marshal_pb = λ m. ok m.payload;
  sign_prefix = [];
  sign = λ b. ok b;
  verify = λ payload peer signature. ok tt;
}

abbrev pub_sub : PubSub
pub_sub = record {
  State = Unit;
  register_topic_validator = λ s topic. (s, ok tt);
  unregister_topic_validator = λ s topic. (s, ok tt);
}

abbrev accepts : MessageProcessor
accepts m peer = ok tt

abbrev registry : Registry pub_sub
registry = record { processors = (4 ∷ [], some ((6 ∷ [], accepts) ∷ [])) ∷ []; pub_sub = tt }

abbrev sender : DirectSender net
sender = record { counter = 41; message_handler = none; seen_messages = [] }

abbrev self : Bytes
self = 1 ∷ []

abbrev request_suffix : Bytes
request_suffix = 9 ∷ []
