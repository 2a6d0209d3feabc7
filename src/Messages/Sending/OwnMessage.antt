-- ===== src/Messages/Sending/OwnMessage.antt =====
-- p2p/libp2p/messagesHandler.go with message.go and directSender.go: a direct message that a node sends
-- to itself.
use drt_go_chain_communicati.Prelude.{
  none, Bool, true, false, map, All, ◌⊎◌, ◌↔◌, [], some, ◌≡◌, Bytes, bytes_eq, length, nat_beq,
}
use drt_go_chain_communicati.Prelude.Int.{ℤ}
use drt_go_chain_communicati.Errors.{Result, ok, err, nil_validator}
use drt_go_chain_communicati.Message.{TopicMessage, Message, direct}
use drt_go_chain_communicati.DirectSender.{Net, DirectSender}
use drt_go_chain_communicati.Prelude.Text.{contains}
use drt_go_chain_communicati.Messages.Sending.{Sent, to_self}
use drt_go_chain_communicati.Messages.{PubSub, Registry, TopicProcessors, processors_of, get_list}

abbrev pub topic_message : ℤ → Bytes → TopicMessage
topic_message made buff = record {
  version = 1;
  payload = buff;
  timestamp = made;
  pk = [];
  signature_on_pid = [];
}

-- The marshaller encodes every message in some bytes, and decodes them.
abbrev pub Encodes : (TopicMessage → Result Bytes) → Net → Type 0
Encodes marshal net =
    (tm : TopicMessage)
    → (b : Bytes) × (marshal tm ≡ ok b)
      × (nat_beq (length b) 0 ≡ false)
      × (net.unmarshal b ≡ some tm)

-- The message that the node gets from itself, with its bytes and its sequence number.
abbrev pub own_message : Bytes → ℤ → Bytes → Bytes → Bytes → Bytes → Message
own_message self made topic buff bytes seqno = record {
  from_field = self;
  data_field = buff;
  payload_field = bytes;
  seq_no_field = seqno;
  topic_field = topic;
  signature_field = self;
  key_field = none;
  peer_field = self;
  timestamp_field = made;
  broadcast_method_field = direct;
}

module _ (net : Net) (ps : PubSub) (request_suffix self : Bytes) where
  -- What becomes of a message to the node itself: an error for want of a validator if its topic has no
  -- processors, or what every processor returns for it, with whether the rating is raised.
  abbrev pub Outcome : Registry ps → Message → Result Sent → Type 0
  Outcome registry m r =
      ((processors_of ps registry m.topic_field ≡ none) × (r ≡ err nil_validator))
      ⊎ ((tp : TopicProcessors) × (processors_of ps registry m.topic_field ≡ some tp)
          × ((raises : Bool) × (r ≡ ok (to_self (map (λ p. p m self) (get_list tp).1) raises))
              × ((raises ≡ true) ↔ (
                  All (λ p. p m self ≡ ok tt) (get_list tp).1
                  × (contains m.topic_field request_suffix ≡ false)))))
