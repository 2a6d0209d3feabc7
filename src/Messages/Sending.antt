-- ===== src/Messages/Sending.antt =====
-- p2p/libp2p/messagesHandler.go: broadcast and direct messages that are sent.
-- A goroutine that waits for room in a channel is the message that it puts into the channel. The
-- throttler's answer, the marshaller and the readings of the clock, in seconds, are arguments; the
-- debugger is left out.
pub mod OwnMessage
mod Examples
use drt_go_chain_communicati.Prelude.{
  ℕ, Bool, true, false, not, List, [], ◌∷◌, Option, none, some, Bytes, bytes_eq, ◌==◌, Dict, lookup,
  length, nat_beq, if◌then◌else◌,
}
use drt_go_chain_communicati.Prelude.Int.{ℤ}
use drt_go_chain_communicati.Errors.{
  Error, Result, ok, err, ◌>>=◌, ◌>>◌, fail_if, not_nil, too_many_goroutines, nil_pub_sub,
  nil_direct_sender, nil_throttler, nil_channel_load_balancer, nil_marshaller,
  nil_connection_monitor, nil_peers_rating_handler, nil_sync_timer, nil_logger,
}
use drt_go_chain_communicati.Message.{
  PbMessage, TopicMessage, Message, direct, current_topic_message_version, new_message,
}
use drt_go_chain_communicati.LoadBalancer.{LoadBalancer, get_channel_or_default}
use drt_go_chain_communicati.DirectSender
use drt_go_chain_communicati.DirectSender.{Net, DirectSender, Conn, Stream, next_sequence_number}
use drt_go_chain_communicati.Messages.{
  PubSub, Registry, check_sendable_data, process_received_message,
}

-- ArgMessagesHandler, of which only nil matters here; `none` is a nil interface.
pub record ArgMessagesHandler : Type 0 where
  pub pub_sub : Option (Unit {0})
  pub direct_sender : Option (Unit {0})
  pub throttler : Option (Unit {0})
  pub outgoing_clb : Option (Unit {0})
  pub marshaller : Option (Unit {0})
  pub conn_monitor : Option (Unit {0})
  pub peers_rating_handler : Option (Unit {0})
  pub sync_timer : Option (Unit {0})
  pub logger : Option (Unit {0})

pub check_arg_messages_handler : ArgMessagesHandler → Result (Unit {0})
check_arg_messages_handler args = do
  _ ← not_nil args.pub_sub nil_pub_sub
  _ ← not_nil args.direct_sender nil_direct_sender
  _ ← not_nil args.throttler nil_throttler
  _ ← not_nil args.outgoing_clb nil_channel_load_balancer
  _ ← not_nil args.marshaller nil_marshaller
  _ ← not_nil args.conn_monitor nil_connection_monitor
  _ ← not_nil args.peers_rating_handler nil_peers_rating_handler
  _ ← not_nil args.sync_timer nil_sync_timer
  _ ← not_nil args.logger nil_logger
  ok tt

pub record SendableData : Type 0 where
  pub buff : Bytes
  pub topic : Bytes
  pub sk : Option Bytes
  pub id : Bytes

abbrev Puts : Type 0
Puts = Result (ℕ × SendableData)

-- The channel, and the message that goes into it; `none` is a panic of the load balancer.
pub put_into_channel : LoadBalancer → Bytes → SendableData → Option Puts
put_into_channel clb channel sendable = elim (get_channel_or_default clb channel) [
  | none ↦ none
  | some ch ↦ some (ok (ch, sendable))
]

pub broadcast_on_channel_blocking :
    Bool → LoadBalancer → Bytes → Bytes → Bytes → Bytes → Option Puts
broadcast_on_channel_blocking can_process clb peer_id channel topic buff =
    elim (check_sendable_data buff) [
      | err e ↦ some (err e)
      | ok u ↦
          if not can_process
          then some (err too_many_goroutines)
          else put_into_channel clb channel
              (record { buff = buff; topic = topic; sk = none; id = peer_id })
    ]

-- `unmarshal_key` is `UnmarshalSecp256k1PrivateKey`.
pub broadcast_on_channel_blocking_using_private_key :
    (Bytes → Result Bytes)
    → Bool
    → LoadBalancer
    → Bytes
    → Bytes
    → Bytes
    → Bytes
    → Bytes
    → Option Puts
broadcast_on_channel_blocking_using_private_key unmarshal_key can_process clb channel topic buff pid
      sk_bytes =
    elim (unmarshal_key sk_bytes) [
      | err e ↦ some (err e)
      | ok sk ↦ elim (check_sendable_data buff) [
        | err e ↦ some (err e)
        | ok u ↦
            if not can_process
            then some (err too_many_goroutines)
            else put_into_channel clb channel
                (record { buff = buff; topic = topic; sk = some sk; id = pid })
      ]
    ]

-- The nil slice, which is empty, stands for an error of the marshaller.
pub create_message_bytes : (TopicMessage → Result Bytes) → ℤ → Bytes → Bytes
create_message_bytes marshal now buff =
    elim (marshal (record {
      version = current_topic_message_version;
      payload = buff;
      timestamp = now;
      pk = [];
      signature_on_pid = [];
    })) [ err e ↦ [] | ok bytes ↦ bytes ]

-- A turn of `processChannelLoadBalancer`: the topic to publish on, the bytes, and the key and
-- identity to publish with, if a message was collected that can be published.
pub to_publish :
    (TopicMessage → Result Bytes)
    → ℤ
    → Dict Bytes ℕ
    → Option SendableData
    → Option (ℕ × Bytes × Option (Bytes × Bytes))
to_publish marshal now topics none = none
to_publish marshal now topics (some sendable) = elim (lookup sendable.topic topics) [
  | none ↦ none
  | some topic ↦
      let packed = create_message_bytes marshal now sendable.buff in
      let option : Option (Bytes × Bytes) = elim sendable.sk [
        | none ↦ none
        | some sk ↦ some (sk, sendable.id)
      ] in
      if nat_beq (length packed) 0 then none else some (topic, packed, option)
]

-- What SendToConnectedPeer did: nothing, a message on a stream, or the call for a message to itself,
-- with what the processors return and whether it raises the rating.
pub data Sent : Type 0 where
  not_sent : Sent
  on_stream : Stream → PbMessage → Sent
  to_self : List (Result (Unit {0})) → Bool → Sent

module _ (net : Net) (ps : PubSub) (request_suffix : Bytes) (self : Bytes) where
  pub send_direct_to_self :
      ℤ → DirectSender net → Registry ps → Bytes → Bytes → DirectSender net × Result Sent
  send_direct_to_self now ds registry topic buff =
      let (ds', seqno) = next_sequence_number net ds in
      let pub_sub_msg : PbMessage = record {
        from_peer = self;
        payload = buff;
        seqno = seqno;
        topic = some topic;
        signature = self;
        key = none;
        unrecognized = [];
      } in
      (
        ds',
        new_message (some net.unmarshal) net.id_from_bytes (some pub_sub_msg) direct >>= λ msg.
            process_received_message ps request_suffix now registry msg self
            >>= λ (returned, raises). ok (to_self returned raises),
      )

  -- `made` is when the message is made, `now` when a message to itself is checked.
  pub send_to_connected_peer :
      (TopicMessage → Result Bytes)
      → ℤ
      → ℤ
      → DirectSender net
      → List Conn
      → (Bytes → Result Stream)
      → Registry ps
      → Bytes
      → Bytes
      → Bytes
      → DirectSender net × Result Sent
  send_to_connected_peer marshal made now ds conns new_stream registry topic buff peer_id =
      let buff_to_send = create_message_bytes marshal made buff in
      let (ds', sent) = DirectSender.send net ds conns new_stream topic buff_to_send in
      elim (check_sendable_data buff) [
        | err e ↦ (ds, err e)
        | ok u ↦
            if nat_beq (length buff_to_send) 0
            then (ds, ok not_sent)
            else (if peer_id == self
                then send_direct_to_self now ds registry topic buff_to_send
                else (ds', sent >>= λ (stream, message). ok (on_stream stream message)))
      ]
