-- ===== src/Messages.antt =====
-- p2p/libp2p/messagesHandler.go and topicProcessors.go: the processors of each topic, and the tests and
-- deliveries of a received message.
-- `PubSub` has the two calls of libp2p's pubsub that the registration makes, and `DenialEvaluator` the
-- black list of the node. A processor is its ProcessReceivedMessage; the `source` that it is given is
-- the handler itself. The time is in seconds, as `Unix()` gives it.
pub mod Timestamps
pub mod Registration
pub mod Kept
pub mod Matched
pub mod Calls
pub mod Received
pub mod Blacklist
pub mod Topics
pub mod Sending
mod Examples
use drt_go_chain_communicati.Prelude.{
  ℕ, Bool, true, false, not, ◌&&◌, List, [], ◌∷◌, Option, none, some, Bytes, bytes_eq, Dict, lookup,
  insert, erase, length, ltb, nat_beq, if◌then◌else◌, map,
}
use drt_go_chain_communicati.Prelude.Int.{ℤ, pos, ◌+ℤ◌, ◌-ℤ◌, ltb_ℤ}
use drt_go_chain_communicati.Prelude.Text.{contains}
use drt_go_chain_communicati.Errors.{
  Error, Result, ok, err, ◌>>=◌, ◌>>◌, fail_if, not_nil, message_too_large, empty_buffer_to_send,
  message_too_new, message_too_old, nil_validator, message_processor_already_defined,
  message_processor_does_not_exists,
}
use drt_go_chain_communicati.Message.{
  PbMessage, TopicMessage, Message, BroadcastMethod, direct, broadcast, new_message,
}
use drt_go_chain_communicati.DirectSender.{max_send_buff_size}

pub check_sendable_data : Bytes → Result (Unit {0})
check_sendable_data buff = do
  fail_if (ltb max_send_buff_size (length buff)) message_too_large
  fail_if (nat_beq (length buff) 0) empty_buffer_to_send

abbrev pub pubsub_time_cache_duration : ℤ
pubsub_time_cache_duration = pos 600

abbrev pub accept_messages_in_advance_duration : ℤ
accept_messages_in_advance_duration = pos 20

pub validate_message_by_timestamp : ℤ → Message → Result (Unit {0})
validate_message_by_timestamp now msg = do
  fail_if (ltb_ℤ (now +ℤ accept_messages_in_advance_duration) msg.timestamp_field) message_too_new
  fail_if (ltb_ℤ msg.timestamp_field (now -ℤ pubsub_time_cache_duration)) message_too_old

abbrev pub MessageProcessor : Type 0
MessageProcessor = Message → Bytes → Result (Unit {0})

-- The map of a `topicProcessors`.
abbrev pub TopicProcessors : Type 0
TopicProcessors = Dict Bytes MessageProcessor

pub add_topic_processor :
    TopicProcessors → Bytes → MessageProcessor → TopicProcessors × Result (Unit {0})
add_topic_processor tp identifier processor = elim (lookup identifier tp) [
  | some p ↦ (tp, err message_processor_already_defined)
  | none ↦ (insert identifier processor tp, ok tt)
]

pub remove_topic_processor : TopicProcessors → Bytes → TopicProcessors × Result (Unit {0})
remove_topic_processor tp identifier = elim (lookup identifier tp) [
  | some p ↦ (erase identifier tp, ok tt)
  | none ↦ (tp, err message_processor_does_not_exists)
]

-- In Go the entries come in any order.
pub get_list : TopicProcessors → List Bytes × List MessageProcessor
get_list tp = (map (λ e. e.0) tp, map (λ e. e.1) tp)

pub record PubSub : Type 1 where
  pub State : Type 0
  pub register_topic_validator : State → Bytes → State × Result (Unit {0})
  pub unregister_topic_validator : State → Bytes → State × Result (Unit {0})

module _ (ps : PubSub) where
  -- The part of a `messagesHandler` that `mutTopics` guards and the registration changes.
  pub record Registry : Type 0 where
    pub processors : Dict Bytes (Option TopicProcessors)
    pub pub_sub : ps.State

  -- `handler.processors[topic]`: nil where the key is missing.
  pub processors_of : Registry → Bytes → Option TopicProcessors
  processors_of s topic = elim (lookup topic s.processors) [ none ↦ none | some tp ↦ tp ]

  -- AddTopicProcessor on the object that the map holds.
  pub add_to :
      Registry → Bytes → TopicProcessors → Bytes → MessageProcessor → Registry × Result (Unit {0})
  add_to s topic tp identifier processor =
      let (tp', r) = add_topic_processor tp identifier processor in
      (record s { processors = insert topic (some tp') s.processors }, r)

  pub register_message_processor :
      Registry → Bytes → Bytes → Option MessageProcessor → Registry × Result (Unit {0})
  register_message_processor s topic identifier none = (s, err nil_validator)
  register_message_processor s topic identifier (some processor) = elim (processors_of s topic) [
    | some tp ↦ add_to s topic tp identifier processor
    | none ↦
        let (state, r) = ps.register_topic_validator s.pub_sub topic in
        let s' : Registry = record {
          processors = insert topic (some []) s.processors;
          pub_sub = state;
        } in
        elim r [ err e ↦ (s', err e) | ok u ↦ add_to s' topic [] identifier processor ]
  ]

  -- The part of `UnregisterMessageProcessor` for a processor that was removed.
  pub after_removal : Registry → Bytes → TopicProcessors → Registry × Result (Unit {0})
  after_removal s topic tp =
      let (state, r) = ps.unregister_topic_validator s.pub_sub topic in
      if nat_beq (length (get_list tp).0) 0
      then (record { processors = insert topic none s.processors; pub_sub = state }, r)
      else (record s { processors = insert topic (some tp) s.processors }, ok tt)

  pub unregister_message_processor : Registry → Bytes → Bytes → Registry × Result (Unit {0})
  unregister_message_processor s topic identifier = elim (processors_of s topic) [
    | none ↦ (s, ok tt)
    | some tp ↦
        let (tp', r) = remove_topic_processor tp identifier in
        elim r [ err e ↦ (s, err e) | ok u ↦ after_removal s topic tp' ]
  ]

  -- The topics come in the order in which Go's `range` happens to give the keys.
  pub unregister_all_message_processors : Registry → List Bytes → Registry × Result (Unit {0})
  unregister_all_message_processors s [] = (s, ok tt)
  unregister_all_message_processors s (topic ∷ topics) =
      let (state, r) = ps.unregister_topic_validator s.pub_sub topic in
      elim r [
        | err e ↦ (record s { pub_sub = state }, err e)
        | ok u ↦
            unregister_all_message_processors
              (record { processors = erase topic s.processors; pub_sub = state }) topics
      ]

-- The loop over the processors: every one of them gets the message, whatever the others return. The
-- list has what they return, in their order.
pub outcomes : Message → Bytes → List MessageProcessor → List (Result (Unit {0}))
outcomes msg from_connected_peer [] = []
outcomes msg from_connected_peer (p ∷ ps) =
    p msg from_connected_peer ∷ outcomes msg from_connected_peer ps

-- `messageOk` after the loop.
pub message_ok : List (Result (Unit {0})) → Bool
message_ok [] = true
message_ok (r ∷ rs) = let rest = message_ok rs in elim r [ err e ↦ false | ok u ↦ rest ]

abbrev is_direct : BroadcastMethod → Bool
is_direct direct = true
is_direct broadcast = false

module _ (ps : PubSub) (request_suffix : Bytes) where
  -- `request_suffix` is `core.TopicRequestSuffix`.
  pub should_increase_rating : Message → Bool
  should_increase_rating msg =
      is_direct msg.broadcast_method_field && not (contains msg.topic_field request_suffix)

  -- For a message and a source that are not nil. The value has what the processors return, and says if
  -- the rating of the peer is raised, which the goroutine does after they have run.
  pub process_received_message :
      ℤ → Registry ps → Message → Bytes → Result (List (Result (Unit {0})) × Bool)
  process_received_message now s msg from_connected_peer = do
    validate_message_by_timestamp now msg
    tp ← not_nil (processors_of ps s msg.topic_field) nil_validator
    let processed = outcomes msg from_connected_peer (get_list tp).1
    ok (processed, message_ok processed && should_increase_rating msg)

-- p2p.PeerDenialEvaluator.
pub record DenialEvaluator : Type 1 where
  pub Denied : Type 0
  pub is_denied : Denied → Bytes → Bool
  pub upsert_peer_id : Denied → Bytes → ℕ → Denied × Result (Unit {0})

-- In seconds.
abbrev pub wrong_p2p_message_blacklist_duration : ℕ
wrong_p2p_message_blacklist_duration = 7200

module _ (d : DenialEvaluator) (unmarshal : Bytes → Option TopicMessage)
    (id_from_bytes : Bytes → Option Bytes) where
  -- An error of `UpsertPeerID` is only logged.
  pub blacklist_pid : d.Denied → Bytes → ℕ → d.Denied
  blacklist_pid denied pid ban_duration =
      if d.is_denied denied pid
      then denied
      else (if nat_beq (length pid) 0 then denied else (d.upsert_peer_id denied pid ban_duration).0)

  -- What is done about a message that NewMessage refuses.
  pub blacklist_both : d.Denied → Option PbMessage → Bytes → d.Denied
  blacklist_both denied none pid = blacklist_pid denied pid wrong_p2p_message_blacklist_duration
  blacklist_both denied (some m) pid =
      let denied' = blacklist_pid denied pid wrong_p2p_message_blacklist_duration in
      if ltb 0 (length m.from_peer)
      then blacklist_pid denied' m.from_peer wrong_p2p_message_blacklist_duration
      else denied'

  pub transform_and_check_message :
      ℤ → d.Denied → Option PbMessage → Bytes → d.Denied × Result Message
  transform_and_check_message now denied pb_msg pid =
      elim (new_message (some unmarshal) id_from_bytes pb_msg broadcast) [
        | err e ↦ (blacklist_both denied pb_msg pid, err e)
        | ok msg ↦ (denied, validate_message_by_timestamp now msg >> ok msg)
      ]

  -- The validator of a topic: the new black list, what the processors return, and whether pubsub may
  -- pass the message on.
  pub pubsub_callback :
      ℤ
      → d.Denied
      → TopicProcessors
      → Bytes
      → Option PbMessage
      → d.Denied × (List (Result (Unit {0})) × Bool)
  pubsub_callback now denied tp pid message =
      let (denied', r) = transform_and_check_message now denied message pid in
      (
        denied',
        elim r [
          | err e ↦ ([], false)
          | ok msg ↦
              let processed = outcomes msg pid (get_list tp).1 in (processed, message_ok processed)
        ],
      )
