-- ===== src/Messages/Examples.antt =====
-- p2p/libp2p/messagesHandler.go: the theorems at concrete inputs, and runs of the code.
use drt_go_chain_communicati.Prelude.{
  Bool, true, false, not, ◌&&◌, ◌⊎◌, List, [], ◌∷◌, Option, none, some, ◌≡◌, ◌≢◌, ◌↔◌, refl, Bytes,
  bytes_eq, bytes_beq, ◌==◌, ==_refl, Dict, lookup, insert, erase, lookup-insert_self,
  lookup-insert_ne, lookup-erase_self, lookup-erase_ne, Bool-cases, inl, inr, if◌then◌else◌, arith,
  ap,
}
use drt_go_chain_communicati.Prelude.Int.{pos, ◌+ℤ◌, ◌-ℤ◌, ◌≤ℤ◌}
use drt_go_chain_communicati.Errors.{Result, ok, err, external, nil_topic}
use drt_go_chain_communicati.Message.{PbMessage, TopicMessage, Message, direct, new_message}
use drt_go_chain_communicati.Messages.{
  MessageProcessor, PubSub, Registry, processors_of, register_message_processor,
  unregister_message_processor, unregister_all_message_processors, add_to, add_topic_processor,
  validate_message_by_timestamp, process_received_message, get_list, DenialEvaluator,
  pubsub_callback, transform_and_check_message,
}
use drt_go_chain_communicati.Messages.Timestamps.{validate_message_by_timestamp_iff}
use drt_go_chain_communicati.Messages.Registration.{
  is_some, is_ok, PubSubLaws, Reach, here, next, registers, unregisters, Refuses, Refused,
}
use drt_go_chain_communicati.Messages.Matched.{Matched, Reach-Matched}
use drt_go_chain_communicati.Messages.Calls.{
  find_processor, Added, unregister_all-unregister_message_processor,
  register_message_processor-Added,
}
use drt_go_chain_communicati.Messages.Blacklist.{DenialLaws, transform_and_check_message_refused}
use drt_go_chain_communicati.Messages.Received.{
  PassesOn, pubsub_callback_iff, Raises, process_received_message_iff,
}

-- A pubsub that keeps the topics with a validator, and refuses one for the topic 9.
abbrev Topics : Type 0
Topics = Dict Bytes (Unit {0})

abbrev known : Topics → Bytes → Bool
known s t = is_some (lookup t s)

abbrev register : Topics → Bytes → Topics × Result (Unit {0})
register s t =
    if known s t
    then (s, err (external 1))
    else (if t == 9 ∷ [] then (s, err (external 3)) else (insert t tt s, ok tt))

abbrev unregister : Topics → Bytes → Topics × Result (Unit {0})
unregister s t = if known s t then (erase t s, ok tt) else (s, err (external 2))

abbrev map_pub_sub : PubSub
map_pub_sub = record {
  State = Topics;
  register_topic_validator = register;
  unregister_topic_validator = unregister;
}

known-register_self :
    (s : Topics) (t : Bytes) → known s t ≡ false → known (register s t).0 t ≡ is_ok (register s t).1
known-register_self s t h = elim (Bool-cases (t == 9 ∷ [])) [
  | inl refused ↦ rw (h, refused) h
  | inr accepted ↦ rw (h, accepted) (ap is_some (lookup-insert_self t tt s))
]

known-register_ne : (s : Topics) (t u : Bytes) → t ≢ u → known (register s t).0 u ≡ known s u
known-register_ne s t u n = elim (Bool-cases (known s t)) [
  | inl old ↦ rw old refl
  | inr new ↦ elim (Bool-cases (t == 9 ∷ [])) [
    | inl refused ↦ rw (new, refused) refl
    | inr accepted ↦ rw (new, accepted) (ap is_some (lookup-insert_ne t u tt s n))
  ]
]

known-unregister_self : (s : Topics) (t : Bytes) → known (unregister s t).0 t ≡ false
known-unregister_self s t = elim (Bool-cases (known s t)) [
  | inl old ↦ rw old (ap is_some (lookup-erase_self t s))
  | inr new ↦ rw new new
]

known-unregister_ne : (s : Topics) (t u : Bytes) → t ≢ u → known (unregister s t).0 u ≡ known s u
known-unregister_ne s t u n = elim (Bool-cases (known s t)) [
  | inl old ↦ rw old (ap is_some (lookup-erase_ne t u s n))
  | inr new ↦ rw new refl
]

map_pub_sub-PubSubLaws : PubSubLaws map_pub_sub
map_pub_sub-PubSubLaws = record {
  registered = known;
  registered-register_self = known-register_self;
  registered-register_ne = known-register_ne;
  unregister_known = λ s t h. rw h refl;
  unregister_missing = λ s t h. (external 2, rw h refl);
  registered-unregister_self = known-unregister_self;
  registered-unregister_ne = known-unregister_ne;
}

abbrev topic : Bytes
topic = 1 ∷ []

abbrev other_topic : Bytes
other_topic = 2 ∷ []

abbrev accepts : MessageProcessor
accepts msg peer = ok tt

abbrev empty : Registry map_pub_sub
empty = record { processors = []; pub_sub = [] }

empty-Matched : Matched map_pub_sub map_pub_sub-PubSubLaws empty
unfolding map_pub_sub-PubSubLaws processors_of lookup
empty-Matched t = refl

one : Registry map_pub_sub
one = (register_message_processor map_pub_sub empty topic (7 ∷ []) (some accepts)).0

one-Matched : Matched map_pub_sub map_pub_sub-PubSubLaws one
unfolding one map_pub_sub-PubSubLaws Refuses Refused lookup bytes_beq
one-Matched t =
    let run : Reach map_pub_sub empty one = next here (registers topic (7 ∷ []) (some accepts)) in
    elim (Reach-Matched map_pub_sub map_pub_sub-PubSubLaws empty-Matched run t).1 [
      | inl same ↦ same
      | inr refused ↦ elim refused [ inl e ↦ absurd e | inr e ↦ cc (e.3) ]
    ]

one_processors : processors_of map_pub_sub one topic ≡ some ((7 ∷ [], accepts) ∷ [])
unfolding one register_message_processor add_to add_topic_processor processors_of lookup insert
    bytes_beq
one_processors = refl

-- The topic 9 is refused its validator, and then the processor of the topic 1 is removed.
calls :
    Reach map_pub_sub one
      (unregister_message_processor map_pub_sub
        (register_message_processor map_pub_sub one (9 ∷ []) (7 ∷ []) (some accepts)).0
        topic
        (7 ∷ [])).0
calls = next (next here (registers (9 ∷ []) (7 ∷ []) (some accepts))) (unregisters topic (7 ∷ []))

Reach-Matched_example :
    let s =
      (unregister_message_processor map_pub_sub
        (register_message_processor map_pub_sub one (9 ∷ []) (7 ∷ []) (some accepts)).0
        topic
        (7 ∷ [])).0 in
    ((known s.pub_sub (9 ∷ []) && not (is_some (processors_of map_pub_sub s (9 ∷ [])))) ≡ false)
    × ((known s.pub_sub (9 ∷ []) ≡ is_some (processors_of map_pub_sub s (9 ∷ [])))
        ⊎ Refused map_pub_sub calls (9 ∷ []))
unfolding map_pub_sub-PubSubLaws
Reach-Matched_example = Reach-Matched map_pub_sub map_pub_sub-PubSubLaws one-Matched calls (9 ∷ [])

unregister_all-unregister_message_processor_example :
    let s = (unregister_message_processor map_pub_sub one topic (7 ∷ [])).0 in
    (lookup topic s.processors ≡ some none)
    × (is_ok (unregister_all_message_processors map_pub_sub s (topic ∷ [])).1 ≡ false)
unfolding lookup erase bytes_beq
unregister_all-unregister_message_processor_example =
    unregister_all-unregister_message_processor map_pub_sub map_pub_sub-PubSubLaws one topic
      (7 ∷ []) ((7 ∷ [], accepts) ∷ []) accepts [] [] one-Matched one_processors refl refl

-- A second processor on the topic.
register_message_processor-Added_example :
    let (s, r) = register_message_processor map_pub_sub one topic (8 ∷ []) (some accepts) in
    Added map_pub_sub one topic (8 ∷ []) accepts s r
unfolding one register_message_processor add_to add_topic_processor find_processor processors_of
    lookup insert bytes_beq
register_message_processor-Added_example =
    register_message_processor-Added map_pub_sub one topic (8 ∷ []) accepts (λ h. cc) refl

abbrev received : Message
received = record {
  from_field = 1 ∷ [];
  data_field = [];
  payload_field = [];
  seq_no_field = 3 ∷ [];
  topic_field = topic;
  signature_field = [];
  key_field = none;
  peer_field = 1 ∷ [];
  timestamp_field = pos 1000;
  broadcast_method_field = direct;
}

validate_message_by_timestamp_iff_example :
    (validate_message_by_timestamp (pos 1600) received ≡ ok tt)
    ↔ ((pos 1600 -ℤ pos 600 ≤ℤ pos 1000) × (pos 1000 ≤ℤ pos 1600 +ℤ pos 20))
validate_message_by_timestamp_iff_example = validate_message_by_timestamp_iff (pos 1600) received

process_received_message_iff_example :
    ((returned : List (Result (Unit {0}))) × (process_received_message map_pub_sub
          (82 ∷ [])
          (pos 1600)
          one
          received
          (1 ∷ [])
        ≡ ok (returned, true)))
    ↔ Raises map_pub_sub (82 ∷ []) (pos 1600) one received (1 ∷ [])
process_received_message_iff_example =
    process_received_message_iff map_pub_sub (82 ∷ []) (pos 1600) one received (1 ∷ [])

-- A black list that keeps every peer it is given.
abbrev listed : List Bytes → Bytes → Bool
listed [] k = false
listed (j ∷ js) k = let rest = listed js k in if j == k then true else rest

abbrev black_list : DenialEvaluator
black_list = record {
  Denied = List Bytes;
  is_denied = listed;
  upsert_peer_id = λ s pid n. (pid ∷ s, ok tt);
}

black_list-DenialLaws : DenialLaws black_list
black_list-DenialLaws = record {
  upserted = λ s pid n. rw (==_refl pid) refl;
  kept = λ s pid q n h. ground (arith, h);
}

abbrev unmarshal : Bytes → Option TopicMessage
unmarshal b =
    some (record { version = 1; payload = b; timestamp = pos 1000; pk = []; signature_on_pid = [] })

abbrev id_from_bytes : Bytes → Option Bytes
id_from_bytes b = some b

abbrev no_topic : PbMessage
no_topic = record {
  from_peer = 1 ∷ [];
  payload = [];
  seqno = [];
  topic = none;
  signature = [];
  key = none;
  unrecognized = [];
}

abbrev on_topic : PbMessage
on_topic = record no_topic { topic = some topic }

transform_and_check_message_refused_example :
    let (denied, r) =
      transform_and_check_message black_list unmarshal id_from_bytes
        (pos 1600)
        []
        (some no_topic)
        (5 ∷ []) in
    (r ≡ err nil_topic) × (listed denied (5 ∷ []) ≡ true) × (listed denied (1 ∷ []) ≡ true)
unfolding new_message
transform_and_check_message_refused_example =
    transform_and_check_message_refused black_list black_list-DenialLaws unmarshal id_from_bytes
      (pos 1600) [] no_topic (5 ∷ []) nil_topic refl (λ e. cc) (λ e. cc)

pubsub_callback_iff_example :
    ((pubsub_callback black_list unmarshal id_from_bytes
        (pos 1600)
        []
        ((7 ∷ [], accepts) ∷ [])
        (5 ∷ [])
        (some on_topic)).1.1
      ≡ true)
    ↔ PassesOn unmarshal id_from_bytes (pos 1600) (accepts ∷ []) (5 ∷ []) (some on_topic)
unfolding get_list
pubsub_callback_iff_example =
    pubsub_callback_iff black_list unmarshal id_from_bytes (pos 1600) [] ((7 ∷ [], accepts) ∷ [])
      (5 ∷ []) (some on_topic)
