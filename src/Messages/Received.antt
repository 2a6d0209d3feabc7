-- ===== src/Messages/Received.antt =====
-- p2p/libp2p/messagesHandler.go: what is done about a received message.
use drt_go_chain_communicati.Prelude.{
  Bool, true, false, ◌&&◌, List, [], ◌∷◌, Option, some, ◌≡◌, refl, sym, subst, ◌∙◌, Bytes,
  Option-cases, inl, inr, arith, All, ◌↔◌, ap, map, none,
}
use drt_go_chain_communicati.Prelude.Int.{ℤ}
use drt_go_chain_communicati.Prelude.Text.{contains}
use drt_go_chain_communicati.Errors.{Result, ok, err, Result-cases, ok_injective, nil_validator}
use drt_go_chain_communicati.Message.{
  PbMessage, TopicMessage, Message, direct, broadcast, new_message,
}
use drt_go_chain_communicati.Messages.{
  MessageProcessor, TopicProcessors, PubSub, Registry, processors_of, get_list, outcomes,
  message_ok, should_increase_rating, validate_message_by_timestamp, process_received_message,
  DenialEvaluator, transform_and_check_message, pubsub_callback,
}

message_ok-outcomes :
    (msg : Message) (peer : Bytes) (ps : List MessageProcessor)
    → (message_ok (outcomes msg peer ps) ≡ true) ↔ All (λ p. p msg peer ≡ ok tt) ps
unfolding message_ok outcomes
message_ok-outcomes msg peer [] = (λ h. tt, λ h. refl)
message_ok-outcomes msg peer (p ∷ ps) = elim (Result-cases (p msg peer)) [
  | inl (e, q) ↦
      (λ h. let h' : false ≡ true = rw (q, message_ok) at h in cc, λ h. let h' = h.0 in cc)
  | inr (u, q) ↦ (
    λ h. (q, (message_ok-outcomes msg peer ps).0 (rw (q, message_ok) at h)),
    λ h. rw (q, message_ok) ((message_ok-outcomes msg peer ps).1 h.1),
  )
]

-- Each processor gets the message.
pub outcomes-eq-map :
    (msg : Message) (peer : Bytes) (ps : List MessageProcessor)
    → outcomes msg peer ps ≡ map (λ p. p msg peer) ps
unfolding outcomes
outcomes-eq-map msg peer [] = refl
outcomes-eq-map msg peer (p ∷ ps) = ap (λ rs. p msg peer ∷ rs) (outcomes-eq-map msg peer ps)

-- Why pubsub may pass a message on.
pub record PassesOn (unmarshal : Bytes → Option TopicMessage) (id_from_bytes : Bytes → Option Bytes)
    (now : ℤ) (processors : List MessageProcessor) (pid : Bytes) (message : Option PbMessage)
    : Type 0 where
  pub msg : Message
  pub read : new_message (some unmarshal) id_from_bytes message broadcast ≡ ok msg
  pub timely : validate_message_by_timestamp now msg ≡ ok tt
  pub processed : All (λ p. p msg pid ≡ ok tt) processors

timely_and_processed :
    (unmarshal : Bytes → Option TopicMessage) (id_from_bytes : Bytes → Option Bytes) (now : ℤ)
    (processors : List MessageProcessor) (pid : Bytes) (message : Option PbMessage) (msg : Message)
    → new_message (some unmarshal) id_from_bytes message broadcast ≡ ok msg
    → PassesOn unmarshal id_from_bytes now processors pid message
    → (validate_message_by_timestamp now msg ≡ ok tt) × All (λ p. p msg pid ≡ ok tt) processors
timely_and_processed unmarshal id_from_bytes now processors pid message msg q p =
    let same = ok_injective (sym p.read ∙ q) in
    (
      subst (λ x. validate_message_by_timestamp now x ≡ ok tt) same p.timely,
      subst (λ x. All (λ f. f x pid ≡ ok tt) processors) same p.processed,
    )

module _ (d : DenialEvaluator) (unmarshal : Bytes → Option TopicMessage)
    (id_from_bytes : Bytes → Option Bytes) where
  -- The validator of a topic passes a message on exactly if NewMessage and the test of its timestamp
  -- accept it and every processor of the topic returns no error.
  pub pubsub_callback_iff :
      (now : ℤ) (denied : d.Denied) (tp : TopicProcessors) (pid : Bytes)
      (message : Option PbMessage)
      → ((pubsub_callback d unmarshal id_from_bytes now denied tp pid message).1.1 ≡ true)
        ↔ PassesOn unmarshal id_from_bytes now (get_list tp).1 pid message
  unfolding pubsub_callback transform_and_check_message
  pubsub_callback_iff now denied tp pid message =
      elim (Result-cases (new_message (some unmarshal) id_from_bytes message broadcast)) [
        | inl (e, q) ↦ (
          λ h.
              let h' : false ≡ true = rw (q, pubsub_callback, transform_and_check_message) at h in
              cc,
          λ p. let p' = p.read in cc,
        )
        | inr (msg, q) ↦ elim (Result-cases (validate_message_by_timestamp now msg)) [
          | inl (e, v) ↦ (
            λ h.
                let h' : false ≡ true =
                  rw v at (rw (q, pubsub_callback, transform_and_check_message) at h) in
                cc,
            λ p.
                let v' =
                  (timely_and_processed unmarshal id_from_bytes now (get_list tp).1 pid message msg
                    q p).0 in
                cc,
          )
          | inr (u, v) ↦ (
            λ h. record {
              msg = msg;
              read = q;
              timely = v;
              processed =
                  (message_ok-outcomes msg pid (get_list tp).1).0
                    (rw v at (rw (q, pubsub_callback, transform_and_check_message) at h));
            },
            λ p.
                rw (q, pubsub_callback, transform_and_check_message)
                  (rw v (
                    (message_ok-outcomes msg pid (get_list tp).1).1
                      (timely_and_processed unmarshal id_from_bytes now (get_list tp).1 pid message
                        msg q p).1)),
          )
        ]
      ]

-- Why a received direct message raises the rating of the peer that sent it.
pub record Raises (ps : PubSub) (request_suffix : Bytes) (now : ℤ) (s : Registry ps) (msg : Message)
    (peer : Bytes) : Type 0 where
  pub processors : TopicProcessors
  pub timely : validate_message_by_timestamp now msg ≡ ok tt
  pub registered : processors_of ps s msg.topic_field ≡ some processors
  pub processed : All (λ p. p msg peer ≡ ok tt) (get_list processors).1
  pub sent_directly : msg.broadcast_method_field ≡ direct
  pub no_request : contains msg.topic_field request_suffix ≡ false

module _ (ps : PubSub) (request_suffix : Bytes) where
  should_increase_rating_iff :
      (msg : Message)
      → (should_increase_rating ps request_suffix msg ≡ true) ↔ (
          (msg.broadcast_method_field ≡ direct) × (contains msg.topic_field request_suffix ≡ false))
  unfolding should_increase_rating
  should_increase_rating_iff msg = (λ h. (ground arith, ground arith), λ (a, b). ground arith)

  pub received_in_time :
      (now : ℤ) (s : Registry ps) (msg : Message) (peer : Bytes) (tp : TopicProcessors)
      → validate_message_by_timestamp now msg ≡ ok tt
      → processors_of ps s msg.topic_field ≡ some tp
      → process_received_message ps request_suffix now s msg peer
        ≡ ok (
          outcomes msg peer (get_list tp).1,
          message_ok (outcomes msg peer (get_list tp).1)
              && should_increase_rating ps request_suffix msg,
        )
  unfolding process_received_message
  received_in_time now s msg peer tp v q = rw (v, q, process_received_message) refl

  pub received_without_processors :
      (now : ℤ) (s : Registry ps) (msg : Message) (peer : Bytes)
      → validate_message_by_timestamp now msg ≡ ok tt
      → processors_of ps s msg.topic_field ≡ none
      → process_received_message ps request_suffix now s msg peer ≡ err nil_validator
  unfolding process_received_message
  received_without_processors now s msg peer v q = rw (v, q, process_received_message) refl

  received_ok :
      (now : ℤ) (s : Registry ps) (msg : Message) (peer : Bytes)
      (b : List (Result (Unit {0})) × Bool)
      → process_received_message ps request_suffix now s msg peer ≡ ok b
      → (validate_message_by_timestamp now msg ≡ ok tt)
        × ((tp : TopicProcessors) × (processors_of ps s msg.topic_field ≡ some tp))
  unfolding process_received_message
  received_ok now s msg peer b h = elim (Result-cases (validate_message_by_timestamp now msg)) [
    | inl (e, v) ↦ let h' : err e ≡ ok b = rw (v, process_received_message) at h in cc
    | inr (u, v) ↦ elim (Option-cases (processors_of ps s msg.topic_field)) [
      | inl q ↦ let h' : err nil_validator ≡ ok b = rw (v, q, process_received_message) at h in cc
      | inr known ↦ (v, known)
    ]
  ]

  -- Whether the rating is raised, from what the processors return and the message.
  pub raises_iff :
      (msg : Message) (peer : Bytes) (processors : List MessageProcessor)
      → ((message_ok (outcomes msg peer processors) && should_increase_rating ps request_suffix msg)
          ≡ true)
        ↔ (All (λ p. p msg peer ≡ ok tt) processors
            × ((msg.broadcast_method_field ≡ direct)
                × (contains msg.topic_field request_suffix ≡ false)))
  raises_iff msg peer processors = (
    λ both.
        let handled : message_ok (outcomes msg peer processors) ≡ true = ground (arith, both) in
        let counts : should_increase_rating ps request_suffix msg ≡ true = ground (arith, both) in
        (
          (message_ok-outcomes msg peer processors).0 handled,
          (should_increase_rating_iff msg).0 counts,
        ),
    λ (handled, counts).
        rw
          (
            (message_ok-outcomes msg peer processors).1 handled,
            (should_increase_rating_iff msg).1 counts,
          )
          refl,
  )

  -- ProcessReceivedMessage ends in raising the rating of the connected peer exactly if the message is
  -- in time, its topic has processors, none of them returns an error, and the message was sent
  -- directly on a topic that is not one of requests.
  pub process_received_message_iff :
      (now : ℤ) (s : Registry ps) (msg : Message) (peer : Bytes)
      → ((returned : List (Result (Unit {0}))) × (process_received_message ps request_suffix now s
              msg peer
            ≡ ok (returned, true)))
        ↔ Raises ps request_suffix now s msg peer
  process_received_message_iff now s msg peer = (
    λ (returned, h).
        let (v, (tp, q)) = received_ok now s msg peer (returned, true) h in
        let both =
          ap (λ x. x.1) (ok_injective (sym (received_in_time now s msg peer tp v q) ∙ h)) in
        let (handled, (a, b)) = (raises_iff msg peer (get_list tp).1).0 both in
        record {
          processors = tp;
          timely = v;
          registered = q;
          processed = handled;
          sent_directly = a;
          no_request = b;
        },
    λ r. (
      outcomes msg peer (get_list r.processors).1,
      received_in_time now s msg peer r.processors r.timely r.registered
          ∙ rw
              ((raises_iff msg peer (get_list r.processors).1).1
                (r.processed, (r.sent_directly, r.no_request)))
              refl,
    ),
  )
