-- ===== src/Messages/Registration.antt =====
-- p2p/libp2p/messagesHandler.go: the processors of the topics and the validators of pubsub.
use drt_go_chain_communicati.Prelude.{
  Bool, true, false, List, Option, none, some, ◌≡◌, ◌≢◌, refl, ◌⊎◌, Bytes, bytes_eq, lookup, erase,
}
use drt_go_chain_communicati.Errors.{Error, Result, ok, err, message_processor_does_not_exists}
use drt_go_chain_communicati.Messages.{
  MessageProcessor, TopicProcessors, remove_topic_processor, PubSub, Registry, processors_of,
  register_message_processor, unregister_message_processor, unregister_all_message_processors,
}

abbrev pub is_ok {ℓ} : {T : Type ℓ} → Result T → Bool
is_ok (err e) = false
is_ok (ok t) = true

abbrev pub is_some {ℓ} : {A : Type ℓ} → Option A → Bool
is_some none = false
is_some (some a) = true

-- A topic has at most one validator. A registration may fail; it leaves a validator exactly if it
-- returns no error. Removing a validator succeeds where there is one, and is an error that changes
-- nothing where there is none.
pub record PubSubLaws (ps : PubSub) : Type 0 where
  pub registered : ps.State → Bytes → Bool
  pub registered-register_self :
      (s : ps.State) (t : Bytes)
      → registered s t ≡ false
      → registered (ps.register_topic_validator s t).0 t ≡ is_ok (ps.register_topic_validator s t).1
  pub registered-register_ne :
      (s : ps.State) (t u : Bytes)
      → t ≢ u
      → registered (ps.register_topic_validator s t).0 u ≡ registered s u
  pub unregister_known :
      (s : ps.State) (t : Bytes)
      → registered s t ≡ true
      → (ps.unregister_topic_validator s t).1 ≡ ok tt
  pub unregister_missing :
      (s : ps.State) (t : Bytes)
      → registered s t ≡ false
      → (e : Error) × (ps.unregister_topic_validator s t ≡ (s, err e))
  pub registered-unregister_self :
      (s : ps.State) (t : Bytes) → registered (ps.unregister_topic_validator s t).0 t ≡ false
  pub registered-unregister_ne :
      (s : ps.State) (t u : Bytes)
      → t ≢ u
      → registered (ps.unregister_topic_validator s t).0 u ≡ registered s u

pub remove_known :
    (tp : TopicProcessors) (i : Bytes) {p : MessageProcessor}
    → lookup i tp ≡ some p
    → remove_topic_processor tp i ≡ (erase i tp, ok tt)
unfolding remove_topic_processor
remove_known tp i h = rw (h, remove_topic_processor) refl

pub remove_missing :
    (tp : TopicProcessors) (i : Bytes)
    → lookup i tp ≡ none
    → remove_topic_processor tp i ≡ (tp, err message_processor_does_not_exists)
unfolding remove_topic_processor
remove_missing tp i h = rw (h, remove_topic_processor) refl

module _ (ps : PubSub) where
  -- One call that changes the registration, whatever it returns.
  pub data Step (s : Registry ps) : Registry ps → Type 0 where
    registers :
        (topic i : Bytes) (p : Option MessageProcessor)
        → Step s (register_message_processor ps s topic i p).0
    unregisters : (topic i : Bytes) → Step s (unregister_message_processor ps s topic i).0
    unregisters_all :
        (topics : List Bytes) → Step s (unregister_all_message_processors ps s topics).0

  pub data Reach (s : Registry ps) : Registry ps → Type 0 where
    here : Reach s s
    next : {q r : Registry ps} → Reach s q → Step q r → Reach s r

  -- The call registers the first processor of the topic `t`, and pubsub refuses its validator.
  abbrev pub RefusesFirst : Registry ps → Bytes → Option MessageProcessor → Bytes → Type 0
  RefusesFirst s topic p t =
      (topic ≡ t)
      × (p ≢ none)
      × (processors_of ps s topic ≡ none)
      × (is_ok (ps.register_topic_validator s.pub_sub topic).1 ≡ false)

  unfoldable pub Refuses : {s q : Registry ps} → Step s q → Bytes → Type 0
  Refuses {s} (registers topic i p) t = RefusesFirst s topic p t
  Refuses (unregisters topic i) t = ⊥
  Refuses (unregisters_all topics) t = ⊥

  -- One of the calls was refused so.
  unfoldable pub Refused : {s q : Registry ps} → Reach s q → Bytes → Type 0
  unfolding Refuses
  Refused here t = ⊥
  Refused (next r step) t = Refused r t ⊎ Refuses step t

-- The state after a round of UnregisterAllMessageProcessors.
abbrev pub dropped : (ps : PubSub) → Registry ps → Bytes → Registry ps
dropped ps s t = record {
  processors = erase t s.processors;
  pub_sub = (ps.unregister_topic_validator s.pub_sub t).0;
}
