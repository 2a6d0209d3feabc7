-- ===== src/Messages/Calls.antt =====
-- p2p/libp2p/messagesHandler.go: what a registration leaves behind.
use drt_go_chain_communicati.Prelude.{
  false, List, [], ◌∷◌, ◌++◌, none, some, ◌≡◌, ◌≢◌, refl, ◌∙◌, sym, ap, Option, Bytes, bytes_eq,
  lookup, insert, erase, lookup-insert_self, lookup-insert_ne, lookup-erase_self, lookup-erase_ne,
  eq_cases, inl, inr, Bool-cases, Option-cases,
}
use drt_go_chain_communicati.Errors.{Result, ok}
use drt_go_chain_communicati.Messages.{
  MessageProcessor, TopicProcessors, add_topic_processor, get_list, PubSub, Registry, processors_of,
  add_to, register_message_processor, after_removal, unregister_message_processor,
  unregister_all_message_processors,
}
use drt_go_chain_communicati.Messages.Registration.{
  is_ok, is_some, PubSubLaws, dropped, remove_known,
}
use drt_go_chain_communicati.Messages.Matched.{Matched, dropped-Matched, unregister-Matched}

module _ (ps : PubSub) (laws : PubSubLaws ps) where
  dropped_none :
      (s : Registry ps) (t topic : Bytes)
      → processors_of ps s topic ≡ none
      → processors_of ps (dropped ps s t) topic ≡ none
  unfolding processors_of
  dropped_none s t topic h = elim (eq_cases t topic) [
    | inl same ↦ rw (← same, lookup-erase_self t s.processors, processors_of) refl
    | inr differ ↦ rw (lookup-erase_ne t topic s.processors differ, processors_of) h
  ]

  -- A topic with no processors stops UnregisterAllMessageProcessors with an error.
  unregister_all_stops :
      (s : Registry ps) (before after : List Bytes) (topic : Bytes)
      → Matched ps laws s
      → processors_of ps s topic ≡ none
      → is_ok (unregister_all_message_processors ps s (before ++ topic ∷ after)).1 ≡ false
  unfolding unregister_all_message_processors
  unregister_all_stops s [] after topic m h =
      let (e, q) = laws.unregister_missing s.pub_sub topic (m topic ∙ ap is_some h) in
      rw (q, unregister_all_message_processors) refl
  unregister_all_stops s (t ∷ before) after topic m h =
      elim (Bool-cases (laws.registered s.pub_sub t)) [
        | inl known ↦
            rw (laws.unregister_known s.pub_sub t known, unregister_all_message_processors)
              (unregister_all_stops (dropped ps s t) before after topic
                (dropped-Matched ps laws s t m) (dropped_none s t topic h))
        | inr missing ↦
            let (e, q) = laws.unregister_missing s.pub_sub t missing in
            rw (q, unregister_all_message_processors) refl
      ]

  unregister_last :
      (s : Registry ps) (topic i : Bytes) (tp : TopicProcessors) (p : MessageProcessor)
      → processors_of ps s topic ≡ some tp
      → lookup i tp ≡ some p
      → erase i tp ≡ []
      → lookup topic (unregister_message_processor ps s topic i).0.processors ≡ some none
  unfolding unregister_message_processor after_removal get_list
  unregister_last s topic i tp p q known last =
      rw (q, remove_known tp i known, unregister_message_processor)
        (rw (remove_known tp i known)
          (rw (last, after_removal) (lookup-insert_self topic none s.processors)))

  -- With a pubsub that has at most one validator per topic, and validators for exactly the topics
  -- with processors: after UnregisterMessageProcessor removed the only processor of a topic, the
  -- topic is still a key of the map, with a nil value, and UnregisterAllMessageProcessors returns
  -- an error whatever the order in which it comes to the topics, this one among them.
  pub unregister_all-unregister_message_processor :
      (s : Registry ps) (topic i : Bytes) (tp : TopicProcessors) (p : MessageProcessor)
      (before after : List Bytes)
      → Matched ps laws s
      → processors_of ps s topic ≡ some tp
      → lookup i tp ≡ some p
      → erase i tp ≡ []
      → let s' = (unregister_message_processor ps s topic i).0 in
        (lookup topic s'.processors ≡ some none)
        × (is_ok (unregister_all_message_processors ps s' (before ++ topic ∷ after)).1 ≡ false)
  unfolding processors_of
  unregister_all-unregister_message_processor s topic i tp p before after m q known last =
      let kept = unregister_last s topic i tp p q known last in
      (
        kept,
        unregister_all_stops (unregister_message_processor ps s topic i).0 before after topic
            (unregister-Matched ps laws s topic i m) (rw (kept, processors_of) refl),
      )

module _ (ps : PubSub) where
  -- The processor that a topic has under an identifier.
  unfoldable pub find_processor : Registry ps → Bytes → Bytes → Option MessageProcessor
  find_processor s topic i = elim (processors_of ps s topic) [ none ↦ none | some tp ↦ lookup i tp ]

  -- A processor that was added: the call succeeded, the topic has the processor under the identifier and
  -- under each other one what it had, and each other topic has its processors as before.
  pub record Added (s : Registry ps) (topic i : Bytes) (p : MessageProcessor) (s' : Registry ps)
      (r : Result (Unit {0})) : Type 0 where
    pub succeeded : r ≡ ok tt
    pub found : find_processor s' topic i ≡ some p
    pub kept : (j : Bytes) → i ≢ j → find_processor s' topic j ≡ find_processor s topic j
    pub others : (u : Bytes) → topic ≢ u → processors_of ps s' u ≡ processors_of ps s u

  abbrev written : Registry ps → Bytes → Option TopicProcessors → ps.State → Registry ps
  written s topic v state = record { processors = insert topic v s.processors; pub_sub = state }

  processors_of-written :
      (s : Registry ps) (topic : Bytes) (v : Option TopicProcessors) (state : ps.State)
      → processors_of ps (written s topic v state) topic ≡ v
  unfolding processors_of
  processors_of-written s topic v state =
      rw (lookup-insert_self topic v s.processors, processors_of) refl

  processors_of-written_ne :
      (s : Registry ps) (topic u : Bytes) (v : Option TopicProcessors) (state : ps.State)
      → topic ≢ u
      → processors_of ps (written s topic v state) u ≡ processors_of ps s u
  unfolding processors_of
  processors_of-written_ne s topic u v state n =
      rw (lookup-insert_ne topic u v s.processors n, processors_of) refl

  find_in :
      (s : Registry ps) (topic j : Bytes) (tp : TopicProcessors)
      → processors_of ps s topic ≡ some tp
      → find_processor s topic j ≡ lookup j tp
  unfolding find_processor
  find_in s topic j tp q = rw (q, find_processor) refl

  find_none :
      (s : Registry ps) (topic j : Bytes)
      → processors_of ps s topic ≡ none
      → find_processor s topic j ≡ none
  unfolding find_processor
  find_none s topic j q = rw (q, find_processor) refl

  add_to-Added :
      (s : Registry ps) (topic i : Bytes) (tp : TopicProcessors) (p : MessageProcessor)
      → processors_of ps s topic ≡ some tp
      → lookup i tp ≡ none
      → Added s topic i p (add_to ps s topic tp i p).0 (add_to ps s topic tp i p).1
  unfolding add_to add_topic_processor
  add_to-Added s topic i tp p q new =
      let added = processors_of-written s topic (some (insert i p tp)) s.pub_sub in
      rw (new, add_topic_processor)
        (record {
          succeeded = refl;
          found = find_in _ topic i (insert i p tp) added ∙ lookup-insert_self i p tp;
          kept = λ j n.
              find_in _ topic j (insert i p tp) added
              ∙ lookup-insert_ne i j p tp n
              ∙ sym (find_in s topic j tp q);
          others = λ u n. processors_of-written_ne s topic u (some (insert i p tp)) s.pub_sub n;
        })

  -- When pubsub does not refuse a validator for a topic that has no processors yet:
  -- RegisterMessageProcessor with an identifier that is new on the topic succeeds, and leaves under
  -- this identifier of the topic the processor, under any other one what was there, and the
  -- processors of any other topic as they were.
  pub register_message_processor-Added :
      (s : Registry ps) (topic i : Bytes) (p : MessageProcessor)
      → (processors_of ps s topic ≡ none → (ps.register_topic_validator s.pub_sub topic).1 ≡ ok tt)
      → find_processor s topic i ≡ none
      → let (s', r) = register_message_processor ps s topic i (some p) in Added s topic i p s' r
  unfolding register_message_processor
  register_message_processor-Added s topic i p accepted new =
      elim (Option-cases (processors_of ps s topic)) [
        | inr (tp, q) ↦
            rw (q, register_message_processor)
              (add_to-Added s topic i tp p q (sym (find_in s topic i tp q) ∙ new))
        | inl q ↦
            let state = (ps.register_topic_validator s.pub_sub topic).0 in
            let opened = written s topic (some []) state in
            let empty = processors_of-written s topic (some []) state in
            let added = add_to-Added opened topic i [] p empty (unfold lookup in refl) in
            rw (q, accepted q, register_message_processor)
              (record {
                succeeded = added.succeeded;
                found = added.found;
                kept = λ j n.
                    added.kept j n
                    ∙ find_in opened topic j [] empty
                    ∙ unfold lookup in sym (find_none s topic j q);
                others =
                    λ u n. added.others u n ∙ processors_of-written_ne s topic u (some []) state n;
              })
      ]
