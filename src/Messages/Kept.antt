-- ===== src/Messages/Kept.antt =====
-- p2p/libp2p/messagesHandler.go: what each call that changes the registration keeps about a topic.
use drt_go_chain_communicati.Prelude.{
  Bool, true, false, List, [], ◌∷◌, Option, none, some, ◌≡◌, ◌≢◌, refl, ◌∙◌, sym, subst, ◌⊎◌, ap,
  Bytes, bytes_eq, lookup, insert, erase, lookup-insert_self, lookup-insert_ne, lookup-erase_self,
  lookup-erase_ne, length, eq_cases, inl, inr, Bool-cases, Option-cases, nat_beq,
}
use drt_go_chain_communicati.Errors.{Result-cases, Result-cases}
use drt_go_chain_communicati.Messages.{
  MessageProcessor, TopicProcessors, get_list, PubSub, Registry, processors_of, add_to,
  register_message_processor, after_removal, unregister_message_processor,
  unregister_all_message_processors,
}
use drt_go_chain_communicati.Messages.Registration.{
  is_ok, is_some, PubSubLaws, remove_known, remove_missing, Step, registers, unregisters,
  unregisters_all, Refuses, RefusesFirst, dropped,
}

-- What is kept about a topic: how the presence of its validator stands to that of its processors.
module _ (ps : PubSub) (laws : PubSubLaws ps) (R : Bool → Bool → Type 0)
    (agree : (b : Bool) → R b b) (free : (b : Bool) → R b false → b ≡ false) where
  abbrev At : Registry ps → Bytes → Type 0
  At s t = R (laws.registered s.pub_sub t) (is_some (processors_of ps s t))

  -- An entry of the map that is written, with the validators as they should be then.
  written :
      (s : Registry ps) (topic : Bytes) (v : Option TopicProcessors) (state : ps.State) (t : Bytes)
      → At s t
      → (topic ≡ t → R (laws.registered state topic) (is_some v))
      → ((u : Bytes) → topic ≢ u → laws.registered state u ≡ laws.registered s.pub_sub u)
      → At (record { processors = insert topic v s.processors; pub_sub = state }) t
  unfolding processors_of
  written s topic v state t a self others = elim (eq_cases topic t) [
    | inl same ↦ rw (← same, lookup-insert_self topic v s.processors, processors_of) (self same)
    | inr differ ↦
        rw (lookup-insert_ne topic t v s.processors differ, others t differ, processors_of) a
  ]

  erased :
      (s : Registry ps) (topic : Bytes) (state : ps.State) (t : Bytes)
      → At s t
      → laws.registered state topic ≡ false
      → ((u : Bytes) → topic ≢ u → laws.registered state u ≡ laws.registered s.pub_sub u)
      → At (record { processors = erase topic s.processors; pub_sub = state }) t
  unfolding processors_of
  erased s topic state t a self others = elim (eq_cases topic t) [
    | inl same ↦
        rw (← same, lookup-erase_self topic s.processors, self, processors_of) (agree false)
    | inr differ ↦
        rw (lookup-erase_ne topic t s.processors differ, others t differ, processors_of) a
  ]

  -- A topic with processors, or with none.
  with_processors :
      (s : Registry ps) (topic t : Bytes) (v : Option TopicProcessors)
      → At s t
      → processors_of ps s topic ≡ v
      → topic ≡ t
      → R (laws.registered s.pub_sub topic) (is_some v)
  with_processors s topic t v a q same = rw q at (subst (λ u. At s u) (sym same) a)

  add_to-At :
      (s : Registry ps) (topic : Bytes) (tp : TopicProcessors) (i : Bytes) (p : MessageProcessor)
      (t : Bytes)
      → At s t
      → (topic ≡ t → R (laws.registered s.pub_sub topic) true)
      → At (add_to ps s topic tp i p).0 t
  unfolding add_to
  add_to-At s topic tp i p t a self = written s topic _ s.pub_sub t a self (λ u d. refl)

  -- The state after a validator was asked for.
  abbrev opened : Registry ps → Bytes → Registry ps
  opened s topic = record {
    processors = insert topic (some []) s.processors;
    pub_sub = (ps.register_topic_validator s.pub_sub topic).0;
  }

  opened-At :
      (s : Registry ps) (topic t : Bytes)
      → At s t
      → (topic ≡ t → R (laws.registered (opened s topic).pub_sub topic) true)
      → At (opened s topic) t
  opened-At s topic t a self =
      written s topic (some []) _ t a self (λ u d. laws.registered-register_ne s.pub_sub topic u d)

  -- A registration keeps it, unless it is refused; then there is no validator.
  abbrev Kept : Registry ps → Bytes → Option MessageProcessor → Registry ps → Bytes → Type 0
  Kept s topic p q t =
      At q t ⊎ (RefusesFirst ps s topic p t × (laws.registered q.pub_sub t ≡ false))

  register_first-At :
      (s : Registry ps) (topic i : Bytes) (p : MessageProcessor) (t : Bytes)
      → At s t
      → processors_of ps s topic ≡ none
      → Kept s topic (some p) (register_message_processor ps s topic i (some p)).0 t
  unfolding register_message_processor
  register_first-At s topic i p t a q =
      elim (Result-cases (ps.register_topic_validator s.pub_sub topic).1) [
        | inr (u, w) ↦
            let now : topic ≡ t → R (laws.registered (opened s topic).pub_sub topic) true = λ e.
              let missing = free _ (with_processors s topic t none a q e) in
              rw (laws.registered-register_self s.pub_sub topic missing, w) (agree true) in
            rw (q, register_message_processor)
              (rw w
                (inl (add_to-At (opened s topic) topic [] i p t (opened-At s topic t a now) now)))
        | inl (e, w) ↦ elim (eq_cases topic t) [
          | inr differ ↦
              rw (q, register_message_processor)
                (rw w (inl (opened-At s topic t a (λ same. absurd (differ same)))))
          | inl same ↦
              let missing = free _ (with_processors s topic t none a q same) in
              let refused : laws.registered (opened s topic).pub_sub topic ≡ false =
                laws.registered-register_self s.pub_sub topic missing ∙ ap is_ok w in
              rw (q, register_message_processor)
                (rw w (
                  inr (
                    (same, (λ e. cc), refl, refl),
                    subst (λ u. laws.registered (opened s topic).pub_sub u ≡ false) same refused,
                  )))
        ]
      ]

  register-At :
      (s : Registry ps) (topic i : Bytes) (p : Option MessageProcessor) (t : Bytes)
      → At s t
      → Kept s topic p (register_message_processor ps s topic i p).0 t
  unfolding register_message_processor
  register-At s topic i none t a = inl a
  register-At s topic i (some p) t a = elim (Option-cases (processors_of ps s topic)) [
    | inr (tp, q) ↦
        rw (q, register_message_processor)
          (inl (add_to-At s topic tp i p t a (with_processors s topic t (some tp) a q)))
    | inl q ↦ register_first-At s topic i p t a q
  ]

  after_removal-At :
      (s : Registry ps) (topic : Bytes) (tp : TopicProcessors) (t : Bytes)
      → At s t
      → (topic ≡ t → R (laws.registered s.pub_sub topic) true)
      → At (after_removal ps s topic tp).0 t
  unfolding after_removal
  after_removal-At s topic tp t a r = elim (Bool-cases (nat_beq (length (get_list tp).0) 0)) [
    | inl none_left ↦
        rw (none_left, after_removal)
          (written s topic none _ t a
            (λ e. rw (laws.registered-unregister_self s.pub_sub topic) (agree false))
            (λ u d. laws.registered-unregister_ne s.pub_sub topic u d))
    | inr others ↦
        rw (others, after_removal) (written s topic (some tp) s.pub_sub t a r (λ u d. refl))
  ]

  pub unregister-At :
      (s : Registry ps) (topic i t : Bytes)
      → At s t
      → At (unregister_message_processor ps s topic i).0 t
  unfolding unregister_message_processor
  unregister-At s topic i t a = elim (Option-cases (processors_of ps s topic)) [
    | inl q ↦ rw (q, unregister_message_processor) a
    | inr (tp, q) ↦ elim (Option-cases (lookup i tp)) [
      | inl missing ↦ rw (q, remove_missing tp i missing, unregister_message_processor) a
      | inr (p, known) ↦
          rw (q, remove_known tp i known, unregister_message_processor)
            (rw (remove_known tp i known)
              (after_removal-At s topic (erase i tp) t a (with_processors s topic t (some tp) a q)))
    ]
  ]

  pub dropped-At : (s : Registry ps) (topic t : Bytes) → At s t → At (dropped ps s topic) t
  dropped-At s topic t a =
      erased s topic _ t a (laws.registered-unregister_self s.pub_sub topic)
        (λ u d. laws.registered-unregister_ne s.pub_sub topic u d)

  -- UnregisterAllMessageProcessors keeps it too, also when it stops at an error.
  unregister_all-At :
      (s : Registry ps) (topics : List Bytes) (t : Bytes)
      → At s t
      → At (unregister_all_message_processors ps s topics).0 t
  unfolding unregister_all_message_processors
  unregister_all-At s [] t a = a
  unregister_all-At s (topic ∷ topics) t a = elim (Bool-cases (laws.registered s.pub_sub topic)) [
    | inl known ↦
        rw (laws.unregister_known s.pub_sub topic known, unregister_all_message_processors)
          (unregister_all-At (dropped ps s topic) topics t (dropped-At s topic t a))
    | inr missing ↦
        let (e, q) = laws.unregister_missing s.pub_sub topic missing in
        rw (q, unregister_all_message_processors) (rw q a)
  ]

  pub Step-At :
      {s q : Registry ps} (step : Step ps s q) (t : Bytes)
      → At s t
      → At q t ⊎ (Refuses ps step t × (laws.registered q.pub_sub t ≡ false))
  unfolding Refuses
  Step-At {s} (registers topic i p) t a = register-At s topic i p t a
  Step-At {s} (unregisters topic i) t a = inl (unregister-At s topic i t a)
  Step-At {s} (unregisters_all topics) t a = inl (unregister_all-At s topics t a)
