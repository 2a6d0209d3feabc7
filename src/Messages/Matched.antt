-- ===== src/Messages/Matched.antt =====
-- p2p/libp2p/messagesHandler.go: the topics with processors and the validators of pubsub, after any
-- calls.
use drt_go_chain_communicati.Prelude.{Bool, true, false, not, ◌&&◌, ◌≡◌, refl, Bytes, inl, inr, ◌⊎◌}
use drt_go_chain_communicati.Messages.{
  PubSub, Registry, processors_of, unregister_message_processor,
}
use drt_go_chain_communicati.Messages.Registration.{
  is_some, PubSubLaws, Step, Reach, here, next, Refused, dropped,
}
use drt_go_chain_communicati.Messages.Kept.{unregister-At, dropped-At, Step-At}

-- No validator without processors.
abbrev Covered : Bool → Bool → Type 0
Covered validator processors = (validator && not processors) ≡ false

Covered-refl : (b : Bool) → Covered b b
Covered-refl true = refl
Covered-refl false = refl

Covered-false : (b : Bool) → Covered b false → b ≡ false
Covered-false true h = h
Covered-false false h = refl

abbrev Same : Bool → Bool → Type 0
Same validator processors = validator ≡ processors

module _ (ps : PubSub) (laws : PubSubLaws ps) where
  -- Pubsub has a validator for exactly the topics that have processors.
  abbrev pub Matched : Registry ps → Type 0
  Matched s = (t : Bytes) → laws.registered s.pub_sub t ≡ is_some (processors_of ps s t)

  pub unregister-Matched :
      (s : Registry ps) (topic i : Bytes)
      → Matched s
      → Matched (unregister_message_processor ps s topic i).0
  unregister-Matched s topic i m t =
      unregister-At ps laws Same (λ b. refl) (λ b h. h) s topic i t (m t)

  pub dropped-Matched : (s : Registry ps) (topic : Bytes) → Matched s → Matched (dropped ps s topic)
  dropped-Matched s topic m t = dropped-At ps laws Same (λ b. refl) (λ b h. h) s topic t (m t)

  Step-Covered :
      {s q : Registry ps} (step : Step ps s q) (t : Bytes)
      → Covered (laws.registered s.pub_sub t) (is_some (processors_of ps s t))
      → Covered (laws.registered q.pub_sub t) (is_some (processors_of ps q t))
  Step-Covered step t a = elim (Step-At ps laws Covered Covered-refl Covered-false step t a) [
    | inl kept ↦ kept
    | inr refused ↦ rw (refused.1) refl
  ]

  Reach-Covered :
      {s q : Registry ps}
      → Matched s
      → Reach ps s q
      → (t : Bytes) → Covered (laws.registered q.pub_sub t) (is_some (processors_of ps q t))
  Reach-Covered {s} m here t = rw (m t) (Covered-refl (is_some (processors_of ps s t)))
  Reach-Covered m (next r step) t = Step-Covered step t (Reach-Covered m r t)

  Reach-Same :
      {s q : Registry ps}
      → Matched s
      → (r : Reach ps s q) → (t : Bytes)
      → (laws.registered q.pub_sub t ≡ is_some (processors_of ps q t)) ⊎ Refused ps r t
  unfolding Refused
  Reach-Same m here t = inl (m t)
  Reach-Same m (next r step) t = elim (Reach-Same m r t) [
    | inr before ↦ inr (inl before)
    | inl same ↦ elim (Step-At ps laws Same (λ b. refl) (λ b h. h) step t same) [
      | inl kept ↦ inl kept
      | inr refused ↦ inr (inr (refused.0))
    ]
  ]

  -- With a pubsub that has at most one validator per topic and may refuse one, and starting from a
  -- handler where pubsub has validators for exactly the topics with processors: after any calls of
  -- RegisterMessageProcessor, UnregisterMessageProcessor and UnregisterAllMessageProcessors, failed
  -- ones included, pubsub has no validator for a topic without processors; and it has one exactly
  -- if the topic has processors, or one of the calls was the registration of a first processor of
  -- this topic whose validator pubsub refused.
  pub Reach-Matched :
      {s q : Registry ps}
      → Matched s
      → (r : Reach ps s q) → (t : Bytes)
      → ((laws.registered q.pub_sub t && not (is_some (processors_of ps q t))) ≡ false)
        × ((laws.registered q.pub_sub t ≡ is_some (processors_of ps q t)) ⊎ Refused ps r t)
  Reach-Matched m r t = (Reach-Covered m r t, Reach-Same m r t)
