-- ===== src/Messages/Blacklist.antt =====
-- p2p/libp2p/messagesHandler.go: the black list, when NewMessage refuses a message.
use drt_go_chain_communicati.Prelude.{
  ℕ, true, [], ◌∷◌, Option, some, ◌≡◌, ◌≢◌, refl, Bytes, length, ltb, Bool-cases, inl, inr, arith,
}
use drt_go_chain_communicati.Prelude.Int.{ℤ}
use drt_go_chain_communicati.Errors.{Error, err}
use drt_go_chain_communicati.Message.{PbMessage, TopicMessage, broadcast, new_message}
use drt_go_chain_communicati.Messages.{
  DenialEvaluator, blacklist_pid, blacklist_both, transform_and_check_message,
}

-- What the black list does: a peer that was stored is denied, and storing a peer lifts no other denial.
pub record DenialLaws (d : DenialEvaluator) : Type 0 where
  pub upserted :
      (s : d.Denied) (pid : Bytes) (n : ℕ) → d.is_denied (d.upsert_peer_id s pid n).0 pid ≡ true
  pub kept :
      (s : d.Denied) (pid q : Bytes) (n : ℕ)
      → d.is_denied s q ≡ true
      → d.is_denied (d.upsert_peer_id s pid n).0 q ≡ true

not_empty : (bs : Bytes) → bs ≢ [] → ltb 0 (length bs) ≡ true
not_empty [] h = absurd (h refl)
not_empty (b ∷ bs) h = ground arith

module _ (d : DenialEvaluator) (laws : DenialLaws d) (unmarshal : Bytes → Option TopicMessage)
    (id_from_bytes : Bytes → Option Bytes) where
  blacklist_pid_denied :
      (s : d.Denied) (pid : Bytes) (n : ℕ)
      → pid ≢ []
      → d.is_denied (blacklist_pid d unmarshal id_from_bytes s pid n) pid ≡ true
  unfolding blacklist_pid
  blacklist_pid_denied s [] n h = absurd (h refl)
  blacklist_pid_denied s (b ∷ bs) n h = elim (Bool-cases (d.is_denied s (b ∷ bs))) [
    | inl already ↦ rw (already, blacklist_pid) already
    | inr new ↦ rw (new, blacklist_pid) (ground (arith, laws.upserted s (b ∷ bs) n))
  ]

  blacklist_pid_kept :
      (s : d.Denied) (pid q : Bytes) (n : ℕ)
      → d.is_denied s q ≡ true
      → d.is_denied (blacklist_pid d unmarshal id_from_bytes s pid n) q ≡ true
  unfolding blacklist_pid
  blacklist_pid_kept s pid q n h = ground (arith, laws.kept s pid q n h)

  blacklist_both_denied :
      (denied : d.Denied) (m : PbMessage) (pid : Bytes)
      → pid ≢ []
      → m.from_peer ≢ []
      → let denied' = blacklist_both d unmarshal id_from_bytes denied (some m) pid in
        (d.is_denied denied' pid ≡ true) × (d.is_denied denied' m.from_peer ≡ true)
  unfolding blacklist_both
  blacklist_both_denied denied m pid p f =
      let first = blacklist_pid_denied denied pid 7200 p in
      rw (not_empty m.from_peer f)
        (blacklist_pid_kept _ m.from_peer pid 7200 first, blacklist_pid_denied _ m.from_peer 7200 f)

  -- With a black list that denies every peer it was given, a message that NewMessage refuses is
  -- refused by transformAndCheckMessage with the same error, and the connected peer and the sender
  -- that it names are denied, where neither is empty.
  pub transform_and_check_message_refused :
      (now : ℤ) (denied : d.Denied) (m : PbMessage) (pid : Bytes) (e : Error)
      → new_message (some unmarshal) id_from_bytes (some m) broadcast ≡ err e
      → pid ≢ []
      → m.from_peer ≢ []
      → let (denied', r) =
          transform_and_check_message d unmarshal id_from_bytes now denied (some m) pid in
        (r ≡ err e) × (d.is_denied denied' pid ≡ true) × (d.is_denied denied' m.from_peer ≡ true)
  unfolding transform_and_check_message blacklist_both
  transform_and_check_message_refused now denied m pid e h p f =
      rw (h, transform_and_check_message)
        (let (by_pid, by_sender) = blacklist_both_denied denied m pid p f in
          (refl, by_pid, by_sender))
