-- ===== src/PeersOnChannel/Refresh.antt =====
-- p2p/libp2p/peersOnChannel.go: what the cache holds after calls and refreshes.
use drt_go_chain_communicati.Prelude.{
  Bool, true, false, List, [], ◌∷◌, Option, none, some, ◌≡◌, refl, sym, ◌∙◌, Bytes, bytes_eq, ◌==◌,
  Dict, lookup, insert, lookup-insert, lookup-insert_ne, lookup-insert_self, if◌then◌else◌,
  Bool-cases, Option-cases, inl, inr, ◌⊎◌, ==_refl, eq_cases, ==_of_ne,
}
use drt_go_chain_communicati.Prelude.Int.{ℤ, ltb_ℤ, ◌-ℤ◌}
use drt_go_chain_communicati.Sharding.{has}
use drt_go_chain_communicati.PeersHolder.Maps.{is_some}
use drt_go_chain_communicati.PeersOnChannel.{
  PeersOnChannel, update_connected_peers_on_topic, refresh_peers_on_topic,
  connected_peers_on_channel, topics_to_be_refreshed, refresh_topics,
  refresh_peers_on_all_known_topics,
}

-- One entry for each key, as in a Go map.
abbrev pub Distinct {ℓ} : {V : Type ℓ} → Dict Bytes V → Type ℓ
Distinct [] = Unit
Distinct ((k, v) ∷ m) = (lookup k m ≡ none) × Distinct m

insert-Distinct : (k : Bytes) (v : ℤ) (m : Dict Bytes ℤ) → Distinct m → Distinct (insert k v m)
unfolding insert lookup
insert-Distinct k v [] d = (refl, tt)
insert-Distinct k v ((j, w) ∷ m) d = elim (eq_cases j k) [
  | inl same ↦ rw (same, ==_refl k) (rw same at d.0, d.1)
  | inr differ ↦
      rw (==_of_ne j k differ)
        (lookup-insert_ne k j v m (λ p. differ (sym p)) ∙ d.0, insert-Distinct k v m d.1)
]

-- The states that the calls and the refreshes lead to, whatever is fetched and whenever.
pub data Reach : PeersOnChannel → Type 0 where
  reach_new :
      (refresh_interval ttl_interval : ℤ)
      → Reach (record {
        peers = [];
        last_updated = [];
        refresh_interval = refresh_interval;
        ttl_interval = ttl_interval;
      })
  reach_call :
      {poc : PeersOnChannel} (fetch : Bytes → List Bytes) (now : ℤ) (topic : Bytes)
      → Reach poc
      → Reach (connected_peers_on_channel fetch now poc topic).0
  reach_refresh :
      {poc : PeersOnChannel} (fetch : Bytes → List Bytes) (scan clock : Bytes → ℤ)
      → Reach poc
      → Reach (refresh_peers_on_all_known_topics fetch scan clock poc)

-- Whether a refresh, if there was one, is older than the interval.
abbrev pub is_older : ℤ → ℤ → Option ℤ → Bool
is_older ttl now none = false
is_older ttl now (some last_refreshed) = ltb_ℤ ttl (now -ℤ last_refreshed)

has-topics_to_be_refreshed :
    (scan : Bytes → ℤ) (ttl : ℤ) (m : Dict Bytes ℤ) (topic : Bytes)
    → Distinct m
    → has topic (topics_to_be_refreshed scan ttl m) ≡ is_older ttl (scan topic) (lookup topic m)
unfolding has topics_to_be_refreshed lookup
has-topics_to_be_refreshed scan ttl [] topic d = refl
has-topics_to_be_refreshed scan ttl ((k, last) ∷ m) topic d =
    let rest = has-topics_to_be_refreshed scan ttl m topic d.1 in
    elim (Bool-cases (ltb_ℤ ttl (scan k -ℤ last))) [
      | inl old ↦ rw old (elim (eq_cases k topic) [
        | inl same ↦ rw (← same, ==_refl k, old) refl
        | inr differ ↦ rw (==_of_ne k topic differ) rest
      ])
      | inr fresh ↦ rw fresh (elim (eq_cases k topic) [
        | inl same ↦ rw (← same, ==_refl k, fresh) (rw (← same, d.0) at rest)
        | inr differ ↦ rw (==_of_ne k topic differ) rest
      ])
    ]

if_same {ℓ} : {A : Type ℓ} (b : Bool) (a : A) → (if b then a else a) ≡ a
if_same true a = refl
if_same false a = refl

lookup_step {ℓ} :
    {V : Type ℓ} (t topic : Bytes) (later : Bool) (f : Bytes → V) (m : Dict Bytes V)
    → (if later then some (f topic) else lookup topic (insert t (f t) m))
      ≡ (if (if t == topic then true else later) then some (f topic) else lookup topic m)
lookup_step t topic later f m = elim (eq_cases t topic) [
  | inl same ↦ rw (same, ==_refl topic, lookup-insert_self topic (f topic) m) (if_same later _)
  | inr differ ↦ rw (==_of_ne t topic differ, lookup-insert_ne t topic (f t) m differ) refl
]

lookup-refresh_topics :
    (fetch : Bytes → List Bytes) (clock : Bytes → ℤ) (poc : PeersOnChannel) (topics : List Bytes)
    (topic : Bytes)
    → let after = refresh_topics fetch clock poc topics in
      (lookup topic after.peers
        ≡ (if has topic topics then some (fetch topic) else lookup topic poc.peers))
      × (lookup topic after.last_updated
          ≡ (if has topic topics then some (clock topic) else lookup topic poc.last_updated))
unfolding refresh_topics refresh_peers_on_topic update_connected_peers_on_topic has
lookup-refresh_topics fetch clock poc [] topic = (refl, refl)
lookup-refresh_topics fetch clock poc (t ∷ topics) topic =
    let next = update_connected_peers_on_topic (clock t) poc t (fetch t) in
    let (p, l) = lookup-refresh_topics fetch clock next topics topic in
    (
      p ∙ lookup_step t topic (has topic topics) fetch poc.peers,
      l ∙ lookup_step t topic (has topic topics) clock poc.last_updated,
    )

-- The two maps have the same keys, each once.
pub record IsValid (poc : PeersOnChannel) : Type 0 where
  pub distinct : Distinct poc.last_updated
  pub same_keys :
      (topic : Bytes) → is_some (lookup topic poc.peers) ≡ is_some (lookup topic poc.last_updated)

update-IsValid :
    (now : ℤ) (poc : PeersOnChannel) (topic : Bytes) (peers : List Bytes)
    → IsValid poc
    → IsValid (update_connected_peers_on_topic now poc topic peers)
unfolding update_connected_peers_on_topic
update-IsValid now poc topic peers v = record {
  distinct = insert-Distinct topic now poc.last_updated v.distinct;
  same_keys = λ t.
      rw (lookup-insert topic t peers poc.peers, lookup-insert topic t now poc.last_updated)
        (same t (Bool-cases (topic == t)));
}
  where
    same :
        (t : Bytes)
        → (topic == t ≡ true) ⊎ (topic == t ≡ false)
        → is_some (if topic == t then some peers else lookup t poc.peers)
          ≡ is_some (if topic == t then some now else lookup t poc.last_updated)
    same t (inl h) = rw h refl
    same t (inr h) = rw h (v.same_keys t)

refresh_topics-IsValid :
    (fetch : Bytes → List Bytes) (clock : Bytes → ℤ) (poc : PeersOnChannel) (topics : List Bytes)
    → IsValid poc
    → IsValid (refresh_topics fetch clock poc topics)
unfolding refresh_topics refresh_peers_on_topic
refresh_topics-IsValid fetch clock poc [] v = v
refresh_topics-IsValid fetch clock poc (t ∷ topics) v =
    refresh_topics-IsValid fetch clock (update_connected_peers_on_topic (clock t) poc t (fetch t))
      topics (update-IsValid (clock t) poc t (fetch t) v)

Reach-IsValid : (poc : PeersOnChannel) → Reach poc → IsValid poc
unfolding connected_peers_on_channel refresh_peers_on_topic refresh_peers_on_all_known_topics lookup
Reach-IsValid _ (reach_new r t) = record { distinct = tt; same_keys = λ k. refl }
Reach-IsValid _ (reach_call {poc = poc} fetch now topic r) =
    let v = Reach-IsValid poc r in
    elim (Option-cases (lookup topic poc.peers)) [
      | inl absent ↦
          rw (absent, connected_peers_on_channel) (update-IsValid now poc topic (fetch topic) v)
      | inr (peers, there) ↦ rw (there, connected_peers_on_channel) v
    ]
Reach-IsValid _ (reach_refresh {poc = poc} fetch scan clock r) =
    refresh_topics-IsValid fetch clock poc _ (Reach-IsValid poc r)

-- After any calls of ConnectedPeersOnChannel and refreshes, one more refresh leaves, for a topic
-- whose last refresh is older than the interval, the peers just fetched with the time of the fetch,
-- and for every other topic the peers and the time it had; and a topic has peers exactly if it has
-- a time.
pub refresh-Reach :
    (fetch : Bytes → List Bytes) (scan clock : Bytes → ℤ) (poc : PeersOnChannel)
    → Reach poc
    → (topic : Bytes)
    → let after = refresh_peers_on_all_known_topics fetch scan clock poc in
      let old = is_older poc.ttl_interval (scan topic) (lookup topic poc.last_updated) in
      (lookup topic after.peers ≡ (if old then some (fetch topic) else lookup topic poc.peers))
      × (lookup topic after.last_updated
          ≡ (if old then some (clock topic) else lookup topic poc.last_updated))
      × (is_some (lookup topic after.peers) ≡ is_some (lookup topic after.last_updated))
unfolding refresh_peers_on_all_known_topics
refresh-Reach fetch scan clock poc r topic =
    let v = Reach-IsValid poc r in
    let topics = topics_to_be_refreshed scan poc.ttl_interval poc.last_updated in
    let found =
      has-topics_to_be_refreshed scan poc.ttl_interval poc.last_updated topic v.distinct in
    let (p, l) = rw found at (lookup-refresh_topics fetch clock poc topics topic) in
    (p, l, (refresh_topics-IsValid fetch clock poc topics v).same_keys topic)
