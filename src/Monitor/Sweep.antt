-- ===== src/Monitor/Sweep.antt =====
-- p2p/libp2p/connectionMonitor/libp2pConnectionMonitorSimple.go: which connections are closed.
use drt_go_chain_communicati.Prelude.{
  Bool, true, false, not, ◌&&◌, List, [], ◌∷◌, ◌≡◌, refl, ◌∙◌, sym, ap, Bytes, bytes_eq, ◌==◌,
  ==_refl, ==_of_ne, eq_cases, keep_if, keep_if-congr, keep_if-keep_if, All, All-map, Bool-cases,
  inl, inr,
}
use drt_go_chain_communicati.Network.{NetworkCalls, NetworkLaws}
use drt_go_chain_communicati.Sharding.{has}
use drt_go_chain_communicati.Sharding.Remaining.{All-has}
use drt_go_chain_communicati.Monitor.{
  ConnectionMonitor, close_peers, close_denied, check_connections_blocking,
}

module _ {ℓ} {A : Type ℓ} where
  all_of : (P : A → Type 0) (xs : List A) → ((a : A) → P a) → All P xs
  all_of P [] h = tt
  all_of P (x ∷ xs) h = (h x, all_of P xs h)

  keep_if-all : (f : A → Bool) (xs : List A) → ((a : A) → f a ≡ true) → keep_if f xs ≡ xs
  keep_if-all f [] h = refl
  keep_if-all f (x ∷ xs) h = rw (h x, keep_if-all f xs h)

and_false : (b : Bool) → (b && false) ≡ false
and_false true = refl
and_false false = refl

module _ {S : Type 0} (calls : NetworkCalls S) (laws : NetworkLaws calls) where
  keep_if-close_peer :
      (f g : Bytes → Bool) (s : S) (p : Bytes)
      → ((q : Bytes) → (not (p == q) && f q) ≡ g q)
      → keep_if f (calls.peers (calls.close_peer s p)) ≡ keep_if g (calls.peers s)
  keep_if-close_peer f g s p h =
      ap (keep_if f) (laws.closes s p)
      ∙ keep_if-keep_if f _ (calls.peers s)
      ∙ keep_if-congr _ g (calls.peers s) (all_of _ _ h)

  -- Closing the peers of a list leaves the other peers.
  pub peers-close_peers :
      (s : S) (ps : List Bytes)
      → calls.peers (close_peers calls s ps) ≡ keep_if (λ q. not (has q ps)) (calls.peers s)
  unfolding close_peers has
  peers-close_peers s [] = sym (keep_if-all _ _ (λ q. refl))
  peers-close_peers s (p ∷ ps) =
      peers-close_peers (calls.close_peer s p) ps
      ∙ keep_if-close_peer (λ q. not (has q ps)) (λ q. not (has q (p ∷ ps))) s p (λ q. cases p q ps)
    where
      cases :
          (p q : Bytes) (ps : List Bytes) → (not (p == q) && not (has q ps)) ≡ not (has q (p ∷ ps))
      cases p q ps = elim (Bool-cases (p == q)) [ inl h ↦ rw h | inr h ↦ rw h ]

  peers-close_denied :
      (is_denied : Bytes → Bool) (s : S) (ps : List Bytes)
      → calls.peers (close_denied calls is_denied s ps)
        ≡ keep_if (λ q. not (has q ps && is_denied q)) (calls.peers s)
  unfolding close_denied has
  peers-close_denied is_denied s [] = sym (keep_if-all _ _ (λ q. refl))
  peers-close_denied is_denied s (p ∷ ps) = elim (Bool-cases (is_denied p)) [
    | inl denied ↦ rw denied (
        peers-close_denied is_denied (calls.close_peer s p) ps
        ∙ keep_if-close_peer _ (λ q. not (has q (p ∷ ps) && is_denied q)) s p
            (λ q. closed q denied))
    | inr free ↦ rw free (
        peers-close_denied is_denied s ps
        ∙ keep_if-congr _ _ (calls.peers s) (all_of _ _ (λ q. passed q free)))
  ]
    where
      closed :
          (q : Bytes)
          → is_denied p ≡ true
          → (not (p == q) && not (has q ps && is_denied q)) ≡ not (has q (p ∷ ps) && is_denied q)
      closed q denied = elim (eq_cases p q) [
        | inl same ↦ rw (← same, ==_refl p, denied)
        | inr differ ↦ rw (==_of_ne p q differ)
      ]

      passed :
          (q : Bytes)
          → is_denied p ≡ false
          → not (has q ps && is_denied q) ≡ not (has q (p ∷ ps) && is_denied q)
      passed q free = elim (eq_cases p q) [
        | inl same ↦ rw (← same, free, ==_refl p, and_false (has p ps))
        | inr differ ↦ rw (==_of_ne p q differ)
      ]

  -- On a network that keeps the documented laws, the sweep for denied peers leaves exactly the
  -- peers that the evaluator does not deny, in their order, and changes nothing of the monitor but
  -- the network.
  pub check_connections_blocking_lem :
      (cm : ConnectionMonitor S)
      → let after = check_connections_blocking calls cm in
        (calls.peers after.network
          ≡ keep_if (λ q. not (cm.peer_denial_evaluator q)) (calls.peers cm.network))
        × (after ≡ record cm { network = after.network })
  unfolding check_connections_blocking
  check_connections_blocking_lem cm =
      let all = calls.peers cm.network in
      (
        peers-close_denied cm.peer_denial_evaluator cm.network all
            ∙ keep_if-congr _ _ all (All-map _ _ all (λ q h. rw h refl) (All-has all)),
        refl,
      )
