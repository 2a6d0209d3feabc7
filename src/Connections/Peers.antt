-- ===== src/Connections/Peers.antt =====
-- p2p/libp2p/connectionsHandler.go: which peers ConnectedPeers lists.
use drt_go_chain_communicati.Prelude.{
  Bool, true, false, not, ◌&&◌, List, [], ◌∷◌, ◌≡◌, refl, ap, ◌∙◌, Bytes, bytes_eq, ==_refl,
  ==_of_ne, eq_cases, map, Bool-cases, inl, inr,
}
use drt_go_chain_communicati.Sharding.{has}
use drt_go_chain_communicati.Connections.{HostConn, connected_peers_loop, connected_peers}

abbrev pub NoRepeats : List Bytes → Type 0
NoRepeats [] = Unit
NoRepeats (p ∷ ps) = (has p ps ≡ false) × NoRepeats ps

abbrev pub remote_peers : List HostConn → List Bytes
remote_peers = map λ c. c.remote_peer

and_false : (b : Bool) → (b && false) ≡ false
and_false true = refl
and_false false = refl

and_true : (b : Bool) → (b && true) ≡ b
and_true true = refl
and_true false = refl

module _ (is_connected : Bytes → Bool) where
  has-connected_peers_loop :
      (added : List Bytes) (conns : List HostConn) (p : Bytes)
      → has p (connected_peers_loop is_connected added conns)
        ≡ (has p (remote_peers conns) && (is_connected p && not (has p added)))
  unfolding connected_peers_loop has
  has-connected_peers_loop added [] p = refl
  has-connected_peers_loop added (c ∷ conns) p =
      let q = c.remote_peer in
      elim (Bool-cases (is_connected q)) [
        | inr gone ↦
            rw (gone, connected_peers_loop)
              (has-connected_peers_loop added conns p ∙ elim (eq_cases q p) [
                | inl same ↦ rw (← same, ==_refl q, gone) (and_false _)
                | inr other ↦ rw (==_of_ne q p other) refl
              ])
        | inl connected ↦ elim (Bool-cases (has q added)) [
          | inl known ↦
              rw (connected, connected_peers_loop)
                (rw known (
                  has-connected_peers_loop added conns p ∙ elim (eq_cases q p) [
                    | inl same ↦ rw (← same, ==_refl q, connected, known) (and_false _)
                    | inr other ↦ rw (==_of_ne q p other) refl
                  ]))
          | inr fresh ↦
              rw (connected, connected_peers_loop)
                (rw fresh (elim (eq_cases q p) [
                  | inl same ↦ rw (← same, ==_refl q, connected, fresh) refl
                  | inr other ↦
                      rw (==_of_ne q p other) (
                        has-connected_peers_loop (q ∷ added) conns p ∙ rw (==_of_ne q p other) refl)
                ]))
        ]
      ]

  connected_peers_loop-NoRepeats :
      (added : List Bytes) (conns : List HostConn)
      → NoRepeats (connected_peers_loop is_connected added conns)
  unfolding connected_peers_loop has
  connected_peers_loop-NoRepeats added [] = tt
  connected_peers_loop-NoRepeats added (c ∷ conns) =
      let q = c.remote_peer in
      let rest = connected_peers_loop-NoRepeats added conns in
      elim (Bool-cases (is_connected q)) [
        | inr gone ↦ rw (gone, connected_peers_loop) rest
        | inl connected ↦ elim (Bool-cases (has q added)) [
          | inl known ↦ rw (connected, connected_peers_loop) (rw known rest)
          | inr fresh ↦
              rw (connected, connected_peers_loop)
                (rw fresh (
                  has-connected_peers_loop (q ∷ added) conns q
                      ∙ rw (==_refl q, connected) (and_false _),
                  connected_peers_loop-NoRepeats (q ∷ added) conns,
                ))
        ]
      ]

  -- ConnectedPeers lists each peer once, and exactly the remote peers of the connections that the
  -- network calls connected.
  pub connected_peers_lem :
      (conns : List HostConn)
      → NoRepeats (connected_peers is_connected conns)
        × ((p : Bytes)
            → has p (connected_peers is_connected conns)
              ≡ (has p (remote_peers conns) && is_connected p))
  unfolding connected_peers has
  connected_peers_lem conns = (
    connected_peers_loop-NoRepeats [] conns,
    λ p.
        has-connected_peers_loop [] conns p
        ∙ ap (λ b. has p (remote_peers conns) && b) (and_true (is_connected p)),
  )
