-- ===== src/Discovery/Continuous/Seeders.antt =====
-- p2p/libp2p/discovery/continuousKadDhtDiscoverer.go: the seeder to which the loop connects.
use mathlib.Core.List.{append_assoc}
use native.Mathlib.Nat.{mod-eq_of_lt}
use drt_go_chain_communicati.Prelude.{
  ℕ, suc, ◌+◌, ◌%◌, Bool, false, List, [], ◌∷◌, ◌++◌, Option, none, some, ◌≡◌, refl, sym, ap, ◌∙◌,
  inl, inr, some_injective, Bytes, length, length-append, get_elem?, arith,
}
use drt_go_chain_communicati.Errors.{Error, Result, ok, err, Result-cases}
use drt_go_chain_communicati.Discovery.Continuous.{connected_to, try_connect_to_seeder}

-- The first seeder that accepts when the seeders are tried once, in their order.
unfoldable pub first_accepting : (ℕ → Bytes → Result (Unit {0})) → ℕ → List Bytes → Option Bytes
first_accepting connect attempt [] = none
first_accepting connect attempt (peer ∷ rest) =
    let later = first_accepting connect (attempt + 1) rest in
    elim (connect attempt peer) [ ok u ↦ some peer | err e ↦ later ]

get_elem?-append_middle :
    (before rest : List Bytes) (peer : Bytes)
    → get_elem? (before ++ peer ∷ rest) (length before) ≡ some peer
get_elem?-append_middle [] rest peer = refl
get_elem?-append_middle (b ∷ before) rest peer = get_elem?-append_middle before rest peer

-- The index after that of `peer` is in range, so it does not wrap.
next_index :
    (before rest : List Bytes) (peer last : Bytes)
    → (length before + 1) % length (before ++ peer ∷ last ∷ rest) ≡ length before + 1
next_index before rest peer last =
    mod-eq_of_lt (omega (arith, length-append before (peer ∷ last ∷ rest)))

length-next :
    (before : List Bytes) (peer : Bytes) → length (before ++ peer ∷ []) ≡ length before + 1
length-next before peer = length-append before (peer ∷ [])

module _ (connect : ℕ → Bytes → Result (Unit {0})) (done : ℕ → Bool)
    (running : (attempt : ℕ) → done attempt ≡ false) where
  -- A turn of the loop whose seeder accepts, and one whose seeder does not.
  turn_accepts :
      (peers : List Bytes) (fuel index : ℕ) (peer : Bytes) (u : Unit {0})
      → get_elem? peers index ≡ some peer
      → connect index peer ≡ ok u
      → try_connect_to_seeder connect done peers (suc fuel) index index ≡ some (connected_to peer)
  unfolding try_connect_to_seeder
  turn_accepts peers fuel index peer u found accepts =
      rw (found, try_connect_to_seeder) (rw accepts refl)

  turn_refuses :
      (peers : List Bytes) (fuel index : ℕ) (peer : Bytes) (e : Error)
      → get_elem? peers index ≡ some peer
      → connect index peer ≡ err e
      → try_connect_to_seeder connect done peers (suc fuel) index index
        ≡ try_connect_to_seeder connect done peers fuel (index + 1) ((index + 1) % length peers)
  unfolding try_connect_to_seeder
  turn_refuses peers fuel index peer e found refuses =
      rw (found, try_connect_to_seeder) (rw refuses (rw (running index) refl))

  -- The seeders before the index are tried, `rest` is ahead.
  tries_rest :
      (rest before : List Bytes) (seeder : Bytes)
      → first_accepting connect (length before) rest ≡ some seeder
      → try_connect_to_seeder connect done
          (before ++ rest)
          (length rest)
          (length before)
          (length before)
        ≡ some (connected_to seeder)
  unfolding first_accepting
  tries_rest [] before seeder h = cc
  tries_rest (peer ∷ []) before seeder h = elim (Result-cases (connect (length before) peer)) [
    | inl (e, refuses) ↦ cc (rw (refuses, first_accepting) at h)
    | inr (u, accepts) ↦
        turn_accepts (before ++ peer ∷ []) 0 (length before) peer u
          (get_elem?-append_middle before [] peer) accepts
        ∙ ap (λ p. some (connected_to p)) (some_injective (rw (accepts, first_accepting) at h))
  ]
  tries_rest (peer ∷ last ∷ rest) before seeder h =
      elim (Result-cases (connect (length before) peer)) [
        | inl (e, refuses) ↦
            turn_refuses (before ++ peer ∷ last ∷ rest) (length (last ∷ rest)) (length before) peer
              e (get_elem?-append_middle before (last ∷ rest) peer) refuses
            ∙ rw
                (
                  next_index before rest peer last,
                  sym (length-next before peer),
                  sym (append_assoc before (peer ∷ []) (last ∷ rest)),
                )
                (tries_rest (last ∷ rest) (before ++ peer ∷ []) seeder
                  (rw (length-next before peer) (rw (refuses, first_accepting) at h)))
        | inr (u, accepts) ↦
            turn_accepts (before ++ peer ∷ last ∷ rest) (length (last ∷ rest)) (length before) peer
              u (get_elem?-append_middle before (last ∷ rest) peer) accepts
            ∙ ap (λ p. some (connected_to p)) (some_injective (rw (accepts, first_accepting) at h))
      ]

  -- While the context is not done: if a seeder of the list accepts when the seeders are tried once in
  -- their order, then tryConnectToSeeder ends after at most as many attempts as there are seeders,
  -- connected to the first seeder that accepts.
  pub try_connect_to_seeder-first_accepting :
      (peers : List Bytes) (seeder : Bytes)
      → first_accepting connect 0 peers ≡ some seeder
      → try_connect_to_seeder connect done peers (length peers) 0 0 ≡ some (connected_to seeder)
  try_connect_to_seeder-first_accepting peers seeder h = tries_rest peers [] seeder h
