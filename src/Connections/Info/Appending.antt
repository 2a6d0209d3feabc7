-- ===== src/Connections/Info/Appending.antt =====
-- p2p/libp2p/connectionsHandler.go: each way to append a peer in appendPeerInfo keeps the counts and the
-- lists in agreement.
use drt_go_chain_communicati.Prelude.{
  ℕ, ◌+◌, Bool, true, false, List, [], ◌∷◌, ◌++◌, ◌≡◌, ◌≢◌, Bytes, nat_eq, eq_cases, Dict, lookup,
  lookup-insert_self, lookup-insert_ne, length, length-append, arith, nat_beq, inl, inr,
  if◌then◌else◌,
}
use drt_go_chain_communicati.PeersHolder.Maps.{get_list, get_list-insert_self, get_list-insert_ne}
use drt_go_chain_communicati.Connections.Info.{
  ConnectedPeersInfo, or_zero, increment, append_at, append_unknown, append_validator,
  append_observer,
}

abbrev pub count_at : ℕ → Dict ℕ ℕ → ℕ
count_at shard m = or_zero (lookup shard m)

abbrev pub entries_at : ℕ → Dict ℕ (List Bytes) → ℕ
entries_at shard m = length (get_list shard m)

abbrev one_at : ℕ → ℕ → ℕ
one_at key shard = if nat_beq key shard then 1 else 0

count-increment :
    (key shard : ℕ) (m : Dict ℕ ℕ)
    → count_at shard (increment key m) ≡ count_at shard m + one_at key shard
unfolding increment
count-increment key shard m = elim (eq_cases key shard) [
  | inl same ↦ rw (same, lookup-insert_self shard (count_at shard m + 1) m) (ground arith)
  | inr other ↦ rw (lookup-insert_ne key shard (count_at key m + 1) m other) (ground (arith, other))
]

entries-append_at :
    (key shard : ℕ) (value : Bytes) (m : Dict ℕ (List Bytes))
    → entries_at shard (append_at key value m) ≡ entries_at shard m + one_at key shard
unfolding append_at
entries-append_at key shard value m = elim (eq_cases key shard) [
  | inl same ↦
      rw (same, get_list-insert_self shard (get_list shard m ++ value ∷ []) m)
        (ground (arith, length-append (get_list shard m) (value ∷ [])))
  | inr other ↦
      rw (get_list-insert_ne key shard (get_list key m ++ value ∷ []) m other)
        (ground (arith, other))
]

-- For each shard, the number of its validators is that of the strings listed for it, in its own
-- shard's list or the other one, and likewise for the observers; the strings of the own shard's
-- lists are as many as the own counts say, and all counts add up to the number of peers.
pub record Balanced (self_shard peers : ℕ) (i : ConnectedPeersInfo) : Type 0 where
  pub validators :
      (shard : ℕ)
      → count_at shard i.num_validators_on_shard
        ≡ entries_at shard i.intra_shard_validators + entries_at shard i.cross_shard_validators
  pub observers :
      (shard : ℕ)
      → count_at shard i.num_observers_on_shard
        ≡ entries_at shard i.intra_shard_observers + entries_at shard i.cross_shard_observers
  pub own_validators : i.num_intra_shard_validators ≡ count_at self_shard i.num_validators_on_shard
  pub own_observers : i.num_intra_shard_observers ≡ count_at self_shard i.num_observers_on_shard
  pub intra_validators :
      (shard : ℕ) → shard ≢ self_shard → entries_at shard i.intra_shard_validators ≡ 0
  pub intra_observers :
      (shard : ℕ) → shard ≢ self_shard → entries_at shard i.intra_shard_observers ≡ 0
  pub all_counted :
      i.num_intra_shard_validators
        + i.num_cross_shard_validators
        + i.num_intra_shard_observers
        + i.num_cross_shard_observers
        + length i.unknown_peers
        + length i.seeders
      ≡ peers

pub own_validator-Balanced :
    (self_shard peers : ℕ) (i : ConnectedPeersInfo) (conn : Bytes)
    → Balanced self_shard peers i
    → Balanced self_shard (peers + 1) (append_validator true self_shard i conn)
unfolding append_validator
own_validator-Balanced self_shard peers i conn b = record {
  validators = λ s. omega (
    arith,
    b.validators s,
    count-increment self_shard s i.num_validators_on_shard,
    entries-append_at self_shard s conn i.intra_shard_validators,
  );
  observers = b.observers;
  own_validators =
      ground
        (arith, b.own_validators, count-increment self_shard self_shard i.num_validators_on_shard);
  own_observers = b.own_observers;
  intra_validators = λ s h. ground (
    arith,
    h,
    b.intra_validators s h,
    entries-append_at self_shard s conn i.intra_shard_validators,
  );
  intra_observers = b.intra_observers;
  all_counted = omega (arith, b.all_counted);
}

pub cross_validator-Balanced :
    (self_shard peers shard : ℕ) (i : ConnectedPeersInfo) (conn : Bytes)
    → self_shard ≢ shard
    → Balanced self_shard peers i
    → Balanced self_shard (peers + 1) (append_validator false shard i conn)
unfolding append_validator
cross_validator-Balanced self_shard peers shard i conn differ b = record {
  validators = λ s. omega (
    arith,
    b.validators s,
    count-increment shard s i.num_validators_on_shard,
    entries-append_at shard s conn i.cross_shard_validators,
  );
  observers = b.observers;
  own_validators =
      ground (
        arith,
        differ,
        b.own_validators,
        count-increment shard self_shard i.num_validators_on_shard,
      );
  own_observers = b.own_observers;
  intra_validators = b.intra_validators;
  intra_observers = b.intra_observers;
  all_counted = omega (arith, b.all_counted);
}

pub own_observer-Balanced :
    (self_shard peers : ℕ) (i : ConnectedPeersInfo) (conn : Bytes)
    → Balanced self_shard peers i
    → Balanced self_shard (peers + 1) (append_observer true self_shard i conn)
unfolding append_observer
own_observer-Balanced self_shard peers i conn b = record {
  observers = λ s. omega (
    arith,
    b.observers s,
    count-increment self_shard s i.num_observers_on_shard,
    entries-append_at self_shard s conn i.intra_shard_observers,
  );
  validators = b.validators;
  own_observers =
      ground
        (arith, b.own_observers, count-increment self_shard self_shard i.num_observers_on_shard);
  own_validators = b.own_validators;
  intra_observers = λ s h. ground (
    arith,
    h,
    b.intra_observers s h,
    entries-append_at self_shard s conn i.intra_shard_observers,
  );
  intra_validators = b.intra_validators;
  all_counted = omega (arith, b.all_counted);
}

pub cross_observer-Balanced :
    (self_shard peers shard : ℕ) (i : ConnectedPeersInfo) (conn : Bytes)
    → self_shard ≢ shard
    → Balanced self_shard peers i
    → Balanced self_shard (peers + 1) (append_observer false shard i conn)
unfolding append_observer
cross_observer-Balanced self_shard peers shard i conn differ b = record {
  observers = λ s. omega (
    arith,
    b.observers s,
    count-increment shard s i.num_observers_on_shard,
    entries-append_at shard s conn i.cross_shard_observers,
  );
  validators = b.validators;
  own_observers =
      ground
        (arith, differ, b.own_observers, count-increment shard self_shard i.num_observers_on_shard);
  own_validators = b.own_validators;
  intra_observers = b.intra_observers;
  intra_validators = b.intra_validators;
  all_counted = omega (arith, b.all_counted);
}

pub append_unknown-Balanced :
    (seeder : Bool) (self_shard peers : ℕ) (i : ConnectedPeersInfo) (conn : Bytes)
    → Balanced self_shard peers i
    → Balanced self_shard (peers + 1) (append_unknown seeder i conn)
unfolding append_unknown
append_unknown-Balanced true self_shard peers i conn b = record {
  validators = b.validators;
  observers = b.observers;
  own_validators = b.own_validators;
  own_observers = b.own_observers;
  intra_validators = b.intra_validators;
  intra_observers = b.intra_observers;
  all_counted = omega (arith, b.all_counted, length-append i.seeders (conn ∷ []));
}
append_unknown-Balanced false self_shard peers i conn b = record {
  validators = b.validators;
  observers = b.observers;
  own_validators = b.own_validators;
  own_observers = b.own_observers;
  intra_validators = b.intra_validators;
  intra_observers = b.intra_observers;
  all_counted = omega (arith, b.all_counted, length-append i.unknown_peers (conn ∷ []));
}
