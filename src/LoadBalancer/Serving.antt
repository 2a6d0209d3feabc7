-- ===== src/LoadBalancer/Serving.antt =====
-- p2p/libp2p/outgoingChannelLoadBalancer.go: the channel that a name is served, over any history.
use mathlib.Core.Option.{some-injective}
use drt_go_chain_communicati.Prelude.{
  ℕ, List, [], ◌∷◌, Option, none, some, Bytes, bytes_eq, bytes_beq, ◌==◌, lookup, insert, get_elem?,
  ◌≡◌, ◌≢◌, refl, sym, ◌∙◌, All, subst, eq_cases, Bool-cases, Option-cases, lookup-erase_self,
  lookup-erase_ne, arith, ==_refl, inl, inr, ◌⊎◌,
}
use drt_go_chain_communicati.Errors.{
  Result, ok, err, ok_injective, channel_can_not_be_re_added, channel_can_not_be_deleted,
}
use drt_go_chain_communicati.LoadBalancer.{
  LoadBalancer, default_send_channel, append_channel, new_outgoing_channel_load_balancer,
  add_channel, remove_channel, get_channel_or_default,
}
use drt_go_chain_communicati.LoadBalancer.Laws.{entries, SameLength, Synced, append_channel-Synced}
use drt_go_chain_communicati.LoadBalancer.Removal.{
  removed_at, removed_at-Synced, remove_channel_cases,
}

new-Synced : Synced new_outgoing_channel_load_balancer
unfolding new_outgoing_channel_load_balancer append_channel lookup bytes_beq insert
new-Synced = record {
  same_length = tt;
  distinct = (refl, tt);
  agree = λ name. refl;
  default_first = refl;
  fresh = (omega arith, tt);
  fresh_closed = tt;
  distinct_chans = (tt, tt);
  clean = (tt, tt);
}

-- One call that returned no error.
pub data Step (b : LoadBalancer) : LoadBalancer → Type 0 where
  adds : (channel : Bytes) {b' : LoadBalancer} → add_channel b channel ≡ ok b' → Step b b'
  removes :
      (channel : Bytes) {b' : LoadBalancer} → remove_channel b channel ≡ some (ok b') → Step b b'

pub data Reach : LoadBalancer → Type 0 where
  start : Reach new_outgoing_channel_load_balancer
  next : {b b' : LoadBalancer} → Reach b → Step b b' → Reach b'

add_channel_cases :
    (b : LoadBalancer) (channel : Bytes) {b' : LoadBalancer}
    → add_channel b channel ≡ ok b'
    → (b' ≡ b) ⊎ ((lookup channel b.names_chans ≡ none) × (b' ≡ append_channel b channel))
unfolding add_channel
add_channel_cases b channel {b'} h = elim (Bool-cases (channel == default_send_channel)) [
  | inl same ↦ let h' : err channel_can_not_be_re_added ≡ ok b' = rw (same, add_channel) at h in cc
  | inr other ↦ elim (Option-cases (lookup channel b.names_chans)) [
    | inl absent ↦ inr (absent, sym (ok_injective (rw (other, absent, add_channel) at h)))
    | inr (ch, present) ↦ inl (sym (ok_injective (rw (other, present, add_channel) at h)))
  ]
]

remove_channel_default :
    (b : LoadBalancer)
    → remove_channel b default_send_channel ≡ some (err channel_can_not_be_deleted)
unfolding remove_channel
remove_channel_default b = rw (==_refl default_send_channel) refl

not_ok :
    {b' : LoadBalancer} {o : Option (Result LoadBalancer)} (e : _)
    → o ≡ some (err e)
    → o ≡ some (ok b')
    → ⊥
not_ok e p q = cc

Step-Synced : {b b' : LoadBalancer} → Step b b' → Synced b → Synced b'
Step-Synced {b} (adds channel h) v = elim (add_channel_cases b channel h) [
  | inl same ↦ rw same v
  | inr (absent, e) ↦ rw e (append_channel-Synced b channel v absent)
]
Step-Synced {b} {b'} (removes channel h) v = elim (eq_cases default_send_channel channel) [
  | inl same ↦ absurd (not_ok _ (remove_channel_default b) (rw (← same) at h))
  | inr differ ↦ elim (remove_channel_cases b channel v differ) [
    | inl missing ↦ absurd (not_ok _ missing h)
    | inr (i, ch, f, e, l, r) ↦
        let eq : removed_at b channel i ch ≡ b' = cc in
        subst Synced eq (removed_at-Synced b channel i ch v differ f e)
  ]
]

-- The channel of a name is open, and is the name's own entry in the slices or the default one.
pub record Serves (b : LoadBalancer) (name : Bytes) (ch : ℕ) : Type 0 where
  pub served : get_channel_or_default b name ≡ some ch
  pub open_chan : All (λ d. ch ≢ d) b.closed
  pub own_or_default :
      (lookup name (entries b.names b.chans) ≡ some ch)
      ⊎ ((lookup name (entries b.names b.chans) ≡ none)
          × (lookup default_send_channel (entries b.names b.chans) ≡ some ch))

lookup-All :
    (P : ℕ → Type 0) (ns : List Bytes) (cs : List ℕ) (n : Bytes) {c : ℕ}
    → All P cs
    → lookup n (entries ns cs) ≡ some c
    → P c
unfolding lookup
lookup-All P [] cs n h e = cc
lookup-All P (m ∷ ns) [] n h e = cc
lookup-All P (m ∷ ns) (c ∷ cs) n h e = elim (Bool-cases (m == n)) [
  | inl same ↦ let e' : c ≡ _ = some-injective _ _ (rw same at e) in rw (← e') h.0
  | inr differ ↦ lookup-All P ns cs n h.1 (rw differ at e)
]

-- The first name is the default one, so its channel is the first.
first_chan :
    (ns : List Bytes) (cs : List ℕ) (d : Bytes)
    → SameLength ns cs
    → get_elem? ns 0 ≡ some d
    → (c : ℕ) × (get_elem? cs 0 ≡ some c) × (lookup d (entries ns cs) ≡ some c)
unfolding lookup
first_chan [] cs d s e = cc
first_chan (n ∷ ns) [] d s e = absurd s
first_chan (n ∷ ns) (c ∷ cs) d s e = (c, refl, rw (some-injective _ _ e, ==_refl d) refl)

Synced-Serves : (b : LoadBalancer) (name : Bytes) → Synced b → (ch : ℕ) × Serves b name ch
unfolding get_channel_or_default
Synced-Serves b name v = elim (Option-cases (lookup name b.names_chans)) [
  | inr (ch, present) ↦
      let there : lookup name (entries b.names b.chans) ≡ some ch = sym (v.agree name) ∙ present in
      (
        ch,
        record {
          served = rw (present, get_channel_or_default) refl;
          open_chan = lookup-All _ b.names b.chans name v.clean there;
          own_or_default = inl there;
        },
      )
  | inl absent ↦
      let (c, first, there) =
        first_chan b.names b.chans default_send_channel v.same_length v.default_first in
      (
        c,
        record {
          served = rw (absent, get_channel_or_default) first;
          open_chan = lookup-All _ b.names b.chans default_send_channel v.clean there;
          own_or_default = inr (sym (v.agree name) ∙ absent, there);
        },
      )
]

Reach-Synced : {b : LoadBalancer} → Reach b → Synced b
Reach-Synced start = new-Synced
Reach-Synced (next r s) = Step-Synced s (Reach-Synced r)

-- After any calls of AddChannel and RemoveChannel on a new load balancer, GetChannelOrDefault
-- returns, with no panic, a channel that was not closed: that of the name's own entry, or, for a
-- name with no entry, that of the default entry.
pub Reach-Serves : {b : LoadBalancer} (name : Bytes) → Reach b → (ch : ℕ) × Serves b name ch
Reach-Serves {b} name r = Synced-Serves b name (Reach-Synced r)

served_own :
    (b : LoadBalancer) (name : Bytes) {ch : ℕ}
    → lookup name b.names_chans ≡ some ch
    → get_channel_or_default b name ≡ some ch
unfolding get_channel_or_default
served_own b name h = rw (h, get_channel_or_default) refl

default_own :
    (b : LoadBalancer)
    → Synced b
    → (c : ℕ) × (get_elem? b.chans 0 ≡ some c)
      × (lookup default_send_channel b.names_chans ≡ some c)
default_own b v =
    let (c, first, there) =
      first_chan b.names b.chans default_send_channel v.same_length v.default_first in
    (c, first, v.agree default_send_channel ∙ there)

served_default :
    (b : LoadBalancer) (name : Bytes)
    → Synced b
    → lookup name b.names_chans ≡ none
    → get_channel_or_default b name ≡ get_channel_or_default b default_send_channel
unfolding get_channel_or_default
served_default b name v h =
    let (c, first, there) = default_own b v in
    rw (h, get_channel_or_default) (first ∙ sym (served_own b default_send_channel there))

-- Removing a name leaves the channels of the others.
removed_at_default :
    (b : LoadBalancer) (channel : Bytes) (i ch : ℕ)
    → Synced (removed_at b channel i ch)
    → default_send_channel ≢ channel
    → get_channel_or_default (removed_at b channel i ch) default_send_channel
      ≡ get_channel_or_default b default_send_channel
removed_at_default b channel i ch v q =
    let (c, first, there) = default_own (removed_at b channel i ch) v in
    served_own (removed_at b channel i ch) default_send_channel there
    ∙ sym (
        served_own b default_send_channel (
          sym (lookup-erase_ne channel default_send_channel b.names_chans (λ p. q (sym p)))
          ∙ there))

removed_at_other :
    (b : LoadBalancer) (channel : Bytes) (i ch : ℕ) (name : Bytes)
    → Synced b
    → Synced (removed_at b channel i ch)
    → default_send_channel ≢ channel
    → channel ≢ name
    → get_channel_or_default (removed_at b channel i ch) name ≡ get_channel_or_default b name
removed_at_other b channel i ch name v v' q n =
    let same = lookup-erase_ne channel name b.names_chans n in
    elim (Option-cases (lookup name b.names_chans)) [
      | inr (c, present) ↦
          served_own (removed_at b channel i ch) name (same ∙ present)
          ∙ sym (served_own b name present)
      | inl absent ↦
          served_default (removed_at b channel i ch) name v' (same ∙ absent)
          ∙ (removed_at_default b channel i ch v' q ∙ sym (served_default b name v absent))
    ]

-- After any calls of AddChannel and RemoveChannel on a new load balancer, once RemoveChannel
-- returns no error, the removed name is served the default channel, and every other name what it
-- was.
pub get_channel-remove_channel :
    {b b' : LoadBalancer} (channel name : Bytes)
    → Reach b
    → remove_channel b channel ≡ some (ok b')
    → channel ≢ name
    → (get_channel_or_default b' channel ≡ get_channel_or_default b default_send_channel)
      × (get_channel_or_default b' name ≡ get_channel_or_default b name)
get_channel-remove_channel {b} {b'} channel name r h n =
    let v = Reach-Synced r in
    elim (eq_cases default_send_channel channel) [
      | inl same ↦ absurd (not_ok _ (remove_channel_default b) (rw (← same) at h))
      | inr differ ↦ elim (remove_channel_cases b channel v differ) [
        | inl missing ↦ absurd (not_ok _ missing h)
        | inr (i, ch, f, e, l, q) ↦
            let eq : removed_at b channel i ch ≡ b' = cc in
            let v' = removed_at-Synced b channel i ch v differ f e in
            rw (← eq) (
              served_default (removed_at b channel i ch) channel v'
                    (lookup-erase_self channel b.names_chans)
                  ∙ removed_at_default b channel i ch v' differ,
              removed_at_other b channel i ch name v v' differ n,
            )
      ]
    ]
