-- ===== src/LoadBalancer/Removal.antt =====
-- p2p/libp2p/outgoingChannelLoadBalancer.go: RemoveChannel.
use mathlib.Core.Option
use mathlib.Core.Option.{some-injective}
use drt_go_chain_communicati.Prelude.{
  ℕ, suc, zero, ◌<◌, Bool, true, false, List, [], ◌∷◌, Option, none, some, Bytes, bytes_eq, ◌==◌,
  lookup, erase, get_elem?, remove_nth, if◌then◌else◌, ◌≡◌, ◌≢◌, refl, sym, ◌∙◌, All, All-map,
  eq_cases, Option-cases, lookup-erase, arith, ==_refl, ==_of_ne, inl, inr, ◌⊎◌,
}
use drt_go_chain_communicati.Errors.{ok, err, channel_does_not_exist}
use drt_go_chain_communicati.LoadBalancer.{
  LoadBalancer, default_send_channel, index_of, remove_channel,
}
use drt_go_chain_communicati.LoadBalancer.Laws.{
  entries, SameLength, Distinct, DistinctNames, Synced,
}

All-remove_nth {ℓ κ} :
    {A : Type ℓ} (P : A → Type κ) (i : ℕ) (xs : List A) → All P xs → All P (remove_nth i xs)
All-remove_nth P i [] h = h
All-remove_nth P zero (x ∷ xs) h = h.1
All-remove_nth P (suc i) (x ∷ xs) h = (h.0, All-remove_nth P i xs h.1)

Distinct-remove_nth {ℓ} :
    {A : Type ℓ} (i : ℕ) (xs : List A) → Distinct xs → Distinct (remove_nth i xs)
Distinct-remove_nth i [] h = h
Distinct-remove_nth zero (x ∷ xs) h = h.1
Distinct-remove_nth (suc i) (x ∷ xs) h = (All-remove_nth _ i xs h.0, Distinct-remove_nth i xs h.1)

pub All-get_elem? {ℓ κ} :
    {A : Type ℓ} (P : A → Type κ) (xs : List A) (i : ℕ) {a : A}
    → All P xs
    → get_elem? xs i ≡ some a
    → P a
All-get_elem? P [] i h e = cc
All-get_elem? P (x ∷ xs) zero h e = let e' : x ≡ _ = some-injective _ _ e in rw (← e') h.0
All-get_elem? P (x ∷ xs) (suc i) h e = All-get_elem? P xs i h.1 e

All-both {ℓ κ μ} :
    {A : Type ℓ} (P : A → Type κ) (Q : A → Type μ) (xs : List A)
    → All P xs
    → All Q xs
    → All (λ a. P a × Q a) xs
All-both P Q [] p q = tt
All-both P Q (x ∷ xs) p q = ((p.0, q.0), All-both P Q xs p.1 q.1)

if_same {ℓ} : {A : Type ℓ} (b : Bool) {a : A} → (if b then a else a) ≡ a
if_same true = refl
if_same false = refl

-- What is taken out of a slice of distinct entries is not in what is left.
removed_differs :
    (i : ℕ) (cs : List ℕ) (c : ℕ)
    → Distinct cs
    → get_elem? cs i ≡ some c
    → All (λ d. d ≢ c) (remove_nth i cs)
removed_differs i [] c h e = cc
removed_differs zero (x ∷ cs) c h e =
    All-map (λ m. x ≢ m) (λ d. d ≢ c) cs (λ d n q. n (ground arith)) h.0
removed_differs (suc i) (x ∷ cs) c h e =
    (All-get_elem? (λ d. x ≢ d) cs i h.0 e, removed_differs i cs c h.1 e)

SameLength-remove_nth :
    (i : ℕ) (ns : List Bytes) (cs : List ℕ)
    → SameLength ns cs
    → SameLength (remove_nth i ns) (remove_nth i cs)
SameLength-remove_nth i [] [] s = s
SameLength-remove_nth i [] (c ∷ cs) s = absurd s
SameLength-remove_nth i (n ∷ ns) [] s = absurd s
SameLength-remove_nth zero (n ∷ ns) (c ∷ cs) s = s
SameLength-remove_nth (suc i) (n ∷ ns) (c ∷ cs) s = SameLength-remove_nth i ns cs s

map-suc-some :
    (o : Option ℕ) {i : ℕ} → Option.map suc o ≡ some i → (k : ℕ) × (o ≡ some k) × (i ≡ suc k)
map-suc-some none h = cc
map-suc-some (some k) h = (k, refl, ground arith)

-- The two ways in which a name is found.
index_of_cases :
    (n m : Bytes) (ns : List Bytes) {i : ℕ}
    → index_of n (m ∷ ns) ≡ some i
    → ((m ≡ n) × (i ≡ 0)) ⊎ ((m ≢ n) × ((k : ℕ) × (index_of n ns ≡ some k) × (i ≡ suc k)))
unfolding index_of
index_of_cases n m ns h = elim (eq_cases m n) [
  | inl same ↦ inl (same, ground (arith, bytes_eq.beq_iff m n))
  | inr differ ↦ inr (differ, map-suc-some (index_of n ns) (rw (==_of_ne m n differ) at h))
]

-- The slices have a channel at the index of every name: RemoveChannel does not panic.
found_chan :
    (n : Bytes) (ns : List Bytes) (cs : List ℕ) (i : ℕ)
    → SameLength ns cs
    → index_of n ns ≡ some i
    → (c : ℕ) × (get_elem? cs i ≡ some c) × (lookup n (entries ns cs) ≡ some c)
unfolding lookup
found_chan n [] cs i s h = unfold index_of in cc
found_chan n (m ∷ ns) [] i s h = absurd s
found_chan n (m ∷ ns) (c ∷ cs) i s h = elim (index_of_cases n m ns h) [
  | inl (same, e) ↦ (c, rw e refl, rw (same, ==_refl n) refl)
  | inr (differ, (k, f, e)) ↦
      let (d, g, l) = found_chan n ns cs k s f in (d, rw e g, rw (==_of_ne m n differ) l)
]

first_gone :
    (m j : Bytes) (ns : List Bytes) (cs : List ℕ) (c : ℕ)
    → lookup m (entries ns cs) ≡ none
    → lookup j (entries ns cs) ≡ (if m == j then none else lookup j (entries (m ∷ ns) (c ∷ cs)))
unfolding lookup
first_gone m j ns cs c d = elim (eq_cases m j) [
  | inl same ↦ rw (← same, ==_refl m) d
  | inr differ ↦ rw (==_of_ne m j differ) refl
]

-- The entries that are left have every name but the one removed.
lookup-remove :
    (n : Bytes) (ns : List Bytes) (cs : List ℕ) (i : ℕ) (j : Bytes)
    → SameLength ns cs
    → DistinctNames ns cs
    → index_of n ns ≡ some i
    → lookup j (entries (remove_nth i ns) (remove_nth i cs))
      ≡ (if n == j then none else lookup j (entries ns cs))
unfolding lookup
lookup-remove n [] cs i j s d h = unfold index_of in cc
lookup-remove n (m ∷ ns) [] i j s d h = absurd s
lookup-remove n (m ∷ ns) (c ∷ cs) i j s d h = elim (index_of_cases n m ns h) [
  | inl (same, e) ↦ rw (e, ← same) (first_gone m j ns cs c d.0)
  | inr (differ, (k, f, e)) ↦ rw e (
      ground (arith, bytes_eq.beq_iff m j, bytes_eq.beq_iff n j, lookup-remove n ns cs k j s d.1 f))
]

DistinctNames-remove_nth :
    (n : Bytes) (ns : List Bytes) (cs : List ℕ) (i : ℕ)
    → SameLength ns cs
    → DistinctNames ns cs
    → index_of n ns ≡ some i
    → DistinctNames (remove_nth i ns) (remove_nth i cs)
unfolding lookup
DistinctNames-remove_nth n [] cs i s d h = unfold index_of in cc
DistinctNames-remove_nth n (m ∷ ns) [] i s d h = absurd s
DistinctNames-remove_nth n (m ∷ ns) (c ∷ cs) i s d h = elim (index_of_cases n m ns h) [
  | inl (same, e) ↦ rw e d.1
  | inr (differ, (k, f, e)) ↦ rw e (
    lookup-remove n ns cs k m s d.1 f ∙ rw (d.0) (if_same (n == m)),
    DistinctNames-remove_nth n ns cs k s d.1 f,
  )
]

first-remove_nth :
    (n d : Bytes) (ns : List Bytes) (i : ℕ)
    → d ≢ n
    → get_elem? ns 0 ≡ some d
    → index_of n ns ≡ some i
    → get_elem? (remove_nth i ns) 0 ≡ some d
first-remove_nth n d [] i q e h = e
first-remove_nth n d (m ∷ ns) i q e h = elim (index_of_cases n m ns h) [
  | inl (same, z) ↦ absurd (q (sym (some-injective _ _ e) ∙ same))
  | inr (differ, (k, f, z)) ↦ rw z e
]

abbrev pub removed_at : LoadBalancer → Bytes → ℕ → ℕ → LoadBalancer
removed_at b channel index ch = record b {
  chans = remove_nth index b.chans;
  names = remove_nth index b.names;
  closed = ch ∷ b.closed;
  names_chans = erase channel b.names_chans;
}

pub removed_at-Synced :
    (b : LoadBalancer) (channel : Bytes) (index ch : ℕ)
    → Synced b
    → default_send_channel ≢ channel
    → index_of channel b.names ≡ some index
    → get_elem? b.chans index ≡ some ch
    → Synced (removed_at b channel index ch)
removed_at-Synced b channel i ch v q h e = record {
  same_length = SameLength-remove_nth i b.names b.chans v.same_length;
  distinct = DistinctNames-remove_nth channel b.names b.chans i v.same_length v.distinct h;
  agree = λ name.
      lookup-erase channel name b.names_chans
      ∙ rw (v.agree name)
          (sym (lookup-remove channel b.names b.chans i name v.same_length v.distinct h));
  default_first = first-remove_nth channel default_send_channel b.names i q v.default_first h;
  fresh = All-remove_nth (λ c. c < b.next_chan) i b.chans v.fresh;
  fresh_closed = (All-get_elem? (λ c. c < b.next_chan) b.chans i v.fresh e, v.fresh_closed);
  distinct_chans = Distinct-remove_nth i b.chans v.distinct_chans;
  clean =
      All-both (λ d. d ≢ ch) (λ c. All (λ d. c ≢ d) b.closed) (remove_nth i b.chans)
        (removed_differs i b.chans ch v.distinct_chans e)
        (All-remove_nth (λ c. All (λ d. c ≢ d) b.closed) i b.chans v.clean);
}

-- RemoveChannel of another channel than the default: an error for a name that is not there, and
-- otherwise the entry's channel is closed and taken out, with no panic.
pub remove_channel_cases :
    (b : LoadBalancer) (channel : Bytes)
    → Synced b
    → default_send_channel ≢ channel
    → (remove_channel b channel ≡ some (err channel_does_not_exist))
      ⊎ ((index : ℕ) × (ch : ℕ) × (index_of channel b.names ≡ some index)
          × (get_elem? b.chans index ≡ some ch)
          × (lookup channel b.names_chans ≡ some ch)
          × (remove_channel b channel ≡ some (ok (removed_at b channel index ch))))
unfolding remove_channel
remove_channel_cases b channel v q = elim (Option-cases (index_of channel b.names)) [
  | inl absent ↦
      inl (rw (==_of_ne channel default_send_channel (λ p. q (sym p)), absent, remove_channel) refl)
  | inr (i, h) ↦
      let (ch, e, l) = found_chan channel b.names b.chans i v.same_length h in
      inr (
        i,
        ch,
        h,
        e,
        v.agree channel ∙ l,
        rw (==_of_ne channel default_send_channel (λ p. q (sym p)), h, remove_channel)
            (rw (e, remove_channel) refl),
      )
]
