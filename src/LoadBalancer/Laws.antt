-- ===== src/LoadBalancer/Laws.antt =====
-- p2p/libp2p/outgoingChannelLoadBalancer.go: what the slices and the map promise, and AddChannel.
use drt_go_chain_communicati.Prelude.{
  ℕ, suc, ◌<◌, List, [], ◌∷◌, ◌++◌, none, some, Bytes, bytes_eq, ◌==◌, Dict, lookup, get_elem?,
  if◌then◌else◌, ◌≡◌, ◌≢◌, refl, sym, ◌∙◌, All, All-append, All-map, Bool-cases, lookup-insert,
  arith, inl, inr,
}
use drt_go_chain_communicati.LoadBalancer.{LoadBalancer, default_send_channel, append_channel}

-- The entries of the two slices, read together.
abbrev pub entries : List Bytes → List ℕ → Dict Bytes ℕ
entries [] chs = []
entries (n ∷ ns) [] = []
entries (n ∷ ns) (c ∷ cs) = (n, c) ∷ entries ns cs

-- Both slices have one length.
abbrev pub SameLength : List Bytes → List ℕ → Type 0
SameLength [] [] = Unit
SameLength [] (c ∷ cs) = ⊥
SameLength (n ∷ ns) [] = ⊥
SameLength (n ∷ ns) (c ∷ cs) = SameLength ns cs

abbrev pub Distinct {ℓ} : {A : Type ℓ} → List A → Type ℓ
Distinct [] = Unit
Distinct (n ∷ ns) = All (λ m. n ≢ m) ns × Distinct ns

abbrev pub DistinctNames : List Bytes → List ℕ → Type 0
DistinctNames (n ∷ ns) (c ∷ cs) = (lookup n (entries ns cs) ≡ none) × DistinctNames ns cs
DistinctNames ns cs = Unit

-- `clean`: no channel of the slice is closed. `fresh`: the next channel is a new one.
pub record Synced (b : LoadBalancer) : Type 0 where
  pub same_length : SameLength b.names b.chans
  pub distinct : DistinctNames b.names b.chans
  pub agree : (name : Bytes) → lookup name b.names_chans ≡ lookup name (entries b.names b.chans)
  pub default_first : get_elem? b.names 0 ≡ some default_send_channel
  pub fresh : All (λ c. c < b.next_chan) b.chans
  pub fresh_closed : All (λ c. c < b.next_chan) b.closed
  pub distinct_chans : Distinct b.chans
  pub clean : All (λ c. All (λ d. c ≢ d) b.closed) b.chans

pub SameLength-append_end :
    (ns : List Bytes) (cs : List ℕ) (n : Bytes) (c : ℕ)
    → SameLength ns cs
    → SameLength (ns ++ n ∷ []) (cs ++ c ∷ [])
SameLength-append_end [] [] n c s = tt
SameLength-append_end [] (d ∷ cs) n c s = absurd s
SameLength-append_end (m ∷ ns) [] n c s = absurd s
SameLength-append_end (m ∷ ns) (d ∷ cs) n c s = SameLength-append_end ns cs n c s

-- An entry at the end is found if no earlier one has its name.
pub lookup-append_end :
    (ns : List Bytes) (cs : List ℕ) (n : Bytes) (c : ℕ) (j : Bytes)
    → SameLength ns cs
    → lookup n (entries ns cs) ≡ none
    → lookup j (entries (ns ++ n ∷ []) (cs ++ c ∷ []))
      ≡ (if n == j then some c else lookup j (entries ns cs))
unfolding lookup
lookup-append_end [] [] n c j s h = refl
lookup-append_end [] (d ∷ cs) n c j s h = absurd s
lookup-append_end (m ∷ ns) [] n c j s h = absurd s
lookup-append_end (m ∷ ns) (d ∷ cs) n c j s h = elim (Bool-cases (m == n)) [
  | inl e ↦ let h' : some d ≡ none = rw e at h in cc
  | inr e ↦ ground (
    arith,
    e,
    bytes_eq.beq_iff m j,
    bytes_eq.beq_iff n j,
    bytes_eq.beq_iff m n,
    lookup-append_end ns cs n c j s (rw e at h),
  )
]

DistinctNames-append_end :
    (ns : List Bytes) (cs : List ℕ) (n : Bytes) (c : ℕ)
    → SameLength ns cs
    → lookup n (entries ns cs) ≡ none
    → DistinctNames ns cs
    → DistinctNames (ns ++ n ∷ []) (cs ++ c ∷ [])
unfolding lookup
DistinctNames-append_end [] [] n c s h d = (refl, tt)
DistinctNames-append_end [] (e ∷ cs) n c s h d = absurd s
DistinctNames-append_end (m ∷ ns) [] n c s h d = absurd s
DistinctNames-append_end (m ∷ ns) (e ∷ cs) n c s h d = elim (Bool-cases (m == n)) [
  | inl same ↦ let h' : some e ≡ none = rw same at h in cc
  | inr differ ↦ (
    ground (
      arith,
      bytes_eq.beq_iff m n,
      bytes_eq.beq_iff n m,
      lookup-append_end ns cs n c m s (rw differ at h),
    ),
    DistinctNames-append_end ns cs n c s (rw differ at h) d.1,
  )
]

Distinct-append_end :
    (cs : List ℕ) (c : ℕ) → All (λ d. d < c) cs → Distinct cs → Distinct (cs ++ c ∷ [])
Distinct-append_end [] c h d = (tt, tt)
Distinct-append_end (e ∷ cs) c h d =
    (All-append (λ m. e ≢ m) cs (c ∷ []) d.0 (omega arith, tt), Distinct-append_end cs c h.1 d.1)

first-append :
    (ns : List Bytes) (n : Bytes) {d : Bytes}
    → get_elem? ns 0 ≡ some d
    → get_elem? (ns ++ n ∷ []) 0 ≡ some d
first-append [] n h = cc
first-append (m ∷ ns) n h = h

pub below_suc : (n : ℕ) (cs : List ℕ) → All (λ c. c < n) cs → All (λ c. c < suc n) cs
below_suc n cs h = All-map (λ c. c < n) (λ c. c < suc n) cs (λ c l. omega arith) h

not_in_below : (n : ℕ) (cs : List ℕ) → All (λ c. c < n) cs → All (λ c. n ≢ c) cs
not_in_below n cs h = All-map (λ c. c < n) (λ c. n ≢ c) cs (λ c l. omega arith) h

pub append_channel-Synced :
    (b : LoadBalancer) (channel : Bytes)
    → Synced b
    → lookup channel b.names_chans ≡ none
    → Synced (append_channel b channel)
unfolding append_channel
append_channel-Synced b channel v h =
    let absent : lookup channel (entries b.names b.chans) ≡ none = sym (v.agree channel) ∙ h in
    record {
      same_length = SameLength-append_end b.names b.chans channel b.next_chan v.same_length;
      distinct =
          DistinctNames-append_end b.names b.chans channel b.next_chan v.same_length absent
            v.distinct;
      agree = λ name.
          lookup-insert channel name b.next_chan b.names_chans
          ∙ rw (v.agree name) (
              sym
                (lookup-append_end b.names b.chans channel b.next_chan name v.same_length absent));
      default_first = first-append b.names channel v.default_first;
      fresh =
          All-append (λ c. c < suc b.next_chan) b.chans (b.next_chan ∷ [])
            (below_suc b.next_chan b.chans v.fresh) (omega arith, tt);
      fresh_closed = below_suc b.next_chan b.closed v.fresh_closed;
      distinct_chans = Distinct-append_end b.chans b.next_chan v.fresh v.distinct_chans;
      clean =
          All-append (λ c. All (λ d. c ≢ d) b.closed) b.chans (b.next_chan ∷ []) v.clean
            (not_in_below b.next_chan b.closed v.fresh_closed, tt);
    }
