-- ===== src/Ports/Range.antt =====
-- p2p/libp2p/ports.go: the choice of a port in a range.
use mathlib.Core.List.{
  Mem, Perm, mem-cons_self, mem-cons_of_mem, not-mem-nil, eq-or-mem_of_mem-cons,
}
use mathlib.Core.List.Perm
use mathlib.Core.Logic.Or
use mathlib.Core.Bool.{Bool-set}
use drt_go_chain_communicati.Prelude.{
  ℕ, zero, suc, ◌+◌, ◌-◌, ◌≤◌, ◌<◌, Bool, true, false, List, [], ◌∷◌, none, some, ap, ◌≡◌, refl,
  ◌⊎◌, inl, inr, arith, ◌&&◌, leb, ltb, nat_eq, eq_cases, Bool-cases,
}
use drt_go_chain_communicati.Errors.{Result, ok, err, no_free_port_in_range}
use drt_go_chain_communicati.Ports.{ports_from, first_free_port, choose_port}

-- What a search for a free port among some ports gives.
abbrev Found : (ℕ → Bool) → List ℕ → Result ℕ → Type 0
Found opens ports r =
    ((p : ℕ) × (r ≡ ok p) × Mem p ports × (opens p ≡ true))
    ⊎ ((r ≡ err no_free_port_in_range) × ((p : ℕ) → Mem p ports → opens p ≡ false))

fails_or_later :
    (opens : ℕ → Bool) (q : ℕ) (ports : List ℕ) (p : ℕ)
    → opens q ≡ false
    → ((p : ℕ) → Mem p ports → opens p ≡ false)
    → Mem p (q ∷ ports)
    → opens p ≡ false
fails_or_later opens q ports p h k m =
    Or.elim (Bool-set _ _) (eq-or-mem_of_mem-cons m) (λ e. rw e h) (k p)

first_free_port-Found :
    (opens : ℕ → Bool) (ports : List ℕ) → Found opens ports (first_free_port opens ports)
unfolding first_free_port
first_free_port-Found opens [] = inr (refl, λ p m. absurd (not-mem-nil m))
first_free_port-Found opens (q ∷ ports) = elim (Bool-cases (opens q)) [
  | inl free ↦ rw free (inl (q, refl, mem-cons_self, free))
  | inr taken ↦ rw taken (elim (first_free_port-Found opens ports) [
    | inl (p, r, m, free) ↦ inl (p, r, mem-cons_of_mem q m, free)
    | inr (r, none_free) ↦ inr (r, λ p. fails_or_later opens q ports p taken none_free)
  ])
]

abbrev between : ℕ → ℕ → ℕ → Bool
between low high p = leb low p && ltb p high

ports_from-between :
    (start n p : ℕ) → Mem p (ports_from start n) → between start (start + n) p ≡ true
unfolding ports_from
ports_from-between start zero p m = absurd (not-mem-nil m)
ports_from-between start (suc n) p m =
    Or.elim (Bool-set _ _) (eq-or-mem_of_mem-cons m) (λ e. ground (arith, e))
      (λ k. ground (arith, ports_from-between (start + 1) n p k))

Mem-ports_from : (start n p : ℕ) → start ≤ p → p < start + n → Mem p (ports_from start n)
unfolding ports_from
Mem-ports_from start zero p h k = absurd (omega (arith, h, k))
Mem-ports_from start (suc n) p h k = elim (eq_cases start p) [
  | inl same ↦ rw same mem-cons_self
  | inr other ↦
      mem-cons_of_mem start
        (Mem-ports_from (start + 1) n p (omega (arith, h, other)) (omega (arith, k)))
]

-- With a shuffle that permutes the ports and a logger: choosePort returns a port of the range that
-- the handler opens, or it fails for want of a free port and the handler opens no port of the range;
-- it panics exactly if the range ends more than one below its start.
pub choose_port_lem :
    (shuffle : List ℕ → List ℕ) (opens : ℕ → Bool) (start_port end_port : ℕ)
    → ((ports : List ℕ) → Perm (shuffle ports) ports)
    → let r = choose_port shuffle opens (some tt) start_port end_port in
      ((r ≡ none) × (end_port + 1 < start_port))
      ⊎ (((start_port ≤ end_port + 1)
            × ((p : ℕ) × (r ≡ some (ok p)) × (start_port ≤ p) × (p ≤ end_port) × (opens p ≡ true)))
          ⊎ ((r ≡ some (err no_free_port_in_range))
              × (start_port ≤ end_port + 1)
              × ((p : ℕ) → start_port ≤ p → p ≤ end_port → opens p ≡ false)))
unfolding choose_port
choose_port_lem shuffle opens start_port end_port permutes =
    let n = end_port + 1 - start_port in
    let ports = ports_from start_port n in
    elim (Bool-cases (ltb (end_port + 1) start_port)) [
      | inl panics ↦ inl (rw panics refl, ground (arith, panics))
      | inr fits ↦ elim (first_free_port-Found opens (shuffle ports)) [
        | inl (p, r, m, free) ↦
            let inside = ports_from-between start_port n p ((Perm.mem_iff (permutes ports)).0 m) in
            inr (
              inl (
                ground (arith, fits),
                (p, rw fits (ap some r), ground (arith, inside), ground (arith, inside), free),
              ))
        | inr (r, none_free) ↦ inr (
            inr (
              rw fits (ap some r),
              ground (arith, fits),
              λ p low high. none_free p (
                  (Perm.mem_iff (permutes ports)).1
                    (Mem-ports_from start_port n p low (omega (arith, low, high)))),
            ))
      ]
    ]
