-- ===== src/Ports/Examples.antt =====
-- p2p/libp2p/ports.go: the theorem at a concrete input, and runs of the code.
use mathlib.Core.List.Perm
use drt_go_chain_communicati.Prelude.{
  ℕ, ◌≤◌, Bool, true, false, List, none, some, ◌<◌, ◌≡◌, ◌⊎◌, refl, codes, nat_beq,
}
use drt_go_chain_communicati.Errors.{
  ok, err, no_free_port_in_range, invalid_port_value, invalid_value,
  end_port_is_smaller_than_start_port,
}
use drt_go_chain_communicati.Ports.{
  get_port, port_range, choose_port, ports_from, first_free_port, atoi, some_digits, digits,
  split_at_minus,
}
use drt_go_chain_communicati.Ports.Range.{choose_port_lem}

abbrev unchanged : List ℕ → List ℕ
unchanged ports = ports

abbrev opens_1026 : ℕ → Bool
opens_1026 p = nat_beq p 1026

choose_port_lem_example :
    let r = choose_port unchanged opens_1026 (some tt) 1025 1027 in
    ((r ≡ none) × (1028 < 1025))
    ⊎ (((1025 ≤ 1028)
          × ((p : ℕ) × (r ≡ some (ok p)) × (1025 ≤ p) × (p ≤ 1027) × (opens_1026 p ≡ true)))
        ⊎ ((r ≡ some (err no_free_port_in_range))
            × (1025 ≤ 1028)
            × ((p : ℕ) → 1025 ≤ p → p ≤ 1027 → opens_1026 p ≡ false)))
choose_port_lem_example = choose_port_lem unchanged opens_1026 1025 1027 (λ ports. Perm.refl ports)

from_range : get_port unchanged opens_1026 (some tt) (codes "1025-1027") ≡ some (ok 1026)
unfolding get_port port_range choose_port ports_from first_free_port atoi some_digits digits
    split_at_minus
from_range = refl

from_number : get_port unchanged opens_1026 (some tt) (codes "80") ≡ some (ok 80)
unfolding get_port atoi some_digits digits
from_number = refl

negative_port :
    get_port unchanged opens_1026 (some tt) (codes "-80") ≡ some (err invalid_port_value)
unfolding get_port atoi some_digits digits
negative_port = refl

low_range : get_port unchanged opens_1026 (some tt) (codes "80-90") ≡ some (err invalid_value)
unfolding get_port port_range atoi some_digits digits split_at_minus
low_range = refl

empty_range :
    get_port unchanged opens_1026 (some tt) (codes "1030-1029")
    ≡ some (err end_port_is_smaller_than_start_port)
unfolding get_port port_range atoi some_digits digits split_at_minus
empty_range = refl

negative_capacity : choose_port unchanged opens_1026 (some tt) 1030 1028 ≡ none
unfolding choose_port
negative_capacity = refl
