-- ===== src/Ports.antt =====
-- p2p/libp2p/ports.go: the port to listen on, from a number or from a range.
-- `random.FisherYatesShuffle` and the check that opens a port are arguments. `strconv.Atoi` and
-- `strings.Split` are written out. A port of a range is at least 1025, so it is a number.
pub mod Range
mod Examples
use drt_go_chain_communicati.Prelude.{
  ℕ, zero, suc, ◌+◌, ◌-◌, ◌*◌, ◌^◌, Bool, true, false, ◌&&◌, ◌||◌, List, [], ◌∷◌, Option, none,
  some, Bytes, nat_beq, ltb, ltb, leb, if◌then◌else◌,
}
use drt_go_chain_communicati.Prelude.Int.{ℤ, pos, negsuc, ltb_ℤ, pos_part}
use drt_go_chain_communicati.Errors.{
  Error, Result, ok, err, ◌>>=◌, ◌>>◌, fail_if, not_nil, invalid_port_value,
  invalid_ports_range_string, invalid_starting_port_value, invalid_ending_port_value, invalid_value,
  end_port_is_smaller_than_start_port, nil_logger, no_free_port_in_range,
}

-- `minRangePortValue` of netMessenger.go.
abbrev pub min_range_port_value : ℕ
min_range_port_value = 1025

-- Decimal digits, which are the bytes 48 to 57, after a number read so far.
unfoldable pub digits : ℕ → Bytes → Option ℕ
digits n [] = some n
digits n (c ∷ cs) =
    let rest = digits (n * 10 + (c - 48)) cs in if leb 48 c && leb c 57 then rest else none

unfoldable pub some_digits : Bytes → Option ℕ
some_digits [] = none
some_digits (c ∷ cs) = digits 0 (c ∷ cs)

abbrev int_limit : ℕ
int_limit = 2 ^ 63

abbrev negated : ℕ → ℤ
negated zero = pos 0
negated (suc n) = negsuc n

abbrev positive_int : Option ℕ → Option ℤ
positive_int none = none
positive_int (some n) = if ltb n int_limit then some (pos n) else none

abbrev negative_int : Option ℕ → Option ℤ
negative_int none = none
negative_int (some n) = if leb n int_limit then some (negated n) else none

-- `strconv.Atoi` for a 64-bit `int`: 43 is the plus sign, 45 the minus sign.
unfoldable pub atoi : Bytes → Option ℤ
atoi [] = none
atoi (c ∷ cs) =
    if nat_beq c 45
    then negative_int (some_digits cs)
    else (if nat_beq c 43
        then positive_int (some_digits cs)
        else positive_int (some_digits (c ∷ cs)))

abbrev onto_first : ℕ → List Bytes → List Bytes
onto_first c [] = (c ∷ []) ∷ []
onto_first c (part ∷ parts) = (c ∷ part) ∷ parts

-- `strings.Split(s, "-")`.
unfoldable pub split_at_minus : Bytes → List Bytes
split_at_minus [] = [] ∷ []
split_at_minus (c ∷ cs) =
    let rest = split_at_minus cs in if nat_beq c 45 then [] ∷ rest else onto_first c rest

pub ports_from : ℕ → ℕ → List ℕ
ports_from start zero = []
ports_from start (suc n) = start ∷ ports_from (start + 1) n

-- `opens` tells whether the handler returns no error.
pub first_free_port : (ℕ → Bool) → List ℕ → Result ℕ
first_free_port opens [] = err no_free_port_in_range
first_free_port opens (p ∷ ports) =
    let rest = first_free_port opens ports in if opens p then ok p else rest

-- `none` is the panic of `make` for a negative capacity.
pub choose_port : (List ℕ → List ℕ) → (ℕ → Bool) → Option (Unit {0}) → ℕ → ℕ → Option (Result ℕ)
choose_port shuffle opens none start_port end_port = some (err nil_logger)
choose_port shuffle opens (some log) start_port end_port =
    if ltb (end_port + 1) start_port
    then none
    else some (first_free_port opens (shuffle (ports_from start_port (end_port + 1 - start_port))))

-- The two numbers of a range, checked.
pub port_range : Bytes → Result (ℕ × ℕ)
port_range port = elim (split_at_minus port) [
  | [] ↦ err invalid_ports_range_string
  | first ∷ others ↦ elim others [
    | [] ↦ err invalid_ports_range_string
    | second ∷ more ↦ elim more [
      | third ∷ rest ↦ err invalid_ports_range_string
      | [] ↦ elim (atoi first) [
        | none ↦ err invalid_starting_port_value
        | some start_port ↦ elim (atoi second) [
          | none ↦ err invalid_ending_port_value
          | some end_port ↦
              if ltb_ℤ start_port (pos min_range_port_value)
              then err invalid_value
              else (if ltb_ℤ end_port start_port
                  then err end_port_is_smaller_than_start_port
                  else ok (pos_part start_port, pos_part end_port))
        ]
      ]
    ]
  ]
]

pub get_port : (List ℕ → List ℕ) → (ℕ → Bool) → Option (Unit {0}) → Bytes → Option (Result ℕ)
get_port shuffle opens log port = elim (atoi port) [
  | some val ↦ some (if ltb_ℤ val (pos 0) then err invalid_port_value else ok (pos_part val))
  | none ↦ elim (port_range port) [
    | err e ↦ some (err e)
    | ok (start_port, end_port) ↦ choose_port shuffle opens log start_port end_port
  ]
]
