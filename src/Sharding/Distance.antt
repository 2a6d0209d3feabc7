-- ===== src/Sharding/Distance.antt =====
-- p2p/libp2p/networksharding/listsSharder.go: the two distances between peer IDs.
-- `kbucket.ConvertPeerID` hashes a peer ID to 32 bytes; it is an argument of the loops' callers.
pub mod BitLength
use Prim.Native.Nat.{bit_xor}
use drt_go_chain_communicati.Prelude.{
  ℕ, zero, suc, ◌+◌, ◌-◌, ◌*◌, ◌/◌, ◌%◌, [], ◌∷◌, Option, none, some, Bytes, length, get_elem?,
  nat_beq, if◌then◌else◌,
}

-- `bits.OnesCount8`.
unfoldable pub ones_count : ℕ → ℕ → ℕ
ones_count zero b = 0
ones_count (suc n) b = b % 2 + ones_count n (b / 2)

unfoldable pub ones_count8 : ℕ → ℕ
unfolding ones_count
ones_count8 b = ones_count 8 b

-- The loop over the bytes of both buffers. They have one length; past the end of the second the
-- code would panic.
unfoldable pub cumulated_bits : Bytes → Bytes → ℕ
unfolding ones_count8
cumulated_bits [] dest = 0
cumulated_bits (s ∷ src) [] = 0
cumulated_bits (s ∷ src) (d ∷ dest) = ones_count8 (bit_xor s d) + cumulated_bits src dest

unfoldable pub compute_distance_by_counting_bits : (Bytes → Bytes) → Bytes → Bytes → ℕ
unfolding cumulated_bits
compute_distance_by_counting_bits convert_peer_id src dest =
    cumulated_bits (convert_peer_id src) (convert_peer_id dest)

-- `leadingZerosCount`, for each value of a byte.
unfoldable pub leading_zeros_count : Bytes
leading_zeros_count =
    8 ∷ 7 ∷ 6 ∷ 6 ∷ 5 ∷ 5 ∷ 5 ∷ 5 ∷ 4 ∷ 4 ∷ 4 ∷ 4 ∷ 4 ∷ 4 ∷ 4 ∷ 4 ∷ 3 ∷ 3 ∷ 3 ∷ 3 ∷ 3 ∷ 3 ∷ 3 ∷ 3
    ∷ 3 ∷ 3 ∷ 3 ∷ 3 ∷ 3 ∷ 3 ∷ 3 ∷ 3 ∷ 2 ∷ 2 ∷ 2 ∷ 2 ∷ 2 ∷ 2 ∷ 2 ∷ 2 ∷ 2 ∷ 2 ∷ 2 ∷ 2 ∷ 2 ∷ 2 ∷ 2 ∷ 2
    ∷ 2 ∷ 2 ∷ 2 ∷ 2 ∷ 2 ∷ 2 ∷ 2 ∷ 2 ∷ 2 ∷ 2 ∷ 2 ∷ 2 ∷ 2 ∷ 2 ∷ 2 ∷ 2 ∷ 1 ∷ 1 ∷ 1 ∷ 1 ∷ 1 ∷ 1 ∷ 1 ∷ 1
    ∷ 1 ∷ 1 ∷ 1 ∷ 1 ∷ 1 ∷ 1 ∷ 1 ∷ 1 ∷ 1 ∷ 1 ∷ 1 ∷ 1 ∷ 1 ∷ 1 ∷ 1 ∷ 1 ∷ 1 ∷ 1 ∷ 1 ∷ 1 ∷ 1 ∷ 1 ∷ 1 ∷ 1
    ∷ 1 ∷ 1 ∷ 1 ∷ 1 ∷ 1 ∷ 1 ∷ 1 ∷ 1 ∷ 1 ∷ 1 ∷ 1 ∷ 1 ∷ 1 ∷ 1 ∷ 1 ∷ 1 ∷ 1 ∷ 1 ∷ 1 ∷ 1 ∷ 1 ∷ 1 ∷ 1 ∷ 1
    ∷ 1 ∷ 1 ∷ 1 ∷ 1 ∷ 1 ∷ 1 ∷ 1 ∷ 1 ∷ 0 ∷ 0 ∷ 0 ∷ 0 ∷ 0 ∷ 0 ∷ 0 ∷ 0 ∷ 0 ∷ 0 ∷ 0 ∷ 0 ∷ 0 ∷ 0 ∷ 0 ∷ 0
    ∷ 0 ∷ 0 ∷ 0 ∷ 0 ∷ 0 ∷ 0 ∷ 0 ∷ 0 ∷ 0 ∷ 0 ∷ 0 ∷ 0 ∷ 0 ∷ 0 ∷ 0 ∷ 0 ∷ 0 ∷ 0 ∷ 0 ∷ 0 ∷ 0 ∷ 0 ∷ 0 ∷ 0
    ∷ 0 ∷ 0 ∷ 0 ∷ 0 ∷ 0 ∷ 0 ∷ 0 ∷ 0 ∷ 0 ∷ 0 ∷ 0 ∷ 0 ∷ 0 ∷ 0 ∷ 0 ∷ 0 ∷ 0 ∷ 0 ∷ 0 ∷ 0 ∷ 0 ∷ 0 ∷ 0 ∷ 0
    ∷ 0 ∷ 0 ∷ 0 ∷ 0 ∷ 0 ∷ 0 ∷ 0 ∷ 0 ∷ 0 ∷ 0 ∷ 0 ∷ 0 ∷ 0 ∷ 0 ∷ 0 ∷ 0 ∷ 0 ∷ 0 ∷ 0 ∷ 0 ∷ 0 ∷ 0 ∷ 0 ∷ 0
    ∷ 0 ∷ 0 ∷ 0 ∷ 0 ∷ 0 ∷ 0 ∷ 0 ∷ 0 ∷ 0 ∷ 0 ∷ 0 ∷ 0 ∷ 0 ∷ 0 ∷ 0 ∷ 0 ∷ 0 ∷ 0 ∷ 0 ∷ 0 ∷ 0 ∷ 0 ∷ 0 ∷ 0
    ∷ 0 ∷ 0 ∷ 0 ∷ 0 ∷ 0 ∷ 0 ∷ 0 ∷ 0 ∷ 0 ∷ 0 ∷ 0 ∷ 0 ∷ 0 ∷ 0 ∷ 0 ∷ 0 ∷ []

abbrev pub or_none : Option ℕ → ℕ
or_none none = 0
or_none (some n) = n

-- The loop over the bytes of both buffers: it stops after the first byte in which they differ. A byte
-- is an index of the table.
unfoldable pub common_bits : Bytes → Bytes → ℕ
unfolding leading_zeros_count
common_bits [] dest = 0
common_bits (s ∷ src) [] = 0
common_bits (s ∷ src) (d ∷ dest) =
    let result = bit_xor s d in
    let count = or_none (get_elem? leading_zeros_count result) in
    let rest = common_bits src dest in if nat_beq result 0 then count + rest else count

unfoldable pub compute_distance_log2_based : (Bytes → Bytes) → Bytes → Bytes → ℕ
unfolding common_bits
compute_distance_log2_based convert_peer_id src dest =
    length (convert_peer_id src) * 8 - common_bits (convert_peer_id src) (convert_peer_id dest)
