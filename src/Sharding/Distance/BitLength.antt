-- ===== src/Sharding/Distance/BitLength.antt =====
-- p2p/libp2p/networksharding/listsSharder.go: the distance of `computeDistanceLog2Based` is the bit
-- length of the XOR of the two hashed peer IDs.
use Prim.Native.Nat.{bit_xor}
use drt_go_chain_communicati.Prelude.{
  ℕ, zero, suc, ◌+◌, ◌*◌, ◌/◌, ◌%◌, ◌<◌, Bool, true, false, ◌&&◌, ◌||◌, List, [], ◌∷◌, ◌++◌, ◌≡◌,
  ◌≢◌, refl, subst, sym, ap, ◌∙◌, inl, inr, Bytes, length, length-append, get_elem?, nat_beq, ltb,
  Bool-cases, arith, if◌then◌else◌,
}
use drt_go_chain_communicati.Sharding.Distance.{
  or_none, leading_zeros_count, common_bits, compute_distance_log2_based,
}

-- The last `n` bits of a number, the most significant one first.
unfoldable pub bits : ℕ → ℕ → List Bool
bits zero b = []
bits (suc n) b = bits n (b / 2) ++ nat_beq (b % 2) 1 ∷ []

unfoldable pub bits_of : Bytes → List Bool
unfolding bits
bits_of [] = []
bits_of (b ∷ bytes) = bits 8 b ++ bits_of bytes

unfoldable pub xor_bytes : Bytes → Bytes → Bytes
xor_bytes [] dest = []
xor_bytes (s ∷ src) [] = []
xor_bytes (s ∷ src) (d ∷ dest) = bit_xor s d ∷ xor_bytes src dest

-- The number of bits from the first 1 on.
unfoldable pub bit_length : List Bool → ℕ
bit_length [] = 0
bit_length (true ∷ bs) = suc (length bs)
bit_length (false ∷ bs) = bit_length bs

unfoldable pub leading_zeros : List Bool → ℕ
leading_zeros [] = 0
leading_zeros (true ∷ bs) = 0
leading_zeros (false ∷ bs) = suc (leading_zeros bs)

unfoldable pub AreBytes : Bytes → Type 0
AreBytes [] = Unit {0}
AreBytes (b ∷ bytes) = (b < 256) × AreBytes bytes

leading_zeros-bit_length : (bs : List Bool) → leading_zeros bs + bit_length bs ≡ length bs
unfolding leading_zeros bit_length
leading_zeros-bit_length [] = refl
leading_zeros-bit_length (true ∷ bs) = omega arith
leading_zeros-bit_length (false ∷ bs) = omega (arith, leading_zeros-bit_length bs)

leading_zeros-append :
    (bs cs : List Bool) → leading_zeros bs < length bs → leading_zeros (bs ++ cs) ≡ leading_zeros bs
unfolding leading_zeros
leading_zeros-append [] cs h = omega arith
leading_zeros-append (true ∷ bs) cs h = refl
leading_zeros-append (false ∷ bs) cs h = ap suc (leading_zeros-append bs cs (omega arith))

length-bits : (n b : ℕ) → length (bits n b) ≡ n
unfolding bits
length-bits zero b = refl
length-bits (suc n) b =
    length-append (bits n (b / 2)) (nat_beq (b % 2) 1 ∷ []) ∙ omega (arith, length-bits n (b / 2))

length-bits_of : (bytes : Bytes) → length (bits_of bytes) ≡ length bytes * 8
unfolding bits_of
length-bits_of [] = refl
length-bits_of (b ∷ bytes) =
    length-append (bits 8 b) (bits_of bytes) ∙ omega (arith, length-bits 8 b, length-bits_of bytes)

length-xor_bytes :
    (src dest : Bytes) → length src ≡ length dest → length (xor_bytes src dest) ≡ length src
unfolding xor_bytes
length-xor_bytes [] dest h = refl
length-xor_bytes (s ∷ src) [] h = omega arith
length-xor_bytes (s ∷ src) (d ∷ dest) h = omega (arith, length-xor_bytes src dest (omega arith))

-- Whether a test holds for `n` numbers from `k` on.
unfoldable holds_from : (ℕ → Bool) → ℕ → ℕ → Bool
holds_from p k zero = true
holds_from p k (suc n) = p k && holds_from p (k + 1) n

holds_at : (p : ℕ → Bool) (n k i : ℕ) → holds_from p k n ≡ true → i < n → p (k + i) ≡ true
unfolding holds_from
holds_at p zero k i h below = absurd (omega (arith, below))
holds_at p (suc n) k zero h below = elim (Bool-cases (p k)) [
  | inl first ↦ subst (λ m. p m ≡ true) (omega arith) first
  | inr fails ↦ cc (rw fails at h)
]
holds_at p (suc n) k (suc i) h below = elim (Bool-cases (p k)) [
  | inl first ↦
      subst (λ m. p m ≡ true) (omega arith)
        (holds_at p n (k + 1) i (rw first at h) (omega (arith, below)))
  | inr fails ↦ cc (rw fails at h)
]

-- What the table must say of a byte: its entry is the number of leading zeros, which is less than 8
-- but for 0.
unfoldable is_right : ℕ → ℕ → ℕ → Bool
is_right b entry count = nat_beq entry count && (nat_beq b 0 || ltb count 8)

is_right-entry : (b entry count : ℕ) → is_right b entry count ≡ true → entry ≡ count
unfolding is_right
is_right-entry b entry count h = ground arith

is_right-lt : (b entry count : ℕ) → is_right b entry count ≡ true → b ≢ 0 → count < 8
unfolding is_right
is_right-lt b entry count h nonzero = ground arith

abbrev entry_at : ℕ → ℕ
entry_at b = or_none (get_elem? leading_zeros_count b)

abbrev zeros_of : ℕ → ℕ
zeros_of b = leading_zeros (bits 8 b)

table_checked : holds_from (λ b. is_right b (entry_at b) (zeros_of b)) 0 256 ≡ true
unfolding holds_from is_right leading_zeros leading_zeros_count bits
table_checked = refl

table_right : (b : ℕ) → b < 256 → is_right b (entry_at b) (zeros_of b) ≡ true
table_right b h =
    subst (λ m. is_right m (entry_at m) (zeros_of m) ≡ true) (omega arith)
      (holds_at (λ m. is_right m (entry_at m) (zeros_of m)) 256 0 b table_checked h)

entry-zeros : (b : ℕ) → b < 256 → entry_at b ≡ zeros_of b
entry-zeros b h = is_right-entry b (entry_at b) (zeros_of b) (table_right b h)

zeros-lt : (b : ℕ) → b < 256 → b ≢ 0 → zeros_of b < 8
zeros-lt b h = is_right-lt b (entry_at b) (zeros_of b) (table_right b h)

suc_is_not_zero : (b : ℕ) → nat_beq (suc b) 0 ≡ false
suc_is_not_zero b = ground arith

-- A turn of the loop over the bytes.
one_byte :
    (b : ℕ) (bs : List Bool)
    → b < 256
    → (if nat_beq b 0 then entry_at b + leading_zeros bs else entry_at b)
      ≡ leading_zeros (bits 8 b ++ bs)
unfolding leading_zeros bits leading_zeros_count
one_byte zero bs below = omega arith
one_byte (suc b) bs below =
    ap (λ t. if t then entry_at (suc b) + leading_zeros bs else entry_at (suc b))
      (suc_is_not_zero b)
    ∙ entry-zeros (suc b) below
    ∙ sym (
        leading_zeros-append (bits 8 (suc b)) bs
          (omega (arith, zeros-lt (suc b) below (λ h. omega (arith, h)), length-bits 8 (suc b))))

common_bits-leading_zeros :
    (src dest : Bytes)
    → AreBytes (xor_bytes src dest)
    → common_bits src dest ≡ leading_zeros (bits_of (xor_bytes src dest))
unfolding common_bits AreBytes xor_bytes bits_of leading_zeros
common_bits-leading_zeros [] dest h = refl
common_bits-leading_zeros (s ∷ src) [] h = refl
common_bits-leading_zeros (s ∷ src) (d ∷ dest) (below, rest) =
    rw (common_bits-leading_zeros src dest rest)
      (one_byte (bit_xor s d) (bits_of (xor_bytes src dest)) below)

-- When the two hashed peer IDs have the same length, and the XOR of their bytes are bytes, the
-- distance is the bit length of this XOR.
pub compute_distance_log2_based-bit_length :
    (convert_peer_id : Bytes → Bytes) (src dest : Bytes)
    → length (convert_peer_id src) ≡ length (convert_peer_id dest)
    → AreBytes (xor_bytes (convert_peer_id src) (convert_peer_id dest))
    → compute_distance_log2_based convert_peer_id src dest
      ≡ bit_length (bits_of (xor_bytes (convert_peer_id src) (convert_peer_id dest)))
unfolding compute_distance_log2_based
compute_distance_log2_based-bit_length convert_peer_id src dest same bytes =
    let xored = xor_bytes (convert_peer_id src) (convert_peer_id dest) in
    omega (
      arith,
      common_bits-leading_zeros (convert_peer_id src) (convert_peer_id dest) bytes,
      leading_zeros-bit_length (bits_of xored),
      length-bits_of xored,
      length-xor_bytes (convert_peer_id src) (convert_peer_id dest) same,
    )
