-- ===== src/DirectSender/Sequence.antt =====
-- p2p/libp2p/directSender.go: NextSequenceNumber.
use native.Mathlib.Nat.{pow-suc}
use drt_go_chain_communicati.Prelude.{
  ℕ, zero, suc, ◌+◌, ◌*◌, ◌/◌, ◌%◌, ◌^◌, ◌<◌, [], ◌∷◌, ◌++◌, ◌≡◌, ◌≢◌, refl, ap, ◌∙◌, Bytes, length,
  length-append, arith,
}
use drt_go_chain_communicati.DirectSender.{Net, DirectSender, big_endian, next_sequence_number}

-- The number that the bytes stand for, the most significant first.
abbrev pub value_of : ℕ → Bytes → ℕ
value_of acc [] = acc
value_of acc (b ∷ bs) = value_of (acc * 256 + b) bs

value_of-append :
    (acc : ℕ) (xs ys : Bytes) → value_of acc (xs ++ ys) ≡ value_of (value_of acc xs) ys
value_of-append acc [] ys = refl
value_of-append acc (x ∷ xs) ys = value_of-append (acc * 256 + x) xs ys

value_of-big_endian : (n v : ℕ) → v < 256 ^ n → value_of 0 (big_endian n v) ≡ v
unfolding big_endian
value_of-big_endian zero v h = omega arith
value_of-big_endian (suc n) v h =
    let small : v / 256 < 256 ^ n = omega (arith, pow-suc 256 n, h) in
    value_of-append 0 (big_endian n (v / 256)) ((v % 256) ∷ [])
    ∙ omega (arith, value_of-big_endian n (v / 256) small)

pub length-big_endian : (n v : ℕ) → length (big_endian n v) ≡ n
unfolding big_endian
length-big_endian zero v = refl
length-big_endian (suc n) v =
    omega (
      arith,
      length-append (big_endian n (v / 256)) ((v % 256) ∷ []),
      length-big_endian n (v / 256),
    )

module _ (net : Net) where
  -- The state after some calls.
  abbrev pub after_calls : ℕ → DirectSender net → DirectSender net
  after_calls zero ds = ds
  after_calls (suc k) ds = after_calls k (next_sequence_number net ds).0

  counter-after_calls :
      (k : ℕ) (ds : DirectSender net)
      → ds.counter < 2 ^ 64
      → (after_calls k ds).counter ≡ (ds.counter + k) % 2 ^ 64
  unfolding next_sequence_number
  counter-after_calls zero ds h = omega arith
  counter-after_calls (suc k) ds h =
      omega (arith, counter-after_calls k (next_sequence_number net ds).0 (omega arith))

  -- NextSequenceNumber gives 8 bytes that stand, in big-endian order, for the counter plus one modulo
  -- 2^64, and the call that follows it after k, at least 1 and fewer than 2^64, calls gives
  -- other bytes.
  pub next_sequence_number_lem :
      (ds : DirectSender net) (k : ℕ)
      → ds.counter < 2 ^ 64
      → 0 < k
      → k < 2 ^ 64
      → let s = (next_sequence_number net ds).1 in
        (length s ≡ 8)
        × (value_of 0 s ≡ (ds.counter + 1) % 2 ^ 64)
        × ((next_sequence_number net (after_calls k ds)).1 ≢ s)
  unfolding next_sequence_number
  next_sequence_number_lem ds k h lo hi = (
    length-big_endian 8 _,
    value_of-big_endian 8 _ (omega arith),
    λ e. omega (
      arith,
      counter-after_calls k ds h,
      value_of-big_endian 8 ((ds.counter + 1) % 2 ^ 64) (omega arith),
      value_of-big_endian 8 (((after_calls k ds).counter + 1) % 2 ^ 64) (omega arith),
      ap (value_of 0) e,
    ),
  )
