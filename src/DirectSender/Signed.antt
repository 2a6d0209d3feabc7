-- ===== src/DirectSender/Signed.antt =====
-- p2p/libp2p/directSender.go: what createMessage makes, checkSig accepts; and the choice of the connection.
use drt_go_chain_communicati.Prelude.{
  ◌+◌, ◌++◌, [], none, some, ◌≡◌, ◌≢◌, empty_of_length, refl, sym, ap, subst, ◌%◌, ◌^◌, ◌∙◌, Bytes,
  length, nat_beq, Bool-cases, inl, inr, arith,
}
use drt_go_chain_communicati.Errors.{ok, err, ◌>>=◌, ok_injective, Result-cases}
use drt_go_chain_communicati.Message.{PbMessage}
use drt_go_chain_communicati.DirectSender.{
  Net, DirectSender, Conn, with_sign_prefix, unsigned, check_sig, verify_sig, sign_message,
  create_message, next_sequence_number,
}
use drt_go_chain_communicati.DirectSender.Received.{Permitted}
use drt_go_chain_communicati.DirectSender.Sequence.{length-big_endian}

module _ (net : Net) where
  sign_message_parts :
      (m r : PbMessage)
      → sign_message net m ≡ ok r
      → (bytes signature : Bytes) × (net.marshal_pb m ≡ ok bytes)
        × (net.sign (with_sign_prefix net bytes) ≡ ok signature)
        × (r ≡ record m { signature = signature })
  unfolding sign_message
  sign_message_parts m r h = elim (Result-cases (net.marshal_pb m)) [
    | inl (e, q) ↦ let h' : err e ≡ ok r = rw (q, sign_message) at h in cc
    | inr (bytes, q) ↦ elim (Result-cases (net.sign (with_sign_prefix net bytes))) [
      | inl (e, p) ↦ let h' : err e ≡ ok r = rw p at (rw (q, sign_message) at h) in cc
      | inr (s, p) ↦
          let h' : ok (record m { signature = s }) ≡ ok r = rw p at (rw (q, sign_message) at h) in
          (bytes, s, q, p, sym (ok_injective h'))
    ]
  ]

  -- The check with the prefix written out.
  verify_sig_parts :
      (m : PbMessage)
      → verify_sig net m ≡ (
          net.marshal_pb (record m { signature = []; key = none }) >>= λ b.
          net.verify (net.sign_prefix ++ b) m.from_peer m.signature)
  unfolding verify_sig with_sign_prefix
  verify_sig_parts m = refl

  -- The whole check, for a message with a signature.
  pub check_sig_parts :
      (m : PbMessage)
      → m.signature ≢ []
      → check_sig net m ≡ (
          net.marshal_pb (record m { signature = []; key = none }) >>= λ b.
          net.verify (net.sign_prefix ++ b) m.from_peer m.signature)
  unfolding check_sig
  check_sig_parts m signed = elim (Bool-cases (nat_beq (length m.signature) 0)) [
    | inl t ↦ absurd (signed (empty_of_length m.signature (ground (arith, t))))
    | inr f ↦ rw (f, check_sig) (verify_sig_parts m)
  ]

  check_sig_of :
      (m : PbMessage) (bytes : Bytes)
      → net.marshal_pb (unsigned net m) ≡ ok bytes
      → net.verify (with_sign_prefix net bytes) m.from_peer m.signature ≡ ok tt
      → check_sig net m ≡ ok tt
  unfolding check_sig verify_sig
  check_sig_of m bytes q v = elim (Bool-cases (nat_beq (length m.signature) 0)) [
    | inl t ↦ rw (t, check_sig) refl
    | inr f ↦ rw (f, check_sig) (rw (q, verify_sig) v)
  ]

  -- The signer accepts what it has signed itself.
  abbrev pub Signs : Bytes → Type 0
  Signs peer = (b s : Bytes) → net.sign b ≡ ok s → net.verify b peer s ≡ ok tt

  -- With a signer that accepts its own signatures under the host's identity, a message that
  -- createMessage returns has the payload and the topic that were asked for, is permitted at the
  -- receiver when it comes from this peer, and passes checkSig.
  pub create_message_lem :
      (ds : DirectSender net) (topic buff : Bytes) (conn : Conn) (m : PbMessage)
      → Signs conn.local_peer
      → (create_message net ds topic buff conn).1 ≡ ok m
      → (m.payload ≡ buff)
        × (m.topic ≡ some topic)
        × Permitted m conn.local_peer
        × (check_sig net m ≡ ok tt)
  unfolding create_message next_sequence_number check_sig verify_sig
  create_message_lem ds topic buff conn m signs h =
      let (bytes, s, q, p, e) = sign_message_parts _ m h in
      (
        ap (λ x. x.payload) e,
        ap (λ x. x.topic) e,
        record {
          topic = topic;
          has_topic = ap (λ x. x.topic) e;
          from_itself = ap (λ x. x.from_peer) e;
          no_key = ap (λ x. x.key) e;
          short_seqno =
              omega (
                arith,
                ap (λ x. length x.seqno) e,
                length-big_endian 8 ((ds.counter + 1) % 2 ^ 64),
              );
        },
        check_sig_of m bytes (ap (λ x. net.marshal_pb (unsigned net x)) e ∙ q) (
            subst (λ x. net.verify (with_sign_prefix net bytes) x.from_peer x.signature ≡ ok tt)
              (sym e) (signs (with_sign_prefix net bytes) s p)),
      )
