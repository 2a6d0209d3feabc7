-- ===== src/Verifier/Signature.antt =====
-- p2p/messageCheck/messageVerifier.go and p2p/libp2p/directSender.go: the two checks of a signature.
use drt_go_chain_communicati.Prelude.{[], ◌≢◌, none, ap, some, ◌≡◌, refl, sym, ◌∙◌, ◌++◌, Bytes}
use drt_go_chain_communicati.Errors.{Result, ok, err, ◌>>=◌}
use drt_go_chain_communicati.Message.{PbMessage, BroadcastMethod, Message, new_message}
use drt_go_chain_communicati.Message.Accepted.{new_message_iff}
use drt_go_chain_communicati.DirectSender.{Net, check_sig}
use drt_go_chain_communicati.DirectSender.Signed.{check_sig_parts}
use drt_go_chain_communicati.Verifier.{
  with_sign_prefix, convert_p2p_message_to_pub_sub_message, prepare_pub_sub_message_payload, verify,
}

-- The pubsub message that `convertP2PMessagetoPubSubMessage` makes of one that NewMessage made.
abbrev pub converted : Message → PbMessage
converted r = record {
  from_peer = r.from_field;
  payload = r.payload_field;
  seqno = r.seq_no_field;
  topic = some r.topic_field;
  signature = r.signature_field;
  key = r.key_field;
  unrecognized = [];
}

module _ (net : Net) where
  check_of :
      (marshalled : Result Bytes) (peer signature : Bytes)
      → (marshalled >>= (λ b. ok (with_sign_prefix net b)) >>= λ payload.
          net.verify payload peer signature)
        ≡ (marshalled >>= λ b. net.verify (net.sign_prefix ++ b) peer signature)
  unfolding with_sign_prefix
  check_of (err e) peer signature = refl
  check_of (ok b) peer signature = refl

  -- For a `peer.IDFromBytes` that keeps the bytes of an identifier, and a message with a signature and
  -- no unrecognized fields that NewMessage accepts: Verify of what NewMessage made of it gives the
  -- result of the direct sender's checkSig of it.
  pub verify-check_sig :
      (m : PbMessage) (method : BroadcastMethod) (r : Message)
      → ((b id : Bytes) → net.id_from_bytes b ≡ some id → id ≡ b)
      → m.signature ≢ []
      → m.unrecognized ≡ []
      → new_message (some net.unmarshal) net.id_from_bytes (some m) method ≡ ok r
      → verify net (some r) ≡ check_sig net m
  unfolding verify prepare_pub_sub_message_payload convert_p2p_message_to_pub_sub_message
  verify-check_sig m method r keeps signed known h =
      let a = (new_message_iff net.unmarshal net.id_from_bytes m method r).0 h in
      let same = keeps m.from_peer r.peer_field a.peer_known in
      check_of _ r.peer_field r.signature_field
      ∙ rw (same, a.same_signature, a.same_from, a.same_payload, a.same_seq_no, ← a.topic_known)
          (ap
              (λ u.
                net.marshal_pb (record m { signature = []; key = none; unrecognized = u }) >>= λ b.
                net.verify (net.sign_prefix ++ b) m.from_peer m.signature)
              (sym known)
            ∙ sym (check_sig_parts net m signed))
