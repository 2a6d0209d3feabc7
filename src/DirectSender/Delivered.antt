-- ===== src/DirectSender/Delivered.antt =====
-- p2p/libp2p/directSender.go: which direct messages are delivered.
use drt_go_chain_communicati.Prelude.{
  false, [], ◌++◌, none, some, ◌≡◌, refl, sym, ◌∙◌, ap, Bytes, length, nat_beq, Bool-cases, inl,
  inr, ◌⊎◌, ◌↔◌, arith, empty_of_length,
}
use drt_go_chain_communicati.Errors.{Result, ok, err, Result-cases, ok_injective, ◌>>=◌}
use drt_go_chain_communicati.Message.{PbMessage, Message, direct, new_message}
use drt_go_chain_communicati.Message.Accepted.{Accepts, new_message_iff}
use drt_go_chain_communicati.DirectSender.Received.{
  Permitted, pre_check_ok-Permitted, process_received-Permitted,
}
use drt_go_chain_communicati.DirectSender.{
  Net, Handler, DirectSender, message_id, with_sign_prefix, verify_sig, check_sig, pre_check,
  deliver, process_received_direct_message,
}

-- A message without a signature, or with one that the signer accepts for the message without
-- signature and key, under the sender's name.
abbrev pub Signed : Net → PbMessage → Type 0
Signed net m =
    (m.signature ≡ [])
    ⊎ ((bytes : Bytes) × (net.marshal_pb (record m { signature = []; key = none }) ≡ ok bytes)
        × (net.verify (net.sign_prefix ++ bytes) m.from_peer m.signature ≡ ok tt))

-- Why a direct message reaches the handler and is accepted.
pub record Delivered (net : Net) (ds : DirectSender net) (h : Handler) (m : PbMessage)
    (peer : Bytes) : Type 0 where
  pub permitted : Permitted m peer
  pub unseen : net.has ds.seen_messages (m.from_peer ++ m.seqno) ≡ false
  pub signed : Signed net m
  pub msg : Message
  pub read : Accepts net.unmarshal net.id_from_bytes m direct msg
  pub handled : h msg peer ≡ ok tt

bind_ok :
    {A B : Type 0} (r : Result A) (next : A → Result B) (b : B)
    → (r >>= next ≡ ok b) ↔ ((a : A) × (r ≡ ok a) × (next a ≡ ok b))
bind_ok (err e) next b = (λ h. cc, λ (a, q, n). cc)
bind_ok (ok a) next b = (λ h. (a, refl, h), λ (a', q, n). ap next (ok_injective q) ∙ n)

module _ (net : Net) where
  check_sig-Signed : (m : PbMessage) → (check_sig net m ≡ ok tt) ↔ Signed net m
  unfolding check_sig verify_sig with_sign_prefix
  check_sig-Signed m = elim (Bool-cases (nat_beq (length m.signature) 0)) [
    | inl t ↦
        (λ h. inl (empty_of_length m.signature (ground (arith, t))), λ s. rw (t, check_sig) refl)
    | inr f ↦ (
      λ h. inr (
          (bind_ok (net.marshal_pb (record m { signature = []; key = none })) _ tt).0
            (rw (f, check_sig) at h)),
      λ s. elim s [
        | inl e ↦ cc (rw e at f)
        | inr accepted ↦
            rw (f, check_sig)
              ((bind_ok (net.marshal_pb (record m { signature = []; key = none })) _ tt).1 accepted)
      ],
    )
  ]

  deliver-handled :
      (h : Handler) (m : PbMessage) (peer : Bytes)
      → (deliver net h m peer ≡ ok tt) ↔ (
          Signed net m
          × ((msg : Message) × Accepts net.unmarshal net.id_from_bytes m direct msg
              × (h msg peer ≡ ok tt)))
  unfolding deliver
  deliver-handled h m peer = (
    λ d.
        let (u, checked, d') = (bind_ok (check_sig net m) _ tt).0 d in
        let (msg, q, handled) =
          (bind_ok (new_message (some net.unmarshal) net.id_from_bytes (some m) direct) _ tt).0
            d' in
        (
          (check_sig-Signed m).0 checked,
          (msg, (new_message_iff net.unmarshal net.id_from_bytes m direct msg).0 q, handled),
        ),
    λ (signed, (msg, read, handled)). (bind_ok (check_sig net m) _ tt).1 (
      tt,
      (check_sig-Signed m).1 signed,
      (bind_ok (new_message (some net.unmarshal) net.id_from_bytes (some m) direct) _ tt).1
          (msg, (new_message_iff net.unmarshal net.id_from_bytes m direct msg).1 read, handled),
    ),
  )

  -- With a handler registered: processReceivedDirectMessage returns no error, and has remembered the
  -- message by its sender and sequence number, exactly if the message comes from its own sender,
  -- with a topic, no key and a sequence number of at most 8 bytes, was not seen before, has no
  -- signature or one that the signer accepts for the message without signature and key, is
  -- accepted by NewMessage, and the handler returns no error for what NewMessage made of it.
  pub process_received_iff :
      (ds : DirectSender net) (h : Handler) (m : PbMessage) (peer : Bytes)
      → ds.message_handler ≡ some h
      → (process_received_direct_message net ds (some m) peer ≡ (
        record ds { seen_messages = net.add ds.seen_messages (m.from_peer ++ m.seqno) },
        ok tt,
      ))
        ↔ Delivered net ds h m peer
  unfolding process_received_direct_message message_id
  process_received_iff ds h m peer k = (
    λ r. elim (Result-cases (pre_check net (some h) (some m) peer)) [
      | inl (e, q) ↦
          let failed : pre_check net ds.message_handler (some m) peer ≡ err e = rw k q in
          cc (ap (λ x. x.1) (rw (failed, process_received_direct_message) at r))
      | inr (passed, q) ↦
          let p = pre_check_ok-Permitted net h m peer passed q in
          let r' = sym (process_received-Permitted net ds h m peer k p) ∙ r in
          elim (Bool-cases (net.has ds.seen_messages (m.from_peer ++ m.seqno))) [
            | inl seen ↦ cc (ap (λ x. x.1) (rw seen at r'))
            | inr new ↦
                let (signed, (msg, read, handled)) =
                  (deliver-handled h m peer).0 (ap (λ x. x.1) (rw new at r')) in
                record {
                  permitted = p;
                  unseen = new;
                  signed = signed;
                  msg = msg;
                  read = read;
                  handled = handled;
                }
          ]
    ],
    λ d.
        process_received-Permitted net ds h m peer k d.permitted
        ∙ rw (d.unseen, (deliver-handled h m peer).1 (d.signed, (d.msg, d.read, d.handled))) refl,
  )
