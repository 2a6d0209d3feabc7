-- ===== src/Verifier/RoundTrip.antt =====
-- p2p/messageCheck/messageVerifier.go: Deserialize undoes Serialize.
use drt_go_chain_communicati.Prelude.{
  List, [], ◌∷◌, map, Option, none, some, ◌≡◌, ◌≢◌, refl, Bytes, length, nat_beq, All, arith, false,
  sym, empty_of_length,
}
use drt_go_chain_communicati.Errors.{ok, ◌>>=◌}
use drt_go_chain_communicati.Message.{PbMessage, BroadcastMethod, broadcast, Message, new_message}
use drt_go_chain_communicati.Message.Accepted.{new_message_iff}
use drt_go_chain_communicati.DirectSender.{Net}
use drt_go_chain_communicati.Verifier.Signature.{converted}
use drt_go_chain_communicati.Verifier.{
  Codec, convert_p2p_message_to_pub_sub_message, convert_pub_sub_message_to_p2p_message,
  serialize_loop, serialize, deserialize_loop, deserialize,
}

-- The encodings do not fail, and decoding gives back what was encoded.
pub record CodecLaws (net : Net) (codec : Codec) : Type 0 where
  pub messages :
      (m : PbMessage) → (b : Bytes) × (net.marshal_pb m ≡ ok b) × (codec.unmarshal_pb b ≡ ok m)
  pub batches :
      (bs : List Bytes)
      → (b : Bytes) × (codec.marshal_batch bs ≡ ok b) × (codec.unmarshal_batch b ≡ ok bs)

-- The messages of a list that are not nil.
abbrev pub present : List (Option Message) → List Message
present [] = []
present (none ∷ messages) = present messages
present (some m ∷ messages) = m ∷ present messages

-- Deserialize makes every message a broadcast one.
abbrev pub as_broadcast : Message → Message
as_broadcast r = record r { broadcast_method_field = broadcast }

not_empty {ℓ} : {A : Type ℓ} (xs : List A) → xs ≢ [] → nat_beq (length xs) 0 ≡ false
not_empty [] h = absurd (h refl)
not_empty (x ∷ xs) h = ground arith

module _ (net : Net) (codec : Codec) (laws : CodecLaws net codec) where
  -- A message that NewMessage made of a pubsub message, broadcast or direct.
  abbrev pub IsReceived : Message → Type 0
  IsReceived r =
      (m : PbMessage) × ((method : BroadcastMethod) × (new_message (some net.unmarshal)
            net.id_from_bytes (some m) method
          ≡ ok r))

  convert_back :
      (r : Message)
      → IsReceived r
      → convert_pub_sub_message_to_p2p_message net (some (converted r)) ≡ ok (as_broadcast r)
  unfolding convert_pub_sub_message_to_p2p_message
  convert_back r (m, (method, h)) =
      let a = (new_message_iff net.unmarshal net.id_from_bytes m method r).0 h in
      (new_message_iff net.unmarshal net.id_from_bytes (converted r) broadcast (as_broadcast r)).1
        (record {
          tm = a.tm;
          topic_known = refl;
          unmarshalled = rw a.same_payload a.unmarshalled;
          version_one = a.version_one;
          no_pk = a.no_pk;
          no_signature_on_pid = a.no_signature_on_pid;
          peer_known = rw a.same_from a.peer_known;
          same_data = a.same_data;
          same_timestamp = a.same_timestamp;
          same_from = refl;
          same_payload = refl;
          same_seq_no = refl;
          same_signature = refl;
          same_key = refl;
          same_method = refl;
        })

  deserialize_step :
      (b : Bytes) (bs : List Bytes) (m : PbMessage) (r : Message) (rs : List Message)
      → codec.unmarshal_pb b ≡ ok m
      → convert_pub_sub_message_to_p2p_message net (some m) ≡ ok r
      → deserialize_loop net codec bs ≡ ok rs
      → deserialize_loop net codec (b ∷ bs) ≡ ok (r ∷ rs)
  unfolding deserialize_loop
  deserialize_step b bs m r rs u c d = rw (u, ◌>>=◌) (rw c (rw d refl))

  -- The two loops on the same messages.
  abbrev Loops : List (Option Message) → Type 0
  Loops messages =
      (bs : List Bytes) × (serialize_loop net codec messages ≡ ok bs)
      × (deserialize_loop net codec bs ≡ ok (map as_broadcast (present messages)))
      × (length bs ≡ length (present messages))

  loops : (messages : List (Option Message)) → All IsReceived (present messages) → Loops messages
  unfolding serialize_loop deserialize_loop convert_p2p_message_to_pub_sub_message
  loops [] h = ([], refl, refl, refl)
  loops (none ∷ messages) h = loops messages h
  loops (some r ∷ messages) h =
      let (bs, s, d, n) = loops messages h.1 in
      let (b, m, u) = laws.messages (converted r) in
      (
        b ∷ bs,
        rw (m, s) refl,
        deserialize_step b bs (converted r) (as_broadcast r) (map as_broadcast (present messages)) u
            (convert_back r h.0) d,
        omega (arith, n),
      )

  -- For encodings that do not fail and decode what they encode, and a list of messages that NewMessage
  -- made, broadcast or direct, with nil ones among them and at least one that is not: Serialize
  -- returns bytes, of which Deserialize makes the messages that are not nil, in their order and with
  -- the broadcast method set to Broadcast, all else as it was.
  pub deserialize-serialize :
      (messages : List (Option Message))
      → All IsReceived (present messages)
      → present messages ≢ []
      → (bytes : Bytes) × (serialize net codec messages ≡ ok bytes)
        × (deserialize net codec bytes ≡ ok (map as_broadcast (present messages)))
  unfolding serialize deserialize
  deserialize-serialize messages received some_message =
      let (bs, s, d, n) = loops messages received in
      let (b, m, u) = laws.batches bs in
      let some_bytes : nat_beq (length bs) 0 ≡ false =
        not_empty bs (λ e. some_message (empty_of_length _ (sym (rw e at n)))) in
      (b, rw s (rw some_bytes m), rw u d)
