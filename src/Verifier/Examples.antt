-- ===== src/Verifier/Examples.antt =====
-- p2p/messageCheck/messageVerifier.go: the theorems at concrete inputs.
use drt_go_chain_communicati.Prelude.{
  ℕ, zero, suc, false, bytes_eq, ◌==◌, if◌then◌else◌, ◌++◌, List, [], ◌∷◌, Option, none, some, ◌≡◌,
  refl, Bytes, length, take, drop, take-append, drop-append,
}
use drt_go_chain_communicati.Prelude.Int.{pos}
use drt_go_chain_communicati.Errors.{Result, ok, err, external, ◌>>=◌}
use drt_go_chain_communicati.Message.{PbMessage, Message, broadcast, direct, new_message}
use drt_go_chain_communicati.DirectSender.{Net, check_sig}
use drt_go_chain_communicati.Verifier.{Codec, serialize, deserialize, verify}
use drt_go_chain_communicati.Verifier.Signature.{verify-check_sig}
use drt_go_chain_communicati.Verifier.RoundTrip.{CodecLaws, deserialize-serialize}

-- An encoding: a length before the bytes, and 0 or 1 before what may be missing.
put : Bytes → Bytes → Bytes
put xs rest = length xs ∷ xs ++ rest

put_option : Option Bytes → Bytes → Bytes
unfolding put
put_option none rest = 0 ∷ rest
put_option (some xs) rest = 1 ∷ put xs rest

get : Bytes → Result (Bytes × Bytes)
get [] = err (external 1)
get (n ∷ rest) = ok (take n rest, drop n rest)

get_option : Bytes → Result (Option Bytes × Bytes)
unfolding get
get_option [] = err (external 1)
get_option (zero ∷ rest) = ok (none, rest)
get_option (suc n ∷ rest) = get rest >>= λ (xs, after). ok (some xs, after)

get-put : (xs rest : Bytes) → get (put xs rest) ≡ ok (xs, rest)
unfolding get put
get-put xs rest = rw (take-append xs rest, drop-append xs rest) refl

get-put_option : (o : Option Bytes) (rest : Bytes) → get_option (put_option o rest) ≡ ok (o, rest)
unfolding get_option put_option get put
get-put_option none rest = refl
get-put_option (some xs) rest = rw (take-append xs rest, drop-append xs rest) refl

encode : PbMessage → Bytes
encode m = put m.from_peer (
    put m.payload (
      put m.seqno
        (put_option m.topic (put m.signature (put_option m.key (put m.unrecognized []))))))

decode : Bytes → Result PbMessage
decode b = get b >>= λ (from_peer, b1). get b1 >>= λ (payload, b2). get b2 >>= λ (seqno, b3).
    get_option b3 >>= λ (topic, b4). get b4 >>= λ (signature, b5). get_option b5 >>= λ (key, b6).
    get b6 >>= λ (unrecognized, b7). ok (record {
      from_peer = from_peer;
      payload = payload;
      seqno = seqno;
      topic = topic;
      signature = signature;
      key = key;
      unrecognized = unrecognized;
    })

decode-encode : (m : PbMessage) → decode (encode m) ≡ ok m
unfolding decode encode
decode-encode m = rw (get-put m.from_peer _) (
    rw (get-put m.payload _) (
      rw (get-put m.seqno _) (
        rw (get-put_option m.topic _) (
          rw (get-put m.signature _)
            (rw (get-put_option m.key _) (rw (get-put m.unrecognized []) refl))))))

encode_all : List Bytes → Bytes
encode_all [] = []
encode_all (b ∷ bs) = put b (encode_all bs)

decode_all : ℕ → Bytes → Result (List Bytes)
decode_all zero b = ok []
decode_all (suc n) b = get b >>= λ (x, rest). decode_all n rest >>= λ xs. ok (x ∷ xs)

decode_batch : Bytes → Result (List Bytes)
decode_batch [] = err (external 1)
decode_batch (n ∷ b) = decode_all n b

decode-encode_all : (bs : List Bytes) → decode_all (length bs) (encode_all bs) ≡ ok bs
unfolding decode_all encode_all
decode-encode_all [] = refl
decode-encode_all (b ∷ bs) = rw (get-put b (encode_all bs)) (rw (decode-encode_all bs) refl)

abbrev net : Net
net = record {
  SeenMessages = List Bytes;
  has = λ s b. false;
  add = λ s b. b ∷ s;
  unmarshal = λ b.
      some (record { version = 1; payload = b; timestamp = pos 0; pk = []; signature_on_pid = [] });
  id_from_bytes = λ b. some b;
  marshal_pb = λ m. ok (encode m);
  sign_prefix = 1 ∷ [];
  sign = λ b. ok b;
  verify = λ payload peer signature. if signature == 9 ∷ [] then ok tt else err (external 1);
}

abbrev codec : Codec
codec = record {
  unmarshal_pb = decode;
  marshal_batch = λ bs. ok (length bs ∷ encode_all bs);
  unmarshal_batch = decode_batch;
}

laws : CodecLaws net codec
unfolding decode_batch
laws = record {
  messages = λ m. (encode m, refl, decode-encode m);
  batches = λ bs. (length bs ∷ encode_all bs, refl, decode-encode_all bs);
}

abbrev received : PbMessage
received = record {
  from_peer = 3 ∷ [];
  payload = 7 ∷ 8 ∷ [];
  seqno = 1 ∷ [];
  topic = some (5 ∷ []);
  signature = 9 ∷ [];
  key = none;
  unrecognized = [];
}

abbrev accepted_message : Message
accepted_message = record {
  from_field = 3 ∷ [];
  data_field = 7 ∷ 8 ∷ [];
  payload_field = 7 ∷ 8 ∷ [];
  seq_no_field = 1 ∷ [];
  topic_field = 5 ∷ [];
  signature_field = 9 ∷ [];
  key_field = none;
  peer_field = 3 ∷ [];
  timestamp_field = pos 0;
  broadcast_method_field = broadcast;
}

same_id : (b id : Bytes) → net.id_from_bytes b ≡ some id → id ≡ b
same_id b id h = cc

verify-check_sig_example : verify net (some accepted_message) ≡ check_sig net received
unfolding new_message
verify-check_sig_example =
    verify-check_sig net received broadcast accepted_message same_id (λ e. cc) refl refl

abbrev direct_message : Message
direct_message = record accepted_message { broadcast_method_field = direct }

deserialize-serialize_example :
    (bytes : Bytes) × (serialize net codec (none ∷ some accepted_message ∷ some direct_message ∷ [])
      ≡ ok bytes)
    × (deserialize net codec bytes ≡ ok (accepted_message ∷ accepted_message ∷ []))
unfolding new_message
deserialize-serialize_example =
    deserialize-serialize net codec laws (none ∷ some accepted_message ∷ some direct_message ∷ [])
      ((received, (broadcast, refl)), ((received, (direct, refl)), tt)) (λ h. cc)
