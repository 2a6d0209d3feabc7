-- ===== src/Websocket/Transceiver/Acknowledge.antt =====
-- websocket/transceiver/transceiver.go: the channels that wait for an acknowledgement.
use drt_go_chain_communicati.Prelude.{
  ℕ, ◌+◌, ◌<◌, Bool, true, false, not, ◌&&◌, ◌∷◌, Option, none, some, ◌≡◌, ◌≢◌, refl, sym, ap, ◌∙◌,
  nat_eq, ==_of_ne, eq_cases, Dict, lookup, insert, erase, lookup-insert_self, lookup-insert_ne,
  lookup-erase_self, lookup-erase_ne, nat_beq, Bool-cases, Option-cases, inl, inr, ◌⊎◌, arith,
}
use drt_go_chain_communicati.Websocket.{WsMessage, ack_message, payload_message}
use drt_go_chain_communicati.Websocket.Transceiver.{
  Transceiver, is_closed, close_channel, handle_ack_message, send_ack_if_needed, Received,
  process_message,
}

-- Every waiting channel was made, is open and waits for one counter; every closed one was made.
pub record IsValid (wt : Transceiver) : Type 0 where
  pub waiting_made : (k ch : ℕ) → lookup k wt.map_ack ≡ some ch → ch < wt.made_channels
  pub waiting_open :
      (k ch : ℕ) → lookup k wt.map_ack ≡ some ch → is_closed ch wt.closed_channels ≡ false
  pub closed_made : (ch : ℕ) → is_closed ch wt.closed_channels ≡ true → ch < wt.made_channels
  pub one_counter :
      (j k ch : ℕ) → lookup j wt.map_ack ≡ some ch → lookup k wt.map_ack ≡ some ch → j ≡ k

inserted :
    (c n k ch : ℕ) (m : Dict ℕ ℕ)
    → lookup k (insert c n m) ≡ some ch
    → ((k ≡ c) × (ch ≡ n)) ⊎ (lookup k m ≡ some ch)
inserted c n k ch m h = elim (eq_cases c k) [
  | inl same ↦ inl (sym same, cc (rw (← same, lookup-insert_self c n m) at h))
  | inr differ ↦ inr (rw (lookup-insert_ne c k n m differ) at h)
]

erased :
    (c k ch : ℕ) (m : Dict ℕ ℕ) → lookup k (erase c m) ≡ some ch → (c ≢ k) × (lookup k m ≡ some ch)
erased c k ch m h = elim (eq_cases c k) [
  | inl same ↦ cc (rw (← same, lookup-erase_self c m) at h)
  | inr differ ↦ (differ, rw (lookup-erase_ne c k m differ) at h)
]

-- The state in which a new channel waits for a counter.
abbrev pub waits : Transceiver → ℕ → Transceiver
waits wt counter = record wt {
  counter = counter;
  made_channels = wt.made_channels + 1;
  map_ack = insert counter wt.made_channels wt.map_ack;
}

pub waits-IsValid : (wt : Transceiver) (counter : ℕ) → IsValid wt → IsValid (waits wt counter)
waits-IsValid wt c v = record {
  waiting_made = λ k ch h. elim (inserted c wt.made_channels k ch wt.map_ack h) [
    | inl (e, q) ↦ omega (arith, q)
    | inr old ↦ omega (arith, v.waiting_made k ch old)
  ];
  waiting_open = λ k ch h. elim (inserted c wt.made_channels k ch wt.map_ack h) [
    | inl (e, q) ↦ open_new ch q (Bool-cases (is_closed ch wt.closed_channels))
    | inr old ↦ v.waiting_open k ch old
  ];
  closed_made = λ ch h. omega (arith, v.closed_made ch h);
  one_counter = λ j k ch h h'. elim (inserted c wt.made_channels j ch wt.map_ack h) [
    | inl (e, q) ↦ elim (inserted c wt.made_channels k ch wt.map_ack h') [
      | inl (e', q') ↦ e ∙ sym e'
      | inr old' ↦ absurd (omega (arith, q, v.waiting_made k ch old'))
    ]
    | inr old ↦ elim (inserted c wt.made_channels k ch wt.map_ack h') [
      | inl (e', q') ↦ absurd (omega (arith, q', v.waiting_made j ch old))
      | inr old' ↦ v.one_counter j k ch old old'
    ]
  ];
}
  where
    open_new :
        (ch : ℕ)
        → ch ≡ wt.made_channels
        → (is_closed ch wt.closed_channels ≡ true) ⊎ (is_closed ch wt.closed_channels ≡ false)
        → is_closed ch wt.closed_channels ≡ false
    open_new ch q (inl closed) = absurd (omega (arith, q, v.closed_made ch closed))
    open_new ch q (inr open_still) = open_still

-- The state after the acknowledgement of a counter whose channel waits.
abbrev pub acknowledged : Transceiver → ℕ → ℕ → Transceiver
acknowledged wt counter ch = record wt {
  closed_channels = ch ∷ wt.closed_channels;
  map_ack = erase counter wt.map_ack;
}

acknowledged-IsValid :
    (wt : Transceiver) (counter ch : ℕ)
    → IsValid wt
    → lookup counter wt.map_ack ≡ some ch
    → IsValid (acknowledged wt counter ch)
unfolding is_closed
acknowledged-IsValid wt c ch v h = record {
  waiting_made = λ k d g. v.waiting_made k d (erased c k d wt.map_ack g).1;
  waiting_open = λ k d g.
      let (differ, old) = erased c k d wt.map_ack g in
      rw (==_of_ne ch d (λ e. differ (v.one_counter c k d (h ∙ ap some e) old)))
        (v.waiting_open k d old);
  closed_made = λ d g. elim (eq_cases ch d) [
    | inl same ↦ omega (arith, same, v.waiting_made c ch h)
    | inr differ ↦ v.closed_made d (rw (==_of_ne ch d differ) at g)
  ];
  one_counter = λ j k d g g'.
      v.one_counter j k d (erased c j d wt.map_ack g).1 (erased c k d wt.map_ack g').1;
}

pub handle_ack-waiting :
    (wt : Transceiver) (counter ch : ℕ)
    → IsValid wt
    → lookup counter wt.map_ack ≡ some ch
    → handle_ack_message wt counter ≡ some (acknowledged wt counter ch)
unfolding handle_ack_message close_channel
handle_ack-waiting wt c ch v h =
    rw (h, handle_ack_message) (rw (v.waiting_open c ch h, close_channel) refl)

-- A call that returns a valid state.
abbrev pub Returns : Option Received → Type 0
Returns o = (r : Received) × (o ≡ some r) × IsValid r.after

handle_ack-total :
    (wt : Transceiver) (counter : ℕ)
    → IsValid wt
    → (after : Transceiver) × (handle_ack_message wt counter ≡ some after) × IsValid after
unfolding handle_ack_message
handle_ack-total wt c v = elim (Option-cases (lookup c wt.map_ack)) [
  | inl absent ↦ (wt, rw (absent, handle_ack_message) refl, v)
  | inr (ch, there) ↦ (
    acknowledged wt c ch,
    handle_ack-waiting wt c ch v there,
    acknowledged-IsValid wt c ch v there,
  )
]

pub process_message-total :
    (process : WsMessage → Bool) (wt : Transceiver) (m : WsMessage)
    → IsValid wt
    → Returns (process_message process wt m)
unfolding process_message
process_message-total process wt m v = elim (Bool-cases (nat_beq m.message_type ack_message)) [
  | inl is_ack ↦
      let (after, h, w) = handle_ack-total wt m.counter v in
      (
        record { after = after; processed = none; ack = none },
        rw (is_ack, process_message) (rw h refl),
        w,
      )
  | inr no_ack ↦ elim (Bool-cases (not (nat_beq m.message_type payload_message))) [
    | inl other ↦ (
      record { after = wt; processed = none; ack = none },
      rw (no_ack, process_message) (rw other refl),
      v,
    )
    | inr is_payload ↦ elim (Bool-cases (not (process m) && wt.blocking_ack_on_error)) [
      | inl blocked ↦ (
        record { after = wt; processed = some m; ack = none },
        rw (no_ack, process_message) (rw is_payload (rw blocked refl)),
        v,
      )
      | inr passed ↦ (
        record { after = wt; processed = some m; ack = send_ack_if_needed wt m },
        rw (no_ack, process_message) (rw is_payload (rw passed refl)),
        v,
      )
    ]
  ]
]
