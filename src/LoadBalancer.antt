-- ===== src/LoadBalancer.antt =====
-- p2p/libp2p/outgoingChannelLoadBalancer.go: the named channels of outgoing messages.
-- A channel is its number in the order of creation, and `closed` records `close(ch)`. A method that
-- can panic on a slice index returns an `Option`, with `none` for the panic.
pub mod Laws
pub mod Removal
pub mod Serving
mod Examples
use mathlib.Core.Option
use drt_go_chain_communicati.Prelude.{
  ℕ, suc, Bool, true, false, List, [], ◌∷◌, ◌++◌, Option, none, some, Bytes, bytes_eq, ◌==◌, Dict,
  lookup, insert, erase, get_elem?, remove_nth, codes, if◌then◌else◌,
}
use drt_go_chain_communicati.Errors.{
  Result, ok, err, channel_can_not_be_re_added, channel_can_not_be_deleted, channel_does_not_exist,
}

abbrev pub default_send_channel : Bytes
default_send_channel = codes "default send channel"

pub record LoadBalancer : Type 0 where
  pub chans : List ℕ
  pub names : List Bytes
  pub names_chans : Dict Bytes ℕ
  pub next_chan : ℕ
  pub closed : List ℕ

pub append_channel : LoadBalancer → Bytes → LoadBalancer
append_channel b channel = record b {
  names = b.names ++ channel ∷ [];
  chans = b.chans ++ b.next_chan ∷ [];
  names_chans = insert channel b.next_chan b.names_chans;
  next_chan = suc b.next_chan;
}

pub new_outgoing_channel_load_balancer : LoadBalancer
unfolding append_channel
new_outgoing_channel_load_balancer =
    append_channel (record { chans = []; names = []; names_chans = []; next_chan = 0; closed = [] })
      default_send_channel

pub add_channel : LoadBalancer → Bytes → Result LoadBalancer
add_channel b channel =
    if channel == default_send_channel
    then err channel_can_not_be_re_added
    else elim (lookup channel b.names_chans) [
      | some ch ↦ ok b
      | none ↦ ok (append_channel b channel)
    ]

-- The index of the first entry with the name; `none` is the code's -1.
unfoldable pub index_of : Bytes → List Bytes → Option ℕ
index_of channel [] = none
index_of channel (name ∷ names) =
    if name == channel then some 0 else Option.map suc (index_of channel names)

pub remove_channel : LoadBalancer → Bytes → Option (Result LoadBalancer)
remove_channel b channel =
    if channel == default_send_channel
    then some (err channel_can_not_be_deleted)
    else elim (index_of channel b.names) [
      | none ↦ some (err channel_does_not_exist)
      | some index ↦ elim (get_elem? b.chans index) [
        | none ↦ none
        | some sendable_chan ↦ some (
            ok (record b {
              chans = remove_nth index b.chans;
              names = remove_nth index b.names;
              closed = sendable_chan ∷ b.closed;
              names_chans = erase channel b.names_chans;
            }))
      ]
    ]

pub get_channel_or_default : LoadBalancer → Bytes → Option ℕ
get_channel_or_default b channel = elim (lookup channel b.names_chans) [
  | some ch ↦ some ch
  | none ↦ get_elem? b.chans 0
]
