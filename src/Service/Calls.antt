-- ===== src/Service/Calls.antt =====
-- The calls of the service's users (gossip/gossip.go: SendByCriteria, SendCriteria, PeersOfChannel,
-- UpdateLedgerHeight, LeaveChan). `membership` is the result of GetMembership; `none` is a panic, or a wait
-- that does not end.
use grpc_gossip.Prelude.{
  ℕ, ◌==◌, ℤ, eq_ℕ, gt_ℕ, Slice, string_of, is_empty, Bool, Option, none, some, ◌>>=◌, List, [],
  length, put, string_eq, if◌then◌else◌,
}
use grpc_gossip.Errors.{
  Error, Result, ok, err, timeout_missing, no_such_channel, too_few_peers, too_few_acks,
}
use grpc_gossip.Selecting.{Peer, RemotePeer, RoutingFilter, select_all_policy, select_peers}
use grpc_gossip.Comm.Acks.{SendResult, send_with_ack, ack_count}
use grpc_gossip.Channel.State.{Env, GossipChannel}
use grpc_gossip.Channel.Members.{get_peers}
use grpc_gossip.Channel.Publishing.{leave_channel, update_ledger_height}
use grpc_gossip.Channel.Joining.{ChannelState, get_gossip_channel_by_chain_id}

pub record SendCriteria : Type 0 where
  pub timeout : ℕ
  pub min_ack : ℤ
  pub max_peers : ℤ
  pub is_eligible : Option RoutingFilter
  pub channel : Slice

-- `if criteria.IsEligible == nil { criteria.IsEligible = SelectAllPolicy }`
abbrev pub eligible : SendCriteria → RoutingFilter
eligible c = elim c.is_eligible [ none ↦ select_all_policy | some f ↦ f ]

module _ (env : Env) (cs : ChannelState) where
  -- `PeersOfChannel`
  unfoldable pub peers_of_channel : Slice → Option (List Peer)
  unfolding get_peers get_gossip_channel_by_chain_id
  peers_of_channel channel = elim (get_gossip_channel_by_chain_id cs channel) [
    | none ↦ some []
    | some gc ↦ get_peers env gc
  ]

  abbrev changed : Slice → GossipChannel → ChannelState
  changed channel gc = record cs { channels = put cs.channels (string_of channel) gc }

  -- `UpdateLedgerHeight`
  unfoldable pub update_height : ℕ → ℕ → Slice → Option ChannelState
  unfolding update_ledger_height get_gossip_channel_by_chain_id
  update_height now height channel = elim (get_gossip_channel_by_chain_id cs channel) [
    | none ↦ some cs
    | some gc ↦ update_ledger_height env now height gc >>= λ gc'. some (changed channel gc')
  ]

  -- `LeaveChan`
  unfoldable pub leave_chan : ℕ → Slice → Option ChannelState
  unfolding leave_channel get_gossip_channel_by_chain_id
  leave_chan now channel = elim (get_gossip_channel_by_chain_id cs channel) [
    | none ↦ some cs
    | some gc ↦ leave_channel env now gc >>= λ gc'. some (changed channel gc')
  ]

  -- the peers that SendByCriteria selects from
  unfoldable pub candidates : List Peer → Slice → Option (Result (List Peer))
  unfolding get_peers get_gossip_channel_by_chain_id
  candidates membership channel =
      if is_empty (string_of channel)
      then some (ok membership)
      else elim (get_gossip_channel_by_chain_id cs channel) [
        | none ↦ some (err no_such_channel)
        | some gc ↦ get_peers env gc >>= λ peers. some (ok peers)
      ]

  abbrev outcome : ℤ → List SendResult → Option Error
  outcome min_ack results = if gt_ℕ min_ack (ack_count results) then some too_few_acks else none

  -- the rest of SendByCriteria; `arriving` are the results of the sends to the peers, in the order in
  -- which they arrive
  abbrev send_among :
      Bool
      → Option Error
      → (List RemotePeer → List SendResult)
      → List ℕ
      → SendCriteria
      → Result (List Peer)
      → Option (Option Error)
  send_among stopping sign_error arriving perm c (err e) = some (some e)
  send_among stopping sign_error arriving perm c (ok pool) =
      select_peers c.max_peers pool (eligible c) perm >>= λ peers.
      if gt_ℕ c.min_ack (length peers)
      then some (some too_few_peers)
      else (send_with_ack stopping sign_error c.min_ack peers (arriving peers) >>= λ results.
          some (outcome c.min_ack results))

  -- `SendByCriteria`
  unfoldable pub send_by_criteria :
      Bool
      → Option Error
      → (List RemotePeer → List SendResult)
      → List Peer
      → List ℕ
      → SendCriteria
      → Option (Option Error)
  unfolding candidates send_with_ack ack_count
  send_by_criteria stopping sign_error arriving membership perm c =
      if eq_ℕ c.max_peers 0
      then some none
      else if c.timeout == 0
      then some (some timeout_missing)
      else (candidates membership c.channel >>= send_among stopping sign_error arriving perm c)
