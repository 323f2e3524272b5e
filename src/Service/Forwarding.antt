-- ===== src/Service/Forwarding.antt =====
-- How messages are passed on (gossip/gossip.go: partitionMessages, removeSelfLoop, sendGossipBatch).
use grpc_gossip.Prelude.{Slice, Bool, not, ◌&&◌, Option, some, ◌>>=◌, List, [], ◌∷◌, if◌then◌else◌}
use grpc_gossip.Message.{SignedGossipMessage}
use grpc_gossip.Selecting.{RemotePeer}
use grpc_gossip.Service.Orgs.{Orgs, is_in_my_org, has_external_endpoint, strip_message}

-- `partitionMessages`
unfoldable pub partition_messages {ℓ} : {A : Type ℓ} → (A → Bool) → List A → List A × List A
partition_messages pred [] = ([], [])
partition_messages pred (m ∷ a) =
    let (s1, s2) = partition_messages pred a in if pred m then (m ∷ s1, s2) else (s1, m ∷ s2)

-- `removeSelfLoop`, with the filter of the message
unfoldable pub remove_self_loop : (Slice → Bool) → List RemotePeer → List RemotePeer
remove_self_loop f [] = []
remove_self_loop f (p ∷ peers) =
    let rest = remove_self_loop f peers in if f p.pki_id then p ∷ rest else rest

-- The last loop of `sendGossipBatch`, for an alive message and the peers that were selected: what is
-- sent to whom, and the message as it is left. `foreign` says that the message is not from this
-- peer's organization.
unfoldable pub send_alive :
    Orgs
    → Bool
    → List RemotePeer
    → SignedGossipMessage
    → Option (SignedGossipMessage × List (SignedGossipMessage × RemotePeer))
unfolding is_in_my_org has_external_endpoint
send_alive o foreign [] m = some (m, [])
send_alive o foreign (p ∷ peers) m =
    if foreign && not (has_external_endpoint o p.pki_id)
    then send_alive o foreign peers m
    else if not (is_in_my_org o p.pki_id)
    then (m.envelope >>= λ e. send_alive o foreign peers (strip_message m e) >>= λ (left, sent).
        some (left, (strip_message m e, p) ∷ sent))
    else (send_alive o foreign peers m >>= λ (left, sent). some (left, (m, p) ∷ sent))
