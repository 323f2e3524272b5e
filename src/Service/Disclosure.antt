-- ===== src/Service/Disclosure.antt =====
-- Membership responses and what they disclose (gossip/gossip.go, disclosurePolicy;
-- gossip/discovery.go, createMembershipResponse). The filter clears the secret in the message itself,
-- so the stored messages are part of the result; the alive message store, which holds the same
-- envelopes, is left out of it. `none` is a panic.
use grpc_gossip.Prelude.{
  Str, is_empty, bytes_equal, Bool, false, not, ◌&&◌, ◌||◌, Option, none, some, ◌>>=◌, List, [],
  ◌∷◌, ◌++◌, if◌then◌else◌,
}
use grpc_gossip.Types.{Envelope}
use grpc_gossip.Message.{SignedGossipMessage}
use grpc_gossip.Selecting.{Peer}
use grpc_gossip.Discovery.State.{Discovery, MembershipStore, alive_of}
use grpc_gossip.Service.Orgs.{Orgs, unknown_org, strip_message}

-- the first function of `disclosurePolicy`
pub should_be_disclosed : Orgs → Peer → SignedGossipMessage → Option Bool
should_be_disclosed o remote m =
    let remote_org = o.org_of remote.pki_id in
    if unknown_org remote_org
    then some false
    else alive_of m >>= λ (am, mem).
        let org = o.org_of mem.pki_id in
        some (
          if unknown_org org
          then false
          else if not (bytes_equal remote_org org || bytes_equal o.self_org org)
          then false
          else bytes_equal org remote_org
            || (not (is_empty mem.endpoint) && not (is_empty remote.endpoint)))

-- the second function, as what it makes of the message
unfoldable pub omit_concealed_fields :
    Orgs → Peer → SignedGossipMessage → Option SignedGossipMessage
omit_concealed_fields o remote m =
    let remote_org = o.org_of remote.pki_id in
    if unknown_org remote_org
    then some m
    else if not (bytes_equal o.self_org remote_org)
    then (m.envelope >>= λ e. some (strip_message m e))
    else some m

abbrev pub with_entry :
    Str
    → SignedGossipMessage
    → List (Option Envelope)
    → Option (MembershipStore × List (Option Envelope))
    → Option (MembershipStore × List (Option Envelope))
with_entry k m disclosed rest =
    rest >>= λ (store, envelopes). some ((k, m) ∷ store, disclosed ++ envelopes)

-- The loop over a membership store: the store as it is left, and the envelopes.
unfoldable pub disclose :
    Orgs → Peer → MembershipStore → Option (MembershipStore × List (Option Envelope))
unfolding should_be_disclosed omit_concealed_fields
disclose o remote [] = some ([], [])
disclose o remote ((k, m) ∷ store) =
    let rest = disclose o remote store in
    should_be_disclosed o remote m >>= λ disclosed.
    if not disclosed
    then with_entry k m [] rest
    else (omit_concealed_fields o remote m >>= λ m'. with_entry k m' (m'.envelope ∷ []) rest)

-- a MembershipResponse, in which an envelope may be nil
pub record Response : Type 0 where
  pub alive : List (Option Envelope)
  pub dead : List (Option Envelope)

-- `createMembershipResponse` for this peer's own alive message: the service as it is left, and the
-- response, if there is one
unfoldable pub create_membership_response :
    Orgs → SignedGossipMessage → Peer → Discovery → Option (Discovery × Option Response)
unfolding disclose should_be_disclosed omit_concealed_fields
create_membership_response o alive_msg target d =
    should_be_disclosed o target alive_msg >>= λ disclosed.
    if not disclosed
    then some (d, none)
    else (disclose o target d.dead_membership >>= λ (dead_store, dead_peers).
        disclose o target d.alive_membership >>= λ (alive_store, alive_snapshot).
        omit_concealed_fields o target alive_msg >>= λ own. some (
          record d { dead_membership = dead_store; alive_membership = alive_store },
          some (record { alive = alive_snapshot ++ own.envelope ∷ []; dead = dead_peers }),
        ))
