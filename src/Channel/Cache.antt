-- ===== src/Channel/Cache.antt =====
-- The cache of state infos (gossip/channel.go: stateInfoCache, verifyStateInfoMsg and the sweep of
-- newGossipChannel). The cache holds two copies of what it knows: a message store, and the newest
-- message of each peer by its PKI-ID.
use grpc_gossip.Prelude.{
  ℕ, Slice, string_of, is_empty, bytes_equal, Bool, true, false, not, is_some, Option, none, some,
  ◌>>=◌, List, [], ◌∷◌, any, if◌then◌else◌,
}
use grpc_gossip.Errors.{Result, ok, err}
use grpc_gossip.Types.{StateInfo, get_state_info}
use grpc_gossip.Message.{SignedGossipMessage, invalidation_policy}
use grpc_gossip.Store
use grpc_gossip.Store.{MessageStore, check_valid, purge}
use grpc_gossip.Crypto.{verify_by_channel}
use grpc_gossip.Discovery.State.{MembershipStore, put_msg, remove_msg}
use grpc_gossip.Service.Validating.{Ids}
use grpc_gossip.Channel.State.{Env, StateInfoCache, GossipChannel}

-- `GetStateInfo()`
abbrev pub info_of : SignedGossipMessage → Option StateInfo
info_of m = get_state_info m.message.content

-- the loop over a slice of organizations, also that of `IsOrgInChannel`
abbrev pub has_org : List Slice → Slice → Bool
has_org orgs org = any (λ o. bytes_equal o org) orgs

abbrev id_or_nil : Result Slice → Slice
id_or_nil (ok id) = id
id_or_nil (err x) = Slice.nil

-- `GetIdByPKIID`: nil where the PKI-ID is not known
abbrev pub get_id_by_pki_id : Ids → Slice → Slice
get_id_by_pki_id ids pki_id = id_or_nil (ids pki_id)

-- `isOrgInChan`: of the given organizations, or of the channel's where none is given
abbrev pub is_org_in_chan : GossipChannel → List Slice → Slice → Bool
is_org_in_chan gc [] org = has_org gc.orgs org
is_org_in_chan gc (o ∷ orgs) org = has_org (o ∷ orgs) org

-- `verifyStateInfoMsg`
unfoldable pub verify_state_info :
    Env → GossipChannel → List Slice → SignedGossipMessage → Option Bool
verify_state_info env gc orgs m = info_of m >>= λ si.
    let id = get_id_by_pki_id env.ids si.pki_id in
    if bytes_equal gc.pki_id si.pki_id
    then some true
    else if is_empty (string_of id)
    then some false
    else if not (is_org_in_chan gc orgs (env.orgs.org_of si.pki_id))
    then some false
    else (m.envelope >>= λ e. some (not (is_some (verify_by_channel env.crypto id))))

-- the trigger of the cache's message store, on each message that is dropped
unfoldable pub untrack : List SignedGossipMessage → MembershipStore → Option MembershipStore
untrack [] ms = some ms
untrack (m ∷ dropped) ms = info_of m >>= λ si. untrack dropped (remove_msg ms si.pki_id)

abbrev entered : SignedGossipMessage → Bool → MembershipStore → Option MembershipStore
entered m false ms = some ms
entered m true ms = info_of m >>= λ si. some (put_msg ms si.pki_id m)

-- `stateInfoCache.add`; `verify` is the cache's function, at a message
unfoldable pub cache_add :
    (SignedGossipMessage → Option Bool)
    → ℕ
    → SignedGossipMessage
    → StateInfoCache
    → Option (StateInfoCache × Bool)
unfolding untrack
cache_add verify now m c = check_valid (invalidation_policy 0) m c.messages >>= λ valid.
    if not valid
    then some (c, false)
    else (verify m >>= λ verified.
        if not verified
        then some (c, false)
        else (Store.add (invalidation_policy 0) now m c.messages >>= λ (messages, dropped, added).
            untrack dropped c.membership >>= λ ms. entered m added ms >>= λ ms'.
            some (record { membership = ms'; messages = messages }, added)))

-- the PKI-ID of a state info
abbrev pub state_pki_id : SignedGossipMessage → Slice
state_pki_id m = elim (info_of m) [ none ↦ Slice.nil | some si ↦ si.pki_id ]

abbrev pub all_infos : MessageStore SignedGossipMessage → Bool
all_infos s = not (any (λ x. not (is_some (info_of x.item))) s.messages)

-- `Purge` by a test of the PKI-ID, which panics at a message that is no state info
unfoldable pub cache_purge : (Slice → Bool) → StateInfoCache → Option StateInfoCache
unfolding untrack
cache_purge p c =
    if not (all_infos c.messages)
    then none
    else (let (messages, dropped) = purge (λ m. p (state_pki_id m)) c.messages in
        untrack dropped c.membership >>= λ ms.
        some (record { membership = ms; messages = messages }))

-- a turn of the sweep: the peers that discovery does not know are forgotten
unfoldable pub sweep : Env → StateInfoCache → Option StateInfoCache
unfolding cache_purge
sweep env = cache_purge (λ pki_id. not (is_some (env.orgs.lookup pki_id)))
