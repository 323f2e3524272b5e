-- ===== src/Message.antt =====
-- Operations on messages (gossip/msg.go): the tag a message may carry, signing and verifying, and the
-- policy by which a newer message replaces an older one.
pub mod Tags
pub mod Replacing
pub mod Ordering
use grpc_gossip.Prelude.{
  ℕ, ◌-◌, Str, Slice, nil, is_empty, string_of, bytes_equal, Bool, true, false, not, ◌&&◌, ◌||◌,
  Option, none, some, is_some, ◌>>=◌, ltb, leb, ◌==◌, if◌then◌else◌,
}
use grpc_gossip.Errors.{Error, Result, ok, err, missing_envelope, empty_payload, empty_signature}
use grpc_gossip.Policy.{InvalidationResult, no_action, invalidates, invalidated}
use grpc_gossip.Types.{
  PeerTime, Member, SecretEnvelope, Envelope, AliveMessage, LeadershipMessage, Payload, DataMessage,
  StateInfo, PeerIdentity, PullMsgType, block_msg, identity_msg, Tag, org_only, chan_only,
  chan_and_org, chan_or_org, GossipMessage, Content, get_alive_msg, get_data_msg, get_state_info,
  get_peer_identity, get_leadership_msg, get_hello, get_data_dig, get_data_req, get_data_update,
  get_mem_req, get_mem_res, get_state_snapshot, get_state_info_pull_req, get_state_request,
  get_state_response, get_private_req, get_private_res, get_private_data,
}

-- An envelope may be missing; the gossip message never is.
pub record SignedGossipMessage : Type 0 where
  pub envelope : Option Envelope
  pub message : GossipMessage

pub data TagError : Type 0 where
  undefined_tag : TagError
  tag_should_be : Tag → TagError
  invalid_pull_msg_type : PullMsgType → TagError
  unknown_message_type : TagError

abbrev pub tag_eq : Tag → Tag → Bool
tag_eq Tag.undefined Tag.undefined = true
tag_eq Tag.empty Tag.empty = true
tag_eq org_only org_only = true
tag_eq chan_only chan_only = true
tag_eq chan_and_org chan_and_org = true
tag_eq chan_or_org chan_or_org = true
tag_eq (Tag.unknown n) (Tag.unknown m) = n == m
tag_eq _ _ = false

unfoldable pub is_pull_msg : Content → Bool
is_pull_msg c =
    is_some (get_data_req c)
    || is_some (get_data_update c)
    || is_some (get_hello c)
    || is_some (get_data_dig c)

unfoldable pub is_channel_restricted : GossipMessage → Bool
is_channel_restricted m =
    tag_eq m.tag chan_and_org || tag_eq m.tag chan_only || tag_eq m.tag chan_or_org

unfoldable pub is_org_restricted : GossipMessage → Bool
is_org_restricted m = tag_eq m.tag chan_and_org || tag_eq m.tag org_only

unfoldable pub is_private_data_msg : Content → Bool
is_private_data_msg c =
    is_some (get_private_req c) || is_some (get_private_res c) || is_some (get_private_data c)

unfoldable pub get_pull_msg_type : Content → PullMsgType
get_pull_msg_type c = elim (get_hello c) [
  | some h ↦ h.msg_type
  | none ↦ elim (get_data_dig c) [
    | some d ↦ d.msg_type
    | none ↦ elim (get_data_req c) [
      | some r ↦ r.msg_type
      | none ↦ elim (get_data_update c) [ some u ↦ u.msg_type | none ↦ PullMsgType.undefined ]
    ]
  ]
]

-- `if m.Tag != want { return error }; return nil`
abbrev require_tag : Tag → Tag → Option TagError
require_tag tag want = if tag_eq tag want then none else some (tag_should_be want)

pull_tag_legal : PullMsgType → Tag → Option TagError
pull_tag_legal block_msg tag = require_tag tag chan_and_org
pull_tag_legal identity_msg tag = require_tag tag Tag.empty
pull_tag_legal t tag = some (invalid_pull_msg_type t)

unfoldable pub is_tag_legal : GossipMessage → Option TagError
unfolding pull_tag_legal is_pull_msg get_pull_msg_type
is_tag_legal m =
    let c = m.content in
    if tag_eq m.tag Tag.undefined
    then some undefined_tag
    else if is_some (get_data_msg c)
    then require_tag m.tag chan_and_org
    else if is_some (get_alive_msg c) || is_some (get_mem_req c) || is_some (get_mem_res c)
    then require_tag m.tag Tag.empty
    else if is_some (get_peer_identity c)
    then require_tag m.tag org_only
    else if is_pull_msg c
    then pull_tag_legal (get_pull_msg_type c) m.tag
    else if is_some (get_state_info c)
        || is_some (get_state_info_pull_req c)
        || is_some (get_state_snapshot c)
        || is_some (get_state_request c)
        || is_some (get_state_response c)
    then require_tag m.tag chan_or_org
    else if is_some (get_leadership_msg c)
    then require_tag m.tag chan_and_org
    else some unknown_message_type

unfoldable pub compare_timestamps : PeerTime → PeerTime → InvalidationResult
compare_timestamps this that =
    if this.inc_num == that.inc_num
    then (if ltb that.seq_num this.seq_num then invalidates else invalidated)
    else if ltb this.inc_num that.inc_num
    then invalidated
    else invalidates

-- The comparison of two messages of peers; `none` is the panic of a nil timestamp.
abbrev pub policy_of_times :
    Slice → Slice → Option PeerTime → Option PeerTime → Option InvalidationResult
policy_of_times this that t u =
    if not (bytes_equal this that)
    then some no_action
    else (t >>= λ a. u >>= λ b. some (compare_timestamps a b))

unfoldable pub alive_invalidation_policy : AliveMessage → AliveMessage → Option InvalidationResult
alive_invalidation_policy this that = this.membership >>= λ m.
    that.membership >>= λ n. policy_of_times m.pki_id n.pki_id this.timestamp that.timestamp

pub leader_invalidation_policy : LeadershipMessage → LeadershipMessage → Option InvalidationResult
leader_invalidation_policy this that =
    policy_of_times this.pki_id that.pki_id this.timestamp that.timestamp

unfoldable pub state_invalidation_policy : StateInfo → StateInfo → Option InvalidationResult
state_invalidation_policy this that =
    policy_of_times this.pki_id that.pki_id this.timestamp that.timestamp

pub id_invalidation_policy : PeerIdentity → PeerIdentity → InvalidationResult
id_invalidation_policy this that =
    if bytes_equal this.pki_id that.pki_id then invalidated else no_action

-- uint64 subtraction, the larger first
unfoldable pub abs : ℕ → ℕ → ℕ
abs a b = if ltb b a then a - b else b - a

unfoldable pub seq_policy : ℕ → ℕ → ℕ → InvalidationResult
unfolding abs
seq_policy size this that =
    if this == that
    then invalidated
    else if leb (abs this that) size
    then no_action
    else if ltb that this
    then invalidates
    else invalidated

unfoldable pub data_invalidation_policy : ℕ → DataMessage → DataMessage → Option InvalidationResult
data_invalidation_policy size this that =
    this.payload >>= λ p. that.payload >>= λ q. some (seq_policy size p.seq_num q.seq_num)

abbrev both {ℓ} : {A B : Type ℓ} → Option A → Option B → Option (A × B)
both (some a) (some b) = some (a, b)
both _ _ = none

-- The method of the comparator, for a store of `size` blocks.
unfoldable pub invalidation_policy :
    ℕ → SignedGossipMessage → SignedGossipMessage → Option InvalidationResult
invalidation_policy size this that =
    let c = this.message.content in
    let d = that.message.content in
    elim (both (get_alive_msg c) (get_alive_msg d)) [
      | some (a, b) ↦ alive_invalidation_policy a b
      | none ↦ elim (both (get_data_msg c) (get_data_msg d)) [
        | some (a, b) ↦ data_invalidation_policy size a b
        | none ↦ elim (both (get_state_info c) (get_state_info d)) [
          | some (a, b) ↦ state_invalidation_policy a b
          | none ↦ elim (both (get_peer_identity c) (get_peer_identity d)) [
            | some (a, b) ↦ some (id_invalidation_policy a b)
            | none ↦ elim (both (get_leadership_msg c) (get_leadership_msg d)) [
              | some (a, b) ↦ leader_invalidation_policy a b
              | none ↦ some no_action
            ]
          ]
        ]
      ]
    ]
