-- ===== src/Types.antt =====
-- The messages of the protocol (gossip/message.pb.go). A pointer that the wire may leave unset is an
-- Option; a repeated message field holds no nil. An enumeration keeps the values that the wire can
-- carry and the package does not know.
use grpc_gossip.Prelude.{ℕ, Str, Slice, Bool, List, Option, none, some}

pub record PeerTime : Type 0 where
  pub inc_num : ℕ
  pub seq_num : ℕ

pub record Member : Type 0 where
  pub endpoint : Str
  pub metadata : Slice
  pub pki_id : Slice

pub record SecretEnvelope : Type 0 where
  pub payload : Slice
  pub signature : Slice

pub record Envelope : Type 0 where
  pub payload : Slice
  pub signature : Slice
  pub secret_envelope : Option SecretEnvelope

pub record AliveMessage : Type 0 where
  pub membership : Option Member
  pub timestamp : Option PeerTime
  pub identity : Slice

pub record LeadershipMessage : Type 0 where
  pub pki_id : Slice
  pub timestamp : Option PeerTime
  pub is_declaration : Bool

pub record Payload : Type 0 where
  pub seq_num : ℕ
  pub block : Slice
  pub private_data : List Slice

pub record DataMessage : Type 0 where
  pub payload : Option Payload

pub record Chaincode : Type 0 where
  pub name : Str
  pub version : Str
  pub metadata : Slice

pub record Properties : Type 0 where
  pub ledger_height : ℕ
  pub left_channel : Bool
  pub chaincodes : List Chaincode

pub record StateInfo : Type 0 where
  pub timestamp : Option PeerTime
  pub pki_id : Slice
  pub channel_mac : Slice
  pub properties : Option Properties

pub record PeerIdentity : Type 0 where
  pub pki_id : Slice
  pub cert : Slice
  pub metadata : Slice

pub record ConnEstablish : Type 0 where
  pub pki_id : Slice
  pub identity : Slice
  pub tls_cert_hash : Slice

pub data PullMsgType : Type 0 where
  undefined block_msg identity_msg : PullMsgType
  unknown : ℕ → PullMsgType

pub record GossipHello : Type 0 where
  pub nonce : ℕ
  pub metadata : Slice
  pub msg_type : PullMsgType

pub record DataDigest : Type 0 where
  pub nonce : ℕ
  pub digests : List Slice
  pub msg_type : PullMsgType

pub record DataRequest : Type 0 where
  pub nonce : ℕ
  pub digests : List Slice
  pub msg_type : PullMsgType

pub record DataUpdate : Type 0 where
  pub nonce : ℕ
  pub envelopes : List Envelope
  pub msg_type : PullMsgType

pub record MembershipRequest : Type 0 where
  pub self_information : Option Envelope
  pub known : List Slice

pub record MembershipResponse : Type 0 where
  pub alive : List Envelope
  pub dead : List Envelope

pub record StateInfoSnapshot : Type 0 where
  pub elements : List Envelope

pub record RemoteStateRequest : Type 0 where
  pub start_seq_num : ℕ
  pub end_seq_num : ℕ

pub record PvtDataDigest : Type 0 where
  pub tx_id : Str
  pub namespace : Str
  pub collection : Str
  pub block_seq : ℕ
  pub seq_in_block : ℕ

pub record PvtDataElement : Type 0 where
  pub digest : Option PvtDataDigest
  pub payload : List Slice

pub record PrivatePayload : Type 0 where
  pub collection_name : Str
  pub namespace : Str
  pub tx_id : Str
  pub private_rwset : Slice
  pub private_sim_height : ℕ

pub data Tag : Type 0 where
  undefined empty org_only chan_only chan_and_org chan_or_org : Tag
  unknown : ℕ → Tag

-- the `oneof content`
pub data Content : Type 0 where
  not_set : Content
  alive_msg : AliveMessage → Content
  mem_req : MembershipRequest → Content
  mem_res : MembershipResponse → Content
  data_msg : DataMessage → Content
  hello : GossipHello → Content
  data_dig : DataDigest → Content
  data_req : DataRequest → Content
  data_update : DataUpdate → Content
  empty_msg : Content
  conn : ConnEstablish → Content
  state_info : StateInfo → Content
  state_snapshot : StateInfoSnapshot → Content
  -- the channel's MAC
  state_info_pull_req : Slice → Content
  state_request : RemoteStateRequest → Content
  state_response : List Payload → Content
  leadership_msg : LeadershipMessage → Content
  peer_identity : PeerIdentity → Content
  -- the error of an acknowledgement
  ack : Str → Content
  private_req : List PvtDataDigest → Content
  private_res : List PvtDataElement → Content
  private_data : Option PrivatePayload → Content

pub record GossipMessage : Type 0 where
  pub nonce : ℕ
  pub channel : Slice
  pub tag : Tag
  pub content : Content

abbrev pub get_alive_msg : Content → Option AliveMessage
get_alive_msg (alive_msg a) = some a
get_alive_msg _ = none

abbrev pub get_data_msg : Content → Option DataMessage
get_data_msg (data_msg d) = some d
get_data_msg _ = none

abbrev pub get_state_info : Content → Option StateInfo
get_state_info (state_info s) = some s
get_state_info _ = none

abbrev pub get_peer_identity : Content → Option PeerIdentity
get_peer_identity (peer_identity p) = some p
get_peer_identity _ = none

abbrev pub get_leadership_msg : Content → Option LeadershipMessage
get_leadership_msg (leadership_msg l) = some l
get_leadership_msg _ = none

abbrev pub get_hello : Content → Option GossipHello
get_hello (hello h) = some h
get_hello _ = none

abbrev pub get_data_dig : Content → Option DataDigest
get_data_dig (data_dig d) = some d
get_data_dig _ = none

abbrev pub get_data_req : Content → Option DataRequest
get_data_req (data_req r) = some r
get_data_req _ = none

abbrev pub get_data_update : Content → Option DataUpdate
get_data_update (data_update u) = some u
get_data_update _ = none

abbrev pub get_mem_req : Content → Option MembershipRequest
get_mem_req (mem_req r) = some r
get_mem_req _ = none

abbrev pub get_mem_res : Content → Option MembershipResponse
get_mem_res (mem_res r) = some r
get_mem_res _ = none

abbrev pub get_state_snapshot : Content → Option StateInfoSnapshot
get_state_snapshot (state_snapshot s) = some s
get_state_snapshot _ = none

abbrev pub get_state_info_pull_req : Content → Option Slice
get_state_info_pull_req (state_info_pull_req m) = some m
get_state_info_pull_req _ = none

abbrev pub get_state_request : Content → Option RemoteStateRequest
get_state_request (state_request r) = some r
get_state_request _ = none

abbrev pub get_state_response : Content → Option (List Payload)
get_state_response (state_response r) = some r
get_state_response _ = none

abbrev pub get_ack : Content → Option Str
get_ack (ack e) = some e
get_ack _ = none

abbrev pub get_private_req : Content → Option (List PvtDataDigest)
get_private_req (private_req r) = some r
get_private_req _ = none

abbrev pub get_private_res : Content → Option (List PvtDataElement)
get_private_res (private_res r) = some r
get_private_res _ = none

abbrev pub get_private_data : Content → Option (Option PrivatePayload)
get_private_data (private_data d) = some d
get_private_data _ = none
