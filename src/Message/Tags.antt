-- ===== src/Message/Tags.antt =====
-- The tag that each kind of message must carry (gossip/msg.go, IsTagLegal).
use grpc_gossip.Prelude.{◌≡◌, ◌↔◌, Option, none, some, arith}
use grpc_gossip.Types.{
  PullMsgType, block_msg, identity_msg, Tag, org_only, chan_and_org, chan_or_org, GossipMessage,
  Content, alive_msg, mem_req, mem_res, data_msg, hello, data_dig, data_req, data_update,
  state_info, state_snapshot, state_info_pull_req, state_request, state_response, leadership_msg,
  peer_identity,
}
use grpc_gossip.Message.{is_tag_legal}

abbrev pub tag_of_pull : PullMsgType → Option Tag
tag_of_pull block_msg = some chan_and_org
tag_of_pull identity_msg = some Tag.empty
tag_of_pull _ = none

-- The one tag that a message of each kind may carry; `none` for kinds that are never legal.
abbrev pub tag_of : Content → Option Tag
tag_of (data_msg _) = some chan_and_org
tag_of (leadership_msg _) = some chan_and_org
tag_of (alive_msg _) = some Tag.empty
tag_of (mem_req _) = some Tag.empty
tag_of (mem_res _) = some Tag.empty
tag_of (peer_identity _) = some org_only
tag_of (hello h) = tag_of_pull h.msg_type
tag_of (data_dig d) = tag_of_pull d.msg_type
tag_of (data_req r) = tag_of_pull r.msg_type
tag_of (data_update u) = tag_of_pull u.msg_type
tag_of (state_info _) = some chan_or_org
tag_of (state_snapshot _) = some chan_or_org
tag_of (state_info_pull_req _) = some chan_or_org
tag_of (state_request _) = some chan_or_org
tag_of (state_response _) = some chan_or_org
tag_of _ = none

legal_of : (m : GossipMessage) → is_tag_legal m ≡ none → tag_of m.content ≡ some m.tag
unfolding is_tag_legal
legal_of m h = ground arith

of_legal : (m : GossipMessage) → tag_of m.content ≡ some m.tag → is_tag_legal m ≡ none
unfolding is_tag_legal
of_legal m h = ground arith

-- A message passes the tag check exactly if it carries the one tag of its kind; a message of any other
-- kind (acknowledgements, connection and private data messages, and pulls of an unknown type) passes
-- with no tag at all.
pub is_tag_legal_iff :
    (m : GossipMessage) → (is_tag_legal m ≡ none) ↔ (tag_of m.content ≡ some m.tag)
is_tag_legal_iff m = (legal_of m, of_legal m)
