-- ===== src/Tests/Pulling.antt =====
-- The pull mediator on small states.
use grpc_gossip.Prelude.{
  ◌≡◌, refl, Str, str_eq, nil, bytes, string_of, true, false, some, List, [], ◌∷◌, map, count,
  filter, All, Map, put, string_eq, arith,
}
use grpc_gossip.Types.{DataRequest, hello, data_req, block_msg, chan_and_org}
use grpc_gossip.Message.{is_pull_msg, get_pull_msg_type}
use grpc_gossip.Sets
use grpc_gossip.Pull.Engine.{PullEngine, string, new_pull_engine, request_mapping}
use grpc_gossip.Pull.Mediator.{
  PullMediator, Received, Action, handle_message, handle_content, envelopes_of,
}
use grpc_gossip.Pull.Safety.{IsValid}
use grpc_gossip.Pull.Histories.{Event, added, received, pull_started, run, step, Valid}
use grpc_gossip.Pull.Runs.{handle_message-total}
use grpc_gossip.Pull.Requests.{request_mapping_lem, asked, Owned}
use grpc_gossip.Pull.Answers.{data_req_lem, data_of, granted}
use grpc_gossip.Tests.Data.{ann, bob, block, message, peer, proto_of}

-- a mediator for blocks, which are named by one letter
abbrev mediator : PullEngine → PullMediator
mediator e = record {
  config = record {
    channel = ann;
    peer_count_to_select = 1;
    tag = chan_and_org;
    msg_type = block_msg;
  };
  adapter = record {
    id_extractor = λ _. 98 ∷ [];
    egress_dig_filter = λ _ _. true;
    ingress_dig_filter = λ d. d;
  };
  proto = proto_of (block 3);
  item_id_to_msg = (98 ∷ [], block 3) ∷ [];
  engine = e;
}

-- in a round of pulling, in which two peers were greeted and one has said hello
abbrev pulling : PullEngine
pulling = record {
  stop_flag = false;
  state = string (98 ∷ []) ∷ [];
  item2owners = (99 ∷ [], (1 ∷ []) ∷ (2 ∷ []) ∷ []) ∷ (100 ∷ [], (2 ∷ []) ∷ []) ∷ [];
  peers2nonces = (1 ∷ [], 11) ∷ (2 ∷ [], 12) ∷ [];
  nonces2peers = (11, 1 ∷ []) ∷ (12, 2 ∷ []) ∷ [];
  accepting_digests = true;
  accepting_responses = false;
  outgoing_nonces = 11 ∷ 12 ∷ [];
  incoming_nonces = 4 ∷ [];
}

pulling-IsValid : IsValid pulling
pulling-IsValid = record { strings = (tt, tt); owned = (tt, (tt, tt)) }

abbrev greeting : Received
greeting = record {
  signed = some (message (hello (record { nonce = 4; metadata = nil; msg_type = block_msg })));
  sender = bob;
}

abbrev events : List Event
events = added (block 3) ∷ received greeting ∷ pull_started (peer ann ∷ []) [] (11 ∷ []) ∷ []

-- what the events leave
abbrev pulled : PullMediator
pulled = record (mediator new_pull_engine) {
  engine = record new_pull_engine {
    state = string (98 ∷ []) ∷ [];
    peers2nonces = (1 ∷ [], 11) ∷ [];
    nonces2peers = (11, 1 ∷ []) ∷ [];
    accepting_digests = true;
    outgoing_nonces = 11 ∷ [];
    incoming_nonces = 4 ∷ [];
  };
}

ran : run events (mediator new_pull_engine) ≡ some pulled
unfolding run step is_pull_msg get_pull_msg_type handle_content Sets.add put str_eq
ran = refl

handle_message-total_example :
    (q' : PullMediator) × (actions : List Action) × (handle_message greeting pulled
      ≡ some (q', actions))
    × Valid q'
handle_message-total_example =
    handle_message-total events (mediator new_pull_engine) pulled greeting refl ran

request_mapping_example :
    (requests : Map Str (List Str)) × (request_mapping pulling.item2owners (5 ∷ 6 ∷ [])
      ≡ some requests)
    × ((n : Str) → asked n requests ≡ count (str_eq n) (map (λ o. o.0) pulling.item2owners))
    × All (Owned pulling.item2owners) requests
request_mapping_example =
    request_mapping_lem pulling.item2owners (5 ∷ 6 ∷ []) (tt, (tt, tt))
      (omega arith, (omega arith, tt)) (omega arith)

abbrev asking : DataRequest
asking = record {
  nonce = 4;
  digests = bytes (98 ∷ []) ∷ bytes (99 ∷ []) ∷ [];
  msg_type = block_msg;
}

data_req_example :
    (actions : List Action) × (handle_content greeting (mediator pulling) (data_req asking)
      ≡ some (mediator pulling, actions))
    × (data_of actions
        ≡ envelopes_of
            (mediator pulling).item_id_to_msg
            (filter (granted (mediator pulling) greeting 4) (map string_of asking.digests)))
data_req_example = data_req_lem greeting (mediator pulling) asking
