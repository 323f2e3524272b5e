-- ===== src/Tests/Members.antt =====
-- The discovery service on small states.
use grpc_gossip.Prelude.{
  ◌≡◌, refl, Str, str_eq, true, false, ◌&&◌, none, some, [], ◌∷◌, get, put, has, string_eq, arith,
  if◌then◌else◌,
}
use grpc_gossip.Message.{SignedGossipMessage}
use grpc_gossip.Identity.{IdMapper}
use grpc_gossip.Crypto
use grpc_gossip.Signing
use grpc_gossip.Signing.{to_gossip_message}
use grpc_gossip.Store
use grpc_gossip.Store.{MessageStore}
use grpc_gossip.Discovery.State.{Discovery, Timestamp, check_alive}
use grpc_gossip.Discovery.Membership.{IsValid}
use grpc_gossip.Discovery.Expiry.{check_alive_lem, is_silent, AllKnown}
use grpc_gossip.Discovery.Receiving.{
  Service, Action, handle_msg_from_comm, handle_alive_msg, alive_add,
}
use grpc_gossip.Discovery.Standing.{handle_msg_from_comm-IsValid}
use grpc_gossip.Discovery.Traffic.{alive_msg_once}
use grpc_gossip.Tests.Data.{
  ann, bob, alive, alive_message, member, time, block, proto_of, lenient, peer,
}

abbrev mapper : IdMapper
mapper = record {
  mcs = lenient;
  pki_id_to_cert =
      (
        2 ∷ [],
        record { pki_id = bob; last_access_time = 1; peer_id = bob; expiration_timer = none },
      )
      ∷ [];
  self_pki_id = 1 ∷ [];
}

abbrev heard : Timestamp
heard = record { inc_time = 1; seq_num = 1; last_seen = 3 }

-- Ann's service, which has heard of Bob
abbrev pub ann_service : Discovery
ann_service = record {
  self = peer ann;
  dead_last_ts = [];
  alive_last_ts = (2 ∷ [], heard) ∷ [];
  id_to_member = (2 ∷ [], peer bob) ∷ [];
  alive_membership = (2 ∷ [], alive_message bob 1) ∷ [];
  dead_membership = [];
  id_mapper = mapper;
  to_die = false;
}

pub ann_service-IsValid : IsValid ann_service
unfolding get
ann_service-IsValid = record {
  apart = λ k. ground arith;
  known = λ k h. ground (arith, h);
  members = λ k other h. ground (arith, h);
  alive_same = λ k. ground arith;
  dead_same = λ k. refl;
  announced = (refl, tt);
}

check_alive_example :
    ((k : Str)
      → (get (check_alive 9 5 ann_service).0.alive_last_ts k ≡ (
          if is_silent 9 5 ann_service.alive_last_ts k
          then none
          else get ann_service.alive_last_ts k))
        × (get (check_alive 9 5 ann_service).0.dead_last_ts k ≡ (
            if is_silent 9 5 ann_service.alive_last_ts k && has ann_service.alive_last_ts k
            then get ann_service.alive_last_ts k
            else get ann_service.dead_last_ts k)))
    × ((check_alive 9 5 ann_service).0.id_to_member ≡ ann_service.id_to_member)
    × IsValid (check_alive 9 5 ann_service).0
    × AllKnown (check_alive 9 5 ann_service).1
check_alive_example = check_alive_lem 9 5 ann_service ann_service-IsValid

abbrev empty_store : MessageStore SignedGossipMessage
empty_store = record { messages = []; msg_ttl = 100; expired_count = 0; stopped = false }

abbrev service : Service
service = record { discovery = ann_service; msg_store = empty_store; comm_stopping = false }

-- the service after a newer message of Bob
abbrev updated : Service
updated = record {
  discovery = record ann_service {
    alive_last_ts = (2 ∷ [], record { inc_time = 1; seq_num = 2; last_seen = 9 }) ∷ [];
    id_to_member = (2 ∷ [], peer bob) ∷ [];
    alive_membership = (2 ∷ [], alive_message bob 2) ∷ [];
    id_mapper = record mapper {
      pki_id_to_cert =
          (
            2 ∷ [],
            record { pki_id = bob; last_access_time = 9; peer_id = bob; expiration_timer = none },
          )
          ∷ [];
    };
  };
  msg_store = record empty_store {
    messages = record { item = alive_message bob 2; created = 9; expired = false } ∷ [];
  };
  comm_stopping = false;
}

handled :
    handle_msg_from_comm (proto_of (block 1)) [] 9 (alive_message bob 2) service
    ≡ some (updated, Action.forward (alive_message bob 2) ∷ [])
unfolding handle_msg_from_comm handle_alive_msg Store.add Store.add_loop get put str_eq
    Signing.verify Crypto.verify
handled = refl

handle_msg_from_comm-IsValid_example : IsValid updated.discovery
handle_msg_from_comm-IsValid_example =
    handle_msg_from_comm-IsValid (proto_of (block 1)) [] 9 (alive_message bob 2) service updated
      (Action.forward (alive_message bob 2) ∷ []) ann_service-IsValid handled

abbrev filled : MessageStore SignedGossipMessage
filled = record empty_store {
  messages = record { item = alive_message bob 2; created = 9; expired = false } ∷ [];
}

bob_added : alive_add 9 (alive_message bob 2) empty_store ≡ some (filled, [], true)
unfolding alive_add Store.add Store.add_loop
bob_added = refl

alive_msg_once_example :
    handle_msg_from_comm
      (proto_of (block 1))
      []
      12
      (alive_message bob 2)
      (record updated { discovery = ann_service })
    ≡ some (record updated { discovery = ann_service }, [])
alive_msg_once_example =
    alive_msg_once (proto_of (block 1)) [] 9 12 (alive_message bob 2) (alive bob 2) (member bob)
      (time 2) service updated ann_service refl refl handled
