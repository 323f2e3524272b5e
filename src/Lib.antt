-- ===== src/Lib.antt =====
-- The gossip package of the repository (gossip/*.go): peers that learn of each other, keep a
-- membership, and pass messages on. Messages are signed envelopes of protobuf records. A peer keeps the
-- messages that it has seen in message stores, whose replacing policy says which message makes which
-- out of date. Discovery learns from alive messages who is alive and who is dead; the pull engine asks
-- peers for what they have and this peer has not; the batching emitter and the demultiplexer carry
-- messages out and in; a channel keeps the blocks and the state infos of its members; the identity mapper says which certificate belongs to which PKI-ID.
--
-- Parts and files:
--   Types       the messages of gossip/message.pb.go, the oneof as the data type Content
--   Message     the kinds of messages, IsTagLegal and the comparator (gossip/msg.go)
--   Policy      the interface between a message store and its policy; Message/Replacing fills it
--   Store       MessageStore (gossip/msg.go): Add, CheckValid, Get, Size, Purge, expiry
--   Signing     Sign, NoopSign, Verify, SignSecret, ToGossipMessage (gossip/msg.go)
--   Crypto      NaiveMessageCryptoService (gossip/common.go)
--   Identity    IdMapper (gossip/mapper.go)
--   Random      RandomInt, GetRandomIndices (gossip/common.go)
--   Selecting   SelectPeers and routing filters (gossip/filter.go), Peer (gossip/discovery.go)
--   Sets        Set (gossip/common.go)
--   Emitter     BatchingEmitter (gossip/channel.go)
--   Demux       ChannelDeMultiplexer (gossip/channel.go)
--   Pull        pullEngine and PullMediator (gossip/channel.go): Engine and Mediator hold the code
--   Discovery   GossipDiscovery (gossip/discovery.go): State, Learning and Receiving hold the
--               code, and Announcing what a peer says of itself
--   Comm        acknowledged sends and the store of connections (gossip/communicate.go)
--   Service     GossipService (gossip/gossip.go): Orgs and Disclosure hold the policies on organizations,
--               Validating and Dispatching what handleMessage does with a message, Forwarding and Batches
--               what sendGossipBatch does with a batch of the emitter, Calls what its users call,
--               and Syncing how a membership request goes to several peers (gossip/discovery.go)
--   Channel     GossipChannel, stateInfoCache and ChannelState (gossip/channel.go): State, Cache, Members,
--               Blocks, Receiving, Publishing and Joining hold the code
--   PubSub      PubSub and Subscription (gossip/common.go); Publish is also taken apart into steps, since
--               several publishers may be inside it at once
--   Errors      the errors of the package, and results
--   Prelude     what the modules share; Tests runs the theorems on small states
--
-- Conventions. A method takes the state and returns the new one beside its result and what it calls or
-- sends, as a list of actions. A map is an association list, and a loop over a map takes the order of
-- the list, so that a theorem holds for every order. A time is a number of nanoseconds and the clock an
-- argument. `none` is a panic of the code: a nil pointer that is followed, or an explicit panic; where
-- random draws are an argument it is also the end of the draws, and a theorem says how many are enough.
-- A goroutine or the function of a timer is an action or a step of its own, and histories are lists of
-- such steps in any order.
--
-- Loops over slices and maps are structural recursion. The one loop that need not end by itself is that
-- of GetRandomIndices, which draws until it has enough different numbers; it is recursion over the
-- draws, and ends once they hold enough different numbers. The digits of a block number are written with
-- fuel for 20, which a number of 64 bits never exceeds.
--
-- Not modelled: locks (a method is one step, but for Subscribe, Publish and getConnection, which
-- others may come between; in PubSub and Comm `none` or `waits` is also a wait), the protobuf library
-- (the record Proto of Signing, whose behaviour is a hypothesis where a theorem needs it), the
-- logging, the settings read through viper, the streams and the handshake (gossip/communicate.go), the
-- start of the service, its calls Gossip and JoinChan and its adapters (gossip/gossip.go), the
-- connecting and synchronising of discovery (gossip/discovery.go), and the gRPC wrappers (grpc/).
pub mod Channel
pub mod Comm
pub mod Crypto
pub mod Demux
pub mod Discovery
pub mod Emitter
pub mod Errors
pub mod Identity
pub mod Message
pub mod Policy
pub mod Prelude
pub mod PubSub
pub mod Pull
pub mod Random
pub mod Selecting
pub mod Service
pub mod Sets
pub mod Signing
pub mod Store
pub mod Tests
pub mod Types
