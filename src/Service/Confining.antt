-- ===== src/Service/Confining.antt =====
-- Whom the messages of a batch reach (gossip/gossip.go: sendGossipBatch, gossipInChan, removeSelfLoop).
use mathlib.Core.List.{Memᴰ}
use grpc_gossip.Prelude.{
  ◌>>=◌, Bool-cases, All-map, ℕ, ℤ, ◌+◌, ◌≡◌, refl, Slice, string_of, str_eq_iff, bytes_equal, Bool,
  true, false, not, ◌&&◌, ◌||◌, is_some, Option, none, some, List, [], ◌∷◌, ◌++◌, map, All,
  All-append, Holds, Holds-some, Holds-bind, choose, arith, Option-cases, inl, inr, if◌then◌else◌,
}
use grpc_gossip.Types.{
  StateInfo, Member, AliveMessage, get_data_msg, get_leadership_msg, get_state_info, get_alive_msg,
}
use grpc_gossip.Message.{SignedGossipMessage, is_org_restricted}
use grpc_gossip.Selecting.{
  Peer, RemotePeer, RoutingFilter, remote, select_peers, combine_routing_filters,
}
use grpc_gossip.Selecting.Passing.{select_peers-All}
use grpc_gossip.Discovery.State.{alive_of}
use grpc_gossip.Channel.State.{Env, GossipChannel}
use grpc_gossip.Channel.Members.{eligible_for_channel, is_member_in_chan}
use grpc_gossip.Channel.Joining.{
  ChannelState, get_gossip_channel_by_chain_id, lookup_channel_for_gossip_msg,
}
use grpc_gossip.Service.Orgs.{
  has_external_endpoint, is_in_my_org, peers_by_origin_org_policy, strip_message,
}
use grpc_gossip.Service.Forwarding.{remove_self_loop, send_alive}
use grpc_gossip.Service.Passing.{Unaltered, strip-Unaltered}
use grpc_gossip.Service.Parting.{
  partition-All, Parts, partition_checked-All, remove_self_loop-All, All-Mem,
}
use grpc_gossip.Service.Batches.{
  Emitted, Sent, is_a_block, is_leadership, is_a_state_info, grabs, partition_checked, to_all,
  to_channel, gossip_channels, total_channels, gossip_in_chan, in_channel_and_org, in_my_org,
  passes, state_info_selector, send_state_infos, is_hidden, stays_in_org, singly, alive_selector,
  send_alives, send_rest, send_parts, send_gossip_batch,
}

module _ (env : Env) (cs : ChannelState) where
  abbrev in_joined : Option GossipChannel → Peer → Bool
  in_joined none q = false
  in_joined (some gc) q =
      eligible_for_channel env gc q && is_member_in_chan env gc q && in_my_org env q

  abbrev in_found : Option StateInfo → Option GossipChannel → Peer → Bool
  in_found (some si) (some gc) q =
      if has_external_endpoint env.orgs si.pki_id
      then is_member_in_chan env gc q
      else is_in_my_org env.orgs q.pki_id
  in_found _ _ q = is_in_my_org env.orgs q.pki_id

  -- who may get a message: of a block or a leadership message, the eligible members of its channel in this
  -- peer's organization; of a state info, the members of its channel, if this peer has joined it and the
  -- peer it is of has an external endpoint, and otherwise this organization; of a hidden or restricted
  -- one, this organization; of any other alive message, whom its organization allows, if it is of this
  -- organization or the receiver has an external endpoint
  abbrev pub permits : SignedGossipMessage → Peer → Bool
  permits m q =
      if is_some (get_data_msg m.message.content) || is_some (get_leadership_msg m.message.content)
      then in_joined (get_gossip_channel_by_chain_id cs m.message.channel) q
      else if is_some (get_state_info m.message.content)
      then in_found (get_state_info m.message.content)
          (lookup_channel_for_gossip_msg env.sha256 cs m.message) q
      else elim (alive_of m) [
        | none ↦ is_in_my_org env.orgs q.pki_id
        | some (am, mem) ↦
            if is_hidden env mem || is_org_restricted m.message
            then is_in_my_org env.orgs q.pki_id
            else peers_by_origin_org_policy env.orgs mem.pki_id q
              && (is_in_my_org env.orgs mem.pki_id || has_external_endpoint env.orgs q.pki_id)
      ]

module _ (env : Env) (cs : ChannelState) (membership : List Peer) (R : Emitted → Type 0) where
  abbrev pub Allowed : Emitted → RemotePeer → Type 0
  Allowed e p =
      ((q : Peer) × Memᴰ q membership × (p ≡ remote q) × (permits env cs e.message q ≡ true))
      × (e.filter p.pki_id ≡ true)

  -- the message is one of the emitted, at most without its secret, and each of the peers may get it
  abbrev pub Proper : Sent → Type 0
  Proper (m, peers) = (e : Emitted) × R e × Unaltered e.message m × All (Allowed e) peers

  abbrev Kept : ℕ × List Sent → Type 0
  Kept (i, sent) = All Proper sent

  abbrev Fits : (Peer → Bool) → Emitted → Type 0
  Fits f e = R e × ((q : Peer) → f q ≡ true → permits env cs e.message q ≡ true)

  abbrev From : (Peer → Bool) → RemotePeer → Type 0
  From f p = (q : Peer) × Memᴰ q membership × (p ≡ remote q) × (f q ≡ true)

  selected :
      (f : RoutingFilter) (k : ℤ) (perm : List ℕ)
      → Holds (All (From f)) (select_peers k membership f perm)
  selected f = select_peers-All (From f) f membership (λ q known passed. (q, known, refl, passed))

  allowed :
      (f : RoutingFilter) (e : Emitted) (peers : List RemotePeer)
      → Fits f e
      → All (λ p. From f p × (e.filter p.pki_id ≡ true)) peers
      → All (Allowed e) peers
  allowed f e [] fits h = tt
  allowed f e (p ∷ peers) fits (((q, known, same, passed), b), h) =
      (((q, known, same, fits.1 q passed), b), allowed f e peers fits h)

  -- peers that were selected by a filter with the message's own in it
  own :
      (f : RoutingFilter) (e : Emitted) (peers : List RemotePeer)
      → Fits f e
      → ((q : Peer) → f q ≡ true → e.filter q.pki_id ≡ true)
      → All (From f) peers
      → All (Allowed e) peers
  own f e [] fits other h = tt
  own f e (p ∷ peers) fits other ((q, known, same, passed), h) = (
    ((q, known, same, fits.1 q passed), ground (arith, same, other q passed)),
    own f e peers fits other h,
  )

  to_all-Proper :
      (f : RoutingFilter) (peers : List RemotePeer) (es : List Emitted)
      → All (From f) peers
      → All (Fits f) es
      → All Proper (map (to_all peers) es)
  to_all-Proper f peers [] from h = tt
  to_all-Proper f peers (e ∷ es) from h = (
    (
      e,
      h.0.0,
      (refl, inl refl),
      allowed f e (remove_self_loop e.filter peers) h.0
          (remove_self_loop-All (From f) e.filter peers from),
    ),
    to_all-Proper f peers es from h.1,
  )

  channel_found :
      (e : Emitted) (c : Slice)
      → bytes_equal e.message.message.channel c ≡ true
      → get_gossip_channel_by_chain_id cs c
        ≡ get_gossip_channel_by_chain_id cs e.message.message.channel
  unfolding get_gossip_channel_by_chain_id
  channel_found e c same =
      ground (arith, same, str_eq_iff (string_of e.message.message.channel) (string_of c))

  abbrev InChannel : Emitted → Type 0
  InChannel e = R e × ((is_a_block e || is_leadership e) ≡ true)

  grabbed-Fits :
      (c : Slice) (gc : GossipChannel) (e : Emitted)
      → get_gossip_channel_by_chain_id cs c ≡ some gc
      → InChannel e × (grabs c e ≡ true)
      → Fits (in_channel_and_org env gc) e
  unfolding combine_routing_filters
  grabbed-Fits c gc e joined ((r, kind), same) =
      (r, (λ q passed. ground (arith, kind, channel_found e c same, joined, passed)))

  module _ (propagate_peer_num : ℤ) (perms : ℕ → List ℕ) where
    to_channel-Proper :
        (c : Slice) (i : ℕ) (es : List Emitted)
        → All (λ e. InChannel e × (grabs c e ≡ true)) es
        → Holds Kept
            (to_channel env cs membership propagate_peer_num perms (in_channel_and_org env) c i es)
    unfolding to_channel
    to_channel-Proper c i [] h = tt
    to_channel-Proper c i (m ∷ ms) h = elim (Option-cases (get_gossip_channel_by_chain_id cs c)) [
      | inl unknown ↦ rw (to_channel, unknown) tt
      | inr (gc, joined) ↦
          rw (to_channel, joined)
            (Holds-bind Kept (select_peers _ membership (in_channel_and_org env gc) (perms i)) _
              (λ peers done.
                to_all-Proper (in_channel_and_org env gc) peers (m ∷ ms)
                  (Holds-some (All (From (in_channel_and_org env gc))) _ peers
                    (selected _ _ (perms i)) done)
                  (All-map _ (Fits (in_channel_and_org env gc)) (m ∷ ms)
                    (λ e. grabbed-Fits c gc e joined) h)))
    ]

    gossip_channels-Proper :
        (channels : List Slice) (i : ℕ) (es : List Emitted)
        → All InChannel es
        → Holds Kept (
            gossip_channels env cs membership propagate_peer_num perms
              (in_channel_and_org env)
              channels
              i
              es)
    unfolding gossip_channels
    gossip_channels-Proper [] i es h = tt
    gossip_channels-Proper (c ∷ channels) i es h =
        let (mine, others) = partition-All InChannel (grabs c) es h in
        Holds-bind Kept
          (to_channel env cs membership propagate_peer_num perms (in_channel_and_org env) c i _) _
          (λ (j, sent) done.
            Holds-bind Kept
              (gossip_channels env cs membership propagate_peer_num perms (in_channel_and_org env)
                channels j _)
              _
              (λ (k, more) then'.
                All-append Proper sent more
                  (Holds-some Kept _ (j, sent) (to_channel-Proper c i _ mine) done)
                  (Holds-some Kept _ (k, more)
                    (gossip_channels-Proper channels j _
                      (All-map _ InChannel _ (λ e. λ (x, y). x) others))
                    then')))

    gossip_in_chan-Proper :
        (i : ℕ) (es : List Emitted)
        → All InChannel es
        → Holds Kept (
            gossip_in_chan env cs membership propagate_peer_num perms (in_channel_and_org env) i es)
    unfolding gossip_in_chan
    gossip_in_chan-Proper i [] h = tt
    gossip_in_chan-Proper i (m ∷ ms) h =
        gossip_channels-Proper (total_channels (m ∷ ms) []) i (m ∷ ms) h

    -- a peer that the message's own filter turns away is not selected
    own_passes :
        (f : RoutingFilter) (e : Emitted) (q : Peer)
        → combine_routing_filters (f ∷ passes e.filter ∷ []) q ≡ true
        → e.filter q.pki_id ≡ true
    unfolding combine_routing_filters
    own_passes f e q passed = ground (arith, passed)

    abbrev IsInfo : Emitted → Type 0
    IsInfo e = R e × ((is_a_block e || is_leadership e) ≡ false) × (is_a_state_info e ≡ true)

    info-Fits :
        (e : Emitted) (si : StateInfo)
        → get_state_info e.message.message.content ≡ some si
        → IsInfo e
        → Fits (combine_routing_filters (state_info_selector env cs e si ∷ passes e.filter ∷ [])) e
    unfolding combine_routing_filters state_info_selector
    info-Fits e si found (r, kind, info) = (
      r,
      λ q passed.
          elim (Option-cases (lookup_channel_for_gossip_msg env.sha256 cs e.message.message)) [
            | inl unknown ↦ ground (arith, kind, found, unknown, passed)
            | inr (gc, joined) ↦ ground (arith, kind, found, joined, passed)
          ],
    )

    infos-Proper :
        (i : ℕ) (es : List Emitted)
        → All IsInfo es
        → Holds Kept (send_state_infos env cs membership propagate_peer_num perms i es)
    unfolding send_state_infos
    infos-Proper i [] h = tt
    infos-Proper i (m ∷ ms) h =
        Holds-bind Kept (get_state_info m.message.message.content) _ (λ si found.
          Holds-bind Kept (select_peers _ membership _ (perms i)) _ (λ peers done.
            Holds-bind Kept (send_state_infos env cs membership propagate_peer_num perms (i + 1) ms)
              _
              (λ (j, sent) then'.
                let f =
                  combine_routing_filters
                    (state_info_selector env cs m si ∷ passes m.filter ∷ []) in
                (
                  (
                    m,
                    (info-Fits m si found h.0).0,
                    (refl, inl refl),
                    own f m peers (info-Fits m si found h.0)
                        (own_passes (state_info_selector env cs m si) m)
                        (Holds-some (All (From f)) _ peers (selected f _ (perms i)) done),
                  ),
                  Holds-some Kept _ (j, sent) (infos-Proper (i + 1) ms h.1) then',
                ))))

    abbrev IsOther : Emitted → Type 0
    IsOther e = R e × ((is_a_block e || is_leadership e) ≡ false) × (is_a_state_info e ≡ false)

    restricted-Fits :
        (e : Emitted) → IsOther e × (stays_in_org env e ≡ some true) → Fits (in_my_org env) e
    unfolding stays_in_org
    restricted-Fits e ((r, kind, other), stays) = (
      r,
      λ q passed. elim (Option-cases (get_alive_msg e.message.message.content)) [
        | inl no_alive ↦ ground (arith, kind, other, no_alive, stays, passed)
        | inr (am, is_alive) ↦ elim (Option-cases am.membership) [
          | inl bare ↦ absurd (ground (arith, is_alive, bare, stays))
          | inr (mem, known) ↦ ground (arith, kind, other, is_alive, known, stays, passed)
        ]
      ],
    )

    -- an alive message's selection and the guard of the loop that sends it
    alive-permits :
        (e : Emitted) (am : AliveMessage) (mem : Member)
        → alive_of e.message ≡ some (am, mem)
        → IsOther e × (stays_in_org env e ≡ some false)
        → (q : Peer) → alive_selector env e mem q ≡ true
        → (not (is_in_my_org env.orgs mem.pki_id) && not (has_external_endpoint env.orgs q.pki_id))
          ≡ false
        → permits env cs e.message q ≡ true
    unfolding stays_in_org combine_routing_filters
    alive-permits e am mem a ((r, kind, other), stays) q passed near =
        elim (Option-cases (get_alive_msg e.message.message.content)) [
          | inl no_alive ↦ absurd (ground (arith, no_alive, a))
          | inr (am', is_alive) ↦ elim (Option-cases am'.membership) [
            | inl bare ↦ absurd (ground (arith, is_alive, bare, stays))
            | inr (mem', known) ↦
                ground (arith, kind, other, a, is_alive, known, stays, passed, near)
          ]
        ]

    abbrev Delivered :
        Emitted → SignedGossipMessage × List (SignedGossipMessage × RemotePeer) → Type 0
    Delivered e (left, sent) = All (λ (m, p). Unaltered e.message m × Allowed e p) sent

    module _ (e : Emitted) (foreign : Bool) (A : RemotePeer → Type 0)
        (near : (p : RemotePeer)
          → A p
          → (foreign && not (has_external_endpoint env.orgs p.pki_id)) ≡ false
          → Allowed e p) where
      sent_on-Delivered :
          (m : SignedGossipMessage) (p : RemotePeer) (peers : List RemotePeer)
          → Unaltered e.message m
          → Allowed e p
          → Holds (Delivered e) (send_alive env.orgs foreign peers m)
          → Holds
              (Delivered e)
              (send_alive env.orgs foreign peers m >>= λ (left, sent). some (left, (m, p) ∷ sent))
      sent_on-Delivered m p peers same ok' h =
          Holds-bind (Delivered e) (send_alive env.orgs foreign peers m) _
            (λ (left, sent) done. ((same, ok'), Holds-some (Delivered e) _ (left, sent) h done))

      send_alive-Delivered :
          (peers : List RemotePeer) (m : SignedGossipMessage)
          → Unaltered e.message m
          → All A peers
          → Holds (Delivered e) (send_alive env.orgs foreign peers m)
      unfolding send_alive
      send_alive-Delivered [] m same h = tt
      send_alive-Delivered (p ∷ peers) m same h =
          elim (Bool-cases (foreign && not (has_external_endpoint env.orgs p.pki_id))) [
            | inl far ↦ rw (send_alive, far) (send_alive-Delivered peers m same h.1)
            | inr close ↦
                rw (send_alive, close)
                  (choose (Holds (Delivered e)) (not (is_in_my_org env.orgs p.pki_id)) _ _
                    (Holds-bind (Delivered e) m.envelope _ (λ env' sealed.
                      let bare = strip-Unaltered e.message m env' same sealed in
                      sent_on-Delivered (strip_message m env') p peers bare (near p h.0 close)
                        (send_alive-Delivered peers (strip_message m env') bare h.1)))
                    (sent_on-Delivered m p peers same (near p h.0 close)
                      (send_alive-Delivered peers m same h.1)))
          ]

    singly-Proper :
        (e : Emitted) (sent : List (SignedGossipMessage × RemotePeer))
        → R e
        → All (λ (m, p). Unaltered e.message m × Allowed e p) sent
        → All Proper (map singly sent)
    singly-Proper e [] r h = tt
    singly-Proper e ((m, p) ∷ sent) r ((same, ok'), h) =
        ((e, r, same, (ok', tt)), singly-Proper e sent r h)

    alive-Allowed :
        (e : Emitted) (am : AliveMessage) (mem : Member)
        → alive_of e.message ≡ some (am, mem)
        → IsOther e × (stays_in_org env e ≡ some false)
        → (p : RemotePeer) → From (alive_selector env e mem) p
        → (not (is_in_my_org env.orgs mem.pki_id) && not (has_external_endpoint env.orgs p.pki_id))
          ≡ false
        → Allowed e p
    alive-Allowed e am mem a other p (q, known, same, passed) near =
        let close : (not (is_in_my_org env.orgs mem.pki_id)
              && not (has_external_endpoint env.orgs q.pki_id))
            ≡ false =
          rw same at near in
        (
          (q, known, same, alive-permits e am mem a other q passed close),
          ground
              (arith, same, own_passes (peers_by_origin_org_policy env.orgs mem.pki_id) e q passed),
        )

    alives-Proper :
        (i : ℕ) (es : List Emitted)
        → All (λ e. IsOther e × (stays_in_org env e ≡ some false)) es
        → Holds Kept (send_alives env cs membership propagate_peer_num perms i es)
    unfolding send_alives
    alives-Proper i [] h = tt
    alives-Proper i (e ∷ es) h =
        choose (Holds Kept) (not (is_some (get_alive_msg e.message.message.content))) _ _
          (alives-Proper i es h.1)
          (Holds-bind Kept (alive_of e.message) _ (λ (am, mem) a.
            Holds-bind Kept (select_peers _ membership _ (perms i)) _ (λ peers done.
              Holds-bind Kept
                (send_alive env.orgs (not (is_in_my_org env.orgs mem.pki_id)) peers e.message) _
                (λ (left, sent) went.
                  Holds-bind Kept
                    (send_alives env cs membership propagate_peer_num perms (i + 1) es) _
                    (λ (j, more) then'.
                      let f = alive_selector env e mem in
                      All-append Proper (map singly sent) more
                        (singly-Proper e sent h.0.0.0 (
                          Holds-some (Delivered e) _ (left, sent)
                            (send_alive-Delivered e (not (is_in_my_org env.orgs mem.pki_id))
                              (From f) (alive-Allowed e am mem a h.0) peers e.message
                              (refl, inl refl)
                              (Holds-some (All (From f)) _ peers (selected f _ (perms i)) done))
                            went))
                        (Holds-some Kept _ (j, more) (alives-Proper (i + 1) es h.1) then'))))))

    rest-Proper :
        (i : ℕ) (es : List Emitted)
        → All IsOther es
        → Holds Kept (send_rest env cs membership propagate_peer_num perms i es)
    unfolding send_rest
    rest-Proper i es h =
        Holds-bind Kept (partition_checked (stays_in_org env) es) _ (λ (org_msgs, msgs) parted.
          let (staying, going) =
            Holds-some (Parts IsOther (stays_in_org env)) _ (org_msgs, msgs)
              (partition_checked-All IsOther (stays_in_org env) es h) parted in
          Holds-bind Kept (select_peers _ membership (in_my_org env) (perms i)) _ (λ peers done.
            Holds-bind Kept (send_alives env cs membership propagate_peer_num perms (i + 1) msgs) _
              (λ (j, sent) then'.
                All-append Proper (map (to_all peers) org_msgs) sent
                  (to_all-Proper (in_my_org env) peers org_msgs
                    (Holds-some (All (From (in_my_org env))) _ peers (selected _ _ (perms i)) done)
                    (All-map _ (Fits (in_my_org env)) org_msgs restricted-Fits staying))
                  (Holds-some Kept _ (j, sent) (alives-Proper (i + 1) msgs going) then'))))

    parts-Proper :
        (blocks leaders infos msgs : List Emitted)
        → All InChannel blocks
        → All InChannel leaders
        → All IsInfo infos
        → All IsOther msgs
        → Holds Kept
            (send_parts env cs membership propagate_peer_num perms blocks leaders infos msgs)
    unfolding send_parts
    parts-Proper blocks leaders infos msgs b l' f o =
        Holds-bind Kept
          (gossip_in_chan env cs membership propagate_peer_num perms (in_channel_and_org env) 0
            blocks)
          _
          (λ (i, s1) d1.
            Holds-bind Kept
              (gossip_in_chan env cs membership propagate_peer_num perms (in_channel_and_org env) i
                leaders)
              _
              (λ (j, s2) d2.
                Holds-bind Kept
                  (send_state_infos env cs membership propagate_peer_num perms j infos) _
                  (λ (k, s3) d3.
                    Holds-bind Kept (send_rest env cs membership propagate_peer_num perms k msgs) _
                      (λ (l, s4) d4.
                        All-append Proper s1 (s2 ++ (s3 ++ s4))
                          (Holds-some Kept _ (i, s1) (gossip_in_chan-Proper 0 blocks b) d1)
                          (All-append Proper s2 (s3 ++ s4)
                            (Holds-some Kept _ (j, s2) (gossip_in_chan-Proper i leaders l') d2)
                            (All-append Proper s3 s4
                              (Holds-some Kept _ (k, s3) (infos-Proper j infos f) d3)
                              (Holds-some Kept _ (l, s4) (rest-Proper k msgs o) d4)))))))

    batch-Proper :
        (a : List Emitted)
        → All R a
        → Holds Kept (send_gossip_batch env cs membership propagate_peer_num perms a)
    unfolding send_gossip_batch
    batch-Proper a h =
        let (blocks, no_blocks) = partition-All R is_a_block a h in
        let (leaders, no_leaders) = partition-All _ is_leadership _ no_blocks in
        let (infos, msgs) = partition-All _ is_a_state_info _ no_leaders in
        parts-Proper _ _ _ _ (All-map _ InChannel _ (λ e (r, b). (r, ground (arith, b))) blocks)
          (All-map _ InChannel _ (λ e ((r, b), l'). (r, ground (arith, b, l'))) leaders)
          (All-map _ IsInfo _ (λ e (((r, b), l'), x). (r, ground (arith, b, l'), x)) infos)
          (All-map _ IsOther _ (λ e (((r, b), l'), x). (r, ground (arith, b, l'), x)) msgs)

-- Whatever permutations are drawn, a batch reaches only those whom it may reach. What is sent is a
-- message of the batch as it was emitted, with its payload and its signature, or the same without its
-- secret envelope. Each peer that it goes to is one of the membership that the message's own filter
-- passes and that `permits` allows: for a block or a leadership message an eligible member of the joined
-- channel in this organization; for a state info a member of its channel, if that is joined and the
-- peer it is of has an external endpoint, and otherwise a peer of this organization; for a message that
-- is restricted to this organization, and an alive message of one of its hidden peers, a peer of this
-- organization; and for any other alive message one that its organization allows, which has an
-- external endpoint if the message is of another organization.
pub batch_confined :
    (env : Env) (cs : ChannelState) (membership : List Peer) (propagate_peer_num : ℤ)
    (perms : ℕ → List ℕ) (a : List Emitted) (n : ℕ) (sent : List Sent)
    → send_gossip_batch env cs membership propagate_peer_num perms a ≡ some (n, sent)
    → All (Proper env cs membership (λ e. Memᴰ e a)) sent
batch_confined env cs membership propagate_peer_num perms a n sent e =
    Holds-some _ _ (n, sent)
      (batch-Proper env cs membership (λ e. Memᴰ e a) propagate_peer_num perms a (All-Mem a)) e
