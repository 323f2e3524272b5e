-- ===== src/Discovery/Heartbeat.antt =====
-- The alive messages of a peer, one after the other (gossip/discovery.go, periodicalSendAlive), and
-- what they do where they arrive.
use grpc_gossip.Prelude.{
  ℕ, zero, suc, ◌+◌, ◌^◌, ◌%◌, ltb, ◌<◌, ◌≡◌, string_of, str_eq_refl, true, Option, none, some,
  ◌>>=◌, string_eq, All, AllPairs, All-map, arith, Option-cases, Bool-cases, inl, inr,
}
use grpc_gossip.Errors.{Result-cases}
use grpc_gossip.Types.{PeerTime, Member, AliveMessage, get_alive_msg}
use grpc_gossip.Policy.{invalidates}
use grpc_gossip.Message.{
  SignedGossipMessage, invalidation_policy, alive_invalidation_policy, compare_timestamps,
}
use grpc_gossip.Signing.{Proto, seal}
use grpc_gossip.Crypto
use grpc_gossip.Discovery.State.{before, stamp, alive_of}
use grpc_gossip.Discovery.Announcing.{
  Announcer, bare_alive, counted, self_member, with_identity, create_signed_alive_message,
  alive_msg_and_internal_endpoint, sign_message, send_alive_turn, send_alive_loop,
}

-- what a message says of its sender, and when
abbrev pub says : SignedGossipMessage → Option (Member × PeerTime)
says m = alive_of m >>= λ (am, mem). am.timestamp >>= λ t. some (mem, t)

abbrev pub time_at : Announcer → ℕ → PeerTime
time_at a n = record { inc_num = a.inc_time; seq_num = n }

-- the state after the turn that sends m
abbrev next : Announcer → SignedGossipMessage → Announcer
next a m = record a { seq_num = a.seq_num + 1; self_alive_message = some m }

turn_lem :
    (proto : Proto) (now : ℕ) (a : Announcer) (m : SignedGossipMessage)
    → a.seq_num + 1 < 2 ^ 64
    → (send_alive_turn proto now a).1 ≡ some m
    → (says m ≡ some (self_member a, time_at a (a.seq_num + 1)))
      × ((send_alive_turn proto now a).0 ≡ next a m)
unfolding send_alive_turn create_signed_alive_message alive_msg_and_internal_endpoint sign_message
turn_lem proto now a m h sent =
    let counts : (a.seq_num + 1) % 2 ^ 64 ≡ a.seq_num + 1 = omega (arith, h) in
    elim (Bool-cases (ltb now a.include_id_period)) [
      | inl early ↦
          elim (Result-cases (
            seal proto Crypto.sign (record {
              envelope = none;
              message = with_identity now (counted a) (bare_alive (counted a));
            }))) [
              | inl (e, signed) ↦ ground (arith, early, signed, sent, counts)
              | inr (x, failed) ↦ absurd (ground (arith, early, failed, sent))
            ]
      | inr late ↦
          elim (Result-cases (
            seal proto Crypto.sign
              (record { envelope = none; message = bare_alive (counted a) }))) [
                | inl (e, signed) ↦ ground (arith, late, signed, sent, counts)
                | inr (x, failed) ↦ absurd (ground (arith, late, failed, sent))
              ]
    ]

-- two messages of one member, the second of a later time: it replaces the first in the stores, and it
-- is news to those who have taken the first
abbrev pub Later : SignedGossipMessage → SignedGossipMessage → Type 0
Later m m' =
    (mem : Member) × (t : PeerTime) × (t' : PeerTime) × (says m ≡ some (mem, t))
    × (says m' ≡ some (mem, t'))
    × ((seen : ℕ) → before (stamp seen t) t' ≡ true)
    × ((size : ℕ) → invalidation_policy size m' m ≡ some invalidates)

-- the message says that it is of a member, at a time of its incarnation after the n-th
abbrev Since : Member → ℕ → ℕ → SignedGossipMessage → Type 0
Since mem inc n m = (k : ℕ) × (says m ≡ some (mem, record { inc_num = inc; seq_num = k })) × (n < k)

-- the alive message that says it
says-alive :
    (m : SignedGossipMessage) (mem : Member) (t : PeerTime)
    → says m ≡ some (mem, t)
    → (am : AliveMessage) × (get_alive_msg m.message.content ≡ some am)
      × (am.membership ≡ some mem)
      × (am.timestamp ≡ some t)
says-alive m mem t h = elim (Option-cases (get_alive_msg m.message.content)) [
  | inl other ↦ absurd (ground (arith, other, h))
  | inr (am, alive) ↦ elim (Option-cases am.membership) [
    | inl bare ↦ absurd (ground (arith, alive, bare, h))
    | inr (mem', known) ↦ elim (Option-cases am.timestamp) [
      | inl untimed ↦ absurd (ground (arith, alive, known, untimed, h))
      | inr (t', timed) ↦ (
        am,
        alive,
        ground (arith, alive, known, timed, h),
        ground (arith, alive, known, timed, h),
      )
    ]
  ]
]

turns-Later :
    (mem : Member) (inc j k : ℕ) (m m' : SignedGossipMessage)
    → says m ≡ some (mem, record { inc_num = inc; seq_num = j })
    → says m' ≡ some (mem, record { inc_num = inc; seq_num = k })
    → j < k
    → Later m m'
unfolding before invalidation_policy alive_invalidation_policy compare_timestamps
turns-Later mem inc j k m m' a b h = (
  mem,
  record { inc_num = inc; seq_num = j },
  record { inc_num = inc; seq_num = k },
  a,
  b,
  (λ seen. ground arith),
  (λ size.
      let (x, x_alive, x_member, x_time) = says-alive m mem _ a in
      let (y, y_alive, y_member, y_time) = says-alive m' mem _ b in
      ground (
        arith,
        x_alive,
        x_member,
        x_time,
        y_alive,
        y_member,
        y_time,
        str_eq_refl (string_of mem.pki_id),
      )),
)

module _ (proto : Proto) (clock : ℕ → ℕ) where
  loop-Since :
      (i n : ℕ) (a : Announcer)
      → a.seq_num + n < 2 ^ 64
      → All (Since (self_member a) a.inc_time a.seq_num) (send_alive_loop proto clock i n a)
  unfolding send_alive_loop
  loop-Since i zero a h = tt
  loop-Since i (suc n) a h = elim (Option-cases (send_alive_turn proto (clock i) a).1) [
    | inl ended ↦ rw (send_alive_loop, ended) tt
    | inr (m, sent) ↦
        let (said, state) = turn_lem proto (clock i) a m (omega arith) sent in
        rw (send_alive_loop, sent)
          (
            (a.seq_num + 1, said, omega arith),
            rw state (
                All-map (Since (self_member a) a.inc_time (a.seq_num + 1))
                  (Since (self_member a) a.inc_time a.seq_num) _
                  (λ m' (k, says', later). (k, says', omega (arith, later)))
                  (loop-Since (i + 1) n (next a m) (omega arith))),
          )
  ]

  -- Of the messages that a peer gossips in n turns of periodicalSendAlive, whatever the clock shows at each,
  -- every later one replaces every earlier one in the message stores and is news to all who have taken
  -- the earlier, if the counter starts more than n below its last value.
  pub send_alive_loop-Later :
      (i n : ℕ) (a : Announcer)
      → a.seq_num + n < 2 ^ 64
      → AllPairs Later (send_alive_loop proto clock i n a)
  unfolding send_alive_loop
  send_alive_loop-Later i zero a h = tt
  send_alive_loop-Later i (suc n) a h = elim (Option-cases (send_alive_turn proto (clock i) a).1) [
    | inl ended ↦ rw (send_alive_loop, ended) tt
    | inr (m, sent) ↦
        let (said, state) = turn_lem proto (clock i) a m (omega arith) sent in
        rw (send_alive_loop, sent)
          (rw state (
            All-map (Since (self_member a) a.inc_time (a.seq_num + 1)) (Later m) _
                (λ m' (k, says', later).
                  turns-Later (self_member a) a.inc_time (a.seq_num + 1) k m m' said says' later)
                (loop-Since (i + 1) n (next a m) (omega arith)),
            send_alive_loop-Later (i + 1) n (next a m) (omega arith),
          ))
  ]
