-- ===== src/Service/Checking.antt =====
-- The checks of handleMessage on a message of a channel (gossip/gossip.go, handleMessage and validateMsg).
use grpc_gossip.Prelude.{
  ℕ, ◌≡◌, arith, Bool, true, false, ◌||◌, ◌>>=◌, refl, Bool-cases, if◌then◌else◌, Str, not, ◌&&◌,
  is_some, Option, none, some, Map, string_eq, inl, inr,
}
use grpc_gossip.Errors.{Error}
use grpc_gossip.Types.{
  Content, Tag, chan_and_org, chan_only, chan_or_org, get_data_msg, GossipMessage, get_alive_msg,
  get_leadership_msg, get_state_info,
}
use grpc_gossip.Message.{SignedGossipMessage, is_channel_restricted, is_tag_legal, tag_eq}
use grpc_gossip.Channel.State.{Env}
use grpc_gossip.Service.Dispatching.{validate_msg, state_info_valid}
use grpc_gossip.Service.Validating.{validate_state_info_msg, validate_leadership_message}
use grpc_gossip.Identity.{IdMapper}

-- a check that was made and found no error
abbrev check_passes : Option (Option Error) → Bool
check_passes (some none) = true
check_passes _ = false

module _ (env : Env) where
  abbrev pub is_valid : SignedGossipMessage → Bool
  is_valid m =
      not (is_some (is_tag_legal m.message))
      && (not (is_some (get_state_info m.message.content))
          || check_passes (validate_state_info_msg env.ids m))

  abbrev pub is_leader_valid : SignedGossipMessage → Bool
  is_leader_valid m =
      not (is_some (get_leadership_msg m.message.content))
      || check_passes (validate_leadership_message env.ids m)

alive_no_data : (c : Content) → is_some (get_alive_msg c) ≡ true → is_some (get_data_msg c) ≡ false
alive_no_data c = ground arith

legal_alive :
    (t : Tag)
    → tag_eq t chan_and_org || tag_eq t chan_only || tag_eq t chan_or_org ≡ true
    → tag_eq t Tag.empty ≡ false
legal_alive t = ground arith

alive_illegal :
    (m : GossipMessage)
    → is_channel_restricted m ≡ true
    → is_some (get_alive_msg m.content) ≡ true
    → is_some (is_tag_legal m) ≡ true
unfolding is_tag_legal is_channel_restricted
alive_illegal m restricted alive = elim (Bool-cases (tag_eq m.tag Tag.undefined)) [
  | inl undefined ↦ rw undefined refl
  | inr defined ↦
      rw (defined, alive_no_data m.content alive, alive, legal_alive m.tag restricted) refl
]

pub checked :
    (b : Bool) (e : Option (Option Error)) (valid : Bool)
    → (if b then (e >>= λ e. some (not (is_some e))) else some true) ≡ some valid
    → valid ≡ (not b || check_passes e)
checked false e valid v = ground arith
checked true none valid v = ground arith
checked true (some none) valid v = ground arith
checked true (some (some x)) valid v = ground arith

gated :
    (illegal alive ok : Bool) (a : IdMapper × Bool) (e : Option Bool) (is is' : IdMapper)
    (valid : Bool)
    → (alive ≡ true → illegal ≡ true)
    → ((x : Bool) → e ≡ some x → x ≡ ok)
    → (if illegal then some (is, false) else if alive then some a else (e >>= λ x. some (is, x)))
      ≡ some (is', valid)
    → valid ≡ (not illegal && ok)
gated true alive ok a e is is' valid never same v = ground arith
gated false true ok a e is is' valid never same v = let e = never refl in ground arith
gated false false ok a none is is' valid never same v = ground arith
gated false false ok a (some x) is is' valid never same v = let e = same x refl in ground arith

module _ (env : Env) (times : Map Str ℕ) (now : ℕ) where
  pub validated :
      (m : SignedGossipMessage) (is is' : IdMapper) (valid : Bool)
      → is_channel_restricted m.message ≡ true
      → validate_msg env times now m is ≡ some (is', valid)
      → valid ≡ is_valid env m
  unfolding validate_msg
  validated m is is' valid restricted =
      gated (is_some (is_tag_legal m.message)) (is_some (get_alive_msg m.message.content)) _ _
        (state_info_valid env times now m) is is' valid (alive_illegal m.message restricted)
        (checked (is_some (get_state_info m.message.content)) (validate_state_info_msg env.ids m))
