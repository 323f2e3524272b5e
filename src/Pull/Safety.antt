-- ===== src/Pull/Safety.antt =====
-- The invariant of the pull mediator, and that it panics nowhere (gossip/channel.go).
use grpc_gossip.Prelude.{
  ℕ, ◌≡◌, refl, Str, Bool, true, false, List, [], ◌∷◌, ◌++◌, All, All-append, All-put, Map, get,
  put, string_eq, is_some, arith, if◌then◌else◌,
}
use grpc_gossip.Sets
use grpc_gossip.Pull.Engine.{
  Item, item_eq, string, rune, PullEngine, digest_of, note_owners, or_empty, add_all,
}
use grpc_gossip.Pull.Mediator.{remove_runes}

abbrev pub IsString : Item → Type 0
IsString (string s) = Unit
IsString (rune c) = (true ≡ false)

abbrev pub HasOwner : Str × List Str → Type 0
HasOwner (n, []) = (true ≡ false)
HasOwner (n, s ∷ sources) = Unit

-- The engine's set holds strings only, and a key of item2owners has an owner.
pub record IsValid (e : PullEngine) : Type 0 where
  pub strings : All IsString e.state
  pub owned : All HasOwner e.item2owners

HasOwner-append : (n : Str) (l : List Str) (s : Str) → HasOwner (n, l ++ s ∷ [])
HasOwner-append n [] s = tt
HasOwner-append n (x ∷ l) s = tt

pub note_owners-HasOwner :
    (state : List Item) (owner : Str) (digest : List Str) (owners : Map Str (List Str))
    → All HasOwner owners
    → All HasOwner (note_owners state owner digest owners)
unfolding note_owners
note_owners-HasOwner state owner [] owners h = h
note_owners-HasOwner state owner (n ∷ digest) owners h = ground (
  arith,
  note_owners-HasOwner state owner digest owners h,
  note_owners-HasOwner state owner digest (put owners n (or_empty (get owners n) ++ owner ∷ [])) (
      All-put HasOwner owners n (or_empty (get owners n) ++ owner ∷ [])
        (HasOwner-append n (or_empty (get owners n)) owner) h),
)

pub add-IsString :
    (state : List Item) (s : Str) → All IsString state → All IsString (Sets.add state (string s))
unfolding Sets.add
add-IsString state s h =
    elim (Sets.exists state (string s))
      as (λ b. All IsString (if b then state else state ++ string s ∷ [])) [
        | true ↦ h
        | false ↦ All-append IsString state (string s ∷ []) h (tt, tt)
      ]

pub add_all-IsString :
    (items : List Str) (state : List Item) → All IsString state → All IsString (add_all items state)
unfolding add_all
add_all-IsString [] state h = h
add_all-IsString (s ∷ items) state h =
    add_all-IsString items (Sets.add state (string s)) (add-IsString state s h)

remove-same : (c : ℕ) (state : List Item) → All IsString state → Sets.remove state (rune c) ≡ state
unfolding Sets.remove
remove-same c [] h = refl
remove-same c (string s ∷ state) h = ground (arith, remove-same c state h.1)
remove-same c (rune d ∷ state) h = ground arith

pub remove_runes-same :
    (digest : Str) (state : List Item) → All IsString state → remove_runes digest state ≡ state
unfolding remove_runes
remove_runes-same [] state h = refl
remove_runes-same (c ∷ digest) state h =
    rw (remove-same c state h, remove_runes-same digest state h)

pub digest_of-some :
    (f : Str → Bool) (state : List Item) → All IsString state → is_some (digest_of f state) ≡ true
unfolding digest_of
digest_of-some f [] h = refl
digest_of-some f (string s ∷ state) h = ground (arith, digest_of-some f state h.1)
digest_of-some f (rune c ∷ state) h = ground arith
