-- ===== src/Client/Keys/Sets.antt =====
-- A BTreeSet of pairs, as `wrapped_to` and `peer_set` of crates/throcc-client-core/src/keys.rs.
use throcc.Prelude.{
  ℕ, suc, ◌≡◌, ==_iff, refl, ap₂, Bool, true, false, ◌&&◌, ◌||◌, Option, none, some, List, [], ◌∷◌,
  ltb, ◌==◌, if◌then◌else◌, arith,
}
use throcc.Prelude.Map.{Map, get, get_below, IsSorted}
use throcc.Client.Keys.{KeyPeer, Pair, same_pair, same_pair_iff}

abbrev pub before : Pair → Pair → Bool
before a b = ltb a.0 b.0 || ((a.0 == b.0) && ltb a.1 b.1)

unfoldable pub contains_pair : Pair → List Pair → Bool
contains_pair p [] = false
contains_pair p (q ∷ s) = same_pair p q || contains_pair p s

unfoldable pub insert_pair : Pair → List Pair → List Pair
insert_pair p [] = p ∷ []
insert_pair p (q ∷ s) =
    let rest = insert_pair p s in
    if before p q then p ∷ q ∷ s else if same_pair p q then q ∷ s else q ∷ rest

-- Equality of two sets.
unfoldable pub same_pairs : List Pair → List Pair → Bool
same_pairs [] [] = true
same_pairs (p ∷ s) (q ∷ t) = same_pair p q && same_pairs s t
same_pairs _ _ = false

-- The peers with their keys.
unfoldable pub peer_set : Map KeyPeer → List Pair
peer_set [] = []
peer_set ((user, peer) ∷ peers) = insert_pair (user, peer.encryption_key) (peer_set peers)

pub same_pairs-eq : (s t : List Pair) → same_pairs s t ≡ true → s ≡ t
unfolding same_pairs
same_pairs-eq [] [] e = refl
same_pairs-eq (p ∷ s) (q ∷ t) e =
    ap₂ (λ x y. x ∷ y) ((same_pair_iff p q).0 (ground (arith, e)))
      (same_pairs-eq s t (ground (arith, e)))
same_pairs-eq [] (q ∷ t) e = absurd (ground (arith, e))
same_pairs-eq (p ∷ s) [] e = absurd (ground (arith, e))

pub contains_pair_empty : (p : Pair) → contains_pair p [] ≡ false
unfolding contains_pair
contains_pair_empty p = refl

pub contains_pair-insert_pair :
    (p q : Pair) (s : List Pair)
    → contains_pair p (insert_pair q s) ≡ (same_pair p q || contains_pair p s)
unfolding contains_pair insert_pair
contains_pair-insert_pair p q [] = refl
contains_pair-insert_pair p q (x ∷ s) = ground (
  arith,
  contains_pair-insert_pair p q s,
  same_pair_iff p q,
  same_pair_iff q x,
  same_pair_iff p x,
)

-- Whether a peer is trusted with this encryption key.
abbrev pub has_key : ℕ → Option KeyPeer → Bool
has_key key none = false
has_key key (some peer) = key == peer.encryption_key

pub contains_pair-peer_set :
    (p : Pair) (lo : ℕ) (m : Map KeyPeer)
    → IsSorted lo m
    → contains_pair p (peer_set m) ≡ has_key p.1 (get p.0 m)
unfolding peer_set contains_pair get
contains_pair-peer_set p lo [] s = refl
contains_pair-peer_set p lo ((u, peer) ∷ m) s = ground (
  arith,
  contains_pair-peer_set p (suc u) m s.1,
  contains_pair-insert_pair p (u, peer.encryption_key) (peer_set m),
  get_below p.0 (suc u) m s.1,
  ==_iff p.0 u,
)
