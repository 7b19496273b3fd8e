-- ===== src/Client/Keys/Secrets/Wrapped.antt =====
-- Who holds our secret: `start_epoch`, `wrap_for_new_peers` and `peers_changed` of
-- crates/throcc-client-core/src/keys.rs.
use throcc.Prelude.{
  ℕ, suc, ◌≡◌, refl, sym, ap, ◌∙◌, inl, inr, Bool, true, false, not, ◌&&◌, ◌||◌, List, [], ◌∷◌,
  Option, none, some, ==_iff, if◌then◌else◌, arith, Option-cases,
}
use throcc.Prelude.Map.{Map, get, remove, insert, get-remove, get_below, IsSorted}
use throcc.Client.Keys.{is_in, Crypto, KeyManager, KeyPeer, Pair, pair_eq, same_pair_iff}
use throcc.Client.Keys.Sets.{
  contains_pair, has_key, peer_set, insert_pair, contains_pair-insert_pair,
}
use throcc.Client.Keys.Secrets.{
  context, wrap_all, leave_out, disowned, extend_wrapped, users, Wraps, wrap_secret,
}

abbrev pub receivers : List (ℕ × List ℕ) → List ℕ
receivers [] = []
receivers ((user, blob) ∷ wrapped) = user ∷ receivers wrapped

abbrev is_some : {A : Type 0} → Option A → Bool
is_some none = false
is_some (some a) = true

abbrev pub wraps_to : Crypto → KeyManager → (room secret user : ℕ) → KeyPeer → Bool
wraps_to c k room secret user peer =
    is_some (c.wrap k.encryption peer.encryption_key (context k room k.epoch k.me user) secret)

abbrev pub is_given : Crypto → KeyManager → (room secret user : ℕ) → Option KeyPeer → Bool
is_given c k room secret user none = false
is_given c k room secret user (some peer) =
    not (contains_pair (user, peer.encryption_key) k.wrapped_to)
    && wraps_to c k room secret user peer

abbrev pub is_refused : Crypto → KeyManager → (room secret user : ℕ) → Option KeyPeer → Bool
is_refused c k room secret user none = false
is_refused c k room secret user (some peer) =
    not (contains_pair (user, peer.encryption_key) k.wrapped_to)
    && not (wraps_to c k room secret user peer)

module _ (c : Crypto) (k : KeyManager) (room secret : ℕ) where
  receivers-wrap_all :
      (u lo : ℕ) (m : Map KeyPeer)
      → IsSorted lo m
      → is_in u (receivers (wrap_all c k room secret m).wrapped)
        ≡ is_given c k room secret u (get u m)
  unfolding wrap_all get
  receivers-wrap_all u lo [] s = refl
  receivers-wrap_all u lo ((v, p) ∷ m) s =
      ground (arith, receivers-wrap_all u (suc v) m s.1, get_below u (suc v) m s.1, ==_iff u v)

  refused-wrap_all :
      (u lo : ℕ) (m : Map KeyPeer)
      → IsSorted lo m
      → is_in u (users (wrap_all c k room secret m).refused)
        ≡ is_refused c k room secret u (get u m)
  unfolding wrap_all get
  refused-wrap_all u lo [] s = refl
  refused-wrap_all u lo ((v, p) ∷ m) s =
      ground (arith, refused-wrap_all u (suc v) m s.1, get_below u (suc v) m s.1, ==_iff u v)

-- Those left out are no peers any more, and the others are.
peers-leave_out :
    (u : ℕ) (refused : List Pair) (k : KeyManager)
    → get u (leave_out refused k).peers ≡ (if is_in u (users refused) then none else get u k.peers)
unfolding leave_out
peers-leave_out u [] k = refl
peers-leave_out u ((v, key) ∷ refused) k = ground (
  arith,
  peers-leave_out u refused (record k {
    unwrappable = insert v key k.unwrappable;
    peers = remove v k.peers;
    owners = disowned v k.owners;
  }),
  get-remove u v k.peers,
)

contains_pair-extend_wrapped :
    (p : Pair) (peers : Map KeyPeer) (wrapped : List (ℕ × List ℕ)) (set : List Pair)
    → contains_pair p (extend_wrapped peers wrapped set)
      ≡ (contains_pair p set || (is_in p.0 (receivers wrapped) && has_key p.1 (get p.0 peers)))
unfolding extend_wrapped
contains_pair-extend_wrapped p peers [] set = ground arith
contains_pair-extend_wrapped p peers ((u, blob) ∷ wrapped) set = elim (Option-cases (get u peers)) [
  | inl e ↦
      rw (e, extend_wrapped)
        (contains_pair-extend_wrapped p peers wrapped set ∙ ground (arith, ==_iff p.0 u))
  | inr e ↦
      rw (e.1, extend_wrapped)
        (contains_pair-extend_wrapped p peers wrapped (insert_pair (u, e.0.encryption_key) set)
          ∙ ground (arith, ==_iff p.0 u, contains_pair-insert_pair p (u, e.0.encryption_key) set))
]

module _ (c : Crypto) (k : KeyManager) (room secret : ℕ) (s : IsSorted 0 k.peers) where
  peers-wrap_secret :
      (u : ℕ)
      → get u (wrap_secret c room secret k).keys.peers
        ≡ (if is_refused c k room secret u (get u k.peers) then none else get u k.peers)
  unfolding wrap_secret
  peers-wrap_secret u = ground (
    arith,
    peers-leave_out u (wrap_all c k room secret k.peers).refused k,
    refused-wrap_all c k room secret u 0 k.peers s,
  )

  -- Whoever was wrapped to before being trusted still, those wrapped to are those trusted.
  pub wrapped_to-wrap_secret :
      (p : Pair)
      → (contains_pair p k.wrapped_to ≡ true → has_key p.1 (get p.0 k.peers) ≡ true)
      → contains_pair p (wrap_secret c room secret k).keys.wrapped_to
        ≡ has_key p.1 (get p.0 (wrap_secret c room secret k).keys.peers)
  unfolding wrap_secret
  wrapped_to-wrap_secret p h =
      contains_pair-extend_wrapped p (leave_out w.refused k).peers w.wrapped k.wrapped_to
      ∙ rw
          (
            peers-leave_out p.0 w.refused k,
            refused-wrap_all c k room secret p.0 0 k.peers s,
            receivers-wrap_all c k room secret p.0 0 k.peers s,
          )
          (known (get p.0 k.peers) h)
    where
      w : Wraps
      w = wrap_all c k room secret k.peers

      known :
          (o : Option KeyPeer)
          → (contains_pair p k.wrapped_to ≡ true → has_key p.1 o ≡ true)
          → (contains_pair p k.wrapped_to
              || (is_given c k room secret p.0 o
                  && has_key p.1 (if is_refused c k room secret p.0 o then none else o)))
            ≡ has_key p.1 (if is_refused c k room secret p.0 o then none else o)
      known none h = ground (arith, h)
      known (some peer) h = ground (arith, h, ==_iff p.1 peer.encryption_key)

-- Where every peer has the secret there is nothing to wrap.
pub wrap_all_settled :
    (c : Crypto) (k : KeyManager) (room secret : ℕ) (m : Map KeyPeer)
    → ((p : Pair) → contains_pair p (peer_set m) ≡ true → contains_pair p k.wrapped_to ≡ true)
    → wrap_all c k room secret m ≡ record { wrapped = []; refused = [] }
unfolding wrap_all
wrap_all_settled c k room secret [] h = refl
wrap_all_settled c k room secret ((u, peer) ∷ m) h =
    rw
      (
        h (u, peer.encryption_key)
            (unfold peer_set in
              rw contains_pair-insert_pair
                (ground (arith, same_pair_iff (u, peer.encryption_key) (u, peer.encryption_key)))),
        wrap_all,
      )
      (wrap_all_settled c k room secret m (λ p e. h p (
        unfold peer_set in
        contains_pair-insert_pair p (u, peer.encryption_key) (peer_set m) ∙ ground (arith, e))))

my_secret-leave_out :
    (refused : List Pair) (k : KeyManager) → (leave_out refused k).my_secret ≡ k.my_secret
unfolding leave_out
my_secret-leave_out [] k = refl
my_secret-leave_out ((v, key) ∷ refused) k = my_secret-leave_out refused (record k {
  unwrappable = insert v key k.unwrappable;
  peers = remove v k.peers;
  owners = disowned v k.owners;
})

pub my_secret-wrap_secret :
    (c : Crypto) (room secret : ℕ) (k : KeyManager)
    → (wrap_secret c room secret k).keys.my_secret ≡ k.my_secret
unfolding wrap_secret
my_secret-wrap_secret c room secret k =
    my_secret-leave_out (wrap_all c k room secret k.peers).refused k

pub wrap_secret_settled :
    (c : Crypto) (room secret : ℕ) (k : KeyManager)
    → peer_set k.peers ≡ k.wrapped_to
    → ((wrap_secret c room secret k).request ≡ none)
      × ((wrap_secret c room secret k).keys.my_secret ≡ k.my_secret)
      × ((wrap_secret c room secret k).keys.wrapped_to ≡ k.wrapped_to)
unfolding wrap_secret leave_out extend_wrapped
wrap_secret_settled c room secret k e =
    rw (wrap_all_settled c k room secret k.peers (λ p q. sym (ap (contains_pair p) e) ∙ q))
      (refl, refl, refl)
