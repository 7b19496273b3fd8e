-- ===== src/Client/Keys/Secrets/Published.antt =====
-- What a sender wraps and publishes, up to what a receiver makes of it: `start_epoch`,
-- `wrap_for_new_peers` and `sender_key` of crates/throcc-client-core/src/keys.rs.
use throcc.Prelude.{
  ℕ, suc, ◌+◌, ◌≤◌, ◌<◌, ◌≡◌, refl, ap, ◌∙◌, ◌⊎◌, inl, inr, true, false, List, [], ◌∷◌, Option,
  none, some, ◌==◌, ==_iff, if◌then◌else◌, arith, Bool-cases,
}
use throcc.Prelude.Map.{Map, get, remove, insert, get_below, IsSorted}
use throcc.Client.Keys.{
  ids_of, is_in, Crypto, KeyManager, KeyPeer, Pair, below_floor, old_key_grace, recv_key, send_key,
}
use throcc.Client.Keys.Sets.{contains_pair}
use throcc.Client.Keys.Secrets.{
  context, PublishSenderKey, start_epoch, move_epoch, wrap_all, disowned, leave_out, unless_empty,
  wrap_secret, wrap_for_new_peers, wrap_for_new_peers_held, sender_key,
}
use throcc.Client.Keys.Secrets.Delivered.{Wraps, epoch-start_epoch, recv_key-sender_key}

-- What a peer gets: nothing if it has the secret already, or if its key is refused.
abbrev wrapped_for : Crypto → KeyManager → (room secret user : ℕ) → Option KeyPeer → Option (List ℕ)
wrapped_for c k room secret user none = none
wrapped_for c k room secret user (some peer) =
    if contains_pair (user, peer.encryption_key) k.wrapped_to
    then none
    else c.wrap k.encryption peer.encryption_key (context k room k.epoch k.me user) secret

get-wrap_all :
    (c : Crypto) (k : KeyManager) (room secret u lo : ℕ) (m : Map KeyPeer)
    → IsSorted lo m
    → get u (wrap_all c k room secret m).wrapped ≡ wrapped_for c k room secret u (get u m)
unfolding wrap_all get
get-wrap_all c k room secret u lo [] s = refl
get-wrap_all c k room secret u lo ((v, p) ∷ m) s =
    ground
      (arith, get-wrap_all c k room secret u (suc v) m s.1, get_below u (suc v) m s.1, ==_iff u v)

-- A new epoch leaves these as they are.
record SameSender (k k' : KeyManager) : Type 0 where
  me : k'.me ≡ k.me
  server : k'.server ≡ k.server
  encryption : k'.encryption ≡ k.encryption
  peers : k'.peers ≡ k.peers

start_epoch-SameSender :
    (c : Crypto) (epoch now secret : ℕ) (k : KeyManager)
    → SameSender k (start_epoch c epoch now secret k)
unfolding start_epoch move_epoch
start_epoch-SameSender c epoch now secret k = elim (Bool-cases (epoch == k.epoch)) [
  | inl e ↦ rw e (record { me = refl; server = refl; encryption = refl; peers = refl })
  | inr e ↦ rw e (record { me = refl; server = refl; encryption = refl; peers = refl })
]

-- In the new epoch each peer is wrapped to.
get-wrap_all_new :
    (c : Crypto) (epoch started room secret user : ℕ) (k : KeyManager) (peer : KeyPeer)
    → IsSorted 0 k.peers
    → get user k.peers ≡ some peer
    → get user
        (wrap_all c
          (start_epoch c epoch started secret k)
          room
          secret
          (start_epoch c epoch started secret k).peers).wrapped
      ≡ c.wrap k.encryption peer.encryption_key (context k room epoch k.me user) secret
get-wrap_all_new c epoch started room secret user k peer s e =
    let k1 = start_epoch c epoch started secret k in
    let same = start_epoch-SameSender c epoch started secret k in
    ap (λ m. get user (wrap_all c k1 room secret m).wrapped) same.peers
    ∙ get-wrap_all c k1 room secret user 0 k.peers s
    ∙ rw e (
        unfold contains_pair start_epoch in
        rw (same.encryption, same.me, same.server, epoch-start_epoch c epoch started secret k) refl)

unless_empty-some :
    (epoch user : ℕ) (wrapped : List (ℕ × List ℕ)) (blob : List ℕ)
    → get user wrapped ≡ some blob
    → unless_empty epoch wrapped ≡ some (record { epoch = epoch; wrapped = wrapped })
unfolding get
unless_empty-some epoch user [] blob e = absurd (ground (arith, e))
unless_empty-some epoch user (w ∷ wrapped) blob e = refl

send_key-leave_out :
    (id : ℕ) (refused : List Pair) (k : KeyManager)
    → send_key id (leave_out refused k) ≡ send_key id k
unfolding leave_out send_key
send_key-leave_out id [] k = refl
send_key-leave_out id ((user, key) ∷ refused) k = send_key-leave_out id refused (record k {
  unwrappable = insert user key k.unwrappable;
  peers = remove user k.peers;
  owners = disowned user k.owners;
})

send_key-wrap_secret :
    (c : Crypto) (room secret id : ℕ) (k : KeyManager)
    → send_key id (wrap_secret c room secret k).keys ≡ send_key id k
unfolding wrap_secret send_key
send_key-wrap_secret c room secret id k =
    send_key-leave_out id (wrap_all c k room secret k.peers).refused k

request-wrap_secret :
    (c : Crypto) (room secret user : ℕ) (blob : List ℕ) (k : KeyManager)
    → get user (wrap_all c k room secret k.peers).wrapped ≡ some blob
    → (wrap_secret c room secret k).request
      ≡ some (record { epoch = k.epoch; wrapped = (wrap_all c k room secret k.peers).wrapped })
unfolding wrap_secret
request-wrap_secret c room secret user blob k e = unless_empty-some k.epoch user _ blob e

module _ (c : Crypto) (public : ℕ → ℕ) (hpke : Wraps c public) where
  -- The sender `a` starts a new epoch with a new secret and wraps it for its peers. One of them is
  -- `b`, with its public key, in the same room and on the same server; `b` trusts the sender, knows
  -- its tracks, is in that epoch or one later within the grace period, and does not refuse it as a
  -- replay. Then the sender publishes a request for the epoch with an entry for `b`; and once `b`
  -- has that entry, it has the very key for each of those tracks that the sender encrypts with,
  -- whatever both had before.
  pub recv_key-wrap_for_new_peers :
      (a b : KeyManager) (room epoch started now secret id : ℕ) (target sender : KeyPeer)
      → is_in id (ids_of a.my_tracks) ≡ true
      → IsSorted 0 a.peers
      → get b.me a.peers ≡ some target
      → target.encryption_key ≡ public b.encryption
      → a.server ≡ b.server
      → b.room ≡ some room
      → epoch ≤ b.epoch
      → (epoch ≡ b.epoch) ⊎ (now < b.epoch_since + old_key_grace)
      → below_floor epoch b ≡ false
      → get a.me b.peers ≡ some sender
      → sender.encryption_key ≡ public a.encryption
      → get id b.owners ≡ some a.me
      → (request : PublishSenderKey) × (blob : List ℕ) × ((wrap_for_new_peers c room
            (start_epoch c epoch started secret a)).request
          ≡ some request)
        × (request.epoch ≡ epoch)
        × (get b.me request.wrapped ≡ some blob)
        × (send_key id (wrap_for_new_peers c room (start_epoch c epoch started secret a)).keys
            ≡ some (epoch, c.derive secret id))
        × ((recv_key c id request.epoch (sender_key c a.me request.epoch blob now b).0).1
            ≡ some (c.derive secret id))
  recv_key-wrap_for_new_peers a b room epoch started now secret id target sender mine s p pk sv r e
        g f q qk o =
      let a1 = start_epoch c epoch started secret a in
      let held = wrap_for_new_peers_held c room secret a1 (unfold start_epoch in refl) in
      let info = context a room epoch a.me b.me in
      let (blob, made) = hpke.wraps a.encryption b.encryption info secret in
      let entry =
        get-wrap_all_new c epoch started room secret b.me a target s p
        ∙ ap (λ key. c.wrap a.encryption key info secret) pk
        ∙ made in
      let (sends, opens) =
        recv_key-sender_key c public hpke a b room epoch started now secret id sender blob mine made
          sv r e g f q qk o in
      (
        record { epoch = epoch; wrapped = (wrap_all c a1 room secret a1.peers).wrapped },
        blob,
        ap (λ w. w.request) held
            ∙ request-wrap_secret c room secret b.me blob a1 entry
            ∙ ap
                (λ i.
                  some
                    (record { epoch = i; wrapped = (wrap_all c a1 room secret a1.peers).wrapped }))
                (epoch-start_epoch c epoch started secret a),
        refl,
        entry,
        ap (λ w. send_key id w.keys) held ∙ send_key-wrap_secret c room secret id a1 ∙ sends,
        opens,
      )
