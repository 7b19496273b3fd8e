-- ===== src/Client/Keys/Secrets/Delivered.antt =====
-- From the sender's `start_epoch` to the receiver's `recv_key`: crates/throcc-client-core/src/keys.rs.
use throcc.Prelude.{
  ℕ, ◌+◌, ◌≤◌, ◌<◌, ◌≡◌, refl, sym, ap, subst, ◌∙◌, ◌⊎◌, inl, inr, true, false, ◌&&◌, List, [], ◌∷◌,
  Option, none, some, ok, ltb, leb, length, ◌==◌, ==_iff, if◌then◌else◌, arith, Bool-cases,
}
use throcc.Prelude.Map.{Map, get, contains_key, get-insert}
use throcc.Prelude.Table.{Table, find, find-put, beq_refl}
use throcc.Client.Keys.{
  ids_of, is_in, Crypto, WrapContext, KeyManager, KeyPeer, Pair, same_pair_iff, pair_eq,
  below_floor, wrapped_bytes, old_key_grace, cached_for, derived, owned_key, recv_key, send_key,
}
use throcc.Client.Keys.Secrets.{
  context, keys_of, start_epoch, move_epoch, expected_in, retirement, opened, or_retired, uncached,
  store_secret, accept_key, sender_key_at, sender_key,
}

get-keys_of :
    (c : Crypto) (secret id : ℕ) (ids : List ℕ)
    → get id (keys_of c secret ids) ≡ (if is_in id ids then some (c.derive secret id) else none)
unfolding keys_of get
get-keys_of c secret id [] = refl
get-keys_of c secret id (i ∷ ids) =
    get-insert id i (c.derive secret i) (keys_of c secret ids)
    ∙ ground (arith, get-keys_of c secret id ids, ==_iff id i)

-- No key that was derived from an earlier secret is left.
cached_for-uncached :
    (id source epoch : ℕ) (t : Table Pair (ℕ × ℕ))
    → cached_for (find (id, epoch) (uncached source epoch t)) source ≡ none
unfolding uncached find
cached_for-uncached id source epoch [] = refl
cached_for-uncached id source epoch ((key, (owner, entry)) ∷ t) =
    ground (arith, cached_for-uncached id source epoch t, same_pair_iff (id, epoch) key)

module _ (source epoch secret : ℕ) (retire_at : Option ℕ) (now : ℕ) (k : KeyManager) where
  received-store_secret :
      find (source, epoch) (store_secret source epoch secret retire_at now k).received
      ≡ some (record { secret = secret; retire_at = retire_at })
  unfolding store_secret
  received-store_secret =
      find-put (source, epoch) (source, epoch) _ _ ∙ rw (beq_refl {K = Pair} (source, epoch)) refl

  recv_key-store_secret :
      (c : Crypto) (id : ℕ)
      → below_floor epoch k ≡ false
      → get id k.owners ≡ some source
      → (recv_key c id epoch (store_secret source epoch secret retire_at now k)).1
        ≡ some (c.derive secret id)
  unfolding recv_key owned_key derived below_floor store_secret
  recv_key-store_secret c id b o =
      rw (b, recv_key)
        (rw (o, recv_key)
          (rw (cached_for-uncached id source epoch k.recv_keys, owned_key)
            (rw (received-store_secret, derived) refl)))

retirement_ok :
    (epoch now : ℕ) (k : KeyManager)
    → (epoch ≡ k.epoch) ⊎ (now < k.epoch_since + old_key_grace)
    → (t : Option ℕ) × (retirement epoch now k ≡ ok t)
unfolding retirement
retirement_ok epoch now k (inl e) = (none, ground (arith, e))
retirement_ok epoch now k (inr e) = elim (Bool-cases (ltb epoch k.epoch)) [
  | inl q ↦ (some (k.epoch_since + old_key_grace), rw q (ground (arith, e)))
  | inr q ↦ (none, rw q refl)
]

or_retired_first :
    (c : Crypto) (o : Option ℕ) (secret : ℕ) (retired : Option (ℕ × ℕ)) (peer : ℕ)
    (info : WrapContext) (blob : List ℕ)
    → o ≡ some secret
    → or_retired c o retired peer info blob ≡ some secret
or_retired_first c o secret retired peer info blob e =
    subst (λ o. or_retired c o retired peer info blob ≡ some secret) (sym e) refl

contains_key-some :
    {V : Type 0} (u : ℕ) (m : Map V) (v : V) → get u m ≡ some v → contains_key u m ≡ true
unfolding contains_key
contains_key-some u m v e = rw (e, contains_key) refl

sender_key-store_secret :
    (c : Crypto) (k : KeyManager) (room source epoch secret now : ℕ) (blob : List ℕ)
    (peer : KeyPeer)
    → length blob ≡ wrapped_bytes
    → below_floor epoch k ≡ false
    → k.room ≡ some room
    → epoch ≤ k.epoch
    → (epoch ≡ k.epoch) ⊎ (now < k.epoch_since + old_key_grace)
    → get source k.peers ≡ some peer
    → opened c room source epoch blob peer k ≡ some secret
    → (t : Option ℕ) × (sender_key c source epoch blob now k
        ≡ (store_secret source epoch secret t now k, ok tt))
unfolding sender_key sender_key_at accept_key
sender_key-store_secret c k room source epoch secret now blob peer l b r e g p o =
    let trusted : contains_key source k.peers ≡ true = contains_key-some source k.peers peer p in
    let known : expected_in k.room (contains_key source k.peers && leb epoch k.epoch) ≡ some room =
      rw (r, trusted) (ground (arith, e)) in
    let t = retirement_ok epoch now k g in (t.0, rw (l, b) (rw known (rw t.1 (rw p (rw o refl)))))

-- What HPKE promises of a pair of key pairs: one can wrap to the other's public key, what it wraps
-- the other unwraps with the first one's public key, and it has a fixed length.
pub record Wraps (c : Crypto) (public : ℕ → ℕ) : Type 0 where
  pub wraps :
      (source target : ℕ) (info : WrapContext) (secret : ℕ)
      → (blob : List ℕ) × (c.wrap source (public target) info secret ≡ some blob)
  pub opens :
      (source target : ℕ) (info : WrapContext) (secret : ℕ) (blob : List ℕ)
      → c.wrap source (public target) info secret ≡ some blob
      → c.unwrap target (public source) info blob ≡ some secret
  pub sized :
      (source target : ℕ) (info : WrapContext) (secret : ℕ) (blob : List ℕ)
      → c.wrap source target info secret ≡ some blob
      → length blob ≡ wrapped_bytes

send_key-some :
    (id key : ℕ) (k : KeyManager)
    → get id k.send_keys ≡ some key
    → send_key id k ≡ some (k.epoch, key)
unfolding send_key
send_key-some id key k e = rw (e, send_key) refl

pub epoch-start_epoch :
    (c : Crypto) (epoch now secret : ℕ) (k : KeyManager)
    → (start_epoch c epoch now secret k).epoch ≡ epoch
unfolding start_epoch move_epoch
epoch-start_epoch c epoch now secret k = elim (Bool-cases (epoch == k.epoch)) [
  | inl q ↦ rw q (sym ((==_iff epoch k.epoch).0 q))
  | inr q ↦ rw q refl
]

send_key-start_epoch :
    (c : Crypto) (id epoch now secret : ℕ) (k : KeyManager)
    → is_in id (ids_of k.my_tracks) ≡ true
    → send_key id (start_epoch c epoch now secret k) ≡ some (epoch, c.derive secret id)
send_key-start_epoch c id epoch now secret k e =
    send_key-some id (c.derive secret id) (start_epoch c epoch now secret k)
      (unfold start_epoch in get-keys_of c secret id (ids_of k.my_tracks) ∙ rw e refl)
    ∙ ap (λ i. some (i, c.derive secret id)) (epoch-start_epoch c epoch now secret k)

module _ (c : Crypto) (public : ℕ → ℕ) (hpke : Wraps c public) where
  -- If `blob` is the secret of the sender's new epoch, wrapped to the key of a receiver that trusts
  -- the sender, in the same room and on the same server, knows its tracks, is in that epoch or one
  -- later within the grace period, and does not refuse it as a replay: once the receiver has the
  -- blob, it has the very key for each of those tracks that the sender encrypts with.
  pub recv_key-sender_key :
      (a b : KeyManager) (room epoch started now secret id : ℕ) (peer : KeyPeer) (blob : List ℕ)
      → is_in id (ids_of a.my_tracks) ≡ true
      → c.wrap a.encryption (public b.encryption) (context a room epoch a.me b.me) secret
        ≡ some blob
      → a.server ≡ b.server
      → b.room ≡ some room
      → epoch ≤ b.epoch
      → (epoch ≡ b.epoch) ⊎ (now < b.epoch_since + old_key_grace)
      → below_floor epoch b ≡ false
      → get a.me b.peers ≡ some peer
      → peer.encryption_key ≡ public a.encryption
      → get id b.owners ≡ some a.me
      → (send_key id (start_epoch c epoch started secret a) ≡ some (epoch, c.derive secret id))
        × ((recv_key c id epoch (sender_key c a.me epoch blob now b).0).1
            ≡ some (c.derive secret id))
  recv_key-sender_key a b room epoch started now secret id peer blob mine w s r e g f p pk o =
      let open_key : c.unwrap b.encryption peer.encryption_key (context b room epoch a.me b.me) blob
          ≡ some secret =
        rw (pk, sym s)
          (hpke.opens a.encryption b.encryption (context a room epoch a.me b.me) secret blob w) in
      let stored =
        sender_key-store_secret c b room a.me epoch secret now blob peer
          (hpke.sized a.encryption (public b.encryption) (context a room epoch a.me b.me) secret
            blob w)
          f r e g p
          (unfold opened in
            or_retired_first c _ secret b.retired_encryption peer.encryption_key _ blob open_key) in
      (
        send_key-start_epoch c id epoch started secret a mine,
        rw stored.1 (recv_key-store_secret a.me epoch secret stored.0 now b c id f o),
      )
