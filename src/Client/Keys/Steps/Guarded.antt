-- ===== src/Client/Keys/Steps/Guarded.antt =====
-- Whom our secret went to, whatever happens: `KeyManager` of
-- crates/throcc-client-core/src/keys.rs.
use throcc.Prelude.{
  ℕ, ◌≡◌, sym, subst, inl, inr, not, ◌&&◌, ltb, none, some, length, Bool-cases, arith,
}
use throcc.Prelude.Map.{get, contains_key}
use throcc.Server.Hub.State.{max_signed_in}
use throcc.Client.Keys.{Crypto, KeyManager, Pair, recv_key, new, replace_encryption, tick}
use throcc.Client.Keys.Sets.{contains_pair, has_key}
use throcc.Client.Keys.Secrets.{sender_key}
use throcc.Client.Keys.Secrets.Rest.{but_received, sender_key-but_received, recv_key-but_received}
use throcc.Client.Keys.Rooms.{set_presence, take_place}
use throcc.Client.Keys.Rooms.Shares.{IsGuarded, peers_changed-IsGuarded}
use throcc.Client.Keys.Rooms.Keep.{reapply_peers_keep, apply_placement_keep}
use throcc.Client.Keys.Steps.{
  Step, presence, renewed, reapplied, changed, placed, sent, asked, ticked, raised, Reach,
  Reach_keep,
}

but_received-IsGuarded :
    (k l : KeyManager) → but_received l ≡ but_received k → IsGuarded k → IsGuarded l
but_received-IsGuarded k l e h = subst IsGuarded (sym e) h

step-IsGuarded : (c : Crypto) (k l : KeyManager) → IsGuarded k → Step c k l → IsGuarded l
unfolding set_presence replace_encryption tick
step-IsGuarded c _ _ h (presence k user none) = h
step-IsGuarded c _ _ h (presence k user (some room)) =
    elim (Bool-cases
      (not (ltb (length k.present) max_signed_in) && not (contains_key user k.present))) [
        | inl e ↦ rw e h
        | inr e ↦ rw e h
      ]
step-IsGuarded c _ _ h (renewed k encryption now) = h
step-IsGuarded c _ _ h (reapplied k now unix_now secret) =
    reapply_peers_keep c IsGuarded (peers_changed-IsGuarded c) (λ k s g. g) now unix_now secret k h
step-IsGuarded c _ _ h (changed k room epoch peers now unix_now secret) =
    peers_changed-IsGuarded c room epoch peers now unix_now secret k h
step-IsGuarded c _ _ h (placed k room epoch tracks peers now unix_now secrets) =
    apply_placement_keep c IsGuarded (peers_changed-IsGuarded c) (λ k s g. g)
      (λ room tracks k g s e. absurd (unfold take_place in ground (arith, e))) room epoch tracks
      peers now unix_now secrets k h
step-IsGuarded c _ _ h (sent k source epoch wrapped now) =
    but_received-IsGuarded k (sender_key c source epoch wrapped now k).0
      (sender_key-but_received c k source epoch wrapped now) h
step-IsGuarded c _ _ h (asked k media_id epoch) =
    but_received-IsGuarded k (recv_key c media_id epoch k).0
      (recv_key-but_received c k media_id epoch) h
step-IsGuarded c _ _ h (ticked k now) = h
step-IsGuarded c _ _ h (raised k user room epoch) = h

-- In every state that a manager comes to, once it has a secret, those it was wrapped to are the
-- trusted peers with their present encryption keys, all of them and nobody else.
pub wrapped_to-has_key :
    (c : Crypto) (k : KeyManager)
    → Reach c k
    → (secret : ℕ) → k.my_secret ≡ some secret
    → (p : Pair) → contains_pair p k.wrapped_to ≡ has_key p.1 (get p.0 k.peers)
unfolding new
wrapped_to-has_key c =
    Reach_keep c IsGuarded (step-IsGuarded c)
      (λ me encryption server floors now s e. absurd (ground (arith, e)))
