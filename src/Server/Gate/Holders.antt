-- ===== src/Server/Gate/Holders.antt =====
-- `Gate` of crates/throcc-server/src/limits.rs with the passes that are held.
use throcc.Prelude.{
  ◌↔◌, ℕ, ◌+◌, ◌-◌, ◌≤◌, ◌<◌, ◌≡◌, refl, ap, ◌∙◌, true, false, List, [], ◌∷◌, if◌then◌else◌, arith,
  length, map, Option-cases, Bool-cases, inl, inr,
}
use throcc.Prelude.Table.{Eq, Table, find, find-put, find-erase, beq_refl}
use throcc.Server.Sources.{SourceKey, network, source_eq}
use throcc.Server.Gate.{Caps, Counts, no_counts, count_of, increment, decrement, try_enter, leave}

-- How many of the keys are `key`.
module _ {K : Type 0} ⦃e : Eq K⦄ where
  pub holders : K → List K → ℕ
  holders key [] = 0
  holders key (k ∷ held) = let n = holders key held in if e.beq key k then n + 1 else n

  pub remove_one : K → List K → List K
  remove_one key [] = []
  remove_one key (k ∷ held) =
      let rest = remove_one key held in if e.beq key k then held else k ∷ rest

  remove_one_self :
      (k : K) (held : List K)
      → 0 < holders k held
      → holders k (remove_one k held) + 1 ≡ holders k held
  unfolding holders remove_one
  remove_one_self k [] h = absurd (omega arith)
  remove_one_self k (j ∷ held) h = ground (arith, remove_one_self k held)

  remove_one_other :
      (key k : K) (held : List K)
      → e.beq key k ≡ false
      → holders key (remove_one k held) ≡ holders key held
  unfolding holders remove_one
  remove_one_other key k [] h = refl
  remove_one_other key k (j ∷ held) h =
      ground (arith, e.beq_iff key k, e.beq_iff k j, e.beq_iff key j, remove_one_other key k held)

  holders-remove_one :
      (key k : K) (held : List K)
      → 0 < holders k held
      → holders key (remove_one k held)
        ≡ (if e.beq key k then holders key held - 1 else holders key held)
  holders-remove_one key k held h = elim (Bool-cases (e.beq key k)) [
    | inl q ↦ rw ((e.beq_iff key k).0 q) (ground (arith, beq_refl k, remove_one_self k held))
    | inr q ↦ ground (arith, remove_one_other key k held)
  ]

  length-remove_one :
      (k : K) (held : List K) → 0 < holders k held → length (remove_one k held) + 1 ≡ length held
  unfolding holders remove_one
  length-remove_one k [] h = absurd (omega arith)
  length-remove_one k (j ∷ held) h = ground (arith, length-remove_one k held)

  holders-map_pos :
      (f : K → K) (key k : K) (held : List K)
      → 0 < holders k held
      → e.beq key (f k) ≡ true
      → 0 < holders key (map f held)
  unfolding holders
  holders-map_pos f key k [] h q = absurd (omega arith)
  holders-map_pos f key k (j ∷ held) h q = elim (Bool-cases (e.beq k j)) [
    | inl p ↦ ground (arith, ap (λ x. e.beq key (f x)) ((e.beq_iff k j).0 p))
    | inr p ↦ ground (arith, holders-map_pos f key k held)
  ]

  -- Taking one key out takes one key out of their images.
  holders-map :
      (f : K → K) (key k : K) (held : List K)
      → 0 < holders k held
      → holders key (map f (remove_one k held))
        ≡ (if e.beq key (f k) then holders key (map f held) - 1 else holders key (map f held))
  unfolding holders remove_one
  holders-map f key k [] h = absurd (omega arith)
  holders-map f key k (j ∷ held) h = elim (Bool-cases (e.beq k j)) [
    | inl q ↦ ground (arith, ap (λ x. e.beq key (f x)) ((e.beq_iff k j).0 q))
    | inr q ↦ ground (arith, holders-map f key k held, holders-map_pos f key k held)
  ]

count_of-increment :
    (key k : SourceKey) (counts : Table SourceKey ℕ)
    → count_of key (increment k counts)
      ≡ (if source_eq.beq key k then count_of key counts + 1 else count_of key counts)
unfolding count_of increment
count_of-increment key k counts = elim (Bool-cases (source_eq.beq key k)) [
  | inl e ↦
      rw ((source_eq.beq_iff key k).0 e)
        (ground (arith, find-put k k (count_of k counts + 1) counts, beq_refl k))
  | inr e ↦ ground (arith, find-put key k (count_of k counts + 1) counts)
]

count_of-decrement :
    (key k : SourceKey) (counts : Table SourceKey ℕ)
    → count_of key (decrement k counts)
      ≡ (if source_eq.beq key k then count_of key counts - 1 else count_of key counts)
unfolding count_of decrement
count_of-decrement key k counts = elim (Option-cases (find k counts)) [
  | inl q ↦ elim (Bool-cases (source_eq.beq key k)) [
    | inl e ↦ rw ((source_eq.beq_iff key k).0 e) (ground arith)
    | inr e ↦ ground arith
  ]
  | inr (n, q) ↦ elim (Bool-cases (source_eq.beq key k)) [
    | inl e ↦
        rw ((source_eq.beq_iff key k).0 e)
          (ground (arith, find-put k k (n - 1) counts, find-erase k k counts, beq_refl k))
    | inr e ↦ ground (arith, find-put key k (n - 1) counts, find-erase key k counts)
  ]
]

-- The passes that are held, and what the gate has counted.
pub record System : Type 0 where
  pub held : List SourceKey
  pub counts : Counts

-- Connections come and go in any order; only a pass that is held is dropped.
pub data Step (caps : Caps) (s : System) : System → Type 0 where
  enters :
      (k : SourceKey)
      → (try_enter caps k s.counts).1 ≡ true
      → Step caps s (record { held = k ∷ s.held; counts = (try_enter caps k s.counts).0 })
  turned_away :
      (k : SourceKey)
      → (try_enter caps k s.counts).1 ≡ false
      → Step caps s (record { held = s.held; counts = (try_enter caps k s.counts).0 })
  leaves :
      (k : SourceKey)
      → 0 < holders k s.held
      → Step caps s (record { held = remove_one k s.held; counts = leave k s.counts })

pub data Reach (caps : Caps) : System → Type 0 where
  starts : Reach caps (record { held = []; counts = no_counts })
  later : {s t : System} → Reach caps s → Step caps s t → Reach caps t

-- The counts are those of the passes.
pub record Counted (s : System) : Type 0 where
  pub total : s.counts.total ≡ length s.held
  pub sources : (key : SourceKey) → count_of key s.counts.sources ≡ holders key s.held
  pub networks :
      (key : SourceKey) → count_of key s.counts.networks ≡ holders key (map network s.held)

pub record Within (caps : Caps) (s : System) : Type 0 where
  pub total : length s.held ≤ caps.total
  pub sources : (key : SourceKey) → holders key s.held ≤ caps.per_source
  pub networks : (key : SourceKey) → holders key (map network s.held) ≤ caps.per_network

pub Step-Counted : {caps : Caps} {s t : System} → Step caps s t → Counted s → Counted t
unfolding try_enter leave holders
Step-Counted {caps = caps} {s = s} (enters k e) c = record {
  total = ground (arith, c.total);
  sources = λ key. ground (arith, c.sources key, count_of-increment key k s.counts.sources);
  networks =
      λ key. ground (arith, c.networks key, count_of-increment key (network k) s.counts.networks);
}
Step-Counted {caps = caps} {s = s} (turned_away k e) c = record {
  total = ground (arith, c.total);
  sources = λ key. ground (arith, c.sources key);
  networks = λ key. ground (arith, c.networks key);
}
Step-Counted {s = s} (leaves k h) c = record {
  total = omega (arith, c.total, length-remove_one k s.held h);
  sources = λ key.
      count_of-decrement key k s.counts.sources
      ∙ ground (arith, c.sources key, holders-remove_one key k s.held);
  networks = λ key.
      count_of-decrement key (network k) s.counts.networks
      ∙ ground (arith, c.networks key, holders-map network key k s.held);
}

Reach-Counted : {caps : Caps} {s : System} → Reach caps s → Counted s
unfolding count_of no_counts holders find
Reach-Counted starts = record { total = refl; sources = λ key. refl; networks = λ key. refl }
Reach-Counted (later r step) = Step-Counted step (Reach-Counted r)

admits :
    (caps : Caps) (s : System) (k : SourceKey)
    → Counted s
    → ((try_enter caps k s.counts).1 ≡ true) ↔ (
        (length s.held < caps.total)
        × (holders k s.held < caps.per_source)
        × (holders (network k) (map network s.held) < caps.per_network))
unfolding try_enter
admits caps s k c = (
  λ e. ground (arith, c.total, c.sources k, c.networks (network k)),
  λ h. ground (arith, c.total, c.sources k, c.networks (network k)),
)

-- However connections come and go: a source is admitted exactly if the passes that are held
-- leave room under all three caps.
pub Reach-try_enter :
    (caps : Caps) (s : System) (k : SourceKey)
    → Reach caps s
    → ((try_enter caps k s.counts).1 ≡ true) ↔ (
        (length s.held < caps.total)
        × (holders k s.held < caps.per_source)
        × (holders (network k) (map network s.held) < caps.per_network))
Reach-try_enter caps s k r = admits caps s k (Reach-Counted r)

Step-Within :
    {caps : Caps} {s t : System} → Step caps s t → Counted s → Within caps s → Within caps t
unfolding holders
Step-Within {caps = caps} {s = s} (enters k e) c w =
    let (all, own, net) = (admits caps s k c).0 e in
    record {
      total = omega arith;
      sources =
          λ key. ground (arith, w.sources key, source_eq.beq_iff key k, ap (λ x. holders x s.held));
      networks = λ key. ground (arith, w.networks key, source_eq.beq_iff key (network k));
    }
Step-Within (turned_away k e) c w = record {
  total = w.total;
  sources = w.sources;
  networks = w.networks;
}
Step-Within {s = s} (leaves k h) c w = record {
  total = omega (arith, w.total, length-remove_one k s.held h);
  sources = λ key. ground (arith, w.sources key, holders-remove_one key k s.held);
  networks = λ key. ground (arith, w.networks key, holders-map network key k s.held);
}

-- However connections come and go, the passes that are held never exceed a cap: in all, of one
-- source, or of one network.
pub Reach-Within : {caps : Caps} {s : System} → Reach caps s → Within caps s
unfolding holders
Reach-Within starts = record {
  total = omega arith;
  sources = λ key. omega arith;
  networks = λ key. omega arith;
}
Reach-Within (later r step) = Step-Within step (Reach-Counted r) (Reach-Within r)
