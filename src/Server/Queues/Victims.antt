-- ===== src/Server/Queues/Victims.antt =====
-- The victims of a round of `enforce_budget` of crates/throcc-server/src/egress.rs.
use throcc.Prelude.{
  ℕ, ◌≤◌, ◌≡◌, refl, sym, ap, ◌∙◌, ◌⊎◌, inl, inr, true, false, List, [], ◌∷◌, Option, none, some,
  ltb, length, if◌then◌else◌, arith, Bool-cases, Option-cases,
}
use throcc.Prelude.Map.{Map, get, contains_key}
use throcc.Server.Queues.{Queues, VideoUnit, or_else, unit_at, max_queued_video_bytes}
use throcc.Server.Queues.Budget.{
  waiting_strays, front, first_key, unstarted_victim, over_budget, late_in, late_victim,
  heavy_victim,
}
use throcc.Server.Queues.Valid.{IsSound, IsValid, total}
use throcc.Server.Queues.Budget.{units}

-- What a round of a loop does to a valid state: it stops, or it finds a unit.
unfoldable pub IsRound : Queues → Queues × Option ℕ → Type 0
IsRound q r =
    IsValid r.0
    × (units r.0 ≡ units q)
    × ((r.1 ≡ none)
        ⊎ ((id : ℕ) × (unit : VideoUnit) × (r.1 ≡ some id) × (unit_at id r.0 ≡ some unit)))

waiting_strays-front :
    (waiting : Map VideoUnit) (strays : List ℕ) (id : ℕ)
    → front (waiting_strays waiting strays) ≡ some id
    → contains_key id waiting ≡ true
unfolding waiting_strays
waiting_strays-front waiting [] id e = absurd (ground (arith, e))
waiting_strays-front waiting (i ∷ strays) id e =
    ground (arith, e, waiting_strays-front waiting strays id)

contains_key-get :
    (id : ℕ) (m : Map VideoUnit)
    → contains_key id m ≡ true
    → (unit : VideoUnit) × (get id m ≡ some unit)
unfolding contains_key
contains_key-get id m e = elim (Option-cases (get id m)) [
  | inl g ↦
      let missing : contains_key id m ≡ false = rw (g, contains_key) refl in
      absurd (ground (arith, e, missing))
  | inr g ↦ g
]

first_key-get :
    (id : ℕ) (m : Map VideoUnit)
    → first_key m ≡ some id
    → (unit : VideoUnit) × (get id m ≡ some unit)
unfolding get
first_key-get id [] e = absurd (ground (arith, e))
first_key-get id ((i, unit) ∷ m) e = (unit, ground (arith, e))

-- A unit that waits is found.
waiting-unit_at :
    (id : ℕ) (unit : VideoUnit) (q : Queues)
    → IsValid q
    → get id q.waiting ≡ some unit
    → unit_at id q ≡ some unit
unfolding unit_at IsSound
waiting-unit_at id unit q h e = ground (arith, e, h.2 id)

started-unit_at :
    (id : ℕ) (unit : VideoUnit) (q : Queues)
    → get id q.started ≡ some unit
    → unit_at id q ≡ some unit
unfolding unit_at
started-unit_at id unit q e = rw e refl

module _ (q : Queues) (h : IsValid q) where
  -- The unstarted victim waits.
  unstarted_victim-found :
      (id : ℕ)
      → (unstarted_victim q).1 ≡ some id
      → (unit : VideoUnit) × (unit_at id (unstarted_victim q).0 ≡ some unit)
  unfolding unstarted_victim
  unstarted_victim-found id e = elim (Option-cases (front (waiting_strays q.waiting q.strays))) [
    | inl f ↦
        let g =
          first_key-get id q.waiting (sym (ap (λ o. or_else o (first_key q.waiting)) f) ∙ e) in
        (
          g.0,
          waiting-unit_at id g.0 (record q { strays = waiting_strays q.waiting q.strays }) h g.1,
        )
    | inr f ↦
        let same = sym (ap (λ o. or_else o (first_key q.waiting)) f.1) ∙ e in
        let g =
          contains_key-get id q.waiting (waiting_strays-front q.waiting q.strays id (f.1 ∙ same)) in
        (
          g.0,
          waiting-unit_at id g.0 (record q { strays = waiting_strays q.waiting q.strays }) h g.1,
        )
  ]

  -- Without one nothing waits.
  unstarted_victim-none : (unstarted_victim q).1 ≡ none → first_key q.waiting ≡ none
  unfolding unstarted_victim
  unstarted_victim-none e =
      ground (arith, e, Option-cases (front (waiting_strays q.waiting q.strays)))

  unstarted_victim-IsRound : IsRound q (unstarted_victim q)
  unfolding IsRound
  unstarted_victim-IsRound = elim (Option-cases (unstarted_victim q).1) [
    | inl e ↦ (unfold unstarted_victim in h, unfold unstarted_victim in refl, inl e)
    | inr e ↦
        let g = unstarted_victim-found e.0 e.1 in
        (unfold unstarted_victim in h, unfold unstarted_victim in refl, inr (e.0, g.0, e.1, g.1))
  ]

  pub late_victim-IsRound : (now : ℕ) → IsRound q (late_victim now q)
  unfolding late_victim IsRound
  late_victim-IsRound now = elim (Bool-cases (over_budget now q)) [
    | inl o ↦ rw o unstarted_victim-IsRound
    | inr o ↦ rw o (h, refl, inl refl)
  ]

  pub heavy_victim-IsRound : IsRound q (heavy_victim q)
  unfolding heavy_victim IsRound
  heavy_victim-IsRound = elim (Bool-cases (ltb max_queued_video_bytes q.video_bytes)) [
    | inr o ↦ rw o (h, refl, inl refl)
    | inl o ↦ rw o (elim (Option-cases (unstarted_victim q).1) [
      | inr e ↦
          let g = unstarted_victim-found e.0 e.1 in
          (unstarted_victim-IsRound.0, unstarted_victim-IsRound.1, inr (e.0, g.0, rw e.1 refl, g.1))
      | inl e ↦ elim (Option-cases (first_key q.started)) [
        | inl f ↦ (unstarted_victim-IsRound.0, unstarted_victim-IsRound.1, inl (rw (e, f) refl))
        | inr f ↦
            let g = first_key-get f.0 q.started f.1 in
            (
              unstarted_victim-IsRound.0,
              unstarted_victim-IsRound.1,
              inr (
                f.0,
                g.0,
                rw (e, f.1) refl,
                (unfold unstarted_victim in
                    started-unit_at f.0 g.0
                      (record q { strays = waiting_strays q.waiting q.strays }) g.1),
              ),
            )
      ]
    ])
  ]

  first_key_empty : (m : Map VideoUnit) → first_key m ≡ none → m ≡ []
  first_key_empty [] e = refl
  first_key_empty ((id, unit) ∷ m) e = absurd (ground (arith, e))

  pub late_victim_stops :
      (now : ℕ) → (late_victim now q).1 ≡ none → over_budget now (late_victim now q).0 ≡ false
  unfolding late_victim
  late_victim_stops now e = elim (Bool-cases (over_budget now q)) [
    | inr o ↦ rw o o
    | inl o ↦
        let empty = first_key_empty q.waiting (
          unstarted_victim-none
            (sym (ap (λ b. (if b then unstarted_victim q else (q, none)).1) o) ∙ e)) in
        let fits : over_budget now q ≡ false = (unfold over_budget in rw empty refl) in
        absurd (ground (arith, o, fits))
  ]

  no_bytes : q.started ≡ [] → q.waiting ≡ [] → q.video_bytes ≡ 0
  unfolding IsSound total
  no_bytes s w = h.4 ∙ rw (s, w) refl

  pub heavy_victim_stops :
      (heavy_victim q).1 ≡ none → (heavy_victim q).0.video_bytes ≤ max_queued_video_bytes
  unfolding heavy_victim
  heavy_victim_stops e = elim (Bool-cases (ltb max_queued_video_bytes q.video_bytes)) [
    | inr o ↦ rw o (ground (arith, o))
    | inl o ↦
        let both : or_else (unstarted_victim q).1 (first_key q.started) ≡ none =
          ground (arith, e, o) in
        let unstarted : (unstarted_victim q).1 ≡ none =
          ground (arith, both, Option-cases (unstarted_victim q).1) in
        let oldest : first_key q.started ≡ none = ground (arith, both, unstarted) in
        absurd (
          ground (
            arith,
            o,
            no_bytes (first_key_empty q.started oldest)
                (first_key_empty q.waiting (unstarted_victim-none unstarted)),
          ))
  ]

  nothing : {A : Type 0} (xs : List A) → length xs ≡ 0 → xs ≡ []
  nothing [] e = refl
  nothing (x ∷ xs) e = absurd (omega (arith, e))

  pub late_victim_rests : (now : ℕ) → units q ≡ 0 → late_victim now q ≡ (q, none)
  unfolding late_victim over_budget
  late_victim_rests now e =
      let fits : late_in now q.waiting ≡ false = rw (nothing q.waiting (omega (arith, e))) refl in
      rw (fits, late_victim) refl

  pub heavy_victim_rests : units q ≡ 0 → heavy_victim q ≡ (q, none)
  unfolding heavy_victim
  heavy_victim_rests e =
      let light : ltb max_queued_video_bytes q.video_bytes ≡ false = ground (
        arith,
        no_bytes (nothing q.started (omega (arith, e))) (nothing q.waiting (omega (arith, e))),
      ) in
      rw light refl
