-- ===== src/Registry/Sweeping.antt =====
-- escalation-proxy/app/investigation_registry.py: the loop of the sweeps, for any test and any change.
use sre_agent_team.Base.{
  ℕ, zero, suc, ◌≤◌, ◌≡◌, refl, ◌⊎◌, inl, inr, Bool, true, false, String, none, some, [], ◌∷◌,
  arith, length, All, All-map, Bool-cases,
}
use sre_agent_team.Base.Dict.{Dict, Distinct, lookup}
use sre_agent_team.Registry.Record.{InvestigationRecord}
use sre_agent_team.Registry.Sweeps.{sweep}

-- Every record stands under its own id.
abbrev pub Keyed : Dict InvestigationRecord → Type 0
Keyed [] = Unit
Keyed ((k, r) ∷ d) = (k ≡ r.investigation_id) × Keyed d

-- A sweep took `t`: it changed a record that it does not pass over, which now stands as `t`.
abbrev pub Taken :
    (InvestigationRecord → Bool)
    → (InvestigationRecord → InvestigationRecord)
    → Dict InvestigationRecord
    → Dict InvestigationRecord
    → InvestigationRecord
    → Type 0
Taken skips change d d' t =
    (r : InvestigationRecord) × (lookup r.investigation_id d ≡ some r)
    × (skips r ≡ false)
    × (t ≡ change r)
    × (lookup r.investigation_id d' ≡ some t)

module _ (skips : InvestigationRecord → Bool)
    (change : InvestigationRecord → InvestigationRecord) where
  pub sweep-length-le :
      (room : ℕ) (d : Dict InvestigationRecord) → length (sweep skips change room d).0 ≤ room
  unfolding sweep
  sweep-length-le zero d = omega arith
  sweep-length-le (suc room) [] = omega arith
  sweep-length-le (suc room) ((k, r) ∷ d) =
      ground (arith, sweep-length-le (suc room) d, sweep-length-le room d)

  pub lookup-sweep-none :
      (room : ℕ) (k : String) (d : Dict InvestigationRecord)
      → lookup k d ≡ none
      → lookup k (sweep skips change room d).1 ≡ none
  unfolding sweep lookup
  lookup-sweep-none zero k d gone = gone
  lookup-sweep-none (suc room) k [] gone = refl
  lookup-sweep-none (suc room) k ((i, x) ∷ d) gone =
      ground (arith, lookup-sweep-none (suc room) k d, lookup-sweep-none room k d)

  -- A record that a sweep meets is as it was, or was not passed over and is changed.
  pub lookup-sweep :
      (room : ℕ) (k : String) (r : InvestigationRecord) (d : Dict InvestigationRecord)
      → lookup k d ≡ some r
      → let d' = (sweep skips change room d).1 in
        (lookup k d' ≡ some r) ⊎ ((skips r ≡ false) × (lookup k d' ≡ some (change r)))
  unfolding sweep lookup
  lookup-sweep zero k r d found = inl found
  lookup-sweep (suc room) k r [] found = cc
  lookup-sweep (suc room) k r ((i, x) ∷ d) found =
      ground (arith, lookup-sweep (suc room) k r d, lookup-sweep room k r d)

  pub sweep-Distinct :
      (room : ℕ) (d : Dict InvestigationRecord)
      → Distinct d
      → Distinct (sweep skips change room d).1
  unfolding sweep
  sweep-Distinct zero d u = u
  sweep-Distinct (suc room) [] u = tt
  sweep-Distinct (suc room) ((i, x) ∷ d) u = ground (
    arith,
    sweep-Distinct (suc room) d u.1,
    sweep-Distinct room d u.1,
    lookup-sweep-none (suc room) i d u.0,
    lookup-sweep-none room i d u.0,
  )

  pub sweep-Keyed :
      (room : ℕ) (d : Dict InvestigationRecord)
      → ((r : InvestigationRecord) → (change r).investigation_id ≡ r.investigation_id)
      → Keyed d
      → Keyed (sweep skips change room d).1
  unfolding sweep
  sweep-Keyed zero d same keyed = keyed
  sweep-Keyed (suc room) [] same keyed = tt
  sweep-Keyed (suc room) ((i, x) ∷ d) same keyed =
      ground (arith, sweep-Keyed (suc room) d same keyed.1, sweep-Keyed room d same keyed.1, same x)

  -- What is taken from the rest of a dict is taken from the whole.
  Taken-cons :
      (i : String) (x y : InvestigationRecord) (d d' : Dict InvestigationRecord)
      (t : InvestigationRecord)
      → lookup i d ≡ none
      → Taken skips change d d' t
      → Taken skips change ((i, x) ∷ d) ((i, y) ∷ d') t
  unfolding lookup
  Taken-cons i x y d d' t fresh (r, found, due, e, there) = (r, ground arith, due, e, ground arith)

  sweep_pass :
      (room : ℕ) (i : String) (x : InvestigationRecord) (d : Dict InvestigationRecord)
      → skips x ≡ true
      → let (taken, d') = sweep skips change (suc room) d in
        sweep skips change (suc room) ((i, x) ∷ d) ≡ (taken, (i, x) ∷ d')
  unfolding sweep
  sweep_pass room i x d passed = rw (passed, sweep)

  sweep_take :
      (room : ℕ) (i : String) (x : InvestigationRecord) (d : Dict InvestigationRecord)
      → skips x ≡ false
      → let (taken, d') = sweep skips change room d in
        sweep skips change (suc room) ((i, x) ∷ d) ≡ (change x ∷ taken, (i, change x) ∷ d')
  unfolding sweep
  sweep_take room i x d due = rw (due, sweep)

  pub sweep-Taken :
      (room : ℕ) (d : Dict InvestigationRecord)
      → Distinct d
      → Keyed d
      → All (Taken skips change d (sweep skips change room d).1) (sweep skips change room d).0
  unfolding sweep lookup
  sweep-Taken zero d u keyed = tt
  sweep-Taken (suc room) [] u keyed = tt
  sweep-Taken (suc room) ((i, x) ∷ d) u keyed = elim (Bool-cases (skips x)) [
    | inl passed ↦
        rw (sweep_pass room i x d passed)
          (All-map _ (λ t. Taken-cons i x x d _ t u.0) (sweep-Taken (suc room) d u.1 keyed.1))
    | inr due ↦ rw (sweep_take room i x d due) (
      (x, ground arith, due, refl, ground arith),
      All-map _ (λ t. Taken-cons i x (change x) d _ t u.0) (sweep-Taken room d u.1 keyed.1),
    )
  ]
