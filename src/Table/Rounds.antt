-- ===== src/Table/Rounds.antt =====
-- escalation-proxy/app/investigation_registry.py: the `for attempt in range(…)` loops around the conditional writes.
use sre_agent_team.Base.{
  true, ℕ, zero, suc, ◌+◌, ◌≡◌, false, Option, none, some, arith, String, inl, inr,
}
use sre_agent_team.Base.Fallible.{Result, ok, err, Result-cases}
use sre_agent_team.Registry.Record.{Registry, RegistryError}
use sre_agent_team.Table.Entity.{Entity, TableError, is_concurrency_conflict, please_retry}
use sre_agent_team.Table.Client.{Action, again_on_conflict, tries}
use sre_agent_team.Table.Agreement.{refusal, answer, Agree}

module _ {T A : Type 0} (body : ℕ → Action T (Option A)) (k n : ℕ) (t t' : T) where
  pub tries-ok : (a : A) → body n t ≡ (ok (some a), t') → tries (suc k) n body t ≡ (ok a, t')
  unfolding tries
  tries-ok a h = ground arith

  pub tries-err : (e : TableError) → body n t ≡ (err e, t') → tries (suc k) n body t ≡ (err e, t')
  unfolding tries
  tries-err e h = ground arith

-- When every round ends in a conflict, each from where the one before left the table, the caller is
-- told to try again, after as many rounds as there are.
pub conflicts_exhaust :
    {T A : Type 0} (rounds n : ℕ) (body : ℕ → Action T (Option A)) (held : ℕ → T)
    → ((m : ℕ) → body m (held m) ≡ (ok none, held (m + 1)))
    → tries rounds n body (held n) ≡ (err please_retry, held (n + rounds))
unfolding tries
conflicts_exhaust zero n body held h = ground arith
conflicts_exhaust (suc rounds) n body held h =
    ground (arith, h n, conflicts_exhaust rounds (n + 1) body held h)

refusal_calm : (e : RegistryError) → is_concurrency_conflict (refusal e) ≡ false
unfolding is_concurrency_conflict
refusal_calm e = ground arith

-- An answer of the in-memory registry is no conflict.
pub calm :
    {A : Type 0} (e : TableError) (m : Result RegistryError A)
    → Result.err e ≡ answer refusal m
    → is_concurrency_conflict e ≡ false
calm e (ok a) h = ground arith
calm e (err x) h = ground (arith, refusal_calm x)

module _ {T A : Type 0} (m : Action T A) (t : T) where
  pub again-ok : (a : A) → (m t).0 ≡ ok a → again_on_conflict m t ≡ (ok (some a), (m t).1)
  unfolding again_on_conflict
  again-ok a h = ground arith

  pub again-conflict :
      (e : TableError) (t' : T)
      → m t ≡ (err e, t')
      → is_concurrency_conflict e ≡ true
      → again_on_conflict m t ≡ (ok none, t')
  unfolding again_on_conflict
  again-conflict e t' h c = ground arith

  again-err :
      (e : TableError)
      → (m t).0 ≡ err e
      → is_concurrency_conflict e ≡ false
      → again_on_conflict m t ≡ (err e, (m t).1)
  unfolding again_on_conflict
  again-err e h c = ground arith

-- A loop around the whole of a round that answers as the in-memory registry is done with it.
pub tries-Agree :
    {T A : Type 0} (rows : T → String → String → Option Entity) (k n : ℕ) (f : ℕ → Action T A)
    (t : T) (y : Result RegistryError A × Registry)
    → Agree rows (f n t) y
    → Agree rows (tries (suc k) n (λ m. again_on_conflict (f m)) t) y
tries-Agree rows k n f t y (same, rep) = elim (Result-cases (f n t).0) [
  | inl (a, h) ↦
      rw (tries-ok (λ m. again_on_conflict (f m)) k n t (f n t).1 a (again-ok (f n) t a h))
        (ground arith, rep)
  | inr (e, h) ↦
      rw
        (tries-err (λ m. again_on_conflict (f m)) k n t (f n t).1 e
          (again-err (f n) t e h (calm e y.0 (ground arith))))
        (ground arith, rep)
]
