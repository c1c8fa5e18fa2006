-- ===== src/Mutator/Inactive.antt =====
-- A call of _FAQAS_mutate while no mutation of the fault model is selected.
use damat_tutorial.Prelude.{
  ℕ, ◌≡◌, ◌⊎◌, inl, inr, refl, true, not, ◌||◌, arith, some, List, [], ◌∷◌, ◌++◌, Bool-cases,
}
use damat_tutorial.Prelude.Int.{negsuc, ◌≤ℤ◌, ◌<ℤ◌, ltb_ℤ}
use damat_tutorial.Mutator.Operators.{eq_ℤ}
use damat_tutorial.Mutator.{FaultModel, Coverage, Globals, operator_coverage}
use damat_tutorial.Mutator.Mutate.{mutate, fm_coverage}

-- What a call that mutates nothing keeps of the globals.
pub record Idle (g g' : Globals) : Type 0 where
  pub mutated : g'.mutated ≡ g.mutated
  pub counter : g'.counter ≡ g.counter
  pub mutation : g'.mutation ≡ g.mutation

Idle-refl : (g : Globals) → Idle g g
Idle-refl g = record { mutated = refl; counter = refl; mutation = refl }

fm_coverage-Idle : (id : ℕ) (g : Globals) → Idle g (fm_coverage id g)
fm_coverage-Idle id g = ground arith

operator_coverage-Idle : (g : Globals) → Idle g (operator_coverage 0 g)
unfolding operator_coverage
operator_coverage-Idle g = record { mutated = refl; counter = refl; mutation = refl }

-- With MUTATION -1, -2 or -3, or outside the range of the fault model, _FAQAS_mutate leaves the
-- buffer as it is, returns 0, and sets neither _FAQAS_mutated nor the counter of mutations.
pub mutate_inactive :
    (rand : ℕ → ℕ) (fm : FaultModel) (buffer : List ℕ) (g : Globals)
    → (g.mutation <ℤ fm.min_operation) ⊎ (fm.max_operation ≤ℤ g.mutation)
    → (g' : Globals) × (mutate rand fm buffer g ≡ some (buffer, g', 0)) × Idle g g'
unfolding mutate
mutate_inactive rand fm buffer g out = elim (Bool-cases (eq_ℤ g.mutation (negsuc 0))) [
  | inl off ↦ rw off (g, refl, Idle-refl g)
  | inr on ↦ rw on (elim (Bool-cases (eq_ℤ g.mutation (negsuc 1))) [
    | inl logs ↦ rw logs (_, refl, logged fm.id g)
    | inr quiet ↦ rw quiet (elim (Bool-cases (eq_ℤ g.mutation (negsuc 2))) [
      | inl counts ↦ rw counts (_, refl, fm_coverage-Idle fm.id g)
      | inr other ↦ rw (other, outside) (_, refl, operator_coverage-Idle g)
    ])
  ])
]
  where
    logged :
        (id : ℕ) (g : Globals)
        → Idle g (record (fm_coverage id g) {
          coverage = (fm_coverage id g).coverage ++ Coverage.model_line id ∷ [];
        })
    logged id g =
        let c = fm_coverage-Idle id g in
        record { mutated = c.mutated; counter = c.counter; mutation = c.mutation }

    outside : (ltb_ℤ g.mutation fm.min_operation || not (ltb_ℤ g.mutation fm.max_operation)) ≡ true
    outside = ground arith
