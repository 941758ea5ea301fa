-- ===== src/Orchestrator/Create/Atomic.antt =====
-- The tables after `create_plan`.
use native.Mathlib.Omega.{arith}
use mathlib.Core.Path.{subst}
use daimon.Common.{
  ℕ, suc, ◌≡◌, refl, sym, ap, ◌∙◌, ◌⊎◌, inl, inr, Option, List, [], ◌∷◌, ◌++◌, length, map,
  get_elem?, get_elem?-In, In, All, Option-cases,
}
use daimon.Common.Text.{Text}
use daimon.Common.Result.{Result, ok, err}
use daimon.Common.Json.{Json, Semver}
use daimon.Orchestrator.Plan.{Error, pending, StepDef, Plan, Step}
use daimon.Orchestrator.Store.{Database, World}
use daimon.Orchestrator.Create.{
  depends_on, draw_ids, drawn, new_steps, insert_steps, commit, transact, created, create_plan,
}

append_assoc :
    {A : Type 0} (xs : List A) (a : A) (ys : List A) → (xs ++ a ∷ []) ++ ys ≡ xs ++ a ∷ ys
append_assoc [] a ys = refl
append_assoc (x ∷ xs) a ys = ap (λ l. x ∷ l) (append_assoc xs a ys)

append_nil : {A : Type 0} (xs : List A) → xs ++ [] ≡ xs
append_nil [] = refl
append_nil (x ∷ xs) = ap (λ l. x ∷ l) (append_nil xs)

depends_on-In : (ids is : List ℕ) → All (λ d. In d ids) (depends_on ids is)
unfolding depends_on
depends_on-In ids [] = tt
depends_on-In ids (i ∷ is) = elim (Option-cases (get_elem? ids i)) [
  | inl e ↦ rw (e, depends_on) (depends_on-In ids is)
  | inr (d, e) ↦ rw (e, depends_on) (get_elem?-In ids i d e, depends_on-In ids is)
]

module _ (json : Json) (semver : Semver) (db : Database) where
  -- A pending step of the plan that waits for steps with the given ids only.
  abbrev pub IsInPlan : ℕ → List ℕ → Step json.Value → Type 0
  IsInPlan plan_id ids s =
      (s.plan_id ≡ plan_id) × (s.status ≡ pending) × All (λ d. In d ids) s.depends_on

  new_steps-IsInPlan :
      (plan_id : ℕ) (all_ids ids : List ℕ) (i : ℕ) (defs : List (StepDef json.Value))
      → All (IsInPlan plan_id all_ids) (new_steps json semver db plan_id all_ids ids i defs)
  unfolding new_steps
  new_steps-IsInPlan plan_id all_ids ids i [] = tt
  new_steps-IsInPlan plan_id all_ids [] i (def ∷ defs) = tt
  new_steps-IsInPlan plan_id all_ids (id ∷ ids) i (def ∷ defs) = (
    (refl, refl, depends_on-In all_ids def.depends_on_index),
    new_steps-IsInPlan plan_id all_ids ids (suc i) defs,
  )

  -- The tables hold the plan and its rows besides what they held.
  abbrev pub Holds :
      List (Plan json.Value)
      → List (Step json.Value)
      → World json semver
      → World json semver
      → Type 0
  Holds plans rows w v = (v.plans ≡ w.plans ++ plans) × (v.plan_steps ≡ w.plan_steps ++ rows)

  insert_steps_lem :
      (ss : List (Step json.Value)) (w : World json semver)
      → ((insert_steps json semver db ss w).0 ≡ ok tt)
          × Holds [] ss w (insert_steps json semver db ss w).1
        ⊎ ((e : Error) × ((insert_steps json semver db ss w).0 ≡ err e))
  unfolding insert_steps
  insert_steps_lem [] w = inl (refl, (sym (append_nil w.plans), sym (append_nil w.plan_steps)))
  insert_steps_lem (s ∷ ss) w = elim (Option-cases (db.fault w.statements)) [
    | inr (x, e) ↦ inr (x, rw (e, insert_steps) refl)
    | inl e ↦
        rw (e, insert_steps)
          (elim (insert_steps_lem ss
            (record w { statements = suc w.statements; plan_steps = w.plan_steps ++ s ∷ [] })) [
              | inl (r, (p, q)) ↦ inl (r, (p, q ∙ append_assoc w.plan_steps s ss))
              | inr x ↦ inr x
            ])
  ]

  -- What a step asks for, in a row and in a definition.
  abbrev pub Asked : Type 0
  Asked = Text × (Text × (Option Text × json.Value))

  abbrev pub asked_by : Step json.Value → Asked
  asked_by s = (s.capability_name, (s.capability_version, (s.target_ref, s.params)))

  abbrev pub asked_in : StepDef json.Value → Asked
  asked_in d = (d.capability_name, (d.capability_version, (d.target_ref, d.params)))

  new_steps-asked :
      (plan_id : ℕ) (all_ids : List ℕ) (n i : ℕ) (defs : List (StepDef json.Value))
      → map asked_by (
          new_steps json semver db plan_id all_ids (draw_ids json semver db n (length defs)) i defs)
        ≡ map asked_in defs
  unfolding new_steps draw_ids
  new_steps-asked plan_id all_ids n i [] = refl
  new_steps-asked plan_id all_ids n i (def ∷ defs) =
      ap (λ k. asked_in def ∷ k) (new_steps-asked plan_id all_ids (suc n) (suc i) defs)

  new_steps-ids :
      (plan_id : ℕ) (all_ids : List ℕ) (n i : ℕ) (defs : List (StepDef json.Value))
      → map
          (λ s. s.id)
          (new_steps json semver db plan_id all_ids
            (draw_ids json semver db n (length defs))
            i
            defs)
        ≡ draw_ids json semver db n (length defs)
  unfolding new_steps draw_ids
  new_steps-ids plan_id all_ids n i [] = refl
  new_steps-ids plan_id all_ids n i (def ∷ defs) =
      ap (λ k. db.new_id n ∷ k) (new_steps-ids plan_id all_ids (suc n) (suc i) defs)

  module _ (created_by : Option ℕ) (intent : Text) (steps : List (StepDef json.Value))
      (w : World json semver) where
    abbrev pub rows_of_plan : List (Step json.Value)
    rows_of_plan =
        new_steps json semver db (created json semver db created_by intent w).id
          (drawn json semver db steps w) (drawn json semver db steps w) 0 steps

    -- Either the plan was created with a row for each step, in their order, that asks for what the
    -- step asks for, is pending and waits for rows among these only; or there was an error and the
    -- tables are as before.
    abbrev pub IsAtomic : Result (Plan json.Value) Error × World json semver → Type 0
    IsAtomic x =
        ((x.0 ≡ ok (created json semver db created_by intent w))
          × (rows : List (Step json.Value)) × Holds
              (created json semver db created_by intent w ∷ []) rows w x.1
          × (map asked_by rows ≡ map asked_in steps)
          × All (IsInPlan (created json semver db created_by intent w).id (map (λ s. s.id) rows))
              rows)
        ⊎ ((e : Error) × (x.0 ≡ err e) × (x.1.plans ≡ w.plans) × (x.1.plan_steps ≡ w.plan_steps))

    abbrev begun : World json semver
    begun = record w {
      statements = suc w.statements;
      plans = w.plans ++ created json semver db created_by intent w ∷ [];
    }

    finish :
        (x : Result (Unit {0}) Error × World json semver)
        → ((x.0 ≡ ok tt) × Holds [] rows_of_plan begun x.1) ⊎ ((e : Error) × (x.0 ≡ err e))
        → IsAtomic (
            transact json semver db w
              (commit json semver db (created json semver db created_by intent w) x))
    unfolding transact commit drawn
    finish (err e, v) k = inr (e, refl, refl, refl)
    finish (ok u, v) (inr (e, h)) = absurd (ground (arith, h))
    finish (ok u, v) (inl (r, (p, q))) = elim (Option-cases (db.fault v.statements)) [
      | inr (x, f) ↦ rw (f, commit) (inr (x, refl, refl, refl))
      | inl f ↦
          rw (f, commit)
            (inl (
              refl,
              rows_of_plan,
              (p ∙ append_nil begun.plans, q),
              new_steps-asked (created json semver db created_by intent w).id
                  (drawn json semver db steps w) (suc w.statements) 0 steps,
              subst
                  (λ ids.
                    All (IsInPlan (created json semver db created_by intent w).id ids) rows_of_plan)
                  (sym (
                    new_steps-ids (created json semver db created_by intent w).id
                      (drawn json semver db steps w) (suc w.statements) 0 steps))
                  (new_steps-IsInPlan (created json semver db created_by intent w).id
                    (drawn json semver db steps w) (drawn json semver db steps w) 0 steps),
            ))
    ]

    -- `create_plan` creates a plan as a whole or not at all: either it answers with the plan, and the
    -- tables hold besides what they held the plan and one row for each step, in their order, which asks
    -- for the step's capability, version, target and parameters, is pending and waits for ids of these
    -- rows only; or it answers with an error, and the tables are as before.
    pub create_plan-IsAtomic : IsAtomic (create_plan json semver db created_by intent steps w)
    unfolding create_plan
    create_plan-IsAtomic = elim (Option-cases (db.fault w.statements)) [
      | inr (x, e) ↦ rw (e, create_plan) (unfold transact commit in inr (x, refl, refl, refl))
      | inl e ↦
          rw (e, create_plan)
            (finish (insert_steps json semver db rows_of_plan begun)
              (insert_steps_lem rows_of_plan begun))
    ]
