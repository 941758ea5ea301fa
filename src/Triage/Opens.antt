-- ===== src/Triage/Opens.antt =====
-- What the agent does to the tables and to the bus.
use daimon.Common.{
  ℕ, suc, ◌+◌, ◌≤◌, ◌<◌, ◌≡◌, refl, ap, ◌∙◌, ◌⊎◌, inl, inr, Bool, true, false, Option, none, some,
  List, [], ◌∷◌, ◌++◌, All, Bool-cases, Option-cases,
}
use daimon.Common.Text.{Text}
use daimon.Common.Result.{Result, ok, err}
use daimon.Common.Json.{Json, Semver}
use daimon.Orchestrator.Plan.{Error, Plan, planning}
use daimon.Orchestrator.Store.{Database, World, TypedBody, capture}
use daimon.Orchestrator.Create.{create_plan, transact, commit, insert_steps, new_steps, drawn}
use daimon.Triage.{
  AnomalyDetected, Signature, Dedupe, admit, triage_intent, incident_record, capture_incident,
  note_plan, open_plan, signature_of, handle,
}
use daimon.Triage.Window.{admit_all, admit_once}

module _ {F : Type 0} (json : Json) (semver : Semver) (db : Database) (show_value : F → Text) where
  -- No step was added and nothing was sent; at most one plan was, not yet run.
  abbrev pub OpensOnly : Text → World json semver → World json semver → Type 0
  OpensOnly intent w v =
      (v.plan_steps ≡ w.plan_steps)
      × ((v.sent ≡ w.sent)
          × ((v.dispatches ≡ w.dispatches)
              × ((v.plans ≡ w.plans)
                  ⊎ ((p : Plan json.Value) × (v.plans ≡ w.plans ++ p ∷ [])
                      × (p.status ≡ planning)
                      × (p.intent ≡ intent)))))

  capture-kept :
      (o : Option TypedBody) (intent : Text) (w v : World json semver)
      → OpensOnly intent w v
      → OpensOnly intent w (capture json semver db o v)
  unfolding capture
  capture-kept none intent w v h = h
  capture-kept (some b) intent w v h = elim (Bool-cases (db.remembers b)) [
    | inl e ↦ rw (capture, e) h
    | inr e ↦ rw (capture, e) h
  ]

  create_plan-OpensOnly :
      (intent : Text) (w : World json semver)
      → OpensOnly intent w (create_plan json semver db none intent [] w).1
  unfolding create_plan transact commit insert_steps new_steps drawn
  create_plan-OpensOnly intent w = elim (Option-cases (db.fault w.statements)) [
    | inr (x, e) ↦ rw (create_plan, e) (refl, (refl, (refl, inl refl)))
    | inl e ↦ elim (Option-cases (db.fault (suc w.statements))) [
      | inr (x, f) ↦ rw (create_plan, e, f) (refl, (refl, (refl, inl refl)))
      | inl f ↦ rw (create_plan, e, f) (refl, (refl, (refl, inr (_, refl, refl, refl))))
    ]
  ]

  note_plan-OpensOnly :
      (a : AnomalyDetected F) (intent : Text) (w : World json semver)
      (x : Result (Plan json.Value) Error × World json semver)
      → OpensOnly intent w x.1
      → OpensOnly intent w (note_plan json semver db show_value a x)
  unfolding note_plan capture_incident
  note_plan-OpensOnly a intent w (err e, v) h = h
  note_plan-OpensOnly a intent w (ok plan, v) h =
      capture-kept (some (incident_record show_value db.show_id a plan.id)) intent w v h

  open_plan-OpensOnly :
      (a : AnomalyDetected F) (b : Bool) (w : World json semver)
      → OpensOnly (triage_intent show_value a) w (open_plan json semver db show_value a b w)
  unfolding open_plan
  open_plan-OpensOnly a false w = (refl, (refl, (refl, inl refl)))
  open_plan-OpensOnly a true w =
      note_plan-OpensOnly a (triage_intent show_value a) w _
        (create_plan-OpensOnly (triage_intent show_value a) w)

  -- Triage never acts: for an anomaly the handler answers without an error, sends nothing over the
  -- bus and adds no step; at most it opens one plan, in the status `planning`, whose intent is that
  -- of the anomaly.
  pub handle-OpensOnly :
      (a : AnomalyDetected F) (now : ℕ) (d : Dedupe) (w : World json semver)
      → ((handle json semver db show_value (ok a) now d w).0 ≡ ok tt)
        × OpensOnly
            (triage_intent show_value a)
            w
            (handle json semver db show_value (ok a) now d w).1.1
  unfolding handle
  handle-OpensOnly a now d w =
      (refl, open_plan-OpensOnly a (admit (signature_of json semver db show_value a) now d).0 w)

  -- Within the window the handler does nothing for a second anomaly of the same signature, also when
  -- the plan of the first could not be created.
  pub handle_once :
      (a b : AnomalyDetected F) (t now : ℕ) (events : List (Signature × ℕ)) (d : Dedupe)
      (w : World json semver)
      → signature_of json semver db show_value b ≡ signature_of json semver db show_value a
      → (admit (signature_of json semver db show_value a) t d).0 ≡ true
      → All (λ e. t ≤ e.1) events
      → t ≤ now
      → now < t + d.dedupe_ttl
      → (handle json semver db show_value
          (ok b)
          now
          (admit_all events (handle json semver db show_value (ok a) t d w).1.0)
          w).1.1
        ≡ w
  unfolding handle open_plan
  handle_once a b t now events d w same h k since within =
      let key = signature_of json semver db show_value a in
      let seen = admit_all events (admit key t d).1 in
      let refused : (admit (signature_of json semver db show_value b) now seen).0 ≡ false =
        ap (λ k. (admit k now seen).0) same ∙ admit_once key t now events d h k since within in
      ap (λ x. open_plan json semver db show_value b x w) refused
