-- ===== src/Triage.antt =====
-- crates/daimon-triage/src/lib.rs: the agent that turns an anomaly into a plan that an operator has to
-- run. The time is that of `Instant::now`, and `from_value` of an anomaly is derived by serde.
pub mod Window
pub mod Spec
pub mod Opens
use daimon.Common.{
  ℕ, ◌+◌, ◌-◌, ◌≡◌, Bool, true, false, ◌&&◌, Option, none, some, List, [], ◌∷◌, ◌++◌, if◌then◌else◌,
  ltb, &&-elim, &&-intro,
}
use mathlib.Core.Path.{ap₂, ap}
use mathlib.Core.Logic.{◌↔◌}
use daimon.Common.Text.{Text, codes, text_eq, text_eq_sound, text_eq_complete}
use daimon.Common.Result.{Result, ok, err}
use daimon.Common.Json.{Json, Semver}
use daimon.Common.Map.{Eq, lookup, insert}
use daimon.Core.Capability.{Capability, read_only}
use daimon.Orchestrator.Plan.{Error, Plan}
use daimon.Orchestrator.Store.{Database, World, TypedBody, incident, capture}
use daimon.Orchestrator.Create.{create_plan}

-- `F` is the type of the values of a metric.
pub record AnomalyDetected (F : Type 0) : Type 0 where
  pub anomaly_id : ℕ
  pub source : Text
  pub source_id : Text
  pub severity : Text
  pub title : Text
  pub metric_name : Text
  pub metric_value : F
  pub threshold : F
  pub query : Text
  pub target_ref : Option Text

abbrev pub triage_capability : Text
triage_capability = codes "harness.triage.anomaly"

-- In seconds.
abbrev pub dedupe_ttl_default : ℕ
dedupe_ttl_default = 600

-- `(source_id, metric_name)`.
abbrev pub Signature : Type 0
Signature = Text × Text

abbrev pub signature_eq : Signature → Signature → Bool
unfolding text_eq
signature_eq a b = text_eq a.0 b.0 && text_eq a.1 b.1

pub signature_eq_iff : (a b : Signature) → (signature_eq a b ≡ true) ↔ (a ≡ b)
unfolding signature_eq
signature_eq_iff a b = (
  λ h.
      ap₂ (λ x y. (x, y)) (text_eq_sound a.0 b.0 (&&-elim _ _ h).0)
        (text_eq_sound a.1 b.1 (&&-elim _ _ h).1),
  λ e.
      &&-intro _ _ (text_eq_complete a.0 b.0 (ap (λ x. x.0) e))
        (text_eq_complete a.1 b.1 (ap (λ x. x.1) e)),
)

instance abbrev pub signature_Eq : Eq Signature
signature_Eq = record { beq = signature_eq; beq_iff = signature_eq_iff }

-- The entries of `seen`, with the time of each, and the window.
pub record Dedupe : Type 0 where
  pub seen : List (Signature × ℕ)
  pub dedupe_ttl : ℕ

-- The match on the entry that is there; `duration_since` stops at 0.
unfoldable pub in_flight : ℕ → ℕ → Option ℕ → Bool
in_flight ttl now none = false
in_flight ttl now (some prev) = ltb (now - prev) ttl

unfoldable pub admit : Signature → ℕ → Dedupe → Bool × Dedupe
unfolding lookup insert in_flight
admit key now d =
    if in_flight d.dedupe_ttl now (lookup key d.seen)
    then (false, d)
    else (true, record d { seen = insert key now d.seen })

module _ {F : Type 0} (show_value : F → Text) where
  unfoldable pub triage_intent : AnomalyDetected F → Text
  triage_intent a =
      codes "triage: "
      ++ (a.title
          ++ (codes " ("
              ++ (a.metric_name
                  ++ (codes " = "
                      ++ (show_value a.metric_value
                          ++ (codes " > " ++ (show_value a.threshold ++ codes ")")))))))

  unfoldable pub impact_of : AnomalyDetected F → Text
  impact_of a =
      a.title
      ++ (codes " on "
          ++ (a.source_id
              ++ (codes " — "
                  ++ (a.metric_name
                      ++ (codes " = "
                          ++ (show_value a.metric_value
                              ++ (codes " (breached threshold "
                                  ++ (show_value a.threshold ++ codes ")"))))))))

  unfoldable pub incident_record : (ℕ → Text) → AnomalyDetected F → ℕ → TypedBody
  unfolding impact_of
  incident_record show_id a plan_id =
      incident (codes "anomaly: " ++ a.title) (impact_of a)
        (codes "triage plan " ++ (show_id plan_id ++ codes " created (pending operator)"))

module _ {F : Type 0} (json : Json) (semver : Semver) (db : Database) (show_value : F → Text) where
  abbrev pub Wd : Type 0
  Wd = World json semver

  unfoldable pub caps : List (Capability semver.Version json.Value)
  unfolding read_only
  caps = read_only triage_capability (semver.new 1 0 0) ∷ []

  unfoldable pub capture_incident : AnomalyDetected F → ℕ → Wd → Wd
  unfolding incident_record capture
  capture_incident a plan_id w =
      capture json semver db (some (incident_record show_value db.show_id a plan_id)) w

  -- A plan that cannot be created is logged.
  unfoldable pub note_plan : AnomalyDetected F → Result (Plan json.Value) Error × Wd → Wd
  unfolding capture_incident
  note_plan a (err e, w) = w
  note_plan a (ok plan, w) = capture_incident a plan.id w

  unfoldable pub open_plan : AnomalyDetected F → Bool → Wd → Wd
  unfolding create_plan triage_intent note_plan
  open_plan a false w = w
  open_plan a true w =
      note_plan a (create_plan json semver db none (triage_intent show_value a) [] w)

  abbrev pub signature_of : AnomalyDetected F → Signature
  signature_of a = (a.source_id, a.metric_name)

  -- A body that does not decode is the one error.
  unfoldable pub handle :
      Result (AnomalyDetected F) Text → ℕ → Dedupe → Wd → Result (Unit {0}) Text × (Dedupe × Wd)
  unfolding admit open_plan
  handle (err e) now d w = (err e, (d, w))
  handle (ok a) now d w =
      let (fresh, d') = admit (signature_of a) now d in (ok tt, (d', open_plan a fresh w))
