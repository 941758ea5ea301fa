-- ===== src/Examples/Watch.antt =====
-- The kill switch and the triage of anomalies at concrete runs.
use native.Mathlib.Omega.{arith}
use daimon.Common.{ℕ, ◌≡◌, refl, true, not, ◌&&◌, ◌||◌, none, [], ◌∷◌, ◌++◌}
use daimon.Common.Text.{Text, codes}
use daimon.Common.Result.{ok}
use daimon.Common.Map.{lookup}
use daimon.Guard.Watch.{
  absent, holding, Switch, spawn_watchers, exists_file, Reach, starts, goes, operates, Step,
}
use daimon.Guard.Watch.Rounds.{
  Reach-IsWatched, IsWatched, watches_for, watches_for-engaged, signal_forgotten, signalled,
  handled, removed,
}
use daimon.Orchestrator.Store.{Database, World}
use daimon.Triage.{AnomalyDetected, Dedupe, in_flight, admit, triage_intent, handle}
use daimon.Triage.Window.{admit_all}
use daimon.Triage.Spec.{answers, spec_answers, answers-spec_answers}
use daimon.Triage.Opens.{handle-OpensOnly, OpensOnly, handle_once}
use daimon.Examples.Values.{json, semver}

abbrev path : Text
path = codes "/run/kill"

abbrev started : Switch
unfolding spawn_watchers
started = spawn_watchers absent

-- An operator has written the file.
abbrev ordered : Switch
unfolding started
ordered = record started { file = holding (codes "stop") }

ordered-Reach : Reach path ordered
unfolding ordered started
ordered-Reach = goes (starts absent) (operates (holding (codes "stop")) (spawn_watchers absent))

Reach-IsWatched_example : IsWatched ordered
Reach-IsWatched_example = Reach-IsWatched path ordered ordered-Reach

watches_for-engaged_example :
    (watches_for path 3 ordered).kill.engaged
    ≡ (exists_file ordered.file || (ordered.kill.engaged && not ordered.last))
unfolding ordered started spawn_watchers
watches_for-engaged_example = watches_for-engaged path ordered ordered-Reach refl

signal_forgotten_example :
    Step path ordered (signalled ordered)
    × ((signalled ordered).file ≡ holding (codes "engaged via SIGUSR1" ++ 10 ∷ []))
    × Step path (signalled ordered) (handled ordered)
    × Step path (handled ordered) (removed ordered)
    × Reach path (removed ordered)
    × ((n : ℕ) → (watches_for path n (removed ordered)).kill.engaged ≡ true)
unfolding ordered started spawn_watchers
signal_forgotten_example = signal_forgotten path ordered ordered-Reach refl refl refl

abbrev hot : AnomalyDetected ℕ
hot = record {
  anomaly_id = 1;
  source = codes "prometheus";
  source_id = codes "h1";
  severity = codes "warning";
  title = codes "hot";
  metric_name = codes "cpu";
  metric_value = 95;
  threshold = 90;
  query = codes "q";
  target_ref = none;
}

abbrev show_value : ℕ → Text
show_value n = n ∷ []

abbrev tables : World json semver
tables = record {
  plans = [];
  plan_steps = [];
  statements = 0;
  dispatches = 0;
  sent = [];
  captured = [];
}

abbrev database : Database
database = record {
  fault = λ n. none;
  now = λ n. n;
  show_id = show_value;
  new_id = λ n. n;
  remembers = λ b. true;
}

abbrev unseen : Dedupe
unseen = record { seen = []; dedupe_ttl = 600 }

answers-spec_answers_example :
    answers (((codes "h1", codes "cpu"), 1) ∷ ((codes "h1", codes "cpu"), 500) ∷ []) unseen
    ≡ spec_answers 600
        (((codes "h1", codes "cpu"), 1) ∷ ((codes "h1", codes "cpu"), 500) ∷ [])
        (λ k. none)
unfolding lookup
answers-spec_answers_example =
    answers-spec_answers (((codes "h1", codes "cpu"), 1) ∷ ((codes "h1", codes "cpu"), 500) ∷ [])
      unseen (λ k. none) (λ k. refl)

handle-OpensOnly_example :
    ((handle json semver database show_value (ok hot) 1 unseen tables).0 ≡ ok tt)
    × OpensOnly json semver database show_value
        (triage_intent show_value hot)
        tables
        (handle json semver database show_value (ok hot) 1 unseen tables).1.1
handle-OpensOnly_example = handle-OpensOnly json semver database show_value hot 1 unseen tables

handle_once_example :
    (handle json semver database show_value
      (ok hot)
      500
      (admit_all
        (((codes "h2", codes "cpu"), 7) ∷ [])
        (handle json semver database show_value (ok hot) 1 unseen tables).1.0)
      tables).1.1
    ≡ tables
unfolding admit in_flight lookup
handle_once_example =
    handle_once json semver database show_value hot hot 1 500 (((codes "h2", codes "cpu"), 7) ∷ [])
      unseen tables refl refl (omega arith, tt) (omega arith) (omega arith)
