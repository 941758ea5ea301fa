-- ===== src/Guard/Watch/Rounds.antt =====
-- What the watcher makes of the file, in every state that the tasks can reach.
use daimon.Common.{
  [], ◌∷◌, ◌++◌, ℕ, zero, suc, ◌≡◌, refl, sym, ap, Bool, true, false, ◌&&◌, ◌||◌, not, arith,
}
use mathlib.Core.Path.{subst}
use daimon.Common.Text.{Text, codes}
use daimon.Guard.Kill.{engage, release}
use daimon.Guard.Watch.{
  absent, holding, Watcher, waiting, saw, read, listening, Switch, spawn_watchers, exists_file,
  compare_last, watcher_step, signal, engage_handler, Step, watches, probe_fails, signals, handles,
  operates, Reach, starts, goes,
}

-- What the watcher has read belongs to a file that it had not seen.
abbrev pub ReadsNew : Watcher → Bool → Type 0
ReadsNew waiting last = Unit
ReadsNew (saw exists) last = Unit
ReadsNew (read reason) last = last ≡ false

-- While the watcher holds the file for present, the switch is engaged.
abbrev pub IsWatched : Switch → Type 0
IsWatched s = (s.last ≡ true → s.kill.engaged ≡ true) × ReadsNew s.watcher s.last

compare_last-IsWatched :
    (path : Text) (exists last : Bool) (s : Switch)
    → s.last ≡ last
    → IsWatched s
    → IsWatched (compare_last path exists last s)
unfolding compare_last
compare_last-IsWatched path true true s e w = (w.0, tt)
compare_last-IsWatched path true false s e w = (w.0, e)
compare_last-IsWatched path false true s e w = (λ h. absurd (ground (arith, h)), tt)
compare_last-IsWatched path false false s e w = (w.0, tt)

watcher_step-IsWatched :
    (path : Text) (p : Watcher) (s : Switch) → IsWatched s → IsWatched (watcher_step path p s)
unfolding watcher_step engage
watcher_step-IsWatched path waiting s w = (w.0, tt)
watcher_step-IsWatched path (saw exists) s w = compare_last-IsWatched path exists s.last s refl w
watcher_step-IsWatched path (read reason) s w = (λ h. refl, tt)

signal-IsWatched : (b : Bool) (s : Switch) → IsWatched s → IsWatched (signal b s)
unfolding signal
signal-IsWatched true s w = w
signal-IsWatched false s w = w

Step-IsWatched : (path : Text) (s t : Switch) → Step path s t → IsWatched s → IsWatched t
unfolding engage_handler engage
Step-IsWatched path _ _ (watches s) w = watcher_step-IsWatched path s.watcher s w
Step-IsWatched path _ _ (probe_fails s e) w = (w.0, tt)
Step-IsWatched path _ _ (signals b s e) w = signal-IsWatched b s w
Step-IsWatched path _ _ (handles s e) w = (λ h. refl, w.1)
Step-IsWatched path _ _ (operates file s) w = w

-- In every reachable state, in whatever order the tasks and an operator took their steps: while the
-- watcher holds the file for present, the switch is engaged; and what it has read is of a file that
-- it did not yet hold for present.
pub Reach-IsWatched : (path : Text) (s : Switch) → Reach path s → IsWatched s
unfolding spawn_watchers
Reach-IsWatched path _ (starts file) = (λ h. absurd (ground (arith, h)), tt)
Reach-IsWatched path t (goes {s = s} r step) =
    Step-IsWatched path s t step (Reach-IsWatched path s r)

-- The watcher alone, for `n` steps.
unfoldable pub watches_for : Text → ℕ → Switch → Switch
unfolding watcher_step
watches_for path zero s = s
watches_for path (suc n) s = watches_for path n (watcher_step path s.watcher s)

and_false : (b : Bool) → false ≡ (b && false)
and_false true = refl
and_false false = refl

and_true : (b : Bool) → b ≡ (b && true)
and_true true = refl
and_true false = refl

round_of :
    (path : Text) (exists last : Bool) (s : Switch)
    → s.watcher ≡ waiting
    → exists_file s.file ≡ exists
    → s.last ≡ last
    → (s.last ≡ true → s.kill.engaged ≡ true)
    → (watches_for path 3 s).kill.engaged ≡ (exists || (s.kill.engaged && not last))
unfolding watcher_step compare_last engage release watches_for
round_of path true true s w e l k = rw (w, e, l) (k l)
round_of path true false s w e l k = rw (w, e, l) refl
round_of path false true s w e l k = rw (w, e, l) (and_false s.kill.engaged)
round_of path false false s w e l k = rw (w, e, l) (and_true s.kill.engaged)

-- A round of the watcher that nothing interrupts, begun in a reachable state before a tick, engages
-- the switch when the file is there; when it is not, the switch stays engaged only if it was engaged
-- and the watcher did not hold the file for present.
pub watches_for-engaged :
    (path : Text) (s : Switch)
    → Reach path s
    → s.watcher ≡ waiting
    → (watches_for path 3 s).kill.engaged ≡ (exists_file s.file || (s.kill.engaged && not s.last))
watches_for-engaged path s r w =
    round_of path (exists_file s.file) s.last s w refl refl (Reach-IsWatched path s r).0

abbrev SawNone : Watcher → Type 0
SawNone waiting = Unit
SawNone (saw exists) = exists ≡ false
SawNone (read reason) = ⊥

-- The switch is engaged, there is no file, and the watcher knows of none.
abbrev IsForgotten : Switch → Type 0
IsForgotten s = (s.file ≡ absent) × (s.last ≡ false) × (s.kill.engaged ≡ true) × SawNone s.watcher

compare_last-IsForgotten :
    (path : Text) (exists last : Bool) (s : Switch)
    → exists ≡ false
    → s.last ≡ last
    → s.file ≡ absent
    → s.last ≡ false
    → s.kill.engaged ≡ true
    → IsForgotten (compare_last path exists last s)
unfolding compare_last
compare_last-IsForgotten path true last s x e f l k = absurd (ground (arith, x))
compare_last-IsForgotten path false true s x e f l k = absurd (ground (arith, e, l))
compare_last-IsForgotten path false false s x e f l k = (f, l, k, tt)

watcher_step-IsForgotten :
    (path : Text) (p : Watcher) (s : Switch)
    → s.watcher ≡ p
    → IsForgotten s
    → IsForgotten (watcher_step path p s)
unfolding watcher_step exists_file
watcher_step-IsForgotten path waiting s e (f, l, k, n) = (f, l, k, ap exists_file f)
watcher_step-IsForgotten path (saw exists) s e (f, l, k, n) =
    compare_last-IsForgotten path exists s.last s (subst SawNone e n) refl f l k
watcher_step-IsForgotten path (read reason) s e (f, l, k, n) = absurd (subst SawNone e n)

watches_for-IsForgotten :
    (path : Text) (n : ℕ) (s : Switch) → IsForgotten s → IsForgotten (watches_for path n s)
unfolding watches_for
watches_for-IsForgotten path zero s h = h
watches_for-IsForgotten path (suc n) s h =
    watches_for-IsForgotten path n (watcher_step path s.watcher s)
      (watcher_step-IsForgotten path s.watcher s refl h)

-- The state after SIGUSR1 has written the file, and after its handler has engaged the switch.
abbrev pub signalled : Switch → Switch
unfolding signal
signalled s = signal true s

abbrev pub handled : Switch → Switch
unfolding signalled engage_handler
handled s = engage_handler (signalled s)

-- The state after an operator has removed the file as well.
abbrev pub removed : Switch → Switch
unfolding handled
removed s = record (handled s) { file = absent }

-- A file that SIGUSR1 wrote and that an operator removes before the next tick does not release the
-- switch: from every reachable state in which the watcher waits and knows of no file, and the handler
-- waits for a signal, the signal's write, the handler's `engage` and the removal can follow one
-- another, and after them the switch stays engaged however long the watcher runs alone.
pub signal_forgotten :
    (path : Text) (s : Switch)
    → Reach path s
    → s.watcher ≡ waiting
    → s.handler ≡ listening
    → s.last ≡ false
    → Step path s (signalled s)
      × ((signalled s).file ≡ holding (codes "engaged via SIGUSR1" ++ 10 ∷ []))
      × Step path (signalled s) (handled s)
      × Step path (handled s) (removed s)
      × Reach path (removed s)
      × ((n : ℕ) → (watches_for path n (removed s)).kill.engaged ≡ true)
unfolding removed handled signalled signal engage_handler engage
signal_forgotten path s r w h l =
    let a : Step path s (signalled s) = signals true s h in
    let b : Step path (signalled s) (handled s) = handles (signalled s) refl in
    let c : Step path (handled s) (removed s) = operates absent (handled s) in
    (
      a,
      refl,
      b,
      c,
      goes (goes (goes r a) b) c,
      λ n. (watches_for-IsForgotten path n (removed s) (refl, l, refl, subst SawNone (sym w) tt)).2,
    )
