-- ===== src/Orchestrator/Run/Order.antt =====
-- The order in which `run_plan` executes the steps of a plan.
use native.Mathlib.Omega.{arith}
use mathlib.Core.Path.{subst}
use daimon.Common.{
  ℕ, zero, suc, ◌+◌, length, length-append, ◌≡◌, refl, sym, ap, ◌∙◌, ◌⊎◌, inl, inr, true, false,
  none, some, List, [], ◌∷◌, ◌++◌, map, any, all, get_elem?, set, set-set, In, In-append_left,
  In-append_right, All, All-set, All-map, get_elem?-In, &&-elim, Bool-cases, ◌==◌, ==_iff,
}
use daimon.Orchestrator.Plan.{Step, pending, running, succeeded}
use daimon.Orchestrator.Run.{
  LoopState, is_unfinished, member, runnable, find_runnable, mark_running, mark_succeeded,
  mark_failed, stuck,
}
use daimon.Orchestrator.Run.Rounds.{find_runnable_sound}
use daimon.Orchestrator.Run.Total.{open_count, open_count-set, runnable_pending}

-- A step without what its run changes in memory: its status and its result.
abbrev pub shape : {J : Type 0} → Step J → Step J
shape s = record s { status = pending; result = none }

-- `Executes IsRun first before shapes done n sent`: the steps of `done` ran one after another, each
-- after all that it waits for. Each run makes one dispatch and sends one request, `IsRun` of the number
-- of that dispatch; those before were `first` and `before`, and with them there are `n` and `sent`.
pub data Executes {J E : Type 0} (IsRun : ℕ → Step J → E → Type 0) (first : ℕ) (before : List E)
    (shapes : List (Step J)) : List ℕ → ℕ → List E → Type 0 where
  nothing : Executes IsRun first before shapes [] first before
  after :
      {done next : List ℕ} {n m : ℕ} {sent out : List E} (s : Step J) (env : E)
      → Executes IsRun first before shapes done n sent
      → In s shapes
      → All (λ d. In d done) s.depends_on
      → IsRun n s env
      → next ≡ done ++ s.id ∷ []
      → m ≡ suc n
      → out ≡ sent ++ env ∷ []
      → Executes IsRun first before shapes next m out

member_sound : (d : ℕ) (done : List ℕ) → member d done ≡ true → In d done
member_sound d [] h = absurd (ground (arith, h))
member_sound d (x ∷ done) h = elim (Bool-cases (x == d)) [
  | inl e ↦ inl (sym ((==_iff x d).0 e))
  | inr e ↦ inr (member_sound d done (ground (arith, h, e)))
]

all-member : (ds done : List ℕ) → all (λ d. member d done) ds ≡ true → All (λ d. In d done) ds
all-member [] done h = tt
all-member (d ∷ ds) done h =
    (member_sound d done (&&-elim _ _ h).0, all-member ds done (&&-elim _ _ h).1)

module _ {J : Type 0} where
  map-shape-set :
      (xs : List (Step J)) (i : ℕ) (s v : Step J)
      → get_elem? xs i ≡ some s
      → shape s ≡ shape v
      → map shape (set xs i v) ≡ map shape xs
  map-shape-set [] i s v g e = refl
  map-shape-set (x ∷ xs) zero s v g e =
      let q : x ≡ s = ground (arith, g) in ap (λ t. t ∷ map shape xs) (sym e ∙ ap shape (sym q))
  map-shape-set (x ∷ xs) (suc i) s v g e = ap (λ t. shape x ∷ t) (map-shape-set xs i s v g e)

  In-map-shape : (xs : List (Step J)) (s : Step J) → In s xs → In (shape s) (map shape xs)
  In-map-shape [] s h = elim h [ ]
  In-map-shape (x ∷ xs) s (inl e) = inl (ap shape e)
  In-map-shape (x ∷ xs) s (inr h) = inr (In-map-shape xs s h)

  -- A step that has not run, or that has succeeded and is in `done`.
  abbrev pub Settled : List ℕ → Step J → Type 0
  Settled done s = (s.status ≡ pending) ⊎ ((s.status ≡ succeeded) × In s.id done)

module _ {J E : Type 0} (IsRun : ℕ → Step J → E → Type 0) (first : ℕ) (before : List E) where
  pub record LoopInv (shapes : List (Step J)) (l : LoopState J) (n : ℕ) (sent : List E)
      : Type 0 where
    pub same_shapes : map shape l.steps ≡ shapes
    pub in_order : Executes IsRun first before shapes l.done n sent
    pub statuses : All (Settled l.done) l.steps
    pub unflagged : l.failed_flag ≡ false
    pub counted : open_count l.steps + length l.done ≡ length shapes

  grow : (done : List ℕ) (id : ℕ) (s : Step J) → Settled done s → Settled (done ++ id ∷ []) s
  grow done id s (inl e) = inl e
  grow done id s (inr (e, i)) = inr (e, In-append_left s.id done (id ∷ []) i)

  pub mark_succeeded-LoopInv :
      (shapes : List (Step J)) (l : LoopState J) (n m : ℕ) (sent out : List E) (i : ℕ) (s : Step J)
      (r : J) (env : E)
      → find_runnable l.done l.steps ≡ some (i, s)
      → IsRun n (shape s) env
      → m ≡ suc n
      → out ≡ sent ++ env ∷ []
      → LoopInv shapes l n sent
      → LoopInv shapes (mark_succeeded i s r (mark_running i s l)) m out
  unfolding mark_succeeded mark_running runnable
  mark_succeeded-LoopInv shapes l n m sent out i s r env f run_of q o inv =
      let (g, run) = find_runnable_sound l.done l.steps i s f in
      let v : Step J = record s { status = succeeded; result = some r } in
      let next : List ℕ = l.done ++ s.id ∷ [] in
      let steps = set-set l.steps i (record s { status = running }) v in
      record {
        same_shapes = ap (map shape) steps ∙ map-shape-set l.steps i s v g refl ∙ inv.same_shapes;
        in_order =
            after (shape s) env inv.in_order
              (subst (λ x. In (shape s) x) inv.same_shapes
                (In-map-shape l.steps s (get_elem?-In l.steps i s g)))
              (all-member s.depends_on l.done (&&-elim _ _ run).1) run_of refl q o;
        statuses = subst (All (Settled next)) (sym steps) (
            All-set (Settled next) l.steps i v (All-map _ _ l.steps (grow l.done s.id) inv.statuses)
              (inr (refl, In-append_right s.id l.done (s.id ∷ []) (inl refl))));
        unflagged = inv.unflagged;
        counted =
            let c = open_count-set l.steps i s v g (runnable_pending l.done s run) refl in
            let d = length-append l.done (s.id ∷ []) in
            subst (λ x. open_count x + length next ≡ length shapes) (sym steps)
              (omega (arith, c, d, inv.counted));
      }

  -- What holds where the loop breaks off without a failure: every step is in `done`.
  abbrev pub LoopEnd : List (Step J) → LoopState J → ℕ → List E → Type 0
  LoopEnd shapes l n sent =
      l.failed_flag ≡ false
      → Executes IsRun first before shapes l.done n sent
        × All (λ (s : Step J). In s.id l.done) shapes
        × (length l.done ≡ length shapes)

  finished-All :
      (done : List ℕ) (steps : List (Step J))
      → All (Settled done) steps
      → any (λ s. is_unfinished s.status) steps ≡ false
      → All (λ (s : Step J). In s.id done) (map shape steps)
  finished-All done [] a h = tt
  finished-All done (s ∷ ss) (inl e, a) h = absurd (ground (arith, h, e))
  finished-All done (s ∷ ss) (inr (e, i), a) h = (i, finished-All done ss a (ground (arith, h, e)))

  finished_count :
      (done : List ℕ) (steps : List (Step J))
      → All (Settled done) steps
      → any (λ s. is_unfinished s.status) steps ≡ false
      → open_count steps ≡ 0
  unfolding open_count
  finished_count done [] a h = refl
  finished_count done (s ∷ ss) (inl e, a) h = absurd (ground (arith, h, e))
  finished_count done (s ∷ ss) (inr (e, i), a) h =
      rw e (finished_count done ss a (ground (arith, h, e)))

  pub stuck-LoopEnd :
      (shapes : List (Step J)) (l : LoopState J) (n : ℕ) (sent : List E)
      → LoopInv shapes l n sent
      → LoopEnd shapes (stuck l) n sent
  unfolding stuck
  stuck-LoopEnd shapes l n sent inv h = (
    inv.in_order,
    subst (All (λ (s : Step J). In s.id l.done)) inv.same_shapes
        (finished-All l.done l.steps inv.statuses (ground (arith, h, inv.unflagged))),
    let z = finished_count l.done l.steps inv.statuses (ground (arith, h, inv.unflagged)) in
        omega (arith, z, inv.counted),
  )

  pub mark_failed-LoopEnd :
      (shapes : List (Step J)) (l : LoopState J) (n : ℕ) (sent : List E) (i : ℕ) (s : Step J)
      → LoopEnd shapes (mark_failed i s (mark_running i s l)) n sent
  unfolding mark_failed mark_running
  mark_failed-LoopEnd shapes l n sent i s h = absurd (ground (arith, h))
