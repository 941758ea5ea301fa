-- ===== src/Guard/Approvals/Wait.antt =====
-- The polling loop of `wait_for_decision`.
use native.Mathlib.Omega.{arith}
use mathlib.Core.Path.{subst}
use daimon.Common.{
  ℕ, zero, suc, ◌+◌, ◌≤◌, ◌<◌, ◌≡◌, refl, sym, inl, inr, true, Option, none, some, List, In, All,
  find, ◌==◌, ==_iff, Bool-cases, leb,
}
use daimon.Common.Text.{Text}
use daimon.Common.Result.{Result, ok, err}
use daimon.Guard.Error.{Error, approval_timeout}
use daimon.Guard.Approvals.{
  ApprovalRecord, is_decided, writes, Pool, Session, begin, read, get, answer, poll, settle,
  at_deadline, Outcome, wait_for_decision, sleep, expire_if_pending,
}
use daimon.Guard.Approvals.Rows.{find_sound}

module _ {J : Type 0} (pool : Pool J) (show_id : ℕ → Text) (id deadline interval : ℕ) where
  abbrev Ends : Outcome pool show_id id deadline interval → Type 0
  Ends o = (r : Result (ApprovalRecord J) Error) × (s : Session J) × (o ≡ some (r, s))

  at_deadline-Ends :
      (found : Option (ApprovalRecord J)) (s : Session J)
      (rest : Outcome pool show_id id deadline interval)
      → ((s.clock < deadline) → Ends rest)
      → Ends (at_deadline pool show_id id deadline interval found s rest)
  unfolding at_deadline
  at_deadline-Ends (some rec) s rest k = (ok rec, s, refl)
  at_deadline-Ends none s rest k = elim (Bool-cases (leb deadline s.clock)) [
    | inl e ↦ (err (approval_timeout (show_id id)), expire_if_pending pool id s, rw e refl)
    | inr e ↦ rw e (k (ground arith))
  ]

  settle-Ends :
      (found : Result (Option (ApprovalRecord J)) Error × Session J)
      (rest : Outcome pool show_id id deadline interval)
      → ((found.1.clock < deadline) → Ends rest)
      → Ends (settle pool show_id id deadline interval found rest)
  unfolding settle
  settle-Ends (err e, s) rest k = (err e, s, refl)
  settle-Ends (ok found, s) rest k = at_deadline-Ends (answer found) s rest k

  get_session : (s : Session J) → (get pool id s).1 ≡ begin pool s
  unfolding get read
  get_session s = ground arith

  late : (s : Session J) → (begin pool s).clock < deadline → deadline ≤ s.clock → ⊥
  unfolding begin
  late s k h = omega arith

  sooner :
      (fuel : ℕ) (s : Session J)
      → 0 < interval
      → deadline ≤ s.clock + suc fuel
      → (begin pool s).clock < deadline
      → deadline ≤ (sleep interval (begin pool s)).clock + fuel
  unfolding begin
  sooner fuel s i h k = omega arith

  poll-Ends :
      (fuel : ℕ) (s : Session J)
      → 0 < interval
      → deadline ≤ s.clock + fuel
      → Ends (poll pool show_id id deadline interval (suc fuel) s)
  unfolding poll
  poll-Ends zero s i h =
      settle-Ends (get pool id s) none
        (λ k. absurd (late s (subst (λ x. x.clock < deadline) (get_session s) k) (omega arith)))
  poll-Ends (suc fuel) s i h = settle-Ends (get pool id s) _ (λ k.
      poll-Ends fuel (sleep interval (begin pool s)) i
        (sooner fuel s i h (subst (λ x. x.clock < deadline) (get_session s) k)))

  -- What the loop may end with: the row of this id with an operator's decision, the timeout, or a
  -- fault of the database.
  abbrev DecidedRow : Result (ApprovalRecord J) Error × Session J → Type 0
  DecidedRow (ok rec, s) = In rec s.rows × (rec.id ≡ id) × (is_decided rec.status ≡ true)
  DecidedRow (err e, s) = Unit

  abbrev DecidedOutcome : Outcome pool show_id id deadline interval → Type 0
  DecidedOutcome none = Unit
  DecidedOutcome (some x) = DecidedRow x

  FoundIn : Result (Option (ApprovalRecord J)) Error × Session J → Type 0
  FoundIn (ok (some r), s) = In r s.rows × (r.id ≡ id)
  FoundIn _ = Unit

  read-FoundIn : (o : Option Error) (s : Session J) → FoundIn (read pool id o s)
  unfolding read FoundIn
  read-FoundIn (some e) s = tt
  read-FoundIn none s = go (find (λ r. r.id == id) s.rows) refl
    where
      go : (o : Option (ApprovalRecord J)) → find (λ r. r.id == id) s.rows ≡ o → FoundIn (ok o, s)
      go none e = tt
      go (some r) e = let f = find_sound (λ r. r.id == id) s.rows r e in (f.0, (==_iff _ _).0 f.1)

  settle-Decided :
      (found : Result (Option (ApprovalRecord J)) Error × Session J)
      (rest : Outcome pool show_id id deadline interval)
      → FoundIn found
      → DecidedOutcome rest
      → DecidedOutcome (settle pool show_id id deadline interval found rest)
  unfolding settle at_deadline FoundIn
  settle-Decided (err e, s) rest f k = tt
  settle-Decided (ok none, s) rest f k = elim (Bool-cases (leb deadline s.clock)) [
    | inl e ↦ rw e tt
    | inr e ↦ rw e k
  ]
  settle-Decided (ok (some r), s) rest f k = elim (Bool-cases (is_decided r.status)) [
    | inl d ↦ rw d (f.0, f.1, d)
    | inr d ↦ elim (Bool-cases (leb deadline s.clock)) [
      | inl e ↦ rw (d, e) tt
      | inr e ↦ rw (d, e) k
    ]
  ]

  poll-Decided :
      (fuel : ℕ) (s : Session J) → DecidedOutcome (poll pool show_id id deadline interval fuel s)
  unfolding poll get
  poll-Decided zero s = tt
  poll-Decided (suc fuel) s =
      settle-Decided (get pool id s) _ (read-FoundIn (pool.fault s.statements) (begin pool s))
        (poll-Decided fuel (sleep interval (begin pool s)))

  -- What holds of every row, and which the writes of other sessions keep, holds of every row when
  -- the loop answers with a decided one.
  module _ (P : ApprovalRecord J → Type 0)
      (kept : (n : ℕ) (rows : List (ApprovalRecord J))
        → All P rows
        → All P (writes (pool.others n) rows)) where
    abbrev RowsKeep : Outcome pool show_id id deadline interval → Type 0
    RowsKeep none = Unit
    RowsKeep (some (ok rec, s)) = All P s.rows
    RowsKeep (some (err e, s)) = Unit

    begin-rows : (s : Session J) → All P s.rows → All P (begin pool s).rows
    unfolding begin
    begin-rows s a = kept s.statements s.rows a

    settle-RowsKeep :
        (found : Result (Option (ApprovalRecord J)) Error × Session J)
        (rest : Outcome pool show_id id deadline interval)
        → All P found.1.rows
        → RowsKeep rest
        → RowsKeep (settle pool show_id id deadline interval found rest)
    unfolding settle at_deadline
    settle-RowsKeep (err e, s) rest a k = tt
    settle-RowsKeep (ok none, s) rest a k = elim (Bool-cases (leb deadline s.clock)) [
      | inl e ↦ rw e tt
      | inr e ↦ rw e k
    ]
    settle-RowsKeep (ok (some r), s) rest a k = elim (Bool-cases (is_decided r.status)) [
      | inl d ↦ rw d a
      | inr d ↦ elim (Bool-cases (leb deadline s.clock)) [
        | inl e ↦ rw (d, e) tt
        | inr e ↦ rw (d, e) k
      ]
    ]

    poll-RowsKeep :
        (fuel : ℕ) (s : Session J)
        → All P s.rows
        → RowsKeep (poll pool show_id id deadline interval fuel s)
    unfolding poll
    poll-RowsKeep zero s a = tt
    poll-RowsKeep (suc fuel) s a =
        settle-RowsKeep (get pool id s) _
          (subst (λ x. All P x.rows) (sym (get_session s)) (begin-rows s a))
          (poll-RowsKeep fuel (sleep interval (begin pool s)) (begin-rows s a))

module _ {J : Type 0} (pool : Pool J) (show_id : ℕ → Text) (id : ℕ) where
  -- With a positive interval between polls, `wait_for_decision` comes to an answer.
  pub wait_for_decision_ends :
      (timeout interval : ℕ) (s : Session J)
      → 0 < interval
      → (r : Result (ApprovalRecord J) Error) × (s' : Session J) × (wait_for_decision pool show_id
            id timeout interval s
          ≡ some (r, s'))
  unfolding wait_for_decision
  wait_for_decision_ends timeout interval s i =
      poll-Ends pool show_id id (s.clock + timeout) interval timeout s i (omega arith)

  -- A record that `wait_for_decision` answers with stands in the table under the id that was waited
  -- for, and an operator has approved or denied it.
  pub wait_for_decision_decided :
      (timeout interval : ℕ) (s s' : Session J) (rec : ApprovalRecord J)
      → wait_for_decision pool show_id id timeout interval s ≡ some (ok rec, s')
      → In rec s'.rows × (rec.id ≡ id) × (is_decided rec.status ≡ true)
  unfolding wait_for_decision
  wait_for_decision_decided timeout interval s s' rec h =
      subst (DecidedOutcome pool show_id id (s.clock + timeout) interval) h
        (poll-Decided pool show_id id (s.clock + timeout) interval (suc timeout) s)

  pub wait_for_decision_rows :
      (P : ApprovalRecord J → Type 0)
      → ((n : ℕ) (rows : List (ApprovalRecord J))
          → All P rows
          → All P (writes (pool.others n) rows))
      → (timeout interval : ℕ) (s s' : Session J) (rec : ApprovalRecord J) → All P s.rows
      → wait_for_decision pool show_id id timeout interval s ≡ some (ok rec, s')
      → All P s'.rows
  unfolding wait_for_decision
  wait_for_decision_rows P kept timeout interval s s' rec a h =
      subst (RowsKeep pool show_id id (s.clock + timeout) interval P kept) h
        (poll-RowsKeep pool show_id id (s.clock + timeout) interval P kept (suc timeout) s a)
