-- ===== src/Guard/Approvals.antt =====
-- crates/daimon-guard/src/approvals.rs: the inbox of writes that wait for an operator.
-- The table `public.approvals` is a list of rows. Postgres is a parameter: whether a statement
-- fails, how long it takes, which ids it hands out, and what other sessions wrote before it.
pub mod Rows
pub mod Wait
use daimon.Common.{
  ℕ, zero, suc, ◌+◌, Bool, true, false, ◌&&◌, Option, none, some, List, [], ◌∷◌, ◌++◌, map, find,
  if◌then◌else◌, ◌==◌, leb,
}
use daimon.Common.Text.{Text, codes, text_eq}
use daimon.Common.Result.{Result, ok, err}
use daimon.Guard.Error.{Error, pg, approval_timeout, other}

pub data ApprovalStatus : Type 0 where
  pending approved denied expired : ApprovalStatus

unfoldable pub as_str : ApprovalStatus → Text
as_str pending = codes "pending"
as_str approved = codes "approved"
as_str denied = codes "denied"
as_str expired = codes "expired"

unfoldable pub from_str : Text → ApprovalStatus
unfolding text_eq
from_str s =
    if text_eq s (codes "pending")
    then pending
    else if text_eq s (codes "approved")
    then approved
    else if text_eq s (codes "denied")
    then denied
    else expired

-- A row of the table. `J` is the type of the JSON parameters, which the inbox only stores; times
-- are milliseconds, ids are numbers.
pub record ApprovalRecord (J : Type 0) : Type 0 where
  pub id : ℕ
  pub actor_id : Text
  pub capability : Text
  pub target_ref : Option Text
  pub params : J
  pub status : ApprovalStatus
  pub created_at : ℕ
  pub decided_at : Option ℕ
  pub decided_by : Option ℕ

abbrev pub is_pending : ApprovalStatus → Bool
is_pending pending = true
is_pending _ = false

-- The states in which the waiting call goes on.
abbrev pub is_decided : ApprovalStatus → Bool
is_decided approved = true
is_decided denied = true
is_decided _ = false

-- The statements that change the table.
pub data Write (J : Type 0) : Type 0 where
  insert : ApprovalRecord J → Write J
  decision : (id decided_by : ℕ) → ApprovalStatus → (now : ℕ) → Write J
  expiry : (id now : ℕ) → Write J

module _ {J : Type 0} where
  -- `WHERE id = … AND status = 'pending'`.
  abbrev pub is_open : ℕ → ApprovalRecord J → Bool
  is_open id r = (r.id == id) && is_pending r.status

  unfoldable pub decide_row : ℕ → ℕ → ApprovalStatus → ℕ → ApprovalRecord J → ApprovalRecord J
  decide_row id decided_by status now r =
      if is_open id r
      then record r { status = status; decided_at = some now; decided_by = some decided_by }
      else r

  unfoldable pub expire_row : ℕ → ℕ → ApprovalRecord J → ApprovalRecord J
  expire_row id now r =
      if is_open id r then record r { status = expired; decided_at = some now } else r

  unfoldable pub write : Write J → List (ApprovalRecord J) → List (ApprovalRecord J)
  write (insert r) rows = rows ++ r ∷ []
  write (decision id decided_by status now) rows = map (decide_row id decided_by status now) rows
  write (expiry id now) rows = map (expire_row id now) rows

  unfoldable pub writes : List (Write J) → List (ApprovalRecord J) → List (ApprovalRecord J)
  unfolding write
  writes [] rows = rows
  writes (w ∷ ws) rows = writes ws (write w rows)

-- `map_err` of `decide` stands behind the query only, not behind `pool.get()`.
abbrev decide_error : Error → Error
decide_error (pg t) = other (codes "decide: " ++ t)
decide_error e = e

-- What the database does at the n-th statement of this session.
pub record Pool (J : Type 0) : Type 0 where
  pub fault : ℕ → Option Error
  pub latency : ℕ → ℕ
  pub new_id : ℕ → ℕ
  pub others : ℕ → List (Write J)

-- The table, the number of statements made, and the clock of this session.
pub record Session (J : Type 0) : Type 0 where
  pub rows : List (ApprovalRecord J)
  pub statements : ℕ
  pub clock : ℕ

module _ {J : Type 0} where
  -- `tokio::time::sleep`.
  abbrev pub sleep : ℕ → Session J → Session J
  sleep interval s = record s { clock = s.clock + interval }

  -- The record, if an operator has decided it.
  abbrev pub answer : Option (ApprovalRecord J) → Option (ApprovalRecord J)
  answer none = none
  answer (some r) = if is_decided r.status then some r else none

module _ {J : Type 0} (pool : Pool J) where
  -- Other sessions write first; the statement takes its time.
  unfoldable pub begin : Session J → Session J
  begin s = record {
    rows = writes (pool.others s.statements) s.rows;
    statements = suc s.statements;
    clock = s.clock + pool.latency s.statements;
  }

  -- The new row is `pending`, and its id is the answer.
  abbrev pub new_row : ℕ → Text → Text → Option Text → J → ℕ → ApprovalRecord J
  new_row id actor_id capability target_ref params now = record {
    id = id;
    actor_id = actor_id;
    capability = capability;
    target_ref = target_ref;
    params = params;
    status = pending;
    created_at = now;
    decided_at = none;
    decided_by = none;
  }

  unfoldable pub insert_row :
      ℕ → Text → Text → Option Text → J → Option Error → Session J → Result ℕ Error × Session J
  insert_row id actor_id capability target_ref params (some e) s = (err e, s)
  insert_row id actor_id capability target_ref params none s = (
    ok id,
    record s { rows = s.rows ++ new_row id actor_id capability target_ref params s.clock ∷ [] },
  )

  unfoldable pub enqueue : Text → Text → Option Text → J → Session J → Result ℕ Error × Session J
  unfolding begin insert_row
  enqueue actor_id capability target_ref params s =
      insert_row (pool.new_id s.statements) actor_id capability target_ref params
        (pool.fault s.statements) (begin s)

  unfoldable pub read :
      ℕ → Option Error → Session J → Result (Option (ApprovalRecord J)) Error × Session J
  read id (some e) s = (err e, s)
  read id none s = (ok (find (λ r. r.id == id) s.rows), s)

  unfoldable pub get : ℕ → Session J → Result (Option (ApprovalRecord J)) Error × Session J
  get id s = read id (pool.fault s.statements) (begin s)

  -- `query_one` on an UPDATE that touches no row is an error.
  unfoldable pub decide :
      ℕ → ℕ → ApprovalStatus → Session J → Result (ApprovalRecord J) Error × Session J
  unfolding begin decide_row
  decide id decided_by status s =
      let s' = begin s in
      elim (pool.fault s.statements) [
        | some e ↦ (err (decide_error e), s')
        | none ↦ elim (find (is_open id) s'.rows) [
          | none ↦ (err (other (codes "decide: query returned an unexpected number of rows")), s')
          | some r ↦ (
            ok (decide_row id decided_by status s'.clock r),
            record s' { rows = map (decide_row id decided_by status s'.clock) s'.rows },
          )
        ]
      ]

  unfoldable pub expire_if_pending : ℕ → Session J → Session J
  unfolding begin expire_row
  expire_if_pending id s =
      let s' = begin s in
      elim (pool.fault s.statements) [
        | some e ↦ s'
        | none ↦ record s' { rows = map (expire_row id s'.clock) s'.rows }
      ]

  module _ (show_id : ℕ → Text) (id deadline interval : ℕ) where
    abbrev pub Outcome : Type 0
    Outcome = Option (Result (ApprovalRecord J) Error × Session J)

    unfoldable pub at_deadline : Option (ApprovalRecord J) → Session J → Outcome → Outcome
    at_deadline (some rec) s rest = some (ok rec, s)
    at_deadline none s rest =
        if leb deadline s.clock
        then some (err (approval_timeout (show_id id)), expire_if_pending id s)
        else rest

    -- One round, before the sleep; `rest` is what the further rounds answer.
    unfoldable pub settle : Result (Option (ApprovalRecord J)) Error × Session J → Outcome → Outcome
    unfolding at_deadline
    settle (err e, s) rest = some (err e, s)
    settle (ok found, s) rest = at_deadline (answer found) s rest

    -- The polling loop; `none` means that the fuel ran out.
    unfoldable pub poll : ℕ → Session J → Outcome
    poll zero s = none
    poll (suc fuel) s = let rest = poll fuel (sleep interval (begin s)) in settle (get id s) rest

  -- `timeout` rounds and one more are enough when a round sleeps at all.
  unfoldable pub wait_for_decision :
      (ℕ → Text) → ℕ → ℕ → ℕ → Session J → Option (Result (ApprovalRecord J) Error × Session J)
  unfolding poll
  wait_for_decision show_id id timeout interval s =
      poll show_id id (s.clock + timeout) interval (suc timeout) s
