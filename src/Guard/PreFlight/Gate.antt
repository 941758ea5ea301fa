-- ===== src/Guard/PreFlight/Gate.antt =====
-- The answers of `pre_flight`.
use native.Mathlib.Omega.{arith}
use mathlib.Core.Path.{subst}
use daimon.Common.{
  ℕ, ◌*◌, ◌≡◌, refl, sym, ◌≢◌, ◌⊎◌, inl, inr, Bool, true, false, Option, none, some, List, [], ◌∷◌,
  In, All, Bool-cases,
}
use daimon.Common.Text.{Text}
use daimon.Common.Result.{Result, ok, err}
use daimon.Guard.Error.{Error}
use daimon.Guard.Policy.{Decision, allow, deny, require_approval, evaluate}
use daimon.Guard.Approvals.{approved, ApprovalRecord, Pool, Session, begin, insert_row, enqueue}
use daimon.Guard.Approvals.Rows.{AsksFor, SparesId, writes-AsksFor, All_of_In, All-snoc}
use daimon.Guard.Approvals.Wait.{
  wait_for_decision_ends, wait_for_decision_decided, wait_for_decision_rows,
}
use daimon.Guard.PreFlight.{
  AwaitingApproval, Guard, World, poll_interval_ms, publish_awaiting_approval, verdict_of, conclude,
  Answer, park, decide_by, pre_flight,
}

module _ {J : Type 0} (pool : Pool J) (show_id : ℕ → Text) (g : Guard) where
  abbrev Answers : Answer pool show_id g → Type 0
  Answers a = (r : Result (Unit {0}) Error) × (w : World J) × (a ≡ some (r, w))

  conclude-Answers :
      (id : ℕ) (capability : Text) (published : List AwaitingApproval)
      (r : Result (ApprovalRecord J) Error) (s : Session J)
      → Answers (conclude pool show_id g id capability published (some (r, s)))
  unfolding conclude
  conclude-Answers id capability published (err e) s =
      (err e, record { inbox = s; published = published }, refl)
  conclude-Answers id capability published (ok rec) s = (
    verdict_of pool show_id g id capability rec.status,
    record { inbox = s; published = published },
    refl,
  )

  park-Answers :
      (actor capability : Text) (target : Option Text) (r : Result ℕ Error) (w : World J)
      → Answers (park pool show_id g actor capability target (r, w))
  unfolding park
  park-Answers actor capability target (err e) w = (err e, w, refl)
  park-Answers actor capability target (ok id) w =
      let w' =
        publish_awaiting_approval pool show_id g
          (record { approval_id = id; capability = capability; target_ref = target; actor = actor })
          w in
      let (r, s, e) =
        wait_for_decision_ends pool show_id id (g.approval_timeout_secs * 1000) poll_interval_ms
          w'.inbox (omega arith) in
      rw e (conclude-Answers id capability w'.published r s)

  decide_by-Answers :
      (d : Decision) (actor capability : Text) (target : Option Text) (params : J) (w : World J)
      → Answers (decide_by pool show_id g d actor capability target params w)
  unfolding decide_by
  decide_by-Answers allow actor capability target params w = (ok tt, w, refl)
  decide_by-Answers deny actor capability target params w = (_, w, refl)
  decide_by-Answers require_approval actor capability target params w =
      park-Answers actor capability target _ _

  -- `pre_flight` always comes to an answer.
  pub pre_flight_answers :
      (actor capability : Text) (target : Option Text) (params : J) (is_read_only : Bool)
      (w : World J)
      → (r : Result (Unit {0}) Error) × (w' : World J) × (pre_flight pool show_id g actor capability
            target params is_read_only w
          ≡ some (r, w'))
  unfolding pre_flight
  pre_flight_answers actor capability target params ro w =
      elim (Bool-cases (g.kill w.inbox.statements).engaged) [
        | inl e ↦ rw e (_, w, refl)
        | inr e ↦ elim (Bool-cases ro) [
          | inl r ↦ rw (e, r) (ok tt, w, refl)
          | inr r ↦ rw (e, r) (decide_by-Answers _ actor capability target params w)
        ]
      ]

  conclude_granted :
      (id : ℕ) (capability : Text) (published : List AwaitingApproval)
      (o : Option (Result (ApprovalRecord J) Error × Session J)) (w : World J)
      → conclude pool show_id g id capability published o ≡ some (ok tt, w)
      → (rec : ApprovalRecord J) × (o ≡ some (ok rec, w.inbox)) × (rec.status ≡ approved)
  unfolding conclude verdict_of
  conclude_granted id capability published none w h = cc
  conclude_granted id capability published (some (err e, s)) w h = ground (arith, h)
  conclude_granted id capability published (some (ok rec, s)) w h =
      (rec, ground (arith, h), ground (arith, h))

  -- An operator approved, in the inbox, a request for this very call.
  pub record IsApproved (actor capability : Text) (target : Option Text) (params : J) (w : World J)
      : Type 0 where
    pub rec : ApprovalRecord J
    pub stored : In rec w.inbox.rows
    pub is_approved : rec.status ≡ approved
    pub same_actor : rec.actor_id ≡ actor
    pub same_capability : rec.capability ≡ capability
    pub same_target : rec.target_ref ≡ target
    pub same_params : rec.params ≡ params

  module _ (actor capability : Text) (target : Option Text) (params : J) where
    abbrev Fresh : ℕ → Type 0
    Fresh id = (n : ℕ) → All (SparesId id) (pool.others n)

    abbrev Asks : ℕ → ApprovalRecord J → Type 0
    Asks id = AsksFor id actor capability target params

    Asks-of_absent :
        (id : ℕ) (rows : List (ApprovalRecord J)) → All (λ r. r.id ≢ id) rows → All (Asks id) rows
    Asks-of_absent id [] a = tt
    Asks-of_absent id (r ∷ rows) a =
        (record { asks = λ e. absurd (a.0 e) }, Asks-of_absent id rows a.1)

    park_granted :
        (id : ℕ) (w w' : World J)
        → Fresh id
        → All (Asks id) w.inbox.rows
        → park pool show_id g actor capability target (ok id, w) ≡ some (ok tt, w')
        → IsApproved actor capability target params w'
    unfolding park
    park_granted id w w' fresh a h =
        let env : AwaitingApproval = record {
          approval_id = id;
          capability = capability;
          target_ref = target;
          actor = actor;
        } in
        let v = publish_awaiting_approval pool show_id g env w in
        let a' : All (Asks id) v.inbox.rows =
          subst (λ s. All (Asks id) s.rows) (sym (same_inbox env)) a in
        let (rec, e, st) = conclude_granted id capability v.published _ w' h in
        let (stored, same, _) = wait_for_decision_decided pool show_id id _ _ _ _ rec e in
        let rows =
          wait_for_decision_rows pool show_id id (Asks id)
            (λ n rows.
              writes-AsksFor id actor capability target params (pool.others n) rows (fresh n))
            _ _ _ _ rec a' e in
        let q = (All_of_In (Asks id) _ rec rows stored).asks same in
        record {
          rec = rec;
          stored = stored;
          is_approved = st;
          same_actor = q.0;
          same_capability = q.1;
          same_target = q.2;
          same_params = q.3;
        }
      where
        same_inbox :
            (env : AwaitingApproval)
            → (publish_awaiting_approval pool show_id g env w).inbox ≡ w.inbox
        same_inbox env = unfold publish_awaiting_approval in ground arith

    begin-Asks :
        (id : ℕ) (s : Session J)
        → Fresh id
        → All (Asks id) s.rows
        → All (Asks id) (begin pool s).rows
    unfolding begin
    begin-Asks id s fresh a =
        writes-AsksFor id actor capability target params (pool.others s.statements) s.rows
          (fresh s.statements) a

    park_err :
        (e : Error) (w w' : World J)
        → park pool show_id g actor capability target (err e, w) ≡ some (ok tt, w')
        → ⊥
    unfolding park
    park_err e w w' h = ground (arith, h)

    insert_row-park :
        (id : ℕ) (o : Option Error) (s : Session J) (w w' : World J)
        → Fresh id
        → All (Asks id) s.rows
        → park pool show_id g actor capability target (
          (insert_row pool id actor capability target params o s).0,
          record w { inbox = (insert_row pool id actor capability target params o s).1 },
        )
          ≡ some (ok tt, w')
        → IsApproved actor capability target params w'
    unfolding insert_row
    insert_row-park id (some e) s w w' fresh a h = absurd (park_err e _ w' h)
    insert_row-park id none s w w' fresh a h =
        park_granted id _ w' fresh
          (All-snoc (Asks id) s.rows _ a (record { asks = λ _. (refl, refl, refl, refl) })) h

    decide_by_granted :
        (d : Decision) (w w' : World J)
        → Fresh (pool.new_id w.inbox.statements)
        → All (λ r. r.id ≢ pool.new_id w.inbox.statements) w.inbox.rows
        → decide_by pool show_id g d actor capability target params w ≡ some (ok tt, w')
        → (d ≡ allow) ⊎ ((d ≡ require_approval) × IsApproved actor capability target params w')
    unfolding decide_by enqueue
    decide_by_granted allow w w' fresh absent h = inl refl
    decide_by_granted deny w w' fresh absent h = cc
    decide_by_granted require_approval w w' fresh absent h = inr (
      refl,
      insert_row-park (pool.new_id w.inbox.statements) (pool.fault w.inbox.statements)
          (begin pool w.inbox) w w' fresh
          (begin-Asks _ w.inbox fresh (Asks-of_absent _ w.inbox.rows absent)) h,
    )

    -- A call that `pre_flight` lets through found the kill switch open when it came in, and either
    -- is read-only, or is allowed by the policy, or needs an approval and an operator approved, in
    -- the inbox, a request of the same actor for the same capability, target and parameters. It is
    -- supposed that the id of the new row is used for no other row.
    pub pre_flight_granted :
        (is_read_only : Bool) (w w' : World J)
        → ((n : ℕ) → All (SparesId (pool.new_id w.inbox.statements)) (pool.others n))
        → All (λ r. r.id ≢ pool.new_id w.inbox.statements) w.inbox.rows
        → pre_flight pool show_id g actor capability target params is_read_only w ≡ some (ok tt, w')
        → ((g.kill w.inbox.statements).engaged ≡ false)
          × ((is_read_only ≡ true)
              ⊎ (((evaluate g.policy capability).decision ≡ allow)
                  ⊎ (((evaluate g.policy capability).decision ≡ require_approval)
                      × IsApproved actor capability target params w')))
    unfolding pre_flight
    pre_flight_granted ro w w' fresh absent h =
        elim (Bool-cases (g.kill w.inbox.statements).engaged) [
          | inl e ↦ absurd (ground (arith, h, e))
          | inr e ↦ elim (Bool-cases ro) [
            | inl r ↦ (e, inl r)
            | inr r ↦ (
              e,
              inr (
                  decide_by_granted (evaluate g.policy capability).decision w w' fresh absent
                    (rw (e, r) at h)),
            )
          ]
        ]
