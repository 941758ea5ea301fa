-- ===== src/Broker/Execute/Gate.antt =====
-- What has happened before an operation reaches a transport.
use native.Mathlib.Omega.{arith}
use mathlib.Core.Path.{subst}
use daimon.Common.{
  ℕ, ◌≡◌, refl, sym, ap, ◌∙◌, ◌≢◌, ◌⊎◌, inl, inr, true, false, Option, none, some, List, [], ◌∷◌,
  In, All, Option-cases,
}
use daimon.Common.Text.{Text}
use daimon.Common.Result.{Result, ok, err}
use daimon.Common.Json.{Json, Semver}
use daimon.Core.Capability.{Capability, is_read}
use daimon.Inventory.Refspec.{to_string}
use daimon.Guard.Error.{Error}
use daimon.Guard.Policy.{allow, require_approval, evaluate}
use daimon.Guard.Approvals.{Pool}
use daimon.Guard.Approvals.Rows.{SparesId}
use daimon.Guard.PreFlight.{Guard, pre_flight}
use daimon.Guard.PreFlight as PreFlight
use daimon.Guard.PreFlight.Gate.{IsApproved, pre_flight_granted}
use daimon.Broker.Lint.{lint_write_capabilities, names}
use daimon.Broker.Lint.Coherent.{IsCoherent, lint_write_capabilities_iff}
use daimon.Broker.Request.{ExecRequest}
use daimon.Broker.Execute.Outcome.{carry_out-Touches, audit_execute-kept}
use daimon.Broker.Execute.{
  Services, World, derive_read_only, capability_of, approval_params, Reply, Answer, carry_out,
  after_guard, audit_execute, audited, execute_inner, execute,
}

module _ (json : Json) (semver : Semver) (services : Services json.Value) where
  abbrev Wd : Type 0
  Wd = World json.Value

  abbrev Req : Type 0
  Req = ExecRequest semver.Version json.Value

  module _ (pool : Pool json.Value) (show_id : ℕ → Text) where
    -- An operator approved this request of this actor on this target.
    abbrev pub IsApprovedFor : Guard → Req → Wd → Type 0
    IsApprovedFor g req w =
        IsApproved pool show_id g req.actor_id (capability_of req) (some (to_string req.target_ref))
          (approval_params json req) w.guarded

    -- The capability that was resolved for the request is a read.
    abbrev pub IsRead : Req → Type 0
    IsRead req =
        (cap : Capability semver.Version json.Value) × (req.capability_meta ≡ some cap)
        × (is_read cap ≡ true)

    derive_read_only-IsRead : (req : Req) → derive_read_only req ≡ true → IsRead req
    unfolding derive_read_only
    derive_read_only-IsRead req h = elim (Option-cases req.capability_meta) [
      | inl e ↦ absurd (ground (arith, h, e))
      | inr (cap, e) ↦ (cap, e, rw e at h)
    ]

    -- What the guard asks of a call.
    abbrev pub IsGranted : Guard → Req → Wd → Wd → Type 0
    IsGranted g req w v =
        ((g.kill w.guarded.inbox.statements).engaged ≡ false)
        × (IsRead req
            ⊎ (((evaluate g.policy (capability_of req)).decision ≡ allow)
                ⊎ (((evaluate g.policy (capability_of req)).decision ≡ require_approval)
                    × IsApprovedFor g req v)))

    abbrev pre_flown :
        Guard → Req → Wd → Option (Result (Unit {0}) Error × PreFlight.World json.Value)
    pre_flown g req w =
        pre_flight pool show_id g req.actor_id (capability_of req) (some (to_string req.target_ref))
          (approval_params json req) (derive_read_only req) w.guarded

    module _ (g : Guard) (req : Req) (w : Wd)
        (fresh : (n : ℕ) → All (SparesId (pool.new_id w.guarded.inbox.statements)) (pool.others n))
        (absent : All
          (λ r. r.id ≢ pool.new_id w.guarded.inbox.statements)
          w.guarded.inbox.rows) where
      after_guard_gated :
          (o : Option (Result (Unit {0}) Error × PreFlight.World json.Value))
          → pre_flown g req w ≡ o
          → (r : Reply json semver services) (v : Wd)
          → after_guard json semver services req o w ≡ some (r, v)
          → (v.sent ≡ w.sent) ⊎ IsGranted g req w v
      unfolding after_guard
      after_guard_gated none e r v h = cc
      after_guard_gated (some (err x, g')) e r v h =
          inl (ap (λ a. elim a [ none ↦ w.sent | some p ↦ p.1.sent ]) (sym h))
      after_guard_gated (some (ok u', g')) e r v h =
          let u : Wd = record w { guarded = g' } in
          let q : v ≡ (carry_out json semver services req u).1 =
            ap (λ a. elim a [ none ↦ v | some p ↦ p.1 ]) (sym h) in
          let read_first : (derive_read_only req ≡ true)
                ⊎ (((evaluate g.policy (capability_of req)).decision ≡ allow)
                    ⊎ (((evaluate g.policy (capability_of req)).decision ≡ require_approval)
                        × IsApprovedFor g req (record w { guarded = g' })))
              → (IsRead req
                  ⊎ (((evaluate g.policy (capability_of req)).decision ≡ allow)
                      ⊎ (((evaluate g.policy (capability_of req)).decision ≡ require_approval)
                          × IsApprovedFor g req (record w { guarded = g' })))) =
            λ x. elim x [ inl ro ↦ inl (derive_read_only-IsRead req ro) | inr y ↦ inr y ] in
          let granted = pre_flight_granted pool show_id g _ _ _ _ _ w.guarded g' fresh absent e in
          inr (
            subst (λ x. IsGranted g req w (record w { guarded = x }))
              (sym (ap (λ x. x.guarded) q ∙ (carry_out-Touches json semver services req u).0))
              (granted.0, read_first granted.1))

      -- Nothing reaches a transport before the guard lets the call through: when `execute` has
      -- given an operation to a transport, the kill switch was open when the call came in, and the
      -- capability that was resolved for the request is a read, or the policy allows the request, or
      -- the policy requires an approval and an operator approved this request. A request that names
      -- no capability is put to the policy too, as `broker.execute`. It is supposed that the id of
      -- the new approval is used for no other.
      pub execute_gated :
          (r : Reply json semver services) (w' : Wd)
          → execute json semver services pool show_id (some g) req w ≡ some (r, w')
          → (w'.sent ≡ w.sent) ⊎ IsGranted g req w w'
      unfolding execute execute_inner audited
      execute_gated r w' h = go (after_guard json semver services req (pre_flown g req w) w) refl h
        where
          go :
              (a : Answer json semver services)
              → after_guard json semver services req (pre_flown g req w) w ≡ a
              → audited json semver services req a ≡ some (r, w')
              → (w'.sent ≡ w.sent) ⊎ IsGranted g req w w'
          go none e k = unfold audited in cc
          go (some (x, v)) e k =
              let q : audit_execute json semver services req x v ≡ w' =
                unfold audited in ap (λ a. elim a [ none ↦ w' | some p ↦ p.1 ]) k in
              let kept = audit_execute-kept json semver services req x v in
              elim (after_guard_gated (pre_flown g req w) refl x v e) [
                | inl s ↦ inl (ap (λ y. y.sent) (sym q) ∙ kept.0 ∙ s)
                | inr s ↦ inr (
                    subst (λ y. IsGranted g req w (record w { guarded = y }))
                      (sym kept.1 ∙ ap (λ y. y.guarded) q) s)
              ]

      -- If the lint accepted the registered capabilities, then a request that carries a write
      -- among them reaches a transport only when the kill switch was open when the call came in,
      -- the policy requires an approval for it, and an operator approved this request. It is
      -- supposed that the id of the new approval is used for no other.
      pub execute_write_approved :
          (caps : List (Capability semver.Version json.Value))
          (cap : Capability semver.Version json.Value)
          → lint_write_capabilities (some g) caps ≡ ok tt
          → In cap caps
          → is_read cap ≡ false
          → req.capability ≡ some cap.name
          → req.capability_meta ≡ some cap
          → (r : Reply json semver services) (w' : Wd)
          → execute json semver services pool show_id (some g) req w ≡ some (r, w')
          → (w'.sent ≡ w.sent)
            ⊎ (((g.kill w.guarded.inbox.statements).engaged ≡ false)
                × ((evaluate g.policy cap.name).decision ≡ require_approval)
                × IsApprovedFor g req w')
      execute_write_approved caps cap l i write named meta r w' h = elim (execute_gated r w' h) [
        | inl e ↦ inl e
        | inr (k, inl (c, m, ro)) ↦ absurd (not_read c m ro)
        | inr (k, inr (inl al)) ↦
            absurd (not_allowed (subst (λ n. (evaluate g.policy n).decision ≡ allow) same al))
        | inr (k, inr (inr (rq, ap))) ↦
            inr (k, subst (λ n. (evaluate g.policy n).decision ≡ require_approval) same rq, ap)
      ]
        where
          same : capability_of req ≡ cap.name
          same = unfold capability_of in rw named refl

          not_read :
              (c : Capability semver.Version json.Value)
              → req.capability_meta ≡ some c
              → is_read c ≡ true
              → ⊥
          not_read c m ro =
              let q : c ≡ cap = ground (arith, m, meta) in
              let k : is_read cap ≡ true = subst (λ x. is_read x ≡ true) q ro in
              ground (arith, k, write)

          coherent : IsCoherent (some g) (names caps) cap
          coherent = all_at caps ((lint_write_capabilities_iff (some g) caps).0 l) i
            where
              all_at :
                  (cs : List (Capability semver.Version json.Value))
                  → All (IsCoherent (some g) (names caps)) cs
                  → In cap cs
                  → IsCoherent (some g) (names caps) cap
              all_at [] a j = elim j [ ]
              all_at (c ∷ cs) a (inl e) = subst (IsCoherent (some g) (names caps)) (sym e) a.0
              all_at (c ∷ cs) a (inr j) = all_at cs a.1 j

          not_allowed : (evaluate g.policy cap.name).decision ≡ allow → ⊥
          not_allowed e = coherent.1 write e
