-- ===== src/Broker/Admin/Trail.antt =====
-- The audit trail of the administration: what it holds of each call.
use mathlib.Core.Path.{subst}
use mathlib.Core.List.{map-append, append-nil, append_assoc}
use daimon.Common.{ℕ, ◌≡◌, refl, sym, ap, ◌∙◌, true, Option, none, some, List, [], ◌∷◌, ◌++◌, map}
use daimon.Common.Text.{Text, codes}
use daimon.Common.Result.{Result, ok, err}
use daimon.Audit.Event.{
  NewAuditEvent, ActionKind, vault_resolve, vault_reveal, vault_create, vault_update, vault_rename,
  vault_delete, inventory_upsert, inventory_remove, inventory_resolve, AuditResult, success, error,
  new, with_target, with_credential, with_op_summary, with_latency_ms, with_metadata,
}
use daimon.Inventory.Refspec.{TargetRef, to_string}
use daimon.Inventory.Target.{ManagedTarget}
use daimon.Inventory.Registry.{InventoryError}
use daimon.Broker.Admin.{
  Vault, Inventory, Parts, res_tag, State, event_of, credential_of, note, note_failure,
  audit_action, appended, vault_done, inventory_done, on_vault, require_vault_admin,
}
use daimon.Broker.Admin as Admin

-- How a call ended.
abbrev outcome : {A E : Type 0} → Result A E → AuditResult
outcome (ok a) = success
outcome (err e) = error

res_tag-outcome : {A E : Type 0} (r : Result A E) → res_tag r ≡ outcome r
unfolding res_tag
res_tag-outcome (ok a) = refl
res_tag-outcome (err e) = refl

-- The calls that are audited.
pub data Call (Credential : Type 0) : Type 0 where
  list_metadata : Call Credential
  reveal delete : ℕ → Call Credential
  create : Text → Credential → Call Credential
  update : ℕ → Credential → Call Credential
  rename : ℕ → Text → Call Credential
  get_managed remove : TargetRef → Call Credential
  upsert : ManagedTarget → Call Credential

-- The kind of action that each is logged as.
abbrev pub kind_of : {C : Type 0} → Call C → ActionKind
kind_of list_metadata = vault_resolve
kind_of (reveal id) = vault_reveal
kind_of (delete id) = vault_delete
kind_of (create name cred) = vault_create
kind_of (update id cred) = vault_update
kind_of (rename id name) = vault_rename
kind_of (get_managed r) = inventory_resolve
kind_of (remove r) = inventory_remove
kind_of (upsert t) = inventory_upsert

-- Who did what, and how it ended.
abbrev pub Entry : Type 0
Entry = Text × (ActionKind × AuditResult)

abbrev pub entry_of : NewAuditEvent → Entry
entry_of ev = (ev.actor_id, (ev.action, ev.result))

-- An optional field leaves the entry as it is.
entry-note :
    (with : Text → NewAuditEvent → NewAuditEvent) (o : Option Text) (ev : NewAuditEvent)
    → ((t : Text) (e : NewAuditEvent) → entry_of (with t e) ≡ entry_of e)
    → entry_of (note with o ev) ≡ entry_of ev
unfolding note
entry-note with none ev h = refl
entry-note with (some t) ev h = h t ev

entry-note_failure :
    {A E : Type 0} (show : E → Text) (r : Result A E) (ev : NewAuditEvent)
    → entry_of (note_failure show r ev) ≡ entry_of ev
unfolding note_failure with_metadata
entry-note_failure show (ok a) ev = refl
entry-note_failure show (err e) ev = refl

module _ (vaults : Vault) (targets : Inventory) (parts : Parts) where
  abbrev St : Type 0
  St = State vaults targets

  abbrev ended : {A : Type 0} → Admin.Answer vaults targets A → AuditResult × St
  ended (r, s) = (outcome r, s)

  -- A call, with how it ended.
  abbrev pub run : Text → Call vaults.Credential → St → AuditResult × St
  run actor list_metadata s = ended (Admin.vault_list_metadata vaults targets parts actor s)
  run actor (reveal id) s = ended (Admin.vault_reveal vaults targets parts actor id s)
  run actor (delete id) s = ended (Admin.vault_delete vaults targets parts actor id s)
  run actor (create name cred) s = ended (Admin.vault_create vaults targets parts actor name cred s)
  run actor (update id cred) s = ended (Admin.vault_update vaults targets parts actor id cred s)
  run actor (rename id name) s = ended (Admin.vault_rename vaults targets parts actor id name s)
  run actor (get_managed r) s = ended (Admin.inventory_get_managed vaults targets parts actor r s)
  run actor (remove r) s = ended (Admin.inventory_remove vaults targets parts actor r s)
  run actor (upsert t) s = ended (Admin.inventory_upsert vaults targets parts actor t s)

  -- Calls one after the other, with what each should leave in the log.
  abbrev pub run_all : List (Text × Call vaults.Credential) → St → List Entry × St
  run_all [] s = ([], s)
  run_all ((actor, c) ∷ later) s =
      let (tag, t) = run actor c s in
      let (entries, u) = run_all later t in ((actor, (kind_of c, tag)) ∷ entries, u)

  entry-event_of :
      {A E : Type 0} (show : E → Text) (actor : Text) (action : ActionKind)
      (target credential summary : Option Text) (r : Result A E)
      → entry_of (event_of vaults targets parts show actor action target credential summary r)
        ≡ (actor, (action, outcome r))
  unfolding event_of new with_target with_credential with_op_summary with_latency_ms
  entry-event_of show actor action target credential summary r =
      let timed = with_latency_ms parts.elapsed_ms (new actor action (res_tag r)) in
      let aimed = note with_target target timed in
      let bound = note with_credential credential aimed in
      entry-note_failure show r (note with_op_summary summary bound)
      ∙ (entry-note with_op_summary summary bound (λ t e. refl)
          ∙ (entry-note with_credential credential aimed (λ t e. refl)
              ∙ (entry-note with_target target timed (λ t e. refl)
                  ∙ ap (λ x. (actor, (action, x))) (res_tag-outcome r))))

  -- The log has one more entry, of this action, with how it ended.
  abbrev IsNoted : Text → ActionKind → St → AuditResult × St → Type 0
  IsNoted actor action s (tag, t) =
      map entry_of t.events ≡ map entry_of s.events ++ (actor, (action, tag)) ∷ []

  audit_action-trail :
      {A E : Type 0} (show : E → Text) (actor : Text) (action : ActionKind)
      (target credential summary : Option Text) (r : Result A E) (s : St)
      → parts.audit_sink ≡ true
      → ((ev : NewAuditEvent) → parts.append ev ≡ none)
      → IsNoted actor action s (
        outcome r,
        audit_action vaults targets parts show actor action target credential summary r s,
      )
  unfolding audit_action appended
  audit_action-trail show actor action target credential summary r s a h =
      let ev = event_of vaults targets parts show actor action target credential summary r in
      rw (a, h ev)
        (map-append entry_of s.events (ev ∷ [])
          ∙ ap (λ x. map entry_of s.events ++ x ∷ [])
              (entry-event_of show actor action target credential summary r))

  vault_done-trail :
      {A : Type 0} (actor : Text) (action : ActionKind) (credential : Option Text) (summary : Text)
      (r : Result A vaults.VaultError) (store : vaults.Store) (s : St)
      → parts.audit_sink ≡ true
      → ((ev : NewAuditEvent) → parts.append ev ≡ none)
      → IsNoted actor action s
          (ended (vault_done vaults targets parts actor action credential summary (r, store) s))
  unfolding vault_done
  vault_done-trail {A = A} actor action credential summary (ok a) store s on h =
      audit_action-trail {A = A} vaults.show_error actor action none credential (some summary)
        (ok a) (record s { credentials = store }) on h
  vault_done-trail {A = A} actor action credential summary (err e) store s on h =
      audit_action-trail {A = A} vaults.show_error actor action none credential (some summary)
        (err e) (record s { credentials = store }) on h

  inventory_done-trail :
      {A : Type 0} (actor : Text) (action : ActionKind) (target : TargetRef)
      (credential : Option Text) (summary : Text) (r : Result A InventoryError)
      (store : targets.Store) (s : St)
      → parts.audit_sink ≡ true
      → ((ev : NewAuditEvent) → parts.append ev ≡ none)
      → IsNoted actor action s (
          ended (
            inventory_done vaults targets parts actor action target credential summary
              (r, store)
              s))
  unfolding inventory_done
  inventory_done-trail {A = A} actor action target credential summary (ok a) store s on h =
      audit_action-trail {A = A} targets.show_error actor action (some (to_string target))
        credential (some summary) (ok a) (record s { managed = store }) on h
  inventory_done-trail {A = A} actor action target credential summary (err e) store s on h =
      audit_action-trail {A = A} targets.show_error actor action (some (to_string target))
        credential (some summary) (err e) (record s { managed = store }) on h

  on_vault-open :
      {A : Type 0} (op : St → Admin.Answer vaults targets A) (s : St)
      → parts.vault_admin ≡ true
      → on_vault vaults targets parts op s ≡ op s
  unfolding on_vault require_vault_admin
  on_vault-open op s v = rw (v) refl

  vault_call-IsNoted :
      {A : Type 0} (actor : Text) (action : ActionKind) (credential : Option Text) (summary : Text)
      (call : vaults.Store → Result A vaults.VaultError × vaults.Store) (s : St)
      → parts.vault_admin ≡ true
      → parts.audit_sink ≡ true
      → ((ev : NewAuditEvent) → parts.append ev ≡ none)
      → IsNoted actor action s (
          ended (
            on_vault vaults targets parts
              (λ t.
                vault_done vaults targets parts actor action credential summary
                  (call t.credentials)
                  t)
              s))
  unfolding vault_done
  vault_call-IsNoted {A = A} actor action credential summary call s v on h =
      subst (λ x. IsNoted actor action s (ended x))
        (sym (
          on_vault-open
            (λ t.
              vault_done vaults targets parts actor action credential summary (call t.credentials)
                t)
            s v))
        (vault_done-trail {A = A} actor action credential summary (call s.credentials).0
          (call s.credentials).1 s on h)

  run-IsNoted :
      (actor : Text) (c : Call vaults.Credential) (s : St)
      → parts.vault_admin ≡ true
      → parts.audit_sink ≡ true
      → ((ev : NewAuditEvent) → parts.append ev ≡ none)
      → IsNoted actor (kind_of c) s (run actor c s)
  unfolding Admin.vault_list_metadata Admin.vault_reveal Admin.vault_create Admin.vault_update
      Admin.vault_rename Admin.vault_delete Admin.inventory_get_managed Admin.inventory_upsert
      Admin.inventory_remove
  run-IsNoted actor list_metadata s v on h =
      vault_call-IsNoted actor vault_resolve none (codes "vault list")
        (λ d. (vaults.list_metadata d, d)) s v on h
  run-IsNoted actor (reveal id) s v on h =
      vault_call-IsNoted actor vault_reveal (some (codes "id=" ++ parts.show_id id))
        (codes "revealed credential " ++ (codes "id=" ++ parts.show_id id))
        (λ d. (vaults.reveal id d, d)) s v on h
  run-IsNoted actor (delete id) s v on h =
      vault_call-IsNoted actor vault_delete (some (codes "id=" ++ parts.show_id id))
        (codes "deleted credential " ++ (codes "id=" ++ parts.show_id id)) (vaults.delete id) s v on
        h
  run-IsNoted actor (create name cred) s v on h =
      vault_call-IsNoted actor vault_create (some (codes "vault://" ++ name))
        (codes "created credential kind=" ++ vaults.show_kind cred) (vaults.create name cred) s v on
        h
  run-IsNoted actor (update id cred) s v on h =
      vault_call-IsNoted actor vault_update (some (codes "id=" ++ parts.show_id id))
        (codes "updated credential " ++ (codes "id=" ++ parts.show_id id)) (vaults.update id cred) s
        v on h
  run-IsNoted actor (rename id name) s v on h =
      vault_call-IsNoted actor vault_rename (some (codes "vault://" ++ name))
        (codes "renamed credential "
          ++ ((codes "id=" ++ parts.show_id id) ++ (codes " to " ++ name)))
        (vaults.rename id name) s v on h
  run-IsNoted actor (get_managed r) s v on h =
      inventory_done-trail actor inventory_resolve r
        (credential_of (targets.get_managed r s.managed)) (codes "inventory get_managed")
        (targets.get_managed r s.managed) s.managed s on h
  run-IsNoted actor (remove r) s v on h =
      inventory_done-trail actor inventory_remove r none (codes "inventory remove")
        (targets.remove r s.managed).0 (targets.remove r s.managed).1 s on h
  run-IsNoted actor (upsert t) s v on h =
      inventory_done-trail actor inventory_upsert t.ref none (codes "inventory upsert")
        (targets.upsert t s.managed).0 (targets.upsert t s.managed).1 s on h

  -- With a vault, and a sink that takes every event, the calls of a session leave one entry each in
  -- the audit log, in their order, behind what it held: who called, the kind of the call, and whether
  -- it failed.
  pub run_all-trail :
      (calls : List (Text × Call vaults.Credential)) (s : St)
      → parts.vault_admin ≡ true
      → parts.audit_sink ≡ true
      → ((ev : NewAuditEvent) → parts.append ev ≡ none)
      → map entry_of (run_all calls s).1.events ≡ map entry_of s.events ++ (run_all calls s).0
  run_all-trail [] s v on h = sym (append-nil (map entry_of s.events))
  run_all-trail ((actor, c) ∷ later) s v on h =
      run_all-trail later (run actor c s).1 v on h
      ∙ (ap (λ l. l ++ (run_all later (run actor c s).1).0) (run-IsNoted actor c s v on h)
          ∙ append_assoc (map entry_of s.events) ((actor, (kind_of c, (run actor c s).0)) ∷ [])
              (run_all later (run actor c s).1).0)
