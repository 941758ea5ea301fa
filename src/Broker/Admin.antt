-- ===== src/Broker/Admin.antt =====
-- crates/daimon-broker/src/admin.rs: the administration of vault and inventory through the broker,
-- with the audit event of each call, and the proxies of the audit log and of the approvals. The
-- clients of vault and inventory are records of functions, each over a store of its own.
pub mod Opaque
pub mod Trail
use daimon.Common.{ℕ, Bool, true, false, Option, none, some, List, [], ◌∷◌, ◌++◌, if◌then◌else◌}
use daimon.Common.Text.{Text, codes}
use daimon.Common.Result.{Result, ok, err, map_err, ◌>>=◌}
use daimon.Audit.Event.{
  NewAuditEvent, ActionKind, AuditResult, success, error, new, with_target, with_credential,
  with_op_summary, with_latency_ms, with_metadata,
}
use daimon.Inventory.Refspec.{TargetRef, to_string}
use daimon.Inventory.Target.{TargetKind, TargetMetadata, ManagedTarget}
use daimon.Inventory.Registry.{InventoryError}
use daimon.Guard.Error.{Error}
use daimon.Guard.Approvals.{Pool, Session, ApprovalRecord, ApprovalStatus, decide}
use daimon.Broker.Execute.{BrokerError, inventory, vault, admin_backend_not_available, audit}

-- `PostgresVaultClient`; `show_kind` is the `Debug` of a credential's kind.
pub record Vault : Type 1 where
  pub Store : Type 0
  pub Credential : Type 0
  pub CredentialMetadata : Type 0
  pub VaultError : Type 0
  pub list_metadata : Store → Result (List CredentialMetadata) VaultError
  pub reveal : ℕ → Store → Result Credential VaultError
  pub create : Text → Credential → Store → Result ℕ VaultError × Store
  pub update : ℕ → Credential → Store → Result (Unit {0}) VaultError × Store
  pub rename : ℕ → Text → Store → Result (Unit {0}) VaultError × Store
  pub delete : ℕ → Store → Result (Unit {0}) VaultError × Store
  pub show_kind : Credential → Text
  pub show_error : VaultError → Text

-- `dyn Inventory`.
pub record Inventory : Type 1 where
  pub Store : Type 0
  pub list : Option TargetKind → Store → List TargetMetadata
  pub get_metadata : TargetRef → Store → Result TargetMetadata InventoryError
  pub get_managed : TargetRef → Store → Result ManagedTarget InventoryError
  pub upsert : ManagedTarget → Store → Result (Unit {0}) InventoryError × Store
  pub remove : TargetRef → Store → Result (Unit {0}) InventoryError × Store
  pub show_error : InventoryError → Text

-- The optional parts of a broker, and how long a call takes. The sink answers an event with the
-- text of its error, if it refuses it.
pub record Parts : Type 0 where
  pub vault_admin : Bool
  pub audit_sink : Bool
  pub append : NewAuditEvent → Option Text
  pub elapsed_ms : ℕ
  pub show_id : ℕ → Text

-- `if let Some(t) = target_ref { ev = ev.with_target(t) }`, and the like.
unfoldable pub note :
    (Text → NewAuditEvent → NewAuditEvent) → Option Text → NewAuditEvent → NewAuditEvent
note with none ev = ev
note with (some t) ev = with t ev

unfoldable pub note_all : List (Text × Text) → NewAuditEvent → NewAuditEvent
unfolding with_metadata
note_all [] ev = ev
note_all ((k, v) ∷ later) ev = note_all later (with_metadata k v ev)

unfoldable pub res_tag : {A E : Type 0} → Result A E → AuditResult
res_tag (ok a) = success
res_tag (err e) = error

unfoldable pub note_failure :
    {A E : Type 0} → (E → Text) → Result A E → NewAuditEvent → NewAuditEvent
unfolding with_metadata
note_failure show (ok a) ev = ev
note_failure show (err e) ev = with_metadata (codes "error") (show e) ev

unfoldable pub credential_of : {E : Type 0} → Result ManagedTarget E → Option Text
credential_of (ok t) = some t.credential_ref
credential_of (err e) = none

module _ (vaults : Vault) (targets : Inventory) where
  pub record State : Type 0 where
    pub credentials : vaults.Store
    pub managed : targets.Store
    pub events : List NewAuditEvent

  abbrev pub Failure : Type 0
  Failure = BrokerError vaults.VaultError (Unit {0})

  abbrev pub Answer : Type 0 → Type 0
  Answer A = Result A Failure × State

-- What the log holds after an event, which the sink may refuse.
unfoldable pub appended : NewAuditEvent → Option Text → List NewAuditEvent → List NewAuditEvent
appended ev none events = events ++ ev ∷ []
appended ev (some e) events = events

module _ (vaults : Vault) (targets : Inventory) (parts : Parts) where
  abbrev St : Type 0
  St = State vaults targets

  abbrev Fail : Type 0
  Fail = Failure vaults targets

  abbrev Ans : Type 0 → Type 0
  Ans A = Answer vaults targets A

  unfoldable pub require_vault_admin : Result (Unit {0}) Fail
  require_vault_admin =
      if parts.vault_admin then ok tt else err (admin_backend_not_available (codes "vault"))

  unfoldable pub require_audit_sink : Result (Unit {0}) Fail
  require_audit_sink =
      if parts.audit_sink then ok tt else err (admin_backend_not_available (codes "audit"))

  unfoldable pub event_of :
      {A E : Type 0}
      → (E → Text)
      → Text
      → ActionKind
      → Option Text
      → Option Text
      → Option Text
      → Result A E
      → NewAuditEvent
  unfolding note note_failure res_tag new with_target with_credential with_op_summary
      with_latency_ms
  event_of show actor_id action target credential summary result = note_failure show result (
      note with_op_summary summary (
        note with_credential credential (
          note with_target target
            (with_latency_ms parts.elapsed_ms (new actor_id action (res_tag result))))))

  -- A sink that fails is only logged.
  unfoldable pub audit_action :
      {A E : Type 0}
      → (E → Text)
      → Text
      → ActionKind
      → Option Text
      → Option Text
      → Option Text
      → Result A E
      → St
      → St
  unfolding event_of appended
  audit_action show actor_id action target credential summary result s =
      let ev = event_of show actor_id action target credential summary result in
      if parts.audit_sink then record s { events = appended ev (parts.append ev) s.events } else s

  -- `self.require_vault_admin()?`.
  unfoldable pub on_vault : {A : Type 0} → (St → Ans A) → St → Ans A
  unfolding require_vault_admin
  on_vault op s = elim require_vault_admin [ ok u ↦ op s | err e ↦ (err e, s) ]

  -- What follows the call of the vault.
  unfoldable pub vault_done :
      {A : Type 0}
      → Text
      → ActionKind
      → Option Text
      → Text
      → Result A vaults.VaultError × vaults.Store
      → St
      → Ans A
  unfolding audit_action
  vault_done actor_id action credential summary (result, store) s = (
    map_err result (λ e. vault e),
    audit_action vaults.show_error actor_id action none credential (some summary) result
        (record s { credentials = store }),
  )

  -- What follows the call of the inventory.
  unfoldable pub inventory_done :
      {A : Type 0}
      → Text
      → ActionKind
      → TargetRef
      → Option Text
      → Text
      → Result A InventoryError × targets.Store
      → St
      → Ans A
  unfolding audit_action to_string
  inventory_done actor_id action target credential summary (result, store) s = (
    map_err result (λ e. inventory e),
    audit_action targets.show_error actor_id action (some (to_string target)) credential
        (some summary) result (record s { managed = store }),
  )

  abbrev id_text : ℕ → Text
  id_text id = codes "id=" ++ parts.show_id id

  unfoldable pub vault_list_metadata : Text → St → Ans (List vaults.CredentialMetadata)
  unfolding on_vault vault_done
  vault_list_metadata actor_id = on_vault (λ s.
      vault_done actor_id ActionKind.vault_resolve none (codes "vault list")
        (vaults.list_metadata s.credentials, s.credentials) s)

  unfoldable pub vault_reveal : Text → ℕ → St → Ans vaults.Credential
  unfolding on_vault vault_done
  vault_reveal actor_id id = on_vault (λ s.
      vault_done actor_id ActionKind.vault_reveal (some (id_text id))
        (codes "revealed credential " ++ id_text id) (vaults.reveal id s.credentials, s.credentials)
        s)

  unfoldable pub vault_create : Text → Text → vaults.Credential → St → Ans ℕ
  unfolding on_vault vault_done
  vault_create actor_id name cred = on_vault (λ s.
      vault_done actor_id ActionKind.vault_create (some (codes "vault://" ++ name))
        (codes "created credential kind=" ++ vaults.show_kind cred)
        (vaults.create name cred s.credentials) s)

  unfoldable pub vault_update : Text → ℕ → vaults.Credential → St → Ans (Unit {0})
  unfolding on_vault vault_done
  vault_update actor_id id cred = on_vault (λ s.
      vault_done actor_id ActionKind.vault_update (some (id_text id))
        (codes "updated credential " ++ id_text id) (vaults.update id cred s.credentials) s)

  unfoldable pub vault_rename : Text → ℕ → Text → St → Ans (Unit {0})
  unfolding on_vault vault_done
  vault_rename actor_id id new_name = on_vault (λ s.
      vault_done actor_id ActionKind.vault_rename (some (codes "vault://" ++ new_name))
        (codes "renamed credential " ++ (id_text id ++ (codes " to " ++ new_name)))
        (vaults.rename id new_name s.credentials) s)

  unfoldable pub vault_delete : Text → ℕ → St → Ans (Unit {0})
  unfolding on_vault vault_done
  vault_delete actor_id id = on_vault (λ s.
      vault_done actor_id ActionKind.vault_delete (some (id_text id))
        (codes "deleted credential " ++ id_text id) (vaults.delete id s.credentials) s)

  unfoldable pub inventory_list : Text → Option TargetKind → St → List TargetMetadata
  inventory_list actor_id kind_filter s = targets.list kind_filter s.managed

  unfoldable pub inventory_get_metadata : Text → TargetRef → St → Result TargetMetadata Fail
  inventory_get_metadata actor_id target_ref s =
      map_err (targets.get_metadata target_ref s.managed) (λ e. inventory e)

  unfoldable pub inventory_get_managed : Text → TargetRef → St → Ans ManagedTarget
  unfolding inventory_done credential_of
  inventory_get_managed actor_id target_ref s =
      let result = targets.get_managed target_ref s.managed in
      inventory_done actor_id ActionKind.inventory_resolve target_ref (credential_of result)
        (codes "inventory get_managed") (result, s.managed) s

  unfoldable pub inventory_upsert : Text → ManagedTarget → St → Ans (Unit {0})
  unfolding inventory_done
  inventory_upsert actor_id target s =
      inventory_done actor_id ActionKind.inventory_upsert target.ref none (codes "inventory upsert")
        (targets.upsert target s.managed) s

  unfoldable pub inventory_remove : Text → TargetRef → St → Ans (Unit {0})
  unfolding inventory_done
  inventory_remove actor_id target_ref s =
      inventory_done actor_id ActionKind.inventory_remove target_ref none (codes "inventory remove")
        (targets.remove target_ref s.managed) s

  -- `sink.append(ev).await.map(|_| ()).map_err(..)`.
  unfoldable pub append_event : NewAuditEvent → St → Ans (Unit {0})
  unfolding appended
  append_event ev s = (
    elim (parts.append ev) [ none ↦ ok tt | some e ↦ err (audit e) ],
    record s { events = appended ev (parts.append ev) s.events },
  )

  -- `self.require_audit_sink()?`.
  unfoldable pub on_sink : {A : Type 0} → (St → Ans A) → St → Ans A
  unfolding require_audit_sink
  on_sink op s = elim require_audit_sink [ ok u ↦ op s | err e ↦ (err e, s) ]

  unfoldable pub audit_memory_op :
      Text
      → ActionKind
      → Option Text
      → Option Text
      → ℕ
      → Bool
      → List (Text × Text)
      → St
      → Ans (Unit {0})
  unfolding on_sink append_event note_all note new with_target with_op_summary with_latency_ms
  audit_memory_op actor_id action target_ref op_summary latency_ms succeeds metadata = on_sink (
      append_event (
        note_all metadata (
          note with_op_summary op_summary (
            note with_target target_ref (
              with_latency_ms latency_ms
                (new actor_id action (if succeeds then success else error)))))))

  unfoldable pub audit_admin_action :
      Text
      → ActionKind
      → Option Text
      → Option Text
      → Option Text
      → List (Text × Text)
      → St
      → Ans (Unit {0})
  unfolding on_sink append_event note_all note new with_target with_credential with_op_summary
  audit_admin_action actor_id action target_ref credential_ref op_summary metadata = on_sink (
      append_event (
        note_all metadata (
          note with_op_summary op_summary (
            note with_credential credential_ref
              (note with_target target_ref (new actor_id action success))))))

  -- `guarded` says whether there is a guard; `show` is the `Display` of its errors.
  module _ {J : Type 0} (pool : Pool J) (guarded : Bool) (show : Error → Text) where
    unfoldable pub require_guard : Result (Unit {0}) Fail
    require_guard = if guarded then ok tt else err (admin_backend_not_available (codes "guard"))

    unfoldable pub approvals_decide :
        ℕ → ℕ → ApprovalStatus → Session J → Result (ApprovalRecord J) Fail × Session J
    unfolding require_guard decide
    approvals_decide approval_id decided_by status s = elim require_guard [
      | ok u ↦
          let (result, t) = decide pool approval_id decided_by status s in
          (map_err result (λ e. audit (show e)), t)
      | err e ↦ (err e, s)
    ]
