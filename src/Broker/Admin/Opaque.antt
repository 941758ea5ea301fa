-- ===== src/Broker/Admin/Opaque.antt =====
-- What the audit log of the administration tells of a secret.
use daimon.Common.{
  if◌then◌else◌, ◌∙◌, Bool-cases, inl, inr, ℕ, ◌≡◌, sym, ap, Bool, true, false, Option, none, some,
  ◌++◌,
}
use daimon.Common.Text.{Text, codes}
use daimon.Common.Result.{Result, ok}
use daimon.Audit.Event.{NewAuditEvent, ActionKind, vault_reveal, vault_create, vault_update}
use daimon.Broker.Admin.{
  Vault, Inventory, Parts, State, event_of, audit_action, appended, vault_done, on_vault,
  require_vault_admin, res_tag, note_failure,
}
use daimon.Broker.Admin as Admin
use daimon.Broker.Admin.Trail.{Call, reveal, create, update, run}

module _ (vaults : Vault) (targets : Inventory) (parts : Parts) where
  abbrev St : Type 0
  St = State vaults targets

  -- Two calls that differ in a secret only: both reveal some credential under the id, or both store
  -- one, of the same kind if it is new, with the same answer of the vault.
  pub data Alike (s t : St) : Call vaults.Credential → Call vaults.Credential → Type 0 where
    revealed :
        (id : ℕ) (a b : vaults.Credential)
        → vaults.reveal id s.credentials ≡ ok a
        → vaults.reveal id t.credentials ≡ ok b
        → Alike s t (reveal id) (reveal id)
    created :
        (name : Text) (a b : vaults.Credential)
        → vaults.show_kind a ≡ vaults.show_kind b
        → (vaults.create name a s.credentials).0 ≡ (vaults.create name b t.credentials).0
        → Alike s t (create name a) (create name b)
    updated :
        (id : ℕ) (a b : vaults.Credential)
        → (vaults.update id a s.credentials).0 ≡ (vaults.update id b t.credentials).0
        → Alike s t (update id a) (update id b)

  same_if :
      (b : Bool) (s s' t t' : St)
      → s.events ≡ t.events
      → s'.events ≡ t'.events
      → (if b then s else s').events ≡ (if b then t else t').events
  same_if true s s' t t' h k = h
  same_if false s s' t t' h k = k

  on_vault-same :
      {A : Type 0} (op op' : St → Admin.Answer vaults targets A) (s t : St)
      → s.events ≡ t.events
      → (op s).1.events ≡ (op' t).1.events
      → (on_vault vaults targets parts op s).1.events
        ≡ (on_vault vaults targets parts op' t).1.events
  unfolding on_vault require_vault_admin
  on_vault-same op op' s t h k = elim (Bool-cases parts.vault_admin) [
    | inl v ↦ rw (v) k
    | inr v ↦ rw (v) h
  ]

  vault_done-same :
      {A : Type 0} (actor : Text) (action : ActionKind) (credential : Option Text)
      (summary summary' : Text) (r r' : Result A vaults.VaultError) (d d' : vaults.Store) (s t : St)
      → event_of vaults targets parts vaults.show_error actor action none credential
          (some summary)
          r
        ≡ event_of vaults targets parts vaults.show_error actor action none credential
            (some summary')
            r'
      → s.events ≡ t.events
      → (vault_done vaults targets parts actor action credential summary (r, d) s).1.events
        ≡ (vault_done vaults targets parts actor action credential summary' (r', d') t).1.events
  unfolding vault_done audit_action
  vault_done-same actor action credential summary summary' r r' d d' s t e k =
      same_if parts.audit_sink _ _ _ _ (λ i. appended (e i) (parts.append (e i)) (k i)) k

  vault_call-same :
      {A : Type 0} (actor : Text) (action : ActionKind) (credential : Option Text)
      (summary summary' : Text)
      (call call' : vaults.Store → Result A vaults.VaultError × vaults.Store) (s t : St)
      → event_of vaults targets parts vaults.show_error actor action none credential
          (some summary)
          (call s.credentials).0
        ≡ event_of vaults targets parts vaults.show_error actor action none credential
            (some summary')
            (call' t.credentials).0
      → s.events ≡ t.events
      → (on_vault vaults targets parts
          (λ x.
            vault_done vaults targets parts actor action credential summary (call x.credentials) x)
          s).1.events
        ≡ (on_vault vaults targets parts
            (λ x.
              vault_done vaults targets parts actor action credential summary'
                (call' x.credentials)
                x)
            t).1.events
  unfolding vault_done
  vault_call-same {A = A} actor action credential summary summary' call call' s t e k =
      on_vault-same
        (λ x.
          vault_done vaults targets parts actor action credential summary (call x.credentials) x)
        (λ x.
          vault_done vaults targets parts actor action credential summary' (call' x.credentials) x)
        s t k
        (vault_done-same {A = A} actor action credential summary summary' (call s.credentials).0
          (call' t.credentials).0 (call s.credentials).1 (call' t.credentials).1 s t e k)

  abbrev id_text : ℕ → Text
  id_text id = codes "id=" ++ parts.show_id id

  -- The event of a call that is given the answer of the vault.
  abbrev event :
      {A : Type 0} → Text → ActionKind → Text → Text → Result A vaults.VaultError → NewAuditEvent
  unfolding event_of
  event actor action credential summary r =
      event_of vaults targets parts vaults.show_error actor action none (some credential)
        (some summary) r

  revealed-same :
      (actor credential summary : Text) (r r' : Result vaults.Credential vaults.VaultError)
      (a b : vaults.Credential)
      → r ≡ ok a
      → r' ≡ ok b
      → event actor vault_reveal credential summary r
        ≡ event actor vault_reveal credential summary r'
  unfolding event event_of res_tag note_failure
  revealed-same actor credential summary r r' a b h k =
      ap (event actor vault_reveal credential summary) h
      ∙ sym (ap (event actor vault_reveal credential summary) k)

  -- The log after a call does not tell which secret the call was about: it is the same after two calls
  -- that differ in a secret only, made on logs that are the same.
  pub run-opaque :
      (actor : Text) (c d : Call vaults.Credential) (s t : St)
      → Alike s t c d
      → s.events ≡ t.events
      → (run vaults targets parts actor c s).1.events
        ≡ (run vaults targets parts actor d t).1.events
  unfolding Admin.vault_reveal Admin.vault_create Admin.vault_update event
  run-opaque actor c d s t (revealed id a b h k) e =
      let summary = codes "revealed credential " ++ id_text id in
      vault_call-same actor vault_reveal (some (id_text id)) summary summary
        (λ x. (vaults.reveal id x, x)) (λ x. (vaults.reveal id x, x)) s t
        (revealed-same actor (id_text id) summary (vaults.reveal id s.credentials)
          (vaults.reveal id t.credentials) a b h k)
        e
  run-opaque actor c d s t (created name a b h k) e =
      let path = codes "vault://" ++ name in
      vault_call-same actor vault_create (some path)
        (codes "created credential kind=" ++ vaults.show_kind a)
        (codes "created credential kind=" ++ vaults.show_kind b) (vaults.create name a)
        (vaults.create name b) s t
        (λ i. event actor vault_create path (codes "created credential kind=" ++ h i) (k i)) e
  run-opaque actor c d s t (updated id a b k) e =
      let summary = codes "updated credential " ++ id_text id in
      vault_call-same actor vault_update (some (id_text id)) summary summary (vaults.update id a)
        (vaults.update id b) s t (ap (event actor vault_update (id_text id) summary) k) e
