-- ===== src/Anchor/Chain.antt =====
-- What a report without breaks says, and which rows have the same canonical text.
use native.Mathlib.Omega.{arith}
use daimon.Common.{
  ◌≡◌, refl, sym, ap, ◌∙◌, ◌↔◌, inl, inr, Option, none, some, List, [], ◌∷◌, ◌++◌, Bool-cases,
}
use daimon.Common.Text.{Text, codes, text_eq, text_eq_sound, text_eq_complete}
use daimon.Anchor.Canonical.{
  AuditRow, or_default, metadata_of, latency_of, join_bar, canonicalize, compute_row_hash,
}
use daimon.Anchor.Verify.{StoredRow, breaks_from, verify}

module _ {T L : Type 0} (show_ts : T → Text) (show_latency : L → Text) (sha256 : Text → Text) where
  abbrev or_empty : Option Text → Text
  or_empty none = []
  or_empty (some t) = t

  abbrev latency_text : Option L → Text
  latency_text none = []
  latency_text (some n) = show_latency n

  abbrev metadata_text : Text → Text
  metadata_text [] = codes "{}"
  metadata_text (c ∷ t) = c ∷ t

  -- The nine fields of a row, a bar between each two.
  abbrev pub row_text : AuditRow T L → Text
  row_text r =
      show_ts r.ts
      ++ (b'|'
          ∷ (r.actor_id
              ++ (b'|'
                  ∷ (r.action
                      ++ (b'|'
                          ∷ (or_empty r.target_ref
                              ++ (b'|'
                                  ∷ (or_empty r.credential_ref
                                      ++ (b'|'
                                          ∷ (or_empty r.op_summary
                                              ++ (b'|'
                                                  ∷ (r.result
                                                      ++ (b'|'
                                                          ∷ (latency_text r.latency_ms
                                                            ++ (b'|'
                                                            ∷ metadata_text
                                                            r.metadata_json)))))))))))))))

  -- Each stored hash is the digest of the row's text followed by the hash stored before it.
  abbrev pub IsChained : Text → List (StoredRow T L) → Type 0
  IsChained prev [] = Unit
  IsChained prev (r ∷ rs) = (sha256 (row_text r.row ++ prev) ≡ r.row_hash) × IsChained r.row_hash rs

  latency_same : (o : Option L) → latency_of show_ts show_latency o ≡ latency_text o
  latency_same none = refl
  latency_same (some n) = refl

  metadata_same : (t : Text) → metadata_of t ≡ metadata_text t
  metadata_same [] = refl
  metadata_same (c ∷ t) = refl

  default_same : (o : Option Text) → or_default o ≡ or_empty o
  default_same none = refl
  default_same (some t) = refl

  computed-row_text :
      (r : AuditRow T L) (prev : Text)
      → compute_row_hash sha256 (canonicalize show_ts show_latency r) prev
        ≡ sha256 (row_text r ++ prev)
  unfolding compute_row_hash canonicalize join_bar
  computed-row_text r prev =
      rw
        (
          default_same r.target_ref,
          default_same r.credential_ref,
          default_same r.op_summary,
          latency_same r.latency_ms,
          metadata_same r.metadata_json,
        )
        refl

  sound :
      (prev : Text) (rows : List (StoredRow T L))
      → breaks_from show_ts show_latency sha256 prev rows ≡ []
      → IsChained prev rows
  unfolding breaks_from
  sound prev [] h = tt
  sound prev (r ∷ rs) h =
      elim (Bool-cases (
        text_eq (compute_row_hash sha256 (canonicalize show_ts show_latency r.row) prev)
          r.row_hash)) [
            | inl e ↦ (
              sym (computed-row_text r.row prev) ∙ text_eq_sound _ r.row_hash e,
              sound r.row_hash rs (rw (e, breaks_from) at h),
            )
            | inr e ↦ absurd (ground (arith, h, e))
          ]

  complete :
      (prev : Text) (rows : List (StoredRow T L))
      → IsChained prev rows
      → breaks_from show_ts show_latency sha256 prev rows ≡ []
  unfolding breaks_from
  complete prev [] h = refl
  complete prev (r ∷ rs) h =
      rw (text_eq_complete _ r.row_hash (computed-row_text r.row prev ∙ h.0), breaks_from)
        (complete r.row_hash rs h.1)

  -- The walk reports no break exactly when each stored hash is the digest of the row's nine fields,
  -- joined by bars, followed by the hash stored before it, or by the first one at the oldest row.
  pub verify_iff :
      (genesis : Text) (rows : List (StoredRow T L))
      → ((verify show_ts show_latency sha256 genesis rows).breaks ≡ []) ↔ IsChained genesis rows
  unfolding verify
  verify_iff genesis rows = (sound genesis rows, complete genesis rows)

append_bar : (a b x : Text) → (a ++ (b'|' ∷ b)) ++ x ≡ a ++ (b'|' ∷ (b ++ x))
append_bar [] b x = refl
append_bar (c ∷ a) b x = ap (λ t. c ∷ t) (append_bar a b x)

module _ {T L : Type 0} (show_ts : T → Text) (show_latency : L → Text) where
  -- Text moved over the bar between two fields keeps the canonical text: a row of the actor `a|b` and
  -- the action `c` has the same one as a row of the actor `a` and the action `b|c`.
  pub canonicalize_collision :
      (row : AuditRow T L) (a b c : Text)
      → canonicalize show_ts show_latency (record row { actor_id = a ++ (b'|' ∷ b); action = c })
        ≡ canonicalize show_ts show_latency (record row { actor_id = a; action = b ++ (b'|' ∷ c) })
  unfolding canonicalize join_bar
  canonicalize_collision row a b c =
      ap (λ t. show_ts row.ts ++ (b'|' ∷ t))
        (append_bar a b _ ∙ ap (λ t. a ++ (b'|' ∷ t)) (sym (append_bar b c _)))
