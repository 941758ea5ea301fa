-- ===== src/Guard/Approvals/Rows.antt =====
-- What the statements do to the rows of the inbox.
use native.Mathlib.Omega.{arith}
use mathlib.Core.Path.{subst}
use daimon.Common.{
  ℕ, ◌≡◌, refl, sym, ap, ◌≢◌, inl, inr, Bool, true, false, Option, some, List, [], ◌∷◌, ◌++◌, map,
  In, All, In-append_left, find, Bool-cases,
}
use daimon.Common.Text.{Text}
use daimon.Guard.Approvals.{
  ApprovalStatus, ApprovalRecord, is_pending, is_open, Write, insert, decision, expiry, decide_row,
  expire_row, write, writes, as_str, from_str, pending, approved, denied, expired,
}

-- The text of a status in the table is read back as the same status.
pub from_str-as_str : (s : ApprovalStatus) → from_str (as_str s) ≡ s
unfolding from_str as_str
from_str-as_str pending = refl
from_str-as_str approved = refl
from_str-as_str denied = refl
from_str-as_str expired = refl

module _ {J : Type 0} where
  In-map :
      {B : Type 0} (f : ApprovalRecord J → B) (r : ApprovalRecord J)
      (rows : List (ApprovalRecord J))
      → In r rows
      → In (f r) (map f rows)
  In-map f r [] h = elim h [ ]
  In-map f r (x ∷ rows) (inl e) = inl (ap f e)
  In-map f r (x ∷ rows) (inr h) = inr (In-map f r rows h)

  decide_row_closed :
      (id by now : ℕ) (st : ApprovalStatus) (r : ApprovalRecord J)
      → is_pending r.status ≡ false
      → decide_row id by st now r ≡ r
  unfolding decide_row
  decide_row_closed id by now st r h = ground arith

  expire_row_closed :
      (id now : ℕ) (r : ApprovalRecord J) → is_pending r.status ≡ false → expire_row id now r ≡ r
  unfolding expire_row
  expire_row_closed id now r h = ground arith

  write-closed :
      (w : Write J) (rows : List (ApprovalRecord J)) (r : ApprovalRecord J)
      → is_pending r.status ≡ false
      → In r rows
      → In r (write w rows)
  unfolding write
  write-closed (insert r') rows r h i = In-append_left r rows (r' ∷ []) i
  write-closed (decision id by st now) rows r h i =
      rw (decide_row_closed id by now st r h) at (In-map (decide_row id by st now) r rows i)
  write-closed (expiry id now) rows r h i =
      subst (λ x. In x (map (expire_row id now) rows)) (expire_row_closed id now r h)
        (In-map (expire_row id now) r rows i)

  -- A row that is no longer pending stays in the table as it is, whatever statements follow: no
  -- later decision and no expiry changes it.
  pub writes_closed :
      (ws : List (Write J)) (rows : List (ApprovalRecord J)) (r : ApprovalRecord J)
      → is_pending r.status ≡ false
      → In r rows
      → In r (writes ws rows)
  unfolding writes
  writes_closed [] rows r h i = i
  writes_closed (w ∷ ws) rows r h i =
      writes_closed ws (write w rows) r h (write-closed w rows r h i)

  pub find_sound :
      (p : ApprovalRecord J → Bool) (rows : List (ApprovalRecord J)) (r : ApprovalRecord J)
      → find p rows ≡ some r
      → In r rows × (p r ≡ true)
  find_sound p [] r h = cc
  find_sound p (x ∷ rows) r h = elim (Bool-cases (p x)) [
    | inl e ↦ let q : x ≡ r = ground (arith, h, e) in (inl (sym q), subst (λ y. p y ≡ true) q e)
    | inr e ↦ let ih = find_sound p rows r (ground (arith, h, e)) in (inr ih.0, ih.1)
  ]

  pub All_of_In :
      (P : ApprovalRecord J → Type 0) (rows : List (ApprovalRecord J)) (r : ApprovalRecord J)
      → All P rows
      → In r rows
      → P r
  All_of_In P [] r a i = elim i [ ]
  All_of_In P (x ∷ rows) r a (inl e) = subst P (sym e) a.0
  All_of_In P (x ∷ rows) r a (inr i) = All_of_In P rows r a.1 i

  pub All-map :
      (P : ApprovalRecord J → Type 0) (f : ApprovalRecord J → ApprovalRecord J)
      (rows : List (ApprovalRecord J))
      → ((r : ApprovalRecord J) → P r → P (f r))
      → All P rows
      → All P (map f rows)
  All-map P f [] k a = a
  All-map P f (x ∷ rows) k a = (k x a.0, All-map P f rows k a.1)

  pub All-snoc :
      (P : ApprovalRecord J → Type 0) (rows : List (ApprovalRecord J)) (r : ApprovalRecord J)
      → All P rows
      → P r
      → All P (rows ++ r ∷ [])
  All-snoc P [] r a h = (h, tt)
  All-snoc P (x ∷ rows) r a h = (a.0, All-snoc P rows r a.1 h)

  -- The row of this id, if there is one, asks for this call.
  pub record AsksFor (id : ℕ) (actor capability : Text) (target : Option Text) (params : J)
      (r : ApprovalRecord J) : Type 0 where
    pub asks :
        r.id ≡ id
        → (r.actor_id ≡ actor)
          × (r.capability ≡ capability)
          × (r.target_ref ≡ target)
          × (r.params ≡ params)

  -- A statement that inserts no row of this id.
  abbrev pub SparesId : ℕ → Write J → Type 0
  SparesId id (insert r) = r.id ≢ id
  SparesId id _ = Unit

  module _ (id : ℕ) (actor capability : Text) (target : Option Text) (params : J) where
    decide_row-AsksFor :
        (k by now : ℕ) (st : ApprovalStatus) (r : ApprovalRecord J)
        → AsksFor id actor capability target params r
        → AsksFor id actor capability target params (decide_row k by st now r)
    unfolding decide_row
    decide_row-AsksFor k by now st r h = elim (Bool-cases (is_open k r)) [
      | inl e ↦ rw e (record { asks = h.asks })
      | inr e ↦ rw e h
    ]

    pub expire_row-AsksFor :
        (k now : ℕ) (r : ApprovalRecord J)
        → AsksFor id actor capability target params r
        → AsksFor id actor capability target params (expire_row k now r)
    unfolding expire_row
    expire_row-AsksFor k now r h = elim (Bool-cases (is_open k r)) [
      | inl e ↦ rw e (record { asks = h.asks })
      | inr e ↦ rw e h
    ]

    write-AsksFor :
        (w : Write J) (rows : List (ApprovalRecord J))
        → SparesId id w
        → All (AsksFor id actor capability target params) rows
        → All (AsksFor id actor capability target params) (write w rows)
    unfolding write
    write-AsksFor (insert r) rows h a = All-snoc _ rows r a (record { asks = λ e. absurd (h e) })
    write-AsksFor (decision k by st now) rows h a =
        All-map _ _ rows (decide_row-AsksFor k by now st) a
    write-AsksFor (expiry k now) rows h a = All-map _ _ rows (expire_row-AsksFor k now) a

    pub writes-AsksFor :
        (ws : List (Write J)) (rows : List (ApprovalRecord J))
        → All (SparesId id) ws
        → All (AsksFor id actor capability target params) rows
        → All (AsksFor id actor capability target params) (writes ws rows)
    unfolding writes
    writes-AsksFor [] rows h a = a
    writes-AsksFor (w ∷ ws) rows h a =
        writes-AsksFor ws (write w rows) h.1 (write-AsksFor w rows h.0 a)
