-- ===== src/Core/Capability/Disposition.antt =====
-- Which capabilities count as reads.
use native.Mathlib.Omega.{arith}
use mathlib.Core.Path.{subst}
use daimon.Common.{
  ◌≡◌, refl, sym, inl, inr, ◌↔◌, Bool, true, false, ◌&&◌, not, Option, none, some, List, [], ◌∷◌,
  ◌++◌, any, In, Bool-cases,
}
use daimon.Common.Text.{Text, contains, starts_with, starts_with-append, starts_with_sound}
use daimon.Core.Capability.{
  CompensatingCapability, Capability, is_none, read_markers, name_is_read, is_read,
}

-- The needle stands somewhere in the text.
abbrev pub Within : Text → Text → Type 0
Within needle s = (p : Text) × (r : Text) × (s ≡ p ++ (needle ++ r))

contains_complete : (p n r : Text) → contains (p ++ (n ++ r)) n ≡ true
unfolding contains
contains_complete [] n r = go (n ++ r) (starts_with-append n r)
  where
    go : (s : Text) → starts_with s n ≡ true → contains s n ≡ true
    go [] h = h
    go (c ∷ s) h = ground (arith, h)
contains_complete (c ∷ p) n r = ground (arith, contains_complete p n r)

contains_sound : (s n : Text) → contains s n ≡ true → Within n s
unfolding contains
contains_sound [] n h = let (r, e) = starts_with_sound [] n h in ([], r, e)
contains_sound (c ∷ s) n h = elim (Bool-cases (starts_with (c ∷ s) n)) [
  | inl e ↦ let (r, q) = starts_with_sound (c ∷ s) n e in ([], r, q)
  | inr e ↦ let (p, r, q) = contains_sound s n (rw e at h) in (c ∷ p, r, cc)
]

any_sound :
    (p : Text → Bool) (xs : List Text) → any p xs ≡ true → (x : Text) × In x xs × (p x ≡ true)
any_sound p [] h = absurd (ground (arith, h))
any_sound p (x ∷ xs) h = elim (Bool-cases (p x)) [
  | inl e ↦ (x, inl refl, e)
  | inr e ↦ let (y, i, q) = any_sound p xs (rw e at h) in (y, inr i, q)
]

any_complete :
    (p : Text → Bool) (x : Text) (xs : List Text) → In x xs → p x ≡ true → any p xs ≡ true
any_complete p x [] i h = elim i [ ]
any_complete p x (y ∷ xs) (inl e) h = ground (arith, h, e)
any_complete p x (y ∷ xs) (inr i) h = ground (arith, any_complete p x xs i h)

pub name_is_read_sound :
    (name : Text) → name_is_read name ≡ true → (m : Text) × In m read_markers × Within m name
unfolding name_is_read
name_is_read_sound name h =
    let (m, i, e) = any_sound (contains name) read_markers h in (m, i, contains_sound name m e)

pub name_is_read_complete : (m p r : Text) → In m read_markers → name_is_read (p ++ (m ++ r)) ≡ true
unfolding name_is_read
name_is_read_complete m p r i =
    any_complete (contains (p ++ (m ++ r))) m read_markers i (contains_complete p m r)

parts :
    (o : Option CompensatingCapability) (i n : Bool)
    → (is_none o && (not i && n)) ≡ true
    → (o ≡ none) × (i ≡ false) × (n ≡ true)
parts none i n h = (refl, ground (arith, h), ground (arith, h))
parts (some x) i n h = absurd (ground (arith, h))

module _ {V J : Type 0} where
  -- A capability counts as a read exactly when it names no compensator, is not irreversible, and one
  -- of the read markers stands somewhere in its name.
  pub is_read_iff :
      (c : Capability V J)
      → (is_read c ≡ true) ↔ (
          (c.compensating ≡ none)
          × (c.irreversible ≡ false)
          × ((m : Text) × In m read_markers × Within m c.name))
  unfolding is_read
  is_read_iff c = (
    λ h. (
      (parts c.compensating c.irreversible (name_is_read c.name) h).0,
      (parts c.compensating c.irreversible (name_is_read c.name) h).1,
      name_is_read_sound c.name (parts c.compensating c.irreversible (name_is_read c.name) h).2,
    ),
    λ (q, i, w).
        let (m, j, x) = w in
        let (p, r, e) = x in
        ground
          (arith, q, i, subst (λ n. name_is_read n ≡ true) (sym e) (name_is_read_complete m p r j)),
  )
