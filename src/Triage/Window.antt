-- ===== src/Triage/Window.antt =====
-- The window in which a signature is admitted once.
use daimon.Common.{
  ℕ, ◌+◌, ◌-◌, ◌≤◌, ◌<◌, ◌≡◌, refl, ◌∙◌, inl, inr, true, false, some, List, [], ◌∷◌, All, ltb,
  Bool-cases, arith,
}
use daimon.Common.Map.{lookup, insert, lookup-insert}
use daimon.Triage.{
  Signature, signature_eq, signature_eq_iff, signature_Eq, Dedupe, in_flight, admit,
}

-- The events of a run of the agent: signatures with their times.
unfoldable pub admit_all : List (Signature × ℕ) → Dedupe → Dedupe
unfolding admit
admit_all [] d = d
admit_all ((key, now) ∷ rest) d = admit_all rest (admit key now d).1

-- The signature was admitted at `t` or later.
abbrev SeenSince : Signature → ℕ → Dedupe → Type 0
SeenSince key t d = (u : ℕ) × (lookup key d.seen ≡ some u) × (t ≤ u)

pub admit-ttl :
    (key : Signature) (now : ℕ) (d : Dedupe) → (admit key now d).1.dedupe_ttl ≡ d.dedupe_ttl
unfolding admit
admit-ttl key now d = elim (Bool-cases (in_flight d.dedupe_ttl now (lookup key d.seen))) [
  | inl e ↦ rw (admit, e) refl
  | inr e ↦ rw (admit, e) refl
]

insert-SeenSince :
    (key k : Signature) (t now : ℕ) (m : List (Signature × ℕ)) (u : ℕ)
    → lookup key m ≡ some u
    → t ≤ u
    → t ≤ now
    → (v : ℕ) × (lookup key (insert k now m) ≡ some v) × (t ≤ v)
insert-SeenSince key k t now m u e h j = elim (Bool-cases (signature_eq k key)) [
  | inl q ↦ (now, lookup-insert k key now m ∙ rw q refl, j)
  | inr q ↦ (u, lookup-insert k key now m ∙ rw q e, h)
]

admit-SeenSince :
    (key k : Signature) (t now : ℕ) (d : Dedupe)
    → t ≤ now
    → SeenSince key t d
    → SeenSince key t (admit k now d).1
unfolding admit
admit-SeenSince key k t now d j (u, e, h) =
    elim (Bool-cases (in_flight d.dedupe_ttl now (lookup k d.seen))) [
      | inl q ↦ rw (admit, q) (u, e, h)
      | inr q ↦ rw (admit, q) (insert-SeenSince key k t now d.seen u e h j)
    ]

admit_all-SeenSince :
    (key : Signature) (t : ℕ) (events : List (Signature × ℕ)) (d : Dedupe)
    → All (λ e. t ≤ e.1) events
    → SeenSince key t d
    → SeenSince key t (admit_all events d) × ((admit_all events d).dedupe_ttl ≡ d.dedupe_ttl)
unfolding admit_all
admit_all-SeenSince key t [] d a s = (s, refl)
admit_all-SeenSince key t ((k, now) ∷ rest) d a s =
    let (r, q) =
      admit_all-SeenSince key t rest (admit k now d).1 a.1 (admit-SeenSince key k t now d a.0 s) in
    (r, q ∙ admit-ttl k now d)

admit-fresh :
    (key : Signature) (t : ℕ) (d : Dedupe)
    → (admit key t d).0 ≡ true
    → SeenSince key t (admit key t d).1
unfolding admit
admit-fresh key t d h = elim (Bool-cases (in_flight d.dedupe_ttl t (lookup key d.seen))) [
  | inl e ↦ absurd (ground (arith, h, e))
  | inr e ↦
      let same : signature_eq key key ≡ true = (signature_eq_iff key key).1 refl in
      rw (admit, e) (t, lookup-insert key key t d.seen ∙ rw same refl, omega arith)
]

flies : (now u t n m : ℕ) → n ≡ m → t ≤ u → t ≤ now → now < t + m → ltb (now - u) n ≡ true
flies now u t n m e j since within = ground arith

-- A signature that was admitted at `t` is refused until the window has passed, whatever events, none
-- of them before `t`, come in between.
pub admit_once :
    (key : Signature) (t now : ℕ) (events : List (Signature × ℕ)) (d : Dedupe)
    → (admit key t d).0 ≡ true
    → All (λ e. t ≤ e.1) events
    → t ≤ now
    → now < t + d.dedupe_ttl
    → (admit key now (admit_all events (admit key t d).1)).0 ≡ false
unfolding admit in_flight
admit_once key t now events d h a since within =
    let later = admit_all events (admit key t d).1 in
    let ((u, e, j), q) =
      admit_all-SeenSince key t events (admit key t d).1 a (admit-fresh key t d h) in
    let ttl : later.dedupe_ttl ≡ d.dedupe_ttl = q ∙ admit-ttl key t d in
    let flying : ltb (now - u) later.dedupe_ttl ≡ true =
      flies now u t later.dedupe_ttl d.dedupe_ttl ttl j since within in
    rw (admit, e, in_flight, flying) refl
