-- ===== src/Workflow/Closure/Least.antt =====
-- The closure of `_dependent_unit_closure` is the least set of units that holds the selected ones
-- and every unit that depends on one of its own.
use prd_agent.Base.{
  text_key, ℕ, zero, suc, ◌<◌, ◌≤◌, ◌≡◌, refl, sym, subst, String, Bool, true, false, List, [], ◌∷◌,
  any, length, count, All, arith, ◌==◌, if◌then◌else◌, Bool-cases, inl, inr, not, count-le-length,
}
use prd_agent.Domain.Entities.{ConfirmationUnit, OutlineVersion}
use prd_agent.Workflow.Closure.{
  contains, depends_on, is_missing, closure_pass, closure_loop, dependent_unit_closure,
}

-- Every member of the one is a member of the other.
abbrev pub Within : List String → List String → Type 0
Within c d = (x : String) → contains c x ≡ true → contains d x ≡ true

-- What depends on a unit with the property has it.
abbrev pub Spreads : (String → Type 0) → List ConfirmationUnit → Type 0
Spreads P units =
    All (λ u. (x : String) → contains u.depends_on_unit_ids x ≡ true → P x → P u.unit_id) units

-- Every unit that depends on a member is a member.
abbrev pub IsClosed : List String → List ConfirmationUnit → Type 0
IsClosed closure units = Spreads (λ x. contains closure x ≡ true) units

-- The members have the property.
abbrev pub AllIn : (String → Type 0) → List String → Type 0
AllIn P c = (x : String) → contains c x ≡ true → P x

add-Within :
    (missing : Bool) (x : String) (c : List String) → Within c (if missing then x ∷ c else c)
add-Within true x c y h = ground arith
add-Within false x c y h = h

pass-Within : (c : List String) (units : List ConfirmationUnit) → Within c (closure_pass c units).0
unfolding closure_pass
pass-Within c [] x h = h
pass-Within c (u ∷ us) x h =
    pass-Within (if is_missing c u then u.unit_id ∷ c else c) us x
      (add-Within (is_missing c u) u.unit_id c x h)

-- A member of the dependencies that is in the closure is found by the test.
any-of-contains :
    (p : String → Bool) (items : List String) (x : String)
    → contains items x ≡ true
    → p x ≡ true
    → any p items ≡ true
any-of-contains p [] x found passed = cc
any-of-contains p (y ∷ items) x found passed = elim (Bool-cases (y == x)) [
  | inl same ↦
      let here : p y ≡ true =
        subst (λ z. p z ≡ true) (sym ((text_key.same_iff y x).0 same)) passed in
      rw here refl
  | inr other ↦ let later = any-of-contains p items x (rw other at found) passed in ground arith
]

-- A unit that has not to be added stands in the closure if it depends on a member.
present-member :
    (c : List String) (u : ConfirmationUnit)
    → is_missing c u ≡ false
    → (x : String) → contains u.depends_on_unit_ids x ≡ true
    → contains c x ≡ true
    → contains c u.unit_id ≡ true
present-member c u h x depends found =
    let test : depends_on c u ≡ true =
      any-of-contains (contains c) u.depends_on_unit_ids x depends found in
    elim (Bool-cases (contains c u.unit_id)) [
      | inl there ↦ there
      | inr absent ↦ absurd (ground arith)
    ]

-- A pass that changes nothing has found every unit closed.
pass-IsClosed :
    (c : List String) (units : List ConfirmationUnit)
    → (closure_pass c units).1 ≡ false
    → ((closure_pass c units).0 ≡ c) × IsClosed c units
unfolding closure_pass
pass-IsClosed c [] h = (refl, tt)
pass-IsClosed c (u ∷ us) h = elim (Bool-cases (is_missing c u)) [
  | inl missing ↦ absurd (ground arith)
  | inr closed ↦
      let (same, rest) = pass-IsClosed c us (rw closed at h) in
      (rw closed same, (present-member c u closed, rest))
]

-- The units that are not yet in the closure.
abbrev outstanding : List String → List ConfirmationUnit → ℕ
outstanding c units = count (λ u. not (contains c u.unit_id)) units

outstanding-Within :
    (c d : List String) (units : List ConfirmationUnit)
    → Within c d
    → outstanding d units ≤ outstanding c units
outstanding-Within c d [] h = omega arith
outstanding-Within c d (u ∷ us) h = ground (arith, h u.unit_id, outstanding-Within c d us h)

-- A larger closure that holds the unit leaves fewer units outstanding.
outstanding-cons :
    (c d : List String) (u : ConfirmationUnit) (units : List ConfirmationUnit)
    → Within c d
    → contains c u.unit_id ≡ false
    → contains d u.unit_id ≡ true
    → outstanding d (u ∷ units) < outstanding c (u ∷ units)
outstanding-cons c d u units within before now = ground (arith, outstanding-Within c d units within)

outstanding-cons_lt :
    (c d : List String) (u : ConfirmationUnit) (units : List ConfirmationUnit)
    → Within c d
    → outstanding d units < outstanding c units
    → outstanding d (u ∷ units) < outstanding c (u ∷ units)
outstanding-cons_lt c d u units within lt = ground (arith, within u.unit_id)

missing-absent :
    (c : List String) (u : ConfirmationUnit) → is_missing c u ≡ true → contains c u.unit_id ≡ false
missing-absent c u h = ground arith

missing-depends :
    (c : List String) (u : ConfirmationUnit) → is_missing c u ≡ true → depends_on c u ≡ true
missing-depends c u h = ground arith

contains-cons : (x : String) (c : List String) → contains (x ∷ c) x ≡ true
contains-cons x c = ground (arith, text_key.same_iff x x)

-- A pass that changes something leaves fewer units outstanding.
pass-outstanding :
    (c : List String) (units : List ConfirmationUnit)
    → (closure_pass c units).1 ≡ true
    → outstanding (closure_pass c units).0 units < outstanding c units
unfolding closure_pass
pass-outstanding c [] h = cc
pass-outstanding c (u ∷ us) h = elim (Bool-cases (is_missing c u)) [
  | inl missing ↦
      let d : List String = u.unit_id ∷ c in
      let r : List String = (closure_pass d us).0 in
      let same : (closure_pass c (u ∷ us)).0 ≡ r = rw missing refl in
      subst (λ v. outstanding v (u ∷ us) < outstanding c (u ∷ us)) (sym same)
        (outstanding-cons c r u us (λ x h. pass-Within d us x (add-Within true u.unit_id c x h))
          (missing-absent c u missing) (pass-Within d us u.unit_id (contains-cons u.unit_id c)))
  | inr closed ↦
      let r : List String = (closure_pass c us).0 in
      let same : (closure_pass c (u ∷ us)).0 ≡ r = rw closed refl in
      subst (λ v. outstanding v (u ∷ us) < outstanding c (u ∷ us)) (sym same)
        (outstanding-cons_lt c r u us (pass-Within c us) (pass-outstanding c us (rw closed at h)))
]

-- With fuel for every unit outstanding the loop ends by its test, closed.
loop-IsClosed :
    (fuel : ℕ) (c : List String) (units : List ConfirmationUnit)
    → outstanding c units < fuel
    → IsClosed (closure_loop fuel c units) units
unfolding closure_loop
loop-IsClosed zero c units h = absurd (omega arith)
loop-IsClosed (suc fuel) c units h =
    let (next, changed) = closure_pass c units in
    elim (Bool-cases changed) [
      | inl again ↦
          rw again (loop-IsClosed fuel next units (omega (arith, pass-outstanding c units again)))
      | inr over ↦ let (same, closed) = pass-IsClosed c units over in rw (over, same) closed
    ]

loop-Within :
    (fuel : ℕ) (c : List String) (units : List ConfirmationUnit)
    → Within c (closure_loop fuel c units)
unfolding closure_loop
loop-Within zero c units x h = h
loop-Within (suc fuel) c units x h =
    let (next, changed) = closure_pass c units in
    let here : contains next x ≡ true = pass-Within c units x h in
    elim (Bool-cases changed) [
      | inl again ↦ rw again (loop-Within fuel next units x here)
      | inr over ↦ rw over here
    ]

-- A test that some member passes is passed by a member that is found.
any-contains :
    (p : String → Bool) (items : List String)
    → any p items ≡ true
    → (x : String) × (contains items x ≡ true) × (p x ≡ true)
any-contains p [] h = cc
any-contains p (y ∷ items) h = elim (Bool-cases (p y)) [
  | inl here ↦ (y, contains-cons y items, here)
  | inr later ↦
      let (x, found, passed) = any-contains p items (rw later at h) in (x, ground arith, passed)
]

add-AllIn : (P : String → Type 0) (c : List String) (y : String) → AllIn P c → P y → AllIn P (y ∷ c)
add-AllIn P c y h p x found = elim (Bool-cases (y == x)) [
  | inl same ↦ subst P ((text_key.same_iff y x).0 same) p
  | inr other ↦ h x (rw other at found)
]

visit-AllIn :
    (P : String → Type 0) (c : List String) (u : ConfirmationUnit)
    → ((x : String) → contains u.depends_on_unit_ids x ≡ true → P x → P u.unit_id)
    → AllIn P c
    → AllIn P (if is_missing c u then u.unit_id ∷ c else c)
visit-AllIn P c u spreads h = elim (Bool-cases (is_missing c u)) [
  | inl missing ↦
      let (x, depends, found) =
        any-contains (contains c) u.depends_on_unit_ids (missing-depends c u missing) in
      rw missing (add-AllIn P c u.unit_id h (spreads x depends (h x found)))
  | inr closed ↦ rw closed h
]

pass-AllIn :
    (P : String → Type 0) (c : List String) (units : List ConfirmationUnit)
    → Spreads P units
    → AllIn P c
    → AllIn P (closure_pass c units).0
unfolding closure_pass
pass-AllIn P c [] spreads h = h
pass-AllIn P c (u ∷ us) spreads h =
    pass-AllIn P (if is_missing c u then u.unit_id ∷ c else c) us spreads.1
      (visit-AllIn P c u spreads.0 h)

loop-AllIn :
    (P : String → Type 0) (fuel : ℕ) (c : List String) (units : List ConfirmationUnit)
    → Spreads P units
    → AllIn P c
    → AllIn P (closure_loop fuel c units)
unfolding closure_loop
loop-AllIn P zero c units spreads h = h
loop-AllIn P (suc fuel) c units spreads h =
    let (next, changed) = closure_pass c units in
    let here : AllIn P next = pass-AllIn P c units spreads h in
    elim (Bool-cases changed) [
      | inl again ↦ rw again (loop-AllIn P fuel next units spreads here)
      | inr over ↦ rw over here
    ]

-- The closure holds every selected id; it holds every unit of the outline that depends on one of
-- its members; and it is the least such set: whatever property the selected ids have, and a unit
-- has with one that it depends on, every member has. The fuel of the model is enough.
pub dependent_unit_closure_least :
    (outline : OutlineVersion) (selected : List String) (P : String → Type 0)
    → Spreads P outline.confirmation_units
    → AllIn P selected
    → let c = dependent_unit_closure outline selected in
      Within selected c × IsClosed c outline.confirmation_units × AllIn P c
unfolding dependent_unit_closure
dependent_unit_closure_least outline selected P spreads h =
    let units = outline.confirmation_units in
    (
      loop-Within (suc (length units)) selected units,
      loop-IsClosed (suc (length units)) selected units
          (omega (arith, count-le-length (λ u. not (contains selected u.unit_id)) units)),
      loop-AllIn P (suc (length units)) selected units spreads h,
    )
