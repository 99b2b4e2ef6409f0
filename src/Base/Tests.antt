-- ===== src/Base/Tests.antt =====
-- Boolean tests on numbers and texts, the conditional, and equality as an interface.
use Prim.Native.Nat.{ℕ, ◌≤◌, ◌<◌, compare, Ordering}
use Prim.Native.String.{compare as compare_text}
use Prim.Native.String.{String}
use mathlib.Core.Path.{◌≡◌, refl}
use mathlib.Core.Logic.{◌↔◌, ◌⊎◌, inl, inr, ◌≢◌}
use mathlib.Core.Bool.{Bool, true, false, ◌&&◌}
use mathlib.Core.Option.{Option, none, some}
use native.Mathlib.Omega.{arith}
use text.Mathlib.Text.{◌==◌ as str_eq}
use text.Mathlib.TextEquality.{eq_iff}

abbrev pub ltb : ℕ → ℕ → Bool
ltb a b = elim (compare a b) [ Ordering.lt ↦ true | _ ↦ false ]

abbrev pub leb : ℕ → ℕ → Bool
leb a b = elim (compare a b) [ Ordering.gt ↦ false | _ ↦ true ]

infix 1 if◌then◌else◌
abbrev pub if◌then◌else◌ {ℓ} : {A : Type ℓ} → Bool → A → A → A
if true then x else y = x
if false then x else y = y

pub ltb→lt : (a b : ℕ) → ltb a b ≡ true → a < b
ltb→lt a b h = ground arith

pub lt→ltb : (a b : ℕ) → a < b → ltb a b ≡ true
lt→ltb a b h = ground arith

pub leb→le : (a b : ℕ) → leb a b ≡ true → a ≤ b
leb→le a b h = ground arith

-- To split on a computed value and keep the equation.
pub Bool-cases : (b : Bool) → (b ≡ true) ⊎ (b ≡ false)
Bool-cases true = inl refl
Bool-cases false = inr refl

pub Option-cases {ℓ} : {A : Type ℓ} (o : Option A) → (o ≡ none) ⊎ ((a : A) × (o ≡ some a))
Option-cases none = inl refl
Option-cases (some a) = inr (a, refl)

-- What a key of a dictionary has: a test for being the same key.
pub record Key {ℓ} (K : Type ℓ) : Type ℓ where
  pub same : K → K → Bool
  pub same_iff : (j k : K) → (same j k ≡ true) ↔ (j ≡ k)

module _ {ℓ} {K : Type ℓ} ⦃e : Key K⦄ where
  infix 50 ◌==◌
  abbrev pub ◌==◌ : K → K → Bool
  j == k = e.same j k

  pub same_refl : (k : K) → e.same k k ≡ true
  same_refl k = (e.same_iff k k).1 refl

  pub same-eq : (j k : K) → e.same j k ≡ true → j ≡ k
  same-eq j k h = (e.same_iff j k).0 h

  pub same_ne : (j k : K) → j ≢ k → e.same j k ≡ false
  same_ne j k ne = elim (Bool-cases (e.same j k)) [
    | inl found ↦ absurd (ne (same-eq j k found))
    | inr h ↦ h
  ]

  -- A field that may be None against a value.
  abbrev pub holds : Option K → K → Bool
  holds none k = false
  holds (some j) k = e.same j k

abbrev equals : ℕ → ℕ → Bool
equals m n = leb m n && leb n m

pub equals_iff : (m n : ℕ) → (equals m n ≡ true) ↔ (m ≡ n)
equals_iff m n = ground arith

instance abbrev pub nat_key : Key ℕ
nat_key = record { same = equals; same_iff = equals_iff }

instance abbrev pub text_key : Key String
text_key = record { same = str_eq; same_iff = eq_iff }

module _ {ℓ κ} {J : Type ℓ} {K : Type κ} ⦃e : Key J⦄ ⦃f : Key K⦄ where
  abbrev both_same : J × K → J × K → Bool
  both_same p q = f.same p.1 q.1 && e.same p.0 q.0

  pub both_same_iff : (p q : J × K) → (both_same p q ≡ true) ↔ (p ≡ q)
  both_same_iff p q = ground (arith, e.same_iff p.0 q.0, f.same_iff p.1 q.1)

  instance abbrev pub pair_key : Key (J × K)
  pair_key = record { same = both_same; same_iff = both_same_iff }

-- The order of Python's `str`, by code points.
abbrev pub text_le : String → String → Bool
text_le s t = elim (compare_text s t) [ Ordering.gt ↦ false | _ ↦ true ]

abbrev pub is_some {ℓ} : {A : Type ℓ} → Option A → Bool
is_some none = false
is_some (some a) = true
