-- ===== src/Base/Sort.antt =====
-- Python's `sorted` (stable, by insertion) and `min` with a key, over a comparison of the keys.
use mathlib.Core.Bool.{Bool, true, false}
use mathlib.Core.Path.{◌≡◌, sym, subst}
use mathlib.Core.Logic.{inl, inr}
use mathlib.Core.List.{List, [], ◌∷◌}
use native.Mathlib.Omega.{arith}
use prd_agent.Base.Tests.{if◌then◌else◌, Bool-cases}
use prd_agent.Base.Lists.{All, Pairwise, count}

module _ {ℓ} {A : Type ℓ} (le : A → A → Bool) where
  unfoldable pub insert_sorted : A → List A → List A
  insert_sorted x [] = x ∷ []
  insert_sorted x (y ∷ ys) = if le x y then x ∷ y ∷ ys else y ∷ insert_sorted x ys

  unfoldable pub sorted : List A → List A
  unfolding insert_sorted
  sorted [] = []
  sorted (x ∷ xs) = insert_sorted x (sorted xs)

  -- The first of the least elements of `x ∷ xs`, where `le` compares the keys.
  unfoldable pub min_by : A → List A → A
  min_by x [] = x
  min_by x (y ∷ ys) = min_by (if le x y then x else y) ys

  All-insert_sorted {κ} :
      (P : A → Type κ) (x : A) (ys : List A) → P x → All P ys → All P (insert_sorted x ys)
  unfolding insert_sorted
  All-insert_sorted P x [] p h = (p, tt)
  All-insert_sorted P x (y ∷ ys) p h = ground (arith, All-insert_sorted P x ys p h.1)

  pub All-sorted {κ} : (P : A → Type κ) (xs : List A) → All P xs → All P (sorted xs)
  unfolding sorted
  All-sorted P [] h = tt
  All-sorted P (x ∷ xs) h = All-insert_sorted P x (sorted xs) h.0 (All-sorted P xs h.1)

  insert_sorted-All {κ} :
      (P : A → Type κ) (x : A) (ys : List A) → All P (insert_sorted x ys) → P x × All P ys
  unfolding insert_sorted
  insert_sorted-All P x [] h = (h.0, tt)
  insert_sorted-All P x (y ∷ ys) h = elim (Bool-cases (le x y)) [
    | inl first ↦ let all : All P (x ∷ y ∷ ys) = rw (first, insert_sorted) at h in (all.0, all.1)
    | inr later ↦
        let all : All P (y ∷ insert_sorted x ys) = rw (later, insert_sorted) at h in
        let (p, rest) = insert_sorted-All P x ys all.1 in (p, (all.0, rest))
  ]

  -- What holds of the sorted list holds of each element.
  pub sorted-All {κ} : (P : A → Type κ) (xs : List A) → All P (sorted xs) → All P xs
  unfolding sorted
  sorted-All P [] h = tt
  sorted-All P (x ∷ xs) h =
      let (p, rest) = insert_sorted-All P x (sorted xs) h in (p, sorted-All P xs rest)

  pub min_by-All {κ} : (P : A → Type κ) (x : A) (xs : List A) → P x → All P xs → P (min_by x xs)
  unfolding min_by
  min_by-All P x [] p h = p
  min_by-All P x (y ∷ ys) p h = min_by-All P (if le x y then x else y) ys (ground (arith, h.0)) h.1

  insert_sorted-Pairwise {κ} :
      (R : A → A → Type κ) (flip : (a b : A) → R a b → R b a) (x : A) (ys : List A)
      → All (R x) ys
      → Pairwise R ys
      → Pairwise R (insert_sorted x ys)
  unfolding insert_sorted
  insert_sorted-Pairwise R flip x [] h p = (tt, tt)
  insert_sorted-Pairwise R flip x (y ∷ ys) h p = elim (Bool-cases (le x y)) [
    | inl first ↦ rw (first, insert_sorted) (h, p)
    | inr later ↦
        rw (later, insert_sorted)
          (
            All-insert_sorted (R y) x ys (flip x y h.0) p.0,
            insert_sorted-Pairwise R flip x ys h.1 p.1,
          )
  ]

  pub sorted-Pairwise {κ} :
      (R : A → A → Type κ) (flip : (a b : A) → R a b → R b a) (xs : List A)
      → Pairwise R xs
      → Pairwise R (sorted xs)
  unfolding sorted
  sorted-Pairwise R flip [] p = tt
  sorted-Pairwise R flip (x ∷ xs) p =
      insert_sorted-Pairwise R flip x (sorted xs) (All-sorted (R x) xs p.0)
        (sorted-Pairwise R flip xs p.1)

  count-insert_sorted :
      (p : A → Bool) (x : A) (ys : List A) → count p (insert_sorted x ys) ≡ count p (x ∷ ys)
  unfolding insert_sorted
  count-insert_sorted p x [] = omega arith
  count-insert_sorted p x (y ∷ ys) = ground (arith, count-insert_sorted p x ys)

  -- Sorting neither drops an element nor adds one.
  pub count-sorted : (p : A → Bool) (xs : List A) → count p (sorted xs) ≡ count p xs
  unfolding sorted
  count-sorted p [] = omega arith
  count-sorted p (x ∷ xs) = omega (arith, count-insert_sorted p x (sorted xs), count-sorted p xs)

module _ {ℓ} {A : Type ℓ} (le : A → A → Bool) (le_refl' : (a : A) → le a a ≡ true)
    (le_trans' : (a b c : A) → le a b ≡ true → le b c ≡ true → le a c ≡ true)
    (le_flip : (a b : A) → le a b ≡ false → le b a ≡ true) where
  -- The least element is at most each of them.
  pub min_by_least :
      (m x : A) (xs : List A) → min_by le x xs ≡ m → All (λ y. le m y ≡ true) (x ∷ xs)
  unfolding min_by
  min_by_least m x [] e = (subst (λ y. le m y ≡ true) (sym e) (le_refl' m), tt)
  min_by_least m x (y ∷ ys) e = elim (Bool-cases (le x y)) [
    | inl h ↦ let ih = min_by_least m x ys (rw h at e) in (ih.0, (le_trans' m x y ih.0 h, ih.1))
    | inr h ↦ let ih = min_by_least m y ys (rw h at e) in (le_trans' m y x ih.0 (le_flip x y h), ih)
  ]
