-- ===== src/Base/Dict.antt =====
-- Python's `dict`: an association list in insertion order. A write to a key that is there keeps
-- its place, a write to a new key goes to the end.
use Prim.Native.Nat.{◌+◌}
use mathlib.Core.Path.{◌≡◌, refl, sym, subst}
use mathlib.Core.Logic.{◌≢◌}
use mathlib.Core.Bool.{Bool}
use mathlib.Core.List.{List, [], ◌∷◌}
use mathlib.Core.Option.{Option, none, some}
use native.Mathlib.Omega.{arith}
use prd_agent.Base.Tests.{Key, ◌==◌, if◌then◌else◌}
use prd_agent.Base.Lists.{All, Pairwise, count}

abbrev pub Dict : Type 0 → Type 0 → Type 0
Dict K V = List (K × V)

module _ {K V : Type 0} ⦃e : Key K⦄ where
  -- d.get(k)
  unfoldable pub get : K → Dict K V → Option V
  get k [] = none
  get k ((j, v) ∷ d) = if j == k then some v else get k d

  -- d[k] = v
  unfoldable pub put : K → V → Dict K V → Dict K V
  put k v [] = (k, v) ∷ []
  put k v ((j, w) ∷ d) = if j == k then (j, v) ∷ d else (j, w) ∷ put k v d

  -- del d[k]
  unfoldable pub remove : K → Dict K V → Dict K V
  remove k [] = []
  remove k ((j, w) ∷ d) = let rest = remove k d in if j == k then rest else (j, w) ∷ rest

module _ {K V : Type 0} where
  -- d.values()
  abbrev pub values : Dict K V → List V
  values [] = []
  values ((k, v) ∷ d) = v ∷ values d

  abbrev pub AllEntries : (K → V → Type 0) → Dict K V → Type 0
  AllEntries P [] = Unit
  AllEntries P ((k, v) ∷ d) = P k v × AllEntries P d

module _ {K V : Type 0} ⦃e : Key K⦄ where
  pub get-put :
      (k j : K) (v : V) (d : Dict K V) → get j (put k v d) ≡ (if k == j then some v else get j d)
  unfolding get put
  get-put k j v [] = refl
  get-put k j v ((i, w) ∷ d) =
      ground (arith, e.same_iff k j, e.same_iff i k, e.same_iff i j, get-put k j v d)

  pub get-remove :
      (k j : K) (d : Dict K V) → get j (remove k d) ≡ (if k == j then none else get j d)
  unfolding get remove
  get-remove k j [] = ground arith
  get-remove k j ((i, w) ∷ d) =
      ground (arith, e.same_iff k j, e.same_iff i k, e.same_iff i j, get-remove k j d)

  pub get-put_self : (k : K) (v : V) (d : Dict K V) → get k (put k v d) ≡ some v
  get-put_self k v d = ground (arith, get-put k k v d, e.same_iff k k)

  pub get-put_ne : (k j : K) (v : V) (d : Dict K V) → k ≢ j → get j (put k v d) ≡ get j d
  get-put_ne k j v d ne = ground (arith, get-put k j v d, e.same_iff k j)

  pub AllEntries-put :
      (P : K → V → Type 0) (k : K) (v : V) (d : Dict K V)
      → AllEntries P d
      → P k v
      → AllEntries P (put k v d)
  unfolding put
  AllEntries-put P k v [] h p = (p, tt)
  AllEntries-put P k v ((j, w) ∷ d) h p =
      ground (arith, e.same_iff j k, AllEntries-put P k v d h.1 p)

  pub AllEntries-get :
      (P : K → V → Type 0) (k : K) (v : V) (d : Dict K V)
      → AllEntries P d
      → get k d ≡ some v
      → P k v
  unfolding get
  AllEntries-get P k v [] h g = cc
  AllEntries-get P k v ((j, w) ∷ d) h g = ground (arith, e.same_iff j k, AllEntries-get P k v d h.1)

  -- What holds of every value holds of the one that is found.
  pub All-get :
      (P : V → Type 0) (k : K) (v : V) (d : Dict K V) → All P (values d) → get k d ≡ some v → P v
  unfolding get
  All-get P k v [] h g = cc
  All-get P k v ((j, w) ∷ d) h g = ground (arith, All-get P k v d h.1)

  -- A write over `old` changes a count by what `old` and the new value add to it.
  pub count-put_old :
      (p : V → Bool) (k : K) (v old : V) (d : Dict K V)
      → get k d ≡ some old
      → count p (values (put k v d)) + (if p old then 1 else 0)
        ≡ count p (values d) + (if p v then 1 else 0)
  unfolding get put
  count-put_old p k v old [] g = cc
  count-put_old p k v old ((j, w) ∷ d) g = ground (arith, count-put_old p k v old d)

  pub count-put_new :
      (p : V → Bool) (k : K) (v : V) (d : Dict K V)
      → get k d ≡ none
      → count p (values (put k v d)) ≡ count p (values d) + (if p v then 1 else 0)
  unfolding get put
  count-put_new p k v [] g = omega arith
  count-put_new p k v ((j, w) ∷ d) g = ground (arith, count-put_new p k v d)

  -- No key stands twice.
  abbrev pub Distinct : Dict K V → Type 0
  Distinct [] = Unit
  Distinct ((k, v) ∷ d) = (get k d ≡ none) × Distinct d

  pub Distinct-put : (k : K) (v : V) (d : Dict K V) → Distinct d → Distinct (put k v d)
  unfolding get put
  Distinct-put k v [] h = (refl, tt)
  Distinct-put k v ((j, w) ∷ d) h =
      ground (arith, get-put k j v d, e.same_iff j k, e.same_iff k j, Distinct-put k v d h.1)

  AllEntries-cons :
      (k : K) (v : V) (d xs : Dict K V)
      → get k d ≡ none
      → AllEntries (λ j w. get j d ≡ some w) xs
      → AllEntries (λ j w. get j ((k, v) ∷ d) ≡ some w) xs
  unfolding get
  AllEntries-cons k v d [] g h = tt
  AllEntries-cons k v d ((j, w) ∷ xs) g h =
      (ground (arith, e.same_iff k j), AllEntries-cons k v d xs g h.1)

  -- Every entry is found under its key.
  pub Distinct-get : (d : Dict K V) → Distinct d → AllEntries (λ k v. get k d ≡ some v) d
  Distinct-get [] h = tt
  Distinct-get ((k, v) ∷ d) h = (
    unfold get in ground (arith, e.same_iff k k),
    AllEntries-cons k v d d h.0 (Distinct-get d h.1),
  )

module _ {K V : Type 0} where
  pub AllEntries-values :
      (P : K → V → Type 0) (Q : V → Type 0) (d : Dict K V)
      → ((k : K) (v : V) → P k v → Q v)
      → AllEntries P d
      → All Q (values d)
  AllEntries-values P Q [] f h = tt
  AllEntries-values P Q ((k, v) ∷ d) f h = (f k v h.0, AllEntries-values P Q d f h.1)

  pub AllEntries-both :
      (P Q : K → V → Type 0) (d : Dict K V)
      → AllEntries P d
      → AllEntries Q d
      → AllEntries (λ k v. P k v × Q k v) d
  AllEntries-both P Q [] h g = tt
  AllEntries-both P Q ((k, v) ∷ d) h g = ((h.0, g.0), AllEntries-both P Q d h.1 g.1)

module _ {K V : Type 0} ⦃e : Key K⦄ where
  -- With a key that each value carries, no two values carry the same.
  get-none-All :
      (key : V → K) (k : K) (d : Dict K V)
      → get k d ≡ none
      → AllEntries (λ j w. key w ≡ j) d
      → All (λ w. k ≢ key w) (values d)
  unfolding get
  get-none-All key k [] g h = tt
  get-none-All key k ((j, w) ∷ d) g h =
      (λ same. ground (arith, e.same_iff j k, h.0, same), get-none-All key k d (ground arith) h.1)

  pub Distinct-Pairwise :
      (key : V → K) (d : Dict K V)
      → Distinct d
      → AllEntries (λ j w. key w ≡ j) d
      → Pairwise (λ v w. key v ≢ key w) (values d)
  Distinct-Pairwise key [] dist h = tt
  Distinct-Pairwise key ((k, v) ∷ d) dist h = (
    subst (λ j. All (λ w. j ≢ key w) (values d)) (sym h.0) (get-none-All key k d dist.0 h.1),
    Distinct-Pairwise key d dist.1 h.1,
  )
