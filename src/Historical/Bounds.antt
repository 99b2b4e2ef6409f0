-- ===== src/Historical/Bounds.antt =====
-- What cutting keeps and bounds: src/prd_agent/historical/chunking.py.
use Prim.Native.Char.{code}
use prd_agent.Base.{
  nat_key, ℕ, zero, suc, ◌-◌, ◌/◌, ◌≤◌, ◌<◌, ◌≡◌, refl, sym, ◌∙◌, ap, String, Bool, true, false,
  Option, none, some, List, [], ◌∷◌, ◌++◌, All, ltb, ◌==◌, arith, inl, inr, if◌then◌else◌,
  Bool-cases,
}
use mathlib.Core.List.{append-nil}
use prd_agent.Base.Texts.{
  strip, lstrip, rstrip, is_space, is_blank, text_take, text_drop, text_length,
}
use prd_agent.Historical.Chunking.{rfind, later, marks, last_mark, boundary, split_loop, hard_split}

-- A position that was found is below the bound.
abbrev Below : ℕ → Option ℕ → Type 0
Below n none = Unit
Below n (some i) = i < n

rfind-Below : (mark n : ℕ) (s : String) → Below n (rfind mark n s)
unfolding rfind
rfind-Below mark zero s = tt
rfind-Below mark (suc n) String.[] = tt
rfind-Below mark (suc n) (String.◌∷◌ c s) =
    found (rfind mark n s) (code c == mark) (rfind-Below mark n s)
  where
    found :
        (o : Option ℕ) (here : Bool)
        → Below n o
        → Below (suc n) (elim o [ some i ↦ some (suc i) | none ↦ if here then some 0 else none ])
    found (some i) here h = omega arith
    found none true h = omega arith
    found none false h = tt

later-Below : (n : ℕ) (a b : Option ℕ) → Below n a → Below n b → Below n (later a b)
later-Below n none b h k = k
later-Below n (some i) none h k = h
later-Below n (some i) (some j) h k = ground arith

last_mark-Below : (rest : List ℕ) (n : ℕ) (s : String) → Below n (last_mark rest n s)
unfolding last_mark
last_mark-Below [] n s = tt
last_mark-Below (mark ∷ rest) n s =
    later-Below n (rfind mark n s) (last_mark rest n s) (rfind-Below mark n s)
      (last_mark-Below rest n s)

boundary_bounds :
    (hard_limit : ℕ) (s : String)
    → 1 ≤ hard_limit
    → (1 ≤ boundary hard_limit s) × (boundary hard_limit s ≤ suc hard_limit)
unfolding boundary
boundary_bounds hard_limit s h =
    cut (last_mark marks (suc hard_limit) s) (last_mark-Below marks (suc hard_limit) s)
  where
    cut :
        (o : Option ℕ)
        → Below (suc hard_limit) o
        → let b : ℕ = elim o [
          | none ↦ hard_limit
          | some i ↦ if ltb i (hard_limit / 2) then hard_limit else suc i
        ] in
          (1 ≤ b) × (b ≤ suc hard_limit)
    cut none k = omega arith
    cut (some i) k = ground arith

-- The code points of a text that are no white space.
abbrev pub squeeze : String → List ℕ
squeeze String.[] = []
squeeze (String.◌∷◌ c s) = let rest = squeeze s in if is_space (code c) then rest else code c ∷ rest

squeeze-lstrip : (s : String) → squeeze (lstrip s) ≡ squeeze s
unfolding lstrip
squeeze-lstrip String.[] = refl
squeeze-lstrip (String.◌∷◌ c s) = ground (arith, squeeze-lstrip s)

pub squeeze-blank : (s : String) → is_blank s ≡ true → squeeze s ≡ []
squeeze-blank String.[] h = refl
squeeze-blank (String.◌∷◌ c s) h = cc

squeeze-rstrip : (s : String) → squeeze (rstrip s) ≡ squeeze s
unfolding rstrip
squeeze-rstrip String.[] = refl
squeeze-rstrip (String.◌∷◌ c s) = ground (arith, squeeze-rstrip s, squeeze-blank (rstrip s))

pub squeeze-strip : (s : String) → squeeze (strip s) ≡ squeeze s
unfolding strip
squeeze-strip s = squeeze-rstrip (lstrip s) ∙ squeeze-lstrip s

squeeze-take-drop :
    (n : ℕ) (s : String) → squeeze (text_take n s) ++ squeeze (text_drop n s) ≡ squeeze s
unfolding text_take text_drop
squeeze-take-drop zero s = refl
squeeze-take-drop (suc n) String.[] = refl
squeeze-take-drop (suc n) (String.◌∷◌ c s) = ground (arith, squeeze-take-drop n s)

length-lstrip : (s : String) → text_length (lstrip s) ≤ text_length s
unfolding lstrip text_length
length-lstrip String.[] = omega arith
length-lstrip (String.◌∷◌ c s) = ground (arith, length-lstrip s)

length-rstrip : (s : String) → text_length (rstrip s) ≤ text_length s
unfolding rstrip text_length
length-rstrip String.[] = omega arith
length-rstrip (String.◌∷◌ c s) = ground (arith, length-rstrip s)

length-strip : (s : String) → text_length (strip s) ≤ text_length s
unfolding strip
length-strip s = omega (arith, length-rstrip (lstrip s), length-lstrip s)

length-take : (n : ℕ) (s : String) → text_length (text_take n s) ≤ n
unfolding text_take text_length
length-take zero s = omega arith
length-take (suc n) String.[] = omega arith
length-take (suc n) (String.◌∷◌ c s) = omega (arith, length-take n s)

length-drop : (n : ℕ) (s : String) → text_length (text_drop n s) ≡ text_length s - n
unfolding text_drop text_length
length-drop zero s = omega arith
length-drop (suc n) String.[] = omega arith
length-drop (suc n) (String.◌∷◌ c s) = omega (arith, length-drop n s)

-- The code points of the pieces that are no white space.
abbrev pub squeeze_all : List String → List ℕ
squeeze_all [] = []
squeeze_all (piece ∷ pieces) = squeeze piece ++ squeeze_all pieces

-- The pieces are within the bound, and have what the text has but for white space.
abbrev pub IsCut : ℕ → String → List String → Type 0
IsCut hard_limit value pieces =
    All (λ piece. text_length piece ≤ suc hard_limit) pieces × (squeeze_all pieces ≡ squeeze value)

split_loop-IsCut :
    (fuel hard_limit : ℕ) (s : String)
    → 1 ≤ hard_limit
    → text_length s < fuel
    → IsCut hard_limit s (split_loop fuel hard_limit s)
unfolding split_loop
split_loop-IsCut zero hard_limit s h enough = absurd (omega arith)
split_loop-IsCut (suc fuel) hard_limit s h enough =
    let cut : ℕ = boundary hard_limit s in
    let bounds = boundary_bounds hard_limit s h in
    let next : String = strip (text_drop cut s) in
    elim (Bool-cases (ltb hard_limit (text_length s))) [
      | inl long ↦
          let shorter : text_length next < fuel =
            ground (arith, length-strip (text_drop cut s), length-drop cut s) in
          let rest = split_loop-IsCut fuel hard_limit next h shorter in
          rw long (
            (omega (arith, length-strip (text_take cut s), length-take cut s), rest.0),
            ap (λ codes. squeeze (strip (text_take cut s)) ++ codes) rest.1
                ∙ ap (λ codes. codes ++ squeeze next) (squeeze-strip (text_take cut s))
                ∙ ap (λ codes. squeeze (text_take cut s) ++ codes) (squeeze-strip (text_drop cut s))
                ∙ squeeze-take-drop cut s,
          )
      | inr short ↦ elim (Bool-cases (is_blank s)) [
        | inl blank ↦ rw (short, blank) (tt, sym (squeeze-blank s blank))
        | inr text ↦ rw (short, text) ((ground arith, tt), append-nil (squeeze s))
      ]
    ]

-- For a limit of at least one, the hard split ends, each of its pieces has at most one code point
-- more than the limit, and together the pieces have all that the text has but white space, in its
-- order.
pub hard_split-IsCut :
    (hard_limit : ℕ) (value : String)
    → 1 ≤ hard_limit
    → IsCut hard_limit value (hard_split hard_limit value)
unfolding hard_split
hard_split-IsCut hard_limit value h =
    let s = strip value in
    let loop = split_loop-IsCut (suc (text_length s)) hard_limit s h (omega arith) in
    (loop.0, loop.1 ∙ squeeze-strip value)
