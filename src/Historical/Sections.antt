-- ===== src/Historical/Sections.antt =====
-- The chunks of a section: src/prd_agent/historical/chunking.py.
use Prim.Native.String as String
use mathlib.Core.List.{append-nil, append_assoc}
use text.Mathlib.TextLemmas.{nil-append, cons-append}
use prd_agent.Base.{
  ℕ, suc, ◌≤◌, ◌≡◌, refl, sym, ◌∙◌, ap, subst, String, false, not, ◌&&◌, List, [], ◌∷◌, ◌++◌, All,
  ltb, leb, arith, inl, inr, Bool-cases,
}
use prd_agent.Base.Texts.{strip, is_space, is_blank, text_length}
use prd_agent.Historical.Chunking.{
  hard_split, candidate_of, flushed, add_block, add_blocks, split_all, stripped, chunk_section,
}
use prd_agent.Historical.Bounds.{
  squeeze, squeeze_all, squeeze-strip, squeeze-blank, hard_split-IsCut,
}

squeeze-append : (s t : String) → squeeze (String.◌++◌ s t) ≡ squeeze s ++ squeeze t
squeeze-append String.[] t = rw (nil-append t) refl
squeeze-append (String.◌∷◌ c s) t = rw (cons-append c s t) (ground (arith, squeeze-append s t))

squeeze_all-append :
    (xs ys : List String) → squeeze_all (xs ++ ys) ≡ squeeze_all xs ++ squeeze_all ys
squeeze_all-append [] ys = refl
squeeze_all-append (x ∷ xs) ys =
    ap (λ codes. squeeze x ++ codes) (squeeze_all-append xs ys)
    ∙ sym (append_assoc (squeeze x) (squeeze_all xs) (squeeze_all ys))

candidate_of-squeeze :
    (current block : String)
    → squeeze (candidate_of current block) ≡ squeeze current ++ squeeze block
unfolding candidate_of is_space
candidate_of-squeeze current block = elim (Bool-cases (is_blank current)) [
  | inl blank ↦ rw (candidate_of, blank, squeeze-blank current blank) refl
  | inr text ↦
      rw (candidate_of, text)
        (squeeze-strip (String.◌++◌ current (String.◌++◌ "\n\n" block))
          ∙ squeeze-append current (String.◌++◌ "\n\n" block)
          ∙ ap (λ codes. squeeze current ++ codes) (squeeze-append "\n\n" block))
]

-- Each text is within the bound.
abbrev pub AreWithin : ℕ → List String → Type 0
AreWithin hard_limit texts = All (λ text. text_length text ≤ suc hard_limit) texts

AreWithin-append :
    (hard_limit : ℕ) (xs ys : List String)
    → AreWithin hard_limit xs
    → AreWithin hard_limit ys
    → AreWithin hard_limit (xs ++ ys)
AreWithin-append hard_limit [] ys h k = k
AreWithin-append hard_limit (x ∷ xs) ys h k = (h.0, AreWithin-append hard_limit xs ys h.1 k)

-- The finished chunks and the current one are within the bound, and have these code points.
abbrev Carries : ℕ → List ℕ → List String × String → Type 0
Carries hard_limit codes (done, next) =
    AreWithin hard_limit done
    × (text_length next ≤ suc hard_limit)
    × (squeeze_all done ++ squeeze next ≡ codes)

flushed-Carries :
    (hard_limit : ℕ) (current : String)
    → text_length current ≤ suc hard_limit
    → Carries hard_limit (squeeze current) (flushed hard_limit current)
unfolding text_length
flushed-Carries hard_limit current h = elim (Bool-cases (leb hard_limit (text_length current))) [
  | inl full ↦
      rw full
        ((h, tt), omega arith, append-nil (squeeze current ++ []) ∙ append-nil (squeeze current))
  | inr room ↦ rw room (tt, h, refl)
]

candidate_bounds :
    (target_limit hard_limit : ℕ) (current block : String)
    → target_limit ≤ hard_limit
    → text_length block ≤ suc hard_limit
    → (not (is_blank current) && ltb target_limit (text_length (candidate_of current block)))
      ≡ false
    → text_length (candidate_of current block) ≤ suc hard_limit
unfolding candidate_of
candidate_bounds target_limit hard_limit current block limits k fits =
    elim (Bool-cases (is_blank current)) [
      | inl blank ↦ rw (candidate_of, blank) k
      | inr text ↦ ground arith
    ]

add_block-Carries :
    (target_limit hard_limit : ℕ) (current block : String)
    → target_limit ≤ hard_limit
    → text_length current ≤ suc hard_limit
    → text_length block ≤ suc hard_limit
    → Carries hard_limit
        (squeeze current ++ squeeze block)
        (add_block target_limit hard_limit current block)
unfolding add_block
add_block-Carries target_limit hard_limit current block limits h k =
    let candidate = candidate_of current block in
    let (done_within, next_within, kept) = flushed-Carries hard_limit block k in
    elim (Bool-cases (not (is_blank current) && ltb target_limit (text_length candidate))) [
      | inl over ↦
          rw (add_block, over)
            (
              (h, done_within),
              next_within,
              append_assoc (squeeze current) (squeeze_all (flushed hard_limit block).0)
                    (squeeze (flushed hard_limit block).1)
                  ∙ ap (λ codes. squeeze current ++ codes) kept,
            )
      | inr fits ↦
          let short : text_length candidate ≤ suc hard_limit =
            candidate_bounds target_limit hard_limit current block limits k fits in
          rw (add_block, fits)
            (subst (λ codes. Carries hard_limit codes (flushed hard_limit candidate))
              (candidate_of-squeeze current block) (flushed-Carries hard_limit candidate short))
    ]

add_blocks-Carries :
    (target_limit hard_limit : ℕ) (current : String) (blocks : List String)
    → target_limit ≤ hard_limit
    → text_length current ≤ suc hard_limit
    → AreWithin hard_limit blocks
    → AreWithin hard_limit (add_blocks target_limit hard_limit current blocks)
      × (squeeze_all (add_blocks target_limit hard_limit current blocks)
          ≡ squeeze current ++ squeeze_all blocks)
unfolding add_blocks
add_blocks-Carries target_limit hard_limit current [] limits h k =
    elim (Bool-cases (is_blank current)) [
      | inl blank ↦
          rw (add_blocks, blank)
            (tt, sym (append-nil (squeeze current) ∙ squeeze-blank current blank))
      | inr text ↦ rw (add_blocks, text) ((h, tt), refl)
    ]
add_blocks-Carries target_limit hard_limit current (block ∷ blocks) limits h k =
    let (done_within, next_within, kept) =
      add_block-Carries target_limit hard_limit current block limits h k.0 in
    let (done, next) = add_block target_limit hard_limit current block in
    let (rest_within, rest_kept) =
      add_blocks-Carries target_limit hard_limit next blocks limits next_within k.1 in
    let rest = add_blocks target_limit hard_limit next blocks in
    (
      AreWithin-append hard_limit done rest done_within rest_within,
      squeeze_all-append done rest
          ∙ ap (λ codes. squeeze_all done ++ codes) rest_kept
          ∙ sym (append_assoc (squeeze_all done) (squeeze next) (squeeze_all blocks))
          ∙ ap (λ codes. codes ++ squeeze_all blocks) kept
          ∙ append_assoc (squeeze current) (squeeze block) (squeeze_all blocks),
    )

split_all-lem :
    (hard_limit : ℕ) (texts : List String)
    → 1 ≤ hard_limit
    → AreWithin hard_limit (split_all hard_limit texts)
      × (squeeze_all (split_all hard_limit texts) ≡ squeeze_all texts)
split_all-lem hard_limit [] h = (tt, refl)
split_all-lem hard_limit (text ∷ texts) h =
    let (within, kept) = hard_split-IsCut hard_limit text h in
    let (rest_within, rest_kept) = split_all-lem hard_limit texts h in
    let pieces = hard_split hard_limit text in
    let rest = split_all hard_limit texts in
    (
      AreWithin-append hard_limit pieces rest within rest_within,
      squeeze_all-append pieces rest
          ∙ ap (λ codes. codes ++ squeeze_all rest) kept
          ∙ ap (λ codes. squeeze text ++ codes) rest_kept,
    )

stripped-squeeze : (parts : List String) → squeeze_all (stripped parts) ≡ squeeze_all parts
stripped-squeeze [] = refl
stripped-squeeze (part ∷ parts) = elim (Bool-cases (is_blank (strip part))) [
  | inl blank ↦
      rw (blank, sym (squeeze-strip part) ∙ squeeze-blank (strip part) blank)
        (stripped-squeeze parts)
  | inr text ↦
      rw (text, squeeze-strip part) (ap (λ codes. squeeze part ++ codes) (stripped-squeeze parts))
]

-- For limits with 1 ≤ target ≤ hard, each chunk of a section has at most one code point more than
-- the hard limit, and together the chunks have all that its parts have but white space, in its
-- order.
pub chunk_section_lem :
    (parts : List String) (target_limit hard_limit : ℕ)
    → 1 ≤ target_limit
    → target_limit ≤ hard_limit
    → AreWithin hard_limit (chunk_section parts target_limit hard_limit)
      × (squeeze_all (chunk_section parts target_limit hard_limit) ≡ squeeze_all parts)
unfolding chunk_section text_length
chunk_section_lem parts target_limit hard_limit h limits =
    let (within, kept) = split_all-lem hard_limit (stripped parts) (omega arith) in
    let (chunks_within, chunks_kept) =
      add_blocks-Carries target_limit hard_limit "" (split_all hard_limit (stripped parts)) limits
        (omega arith) within in
    (chunks_within, chunks_kept ∙ kept ∙ stripped-squeeze parts)
