-- ===== src/Historical/Tests.antt =====
-- The theorems on chunks at concrete inputs, and a piece that is longer than the limit.
use prd_agent.Base.{◌≡◌, refl, String, List, [], ◌∷◌, arith}
use prd_agent.Base.Texts.{strip, text_length, text_take, text_drop}
use prd_agent.Historical.Chunking.{hard_split, chunk_section}
use prd_agent.Historical.Bounds.{IsCut, hard_split-IsCut, squeeze_all}
use prd_agent.Historical.Sections.{chunk_section_lem, AreWithin}

abbrev value : String
value = "abcd。e"

hard_split-IsCut_example : IsCut 4 value (hard_split 4 value)
hard_split-IsCut_example = hard_split-IsCut 4 value (omega arith)

-- The full stop after four code points stays with them.
hard_split_over : hard_split 4 value ≡ "abcd。" ∷ "e" ∷ []
unfolding hard_split strip text_length text_take text_drop
hard_split_over = refl

abbrev parts : List String
parts = "ab" ∷ " c" ∷ "abcd。e" ∷ []

chunk_section_lem_example :
    AreWithin 4 (chunk_section parts 3 4)
    × (squeeze_all (chunk_section parts 3 4) ≡ squeeze_all parts)
chunk_section_lem_example = chunk_section_lem parts 3 4 (omega arith) (omega arith)
