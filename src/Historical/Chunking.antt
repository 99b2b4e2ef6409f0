-- ===== src/Historical/Chunking.antt =====
-- _hard_split and _chunk_section of src/prd_agent/historical/chunking.py.
use Prim.Native.Char.{code}
use Prim.Native.String as String
use prd_agent.Base.{
  nat_key, ℕ, zero, suc, ◌/◌, String, Option, none, some, List, [], ◌∷◌, ◌++◌, ltb, leb, max, ◌==◌,
  ◌&&◌, not, if◌then◌else◌,
}
use prd_agent.Base.Texts.{strip, is_blank, text_take, text_drop, text_length}

-- s.rfind(mark, 0, n) for a mark of one code point, where none is -1.
unfoldable pub rfind : ℕ → ℕ → String → Option ℕ
rfind mark zero s = none
rfind mark (suc n) String.[] = none
rfind mark (suc n) (String.◌∷◌ c s) = elim (rfind mark n s) [
  | some i ↦ some (suc i)
  | none ↦ if code c == mark then some 0 else none
]

-- max of two positions
abbrev pub later : Option ℕ → Option ℕ → Option ℕ
later none j = j
later (some i) none = some i
later (some i) (some j) = some (max i j)

-- "\n", "。", "！", "？", ".", ";", "；"
abbrev pub marks : List ℕ
marks = 10 ∷ 12290 ∷ 65281 ∷ 65311 ∷ 46 ∷ 59 ∷ 65307 ∷ []

unfoldable pub last_mark : List ℕ → ℕ → String → Option ℕ
unfolding rfind
last_mark [] n s = none
last_mark (mark ∷ rest) n s = later (rfind mark n s) (last_mark rest n s)

-- Where the text is cut.
unfoldable pub boundary : ℕ → String → ℕ
unfolding last_mark
boundary hard_limit remaining = elim (last_mark marks (suc hard_limit) remaining) [
  | none ↦ hard_limit
  | some i ↦ if ltb i (hard_limit / 2) then hard_limit else suc i
]

-- The loop, on fuel.
unfoldable pub split_loop : ℕ → ℕ → String → List String
unfolding boundary
split_loop zero hard_limit remaining = []
split_loop (suc fuel) hard_limit remaining =
    let cut = boundary hard_limit remaining in
    let rest = split_loop fuel hard_limit (strip (text_drop cut remaining)) in
    if ltb hard_limit (text_length remaining)
    then strip (text_take cut remaining) ∷ rest
    else if is_blank remaining
    then []
    else remaining ∷ []

unfoldable pub hard_split : ℕ → String → List String
unfolding split_loop
hard_split hard_limit value =
    let remaining = strip value in split_loop (suc (text_length remaining)) hard_limit remaining

-- f"{current}\n\n{block}".strip() if current else block
unfoldable pub candidate_of : String → String → String
candidate_of current block =
    if is_blank current then block else strip (String.◌++◌ current (String.◌++◌ "\n\n" block))

abbrev pub flushed : ℕ → String → List String × String
flushed hard_limit current =
    if leb hard_limit (text_length current) then (current ∷ [], "") else ([], current)

-- One block: the chunks that are finished, and the current one.
unfoldable pub add_block : ℕ → ℕ → String → String → List String × String
unfolding candidate_of
add_block target_limit hard_limit current block =
    let candidate = candidate_of current block in
    if not (is_blank current) && ltb target_limit (text_length candidate)
    then (let (done, next) = flushed hard_limit block in (current ∷ done, next))
    else flushed hard_limit candidate

unfoldable pub add_blocks : ℕ → ℕ → String → List String → List String
unfolding add_block
add_blocks target_limit hard_limit current [] = if is_blank current then [] else current ∷ []
add_blocks target_limit hard_limit current (block ∷ blocks) =
    let (done, next) = add_block target_limit hard_limit current block in
    done ++ add_blocks target_limit hard_limit next blocks

abbrev pub split_all : ℕ → List String → List String
split_all hard_limit [] = []
split_all hard_limit (original ∷ rest) = hard_split hard_limit original ++ split_all hard_limit rest

-- [item.strip() for item in parts if item.strip()]
abbrev pub stripped : List String → List String
stripped [] = []
stripped (part ∷ parts) =
    let rest = stripped parts in if is_blank (strip part) then rest else strip part ∷ rest

-- `parts` is re.split of the content at its blank lines.
unfoldable pub chunk_section : List String → ℕ → ℕ → List String
unfolding add_blocks
chunk_section parts target_limit hard_limit =
    add_blocks target_limit hard_limit "" (split_all hard_limit (stripped parts))
