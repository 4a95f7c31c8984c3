-- ===== src/Compression.antt =====
-- internal/compression/codeblocks.go: the parts of a prompt that the compression must not rewrite. A text
-- is the list of its characters.
pub mod Join
pub mod Frozen
mod Tests
use onmi_routers.Base.{
  ℕ, zero, suc, ◌+◌, ◌-◌, ◌*◌, ◌/◌, ◌%◌, ◌≤◌, ◌<◌, ◌≡◌, refl, sym, ap, ◌∙◌, ◌≢◌, ◌⊎◌, inl, inr,
  String, Bool, true, false, not, ◌&&◌, ◌||◌, Option, none, some, List, [], ◌∷◌, ◌++◌, map, arith,
  eq_iff, eq_refl, ltb, leb, ◌==◌, str_eq, if◌then◌else◌, Bool-cases, Option-cases, length,
  length-append, get_elem?, drop, keep, All, All-append, contains, All-get_elem?, take, rotate,
  turn, get_elem?_total,
}
use onmi_routers.Base.Text.{is_space}

pub record Segment : Type 0 where
  pub text : List ℕ
  pub is_code : Bool

abbrev pub think_open_tag : List ℕ
think_open_tag = b'<' ∷ b't' ∷ b'h' ∷ b'i' ∷ b'n' ∷ b'k' ∷ b'>' ∷ []

abbrev pub think_close_tag : List ℕ
think_close_tag = b'<' ∷ b'/' ∷ b't' ∷ b'h' ∷ b'i' ∷ b'n' ∷ b'k' ∷ b'>' ∷ []

unfoldable pub has_prefix : List ℕ → List ℕ → Bool
has_prefix [] s = true
has_prefix (p ∷ ps) [] = false
has_prefix (p ∷ ps) (a ∷ s) = p == a && has_prefix ps s

-- strings.Index as the text before the first place of a mark, and the text from there on.
unfoldable pub cut : List ℕ → List ℕ → Option (List ℕ × List ℕ)
cut mark [] = if has_prefix mark [] then some ([], []) else none
cut mark (a ∷ s) =
    let later = cut mark s in
    if has_prefix mark (a ∷ s)
    then some ([], a ∷ s)
    else elim later [ none ↦ none | some (before, from) ↦ some (a ∷ before, from) ]

-- A segment of the text, unless it is empty.
unfoldable pub flush : Bool → List ℕ → List Segment
flush is_code [] = []
flush is_code (a ∷ s) = record { text = a ∷ s; is_code = is_code } ∷ []

-- A block from its opening tag on, which is cut at the end of its closing tag, and what follows it.
unfoldable pub close_block :
    (List ℕ → List Segment) → List ℕ → Option (List ℕ × List ℕ) → List Segment
close_block rest block none = flush true block
close_block rest block (some (inside, from)) =
    let n = length think_close_tag in flush true (inside ++ take n from) ++ rest (drop n from)

unfoldable pub open_block :
    (List ℕ → List Segment) → List ℕ → Option (List ℕ × List ℕ) → List Segment
unfolding close_block
open_block rest text none = flush false text
open_block rest text (some (before, block)) =
    flush false before ++ close_block rest block (cut think_close_tag block)

-- One round for each block, as many as the fuel.
unfoldable pub split_think_from : ℕ → List ℕ → List Segment
unfolding open_block
split_think_from zero text = []
split_think_from (suc fuel) text = open_block (split_think_from fuel) text (cut think_open_tag text)

unfoldable pub split_think_blocks : List ℕ → List Segment
unfolding split_think_from
split_think_blocks text = split_think_from (length text + 1) text

unfoldable pub trim_left : List ℕ → List ℕ
trim_left [] = []
trim_left (a ∷ s) = if is_space a then trim_left s else a ∷ s

unfoldable pub trim_right : List ℕ → List ℕ
trim_right [] = []
trim_right (a ∷ s) =
    let rest = trim_right s in if is_space a && ltb (length rest) 1 then [] else a ∷ rest

abbrev pub fence : List ℕ
fence = b'`' ∷ b'`' ∷ b'`' ∷ []

unfoldable pub is_fence : List ℕ → Bool
is_fence line = has_prefix fence (trim_left (trim_right line))

abbrev pub on_first : ℕ → List (List ℕ) → List (List ℕ)
on_first a [] = (a ∷ []) ∷ []
on_first a (l ∷ ls) = (a ∷ l) ∷ ls

-- strings.Split at line ends.
unfoldable pub lines : List ℕ → List (List ℕ)
lines [] = [] ∷ []
lines (a ∷ s) = let rest = lines s in if a == 10 then [] ∷ rest else on_first a rest

-- A line with its line end, which the last one has not.
unfoldable pub piece : List ℕ → List (List ℕ) → List ℕ
piece line [] = line
piece line (l ∷ ls) = line ++ 10 ∷ []

-- The loop over the lines, with what is not flushed yet.
unfoldable pub split_fenced : Bool → List ℕ → List (List ℕ) → List Segment
unfolding flush piece is_fence
split_fenced in_fence cur [] = flush in_fence cur
split_fenced in_fence cur (line ∷ ls) =
    let turns = is_fence line in
    let now = if turns then flush in_fence cur ++ flush true (piece line ls) else [] in
    let rest =
      split_fenced (if turns then not in_fence else in_fence)
        (if turns then [] else cur ++ piece line ls) ls in
    now ++ rest

unfoldable pub split_inline_from : Bool → List ℕ → List ℕ → List Segment
unfolding flush
split_inline_from in_code cur [] = flush in_code cur
split_inline_from in_code cur (r ∷ s) =
    let turns = r == b'`' in
    let now = if turns then flush in_code cur else [] in
    let rest =
      split_inline_from (if turns then not in_code else in_code)
        (if turns then r ∷ [] else cur ++ r ∷ []) s in
    now ++ rest

unfoldable pub split_inline_code : List ℕ → List Segment
unfolding split_inline_from
split_inline_code text = split_inline_from false [] text

-- The segments of prose, each split further.
unfoldable pub split_prose : (List ℕ → List Segment) → List Segment → List Segment
split_prose split [] = []
split_prose split (s ∷ ss) = (if s.is_code then s ∷ [] else split s.text) ++ split_prose split ss

unfoldable pub split_fenced_and_inline : List ℕ → List Segment
unfolding split_prose split_fenced split_inline_code lines
split_fenced_and_inline text = split_prose split_inline_code (split_fenced false [] (lines text))

unfoldable pub split_code_blocks : List ℕ → List Segment
unfolding split_prose split_think_blocks split_fenced_and_inline
split_code_blocks text = split_prose split_fenced_and_inline (split_think_blocks text)

unfoldable pub join_segments : List Segment → List ℕ
join_segments [] = []
join_segments (s ∷ ss) = s.text ++ join_segments ss
