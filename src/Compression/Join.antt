-- ===== src/Compression/Join.antt =====
-- The segments of a prompt, put together again (internal/compression/codeblocks.go).
use onmi_routers.Base.{
  length-drop, ℕ, zero, suc, ◌+◌, ◌≤◌, ◌<◌, ◌≡◌, refl, sym, ap, ◌∙◌, inl, inr, Bool, true, false,
  not, Option, none, some, List, [], ◌∷◌, ◌++◌, arith, ◌==◌, if◌then◌else◌, Bool-cases, length,
  length-append, drop, take,
}
use mathlib.Core.List.{append-nil, append_assoc}
use onmi_routers.Compression.{
  Segment, cut, has_prefix, flush, close_block, open_block, split_think_from, split_think_blocks,
  think_open_tag, think_close_tag, is_fence, lines, on_first, piece, split_fenced,
  split_inline_from, split_inline_code, split_prose, split_fenced_and_inline, split_code_blocks,
  join_segments,
}

take-append-drop : (n : ℕ) (xs : List ℕ) → take n xs ++ drop n xs ≡ xs
take-append-drop zero xs = refl
take-append-drop (suc n) [] = refl
take-append-drop (suc n) (x ∷ xs) = ap (λ l. x ∷ l) (take-append-drop n xs)

join_segments-append :
    (ss ts : List Segment) → join_segments (ss ++ ts) ≡ join_segments ss ++ join_segments ts
unfolding join_segments
join_segments-append [] ts = refl
join_segments-append (s ∷ ss) ts =
    ap (λ l. s.text ++ l) (join_segments-append ss ts)
    ∙ sym (append_assoc s.text (join_segments ss) (join_segments ts))

join_segments-flush : (c : Bool) (s : List ℕ) → join_segments (flush c s) ≡ s
unfolding join_segments flush
join_segments-flush c [] = refl
join_segments-flush c (a ∷ s) = append-nil (a ∷ s)

-- A flush in front of other segments.
join_flushed :
    (c : Bool) (s : List ℕ) (ss : List Segment)
    → join_segments (flush c s ++ ss) ≡ s ++ join_segments ss
join_flushed c s ss =
    join_segments-append (flush c s) ss ∙ ap (λ l. l ++ join_segments ss) (join_segments-flush c s)

join_inline : (c : Bool) (cur s : List ℕ) → join_segments (split_inline_from c cur s) ≡ cur ++ s
unfolding split_inline_from
join_inline c cur [] = join_segments-flush c cur ∙ sym (append-nil cur)
join_inline c cur (r ∷ s) = elim (Bool-cases (r == b'`')) [
  | inl h ↦ rw h (join_flushed c cur _ ∙ ap (λ l. cur ++ l) (join_inline (not c) (r ∷ []) s))
  | inr h ↦ rw h (join_inline c (cur ++ r ∷ []) s ∙ append_assoc cur (r ∷ []) s)
]

unlines : List (List ℕ) → List ℕ
unlines [] = []
unlines (l ∷ ls) = piece l ls ++ unlines ls

join_fenced :
    (c : Bool) (cur : List ℕ) (ls : List (List ℕ))
    → join_segments (split_fenced c cur ls) ≡ cur ++ unlines ls
unfolding split_fenced unlines
join_fenced c cur [] = join_segments-flush c cur ∙ sym (append-nil cur)
join_fenced c cur (l ∷ ls) = elim (Bool-cases (is_fence l)) [
  | inl h ↦
      let p = piece l ls in
      let now = flush c cur ++ flush true p in
      let flushed : join_segments now ≡ cur ++ p =
        join_flushed c cur (flush true p) ∙ ap (λ x. cur ++ x) (join_segments-flush true p) in
      let rest = join_fenced (not c) [] ls in
      rw h (
        join_segments-append now _
        ∙ ap (λ x. x ++ join_segments (split_fenced (not c) [] ls)) flushed
        ∙ ap (λ x. (cur ++ p) ++ x) rest
        ∙ append_assoc cur p (unlines ls))
  | inr h ↦ rw h (join_fenced c (cur ++ piece l ls) ls ∙ append_assoc cur (piece l ls) (unlines ls))
]

unlines-on_first : (a : ℕ) (ls : List (List ℕ)) → unlines (on_first a ls) ≡ a ∷ unlines ls
unfolding unlines piece
unlines-on_first a [] = refl
unlines-on_first a (l ∷ []) = refl
unlines-on_first a (l ∷ m ∷ ls) = refl

lines_some : (s : List ℕ) → (l : List ℕ) × (ls : List (List ℕ)) × (lines s ≡ l ∷ ls)
unfolding lines
lines_some [] = ([], [], refl)
lines_some (a ∷ s) = elim (Bool-cases (a == 10)) [
  | inl h ↦ ([], lines s, rw h refl)
  | inr h ↦ let (l, ls, e) = lines_some s in (a ∷ l, ls, rw h (ap (on_first a) e))
]

unlines-lines : (s : List ℕ) → unlines (lines s) ≡ s
unfolding lines unlines piece
unlines-lines [] = refl
unlines-lines (a ∷ s) = elim (Bool-cases (a == 10)) [
  | inl h ↦
      let (l, ls, e) = lines_some s in
      let ended : a ≡ 10 = ground (arith, h) in
      rw h (
        ap (λ x. piece [] x ++ unlines x) e
        ∙ ap (λ x. 10 ∷ unlines x) (sym e)
        ∙ ap (λ x. 10 ∷ x) (unlines-lines s)
        ∙ ap (λ x. x ∷ s) (sym ended))
  | inr h ↦ rw h (unlines-on_first a (lines s) ∙ ap (λ x. a ∷ x) (unlines-lines s))
]

-- Splitting the prose further keeps the text, if the split does.
join_prose :
    (split : List ℕ → List Segment)
    → ((t : List ℕ) → join_segments (split t) ≡ t)
    → (ss : List Segment) → join_segments (split_prose split ss) ≡ join_segments ss
unfolding split_prose join_segments
join_prose split keeps [] = refl
join_prose split keeps (s ∷ ss) = elim (Bool-cases s.is_code) [
  | inl h ↦ rw h (ap (λ x. s.text ++ x) (join_prose split keeps ss))
  | inr h ↦ rw h (
      join_segments-append (split s.text) (split_prose split ss)
      ∙ ap (λ x. x ++ join_segments (split_prose split ss)) (keeps s.text)
      ∙ ap (λ x. s.text ++ x) (join_prose split keeps ss))
]

join_fenced_and_inline : (t : List ℕ) → join_segments (split_fenced_and_inline t) ≡ t
unfolding split_fenced_and_inline split_inline_code
join_fenced_and_inline t =
    join_prose split_inline_code (join_inline false []) (split_fenced false [] (lines t))
    ∙ join_fenced false [] (lines t)
    ∙ unlines-lines t

-- A cut gives the text in two parts, of which the second starts with the mark.
abbrev pub IsCut : List ℕ → List ℕ → Option (List ℕ × List ℕ) → Type 0
IsCut mark s none = Unit
IsCut mark s (some (before, from)) = (s ≡ before ++ from) × (has_prefix mark from ≡ true)

IsCut-here :
    (mark s : List ℕ) (b : Bool) (later : Option (List ℕ × List ℕ))
    → has_prefix mark s ≡ b
    → IsCut mark s later
    → IsCut mark s (if b then some ([], s) else later)
IsCut-here mark s true later h cut_after = (refl, h)
IsCut-here mark s false later h cut_after = cut_after

IsCut-later :
    (mark : List ℕ) (a : ℕ) (s : List ℕ) (o : Option (List ℕ × List ℕ))
    → IsCut mark s o
    → IsCut mark (a ∷ s) (elim o as (λ _. Option (List ℕ × List ℕ)) [
      | none ↦ none
      | some (before, from) ↦ some (a ∷ before, from)
    ])
IsCut-later mark a s none h = tt
IsCut-later mark a s (some (before, from)) (e, h) = (ap (λ x. a ∷ x) e, h)

pub cut-IsCut : (mark s : List ℕ) → IsCut mark s (cut mark s)
unfolding cut
cut-IsCut mark [] = IsCut-here mark [] (has_prefix mark []) none refl tt
cut-IsCut mark (a ∷ s) =
    IsCut-here mark (a ∷ s) (has_prefix mark (a ∷ s)) _ refl
      (IsCut-later mark a s (cut mark s) (cut-IsCut mark s))

-- What follows a block is shorter than the block.
rest_lt :
    (inside from : List ℕ)
    → has_prefix think_close_tag from ≡ true
    → length (drop (length think_close_tag) from) < length (inside ++ from)
unfolding has_prefix
rest_lt inside [] h = cc
rest_lt inside (a ∷ from) h =
    omega (arith, length-append inside (a ∷ from), length-drop (length think_close_tag) (a ∷ from))

-- The rest of the loop keeps the texts that are shorter.
KeepsBelow : ℕ → (List ℕ → List Segment) → Type 0
KeepsBelow n rest = (t : List ℕ) → length t < n → join_segments (rest t) ≡ t

join_close :
    (rest : List ℕ → List Segment) (block : List ℕ) (o : Option (List ℕ × List ℕ))
    → IsCut think_close_tag block o
    → KeepsBelow (length block) rest
    → join_segments (close_block rest block o) ≡ block
unfolding close_block KeepsBelow
join_close rest block none h keeps = join_segments-flush true block
join_close rest block (some (inside, from)) (e, h) keeps =
    let n = length think_close_tag in
    let shorter : length (drop n from) < length block = rw e (rest_lt inside from h) in
    join_flushed true (inside ++ take n from) (rest (drop n from))
    ∙ ap (λ x. (inside ++ take n from) ++ x) (keeps (drop n from) shorter)
    ∙ append_assoc inside (take n from) (drop n from)
    ∙ ap (λ x. inside ++ x) (take-append-drop n from)
    ∙ sym e

join_open :
    (rest : List ℕ → List Segment) (text : List ℕ) (o : Option (List ℕ × List ℕ))
    → IsCut think_open_tag text o
    → KeepsBelow (length text) rest
    → join_segments (open_block rest text o) ≡ text
unfolding open_block KeepsBelow
join_open rest text none h keeps = join_segments-flush false text
join_open rest text (some (before, block)) (e, h) keeps =
    let within : length block ≤ length text = rw e (omega (arith, length-append before block)) in
    join_flushed false before (close_block rest block (cut think_close_tag block))
    ∙ ap (λ x. before ++ x)
        (join_close rest block (cut think_close_tag block) (cut-IsCut think_close_tag block)
          (λ t lt. keeps t (omega arith)))
    ∙ sym e

join_think : (fuel : ℕ) → KeepsBelow fuel (split_think_from fuel)
unfolding split_think_from KeepsBelow
join_think zero t lt = absurd (omega arith)
join_think (suc fuel) t lt =
    join_open (split_think_from fuel) t (cut think_open_tag t) (cut-IsCut think_open_tag t)
      (λ u le. join_think fuel u (omega arith))

-- The segments of a prompt, put together in their order, are the prompt: splitting it into prose and
-- code loses, adds and moves no character.
pub join-split : (text : List ℕ) → join_segments (split_code_blocks text) ≡ text
unfolding split_code_blocks split_think_blocks KeepsBelow
join-split text =
    join_prose split_fenced_and_inline join_fenced_and_inline (split_think_blocks text)
    ∙ join_think (length text + 1) text (omega arith)
