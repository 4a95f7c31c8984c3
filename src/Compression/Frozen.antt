-- ===== src/Compression/Frozen.antt =====
-- What the compression leaves alone (internal/compression/codeblocks.go).
use onmi_routers.Base.{
  ℕ, zero, suc, ◌+◌, ◌≡◌, refl, ap, ◌∙◌, ◌⊎◌, inl, inr, Bool, true, false, Option, none, some, List,
  [], ◌∷◌, ◌++◌, arith, if◌then◌else◌, Bool-cases, length, drop, All, All-append, take,
}
use onmi_routers.Compression.{
  Segment, cut, has_prefix, flush, close_block, open_block, split_think_from, split_think_blocks,
  think_open_tag, think_close_tag,
}
use onmi_routers.Compression.Join.{IsCut, cut-IsCut}

prefix_append : (p s t : List ℕ) → has_prefix p s ≡ true → has_prefix p (s ++ t) ≡ true
unfolding has_prefix
prefix_append [] s t h = refl
prefix_append (x ∷ p) [] t h = cc
prefix_append (x ∷ p) (a ∷ s) t h = ground (arith, h, prefix_append p s t)

-- What stands before the first mark has no mark.
abbrev IsClean : List ℕ → Option (List ℕ × List ℕ) → Type 0
IsClean mark none = Unit
IsClean mark (some (before, from)) = cut mark before ≡ none

module _ (c : ℕ) (cs : List ℕ) where
  abbrev mark : List ℕ
  mark = c ∷ cs

  IsClean-later :
      (a : ℕ) (s : List ℕ) (o : Option (List ℕ × List ℕ))
      → has_prefix mark (a ∷ s) ≡ false
      → IsCut mark s o
      → IsClean mark o
      → IsClean mark (elim o as (λ _. Option (List ℕ × List ℕ)) [
        | none ↦ none
        | some (before, from) ↦ some (a ∷ before, from)
      ])
  unfolding cut
  IsClean-later a s none h here clean = tt
  IsClean-later a s (some (before, from)) h (e, at) clean =
      elim (Bool-cases (has_prefix mark (a ∷ before))) [
        | inl early ↦
            let whole : has_prefix mark (a ∷ s) ≡ true =
              ap (λ x. has_prefix mark (a ∷ x)) e ∙ prefix_append mark (a ∷ before) from early in
            cc
        | inr off ↦ rw (off, clean) refl
      ]

  IsClean-if :
      (s : List ℕ) (b : Bool) (later : Option (List ℕ × List ℕ))
      → (b ≡ false → IsClean mark later)
      → IsClean mark (if b then some ([], s) else later)
  unfolding cut has_prefix
  IsClean-if s true later h = refl
  IsClean-if s false later h = h refl

  cut-IsClean : (s : List ℕ) → IsClean mark (cut mark s)
  unfolding cut
  cut-IsClean [] = IsClean-if [] (has_prefix mark []) none (λ _. tt)
  cut-IsClean (a ∷ s) =
      IsClean-if (a ∷ s) (has_prefix mark (a ∷ s)) _
        (λ h. IsClean-later a s (cut mark s) h (cut-IsCut mark s) (cut-IsClean s))

-- A segment is frozen or has no opening tag.
abbrev pub IsFrozen : Segment → Type 0
IsFrozen s = (s.is_code ≡ true) ⊎ (cut think_open_tag s.text ≡ none)

flush-code : (s : List ℕ) → All IsFrozen (flush true s)
unfolding flush
flush-code [] = tt
flush-code (a ∷ s) = (inl refl, tt)

flush-prose : (s : List ℕ) → cut think_open_tag s ≡ none → All IsFrozen (flush false s)
unfolding flush
flush-prose [] h = tt
flush-prose (a ∷ s) h = (inr h, tt)

module _ (rest : List ℕ → List Segment) (frozen : (t : List ℕ) → All IsFrozen (rest t)) where
  close_block-Frozen :
      (block : List ℕ) (o : Option (List ℕ × List ℕ)) → All IsFrozen (close_block rest block o)
  unfolding close_block
  close_block-Frozen block none = flush-code block
  close_block-Frozen block (some (inside, from)) =
      let n = length think_close_tag in
      let taken = inside ++ take n from in
      All-append IsFrozen (flush true taken) (rest (drop n from)) (flush-code taken)
        (frozen (drop n from))

  open_block-Frozen :
      (text : List ℕ) (o : Option (List ℕ × List ℕ))
      → cut think_open_tag text ≡ o
      → IsClean think_open_tag o
      → All IsFrozen (open_block rest text o)
  unfolding open_block
  open_block-Frozen text none e clean = flush-prose text e
  open_block-Frozen text (some (before, block)) e clean =
      All-append IsFrozen (flush false before) (close_block rest block (cut think_close_tag block))
        (flush-prose before clean) (close_block-Frozen block (cut think_close_tag block))

split_think_from-Frozen : (fuel : ℕ) (text : List ℕ) → All IsFrozen (split_think_from fuel text)
unfolding split_think_from
split_think_from-Frozen zero text = tt
split_think_from-Frozen (suc fuel) text =
    open_block-Frozen (split_think_from fuel) (split_think_from-Frozen fuel) text
      (cut think_open_tag text) refl
      (cut-IsClean b'<' (b't' ∷ b'h' ∷ b'i' ∷ b'n' ∷ b'k' ∷ b'>' ∷ []) text)

-- Of the segments that a prompt is first split into, each one that may be rewritten has no opening tag of
-- a reasoning trace.
pub split_think_blocks-IsFrozen : (text : List ℕ) → All IsFrozen (split_think_blocks text)
unfolding split_think_blocks
split_think_blocks-IsFrozen text = split_think_from-Frozen (length text + 1) text
