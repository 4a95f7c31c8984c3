-- ===== src/Memory.antt =====
-- internal/memory/memory.go: the store of session memory. A time is a number, `day` the date as text,
-- and `to_lower` strings.ToLower.
pub mod Ids
pub mod Recall
mod Tests
use Prim.Native.String.{◌++◌ as text_append}
use onmi_routers.Base.Text.{trim_space}
use onmi_routers.Combo.{contains_text}
use onmi_routers.Base.{
  ℕ, zero, suc, ◌+◌, ◌-◌, ◌*◌, ◌/◌, ◌%◌, ◌≤◌, ◌<◌, ◌≡◌, refl, sym, ap, ◌∙◌, ◌≢◌, ◌⊎◌, inl, inr,
  String, Bool, true, false, not, ◌&&◌, ◌||◌, Option, none, some, List, [], ◌∷◌, ◌++◌, map, arith,
  eq_iff, eq_refl, ltb, leb, ◌==◌, str_eq, if◌then◌else◌, Bool-cases, Option-cases, length,
  length-append, get_elem?, drop, keep, All, All-append, contains, All-get_elem?, take, rotate,
  turn, get_elem?_total,
}

-- `id` is none where its number does not fit the buffer of itoa.
pub record Item : Type 0 where
  pub id : Option (String × List ℕ)
  pub key : String
  pub content : String
  pub created_at : ℕ

pub record Store : Type 0 where
  pub items : List Item
  pub max : ℕ
  pub seq : ℕ

pub new_store : ℕ → Store
new_store max = record { items = []; max = if leb max 0 then 200 else max; seq = 0 }

-- The loop of itoa, with the free places of the buffer, and the digits written; none is a write in front
-- of the buffer.
pub digits : ℕ → ℕ → List ℕ → Option (List ℕ)
digits i zero b = some b
digits zero (suc n) b = none
digits (suc i) (suc n) b = digits i (suc n / 10) ((b'0' + suc n % 10) ∷ b)

-- The digits of a number, as characters.
pub itoa : ℕ → Option (List ℕ)
unfolding digits
itoa n = if n == 0 then some (b'0' ∷ []) else digits 12 n []

-- The last items, as many as there is room for.
abbrev pub trimmed : ℕ → List Item → List Item
trimmed max items = if ltb max (length items) then drop (length items - max) items else items

pub add : String → ℕ → String → String → Store → Store × Item
unfolding itoa
add day now key content s =
    let it : Item = record {
      id = elim (itoa (s.seq + 1)) [ none ↦ none | some n ↦ some (text_append day "-", n) ];
      key = trim_space key;
      content = trim_space content;
      created_at = now;
    } in
    (record s { items = trimmed s.max (s.items ++ it ∷ []); seq = s.seq + 1 }, it)

-- Whether an item is found by a text, which is lowered.
pub is_hit : (String → String) → String → Item → Bool
is_hit to_lower q it =
    str_eq q "" || contains_text (to_lower (text_append it.key (text_append " " it.content))) q

-- The loop of `Search` over the first `i` items, from the last on, with the room left.
pub search_from : (Item → Bool) → List Item → ℕ → ℕ → List Item
search_from hit items zero room = []
search_from hit items (suc i) zero = []
search_from hit items (suc i) (suc room) = elim (get_elem? items i) [
  | none ↦ []
  | some it ↦
      let found = hit it in
      let rest = search_from hit items i (if found then room else suc room) in
      if found then it ∷ rest else rest
]

pub search : (String → String) → String → ℕ → Store → List Item
unfolding search_from is_hit
search to_lower q limit s =
    search_from (is_hit to_lower (to_lower (trim_space q))) s.items (length s.items)
      (if leb limit 0 then 10 else limit)
