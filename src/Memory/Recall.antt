-- ===== src/Memory/Recall.antt =====
-- What a search of the memory finds (internal/memory/memory.go).
use onmi_routers.Base.{
  ℕ, zero, suc, ◌≤◌, ◌≡◌, refl, sym, ap, ◌∙◌, String, Bool, true, false, Option, none, some, List,
  [], ◌∷◌, ◌++◌, arith, leb, if◌then◌else◌, length, get_elem?, keep, take, get_elem?_total,
}
use onmi_routers.Memory.{Item, Store, search_from, search, is_hit}
use onmi_routers.Base.Text.{trim_space}

abbrev pub newest_first : List Item → List Item
newest_first [] = []
newest_first (x ∷ xs) = newest_first xs ++ x ∷ []

newest_first-append :
    (xs : List Item) (x : Item) → newest_first (xs ++ x ∷ []) ≡ x ∷ newest_first xs
newest_first-append [] x = refl
newest_first-append (y ∷ xs) x = ap (λ l. l ++ y ∷ []) (newest_first-append xs x)

take-suc :
    (xs : List Item) (i : ℕ) {x : Item}
    → get_elem? xs i ≡ some x
    → take (suc i) xs ≡ take i xs ++ x ∷ []
take-suc [] i e = cc
take-suc (y ∷ xs) zero e = cc
take-suc (y ∷ xs) (suc i) e = ap (λ l. y ∷ l) (take-suc xs i e)

take_all : (xs : List Item) → take (length xs) xs ≡ xs
take_all [] = refl
take_all (x ∷ xs) = ap (λ l. x ∷ l) (take_all xs)

module _ (hit : Item → Bool) where
  -- The first hits, as many as there is room for.
  abbrev hits : ℕ → List Item → List Item
  hits room xs = take room (keep hit xs)

  hits-cons :
      (b : Bool) (room : ℕ) (x : Item) (xs : List Item)
      → (if b
          then x ∷ hits (if b then room else suc room) xs
          else hits (if b then room else suc room) xs)
        ≡ take (suc room) (if b then x ∷ keep hit xs else keep hit xs)
  hits-cons true room x xs = refl
  hits-cons false room x xs = refl

  take_nil : (room : ℕ) → [] ≡ hits room []
  take_nil zero = refl
  take_nil (suc room) = refl

  search_from-hits :
      (items : List Item) (i room : ℕ)
      → i ≤ length items
      → search_from hit items i room ≡ hits room (newest_first (take i items))
  unfolding search_from
  search_from-hits items zero room h = take_nil room
  search_from-hits items (suc i) zero h = refl
  search_from-hits items (suc i) (suc room) h =
      let (x, e) = get_elem?_total items i (omega arith) in
      let before = take i items in
      let r = if hit x then room else suc room in
      let ih = search_from-hits items i r (omega arith) in
      let older : newest_first (take (suc i) items) ≡ x ∷ newest_first before =
        ap newest_first (take-suc items i e) ∙ newest_first-append before x in
      let look = λ (o : Option Item).
        let found : List Item = elim o [
          | none ↦ []
          | some it ↦
              let rest = search_from hit items i (if hit it then room else suc room) in
              if hit it then it ∷ rest else rest
        ] in
        found in
      ap look e
      ∙ ap (λ l. if hit x then x ∷ l else l) ih
      ∙ hits-cons (hit x) room x (newest_first before)
      ∙ sym (ap (hits (suc room)) older)

-- A search gives the newest items first: of the items that the text is found in, or all for an empty
-- text, the newest ones, as many as the limit, which is ten where none is given.
pub search-hits :
    (to_lower : String → String) (q : String) (limit : ℕ) (s : Store)
    → search to_lower q limit s
      ≡ take
          (if leb limit 0 then 10 else limit)
          (keep (is_hit to_lower (to_lower (trim_space q))) (newest_first s.items))
unfolding search
search-hits to_lower q limit s =
    let hit = is_hit to_lower (to_lower (trim_space q)) in
    let n = if leb limit 0 then 10 else limit in
    search_from-hits hit s.items (length s.items) n (omega arith)
    ∙ ap (λ l. hits hit n (newest_first l)) (take_all s.items)
