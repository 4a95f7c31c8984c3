-- ===== src/Console/Recent.antt =====
-- What the console shows of all the lines that were written (internal/console/console.go).
use onmi_routers.Base.{
  ℕ, ◌-◌, ◌≤◌, ◌≡◌, refl, ◌∙◌, inl, inr, List, [], ◌∷◌, ◌++◌, arith, leb, if◌then◌else◌, Bool-cases,
  length, drop, suc, ap, sym, length-append,
}
use onmi_routers.Console.{Line, Console, new_console, append, recent}

-- The last `n` of some lines.
pub last_of : ℕ → List Line → List Line
last_of n ls = drop (length ls - n) ls

last_of-cons :
    (n : ℕ) (l : Line) (ls : List Line) → n ≤ length ls → last_of n (l ∷ ls) ≡ last_of n ls
unfolding last_of
last_of-cons n l ls h = let e : suc (length ls) - n ≡ suc (length ls - n) = omega arith in rw e refl

last_of_all : (n : ℕ) (ls : List Line) → length ls ≤ n → last_of n ls ≡ ls
unfolding last_of
last_of_all n ls h = let e : length ls - n ≡ 0 = omega arith in rw e refl

last_of-append :
    (n : ℕ) (ls : List Line) (l : Line)
    → last_of n (last_of n ls ++ l ∷ []) ≡ last_of n (ls ++ l ∷ [])
last_of-append n [] l = ap (λ x. last_of n (x ++ l ∷ [])) (last_of_all n [] (omega arith))
last_of-append n (x ∷ ls) l = elim (Bool-cases (leb (suc (length ls)) n)) [
  | inl short ↦ ap (λ y. last_of n (y ++ l ∷ [])) (last_of_all n (x ∷ ls) (ground arith))
  | inr long ↦
      ap (λ y. last_of n (y ++ l ∷ [])) (last_of-cons n x ls (ground arith))
      ∙ last_of-append n ls l
      ∙ sym (last_of-cons n x (ls ++ l ∷ []) (ground (arith, length-append ls (l ∷ []))))
]

last_of-last_of :
    (n m : ℕ) (ls : List Line) → last_of n (last_of m ls) ≡ last_of (if leb n m then n else m) ls
last_of-last_of n m [] =
    ap (last_of n) (last_of_all m [] (omega arith))
    ∙ last_of_all n [] (omega arith)
    ∙ sym (last_of_all (if leb n m then n else m) [] (ground arith))
last_of-last_of n m (x ∷ ls) = elim (Bool-cases (leb (suc (length ls)) m)) [
  | inl short ↦
      ap (last_of n) (last_of_all m (x ∷ ls) (ground arith))
      ∙ ground (arith, last_of_all n (x ∷ ls), last_of_all m (x ∷ ls))
  | inr long ↦
      ap (last_of n) (last_of-cons m x ls (ground arith))
      ∙ last_of-last_of n m ls
      ∙ sym (last_of-cons (if leb n m then n else m) x ls (ground arith))
]

append-buf : (l : Line) (c : Console) → (append l c).buf ≡ last_of c.capacity (c.buf ++ l ∷ [])
unfolding append last_of
append-buf l c = ground (arith, last_of_all c.capacity (c.buf ++ l ∷ []))

append-last_of :
    (l : Line) (ls : List Line) (c : Console)
    → c.buf ≡ last_of c.capacity ls
    → (append l c).buf ≡ last_of c.capacity (ls ++ l ∷ [])
append-last_of l ls c h =
    append-buf l c ∙ ap (λ b. last_of c.capacity (b ++ l ∷ [])) h ∙ last_of-append c.capacity ls l

append_nil : (ls : List Line) → ls ++ [] ≡ ls
append_nil [] = refl
append_nil (l ∷ ls) = ap (λ x. l ∷ x) (append_nil ls)

append_one :
    (before : List Line) (l : Line) (ls : List Line) → (before ++ l ∷ []) ++ ls ≡ before ++ l ∷ ls
append_one [] l ls = refl
append_one (x ∷ before) l ls = ap (λ y. x ∷ y) (append_one before l ls)

append-capacity : (l : Line) (c : Console) → (append l c).capacity ≡ c.capacity
unfolding append
append-capacity l c = ground arith

-- Lines written in turn.
pub appends : List Line → Console → Console
appends [] c = c
appends (l ∷ ls) c = appends ls (append l c)

appends-last_of :
    (ls before : List Line) (c : Console)
    → c.buf ≡ last_of c.capacity before
    → ((appends ls c).buf ≡ last_of c.capacity (before ++ ls))
      × ((appends ls c).capacity ≡ c.capacity)
unfolding appends
appends-last_of [] before c h = (h ∙ sym (ap (last_of c.capacity) (append_nil before)), refl)
appends-last_of (l ∷ ls) before c h =
    let same = append-capacity l c in
    let next = append l c in
    let here : next.buf ≡ last_of next.capacity (before ++ l ∷ []) =
      append-last_of l before c h ∙ ap (λ k. last_of k (before ++ l ∷ [])) (sym same) in
    let (buf, size) = appends-last_of ls (before ++ l ∷ []) next here in
    (
      buf
          ∙ ap (λ k. last_of k ((before ++ l ∷ []) ++ ls)) same
          ∙ ap (last_of c.capacity) (append_one before l ls),
      size ∙ same,
    )

recent-last_of : (n : ℕ) (c : Console) → recent n c ≡ (if leb n 0 then c.buf else last_of n c.buf)
unfolding recent last_of
recent-last_of n c = ground (arith, last_of_all n c.buf)

new_console-capacity : (capacity : ℕ) → 1 ≤ capacity → (new_console capacity).capacity ≡ capacity
unfolding new_console
new_console-capacity capacity pos = ground arith

new_console-buf : (capacity : ℕ) → (new_console capacity).buf ≡ []
unfolding new_console
new_console-buf capacity = refl

-- The console shows the last lines: of any lines written to a new console, `Recent` gives the last
-- `n` in order, or as many as the capacity where that is less or where `n` is zero.
pub recent-appends :
    (capacity n : ℕ) (ls : List Line)
    → 1 ≤ capacity
    → recent n (appends ls (new_console capacity))
      ≡ last_of (if leb n 0 then capacity else if leb n capacity then n else capacity) ls
recent-appends capacity n ls pos =
    let c = new_console capacity in
    let size : c.capacity ≡ capacity = new_console-capacity capacity pos in
    let (buf, same) =
      appends-last_of ls [] c
        (new_console-buf capacity ∙ sym (last_of_all c.capacity [] (omega arith))) in
    let all : (appends ls c).buf ≡ last_of capacity ls = buf ∙ ap (λ k. last_of k ls) size in
    recent-last_of n (appends ls c) ∙ elim (Bool-cases (leb n 0)) [
      | inl zero_lines ↦ rw zero_lines all
      | inr some_lines ↦ rw some_lines (ap (last_of n) all ∙ last_of-last_of n capacity ls)
    ]
