-- ===== src/CodeBuddy/Credits.antt =====
-- The credits that a reply costs (internal/upstream/codebuddy.go), streamed and collected.
use onmi_routers.Base.{
  ℕ, ◌+◌, ◌≡◌, refl, sym, ap, ◌∙◌, String, Option, none, some, List, [], ◌∷◌, ◌++◌, arith, ltb,
  if◌then◌else◌, length, length-append,
}
use onmi_routers.CodeBuddy.{CbKey, add_credits}
use onmi_routers.CodeBuddy.Stream.{
  Line, other, done, data_line, charge, on_error, stream_line, stream, Collected, nothing,
  last_credit, collect_chunk, collect, cb_collect_stream,
}

-- The credits of a chunk that are charged.
abbrev charges_of : Option ℕ → List ℕ
charges_of none = []
charges_of (some c) = if ltb 0 c then c ∷ [] else []

-- The credits that a reply reports, up to its end mark.
unfoldable pub charges : List Line → List ℕ
charges [] = []
charges (other ∷ ls) = charges ls
charges (done ∷ ls) = []
charges (data_line none ∷ ls) = charges ls
charges (data_line (some c) ∷ ls) = charges_of c.credit ++ charges ls

abbrev pub sum : List ℕ → ℕ
sum [] = 0
sum (c ∷ cs) = c + sum cs

-- The last of some numbers, or the one given.
abbrev pub last : List ℕ → ℕ → ℕ
last [] d = d
last (c ∷ cs) d = last cs c

-- No data stands behind the end mark.
abbrev IsQuiet : List Line → Type 0
IsQuiet [] = Unit
IsQuiet (other ∷ ls) = IsQuiet ls
IsQuiet (done ∷ ls) = IsQuiet ls
IsQuiet (data_line c ∷ ls) = ⊥

abbrev pub EndsWell : List Line → Type 0
EndsWell [] = Unit
EndsWell (other ∷ ls) = EndsWell ls
EndsWell (done ∷ ls) = IsQuiet ls
EndsWell (data_line c ∷ ls) = EndsWell ls

-- A key that has used so many credits, in so many requests.
abbrev pub Uses : ℕ → ℕ → CbKey → CbKey → Type 0
Uses c n k k' = (k'.credits_used ≡ k.credits_used + c) × (k'.total_reqs ≡ k.total_reqs + n)

add_credits-Uses : (c : ℕ) (k : CbKey) → Uses c 1 k (add_credits c k)
unfolding add_credits
add_credits-Uses c k = ground arith

on_error-Uses : (e : Option String) (k : CbKey) → Uses 0 0 k (on_error e k)
unfolding on_error
on_error-Uses none k = ground arith
on_error-Uses (some e) k = ground arith

charge-Uses :
    (o : Option ℕ) (k : CbKey) → Uses (sum (charges_of o)) (length (charges_of o)) k (charge o k)
unfolding charge
charge-Uses none k = ground arith
charge-Uses (some c) k = ground (arith, add_credits-Uses c k)

sum-append : (xs ys : List ℕ) → sum (xs ++ ys) ≡ sum xs + sum ys
sum-append [] ys = omega arith
sum-append (x ∷ xs) ys = omega (arith, sum-append xs ys)

quiet_stream : (ls : List Line) (k : CbKey) → IsQuiet ls → stream ls k ≡ k
unfolding stream stream_line
quiet_stream [] k q = refl
quiet_stream (other ∷ ls) k q = quiet_stream ls k q
quiet_stream (done ∷ ls) k q = quiet_stream ls k q
quiet_stream (data_line c ∷ ls) k q = absurd q

stream-Uses :
    (ls : List Line) (k : CbKey)
    → EndsWell ls
    → Uses (sum (charges ls)) (length (charges ls)) k (stream ls k)
unfolding stream stream_line charges
stream-Uses [] k e = ground arith
stream-Uses (other ∷ ls) k e = stream-Uses ls k e
stream-Uses (done ∷ ls) k e = rw (quiet_stream ls k e) (ground arith)
stream-Uses (data_line none ∷ ls) k e = stream-Uses ls k e
stream-Uses (data_line (some c) ∷ ls) k e =
    let k1 = on_error c.error k in
    let k2 = charge c.credit k1 in
    let a = on_error-Uses c.error k in
    let b = charge-Uses c.credit k1 in
    let r = stream-Uses ls k2 e in
    let s = sum-append (charges_of c.credit) (charges ls) in
    let n = length-append (charges_of c.credit) (charges ls) in
    (omega (arith, a.0, b.0, r.0, s), omega (arith, a.1, b.1, r.1, n))

last-append : (xs ys : List ℕ) (d : ℕ) → last (xs ++ ys) d ≡ last ys (last xs d)
last-append [] ys d = refl
last-append (x ∷ xs) ys d = last-append xs ys x

last_credit_lem : (o : Option ℕ) (d : ℕ) → last_credit o d ≡ last (charges_of o) d
unfolding last_credit
last_credit_lem none d = refl
last_credit_lem (some c) d = ground arith

collect-last : (ls : List Line) (t : Collected) → (collect ls t).credit ≡ last (charges ls) t.credit
unfolding collect charges collect_chunk
collect-last [] t = refl
collect-last (other ∷ ls) t = collect-last ls t
collect-last (done ∷ ls) t = refl
collect-last (data_line none ∷ ls) t = collect-last ls t
collect-last (data_line (some c) ∷ ls) t =
    collect-last ls (collect_chunk c t)
    ∙ ap (last (charges ls)) (last_credit_lem c.credit t.credit)
    ∙ sym (last-append (charges_of c.credit) (charges ls) t.credit)

collected-Uses :
    (ls : List Line) (k : CbKey)
    → Uses
        (last (charges ls) 0)
        (if ltb 0 (last (charges ls) 0) then 1 else 0)
        k
        (cb_collect_stream ls k).1
unfolding cb_collect_stream
collected-Uses ls k =
    let e = collect-last ls nothing in
    ground (arith, e, add_credits-Uses (collect ls nothing).credit k)

-- A defect of the credits: for a reply with nothing behind its end mark, a client that streams is charged
-- the sum of all credits that its chunks report and counted a request for each of them, while one that
-- does not stream is charged for the last of them and counted one request.
pub stream_charges :
    (ls : List Line) (k : CbKey)
    → EndsWell ls
    → Uses (sum (charges ls)) (length (charges ls)) k (stream ls k)
      × Uses
          (last (charges ls) 0)
          (if ltb 0 (last (charges ls) 0) then 1 else 0)
          k
          (cb_collect_stream ls k).1
stream_charges ls k e = (stream-Uses ls k e, collected-Uses ls k)
