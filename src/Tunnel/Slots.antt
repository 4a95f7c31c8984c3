-- ===== src/Tunnel/Slots.antt =====
-- The slots of the log ring (internal/tunnel/manager.go, ringBuffer).
use onmi_routers.Base.{
  ℕ, zero, suc, ◌+◌, ◌-◌, ◌%◌, ◌≤◌, ◌<◌, ◌≡◌, refl, sym, ap, ◌∙◌, ◌≢◌, inl, inr, String, List, [],
  ◌∷◌, ◌++◌, arith, ltb, if◌then◌else◌, Bool-cases, length, drop,
}
use native.Mathlib.Nat.{mod-eq_of_lt, mod-eq-sub-mod}
use onmi_routers.Tunnel.{RingBuffer}
use onmi_routers.Tunnel.Ring.{set, get_or, blank, add, trim_line, snapshot_from, snapshot}

length-set : (xs : List String) (i : ℕ) (v : String) → length (set xs i v) ≡ length xs
length-set [] i v = refl
length-set (x ∷ xs) zero v = refl
length-set (x ∷ xs) (suc i) v = ap suc (length-set xs i v)

pub length-blank : (n : ℕ) → length (blank n) ≡ n
length-blank zero = refl
length-blank (suc n) = ap suc (length-blank n)

get_or-set_self :
    (xs : List String) (i : ℕ) (v : String) → i < length xs → get_or (set xs i v) i ≡ v
get_or-set_self [] i v h = elim h [ ]
get_or-set_self (x ∷ xs) zero v h = refl
get_or-set_self (x ∷ xs) (suc i) v h = get_or-set_self xs i v (omega arith)

get_or-set_other :
    (xs : List String) (i j : ℕ) (v : String) → i ≢ j → get_or (set xs i v) j ≡ get_or xs j
get_or-set_other [] i j v h = refl
get_or-set_other (x ∷ xs) zero zero v h = absurd (h refl)
get_or-set_other (x ∷ xs) zero (suc j) v h = refl
get_or-set_other (x ∷ xs) (suc i) zero v h = refl
get_or-set_other (x ∷ xs) (suc i) (suc j) v h = get_or-set_other xs i j v (λ e. h (ap suc e))

-- A position that has gone round at most once.
wrap_lem : (n a : ℕ) → a < n + n → a % n ≡ (if ltb a n then a else a - n)
wrap_lem n a h = elim (Bool-cases (ltb a n)) [
  | inl low ↦ rw low (mod-eq_of_lt (ground arith))
  | inr high ↦ rw high (mod-eq-sub-mod (ground arith) ∙ mod-eq_of_lt (ground arith))
]

-- A ring in which every index is in range.
pub record IsRing (r : RingBuffer) : Type 0 where
  pub filled : length r.buf ≡ r.size
  pub room : 0 < r.size
  pub from : r.start < r.size
  pub fits : r.count ≤ r.size

abbrev slot : RingBuffer → ℕ → String
slot r i = get_or r.buf ((r.start + i) % r.size)

abbrev Same : RingBuffer → RingBuffer → ℕ → ℕ → ℕ → Type 0
Same r r' i i' k = (j : ℕ) → j < k → slot r (i + j) ≡ slot r' (i' + j)

at : (r : RingBuffer) {a b : ℕ} → a ≡ b → slot r a ≡ slot r b
at r e = ap (slot r) e

snapshot_from-Same :
    (r r' : RingBuffer) (i i' k : ℕ)
    → Same r r' i i' k
    → snapshot_from r i k ≡ snapshot_from r' i' k
unfolding snapshot_from
snapshot_from-Same r r' i i' zero h = refl
snapshot_from-Same r r' i i' (suc k) h =
    let first : slot r i ≡ slot r' i' =
      sym (at r (omega arith)) ∙ h 0 (omega arith) ∙ at r' (omega arith) in
    let rest : Same r r' (i + 1) (i' + 1) k =
      λ j lt. sym (at r (omega arith)) ∙ h (j + 1) (omega arith) ∙ at r' (omega arith) in
    let tail = snapshot_from-Same r r' (i + 1) (i' + 1) k rest in cc

snapshot_from-suc :
    (r : RingBuffer) (i k : ℕ)
    → snapshot_from r i (suc k) ≡ snapshot_from r i k ++ slot r (i + k) ∷ []
unfolding snapshot_from
snapshot_from-suc r i zero = ap (λ x. x ∷ []) (at r (omega arith))
snapshot_from-suc r i (suc k) =
    let ih = snapshot_from-suc r (i + 1) k in
    let last : slot r (i + 1 + k) ≡ slot r (i + suc k) = at r (omega arith) in
    ap (λ x. slot r i ∷ x) (ih ∙ ap (λ x. snapshot_from r (i + 1) k ++ x ∷ []) last)

length-snapshot_from : (r : RingBuffer) (i k : ℕ) → length (snapshot_from r i k) ≡ k
unfolding snapshot_from
length-snapshot_from r i zero = refl
length-snapshot_from r i (suc k) = ap suc (length-snapshot_from r (i + 1) k)

-- The two results of `add`: a line in the first free slot, or over the oldest line.
abbrev pub appended : String → RingBuffer → RingBuffer
appended l r = record r { buf = set r.buf ((r.start + r.count) % r.size) l; count = r.count + 1 }

abbrev pub replaced : String → RingBuffer → RingBuffer
replaced l r = record r { buf = set r.buf r.start l; start = (r.start + 1) % r.size }

pub add_free :
    (line : String) (r : RingBuffer) → r.count < r.size → add line r ≡ appended (trim_line line) r
unfolding add
add_free line r free = ground arith

pub add_full :
    (line : String) (r : RingBuffer) → r.size ≤ r.count → add line r ≡ replaced (trim_line line) r
unfolding add
add_full line r full = ground arith

mod-le : (n a : ℕ) → a < n + n → 0 < n → a % n < n
mod-le n a h p = rw (wrap_lem n a h) (ground arith)

mod-ne : (n s j k : ℕ) → s < n → j < k → k < n → (s + k) % n ≢ (s + j) % n
mod-ne n s j k from lt le = ground (arith, wrap_lem n (s + k), wrap_lem n (s + j))

pub snapshot-appended :
    (l : String) (r : RingBuffer)
    → IsRing r
    → r.count < r.size
    → snapshot (appended l r) ≡ snapshot r ++ l ∷ []
unfolding snapshot
snapshot-appended l r v free =
    let r' = appended l r in
    let at_end = (r.start + r.count) % r.size in
    let low : at_end < r.size = mod-le r.size (r.start + r.count) (omega arith) (omega arith) in
    let last : slot r' (0 + r.count) ≡ l =
      at r' (omega arith) ∙ get_or-set_self r.buf at_end l (omega arith) in
    let same : Same r' r 0 0 r.count = λ j lt.
      get_or-set_other r.buf at_end ((r.start + (0 + j)) % r.size) l
        (mod-ne r.size r.start (0 + j) r.count v.from (omega arith) free) in
    let split : snapshot r' ≡ snapshot_from r' 0 (suc r.count) =
      ap (snapshot_from r' 0) {y = suc r.count} (omega arith) in
    split
    ∙ snapshot_from-suc r' 0 r.count
    ∙ ap (λ x. snapshot_from r' 0 r.count ++ x ∷ []) last
    ∙ ap (λ x. x ++ l ∷ []) (snapshot_from-Same r' r 0 0 r.count same)

pub snapshot-replaced :
    (l : String) (r : RingBuffer)
    → IsRing r
    → r.size ≤ r.count
    → snapshot (replaced l r) ≡ drop 1 (snapshot r) ++ l ∷ []
unfolding snapshot snapshot_from
snapshot-replaced l r v full =
    let r' = replaced l r in
    let k = r.size - 1 in
    let next = (r.start + 1) % r.size in
    let turn : next ≡ (if ltb (r.start + 1) r.size then r.start + 1 else r.start + 1 - r.size) =
      wrap_lem r.size (r.start + 1) (omega arith) in
    let round : (next + k) % r.size ≡ r.start = ground (arith, turn, wrap_lem r.size (next + k)) in
    let last : slot r' (0 + k) ≡ l =
      at r' (omega arith)
      ∙ ap (get_or r'.buf) round
      ∙ get_or-set_self r.buf r.start l (omega arith) in
    let same : Same r' r 0 1 k = λ j lt.
      let shift : (next + (0 + j)) % r.size ≡ (r.start + (1 + j)) % r.size =
        ground
          (arith, turn, wrap_lem r.size (next + (0 + j)), wrap_lem r.size (r.start + (1 + j))) in
      let other : r.start ≢ (next + (0 + j)) % r.size =
        ground (arith, turn, wrap_lem r.size (next + (0 + j))) in
      get_or-set_other r.buf r.start ((next + (0 + j)) % r.size) l other
      ∙ ap (get_or r.buf) shift in
    let split : snapshot r' ≡ snapshot_from r' 0 (suc k) =
      ap (snapshot_from r' 0) {y = suc k} (omega arith) in
    let before : snapshot r ≡ snapshot_from r 0 (suc k) =
      ap (snapshot_from r 0) {y = suc k} (omega arith) in
    split
    ∙ snapshot_from-suc r' 0 k
    ∙ ap (λ x. snapshot_from r' 0 k ++ x ∷ []) last
    ∙ ap (λ x. x ++ l ∷ []) (snapshot_from-Same r' r 0 1 k same ∙ sym (ap (drop 1) before))

pub appended-IsRing :
    (l : String) (r : RingBuffer) → IsRing r → r.count < r.size → IsRing (appended l r)
appended-IsRing l r v free = ground (arith, length-set r.buf ((r.start + r.count) % r.size) l)

pub replaced-IsRing : (l : String) (r : RingBuffer) → IsRing r → IsRing (replaced l r)
replaced-IsRing l r v = ground (arith, length-set r.buf r.start l, mod-le r.size (r.start + 1))
