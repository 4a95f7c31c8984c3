-- ===== src/Tunnel/Logs.antt =====
-- What the log of a subprocess shows (internal/tunnel/manager.go, ringBuffer).
use onmi_routers.Base.{
  ℕ, zero, suc, ◌-◌, ◌≤◌, ◌<◌, ◌≡◌, refl, sym, ap, ◌∙◌, inl, inr, String, List, [], ◌∷◌, ◌++◌, map,
  arith, ltb, leb, if◌then◌else◌, Bool-cases, length, length-append, drop,
}
use mathlib.Core.Path.{subst}
use mathlib.Core.List.{append-nil, append_assoc}
use onmi_routers.Tunnel.{RingBuffer}
use onmi_routers.Tunnel.Ring.{add, trim_line, snapshot_from, snapshot, reset, new_ring_buffer}
use onmi_routers.Tunnel.Slots.{
  IsRing, add_free, add_full, appended-IsRing, replaced-IsRing, snapshot-appended,
  snapshot-replaced, length-blank,
}

-- The list of the last `n` texts.
pub last_of : ℕ → List String → List String
last_of n ls = drop (length ls - n) ls

drop-append : (n : ℕ) (xs ys : List String) → n ≤ length xs → drop n (xs ++ ys) ≡ drop n xs ++ ys
drop-append zero xs ys h = refl
drop-append (suc n) [] ys h = elim h [ ]
drop-append (suc n) (x ∷ xs) ys h = drop-append n xs ys (omega arith)

drop-drop : (n : ℕ) (xs : List String) → drop 1 (drop n xs) ≡ drop (suc n) xs
drop-drop zero xs = refl
drop-drop (suc n) [] = refl
drop-drop (suc n) (x ∷ xs) = drop-drop n xs

-- What a ring shows after some lines: the last ones, as many as it has room for.
record Shows (size : ℕ) (ls : List String) (r : RingBuffer) : Type 0 where
  ring : IsRing r
  same_size : r.size ≡ size
  counted : r.count ≡ (if leb size (length ls) then size else length ls)
  shown : snapshot r ≡ last_of size ls

last_of-next :
    (n : ℕ) (ls : List String) (l : String)
    → 0 < n
    → n ≤ length ls
    → drop 1 (last_of n ls) ++ l ∷ [] ≡ last_of n (ls ++ l ∷ [])
unfolding last_of
last_of-next n ls l pos le =
    ap (λ x. x ++ l ∷ []) (drop-drop (length ls - n) ls)
    ∙ sym (drop-append (suc (length ls - n)) ls (l ∷ []) (omega arith))
    ∙ ap (λ k. drop k (ls ++ l ∷ [])) {x = suc (length ls - n)}
        (omega (arith, length-append ls (l ∷ [])))

last_of_all : (n : ℕ) (ls : List String) → length ls ≤ n → last_of n ls ≡ ls
unfolding last_of
last_of_all n ls h = let e : length ls - n ≡ 0 = omega arith in rw e refl

add-Shows :
    (size : ℕ) (ls : List String) (line : String) (r : RingBuffer)
    → Shows size ls r
    → Shows size (ls ++ trim_line line ∷ []) (add line r)
add-Shows size ls line r s =
    let l = trim_line line in
    let v = s.ring in
    let longer = length-append ls (l ∷ []) in
    elim (Bool-cases (ltb r.count r.size)) [
      | inl free ↦
          let room : r.count < r.size = ground arith in
          subst (Shows size (ls ++ l ∷ [])) (sym (add_free line r room)) (record {
            ring = appended-IsRing l r v room;
            same_size = s.same_size;
            counted = ground (arith, longer, s.counted, s.same_size);
            shown =
                snapshot-appended l r v room
                ∙ ap (λ x. x ++ l ∷ [])
                    (s.shown ∙ last_of_all size ls (ground (arith, s.counted, s.same_size)))
                ∙ sym (
                    last_of_all size (ls ++ l ∷ [])
                      (ground (arith, longer, s.counted, s.same_size)));
          })
      | inr full ↦
          let none_left : r.size ≤ r.count = ground arith in
          subst (Shows size (ls ++ l ∷ [])) (sym (add_full line r none_left)) (record {
            ring = replaced-IsRing l r v;
            same_size = s.same_size;
            counted = ground (arith, longer, s.counted, s.same_size);
            shown =
                snapshot-replaced l r v none_left
                ∙ ap (λ x. drop 1 x ++ l ∷ []) s.shown
                ∙ last_of-next size ls l (ground (arith, s.same_size))
                    (ground (arith, s.counted, s.same_size));
          })
    ]

-- Lines added in turn.
pub adds : List String → RingBuffer → RingBuffer
adds [] r = r
adds (line ∷ lines) r = adds lines (add line r)

adds-Shows :
    (size : ℕ) (before lines : List String) (r : RingBuffer)
    → Shows size before r
    → Shows size (before ++ map trim_line lines) (adds lines r)
unfolding adds
adds-Shows size before [] r s = subst (λ x. Shows size x r) (sym (append-nil before)) s
adds-Shows size before (line ∷ lines) r s =
    subst (λ x. Shows size x (adds lines (add line r)))
      (append_assoc before (trim_line line ∷ []) (map trim_line lines))
      (adds-Shows size (before ++ trim_line line ∷ []) lines (add line r)
        (add-Shows size before line r s))

reset-IsRing : (r : RingBuffer) → IsRing r → IsRing (reset r)
unfolding reset
reset-IsRing r v = ground arith

reset-Shows : (r : RingBuffer) → IsRing r → Shows r.size [] (reset r)
unfolding reset snapshot snapshot_from last_of
reset-Shows r v = record {
  ring = reset-IsRing r v;
  same_size = refl;
  counted = ground (arith, v.room);
  shown = sym (last_of_all r.size [] (omega arith));
}

add-IsRing : (line : String) (r : RingBuffer) → IsRing r → IsRing (add line r)
add-IsRing line r v = elim (Bool-cases (ltb r.count r.size)) [
  | inl free ↦
      let room : r.count < r.size = ground arith in
      subst IsRing (sym (add_free line r room)) (appended-IsRing (trim_line line) r v room)
  | inr full ↦
      subst IsRing (sym (add_full line r (ground arith))) (replaced-IsRing (trim_line line) r v)
]

add-size : (line : String) (r : RingBuffer) → (add line r).size ≡ r.size
unfolding add
add-size line r = ground arith

adds-IsRing :
    (lines : List String) (r : RingBuffer)
    → IsRing r
    → IsRing (adds lines r) × ((adds lines r).size ≡ r.size)
unfolding adds
adds-IsRing [] r v = (v, refl)
adds-IsRing (line ∷ lines) r v =
    let rest = adds-IsRing lines (add line r) (add-IsRing line r v) in
    (rest.0, rest.1 ∙ add-size line r)

new_ring_buffer-IsRing :
    (n : ℕ) → IsRing (new_ring_buffer (suc n)) × ((new_ring_buffer (suc n)).size ≡ suc n)
unfolding new_ring_buffer
new_ring_buffer-IsRing n = (ground (arith, length-blank (suc n)), ground arith)

-- The log of a process is its last lines: whatever an earlier process has written into a ring made for
-- some lines, after a reset and the lines of the next one the snapshot is the last of these, as many
-- as the ring was made for, in order and each cut to its limit; none is left of the earlier process.
pub snapshot-adds :
    (n : ℕ) (earlier lines : List String)
    → snapshot (adds lines (reset (adds earlier (new_ring_buffer (suc n)))))
      ≡ last_of (suc n) (map trim_line lines)
snapshot-adds n earlier lines =
    let new = new_ring_buffer-IsRing n in
    let used = adds-IsRing earlier (new_ring_buffer (suc n)) new.0 in
    let r = adds earlier (new_ring_buffer (suc n)) in
    let s = adds-Shows r.size [] lines (reset r) (reset-Shows r used.0) in
    s.shown ∙ ap (λ k. last_of k (map trim_line lines)) (used.1 ∙ new.1)
