-- ===== src/Sdk/Uploads/Chunks.antt =====
-- The bytes of one part, and how the parts of a file fit together.
use motionmesh.Base.{
  ℕ, zero, suc, ◌+◌, ◌-◌, ◌*◌, ◌≤◌, min, ◌≡◌, refl, sym, ap, ◌∙◌, List, [], ◌∷◌, ◌++◌, arith,
  length, take, drop, concat,
}
use motionmesh.Base.Lists.{length-drop, take_of_le, drop_of_le, drop-drop}
use motionmesh.Base.Ints.{pos-add, pos-sub, pos-mul}
use motionmesh.Js.Number.{nat}
use native.Mathlib.Decide.{dec_le}
use native.Mathlib.Nat.{le_refl}
use motionmesh.Http.{File}
use motionmesh.Sdk.Uploads.{file, slice, part_start, part_end, part_chunk}

take_nil : (n : ℕ) → take {A = ℕ} n [] ≡ []
take_nil zero = refl
take_nil (suc n) = refl

take-add : (m n : ℕ) (xs : List ℕ) → take (m + n) xs ≡ take m xs ++ take n (drop m xs)
take-add zero n xs = let e : 0 + n ≡ n = omega arith in rw e
take-add (suc m) n [] = take_nil (suc m + n) ∙ sym (take_nil n)
take-add (suc m) n (x ∷ xs) =
    let e : suc m + n ≡ suc (m + n) = omega arith in rw e (ap (λ l. x ∷ l) (take-add m n xs))

take-min-length : (n : ℕ) (xs : List ℕ) → take (min n (length xs)) xs ≡ take n xs
take-min-length zero xs = let e : min 0 (length xs) ≡ 0 = omega arith in rw e
take-min-length (suc n) [] = let e : min (suc n) 0 ≡ 0 = omega arith in rw e
take-min-length (suc n) (x ∷ xs) =
    let e : min (suc n) (suc (length xs)) ≡ suc (min n (length xs)) = omega arith in
    rw e (ap (λ l. x ∷ l) (take-min-length n xs))

part_start_lem : (k p : ℕ) → part_start (nat (suc k)) (nat p) ≡ nat (k * p)
part_start_lem k p =
    let e : suc k - 1 ≡ k = omega arith in rw (pos-sub (suc k) 1 (omega arith), e, pos-mul k p)

part_end_lem : (s p size : ℕ) → part_end (nat s) (nat p) (nat size) ≡ nat (min (s + p) size)
part_end_lem s p size = rw (pos-add s p) (ground arith)

-- A slice between two counts: at most `p` members from place `s` on.
slice_lem :
    (bs : List ℕ) (s p : ℕ) → slice bs (nat s) (nat (min (s + p) (length bs))) ≡ take p (drop s bs)
slice_lem bs s p = elim (dec_le s (length bs)) [
  | yes h ↦
      let e : min s (length bs) ≡ s = omega arith in
      let c : min (min (s + p) (length bs)) (length bs) - s ≡ min p (length bs - s) = omega arith in
      rw (e, c, ← length-drop s bs) (take-min-length p (drop s bs))
  | no h ↦
      let e : min s (length bs) ≡ length bs = omega arith in
      rw (e, drop_of_le (length bs) bs (le_refl (length bs)), drop_of_le s bs (omega arith))
        (take_nil _ ∙ sym (take_nil p))
]

-- Part `k + 1` of a file holds the bytes from `k * p` on, at most `p` of them.
pub part_chunk_lem :
    (f : File) (k p : ℕ) → part_chunk (file f) (nat p) (nat (suc k)) ≡ take p (drop (k * p) f.bytes)
part_chunk_lem f k p =
    let size = length f.bytes in
    ap (λ s. slice f.bytes s (part_end s (nat p) (nat size))) (part_start_lem k p)
    ∙ ap (λ e. slice f.bytes (nat (k * p)) e) (part_end_lem (k * p) p size)
    ∙ slice_lem f.bytes (k * p) p

-- A text of bytes cut into `n` pieces of `p`, from place `k * p` on.
abbrev pub pieces : List ℕ → ℕ → ℕ → ℕ → List (List ℕ)
pieces bs p k zero = []
pieces bs p k (suc n) = take p (drop (k * p) bs) ∷ pieces bs p (suc k) n

concat-pieces :
    (bs : List ℕ) (p k n : ℕ) → concat (pieces bs p k n) ≡ take (n * p) (drop (k * p) bs)
concat-pieces bs p k zero = let e : 0 * p ≡ 0 = omega arith in rw e
concat-pieces bs p k (suc n) =
    let e : suc n * p ≡ p + n * p = grind arith in
    let d : k * p + p ≡ suc k * p = grind arith in
    let s : drop p (drop (k * p) bs) ≡ drop (suc k * p) bs = drop-drop p (k * p) bs ∙ rw d in
    rw (e, take-add p (n * p) (drop (k * p) bs), s)
      (ap (λ l. take p (drop (k * p) bs) ++ l) (concat-pieces bs p (suc k) n))

-- Enough pieces hold all.
pub concat-pieces_all : (bs : List ℕ) (p n : ℕ) → length bs ≤ n * p → concat (pieces bs p 0 n) ≡ bs
concat-pieces_all bs p n h =
    let e : 0 * p ≡ 0 = omega arith in concat-pieces bs p 0 n ∙ rw e (take_of_le (n * p) bs h)
