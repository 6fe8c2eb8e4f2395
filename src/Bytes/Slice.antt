-- ===== src/Bytes/Slice.antt =====
-- Reads and writes of a part of a byte sequence.
use yet_another_storage.Prelude.{
  ℕ, zero, suc, ◌+◌, ◌-◌, ◌≤◌, ◌≡◌, refl, ap, sym, List, [], ◌∷◌, ◌++◌, length, take, drop, max,
  arith, length-append, length-take, length-drop, subst, ◌∙◌, take-append-drop,
}
use mathlib.Core.Path.{ap₂}

-- `n` bytes from the offset `p` on, and the bytes with others written over them from `p` on.
abbrev pub slice : ℕ → ℕ → List ℕ → List ℕ
slice p n l = take n (drop p l)

abbrev pub splice : ℕ → List ℕ → List ℕ → List ℕ
splice p bs l = take p l ++ (bs ++ drop (length bs) (drop p l))

pub take-length : (l : List ℕ) → take (length l) l ≡ l
take-length [] = refl
take-length (x ∷ l) = ap (◌∷◌ x) (take-length l)

pub take-append : (xs ys : List ℕ) → take (length xs) (xs ++ ys) ≡ xs
take-append [] ys = refl
take-append (x ∷ xs) ys = ap (◌∷◌ x) (take-append xs ys)

pub drop-append : (xs ys : List ℕ) → drop (length xs) (xs ++ ys) ≡ ys
drop-append [] ys = refl
drop-append (x ∷ xs) ys = drop-append xs ys

pub length-slice : (p n : ℕ) (l : List ℕ) → p + n ≤ length l → length (slice p n l) ≡ n
length-slice p n l h = omega (arith, length-take {0} n (drop p l), length-drop {0} p l)

pub length-splice :
    (p : ℕ) (bs l : List ℕ) → p ≤ length l → length (splice p bs l) ≡ max (length l) (p + length bs)
length-splice p bs l h = omega (
  arith,
  length-append {0} (take p l) (bs ++ drop (length bs) (drop p l)),
  length-append {0} bs (drop (length bs) (drop p l)),
  length-take {0} p l,
  length-drop {0} (length bs) (drop p l),
  length-drop {0} p l,
)

-- What was written is read back.
pub slice-splice_self :
    (p : ℕ) (bs l : List ℕ) → p ≤ length l → slice p (length bs) (splice p bs l) ≡ bs
slice-splice_self zero bs l h = take-append bs (drop (length bs) l)
slice-splice_self (suc p) bs [] h = absurd (omega arith)
slice-splice_self (suc p) bs (x ∷ l) h = slice-splice_self p bs l (omega arith)

-- A write leaves the bytes before it and behind it.
pub slice-splice_before :
    (p q n : ℕ) (bs l : List ℕ) → p ≤ length l → q + n ≤ p → slice q n (splice p bs l) ≡ slice q n l
slice-splice_before zero zero zero bs l h k = refl
slice-splice_before zero zero (suc n) bs l h k = absurd (omega arith)
slice-splice_before zero (suc q) n bs l h k = absurd (omega arith)
slice-splice_before (suc p) q n bs [] h k = absurd (omega arith)
slice-splice_before (suc p) zero zero bs (x ∷ l) h k = refl
slice-splice_before (suc p) zero (suc n) bs (x ∷ l) h k =
    ap (◌∷◌ x) (slice-splice_before p zero n bs l (omega arith) (omega arith))
slice-splice_before (suc p) (suc q) n bs (x ∷ l) h k =
    slice-splice_before p q n bs l (omega arith) (omega arith)

pub drop-nil : (n : ℕ) → drop {A = ℕ} n [] ≡ []
drop-nil zero = refl
drop-nil (suc n) = refl

drop-append_drop :
    (q : ℕ) (bs l : List ℕ) → length bs ≤ q → drop q (bs ++ drop (length bs) l) ≡ drop q l
drop-append_drop q [] l h = refl
drop-append_drop zero (b ∷ bs) l h = absurd (omega arith)
drop-append_drop (suc q) (b ∷ bs) [] h =
    subst (λ r. drop q (bs ++ r) ≡ drop q []) (drop-nil (length bs))
      (drop-append_drop q bs [] (omega arith))
    ∙ drop-nil q
drop-append_drop (suc q) (b ∷ bs) (x ∷ l) h = drop-append_drop q bs l (omega arith)

pub slice-splice_behind :
    (p q n : ℕ) (bs l : List ℕ)
    → p ≤ length l
    → p + length bs ≤ q
    → slice q n (splice p bs l) ≡ slice q n l
slice-splice_behind zero q n bs l h k = rw (drop-append_drop q bs l (omega arith)) refl
slice-splice_behind (suc p) q n bs [] h k = absurd (omega arith)
slice-splice_behind (suc p) zero n bs (x ∷ l) h k = absurd (omega arith)
slice-splice_behind (suc p) (suc q) n bs (x ∷ l) h k =
    slice-splice_behind p q n bs l (omega arith) (omega arith)

take-take : (n k : ℕ) (l : List ℕ) → n ≤ k → take n (take k l) ≡ take n l
take-take zero k l h = refl
take-take (suc n) zero l h = absurd (omega arith)
take-take (suc n) (suc k) [] h = refl
take-take (suc n) (suc k) (x ∷ l) h = ap (◌∷◌ x) (take-take n k l (omega arith))

drop-take : (n m k : ℕ) (l : List ℕ) → k ≡ n + m → drop n (take k l) ≡ take m (drop n l)
drop-take zero m k l h = ap (λ (t : ℕ). take t l) (omega arith)
drop-take (suc n) m zero l h = absurd (omega arith)
drop-take (suc n) zero (suc k) [] h = refl
drop-take (suc n) (suc m) (suc k) [] h = refl
drop-take (suc n) m (suc k) (x ∷ l) h = drop-take n m k l (omega arith)

drop-drop : (p n k : ℕ) (l : List ℕ) → k ≡ p + n → drop n (drop p l) ≡ drop k l
drop-drop zero n k l h = ap (λ (t : ℕ). drop t l) (omega arith)
drop-drop (suc p) n zero l h = absurd (omega arith)
drop-drop (suc p) n (suc k) [] h = drop-nil n
drop-drop (suc p) n (suc k) (x ∷ l) h = drop-drop p n k l (omega arith)

-- The parts of a sequence that stands at an offset stand at theirs.
pub slice-left :
    (p : ℕ) (xs ys l : List ℕ)
    → slice p (length (xs ++ ys)) l ≡ xs ++ ys
    → slice p (length xs) l ≡ xs
slice-left p xs ys l h =
    let le : length xs ≤ length (xs ++ ys) = omega (arith, length-append {0} xs ys) in
    sym (take-take (length xs) (length (xs ++ ys)) (drop p l) le)
    ∙ ap (take (length xs)) h
    ∙ take-append xs ys

pub slice-right :
    (p : ℕ) (xs ys l : List ℕ)
    → slice p (length (xs ++ ys)) l ≡ xs ++ ys
    → slice (p + length xs) (length ys) l ≡ ys
slice-right p xs ys l h =
    ap (take (length ys)) (sym (drop-drop p (length xs) (p + length xs) l refl))
    ∙ sym (drop-take (length xs) (length ys) (length (xs ++ ys)) (drop p l) (length-append xs ys))
    ∙ ap (drop (length xs)) h
    ∙ drop-append xs ys

pub slice-add :
    (p n m : ℕ) (l : List ℕ)
    → p + (n + m) ≤ length l
    → slice p (n + m) l ≡ slice p n l ++ slice (p + n) m l
slice-add p n m l h =
    sym (take-append-drop n (slice p (n + m) l))
    ∙ ap₂ ◌++◌ (take-take n (n + m) (drop p l) (omega arith))
        (drop-take n m (n + m) (drop p l) refl ∙ ap (take m) (drop-drop p n (p + n) l refl))

-- A part of a part.
pub slice-slice :
    (p k q m : ℕ) (l : List ℕ) → q + m ≤ k → slice q m (slice p k l) ≡ slice (p + q) m l
slice-slice p k q m l h =
    ap (take m) (drop-take q (k - q) k (drop p l) (omega arith))
    ∙ take-take m (k - q) (drop q (drop p l)) (omega arith)
    ∙ ap (take m) (drop-drop p q (p + q) l refl)

-- A part of what was written.
pub slice-splice_within :
    (p q m : ℕ) (bs l : List ℕ)
    → p ≤ length l
    → q + m ≤ length bs
    → slice (p + q) m (splice p bs l) ≡ slice q m bs
slice-splice_within p q m bs l h k =
    sym (slice-slice p (length bs) q m (splice p bs l) k)
    ∙ ap (slice q m) (slice-splice_self p bs l h)
