-- ===== src/Device/TestDevice.antt =====
-- include/storage/lib/devices/TestDevice.hpp: a device over a vector of bytes.
use yet_another_storage.Prelude.{
  ℕ, ◌+◌, ◌≤◌, ◌<◌, ◌^◌, ◌%◌, ◌≡◌, refl, ap, sym, List, [], ◌∷◌, ◌++◌, length, take, drop, ltb,
  ◌==◌, if◌then◌else◌, arith, Bool-cases, inl, inr,
}
use mathlib.Core.List.{append-nil}
use yet_another_storage.Bytes.Slice.{take-length, slice, splice, drop-nil}
use yet_another_storage.Errors.{yas, device_read_error, device_write_error}
use yet_another_storage.Exec.{Exec, ok, throw}

-- `Read`. The sum of the position and the size is a 64-bit number, which may wrap.
unfoldable pub read : ℕ → ℕ → Exec (List ℕ) (List ℕ)
read position read_size storage =
    if ltb (length storage) ((position + read_size) % 2 ^ 64)
    then (throw (yas "The device's get cursor position mismath" device_read_error), storage)
    else (ok (slice position read_size storage), storage)

-- The two loops of `Write`: over the stored bytes from the position on, while there are bytes to
-- write, and then at the end of the storage.
unfoldable pub overwrite : List ℕ → List ℕ → List ℕ
overwrite [] bs = bs
overwrite (x ∷ xs) [] = x ∷ xs
overwrite (x ∷ xs) (b ∷ bs) = b ∷ overwrite xs bs

-- `Write`
unfoldable pub write : ℕ → List ℕ → Exec (List ℕ) ℕ
unfolding overwrite
write position bs storage =
    if ltb (length storage) position
    then (throw (yas "The device hasn't been opened during write" device_write_error), storage)
    else if position == length storage
    then (ok (length bs), storage ++ bs)
    else (ok (length bs), take position storage ++ overwrite (drop position storage) bs)

overwrite-eq-splice : (xs bs : List ℕ) → overwrite xs bs ≡ bs ++ drop (length bs) xs
unfolding overwrite
overwrite-eq-splice [] [] = refl
overwrite-eq-splice [] (b ∷ bs) = sym (append-nil (b ∷ bs))
overwrite-eq-splice (x ∷ xs) [] = refl
overwrite-eq-splice (x ∷ xs) (b ∷ bs) = ap (◌∷◌ b) (overwrite-eq-splice xs bs)

drop-length : (l : List ℕ) → drop (length l) l ≡ []
drop-length [] = refl
drop-length (x ∷ l) = drop-length l

append-eq-splice : (bs l : List ℕ) → l ++ bs ≡ splice (length l) bs l
append-eq-splice bs l = rw (take-length l, drop-length l, drop-nil (length bs), append-nil bs) refl

-- `Write` writes the bytes over the stored ones from the position on and lengthens the storage
-- where they reach beyond its end, for every position up to that end.
pub write-eq-splice :
    (p : ℕ) (bs l : List ℕ) → p ≤ length l → write p bs l ≡ (ok (length bs), splice p bs l)
unfolding write
write-eq-splice p bs l h = elim (Bool-cases (p == length l)) [
  | inl e ↦
      let e' : p ≡ length l = ground arith in
      ground (arith, append-eq-splice bs l, ap (λ (q : ℕ). splice q bs l) e')
  | inr e ↦ ground (arith, overwrite-eq-splice (drop p l) bs)
]

-- A position behind the end is refused, and nothing is written.
pub write_behind :
    (p : ℕ) (bs l : List ℕ)
    → length l < p
    → write p bs l
      ≡ (throw (yas "The device hasn't been opened during write" device_write_error), l)
unfolding write
write_behind p bs l h = ground arith

-- `Read` returns the bytes at the position, when they are all stored and no sum wraps.
pub read-eq-slice :
    (p n : ℕ) (l : List ℕ) → p + n ≤ length l → p + n < 2 ^ 64 → read p n l ≡ (ok (slice p n l), l)
unfolding read
read-eq-slice p n l h k = ground arith
