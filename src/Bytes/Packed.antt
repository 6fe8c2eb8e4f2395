-- ===== src/Bytes/Packed.antt =====
-- include/storage/lib/utils/serialization_utils.h: a packed structure as the bytes of its fields,
-- in their order, each field with the low byte first, as on the machines that the layout is for.
use yet_another_storage.Prelude.{
  ℕ, zero, suc, ◌+◌, ◌*◌, ◌/◌, ◌%◌, ◌<◌, ◌≡◌, refl, ap, ◌∙◌, subst, List, [], ◌∷◌, ◌++◌, length,
  take, drop, arith, length-append,
}
use mathlib.Core.List.{append_assoc}
use yet_another_storage.Bytes.Slice.{take-append, drop-append}

-- A field of `w` bytes.
unfoldable pub to_bytes : ℕ → ℕ → List ℕ
to_bytes zero v = []
to_bytes (suc w) v = (v % 256) ∷ to_bytes w (v / 256)

unfoldable pub from_bytes : List ℕ → ℕ
from_bytes [] = 0
from_bytes (b ∷ bs) = b + 256 * from_bytes bs

-- The number of values of a field of `w` bytes.
abbrev pub byte_bound : ℕ → ℕ
byte_bound zero = 1
byte_bound (suc w) = 256 * byte_bound w

-- `AsBytes` of a structure whose fields have the widths and the values given.
unfoldable pub pack : List ℕ → List ℕ → List ℕ
unfolding to_bytes
pack [] vs = []
pack (w ∷ ws) [] = []
pack (w ∷ ws) (v ∷ vs) = to_bytes w v ++ pack ws vs

-- The fields of the structure that the bytes are copied to.
unfoldable pub unpack : List ℕ → List ℕ → List ℕ
unfolding from_bytes
unpack [] bs = []
unpack (w ∷ ws) bs = from_bytes (take w bs) ∷ unpack ws (drop w bs)

abbrev pub sizeof : List ℕ → ℕ
sizeof [] = 0
sizeof (w ∷ ws) = w + sizeof ws

-- Values that fit in their fields.
abbrev pub Fits : List ℕ → List ℕ → Type 0
Fits [] [] = Unit
Fits [] (v ∷ vs) = ⊥
Fits (w ∷ ws) [] = ⊥
Fits (w ∷ ws) (v ∷ vs) = (v < byte_bound w) × Fits ws vs

pub length-to_bytes : (w v : ℕ) → length (to_bytes w v) ≡ w
unfolding to_bytes
length-to_bytes zero v = refl
length-to_bytes (suc w) v = ap suc (length-to_bytes w (v / 256))

pub from_bytes-to_bytes : (w v : ℕ) → v < byte_bound w → from_bytes (to_bytes w v) ≡ v
unfolding from_bytes to_bytes
from_bytes-to_bytes zero v h = omega arith
from_bytes-to_bytes (suc w) v h = omega (arith, from_bytes-to_bytes w (v / 256) (omega arith))

pub length-pack : (ws vs : List ℕ) → Fits ws vs → length (pack ws vs) ≡ sizeof ws
unfolding pack
length-pack [] [] h = refl
length-pack [] (v ∷ vs) h = refl
length-pack (w ∷ ws) [] h = absurd h
length-pack (w ∷ ws) (v ∷ vs) h = omega (
  arith,
  length-append {0} (to_bytes w v) (pack ws vs),
  length-to_bytes w v,
  length-pack ws vs h.1,
)

parts :
    (xs ys : List ℕ) (n : ℕ) → length xs ≡ n → (take n (xs ++ ys) ≡ xs) × (drop n (xs ++ ys) ≡ ys)
parts xs ys n h =
    subst (λ m. (take m (xs ++ ys) ≡ xs) × (drop m (xs ++ ys) ≡ ys)) h
      (take-append xs ys, drop-append xs ys)

-- A structure is what its bytes are copied back to.
pub unpack-pack : (ws vs : List ℕ) → Fits ws vs → unpack ws (pack ws vs) ≡ vs
unfolding unpack pack
unpack-pack [] [] h = refl
unpack-pack [] (v ∷ vs) h = absurd h
unpack-pack (w ∷ ws) [] h = absurd h
unpack-pack (w ∷ ws) (v ∷ vs) h =
    let (first, rest) = parts (to_bytes w v) (pack ws vs) w (length-to_bytes w v) in
    rw (first, rest, from_bytes-to_bytes w v h.0, unpack-pack ws vs h.1) refl

-- The first fields, whatever bytes follow them.
pub unpack-pack_append :
    (ws us vs ys : List ℕ) → Fits ws vs → unpack (ws ++ us) (pack ws vs ++ ys) ≡ vs ++ unpack us ys
unfolding unpack pack
unpack-pack_append [] us [] ys h = refl
unpack-pack_append [] us (v ∷ vs) ys h = absurd h
unpack-pack_append (w ∷ ws) us [] ys h = absurd h
unpack-pack_append (w ∷ ws) us (v ∷ vs) ys h =
    let (first, rest) = parts (to_bytes w v) (pack ws vs ++ ys) w (length-to_bytes w v) in
    rw append_assoc
      (rw (first, rest, from_bytes-to_bytes w v h.0, unpack-pack_append ws us vs ys h.1) refl)

-- The bytes of the fields of two lists.
pub pack-append :
    (ws us vs xs : List ℕ) → Fits ws vs → pack (ws ++ us) (vs ++ xs) ≡ pack ws vs ++ pack us xs
unfolding pack
pack-append [] us [] xs h = refl
pack-append [] us (v ∷ vs) xs h = absurd h
pack-append (w ∷ ws) us [] xs h = absurd h
pack-append (w ∷ ws) us (v ∷ vs) xs h = rw (pack-append ws us vs xs h.1, append_assoc) refl

-- A structure type: the widths of its fields, and the structure as the values of the fields.
pub record Packed (H : Type 0) : Type 0 where
  pub widths : List ℕ
  pub fields : H → List ℕ
  pub make : List ℕ → H
  pub make-fields : (h : H) → make (fields h) ≡ h

-- The bytes of a structure, which `AsBytes` ranges over, and the structure that `LoadFromBytes` copies
-- its bytes into.
unfoldable pub save_as_bytes : {H : Type 0} → Packed H → H → List ℕ
unfolding pack
save_as_bytes P h = pack P.widths (P.fields h)

unfoldable pub load_from_bytes : {H : Type 0} → Packed H → List ℕ → H
unfolding unpack
load_from_bytes P bs = P.make (unpack P.widths bs)

-- Each field of a structure holds a value of its type.
abbrev pub InRange : {H : Type 0} → Packed H → H → Type 0
InRange P h = Fits P.widths (P.fields h)

-- A structure whose fields are in range is loaded from its bytes as it was saved.
pub load_from_bytes-save_as_bytes :
    {H : Type 0} (P : Packed H) (h : H) → InRange P h → load_from_bytes P (save_as_bytes P h) ≡ h
unfolding load_from_bytes save_as_bytes
load_from_bytes-save_as_bytes P h r =
    ap P.make (unpack-pack P.widths (P.fields h) r) ∙ P.make-fields h

pub length-save_as_bytes :
    {H : Type 0} (P : Packed H) (h : H) → InRange P h → length (save_as_bytes P h) ≡ sizeof P.widths
unfolding save_as_bytes
length-save_as_bytes P h r = length-pack P.widths (P.fields h) r
