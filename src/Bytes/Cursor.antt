-- ===== src/Bytes/Cursor.antt =====
-- include/storage/lib/utils/serialization_utils.h: `SaveAsBytes` and `LoadFromBytes` of a structure at
-- a cursor of a buffer, with their guards and the cursors that they return.
use yet_another_storage.Prelude.{
  ℕ, ◌+◌, ◌≤◌, ◌<◌, ◌≡◌, refl, ap, ◌∙◌, sym, List, length, ltb, if◌then◌else◌, arith, true, false,
}
use yet_another_storage.Bytes.Slice.{
  slice, splice, slice-splice_self, slice-splice_before, slice-splice_behind, length-splice,
}
use yet_another_storage.Bytes.Packed.{
  Packed, sizeof, InRange, save_as_bytes, load_from_bytes, length-save_as_bytes,
  load_from_bytes-save_as_bytes,
}

-- `SaveAsBytes` into the buffer from the cursor on: the buffer and the cursor that is returned, which
-- is the end where the structure does not fit.
unfoldable pub save_at : {H : Type 0} → Packed H → ℕ → H → List ℕ → List ℕ × ℕ
save_at P cursor h buffer = (
  if ltb (length buffer) (cursor + sizeof P.widths)
      then buffer
      else splice cursor (save_as_bytes P h) buffer,
  if ltb (length buffer) (cursor + sizeof P.widths)
      then length buffer
      else cursor + sizeof P.widths,
)

-- `LoadFromBytes` over a structure: what it holds then, and the cursor that is returned, which is the
-- same where the buffer ends too early.
unfoldable pub load_at : {H : Type 0} → Packed H → ℕ → List ℕ → H → H × ℕ
load_at P cursor buffer old = (
  if ltb (length buffer) (cursor + sizeof P.widths)
      then old
      else load_from_bytes P (slice cursor (sizeof P.widths) buffer),
  if ltb (length buffer) (cursor + sizeof P.widths) then cursor else cursor + sizeof P.widths,
)

-- Where a structure fits behind the cursor, `SaveAsBytes` keeps the length of the buffer and all bytes
-- before and behind the structure, and `LoadFromBytes` at the same cursor reads it back, whatever it
-- is read over; both return the cursor behind it.
pub load_at-save_at :
    {H : Type 0} (P : Packed H) (h old : H) (cursor : ℕ) (buffer : List ℕ)
    → InRange P h
    → cursor + sizeof P.widths ≤ length buffer
    → (load_at P cursor (save_at P cursor h buffer).0 old ≡ (h, cursor + sizeof P.widths))
      × ((save_at P cursor h buffer).1 ≡ cursor + sizeof P.widths)
      × (length (save_at P cursor h buffer).0 ≡ length buffer)
      × ((q n : ℕ) → q + n ≤ cursor → slice q n (save_at P cursor h buffer).0 ≡ slice q n buffer)
      × ((q n : ℕ)
          → cursor + sizeof P.widths ≤ q
          → slice q n (save_at P cursor h buffer).0 ≡ slice q n buffer)
unfolding save_at load_at
load_at-save_at P h old cursor buffer r fits =
    let bs = save_as_bytes P h in
    let sized = length-save_as_bytes P h r in
    let room : ltb (length buffer) (cursor + sizeof P.widths) ≡ false = ground arith in
    let grown = length-splice cursor bs buffer (omega arith) in
    let long : length (splice cursor bs buffer) ≡ length buffer = omega arith in
    let room' : ltb (length (splice cursor bs buffer)) (cursor + sizeof P.widths) ≡ false =
      rw long room in
    let back : slice cursor (sizeof P.widths) (splice cursor bs buffer) ≡ bs =
      ap (λ k. slice cursor k (splice cursor bs buffer)) (sym sized)
      ∙ slice-splice_self cursor bs buffer (omega arith) in
    (
      rw room (
          rw room' (
            ap (λ x. (load_from_bytes P x, cursor + sizeof P.widths)) back
            ∙ ap (λ x. (x, cursor + sizeof P.widths)) (load_from_bytes-save_as_bytes P h r))),
      rw room refl,
      rw room long,
      (λ q n b. rw room (slice-splice_before cursor q n bs buffer (omega arith) b)),
      (λ q n b. rw room (slice-splice_behind cursor q n bs buffer (omega arith) (omega arith))),
    )

-- Where a structure does not fit behind the cursor, nothing is saved and the end is returned, and
-- nothing is loaded and the cursor is returned.
pub load_at-save_at_short :
    {H : Type 0} (P : Packed H) (h old : H) (cursor : ℕ) (buffer : List ℕ)
    → length buffer < cursor + sizeof P.widths
    → (save_at P cursor h buffer ≡ (buffer, length buffer))
      × (load_at P cursor buffer old ≡ (old, cursor))
unfolding save_at load_at
load_at-save_at_short P h old cursor buffer short =
    let none : ltb (length buffer) (cursor + sizeof P.widths) ≡ true = ground arith in
    (rw none refl, rw none refl)
