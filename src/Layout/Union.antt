-- ===== src/Layout/Union.antt =====
-- The link that a freed simple entry holds in place of its expiry time and value, and the sizes
-- of the structures.
use yet_another_storage.Prelude.{ℕ, ◌^◌, ◌<◌, ◌≡◌, refl, arith}
use yet_another_storage.Bytes.Packed.{sizeof, InRange}
use yet_another_storage.Layout.{
  CommonTypeHeader, next_free_entry_offset, set_next_free_entry_offset, pv_header, freelist_header,
  simple4_type_header, simple8_type_header, complex_type_header,
}

-- A 64-bit link that is stored over the expiry time and the value of an entry is read from it
-- again.
pub next_free_entry_offset-set :
    (o : ℕ) (h : CommonTypeHeader)
    → o < 2 ^ 64
    → next_free_entry_offset (set_next_free_entry_offset o h) ≡ o
unfolding next_free_entry_offset set_next_free_entry_offset
next_free_entry_offset-set o h r = omega arith

pub set_next_free_entry_offset-InRange4 :
    (o : ℕ) (h : CommonTypeHeader)
    → o < 2 ^ 64
    → InRange simple4_type_header h
    → InRange simple4_type_header (set_next_free_entry_offset o h)
unfolding set_next_free_entry_offset
set_next_free_entry_offset-InRange4 o h r i = omega arith

pub set_next_free_entry_offset-InRange8 :
    (o : ℕ) (h : CommonTypeHeader)
    → o < 2 ^ 64
    → InRange simple8_type_header h
    → InRange simple8_type_header (set_next_free_entry_offset o h)
unfolding set_next_free_entry_offset
set_next_free_entry_offset-InRange8 o h r i = omega arith

-- The sizes that the source asserts.
sizes :
    (sizeof pv_header.widths ≡ 36)
    × (sizeof freelist_header.widths ≡ 88)
    × (sizeof simple4_type_header.widths ≡ 12)
    × (sizeof simple8_type_header.widths ≡ 16)
    × (sizeof complex_type_header.widths ≡ 40)
sizes = (refl, refl, refl, refl, refl)
