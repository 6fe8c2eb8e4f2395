-- ===== src/Entries/Types.antt =====
-- include/storage/lib/physical_volume/EntriesTypeConverter.hpp and lib/common/common.h: the values
-- of the storage and the types that the volume keeps them as.
use yet_another_storage.Prelude.{ℕ, ◌%◌, ◌==◌, List, if◌then◌else◌, ◌≡◌, refl}
use yet_another_storage.Errors.{yas, corrupted_header_error}
use yet_another_storage.Exec.{Exec, pure, raise}
use yet_another_storage.Bytes.Packed.{byte_bound}
use yet_another_storage.Layout.Types

pub data SimpleType : Type 0 where
  int8 uint8 int16 uint16 int32 uint32 float int64 uint64 double : SimpleType

-- `storage_value_type` and `EntryType`: a number or a float is its bit pattern.
pub data StorageValue : Type 0 where
  simple : SimpleType → ℕ → StorageValue
  string blob : List ℕ → StorageValue

-- An alternative of `EntryType` without its value.
pub data EntryKind : Type 0 where
  simple_kind : SimpleType → EntryKind
  string_kind blob_kind : EntryKind

-- `PVType` of an alternative.
abbrev pub simple_code : SimpleType → ℕ
simple_code int8 = Types.int8
simple_code uint8 = Types.uint8
simple_code int16 = Types.int16
simple_code uint16 = Types.uint16
simple_code int32 = Types.int32
simple_code uint32 = Types.uint32
simple_code float = Types.float
simple_code int64 = Types.int64
simple_code uint64 = Types.uint64
simple_code double = Types.double

-- `sizeof(ValueType)`
abbrev pub value_size : SimpleType → ℕ
value_size int8 = 1
value_size uint8 = 1
value_size int16 = 2
value_size uint16 = 2
value_size int32 = 4
value_size uint32 = 4
value_size float = 4
value_size int64 = 8
value_size uint64 = 8
value_size double = 8

-- `HeaderType`: the size of the value in the header of a simple type.
abbrev pub header_width : SimpleType → ℕ
header_width int64 = 8
header_width uint64 = 8
header_width double = 8
header_width _ = 4

abbrev pub unsupported : {S A : Type 0} → Exec S A
unsupported =
    raise (yas "Corrupted storage header type: the unsupported entry type" corrupted_header_error)

-- `ConvertToEntryType(PVType)`
unfoldable pub convert_to_entry_type : {S : Type 0} → ℕ → Exec S EntryKind
convert_to_entry_type pv_type =
    if pv_type == Types.int8
    then pure (simple_kind int8)
    else if pv_type == Types.uint8
    then pure (simple_kind uint8)
    else if pv_type == Types.int16
    then pure (simple_kind int16)
    else if pv_type == Types.uint16
    then pure (simple_kind uint16)
    else if pv_type == Types.int32
    then pure (simple_kind int32)
    else if pv_type == Types.uint32
    then pure (simple_kind uint32)
    else if pv_type == Types.float
    then pure (simple_kind float)
    else if pv_type == Types.int64
    then pure (simple_kind int64)
    else if pv_type == Types.uint64
    then pure (simple_kind uint64)
    else if pv_type == Types.double
    then pure (simple_kind double)
    else if pv_type == Types.string
    then pure string_kind
    else if pv_type == Types.blob
    then pure blob_kind
    else unsupported

-- `ConvertToEntryType(PVType, Type)`, for the value of a simple header: the cast keeps the low bytes.
unfoldable pub convert_value : {S : Type 0} → ℕ → ℕ → Exec S StorageValue
convert_value pv_type value =
    let cast : SimpleType → StorageValue = λ t. simple t (value % byte_bound (value_size t)) in
    if pv_type == Types.int8
    then pure (cast int8)
    else if pv_type == Types.uint8
    then pure (cast uint8)
    else if pv_type == Types.int16
    then pure (cast int16)
    else if pv_type == Types.uint16
    then pure (cast uint16)
    else if pv_type == Types.int32
    then pure (cast int32)
    else if pv_type == Types.uint32
    then pure (cast uint32)
    else if pv_type == Types.float
    then pure (cast float)
    else if pv_type == Types.int64
    then pure (cast int64)
    else if pv_type == Types.uint64
    then pure (cast uint64)
    else if pv_type == Types.double
    then pure (cast double)
    else unsupported

-- `ConvertToEntryType<ByteVector>`
unfoldable pub convert_bytes : {S : Type 0} → ℕ → List ℕ → Exec S StorageValue
convert_bytes pv_type bs =
    if pv_type == Types.string
    then pure (string bs)
    else if pv_type == Types.blob
    then pure (blob bs)
    else unsupported

-- The type byte of a simple value is converted back to its type.
pub convert_to_entry_type-simple_code :
    {S : Type 0} (t : SimpleType) (s : S)
    → convert_to_entry_type (simple_code t) s ≡ pure (simple_kind t) s
unfolding convert_to_entry_type
convert_to_entry_type-simple_code int8 s = refl
convert_to_entry_type-simple_code _ s = refl

pub convert_value-simple_code :
    {S : Type 0} (t : SimpleType) (v : ℕ) (s : S)
    → convert_value (simple_code t) v s ≡ pure (simple t (v % byte_bound (value_size t))) s
unfolding convert_value
convert_value-simple_code int8 v s = refl
convert_value-simple_code _ v s = refl
