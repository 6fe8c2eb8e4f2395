-- ===== src/Layout/Types.antt =====
-- `PVType` and `PVTypeState` of pv_layout_headers.h: each is one byte on the device, which may be
-- none of the listed values.
use Prim.Native.Nat.{bit_and}
use yet_another_storage.Prelude.{ℕ, Bool, not, ◌==◌}

abbrev pub int8 : ℕ
int8 = 0

abbrev pub uint8 : ℕ
uint8 = 1

abbrev pub int16 : ℕ
int16 = 2

abbrev pub uint16 : ℕ
uint16 = 3

abbrev pub int32 : ℕ
int32 = 4

abbrev pub uint32 : ℕ
uint32 = 5

abbrev pub float : ℕ
float = 6

abbrev pub double : ℕ
double = 7

abbrev pub int64 : ℕ
int64 = 8

abbrev pub uint64 : ℕ
uint64 = 9

abbrev pub string : ℕ
string = 10

abbrev pub blob : ℕ
blob = 11

abbrev pub inverted_index : ℕ
inverted_index = 12

abbrev pub empty4_simple : ℕ
empty4_simple = 13

abbrev pub empty8_simple : ℕ
empty8_simple = 14

abbrev pub empty_complex : ℕ
empty_complex = 15

-- The states, one bit each.
abbrev pub empty : ℕ
empty = 0x00

abbrev pub is_expired : ℕ
is_expired = 0x01

abbrev pub complex_begin : ℕ
complex_begin = 0x02

abbrev pub complex_sequel : ℕ
complex_sequel = 0x04

-- A test by `operator&`.
abbrev pub has_state : ℕ → ℕ → Bool
has_state value_state s = not (bit_and value_state s == 0)
