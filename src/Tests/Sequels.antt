-- ===== src/Tests/Sequels.antt =====
-- A concrete value in two chunks.
use yet_another_storage.Prelude.{ℕ, ◌≡◌, refl, List, [], ◌∷◌, ◌++◌, replicate, arith}
use yet_another_storage.Exec.{ok}
use yet_another_storage.Bytes.Packed.{save_as_bytes}
use yet_another_storage.Device.{test_device, test_device-IsReliable}
use yet_another_storage.Layout.{ComplexTypeHeader, complex_type_header}
use yet_another_storage.Layout.Types
use yet_another_storage.Reader.{read_complex_type}
use yet_another_storage.Reader.Prefix.{data_prefix}
use yet_another_storage.Reader.Sequels.{
  Piece, PieceAt, SequelsAt, bytes_of, read_complex_type-SequelsAt,
}

-- Eight bytes lie over the link of each header.
abbrev first_header : ComplexTypeHeader
first_header = record {
  value_type = Types.string;
  value_state = Types.complex_begin;
  expired_time_high = 0;
  expired_time_low = 0;
  overall_size = 16;
  chunk_size = 8;
  sequel_offset = 56;
  next_free_entry_offset = 513;
}

abbrev second_header : ComplexTypeHeader
second_header = record {
  value_type = Types.string;
  value_state = Types.complex_sequel;
  expired_time_high = 0;
  expired_time_low = 0;
  overall_size = 8;
  chunk_size = 8;
  sequel_offset = 0;
  next_free_entry_offset = 7;
}

abbrev first_piece : Piece
first_piece = record { header = first_header; bytes = 1 ∷ 2 ∷ 0 ∷ 0 ∷ 0 ∷ 0 ∷ 0 ∷ 0 ∷ [] }

abbrev second_piece : Piece
second_piece = record { header = second_header; bytes = 7 ∷ 0 ∷ 0 ∷ 0 ∷ 0 ∷ 0 ∷ 0 ∷ 0 ∷ [] }

abbrev two_chunks : List ℕ
two_chunks =
    replicate 16 0
    ++ (save_as_bytes complex_type_header first_header
        ++ save_as_bytes complex_type_header second_header)

first-PieceAt : PieceAt test_device test_device-IsReliable 3840 two_chunks 16 first_piece
unfolding save_as_bytes data_prefix
first-PieceAt = record {
  chunk = record {
    addressable = omega arith;
    in_range = omega arith;
    room = omega arith;
    head = (omega arith, refl);
    body = (omega arith, refl);
  };
  some_bytes = omega arith;
  single = refl;
  fits = omega arith;
  small = omega arith;
}

second-PieceAt : PieceAt test_device test_device-IsReliable 3840 two_chunks 56 second_piece
unfolding save_as_bytes data_prefix
second-PieceAt = record {
  chunk = record {
    addressable = omega arith;
    in_range = omega arith;
    room = omega arith;
    head = (omega arith, refl);
    body = (omega arith, refl);
  };
  some_bytes = omega arith;
  single = refl;
  fits = omega arith;
  small = omega arith;
}

read_complex_type-SequelsAt_example :
    read_complex_type test_device 3840 16 two_chunks
    ≡ (ok (1 ∷ 2 ∷ 0 ∷ 0 ∷ 0 ∷ 0 ∷ 0 ∷ 0 ∷ 7 ∷ 0 ∷ 0 ∷ 0 ∷ 0 ∷ 0 ∷ 0 ∷ 0 ∷ []), two_chunks)
unfolding bytes_of SequelsAt
read_complex_type-SequelsAt_example =
    read_complex_type-SequelsAt test_device test_device-IsReliable 3840 16 first_piece
      (second_piece ∷ []) two_chunks first-PieceAt refl (second-PieceAt, refl, tt) refl
