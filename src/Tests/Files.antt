-- ===== src/Tests/Files.antt =====
-- A concrete stream, with a file device on it.
use yet_another_storage.Prelude.{
  ℕ, ◌+◌, ◌≡◌, refl, Bool, true, false, not, ◌||◌, List, [], ◌∷◌, length, arith, leb,
}
use yet_another_storage.Errors.{yas, device_read_error, device_write_error}
use yet_another_storage.Exec.{ok, throw}
use yet_another_storage.Bytes.Slice.{slice, splice}
use yet_another_storage.Device.FileDevice.{Stream, read, write}
use yet_another_storage.Device.FileDevice.Works.{IsReady, IsDocumented, read-beyond_breaks}
use yet_another_storage.Device.FileDevice.Runs.{
  Call, read_at, write_at, file_call, vector_call, run, run-eq-vector,
}

-- An open file: its bytes, the two positions, and whether the stream has met the end.
pub record File : Type 0 where
  pub bytes : List ℕ
  pub get_position : ℕ
  pub put_position : ℕ
  pub ended : Bool

abbrev read_file : ℕ → File → List ℕ × File
read_file n a = (
  slice a.get_position n a.bytes,
  record a { ended = a.ended || not (leb (a.get_position + n) (length a.bytes)) },
)

abbrev files : Stream
files = record {
  FilePath = Unit;
  Fs = File;
  open_path = λ path. record { bytes = []; get_position = 0; put_position = 0; ended = false };
  is_open = λ a. true;
  good = λ a. not a.ended;
  eof = λ a. a.ended;
  fail = λ a. a.ended;
  seekg = λ p a. record a { get_position = p };
  read = read_file;
  seekp = λ p a. record a { put_position = p };
  write = λ bs a. record a { bytes = splice a.put_position bs a.bytes };
  flush = λ a. a;
  close = λ a. a;
}

ready : (a : File) → a.ended ≡ false → IsReady files a
ready a e = record { opened = refl; works = rw e refl; no_end = e }

abbrev files-IsDocumented : IsDocumented files
files-IsDocumented = record {
  content = λ a. a.bytes;
  get_position = λ a. a.get_position;
  put_position = λ a. a.put_position;
  seekg-IsReady = λ p a r h. ready (record a { get_position = p }) r.no_end;
  seekg-content = λ p a r h. (refl, refl);
  seekp-IsReady = λ p a r h. ready (record a { put_position = p }) r.no_end;
  seekp-content = λ p a r h. (refl, refl);
  read-within = λ n a r h. (refl, ready (read_file n a).1 (let e = r.no_end in ground arith), refl);
  read-beyond = λ n a r p h. (ground arith, ground arith);
  write-within =
      λ bs a r h. (ready (record a { bytes = splice a.put_position bs a.bytes }) r.no_end, refl);
}

abbrev three_bytes : File
three_bytes = record { bytes = 1 ∷ 2 ∷ 3 ∷ []; get_position = 0; put_position = 0; ended = false }

abbrev calls : List Call
calls = write_at 3 (4 ∷ 5 ∷ []) ∷ read_at 2 3 ∷ []

run-eq-vector_example :
    (a' : File) × (xs : List (List ℕ)) × (run (file_call files) calls three_bytes ≡ (ok xs, a'))
    × (run vector_call calls (1 ∷ 2 ∷ 3 ∷ []) ≡ (ok xs, a'.bytes))
    × IsReady files a'
run-eq-vector_example =
    run-eq-vector files files-IsDocumented calls three_bytes (ready three_bytes refl)
      (omega arith, (omega arith, omega arith, tt))

read-beyond_breaks_example :
    (a' : File) × (read files 2 2 three_bytes
      ≡ (throw (yas "Raw device read error: read after the file end" device_read_error), a'))
    × ((q m : ℕ)
        → read files q m a' ≡ (
          throw (
              yas "Raw device read error: the device hasn't been opened during read"
                device_read_error),
          a',
        ))
    × ((q : ℕ) (bs : List ℕ)
        → write files q bs a' ≡ (
          throw (
              yas "Raw device write error: the device hasn't been opened during write"
                device_write_error),
          a',
        ))
read-beyond_breaks_example =
    read-beyond_breaks files files-IsDocumented 2 2 three_bytes (ready three_bytes refl)
      (omega arith) (omega arith)
