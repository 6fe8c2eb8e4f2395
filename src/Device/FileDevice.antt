-- ===== src/Device/FileDevice.antt =====
-- include/storage/lib/devices/FileDevice.hpp: a device over a `std::fstream`, which is a parameter.
-- `Exists`, `CreateEmpty` and `Canonical` only call the file system.
pub mod Works
pub mod Runs
use yet_another_storage.Prelude.{ℕ, Bool, true, false, not, ◌&&◌, List, length, if◌then◌else◌}
use yet_another_storage.Errors.{yas, device_read_error, device_write_error}
use yet_another_storage.Exec.{Exec, ok, throw, pure, raise, gets, modify, ◌>>=◌, ◌>>◌, and_then}

-- The members of `std::fstream` that the code calls; `read` returns what the buffer holds then.
-- `open` is the opening of a path without a buffer, in binary mode, for input and output.
pub record Stream : Type 1 where
  pub FilePath : Type 0
  pub Fs : Type 0
  pub open_path : FilePath → Fs
  pub is_open : Fs → Bool
  pub good : Fs → Bool
  pub eof : Fs → Bool
  pub fail : Fs → Bool
  pub seekg : ℕ → Fs → Fs
  pub read : ℕ → Fs → List ℕ × Fs
  pub seekp : ℕ → Fs → Fs
  pub write : List ℕ → Fs → Fs
  pub flush : Fs → Fs
  pub close : Fs → Fs

module _ (s : Stream) where
  -- The constructor, with `Open`
  unfoldable pub new_device : s.FilePath → s.Fs
  new_device path = s.open_path path

  -- `IsOpen`
  unfoldable pub is_open : s.Fs → Bool
  is_open device = s.is_open device && s.good device

  -- `device_.read`
  abbrev pub stream_read : ℕ → Exec s.Fs (List ℕ)
  stream_read n device = (ok (s.read n device).0, (s.read n device).1)

  -- `Read` of a buffer of `read_size` bytes
  unfoldable pub read : ℕ → ℕ → Exec s.Fs (List ℕ)
  unfolding is_open
  read position read_size = do
    opened ← gets is_open
    if not opened
        then raise (
            yas "Raw device read error: the device hasn't been opened during read"
              device_read_error)
        else (do
          modify (s.seekg position)
          lost ← gets s.eof
          if lost
              then raise (
                  yas "Raw device read error: the device's get cursor position mismath"
                    device_read_error)
              else (do
                bytes ← stream_read read_size
                ended ← gets s.eof
                if ended
                    then raise
                        (yas "Raw device read error: read after the file end" device_read_error)
                    else pure bytes))

  -- `Write`
  unfoldable pub write : ℕ → List ℕ → Exec s.Fs ℕ
  unfolding is_open
  write position bs = do
    opened ← gets is_open
    if not opened
        then raise (
            yas "Raw device write error: the device hasn't been opened during write"
              device_write_error)
        else (do
          modify (s.seekp position)
          lost ← gets s.eof
          if lost
              then raise (
                  yas "Raw device write error: the device's put cursor position mismath"
                    device_write_error)
              else (do
                modify (s.write bs)
                works ← gets s.good
                if not works
                    then raise (
                        yas "Raw device write error: something bad happened during device write"
                          device_write_error)
                    else pure (length bs)))

  -- `Close`
  unfoldable pub close : s.Fs → Bool × s.Fs
  close device = let closed = s.close (s.flush device) in (not (s.fail closed), closed)
