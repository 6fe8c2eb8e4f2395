-- ===== src/Device.antt =====
-- What the physical volume needs of a device, the template argument `Device` of its classes: raw
-- reads and writes at an offset, which may throw and may change the device.
pub mod TestDevice
pub mod FileDevice
use yet_another_storage.Prelude.{
  ℕ, ◌+◌, ◌≤◌, ◌<◌, ◌^◌, ◌≡◌, refl, List, ◌++◌, length, take, drop, max,
}
use yet_another_storage.Bytes.Slice.{slice, splice}
use yet_another_storage.Exec.{Exec, ok}

pub record Device : Type 1 where
  pub Dev : Type 0
  pub read : ℕ → ℕ → Exec Dev (List ℕ)
  pub write : ℕ → List ℕ → Exec Dev ℕ

-- A device that works: its content is a list of bytes, which a read within it returns, and which
-- a write that starts within it or at its end changes as `splice` does.
pub record IsReliable (d : Device) : Type 0 where
  pub content : d.Dev → List ℕ
  pub read_lem :
      (p n : ℕ) (s : d.Dev)
      → p + n ≤ length (content s)
      → p + n < 2 ^ 64
      → d.read p n s ≡ (ok (slice p n (content s)), s)
  pub write_state : ℕ → List ℕ → d.Dev → d.Dev
  pub write_lem :
      (p : ℕ) (bs : List ℕ) (s : d.Dev)
      → p ≤ length (content s)
      → d.write p bs s ≡ (ok (length bs), write_state p bs s)
  pub content-write_state :
      (p : ℕ) (bs : List ℕ) (s : d.Dev)
      → p ≤ length (content s)
      → content (write_state p bs s) ≡ splice p bs (content s)

-- The device over a vector is reliable.
abbrev pub test_device : Device
test_device = record { Dev = List ℕ; read = TestDevice.read; write = TestDevice.write }

abbrev pub test_device-IsReliable : IsReliable test_device
test_device-IsReliable = record {
  content = λ s. s;
  read_lem = TestDevice.read-eq-slice;
  write_state = splice;
  write_lem = TestDevice.write-eq-splice;
  content-write_state = λ p bs s h. refl;
}
