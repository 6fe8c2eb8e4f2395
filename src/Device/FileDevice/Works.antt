-- ===== src/Device/FileDevice/Works.antt =====
-- A file device on a stream that works as documented does what the device over a vector does.
use yet_another_storage.Prelude.{
  ℕ, ◌+◌, ◌≤◌, ◌<◌, ◌≡◌, refl, ap, ◌∙◌, true, false, List, length, arith,
}
use yet_another_storage.Errors.{yas, device_read_error, device_write_error}
use yet_another_storage.Exec.{ok, throw}
use yet_another_storage.Bytes.Slice.{slice, splice}
use yet_another_storage.Device.FileDevice.{Stream, read, write, is_open}

-- The stream is open, and no error flag is set.
pub record IsReady (s : Stream) (device : s.Fs) : Type 0 where
  pub opened : s.is_open device ≡ true
  pub works : s.good device ≡ true
  pub no_end : s.eof device ≡ false

-- What the standard says of a stream on a file: a seek to a position within the file or to its end
-- sets the position; a read or write there is one of the file's content; and a read that starts
-- there and meets the end before it has all its bytes sets `eofbit` and `failbit`.
pub record IsDocumented (s : Stream) : Type 0 where
  pub content : s.Fs → List ℕ
  pub get_position : s.Fs → ℕ
  pub put_position : s.Fs → ℕ
  pub seekg-IsReady :
      (p : ℕ) (a : s.Fs) → IsReady s a → p ≤ length (content a) → IsReady s (s.seekg p a)
  pub seekg-content :
      (p : ℕ) (a : s.Fs)
      → IsReady s a
      → p ≤ length (content a)
      → (content (s.seekg p a) ≡ content a) × (get_position (s.seekg p a) ≡ p)
  pub seekp-IsReady :
      (p : ℕ) (a : s.Fs) → IsReady s a → p ≤ length (content a) → IsReady s (s.seekp p a)
  pub seekp-content :
      (p : ℕ) (a : s.Fs)
      → IsReady s a
      → p ≤ length (content a)
      → (content (s.seekp p a) ≡ content a) × (put_position (s.seekp p a) ≡ p)
  pub read-within :
      (n : ℕ) (a : s.Fs)
      → IsReady s a
      → get_position a + n ≤ length (content a)
      → ((s.read n a).0 ≡ slice (get_position a) n (content a))
        × IsReady s (s.read n a).1
        × (content (s.read n a).1 ≡ content a)
  pub read-beyond :
      (n : ℕ) (a : s.Fs)
      → IsReady s a
      → get_position a ≤ length (content a)
      → length (content a) < get_position a + n
      → (s.eof (s.read n a).1 ≡ true) × (s.good (s.read n a).1 ≡ false)
  pub write-within :
      (bs : List ℕ) (a : s.Fs)
      → IsReady s a
      → put_position a ≤ length (content a)
      → IsReady s (s.write bs a) × (content (s.write bs a) ≡ splice (put_position a) bs (content a))

module _ (s : Stream) (w : IsDocumented s) where
  open w use {content}

  IsReady-is_open : (a : s.Fs) → IsReady s a → is_open s a ≡ true
  unfolding is_open
  IsReady-is_open a r = rw (r.opened, r.works) refl

  pub read-IsReady :
      (p n : ℕ) (a : s.Fs)
      → IsReady s a
      → p + n ≤ length (content a)
      → (a' : s.Fs) × (read s p n a ≡ (ok (slice p n (content a)), a'))
        × IsReady s a'
        × (content a' ≡ content a)
  unfolding read is_open
  read-IsReady p n a r within =
      let small : p ≤ length (content a) = omega arith in
      let sought = s.seekg p a in
      let r' = w.seekg-IsReady p a r small in
      let (same, at) = w.seekg-content p a r small in
      let (bytes, r'', kept) = w.read-within n sought r' (omega (arith, ap length same)) in
      let e : (s.read n sought).0 ≡ slice p n (content a) = bytes ∙ rw (at, same) refl in
      (
        (s.read n sought).1,
        rw (r.opened, r.works, r'.no_end, r''.no_end) (ap (λ x. (ok x, (s.read n sought).1)) e),
        r'',
        kept ∙ same,
      )

  pub write-IsReady :
      (p : ℕ) (bs : List ℕ) (a : s.Fs)
      → IsReady s a
      → p ≤ length (content a)
      → (a' : s.Fs) × (write s p bs a ≡ (ok (length bs), a'))
        × IsReady s a'
        × (content a' ≡ splice p bs (content a))
  unfolding write is_open
  write-IsReady p bs a r within =
      let sought = s.seekp p a in
      let r' = w.seekp-IsReady p a r within in
      let (same, at) = w.seekp-content p a r within in
      let (r'', written) = w.write-within bs sought r' (omega (arith, ap length same)) in
      (
        s.write bs sought,
        rw (r.opened, r.works, r'.no_end, r''.works) refl,
        r'',
        written ∙ rw (at, same) refl,
      )

  -- A read that starts within the file or at its end and asks for more bytes than are left throws,
  -- and since nothing clears the flags of the stream, every read and write after it throws as if the
  -- device were not open.
  pub read-beyond_breaks :
      (p n : ℕ) (a : s.Fs)
      → IsReady s a
      → p ≤ length (content a)
      → length (content a) < p + n
      → (a' : s.Fs) × (read s p n a
          ≡ (throw (yas "Raw device read error: read after the file end" device_read_error), a'))
        × ((q m : ℕ)
            → read s q m a' ≡ (
              throw (
                  yas "Raw device read error: the device hasn't been opened during read"
                    device_read_error),
              a',
            ))
        × ((q : ℕ) (bs : List ℕ)
            → write s q bs a' ≡ (
              throw (
                  yas "Raw device write error: the device hasn't been opened during write"
                    device_write_error),
              a',
            ))
  unfolding read write is_open
  read-beyond_breaks p n a r small beyond =
      let sought = s.seekg p a in
      let r' = w.seekg-IsReady p a r small in
      let (same, at) = w.seekg-content p a r small in
      let (ended, bad) =
        w.read-beyond n sought r' (omega (arith, ap length same)) (omega (arith, ap length same)) in
      let shut : is_open s (s.read n sought).1 ≡ false = ground arith in
      (
        (s.read n sought).1,
        rw (r.opened, r.works, r'.no_end, ended) refl,
        λ q m. rw shut refl,
        λ q bs. rw shut refl,
      )
