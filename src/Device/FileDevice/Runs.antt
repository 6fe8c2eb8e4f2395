-- ===== src/Device/FileDevice/Runs.antt =====
-- Any calls of a file device compared with those of the device over a vector.
use yet_another_storage.Prelude.{ℕ, ◌+◌, ◌≤◌, ◌<◌, ◌^◌, ◌≡◌, refl, List, [], ◌∷◌, length}
use yet_another_storage.Exec.{Exec, ok, pure, ◌>>=◌}
use yet_another_storage.Bytes.Slice.{splice}
use yet_another_storage.Device.TestDevice
use yet_another_storage.Device.FileDevice.{Stream, read, write}
use yet_another_storage.Device.FileDevice.Works.{IsReady, IsDocumented, read-IsReady, write-IsReady}

pub data Call : Type 0 where
  read_at : ℕ → ℕ → Call
  write_at : ℕ → List ℕ → Call

-- What a call returns: the bytes that it read, or their number that it wrote.
abbrev pub file_call : (s : Stream) → Call → Exec s.Fs (List ℕ)
file_call s (read_at p n) = read s p n
file_call s (write_at p bs) = do k ← write s p bs; pure (k ∷ [])

abbrev pub vector_call : Call → Exec (List ℕ) (List ℕ)
vector_call (read_at p n) = TestDevice.read p n
vector_call (write_at p bs) = do k ← TestDevice.write p bs; pure (k ∷ [])

-- The calls one after another.
unfoldable pub run : {S : Type 0} → (Call → Exec S (List ℕ)) → List Call → Exec S (List (List ℕ))
run call [] = pure []
run call (c ∷ cs) = do first ← call c; rest ← run call cs; pure (first ∷ rest)

-- Every read lies within the content at its time and ends below 2^64, and every write starts within
-- the content or at its end.
abbrev pub CallsWithin : List Call → List ℕ → Type 0
CallsWithin [] l = Unit
CallsWithin (read_at p n ∷ cs) l = (p + n ≤ length l) × (p + n < 2 ^ 64) × CallsWithin cs l
CallsWithin (write_at p bs ∷ cs) l = (p ≤ length l) × CallsWithin cs (splice p bs l)

run-cons :
    {S : Type 0} (call : Call → Exec S (List ℕ)) (c : Call) (cs : List Call) (a b e : S)
    (x : List ℕ) (xs : List (List ℕ))
    → call c a ≡ (ok x, b)
    → run call cs b ≡ (ok xs, e)
    → run call (c ∷ cs) a ≡ (ok (x ∷ xs), e)
unfolding run
run-cons call c cs a b e x xs first rest = rw (first, rest) refl

-- On a stream that works as the standard says, any reads within the content, that end below 2^64,
-- and writes from within it or its end return on the file device what they return on the device over a vector with
-- the same content, and leave the same content; the stream stays ready.
pub run-eq-vector :
    (s : Stream) (w : IsDocumented s) (cs : List Call) (a : s.Fs)
    → IsReady s a
    → CallsWithin cs (w.content a)
    → (a' : s.Fs) × (xs : List (List ℕ)) × (run (file_call s) cs a ≡ (ok xs, a'))
      × (run vector_call cs (w.content a) ≡ (ok xs, w.content a'))
      × IsReady s a'
unfolding run
run-eq-vector s w [] a r h = (a, [], refl, refl, r)
run-eq-vector s w (read_at p n ∷ cs) a r h =
    let (a₁, first, r₁, same) = read-IsReady s w p n a r h.0 in
    let (a', xs, file, vector, r') = run-eq-vector s w cs a₁ r₁ (rw same h.2) in
    let first' = TestDevice.read-eq-slice p n (w.content a) h.0 h.1 in
    (
      a',
      _ ∷ xs,
      run-cons (file_call s) (read_at p n) cs a a₁ a' _ xs first file,
      run-cons vector_call (read_at p n) cs (w.content a) (w.content a) (w.content a') _ xs first'
          (rw (← same) vector),
      r',
    )
run-eq-vector s w (write_at p bs ∷ cs) a r h =
    let (a₁, first, r₁, same) = write-IsReady s w p bs a r h.0 in
    let (a', xs, file, vector, r') = run-eq-vector s w cs a₁ r₁ (rw same h.1) in
    let first' = TestDevice.write-eq-splice p bs (w.content a) h.0 in
    (
      a',
      (length bs ∷ []) ∷ xs,
      run-cons (file_call s) (write_at p bs) cs a a₁ a' _ xs (rw first refl) file,
      run-cons vector_call (write_at p bs) cs (w.content a) (splice p bs (w.content a))
          (w.content a') _ xs (rw first' refl) (rw (← same) vector),
      r',
    )
