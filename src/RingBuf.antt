-- ===== src/RingBuf.antt =====
-- The byte queue of the MicroPython core: that of py/ringbuf.h, which machine_usbserial.c and
-- machine_uart.c use, and that of extmod/machine_i2s.c, which machine_i2s.c uses by push, pop,
-- available_data and available_space. Its operations and what the port relies on of it; it is not code
-- of the repository.
pub mod Tests
pub mod Fill
use ameba_micro_python.Prelude.{
  ℕ, ◌-◌, ◌<◌, ◌≤◌, ◌≡◌, Option, none, some, List, [], ◌∷◌, ◌++◌, length,
}

-- A buffer of a fixed size: `ringbuf_put`, `ringbuf_get`, `ringbuf_peek` (`none` is -1),
-- `ringbuf_avail` and `ringbuf_free`; and as the abstract view, the bytes that it holds and how many
-- it can hold.
pub record RingBuf : Type 1 where
  pub Buf : Type 0
  pub contents : Buf → List ℕ
  pub capacity : ℕ
  pub put : Buf → ℕ → Option Buf
  pub get : Buf → Option (ℕ × Buf)
  pub peek : Buf → Option ℕ
  pub avail : Buf → ℕ
  pub free : Buf → ℕ

-- The ring buffer is a queue of at most `capacity` bytes.
pub record IsQueue (ring : RingBuf) : Type 0 where
  pub put_some :
      (b b' : ring.Buf) (x : ℕ)
      → ring.put b x ≡ some b'
      → ring.contents b' ≡ ring.contents b ++ x ∷ []
  pub put_none :
      (b : ring.Buf) (x : ℕ) → ring.put b x ≡ none → ring.capacity ≤ length (ring.contents b)
  pub put_room :
      (b b' : ring.Buf) (x : ℕ) → ring.put b x ≡ some b' → length (ring.contents b) < ring.capacity
  pub get_some :
      (b b' : ring.Buf) (x : ℕ) → ring.get b ≡ some (x, b') → ring.contents b ≡ x ∷ ring.contents b'
  pub get_none : (b : ring.Buf) → ring.get b ≡ none → ring.contents b ≡ []
  pub avail_length : (b : ring.Buf) → ring.avail b ≡ length (ring.contents b)
  pub free_rest : (b : ring.Buf) → ring.free b ≡ ring.capacity - length (ring.contents b)
  pub peek_none : (b : ring.Buf) → ring.peek b ≡ none → ring.contents b ≡ []
  pub peek_some :
      (b : ring.Buf) (x : ℕ) → ring.peek b ≡ some x → (l : List ℕ) × (ring.contents b ≡ x ∷ l)
