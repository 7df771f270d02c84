-- ===== src/Io/Buffer/Region.antt =====
-- What the critical sections do to the filled part of the ring.
use gerber.Prelude.{ℕ, ◌+◌, ◌-◌, ◌<◌, ◌≤◌, ◌≡◌, true, false, arith, if◌then◌else◌, length}
use gerber.Prelude.Ring.{ahead, tabulate}
use gerber.Zmm.Strings.{Bytes}
use gerber.Io.Buffer.{
  Helper, fill_between, read_first, read_second, did_read, read_finish, rewind, max_write,
  chunk_size, write_bytes,
}

pub record IsBuffer (h : Helper) : Type 0 where
  pub positive : 0 < h.buf_size
  pub a_lt : h.a < h.buf_size
  pub b_lt : h.b < h.buf_size
  pub at_rest : h.empty ≡ true → h.a ≡ h.b

-- The bytes that are buffered, oldest first.
unfoldable pub fill : Helper → ℕ
unfolding fill_between
fill h = if h.empty then 0 else fill_between h.buf_size h.a h.b

unfoldable pub contents : Helper → Bytes
contents h = tabulate (fill h) (λ k. h.cell (ahead h.buf_size h.a k))

-- The reader's `bLocal` still bounds bytes that are there.
pub record Covers (h : Helper) (b_local size : ℕ) : Type 0 where
  pub some_bytes : h.empty ≡ false
  pub local_lt : b_local < h.buf_size
  pub some_size : 0 < size
  pub local_le : fill_between h.buf_size h.a b_local ≤ fill h

-- The thread's chunk still fits.
pub record Fits (h : Helper) (chunk : ℕ) : Type 0 where
  pub in_block : h.b + chunk ≤ h.buf_size
  pub in_ring : fill h + chunk ≤ h.buf_size

module _ (h : Helper) (v : IsBuffer h) where
  pub fill-le : fill h ≤ h.buf_size
  unfolding fill
  fill-le = ground arith

  module _ (b_local size : ℕ) (c : Covers h b_local size) where
    pub did_read_bounds : (0 < did_read h b_local size) × (did_read h b_local size ≤ fill h)
    unfolding did_read read_first read_second
    did_read_bounds = ground arith

    pub first_bound : h.a + read_first h b_local size ≤ h.buf_size
    unfolding read_first
    first_bound = ground arith

    pub second_start : 0 < read_second h b_local size → h.a + read_first h b_local size ≡ h.buf_size
    unfolding read_second
    second_start p = ground arith

    pub second_bound : read_second h b_local size ≤ h.a
    unfolding read_second
    second_bound = ground arith

  pub read_finish-IsBuffer : (n : ℕ) → n ≤ fill h → IsBuffer (read_finish h n)
  unfolding read_finish fill
  read_finish-IsBuffer n p = ground arith

  pub fill-read_finish :
      (n : ℕ) → n ≤ fill h → h.empty ≡ false → 0 < n → fill (read_finish h n) ≡ fill h - n
  unfolding read_finish fill
  fill-read_finish n p e k = ground arith

  pub rewind-IsBuffer : IsBuffer (rewind h)
  unfolding rewind
  rewind-IsBuffer = ground arith

  pub fill-rewind : fill (rewind h) ≡ fill h
  unfolding rewind fill
  fill-rewind = ground arith

  pub chunk_Fits : (m : ℕ) → Fits (rewind h) (chunk_size m (max_write (rewind h)))
  unfolding rewind fill chunk_size max_write
  chunk_Fits m = ground arith

  module _ (bytes : Bytes) (f : Fits h (length bytes)) (some : 0 < length bytes) where
    pub write-IsBuffer : IsBuffer (write_bytes h bytes)
    unfolding write_bytes
    write-IsBuffer = ground arith

    pub fill-write : fill (write_bytes h bytes) ≡ fill h + length bytes
    unfolding write_bytes fill
    fill-write = ground arith
