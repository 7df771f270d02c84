-- ===== src/Io/Buffer/Held.antt =====
-- The part of the ring that a thread holds outside the lock, and what the other may change.
use gerber.Prelude.{ℕ, ◌<◌, ◌≤◌, ◌≡◌, refl, false, Bool, arith, length}
use gerber.Zmm.Strings.{Bytes}
use gerber.Io.Buffer.{
  Helper, asks, copies, fill_between, read_start, read_finish, rewind, write_bytes,
}
use gerber.Io.Buffer.Region.{IsBuffer, Covers, Fits, fill, contents, fill-write}
use gerber.Io.Buffer.Threads.{Reader, idle, copying, Writer, ready, filling, gone}

abbrev pub ReaderOk : Helper → Reader → Type 0
ReaderOk h idle = Unit {0}
ReaderOk h (copying b_local size) = Covers h b_local size

abbrev pub WriterOk : Helper → Writer → Type 0
WriterOk h ready = Unit {0}
WriterOk h (filling chunk) = Fits h chunk
WriterOk h gone = Unit {0}

pub asks_lem : (h g : Helper) → read_start h ≡ asks g → g ≡ record h { check_socket = false }
unfolding read_start
asks_lem h g e = ground arith

pub copies_Covers :
    (h : Helper) (b_local size : ℕ)
    → IsBuffer h
    → 0 < size
    → read_start h ≡ copies b_local
    → Covers h b_local size
unfolding read_start fill
copies_Covers h b_local size v p e = ground arith

-- A change of the flags alone.
module _ (h : Helper) (wait shut eof error socket : Bool) where
  abbrev pub flagged : Helper
  flagged = record h {
    wait_for_initial_fill_size = wait;
    thread_shutdown = shut;
    eof = eof;
    read_error = error;
    check_socket = socket;
  }

  pub flagged-IsBuffer : IsBuffer h → IsBuffer flagged
  flagged-IsBuffer v = ground arith

  fill-flagged : fill flagged ≡ fill h
  unfolding fill
  fill-flagged = refl

  pub contents-flagged : contents flagged ≡ contents h
  unfolding contents fill
  contents-flagged = refl

  pub flagged-ReaderOk : (r : Reader) → ReaderOk h r → ReaderOk flagged r
  unfolding fill
  flagged-ReaderOk idle c = tt
  flagged-ReaderOk (copying b_local size) c = ground arith

  pub flagged-WriterOk : (w : Writer) → WriterOk h w → WriterOk flagged w
  unfolding fill
  flagged-WriterOk ready c = tt
  flagged-WriterOk (filling chunk) c = ground arith
  flagged-WriterOk gone c = tt

module _ (h : Helper) (v : IsBuffer h) where
  pub rewind-ReaderOk : (r : Reader) → ReaderOk h r → ReaderOk (rewind h) r
  unfolding rewind fill
  rewind-ReaderOk idle c = tt
  rewind-ReaderOk (copying b_local size) c = ground arith

  pub finish-WriterOk :
      (n : ℕ) (w : Writer)
      → n ≤ fill h
      → h.empty ≡ false
      → 0 < n
      → WriterOk h w
      → WriterOk (read_finish h n) w
  unfolding read_finish fill
  finish-WriterOk n ready p e q c = tt
  finish-WriterOk n (filling chunk) p e q c = ground arith
  finish-WriterOk n gone p e q c = tt

  same_between :
      (bytes : Bytes) (b_local : ℕ)
      → let r = write_bytes h bytes in
        fill_between r.buf_size r.a b_local ≡ fill_between h.buf_size h.a b_local
  unfolding write_bytes
  same_between bytes b_local = refl

  pub write-ReaderOk :
      (bytes : Bytes) (r : Reader)
      → Fits h (length bytes)
      → 0 < length bytes
      → ReaderOk h r
      → ReaderOk (write_bytes h bytes) r
  write-ReaderOk bytes idle f p c = tt
  write-ReaderOk bytes (copying b_local size) f p c = record {
    some_bytes = unfold write_bytes in refl;
    local_lt = unfold write_bytes in c.local_lt;
    some_size = c.some_size;
    local_le = omega (arith, same_between bytes b_local, fill-write h v bytes f p, c.local_le);
  }

  pub Fits-less : (n chunk : ℕ) → n ≤ chunk → Fits h chunk → Fits h n
  Fits-less n chunk p f = omega arith
