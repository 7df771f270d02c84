-- ===== src/Io/Buffer/Threads.antt =====
-- The interleavings of the reader and the thread of a buffered handler.
use gerber.Prelude.{ℕ, ◌<◌, ◌≤◌, ◌≡◌, [], ◌∷◌, ◌++◌, length, if◌then◌else◌}
use gerber.Zmm.Strings.{Bytes}
use gerber.Io.Buffer.{
  Helper, Outcome, asks, copies, got, read_start, did_read, read_copy, read_finish, rewind,
  max_write, chunk_size, write_finish, goes_on, stop,
}

-- Between the critical sections of `read`: `bLocal` and the size asked for.
pub data Reader : Type 0 where
  idle : Reader
  copying : ℕ → ℕ → Reader

-- The thread at the head of its loop, between its critical sections with the chunk's size, or gone.
pub data Writer : Type 0 where
  ready : Writer
  filling : ℕ → Writer
  gone : Writer

-- `produced` are the bytes that the underlying handler gave, `consumed` those that `read` gave.
pub record Sys : Type 0 where
  pub helper : Helper
  pub reader : Reader
  pub writer : Writer
  pub produced : Bytes
  pub consumed : Bytes

abbrev pub bytes_of : Outcome → Bytes
bytes_of (got first rest) = first ∷ rest
bytes_of _ = []

pub data Step : Sys → Sys → Type 0 where
  asked :
      (s : Sys) (h : Helper)
      → s.reader ≡ idle
      → read_start s.helper ≡ asks h
      → Step s (record s { helper = h })
  starts :
      (s : Sys) (b_local size : ℕ)
      → s.reader ≡ idle
      → 0 < size
      → read_start s.helper ≡ copies b_local
      → Step s (record s { reader = copying b_local size })
  finishes :
      (s : Sys) (b_local size : ℕ)
      → s.reader ≡ copying b_local size
      → Step s (record s {
        helper = read_finish s.helper (did_read s.helper b_local size);
        reader = idle;
        consumed = s.consumed ++ read_copy s.helper b_local size;
      })
  chooses :
      (s : Sys) (max_chunk_size : ℕ)
      → s.writer ≡ ready
      → 0 < max_chunk_size
      → 0 < max_write (rewind s.helper)
      → Step s (record s {
        helper = rewind s.helper;
        writer = filling (chunk_size max_chunk_size (max_write (rewind s.helper)));
      })
  fills :
      (s : Sys) (chunk : ℕ) (o : Outcome)
      → s.writer ≡ filling chunk
      → length (bytes_of o) ≤ chunk
      → Step s (record s {
        helper = write_finish s.helper o;
        writer = if goes_on s.helper o then ready else gone;
        produced = s.produced ++ bytes_of o;
      })
  stops : (s : Sys) → Step s (record s { helper = stop s.helper })
