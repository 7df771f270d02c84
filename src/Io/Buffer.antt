-- ===== src/Io/Buffer.antt =====
-- io_handler_buffer_helper.cc and buffered_io_handler.cc: a ring of bytes between a reader and
-- the thread that fills it. `BufferedIOHandler` leaves `seekEnabled` false (`CurlIOHandler` sets it), so its `seek` throws before it
-- changes anything, `doSeek` stays false, and the seek branches of the thread are left out.
-- Waiting on the condition variable is a step that is not taken; wake-ups are not modelled.
pub mod Threads
pub mod Region
pub mod Contents
pub mod Held
pub mod Invariant
pub mod Delivery
use gerber.Prelude.{
  ℕ, zero, suc, ◌+◌, ◌-◌, Bool, true, false, ◌&&◌, ◌||◌, not, List, [], ◌∷◌, ◌++◌, Option, none,
  some, ltb, leb, ◌==◌, if◌then◌else◌, length,
}
use gerber.Prelude.Ring.{tabulate}
use gerber.Zmm.Strings.{Bytes}

-- `IOHandlerBufferHelper`, open; `cell i` is `buffer[i]`.
pub record Helper : Type 0 where
  pub buf_size : ℕ
  pub initial_fill_size : ℕ
  pub wait_for_initial_fill_size : Bool
  pub cell : ℕ → ℕ
  pub a : ℕ
  pub b : ℕ
  pub pos_read : ℕ
  pub empty : Bool
  pub thread_shutdown : Bool
  pub eof : Bool
  pub read_error : Bool
  pub check_socket : Bool

-- The constructor and `open`; `none` is an exception. `memory` is what the new block holds.
unfoldable pub make : (ℕ → ℕ) → ℕ → ℕ → Option Helper
make memory buf_size initial_fill_size =
    if buf_size == 0
    then none
    else if ltb buf_size initial_fill_size
    then none
    else some (record {
      buf_size = buf_size;
      initial_fill_size = initial_fill_size;
      wait_for_initial_fill_size = ltb 0 initial_fill_size;
      cell = memory;
      a = 0;
      b = 0;
      pos_read = 0;
      empty = true;
      thread_shutdown = false;
      eof = false;
      read_error = false;
      check_socket = false;
    })

-- `currentFillSize`, from `a` to `b`, where the buffer is not empty.
unfoldable pub fill_between : ℕ → ℕ → ℕ → ℕ
fill_between buf_size a b = if ltb a b then b - a else buf_size + b - a

-- What the first critical section of `read` comes to.
pub data Start : Type 0 where
  waits : Start
  asks : Helper → Start
  fails : Start
  ends : Start
  copies : ℕ → Start

-- Up to `lock.unlock()`: `asks` returns CHECK_SOCKET, `fails` -1, `ends` 0; `copies` goes on with
-- `bLocal`.
unfoldable pub read_start : Helper → Start
read_start h =
    if (h.empty || h.wait_for_initial_fill_size) && not (h.thread_shutdown || h.eof || h.read_error)
    then if h.check_socket then asks (record h { check_socket = false }) else waits
    else if h.read_error || h.thread_shutdown
    then fails
    else if h.empty && h.eof
    then ends
    else copies h.b

-- `read1`, for a read of `size` bytes.
unfoldable pub read_first : Helper → ℕ → ℕ → ℕ
read_first h b_local size =
    let max_read = if ltb h.a b_local then b_local - h.a else h.buf_size - h.a in
    if ltb size max_read then size else max_read

-- `read2`.
unfoldable pub read_second : Helper → ℕ → ℕ → ℕ
unfolding read_first fill_between
read_second h b_local size =
    let read1 = read_first h b_local size in
    let max_read = fill_between h.buf_size h.a b_local - read1 in
    let wanted = if ltb read1 size then size - read1 else 0 in
    if ltb max_read wanted then max_read else wanted

-- `didRead`.
unfoldable pub did_read : Helper → ℕ → ℕ → ℕ
did_read h b_local size = read_first h b_local size + read_second h b_local size

-- What the two calls of `memcpy` put into the caller's buffer.
unfoldable pub read_copy : Helper → ℕ → ℕ → Bytes
read_copy h b_local size =
    tabulate (read_first h b_local size) (λ k. h.cell (h.a + k))
    ++ tabulate (read_second h b_local size) h.cell

-- The second critical section of `read`.
unfoldable pub read_finish : Helper → ℕ → Helper
read_finish h did_read =
    let a =
      if leb h.buf_size (h.a + did_read) then h.a + did_read - h.buf_size else h.a + did_read in
    record h { a = a; empty = h.empty || a == h.b; pos_read = h.pos_read + did_read }

-- `if (empty) a = b = 0;` at the head of the thread's loop.
unfoldable pub rewind : Helper → Helper
rewind h = record h { a = if h.empty then 0 else h.a; b = if h.empty then 0 else h.b }

-- `maxWrite`, after that.
unfoldable pub max_write : Helper → ℕ
max_write h = if h.empty then h.buf_size else if ltb h.a h.b then h.buf_size - h.b else h.a - h.b

unfoldable pub chunk_size : ℕ → ℕ → ℕ
chunk_size max_chunk_size max_write =
    if ltb max_write max_chunk_size then max_write else max_chunk_size

-- What the underlying handler's `read` returned.
pub data Outcome : Type 0 where
  got : ℕ → Bytes → Outcome
  end_of_file : Outcome
  ask_socket : Outcome
  failed : Outcome

unfoldable pub get_byte : Bytes → ℕ → ℕ
get_byte [] i = 0
get_byte (x ∷ xs) zero = x
get_byte (x ∷ xs) (suc i) = get_byte xs i

-- The bytes that the handler wrote behind `buffer + at`.
unfoldable pub filled : (ℕ → ℕ) → ℕ → Bytes → ℕ → ℕ
unfolding get_byte
filled cell at bytes i =
    if leb at i && ltb i (at + length bytes) then get_byte bytes (i - at) else cell i

-- `waitForInitialFillSize` once `initialFillSize` is reached.
unfoldable pub still_waits : Helper → Bool
unfolding fill_between
still_waits h =
    h.wait_for_initial_fill_size && ltb (fill_between h.buf_size h.a h.b) h.initial_fill_size

-- `readBytes > 0`.
unfoldable pub advance : Helper → Bytes → Helper
unfolding filled
advance h bytes = record h {
  cell = filled h.cell h.b bytes;
  b = if h.b + length bytes == h.buf_size then 0 else h.b + length bytes;
  empty = false;
}

unfoldable pub write_bytes : Helper → Bytes → Helper
unfolding advance still_waits
write_bytes h bytes = record (advance h bytes) {
  wait_for_initial_fill_size = still_waits (advance h bytes);
}

-- The end of a round of the thread, and what follows the loop where the loop ends.
unfoldable pub write_finish : Helper → Outcome → Helper
unfolding write_bytes
write_finish h (got first rest) = write_bytes h (first ∷ rest)
write_finish h end_of_file = if h.thread_shutdown then h else record h { eof = true }
write_finish h ask_socket = record h { check_socket = true }
write_finish h failed = if h.thread_shutdown then h else record h { read_error = true }

-- The loop's condition, after a read.
unfoldable pub goes_on : Helper → Outcome → Bool
goes_on h (got first rest) = not h.thread_shutdown
goes_on h end_of_file = false
goes_on h ask_socket = not h.thread_shutdown
goes_on h failed = false

-- `stopBufferThread`, up to the join.
unfoldable pub stop : Helper → Helper
stop h = record h { thread_shutdown = true }
