-- ===== src/Io/Memory.antt =====
-- mem_io_handler.cc: an IO handler that reads from memory.
pub mod Window
use gerber.Prelude.{
  ℕ, ◌+◌, ◌-◌, Bool, List, [], ◌∷◌, ◌++◌, Option, none, some, ltb, leb, if◌then◌else◌, length, take,
  drop, ◌||◌,
}
use gerber.Prelude.Int.{ℤ, pos, negsuc, pos_part, ltb_ℤ, ◌+ℤ◌}
use gerber.Zmm.Strings.{Bytes}

-- `length` is the length of the buffer; a `pos` of -1 is `none`.
pub record MemHandler : Type 0 where
  pub buffer : Bytes
  pub pos : Option ℕ

unfoldable pub make : Bytes → MemHandler
make buffer = record { buffer = buffer; pos = none }

-- `open`.
unfoldable pub open_handler : MemHandler → MemHandler
open_handler h = record h { pos = some 0 }

-- A position at the end, or behind it, becomes -1.
unfoldable pub after_read : Bytes → ℕ → Option ℕ
after_read buffer at = if leb (length buffer) at then none else some at

unfoldable pub read_at : ℕ → Bytes → Option ℕ → Bytes × MemHandler
unfolding after_read
read_at n buffer none = ([], record { buffer = buffer; pos = none })
read_at n buffer (some at) =
    let rest = length buffer - at in
    let n = if ltb rest n then rest else n in
    (take n (drop at buffer), record { buffer = buffer; pos = after_read buffer (at + n) })

-- `read`: the bytes that are copied, as many as it returns.
unfoldable pub read : ℕ → MemHandler → Bytes × MemHandler
unfolding read_at
read n h = read_at n h.buffer h.pos

-- `whence`, and any other value.
pub data Whence : Type 0 where
  seek_set : Whence
  seek_cur : Whence
  seek_end : Whence
  seek_other : Whence

-- Where a position of -1 stands.
unfoldable pub place : Bytes → Option ℕ → ℕ
place buffer none = length buffer
place buffer (some at) = at

-- A position of the buffer, or the exception.
unfoldable pub seek_to : ℤ → MemHandler → Option MemHandler
seek_to target h =
    if ltb_ℤ (pos (length h.buffer)) target || ltb_ℤ target (pos 0)
    then none
    else some (record h { pos = some (pos_part target) })

-- `seek`; `none` is the exception.
unfoldable pub seek : ℤ → Whence → MemHandler → Option MemHandler
unfolding seek_to place
seek offset seek_set h = seek_to offset h
seek offset seek_cur h = seek_to (pos (place h.buffer h.pos) +ℤ offset) h
seek offset seek_end h = seek_to (pos (length h.buffer) +ℤ offset) h
seek offset seek_other h = none
