-- ===== src/Zmm/Queue.antt =====
-- zmm/base_queue.h, a ring buffer that grows, and zmm/object_queue.h, which counts references.
pub mod Fifo
use gerber.Prelude.{
  ℕ, suc, ◌+◌, ◌-◌, ◌/◌, ◌%◌, Bool, true, false, ◌&&◌, ◌||◌, not, Option, none, some, ltb, leb,
  ◌==◌, if◌then◌else◌,
}

-- `cell i` is `data[i]`, for `i` below the capacity.
pub record Queue {ℓ} (A : Type ℓ) : Type ℓ where
  pub cell : ℕ → A
  pub empty_type : A
  pub capacity : ℕ
  pub queue_begin : ℕ
  pub queue_end : ℕ
  pub overlap : Bool

-- The new capacity, for `count` elements.
unfoldable pub grown : ℕ → ℕ → ℕ
grown required count = if ltb (count + count / 2) required then required else count + count / 2

module _ {ℓ} {A : Type ℓ} where
  -- `memory` is what a new block of memory happens to hold.
  unfoldable pub make : (ℕ → A) → ℕ → A → Queue A
  make memory initial_capacity empty_type = record {
    cell = memory;
    empty_type = empty_type;
    capacity = initial_capacity;
    queue_begin = 0;
    queue_end = 0;
    overlap = false;
  }

  unfoldable pub size : Queue A → ℕ
  size q =
      if q.overlap
      then q.capacity
      else if leb q.queue_begin q.queue_end
      then q.queue_end - q.queue_begin
      else q.capacity - q.queue_begin + q.queue_end

  unfoldable pub is_empty : Queue A → Bool
  is_empty q = not q.overlap && q.queue_end == q.queue_begin

  -- `data[p] = v`.
  unfoldable pub store : (ℕ → A) → ℕ → A → ℕ → A
  store cell p v i = if i == p then v else cell i

  -- `memmove(data + to, data + from, count)`.
  unfoldable pub move_block : (ℕ → A) → ℕ → ℕ → ℕ → ℕ → A
  move_block cell to from count i =
      if leb to i && ltb i (to + count) then cell (from + (i - to)) else cell i

  -- After `capacity = c`: the part from `queueBegin` on moves to the end, if the queue wraps.
  unfoldable pub relocate : Queue A → ℕ → Queue A
  unfolding move_block
  relocate q c =
      if q.overlap && not (q.queue_end == 0) || ltb q.queue_end q.queue_begin
      then record q {
        cell =
            move_block q.cell (c - (q.capacity - q.queue_begin)) q.queue_begin
              (q.capacity - q.queue_begin);
        capacity = c;
        queue_begin = c - (q.capacity - q.queue_begin);
        overlap = false;
      }
      else if q.queue_end == 0
      then record q { capacity = c; queue_end = q.capacity; overlap = false }
      else record q { capacity = c; overlap = false }

  unfoldable pub resize : Queue A → ℕ → Queue A
  unfolding relocate grown size
  resize q required = if ltb q.capacity required then relocate q (grown required (size q)) else q

  -- `data[queueEnd++] = element` and what follows it.
  unfoldable pub append : Queue A → A → Queue A
  unfolding store
  append q element =
      let next = if q.queue_end + 1 == q.capacity then 0 else q.queue_end + 1 in
      record q {
        cell = store q.cell q.queue_end element;
        queue_end = next;
        overlap = q.overlap || next == q.queue_begin;
      }

  unfoldable pub enqueue : Queue A → A → Queue A
  enqueue q element = append (if q.overlap then resize q (size q + 1) else q) element

  unfoldable pub dequeue : Queue A → A × Queue A
  unfolding is_empty
  dequeue q = if is_empty q then (q.empty_type, q) else (
    q.cell q.queue_begin,
    record q {
      queue_begin = if q.queue_begin + 1 == q.capacity then 0 else q.queue_begin + 1;
      overlap = false;
    },
  )

  unfoldable pub get : Queue A → ℕ → A
  get q index = q.cell ((q.queue_begin + index) % q.capacity)
