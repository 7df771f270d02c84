-- ===== src/Tests/Buffers.antt =====
-- The buffered handler and the queue at concrete inputs.
use gerber.Prelude.{ℕ, ◌+◌, ◌<◌, ◌≤◌, ◌≡◌, refl, true, false, [], ◌∷◌, ◌++◌, some, arith}
use gerber.Prelude.Ring.{ahead}
use gerber.Zmm.Queue.{Queue, make, append, enqueue, dequeue, size}
use gerber.Zmm.Queue.Fifo.{
  IsRing, Dequeues, to_list, make-IsRing, enqueue-IsRing, to_list-enqueue, dequeue-Dequeues,
}
use gerber.Io.Buffer
use gerber.Io.Buffer.{
  Helper, got, end_of_file, ends, did_read, read_copy, read_finish, rewind, max_write, chunk_size,
  write_finish, goes_on, stop, read_start,
}
use gerber.Io.Buffer.Region.{contents}
use gerber.Io.Buffer.Threads.{Sys, idle, copying, ready, filling, gone, Step}
use Step.{starts, finishes, chooses, fills}
use gerber.Io.Buffer.Delivery.{Reach, start, reads_in_order, ends_complete, copy_undisturbed}
use Reach.{here, next}

abbrev two : Queue ℕ
two = enqueue (enqueue (make (λ i. 0) 2 99) 7) 8

two-IsRing : IsRing two
two-IsRing =
    enqueue-IsRing (enqueue (make (λ i. 0) 2 99) 7) 8
      (enqueue-IsRing (make (λ i. 0) 2 99) 7 (make-IsRing (λ i. 0) 2 99 (omega arith)))

-- The queue is full, so that its memory grows.
to_list-enqueue_example : to_list (enqueue two 9) ≡ to_list two ++ 9 ∷ []
to_list-enqueue_example = to_list-enqueue two 9 two-IsRing

dequeue-Dequeues_example : Dequeues (to_list two) two (dequeue two)
dequeue-Dequeues_example = dequeue-Dequeues two two-IsRing

two-size : 1 < size two
unfolding size enqueue append make
two-size = omega arith

abbrev new_helper : Helper
new_helper = record {
  buf_size = 4;
  initial_fill_size = 0;
  wait_for_initial_fill_size = false;
  cell = λ k. 0;
  a = 0;
  b = 0;
  pos_read = 0;
  empty = true;
  thread_shutdown = false;
  eof = false;
  read_error = false;
  check_socket = false;
}

new_helper_made : Buffer.make (λ k. 0) 4 0 ≡ some new_helper
unfolding Buffer.make
new_helper_made = refl

-- The thread reads two bytes, the reader copies them while the thread reads on, and the stream ends.
abbrev choosing : Sys → Sys
choosing s = record s {
  helper = rewind s.helper;
  writer = filling (chunk_size 2 (max_write (rewind s.helper)));
}

abbrev s1 : Sys
s1 = choosing (start new_helper)

abbrev s2 : Sys
s2 = record s1 {
  helper = write_finish s1.helper (got 7 (8 ∷ []));
  writer = ready;
  produced = 7 ∷ 8 ∷ [];
}

abbrev s3 : Sys
s3 = record s2 { reader = copying 2 2 }

abbrev s4 : Sys
s4 = choosing s3

abbrev s5 : Sys
s5 = record s4 {
  helper = read_finish s4.helper (did_read s4.helper 2 2);
  reader = idle;
  consumed = read_copy s4.helper 2 2;
}

abbrev s6 : Sys
s6 = record s5 { helper = write_finish s5.helper end_of_file; writer = gone; produced = 7 ∷ 8 ∷ [] }

to_s4 : Reach (start new_helper) s4
unfolding rewind max_write chunk_size write_finish goes_on read_start
to_s4 =
    next
      (next
        (next (next here (chooses (start new_helper) 2 refl (omega arith) (omega arith)))
          (fills s1 2 (got 7 (8 ∷ [])) refl (omega arith)))
        (starts s2 2 2 refl (omega arith) refl))
      (chooses s3 2 refl (omega arith) (omega arith))

to_s6 : Reach (start new_helper) s6
unfolding rewind max_write chunk_size write_finish goes_on did_read read_finish
to_s6 = next (next to_s4 (finishes s4 2 2 refl)) (fills s5 2 end_of_file refl (omega arith))

reads_in_order_example : s6.consumed ++ contents s6.helper ≡ s6.produced
reads_in_order_example = reads_in_order (λ k. 0) 4 0 new_helper new_helper_made s6 to_s6

s6_ends : read_start s6.helper ≡ ends
unfolding rewind max_write chunk_size write_finish did_read read_finish read_start Buffer.read_first
    Buffer.read_second
s6_ends = refl

ends_complete_example : s6.consumed ≡ s6.produced
ends_complete_example = ends_complete (λ k. 0) 4 0 new_helper new_helper_made s6 to_s6 s6_ends

s4_copies : 1 < did_read s4.helper 2 2
unfolding rewind max_write chunk_size write_finish did_read Buffer.read_first
s4_copies = omega arith

s4_fills : s4.writer ≡ filling 2
unfolding rewind max_write chunk_size write_finish
s4_fills = refl

copy_undisturbed_example : ¬ (
    (s4.helper.b ≤ ahead s4.helper.buf_size s4.helper.a 1)
    × (ahead s4.helper.buf_size s4.helper.a 1 < s4.helper.b + 2))
copy_undisturbed_example =
    copy_undisturbed (λ k. 0) 4 0 new_helper new_helper_made s4 to_s4 2 2 2 1 refl s4_fills
      s4_copies
