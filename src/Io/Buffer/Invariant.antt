-- ===== src/Io/Buffer/Invariant.antt =====
-- The invariant of the interleavings, which every step keeps.
use gerber.Prelude.{
  ℕ, ◌≤◌, ◌≡◌, ap, subst, sym, ◌∙◌, true, false, Bool, Bool-cases, inl, inr, [], ◌∷◌, ◌++◌,
  append_assoc, append-nil, arith, if◌then◌else◌, length,
}
use gerber.Zmm.Strings.{Bytes}
use gerber.Io.Buffer.{
  Helper, Outcome, got, end_of_file, ask_socket, failed, asks, read_start, did_read, read_copy,
  read_finish, write_bytes, write_finish, goes_on, stop,
}
use gerber.Io.Buffer.Region.{
  IsBuffer, Covers, Fits, contents, did_read_bounds, read_finish-IsBuffer, rewind-IsBuffer,
  chunk_Fits, write-IsBuffer,
}
use gerber.Io.Buffer.Contents.{copy_lem, contents-read_finish, contents-rewind, contents-write}
use gerber.Io.Buffer.Threads.{
  Sys, idle, copying, Writer, ready, filling, gone, Step, asked, starts, finishes, chooses, fills,
  stops, bytes_of,
}
use gerber.Io.Buffer.Held.{
  ReaderOk, WriterOk, asks_lem, copies_Covers, flagged, flagged-IsBuffer, contents-flagged,
  flagged-ReaderOk, flagged-WriterOk, rewind-ReaderOk, finish-WriterOk, write-ReaderOk, Fits-less,
}

pub record Inv (s : Sys) : Type 0 where
  pub buffer : IsBuffer s.helper
  pub reader_ok : ReaderOk s.helper s.reader
  pub writer_ok : WriterOk s.helper s.writer
  pub in_order : s.consumed ++ contents s.helper ≡ s.produced

-- A read moves the oldest bytes out of the ring.
contents-read :
    (h : Helper)
    → IsBuffer h
    → (b_local size : ℕ) → Covers h b_local size
    → contents h ≡ read_copy h b_local size ++ contents (read_finish h (did_read h b_local size))
contents-read h v b_local size c =
    let (some, fits) = did_read_bounds h v b_local size c in
    contents-read_finish h v (did_read h b_local size) fits c.some_bytes some
    ∙ ap (λ t. t ++ contents (read_finish h (did_read h b_local size)))
        (sym (copy_lem h v b_local size c))

module _ (s : Sys) (v : Inv s) where
  finishes-Inv :
      (b_local size : ℕ)
      → s.reader ≡ copying b_local size
      → Inv (record s {
        helper = read_finish s.helper (did_read s.helper b_local size);
        reader = idle;
        consumed = s.consumed ++ read_copy s.helper b_local size;
      })
  finishes-Inv b_local size e =
      let c : Covers s.helper b_local size = subst (ReaderOk s.helper) e v.reader_ok in
      let (some, fits) = did_read_bounds s.helper v.buffer b_local size c in
      record {
        buffer = read_finish-IsBuffer s.helper v.buffer (did_read s.helper b_local size) fits;
        reader_ok = tt;
        writer_ok = finish-WriterOk s.helper v.buffer _ s.writer fits c.some_bytes some v.writer_ok;
        in_order =
            append_assoc s.consumed _ _
            ∙ ap (◌++◌ s.consumed) (sym (contents-read s.helper v.buffer b_local size c))
            ∙ v.in_order;
      }

  written-Inv :
      (chunk first : ℕ) (rest : Bytes) (w : Writer)
      → WriterOk (write_bytes s.helper (first ∷ rest)) w
      → s.writer ≡ filling chunk
      → length (first ∷ rest) ≤ chunk
      → Inv (record s {
        helper = write_bytes s.helper (first ∷ rest);
        writer = w;
        produced = s.produced ++ first ∷ rest;
      })
  written-Inv chunk first rest w ok e p =
      let f : Fits s.helper (length (first ∷ rest)) =
        Fits-less s.helper v.buffer (length (first ∷ rest)) chunk p
          (subst (WriterOk s.helper) e v.writer_ok) in
      record {
        buffer = write-IsBuffer s.helper v.buffer (first ∷ rest) f (omega arith);
        reader_ok =
            write-ReaderOk s.helper v.buffer (first ∷ rest) s.reader f (omega arith) v.reader_ok;
        writer_ok = ok;
        in_order =
            ap (◌++◌ s.consumed) (contents-write s.helper v.buffer (first ∷ rest) f (omega arith))
            ∙ sym (append_assoc s.consumed _ _)
            ∙ ap (λ t. t ++ first ∷ rest) v.in_order;
      }

  flags-Inv :
      (wait shut eof error socket : Bool) (w : Writer)
      → WriterOk s.helper w
      → Inv (record s { helper = flagged s.helper wait shut eof error socket; writer = w })
  flags-Inv wait shut eof error socket w ok = record {
    buffer = flagged-IsBuffer s.helper wait shut eof error socket v.buffer;
    reader_ok = flagged-ReaderOk s.helper wait shut eof error socket s.reader v.reader_ok;
    writer_ok = flagged-WriterOk s.helper wait shut eof error socket w ok;
    in_order =
        ap (◌++◌ s.consumed) (contents-flagged s.helper wait shut eof error socket) ∙ v.in_order;
  }

  asked-Inv : (h : Helper) → read_start s.helper ≡ asks h → Inv (record s { helper = h })
  asked-Inv h e =
      subst (λ g. Inv (record s { helper = g })) (sym (asks_lem s.helper h e))
        (flags-Inv _ _ _ _ false s.writer v.writer_ok)

next_WriterOk : (h : Helper) (b : Bool) → WriterOk h (if b then ready else gone)
next_WriterOk h true = tt
next_WriterOk h false = tt

abbrev after_fill : Sys → Outcome → Sys
after_fill s o = record s {
  helper = write_finish s.helper o;
  writer = if goes_on s.helper o then ready else gone;
  produced = s.produced ++ bytes_of o;
}

no_bytes :
    (s : Sys) (h : Helper) (w : Writer)
    → Inv (record s { helper = h; writer = w })
    → Inv (record s { helper = h; writer = w; produced = s.produced ++ [] })
no_bytes s h w v = record {
  buffer = v.buffer;
  reader_ok = v.reader_ok;
  writer_ok = v.writer_ok;
  in_order = v.in_order ∙ sym (append-nil s.produced);
}

fills-Inv :
    (s : Sys) (chunk : ℕ) (o : Outcome)
    → s.writer ≡ filling chunk
    → length (bytes_of o) ≤ chunk
    → Inv s
    → Inv (after_fill s o)
unfolding write_finish
fills-Inv s chunk (got first rest) e p v =
    written-Inv s v chunk first rest _ (next_WriterOk _ (goes_on s.helper (got first rest))) e p
fills-Inv s chunk end_of_file e p v = no_bytes s _ _ (elim (Bool-cases s.helper.thread_shutdown) [
  | inl b ↦ simp b (flags-Inv s v _ _ _ _ _ _ (next_WriterOk _ _))
  | inr b ↦ simp b (flags-Inv s v _ _ true _ _ _ (next_WriterOk _ _))
])
fills-Inv s chunk ask_socket e p v =
    no_bytes s _ _ (flags-Inv s v _ _ _ _ true _ (next_WriterOk _ _))
fills-Inv s chunk failed e p v = no_bytes s _ _ (elim (Bool-cases s.helper.thread_shutdown) [
  | inl b ↦ simp b (flags-Inv s v _ _ _ _ _ _ (next_WriterOk _ _))
  | inr b ↦ simp b (flags-Inv s v _ _ _ true _ _ (next_WriterOk _ _))
])

pub Step-Inv : {s t : Sys} → Step s t → Inv s → Inv t
Step-Inv (asked s h e r) v = asked-Inv s v h r
Step-Inv (starts s b_local size e p r) v = record {
  buffer = v.buffer;
  reader_ok = copies_Covers s.helper b_local size v.buffer p r;
  writer_ok = v.writer_ok;
  in_order = v.in_order;
}
Step-Inv (finishes s b_local size e) v = finishes-Inv s v b_local size e
Step-Inv (chooses s m e p q) v = record {
  buffer = rewind-IsBuffer s.helper v.buffer;
  reader_ok = rewind-ReaderOk s.helper v.buffer s.reader v.reader_ok;
  writer_ok = chunk_Fits s.helper v.buffer m;
  in_order = ap (◌++◌ s.consumed) (contents-rewind s.helper v.buffer) ∙ v.in_order;
}
Step-Inv (fills s chunk o e p) v = fills-Inv s chunk o e p v
Step-Inv (stops s) v = unfold stop in flags-Inv s v _ true _ _ _ s.writer v.writer_ok
