-- ===== src/Io/Buffer/Delivery.antt =====
-- What every interleaving of the reader and the thread guarantees.
use gerber.Prelude.{
  ℕ, ◌+◌, ◌<◌, ◌≤◌, ◌≡◌, ap, subst, sym, ◌∙◌, true, false, [], ◌++◌, append-nil, arith, some,
}
use gerber.Prelude.Ring.{ahead, tabulate}
use gerber.Io.Buffer.{Helper, ends, make, read_start, did_read}
use gerber.Io.Buffer.Region.{IsBuffer, Covers, Fits, fill, contents, did_read_bounds}
use gerber.Io.Buffer.Threads.{Sys, idle, copying, ready, filling, Step}
use gerber.Io.Buffer.Held.{ReaderOk, WriterOk}
use gerber.Io.Buffer.Invariant.{Inv, Step-Inv}

pub data Reach (s : Sys) : Sys → Type 0 where
  here : Reach s s
  next : {t u : Sys} → Reach s t → Step t u → Reach s u

-- An open handler whose thread has just started.
abbrev pub start : Helper → Sys
start h = record { helper = h; reader = idle; writer = ready; produced = []; consumed = [] }

contents_empty : (h : Helper) → h.empty ≡ true → contents h ≡ []
unfolding contents fill tabulate
contents_empty h e =
    ap (λ n. tabulate n (λ k. h.cell (ahead h.buf_size h.a k))) {y = 0} (ground arith)

ends_empty : (h : Helper) → read_start h ≡ ends → h.empty ≡ true
unfolding read_start
ends_empty h e = ground arith

undisturbed :
    (h : Helper) (chunk k : ℕ)
    → IsBuffer h
    → Fits h chunk
    → h.empty ≡ false
    → k < fill h
    → ¬ ((h.b ≤ ahead h.buf_size h.a k) × (ahead h.buf_size h.a k < h.b + chunk))
unfolding fill ahead
undisturbed h chunk k v f e p = ground arith

start-Inv :
    (memory : ℕ → ℕ) (size initial : ℕ) (h : Helper)
    → make memory size initial ≡ some h
    → Inv (start h)
start-Inv memory size initial h e = record {
  buffer = unfold make in ground arith;
  reader_ok = tt;
  writer_ok = tt;
  in_order = contents_empty h (unfold make in ground arith);
}

pub Reach-Inv : {s t : Sys} → Inv s → Reach s t → Inv t
Reach-Inv v here = v
Reach-Inv v (next r st) = Step-Inv st (Reach-Inv v r)

module _ (memory : ℕ → ℕ) (size initial : ℕ) (h : Helper) (made : make memory size initial ≡ some h)
    (t : Sys) (r : Reach (start h) t) where
  reached : Inv t
  reached = Reach-Inv (start-Inv memory size initial h made) r

  -- In every interleaving, what `read` returned so far, followed by what is buffered, is what the
  -- underlying handler gave: no byte is lost, doubled or reordered.
  pub reads_in_order : t.consumed ++ contents t.helper ≡ t.produced
  reads_in_order = reached.in_order

  -- A `read` that reports the end of the stream does so only when every byte was handed over.
  pub ends_complete : read_start t.helper ≡ ends → t.consumed ≡ t.produced
  ends_complete e =
      sym (append-nil t.consumed)
      ∙ ap (◌++◌ t.consumed) (sym (contents_empty t.helper (ends_empty t.helper e)))
      ∙ reads_in_order

  -- While `memcpy` runs outside the lock, the thread stores to no byte that is copied.
  pub copy_undisturbed :
      (b_local asked chunk k : ℕ)
      → t.reader ≡ copying b_local asked
      → t.writer ≡ filling chunk
      → k < did_read t.helper b_local asked
      → let at = ahead t.helper.buf_size t.helper.a k in
        ¬ ((t.helper.b ≤ at) × (at < t.helper.b + chunk))
  copy_undisturbed b_local asked chunk k e f p =
      let c : Covers t.helper b_local asked = subst (ReaderOk t.helper) e reached.reader_ok in
      let g : Fits t.helper chunk = subst (WriterOk t.helper) f reached.writer_ok in
      undisturbed t.helper chunk k reached.buffer g c.some_bytes
        (omega (arith, did_read_bounds t.helper reached.buffer b_local asked c))
