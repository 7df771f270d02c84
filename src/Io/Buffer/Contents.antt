-- ===== src/Io/Buffer/Contents.antt =====
-- What the critical sections do to the buffered bytes, as a list.
use gerber.Prelude.{
  ℕ, ◌+◌, ◌-◌, ◌<◌, ◌≤◌, ◌≡◌, refl, ap, ap₂, sym, ◌∙◌, false, [], ◌∷◌, ◌++◌, arith, length,
}
use gerber.Prelude.Ring.{ahead, tabulate, tabulate_ext, tabulate_append}
use gerber.Zmm.Strings.{Bytes}
use gerber.Io.Buffer.{
  Helper, read_first, read_second, did_read, read_copy, read_finish, rewind, get_byte, filled,
  write_bytes,
}
use gerber.Io.Buffer.Region.{
  IsBuffer, Covers, Fits, fill, contents, fill-le, first_bound, second_start, fill-read_finish,
  fill-rewind, fill-write,
}

tabulate-get_byte : (s : Bytes) → tabulate (length s) (get_byte s) ≡ s
unfolding tabulate get_byte
tabulate-get_byte [] = refl
tabulate-get_byte (x ∷ s) = ap (◌∷◌ x) (tabulate-get_byte s)

filled_at :
    (cell : ℕ → ℕ) (at : ℕ) (bytes : Bytes) (k : ℕ)
    → k < length bytes
    → filled cell at bytes (at + k) ≡ get_byte bytes k
unfolding filled
filled_at cell at bytes k p =
    ground (arith, ap (get_byte bytes) {x = at + k - at} {y = k} (omega arith))

abbrev nth : Helper → ℕ → ℕ
nth h k = h.cell (ahead h.buf_size h.a k)

module _ (h : Helper) (v : IsBuffer h) where
  at_first : (k : ℕ) → h.a + k < h.buf_size → ahead h.buf_size h.a k ≡ h.a + k
  unfolding ahead
  at_first k p = ground arith

  at_second : (n k : ℕ) → h.a + n ≡ h.buf_size → ahead h.buf_size h.a (n + k) ≡ k
  unfolding ahead
  at_second n k p = ground arith

  module _ (b_local size : ℕ) (c : Covers h b_local size) where
    second_part :
        tabulate
          (read_second h b_local size)
          (λ k. h.cell (ahead h.buf_size h.a (read_first h b_local size + k)))
        ≡ tabulate (read_second h b_local size) h.cell
    second_part = tabulate_ext _ _ _ (λ k p.
        ap h.cell
          (at_second (read_first h b_local size) k (second_start h v b_local size c (omega arith))))

    -- The two copies together are the oldest bytes.
    pub copy_lem :
        read_copy h b_local size
        ≡ tabulate (did_read h b_local size) (λ k. h.cell (ahead h.buf_size h.a k))
    unfolding read_copy did_read
    copy_lem = sym (
        tabulate_append (read_first h b_local size) (read_second h b_local size) _
        ∙ ap₂ ◌++◌
            (tabulate_ext _ _ _
              (λ k p. ap h.cell (at_first k (omega (arith, first_bound h v b_local size c)))))
            second_part)

  nth-read_finish :
      (n k : ℕ)
      → n + k < h.buf_size
      → let r = read_finish h n in
        r.cell (ahead r.buf_size r.a k) ≡ h.cell (ahead h.buf_size h.a (n + k))
  unfolding ahead read_finish
  nth-read_finish n k p = ground arith

  pub contents-read_finish :
      (n : ℕ)
      → n ≤ fill h
      → h.empty ≡ false
      → 0 < n
      → contents h ≡ tabulate n (λ k. h.cell (ahead h.buf_size h.a k)) ++ contents (read_finish h n)
  unfolding contents
  contents-read_finish n p e q =
      ap (λ m. tabulate m (λ k. h.cell (ahead h.buf_size h.a k))) {y = n + (fill h - n)}
        (omega arith)
      ∙ tabulate_append n (fill h - n) _
      ∙ ap (◌++◌ (tabulate n (λ k. h.cell (ahead h.buf_size h.a k)))) (
          tabulate_ext (fill h - n) _ _
            (λ k l. sym (nth-read_finish n k (omega (arith, fill-le h v))))
          ∙ ap (λ m. tabulate m (nth (read_finish h n))) (sym (fill-read_finish h v n p e q)))

  nth-rewind :
      (k : ℕ)
      → k < fill h
      → let r = rewind h in r.cell (ahead r.buf_size r.a k) ≡ h.cell (ahead h.buf_size h.a k)
  unfolding ahead rewind fill
  nth-rewind k p = ground arith

  pub contents-rewind : contents (rewind h) ≡ contents h
  unfolding contents
  contents-rewind =
      ap (λ m. tabulate m (nth (rewind h))) (fill-rewind h v)
      ∙ tabulate_ext (fill h) _ _ (λ k p. nth-rewind k p)

  module _ (bytes : Bytes) (f : Fits h (length bytes)) (some : 0 < length bytes) where
    nth-write_old :
        (k : ℕ)
        → k < fill h
        → let r = write_bytes h bytes in
          r.cell (ahead r.buf_size r.a k) ≡ h.cell (ahead h.buf_size h.a k)
    unfolding ahead write_bytes fill
    nth-write_old k p = ground arith

    new_position :
        (k : ℕ)
        → k < length bytes
        → let r = write_bytes h bytes in ahead r.buf_size r.a (fill h + k) ≡ h.b + k
    unfolding ahead write_bytes fill
    new_position k p = ground arith

    nth-write_new :
        (k : ℕ) → k < length bytes → nth (write_bytes h bytes) (fill h + k) ≡ get_byte bytes k
    unfolding write_bytes
    nth-write_new k p =
        ap (filled h.cell h.b bytes) (new_position k p) ∙ filled_at h.cell h.b bytes k p

    -- The bytes that the thread stores follow those that are there.
    pub contents-write : contents (write_bytes h bytes) ≡ contents h ++ bytes
    unfolding contents
    contents-write =
        ap (λ m. tabulate m (nth (write_bytes h bytes))) (fill-write h v bytes f some)
        ∙ tabulate_append (fill h) (length bytes) _
        ∙ ap₂ ◌++◌ (tabulate_ext (fill h) _ _ nth-write_old)
            (tabulate_ext (length bytes) _ _ nth-write_new ∙ tabulate-get_byte bytes)
