-- ===== src/Io/Memory/Window.antt =====
-- A handler over memory as a window on its buffer.
use gerber.Prelude.{
  ◌||◌, ℕ, zero, suc, ◌+◌, ◌-◌, ◌≤◌, ◌≡◌, refl, sym, ap, ap₂, ◌∙◌, List, [], ◌∷◌, ◌++◌, Option,
  none, some, ltb, leb, length, take, drop, length-drop, drop-length, arith, Bool-cases, inl, inr,
}
use gerber.Prelude.Int.{ℤ, pos, pos_part, ltb_ℤ, ◌+ℤ◌, ◌≤ℤ◌}
use gerber.Zmm.Strings.{Bytes}
use gerber.Io.Memory.{
  MemHandler, after_read, read_at, read, Whence, seek_set, seek_cur, seek_end, seek_other, place,
  seek_to, seek,
}

-- The position stays within the buffer.
abbrev pub IsWithin : MemHandler → Type 0
IsWithin h = place h.buffer h.pos ≤ length h.buffer

-- The bytes that are still to be read.
abbrev pub left : MemHandler → Bytes
left h = drop (place h.buffer h.pos) h.buffer

take_more : (n : ℕ) (xs : Bytes) → length xs ≤ n → take n xs ≡ take (length xs) xs
take_more zero [] h = refl
take_more (suc n) [] h = refl
take_more zero (x ∷ xs) h = absurd (omega arith)
take_more (suc n) (x ∷ xs) h = ap (◌∷◌ x) (take_more n xs (omega arith))

drop_more : (n : ℕ) (xs : Bytes) → length xs ≤ n → drop n xs ≡ []
drop_more zero [] h = refl
drop_more (suc n) [] h = refl
drop_more zero (x ∷ xs) h = absurd (omega arith)
drop_more (suc n) (x ∷ xs) h = drop_more n xs (omega arith)

drop-drop : (n m : ℕ) (xs : Bytes) → drop (n + m) xs ≡ drop m (drop n xs)
drop-drop zero m xs = ap (λ k. drop k xs) {x = 0 + m} {y = m} (omega arith)
drop-drop (suc n) m [] =
    ap (λ k. drop k []) {x = suc n + m} {y = suc (n + m)} (omega arith)
    ∙ sym (drop_more m [] (omega arith))
drop-drop (suc n) m (x ∷ xs) =
    ap (λ k. drop k (x ∷ xs)) {x = suc n + m} {y = suc (n + m)} (omega arith) ∙ drop-drop n m xs

place-after_read :
    (buffer : Bytes) (p : ℕ) → p ≤ length buffer → place buffer (after_read buffer p) ≡ p
unfolding after_read place
place-after_read buffer p h = elim (Bool-cases (leb (length buffer) p)) [
  | inl e ↦ rw e (ground arith)
  | inr e ↦ rw e refl
]

-- A read copies bytes of the window only, as many as asked for or as are left, and moves the window
-- behind them.
abbrev pub Reads : ℕ → MemHandler → Bytes × MemHandler → Type 0
Reads n h (bytes, after) =
    (bytes ≡ take n (left h))
    × (left after ≡ drop n (left h))
    × IsWithin after
    × (after.buffer ≡ h.buffer)

read_part :
    (n p : ℕ) (buffer : Bytes)
    → p + n ≤ length buffer
    → Reads n
        record { buffer = buffer; pos = some p }
        (take n (drop p buffer), record { buffer = buffer; pos = after_read buffer (p + n) })
unfolding place
read_part n p buffer h = (
  refl,
  rw (place-after_read buffer (p + n) h) (drop-drop p n buffer),
  rw (place-after_read buffer (p + n) h) h,
  refl,
)

Reads-more :
    (n m : ℕ) (h : MemHandler) (r : Bytes × MemHandler)
    → length (left h) ≡ m
    → m ≤ n
    → Reads m h r
    → Reads n h r
Reads-more n m h (bytes, after) e l (a, b, c, d) = (
  a ∙ ap (λ k. take k (left h)) (sym e) ∙ sym (take_more n (left h) (omega arith)),
  b ∙ drop_more m (left h) (omega arith) ∙ sym (drop_more n (left h) (omega arith)),
  c,
  d,
)

read_Reads :
    (n : ℕ) (buffer : Bytes) (at : Option ℕ)
    → IsWithin record { buffer = buffer; pos = at }
    → Reads n record { buffer = buffer; pos = at } (read_at n buffer at)
unfolding read_at place
read_Reads n buffer none h = (
  sym (ap (take n) (drop-length buffer) ∙ take_more n [] (omega arith)),
  drop-length buffer
      ∙ sym (
          drop_more n (drop (length buffer) buffer)
            (omega (arith, length-drop (length buffer) buffer))),
  h,
  refl,
)
read_Reads n buffer (some p) h = elim (Bool-cases (ltb (length buffer - p) n)) [
  | inl e ↦ rw e (
      Reads-more n (length buffer - p) record { buffer = buffer; pos = some p }
        (
          take (length buffer - p) (drop p buffer),
          record { buffer = buffer; pos = after_read buffer (p + (length buffer - p)) },
        )
        (length-drop p buffer) (ground arith)
        (read_part (length buffer - p) p buffer (omega arith)))
  | inr e ↦ rw e (read_part n p buffer (ground arith))
]

-- `read` with each of the sizes, one after the other, and what it copied in all.
unfoldable pub reads : List ℕ → MemHandler → Bytes × MemHandler
unfolding read
reads [] h = ([], h)
reads (n ∷ sizes) h =
    let (bytes, after) = read n h in let (more, last) = reads sizes after in (bytes ++ more, last)

abbrev pub sum : List ℕ → ℕ
sum [] = 0
sum (n ∷ sizes) = n + sum sizes

take_plus : (n m : ℕ) (xs : Bytes) → take n xs ++ take m (drop n xs) ≡ take (n + m) xs
take_plus zero m xs = ap (λ k. take k xs) {x = m} {y = 0 + m} (omega arith)
take_plus (suc n) m [] = take_more m [] (omega arith) ∙ sym (take_more (suc n + m) [] (omega arith))
take_plus (suc n) m (x ∷ xs) =
    ap (◌∷◌ x) (take_plus n m xs)
    ∙ ap (λ k. take k (x ∷ xs)) {x = suc (n + m)} {y = suc n + m} (omega arith)

Reads-zero : (h : MemHandler) → IsWithin h → Reads 0 h ([], h)
Reads-zero h v = (refl, refl, v, refl)

Reads-then :
    (n m : ℕ) (h : MemHandler) (r s : Bytes × MemHandler)
    → Reads n h r
    → Reads m r.1 s
    → Reads (n + m) h (r.0 ++ s.0, s.1)
Reads-then n m h (b, r) (c, s) (e, f, v, q) (e2, f2, v2, q2) = (
  ap₂ ◌++◌ e (e2 ∙ ap (take m) f) ∙ take_plus n m (left h),
  f2 ∙ ap (drop m) f ∙ sym (drop-drop n m (left h)),
  v2,
  q2 ∙ q,
)

-- A run of reads on a handler whose position is within the buffer copies bytes of the buffer from
-- the position on, as many as the sizes ask for in all or as are left, in order. It leaves the
-- position behind them, within the buffer, and the buffer as it was.
pub reads_lem : (sizes : List ℕ) (h : MemHandler) → IsWithin h → Reads (sum sizes) h (reads sizes h)
unfolding reads read
reads_lem [] h v = Reads-zero h v
reads_lem (n ∷ sizes) h v =
    let first = read_Reads n h.buffer h.pos v in
    Reads-then n (sum sizes) h (read n h) (reads sizes (read n h).1) first
      (reads_lem sizes (read n h).1 first.2)

-- The target of a seek, and whether it is refused.
abbrev pub target : ℤ → Whence → MemHandler → ℤ
target offset seek_cur h = pos (place h.buffer h.pos) +ℤ offset
target offset seek_end h = pos (length h.buffer) +ℤ offset
target offset _ h = offset

abbrev pub IsTarget : ℤ → MemHandler → Type 0
IsTarget t h = (pos 0 ≤ℤ t) × (t ≤ℤ pos (length h.buffer))

-- A value of `whence` that is known.
abbrev pub IsKnown : Whence → Type 0
IsKnown seek_other = ⊥
IsKnown _ = Unit

seek-target :
    (offset : ℤ) (w : Whence) (h : MemHandler)
    → IsKnown w
    → seek offset w h ≡ seek_to (target offset w h) h
unfolding seek
seek-target offset seek_set h k = refl
seek-target offset seek_cur h k = refl
seek-target offset seek_end h k = refl
seek-target offset seek_other h k = absurd k

-- What a seek comes to: the exception, or a handler that reads from the target on.
abbrev pub Seeks : ℤ → MemHandler → Option MemHandler → Type 0
Seeks t h none = ¬ IsTarget t h
Seeks t h (some after) =
    IsTarget t h
    × IsWithin after
    × (left after ≡ drop (pos_part t) h.buffer)
    × (after.buffer ≡ h.buffer)

seek_to-Seeks : (t : ℤ) (h : MemHandler) → Seeks t h (seek_to t h)
unfolding seek_to place
seek_to-Seeks t h = elim (Bool-cases (ltb_ℤ (pos (length h.buffer)) t || ltb_ℤ t (pos 0))) [
  | inl e ↦ rw e (λ v. ground arith)
  | inr e ↦ rw e (ground arith, ground arith, refl, refl)
]

-- `seek` throws just if its target is not between the start and the end of the buffer; else it
-- leaves the position at the target, within the buffer. `whence` is a known value.
pub seek-Seeks :
    (offset : ℤ) (w : Whence) (h : MemHandler)
    → IsKnown w
    → Seeks (target offset w h) h (seek offset w h)
seek-Seeks offset w h k = rw (seek-target offset w h k) (seek_to-Seeks (target offset w h) h)
