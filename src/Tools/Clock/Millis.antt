-- ===== src/Tools/Clock/Millis.antt =====
-- Adding milliseconds and measuring them.
use gerber.Prelude.{
  ℕ, suc, ◌+◌, ◌-◌, ◌*◌, ◌/◌, ◌%◌, ◌<◌, ◌≤◌, ◌≡◌, ap, ◌∙◌, Bool-cases, inl, inr, arith, leb,
}
use gerber.Prelude.Int.{pos, negsuc, sub_ℕ, ◌+ℤ◌, ◌*ℤ◌}
use gerber.Zmm.Number.{negated}
use gerber.Tools.Clock.{Timespec, quotient, get_delta_millis, get_timespec_after_millis}

-- The nanoseconds are less than a second.
abbrev pub IsNormal : Timespec → Type 0
IsNormal t = t.tv_nsec < 1000000000

later : (a b : ℕ) → sub_ℕ (a + b) a ≡ pos b
later a b = ground arith

millis : (q m : ℕ) → pos q *ℤ pos 1000 +ℤ pos m ≡ pos (q * 1000 + m)
unfolding ◌+ℤ◌ ◌*ℤ◌
millis q m = ground arith

millis_back :
    (q m : ℕ) → m < 1000 → pos (q + 1) *ℤ pos 1000 +ℤ negsuc (999 - m) ≡ pos (q * 1000 + m)
unfolding ◌+ℤ◌ ◌*ℤ◌
millis_back q m h = ground arith

quotient_later : (n m : ℕ) → quotient (sub_ℕ (n + m * 1000000) n) 1000000 ≡ pos m
quotient_later n m =
    ap (λ z. quotient z 1000000) (later n (m * 1000000))
    ∙ ap pos {x = m * 1000000 / 1000000} {y = m} (omega arith)

quotient_earlier :
    (n m : ℕ)
    → m < 1000
    → n + m * 1000000 < 2000000000
    → 1000000000 ≤ n + m * 1000000
    → n < 1000000000
    → quotient (sub_ℕ (n + m * 1000000 - 1000000000) n) 1000000 ≡ negsuc (999 - m)
unfolding negated
quotient_earlier n m h p g l = ap (λ z. quotient z 1000000) back ∙ ground (arith, size)
  where
    back : sub_ℕ (n + m * 1000000 - 1000000000) n ≡ negsuc ((1000 - m) * 1000000 - 1)
    back = ground arith

    size : suc ((1000 - m) * 1000000 - 1) / 1000000 ≡ suc (999 - m)
    size = omega arith

no_carry :
    (s q n m : ℕ)
    → sub_ℕ (s + q) s *ℤ pos 1000 +ℤ quotient (sub_ℕ (n + m * 1000000) n) 1000000
      ≡ pos (q * 1000 + m)
no_carry s q n m =
    ap (λ z. z *ℤ pos 1000 +ℤ quotient (sub_ℕ (n + m * 1000000) n) 1000000) (later s q)
    ∙ ap (λ z. pos q *ℤ pos 1000 +ℤ z) (quotient_later n m)
    ∙ millis q m

carry :
    (s q n m : ℕ)
    → m < 1000
    → n < 1000000000
    → 1000000000 ≤ n + m * 1000000
    → sub_ℕ (s + q + 1) s *ℤ pos 1000 +ℤ quotient (sub_ℕ (n + m * 1000000 - 1000000000) n) 1000000
      ≡ pos (q * 1000 + m)
carry s q n m h l g =
    ap (λ z. z *ℤ pos 1000 +ℤ quotient (sub_ℕ (n + m * 1000000 - 1000000000) n) 1000000)
      (ap (λ k. sub_ℕ k s) {x = s + q + 1} {y = s + (q + 1)} (omega arith) ∙ later s (q + 1))
    ∙ ap (λ z. pos (q + 1) *ℤ pos 1000 +ℤ z) (quotient_earlier n m h (omega arith) g l)
    ∙ millis_back q m h

-- The time that is so many milliseconds after a normal one is normal, and measured from there it is
-- exactly so many milliseconds later.
pub get_delta_millis-get_timespec_after_millis :
    (delta : ℕ) (start : Timespec)
    → IsNormal start
    → IsNormal (get_timespec_after_millis delta start)
      × (get_delta_millis start (get_timespec_after_millis delta start) ≡ pos delta)
unfolding get_timespec_after_millis get_delta_millis
get_delta_millis-get_timespec_after_millis delta start v =
    let whole : delta / 1000 * 1000 + delta % 1000 ≡ delta = omega arith in
    elim (Bool-cases (leb 1000000000 (start.tv_nsec + (delta % 1000) * 1000000))) [
      | inl e ↦ rw e (
        ground arith,
        carry start.tv_sec (delta / 1000) start.tv_nsec (delta % 1000) (omega arith) v
              (ground arith)
            ∙ ap pos whole,
      )
      | inr e ↦ rw e (
        ground arith,
        no_carry start.tv_sec (delta / 1000) start.tv_nsec (delta % 1000) ∙ ap pos whole,
      )
    ]
