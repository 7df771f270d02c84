-- ===== src/Tools/Clock.antt =====
-- tools.cc: `struct timespec` and its milliseconds.
pub mod Millis
use gerber.Prelude.{ℕ, suc, ◌+◌, ◌-◌, ◌*◌, ◌/◌, ◌%◌, ltb, leb, if◌then◌else◌}
use gerber.Prelude.Int.{ℤ, pos, negsuc, sub_ℕ, ◌+ℤ◌, ◌*ℤ◌}
use gerber.Zmm.Number.{negated}

pub record Timespec : Type 0 where
  pub tv_sec : ℕ
  pub tv_nsec : ℕ

-- C's quotient, which is cut towards zero.
abbrev pub quotient : ℤ → ℕ → ℤ
quotient (pos n) d = pos (n / d)
quotient (negsuc n) d = negated (suc n / d)

-- `getDeltaMillis(first, second)`.
unfoldable pub get_delta_millis : Timespec → Timespec → ℤ
get_delta_millis first second =
    sub_ℕ second.tv_sec first.tv_sec *ℤ pos 1000
    +ℤ quotient (sub_ℕ second.tv_nsec first.tv_nsec) 1000000

-- `getTimespecAfterMillis`, for the delays from 0 that its callers give.
unfoldable pub get_timespec_after_millis : ℕ → Timespec → Timespec
get_timespec_after_millis delta start =
    let sec = start.tv_sec + delta / 1000 in
    let nsec = start.tv_nsec + (delta % 1000) * 1000000 in
    if leb 1000000000 nsec
    then record { tv_sec = sec + 1; tv_nsec = nsec - 1000000000 }
    else record { tv_sec = sec; tv_nsec = nsec }
