-- ===== src/Prelude/Table.antt =====
-- Facts about bytes by evaluation over all values.
use gerber.Prelude.{ℕ, zero, suc, ◌<◌, ◌≡◌, Bool, true, false, arith, if◌then◌else◌}

-- Whether `test` passes at each number less than `bound`.
unfoldable pub all_below : (bound : ℕ) (test : ℕ → Bool) → Bool
all_below zero test = true
all_below (suc last) test = let before = all_below last test in if test last then before else false

pub all_below_lem :
    (bound : ℕ) (test : ℕ → Bool) (c : ℕ) → all_below bound test ≡ true → c < bound → test c ≡ true
unfolding all_below
all_below_lem zero test c all small = absurd (omega arith)
all_below_lem (suc last) test c all small = ground (arith, all_below_lem last test c)
