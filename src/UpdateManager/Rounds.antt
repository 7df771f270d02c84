-- ===== src/UpdateManager/Rounds.antt =====
-- The rounds of the thread are runs.
use gerber.Prelude.{◌≡◌, ◌⊎◌, true, false, Bool, not, ◌&&◌, ◌||◌, List, [], ◌++◌, if◌then◌else◌}
use gerber.Prelude.Int.{ℤ, member}
use gerber.UpdateManager.{State, have_updates, sleeps}
use gerber.UpdateManager.Delivery.{Run}

-- A run to the state, which tells storage of what the others tell it of, if the round waits, and then
-- of the ids that the round sends, and of nothing else.
pub record Sends (s : State) (log : List ℤ) (due throws : Bool) (r : State × List ℤ) : Type 0 where
  pub waits : Bool
  pub run : Run s ((if waits then log else []) ++ r.1) r.0
  pub emptied : due ≡ true → throws ≡ false → r.0.object_ids ≡ []
  pub unsent : due ≡ false → r.1 ≡ []
  pub none_lost :
      (k : ℤ)
      → member k s.object_ids ≡ true
      → (member k ((if waits then log else []) ++ r.1) ≡ true) ⊎ (member k r.0.object_ids ≡ true)

-- The round sends if there are updates, and no wait is timed out or ends with the server.
abbrev pub is_due : ℤ → Bool → Bool → State → Bool
is_due time_diff timed_out shut s =
    have_updates s && not (sleeps time_diff s && (shut || timed_out))
