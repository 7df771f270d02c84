-- ===== src/Tools/Sorting.antt =====
-- tools.cc, `quicksort`, over any type of elements and any comparator.
pub mod Moves
pub mod Scanning
pub mod Splitting
pub mod Centering
pub mod Sorted
use gerber.Prelude.{
  ℕ, zero, suc, ◌+◌, ◌-◌, ◌/◌, Bool, ◌&&◌, not, ltb, leb, ◌==◌, Option, none, some, if◌then◌else◌,
}
use gerber.Prelude.Int.{ℤ, pos_part}

infixl 5 ◌>>=◌
abbrev ◌>>=◌ {ℓ κ} : {A : Type ℓ} {B : Type κ} → Option A → (A → Option B) → Option B
none >>= f = none
some a >>= f = f a

-- A partition on its way.
pub record Partition {ℓ} (A : Type ℓ) : Type ℓ where
  pub array : ℕ → A
  pub lo : ℕ
  pub hi : ℕ

module _ {ℓ} {A : Type ℓ} where
  -- `a[i] = x`.
  unfoldable pub store : (ℕ → A) → ℕ → A → ℕ → A
  store a i x k = if k == i then x else a k

  -- The exchange of two elements by way of `T`.
  unfoldable pub swap : ℕ → ℕ → (ℕ → A) → ℕ → A
  unfolding store
  swap i j a = store (store a i (a j)) j (a i)

  -- The end of a round.
  unfoldable pub exchange : (ℕ → A) → ℕ → ℕ → Partition A
  unfolding swap
  exchange a lo hi = record { array = if ltb lo hi then swap lo hi a else a; lo = lo; hi = hi }

module _ {ℓ} {A : Type ℓ} (comparator : A → A → ℤ) where
  -- `comparator(x, y) <= 0`.
  abbrev pub le : A → A → Bool
  le x y = pos_part (comparator x y) == 0

  -- The searches and the loops run on fuel; `none` is a loop that goes on when the fuel is spent.
  -- The search forward.
  unfoldable pub scan_up : ℕ → (ℕ → A) → A → ℕ → ℕ → Option ℕ
  scan_up zero a pivot lo hi = if le (a lo) pivot && ltb lo hi then none else some lo
  scan_up (suc fuel) a pivot lo hi =
      let rest = scan_up fuel a pivot (suc lo) hi in
      if le (a lo) pivot && ltb lo hi then rest else some lo

  -- The search backward.
  unfoldable pub scan_down : ℕ → (ℕ → A) → A → ℕ → ℕ → Option ℕ
  scan_down zero a pivot lo hi = if le pivot (a hi) && ltb lo hi then none else some hi
  scan_down (suc fuel) a pivot lo hi =
      let rest = scan_down fuel a pivot lo (hi - 1) in
      if le pivot (a hi) && ltb lo hi then rest else some hi

  -- A round of the outer loop. Each search has as much fuel as the ends are apart.
  unfoldable pub round : A → (ℕ → A) → ℕ → ℕ → Option (Partition A)
  unfolding scan_up scan_down exchange
  round pivot a lo hi = do
    up ← scan_up (hi - lo) a pivot lo hi
    down ← scan_down (hi - up) a pivot up hi
    some (exchange a up down)

  -- `while( lo < hi )`.
  unfoldable pub partition : ℕ → A → Partition A → Option (Partition A)
  unfolding round
  partition zero pivot p = if ltb p.lo p.hi then none else some p
  partition (suc fuel) pivot p =
      let rest = (do q ← round pivot p.array p.lo p.hi; partition fuel pivot q) in
      if ltb p.lo p.hi then rest else some p

  -- The pivot out of the way, the loop, and the median in the center; `last` is `hi0`.
  unfoldable pub split : (ℕ → A) → ℕ → ℕ → Option (Partition A)
  unfolding partition store swap
  split a lo last =
      let mid = (lo + last) / 2 in
      let pivot = a mid in
      do
        p ←
            partition (last - lo) pivot
              record { array = store (store a mid (a last)) last pivot; lo = lo; hi = last }
        some (record p { array = store (store p.array last (p.array p.hi)) p.hi pivot })

  -- `quicksort_impl` on the elements from `lo` to `end - 1`, which is `hi0`; the fuel is for the depth
  -- of the calls.
  unfoldable pub quicksort_impl : ℕ → (ℕ → A) → ℕ → ℕ → Option (ℕ → A)
  unfolding split swap
  quicksort_impl zero a lo end = if leb end (lo + 1) then some a else none
  quicksort_impl (suc fuel) a lo end =
      let both = (do
        p ← split a lo (end - 1)
        left ← quicksort_impl fuel p.array lo p.lo
        quicksort_impl fuel left (p.hi + 1) end) in
      if leb end (lo + 1)
      then some a
      else if end == lo + 2
      then some (if not (le (a lo) (a (lo + 1))) then swap lo (lo + 1) a else a)
      else both

  unfoldable pub quicksort : (ℕ → A) → ℕ → Option (ℕ → A)
  unfolding quicksort_impl
  quicksort arr size = quicksort_impl size arr 0 size
