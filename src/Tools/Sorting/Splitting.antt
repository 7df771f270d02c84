-- ===== src/Tools/Sorting/Splitting.antt =====
-- The partition of `quicksort_impl`: smaller elements before the pivot, greater ones behind it.
use gerber.Prelude.{
  ℕ, zero, suc, ◌+◌, ◌-◌, ◌<◌, ◌≤◌, ◌≡◌, refl, some, ap, ◌∙◌, true, false, Bool-cases, inl, inr,
  ltb, ◌==◌, arith,
}
use gerber.Prelude.Int.{ℤ}
use gerber.Tools.Sorting.{Partition, swap, le, exchange, round, partition}
use gerber.Tools.Sorting.Moves.{Moves, Moves-refl, Moves-trans, swap-Moves, swap_right, swap_other}
use gerber.Tools.Sorting.Scanning.{Up, Down, scan_up-Up, scan_down-Down}

module _ {ℓ} {A : Type ℓ} (comparator : A → A → ℤ) where
  -- The loop's invariant, for the part from `first` to `last`.
  pub record Splits (first last : ℕ) (p : A) (a : ℕ → A) (lo hi : ℕ) : Type ℓ where
    pub from : first ≤ lo
    pub order : lo ≤ hi
    pub upto : hi ≤ last
    pub small : (k : ℕ) → first ≤ k → k < lo → le comparator (a k) p ≡ true
    pub large : (k : ℕ) → hi ≤ k → k ≤ last → le comparator p (a k) ≡ true
    pub pivot : a last ≡ p

  module _ (total : (x y : A) → le comparator x y ≡ false → le comparator y x ≡ true)
      (first last : ℕ) (p : A) where
    -- A round keeps the invariant, brings the ends closer and only moves elements.
    record Goes (a : ℕ → A) (lo hi : ℕ) (r : Partition A) : Type ℓ where
      pub splits : Splits first last p r.array r.lo r.hi
      pub closer : r.hi - r.lo < hi - lo
      pub moves : Moves first (last + 1) a r.array

    module _ (a : ℕ → A) (lo hi up down : ℕ) (v : Splits first last p a lo hi) (open_ends : lo < hi)
        (u : Up comparator a p lo hi up) (d : Down comparator a p up hi down) where
      small_below : (k : ℕ) → first ≤ k → k < up → le comparator (a k) p ≡ true
      small_below k l m = elim (Bool-cases (ltb k lo)) [
        | inl e ↦ v.small k l (ground arith)
        | inr e ↦ u.small k (ground arith) m
      ]

      large_above : (k : ℕ) → down < k → k ≤ last → le comparator p (a k) ≡ true
      large_above k l m = elim (Bool-cases (ltb hi k)) [
        | inl e ↦ v.large k (ground arith) m
        | inr e ↦ d.large k l (ground arith)
      ]

      down_lt : up < down → down < hi
      down_lt h = elim (Bool-cases (down == hi)) [
        | inl e ↦ absurd (
            ground (
              arith,
              d.stops h,
              v.large hi,
              ap (λ k. le comparator p (a k)) {x = down} {y = hi} (ground arith),
              v.upto,
            ))
        | inr e ↦ ground (arith, d.upto)
      ]

      -- What stands where the searches end is greater than the pivot, or was passed before.
      large_up : up < hi → le comparator p (a up) ≡ true
      large_up h = total (a up) p (u.stops h)

      large_met : (up < down → ⊥) → (k : ℕ) → down ≤ k → k ≤ last → le comparator p (a k) ≡ true
      large_met h k l m = elim (Bool-cases (ltb down k)) [
        | inl e ↦ large_above k (ground arith) m
        | inr e ↦ elim (Bool-cases (ltb up hi)) [
          | inl f ↦
              ap (λ j. le comparator p (a j)) {x = k} {y = up} (ground (arith, d.from))
              ∙ large_up (ground arith)
          | inr f ↦ v.large k (ground (arith, d.from)) m
        ]
      ]

      large_crossed :
          up < down → (k : ℕ) → down ≤ k → k ≤ last → le comparator p (swap up down a k) ≡ true
      large_crossed h k l m = elim (Bool-cases (ltb down k)) [
        | inl e ↦
            ap (le comparator p) (swap_other up down a k (ground arith) (ground arith))
            ∙ large_above k (ground arith) m
        | inr e ↦
            ap (le comparator p)
              (ap (swap up down a) {x = k} {y = down} (ground arith) ∙ swap_right up down a)
            ∙ large_up (omega (arith, down_lt h))
      ]

      met : (up < down → ⊥) → Goes a lo hi record { array = a; lo = up; hi = down }
      met h = record {
        splits = record {
          from = omega (arith, v.from, u.from);
          order = d.from;
          upto = omega (arith, d.upto, v.upto);
          small = small_below;
          large = large_met h;
          pivot = v.pivot;
        };
        closer = ground (arith, d.from);
        moves = Moves-refl first (last + 1) a;
      }

      crossed : (h : up < down) → Goes a lo hi record { array = swap up down a; lo = up; hi = down }
      crossed h = record {
        splits = record {
          from = omega (arith, v.from, u.from);
          order = d.from;
          upto = omega (arith, d.upto, v.upto);
          small = λ k l m.
              ap (λ x. le comparator x p) (swap_other up down a k (omega arith) (omega arith))
              ∙ small_below k l m;
          large = large_crossed h;
          pivot =
              swap_other up down a last (omega (arith, v.upto, d.upto))
                (omega (arith, v.upto, down_lt h))
              ∙ v.pivot;
        };
        closer = omega (arith, down_lt h, u.from, d.from);
        moves =
            swap-Moves first (last + 1) up down a (omega (arith, v.from, u.from))
              (omega (arith, d.upto, v.upto)) (omega (arith, v.from, u.from))
              (omega (arith, d.upto, v.upto));
      }

      exchange-Goes : Goes a lo hi (exchange a up down)
      unfolding exchange
      exchange-Goes = elim (Bool-cases (ltb up down)) [
        | inl e ↦ rw e (crossed (ground arith))
        | inr e ↦ rw e (met (λ h. ground arith))
      ]

    round-Goes :
        (a : ℕ → A) (lo hi : ℕ)
        → Splits first last p a lo hi
        → lo < hi
        → (r : Partition A) × (round comparator p a lo hi ≡ some r) × Goes a lo hi r
    unfolding round
    round-Goes a lo hi v h =
        let (up, e, u) = scan_up-Up comparator (hi - lo) a p lo hi (omega arith) (omega arith) in
        let (down, f, d) = scan_down-Down comparator (hi - up) a p up hi (omega arith) u.upto in
        (exchange a up down, rw (e, f) refl, exchange-Goes a lo hi up down v h u d)

    -- The loop ends with the ends together.
    pub record Parts (a : ℕ → A) (r : Partition A) : Type ℓ where
      pub splits : Splits first last p r.array r.lo r.hi
      pub together : r.lo ≡ r.hi
      pub moves : Moves first (last + 1) a r.array

    Parts-here :
        (r : Partition A) → Splits first last p r.array r.lo r.hi → r.hi ≤ r.lo → Parts r.array r
    Parts-here r v h = record {
      splits = v;
      together = omega (arith, v.order);
      moves = Moves-refl first (last + 1) r.array;
    }

    -- The loop ends within the fuel.
    pub partition-Parts :
        (fuel : ℕ) (r : Partition A)
        → Splits first last p r.array r.lo r.hi
        → r.hi - r.lo ≤ fuel
        → (q : Partition A) × (partition comparator fuel p r ≡ some q) × Parts r.array q
    unfolding partition
    partition-Parts zero r v f = (r, ground arith, Parts-here r v (omega arith))
    partition-Parts (suc fuel) r v f = elim (Bool-cases (ltb r.lo r.hi)) [
      | inl e ↦
          let (s, here, g) = round-Goes r.array r.lo r.hi v (ground arith) in
          let (q, there, rest) = partition-Parts fuel s g.splits (omega (arith, g.closer)) in
          (
            q,
            rw (e, here) there,
            record {
              splits = rest.splits;
              together = rest.together;
              moves = Moves-trans first (last + 1) r.array _ _ g.moves rest.moves;
            },
          )
      | inr e ↦ (r, rw e refl, Parts-here r v (ground arith))
    ]
