-- ===== src/Tools/Sorting/Centering.antt =====
-- The partition with its pivot in the center.
use gerber.Prelude.{
  refl, some, ℕ, ◌+◌, ◌-◌, ◌/◌, ◌<◌, ◌≤◌, ◌≡◌, ap, ◌∙◌, subst, true, false, Bool-cases, inl, inr,
  ◌==◌, arith,
}
use gerber.Prelude.Int.{ℤ}
use gerber.Tools.Sorting.{store, Partition, store, swap, le, split}
use gerber.Tools.Sorting.Moves.{Moves, Moves-trans, swap-Moves, swap_left, swap_right, swap_other}
use gerber.Tools.Sorting.Splitting.{Splits, Parts, partition-Parts}

module _ {ℓ} {A : Type ℓ} (comparator : A → A → ℤ) where
  -- A part of an array that has been split at an element.
  pub record IsSplit (first last : ℕ) (a : ℕ → A) (r : Partition A) : Type ℓ where
    pub from : first ≤ r.lo
    pub together : r.lo ≡ r.hi
    pub upto : r.hi ≤ last
    pub small : (k : ℕ) → first ≤ k → k < r.hi → le comparator (r.array k) (r.array r.hi) ≡ true
    pub large : (k : ℕ) → r.hi < k → k ≤ last → le comparator (r.array r.hi) (r.array k) ≡ true
    pub moves : Moves first (last + 1) a r.array

  module _ (total : (x y : A) → le comparator x y ≡ false → le comparator y x ≡ true) where
    le_refl : (x : A) → le comparator x x ≡ true
    le_refl x = elim (Bool-cases (le comparator x x)) [ inl e ↦ e | inr e ↦ total x x e ]

    -- The pivot goes to where the ends have met.
    center :
        (first last : ℕ) (p : A) (a : ℕ → A) (r : Partition A)
        → Parts comparator total first last p a r
        → IsSplit first last a (record r { array = swap last r.hi r.array })
    center first last p a r v = record {
      from = v.splits.from;
      together = v.together;
      upto = v.splits.upto;
      small = λ k l m. rw middle (
          ap (λ x. le comparator x p)
            (swap_other last r.hi r.array k (omega (arith, v.splits.upto)) (omega arith))
          ∙ v.splits.small k l (omega (arith, v.together)));
      large = λ k l m. rw middle (above k l m);
      moves = Moves-trans first (last + 1) a _ _ v.moves (
          swap-Moves first (last + 1) last r.hi r.array
            (omega (arith, v.splits.from, v.splits.order, v.splits.upto))
            (omega (arith, v.splits.from, v.splits.order, v.splits.upto))
            (omega (arith, v.splits.from, v.splits.order, v.splits.upto))
            (omega (arith, v.splits.from, v.splits.order, v.splits.upto)));
    }
      where
        middle : swap last r.hi r.array r.hi ≡ p
        middle = swap_right last r.hi r.array ∙ v.splits.pivot

        above : (k : ℕ) → r.hi < k → k ≤ last → le comparator p (swap last r.hi r.array k) ≡ true
        above k l m = elim (Bool-cases (k == last)) [
          | inl e ↦
              ap (le comparator p) (
                ap (swap last r.hi r.array) {x = k} {y = last} (ground arith)
                ∙ swap_left last r.hi r.array)
              ∙ v.splits.large r.hi (omega arith) v.splits.upto
          | inr e ↦
              ap (le comparator p) (swap_other last r.hi r.array k (ground arith) (omega arith))
              ∙ v.splits.large k (omega arith) m
        ]

    IsSplit-from :
        (first last : ℕ) (a b : ℕ → A) (r : Partition A)
        → Moves first (last + 1) a b
        → IsSplit first last b r
        → IsSplit first last a r
    IsSplit-from first last a b r m v = record {
      from = v.from;
      together = v.together;
      upto = v.upto;
      small = v.small;
      large = v.large;
      moves = Moves-trans first (last + 1) a b r.array m v.moves;
    }

    start :
        (a : ℕ → A) (first last mid : ℕ)
        → first ≤ last
        → Splits comparator first last (a mid) (swap mid last a) first last
    start a first last mid h = record {
      from = omega arith;
      order = h;
      upto = omega arith;
      small = λ k l m. absurd (omega arith);
      large = λ k l m.
          ap (λ j. le comparator (a mid) (swap mid last a j)) {x = k} {y = last} (omega arith)
          ∙ ap (le comparator (a mid)) (swap_right mid last a)
          ∙ le_refl (a mid);
      pivot = swap_right mid last a;
    }

    pub split-IsSplit :
        (a : ℕ → A) (first last : ℕ)
        → first ≤ last
        → (r : Partition A) × (split comparator a first last ≡ some r) × IsSplit first last a r
    unfolding split swap
    split-IsSplit a first last h =
        let mid = (first + last) / 2 in
        let (q, e, v) =
          partition-Parts comparator total first last (a mid) (last - first)
            record { array = swap mid last a; lo = first; hi = last } (start a first last mid h)
            (omega arith) in
        let moved =
          IsSplit-from first last a (swap mid last a) _
            (swap-Moves first (last + 1) mid last a (omega arith) (omega arith) h (omega arith))
            (center first last (a mid) (swap mid last a) q v) in
        (
          record q { array = store (store q.array last (q.array q.hi)) q.hi (a mid) },
          rw e refl,
          subst
              (λ x.
                IsSplit first last a
                  (record q { array = store (store q.array last (q.array q.hi)) q.hi x }))
              v.splits.pivot moved,
        )
