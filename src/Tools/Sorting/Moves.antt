-- ===== src/Tools/Sorting/Moves.antt =====
-- Exchanges within a part of an array.
use gerber.Prelude.{
  ℕ, zero, suc, ◌+◌, ◌<◌, ◌≤◌, ◌≡◌, ◌≢◌, ap, refl, ◌∙◌, Bool, true, false, Bool-cases, inl, inr,
  ◌⊎◌, ◌==◌, arith,
}
use gerber.Tools.Sorting.{store, swap}

abbrev bit : Bool → ℕ
bit true = 1
bit false = 0

module _ {ℓ} {A : Type ℓ} where
  -- How many of the first `n` elements satisfy a test.
  unfoldable pub count : (A → Bool) → ℕ → (ℕ → A) → ℕ
  count p zero a = 0
  count p (suc n) a = bit (p (a n)) + count p n a

  count_beyond :
      (p : A → Bool) (n i : ℕ) (a : ℕ → A) (x : A) → n ≤ i → count p n (store a i x) ≡ count p n a
  unfolding count store
  count_beyond p zero i a x h = refl
  count_beyond p (suc n) i a x h = ground (arith, count_beyond p n i a x)

  store_hit : (a : ℕ → A) (i k : ℕ) (x : A) → k ≡ i → store a i x k ≡ x
  unfolding store
  store_hit a i k x h = ground arith

  store_miss : (a : ℕ → A) (i k : ℕ) (x : A) → k ≢ i → store a i x k ≡ a k
  unfolding store
  store_miss a i k x h = ground arith

  store_own : (a : ℕ → A) (i j : ℕ) → store a i (a j) j ≡ a j
  unfolding store
  store_own a i j = elim (Bool-cases (j == i)) [ inl e ↦ rw e refl | inr e ↦ rw e refl ]

  count-store :
      (p : A → Bool) (n i : ℕ) (a : ℕ → A) (x : A)
      → i < n
      → count p n (store a i x) + bit (p (a i)) ≡ count p n a + bit (p x)
  unfolding count
  count-store p zero i a x h = absurd (omega arith)
  count-store p (suc n) i a x h = elim (Bool-cases (n == i)) [
    | inl e ↦
        rw (store_hit a i n x (ground arith), count_beyond p n i a x (ground arith))
          (omega (arith, ap (λ k. bit (p (a k))) {x = n} {y = i} (ground arith)))
    | inr e ↦
        rw (store_miss a i n x (ground arith)) (omega (arith, count-store p n i a x (ground arith)))
  ]

  count-swap :
      (p : A → Bool) (n i j : ℕ) (a : ℕ → A) → i < n → j < n → count p n (swap i j a) ≡ count p n a
  unfolding swap
  count-swap p n i j a hi hj = omega (
    arith,
    count-store p n j (store a i (a j)) (a i) hj,
    count-store p n i a (a j) hi,
    ap (λ y. bit (p y)) (store_own a i j),
  )

  -- A part of an array, from `lo` up to `end`, has been permuted: nothing else has changed, what held
  -- of all of its elements still does, and each test holds of as many elements of the array.
  pub record Moves (lo end : ℕ) (a b : ℕ → A) : Type ℓ where
    pub frame : (k : ℕ) → (k < lo) ⊎ (end ≤ k) → b k ≡ a k
    pub closed :
        (q : A → Bool)
        → ((k : ℕ) → lo ≤ k → k < end → q (a k) ≡ true)
        → (k : ℕ) → lo ≤ k
        → k < end
        → q (b k) ≡ true
    pub counts : (p : A → Bool) (n : ℕ) → end ≤ n → count p n b ≡ count p n a

  pub Moves-refl : (lo end : ℕ) (a : ℕ → A) → Moves lo end a a
  Moves-refl lo end a = record {
    frame = λ k h. refl;
    closed = λ q h k l u. h k l u;
    counts = λ p n h. refl;
  }

  pub Moves-trans :
      (lo end : ℕ) (a b c : ℕ → A) → Moves lo end a b → Moves lo end b c → Moves lo end a c
  Moves-trans lo end a b c f g = record {
    frame = λ k h. g.frame k h ∙ f.frame k h;
    closed = λ q h. g.closed q (f.closed q h);
    counts = λ p n h. g.counts p n h ∙ f.counts p n h;
  }

  pub swap_left : (i j : ℕ) (a : ℕ → A) → swap i j a i ≡ a j
  unfolding swap
  swap_left i j a = elim (Bool-cases (i == j)) [
    | inl e ↦ store_hit (store a i (a j)) j i (a i) (ground arith) ∙ ap a (ground arith)
    | inr e ↦ store_miss (store a i (a j)) j i (a i) (ground arith) ∙ store_hit a i i (a j) refl
  ]

  pub swap_right : (i j : ℕ) (a : ℕ → A) → swap i j a j ≡ a i
  unfolding swap
  swap_right i j a = store_hit (store a i (a j)) j j (a i) refl

  pub swap_other : (i j : ℕ) (a : ℕ → A) (k : ℕ) → k ≢ i → k ≢ j → swap i j a k ≡ a k
  unfolding swap
  swap_other i j a k hi hj = store_miss (store a i (a j)) j k (a i) hj ∙ store_miss a i k (a j) hi

  swap_closed :
      (lo end i j : ℕ) (a : ℕ → A)
      → lo ≤ i
      → i < end
      → lo ≤ j
      → j < end
      → (q : A → Bool) → ((k : ℕ) → lo ≤ k → k < end → q (a k) ≡ true)
      → (k : ℕ) → lo ≤ k
      → k < end
      → q (swap i j a k) ≡ true
  swap_closed lo end i j a li ui lj uj q h k l u = elim (Bool-cases (k == i)) [
    | inl e ↦ ap q (ap (swap i j a) {x = k} {y = i} (ground arith) ∙ swap_left i j a) ∙ h j lj uj
    | inr e ↦ elim (Bool-cases (k == j)) [
      | inl f ↦ ap q (ap (swap i j a) {x = k} {y = j} (ground arith) ∙ swap_right i j a) ∙ h i li ui
      | inr f ↦ ap q (swap_other i j a k (ground arith) (ground arith)) ∙ h k l u
    ]
  ]

  pub swap-Moves :
      (lo end i j : ℕ) (a : ℕ → A)
      → lo ≤ i
      → i < end
      → lo ≤ j
      → j < end
      → Moves lo end a (swap i j a)
  swap-Moves lo end i j a li ui lj uj = record {
    frame = λ k h. swap_other i j a k (outside k i h li ui) (outside k j h lj uj);
    closed = swap_closed lo end i j a li ui lj uj;
    counts = λ p n h. count-swap p n i j a (omega arith) (omega arith);
  }
    where
      outside : (k m : ℕ) → (k < lo) ⊎ (end ≤ k) → lo ≤ m → m < end → k ≢ m
      outside k m (inl h) l u = omega arith
      outside k m (inr h) l u = omega arith
