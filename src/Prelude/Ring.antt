-- ===== src/Prelude/Ring.antt =====
-- Positions in a ring of cells, and the lists that stand in consecutive ones.
use native.Mathlib.Nat.{mod-eq_of_lt, mod-eq-sub-mod}
use gerber.Prelude.{
  ℕ, zero, suc, ◌+◌, ◌-◌, ◌%◌, ◌<◌, ◌≡◌, refl, ap, ap₂, ◌∙◌, List, [], ◌∷◌, ◌++◌, arith,
  if◌then◌else◌, ltb,
}

-- The position `n` steps behind `p` in a ring of `c` cells.
unfoldable pub ahead : ℕ → ℕ → ℕ → ℕ
ahead c p n = if ltb (p + n) c then p + n else p + n - c

pub ring_mod : (c p n : ℕ) → p < c → n < c → (p + n) % c ≡ ahead c p n
unfolding ahead
ring_mod c p n h k = ground (
  arith,
  mod-eq_of_lt {n = p + n} {m = c},
  mod-eq_of_lt {n = p + n - c} {m = c},
  mod-eq-sub-mod {n = p + n} {m = c},
)

module _ {ℓ} {A : Type ℓ} where
  unfoldable pub tabulate : ℕ → (ℕ → A) → List A
  tabulate zero f = []
  tabulate (suc n) f = f 0 ∷ tabulate n (λ k. f (suc k))

  pub tabulate_ext :
      (n : ℕ) (f g : ℕ → A) → ((k : ℕ) → k < n → f k ≡ g k) → tabulate n f ≡ tabulate n g
  unfolding tabulate
  tabulate_ext zero f g h = refl
  tabulate_ext (suc n) f g h =
      ap₂ ◌∷◌ (h 0 (omega arith)) (tabulate_ext n _ _ (λ k l. h (suc k) (omega arith)))

  pub tabulate_last : (n : ℕ) (f : ℕ → A) → tabulate (suc n) f ≡ tabulate n f ++ f n ∷ []
  unfolding tabulate
  tabulate_last zero f = refl
  tabulate_last (suc n) f = ap (◌∷◌ (f 0)) (tabulate_last n (λ k. f (suc k)))

  pub tabulate_append :
      (m n : ℕ) (f : ℕ → A) → tabulate (m + n) f ≡ tabulate m f ++ tabulate n (λ k. f (m + k))
  unfolding tabulate
  tabulate_append zero n f =
      ap₂ tabulate {y = n} (omega arith) refl
      ∙ tabulate_ext n f _ (λ k h. ap f {y = 0 + k} (omega arith))
  tabulate_append (suc m) n f =
      ap (λ t. tabulate t f) {y = suc (m + n)} (omega arith)
      ∙ ap (◌∷◌ (f 0)) (
          tabulate_append m n (λ k. f (suc k))
          ∙ ap (◌++◌ (tabulate m (λ k. f (suc k))))
              (tabulate_ext n _ _ (λ k h. ap f {y = suc m + k} (omega arith))))
