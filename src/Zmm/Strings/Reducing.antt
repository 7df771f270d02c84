-- ===== src/Zmm/Strings/Reducing.antt =====
-- What `reduce` leaves of a text.
use gerber.Prelude.{
  subst, All-parts, ℕ, zero, suc, ◌≤◌, ◌<◌, ◌≡◌, ◌≢◌, refl, sym, ap, ◌∙◌, Bool-cases, inl, inr,
  ◌&&◌, [], ◌∷◌, ◌++◌, some, none, false, true, arith, ◌==◌, if◌then◌else◌, length, take, drop,
  length-append, take-append, drop-append, append_assoc,
}
use gerber.Zmm.Strings.{
  char_at, Bytes, Lacks, c_str, strchr, skip_run, heads, reduce_round, reduce_next, reduce_loop,
  reduce,
}
use gerber.Zmm.Strings.Search.{strchr-Finds, c_str-Lacks}

-- The text in which each run of the character is a single one.
abbrev pub collapse : ℕ → Bytes → Bytes
collapse c [] = []
collapse c (x ∷ xs) = if x == c && heads c xs then collapse c xs else x ∷ collapse c xs

collapse_run : (c : ℕ) (t : Bytes) → collapse c (c ∷ t) ≡ c ∷ collapse c (skip_run c t)
unfolding skip_run
collapse_run c [] = ground arith
collapse_run c (x ∷ t) = ground (arith, collapse_run c t)

skip_run_head : (c : ℕ) (t : Bytes) → skip_run c (c ∷ t) ≡ skip_run c t
unfolding skip_run
skip_run_head c t = ground arith

collapse_single : (c : ℕ) (t : Bytes) → heads c t ≡ false → collapse c (c ∷ t) ≡ c ∷ collapse c t
collapse_single c t h = ground arith

collapse-append :
    (c : ℕ) (p r : Bytes) → Lacks c p → collapse c (p ++ c ∷ r) ≡ p ++ collapse c (c ∷ r)
collapse-append c [] r h = refl
collapse-append c (x ∷ p) r h = rw (← collapse-append c p r h.1) (ground arith)

collapse-Lacks : (c : ℕ) (s : Bytes) → Lacks c s → collapse c s ≡ s
collapse-Lacks c [] h = refl
collapse-Lacks c (x ∷ s) h = ground (arith, collapse-Lacks c s h.1)

skip_run-Lacks : (c : ℕ) (s : Bytes) → Lacks 0 s → Lacks 0 (skip_run c s)
unfolding skip_run
skip_run-Lacks c [] h = tt
skip_run-Lacks c (x ∷ s) h = ground (arith, skip_run-Lacks c s h.1)

length-skip_run : (c : ℕ) (s : Bytes) → length (skip_run c s) ≤ length s
unfolding skip_run
length-skip_run c [] = omega arith
length-skip_run c (x ∷ s) = ground (arith, length-skip_run c s)

pub collapse-Keeps : (d c : ℕ) (s : Bytes) → Lacks d s → Lacks d (collapse c s)
collapse-Keeps d c [] h = tt
collapse-Keeps d c (x ∷ s) h = ground (arith, collapse-Keeps d c s h.1)

pub collapse_head :
    (c : ℕ) (path : Bytes) → char_at path 0 ≡ c → c ≢ 0 → char_at (collapse c path) 0 ≡ c
collapse_head c [] h z = h
collapse_head c (x ∷ path) h z = ground (arith, collapse_head c path)

pub collapse_head_back :
    (c : ℕ) (path : Bytes) → char_at (collapse c path) 0 ≡ c → char_at path 0 ≡ c
collapse_head_back c [] h = h
collapse_head_back c (x ∷ path) h = ground (arith, collapse_head_back c path)

pub length-collapse : (c : ℕ) (path : Bytes) → length (collapse c path) ≤ length path
length-collapse c [] = omega arith
length-collapse c (x ∷ path) = ground (arith, length-collapse c path)

module _ (c : ℕ) (out kept t : Bytes) where
  round_run :
      heads c t ≡ true
      → reduce_round c out kept (c ∷ t) ≡ (out ++ (kept ++ c ∷ []), [], skip_run c t)
  unfolding reduce_round
  round_run e = rw (e, skip_run_head c t)

  round_single : heads c t ≡ false → reduce_round c out kept (c ∷ t) ≡ (out, kept ++ c ∷ [], t)
  unfolding reduce_round
  round_single e = rw e

module _ (loop : Bytes → Bytes → Bytes → Bytes) (c : ℕ) (out kept : Bytes) where
  next_none : (r : Bytes) → strchr c r ≡ none → reduce_next loop c out kept r ≡ out ++ (kept ++ r)
  unfolding reduce_next
  next_none r e = rw (e, reduce_next)

  next_some :
      (p q : Bytes)
      → strchr c (p ++ q) ≡ some (length p)
      → reduce_next loop c out kept (p ++ q) ≡ loop out (kept ++ p) q
  unfolding reduce_next
  next_some p q e = rw (e, reduce_next) (rw (take-append p q, drop-append p q))

module _ (c : ℕ) (nonzero : c ≢ 0) where
  -- What the loop makes of a text that begins with the character.
  abbrev Loops : (Bytes → Bytes → Bytes → Bytes) → ℕ → Type 0
  Loops loop n =
      (out kept t : Bytes)
      → length t < n
      → Lacks 0 t
      → loop out kept (c ∷ t) ≡ out ++ (kept ++ collapse c (c ∷ t))

  reduce_next_lem :
      (loop : Bytes → Bytes → Bytes → Bytes) (n : ℕ)
      → Loops loop n
      → (out kept r : Bytes) → length r ≤ n
      → Lacks 0 r
      → reduce_next loop c out kept r ≡ out ++ (kept ++ collapse c r)
  unfolding reduce_next
  reduce_next_lem loop n goes out kept r f h = elim (strchr-Finds c nonzero r h) [
    | inl (e, lacks) ↦
        next_none loop c out kept r e
        ∙ ap (λ t. out ++ (kept ++ t)) (sym (collapse-Lacks c r lacks))
    | inr (p, q, e, g, lacks) ↦
        ap (reduce_next loop c out kept) e
        ∙ next_some loop c out kept p (c ∷ q) (ap (strchr c) (sym e) ∙ g)
        ∙ goes out (kept ++ p) q (omega (arith, ap length e, length-append p (c ∷ q)))
            (All-parts _ p (c ∷ q) (subst (Lacks 0) e h)).1.1
        ∙ ap (◌++◌ out) (
            append_assoc kept p (collapse c (c ∷ q))
            ∙ ap (◌++◌ kept) (sym (collapse-append c p q lacks) ∙ ap (collapse c) (sym e)))
  ]

  reduce_loop-Loops : (fuel : ℕ) → Loops (reduce_loop fuel c) fuel
  unfolding reduce_loop reduce_round
  reduce_loop-Loops zero out kept t f h = absurd (omega arith)
  reduce_loop-Loops (suc fuel) out kept t f h = elim (Bool-cases (heads c t)) [
    | inl e ↦
        ap (λ (r : Bytes × Bytes × Bytes). reduce_next (reduce_loop fuel c) c r.0 r.1 r.2)
          (round_run c out kept t e)
        ∙ reduce_next_lem (reduce_loop fuel c) fuel (reduce_loop-Loops fuel)
            (out ++ (kept ++ c ∷ [])) [] (skip_run c t) (omega (arith, length-skip_run c t))
            (skip_run-Lacks c t h)
        ∙ append_assoc out (kept ++ c ∷ []) _
        ∙ ap (◌++◌ out) (append_assoc kept (c ∷ []) _ ∙ ap (◌++◌ kept) (sym (collapse_run c t)))
    | inr e ↦
        ap (λ (r : Bytes × Bytes × Bytes). reduce_next (reduce_loop fuel c) c r.0 r.1 r.2)
          (round_single c out kept t e)
        ∙ reduce_next_lem (reduce_loop fuel c) fuel (reduce_loop-Loops fuel) out (kept ++ c ∷ []) t
            (omega arith) h
        ∙ ap (◌++◌ out)
            (append_assoc kept (c ∷ []) _ ∙ ap (◌++◌ kept) (sym (collapse_single c t e)))
  ]

  -- On a text without a NUL `reduce` makes each run of the character a single one.
  pub reduce-collapse : (s : Bytes) → Lacks 0 s → reduce c (some s) ≡ some (collapse c s)
  unfolding reduce
  reduce-collapse s h = elim (strchr-Finds c nonzero s h) [
    | inl (e, lacks) ↦ rw (e, reduce) (ap some (sym (collapse-Lacks c s lacks)))
    | inr (p, q, e, g, lacks) ↦
        rw (g, reduce)
          (ap (λ t. some (c_str t))
              (subst
                (λ t.
                  reduce_loop (length s) c [] (take (length p) t) (drop (length p) t)
                  ≡ collapse c t)
                (sym e)
                (rw (take-append p (c ∷ q), drop-append p (c ∷ q), collapse-append c p q lacks)
                  (reduce_loop-Loops (length s) [] p q
                    (omega (arith, ap length e, length-append p (c ∷ q)))
                    (All-parts _ p (c ∷ q) (subst (Lacks 0) e h)).1.1)))
            ∙ ap some (c_str-Lacks (collapse c s) (collapse-Keeps 0 c s h)))
  ]
