-- ===== src/Zmm/Queue/Fifo.antt =====
-- The ring buffer is a first-in first-out queue of any length.
use gerber.Prelude.Ring.{ahead, ring_mod, tabulate, tabulate_ext, tabulate_last}
use gerber.Prelude.{
  ℕ, suc, ◌+◌, ◌<◌, ◌≤◌, ◌≡◌, inl, inr, ap, ap₂, sym, ◌∙◌, true, false, Bool-cases, List, [], ◌∷◌,
  ◌++◌, arith,
}
use gerber.Zmm.Queue.{Queue, make, size, is_empty, resize, append, enqueue, dequeue, get}

module _ {A : Type 0} where
  -- The invariant of the ring.
  pub record IsRing (q : Queue A) : Type 0 where
    pub positive : 0 < q.capacity
    pub begin_lt : q.queue_begin < q.capacity
    pub end_lt : q.queue_end < q.capacity
    pub full : q.overlap ≡ true → q.queue_begin ≡ q.queue_end

  -- The `k`-th element, oldest first.
  pub nth : Queue A → ℕ → A
  unfolding ahead
  nth q k = q.cell (ahead q.capacity q.queue_begin k)

  -- The elements, oldest first.
  unfoldable pub to_list : Queue A → List A
  unfolding tabulate nth
  to_list q = tabulate (size q) (nth q)

  append-IsRing : (q : Queue A) (a : A) → IsRing q → q.overlap ≡ false → IsRing (append q a)
  unfolding append
  append-IsRing q a v f = ground arith

  pub resize-IsRing :
      (q : Queue A)
      → IsRing q
      → q.overlap ≡ true
      → IsRing (resize q (size q + 1)) × ((resize q (size q + 1)).overlap ≡ false)
  unfolding resize
  resize-IsRing q v f = ground arith

  pub dequeue-IsRing : (q : Queue A) → IsRing q → IsRing (dequeue q).1
  unfolding dequeue
  dequeue-IsRing q v = ground arith

  size-append :
      (q : Queue A) (a : A) → IsRing q → q.overlap ≡ false → size (append q a) ≡ suc (size q)
  unfolding append size
  size-append q a v f = ground arith

  nth-append_old :
      (q : Queue A) (a : A) (k : ℕ)
      → IsRing q
      → q.overlap ≡ false
      → k < size q
      → nth (append q a) k ≡ nth q k
  unfolding append size nth
  nth-append_old q a k v f h = ground arith

  nth-append_new :
      (q : Queue A) (a : A) → IsRing q → q.overlap ≡ false → nth (append q a) (size q) ≡ a
  unfolding append size nth
  nth-append_new q a v f = ground arith

  size-resize : (q : Queue A) → IsRing q → q.overlap ≡ true → size (resize q (size q + 1)) ≡ size q
  unfolding resize
  size-resize q v f = ground arith

  nth-resize :
      (q : Queue A) (k : ℕ)
      → IsRing q
      → q.overlap ≡ true
      → k < size q
      → nth (resize q (size q + 1)) k ≡ nth q k
  unfolding resize nth
  nth-resize q k v f h = ground arith

  size-dequeue : (q : Queue A) → IsRing q → is_empty q ≡ false → suc (size (dequeue q).1) ≡ size q
  unfolding dequeue size
  size-dequeue q v e = ground arith

  nth-dequeue :
      (q : Queue A) (k : ℕ)
      → IsRing q
      → is_empty q ≡ false
      → suc k < size q
      → nth (dequeue q).1 k ≡ nth q (suc k)
  unfolding dequeue size nth
  nth-dequeue q k v e h = ground arith

  to_list-append :
      (q : Queue A) (a : A)
      → IsRing q
      → q.overlap ≡ false
      → to_list (append q a) ≡ to_list q ++ a ∷ []
  unfolding to_list
  to_list-append q a v f =
      ap (λ n. tabulate n (nth (append q a))) (size-append q a v f)
      ∙ tabulate_last (size q) (nth (append q a))
      ∙ ap₂ (λ xs x. xs ++ x ∷ []) (tabulate_ext (size q) _ _ (λ k h. nth-append_old q a k v f h))
          (nth-append_new q a v f)

  to_list-resize :
      (q : Queue A) → IsRing q → q.overlap ≡ true → to_list (resize q (size q + 1)) ≡ to_list q
  unfolding to_list
  to_list-resize q v f =
      ap (λ n. tabulate n (nth (resize q (size q + 1)))) (size-resize q v f)
      ∙ tabulate_ext (size q) _ _ (λ k h. nth-resize q k v f h)

  -- The ring stays well formed, whether or not the memory has to grow.
  pub enqueue-IsRing : (q : Queue A) (a : A) → IsRing q → IsRing (enqueue q a)
  unfolding enqueue
  enqueue-IsRing q a v = elim (Bool-cases q.overlap) [
    | inl f ↦
        let (w, g) = resize-IsRing q v f in simp f (append-IsRing (resize q (size q + 1)) a w g)
    | inr f ↦ simp f (append-IsRing q a v f)
  ]

  -- An element goes to the end, whether or not the memory has to grow and to be moved.
  pub to_list-enqueue :
      (q : Queue A) (a : A) → IsRing q → to_list (enqueue q a) ≡ to_list q ++ a ∷ []
  unfolding enqueue
  to_list-enqueue q a v = elim (Bool-cases q.overlap) [
    | inl f ↦
        let (w, g) = resize-IsRing q v f in
        simp f (
          to_list-append (resize q (size q + 1)) a w g
          ∙ ap (λ xs. xs ++ a ∷ []) (to_list-resize q v f))
    | inr f ↦ simp f (to_list-append q a v f)
  ]

  size_empty : (q : Queue A) → IsRing q → is_empty q ≡ true → size q ≡ 0
  unfolding size is_empty
  size_empty q v e = ground arith

  dequeue_empty : (q : Queue A) → is_empty q ≡ true → dequeue q ≡ (q.empty_type, q)
  unfolding dequeue
  dequeue_empty q e = rw e

  dequeue_first : (q : Queue A) → IsRing q → is_empty q ≡ false → (dequeue q).0 ≡ nth q 0
  unfolding dequeue nth
  dequeue_first q v e = ground arith

  -- The oldest element comes first; the empty queue gives its `emptyType` and stays.
  abbrev pub Dequeues : List A → Queue A → A × Queue A → Type 0
  Dequeues [] q r = r ≡ (q.empty_type, q)
  Dequeues (a ∷ rest) q r = (r.0 ≡ a) × (to_list r.1 ≡ rest) × IsRing r.1

  -- `dequeue` gives the oldest element and leaves the others in order, and an empty queue gives the
  -- empty element and stays as it is.
  pub dequeue-Dequeues : (q : Queue A) → IsRing q → Dequeues (to_list q) q (dequeue q)
  dequeue-Dequeues q v = elim (Bool-cases (is_empty q)) [
    | inl e ↦
        unfold to_list in rw (ap (λ n. tabulate n (nth q)) (size_empty q v e)) (dequeue_empty q e)
    | inr e ↦
        unfold to_list in
        rw (ap (λ n. tabulate n (nth q)) (sym (size-dequeue q v e))) (
          dequeue_first q v e,
          tabulate_ext (size (dequeue q).1) _ _
              (λ k h. nth-dequeue q k v e (omega (arith, size-dequeue q v e))),
          dequeue-IsRing q v,
        )
  ]

  pub make-IsRing : (memory : ℕ → A) (c : ℕ) (a : A) → 0 < c → IsRing (make memory c a)
  unfolding make
  make-IsRing memory c a h = ground arith

  size-le : (q : Queue A) → IsRing q → size q ≤ q.capacity
  unfolding size
  size-le q v = ground arith

  -- `get(i)` reads the `i`-th element, oldest first.
  pub get-nth : (q : Queue A) (i : ℕ) → IsRing q → i < size q → get q i ≡ nth q i
  unfolding get nth
  get-nth q i v h =
      ap q.cell (ring_mod q.capacity q.queue_begin i v.begin_lt (omega (arith, size-le q v)))
