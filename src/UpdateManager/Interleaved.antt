-- ===== src/UpdateManager/Interleaved.antt =====
-- `containersChanged`, whose loop lets other threads in.
use gerber.Prelude.{
  ℕ, ◌+◌, ◌≡◌, ◌≢◌, ◌⊎◌, sym, subst, true, Bool, Bool-cases, inl, inr, List, [], ◌∷◌, ◌++◌, some,
  arith, if◌then◌else◌, leb, length, append_assoc,
}
use gerber.Prelude.Int.{ℤ, ◌==ℤ◌, ==ℤ_iff, member, member-insert}
use gerber.UpdateManager.{
  State, invalid_object_id, max_object_ids, max_object_ids_overload, raise_policy, insert_changed,
  must_wait, change_loop, containers_changed, send,
}
use gerber.UpdateManager.Delivery.{IsCached, Run, member-append, Run-keeps, Run-IsCached}
use Run.{done, change, raise, insert_one, sending}

pub Run-append : {s t u : State} {l m : List ℤ} → Run s l t → Run t m u → Run s (l ++ m) u
Run-append done q = q
Run-append (change id policy r) q = change id policy (Run-append r q)
Run-append (raise policy r) q = raise policy (Run-append r q)
Run-append (insert_one id r) q = insert_one id (Run-append r q)
Run-append {s} {u = u} {m = m} (sending {l = l} throws r) q =
    subst (λ l. Run s l u) (sym (append_assoc (send throws s).1 l m))
      (sending throws (Run-append r q))

insert_changed-waits :
    (id : ℤ) (s : State)
    → id ≢ invalid_object_id
    → IsCached s
    → member id (insert_changed id s).object_ids ≡ true
unfolding insert_changed
insert_changed-waits id s n v =
    ground
      (arith, member-insert id id s.object_ids, ==ℤ_iff id id, ==ℤ_iff id s.last_container_changed)

-- The other threads, while the lock is released in round `k`, and the ids that storage is told of
-- meanwhile.
module _ (others : ℕ → State → State) (log : ℕ → State → List ℤ)
    (runs : (k : ℕ) (s : State) → Run s (log k s) (others k s)) where
  abbrev pub loop_log : Bool → ℕ → List ℤ → State → List ℤ
  loop_log split k [] s = []
  loop_log split k (id ∷ ids) s =
      (if must_wait split id s then log k (insert_changed id s) else [])
      ++ loop_log split (k + 1) ids
          (if must_wait split id s then others k (insert_changed id s) else insert_changed id s)

  round_runs :
      (split : Bool) (k : ℕ) (id : ℤ) (s : State)
      → Run
          (insert_changed id s)
          (if must_wait split id s then log k (insert_changed id s) else [])
          (if must_wait split id s then others k (insert_changed id s) else insert_changed id s)
  round_runs split k id s = elim (Bool-cases (must_wait split id s)) [
    | inl e ↦ rw e (runs k (insert_changed id s))
    | inr e ↦ rw e done
  ]

  loop_runs :
      (split : Bool) (k : ℕ) (ids : List ℤ) (s : State)
      → Run s (loop_log split k ids s) (change_loop others split k ids s)
  unfolding change_loop
  loop_runs split k [] s = done
  loop_runs split k (id ∷ ids) s =
      insert_one id (Run-append (round_runs split k id s) (loop_runs split (k + 1) ids _))

  loop_told :
      (split : Bool) (k : ℕ) (ids : List ℤ) (id : ℤ) (s : State)
      → id ≢ invalid_object_id
      → IsCached s
      → member id ids ≡ true
      → (member id (loop_log split k ids s) ≡ true)
        ⊎ (member id (change_loop others split k ids s).object_ids ≡ true)
  unfolding change_loop
  loop_told split k [] id s n v h = absurd cc
  loop_told split k (x ∷ ids) id s n v h = elim (Bool-cases (x ==ℤ id)) [
    | inl e ↦
        Run-keeps id (insert_changed x s) _ _
          (subst (λ x. member id (insert_changed x s).object_ids ≡ true) (sym ((==ℤ_iff x id).0 e))
            (insert_changed-waits id s n v))
          (Run-append (round_runs split k x s) (loop_runs split (k + 1) ids _))
    | inr e ↦
        let t = if must_wait split x s then others k (insert_changed x s) else insert_changed x s in
        let r = insert_one x (round_runs split k x s) in
        elim (loop_told split (k + 1) ids id t n (Run-IsCached s t _ v r) (simp e at h)) [
          | inl f ↦ inl (
              ground (
                arith,
                member-append id (if must_wait split x s then log k (insert_changed x s) else [])
                    (loop_log split (k + 1) ids t),
              ))
          | inr f ↦ inr f
        ]
  ]

  -- What storage is told of while `containersChanged` runs.
  abbrev pub told_meanwhile : List ℤ → ℕ → State → List ℤ
  told_meanwhile ids policy s =
      loop_log (leb (max_object_ids + max_object_ids_overload) (length s.object_ids + length ids)) 0
        ids (raise_policy policy s)

  raise_policy-IsCached : (policy : ℕ) (s : State) → IsCached s → IsCached (raise_policy policy s)
  unfolding raise_policy
  raise_policy-IsCached policy s v = v

  -- After `containersChanged`, whose loop may let the other threads in, storage has been told of
  -- each of its containers while it ran, or is told of it later, or the container waits in the hash,
  -- whatever the threads do.
  pub containers_changed-told :
      (ids : List ℤ) (policy : ℕ) (id : ℤ) (s t : State) (l : List ℤ)
      → id ≢ invalid_object_id
      → IsCached s
      → member id ids ≡ true
      → Run (containers_changed others (some ids) policy s).0 l t
      → (member id (told_meanwhile ids policy s) ≡ true)
        ⊎ (member id l ≡ true)
        ⊎ (member id t.object_ids ≡ true)
  unfolding containers_changed
  containers_changed-told ids policy id s t l n v h r =
      elim (loop_told _ 0 ids id (raise_policy policy s) n (raise_policy-IsCached policy s v) h) [
        | inl e ↦ inl e
        | inr e ↦ inr (Run-keeps id _ t l e r)
      ]
