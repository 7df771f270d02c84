-- ===== src/UpdateManager/Delivery.antt =====
-- No change of a container is lost, whatever the order of the threads.
use gerber.Prelude.{
  ℕ, ◌≡◌, ◌≢◌, ◌⊎◌, refl, true, false, Bool, inl, inr, List, [], ◌∷◌, ◌++◌, arith, if◌then◌else◌,
  ltb, length,
}
use gerber.Prelude.Int.{ℤ, ==ℤ_iff, member, member-insert}
use gerber.UpdateManager.{
  State, invalid_object_id, have_updates, container_changed, raise_policy, insert_changed, send,
}

-- The cached id is one that waits in the hash.
abbrev pub IsCached : State → Type 0
IsCached s =
    s.last_container_changed ≢ invalid_object_id
    → member s.last_container_changed s.object_ids ≡ true

-- What the threads do between two states, in any order, with the ids that storage is told of.
pub data Run : State → List ℤ → State → Type 0 where
  done : {s : State} → Run s [] s
  change :
      {s t : State} {l : List ℤ} (id : ℤ) (policy : ℕ)
      → Run (container_changed id policy s).0 l t
      → Run s l t
  raise : {s t : State} {l : List ℤ} (policy : ℕ) → Run (raise_policy policy s) l t → Run s l t
  insert_one : {s t : State} {l : List ℤ} (id : ℤ) → Run (insert_changed id s) l t → Run s l t
  sending :
      {s t : State} {l : List ℤ} (throws : Bool)
      → Run (send throws s).0 l t
      → Run s ((send throws s).1 ++ l) t

pub member-append :
    (k : ℤ) (xs ys : List ℤ) → member k (xs ++ ys) ≡ (if member k xs then true else member k ys)
member-append k [] ys = refl
member-append k (x ∷ xs) ys = ground (arith, member-append k xs ys)

container_changed-keeps :
    (k id : ℤ) (policy : ℕ) (s : State)
    → member k s.object_ids ≡ true
    → member k (container_changed id policy s).0.object_ids ≡ true
unfolding container_changed
container_changed-keeps k id policy s h = ground (arith, member-insert id k s.object_ids)

insert_changed-keeps :
    (k id : ℤ) (s : State)
    → member k s.object_ids ≡ true
    → member k (insert_changed id s).object_ids ≡ true
unfolding insert_changed
insert_changed-keeps k id s h = ground (arith, member-insert id k s.object_ids)

-- An id that waits in the hash is one that storage is told of later, or it still waits.
pub Run-keeps :
    (k : ℤ) (s t : State) (l : List ℤ)
    → member k s.object_ids ≡ true
    → Run s l t
    → (member k l ≡ true) ⊎ (member k t.object_ids ≡ true)
unfolding send raise_policy
Run-keeps k s t l h done = inr h
Run-keeps k s t l h (change id policy r) =
    Run-keeps k _ t l (container_changed-keeps k id policy s h) r
Run-keeps k s t l h (raise policy r) = Run-keeps k _ t l h r
Run-keeps k s t l h (insert_one id r) = Run-keeps k _ t l (insert_changed-keeps k id s h) r
Run-keeps k s t l h (sending {l = l'} true r) = Run-keeps k _ t l' h r
Run-keeps k s t l h (sending {l = l'} false r) =
    inl (ground (arith, member-append k s.object_ids l'))

container_changed-IsCached :
    (id : ℤ) (policy : ℕ) (s : State) → IsCached s → IsCached (container_changed id policy s).0
unfolding container_changed
container_changed-IsCached id policy s v =
    ground (arith, member-insert id id s.object_ids, ==ℤ_iff id id)

insert_changed-IsCached : (id : ℤ) (s : State) → IsCached s → IsCached (insert_changed id s)
unfolding insert_changed
insert_changed-IsCached id s v =
    ground (arith, member-insert id s.last_container_changed s.object_ids)

-- The cached id waits in the hash, whatever the threads do.
pub Run-IsCached : (s t : State) (l : List ℤ) → IsCached s → Run s l t → IsCached t
unfolding send raise_policy
Run-IsCached s t l v done = v
Run-IsCached s t l v (change id policy r) =
    Run-IsCached _ t l (container_changed-IsCached id policy s v) r
Run-IsCached s t l v (raise policy r) = Run-IsCached _ t l v r
Run-IsCached s t l v (insert_one id r) = Run-IsCached _ t l (insert_changed-IsCached id s v) r
Run-IsCached s t l v (sending {l = l'} throws r) = Run-IsCached _ t l' (λ n. absurd (n refl)) r

member-empty : (k : ℤ) (xs : List ℤ) → ltb 0 (length xs) ≡ false → member k xs ≡ false
member-empty k [] h = refl
member-empty k (x ∷ xs) h = absurd (ground arith)

waits :
    (id : ℤ) (policy : ℕ) (s : State)
    → id ≢ invalid_object_id
    → IsCached s
    → member id (container_changed id policy s).0.object_ids ≡ true
unfolding container_changed
waits id policy s n v = ground (
  arith,
  member-insert id id s.object_ids,
  ==ℤ_iff id id,
  ==ℤ_iff id invalid_object_id,
  ==ℤ_iff id s.last_container_changed,
)

wakes :
    (id : ℤ) (policy : ℕ) (s : State)
    → id ≢ invalid_object_id
    → IsCached s
    → have_updates s ≡ false
    → (container_changed id policy s).1 ≡ true
unfolding container_changed have_updates
wakes id policy s n v e = ground (
  arith,
  member-empty id s.object_ids e,
  ==ℤ_iff id invalid_object_id,
  ==ℤ_iff id s.last_container_changed,
)

-- After `containerChanged` storage is told of the container, or it waits in the hash, whatever the
-- threads do then; and where the hash had been empty, the thread is signalled.
pub container_changed-told :
    (id : ℤ) (policy : ℕ) (s t : State) (l : List ℤ)
    → id ≢ invalid_object_id
    → IsCached s
    → Run (container_changed id policy s).0 l t
    → ((member id l ≡ true) ⊎ (member id t.object_ids ≡ true))
      × (have_updates s ≡ false → (container_changed id policy s).1 ≡ true)
container_changed-told id policy s t l n v r =
    (Run-keeps id _ t l (waits id policy s n v) r, wakes id policy s n v)
