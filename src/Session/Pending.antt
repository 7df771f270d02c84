-- ===== src/Session/Pending.antt =====
-- The container updates that a session collects for the UI.
use gerber.Prelude.{
  ◌+◌, ◌≤◌, ◌≡◌, ◌≢◌, ◌⊎◌, refl, true, false, Bool, List, [], ◌∷◌, Option, none, some, arith,
  if◌then◌else◌, length,
}
use gerber.Prelude.Int.{ℤ, ==ℤ_iff, member, insert, member-insert, length-insert}
use gerber.Session.{
  Session, Updates, nothing, all, ids, invalid_object_id, max_ui_update_ids, container_changed,
  insert_all, containers_changed, has_ui_update_ids, get_ui_update_ids,
}

-- At most ten ids are kept, and none beside the flag.
pub record IsBounded (s : Session) : Type 0 where
  pub few : length s.ui_update_ids ≤ max_ui_update_ids
  pub none_beside : s.update_all ≡ true → s.ui_update_ids ≡ []

-- The UI still has to be told of a change of the container.
abbrev pub is_pending : ℤ → Session → Bool
is_pending id s = if s.update_all then true else member id s.ui_update_ids

pub container_changed-IsBounded :
    (id : ℤ) (s : Session) → IsBounded s → IsBounded (container_changed id s)
unfolding container_changed
container_changed-IsBounded id s v = ground (arith, length-insert id s.ui_update_ids)

length-insert_all : (new set : List ℤ) → length (insert_all new set) ≤ length set + length new
unfolding insert_all
length-insert_all [] set = omega arith
length-insert_all (id ∷ new) set =
    omega (arith, length-insert_all new (insert id set), length-insert id set)

pub containers_changed-IsBounded :
    (new : Option (List ℤ)) (s : Session) → IsBounded s → IsBounded (containers_changed new s)
unfolding containers_changed
containers_changed-IsBounded none s v = v
containers_changed-IsBounded (some new) s v = ground (arith, length-insert_all new s.ui_update_ids)

-- A change of a container is pending afterwards, and what was pending stays pending.
pub is_pending-container_changed :
    (id k : ℤ) (s : Session)
    → id ≢ invalid_object_id
    → is_pending k s ≡ true ⊎ (k ≡ id)
    → is_pending k (container_changed id s) ≡ true
unfolding container_changed
is_pending-container_changed id k s h p =
    ground (arith, ==ℤ_iff id invalid_object_id, ==ℤ_iff id k, member-insert id k s.ui_update_ids)

member-insert_all :
    (new set : List ℤ) (k : ℤ)
    → member k (insert_all new set) ≡ (if member k set then true else member k new)
unfolding insert_all
member-insert_all [] set k = ground arith
member-insert_all (id ∷ new) set k =
    ground (arith, member-insert_all new (insert id set) k, member-insert id k set)

-- After a change of several containers each of them is pending, and so is what was pending.
pub is_pending-containers_changed :
    (new : List ℤ) (k : ℤ) (s : Session)
    → (is_pending k s ≡ true) ⊎ (member k new ≡ true)
    → is_pending k (containers_changed (some new) s) ≡ true
unfolding containers_changed
is_pending-containers_changed new k s p = ground (arith, member-insert_all new s.ui_update_ids k)

-- Whether an answer tells the UI of the container.
abbrev pub tells : ℤ → Updates → Bool
tells k nothing = false
tells k all = true
tells k (ids set) = member k set

member-empty : (k : ℤ) (set : List ℤ) → length set ≤ 0 → member k set ≡ false
member-empty k [] h = refl
member-empty k (x ∷ set) h = absurd (omega arith)

-- The answer tells of a container exactly if it was pending, and then it is pending no more.
pub tells-get_ui_update_ids :
    (k : ℤ) (s : Session)
    → IsBounded s
    → (tells k (get_ui_update_ids s).0 ≡ is_pending k s)
      × (is_pending k (get_ui_update_ids s).1 ≡ false)
unfolding get_ui_update_ids has_ui_update_ids
tells-get_ui_update_ids k s v = ground (arith, member-empty k s.ui_update_ids)

pub get_ui_update_ids-IsBounded : (s : Session) → IsBounded s → IsBounded (get_ui_update_ids s).1
unfolding get_ui_update_ids has_ui_update_ids
get_ui_update_ids-IsBounded s v = ground arith
