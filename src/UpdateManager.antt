-- ===== src/UpdateManager.antt =====
-- update_manager.cc, `UpdateManager`: the containers whose change the UPnP clients are not told of yet.
pub mod Delivery
pub mod Interleaved
pub mod Rounds
use gerber.Prelude.{
  ℕ, zero, suc, ◌+◌, Bool, true, false, not, ◌&&◌, ◌||◌, List, [], ◌∷◌, Option, none, some, ltb,
  leb, ◌==◌, if◌then◌else◌, length,
}
use gerber.Prelude.Int.{ℤ, pos, negsuc, ◌-ℤ◌, ◌==ℤ◌, ltb_ℤ, insert}

abbrev pub invalid_object_id : ℤ
invalid_object_id = negsuc 332

abbrev pub max_object_ids : ℕ
max_object_ids = 1000

abbrev pub max_object_ids_overload : ℕ
max_object_ids_overload = 30

abbrev pub flush_spec : ℕ
flush_spec = 1

-- `objectIDHash`, `flushPolicy` and `lastContainerChanged`.
pub record State : Type 0 where
  pub object_ids : List ℤ
  pub flush_policy : ℕ
  pub last_container_changed : ℤ

unfoldable pub have_updates : State → Bool
have_updates s = ltb 0 (length s.object_ids)

-- `containerChanged`; the flag says whether the thread is signalled.
unfoldable pub container_changed : ℤ → ℕ → State → State × Bool
container_changed id policy s =
    if id ==ℤ invalid_object_id
    then (s, false)
    else if not (id ==ℤ s.last_container_changed) || ltb s.flush_policy policy
    then (
      record {
        object_ids = insert id s.object_ids;
        flush_policy = if ltb s.flush_policy policy then policy else s.flush_policy;
        last_container_changed = id;
      },
      not (have_updates s)
          || leb max_object_ids (length (insert id s.object_ids))
          || ltb s.flush_policy policy,
    )
    else (s, false)

unfoldable pub raise_policy : ℕ → State → State
raise_policy policy s = record s {
  flush_policy = if ltb s.flush_policy policy then policy else s.flush_policy;
}

-- One round of the loop of `containersChanged`, up to the point where it may wait.
unfoldable pub insert_changed : ℤ → State → State
insert_changed id s =
    if id ==ℤ s.last_container_changed then s else record s { object_ids = insert id s.object_ids }

-- Whether the round has to wait, the lock released, until the hash is small again.
unfoldable pub must_wait : Bool → ℤ → State → Bool
must_wait split id s =
    split
    && not (id ==ℤ s.last_container_changed)
    && ltb max_object_ids (length (insert id s.object_ids))

-- The loop; `others k` is what the other threads do while round `k` waits.
unfoldable pub change_loop : (ℕ → State → State) → Bool → ℕ → List ℤ → State → State
change_loop others split k [] s = s
change_loop others split k (id ∷ ids) s =
    change_loop others split (k + 1) ids
      (if must_wait split id s then others k (insert_changed id s) else insert_changed id s)

-- `containersChanged`; the flag says whether the thread is signalled at the end.
unfoldable pub containers_changed : (ℕ → State → State) → Option (List ℤ) → ℕ → State → State × Bool
containers_changed others none policy s = (s, false)
containers_changed others (some ids) policy s =
    let split = leb (max_object_ids + max_object_ids_overload) (length s.object_ids + length ids) in
    let t = change_loop others split 0 ids (raise_policy policy s) in
    (
      t,
      not (have_updates s) || ltb s.flush_policy policy || leb max_object_ids (length t.object_ids),
    )

-- How long the thread wants to sleep, so many milliseconds after its last update.
unfoldable pub sleep_millis : ℕ → ℤ → ℤ
sleep_millis policy time_diff = if policy == flush_spec then pos 2000 -ℤ time_diff else pos 0

unfoldable pub sleeps : ℤ → State → Bool
sleeps time_diff s =
    ltb_ℤ (pos 0) (sleep_millis s.flush_policy time_diff)
    && ltb (length s.object_ids) max_object_ids

-- Sending: the ids that storage is told of. Where it throws, they stay.
unfoldable pub send : Bool → State → State × List ℤ
send throws s = (
  record {
    object_ids = if throws then s.object_ids else [];
    flush_policy = flush_spec;
    last_container_changed = invalid_object_id;
  },
  if throws then [] else s.object_ids,
)

-- A round of `threadProc`: `others` is what the other threads do while it waits, `timed_out` says
-- how the wait ended, `shut` is the flag after it.
unfoldable pub thread_round : ℤ → (State → State) → Bool → Bool → Bool → State → State × List ℤ
thread_round time_diff others timed_out shut throws s =
    if have_updates s
    then (if sleeps time_diff s
        then (if shut || timed_out then (others s, []) else send throws (others s))
        else send throws s)
    else (others s, [])
