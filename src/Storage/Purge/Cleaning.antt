-- ===== src/Storage/Purge/Cleaning.antt =====
-- A whole run of _purgeEmptyContainers.
use gerber.Prelude.{
  ℕ, zero, suc, ◌≡◌, ◌⊎◌, inl, inr, refl, Bool, true, Bool-cases, Option-cases, List, [], ◌++◌,
  ◌&&◌, Option, some, All, All-append, All-mono,
}
use gerber.Prelude.Int.{ℤ}
use gerber.StorageCache.{Cache}
use gerber.Storage.Removal.{Tables, is_empty, max_remove_recursion}
use gerber.Storage.Purge.{
  Container, Purge, ask, delete_empty, purge_loop, report, purge_empty_containers,
}
use gerber.Storage.Purge.Emptied.{
  IsRow, IsUsed, Cleans, same, WasPersistent, Resting, Settled, ask-Asks, delete_empty-Resting,
}

module _ (t : Tables) (persistent : t.Db → ℤ → Bool)
    (counts : t.Db → List ℤ → Option (List Container))
    (rows_lem : (db : t.Db) (ids : List ℤ) (rows : List Container)
      → counts db ids ≡ some rows
      → All (IsRow t persistent db) rows)
    (old : t.Db) where
  abbrev Rests : Purge t counts → Type 0
  Rests p = Resting t persistent counts rows_lem old p

  -- What is left when the loop ends: a state that is settled, unless it threw.
  abbrev Stops : Bool × Purge t counts → Type 0
  Stops r = Rests r.1 × (r.0 ≡ true → Settled t persistent counts rows_lem old r.1)

  purge_loop-Stops : (left : ℕ) (p : Purge t counts) → Rests p → Stops (purge_loop t counts left p)
  unfolding purge_loop
  purge_loop-Stops zero p v = elim (Option-cases (ask t counts p)) [
    | inl z ↦ rw (purge_loop, z) (v, λ k. absurd (cc))
    | inr (q, z) ↦
        let asked = ask-Asks t persistent counts rows_lem old p q v z in
        let rests = delete_empty-Resting t persistent counts rows_lem old p.db q v.0 asked in
        rw (purge_loop, z) (rests.0, λ k. absurd (cc))
  ]
  purge_loop-Stops (suc left) p v = elim (Option-cases (ask t counts p)) [
    | inl z ↦ rw (purge_loop, z) (v, λ k. absurd (cc))
    | inr (q, z) ↦
        let asked = ask-Asks t persistent counts rows_lem old p q v z in
        let rests = delete_empty-Resting t persistent counts rows_lem old p.db q v.0 asked in
        elim (Bool-cases (delete_empty t counts q).1) [
          | inl e ↦
              rw (purge_loop, z, e) (purge_loop-Stops left (delete_empty t counts q).0 rests.0)
          | inr e ↦ rw (purge_loop, z, e) (rests.0, λ k. rests.1 e)
        ]
  ]

  -- A container that is reported: it holds something in the end, or was persistent.
  abbrev pub IsTold : t.Db → ℤ → Type 0
  IsTold db id = IsUsed t persistent db id ⊎ WasPersistent t persistent counts rows_lem old id

  -- What a purge has done.
  pub record Purges (r : Bool × (Purge t counts × Option Cache)) : Type 0 where
    pub cleaned : Cleans t persistent old r.1.0.db
    pub told_ui : r.0 ≡ true → All (IsTold r.1.0.db) r.1.0.ui
    pub told_upnp : r.0 ≡ true → All (IsTold r.1.0.db) r.1.0.upnp

  -- A purge deletes only containers that hold nothing, are not persistent and stand in the database
  -- that is left so far, also where it throws. Where it returns, each container that it reports
  -- holds something in the end, or was persistent.
  pub purge_empty_containers-Purges :
      (upnp ui : List ℤ) (cache : Option Cache)
      → Purges (purge_empty_containers t counts upnp ui cache old)
  unfolding purge_empty_containers report
  purge_empty_containers-Purges upnp ui cache =
      let begin : Purge t counts = record {
        db = old;
        sel_upnp = upnp;
        sel_ui = ui;
        del = [];
        upnp = [];
        ui = [];
      } in
      let (rests, settled) = purge_loop-Stops max_remove_recursion begin (same, tt, tt, refl) in
      let p = (purge_loop t counts max_remove_recursion begin).1 in
      let used = λ (id : ℤ) (h : IsUsed t persistent p.db id). inl h in
      let lasting = λ (id : ℤ) (h : WasPersistent t persistent counts rows_lem old id). inr h in
      elim (Bool-cases (is_empty upnp && is_empty ui)) [
        | inl e ↦ rw e (record { cleaned = same; told_ui = λ k. tt; told_upnp = λ k. tt })
        | inr e ↦ elim (Bool-cases (purge_loop t counts max_remove_recursion begin).0) [
          | inr f ↦
              rw (e, f)
                (record {
                  cleaned = rests.0;
                  told_ui = λ k. absurd (cc);
                  told_upnp = λ k. absurd (cc);
                })
          | inl f ↦
              let (sel_upnp, sel_ui) = settled f in
              rw (e, f)
                (record {
                  cleaned = rests.0;
                  told_ui = λ k.
                      All-append (IsTold p.db) p.ui p.sel_ui (All-mono lasting p.ui rests.2)
                        (All-mono used p.sel_ui sel_ui);
                  told_upnp = λ k.
                      All-append (IsTold p.db) (p.upnp ++ p.sel_ui) p.sel_upnp
                        (All-append (IsTold p.db) p.upnp p.sel_ui (All-mono lasting p.upnp rests.1)
                          (All-mono used p.sel_ui sel_ui))
                        (All-mono used p.sel_upnp sel_upnp);
                })
        ]
      ]
