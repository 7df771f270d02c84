-- ===== src/Storage/Purge/Emptied.antt =====
-- What _purgeEmptyContainers deletes and what it reports.
use mathlib.Core.Option.{some_inj}
use gerber.Prelude.{
  ℕ, zero, suc, ◌≡◌, ◌<◌, inl, inr, refl, sym, ◌∙◌, subst, Bool, true, false, Bool-cases,
  Option-cases, List, [], ◌∷◌, ◌++◌, Option, none, some, ◌==◌, length, All, All-append, ==_iff,
  arith,
}
use gerber.Prelude.Int.{ℤ}
use gerber.Storage.Removal.{Object, Tables, is_empty, not_empty, remove_objects}
use gerber.Storage.Removal.Passing.{empty_nil}
use gerber.Storage.Removal.Whole.{or_false}
use gerber.Storage.Purge.{
  Container, Purge, take_upnp, take_ui, take_all, ask_upnp, ask_ui, ask, delete_empty,
}

not_both : (ids : List ℤ) (id : ℤ) → is_empty (ids ++ id ∷ []) ≡ true → ⊥
not_both [] id h = cc
not_both (x ∷ ids) id h = cc

nothing_in : (P : ℤ → Type 0) (ids : List ℤ) → not_empty ids ≡ false → All P ids
nothing_in P [] h = tt
nothing_in P (x ∷ ids) h = absurd (cc)

module _ (t : Tables) (persistent : t.Db → ℤ → Bool) where
  open t use {Db, object, children}

  abbrev pub held : Db → ℤ → ℕ
  held db id = length (children db (id ∷ []))

  -- A container that is not persistent and holds nothing, or holds something.
  abbrev pub IsUseless : Db → ℤ → Type 0
  IsUseless db id =
      (o : Object) × (object db id ≡ some o)
      × (o.is_container ≡ true)
      × (held db id ≡ 0)
      × (persistent db id ≡ false)

  abbrev pub IsUsed : Db → ℤ → Type 0
  IsUsed db id = (o : Object) × (object db id ≡ some o) × (o.is_container ≡ true) × (0 < held db id)

  abbrev pub IsPersistent : Db → ℤ → Type 0
  IsPersistent db id =
      (o : Object) × (object db id ≡ some o) × (o.is_container ≡ true) × (persistent db id ≡ true)

  -- The databases that deleting useless containers leads to, several at a time.
  pub data Cleans (db : Db) : Db → Type 0 where
    same : Cleans db db
    more :
        (db' : Db) (ids : List ℤ)
        → Cleans db db'
        → All (IsUseless db') ids
        → Cleans db (remove_objects t ids db')

  -- What a row of the query is.
  abbrev pub IsRow : Db → Container → Type 0
  IsRow db c =
      (o : Object) × (object db c.id ≡ some o)
      × (o.is_container ≡ true)
      × (o.parent_id ≡ c.parent_id)
      × (held db c.id ≡ c.count)
      × (persistent db c.id ≡ c.persistent)

  module _ (counts : Db → List ℤ → Option (List Container))
      (rows_lem : (db : Db) (ids : List ℤ) (rows : List Container)
        → counts db ids ≡ some rows
        → All (IsRow db) rows)
      (old : Db) where
    -- A container that was persistent on the way.
    abbrev pub WasPersistent : ℤ → Type 0
    WasPersistent id = (db : Db) × Cleans old db × IsPersistent db id

    -- What holds while the rows of a database are taken.
    abbrev Asks : (db : Db) → Purge t counts → Type 0
    Asks db p =
        (p.db ≡ db)
        × All (IsUseless db) p.del
        × All (IsUsed db) p.sel_upnp
        × All WasPersistent p.upnp
        × All WasPersistent p.ui

    -- The same while the rows of the second query are taken.
    abbrev pub AsksUi : (db : Db) → Purge t counts → Type 0
    AsksUi db p = Asks db p × (is_empty p.del ≡ true → All (IsUsed db) p.sel_ui)

    take-Asks :
        (take : Container → Purge t counts → Purge t counts) (P : Purge t counts → Type 0) (db : Db)
        → ((c : Container) (p : Purge t counts) → IsRow db c → P p → P (take c p))
        → (rows : List Container) → All (IsRow db) rows
        → (p : Purge t counts) → P p
        → P (take_all t counts take rows p)
    unfolding take_all
    take-Asks take P db step [] h p v = v
    take-Asks take P db step (c ∷ rows) h p v =
        take-Asks take P db step rows h.1 (take c p) (step c p h.0 v)

    module _ (db : Db) (way : Cleans old db) where
      lasting : (c : Container) → IsRow db c → c.persistent ≡ true → WasPersistent c.id
      lasting c (o, found, kind, parent, count, flag) e = (db, way, (o, found, kind, flag ∙ e))

      row-IsUseless :
          (c : Container)
          → IsRow db c
          → c.persistent ≡ false
          → (c.count == 0) ≡ true
          → IsUseless db c.id
      row-IsUseless c (o, found, kind, parent, count, flag) e z =
          (o, found, kind, count ∙ (==_iff c.count 0).0 z, flag ∙ e)

      row-IsUsed : (c : Container) → IsRow db c → (c.count == 0) ≡ false → IsUsed db c.id
      row-IsUsed c (o, found, kind, parent, count, flag) z =
          (o, found, kind, subst (λ n. 0 < n) (sym count) (positive c.count z))
        where
          positive : (n : ℕ) → (n == 0) ≡ false → 0 < n
          positive zero h = absurd (cc)
          positive (suc n) h = omega arith

      take_upnp-Asks :
          (c : Container) (p : Purge t counts)
          → IsRow db c
          → Asks db p
          → Asks db (take_upnp t counts c p)
      unfolding take_upnp
      take_upnp-Asks c p h (there, useless, used, upnp, ui) = elim (Bool-cases c.persistent) [
        | inl e ↦
            let more = All-append WasPersistent p.upnp (c.id ∷ []) upnp (lasting c h e, tt) in
            rw e (there, useless, used, more, ui)
        | inr e ↦ elim (Bool-cases (c.count == 0)) [
          | inl z ↦
              let more =
                All-append (IsUseless db) p.del (c.id ∷ []) useless (row-IsUseless c h e z, tt) in
              rw (e, z) (there, more, used, upnp, ui)
          | inr z ↦
              let more =
                All-append (IsUsed db) p.sel_upnp (c.id ∷ []) used (row-IsUsed c h z, tt) in
              rw (e, z) (there, useless, more, upnp, ui)
        ]
      ]

      take_ui-Asks :
          (c : Container) (p : Purge t counts)
          → IsRow db c
          → AsksUi db p
          → AsksUi db (take_ui t counts c p)
      unfolding take_ui
      take_ui-Asks c p h ((there, useless, used, upnp, ui), kept) = elim (Bool-cases c.persistent) [
        | inl e ↦
            let told = All-append WasPersistent p.upnp (c.id ∷ []) upnp (lasting c h e, tt) in
            let told_ui = All-append WasPersistent p.ui (c.id ∷ []) ui (lasting c h e, tt) in
            rw e ((there, useless, used, told, told_ui), kept)
        | inr e ↦ elim (Bool-cases (c.count == 0)) [
          | inl z ↦
              let more =
                All-append (IsUseless db) p.del (c.id ∷ []) useless (row-IsUseless c h e z, tt) in
              rw (e, z) ((there, more, used, upnp, ui), λ k. absurd (not_both p.del c.id k))
          | inr z ↦
              rw (e, z)
                (
                  (there, useless, used, upnp, ui),
                  λ k. All-append (IsUsed db) p.sel_ui (c.id ∷ []) (kept k) (row-IsUsed c h z, tt),
                )
        ]
      ]

      -- The two queries.
      ask_upnp-Asks :
          (p q : Purge t counts)
          → (p.db ≡ db) × All WasPersistent p.upnp × All WasPersistent p.ui × (p.del ≡ [])
          → ask_upnp t counts p ≡ some q
          → Asks db q
      unfolding ask_upnp
      ask_upnp-Asks p q (there, upnp, ui, none_yet) h =
          let useless : All (IsUseless db) p.del = subst (All (IsUseless db)) (sym none_yet) tt in
          elim (Bool-cases (is_empty p.sel_upnp)) [
            | inl e ↦
                let used : All (IsUsed db) p.sel_upnp =
                  subst (All (IsUsed db)) (sym (empty_nil p.sel_upnp e)) tt in
                let same : some p ≡ some q = rw e at h in
                subst (Asks db) (some_inj.0 same) (there, useless, used, upnp, ui)
            | inr e ↦ elim (Option-cases (counts p.db p.sel_upnp)) [
              | inl z ↦ let bad : none ≡ some q = rw (e, z) at h in absurd (cc)
              | inr (rows, z) ↦
                  let got =
                    take_all t counts (take_upnp t counts) rows (record p { sel_upnp = [] }) in
                  let same : some got ≡ some q = rw (e, z) at h in
                  subst (Asks db) (some_inj.0 same) (
                    take-Asks (take_upnp t counts) (Asks db) db take_upnp-Asks rows
                      (subst (λ d. All (IsRow d) rows) there (rows_lem p.db p.sel_upnp rows z))
                      (record p { sel_upnp = [] }) (there, useless, tt, upnp, ui))
            ]
          ]

      ask_ui-Asks : (p q : Purge t counts) → Asks db p → ask_ui t counts p ≡ some q → AsksUi db q
      unfolding ask_ui
      ask_ui-Asks p q v h = elim (Bool-cases (is_empty p.sel_ui)) [
        | inl e ↦
            let same : some p ≡ some q = rw e at h in
            subst (AsksUi db) (some_inj.0 same)
              (v, λ k. subst (All (IsUsed db)) (sym (empty_nil p.sel_ui e)) tt)
        | inr e ↦ elim (Option-cases (counts p.db p.sel_ui)) [
          | inl z ↦ let bad : none ≡ some q = rw (e, z) at h in absurd (cc)
          | inr (rows, z) ↦
              let got = take_all t counts (take_ui t counts) rows (record p { sel_ui = [] }) in
              let same : some got ≡ some q = rw (e, z) at h in
              subst (AsksUi db) (some_inj.0 same) (
                take-Asks (take_ui t counts) (AsksUi db) db take_ui-Asks rows
                  (subst (λ d. All (IsRow d) rows) v.0 (rows_lem p.db p.sel_ui rows z))
                  (record p { sel_ui = [] }) (v, λ k. tt))
        ]
      ]

    -- Between two rounds of the loop: no deletion waits.
    abbrev pub Resting : Purge t counts → Type 0
    Resting p = Cleans old p.db × All WasPersistent p.upnp × All WasPersistent p.ui × (p.del ≡ [])

    -- What the lists hold that are asked for again.
    abbrev pub Settled : Purge t counts → Type 0
    Settled p = All (IsUsed p.db) p.sel_upnp × All (IsUsed p.db) p.sel_ui

    pub delete_empty-Resting :
        (db : Db) (q : Purge t counts)
        → Cleans old db
        → AsksUi db q
        → Resting (delete_empty t counts q).0
          × ((delete_empty t counts q).1 ≡ false → Settled (delete_empty t counts q).0)
    unfolding delete_empty
    delete_empty-Resting db q way ((there, useless, used, upnp, ui), kept) =
        elim (Bool-cases (is_empty q.del)) [
          | inl e ↦ rw e (
            (subst (Cleans old) (sym there) way, upnp, ui, empty_nil q.del e),
            λ k.
                subst (λ d. All (IsUsed d) q.sel_upnp × All (IsUsed d) q.sel_ui) (sym there)
                  (used, kept e),
          )
          | inr e ↦ rw e (
            (
              more q.db q.del (subst (Cleans old) (sym there) way)
                  (subst (λ d. All (IsUseless d) q.del) (sym there) useless),
              upnp,
              ui,
              refl,
            ),
            λ k.
                let (no_ui, no_upnp) = or_false (not_empty q.sel_ui) (not_empty q.sel_upnp) k in
                (nothing_in _ q.sel_upnp no_upnp, nothing_in _ q.sel_ui no_ui),
          )
        ]

    pub ask-Asks : (p q : Purge t counts) → Resting p → ask t counts p ≡ some q → AsksUi p.db q
    unfolding ask
    ask-Asks p q (way, upnp, ui, none_yet) h = elim (Option-cases (ask_upnp t counts p)) [
      | inl z ↦ let bad : none ≡ some q = rw (ask, z) at h in absurd (cc)
      | inr (u, z) ↦
          let asks : ask_ui t counts u ≡ some q = rw (ask, z) at h in
          ask_ui-Asks p.db way u q (ask_upnp-Asks p.db way p u (refl, upnp, ui, none_yet) z) asks
    ]
