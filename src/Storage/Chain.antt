-- ===== src/Storage/Chain.antt =====
-- The containers of a virtual path, as `addContainerChain` leaves them.
use gerber.Prelude.{
  Option, ap, ◌≢◌, ==_iff, ◌==◌, ℕ, zero, suc, ◌<◌, ◌≡◌, inl, inr, refl, sym, ◌∙◌, subst, true,
  false, Bool-cases, Option-cases, [], ◌∷◌, none, some, length, arith,
}
use gerber.Prelude.Int.{ℤ, pos}
use gerber.Zmm.Strings.{Bytes, ZString, Lacks, char_at, reduce}
use gerber.Zmm.Strings.Reducing.{
  length-collapse, collapse_head, collapse_head_back, collapse, collapse-Keeps, reduce-collapse,
}
use gerber.Tools.Paths.{sep}
use gerber.Storage.{
  Database, Store, Outcome, strip, is_root, loc_virt_prefix, invalid_object_id, add_last,
  add_container_chain,
}
use gerber.Storage.Strip.{Absolute, strip-Shorter}
use gerber.Storage.Tree.{IsTable, container_at, IsTree, Refers}
use gerber.Storage.Extending.{Adds, add_last-outcome, outcome-Adds}

module _ (d : Database) where
  open d use {Db, id_at, parent_of, insert_row}

  Adds-unchanged :
      (path : Bytes) (s : Store d) (update id : ℤ)
      → IsTree d s
      → container_at d s.db path ≡ some id
      → Adds d path s update (record { store = s; container = some id; update = update })
  Adds-unchanged path s update id t h = record {
    id = id;
    container = refl;
    found = h;
    tree = t;
    keeps = record { ids = λ location i k. k; parents = λ i p k. k };
    others = λ location l. refl;
    told = inl (refl, refl);
  }

  module _ (fuel : ℕ) (path : Bytes) (upnp_class : ZString) (ref_id update : ℤ) (s : Store d)
      (no_nul : Lacks 0 path) where
    abbrev run : Outcome d
    run = add_container_chain d (suc fuel) path upnp_class ref_id update s

    reduced : reduce sep (some path) ≡ some (collapse sep path)
    reduced = reduce-collapse sep (omega arith) path no_nul

    run_root :
        is_root (collapse sep path) ≡ true
        → run ≡ record { store = s; container = some (pos 0); update = update }
    unfolding add_container_chain
    run_root e = rw (reduced, e, add_container_chain)

    run_found :
        (id : ℤ)
        → is_root (collapse sep path) ≡ false
        → id_at s.db (loc_virt_prefix ∷ collapse sep path) ≡ some id
        → run ≡ record { store = s; container = some id; update = update }
    unfolding add_container_chain
    run_found id e f = rw (reduced, e, f, add_container_chain)

    run_new :
        (first last : Bytes)
        → is_root (collapse sep path) ≡ false
        → id_at s.db (loc_virt_prefix ∷ collapse sep path) ≡ none
        → strip (collapse sep path) ≡ some (first, last)
        → run
          ≡ add_last d
              (collapse sep path)
              last
              upnp_class
              ref_id
              (add_container_chain d fuel first none invalid_object_id update s)
    unfolding add_container_chain
    run_new first last e f g = rw (reduced, e, f, reduced, g, add_container_chain) (rw reduced)

    run_relative :
        is_root (collapse sep path) ≡ false
        → id_at s.db (loc_virt_prefix ∷ collapse sep path) ≡ none
        → strip (collapse sep path) ≡ none
        → run ≡ record { store = s; container = none; update = update }
    unfolding add_container_chain
    run_relative e f g = rw (reduced, e, f, reduced, g, add_container_chain)

  pub collapse-Absolute : (path : Bytes) → Absolute path → Absolute (collapse sep path)
  collapse-Absolute path a =
      (collapse_head sep path a.0 (omega arith), collapse-Keeps 0 sep path a.1)

  -- A path longer than the separator, if it is absolute and not the root.
  longer : (path : Bytes) → char_at path 0 ≡ sep → is_root path ≡ false → 1 < length path
  unfolding is_root
  longer [] h e = absurd (ground arith)
  longer (x ∷ []) h e = absurd (ground arith)
  longer (x ∷ y ∷ path) h e = omega arith

  no_root : (path : Bytes) → char_at path 0 ≢ sep → is_root path ≡ false
  unfolding is_root
  no_root path n = ground arith

  strip_relative : (path : Bytes) → char_at path 0 ≢ sep → strip path ≡ none
  unfolding strip
  strip_relative path n = elim (Bool-cases (char_at path 0 == sep)) [
    | inl e ↦ absurd (n ((==_iff (char_at path 0) sep).0 e))
    | inr e ↦ rw (e, strip)
  ]

  -- `addContainerChain` finds or makes the container of an absolute path without a NUL: afterwards it
  -- is found under the path, with the id that is returned, each container stands below that of the
  -- path in front of it up to the root, and all that was found before is found as before. Where it
  -- sets `update`, that is an old container which got a new one. The reference is none, or to a row.
  pub add_container_chain-Adds :
      IsTable d
      → (fuel : ℕ) (path : Bytes) (last_class : ZString) (last_ref update : ℤ) (s : Store d)
      → length path < fuel
      → Absolute path
      → IsTree d s
      → Refers d last_ref s.db
      → Adds d path s update (add_container_chain d fuel path last_class last_ref update s)
  add_container_chain-Adds laws zero path last_class last_ref update s f a t r =
      absurd (omega arith)
  add_container_chain-Adds laws (suc fuel) path last_class last_ref update s f a t r =
      let short = collapse sep path in
      let whole = collapse-Absolute path a in
      elim (Bool-cases (is_root short)) [
        | inl e ↦
            subst (Adds d path s update)
              (sym (run_root fuel path last_class last_ref update s a.1 e))
              (Adds-unchanged path s update (pos 0) t (rw e))
        | inr e ↦ elim (Option-cases (id_at s.db (loc_virt_prefix ∷ short))) [
          | inr (id, g) ↦
              subst (Adds d path s update)
                (sym (run_found fuel path last_class last_ref update s a.1 id e g))
                (Adds-unchanged path s update id t (rw (e, g)))
          | inl g ↦
              let (first, last, h, (less, first_absolute)) =
                strip-Shorter short whole (longer short whole.0 e) in
              let before =
                add_container_chain-Adds laws fuel first none invalid_object_id update s
                  (omega (arith, length-collapse sep path)) first_absolute t (inl (omega arith)) in
              subst (Adds d path s update)
                (sym (
                  run_new fuel path last_class last_ref update s a.1 first last e g h
                  ∙ add_last-outcome d laws short first last last_class last_ref update s _ h less g
                      t before r))
                (outcome-Adds d laws short first last last_class last_ref update s _ h less g t
                  before r path refl e (length-collapse sep path))
        ]
      ]

  present :
      (fuel : ℕ) (path : Bytes) (last_class : ZString) (last_ref update id : ℤ) (s : Store d)
      → 0 < fuel
      → Lacks 0 path
      → container_at d s.db path ≡ some id
      → add_container_chain d fuel path last_class last_ref update s
        ≡ record { store = s; container = some id; update = update }
  present zero path last_class last_ref update id s f h e = absurd (omega arith)
  present (suc fuel) path last_class last_ref update id s f h e =
      elim (Bool-cases (is_root (collapse sep path))) [
        | inl g ↦
            run_root fuel path last_class last_ref update s h g
            ∙ ap (λ o. record { store = s; container = o; update = update }) (rw g at e)
        | inr g ↦ run_found fuel path last_class last_ref update s h id g (rw g at e)
      ]

  -- A second call of `addContainerChain` for a path, whatever its other arguments, gives the same
  -- container, adds nothing and leaves `update` alone. The conditions are those of the first call.
  pub add_container_chain_again :
      IsTable d
      → (fuel : ℕ) (path : Bytes) (last_class : ZString) (last_ref update : ℤ) (s : Store d)
      → length path < fuel
      → Absolute path
      → IsTree d s
      → Refers d last_ref s.db
      → (other_class : ZString) (other_ref later : ℤ)
      → let o = add_container_chain d fuel path last_class last_ref update s in
        add_container_chain d fuel path other_class other_ref later o.store
        ≡ record { store = o.store; container = o.container; update = later }
  add_container_chain_again laws fuel path last_class last_ref update s f a t r other_class
        other_ref later =
      let v = add_container_chain-Adds laws fuel path last_class last_ref update s f a t r in
      present fuel path other_class other_ref later v.id _ (omega arith) a.1 v.found
      ∙ ap
          (λ c. record {
            store = (add_container_chain d fuel path last_class last_ref update s).store;
            container = c;
            update = later;
          })
          (sym v.container)

  -- For a path that does not begin with the separator `addContainerChain` throws and adds nothing.
  add_container_chain_relative :
      (fuel : ℕ) (path : Bytes) (last_class : ZString) (last_ref update : ℤ) (s : Store d)
      → Lacks 0 path
      → char_at path 0 ≢ sep
      → IsTree d s
      → add_container_chain d fuel path last_class last_ref update s
        ≡ record { store = s; container = none; update = update }
  add_container_chain_relative zero path last_class last_ref update s h n t =
      unfold add_container_chain in refl
  add_container_chain_relative (suc fuel) path last_class last_ref update s h n t =
      let m = λ (e : char_at (collapse sep path) 0 ≡ sep). n (collapse_head_back sep path e) in
      elim (Option-cases (id_at s.db (loc_virt_prefix ∷ collapse sep path))) [
        | inl e ↦
            run_relative fuel path last_class last_ref update s h (no_root (collapse sep path) m) e
              (strip_relative (collapse sep path) m)
        | inr (id, e) ↦
            let l = t.linked (collapse sep path) id e in
            let bad : ◌≡◌ {A = Option (Bytes × Bytes)} none (some (l.first, l.last)) =
              sym (strip_relative (collapse sep path) m) ∙ l.stripped in
            cc
      ]
