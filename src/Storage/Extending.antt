-- ===== src/Storage/Extending.antt =====
-- What `addContainerChain` does behind the call for the path in front.
use mathlib.Core.Option
use gerber.Prelude.{
  suc, ◌<◌, ◌≤◌, ◌≡◌, ◌≢◌, ◌⊎◌, inl, inr, refl, sym, ap, ◌∙◌, subst, true, false, Bool-cases, ◌∷◌,
  Option, none, some, if◌then◌else◌, length, arith,
}
use gerber.Prelude.Int.{ℤ, pos, ◌≤ℤ◌, ◌==ℤ◌, ==ℤ_iff}
use gerber.Zmm.Strings.{Bytes, ZString}
use gerber.Zmm.Strings.Reducing.{collapse}
use gerber.Tools.Paths.{sep}
use gerber.Storage.{
  Database, Store, Outcome, strip, is_root, loc_virt_prefix, invalid_object_id, container_row,
  add_last,
}
use gerber.Storage.Tree.{IsTable, container_at, IsTree, Keeps, Refers, Refers-Keeps}
use gerber.Storage.Creation.{
  fresh, created, create_container-created, created-Keeps, created_found, created-IsTree,
}

module _ (d : Database) where
  open d use {Db, id_at, parent_of, insert_row}

  -- A container that is new stands directly below the one with the id `update`, which is not new.
  pub record IsParentOfNew (s : Store d) (o : Outcome d) : Type 0 where
    pub path : Bytes
    pub first : Bytes
    pub last : Bytes
    pub absent : id_at s.db (loc_virt_prefix ∷ path) ≡ none
    pub stripped : strip path ≡ some (first, last)
    pub old : container_at d s.db first ≡ some o.update
    pub new : ℤ
    pub added : id_at o.store.db (loc_virt_prefix ∷ path) ≡ some new

  -- `update` is set where it was not set before and a container was added.
  abbrev pub Tells : Store d → ℤ → Outcome d → Type 0
  Tells s update o =
      ((o.store ≡ s) × (o.update ≡ update))
      ⊎ ((update ≢ invalid_object_id) × (o.update ≡ update))
      ⊎ ((update ≡ invalid_object_id) × IsParentOfNew s o)

  -- What `addContainerChain` does for a path.
  pub record Adds (path : Bytes) (s : Store d) (update : ℤ) (o : Outcome d) : Type 0 where
    pub id : ℤ
    pub container : o.container ≡ some id
    pub found : container_at d o.store.db path ≡ some id
    pub tree : IsTree d o.store
    pub keeps : Keeps d s.db o.store.db
    pub others :
        (location : Bytes)
        → suc (length path) < length location
        → id_at o.store.db location ≡ id_at s.db location
    pub told : Tells s update o

  nonneg :
      (s : Store d) (path : Bytes) (id : ℤ)
      → IsTree d s
      → container_at d s.db path ≡ some id
      → pos 0 ≤ℤ id
  nonneg s path id t h = elim (Bool-cases (is_root (collapse sep path))) [
    | inl e ↦
        subst (λ i. pos 0 ≤ℤ i)
          (ap (λ (o : Option ℤ). Option.get_or o id) {x = some (pos 0)} {y = some id} (rw e at h))
          (omega arith)
    | inr e ↦ (t.linked (collapse sep path) id (rw e at h)).no_root
  ]

  module _ (laws : IsTable d) (short first last : Bytes) (upnp_class : ZString) (ref_id update : ℤ)
      (s : Store d) (o : Outcome d) (stripped : strip short ≡ some (first, last))
      (shorter : length first < length short) (absent : id_at s.db (loc_virt_prefix ∷ short) ≡ none)
      (t : IsTree d s) (v : Adds first s update o) (refers : Refers d ref_id s.db) where
    abbrev grown : Store d
    grown = created d o.store short last v.id upnp_class ref_id

    abbrev pub outcome : Outcome d
    outcome = record {
      store = grown;
      container = some (fresh d o.store);
      update = if o.update ==ℤ invalid_object_id then v.id else o.update;
    }

    pub add_last-outcome : add_last d short last upnp_class ref_id o ≡ outcome
    unfolding add_last
    add_last-outcome = rw (
      v.container,
      create_container-created d laws o.store v.tree short first last v.id upnp_class ref_id
          (Refers-Keeps d ref_id s.db o.store.db v.keeps refers),
      add_last,
    )

    still_absent : id_at o.store.db (loc_virt_prefix ∷ short) ≡ none
    still_absent = v.others (loc_virt_prefix ∷ short) (omega arith) ∙ absent

    grown_found : id_at grown.db (loc_virt_prefix ∷ short) ≡ some (fresh d o.store)
    grown_found =
        created_found d laws o.store v.tree short first last v.id upnp_class ref_id still_absent

    grown-Keeps : Keeps d o.store.db grown.db
    grown-Keeps =
        created-Keeps d laws o.store v.tree short first last v.id upnp_class ref_id still_absent

    grown_others :
        (location : Bytes)
        → suc (length short) < length location
        → id_at grown.db location ≡ id_at s.db location
    unfolding container_row
    grown_others location l =
        laws.id_at_other _ o.store.db location (λ e. absurd (omega (arith, ap length e)))
        ∙ v.others location (omega arith)

    set_update : o.update ≢ invalid_object_id → outcome.update ≡ o.update
    set_update n = ground arith

    grown_told : Tells s update outcome
    grown_told = elim v.told [
      | inl (same, e) ↦ elim (Bool-cases (o.update ==ℤ invalid_object_id)) [
        | inl z ↦ inr (
            inr (
              sym e ∙ (==ℤ_iff o.update invalid_object_id).0 z,
              record {
                path = short;
                first = first;
                last = last;
                absent = absent;
                stripped = stripped;
                old =
                    subst (λ (r : Store d). container_at d r.db first ≡ some v.id) same v.found
                    ∙ ap some (rw z);
                new = fresh d o.store;
                added = grown_found;
              },
            ))
        | inr z ↦ inr (
            inl (
              (λ f.
                  let bad : true ≡ false =
                    sym ((==ℤ_iff o.update invalid_object_id).1 (e ∙ f)) ∙ z in
                  cc),
              ap (λ b. if b then v.id else o.update) z ∙ e,
            ))
      ]
      | inr (inl (n, e)) ↦ inr (inl (n, set_update (λ f. n (sym e ∙ f)) ∙ e))
      | inr (inr (e, p)) ↦ inr (
          inr (
            e,
            record {
              path = p.path;
              first = p.first;
              last = p.last;
              absent = p.absent;
              stripped = p.stripped;
              old =
                  p.old
                  ∙ ap some (
                      sym (
                        set_update (λ f.
                          let big = subst (λ i. pos 0 ≤ℤ i) f (nonneg s p.first o.update t p.old) in
                          absurd (omega (arith, big)))));
              new = p.new;
              added = grown-Keeps.ids (loc_virt_prefix ∷ p.path) p.new p.added;
            },
          ))
    ]

    pub outcome-Adds :
        (path : Bytes)
        → collapse sep path ≡ short
        → is_root short ≡ false
        → length short ≤ length path
        → Adds path s update outcome
    outcome-Adds path e r l = record {
      id = fresh d o.store;
      container = refl;
      found = rw (e, r) grown_found;
      tree =
          created-IsTree d laws o.store v.tree short first last v.id upnp_class ref_id still_absent
            stripped v.found;
      keeps = record {
        ids = λ location id h. grown-Keeps.ids location id (v.keeps.ids location id h);
        parents = λ id p h. grown-Keeps.parents id p (v.keeps.parents id p h);
      };
      others = λ location m. grown_others location (omega arith);
      told = grown_told;
    }
