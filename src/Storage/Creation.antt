-- ===== src/Storage/Creation.antt =====
-- The store with a new container, as `createContainer` makes it.
use mathlib.Core.Option
use gerber.Prelude.{
  drop, ◌≡◌, ◌≢◌, inl, inr, refl, sym, ap, ◌∙◌, subst, true, false, not, ◌&&◌, Bool-cases,
  Option-cases, ◌∷◌, Option, none, some, arith,
}
use gerber.Prelude.Int.{ℤ, pos, ◌≤ℤ◌, ◌+ℤ◌, ◌==ℤ◌, ==ℤ_iff, ltb_ℤ, int_laws, +ℤ_parts}
use gerber.Zmm.Strings.{bytes_eq, Bytes, ZString}
use gerber.Storage.{
  Row, Database, Store, strip, loc_virt_prefix, loads, container_row, inform_cache,
  create_container, add_location_prefix,
}
use gerber.Zmm.Strings.Search.{bytes_eq_iff}
use gerber.Storage.Tree.{
  IsTable, container_at, Linked, IsTree, Keeps, Keeps-container_at, Keeps-Linked, Refers,
}

module _ (d : Database) where
  open d use {Db, id_at, parent_of, insert_row}

  -- The store with a new container.
  abbrev pub fresh : Store d → ℤ
  fresh s = s.last_id +ℤ pos 1

  abbrev pub row : Store d → Bytes → Bytes → ℤ → ZString → ℤ → Row
  row s short name parent upnp_class ref_id =
      container_row (fresh s) parent name (loc_virt_prefix ∷ short) upnp_class ref_id

  abbrev pub created : Store d → Bytes → Bytes → ℤ → ZString → ℤ → Store d
  created s short name parent upnp_class ref_id = record {
    db = insert_row (row s short name parent upnp_class ref_id) s.db;
    last_id = fresh s;
    cache = Option.map (inform_cache parent (fresh s) short) s.cache;
  }

  module _ (laws : IsTable d) (s : Store d) (t : IsTree d s) (short first name : Bytes) (parent : ℤ)
      (upnp_class : ZString) (ref_id : ℤ) where
    abbrev next : Store d
    next = created s short name parent upnp_class ref_id

    abbrev new_row : Row
    new_row = row s short name parent upnp_class ref_id

    guard_ref : Refers d ref_id s.db → (ltb_ℤ (pos 0) ref_id && not (loads d ref_id s)) ≡ false
    unfolding loads
    guard_ref (inl h) = ground arith
    guard_ref (inr (p, e)) = ground arith

    guard_last : ltb_ℤ s.last_id (pos 1) ≡ false
    guard_last = ground (arith, t.loaded)

    pub create_container-created :
        Refers d ref_id s.db
        → create_container d parent name short true upnp_class ref_id s ≡ (next, some (fresh s))
    unfolding create_container add_location_prefix
    create_container-created r = rw (guard_ref r, guard_last, create_container)

    row_location : new_row.location ≡ loc_virt_prefix ∷ short
    unfolding container_row
    row_location = refl

    row_id : new_row.id ≡ (fresh s)
    unfolding container_row
    row_id = refl

    row_parent : new_row.parent_id ≡ parent
    unfolding container_row
    row_parent = refl

    fresh_parent : (id p : ℤ) → parent_of s.db id ≡ some p → id ≢ (fresh s)
    fresh_parent id p h e =
        let before = subst (λ i. i ≤ℤ s.last_id) e (t.known id p h) in omega (int_laws, before)

    pub created-Keeps : id_at s.db (loc_virt_prefix ∷ short) ≡ none → Keeps d s.db next.db
    created-Keeps free = record {
      ids = λ location id h.
          laws.id_at_other new_row s.db location (λ e.
            let absent : some id ≡ none = sym h ∙ ap (id_at s.db) (e ∙ row_location) ∙ free in cc)
          ∙ h;
      parents = λ id p h.
          laws.parent_of_other new_row s.db id
            (subst (λ i. id ≢ i) (sym row_id) (fresh_parent id p h))
          ∙ h;
    }

    pub created_found :
        id_at s.db (loc_virt_prefix ∷ short) ≡ none
        → id_at next.db (loc_virt_prefix ∷ short) ≡ some (fresh s)
    unfolding container_row
    created_found free = laws.id_at-insert new_row s.db free

    created_parent : parent_of next.db (fresh s) ≡ some parent
    unfolding container_row ◌+ℤ◌
    created_parent =
        laws.parent_of-insert new_row s.db (elim (Option-cases (parent_of s.db (fresh s))) [
          | inl e ↦ e
          | inr (p, e) ↦ absurd (fresh_parent (fresh s) p e refl)
        ])

    module _ (free : id_at s.db (loc_virt_prefix ∷ short) ≡ none)
        (stripped : strip short ≡ some (first, name))
        (above : container_at d s.db first ≡ some parent) where
      created_here :
          (id : ℤ) → id_at next.db (loc_virt_prefix ∷ short) ≡ some id → Linked d next.db short id
      created_here id h = record {
        first = first;
        last = name;
        parent = parent;
        stripped = stripped;
        above = Keeps-container_at d s.db next.db first parent (created-Keeps free) above;
        below = subst (λ i. parent_of next.db i ≡ some parent) same created_parent;
        no_root =
            subst (λ i. pos 0 ≤ℤ i) same (omega (int_laws, t.loaded, +ℤ_parts s.last_id (pos 1)));
      }
        where
          same : (fresh s) ≡ id
          same = ap (λ (o : Option ℤ). Option.get_or o (fresh s)) (sym (created_found free) ∙ h)

      created-Linked :
          (path : Bytes) (id : ℤ)
          → id_at next.db (loc_virt_prefix ∷ path) ≡ some id
          → Linked d next.db path id
      created-Linked path id h = elim (Bool-cases (bytes_eq path short)) [
        | inl e ↦
            let same = (bytes_eq_iff path short).0 e in
            subst (λ p. Linked d next.db p id) (sym same)
              (created_here id (ap (λ p. id_at next.db (loc_virt_prefix ∷ p)) (sym same) ∙ h))
        | inr e ↦ Keeps-Linked d s.db next.db path id (created-Keeps free) (
            t.linked path id (
              sym (
                laws.id_at_other new_row s.db (loc_virt_prefix ∷ path) (λ same.
                  let bad : true ≡ false =
                    sym ((bytes_eq_iff path short).1 (ap (drop 1) (same ∙ row_location))) ∙ e in
                  cc))
              ∙ h))
      ]

      created_known : (id p : ℤ) → parent_of next.db id ≡ some p → id ≤ℤ (fresh s)
      created_known id p h = elim (Bool-cases (id ==ℤ (fresh s))) [
        | inl e ↦ ground (arith)
        | inr e ↦
            let before = t.known id p (
              sym (
                laws.parent_of_other new_row s.db id (λ same.
                  let bad : true ≡ false = sym ((==ℤ_iff id (fresh s)).1 (same ∙ row_id)) ∙ e in
                  cc))
              ∙ h) in
            omega (int_laws, before, +ℤ_parts s.last_id (pos 1))
      ]

      pub created-IsTree : IsTree d next
      created-IsTree = record {
        linked = created-Linked;
        known = created_known;
        loaded = omega (int_laws, t.loaded, +ℤ_parts s.last_id (pos 1));
      }
