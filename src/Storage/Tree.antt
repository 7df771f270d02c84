-- ===== src/Storage/Tree.antt =====
-- The tree of the virtual containers.
use gerber.Prelude.{◌≡◌, ◌≢◌, ◌⊎◌, inl, inr, Bool-cases, ◌∷◌, Option, none, some, if◌then◌else◌}
use gerber.Prelude.Int.{ℤ, pos, ◌≤ℤ◌}
use gerber.Zmm.Strings.{Bytes}
use gerber.Zmm.Strings.Reducing.{collapse}
use gerber.Tools.Paths.{sep}
use gerber.Storage.{Row, Database, Store, strip, is_root, loc_virt_prefix}

module _ (d : Database) where
  open d use {Db, id_at, parent_of, insert_row}

  -- What the queries give after an `INSERT`.
  pub record IsTable : Type 0 where
    pub id_at-insert :
        (row : Row) (db : Db)
        → id_at db row.location ≡ none
        → id_at (insert_row row db) row.location ≡ some row.id
    pub id_at_other :
        (row : Row) (db : Db) (location : Bytes)
        → location ≢ row.location
        → id_at (insert_row row db) location ≡ id_at db location
    pub parent_of-insert :
        (row : Row) (db : Db)
        → parent_of db row.id ≡ none
        → parent_of (insert_row row db) row.id ≡ some row.parent_id
    pub parent_of_other :
        (row : Row) (db : Db) (id : ℤ)
        → id ≢ row.id
        → parent_of (insert_row row db) id ≡ parent_of db id

  -- The container of a virtual path: the root, or what is found under the path.
  abbrev pub container_at : Db → Bytes → Option ℤ
  container_at db path =
      if is_root (collapse sep path)
      then some (pos 0)
      else id_at db (loc_virt_prefix ∷ collapse sep path)

  -- A container that is found under a path stands below that of the path in front.
  pub record Linked (db : Db) (path : Bytes) (id : ℤ) : Type 0 where
    pub first : Bytes
    pub last : Bytes
    pub parent : ℤ
    pub stripped : strip path ≡ some (first, last)
    pub above : container_at db first ≡ some parent
    pub below : parent_of db id ≡ some parent
    pub no_root : pos 0 ≤ℤ id

  pub record IsTree (s : Store d) : Type 0 where
    pub linked :
        (path : Bytes) (id : ℤ)
        → id_at s.db (loc_virt_prefix ∷ path) ≡ some id
        → Linked s.db path id
    pub known : (id parent : ℤ) → parent_of s.db id ≡ some parent → id ≤ℤ s.last_id
    pub loaded : pos 1 ≤ℤ s.last_id

  -- What was found stays.
  pub record Keeps (db db' : Db) : Type 0 where
    pub ids :
        (location : Bytes) (id : ℤ) → id_at db location ≡ some id → id_at db' location ≡ some id
    pub parents : (id parent : ℤ) → parent_of db id ≡ some parent → parent_of db' id ≡ some parent

  pub Keeps-container_at :
      (db db' : Db) (path : Bytes) (id : ℤ)
      → Keeps db db'
      → container_at db path ≡ some id
      → container_at db' path ≡ some id
  Keeps-container_at db db' path id k h = elim (Bool-cases (is_root (collapse sep path))) [
    | inl e ↦ rw e (rw e at h)
    | inr e ↦ rw e (k.ids (loc_virt_prefix ∷ collapse sep path) id (rw e at h))
  ]

  pub Keeps-Linked :
      (db db' : Db) (path : Bytes) (id : ℤ) → Keeps db db' → Linked db path id → Linked db' path id
  Keeps-Linked db db' path id k l = record {
    first = l.first;
    last = l.last;
    parent = l.parent;
    stripped = l.stripped;
    above = Keeps-container_at db db' l.first l.parent k l.above;
    below = k.parents id l.parent l.below;
    no_root = l.no_root;
  }

  -- The reference is none, or to a row.
  abbrev pub Refers : ℤ → Db → Type 0
  Refers ref_id db = (ref_id ≤ℤ pos 0) ⊎ ((parent : ℤ) × (parent_of db ref_id ≡ some parent))

  pub Refers-Keeps :
      (ref_id : ℤ) (db db' : Db) → Keeps db db' → Refers ref_id db → Refers ref_id db'
  Refers-Keeps ref_id db db' k (inl h) = inl h
  Refers-Keeps ref_id db db' k (inr (parent, e)) = inr (parent, k.parents ref_id parent e)
