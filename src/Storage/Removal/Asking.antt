-- ===== src/Storage/Removal/Asking.antt =====
-- What is asked of a removal, and its state before the first round.
use gerber.Prelude.{
  ◌≡◌, ◌⊎◌, inl, inr, sym, subst, true, false, List, [], ◌∷◌, ◌++◌, some, if◌then◌else◌,
}
use gerber.Prelude.Int.{ℤ, member, member-append}
use gerber.Storage.Removal.{Object, Tables, is_empty, start}
use gerber.Storage.Removal.Rounds.{IsSql, IsLinked, Inv}

no_member : (id : ℤ) (ids : List ℤ) → member id (if is_empty ids then [] else []) ≡ true → ⊥
no_member id [] h = cc
no_member id (x ∷ ids) h = cc

module _ (t : Tables) (sql : IsSql t) where
  open t use {Db, object}

  -- Items are asked for, or containers, not both.
  pub record IsAsked (db : Db) (items containers : List ℤ) : Type 0 where
    pub all_items :
        (id : ℤ) (o : Object)
        → member id items ≡ true
        → object db id ≡ some o
        → o.is_container ≡ false
    pub all_containers :
        (id : ℤ) (o : Object)
        → member id containers ≡ true
        → object db id ≡ some o
        → o.is_container ≡ true
    pub one_kind : (items ≡ []) ⊎ (containers ≡ [])

  module _ (db : Db) (linked : IsLinked t db) where
    start_items :
        (items : List ℤ)
        → ((id : ℤ) (o : Object)
            → member id items ≡ true
            → object db id ≡ some o
            → o.is_container ≡ false)
        → Inv t sql db linked (items ++ []) [] (start t items [] db)
    unfolding start
    start_items items all_items = record {
      sub = λ id o h. h;
      asked =
          λ id m. elim (member-append id items [] m) [ inl k ↦ inr (inl k) | inr k ↦ absurd (cc) ];
      closed = λ c id p o hp kind g ho e. elim g [
        | inl m ↦ absurd (cc)
        | inr (inl m) ↦ absurd (let item = all_items c p m hp in cc)
        | inr (inr h) ↦ absurd (cc)
      ];
      queued = λ i m. inr (inl m);
      refs = λ i id p o hp kind g ho e. elim g [
        | inl m ↦ absurd (cc)
        | inr (inl m) ↦ inl m
        | inr (inr h) ↦ absurd (cc)
      ];
    }

    start_containers :
        (containers : List ℤ)
        → ((id : ℤ) (o : Object)
            → member id containers ≡ true
            → object db id ≡ some o
            → o.is_container ≡ true)
        → Inv t sql db linked containers [] (start t [] containers db)
    unfolding start
    start_containers containers all_containers = record {
      sub = λ id o h. h;
      asked = λ id m. inl m;
      closed = λ c id p o hp kind g ho e. elim g [
        | inl m ↦ inl m
        | inr (inl m) ↦ absurd (no_member c containers m)
        | inr (inr h) ↦ absurd (cc)
      ];
      queued = λ i m. absurd (cc);
      refs = λ i id p o hp kind g ho e. elim g [
        | inl m ↦ absurd (let container = all_containers i p m hp in cc)
        | inr (inl m) ↦ absurd (no_member i containers m)
        | inr (inr h) ↦ absurd (cc)
      ];
    }

    pub start-Inv :
        (items containers : List ℤ)
        → IsAsked db items containers
        → Inv t sql db linked (items ++ containers) [] (start t items containers db)
    start-Inv items containers a = elim a.one_kind [
      | inl e ↦
          subst (λ xs. Inv t sql db linked (xs ++ containers) [] (start t xs containers db)) (sym e)
            (start_containers containers a.all_containers)
      | inr e ↦
          subst (λ xs. Inv t sql db linked (items ++ xs) [] (start t items xs db)) (sym e)
            (start_items items a.all_items)
    ]
