-- ===== src/Dictionary/Equality.antt =====
-- Copies of a dictionary, and when two dictionaries are equal.
use gerber.Prelude.{
  ◌≡◌, refl, sym, append-nil, append_assoc, ◌∙◌, ◌↔◌, true, false, ◌&&◌, [], ◌∷◌, ◌++◌, arith,
  if◌then◌else◌,
}
use gerber.Zmm.Strings.{ZString}
use gerber.Dictionary.{Element, Dictionary, put, get, merge, clone, is_subset_of, dictionary_equals}
use gerber.Dictionary.Lookup.{seen, equals_iff, equals_refl, has, IsDistinct, has_same, get_missing}

put_fresh :
    (key value : ZString) (d : Dictionary)
    → has key d ≡ false
    → put key value d ≡ d ++ record { key = key; value = value } ∷ []
unfolding put
put_fresh key value [] h = refl
put_fresh key value (el ∷ d) h = ground (arith, equals_iff el.key key, put_fresh key value d)

has-append : (k : ZString) (d e : Dictionary) → has k (d ++ e) ≡ (if has k d then true else has k e)
has-append k [] e = refl
has-append k (el ∷ d) e = ground (arith, has-append k d e)

abbrev Avoids : Dictionary → Dictionary → Type 0
Avoids d [] = Unit {0}
Avoids d (el ∷ other) = (has el.key d ≡ false) × Avoids d other

Avoids-more :
    (el : Element) (d other : Dictionary)
    → has el.key other ≡ false
    → Avoids d other
    → Avoids (d ++ el ∷ []) other
Avoids-more el d [] h a = tt
Avoids-more el d (x ∷ other) h a = (
  ground (arith, has-append x.key d (el ∷ []), equals_iff el.key x.key, equals_iff x.key el.key),
  Avoids-more el d other (ground arith) a.1,
)

merge_fresh :
    (other d : Dictionary) → IsDistinct other → Avoids d other → merge other d ≡ d ++ other
unfolding merge
merge_fresh [] d h a = sym (append-nil d)
merge_fresh (el ∷ other) d h a = rw (put_fresh el.key el.value d a.0) (
    merge_fresh other (d ++ el ∷ []) h.1 (Avoids-more el d other h.0 a.1)
    ∙ append_assoc d (el ∷ []) other)

Avoids-nil : (d : Dictionary) → Avoids [] d
Avoids-nil [] = tt
Avoids-nil (el ∷ d) = (refl, Avoids-nil d)

-- A copy of a dictionary is the dictionary, order included.
pub clone_lem : (d : Dictionary) → IsDistinct d → clone d ≡ d
unfolding clone
clone_lem d h = merge_fresh d [] h (Avoids-nil d)

get_same : (k j : ZString) (d : Dictionary) → seen k ≡ seen j → get k d ≡ get j d
unfolding get
get_same k j [] e = refl
get_same k j (el ∷ d) e = ground (arith, equals_iff el.key k, equals_iff el.key j, get_same k j d e)

-- Every key of the first dictionary has the same value in the second.
abbrev Agrees : Dictionary → Dictionary → Type 0
Agrees d e = (k : ZString) → has k d ≡ true → seen (get k d) ≡ seen (get k e)

subset_sound : (d e : Dictionary) → is_subset_of d e ≡ true → Agrees d e
unfolding is_subset_of get
subset_sound [] e h k m = cc
subset_sound (el ∷ d) e h k m = ground (
  arith,
  equals_iff el.key k,
  get_same el.key k e,
  equals_iff el.value (get el.key e),
  λ (p : is_subset_of d e ≡ true) (q : has k d ≡ true). subset_sound d e p k q,
)

Agrees-tail :
    (el : Element) (d e : Dictionary) → has el.key d ≡ false → Agrees (el ∷ d) e → Agrees d e
unfolding get
Agrees-tail el d e h a k m = ground (arith, a k, equals_iff el.key k, has_same el.key k d)

subset_complete : (d e : Dictionary) → IsDistinct d → Agrees d e → is_subset_of d e ≡ true
unfolding is_subset_of get
subset_complete [] e h a = refl
subset_complete (el ∷ d) e h a = ground (
  arith,
  a el.key,
  equals_refl el.key,
  equals_iff el.value (get el.key e),
  subset_complete d e h.1 (Agrees-tail el d e h.0 a),
)

-- Every key has the same value in both; a missing key counts as a null value.
abbrev pub SameValues : Dictionary → Dictionary → Type 0
SameValues d e = (k : ZString) → seen (get k d) ≡ seen (get k e)

-- `equals` holds exactly when every key has the same value in both, a null one if it is missing.
pub dictionary_equals_iff :
    (d e : Dictionary)
    → IsDistinct d
    → IsDistinct e
    → (dictionary_equals d e ≡ true) ↔ SameValues d e
unfolding dictionary_equals
dictionary_equals_iff d e hd he = (sound, complete)
  where
    sound : (is_subset_of d e && is_subset_of e d) ≡ true → SameValues d e
    sound h k = ground (
      arith,
      λ (p : is_subset_of d e ≡ true) (q : has k d ≡ true). subset_sound d e p k q,
      λ (p : is_subset_of e d ≡ true) (q : has k e ≡ true). subset_sound e d p k q,
      get_missing k d,
      get_missing k e,
    )

    complete : SameValues d e → (is_subset_of d e && is_subset_of e d) ≡ true
    complete a = rw (subset_complete d e hd (λ k m. a k), subset_complete e d he (λ k m. sym (a k)))
