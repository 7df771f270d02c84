-- ===== src/Dictionary.antt =====
-- dictionary.h and dictionary.cc: the ordered map of strings in which the server keeps resource
-- attributes, request parameters and session values.
pub mod Lookup
pub mod Equality
pub mod Round
pub mod Codec
use mathlib.Core.Option
use gerber.Prelude.{
  ℕ, zero, suc, ◌+◌, ◌-◌, Bool, true, false, ◌&&◌, not, List, [], ◌∷◌, ◌++◌, Option, none, some,
  ◌==◌, leb, ltb, if◌then◌else◌, length, take, drop,
}
use gerber.Zmm.Strings.{Bytes, ZString, strchr, equals, substring, index, len}
use gerber.Tools.Url.{url_escape, url_unescape}

-- `DictionaryElement`.
pub record Element : Type 0 where
  pub key : ZString
  pub value : ZString

-- `elements`, in order.
abbrev pub Dictionary : Type 0
Dictionary = List Element

unfoldable pub put : ZString → ZString → Dictionary → Dictionary
unfolding equals
put key value [] = record { key = key; value = value } ∷ []
put key value (el ∷ elements) =
    if equals el.key key
    then record el { value = value } ∷ elements
    else el ∷ put key value elements

-- `none` is the null string, which a missing key gives too.
unfoldable pub get : ZString → Dictionary → ZString
unfolding equals
get key [] = none
get key (el ∷ elements) = if equals el.key key then el.value else get key elements

unfoldable pub remove : ZString → Dictionary → Dictionary
unfolding equals
remove key [] = []
remove key (el ∷ elements) = if equals el.key key then elements else el ∷ remove key elements

-- `url_escape` of a null string is "".
unfoldable pub escape : ZString → Bytes
unfolding url_escape
escape none = []
escape (some s) = url_escape s

unfoldable pub encode_element : ℕ → Element → Bytes
unfolding escape
encode_element sep2 el = escape el.key ++ sep2 ∷ escape el.value

-- The loop of `_encode` from its second round on.
unfoldable pub encode_rest : ℕ → ℕ → Dictionary → Bytes
unfolding encode_element
encode_rest sep1 sep2 [] = []
encode_rest sep1 sep2 (el ∷ elements) =
    sep1 ∷ (encode_element sep2 el ++ encode_rest sep1 sep2 elements)

-- `_encode`.
unfoldable pub encode_with : ℕ → ℕ → Dictionary → Bytes
unfolding encode_rest
encode_with sep1 sep2 [] = []
encode_with sep1 sep2 (el ∷ elements) = encode_element sep2 el ++ encode_rest sep1 sep2 elements

unfoldable pub encode : Dictionary → Bytes
unfolding encode_with
encode d = encode_with b'&' b'=' d

unfoldable pub encode_simple : Dictionary → Bytes
unfolding encode_with
encode_simple d = encode_with b'/' b'/' d

-- What a round of `decode` stores, where '&' stands at `amp` and '=' at `eq`, if anywhere.
unfoldable pub decode_pair : Bytes → ℕ → Option ℕ → Dictionary → Dictionary
unfolding put url_unescape
decode_pair text amp none d = d
decode_pair text amp (some eq) d =
    if ltb eq amp
    then put (some (url_unescape (take eq text)))
        (some (url_unescape (take (amp - eq - 1) (drop (eq + 1) text)))) d
    else d

-- `while (data < dataEnd)`; each round takes a byte at least.
unfoldable pub decode_loop : ℕ → Bytes → Dictionary → Dictionary
unfolding decode_pair
decode_loop fuel [] d = d
decode_loop zero (x ∷ xs) d = d
decode_loop (suc fuel) (x ∷ xs) d =
    let amp = Option.get_or (strchr b'&' (x ∷ xs)) (length (x ∷ xs)) in
    decode_loop fuel (drop (amp + 1) (x ∷ xs)) (decode_pair (x ∷ xs) amp (strchr b'=' (x ∷ xs)) d)

-- `decode`, which adds to what the dictionary holds.
unfoldable pub decode : Bytes → Dictionary → Dictionary
unfolding decode_loop strchr
decode url d = decode_loop (length url) url d

unfoldable pub clear : Dictionary → Dictionary
clear d = []

unfoldable pub merge : Dictionary → Dictionary → Dictionary
unfolding put
merge [] d = d
merge (el ∷ other) d = merge other (put el.key el.value d)

unfoldable pub clone : Dictionary → Dictionary
unfolding merge
clone d = merge d []

unfoldable pub is_subset_of : Dictionary → Dictionary → Bool
unfolding equals get
is_subset_of [] other = true
is_subset_of (el ∷ elements) other =
    equals el.value (get el.key other) && is_subset_of elements other

unfoldable pub dictionary_equals : Dictionary → Dictionary → Bool
unfolding is_subset_of
dictionary_equals d other = is_subset_of d other && is_subset_of other d

unescape : ZString → Bytes
unfolding url_unescape
unescape none = []
unescape (some s) = url_unescape s

-- The second half of a round of `decodeSimple`, behind the key that ends at `pos`.
unfoldable pub simple_value : Bytes → ZString → ℕ → Option (ZString × ZString × ℕ)
unfolding index substring unescape
simple_value url key last_pos =
    let pos = Option.get_or (index (some url) last_pos b'/') (length url) in
    if ltb pos (last_pos + 1)
    then none
    else some (key, some (unescape (substring (some url) last_pos (pos - last_pos))), pos + 1)

-- A round of `decodeSimple`: the key, the value and the new `last_pos`, unless the loop breaks.
unfoldable pub simple_pair : Bytes → ℕ → Option (ZString × ZString × ℕ)
unfolding simple_value
simple_pair url last_pos = elim (index (some url) last_pos b'/') [
  | none ↦ none
  | some pos ↦
      if ltb pos (last_pos + 1)
      then none
      else simple_value url (some (unescape (substring (some url) last_pos (pos - last_pos))))
          (pos + 1)
]

unfoldable pub decode_simple_loop : ℕ → Bytes → ℕ → Dictionary → Dictionary
unfolding simple_pair put
decode_simple_loop zero url last_pos d = d
decode_simple_loop (suc fuel) url last_pos d = elim (simple_pair url last_pos) [
  | none ↦ d
  | some (key, value, next) ↦
      let rest = decode_simple_loop fuel url next (put key value d) in
      if ltb next (length url) then rest else put key value d
]

-- `decodeSimple`; `last_pos` grows in each round.
unfoldable pub decode_simple : Bytes → Dictionary → Dictionary
unfolding decode_simple_loop
decode_simple url d = decode_simple_loop (suc (length url)) url 0 d
