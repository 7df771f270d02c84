-- ===== src/Mxml/Escape.antt =====
-- mxml/node.cc, `escape`: what a reader of the entities reads in the escaped text.
use gerber.Prelude.{
  ℕ, zero, suc, ◌≤◌, ◌≢◌, ◌≡◌, refl, ap, sym, subst, ◌∙◌, ==_iff, length-map, Bool-cases, inl, inr,
  true, false, [], ◌∷◌, ◌++◌, none, some, ◌==◌, if◌then◌else◌, length, drop, map, arith, All,
  All-append,
}
use gerber.Zmm.Strings.{Bytes, ZString, c_str, starts_with}
use gerber.Mxml.Words.{lt_entity, gt_entity, amp_entity, quot_entity, apos_entity}
use gerber.Mxml.Printing.{is_control, escape_char, escape_all, escape}

-- The first character of a text, and how many bytes spell it.
unfoldable pub read_char : ℕ → Bytes → ℕ × ℕ
unfolding starts_with
read_char c s =
    if starts_with (c ∷ s) lt_entity
    then (b'<', 4)
    else if starts_with (c ∷ s) gt_entity
    then (b'>', 4)
    else if starts_with (c ∷ s) amp_entity
    then (b'&', 5)
    else if starts_with (c ∷ s) quot_entity
    then (b'"', 6)
    else if starts_with (c ∷ s) apos_entity
    then (b'\'', 6)
    else (c, 1)

-- A reader of XML text, which replaces the five entities.
unfoldable pub read_text : ℕ → Bytes → Bytes
unfolding read_char
read_text zero s = []
read_text (suc fuel) [] = []
read_text (suc fuel) (c ∷ s) = let (x, n) = read_char c s in x ∷ read_text fuel (drop n (c ∷ s))

-- The byte that stands for a byte: '.' for a control code.
unfoldable pub shown : ℕ → ℕ
unfolding is_control
shown c = if is_control c then b'.' else c

read_plain : (c : ℕ) (s : Bytes) → c ≢ b'&' → read_char c s ≡ (c, 1)
unfolding read_char starts_with
read_plain c s h = ground arith

-- The reader takes one character off the escaped text of a byte.
abbrev Reads : ℕ → Type 0
Reads c =
    (fuel : ℕ) (rest : Bytes)
    → read_text (suc fuel) (escape_char c ++ rest) ≡ shown c ∷ read_text fuel rest

Reads-plain :
    (c : ℕ)
    → c ≢ b'&'
    → (fuel : ℕ) (rest : Bytes) → read_text (suc fuel) (c ∷ rest) ≡ c ∷ read_text fuel rest
unfolding read_text
Reads-plain c h fuel rest = rw (read_plain c rest h) refl

at_char : (c k : ℕ) → Reads k → (c == k) ≡ true → Reads c
at_char c k h e = subst Reads (sym ((==_iff c k).0 e)) h

special : Reads b'<' × Reads b'>' × Reads b'&' × Reads b'"' × Reads b'\''
unfolding escape_char shown is_control read_text read_char starts_with
special =
    (λ fuel rest. refl, λ fuel rest. refl, λ fuel rest. refl, λ fuel rest. refl, λ fuel rest. refl)

other :
    (c : ℕ)
    → (c == b'<') ≡ false
    → (c == b'>') ≡ false
    → (c == b'&') ≡ false
    → (c == b'"') ≡ false
    → (c == b'\'') ≡ false
    → Reads c
unfolding escape_char shown
other c l g a q p fuel rest =
    rw (l, g, a, q, p)
      (elim (Bool-cases (is_control c)) [
        | inl e ↦ rw e (Reads-plain b'.' (omega arith) fuel rest)
        | inr e ↦ rw e (Reads-plain c (ground arith) fuel rest)
      ])

escape_char-Reads : (c : ℕ) → Reads c
escape_char-Reads c = elim (Bool-cases (c == b'<')) [
  | inl e ↦ at_char c b'<' special.0 e
  | inr l ↦ elim (Bool-cases (c == b'>')) [
    | inl e ↦ at_char c b'>' special.1 e
    | inr g ↦ elim (Bool-cases (c == b'&')) [
      | inl e ↦ at_char c b'&' special.2 e
      | inr a ↦ elim (Bool-cases (c == b'"')) [
        | inl e ↦ at_char c b'"' special.3 e
        | inr q ↦ elim (Bool-cases (c == b'\'')) [
          | inl e ↦ at_char c b'\'' special.4 e
          | inr p ↦ other c l g a q p
        ]
      ]
    ]
  ]
]

read_nil : (fuel : ℕ) → read_text fuel [] ≡ []
unfolding read_text
read_nil zero = refl
read_nil (suc fuel) = refl

read_all : (fuel : ℕ) (s : Bytes) → length s ≤ fuel → read_text fuel (escape_all s) ≡ map shown s
unfolding escape_all
read_all fuel [] h = read_nil fuel
read_all zero (c ∷ s) h = absurd (omega arith)
read_all (suc fuel) (c ∷ s) h =
    escape_char-Reads c fuel (escape_all s) ∙ ap (◌∷◌ (shown c)) (read_all fuel s (omega arith))

abbrev pub IsInertByte : ℕ → Type 0
IsInertByte c = (c ≢ b'<') × (c ≢ b'>') × (c ≢ b'"') × (c ≢ b'\'')

escape_char-IsInert : (c : ℕ) → All IsInertByte (escape_char c)
unfolding escape_char
escape_char-IsInert c = ground arith

escape_all-IsInert : (s : Bytes) → All IsInertByte (escape_all s)
unfolding escape_all
escape_all-IsInert [] = tt
escape_all-IsInert (c ∷ s) =
    All-append IsInertByte (escape_char c) (escape_all s) (escape_char-IsInert c)
      (escape_all-IsInert s)

abbrev pub shown_text : ZString → Bytes
shown_text none = []
shown_text (some s) = map shown (c_str s)

-- Escaped text has no angle bracket and no quote, and a reader that replaces the five entities reads
-- the text up to its first NUL in it, with a dot for each control code. It takes one round for each
-- byte of the text.
pub read_text-escape :
    (s : ZString)
    → All IsInertByte (escape s) × (read_text (length (shown_text s)) (escape s) ≡ shown_text s)
unfolding escape
read_text-escape none = (tt, read_nil 0)
read_text-escape (some s) = (
  escape_all-IsInert (c_str s),
  read_all (length (map shown (c_str s))) (c_str s) (omega (arith, length-map shown (c_str s))),
)
