-- ===== src/Tools/Protocol/Parts.antt =====
-- The protocol of a rendered protocol info.
use gerber.Prelude.{
  suc, ◌+◌, ◌<◌, ◌≡◌, ap, ◌∙◌, true, Bool-cases, inl, inr, [], ◌∷◌, ◌++◌, some, arith, ltb, length,
  length-append,
}
use gerber.Zmm.Strings.{Bytes, Lacks, string_ok, index}
use gerber.Zmm.Strings.Pieces.{substring_front}
use gerber.Zmm.Strings.Search.{strchr-append}
use gerber.Tools.Protocol.{render_protocol_info, protocol_at, get_protocol}

before_colon :
    (p r : Bytes)
    → Lacks 0 p
    → Lacks b':' p
    → 0 < length p
    → get_protocol (some (p ++ b':' ∷ r)) ≡ some p
unfolding get_protocol protocol_at index
before_colon [] r h k l = absurd (omega arith)
before_colon (x ∷ p) r h k l = elim (Bool-cases (ltb (length (x ∷ p ++ b':' ∷ r)) 1)) [
  | inl e ↦ absurd (ground (arith, length-append (x ∷ p) (b':' ∷ r)))
  | inr e ↦
      rw (e, strchr-append b':' (omega arith) (x ∷ p) r h k)
        (ap (λ m. protocol_at (some m) (some (x ∷ p ++ b':' ∷ r))) {x = 0 + suc (length p)}
            {y = suc (length p)} (omega arith)
          ∙ substring_front (x ∷ p) (b':' ∷ r) h)
]

-- The protocol of a rendered protocol info is the one that it was rendered with, where that one and
-- the mime type are not empty and the protocol has neither a colon nor a NUL.
pub get_protocol-render_protocol_info :
    (mimetype protocol extend : Bytes)
    → Lacks 0 protocol
    → Lacks b':' protocol
    → 0 < length protocol
    → string_ok (some mimetype) ≡ true
    → string_ok (some protocol) ≡ true
    → get_protocol (some (render_protocol_info mimetype protocol extend)) ≡ some protocol
unfolding render_protocol_info
get_protocol-render_protocol_info mimetype protocol extend h k l m o =
    elim (Bool-cases (string_ok (some extend))) [
      | inl e ↦
          rw (m, o, e) (before_colon protocol (b'*' ∷ b':' ∷ (mimetype ++ b':' ∷ extend)) h k l)
      | inr e ↦
          rw (m, o, e) (before_colon protocol (b'*' ∷ b':' ∷ (mimetype ++ b':' ∷ b'*' ∷ [])) h k l)
    ]
