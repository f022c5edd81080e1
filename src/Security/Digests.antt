-- ===== src/Security/Digests.antt =====
-- security.rs: which URIs name an artifact.
use shapeport.Prelude.{
  ◌≡◌, refl, ap, ◌↔◌, true, Text, all, length, drop, is_digit, Option, none, some, [], ◌∷◌, ◌++◌,
  arith, drop-length,
}
use shapeport.Error.{ok}
use shapeport.Functions.Args.{is_prefix, utf8_len}
use shapeport.Security.{strip_prefix}
use shapeport.Security.Artifacts.{
  artifact_scheme, is_hexdigit, is_lower_hex, checked_digest, parse_artifact_uri,
}

-- 64 lowercase hexadecimal digits.
abbrev pub IsDigest : Text → Type 0
IsDigest digest = (length digest ≡ 64) × (all is_lower_hex digest ≡ true)

pub is_prefix_append : (p s : Text) → is_prefix p (p ++ s) ≡ true
unfolding is_prefix
is_prefix_append [] s = refl
is_prefix_append (a ∷ p) s = ground (arith, is_prefix_append p s)

is_prefix→append : (p s : Text) → is_prefix p s ≡ true → s ≡ p ++ drop (length p) s
unfolding is_prefix
is_prefix→append [] s h = refl
is_prefix→append (a ∷ p) [] h = cc h
is_prefix→append (a ∷ p) (c ∷ s) h = ground (arith, is_prefix→append p s)

-- A hexadecimal digit is one byte.
utf8_len-hex : (s : Text) → all is_lower_hex s ≡ true → utf8_len s ≡ length s
unfolding utf8_len is_lower_hex is_hexdigit is_digit
utf8_len-hex [] h = refl
utf8_len-hex (c ∷ s) h = ground (arith, utf8_len-hex s)

checked_iff :
    (o : Option Text) (digest : Text)
    → (checked_digest o ≡ ok digest) ↔ ((o ≡ some digest) × IsDigest digest)
unfolding checked_digest
checked_iff none digest = (λ h. cc h, λ h. cc h.0)
checked_iff (some d) digest =
    (λ h. ground (arith, utf8_len-hex d), λ h. ground (arith, utf8_len-hex d))

pub strip_iff : (p s rest : Text) → (strip_prefix p s ≡ some rest) ↔ (s ≡ p ++ rest)
unfolding strip_prefix
strip_iff p s rest = (
  λ h. ground (arith, is_prefix→append p s),
  λ e. rw e (rw (is_prefix_append p rest) (ap some (drop-length p rest))),
)

-- `parse_artifact_uri` accepts exactly the scheme followed by 64 lowercase hexadecimal digits, and
-- returns these.
pub parse_artifact_uri_iff :
    (uri digest : Text)
    → (parse_artifact_uri uri ≡ ok digest) ↔ ((uri ≡ artifact_scheme ++ digest) × IsDigest digest)
unfolding parse_artifact_uri
parse_artifact_uri_iff uri digest =
    let checked = checked_iff (strip_prefix artifact_scheme uri) digest in
    let stripped = strip_iff artifact_scheme uri digest in
    (λ h. (stripped.0 (checked.0 h).0, (checked.0 h).1), λ h. checked.1 (stripped.1 h.0, h.1))
