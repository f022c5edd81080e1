-- ===== src/Paths/Render.antt =====
-- path.rs: the text that `render_path` writes, its shape and its characters.
use shapeport.Prelude.{
  ℕ, ◌≡◌, refl, sym, ◌∙◌, Bool, true, false, ◌||◌, List, [], ◌∷◌, ◌++◌, append_assoc, append-nil,
  all, All, Text, starts_with, contains, is_digit, to_text, not, all-append, &&_split, is_digit,
  to_text, to_text-IsNumeral, ◌==◌, arith,
}
use shapeport.Error.{ok}
use shapeport.Paths.{
  PathSegment, FieldPath, field, index, is_ident_start, is_ident_continue, contains_dots,
  reject_jsonpath, render_onto, render_path,
}
use shapeport.Paths.Valid.{is_ident, ValidSegment}

-- The text of the segments that follow others, and of all segments.
unfoldable pub render_rest : List PathSegment → Text
render_rest [] = []
render_rest (field name ∷ segments) = b'.' ∷ (name ++ render_rest segments)
render_rest (index i ∷ segments) = b'[' ∷ (to_text i ++ b']' ∷ render_rest segments)

unfoldable pub render_all : List PathSegment → Text
unfolding render_rest
render_all [] = []
render_all (field name ∷ segments) = name ++ render_rest segments
render_all (index i ∷ segments) = b'[' ∷ (to_text i ++ b']' ∷ render_rest segments)

render_onto_rest :
    (a : ℕ) (out : Text) (segments : List PathSegment)
    → render_onto (a ∷ out) segments ≡ (a ∷ out) ++ render_rest segments
unfolding render_onto render_rest
render_onto_rest a out [] = sym (append-nil (a ∷ out))
render_onto_rest a out (field name ∷ segments) =
    render_onto_rest a ((out ++ b'.' ∷ []) ++ name) segments ∙ simp append_assoc
render_onto_rest a out (index i ∷ segments) =
    render_onto_rest a (out ++ b'[' ∷ (to_text i ++ b']' ∷ [])) segments ∙ simp append_assoc

render_onto_ident :
    (name : Text) (segments : List PathSegment)
    → is_ident name ≡ true
    → render_onto name segments ≡ name ++ render_rest segments
unfolding is_ident
render_onto_ident [] segments h = cc
render_onto_ident (a ∷ name) segments h = render_onto_rest a name segments

-- The printer that writes onto a text is the plain recursion.
pub render_path-eq :
    (path : FieldPath)
    → All ValidSegment path.segments
    → render_path path ≡ render_all path.segments
unfolding render_path render_onto render_all
render_path-eq path valid = go path.segments valid
  where
    go :
        (segments : List PathSegment)
        → All ValidSegment segments
        → render_onto [] segments ≡ render_all segments
    go [] v = refl
    go (field name ∷ segments) v = render_onto_ident name segments v.0
    go (index i ∷ segments) v =
        render_onto_rest b'[' (to_text i ++ b']' ∷ []) segments ∙ simp append_assoc

-- A character that no test for JSONPath rejects by itself, and that is no dot.
is_plain : ℕ → Bool
is_plain c =
    not (c == b'$' || c == b'?' || c == b'@' || c == b'*' || c == 39 || c == 34 || c == b'.')

-- The same, or a dot.
is_allowed : ℕ → Bool
unfolding is_plain
is_allowed c = is_plain c || c == b'.'

all_weaken :
    (p q : ℕ → Bool)
    → ((c : ℕ) → p c ≡ true → q c ≡ true)
    → (s : Text) → all p s ≡ true
    → all q s ≡ true
all_weaken p q f [] h = refl
all_weaken p q f (c ∷ s) h =
    let (now, later) = &&_split (p c) (all p s) h in rw (f c now, all_weaken p q f s later)

is_plain-digit : (c : ℕ) → is_digit c ≡ true → is_plain c ≡ true
unfolding is_plain is_digit
is_plain-digit c h = ground arith

is_plain-continue : (c : ℕ) → is_ident_continue c ≡ true → is_plain c ≡ true
unfolding is_plain is_ident_continue
is_plain-continue c h = ground arith

is_continue-start : (c : ℕ) → is_ident_start c ≡ true → is_ident_continue c ≡ true
unfolding is_ident_start is_ident_continue
is_continue-start c h = ground arith

is_ident-plain : (name : Text) → is_ident name ≡ true → all is_plain name ≡ true
unfolding is_ident
is_ident-plain [] h = cc
is_ident-plain (c ∷ s) h =
    let (start, rest) = &&_split (is_ident_start c) (all is_ident_continue s) h in
    rw (
      is_plain-continue c (is_continue-start c start),
      all_weaken is_ident_continue is_plain is_plain-continue s rest,
    )

to_text-plain : (i : ℕ) → all is_plain (to_text i) ≡ true
to_text-plain i = all_weaken is_digit is_plain is_plain-digit (to_text i) (to_text-IsNumeral i).1

plain→allowed : (c : ℕ) → is_plain c ≡ true → is_allowed c ≡ true
unfolding is_allowed
plain→allowed c h = ground arith

allowed : (s : Text) → all is_plain s ≡ true → all is_allowed s ≡ true
allowed = all_weaken is_plain is_allowed plain→allowed

render_rest-allowed :
    (segments : List PathSegment)
    → All ValidSegment segments
    → all is_allowed (render_rest segments) ≡ true
unfolding render_rest is_allowed
render_rest-allowed [] v = refl
render_rest-allowed (field name ∷ segments) v =
    all-append is_allowed name (render_rest segments) (allowed name (is_ident-plain name v.0))
      (render_rest-allowed segments v.1)
render_rest-allowed (index i ∷ segments) v =
    all-append is_allowed (to_text i) (b']' ∷ render_rest segments)
      (allowed (to_text i) (to_text-plain i)) (render_rest-allowed segments v.1)

render_all-allowed :
    (segments : List PathSegment)
    → All ValidSegment segments
    → all is_allowed (render_all segments) ≡ true
unfolding render_all
render_all-allowed [] v = refl
render_all-allowed (field name ∷ segments) v =
    all-append is_allowed name (render_rest segments) (allowed name (is_ident-plain name v.0))
      (render_rest-allowed segments v.1)
render_all-allowed (index i ∷ segments) v = render_rest-allowed (index i ∷ segments) v

not_contained :
    (x : ℕ)
    → ((c : ℕ) → is_allowed c ≡ true → (c == x) ≡ false)
    → (s : Text) → all is_allowed s ≡ true
    → contains x s ≡ false
unfolding contains
not_contained x f [] h = refl
not_contained x f (c ∷ s) h =
    let (now, later) = &&_split (is_allowed c) (all is_allowed s) h in
    rw (f c now, not_contained x f s later)

-- A dot is followed by no dot.
contains_dots-append :
    (p t : Text) → all is_plain p ≡ true → contains_dots (p ++ t) ≡ contains_dots t
unfolding contains_dots is_plain
contains_dots-append [] t h = refl
contains_dots-append (c ∷ p) t h = ground (arith, contains_dots-append p t)

no_dot_first : (name t : Text) → is_ident name ≡ true → starts_with b'.' (name ++ t) ≡ false
unfolding is_ident starts_with is_ident_start
no_dot_first [] t h = cc
no_dot_first (c ∷ s) t h = ground arith

render_rest_no_dots :
    (segments : List PathSegment)
    → All ValidSegment segments
    → contains_dots (render_rest segments) ≡ false
unfolding contains_dots render_rest
render_rest_no_dots [] v = refl
render_rest_no_dots (field name ∷ segments) v =
    rw
      (
        no_dot_first name (render_rest segments) v.0,
        contains_dots-append name (render_rest segments) (is_ident-plain name v.0),
      )
      (render_rest_no_dots segments v.1)
render_rest_no_dots (index i ∷ segments) v =
    rw (contains_dots-append (to_text i) (b']' ∷ render_rest segments) (to_text-plain i))
      (render_rest_no_dots segments v.1)

render_all_no_dots :
    (segments : List PathSegment)
    → All ValidSegment segments
    → contains_dots (render_all segments) ≡ false
unfolding render_all contains_dots
render_all_no_dots [] v = refl
render_all_no_dots (field name ∷ segments) v =
    rw (contains_dots-append name (render_rest segments) (is_ident-plain name v.0))
      (render_rest_no_dots segments v.1)
render_all_no_dots (index i ∷ segments) v = render_rest_no_dots (index i ∷ segments) v

starts_not : (s : Text) → all is_allowed s ≡ true → starts_with b'$' s ≡ false
unfolding starts_with is_allowed
starts_not [] h = refl
starts_not (c ∷ s) h = ground arith

-- The guard against JSONPath lets every printed path pass.
pub reject_jsonpath-render_all :
    (segments : List PathSegment)
    → All ValidSegment segments
    → reject_jsonpath (render_all segments) ≡ ok tt
unfolding reject_jsonpath is_allowed
reject_jsonpath-render_all segments v =
    let printed = render_all-allowed segments v in
    let free = λ (x : ℕ) (f : (c : ℕ) → is_allowed c ≡ true → (c == x) ≡ false).
      not_contained x f (render_all segments) printed in
    rw (
      starts_not (render_all segments) printed,
      render_all_no_dots segments v,
      free b'?' (λ c h. ground arith),
      free b'@' (λ c h. ground arith),
      free b'*' (λ c h. ground arith),
      free 39 (λ c h. ground arith),
      free 34 (λ c h. ground arith),
    )
