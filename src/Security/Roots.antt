-- ===== src/Security/Roots.antt =====
-- security.rs: which paths `enforce_root` accepts.
use shapeport.Prelude.{
  ◌≡◌, refl, ap, subst, ◌↔◌, ◌⊎◌, inl, inr, Bool, true, false, Bool-cases, ◌||◌, &&_split,
  text_eq_refl, text_eq→eq, some, is_empty, List, [], ◌∷◌, ◌++◌, if◌then◌else◌, arith,
}
use shapeport.Error.{Result, ok, err, ◌>>=◌, >>=-eq-ok, Result-cases}
use shapeport.Security.Components.{Component, PathBuf, component_eq, path_starts_with, parent}
use shapeport.Security.Files.{FileSystem}
use shapeport.Security.{
  starts_with_root, any_root, resolve_missing, canonicalize_or_parent, enforce_root,
}

component_eq→eq : (a b : Component) → component_eq a b ≡ true → a ≡ b
component_eq→eq Component.root_dir Component.root_dir h = refl
component_eq→eq Component.cur_dir Component.cur_dir h = refl
component_eq→eq Component.parent_dir Component.parent_dir h = refl
component_eq→eq (Component.normal s) (Component.normal t) h = ap Component.normal (text_eq→eq s t h)
component_eq→eq _ _ h = cc h

pub component_eq_refl : (a : Component) → component_eq a a ≡ true
component_eq_refl Component.root_dir = refl
component_eq_refl Component.cur_dir = refl
component_eq_refl Component.parent_dir = refl
component_eq_refl (Component.normal s) = text_eq_refl s

starts-with→rest :
    (p base : PathBuf) → path_starts_with p base ≡ true → (rest : PathBuf) × (p ≡ base ++ rest)
unfolding path_starts_with
starts-with→rest p [] h = (p, refl)
starts-with→rest [] (b ∷ base) h = cc h
starts-with→rest (a ∷ p) (b ∷ base) h =
    let both = &&_split (component_eq a b) (path_starts_with p base) h in
    let (rest, e) = starts-with→rest p base both.1 in
    (rest, rw (component_eq→eq a b both.0) (ap (◌∷◌ b) e))

starts-with_append : (base rest : PathBuf) → path_starts_with (base ++ rest) base ≡ true
unfolding path_starts_with
starts-with_append [] rest = refl
starts-with_append (b ∷ base) rest = rw (component_eq_refl b) (starts-with_append base rest)

module _ {World : Type 0} (fs : FileSystem World) where
  -- The path goes on from what the root resolves to.
  abbrev pub Under : World → PathBuf → PathBuf → Type 0
  Under w p root =
      (real : PathBuf) × (canonicalize_or_parent fs w root ≡ ok real)
      × ((rest : PathBuf) × (p ≡ real ++ rest))

  -- The path is under one of the roots.
  abbrev pub AnyUnder : World → PathBuf → List PathBuf → Type 0
  AnyUnder w p [] = ⊥
  AnyUnder w p (root ∷ roots) = Under w p root ⊎ AnyUnder w p roots

  root→Under :
      (w : World) (p root : PathBuf)
      → starts_with_root fs p (canonicalize_or_parent fs w root) ≡ true
      → Under w p root
  unfolding starts_with_root
  root→Under w p root h = elim (Result-cases (canonicalize_or_parent fs w root)) [
    | inl (real, e) ↦ (real, e, starts-with→rest p real (rw e at h))
    | inr (failure, e) ↦ absurd (false_true (rw e at h))
  ]
    where
      false_true : false ≡ true → ⊥
      false_true h = cc h

  Under→root :
      (w : World) (p root : PathBuf)
      → Under w p root
      → starts_with_root fs p (canonicalize_or_parent fs w root) ≡ true
  unfolding starts_with_root
  Under→root w p root (real, e, (rest, q)) = rw e (rw q (starts-with_append real rest))

  any→AnyUnder :
      (w : World) (p : PathBuf) (roots : List PathBuf)
      → any_root fs w p roots ≡ true
      → AnyUnder w p roots
  unfolding any_root
  any→AnyUnder w p [] h = cc h
  any→AnyUnder w p (root ∷ roots) h =
      elim (Bool-cases (starts_with_root fs p (canonicalize_or_parent fs w root))) [
        | inl here ↦ inl (root→Under w p root here)
        | inr later ↦ inr (any→AnyUnder w p roots (rw later at h))
      ]

  AnyUnder→any :
      (w : World) (p : PathBuf) (roots : List PathBuf)
      → AnyUnder w p roots
      → any_root fs w p roots ≡ true
  unfolding any_root
  AnyUnder→any w p [] u = absurd u
  AnyUnder→any w p (root ∷ roots) (inl here) = rw (Under→root w p root here) refl
  AnyUnder→any w p (root ∷ roots) (inr later) =
      rw (AnyUnder→any w p roots later)
        (or_true (starts_with_root fs p (canonicalize_or_parent fs w root)))
    where
      or_true : (b : Bool) → (b || true) ≡ true
      or_true b = ground arith

  guard_iff :
      (w : World) (resolved : Result PathBuf) (roots : List PathBuf) (p : PathBuf)
      → ((resolved >>= λ canonical.
            if any_root fs w canonical roots
            then ok canonical
            else err (shapeport.Error.security "path_denied"))
          ≡ ok p)
        ↔ ((resolved ≡ ok p) × (any_root fs w p roots ≡ true))
  guard_iff w (err e) roots p = (λ h. cc h, λ h. cc h.0)
  guard_iff w (ok q) roots p = elim (Bool-cases (any_root fs w q roots)) [
    | inl e ↦ rw e (λ h. (h, subst (λ x. any_root fs w x roots ≡ true) (cc h) e), λ h. h.0)
    | inr e ↦
        rw e (
          λ h. cc h,
          λ h. absurd (clash h.1 (subst (λ x. any_root fs w x roots ≡ false) (cc h.0) e)),
        )
  ]
    where
      clash : any_root fs w p roots ≡ true → any_root fs w p roots ≡ false → ⊥
      clash yes_p no_p = cc (yes_p, no_p)

  -- Where roots are configured, `enforce_root` accepts exactly the paths that resolve to a path which
  -- goes on, component by component, from what one of the roots resolves to; it returns that path.
  pub enforce_root_iff :
      (w : World) (path p root : PathBuf) (roots : List PathBuf)
      → (enforce_root fs w path (root ∷ roots) ≡ ok p)
        ↔ ((canonicalize_or_parent fs w path ≡ ok p) × AnyUnder w p (root ∷ roots))
  unfolding enforce_root
  enforce_root_iff w path p root roots =
      let guarded = guard_iff w (canonicalize_or_parent fs w path) (root ∷ roots) p in
      (
        λ h. ((guarded.0 h).0, any→AnyUnder w p (root ∷ roots) (guarded.0 h).1),
        λ h. guarded.1 (h.0, AnyUnder→any w p (root ∷ roots) h.1),
      )

  -- A path that goes on from an existing root, its own real path, is accepted as it is written, with
  -- every `..` in it, where neither the path nor its parent exists.
  pub enforce_root-unresolved :
      (w : World) (root rest folder : PathBuf) (roots : List PathBuf)
      → fs.exists w root ≡ true
      → fs.canonicalize w root ≡ ok root
      → fs.exists w (root ++ rest) ≡ false
      → parent (root ++ rest) ≡ some folder
      → is_empty folder ≡ false
      → fs.exists w folder ≡ false
      → enforce_root fs w (root ++ rest) (root ∷ roots) ≡ ok (root ++ rest)
  unfolding canonicalize_or_parent resolve_missing
  enforce_root-unresolved w root rest folder roots there real missing up some_folder gone =
      (enforce_root_iff w (root ++ rest) (root ++ rest) root roots).1 (
        rw missing (rw up (rw some_folder (rw gone refl))),
        inl (root, rw there real, (rest, refl)),
      )
