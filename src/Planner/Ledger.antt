-- ===== src/Planner/Ledger.antt =====
-- planner.rs: `used_sources` and the sources that the explanation maps: what each push keeps.
use mathlib.Core.Option
use shapeport.Prelude.{
  ◌≡◌, ◌≤◌, ◌<◌, refl, ap, sym, ◌∙◌, All, All-append, append-nil, append_assoc, length,
  length-append, codes, inl, inr, Bool, true, false, if◌then◌else◌, Bool-cases, Text, text_eq,
  text_eq_iff, Option, none, some, List, [], ◌∷◌, ◌++◌, arith,
}
use shapeport.Planner.{Reason, Action, Candidate, ExplainEntry, PlanOutcome, BuildContext}
use shapeport.Planner.Names.{contains_name}
use shapeport.Planner.Leaves.{
  explain, accept, push_ambiguous, push_optional_omission, element_path, push_unresolved,
  push_missing, push_list_element_explanations,
}

-- No path twice.
abbrev pub NoRepeat : List Text → Type 0
NoRepeat [] = Unit
NoRepeat (p ∷ ps) = (contains_name p ps ≡ false) × NoRepeat ps

abbrev pub Fresh : BuildContext → Candidate → Type 0
Fresh context c = contains_name c.source context.used_sources ≡ false

abbrev pub action_source : Action → Text
action_source (Action.map_field source target) = source
action_source (Action.map_elements source target) = source
action_source Action.omit = []
action_source Action.no_mapping = []

abbrev own_source : Option Text → Action → List Text
own_source none action = []
own_source (some source) action = if text_eq source (action_source action) then source ∷ [] else []

-- The sources that an explanation maps at its own level. An entry for a field of a list's elements is
-- left out: it names its source by the list's path too, which its action does not.
abbrev pub mapped_sources : List ExplainEntry → List Text
mapped_sources [] = []
mapped_sources (e ∷ es) = own_source e.source e.action ++ mapped_sources es

abbrev NamesSource : Option Text → Action → Type 0
NamesSource none action = Unit
NamesSource (some source) action = length (action_source action) ≤ length source

-- The path of an entry's source is no shorter than the one in its action.
abbrev pub NamedSource : ExplainEntry → Type 0
NamedSource e = NamesSource e.source e.action

-- What a step leaves: no source is used twice, and those used are those that the explanation maps.
abbrev pub Safe : BuildContext → Type 0
Safe context =
    NoRepeat context.used_sources
    × (mapped_sources context.explanation ≡ context.used_sources)
    × All NamedSource context.explanation

abbrev pub explained : PlanOutcome → List ExplainEntry
explained (PlanOutcome.ready plan explanation diagnostics) = explanation
explained (PlanOutcome.ambiguous unresolved explanation diagnostics) = explanation

abbrev pub Once : PlanOutcome → Type 0
Once o = NoRepeat (mapped_sources (explained o)) × All NamedSource (explained o)

contains_name-snoc :
    (a b : Text) (ps : List Text)
    → contains_name a ps ≡ false
    → text_eq b a ≡ false
    → contains_name a (ps ++ b ∷ []) ≡ false
unfolding contains_name
contains_name-snoc a b [] h ne = ground arith
contains_name-snoc a b (p ∷ ps) h ne = ground (arith, contains_name-snoc a b ps)

NoRepeat-snoc :
    (a : Text) (ps : List Text) → contains_name a ps ≡ false → NoRepeat ps → NoRepeat (ps ++ a ∷ [])
unfolding contains_name
NoRepeat-snoc a [] h n = (refl, tt)
NoRepeat-snoc a (p ∷ ps) h n = (
  contains_name-snoc p a ps n.0 (ground (arith, text_eq_iff a p, text_eq_iff p a)),
  NoRepeat-snoc a ps (ground arith) n.1,
)

mapped_sources-snoc :
    (es : List ExplainEntry) (e : ExplainEntry)
    → mapped_sources (es ++ e ∷ []) ≡ mapped_sources es ++ own_source e.source e.action
mapped_sources-snoc [] e = append-nil (own_source e.source e.action)
mapped_sources-snoc (d ∷ es) e =
    ap (λ rest. own_source d.source d.action ++ rest) (mapped_sources-snoc es e)
    ∙ sym (
        append_assoc (own_source d.source d.action) (mapped_sources es)
          (own_source e.source e.action))

-- An entry that maps no source of this level.
explain-Safe :
    (e : ExplainEntry) (context : BuildContext)
    → own_source e.source e.action ≡ []
    → NamedSource e
    → Safe context
    → Safe (explain e context)
unfolding explain
explain-Safe e context none_own named (no_repeat, same, all_named) = (
  no_repeat,
  mapped_sources-snoc context.explanation e
      ∙ ap (λ own. mapped_sources context.explanation ++ own) none_own
      ∙ append-nil (mapped_sources context.explanation)
      ∙ same,
  All-append NamedSource context.explanation (e ∷ []) all_named (named, tt),
)

pub accept-Safe :
    (c : Candidate) (reasons : List Reason) (action : Action) (path : Text) (context : BuildContext)
    → action_source action ≡ c.source
    → Fresh context c
    → Safe context
    → Safe (accept c reasons action path context)
unfolding accept
accept-Safe c reasons action path context source fresh (no_repeat, same, all_named) = (
  NoRepeat-snoc c.source context.used_sources fresh no_repeat,
  mapped_sources-snoc context.explanation _
      ∙ ap (λ own. mapped_sources context.explanation ++ own) owned
      ∙ ap (λ used. used ++ c.source ∷ []) same,
  All-append NamedSource context.explanation _ all_named (rw source (omega arith), tt),
)
  where
    owned : own_source (some c.source) action ≡ c.source ∷ []
    owned = rw source (rw ((text_eq_iff c.source c.source).1 refl) refl)

pub push_ambiguous-Safe :
    (path : Text) (cs : List Candidate) (context : BuildContext)
    → Safe context
    → Safe (push_ambiguous path cs context)
unfolding push_ambiguous push_unresolved
push_ambiguous-Safe path cs context n = explain-Safe _ (push_unresolved path cs context) refl tt n

pub push_missing-Safe :
    (nullable : Bool) (path : Text) (context : BuildContext)
    → Safe context
    → Safe (push_missing nullable path context)
unfolding push_missing push_optional_omission push_unresolved
push_missing-Safe true path context n = explain-Safe _ context refl tt n
push_missing-Safe false path context n = n

element_path-length : (path inner : Text) → length inner < length (element_path path inner)
unfolding element_path
element_path-length path inner =
    let whole : length (element_path path inner) ≡ length ((path ++ codes "[].") ++ inner) = refl in
    omega
      (arith, whole, length-append (path ++ codes "[].") inner, length-append path (codes "[]."))

element_path-ne :
    (path inner source : Text)
    → length source ≤ length inner
    → text_eq (element_path path inner) source ≡ false
element_path-ne path inner source h = elim (Bool-cases (text_eq (element_path path inner) source)) [
  | inl same ↦ absurd (
      omega (
        arith,
        element_path-length path inner,
        ap length ((text_eq_iff (element_path path inner) source).0 same),
      ))
  | inr other ↦ other
]

abbrev inner_source : Text → Option Text → Option Text
inner_source path source = Option.map (λ inner. element_path path inner) source

element-own_source :
    (path : Text) (source : Option Text) (action : Action)
    → NamesSource source action
    → own_source (inner_source path source) action ≡ []
element-own_source path none action h = refl
element-own_source path (some inner) action h =
    rw (element_path-ne path inner (action_source action) h) refl

element-NamesSource :
    (path : Text) (source : Option Text) (action : Action)
    → NamesSource source action
    → NamesSource (inner_source path source) action
element-NamesSource path none action h = tt
element-NamesSource path (some inner) action h = omega (arith, element_path-length path inner)

pub push_list_element_explanations-Safe :
    (target source : Text) (es : List ExplainEntry) (context : BuildContext)
    → All NamedSource es
    → Safe context
    → Safe (push_list_element_explanations target source es context)
unfolding push_list_element_explanations
push_list_element_explanations-Safe target source [] context named n = n
push_list_element_explanations-Safe target source (e ∷ es) context named n =
    push_list_element_explanations-Safe target source es _ named.1 (
      explain-Safe _ context (element-own_source source e.source e.action named.0)
        (element-NamesSource source e.source e.action named.0) n)
