-- ===== src/Mmgir/Defs/Signals/Properties.antt =====
-- What a reader finds in the definitions of properties.
use Prim.Native.String.{String}
use glibmm.Base.{
  ◌≡◌, refl, Bool, true, false, List, [], ◌∷◌, ◌++◌, Option, none, some, if◌then◌else◌, Bool-cases,
  inl, inr,
}
use glibmm.Mmgir.TypeCasts.{Name, codes}
use glibmm.Mmgir.Defs.Schema.{is_skippable, flagged}
use glibmm.Mmgir.Defs.Reader.{
  Token, open_paren, close_paren, word, kind, IsWord, IsQuotable, Reads, Reads-append, Reads-nil,
  word_of,
}
use glibmm.Mmgir.Defs.Lines.{
  attribute, switch, Reads-head, Reads-attribute, Reads-switch, Reads-end, print_switch,
}
use glibmm.Mmgir.Defs.Callables.{name_eq}
use glibmm.Mmgir.Defs.Callables.Parameters.{true_word}
use glibmm.Mmgir.Defs.Callables.Reading.{of_object_word, deprecated_of}
use glibmm.Mmgir.Defs.Signals.{
  PropertyDef, convert_bool, unless_false, resolved_type, print_property_type, print_default,
  generate_property_def,
}
use glibmm.Mmgir.Defs.Signals.Reading.{IsResolved, Reads-deprecation, false_word}

abbrev pub type_of : Option Name → List Token
type_of none = []
type_of (some t) = attribute "prop-type" t

abbrev pub default_of : Option Name → List Token
default_of none = []
default_of (some value) =
    attribute "default-value" (if name_eq value (codes "NULL") then [] else value)

-- The value of an optional, or its default, as a word.
abbrev pub truth : Option Bool → Bool → Name
truth none b = if b then codes "#t" else codes "#f"
truth (some v) b = if v then codes "#t" else codes "#f"

prop_type_word : IsWord (codes "prop-type")
unfolding kind
prop_type_word = word_of (codes "prop-type") refl

default_word : IsWord (codes "default-value")
unfolding kind
default_word = word_of (codes "default-value") refl

docs_word : IsWord (codes "docs")
unfolding kind
docs_word = word_of (codes "docs") refl

readable_word : IsWord (codes "readable")
unfolding kind
readable_word = word_of (codes "readable") refl

writable_word : IsWord (codes "writable")
unfolding kind
writable_word = word_of (codes "writable") refl

construct_word : IsWord (codes "construct-only")
unfolding kind
construct_word = word_of (codes "construct-only") refl

property_word : IsWord (codes "define-property")
unfolding kind
property_word = word_of (codes "define-property") refl

Reads-type : (t : Option Name) → IsResolved t → Reads (print_property_type t) (type_of t)
unfolding print_property_type
Reads-type none h = Reads-nil
Reads-type (some t) h = Reads-attribute "prop-type" t prop_type_word h

Reads-default : (d : Option Name) → IsResolved d → Reads (print_default d) (default_of d)
unfolding print_default
Reads-default none h = Reads-nil
Reads-default (some value) h = elim (Bool-cases (name_eq value (codes "NULL"))) [
  | inl e ↦ rw e (Reads-attribute "default-value" [] default_word tt)
  | inr e ↦ rw e (Reads-attribute "default-value" value default_word h)
]

bool_word : (b : Bool) → IsWord (if b then codes "#t" else codes "#f")
bool_word true = true_word
bool_word false = false_word

Reads-bool :
    (key : String) (v : Option Bool) (b : Bool)
    → IsWord (codes key)
    → Reads (print_switch key (convert_bool v b)) (switch key (truth v b))
unfolding convert_bool
Reads-bool key none b k = Reads-switch key _ k (bool_word b)
Reads-bool key (some v) b k = Reads-switch key _ k (bool_word v)

-- Of a property that is not skipped and not marked as not introspectable, whose name is a word and
-- whose other texts can be quoted, a reader
-- finds exactly one definition: the object, the type if one is found, an empty documentation, the
-- three marks, where a property without marks can only be read, and the default value if there is
-- one, with an empty text for NULL. The type is what the resolver finds, or else what it finds for
-- the first getter with an answer, if the property has a getter.
pub generate_property_def-Reads :
    (p : PropertyDef) (object : Name) (found : Option Name)
    (methods : List (Option Name × Option Name))
    → is_skippable p.name ≡ false
    → unless_false p.is_introspectable ≡ true
    → IsWord p.name
    → IsQuotable object
    → IsResolved (resolved_type p found methods)
    → IsResolved p.default_value
    → Reads (generate_property_def p object found methods) (
        (open_paren ∷ word (codes "define-property") ∷ word p.name ∷ [])
        ++ (attribute "of-object" object
            ++ (deprecated_of (flagged p.is_deprecated)
                ++ (type_of (resolved_type p found methods)
                    ++ (attribute "docs" []
                        ++ (switch "readable" (truth p.is_readable true)
                            ++ (switch "writable" (truth p.is_writable false)
                                ++ (switch "construct-only"
                                      (truth p.is_set_only_during_construction false)
                                    ++ (default_of p.default_value ++ close_paren ∷ [])))))))))
unfolding generate_property_def
generate_property_def-Reads p object found methods s i n o t d =
    rw (s, i)
      (Reads-append (Reads-head "define-property" p.name property_word n) (
        Reads-append (Reads-attribute "of-object" object of_object_word o) (
          Reads-append (Reads-deprecation p.is_deprecated) (
            Reads-append (Reads-type (resolved_type p found methods) t) (
              Reads-append (Reads-attribute "docs" [] docs_word tt) (
                Reads-append (Reads-bool "readable" p.is_readable true readable_word) (
                  Reads-append (Reads-bool "writable" p.is_writable false writable_word) (
                    Reads-append
                      (Reads-bool "construct-only" p.is_set_only_during_construction false
                        construct_word)
                      (Reads-append (Reads-default p.default_value d) Reads-end)))))))))
