-- ===== src/Mmgir/Defs/Callables/Reading.antt =====
-- What a reader finds in the definitions of functions, constructors, methods and virtual methods.
use Prim.Native.String.{String}
use glibmm.Base.{
  ℕ, ◌≡◌, refl, Bool, true, false, List, [], ◌∷◌, ◌++◌, Option, none, some, Result, ok, ◌>>=◌,
  if◌then◌else◌, Bool-cases, inl, inr,
}
use glibmm.Mmgir.TypeCasts.{Name, codes}
use glibmm.Mmgir.Defs.Schema.{AnyType, Callable, is_skippable, flagged}
use glibmm.Mmgir.Defs.Reader.{
  Token, open_paren, close_paren, word, kind, IsWord, IsQuotable, Reads, Reads-append, Reads-nil,
  word_of, word-IsQuotable,
}
use glibmm.Mmgir.Defs.Lines.{
  print_head, print_attribute, print_switch, print_end, attribute, switch, Reads-head,
  Reads-attribute, Reads-switch, Reads-end,
}
use glibmm.Mmgir.Defs.Callables.{
  void_return, none_return, name_eq, flatten_any_type, process_return_type, print_return,
  print_rest, identifier_of, generate_func_def, generate_constructor_def, generate_method_def,
  generate_vfunc_def,
}
use glibmm.Mmgir.Defs.Callables.Parameters.{
  dashed, AreReadable, params_of, Printed, print_params-Printed, replace_all-IsQuotable, true_word,
}

-- The return type: the word for void, or the C type with dashes for spaces.
abbrev pub returned : Option AnyType → Name → Name
returned none void_type = void_type
returned (some t) void_type =
    if name_eq (flatten_any_type t) void_return then void_type else dashed t

abbrev pub IsReturnQuotable : Option AnyType → Type 0
IsReturnQuotable none = Unit
IsReturnQuotable (some t) = IsQuotable (flatten_any_type t)

-- A definition with its name, its own fields, and the parameters.
abbrev pub definition : String → Name → List Token → Callable → List Token
definition define name fields func =
    (open_paren ∷ word (codes define) ∷ word name ∷ fields)
    ++ (params_of func.params (flagged func.can_throw) ++ close_paren ∷ [])

-- The callable has a name and an identifier that are words, and its types and parameters can be quoted.
pub record IsComplete (func : Callable) (identifier : Name) : Type 0 where
  pub visible : is_skippable func.name ≡ false
  pub named : IsWord func.name
  pub identified : func.c_identifier ≡ some identifier
  pub identifying : IsWord identifier
  pub return_quotable : IsReturnQuotable func.return_type
  pub readable : AreReadable func.params

process_return_type-returned :
    (t : Option AnyType) (v : Name) → process_return_type t v ≡ returned t v
unfolding process_return_type
process_return_type-returned none v = refl
process_return_type-returned (some t) v = refl

returned-IsQuotable :
    (t : Option AnyType) (v : Name) → IsReturnQuotable t → IsQuotable v → IsQuotable (returned t v)
returned-IsQuotable none v h q = q
returned-IsQuotable (some t) v h q = elim (Bool-cases (name_eq (flatten_any_type t) void_return)) [
  | inl e ↦ rw e q
  | inr e ↦ rw e (replace_all-IsQuotable (flatten_any_type t) h)
]

return_word : IsWord (codes "return-type")
unfolding kind
return_word = word_of (codes "return-type") refl

Reads-return :
    (func : Callable) (v : Name)
    → IsReturnQuotable func.return_type
    → IsQuotable v
    → Reads (print_return func v) (attribute "return-type" (returned func.return_type v))
unfolding print_return
Reads-return func v h q = rw (process_return_type-returned func.return_type v) (
    Reads-attribute "return-type" (returned func.return_type v) return_word
      (returned-IsQuotable func.return_type v h q))

print_rest-Printed :
    (func : Callable) {front : List ℕ} {ks : List Token}
    → AreReadable func.params
    → Reads front ks
    → Printed
        (print_rest func front)
        (ks ++ (params_of func.params (flagged func.can_throw) ++ close_paren ∷ []))
unfolding print_rest
print_rest-Printed func {front} {ks} h r =
    let (t, e, p) = print_params-Printed func.params (flagged func.can_throw) h in
    (front ++ (t ++ print_end), rw e, Reads-append r (Reads-append p Reads-end))

none_word : IsWord none_return
unfolding kind
none_word = word_of none_return refl

void_word : IsWord void_return
unfolding kind
void_word = word_of void_return refl

define_function_word : IsWord (codes "define-function")
unfolding kind
define_function_word = word_of (codes "define-function") refl

define_method_word : IsWord (codes "define-method")
unfolding kind
define_method_word = word_of (codes "define-method") refl

define_vfunc_word : IsWord (codes "define-vfunc")
unfolding kind
define_vfunc_word = word_of (codes "define-vfunc") refl

c_name_word : IsWord (codes "c-name")
unfolding kind
c_name_word = word_of (codes "c-name") refl

constructor_word : IsWord (codes "is-constructor-of")
unfolding kind
constructor_word = word_of (codes "is-constructor-of") refl

pub of_object_word : IsWord (codes "of-object")
unfolding kind
of_object_word = word_of (codes "of-object") refl

deprecated_word : IsWord (codes "deprecated")
unfolding kind
deprecated_word = word_of (codes "deprecated") refl

abbrev pub deprecated_of : Bool → List Token
deprecated_of b = if b then switch "deprecated" (codes "#t") else []

pub Reads-deprecated :
    (b : Bool) → Reads (if b then print_switch "deprecated" (codes "#t") else []) (deprecated_of b)
Reads-deprecated true = Reads-switch "deprecated" (codes "#t") deprecated_word true_word
Reads-deprecated false = Reads-nil

abbrev pub return_of : Callable → Name → List Token
return_of func v = attribute "return-type" (returned func.return_type v)

module _ (func : Callable) (object i : Name) (c : IsComplete func i) (o : IsQuotable object) where
  named_by :
      (f : Name → Result (List ℕ)) {ks : List Token}
      → Printed (f i) ks
      → Printed
          (if is_skippable func.name then ok [] else (identifier_of func.c_identifier >>= f))
          ks
  unfolding identifier_of
  named_by f (t, e, r) = (t, rw (c.visible, c.identified) e, r)

  visible_by :
      {f : Result (List ℕ)} {ks : List Token}
      → Printed f ks
      → Printed (if is_skippable func.name then ok [] else f) ks
  visible_by (t, e, r) = (t, rw c.visible e, r)

  none_of : Reads (print_return func none_return) (return_of func none_return)
  none_of = Reads-return func none_return c.return_quotable (word-IsQuotable none_return none_word)

  void_of : Reads (print_return func void_return) (return_of func void_return)
  void_of = Reads-return func void_return c.return_quotable (word-IsQuotable void_return void_word)

  constructor_of :
      Reads (print_attribute "is-constructor-of" object) (attribute "is-constructor-of" object)
  constructor_of = Reads-attribute "is-constructor-of" object constructor_word o

  c_name_of : Reads (print_attribute "c-name" i) (attribute "c-name" i)
  c_name_of = Reads-attribute "c-name" i c_name_word (word-IsQuotable i c.identifying)

  object_of : Reads (print_attribute "of-object" object) (attribute "of-object" object)
  object_of = Reads-attribute "of-object" object of_object_word o

  headed :
      (define : String) (name : Name) {front : List ℕ} {ks : List Token}
      → IsWord (codes define)
      → IsWord name
      → Reads front ks
      → Printed (print_rest func (print_head define name ++ front)) (definition define name ks func)
  headed define name d n r =
      print_rest-Printed func c.readable (Reads-append (Reads-head define name d n) r)

  -- Of a callable that is not skipped, whose name and identifier are words and whose other texts
  -- can be quoted, a reader finds exactly one definition, as a function, a constructor, a method or a virtual method: its name, its own
  -- fields, the return type, the parameters in their order, and last the error if it throws. The
  -- list is left out if it would be empty. If the callable has no parameters element, then nothing
  -- of this is printed, and the error is lost.
  pub generate_func_def-Printed :
      Printed
        (generate_func_def func)
        (definition "define-function" i (attribute "c-name" i ++ return_of func none_return) func)
      × Printed (generate_constructor_def func object) (
          definition "define-function" i
            (attribute "c-name" i
              ++ (attribute "is-constructor-of" object ++ return_of func none_return))
            func)
      × Printed (generate_method_def func object) (
          definition "define-method" func.name
            (attribute "of-object" object ++ (attribute "c-name" i ++ return_of func none_return))
            func)
      × Printed (generate_vfunc_def func object) (
          definition "define-vfunc" func.name
            (attribute "of-object" object
              ++ (deprecated_of (flagged func.is_deprecated) ++ return_of func void_return))
            func)
  unfolding generate_func_def generate_constructor_def generate_method_def generate_vfunc_def
  generate_func_def-Printed = (
    named_by _ (
        headed "define-function" i define_function_word c.identifying
          (Reads-append c_name_of none_of)),
    named_by _ (
        headed "define-function" i define_function_word c.identifying
          (Reads-append c_name_of (Reads-append constructor_of none_of))),
    named_by _ (
        headed "define-method" func.name define_method_word c.named
          (Reads-append object_of (Reads-append c_name_of none_of))),
    visible_by (
        headed "define-vfunc" func.name define_vfunc_word c.named (
          Reads-append object_of
            (Reads-append (Reads-deprecated (flagged func.is_deprecated)) void_of))),
  )
