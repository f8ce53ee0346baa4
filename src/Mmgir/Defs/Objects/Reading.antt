-- ===== src/Mmgir/Defs/Objects/Reading.antt =====
-- What a reader finds in the definitions of all callables of an object.
use glibmm.Base.{
  ℕ, ◌≡◌, refl, true, false, List, [], ◌∷◌, ◌++◌, Option, none, some, Result, err,
  bad_optional_access, if◌then◌else◌, All, ◌⊎◌, inl, inr,
}
use glibmm.Mmgir.TypeCasts.{Name}
use glibmm.Mmgir.Defs.Schema.{Callable, is_skippable}
use glibmm.Mmgir.Defs.Reader.{Token, IsQuotable, Reads-append, Reads-nil}
use glibmm.Mmgir.Defs.Lines.{attribute}
use glibmm.Mmgir.Defs.Callables.{
  none_return, identifier_of, generate_func_def, generate_method_def, generate_constructor_def,
}
use glibmm.Mmgir.Defs.Callables.Parameters.{Printed}
use glibmm.Mmgir.Defs.Callables.Reading.{
  IsComplete, definition, return_of, generate_func_def-Printed,
}
use glibmm.Mmgir.Defs.Objects.{
  FunctionOwner, print_each, print_both, generate_free_function_defs,
  generate_standard_function_defs, print_owner, generate_class_function_defs,
  generate_record_function_defs,
}

abbrev pub identifier_or : Option Name → Name
identifier_or none = []
identifier_or (some i) = i

abbrev pub identifier : Callable → Name
identifier f = identifier_or f.c_identifier

-- A callable that is skipped, or one that has all that its definition needs.
abbrev pub IsSkippedOrComplete : Callable → Type 0
IsSkippedOrComplete f = (is_skippable f.name ≡ true) ⊎ IsComplete f (identifier f)

-- Nothing of a callable that is skipped, and else its definition.
abbrev pub unless_skipped : Callable → List Token → List Token
unless_skipped f ks = if is_skippable f.name then [] else ks

abbrev pub function_of : Callable → List Token
function_of f = unless_skipped f (
    definition "define-function" (identifier f)
      (attribute "c-name" (identifier f) ++ return_of f none_return) f)

abbrev pub method_of : Name → Callable → List Token
method_of object f = unless_skipped f (
    definition "define-method" f.name
      (attribute "of-object" object
        ++ (attribute "c-name" (identifier f) ++ return_of f none_return))
      f)

abbrev pub constructor_of : Name → Callable → List Token
constructor_of object f = unless_skipped f (
    definition "define-function" (identifier f)
      (attribute "c-name" (identifier f)
        ++ (attribute "is-constructor-of" object ++ return_of f none_return))
      f)

abbrev pub each_of : (Callable → List Token) → List Callable → List Token
each_of k [] = []
each_of k (f ∷ fs) = k f ++ each_of k fs

-- The definitions of an object, in their order.
abbrev pub definitions_of : FunctionOwner → Name → List Token
definitions_of o object =
    ((each_of function_of o.inline_functions ++ each_of function_of o.functions)
      ++ (each_of (method_of object) o.inline_methods ++ each_of (method_of object) o.methods))
    ++ each_of (constructor_of object) o.constructors

pub record IsCompleteOwner (o : FunctionOwner) : Type 0 where
  pub inline_functions_complete : All (λ f. IsSkippedOrComplete f) o.inline_functions
  pub functions_complete : All (λ f. IsSkippedOrComplete f) o.functions
  pub inline_methods_complete : All (λ f. IsSkippedOrComplete f) o.inline_methods
  pub methods_complete : All (λ f. IsSkippedOrComplete f) o.methods
  pub constructors_complete : All (λ f. IsSkippedOrComplete f) o.constructors

print_each-Printed :
    (g : Callable → Result (List ℕ)) (k : Callable → List Token) (fs : List Callable)
    → ((f : Callable) → IsSkippedOrComplete f → Printed (g f) (k f))
    → All (λ f. IsSkippedOrComplete f) fs
    → Printed (print_each g fs) (each_of k fs)
unfolding print_each
print_each-Printed g k [] p h = ([], refl, Reads-nil)
print_each-Printed g k (f ∷ fs) p (h, hs) =
    let (t, e, r) = p f h in
    let (u, d, q) = print_each-Printed g k fs p hs in (t ++ u, rw (e, d), Reads-append r q)

print_both-Printed :
    {r s : Result (List ℕ)} {ks ls : List Token}
    → Printed r ks
    → Printed s ls
    → Printed (print_both r s) (ks ++ ls)
print_both-Printed (t, e, p) (u, d, q) = (t ++ u, rw (e, d), Reads-append p q)

visible-Printed :
    (f : Callable) {r : Result (List ℕ)} {ks : List Token}
    → is_skippable f.name ≡ false
    → Printed r ks
    → Printed r (unless_skipped f ks)
visible-Printed f v (t, e, r) = (t, e, rw v r)

module _ (object : Name) (q : IsQuotable object) where
  function_of-Printed :
      (f : Callable) → IsSkippedOrComplete f → Printed (generate_func_def f) (function_of f)
  unfolding generate_func_def
  function_of-Printed f (inl s) = ([], rw s, rw s Reads-nil)
  function_of-Printed f (inr c) =
      visible-Printed f c.visible (generate_func_def-Printed f object (identifier f) c q).0

  method_of-Printed :
      (f : Callable)
      → IsSkippedOrComplete f
      → Printed (generate_method_def f object) (method_of object f)
  unfolding generate_method_def
  method_of-Printed f (inl s) = ([], rw s, rw s Reads-nil)
  method_of-Printed f (inr c) =
      visible-Printed f c.visible (generate_func_def-Printed f object (identifier f) c q).2

  constructor_of-Printed :
      (f : Callable)
      → IsSkippedOrComplete f
      → Printed (generate_constructor_def f object) (constructor_of object f)
  unfolding generate_constructor_def
  constructor_of-Printed f (inl s) = ([], rw s, rw s Reads-nil)
  constructor_of-Printed f (inr c) =
      visible-Printed f c.visible (generate_func_def-Printed f object (identifier f) c q).1

  print_owner-Printed :
      (o : FunctionOwner)
      → IsCompleteOwner o
      → Printed (print_owner o object) (definitions_of o object)
  unfolding print_owner generate_standard_function_defs generate_free_function_defs
  print_owner-Printed o c =
      print_both-Printed
        (print_both-Printed
          (print_both-Printed
            (print_each-Printed generate_func_def function_of o.inline_functions function_of-Printed
              c.inline_functions_complete)
            (print_each-Printed generate_func_def function_of o.functions function_of-Printed
              c.functions_complete))
          (print_both-Printed
            (print_each-Printed (λ f. generate_method_def f object) (method_of object)
              o.inline_methods method_of-Printed c.inline_methods_complete)
            (print_each-Printed (λ f. generate_method_def f object) (method_of object) o.methods
              method_of-Printed c.methods_complete)))
        (print_each-Printed (λ f. generate_constructor_def f object) (constructor_of object)
          o.constructors constructor_of-Printed c.constructors_complete)

-- Of a class, an interface or a record that is not skipped, and whose callables are skipped or have
-- identifiers that are words and other texts that can be quoted, a reader finds the definitions of
-- all callables that are not skipped, and nothing else: the functions, the methods and then the
-- constructors, each in their order. A record without a C type throws an exception.
pub generate_class_function_defs-Printed :
    (o : FunctionOwner) (object : Name)
    → is_skippable o.name ≡ false
    → IsQuotable object
    → IsCompleteOwner o
    → Printed (generate_class_function_defs o object) (definitions_of o object)
      × Printed (generate_record_function_defs o (some object)) (definitions_of o object)
      × (generate_record_function_defs o none ≡ err bad_optional_access)
unfolding generate_class_function_defs generate_record_function_defs identifier_of
generate_class_function_defs-Printed o object s q c =
    let (t, e, r) = print_owner-Printed object q o c in ((t, rw (s, e), r), (t, rw (s, e), r), rw s)
