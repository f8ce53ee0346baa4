-- ===== src/Mmgir/Defs/Signals/Reading.antt =====
-- What a reader finds in the definitions of signals.
use glibmm.Base.{
  ◌≡◌, refl, Bool, true, false, List, [], ◌∷◌, ◌++◌, Option, none, some, All, if◌then◌else◌,
  Bool-cases, inl, inr,
}
use glibmm.Mmgir.TypeCasts.{Name, codes}
use glibmm.Mmgir.Defs.Schema.{AnyType, ParamType, var_args, any_type, Param, is_skippable, flagged}
use glibmm.Mmgir.Defs.Reader.{
  Token, open_paren, close_paren, word, kind, IsWord, IsQuotable, Reads, Reads-append, Reads-nil,
  word_of,
}
use glibmm.Mmgir.Defs.Lines.{
  attribute, switch, row, print_attribute, print_list, print_list_end, replace_all, Reads-head,
  Reads-attribute, Reads-switch, Reads-pair, Reads-list, Reads-list_end, Reads-end,
}
use glibmm.Mmgir.Defs.Callables.{name_eq}
use glibmm.Mmgir.Defs.Callables.Parameters.{Printed, true_word, replace_all-IsQuotable}
use glibmm.Mmgir.Defs.Callables.Reading.{of_object_word, deprecated_of, Reads-deprecated}
use glibmm.Mmgir.Defs.Signals.{
  SignalDef, convert_bool, print_deprecated, print_return_type, print_detailed, signal_type,
  print_resolved, print_signal_param, print_signal_loop, print_signal_params, print_signal,
  generate_signal_def, signal_flags,
}
use glibmm.Mmgir.Defs.Signals.Flags.{
  flags_of, joined, signal_flags-joined, flags_of-IsQuotable, constant-IsQuotable,
}

abbrev pub return_of : Option Name → List Token
return_of none = []
return_of (some t) = attribute "return-type" (replace_all b' ' b'-' t)

abbrev pub detailed_of : Option Bool → List Token
detailed_of none = []
detailed_of (some b) = switch "detailed" (if b then codes "#t" else codes "#f")

abbrev pub resolved_row : Option Name → Name → List Token
resolved_row none name = []
resolved_row (some t) name = row (signal_type t ∷ name ∷ [])

abbrev pub IsResolved : Option Name → Type 0
IsResolved none = Unit
IsResolved (some t) = IsQuotable t

module _ (resolve : AnyType → Option Name) where
  abbrev pub IsReadable : Option Name → Option ParamType → Type 0
  IsReadable name none = ⊥
  IsReadable name (some var_args) = Unit
  IsReadable none (some (any_type t)) = ⊥
  IsReadable (some name) (some (any_type t)) = IsResolved (resolve t) × IsQuotable name

  abbrev pub AreReadable : Option (List Param) → Type 0
  AreReadable none = Unit
  AreReadable (some ps) = All (λ p. IsReadable p.name p.param_type) ps

  abbrev pub row_of : Option Name → Option ParamType → List Token
  row_of name none = []
  row_of name (some var_args) = []
  row_of none (some (any_type t)) = []
  row_of (some name) (some (any_type t)) = resolved_row (resolve t) name

  abbrev pub rows_of : List Param → List Token
  rows_of [] = []
  rows_of (p ∷ ps) = row_of p.name p.param_type ++ rows_of ps

  -- The parameters, if there is any.
  abbrev pub params_of : Option (List Param) → List Token
  params_of none = []
  params_of (some []) = []
  params_of (some (p ∷ ps)) =
      (open_paren ∷ word (codes "parameters") ∷ []) ++ (rows_of (p ∷ ps) ++ close_paren ∷ [])

signal_type-IsQuotable : (t : Name) → IsQuotable t → IsQuotable (signal_type t)
unfolding signal_type
signal_type-IsQuotable t h =
    elim (Bool-cases (name_eq (replace_all b' ' b'-' t) (codes "gchar*"))) [
      | inl e ↦ rw e constant-IsQuotable
      | inr e ↦ rw e (replace_all-IsQuotable t h)
    ]

parameters_word : IsWord (codes "parameters")
unfolding kind
parameters_word = word_of (codes "parameters") refl

pub false_word : IsWord (codes "#f")
unfolding kind
false_word = word_of (codes "#f") refl

detailed_word : IsWord (codes "detailed")
unfolding kind
detailed_word = word_of (codes "detailed") refl

flags_word : IsWord (codes "flags")
unfolding kind
flags_word = word_of (codes "flags") refl

return_word : IsWord (codes "return-type")
unfolding kind
return_word = word_of (codes "return-type") refl

signal_word : IsWord (codes "define-signal")
unfolding kind
signal_word = word_of (codes "define-signal") refl

Reads-resolved :
    (t : Option Name) (name : Name)
    → IsResolved t
    → IsQuotable name
    → Reads (print_resolved t name) (resolved_row t name)
unfolding print_resolved
Reads-resolved none name h n = Reads-nil
Reads-resolved (some t) name h n = Reads-pair (signal_type t) name (signal_type-IsQuotable t h) n

Reads-return : (t : Option Name) → IsResolved t → Reads (print_return_type t) (return_of t)
unfolding print_return_type
Reads-return none h = Reads-nil
Reads-return (some t) h = Reads-attribute "return-type" _ return_word (replace_all-IsQuotable t h)

Reads-detailed : (b : Option Bool) → Reads (print_detailed b) (detailed_of b)
unfolding print_detailed convert_bool
Reads-detailed none = Reads-nil
Reads-detailed (some true) = Reads-switch "detailed" (codes "#t") detailed_word true_word
Reads-detailed (some false) = Reads-switch "detailed" (codes "#f") detailed_word false_word

Reads-flags :
    (g : SignalDef)
    → Reads (print_attribute "flags" (signal_flags g)) (attribute "flags" (joined (flags_of g)))
Reads-flags g =
    rw (signal_flags-joined g)
      (Reads-attribute "flags" (joined (flags_of g)) flags_word (flags_of-IsQuotable g))

pub Reads-deprecation : (b : Option Bool) → Reads (print_deprecated b) (deprecated_of (flagged b))
unfolding print_deprecated
Reads-deprecation b = Reads-deprecated (flagged b)

module _ (resolve : AnyType → Option Name) where
  print_signal_param-Printed :
      (name : Option Name) (type : Option ParamType)
      → IsReadable resolve name type
      → Printed (print_signal_param resolve name type) (row_of resolve name type)
  unfolding print_signal_param
  print_signal_param-Printed name none h = absurd h
  print_signal_param-Printed name (some var_args) h = ([], refl, Reads-nil)
  print_signal_param-Printed none (some (any_type t)) h = absurd h
  print_signal_param-Printed (some name) (some (any_type t)) (a, b) =
      (print_resolved (resolve t) name, refl, Reads-resolved (resolve t) name a b)

  print_signal_loop-Printed :
      (ps : List Param)
      → AreReadable resolve (some ps)
      → Printed (print_signal_loop resolve ps) (rows_of resolve ps)
  unfolding print_signal_loop
  print_signal_loop-Printed [] h = ([], refl, Reads-nil)
  print_signal_loop-Printed (p ∷ ps) (h, hs) =
      let (t, e, r) = print_signal_param-Printed p.name p.param_type h in
      let (u, f, q) = print_signal_loop-Printed ps hs in (t ++ u, rw (e, f), Reads-append r q)

  print_signal_params-Printed :
      (params : Option (List Param))
      → AreReadable resolve params
      → Printed (print_signal_params resolve params) (params_of resolve params)
  unfolding print_signal_params
  print_signal_params-Printed none h = ([], refl, Reads-nil)
  print_signal_params-Printed (some []) h = ([], refl, Reads-nil)
  print_signal_params-Printed (some (p ∷ ps)) h =
      let (t, e, r) = print_signal_loop-Printed (p ∷ ps) h in
      (
        print_list "parameters" ++ (t ++ print_list_end),
        rw e,
        Reads-append (Reads-list "parameters" parameters_word) (Reads-append r Reads-list_end),
      )

  -- Of a signal that is not skipped, whose name is a word and whose other texts can be quoted, a reader finds exactly one definition: the object, the
  -- return type if it is resolved, the flags, which are joined by commas, whether it is detailed,
  -- and the parameters whose types are resolved, in their order. Of the optional marks for actions,
  -- hooks and recursion, a mark with the value false is a flag, too.
  pub generate_signal_def-Printed :
      (g : SignalDef) (object : Name) (return_type : Option Name)
      → is_skippable g.name ≡ false
      → IsWord g.name
      → IsQuotable object
      → IsResolved return_type
      → AreReadable resolve g.params
      → Printed (generate_signal_def resolve g object return_type) (
          (open_paren ∷ word (codes "define-signal") ∷ word g.name ∷ [])
          ++ (attribute "of-object" object
              ++ (deprecated_of (flagged g.is_deprecated)
                  ++ (return_of return_type
                      ++ (attribute "flags" (joined (flags_of g))
                          ++ (detailed_of g.is_detailed
                              ++ (params_of resolve g.params ++ close_paren ∷ [])))))))
  unfolding generate_signal_def print_signal
  generate_signal_def-Printed g object return_type s n o h p =
      let (t, e, r) = print_signal_params-Printed g.params p in
      (
        print_signal g object return_type t,
        rw (s, e),
        Reads-append (Reads-head "define-signal" g.name signal_word n) (
            Reads-append (Reads-attribute "of-object" object of_object_word o) (
              Reads-append (Reads-deprecation g.is_deprecated) (
                Reads-append (Reads-return return_type h) (
                  Reads-append (Reads-flags g)
                    (Reads-append (Reads-detailed g.is_detailed) (Reads-append r Reads-end)))))),
      )
