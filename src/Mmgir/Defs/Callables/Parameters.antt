-- ===== src/Mmgir/Defs/Callables/Parameters.antt =====
-- What a reader finds of the parameters of a callable, ParamProcessor of gen_defs.cc.
use glibmm.Base.{
  ℕ, ◌≡◌, ◌≢◌, refl, ap, Bool, true, false, not, ◌&&◌, ◌||◌, List, [], ◌∷◌, ◌++◌, Option, none,
  some, Result, ok, ◌==◌, if◌then◌else◌, All, Bool-cases, inl, inr,
}
use glibmm.Mmgir.TypeCasts.{Name, codes}
use glibmm.Mmgir.Defs.Schema.{AnyType, ParamType, var_args, any_type, Param}
use glibmm.Mmgir.Defs.Reader.{
  Token, open_paren, close_paren, word, kind, quote, IsWord, IsQuotable, Reads, Reads-append,
  Reads-nil, word_of, word-IsQuotable,
}
use glibmm.Mmgir.Defs.Lines.{
  print_pair, print_list, print_list_end, replace_all, row, switch, Reads-pair, Reads-list,
  Reads-list_end, Reads-switch,
}
use glibmm.Mmgir.Defs.Callables.{
  is_empty, flatten_any_type, print_one, print_loop, print_param, maybe_print_var_args,
  print_params,
}

-- The type of a parameter as it is printed, with dashes for spaces.
abbrev pub dashed : AnyType → Name
dashed t = replace_all b' ' b'-' (flatten_any_type t)

-- A parameter that has a type and, unless it stands for varargs, a name that can be quoted.
abbrev pub IsReadable : Option Name → Option ParamType → Type 0
IsReadable name none = ⊥
IsReadable name (some var_args) = Unit
IsReadable none (some (any_type t)) = ⊥
IsReadable (some name) (some (any_type t)) = IsQuotable (flatten_any_type t) × IsQuotable name

abbrev pub AreReadable : Option (List Param) → Type 0
AreReadable none = Unit
AreReadable (some params) = All (λ p. IsReadable p.name p.param_type) params

abbrev pub row_of : Option Name → Option ParamType → List Token
row_of name none = []
row_of name (some var_args) = []
row_of none (some (any_type t)) = []
row_of (some name) (some (any_type t)) = row (dashed t ∷ name ∷ [])

abbrev pub is_var_args : Option ParamType → Bool
is_var_args none = false
is_var_args (some var_args) = true
is_var_args (some (any_type t)) = false

abbrev pub rows_of : List Param → List Token
rows_of [] = []
rows_of (p ∷ ps) = row_of p.name p.param_type ++ rows_of ps

abbrev pub has_var_args : List Param → Bool
has_var_args [] = false
has_var_args (p ∷ ps) = is_var_args p.param_type || has_var_args ps

abbrev pub error_row : Bool → List Token
error_row can_throw = if can_throw then row (codes "GError**" ∷ codes "error" ∷ []) else []

abbrev pub list_of : List Param → Bool → List Token
list_of params can_throw =
    if is_empty params && not can_throw
    then []
    else open_paren
      ∷ word (codes "parameters")
      ∷ (rows_of params ++ (error_row can_throw ++ close_paren ∷ []))

abbrev pub var_args_of : List Param → List Token
var_args_of params = if has_var_args params then switch "varargs" (codes "#t") else []

-- The parameters of a callable, and the error that it throws, if it has any parameters element.
abbrev pub params_of : Option (List Param) → Bool → List Token
params_of none can_throw = []
params_of (some params) can_throw = list_of params can_throw ++ var_args_of params

-- A text is printed, in which a reader finds the tokens.
abbrev pub Printed : Result (List ℕ) → List Token → Type 0
Printed r ks = (t : List ℕ) × (r ≡ ok t) × Reads t ks

dash_word : IsWord (codes "-")
unfolding kind
dash_word = word_of (codes "-") refl

parameters_word : IsWord (codes "parameters")
unfolding kind
parameters_word = word_of (codes "parameters") refl

varargs_word : IsWord (codes "varargs")
unfolding kind
varargs_word = word_of (codes "varargs") refl

pub true_word : IsWord (codes "#t")
unfolding kind
true_word = word_of (codes "#t") refl

error_type_word : IsWord (codes "GError**")
unfolding kind
error_type_word = word_of (codes "GError**") refl

error_word : IsWord (codes "error")
unfolding kind
error_word = word_of (codes "error") refl

dash_quotable : (c : ℕ) → kind c ≢ quote → kind (if c == b' ' then b'-' else c) ≢ quote
dash_quotable c h = elim (Bool-cases (c == b' ')) [ inl e ↦ rw e not_quote | inr e ↦ rw e h ]
  where
    not_quote : kind b'-' ≢ quote
    not_quote = (word-IsQuotable (codes "-") dash_word).0

pub replace_all-IsQuotable : (v : Name) → IsQuotable v → IsQuotable (replace_all b' ' b'-' v)
unfolding replace_all
replace_all-IsQuotable [] h = tt
replace_all-IsQuotable (c ∷ v) (l, h) = (dash_quotable c l, replace_all-IsQuotable v h)

print_one-Printed :
    (name : Option Name) (type : Option ParamType)
    → IsReadable name type
    → (t : List ℕ) × (print_one name type ≡ ok (t, is_var_args type)) × Reads t (row_of name type)
unfolding print_one
print_one-Printed name none h = absurd h
print_one-Printed name (some var_args) h = ([], refl, Reads-nil)
print_one-Printed none (some (any_type t)) h = absurd h
print_one-Printed (some name) (some (any_type t)) (a, b) = (
  print_pair (dashed t) name,
  refl,
  Reads-pair (dashed t) name (replace_all-IsQuotable (flatten_any_type t) a) b,
)

or_swap : (a b c : Bool) → (b || (a || c)) ≡ ((a || b) || c)
or_swap true true c = refl
or_swap true false c = refl
or_swap false true c = refl
or_swap false false c = refl

or_false : (b : Bool) → (b || false) ≡ b
or_false true = refl
or_false false = refl

print_loop-Printed :
    (ps : List Param) (b : Bool)
    → All (λ p. IsReadable p.name p.param_type) ps
    → (t : List ℕ) × (print_loop ps b ≡ ok (t, has_var_args ps || b)) × Reads t (rows_of ps)
unfolding print_loop
print_loop-Printed [] b h = ([], refl, Reads-nil)
print_loop-Printed (p ∷ ps) b (h, hs) =
    let (t, e, r) = print_one-Printed p.name p.param_type h in
    let (u, f, q) = print_loop-Printed ps (is_var_args p.param_type || b) hs in
    (
      t ++ u,
      rw (e, f) (ap (λ v. ok (t ++ u, v)) (or_swap (is_var_args p.param_type) (has_var_args ps) b)),
      Reads-append r q,
    )

print_error-Reads :
    (b : Bool)
    → Reads (if b then print_pair (codes "GError**") (codes "error") else []) (error_row b)
print_error-Reads true =
    Reads-pair (codes "GError**") (codes "error")
      (word-IsQuotable (codes "GError**") error_type_word)
      (word-IsQuotable (codes "error") error_word)
print_error-Reads false = Reads-nil

maybe_print_var_args-Reads :
    (b : Bool) → Reads (maybe_print_var_args b) (if b then switch "varargs" (codes "#t") else [])
unfolding maybe_print_var_args
maybe_print_var_args-Reads true = Reads-switch "varargs" (codes "#t") varargs_word true_word
maybe_print_var_args-Reads false = Reads-nil

abbrev list_text : List ℕ → Bool → List ℕ
list_text rows b =
    print_list "parameters"
    ++ (rows
        ++ ((if b then print_pair (codes "GError**") (codes "error") else []) ++ print_list_end))

-- A list with an end, its heading and rows in between.
listed :
    (rows : List ℕ) (ks : List Token) (b : Bool)
    → Reads rows ks
    → Reads
        (list_text rows b)
        (open_paren ∷ word (codes "parameters") ∷ (ks ++ (error_row b ++ close_paren ∷ [])))
listed rows ks b h =
    Reads-append (Reads-list "parameters" parameters_word)
      (Reads-append h (Reads-append (print_error-Reads b) Reads-list_end))

print_param-Printed :
    (ps : List Param) (b : Bool)
    → All (λ p. IsReadable p.name p.param_type) ps
    → (t : List ℕ) × (print_param b ps ≡ ok (t, has_var_args ps)) × Reads t (list_of ps b)
unfolding print_param
print_param-Printed [] true h = (_, refl, listed [] [] true (Reads-nil))
print_param-Printed [] false h = ([], refl, Reads-nil)
print_param-Printed (p ∷ ps) b h =
    let (t, e, r) = print_loop-Printed (p ∷ ps) false h in
    (
      list_text t b,
      rw e (ap (λ v. ok (list_text t b, v)) (or_false (has_var_args (p ∷ ps)))),
      listed t (rows_of (p ∷ ps)) b r,
    )

pub print_params-Printed :
    (params : Option (List Param)) (b : Bool)
    → AreReadable params
    → Printed (print_params params b) (params_of params b)
unfolding print_params
print_params-Printed none b h = ([], refl, Reads-nil)
print_params-Printed (some ps) b h =
    let (t, e, r) = print_param-Printed ps b h in
    (
      t ++ maybe_print_var_args (has_var_args ps),
      rw e,
      Reads-append r (maybe_print_var_args-Reads (has_var_args ps)),
    )
