-- ===== src/Mmgir/Defs/Signals/Flags.antt =====
-- The flags of a signal, as a list.
use glibmm.Base.{
  ◌≡◌, ◌≢◌, refl, sym, ap, ◌∙◌, Bool, true, false, List, [], ◌∷◌, ◌++◌, Option, none, some, All,
  All-append, append-nil, append_assoc,
}
use glibmm.Mmgir.TypeCasts.{Name, codes}
use glibmm.Mmgir.Defs.Reader.{kind, quote, IsQuotable, IsQuotable-of}
use glibmm.Mmgir.Defs.Signals.{
  RunSignal, run_first, run_last, run_cleanup, SignalDef, add_flag, add_when, add_if, signal_flags,
}

-- The flags of a signal, as a list: when it runs, and each of the others that has a value at all.
abbrev pub when_flag : Option RunSignal → List Name
when_flag none = []
when_flag (some run_first) = codes "Run First" ∷ []
when_flag (some run_last) = codes "Run Last" ∷ []
when_flag (some run_cleanup) = codes "Run Cleanup" ∷ []

abbrev pub flag_if : Option Bool → Name → List Name
flag_if none flag = []
flag_if (some b) flag = flag ∷ []

abbrev pub flags_of : SignalDef → List Name
flags_of g =
    ((when_flag g.when ++ flag_if g.is_action (codes "Action"))
      ++ flag_if g.no_hooks (codes "No Hooks"))
    ++ flag_if g.no_recurse (codes "No Recurse")

-- The texts with a comma and a space between each two.
abbrev pub behind : List Name → Name
behind [] = []
behind (f ∷ fs) = codes ", " ++ (f ++ behind fs)

abbrev pub joined : List Name → Name
joined [] = []
joined (f ∷ fs) = f ++ behind fs

abbrev is_first : List Name → Bool
is_first [] = true
is_first (f ∷ fs) = false

behind-append : (fs : List Name) (f : Name) → behind (fs ++ f ∷ []) ≡ behind fs ++ (codes ", " ++ f)
behind-append [] f = ap (λ t. codes ", " ++ t) (append-nil f)
behind-append (e ∷ fs) f =
    ap (λ t. codes ", " ++ (e ++ t)) (behind-append fs f)
    ∙ ap (λ t. codes ", " ++ t) (sym (append_assoc e (behind fs) (codes ", " ++ f)))

abbrev state : List Name → Name × Bool
state fs = (joined fs, is_first fs)

add_flag-state : (fs : List Name) (f : Name) → add_flag f (state fs) ≡ state (fs ++ f ∷ [])
unfolding add_flag
add_flag-state [] f = ap (λ t. (t, false)) (sym (append-nil f))
add_flag-state (e ∷ fs) f =
    ap (λ t. (t, false))
      (append_assoc (e ++ behind fs) (codes ", ") f
        ∙ append_assoc e (behind fs) (codes ", " ++ f)
        ∙ ap (λ t. e ++ t) (sym (behind-append fs f)))

add_when-state : (w : Option RunSignal) → add_when w (state []) ≡ state (when_flag w)
unfolding add_when
add_when-state none = refl
add_when-state (some run_first) = add_flag-state [] (codes "Run First")
add_when-state (some run_last) = add_flag-state [] (codes "Run Last")
add_when-state (some run_cleanup) = add_flag-state [] (codes "Run Cleanup")

add_if-state :
    (b : Option Bool) (f : Name) (fs : List Name)
    → add_if b f (state fs) ≡ state (fs ++ flag_if b f)
unfolding add_if
add_if-state none f fs = ap state (sym (append-nil fs))
add_if-state (some b) f fs = add_flag-state fs f

pub signal_flags-joined : (g : SignalDef) → signal_flags g ≡ joined (flags_of g)
unfolding signal_flags
signal_flags-joined g =
    ap
      (λ x.
        (add_if g.no_recurse (codes "No Recurse")
          (add_if g.no_hooks (codes "No Hooks") (add_if g.is_action (codes "Action") x))).0)
      (add_when-state g.when)
    ∙ ap
        (λ x. (add_if g.no_recurse (codes "No Recurse") (add_if g.no_hooks (codes "No Hooks") x)).0)
        (add_if-state g.is_action (codes "Action") (when_flag g.when))
    ∙ ap (λ x. (add_if g.no_recurse (codes "No Recurse") x).0)
        (add_if-state g.no_hooks (codes "No Hooks") _)
    ∙ ap (λ x. x.0) (add_if-state g.no_recurse (codes "No Recurse") _)

-- The fixed texts can be quoted.
when_flag-IsQuotable : (w : Option RunSignal) → All (λ f. IsQuotable f) (when_flag w)
unfolding kind
when_flag-IsQuotable none = tt
when_flag-IsQuotable (some run_first) = (IsQuotable-of (codes "Run First") refl, tt)
when_flag-IsQuotable (some run_last) = (IsQuotable-of (codes "Run Last") refl, tt)
when_flag-IsQuotable (some run_cleanup) = (IsQuotable-of (codes "Run Cleanup") refl, tt)

flag_if-IsQuotable :
    (b : Option Bool) (f : Name) → IsQuotable f → All (λ f. IsQuotable f) (flag_if b f)
flag_if-IsQuotable none f h = tt
flag_if-IsQuotable (some b) f h = (h, tt)

comma-IsQuotable : IsQuotable (codes ", ")
unfolding kind
comma-IsQuotable = IsQuotable-of (codes ", ") refl

action-IsQuotable : IsQuotable (codes "Action")
unfolding kind
action-IsQuotable = IsQuotable-of (codes "Action") refl

no_hooks-IsQuotable : IsQuotable (codes "No Hooks")
unfolding kind
no_hooks-IsQuotable = IsQuotable-of (codes "No Hooks") refl

no_recurse-IsQuotable : IsQuotable (codes "No Recurse")
unfolding kind
no_recurse-IsQuotable = IsQuotable-of (codes "No Recurse") refl

pub constant-IsQuotable : IsQuotable (codes "const-gchar*")
unfolding kind
constant-IsQuotable = IsQuotable-of (codes "const-gchar*") refl

append-IsQuotable : (a b : Name) → IsQuotable a → IsQuotable b → IsQuotable (a ++ b)
append-IsQuotable a b p q = All-append (λ c. kind c ≢ quote) a b p q

behind-IsQuotable : (fs : List Name) → All (λ f. IsQuotable f) fs → IsQuotable (behind fs)
behind-IsQuotable [] h = tt
behind-IsQuotable (f ∷ fs) (p, h) =
    append-IsQuotable (codes ", ") (f ++ behind fs) comma-IsQuotable
      (append-IsQuotable f (behind fs) p (behind-IsQuotable fs h))

joined-IsQuotable : (fs : List Name) → All (λ f. IsQuotable f) fs → IsQuotable (joined fs)
joined-IsQuotable [] h = tt
joined-IsQuotable (f ∷ fs) (p, h) = append-IsQuotable f (behind fs) p (behind-IsQuotable fs h)

pub flags_of-IsQuotable : (g : SignalDef) → IsQuotable (joined (flags_of g))
flags_of-IsQuotable g = joined-IsQuotable (flags_of g) (
    All-append _ _ (flag_if g.no_recurse (codes "No Recurse"))
      (All-append _ _ (flag_if g.no_hooks (codes "No Hooks"))
        (All-append _ (when_flag g.when) (flag_if g.is_action (codes "Action"))
          (when_flag-IsQuotable g.when)
          (flag_if-IsQuotable g.is_action (codes "Action") action-IsQuotable))
        (flag_if-IsQuotable g.no_hooks (codes "No Hooks") no_hooks-IsQuotable))
      (flag_if-IsQuotable g.no_recurse (codes "No Recurse") no_recurse-IsQuotable))
