-- ===== src/Mmgir/TypeResolver/Mapping.antt =====
-- What a TypeMapper adds to the resolver.
pub mod Coverage
use glibmm.Base.{
  ◌≡◌, ◌≢◌, refl, sym, ap, ◌∙◌, subst, ◌⊎◌, inl, inr, Bool, true, false, List, [], ◌∷◌, Option,
  none, some, if◌then◌else◌, arith, Bool-cases, not, ◌||◌,
}
use glibmm.Mmgir.Names.{
  String, str_eq, eq_iff, eq_refl, update, In, insert, erase, In-insert, In-insert_other, insert-In,
  erase-In, In-erase,
}
use glibmm.Mmgir.TypeResolver.Builtins.{GParam}
use glibmm.Mmgir.TypeResolver.{
  TypeInfo, TypeResolver, for_each, qualify_name, is_builtin_type, record_at, record_mapping,
  unknown_at, record_unknown,
}

-- A name that has a C type, or is listed as unknown.
abbrev pub Known : TypeResolver → String → Type 0
Known s q = ((i : TypeInfo) × (s.name_to_type_info q ≡ some i)) ⊎ In q s.unknown_types

-- No name is both.
abbrev pub IsConsistent : TypeResolver → Type 0
IsConsistent s = (q : String) → In q s.unknown_types → s.name_to_type_info q ≡ none

-- Types keep their entries, names that are known stay known, and no name becomes both.
pub record Grows (s u : TypeResolver) : Type 0 where
  pub kept :
      (q : String) (i : TypeInfo) → s.name_to_type_info q ≡ some i → u.name_to_type_info q ≡ some i
  pub known : (q : String) → Known s q → Known u q
  pub consistent : IsConsistent s → IsConsistent u

pub Grows-refl : (s : TypeResolver) → Grows s s
Grows-refl s = record { kept = λ q i e. e; known = λ q k. k; consistent = λ c. c }

pub Grows-trans : {s u v : TypeResolver} → Grows s u → Grows u v → Grows s v
Grows-trans g h = record {
  kept = λ q i e. h.kept q i (g.kept q i e);
  known = λ q k. h.known q (g.known q k);
  consistent = λ c. h.consistent (g.consistent c);
}

str_eq-cases : (s t : String) → (s ≡ t) ⊎ (str_eq s t ≡ false)
str_eq-cases s t = elim (Bool-cases (str_eq s t)) [
  | inl same ↦ inl ((eq_iff s t).0 same)
  | inr other ↦ inr other
]

update_self : (m : String → Option TypeInfo) (q : String) (i : TypeInfo) → update m q i q ≡ some i
update_self m q i = rw (eq_refl q)

update_other :
    (m : String → Option TypeInfo) (q n : String) (i : TypeInfo) → q ≢ n → update m q i n ≡ m n
update_other m q n i d = ground (arith, eq_iff q n)

record_at-IsConsistent :
    (s : TypeResolver) (q : String) (i : TypeInfo) (o : Option TypeInfo)
    → IsConsistent s
    → IsConsistent (record_at s q i o)
unfolding record_at
record_at-IsConsistent s q i none c n h =
    let (d, k) = erase-In n q s.unknown_types h in
    update_other s.name_to_type_info q n i (λ e. d (sym e)) ∙ c n k
record_at-IsConsistent s q i (some old) c n h = c n ((erase-In n q s.unknown_types h).1)

record_at-Grows :
    (s : TypeResolver) (q : String) (i : TypeInfo) (o : Option TypeInfo)
    → s.name_to_type_info q ≡ o
    → Grows s (record_at s q i o)
unfolding record_at
record_at-Grows s q i none e = record {
  kept = λ n j h. elim (str_eq-cases q n) [
    | inl same ↦ absurd (clash (sym e ∙ ap s.name_to_type_info same ∙ h))
    | inr other ↦ rw other h
  ];
  known = λ n k. elim (str_eq-cases q n) [
    | inl same ↦ inl (i, rw (← same, eq_refl q) refl)
    | inr other ↦ rest n other k
  ];
  consistent = λ c. record_at-IsConsistent s q i none c;
}
  where
    clash : {j : TypeInfo} → none ≡ some j → ⊥
    clash h = cc

    rest : (n : String) → str_eq q n ≡ false → Known s n → Known (record_at s q i none) n
    rest n other (inl (j, h)) = inl (j, rw other h)
    rest n other (inr h) = inr (In-erase n q s.unknown_types h (λ e'. ground (arith, eq_iff q n)))
record_at-Grows s q i (some old) e = record {
  kept = λ n j h. h;
  known = λ n k. elim (str_eq-cases q n) [
    | inl same ↦ inl (old, ap s.name_to_type_info (sym same) ∙ e)
    | inr other ↦ rest n other k
  ];
  consistent = λ c. record_at-IsConsistent s q i (some old) c;
}
  where
    rest : (n : String) → str_eq q n ≡ false → Known s n → Known (record_at s q i (some old)) n
    rest n other (inl h) = inl h
    rest n other (inr h) = inr (In-erase n q s.unknown_types h (λ e'. ground (arith, eq_iff q n)))

pub record_mapping-Grows :
    (ns : String) (s : TypeResolver) (name c_type : String) (spec : GParam)
    → Grows s (record_mapping ns s name c_type spec)
unfolding record_mapping
record_mapping-Grows ns s name c_type spec = record_at-Grows s (qualify_name ns name) _ _ refl

unknown_at-IsConsistent :
    (s : TypeResolver) (q : String) (o : Option TypeInfo)
    → s.name_to_type_info q ≡ o
    → IsConsistent s
    → IsConsistent (unknown_at s q o)
unfolding unknown_at
unknown_at-IsConsistent s q none e c n h = split (insert-In n q s.unknown_types h)
  where
    split : (n ≡ q) ⊎ In n s.unknown_types → s.name_to_type_info n ≡ none
    split (inl same) = ap s.name_to_type_info same ∙ e
    split (inr k) = c n k
unknown_at-IsConsistent s q (some i) e c n h = c n h

unknown_at-Grows :
    (s : TypeResolver) (q : String) (o : Option TypeInfo)
    → s.name_to_type_info q ≡ o
    → Grows s (unknown_at s q o) × Known (unknown_at s q o) q
unfolding unknown_at
unknown_at-Grows s q none e = (
  record {
    kept = λ n i h. h;
    known = λ n k. rest n k;
    consistent = λ c. unknown_at-IsConsistent s q none e c;
  },
  inr (In-insert q s.unknown_types),
)
  where
    rest : (n : String) → Known s n → Known (unknown_at s q none) n
    rest n (inl h) = inl h
    rest n (inr h) = inr (In-insert_other n q s.unknown_types h)
unknown_at-Grows s q (some i) e = (Grows-refl s, inl (i, e))

-- A builtin type, or a name that is known in the namespace.
abbrev pub NameKnown : String → TypeResolver → String → Type 0
NameKnown ns s name = (is_builtin_type name ≡ true) ⊎ Known s (qualify_name ns name)

pub record_unknown-Grows :
    (ns : String) (s : TypeResolver) (name : String)
    → Grows s (record_unknown ns s name) × NameKnown ns (record_unknown ns s name) name
unfolding record_unknown
record_unknown-Grows ns s name = elim (Bool-cases (is_builtin_type name)) [
  | inl builtin ↦ rw builtin (Grows-refl s, inl refl)
  | inr other ↦ let (g, k) = unknown_at-Grows s (qualify_name ns name) _ refl in rw other (g, inr k)
]
