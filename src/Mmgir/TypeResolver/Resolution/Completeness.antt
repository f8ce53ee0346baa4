-- ===== src/Mmgir/TypeResolver/Resolution/Completeness.antt =====
-- A repository without unknown types can be resolved.
use Prim.Native.String
use mathlib.Core.List.{Memᴰ}
use mathlib.Core.List.Memᴰ.{head, tail}
use glibmm.Base.{
  ◌≡◌, ◌≢◌, refl, sym, ap, ◌∙◌, subst, ◌⊎◌, inl, inr, false, List, [], ◌∷◌, Option, none, some, All,
  arith,
}
use glibmm.Mmgir.Names.{String, In, find}
use glibmm.Mmgir.Schema.{AnyType, simple, array, Namespace}
use glibmm.Mmgir.TypeResolver.Builtins.{
  GParam, boxed, enum_, flags, object, not_applicable, s_builtin_type_to_c_type,
}
use glibmm.Mmgir.TypeResolver.{
  TypeInfo, TypeResolver, for_each, is_builtin_type, qualify_name, record_both,
  extract_simple_types, map_types, register_named, register_repo_types,
}
use glibmm.Mmgir.TypeResolver.References.{references}
use glibmm.Mmgir.TypeResolver.Mapping.{
  Known, Grows, Grows-refl, Grows-trans, NameKnown, record_mapping-Grows,
}
use glibmm.Mmgir.TypeResolver.Mapping.Coverage.{TypeKnown, AnyKnown, All-mono, references_done}
use glibmm.Mmgir.TypeResolver.Resolution.{
  resolve_array, qualify_non_builtin_name, builtin_or, lookup_name, find_type, resolve_any_type,
}

each-Grows {ℓ} :
    {A : Type ℓ} (f : TypeResolver → A → TypeResolver)
    → ((s : TypeResolver) (a : A) → Grows s (f s a))
    → (s : TypeResolver) (xs : List A) → Grows s (for_each f s xs)
each-Grows f one s [] = Grows-refl s
each-Grows f one s (x ∷ xs) = Grows-trans (one s x) (each-Grows f one (f s x) xs)

record_both-Grows :
    (ns : String) (spec : GParam) (s : TypeResolver) (name c_type : Option String)
    → Grows s (record_both ns spec s name c_type)
unfolding record_both
record_both-Grows ns spec s none c_type = Grows-refl s
record_both-Grows ns spec s (some name) none = Grows-refl s
record_both-Grows ns spec s (some name) (some c_type) = record_mapping-Grows ns s name c_type spec

simple_types-Grows :
    (ns : String) (n : Namespace) (s : TypeResolver) → Grows s (extract_simple_types ns n s)
unfolding extract_simple_types
simple_types-Grows ns n s =
    Grows-trans
      (each-Grows _ (λ s a. record_mapping-Grows ns s a.name a.c_type not_applicable) s n.aliases)
      (Grows-trans (each-Grows _ (λ s a. record_mapping-Grows ns s a.name a.c_type enum_) _ n.enums)
        (Grows-trans
          (each-Grows _ (λ s a. record_mapping-Grows ns s a.name a.c_type flags) _ n.bitfields)
          (Grows-trans
            (each-Grows _ (λ s a. record_both-Grows ns boxed s a.name a.c_type) _ n.unions)
            (Grows-trans
              (each-Grows _ (λ s a. record_both-Grows ns boxed s (some a.name) a.c_type) _
                n.records)
              (Grows-trans
                (each-Grows _ (λ s a. record_mapping-Grows ns s a.name a.glib_type_name object) _
                  n.interfaces)
                (each-Grows _ (λ s a. record_mapping-Grows ns s a.name a.glib_type_name object) _
                  n.classes))))))

map_types_done :
    (ns : String) (n : Namespace) (s : TypeResolver)
    → Grows s (map_types ns n s) × All (AnyKnown ns (map_types ns n s)) (references n)
unfolding map_types
map_types_done ns n s =
    let (g, k) = references_done ns (extract_simple_types ns n s) n in
    (Grows-trans (simple_types-Grows ns n s) g, k)

named-Grows :
    (s : TypeResolver) (n : Namespace) (name : Option String) → Grows s (register_named s n name)
unfolding register_named
named-Grows s n none = record { kept = λ q i e. e; known = λ q k. k; consistent = λ c. c }
named-Grows s n (some ns) = (map_types_done ns n s).0

-- Registering namespaces keeps every entry and every unknown name, unless it gets an entry, and a name
-- is never both known and unknown.
pub register_repo_types-Grows :
    (s : TypeResolver) (namespaces : List Namespace) → Grows s (register_repo_types namespaces s)
unfolding register_repo_types
register_repo_types-Grows s namespaces =
    each-Grows (λ s n. register_named s n n.name) (λ s n. named-Grows s n n.name) s namespaces

named_known :
    (s : TypeResolver) (n : Namespace) (name : Option String) (ns : String)
    → name ≡ some ns
    → All (AnyKnown ns (register_named s n name)) (references n)
unfolding register_named
named_known s n none ns e = absurd (none_some e)
  where
    none_some : none ≡ some ns → ⊥
    none_some h = cc
named_known s n (some ns') ns e =
    subst (λ m. All (AnyKnown m (map_types ns' n s)) (references n)) (some_eq e)
      ((map_types_done ns' n s).1)
  where
    some_eq : some ns' ≡ some ns → ns' ≡ ns
    some_eq h = cc

registered_known :
    (namespaces : List Namespace) (s : TypeResolver) (n : Namespace) (ns : String)
    → n.name ≡ some ns
    → Memᴰ n namespaces
    → All (AnyKnown ns (register_repo_types namespaces s)) (references n)
unfolding register_repo_types
registered_known [] s n ns e m = elim m [ ]
registered_known (x ∷ namespaces) s n ns e (head same) =
    let here : All (AnyKnown ns (register_named s x x.name)) (references n) =
      subst (λ y. All (AnyKnown ns (register_named s y y.name)) (references n)) same
        (named_known s n n.name ns e) in
    All-mono ns (references n) (register_repo_types-Grows (register_named s x x.name) namespaces)
      here
registered_known (x ∷ namespaces) s n ns e (tail m) =
    registered_known namespaces (register_named s x x.name) n ns e m

-- Wherever the C type is not given, a name is.
abbrev pub IsNamed : AnyType → Type 0
IsNamed (simple t) = (t.c_type ≡ none) × (t.name ≡ none) → ⊥
IsNamed (array t element) = (t.c_type ≢ none) ⊎ IsNamed element

qualify_name-eq :
    (ns name : String)
    → is_builtin_type name ≡ false
    → qualify_name ns name ≡ qualify_non_builtin_name name ns
unfolding qualify_name qualify_non_builtin_name
qualify_name-eq ns name b = rw b (ground arith)

Known-entry :
    (s : TypeResolver) (q : String)
    → s.unknown_types ≡ []
    → Known s q
    → (i : TypeInfo) × (s.name_to_type_info q ≡ some i)
Known-entry s q e (inl k) = k
Known-entry s q e (inr h) = absurd (subst (In q) e h)

builtin_resolves :
    (ns : String) (s : TypeResolver) (name : String) (f : Option String)
    → find name s_builtin_type_to_c_type ≡ f
    → s.unknown_types ≡ []
    → NameKnown ns s name
    → (c : String) × (builtin_or f (lookup_name s ns name) ≡ some c)
unfolding builtin_or is_builtin_type
builtin_resolves ns s name (some c) q e k = (c, refl)
builtin_resolves ns s name none q e (inl b) = cc
builtin_resolves ns s name none q e (inr k) =
    let (i, h) = Known-entry s (qualify_name ns name) e k in
    let there : lookup_name s ns name ≡ some i =
      ap s.name_to_type_info (sym (qualify_name-eq ns name (rw q))) ∙ h in
    (i.c_type, rw there)

name_resolves :
    (ns : String) (s : TypeResolver) (name : String)
    → s.unknown_types ≡ []
    → NameKnown ns s name
    → (c : String) × (find_type s ns (some name) none ≡ some c)
unfolding find_type
name_resolves ns s name e k = builtin_resolves ns s name _ refl e k

type_resolves :
    (ns : String) (s : TypeResolver) (name c_type : Option String)
    → s.unknown_types ≡ []
    → TypeKnown ns s name c_type
    → ((c_type ≡ none) × (name ≡ none) → ⊥)
    → (c : String) × (find_type s ns name c_type ≡ some c)
unfolding find_type
type_resolves ns s name (some c) e k d = (c, refl)
type_resolves ns s none none e k d = absurd (d (refl, refl))
type_resolves ns s (some name) none e k d = name_resolves ns s name e k

array_resolves :
    (c_type r : Option String)
    → (c_type ≢ none) ⊎ ((c : String) × (r ≡ some c))
    → (c : String) × (resolve_array c_type r ≡ some c)
array_resolves (some c) r d = (c, refl)
array_resolves none r (inl d) = absurd (d refl)
array_resolves none r (inr (c, e)) = (String.◌++◌ c "*", rw e)

any_resolves :
    (ns : String) (s : TypeResolver) (t : AnyType)
    → s.unknown_types ≡ []
    → AnyKnown ns s t
    → IsNamed t
    → (c : String) × (resolve_any_type s ns t ≡ some c)
unfolding resolve_any_type
any_resolves ns s (simple t) e k d = type_resolves ns s t.name t.c_type e k d
any_resolves ns s (array t element) e (k, h) (inl d) = array_resolves t.c_type _ (inl d)
any_resolves ns s (array t element) e (k, h) (inr d) =
    array_resolves t.c_type _ (inr (any_resolves ns s element e h d))

All-Memᴰ : (P : AnyType → Type 0) (t : AnyType) (ts : List AnyType) → All P ts → Memᴰ t ts → P t
All-Memᴰ P t [] h m = elim m [ ]
All-Memᴰ P t (u ∷ ts) (p, h) (head e) = subst P (sym e) p
All-Memᴰ P t (u ∷ ts) (p, h) (tail m) = All-Memᴰ P t ts h m

-- If no type is unknown after the namespaces have been registered, then every type that a property, or
-- a parameter or return value of a function, method, virtual method or constructor of one of them
-- refers to is resolved, in that namespace, if nothing on the way to it is skipped and each part
-- without a C type has a name. Nothing is said of types that only signals refer to. It does not matter
-- in which order the namespaces came, nor what was registered before.
pub register_repo_types-resolves :
    (s : TypeResolver) (namespaces : List Namespace) (n : Namespace) (ns : String) (t : AnyType)
    → n.name ≡ some ns
    → Memᴰ n namespaces
    → Memᴰ t (references n)
    → IsNamed t
    → (register_repo_types namespaces s).unknown_types ≡ []
    → (c : String) × (resolve_any_type (register_repo_types namespaces s) ns t ≡ some c)
register_repo_types-resolves s namespaces n ns t e m r d u =
    any_resolves ns (register_repo_types namespaces s) t u
      (All-Memᴰ _ t (references n) (registered_known namespaces s n ns e m) r) d
