-- ===== src/Mmgir/TypeCasts/Prefixes.antt =====
-- Which prefixes are kept.
use glibmm.Base.{
  ℕ, ◌≡◌, ◌<◌, refl, sym, ◌⊎◌, inl, inr, List, [], ◌∷◌, ◌++◌, ◌==◌, ==_eq, All-append, ltb, length,
  arith, Bool-cases, All,
}
use glibmm.Mmgir.TypeCasts.{Name, insert_prefix, insert_prefixes, build_identifier_prefixes}

-- From longer to shorter, no two of one length.
abbrev pub IsFalling : List Name → Type 0
IsFalling [] = Unit
IsFalling (p ∷ ps) = All (λ q. length q < length p) ps × IsFalling ps

abbrev pub In : Name → List Name → Type 0
In n [] = ⊥
In n (m ∷ ms) = (n ≡ m) ⊎ In n ms

-- A prefix of this length is there.
abbrev pub HasLength : ℕ → List Name → Type 0
HasLength k ps = (q : Name) × In q ps × (length q ≡ k)

shorter_trans :
    (k m : ℕ) (ps : List Name) → m < k → All (λ q. length q < m) ps → All (λ q. length q < k) ps
shorter_trans k m [] h a = tt
shorter_trans k m (p ∷ ps) h (b, a) = (omega arith, shorter_trans k m ps h a)

insert_shorter :
    (k : ℕ) (p : Name) (ps : List Name)
    → length p < k
    → All (λ q. length q < k) ps
    → All (λ q. length q < k) (insert_prefix p ps)
unfolding insert_prefix
insert_shorter k p [] h a = (h, tt)
insert_shorter k p (q ∷ qs) h (b, a) = elim (Bool-cases (length p == length q)) [
  | inl same ↦ rw same (b, a)
  | inr other ↦ elim (Bool-cases (ltb (length q) (length p))) [
    | inl longer ↦ rw (other, longer) (h, (b, a))
    | inr shorter ↦ rw (other, shorter) (b, insert_shorter k p qs h a)
  ]
]

insert_prefix-IsFalling :
    (p : Name) (ps : List Name) → IsFalling ps → IsFalling (insert_prefix p ps)
unfolding insert_prefix
insert_prefix-IsFalling p [] h = (tt, tt)
insert_prefix-IsFalling p (q ∷ qs) (a, h) = elim (Bool-cases (length p == length q)) [
  | inl same ↦ rw same (a, h)
  | inr other ↦ elim (Bool-cases (ltb (length q) (length p))) [
    | inl longer ↦
        rw (other, longer)
          ((ground arith, shorter_trans (length p) (length q) qs (ground arith) a), (a, h))
    | inr shorter ↦
        rw (other, shorter)
          (insert_shorter (length q) p qs (ground arith) a, insert_prefix-IsFalling p qs h)
  ]
]

insert-HasLength : (p : Name) (ps : List Name) → HasLength (length p) (insert_prefix p ps)
unfolding insert_prefix
insert-HasLength p [] = (p, inl refl, refl)
insert-HasLength p (q ∷ qs) =
    let (r, m, e) = insert-HasLength p qs in
    elim (Bool-cases (length p == length q)) [
      | inl same ↦ rw same (q, inl refl, sym (==_eq (length p) (length q) same))
      | inr other ↦ elim (Bool-cases (ltb (length q) (length p))) [
        | inl longer ↦ rw (other, longer) (p, inl refl, refl)
        | inr shorter ↦ rw (other, shorter) (r, inr m, e)
      ]
    ]

In-insert : (r p : Name) (ps : List Name) → In r ps → In r (insert_prefix p ps)
unfolding insert_prefix
In-insert r p [] m = inr m
In-insert r p (q ∷ qs) m =
    let rest = In-insert r p qs in
    elim (Bool-cases (length p == length q)) [
      | inl same ↦ rw same (m)
      | inr other ↦ elim (Bool-cases (ltb (length q) (length p))) [
        | inl longer ↦ rw (other, longer) (inr m)
        | inr shorter ↦ rw (other, shorter) (tail rest m)
      ]
    ]
  where
    tail : (In r qs → In r (insert_prefix p qs)) → In r (q ∷ qs) → In r (q ∷ insert_prefix p qs)
    tail f (inl e) = inl e
    tail f (inr n) = inr (f n)

insert-keeps :
    (k : ℕ) (p : Name) (ps : List Name) → HasLength k ps → HasLength k (insert_prefix p ps)
insert-keeps k p ps (r, m, e) = (r, In-insert r p ps m, e)

insert_prefixes_keeps :
    (k : ℕ) (unique ps : List Name) → HasLength k unique → HasLength k (insert_prefixes unique ps)
unfolding insert_prefixes
insert_prefixes_keeps k unique [] h = h
insert_prefixes_keeps k unique (p ∷ ps) h =
    insert_prefixes_keeps k (insert_prefix p unique) ps (insert-keeps k p unique h)

insert_prefixes-HasLength :
    (unique ps : List Name) → All (λ p. HasLength (length p) (insert_prefixes unique ps)) ps
unfolding insert_prefixes
insert_prefixes-HasLength unique [] = tt
insert_prefixes-HasLength unique (p ∷ ps) = (
  insert_prefixes_keeps (length p) (insert_prefix p unique) ps (insert-HasLength p unique),
  insert_prefixes-HasLength (insert_prefix p unique) ps,
)

insert_prefixes-IsFalling :
    (unique ps : List Name) → IsFalling unique → IsFalling (insert_prefixes unique ps)
unfolding insert_prefixes
insert_prefixes-IsFalling unique [] h = h
insert_prefixes-IsFalling unique (p ∷ ps) h =
    insert_prefixes-IsFalling (insert_prefix p unique) ps (insert_prefix-IsFalling p unique h)

All-keeps :
    (unique ps qs : List Name)
    → All (λ p. HasLength (length p) unique) ps
    → All (λ p. HasLength (length p) (insert_prefixes unique qs)) ps
All-keeps unique [] qs h = tt
All-keeps unique (p ∷ ps) qs (a, h) =
    (insert_prefixes_keeps (length p) unique qs a, All-keeps unique ps qs h)

-- The identifier prefixes are tried from longer to shorter, and there is one of each length that the
-- repository or the namespace has, but only one: of two prefixes of one length, one is lost.
pub build_identifier_prefixes-IsFalling :
    (repo ns : List Name)
    → IsFalling (build_identifier_prefixes repo ns)
      × All (λ p. HasLength (length p) (build_identifier_prefixes repo ns)) (repo ++ ns)
unfolding build_identifier_prefixes
build_identifier_prefixes-IsFalling repo ns = (
  insert_prefixes-IsFalling _ ns (insert_prefixes-IsFalling [] repo tt),
  All-append _ repo ns (All-keeps _ repo ns (insert_prefixes-HasLength [] repo))
      (insert_prefixes-HasLength _ ns),
)
