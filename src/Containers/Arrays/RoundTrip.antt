-- ===== src/Containers/Arrays/RoundTrip.antt =====
-- Vectors that go to C as an array and come back, ArrayHandler of glib/glibmm/vectorutils.h.
use mathlib.Core.List.{map}
use glibmm.Base.{
  ℕ, ◌+◌, ◌≡◌, ◌≢◌, refl, sym, ap, ◌∙◌, inl, inr, some, none, List, [], ◌∷◌, ◌++◌, length, ◌==◌,
  if◌then◌else◌, Bool-cases, ==_eq, arith,
}
use glibmm.Containers.Memory.{ownership_none, ownership_shallow, TypeTraits, in_memory, ArrayMemory}
use glibmm.Containers.Arrays.{
  ArrayKeeper, vector_to_array, count_elements, compute_array_size2, fill_vector,
  destroy_array_keeper, array_to_vector_sized, array_to_vector, free_array,
}
use glibmm.Containers.Arrays.Creation.{create_array-terminated, terminated}

module _ {CppType : Type 0} (tr : TypeTraits CppType) where
  -- The elements in front of the first one whose C value is 0.
  abbrev pub before_zero : List CppType → List CppType
  before_zero [] = []
  before_zero (x ∷ v) = if tr.to_c_type x == 0 then [] else x ∷ before_zero v

  count_elements-before_zero :
      (v : List CppType) (n : ℕ)
      → count_elements (terminated tr v) n ≡ some (n + length (before_zero v))
  unfolding count_elements
  count_elements-before_zero [] n = ap some (omega arith)
  count_elements-before_zero (x ∷ v) n = elim (Bool-cases (tr.to_c_type x == 0)) [
    | inl e ↦ rw e (ap some (omega arith))
    | inr e ↦ rw e (count_elements-before_zero v (n + 1) ∙ ap some (omega arith))
  ]

  module _ (restored : (x : CppType) → tr.to_cpp_type (tr.to_c_type x) ≡ x) where
    fill_vector-map :
        (v : List CppType) (zs : List ℕ)
        → fill_vector tr (length v) (map tr.to_c_type v ++ zs) ≡ some v
    unfolding fill_vector
    fill_vector-map [] zs = refl
    fill_vector-map (x ∷ v) zs = rw (fill_vector-map v zs, restored x)

    fill_vector-before_zero :
        (v : List CppType) (zs : List ℕ)
        → fill_vector tr (length (before_zero v)) (map tr.to_c_type v ++ zs) ≡ some (before_zero v)
    unfolding fill_vector
    fill_vector-before_zero [] zs = refl
    fill_vector-before_zero (x ∷ v) zs = elim (Bool-cases (tr.to_c_type x == 0)) [
      | inl e ↦ rw e
      | inr e ↦ rw e (rw (fill_vector-before_zero v zs, restored x))
    ]

module _ (g : ArrayMemory) {CppType : Type 0} (tr : TypeTraits CppType)
    (restored : (x : CppType) → tr.to_cpp_type (tr.to_c_type x) ≡ x) where
  -- A vector of elements that their C values determine becomes an array, and that array becomes a
  -- vector again without being given up. With the size it is the same vector, and without a size
  -- the part in front of the first element whose C value is 0. When the keeper is destroyed, the
  -- memory has the same arrays as in the beginning, and no element has been released.
  pub vector_to_array-array_to_vector :
      (m : g.Memory) (v : List CppType) (released : List ℕ)
      → (r : g.Memory × ArrayKeeper) × (vector_to_array g tr m v ≡ some r)
        × (array_to_vector_sized g tr (in_memory r.0 released) r.1.array_ (length v) ownership_none
            ≡ some (v, in_memory r.0 released))
        × (array_to_vector g tr (in_memory r.0 released) r.1.array_ ownership_none
            ≡ some (before_zero tr v, in_memory r.0 released))
        × (m' : g.Memory) × (destroy_array_keeper g (in_memory r.0 released) r.1
            ≡ some (in_memory m' released))
        × ((q : ℕ) → g.array m' q ≡ g.array m q)
  unfolding vector_to_array array_to_vector array_to_vector_sized destroy_array_keeper
      compute_array_size2 free_array
  vector_to_array-array_to_vector m v released =
      let (r, q, there, new, others) = create_array-terminated g tr m v in
      (
        (r.0, record { array_ = some r.1; array_size_ = length v; ownership_ = ownership_shallow }),
        rw q,
        rw (there, fill_vector-map tr restored v (0 ∷ [])),
        rw (there, count_elements-before_zero tr v 0 ∙ ap some size)
            (rw (fill_vector-before_zero tr restored v (0 ∷ []))),
        g.g_free r.0 r.1,
        rw there,
        λ o. g.free-array r.0 r.1 o ∙ kept r.0 r.1 o new (others o),
      )
    where
      size : 0 + length (before_zero tr v) ≡ length (before_zero tr v)
      size = omega arith

      kept :
          (m' : g.Memory) (p o : ℕ)
          → g.array m p ≡ none
          → (p ≢ o → g.array m' o ≡ g.array m o)
          → (if p == o then none else g.array m' o) ≡ g.array m o
      kept m' p o gone same = elim (Bool-cases (p == o)) [
        | inl e ↦ rw e (sym gone ∙ ap (g.array m) (==_eq p o e))
        | inr e ↦ rw e (same (λ q. absurd (ground arith)))
      ]
