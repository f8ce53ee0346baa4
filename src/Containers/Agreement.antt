-- ===== src/Containers/Agreement.antt =====
-- The converters of arrays and lists agree, and vectors come back from lists,
-- glib/glibmm/vectorutils.h.
use mathlib.Core.List.{map}
use glibmm.Base.{
  ℕ, ◌≤◌, ◌≡◌, ◌≢◌, refl, ap, ◌∙◌, Option, some, none, List, [], ◌∷◌, ◌++◌, append-nil, length, All,
  arith,
}
use glibmm.Containers.Memory.{
  ◌>>=◌, OwnershipType, ownership_none, ownership_shallow, TypeTraits, Storage, in_memory,
  ArrayMemory, ListMemory,
}
use glibmm.Containers.Arrays.{
  count_elements, compute_array_size2, array_to_vector, array_to_vector_sized,
}
use glibmm.Containers.Arrays.Creation.{length-map, count_elements-length}
use glibmm.Containers.Lists.{GListKeeper, vector_to_list, list_to_vector, destroy_glist_keeper}
use glibmm.Containers.Lists.Chain.{Chain, Extends, create_glist-Chain}
use glibmm.Containers.Arrays.Release as Arrays
use glibmm.Containers.Lists.Release as Lists

map-restored :
    {CppType : Type 0} (tr : TypeTraits CppType)
    (restored : (x : CppType) → tr.to_cpp_type (tr.to_c_type x) ≡ x) (v : List CppType)
    → map tr.to_cpp_type (map tr.to_c_type v) ≡ v
map-restored tr restored [] = refl
map-restored tr restored (x ∷ v) = rw (restored x, map-restored tr restored v)

module _ (a : ArrayMemory) (g : ListMemory) {CppType : Type 0} (tr : TypeTraits CppType) where
  -- An array and a list of the same C values, none of which is 0, with a 0 behind them in the
  -- array: array_to_vector() with the size and without it and list_to_vector() return the vector
  -- of the converted values. They release the same values, in the same order, and give up the
  -- array or the list, as the ownership says. The loops come to their end.
  pub array_to_vector-list_to_vector :
      (v : Storage a.Memory) (w : Storage g.Memory) (p : ℕ) (l : Option ℕ) (xs zs : List ℕ)
      (o : OwnershipType) (fuel : ℕ)
      → a.array v.memory p ≡ some (xs ++ 0 ∷ zs)
      → Chain g w.memory l xs
      → All (λ c. c ≢ 0) xs
      → length xs ≤ fuel
      → (array_to_vector a tr v (some p) o ≡ array_to_vector_sized a tr v (some p) (length xs) o)
        × (array_to_vector_sized a tr v (some p) (length xs) o
            ≡ some (
              map tr.to_cpp_type xs,
              in_memory (Arrays.memory_after a o v.memory p) (v.released ++ Arrays.given_up o xs),
            ))
        × (list_to_vector g tr fuel w l o
            ≡ some (
              map tr.to_cpp_type xs,
              in_memory (Lists.memory_after g o w.memory l) (w.released ++ Arrays.given_up o xs),
            ))
  unfolding array_to_vector compute_array_size2
  array_to_vector-list_to_vector v w p l xs zs o fuel there chain nonzero enough = (
    ap (λ r. (r >>= λ ys. count_elements ys 0) >>= sized) there
        ∙ ap (λ r. r >>= sized) (count_elements-length xs zs 0 nonzero)
        ∙ ap sized (omega arith),
    Arrays.array_to_vector_sized-world_after a tr v p o xs (0 ∷ zs) there,
    Lists.list_to_vector-world_after g tr fuel w l o xs enough chain,
  )
    where
      sized : ℕ → Option (List CppType × Storage a.Memory)
      sized n = array_to_vector_sized a tr v (some p) n o

module _ (g : ListMemory) {CppType : Type 0} (tr : TypeTraits CppType)
    (restored : (x : CppType) → tr.to_cpp_type (tr.to_c_type x) ≡ x) where
  -- A vector of elements that their C values determine becomes a list, and that list becomes the
  -- same vector again without being given up. All lists that were in memory are still there. The
  -- destruction of the keeper comes to its end and releases no element.
  pub vector_to_list-list_to_vector :
      (m : g.Memory) (v : List CppType) (released : List ℕ)
      → (r : g.Memory × GListKeeper) × (vector_to_list g tr m v ≡ some r)
        × Extends g m r.0
        × (list_to_vector g tr (length v) (in_memory r.0 released) r.1.glist_ ownership_none
            ≡ some (v, in_memory r.0 released))
        × (m' : g.Memory) × (destroy_glist_keeper g (length v) (in_memory r.0 released) r.1
            ≡ some (in_memory m' released))
  unfolding vector_to_list destroy_glist_keeper
  vector_to_list-list_to_vector m v released =
      let (r, q, chain, extends) = create_glist-Chain g tr m v in
      let xs : List ℕ = map tr.to_c_type v in
      let enough : length xs ≤ length v = omega (arith, length-map tr.to_c_type v) in
      (
        (r.0, record { glist_ = r.1; ownership_ = ownership_shallow }),
        rw q,
        extends,
        Lists.list_to_vector-world_after g tr (length v) (in_memory r.0 released) r.1 ownership_none
              xs enough chain
            ∙ kept r.0 r.1,
        Lists.memory_after g ownership_shallow r.0 r.1,
        Lists.destroy_glist-world_after g (length v) (in_memory r.0 released) r.1 ownership_shallow
              xs enough chain
            ∙ ap (λ t. some (in_memory (Lists.memory_after g ownership_shallow r.0 r.1) t))
                (append-nil released),
      )
    where
      kept :
          (m' : g.Memory) (l : Option ℕ)
          → ◌≡◌ {A = Option (List CppType × Storage g.Memory)}
              (some (
                map tr.to_cpp_type (map tr.to_c_type v),
                in_memory (Lists.memory_after g ownership_none m' l) (released ++ []),
              ))
              (some (v, in_memory m' released))
      kept m' none = rw (map-restored tr restored v, append-nil released)
      kept m' (some p) = rw (map-restored tr restored v, append-nil released)
