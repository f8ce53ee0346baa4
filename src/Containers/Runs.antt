-- ===== src/Containers/Runs.antt =====
-- The conversion of short vectors, arrays and lists in a memory of numbered cells.
mod Numbered
use mathlib.Core.List.{map}
use glibmm.Base.{
  ℕ, ◌+◌, ◌≤◌, ◌≡◌, ◌≢◌, refl, Option, some, none, List, [], ◌∷◌, ◌++◌, length, Bool, true, false,
  arith,
}
use glibmm.Containers.Runs.Numbered.{numbered_arrays, numbered_nodes}
use glibmm.Containers.Memory.{
  OwnershipType, ownership_none, ownership_deep, same_traits, bool_traits, Storage, in_memory,
}
use glibmm.Containers.Copies.{copied, destroyed, run, Once}
use glibmm.Containers.Arrays.{
  ArrayKeeper, copy_array_keeper, destroy_array_keeper, vector_to_array, array_to_vector,
  array_to_vector_sized,
}
use glibmm.Containers.Arrays.Release.{array_keeper, run-Once_array}
use glibmm.Containers.Arrays.RoundTrip.{before_zero, vector_to_array-array_to_vector}
use glibmm.Containers.Lists.{
  GListKeeper, copy_glist_keeper, destroy_glist_keeper, vector_to_list, list_to_vector,
}
use glibmm.Containers.Lists.Chain.{Extends}
use glibmm.Containers.Lists.Release.{list_keeper, run-Once_list}
use glibmm.Containers.Agreement.{array_to_vector-list_to_vector, vector_to_list-list_to_vector}
use glibmm.Containers.Arrays.Release as Arrays
use glibmm.Containers.Lists.Release as Lists

-- An array 5, 6, 0 at the address 0, and a list 5, 6 that starts at the address 1.
abbrev array_world : Storage (List (Option (List ℕ)))
array_world = in_memory (some (5 ∷ 6 ∷ 0 ∷ []) ∷ []) []

abbrev list_world : Storage (List (Option (ℕ × Option ℕ)))
list_world = in_memory (some (6, none) ∷ some (5, some 0) ∷ []) []

run-Once_array_example :
    (r : Storage (List (Option (List ℕ))) × List ArrayKeeper) × (run copy_array_keeper
        (destroy_array_keeper numbered_arrays)
        (copied 0 ∷ destroyed 0 ∷ destroyed 0 ∷ [])
        array_world
        (array_keeper 0 2 ownership_deep ∷ [])
      ≡ some r)
    × Once
        (array_keeper 0 2 ownership_deep)
        (array_keeper 0 2 ownership_none)
        array_world
        (in_memory (none ∷ []) (5 ∷ 6 ∷ []))
        r
run-Once_array_example =
    run-Once_array numbered_arrays array_world 0 2 ownership_deep (5 ∷ 6 ∷ 0 ∷ [])
      (copied 0 ∷ destroyed 0 ∷ destroyed 0 ∷ []) refl (omega arith)

vector_to_array-array_to_vector_example :
    (r : List (Option (List ℕ)) × ArrayKeeper) × (vector_to_array numbered_arrays same_traits []
        (3 ∷ 0 ∷ 4 ∷ [])
      ≡ some r)
    × (array_to_vector_sized numbered_arrays same_traits
          (in_memory r.0 [])
          r.1.array_
          3
          ownership_none
        ≡ some (3 ∷ 0 ∷ 4 ∷ [], in_memory r.0 []))
    × (array_to_vector numbered_arrays same_traits (in_memory r.0 []) r.1.array_ ownership_none
        ≡ some (3 ∷ [], in_memory r.0 []))
    × (m' : List (Option (List ℕ))) × (destroy_array_keeper numbered_arrays (in_memory r.0 []) r.1
        ≡ some (in_memory m' []))
    × ((q : ℕ) → numbered_arrays.array m' q ≡ none)
vector_to_array-array_to_vector_example =
    vector_to_array-array_to_vector numbered_arrays same_traits (λ x. refl) [] (3 ∷ 0 ∷ 4 ∷ []) []

array_to_vector-list_to_vector_example :
    (array_to_vector numbered_arrays same_traits array_world (some 0) ownership_deep
      ≡ array_to_vector_sized numbered_arrays same_traits array_world (some 0) 2 ownership_deep)
    × (array_to_vector_sized numbered_arrays same_traits array_world (some 0) 2 ownership_deep
        ≡ some (5 ∷ 6 ∷ [], in_memory (none ∷ []) (5 ∷ 6 ∷ [])))
    × (list_to_vector numbered_nodes same_traits 2 list_world (some 1) ownership_deep
        ≡ some (5 ∷ 6 ∷ [], in_memory (some (6, none) ∷ none ∷ []) (5 ∷ 6 ∷ [])))
array_to_vector-list_to_vector_example =
    array_to_vector-list_to_vector numbered_arrays numbered_nodes same_traits array_world list_world
      0 (some 1) (5 ∷ 6 ∷ []) [] ownership_deep 2 refl
      (1, some 0, refl, refl, (0, none, refl, refl, refl)) (omega arith) (omega arith)

restored_bool : (x : Bool) → bool_traits.to_cpp_type (bool_traits.to_c_type x) ≡ x
restored_bool true = refl
restored_bool false = refl

vector_to_list-list_to_vector_example :
    (r : List (Option (ℕ × Option ℕ)) × GListKeeper) × (vector_to_list numbered_nodes bool_traits
        list_world.memory
        (true ∷ false ∷ [])
      ≡ some r)
    × Extends numbered_nodes list_world.memory r.0
    × (list_to_vector numbered_nodes bool_traits 2
          (in_memory r.0 (5 ∷ []))
          r.1.glist_
          ownership_none
        ≡ some (true ∷ false ∷ [], in_memory r.0 (5 ∷ [])))
    × (m' : List (Option (ℕ × Option ℕ))) × (destroy_glist_keeper numbered_nodes 2
          (in_memory r.0 (5 ∷ []))
          r.1
        ≡ some (in_memory m' (5 ∷ [])))
vector_to_list-list_to_vector_example =
    vector_to_list-list_to_vector numbered_nodes bool_traits restored_bool list_world.memory
      (true ∷ false ∷ []) (5 ∷ [])
