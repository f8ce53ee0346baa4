-- ===== src/Containers/Arrays.antt =====
-- ArrayKeeper and ArrayHandler of glib/glibmm/vectorutils.h. The pointers into an array are its
-- address and an index, and reads and writes outside of a live array are undefined.
pub mod Release
pub mod Creation
pub mod RoundTrip
pub mod Bools
use glibmm.Base.{
  ℕ, zero, suc, ◌+◌, Bool, Option, none, some, List, [], ◌∷◌, ◌++◌, length, ltb, ◌==◌,
  if◌then◌else◌,
}
use glibmm.Containers.Memory.{
  ◌>>=◌, OwnershipType, ownership_none, ownership_shallow, is_none, is_shallow, TypeTraits, Storage,
  ArrayMemory,
}

pub record ArrayKeeper : Type 0 where
  pub array_ : Option ℕ
  pub array_size_ : ℕ
  pub ownership_ : OwnershipType

-- The copy constructor: what is left of the source, and the copy.
unfoldable pub copy_array_keeper : ArrayKeeper → ArrayKeeper × ArrayKeeper
copy_array_keeper keeper = (record keeper { ownership_ = ownership_none }, keeper)

-- The loop of the destructor over the elements from `p` on, of which it releases the given number.
pub release_elements : ℕ → List ℕ → List ℕ → Option (List ℕ)
release_elements zero p released = some released
release_elements (suc n) [] released = none
release_elements (suc n) (c ∷ p) released = release_elements n p (released ++ c ∷ [])

-- compute_array_size2() from the element `pend` on, `n` elements behind the start.
pub count_elements : List ℕ → ℕ → Option ℕ
count_elements [] n = none
count_elements (c ∷ pend) n = if c == 0 then some n else count_elements pend (n + 1)

module _ {CppType : Type 0} (tr : TypeTraits CppType) where
  -- The vector of the elements from `pos` up to the one that is the given number behind it.
  pub fill_vector : ℕ → List ℕ → Option (List CppType)
  fill_vector zero pos = some []
  fill_vector (suc n) [] = none
  fill_vector (suc n) (c ∷ pos) = fill_vector n pos >>= λ rest. some (tr.to_cpp_type c ∷ rest)

module _ (g : ArrayMemory) where
  -- g_free() of an array.
  free_array : Storage g.Memory → ℕ → Option (Storage g.Memory)
  free_array w p = g.array w.memory p >>= λ _. some (record w { memory = g.g_free w.memory p })

  release_array : Storage g.Memory → ℕ → ℕ → Option (Storage g.Memory)
  unfolding release_elements
  release_array w p size = g.array w.memory p >>= λ xs.
      release_elements size xs w.released >>= λ r. some (record w { released = r })

  destroy_array : Storage g.Memory → Option ℕ → ℕ → OwnershipType → Option (Storage g.Memory)
  unfolding free_array release_array
  destroy_array w none size ownership = some w
  destroy_array w (some p) size ownership =
      if is_none ownership
      then some w
      else ((if is_shallow ownership then some w else release_array w p size) >>= λ v.
          free_array v p)

  -- The destructor.
  unfoldable pub destroy_array_keeper : Storage g.Memory → ArrayKeeper → Option (Storage g.Memory)
  unfolding destroy_array
  destroy_array_keeper w k = destroy_array w k.array_ k.array_size_ k.ownership_

  unfoldable pub compute_array_size2 : g.Memory → Option ℕ → Option ℕ
  unfolding count_elements
  compute_array_size2 m none = some 0
  compute_array_size2 m (some p) = g.array m p >>= λ xs. count_elements xs 0

  -- `*p = c`
  assign_element : g.Memory → ℕ → ℕ → ℕ → Option g.Memory
  assign_element m p i c =
      g.array m p >>= λ xs. if ltb i (length xs) then some (g.assign m p i c) else none

  module _ {CppType : Type 0} (tr : TypeTraits CppType) where
    -- The loop of create_array(), from the element at `i` on, for the given number of elements.
    fill_array : g.Memory → ℕ → ℕ → ℕ → List CppType → Option g.Memory
    unfolding assign_element
    fill_array m array i zero pbegin = some m
    fill_array m array i (suc n) [] = none
    fill_array m array i (suc n) (x ∷ pbegin) =
        assign_element m array i (tr.to_c_type x) >>= λ m'. fill_array m' array (i + 1) n pbegin

    unfoldable pub create_array : g.Memory → List CppType → ℕ → Option (g.Memory × ℕ)
    unfolding fill_array
    create_array m pbegin size =
        let (m', array) = g.g_malloc m (size + 1) in
        fill_array m' array 0 size pbegin >>= λ filled.
        assign_element filled array size 0 >>= λ ended. some (ended, array)

    unfoldable pub vector_to_array : g.Memory → List CppType → Option (g.Memory × ArrayKeeper)
    unfolding create_array
    vector_to_array m vector = create_array m vector (length vector) >>= λ r. some (
      r.0,
      record { array_ = some r.1; array_size_ = length vector; ownership_ = ownership_shallow },
    )

    -- array_to_vector() with a size. The keeper is destroyed behind the construction of the vector.
    unfoldable pub array_to_vector_sized :
        Storage g.Memory → Option ℕ → ℕ → OwnershipType → Option (List CppType × Storage g.Memory)
    unfolding destroy_array_keeper fill_vector
    array_to_vector_sized w none array_size ownership = some ([], w)
    array_to_vector_sized w (some array) array_size ownership =
        let keeper : ArrayKeeper = record {
          array_ = some array;
          array_size_ = array_size;
          ownership_ = ownership;
        } in
        g.array w.memory array >>= λ xs. fill_vector tr array_size xs >>= λ vector.
        destroy_array_keeper w keeper >>= λ v. some (vector, v)

    unfoldable pub array_to_vector :
        Storage g.Memory → Option ℕ → OwnershipType → Option (List CppType × Storage g.Memory)
    unfolding compute_array_size2 array_to_vector_sized
    array_to_vector w array ownership = compute_array_size2 w.memory array >>= λ array_size.
        array_to_vector_sized w array array_size ownership
