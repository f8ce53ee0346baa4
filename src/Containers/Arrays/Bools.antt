-- ===== src/Containers/Arrays/Bools.antt =====
-- The arrays of gboolean, glib/glibmm/vectorutils.cc.
use mathlib.Core.Path.{fun_ext}
use glibmm.Base.{
  ℕ, zero, suc, ◌+◌, ◌≡◌, refl, ap, Bool, Option, none, some, List, [], ◌∷◌, if◌then◌else◌,
}
use glibmm.Containers.Memory.{◌>>=◌, bool_traits, ArrayMemory}
use glibmm.Containers.Arrays.{assign_element, fill_array, create_array}

module _ (g : ArrayMemory) where
  -- The loop of create_bool_array(). A bool that is converted to gboolean is 0 or 1.
  fill_bool_array : g.Memory → ℕ → ℕ → ℕ → List Bool → Option g.Memory
  unfolding assign_element
  fill_bool_array m array i zero pbegin = some m
  fill_bool_array m array i (suc n) [] = none
  fill_bool_array m array i (suc n) (x ∷ pbegin) =
      assign_element g m array i (if x then 1 else 0) >>= λ m'.
      fill_bool_array m' array (i + 1) n pbegin

  unfoldable pub create_bool_array : g.Memory → List Bool → ℕ → Option (g.Memory × ℕ)
  unfolding fill_bool_array
  create_bool_array m pbegin size =
      let (m', array) = g.g_malloc m (size + 1) in
      fill_bool_array m' array 0 size pbegin >>= λ filled.
      assign_element g filled array size 0 >>= λ ended. some (ended, array)

  fill_bool_array-fill_array :
      (m : g.Memory) (p i n : ℕ) (v : List Bool)
      → fill_bool_array m p i n v ≡ fill_array g bool_traits m p i n v
  unfolding fill_bool_array fill_array
  fill_bool_array-fill_array m p i zero v = refl
  fill_bool_array-fill_array m p i (suc n) [] = refl
  fill_bool_array-fill_array m p i (suc n) (x ∷ v) =
      ap (λ (f : g.Memory → Option g.Memory). assign_element g m p i (if x then 1 else 0) >>= f)
        (fun_ext (λ m'. fill_bool_array-fill_array m' p (i + 1) n v))

  -- create_bool_array() does what create_array() would do with the traits of bool.
  pub create_bool_array-create_array :
      (m : g.Memory) (v : List Bool) (size : ℕ)
      → create_bool_array m v size ≡ create_array g bool_traits m v size
  unfolding create_bool_array create_array
  create_bool_array-create_array m v size = rw (fill_bool_array-fill_array _ _ 0 size v)
