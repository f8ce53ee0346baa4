-- ===== src/Containers/Arrays/Release.antt =====
-- What the keepers of an array release, ArrayKeeper of glib/glibmm/vectorutils.h.
use mathlib.Core.List.{map}
use glibmm.Base.{
  ℕ, zero, suc, ◌≤◌, ◌≡◌, refl, sym, ap, ◌∙◌, inl, Option, some, List, [], ◌∷◌, ◌++◌, length,
  length-append, take, take-length-append, append_assoc, append-nil, arith,
}
use glibmm.Containers.Memory.{
  ◌>>=◌, OwnershipType, ownership_none, ownership_shallow, ownership_deep, TypeTraits, Storage,
  in_memory, ArrayMemory,
}
use glibmm.Containers.Copies.{Event, run, Once, run-Once}
use glibmm.Containers.Arrays.{
  ArrayKeeper, copy_array_keeper, release_elements, free_array, release_array, destroy_array_keeper,
  fill_vector, array_to_vector_sized,
}

pub release_elements-take :
    (n : ℕ) (xs released : List ℕ)
    → n ≤ length xs
    → release_elements n xs released ≡ some (released ++ take n xs)
unfolding release_elements
release_elements-take zero xs released h = ap some (sym (append-nil released))
release_elements-take (suc n) [] released h = absurd (omega arith)
release_elements-take (suc n) (c ∷ xs) released h =
    release_elements-take n xs (released ++ c ∷ []) (omega arith)
    ∙ ap some (append_assoc released (c ∷ []) (take n xs))

abbrev pub array_keeper : ℕ → ℕ → OwnershipType → ArrayKeeper
array_keeper p n o = record { array_ = some p; array_size_ = n; ownership_ = o }

-- The elements that an ownership releases.
abbrev pub given_up : OwnershipType → List ℕ → List ℕ
given_up ownership_none xs = []
given_up ownership_shallow xs = []
given_up ownership_deep xs = xs

pub fill_vector-map :
    {CppType : Type 0} (tr : TypeTraits CppType) (xs zs : List ℕ)
    → fill_vector tr (length xs) (xs ++ zs) ≡ some (map tr.to_cpp_type xs)
unfolding fill_vector
fill_vector-map tr [] zs = refl
fill_vector-map tr (c ∷ xs) zs = rw (fill_vector-map tr xs zs)

module _ (g : ArrayMemory) where
  -- The memory behind the destruction of an owner.
  abbrev pub memory_after : OwnershipType → g.Memory → ℕ → g.Memory
  memory_after ownership_none m p = m
  memory_after ownership_shallow m p = g.g_free m p
  memory_after ownership_deep m p = g.g_free m p

  abbrev pub world_after : OwnershipType → Storage g.Memory → ℕ → List ℕ → Storage g.Memory
  world_after o w p xs = in_memory (memory_after o w.memory p) (w.released ++ given_up o xs)

  pub destroy_array_keeper-world_after :
      (w : Storage g.Memory) (p n : ℕ) (o : OwnershipType) (xs : List ℕ)
      → g.array w.memory p ≡ some xs
      → n ≤ length xs
      → destroy_array_keeper g w (array_keeper p n o) ≡ some (world_after o w p (take n xs))
  unfolding destroy_array_keeper release_array free_array
  destroy_array_keeper-world_after w p n ownership_none xs e h =
      ap (λ r. some (record { memory = w.memory; released = r })) (sym (append-nil w.released))
  destroy_array_keeper-world_after w p n ownership_shallow xs e h = rw e (
      ap (λ r. some (record { memory = g.g_free w.memory p; released = r }))
        (sym (append-nil w.released)))
  destroy_array_keeper-world_after w p n ownership_deep xs e h =
      rw (e, release_elements-take n xs w.released h, e)

  pub array_to_vector_sized-world_after :
      {CppType : Type 0} (tr : TypeTraits CppType) (w : Storage g.Memory) (p : ℕ)
      (o : OwnershipType) (xs zs : List ℕ)
      → g.array w.memory p ≡ some (xs ++ zs)
      → array_to_vector_sized g tr w (some p) (length xs) o
        ≡ some (map tr.to_cpp_type xs, world_after o w p xs)
  unfolding array_to_vector_sized
  array_to_vector_sized-world_after tr w p o xs zs e =
      ap (λ a. a >>= λ ys. fill_vector tr (length xs) ys >>= λ v. destroy_all >>= λ u. some (v, u))
        e
      ∙ ap (λ a. a >>= λ v. destroy_all >>= λ u. some (v, u)) (fill_vector-map tr xs zs)
      ∙ ap (λ a. a >>= λ u. some (map tr.to_cpp_type xs, u)) destroyed
    where
      destroy_all : Option (Storage g.Memory)
      destroy_all = destroy_array_keeper g w (array_keeper p (length xs) o)

      destroyed : destroy_all ≡ some (world_after o w p xs)
      destroyed =
          destroy_array_keeper-world_after w p (length xs) o (xs ++ zs) e
            (omega (arith, length-append xs zs))
          ∙ ap (λ t. some (world_after o w p t)) (take-length-append xs zs)

  -- The keepers of an array of at least `n` elements, copied and destroyed in any order, starting
  -- with one that has the given ownership: no destructor reads or frees memory that does not live.
  -- Either nothing has been released and exactly one keeper has the ownership, or no keeper has any
  -- and everything has been released as the ownership says, once and in the order of the array:
  -- nothing, the array, or the array and its first `n` elements.
  pub run-Once_array :
      (w : Storage g.Memory) (p n : ℕ) (o : OwnershipType) (xs : List ℕ) (es : List Event)
      → g.array w.memory p ≡ some xs
      → n ≤ length xs
      → (r : Storage g.Memory × List ArrayKeeper) × (run copy_array_keeper
            (destroy_array_keeper g)
            es
            w
            (array_keeper p n o ∷ [])
          ≡ some r)
        × Once
            (array_keeper p n o)
            (array_keeper p n ownership_none)
            w
            (world_after o w p (take n xs))
            r
  unfolding copy_array_keeper destroy_array_keeper
  run-Once_array w p n o xs es e h =
      run-Once copy_array_keeper (destroy_array_keeper g) (array_keeper p n o)
        (array_keeper p n ownership_none) w (world_after o w p (take n xs)) refl refl (λ v. refl)
        (destroy_array_keeper-world_after w p n o xs e h) es w (array_keeper p n o ∷ [])
        (inl (refl, inl (refl, tt)))
