-- ===== src/Containers/Lists/Release.antt =====
-- Lists that become vectors, and what the keepers of a list release, glib/glibmm/vectorutils.h.
use mathlib.Core.List.{map}
use glibmm.Base.{
  ℕ, zero, suc, ◌≤◌, ◌≡◌, refl, sym, ap, ◌∙◌, inl, Option, some, none, List, [], ◌∷◌, ◌++◌, length,
  append_assoc, append-nil, arith,
}
use glibmm.Containers.Memory.{
  OwnershipType, ownership_none, ownership_shallow, ownership_deep, TypeTraits, Storage, in_memory,
  ListMemory,
}
use glibmm.Containers.Copies.{Event, run, Once, run-Once}
use glibmm.Containers.Lists.{
  GListKeeper, copy_glist_keeper, release_nodes, free_glist, release_glist, destroy_glist,
  destroy_glist_keeper, fill_nodes, list_to_vector,
}
use glibmm.Containers.Lists.Chain.{Chain}
use glibmm.Containers.Arrays.Release.{given_up}

abbrev pub list_keeper : Option ℕ → OwnershipType → GListKeeper
list_keeper l o = record { glist_ = l; ownership_ = o }

given_up-nil : (o : OwnershipType) → given_up o [] ≡ []
given_up-nil ownership_none = refl
given_up-nil ownership_shallow = refl
given_up-nil ownership_deep = refl

module _ (g : ListMemory) where
  release_nodes-append :
      (fuel : ℕ) (m : g.Memory) (l : Option ℕ) (xs released : List ℕ)
      → length xs ≤ fuel
      → Chain g m l xs
      → release_nodes g fuel m l released ≡ some (released ++ xs)
  unfolding release_nodes
  release_nodes-append fuel m l [] released h c = rw c (ap some (sym (append-nil released)))
  release_nodes-append zero m l (x ∷ xs) released h c = absurd (omega arith)
  release_nodes-append (suc fuel) m l (x ∷ xs) released h (p, next, e, here, rest) =
      rw (e, here)
        (release_nodes-append fuel m next xs (released ++ x ∷ []) (omega arith) rest
          ∙ ap some (append_assoc released (x ∷ []) xs))

  fill_nodes-map :
      {CppType : Type 0} (tr : TypeTraits CppType) (fuel : ℕ) (m : g.Memory) (l : Option ℕ)
      (xs : List ℕ)
      → length xs ≤ fuel
      → Chain g m l xs
      → fill_nodes g tr fuel m l ≡ some (map tr.to_cpp_type xs)
  unfolding fill_nodes
  fill_nodes-map tr fuel m l [] h c = rw c
  fill_nodes-map tr zero m l (x ∷ xs) h c = absurd (omega arith)
  fill_nodes-map tr (suc fuel) m l (x ∷ xs) h (p, next, e, here, rest) =
      rw (e, here, fill_nodes-map tr fuel m next xs (omega arith) rest)

  -- The memory behind the destruction of an owner.
  abbrev pub memory_after : OwnershipType → g.Memory → Option ℕ → g.Memory
  memory_after o m none = m
  memory_after ownership_none m (some p) = m
  memory_after ownership_shallow m (some p) = g.free_list m (some p)
  memory_after ownership_deep m (some p) = g.free_list m (some p)

  abbrev pub world_after : OwnershipType → Storage g.Memory → Option ℕ → List ℕ → Storage g.Memory
  world_after o w l xs = record {
    memory = memory_after o w.memory l;
    released = w.released ++ given_up o xs;
  }

  kept :
      (m : g.Memory) (released : List ℕ)
      → some (in_memory m released) ≡ some (in_memory m (released ++ []))
  kept m released = ap (λ r. some (in_memory m r)) (sym (append-nil released))

  pub destroy_glist-world_after :
      (fuel : ℕ) (w : Storage g.Memory) (l : Option ℕ) (o : OwnershipType) (xs : List ℕ)
      → length xs ≤ fuel
      → Chain g w.memory l xs
      → destroy_glist g fuel w l o ≡ some (world_after o w l xs)
  unfolding destroy_glist release_glist free_glist
  destroy_glist-world_after fuel w l o [] h c = rw (c, given_up-nil o) (kept w.memory w.released)
  destroy_glist-world_after fuel w l ownership_none (x ∷ xs) h (p, next, e, here, rest) =
      rw e (kept w.memory w.released)
  destroy_glist-world_after fuel w l ownership_shallow (x ∷ xs) h (p, next, e, here, rest) =
      rw (e, here) (kept (g.free_list w.memory (some p)) w.released)
  destroy_glist-world_after fuel w l ownership_deep (x ∷ xs) h (p, next, e, here, rest) = rw (
    e,
    release_nodes-append fuel w.memory (some p) (x ∷ xs) w.released h (p, next, refl, here, rest),
    here,
  )

  pub list_to_vector-world_after :
      {CppType : Type 0} (tr : TypeTraits CppType) (fuel : ℕ) (w : Storage g.Memory) (l : Option ℕ)
      (o : OwnershipType) (xs : List ℕ)
      → length xs ≤ fuel
      → Chain g w.memory l xs
      → list_to_vector g tr fuel w l o ≡ some (map tr.to_cpp_type xs, world_after o w l xs)
  unfolding list_to_vector destroy_glist_keeper
  list_to_vector-world_after tr fuel w l o xs h c =
      rw (fill_nodes-map tr fuel w.memory l xs h c, destroy_glist-world_after fuel w l o xs h c)

  -- The keepers of a list that ends, copied and destroyed in any order, starting with one that has
  -- the given ownership: every destructor comes to its end, and none of them reads or frees a node
  -- that does not live. Either nothing has been released and exactly one keeper has the ownership,
  -- or no keeper has any and everything has been released as the ownership says, once and in the
  -- order of the list.
  pub run-Once_list :
      (fuel : ℕ) (w : Storage g.Memory) (l : Option ℕ) (o : OwnershipType) (xs : List ℕ)
      (es : List Event)
      → length xs ≤ fuel
      → Chain g w.memory l xs
      → (r : Storage g.Memory × List GListKeeper) × (run copy_glist_keeper
            (destroy_glist_keeper g fuel)
            es
            w
            (list_keeper l o ∷ [])
          ≡ some r)
        × Once (list_keeper l o) (list_keeper l ownership_none) w (world_after o w l xs) r
  unfolding copy_glist_keeper destroy_glist_keeper
  run-Once_list fuel w l o xs es h c =
      run-Once copy_glist_keeper (destroy_glist_keeper g fuel) (list_keeper l o)
        (list_keeper l ownership_none) w (world_after o w l xs) refl refl (disowned l)
        (destroy_glist-world_after fuel w l o xs h c) es w (list_keeper l o ∷ [])
        (inl (refl, inl (refl, tt)))
    where
      disowned :
          (l : Option ℕ) (v : Storage g.Memory)
          → destroy_glist_keeper g fuel v (list_keeper l ownership_none) ≡ some v
      disowned none v = refl
      disowned (some p) v = refl
