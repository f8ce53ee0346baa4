-- ===== src/Containers/Lists.antt =====
-- GListKeeper and ListHandler of glib/glibmm/vectorutils.h. GSListKeeper and SListHandler have the
-- same text over the functions of GSList, which are another interface of nodes. The loops over the
-- nodes of a list run on fuel.
pub mod Chain
pub mod Release
use glibmm.Base.{
  ℕ, zero, suc, Option, none, some, List, [], ◌∷◌, ◌++◌, length, get_elem?, if◌then◌else◌,
}
use glibmm.Containers.Memory.{
  ◌>>=◌, OwnershipType, ownership_none, ownership_shallow, is_none, is_shallow, TypeTraits, Storage,
  ListMemory,
}

pub record GListKeeper : Type 0 where
  pub glist_ : Option ℕ
  pub ownership_ : OwnershipType

-- The copy constructor: what is left of the source, and the copy.
unfoldable pub copy_glist_keeper : GListKeeper → GListKeeper × GListKeeper
copy_glist_keeper keeper = (record keeper { ownership_ = ownership_none }, keeper)

module _ (g : ListMemory) where
  -- The loop of the destructor.
  pub release_nodes : ℕ → g.Memory → Option ℕ → List ℕ → Option (List ℕ)
  release_nodes fuel m none released = some released
  release_nodes zero m (some node) released = none
  release_nodes (suc fuel) m (some node) released =
      g.node m node >>= λ n. release_nodes fuel m n.1 (released ++ n.0 ∷ [])

  -- g_list_free() of a list that is not empty.
  pub free_glist : Storage g.Memory → ℕ → Option (Storage g.Memory)
  free_glist w p =
      g.node w.memory p >>= λ _. some (record w { memory = g.free_list w.memory (some p) })

  pub release_glist : ℕ → Storage g.Memory → ℕ → Option (Storage g.Memory)
  unfolding release_nodes
  release_glist fuel w p =
      release_nodes fuel w.memory (some p) w.released >>= λ r. some (record w { released = r })

  pub destroy_glist : ℕ → Storage g.Memory → Option ℕ → OwnershipType → Option (Storage g.Memory)
  unfolding free_glist release_glist
  destroy_glist fuel w none ownership = some w
  destroy_glist fuel w (some p) ownership =
      if is_none ownership
      then some w
      else ((if is_shallow ownership then some w else release_glist fuel w p) >>= λ v.
          free_glist v p)

  -- The destructor.
  unfoldable pub destroy_glist_keeper :
      ℕ → Storage g.Memory → GListKeeper → Option (Storage g.Memory)
  unfolding destroy_glist
  destroy_glist_keeper fuel w k = destroy_glist fuel w k.glist_ k.ownership_

  module _ {CppType : Type 0} (tr : TypeTraits CppType) where
    -- The loop of create_glist(), with `pend` as an index into the vector.
    pub prepend_all : g.Memory → Option ℕ → List CppType → ℕ → Option (g.Memory × Option ℕ)
    prepend_all m head vector zero = some (m, head)
    prepend_all m head vector (suc pend) = get_elem? vector pend >>= λ item.
        let (m', first) = g.prepend m head (tr.to_c_type item) in
        prepend_all m' (some first) vector pend

    unfoldable pub create_glist : g.Memory → List CppType → Option (g.Memory × Option ℕ)
    unfolding prepend_all
    create_glist m vector = prepend_all m none vector (length vector)

    unfoldable pub vector_to_list : g.Memory → List CppType → Option (g.Memory × GListKeeper)
    unfolding create_glist
    vector_to_list m vector = create_glist m vector >>= λ r.
        some (r.0, record { glist_ = r.1; ownership_ = ownership_shallow })

    -- The vector of the elements from a node up to the end of the list.
    pub fill_nodes : ℕ → g.Memory → Option ℕ → Option (List CppType)
    fill_nodes fuel m none = some []
    fill_nodes zero m (some node) = none
    fill_nodes (suc fuel) m (some node) =
        g.node m node >>= λ n. fill_nodes fuel m n.1 >>= λ rest. some (tr.to_cpp_type n.0 ∷ rest)

    -- list_to_vector(). The keeper is destroyed behind the construction of the vector.
    unfoldable pub list_to_vector :
        ℕ → Storage g.Memory → Option ℕ → OwnershipType → Option (List CppType × Storage g.Memory)
    unfolding destroy_glist_keeper fill_nodes
    list_to_vector fuel w glist ownership =
        let keeper : GListKeeper = record { glist_ = glist; ownership_ = ownership } in
        fill_nodes fuel w.memory glist >>= λ vector.
        destroy_glist_keeper fuel w keeper >>= λ v. some (vector, v)
