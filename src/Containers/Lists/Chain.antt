-- ===== src/Containers/Lists/Chain.antt =====
-- The lists that create_glist() makes, glib/glibmm/vectorutils.h.
use mathlib.Core.List.{map}
use glibmm.Base.{
  ℕ, zero, suc, ◌≤◌, ◌≡◌, refl, sym, ap, ◌∙◌, Option, some, none, none-some, some_eq, List, [], ◌∷◌,
  length, get_elem?, drop, drop_all, get_elem?-some, arith,
}
use glibmm.Containers.Memory.{TypeTraits, ListMemory}
use glibmm.Containers.Lists.{prepend_all, create_glist}

drop-get_elem? :
    {A : Type 0} (v : List A) (i : ℕ) (x : A)
    → get_elem? v i ≡ some x
    → drop i v ≡ x ∷ drop (suc i) v
drop-get_elem? [] i x e = absurd (none-some e)
drop-get_elem? (y ∷ v) zero x e = ap (λ z. z ∷ v) (some_eq e)
drop-get_elem? (y ∷ v) (suc i) x e = drop-get_elem? v i x e

module _ (g : ListMemory) where
  -- The list that starts at `l` has these data, in this order, and it ends.
  abbrev pub Chain : g.Memory → Option ℕ → List ℕ → Type 0
  Chain m l [] = l ≡ none
  Chain m l (c ∷ xs) =
      (p : ℕ) × (next : Option ℕ) × (l ≡ some p) × (g.node m p ≡ some (c, next)) × Chain m next xs

  Chain-prepend :
      (m : g.Memory) (head : Option ℕ) (c : ℕ) (l : Option ℕ) (xs : List ℕ)
      → Chain m l xs
      → Chain (g.prepend m head c).0 l xs
  Chain-prepend m head c l [] h = h
  Chain-prepend m head c l (x ∷ xs) (p, next, e, here, rest) = (
    p,
    next,
    e,
    g.prepend-old m head c p
          (λ q. none-some (sym (g.prepend-fresh m head c) ∙ ap (g.node m) (sym q) ∙ here))
        ∙ here,
    Chain-prepend m head c next xs rest,
  )

  -- A list of the data that was there before is still there.
  abbrev pub Extends : g.Memory → g.Memory → Type 0
  Extends m m' = (l : Option ℕ) (xs : List ℕ) → Chain m l xs → Chain m' l xs

  module _ {CppType : Type 0} (tr : TypeTraits CppType) where
    longer :
        (m : g.Memory) (head : Option ℕ) (v : List CppType) (pend : ℕ) (x : CppType)
        → get_elem? v pend ≡ some x
        → Chain m head (map tr.to_c_type (drop (suc pend) v))
        → Chain
            (g.prepend m head (tr.to_c_type x)).0
            (some (g.prepend m head (tr.to_c_type x)).1)
            (map tr.to_c_type (drop pend v))
    longer m head v pend x e c = rw (drop-get_elem? v pend x e) (
      (g.prepend m head (tr.to_c_type x)).1,
      head,
      refl,
      g.prepend-new m head (tr.to_c_type x),
      Chain-prepend m head (tr.to_c_type x) head _ c,
    )

    prepend_all-Chain :
        (m : g.Memory) (head : Option ℕ) (v : List CppType) (pend : ℕ)
        → pend ≤ length v
        → Chain m head (map tr.to_c_type (drop pend v))
        → (r : g.Memory × Option ℕ) × (prepend_all g tr m head v pend ≡ some r)
          × Chain r.0 r.1 (map tr.to_c_type v)
          × Extends m r.0
    unfolding prepend_all
    prepend_all-Chain m head v zero h c = ((m, head), refl, c, λ l xs k. k)
    prepend_all-Chain m head v (suc pend) h c =
        let (x, e) = get_elem?-some v pend (omega arith) in
        let made : g.Memory × ℕ = g.prepend m head (tr.to_c_type x) in
        let (r, q, d, kept) =
          prepend_all-Chain made.0 (some made.1) v pend (omega arith)
            (longer m head v pend x e c) in
        (r, rw e q, d, λ l xs k. kept l xs (Chain-prepend m head (tr.to_c_type x) l xs k))

    -- A list of the C values of the vector's elements, in their order.
    pub create_glist-Chain :
        (m : g.Memory) (v : List CppType)
        → (r : g.Memory × Option ℕ) × (create_glist g tr m v ≡ some r)
          × Chain r.0 r.1 (map tr.to_c_type v)
          × Extends m r.0
    unfolding create_glist
    create_glist-Chain m v =
        prepend_all-Chain m none v (length v) (omega arith)
          (rw (drop_all (length v) v (omega arith)))
