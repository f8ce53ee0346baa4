-- ===== src/Wrappers/GObject.antt =====
-- What the wrappers need of GObject, by its manual: instances with a count of references and with one
-- pointer under the quark of glibmm, whose destroy function runs when the instance is finalized. An
-- unref() may finalize other instances too, which the first one held.
use glibmm.Base.{ℕ, suc, ◌-◌, ◌<◌, ◌≡◌, ◌⊎◌, Option, none, some, List, [], ◌∷◌, ◌==◌, if◌then◌else◌}

abbrev pub In : ℕ → List ℕ → Type 0
In n [] = ⊥
In n (m ∷ ms) = (n ≡ m) ⊎ In n ms

-- No number is there twice.
abbrev pub IsDistinct : List ℕ → Type 0
IsDistinct [] = Unit
IsDistinct (n ∷ ns) = (In n ns → ⊥) × IsDistinct ns

pub record Objects : Type 1 where
  pub State : Type 0
  pub get_qdata : State → ℕ → Option ℕ
  pub steal_qdata : State → ℕ → State
  pub set_qdata_full : State → ℕ → ℕ → State
  pub ref : State → ℕ → State
  -- The new state, and the pointers that the destroy function is called with.
  pub unref : State → ℕ → State × List ℕ
  -- The references to an instance, 0 once it is finalized.
  pub refs : State → ℕ → ℕ
  pub steal-get :
      (s : State) (o p : ℕ)
      → get_qdata (steal_qdata s o) p ≡ (if o == p then none else get_qdata s p)
  pub steal-refs : (s : State) (o p : ℕ) → refs (steal_qdata s o) p ≡ refs s p
  -- A pointer that was there would have its destroy function called.
  pub set-get :
      (s : State) (o w p : ℕ)
      → get_qdata s o ≡ none
      → 0 < refs s o
      → get_qdata (set_qdata_full s o w) p ≡ (if o == p then some w else get_qdata s p)
  pub set-refs : (s : State) (o w p : ℕ) → refs (set_qdata_full s o w) p ≡ refs s p
  pub ref-get : (s : State) (o p : ℕ) → 0 < refs s o → get_qdata (ref s o) p ≡ get_qdata s p
  pub ref-refs :
      (s : State) (o p : ℕ)
      → 0 < refs s o
      → refs (ref s o) p ≡ (if o == p then suc (refs s p) else refs s p)
  -- More than one reference: only the count changes.
  pub unref-many :
      (s : State) (o p : ℕ)
      → 1 < refs s o
      → refs (unref s o).0 p ≡ (if o == p then refs s p - 1 else refs s p)
  pub unref-last : (s : State) (o : ℕ) → refs s o ≡ 1 → refs (unref s o).0 o ≡ 0
  -- Instances that live on keep their pointer, others have none.
  pub unref-kept :
      (s : State) (o p : ℕ)
      → 0 < refs s o
      → 0 < refs (unref s o).0 p
      → get_qdata (unref s o).0 p ≡ get_qdata s p
  pub unref-gone :
      (s : State) (o p : ℕ)
      → 0 < refs s o
      → refs (unref s o).0 p ≡ 0
      → get_qdata (unref s o).0 p ≡ none
  -- The destroy function is called once for each pointer of an instance that is finalized.
  pub unref-notified :
      (s : State) (o p w : ℕ)
      → 0 < refs s o
      → get_qdata s p ≡ some w
      → refs (unref s o).0 p ≡ 0
      → In w (unref s o).1
  pub notified-unref :
      (s : State) (o w : ℕ)
      → 0 < refs s o
      → In w (unref s o).1
      → (p : ℕ) × (get_qdata s p ≡ some w) × (refs (unref s o).0 p ≡ 0)
  pub unref-IsDistinct : (s : State) (o : ℕ) → 0 < refs s o → IsDistinct (unref s o).1
