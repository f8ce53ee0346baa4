-- ===== src/Containers/Arrays/Creation.antt =====
-- The arrays that create_array() makes, and their length, glib/glibmm/vectorutils.h.
use mathlib.Core.List.{map}
use glibmm.Base.{
  ℕ, zero, suc, ◌+◌, ◌≤◌, ◌<◌, ◌≡◌, ◌≢◌, refl, sym, ap, ◌∙◌, some, List, [], ◌∷◌, ◌++◌, length,
  none, length-append, drop, append_assoc, lt→ltb, All, ne→not-==, arith,
}
use glibmm.Containers.Memory.{◌>>=◌, TypeTraits, ArrayMemory, set}
use glibmm.Containers.Arrays.{assign_element, fill_array, create_array, count_elements}

set-length : (ys : List ℕ) (z c : ℕ) (zs : List ℕ) → set (ys ++ z ∷ zs) (length ys) c ≡ ys ++ c ∷ zs
set-length [] z c zs = refl
set-length (y ∷ ys) z c zs = ap (◌∷◌ y) (set-length ys z c zs)

last_one : (n : ℕ) (xs : List ℕ) → length xs ≡ n + 1 → (z : ℕ) × (drop n xs ≡ z ∷ [])
last_one zero [] h = absurd (omega arith)
last_one zero (x ∷ []) h = (x, refl)
last_one zero (x ∷ y ∷ xs) h = absurd (omega arith)
last_one (suc n) [] h = absurd (omega arith)
last_one (suc n) (x ∷ xs) h = last_one n xs (omega arith)

pub length-map : {A : Type 0} (f : A → ℕ) (v : List A) → length (map f v) ≡ length v
length-map f [] = refl
length-map f (x ∷ v) = ap suc (length-map f v)

pub count_elements-length :
    (xs zs : List ℕ) (n : ℕ)
    → All (λ c. c ≢ 0) xs
    → count_elements (xs ++ 0 ∷ zs) n ≡ some (n + length xs)
unfolding count_elements
count_elements-length [] zs n h = ap some (omega arith)
count_elements-length (c ∷ xs) zs n (d, h) =
    rw (ne→not-== c 0 d) (count_elements-length xs zs (n + 1) h ∙ ap some (omega arith))

module _ {CppType : Type 0} (tr : TypeTraits CppType) where
  abbrev pub terminated : List CppType → List ℕ
  terminated v = map tr.to_c_type v ++ 0 ∷ []

module _ (g : ArrayMemory) where
  -- The array at `p` has the contents, and the other ones are as they were.
  abbrev pub Written : g.Memory → ℕ → List ℕ → g.Memory → Type 0
  Written m p xs m' = (g.array m' p ≡ some xs) × ((q : ℕ) → p ≢ q → g.array m' q ≡ g.array m q)

  assign_element-Written :
      (m : g.Memory) (p c : ℕ) (ys : List ℕ) (z : ℕ) (zs : List ℕ)
      → g.array m p ≡ some (ys ++ z ∷ zs)
      → (m' : g.Memory) × (assign_element g m p (length ys) c ≡ some m')
        × Written m p (ys ++ c ∷ zs) m'
  unfolding assign_element
  assign_element-Written m p c ys z zs e = (
    g.assign m p (length ys) c,
    rw (e, lt→ltb _ _ inside),
    (
      g.assign-same m p (length ys) c _ e inside ∙ ap some (set-length ys z c zs),
      λ q d. g.assign-other m p q (length ys) c d,
    ),
  )
    where
      inside : length ys < length (ys ++ z ∷ zs)
      inside = omega (arith, length-append ys (z ∷ zs))

  module _ {CppType : Type 0} (tr : TypeTraits CppType) where
    fill_array-Written :
        (m : g.Memory) (p i : ℕ) (ys : List ℕ) (v : List CppType) (zs : List ℕ)
        → g.array m p ≡ some (ys ++ zs)
        → i ≡ length ys
        → length v ≤ length zs
        → (m' : g.Memory) × (fill_array g tr m p i (length v) v ≡ some m')
          × Written m p (ys ++ (map tr.to_c_type v ++ drop (length v) zs)) m'
    unfolding fill_array
    fill_array-Written m p i ys [] zs e k h = (m, refl, (e, λ q d. refl))
    fill_array-Written m p i ys (x ∷ v) [] e k h = absurd (omega arith)
    fill_array-Written m p i ys (x ∷ v) (z ∷ zs) e k h =
        let c : ℕ = tr.to_c_type x in
        let (m1, q, (there, others)) = assign_element-Written m p c ys z zs e in
        let (m2, r, (filled, rest)) =
          fill_array-Written m1 p (i + 1) (ys ++ c ∷ []) v zs
            (there ∙ ap some (sym (append_assoc ys (c ∷ []) zs)))
            (omega (arith, k, length-append ys (c ∷ []))) (omega arith) in
        (
          m2,
          ap (λ j. assign_element g m p j c >>= λ m'. fill_array g tr m' p (i + 1) (length v) v) k
              ∙ ap (λ s. s >>= λ m'. fill_array g tr m' p (i + 1) (length v) v) q
              ∙ r,
          (
            filled ∙ ap some (append_assoc ys (c ∷ []) (map tr.to_c_type v ++ drop (length v) zs)),
            λ q d. rest q d ∙ others q d,
          ),
        )

    -- A fresh array with the C values of the vector's elements and a 0 behind them.
    pub create_array-terminated :
        (m : g.Memory) (v : List CppType)
        → (r : g.Memory × ℕ) × (create_array g tr m v (length v) ≡ some r)
          × (g.array r.0 r.1 ≡ some (terminated tr v))
          × (g.array m r.1 ≡ none)
          × ((q : ℕ) → r.1 ≢ q → g.array r.0 q ≡ g.array m q)
    unfolding create_array
    create_array-terminated m v =
        let (xs, fresh, count) = g.malloc-new m (length v + 1) in
        let (m1, q, (there, others)) =
          fill_array-Written made p 0 [] v xs fresh refl (omega (arith, count)) in
        let (z, one) = last_one (length v) xs count in
        let (m2, r, (ended, rest)) =
          assign_element-Written m1 p 0 (map tr.to_c_type v) z []
            (there ∙ ap (λ t. some (map tr.to_c_type v ++ t)) one) in
        (
          (m2, p),
          ap (λ r. r >>= λ m'. assign_element g m' p (length v) 0 >>= λ e. some (e, p)) q
              ∙ ap (λ j. assign_element g m1 p j 0 >>= λ e. some (e, p))
                  (sym (length-map tr.to_c_type v))
              ∙ ap (λ r. r >>= λ e. some (e, p)) r,
          ended,
          g.malloc-fresh m (length v + 1),
          λ o d. rest o d ∙ others o d ∙ g.malloc-old m (length v + 1) o (λ e. d (sym e)),
        )
      where
        p : ℕ
        p = (g.g_malloc m (length v + 1)).1

        made : g.Memory
        made = (g.g_malloc m (length v + 1)).0
