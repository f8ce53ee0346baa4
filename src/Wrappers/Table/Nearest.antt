-- ===== src/Wrappers/Table/Nearest.antt =====
-- Which function wraps an instance of a type.
use glibmm.Base.{
  get_elem?-append, get_elem?-length, ℕ, zero, suc, ◌<◌, ◌%◌, ◌^◌, ◌≡◌, ◌≢◌, refl, sym, ap, subst,
  ◌∙◌, ◌⊎◌, inl, inr, Bool, true, false, List, [], ◌∷◌, ◌++◌, Option, none, some, ok, ◌==◌, length,
  get_elem?, arith, Bool-cases, ==_eq,
}
use glibmm.Wrappers.Notification.{ℕ-cases}
use glibmm.Wrappers.References.{if_same, if_other}
use glibmm.Wrappers.Table.{
  Types, Registry, set_index, register_in, wrap_register, function_at, wrap_loop, find_wrap_new,
}

-- The function that a type has itself.
abbrev pub join : Option (Option ℕ) → Option ℕ
join none = none
join (some f) = f

abbrev pub own : List (Option ℕ) → (ℕ → ℕ) → ℕ → Option ℕ
own table qdata t = join (get_elem? table (qdata t))

-- The first element is empty, and every index that a type has is that of a function.
pub record IsTable (table : List (Option ℕ)) (qdata : ℕ → ℕ) : Type 0 where
  pub first : get_elem? table 0 ≡ some none
  pub filled : (t : ℕ) → qdata t ≢ 0 → (f : ℕ) × (get_elem? table (qdata t) ≡ some (some f))

-- The function of the nearest ancestor that has one and meets a condition.
pub data Nearest (types : Types) (table : List (Option ℕ)) (qdata : ℕ → ℕ) (meets : ℕ → Bool)
    : ℕ → Option ℕ → Type 0 where
  nothing : Nearest types table qdata meets 0 none
  here :
      (t f : ℕ)
      → t ≢ 0
      → own table qdata t ≡ some f
      → meets t ≡ true
      → Nearest types table qdata meets t (some f)
  above :
      (t : ℕ) (r : Option ℕ)
      → t ≢ 0
      → (own table qdata t ≡ none) ⊎ (meets t ≡ false)
      → Nearest types table qdata meets (types.parent t) r
      → Nearest types table qdata meets t r

module _ (types : Types) (table : List (Option ℕ)) (qdata : ℕ → ℕ) (meets : ℕ → Bool)
    (good : IsTable table qdata) where
  own-zero : (t : ℕ) → qdata t ≡ 0 → own table qdata t ≡ none
  own-zero t e = ap (λ i. join (get_elem? table i)) e ∙ ap join good.first

  step-Nearest :
      (fuel t : ℕ) (r : Option ℕ)
      → t ≢ 0
      → (t == 0) ≡ false
      → wrap_loop types table qdata meets fuel (types.parent t) ≡ some (ok r)
      → Nearest types table qdata meets (types.parent t) r
      → (r' : Option ℕ) × (wrap_loop types table qdata meets (suc fuel) t ≡ some (ok r'))
        × Nearest types table qdata meets t r'
  unfolding wrap_loop function_at
  step-Nearest fuel t r d e c n = elim (Bool-cases (qdata t == 0)) [
    | inl none_here ↦
        (r, rw (e, none_here, c), above t r d (inl (own-zero t (==_eq (qdata t) 0 none_here))) n)
    | inr index ↦ elim (Bool-cases (meets t)) [
      | inl ready ↦
          let (f, k) = good.filled t (λ q. ground arith) in
          (some f, rw (e, index, ready, k), here t f d (ap join k) ready)
      | inr unready ↦ (r, rw (e, index, unready, c), above t r d (inr unready) n)
    ]
  ]

  loop-Nearest :
      (fuel t : ℕ)
      → types.depth t < fuel
      → (r : Option ℕ) × (wrap_loop types table qdata meets fuel t ≡ some (ok r))
        × Nearest types table qdata meets t r
  unfolding wrap_loop
  loop-Nearest zero t h = absurd (omega arith)
  loop-Nearest (suc fuel) t h = elim (Bool-cases (t == 0)) [
    | inl e ↦ (
      none,
      rw e,
      subst (λ x. Nearest types table qdata meets x none) (sym (==_eq t 0 e)) nothing,
    )
    | inr e ↦
        let d : t ≢ 0 = λ q. ground arith in
        let (r, c, n) =
          loop-Nearest fuel (types.parent t) (ground (arith, types.depth-parent t d)) in
        step-Nearest fuel t r d e c n
  ]

  -- The loop over the ancestors ends, calls no empty element, and finds the function of the nearest
  -- ancestor that has one and meets the condition, or finds that there is none.
  pub find_wrap_new-Nearest :
      (t : ℕ)
      → (r : Option ℕ) × (find_wrap_new types table qdata meets t ≡ some (ok r))
        × Nearest types table qdata meets t r
  unfolding find_wrap_new
  find_wrap_new-Nearest t = loop-Nearest (suc (types.depth t)) t (omega arith)

-- Registering a function for a type keeps the table in order: the type has the function, whatever it
-- had before, and the other types have what they had.
abbrev pub IsRegistered : List (Option ℕ) → (ℕ → ℕ) → ℕ → ℕ → Registry → Type 0
IsRegistered table qdata type func r =
    (table' : List (Option ℕ)) × (r.wrap_func_table ≡ some table')
    × IsTable table' r.qdata
    × (own table' r.qdata type ≡ some func)
    × ((t : ℕ) → type ≢ t → own table' r.qdata t ≡ own table qdata t)

module _ (table : List (Option ℕ)) (qdata : ℕ → ℕ) (type func : ℕ)
    (good : IsTable table qdata) where
  new_table : List (Option ℕ)
  new_table = table ++ some func ∷ []

  index_other : (t : ℕ) → type ≢ t → set_index qdata type (length table) t ≡ qdata t
  index_other t d = if_other type t (length table) (qdata t) d

  kept_own : (t i : ℕ) → qdata t ≡ i → get_elem? new_table (qdata t) ≡ get_elem? table (qdata t)
  unfolding new_table
  kept_own t zero e =
      ap (get_elem? new_table) e
      ∙ get_elem?-append table _ 0 none good.first
      ∙ sym good.first
      ∙ ap (get_elem? table) (sym e)
  kept_own t (suc i) e =
      let (f, k) = good.filled t (λ z. absurd (omega (arith, e, z))) in
      get_elem?-append table (some func ∷ []) (qdata t) (some f) k ∙ sym k

  new_function : get_elem? new_table (set_index qdata type (length table) type) ≡ some (some func)
  unfolding new_table
  new_function =
      ap (get_elem? new_table) (if_same type type (length table) (qdata type) refl)
      ∙ get_elem?-length table (some func)

  new_good : IsTable new_table (set_index qdata type (length table))
  unfolding new_table
  new_good = record {
    first = get_elem?-append table _ 0 none good.first;
    filled = λ t z. elim (ℕ-cases type t) [
      | inl q ↦ (
        func,
        ap (λ x. get_elem? new_table (set_index qdata type (length table) x)) (sym q)
            ∙ new_function,
      )
      | inr d ↦
          let (f, k) = good.filled t (λ y. z (index_other t d ∙ y)) in
          (f, ap (get_elem? new_table) (index_other t d) ∙ kept_own t (qdata t) refl ∙ k)
    ];
  }

  pub wrap_register-IsRegistered :
      type ≢ 0
      → length table < 2 ^ 32
      → (r : Registry) × (wrap_register
            (record { wrap_func_table = some table; qdata = qdata })
            type
            func
          ≡ ok r)
        × IsRegistered table qdata type func r
  unfolding wrap_register register_in new_table
  wrap_register-IsRegistered d small =
      let fits : length table % 2 ^ 32 ≡ length table = omega arith in
      (
        record { wrap_func_table = some new_table; qdata = set_index qdata type (length table) },
        rw (if_other type 0 _ _ d, fits),
        (
          new_table,
          refl,
          new_good,
          ap join new_function,
          λ t c. ap join (ap (get_elem? new_table) (index_other t c) ∙ kept_own t (qdata t) refl),
        ),
      )
