-- ===== src/Containers/Copies.antt =====
-- Copies of a keeper. The copy constructor takes the ownership from its source, so that one keeper
-- of a container owns it at most, whatever the order of copies and destructions.
use glibmm.Base.{
  ℕ, zero, suc, ◌≡◌, refl, ap, ◌∙◌, ◌⊎◌, inl, inr, Option, some, List, [], ◌∷◌, ◌++◌, All,
  All-append,
}
use glibmm.Containers.Memory.{◌>>=◌}

-- The keepers that live are numbered in the order of their construction.
pub data Event : Type 0 where
  copied : ℕ → Event
  destroyed : ℕ → Event

module _ {K : Type 0} (copy : K → K × K) where
  -- The source after the copy stays in its place, and the copy comes last. Where no keeper lives,
  -- nothing happens.
  pub copy_nth : ℕ → List K → List K
  copy_nth i [] = []
  copy_nth zero (k ∷ ks) = (copy k).0 ∷ (ks ++ (copy k).1 ∷ [])
  copy_nth (suc i) (k ∷ ks) = k ∷ copy_nth i ks

module _ {K W : Type 0} (destroy : W → K → Option W) where
  pub destroy_nth : ℕ → W → List K → Option (W × List K)
  destroy_nth i w [] = some (w, [])
  destroy_nth zero w (k ∷ ks) = destroy w k >>= λ w'. some (w', ks)
  destroy_nth (suc i) w (k ∷ ks) = destroy_nth i w ks >>= λ r. some (r.0, k ∷ r.1)

module _ {K W : Type 0} (copy : K → K × K) (destroy : W → K → Option W) where
  unfoldable pub run : List Event → W → List K → Option (W × List K)
  unfolding copy_nth destroy_nth
  run [] w ks = some (w, ks)
  run (copied i ∷ es) w ks = run es w (copy_nth copy i ks)
  run (destroyed i ∷ es) w ks = destroy_nth destroy i w ks >>= λ r. run es r.0 r.1

module _ {K : Type 0} (owner spent : K) where
  abbrev pub Spent : List K → Type 0
  Spent ks = All (λ k. k ≡ spent) ks

  -- Exactly one keeper owns the container.
  abbrev pub Owned : List K → Type 0
  Owned [] = ⊥
  Owned (k ∷ ks) = ((k ≡ owner) × Spent ks) ⊎ ((k ≡ spent) × Owned ks)

  Owned-append : (ks : List K) → Spent ks → Owned (ks ++ owner ∷ [])
  Owned-append [] s = inl (refl, tt)
  Owned-append (k ∷ ks) (e, s) = inr (e, Owned-append ks s)

  Owned-append_spent : (ks : List K) → Owned ks → Owned (ks ++ spent ∷ [])
  Owned-append_spent [] h = absurd h
  Owned-append_spent (k ∷ ks) (inl (e, s)) = inl (e, All-append _ ks (spent ∷ []) s (refl, tt))
  Owned-append_spent (k ∷ ks) (inr (e, h)) = inr (e, Owned-append_spent ks h)

  -- Either the container is as it was and has one owner, or it has been given up.
  abbrev pub Once : {W : Type 0} → W → W → W × List K → Type 0
  Once before after r = ((r.0 ≡ before) × Owned r.1) ⊎ ((r.0 ≡ after) × Spent r.1)

module _ {K : Type 0} (copy : K → K × K) (owner spent : K)
    (copy-owner : copy owner ≡ (spent, owner)) (copy-spent : copy spent ≡ (spent, spent)) where
  copy_nth-Spent :
      (i : ℕ) (ks : List K) → Spent owner spent ks → Spent owner spent (copy_nth copy i ks)
  unfolding copy_nth
  copy_nth-Spent i [] s = tt
  copy_nth-Spent zero (k ∷ ks) (e, s) =
      rw (e, copy-spent) (refl, All-append _ ks (spent ∷ []) s (refl, tt))
  copy_nth-Spent (suc i) (k ∷ ks) (e, s) = (e, copy_nth-Spent i ks s)

  copy_nth-Owned :
      (i : ℕ) (ks : List K) → Owned owner spent ks → Owned owner spent (copy_nth copy i ks)
  unfolding copy_nth
  copy_nth-Owned i [] h = h
  copy_nth-Owned zero (k ∷ ks) (inl (e, s)) =
      rw (e, copy-owner) (inr (refl, Owned-append owner spent ks s))
  copy_nth-Owned zero (k ∷ ks) (inr (e, h)) =
      rw (e, copy-spent) (inr (refl, Owned-append_spent owner spent ks h))
  copy_nth-Owned (suc i) (k ∷ ks) (inl (e, s)) = inl (e, copy_nth-Spent i ks s)
  copy_nth-Owned (suc i) (k ∷ ks) (inr (e, h)) = inr (e, copy_nth-Owned i ks h)

module _ {K W : Type 0} (destroy : W → K → Option W) (owner spent : K)
    (destroy-spent : (w : W) → destroy w spent ≡ some w) where
  destroy_nth-Spent :
      (i : ℕ) (w : W) (ks : List K)
      → Spent owner spent ks
      → (rest : List K) × (destroy_nth destroy i w ks ≡ some (w, rest)) × Spent owner spent rest
  unfolding destroy_nth
  destroy_nth-Spent i w [] s = ([], refl, tt)
  destroy_nth-Spent zero w (k ∷ ks) (e, s) =
      (ks, ap (λ k. destroy w k >>= λ w'. some (w', ks)) e ∙ rw (destroy-spent w), s)
  destroy_nth-Spent (suc i) w (k ∷ ks) (e, s) =
      let (rest, q, t) = destroy_nth-Spent i w ks s in (k ∷ rest, rw q, (e, t))

  destroy_nth-Owned :
      (before after : W) (i : ℕ) (ks : List K)
      → destroy before owner ≡ some after
      → Owned owner spent ks
      → (r : W × List K) × (destroy_nth destroy i before ks ≡ some r)
        × Once owner spent before after r
  unfolding destroy_nth
  destroy_nth-Owned before after i [] d h = absurd h
  destroy_nth-Owned before after zero (k ∷ ks) d (inl (e, s)) =
      ((after, ks), ap (λ k. destroy before k >>= λ w'. some (w', ks)) e ∙ rw d, inr (refl, s))
  destroy_nth-Owned before after zero (k ∷ ks) d (inr (e, h)) = (
    (before, ks),
    ap (λ k. destroy before k >>= λ w'. some (w', ks)) e ∙ rw (destroy-spent before),
    inl (refl, h),
  )
  destroy_nth-Owned before after (suc i) (k ∷ ks) d (inl (e, s)) =
      let (rest, q, t) = destroy_nth-Spent i before ks s in
      ((before, k ∷ rest), rw q, inl (refl, inl (e, t)))
  destroy_nth-Owned before after (suc i) (k ∷ ks) d (inr (e, h)) =
      let (r, q, t) = destroy_nth-Owned before after i ks d h in ((r.0, k ∷ r.1), rw q, more r t)
    where
      more :
          (r : W × List K)
          → Once owner spent before after r
          → Once owner spent before after (r.0, k ∷ r.1)
      more r (inl (a, o)) = inl (a, inr (e, o))
      more r (inr (a, s)) = inr (a, (e, s))

module _ {K W : Type 0} (copy : K → K × K) (destroy : W → K → Option W) (owner spent : K)
    (before after : W) (copy-owner : copy owner ≡ (spent, owner))
    (copy-spent : copy spent ≡ (spent, spent)) (destroy-spent : (w : W) → destroy w spent ≡ some w)
    (destroy-owner : destroy before owner ≡ some after) where
  -- The keepers that are left after any copies and destructions.
  pub run-Once :
      (es : List Event) (w : W) (ks : List K)
      → Once owner spent before after (w, ks)
      → (r : W × List K) × (run copy destroy es w ks ≡ some r) × Once owner spent before after r
  unfolding run
  run-Once [] w ks h = ((w, ks), refl, h)
  run-Once (copied i ∷ es) w ks (inl (e, h)) =
      run-Once es w (copy_nth copy i ks)
        (inl (e, copy_nth-Owned copy owner spent copy-owner copy-spent i ks h))
  run-Once (copied i ∷ es) w ks (inr (e, h)) =
      run-Once es w (copy_nth copy i ks)
        (inr (e, copy_nth-Spent copy owner spent copy-owner copy-spent i ks h))
  run-Once (destroyed i ∷ es) w ks (inl (e, h)) =
      let (r, q, t) =
        destroy_nth-Owned destroy owner spent destroy-spent before after i ks destroy-owner h in
      let (s, p, u) = run-Once es r.0 r.1 t in
      (
        s,
        ap (λ w. destroy_nth destroy i w ks >>= λ r. run copy destroy es r.0 r.1) e
            ∙ ap (λ r. r >>= λ r. run copy destroy es r.0 r.1) q
            ∙ p,
        u,
      )
  run-Once (destroyed i ∷ es) w ks (inr (e, h)) =
      let (rest, q, t) = destroy_nth-Spent destroy owner spent destroy-spent i w ks h in
      let (s, p, u) = run-Once es w rest (inr (e, t)) in
      (s, ap (λ r. r >>= λ r. run copy destroy es r.0 r.1) q ∙ p, u)
