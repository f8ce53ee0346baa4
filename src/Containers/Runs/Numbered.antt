-- ===== src/Containers/Runs/Numbered.antt =====
-- Memory where an address is the number of the allocations before it, and a cell that has been
-- freed stays empty.
use glibmm.Base.{
  ℕ, zero, suc, ◌≡◌, ◌≢◌, refl, sym, ap, ◌∙◌, Option, some, none, List, [], ◌∷◌, ◌++◌, length,
  replicate, length-replicate, ◌==◌, if◌then◌else◌, arith,
}
use glibmm.Containers.Memory.{set, ArrayMemory, ListMemory}

module _ {A : Type 0} where
  abbrev cell : List (Option A) → ℕ → Option A
  cell [] p = none
  cell (c ∷ m) zero = c
  cell (c ∷ m) (suc p) = cell m p

  abbrev add : List (Option A) → A → List (Option A)
  add m c = m ++ some c ∷ []

  abbrev change : List (Option A) → ℕ → (Option A → Option A) → List (Option A)
  change [] p f = []
  change (c ∷ m) zero f = f c ∷ m
  change (c ∷ m) (suc p) f = c ∷ change m p f

  pub add-fresh : (m : List (Option A)) → cell m (length m) ≡ none
  add-fresh [] = refl
  add-fresh (c ∷ m) = add-fresh m

  pub add-new : (m : List (Option A)) (c : A) → cell (add m c) (length m) ≡ some c
  add-new [] c = refl
  add-new (d ∷ m) c = add-new m c

  pub add-old : (m : List (Option A)) (c : A) (p : ℕ) → p ≢ length m → cell (add m c) p ≡ cell m p
  add-old [] c zero d = absurd (d refl)
  add-old [] c (suc p) d = refl
  add-old (x ∷ m) c zero d = refl
  add-old (x ∷ m) c (suc p) d = add-old m c p (λ e. d (ap suc e))

  pub change-same :
      (m : List (Option A)) (p : ℕ) (f : Option A → Option A)
      → f none ≡ none
      → cell (change m p f) p ≡ f (cell m p)
  change-same [] p f h = sym h
  change-same (c ∷ m) zero f h = refl
  change-same (c ∷ m) (suc p) f h = change-same m p f h

  pub change-other :
      (m : List (Option A)) (p q : ℕ) (f : Option A → Option A)
      → p ≢ q
      → cell (change m p f) q ≡ cell m q
  change-other [] p q f d = refl
  change-other (c ∷ m) zero zero f d = absurd (d refl)
  change-other (c ∷ m) zero (suc q) f d = refl
  change-other (c ∷ m) (suc p) zero f d = refl
  change-other (c ∷ m) (suc p) (suc q) f d = change-other m p q f (λ e. d (ap suc e))

  pub change-none :
      (m : List (Option A)) (p q : ℕ)
      → cell (change m p (λ c. none)) q ≡ (if p == q then none else cell m q)
  change-none [] p q = ground arith
  change-none (c ∷ m) zero zero = refl
  change-none (c ∷ m) zero (suc q) = ground arith
  change-none (c ∷ m) (suc p) zero = ground arith
  change-none (c ∷ m) (suc p) (suc q) = ground (arith, change-none m p q)

abbrev changed : ℕ → ℕ → Option (List ℕ) → Option (List ℕ)
changed i c none = none
changed i c (some xs) = some (set xs i c)

abbrev pub numbered_arrays : ArrayMemory
numbered_arrays = record {
  Memory = List (Option (List ℕ));
  array = cell;
  g_malloc = λ m n. (add m (replicate n 0), length m);
  g_free = λ m p. change m p (λ c. none);
  assign = λ m p i c. change m p (changed i c);
  malloc-new = λ m n. (replicate n 0, add-new m (replicate n 0), length-replicate n 0);
  malloc-fresh = λ m n. add-fresh m;
  malloc-old = λ m n p d. add-old m (replicate n 0) p d;
  free-array = change-none;
  assign-same = λ m p i c xs e h. change-same m p (changed i c) refl ∙ ap (changed i c) e;
  assign-other = λ m p q i c d. change-other m p q (changed i c) d;
}

abbrev free_first : List (Option (ℕ × Option ℕ)) → Option ℕ → List (Option (ℕ × Option ℕ))
free_first m none = m
free_first m (some p) = change m p (λ c. none)

-- A list whose first node is freed is gone for all who would read it.
abbrev pub numbered_nodes : ListMemory
numbered_nodes = record {
  Memory = List (Option (ℕ × Option ℕ));
  node = cell;
  prepend = λ m l c. (add m (c, l), length m);
  free_list = free_first;
  prepend-fresh = λ m l c. add-fresh m;
  prepend-new = λ m l c. add-new m (c, l);
  prepend-old = λ m l c p d. add-old m (c, l) p d;
  free-head = λ m p. change-same m p (λ c. none) refl;
}
