-- ===== src/MainLoop/Query.antt =====
-- MainContext::query() of glib/glibmm/main.cc, on the vector `fds`. g_main_context_query() is a
-- parameter: it fills a buffer of the given length and returns how many entries it has for it, which may
-- be more. The nth call of the loop may answer otherwise than the one before, as other threads add sources.
use glibmm.Base.{
  ℕ, zero, suc, ◌+◌, ◌-◌, ◌≡◌, ◌≤◌, true, false, List, [], ◌∷◌, ◌++◌, Option, none, some, leb,
  if◌then◌else◌, length, length-append, length-take, length-replicate, take_all, take-length-append,
  append-nil, take, drop, replicate, arith, inl, inr, subst, Bool-cases, ◌∙◌,
}

module _ (Fd : Type 0) (blank : Fd) (answer : ℕ → List Fd) where
  -- The buffer behind a call: what fits of the answer, and the rest as it was.
  fill : List Fd → List Fd → List Fd
  fill fds entries = take (length fds) entries ++ drop (length entries) fds

  -- std::vector::resize()
  resize : List Fd → ℕ → List Fd
  resize fds n = take n fds ++ replicate (n - length fds) blank

  query_loop : ℕ → ℕ → List Fd → Option (List Fd)
  query_loop zero call fds = none
  query_loop (suc fuel) call fds =
      let size_before = length fds in
      let size_needed = length (answer call) in
      let resized = resize (fill fds (answer call)) size_needed in
      let again = query_loop fuel (suc call) resized in
      if leb size_needed size_before then some resized else again

  start : List Fd → List Fd
  start [] = replicate 8 blank
  start (fd ∷ fds) = fd ∷ fds

  pub query : ℕ → List Fd → Option (List Fd)
  unfolding query_loop start resize fill
  query fuel fds = query_loop fuel 0 (start fds)

  length-resize : (fds : List Fd) (n : ℕ) → length (resize fds n) ≡ n
  unfolding resize
  length-resize fds n =
      rw
        (
          length-append (take n fds) (replicate (n - length fds) blank),
          length-take n fds,
          length-replicate (n - length fds) blank,
        )
        (omega arith)

  -- A buffer that is long enough receives the whole answer, and nothing else is left in it.
  resize-fill :
      (fds entries : List Fd)
      → length entries ≤ length fds
      → resize (fill fds entries) (length entries) ≡ entries
  unfolding fill resize
  resize-fill fds entries h =
      let none_added : length entries - length (entries ++ drop (length entries) fds) ≡ 0 =
        omega (arith, length-append entries (drop (length entries) fds)) in
      rw (
        take_all (length fds) entries h,
        take-length-append entries (drop (length entries) fds),
        none_added,
        append-nil entries,
      )

  loop_fits :
      (fuel call : ℕ) (fds : List Fd)
      → length (answer call) ≤ length fds
      → query_loop (suc fuel) call fds ≡ some (answer call)
  unfolding query_loop
  loop_fits fuel call fds h =
      let e : leb (length (answer call)) (length fds) ≡ true = ground arith in
      rw (e, resize-fill fds (answer call) h)

  resized : ℕ → List Fd → List Fd
  resized call fds = resize (fill fds (answer call)) (length (answer call))

  length-resized : (call : ℕ) (fds : List Fd) → length (resized call fds) ≡ length (answer call)
  unfolding resized
  length-resized call fds = length-resize (fill fds (answer call)) (length (answer call))

  loop_grows :
      (fuel call : ℕ) (fds : List Fd)
      → leb (length (answer call)) (length fds) ≡ false
      → query_loop (suc fuel) call fds ≡ query_loop fuel (suc call) (resized call fds)
  unfolding query_loop resized
  loop_grows fuel call fds e = rw e

  loop_stable :
      (k call n : ℕ) (fds : List Fd)
      → n ≡ call + k
      → length (answer (suc n)) ≤ length (answer n)
      → (j : ℕ) × (j ≤ suc n) × (query_loop (suc (suc k)) call fds ≡ some (answer j))
  loop_stable zero call n fds e h = elim (Bool-cases (leb (length (answer call)) (length fds))) [
    | inl fits ↦ (call, omega arith, loop_fits 1 call fds (ground arith))
    | inr grows ↦
        let same : n ≡ call = omega arith in
        let next : length (answer (suc call)) ≤ length (resized call fds) =
          rw (length-resized call fds)
            (subst (λ m. length (answer (suc m)) ≤ length (answer m)) same h) in
        (
          suc call,
          omega arith,
          loop_grows 1 call fds grows ∙ loop_fits 0 (suc call) (resized call fds) next,
        )
  ]
  loop_stable (suc k) call n fds e h =
      let (j, le, rest) = loop_stable k (suc call) n (resized call fds) (omega arith) h in
      elim (Bool-cases (leb (length (answer call)) (length fds))) [
        | inl fits ↦ (call, omega arith, loop_fits (suc (suc k)) call fds (ground arith))
        | inr grows ↦ (j, le, loop_grows (suc (suc k)) call fds grows ∙ rest)
      ]

  -- If the number of entries needed does not grow from some call to the next, the loop ends with that
  -- next call or before, and `fds` is exactly the answer to the last call made.
  pub query-stable :
      (fds : List Fd) (k : ℕ)
      → length (answer (suc k)) ≤ length (answer k)
      → (j : ℕ) × (j ≤ suc k) × (query (suc (suc k)) fds ≡ some (answer j))
  unfolding query
  query-stable fds k h = loop_stable k 0 k (start fds) (omega arith) h
