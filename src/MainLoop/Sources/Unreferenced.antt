-- ===== src/MainLoop/Sources/Unreferenced.antt =====
-- What unreference() does to a Source that has users.
use glibmm.Base.{
  ℕ, ◌+◌, ◌-◌, ◌<◌, ◌≡◌, refl, sym, ap, subst, ◌∙◌, inl, inr, Bool, true, false, Option, some,
  Result, ok, ◌>>=◌, ◌==◌, if◌then◌else◌, arith, Bool-cases, ==_eq,
}
use glibmm.MainLoop.Sources.{
  GSource, SourceConnectionNode, SourceCallbackData, Source, World, read_source, with_gsource,
  count_unref, destroy_notify_callback2, when, count_less, unreference_source,
}
use glibmm.MainLoop.Sources.Lifetime.{
  held, linked, Keeps, IsKept, keep_less-Keeps, world, CanNotify, CanFree, IsDropped, when-IsKept,
  transfer, transfer_free,
}

IsDropped-of : (frees : Bool) (t : World) → t.unrefs ≡ 1 → IsDropped frees t
IsDropped-of false t e = tt
IsDropped-of true t e = e

-- The Source has users, and so its reference to the GSource.
pub held-alive : (t : World) → IsKept t → held t.source ≡ 1 → t.gsource.is_there ≡ true
held-alive t k h = elim (Bool-cases t.gsource.is_there) [
  | inl alive ↦ alive
  | inr dead ↦ absurd (omega (arith, (k.freed dead).1, k.dropped, h))
]

pub with_gsource-eq :
    (t : World) (r : Result World) → t.gsource.is_there ≡ true → with_gsource t r ≡ r
unfolding with_gsource
with_gsource-eq t r e = rw e

pub unreference_at :
    (alive : GSource) (s : Source) (d : Option SourceCallbackData)
    (nodes : ℕ → Option SourceConnectionNode) (unrefs : ℕ) (notifies frees : Bool)
    → IsKept (world alive (some s) d nodes unrefs)
    → 0 < s.ref_count_
    → CanNotify notifies (world alive (some s) d nodes unrefs)
    → CanFree frees notifies (world alive (some s) d nodes unrefs)
    → (u : World) × (unreference_source (world alive (some s) d nodes unrefs) notifies frees ≡ ok u)
      × IsKept u
      × (u.unrefs ≡ (if s.ref_count_ == 1 then unrefs + 1 else unrefs))
unfolding unreference_source count_less read_source destroy_notify_callback2
unreference_at alive s d nodes unrefs notifies frees k live n f =
    elim (Bool-cases (s.ref_count_ == 1)) [
      | inl one ↦
          let s' : Source = record s { ref_count_ = s.ref_count_ - 1 } in
          let e : s.ref_count_ ≡ 1 = ==_eq s.ref_count_ 1 one in
          let z : held (some s') ≡ 0 = ground arith in
          let h : held (some s) ≡ 1 = ground arith in
          let (r, c, ks, hs) =
            keep_less-Keeps (world alive (some s') d nodes unrefs) s' (linked d)
              (omega (arith, k.keeps, h)) (omega (arith, z)) in
          let k' : IsKept (world alive r d nodes (unrefs + 1)) = record {
            keeps = subst (Keeps r) (omega (arith, hs, z)) ks;
            node = k.node;
            dropped = omega (arith, k.dropped, hs, z, h);
            freed = λ e. ((k.freed e).0, omega (arith, (k.freed e).1, k.dropped, h));
          } in
          let (u, c2, count, k2) =
            when-IsKept (world alive r d nodes (unrefs + 1)) notifies frees k'
              (transfer notifies (world alive (some s) d nodes unrefs)
                (world alive r d nodes (unrefs + 1)) refl n)
              (transfer_free frees notifies (world alive (some s) d nodes unrefs)
                (world alive r d nodes (unrefs + 1)) refl f)
              (IsDropped-of frees (world alive r d nodes (unrefs + 1))
                (omega (arith, k.dropped, h))) in
          let fewer = world alive (some s') d nodes unrefs in
          (
            u,
            ap
                  (λ b.
                    if b
                    then (destroy_notify_callback2 fewer true >>= λ v.
                        with_gsource v (when notifies frees (count_unref v)))
                    else ok fewer)
                  one
                ∙ ap (λ v. with_gsource v (when notifies frees (count_unref v))) c
                ∙ with_gsource-eq (world alive r d nodes unrefs)
                    (when notifies frees (world alive r d nodes (unrefs + 1)))
                    (held-alive (world alive (some s) d nodes unrefs) k h)
                ∙ c2,
            k2,
            count ∙ sym (ap (λ b. if b then unrefs + 1 else unrefs) one),
          )
      | inr more ↦
          let s' : Source = record s { ref_count_ = s.ref_count_ - 1 } in
          let h : held (some s') ≡ held (some s) = ground arith in
          (
            world alive (some s') d nodes unrefs,
            rw more,
            record {
              keeps = (k.keeps.0 ∙ ap (λ n. n + linked d) (sym h), omega (arith, k.keeps, h));
              node = k.node;
              dropped = ap (λ n. unrefs + n) h ∙ k.dropped;
              freed = k.freed;
            },
            rw more,
          )
    ]
