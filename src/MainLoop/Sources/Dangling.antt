-- ===== src/MainLoop/Sources/Dangling.antt =====
-- A slot that is connected to a Source whose GSource is destroyed.
use glibmm.Base.{
  Bool, ℕ, ◌≡◌, refl, ap, ◌∙◌, true, false, Option, none, some, err, undefined_behaviour, Result,
  ◌>>=◌, arith, ==_refl,
}
use glibmm.MainLoop.Sources.{
  SourceConnectionNode, Source, World, read_source, when, with_gsource, g_source_destroy,
  unreference_source, set_node_at, count_less, destroy_notify_callback2, keep_less, connect_generic,
  notify_at, notify,
}
use glibmm.MainLoop.Sources.Lifetime.{held, linked, IsKept, world}
use glibmm.MainLoop.Sources.Calls.{there_eq, with_source, user-alive}
use glibmm.MainLoop.Sources.Connections.{there}

abbrev connect_late : ℕ → World → Result World
connect_late n t =
    connect_generic t n >>= λ u. unreference_source u false true >>= λ v. notify v n false false

abbrev last_user : Source
last_user = record { keep_wrapper_ = 1; ref_count_ = 1 }

connect_late-err :
    (b : Bool) (nodes : ℕ → Option SourceConnectionNode) (unrefs n : ℕ)
    → connect_late n (world (there b) (some last_user) none nodes unrefs) ≡ err undefined_behaviour
unfolding connect_generic set_node_at read_source with_gsource unreference_source count_less
    destroy_notify_callback2 keep_less when notify notify_at g_source_destroy
connect_late-err true nodes unrefs n = rw (==_refl n) refl
connect_late-err false nodes unrefs n = rw (==_refl n) refl

-- The callback data is gone, as after destroy(). A slot that is connected then gets a node with the GSource;
-- if the last user goes and the GSource is freed, disconnecting the slot destroys the freed GSource.
pub disconnect-dangles :
    (t : World) (s : Source) (n : ℕ)
    → IsKept t
    → t.source ≡ some s
    → s.ref_count_ ≡ 1
    → t.callback_data ≡ none
    → (connect_generic t n >>= λ u. unreference_source u false true >>= λ v. notify v n false false)
      ≡ err undefined_behaviour
disconnect-dangles t s n k e one gone =
    ap (λ m. connect_late n (world m t.source t.callback_data t.nodes t.unrefs))
      (there_eq t (user-alive t k (s, e, omega (arith, one))))
    ∙ ap
        (λ x.
          connect_late n (world (there t.gsource.is_destroyed) x t.callback_data t.nodes t.unrefs))
        (e ∙ ap some last)
    ∙ ap
        (λ d.
          connect_late n (world (there t.gsource.is_destroyed) (some last_user) d t.nodes t.unrefs))
        gone
    ∙ connect_late-err t.gsource.is_destroyed t.nodes t.unrefs n
  where
    keep : s.keep_wrapper_ ≡ 1
    keep =
        let z : linked t.callback_data ≡ 0 = ap linked gone in
        let h : held (some s) ≡ 1 = ground arith in omega (arith, (with_source t s e k).keeps, z, h)

    last : s ≡ last_user
    last =
        ap (λ x. record { keep_wrapper_ = x; ref_count_ = s.ref_count_ }) keep
        ∙ ap (λ x. record { keep_wrapper_ = 1; ref_count_ = x }) one
