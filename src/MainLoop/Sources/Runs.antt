-- ===== src/MainLoop/Sources/Runs.antt =====
-- A new Source whose user goes away: GLib keeps the callback data, releases it, and frees the GSource. And a
-- Source that was destroyed.
use glibmm.Base.{◌≡◌, ◌>>=◌, refl, true, false, none, some, ok, err, undefined_behaviour, arith}
use glibmm.MainLoop.Sources.{
  Source, World, create_source, read_source, keep_less, destroy_notify_callback2, delete_node,
  destroy_data_at, destroy_data, when, with_gsource, g_source_destroy, unreference_source,
  connect_generic, notify, destroy_source,
}
use glibmm.MainLoop.Sources.Lifetime.{IsKept, create_source-IsKept, data_of, world}
use glibmm.MainLoop.Sources.Calls.{Call, unreferences, Call-IsKept}
use glibmm.MainLoop.Sources.Connections.{there}
use glibmm.MainLoop.Sources.Dangling.{disconnect-dangles}

create_source-unreferences : Call create_source (unreference_source create_source true true)
unfolding create_source
create_source-unreferences =
    unreferences create_source true true
      (record { keep_wrapper_ = 2; ref_count_ = 1 }, refl, omega arith) (data_of true none, refl) tt

Call-IsKept_example : (u : World) × (unreference_source create_source true true ≡ ok u) × IsKept u
Call-IsKept_example =
    Call-IsKept create_source (unreference_source create_source true true) create_source-IsKept
      create_source-unreferences

abbrev one_user : Source
one_user = record { keep_wrapper_ = 1; ref_count_ = 1 }

abbrev destroyed : World
destroyed = world (there true) (some one_user) none (λ n. none) 0

create_source-destroyed : destroy_source create_source true false ≡ ok destroyed
unfolding create_source destroy_source read_source g_source_destroy with_gsource when destroy_data
    destroy_data_at delete_node destroy_notify_callback2 keep_less
create_source-destroyed = refl

destroyed-IsKept : IsKept destroyed
destroyed-IsKept = record {
  keeps = (refl, omega arith);
  node = tt;
  dropped = refl;
  freed = λ e. cc;
}

disconnect-dangles_example :
    (connect_generic destroyed 5 >>= λ u.
    unreference_source u false true >>= λ v. notify v 5 false false)
    ≡ err undefined_behaviour
disconnect-dangles_example = disconnect-dangles destroyed one_user 5 destroyed-IsKept refl refl refl
