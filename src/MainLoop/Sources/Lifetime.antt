-- ===== src/MainLoop/Sources/Lifetime.antt =====
-- The Source is deleted when both sides have let it go.
use glibmm.Base.{
  none-some, ℕ, zero, suc, ◌+◌, ◌-◌, ◌<◌, ◌≤◌, ◌≡◌, refl, ap, subst, ◌∙◌, Bool, true, false, Option,
  none, some, err, undefined_behaviour, sym, ok, ◌>>=◌, map_ok, ◌==◌, if◌then◌else◌, arith,
}
use glibmm.MainLoop.Sources.{
  GSource, mark_destroyed, g_source_destroy, SourceConnectionNode, SourceCallbackData, Source,
  World, set_at, create_source, read_source, keep_less, set_source, free_gsource, set_data,
  set_nodes, destroy_notify_callback2, delete_at, delete_node, destroy_data_at, destroy_data, when,
  with_gsource,
}

-- What keeps the Source: its users, and the callback data.
abbrev pub held : Option Source → ℕ
held none = 0
held (some s) = if s.ref_count_ == 0 then 0 else 1

abbrev pub linked : Option SourceCallbackData → ℕ
linked none = 0
linked (some d) = if d.wrapper then 1 else 0

-- `keep_wrapper_` counts them; without either the Source is deleted.
abbrev pub Keeps : Option Source → ℕ → Type 0
Keeps none n = n ≡ 0
Keeps (some s) n = (s.keep_wrapper_ ≡ n) × (0 < n)

abbrev pub NodeExists : (ℕ → Option SourceConnectionNode) → Option SourceCallbackData → Type 0
NodeExists nodes none = Unit
NodeExists nodes (some d) =
    (n : ℕ) → d.node ≡ some n → (c : SourceConnectionNode) × (nodes n ≡ some c)

-- The reference to the GSource is dropped when the users are gone, and only then, and the GSource is freed
-- behind that and behind the callback data.
pub record IsKept (t : World) : Type 0 where
  pub keeps : Keeps t.source (held t.source + linked t.callback_data)
  pub node : NodeExists t.nodes t.callback_data
  pub dropped : t.unrefs + held t.source ≡ 1
  pub freed : t.gsource.is_there ≡ false → (t.callback_data ≡ none) × (t.unrefs ≡ 1)

pub create_source-IsKept : IsKept create_source
unfolding create_source
create_source-IsKept = record {
  keeps = (refl, omega arith);
  node = λ n e. absurd (none-some e);
  dropped = refl;
  freed = λ e. cc;
}

-- One of two that keep the Source lets it go.
pub keep_less-Keeps :
    (t : World) (s : Source) (n : ℕ)
    → s.keep_wrapper_ ≡ suc n
    → held (some s) ≤ n
    → (r : Option Source) × (keep_less t s ≡ set_source t r) × Keeps r n × (held r ≡ held (some s))
unfolding keep_less
keep_less-Keeps t s zero e h = (none, rw e, refl, omega (arith, h))
keep_less-Keeps t s (suc n) e h = (
  some (record s { keep_wrapper_ = s.keep_wrapper_ - 1 }),
  if_more _ _ s.keep_wrapper_ (omega arith),
  (omega arith, omega arith),
  refl,
)
  where
    if_more : {A : Type 0} (x y : A) (k : ℕ) → 1 < k → (if k == 1 then x else y) ≡ y
    if_more x y k l = ground arith

pub delete_node-eq :
    (t : World) (i : Option ℕ)
    → ((n : ℕ) → i ≡ some n → (c : SourceConnectionNode) × (t.nodes n ≡ some c))
    → (nodes : ℕ → Option SourceConnectionNode) × (delete_node t i ≡ ok (set_nodes t nodes))
unfolding delete_node delete_at
delete_node-eq t none f = (t.nodes, refl)
delete_node-eq t (some n) f = let (c, e) = f n refl in (set_at t.nodes n none, rw e)

-- The destruction of the callback data.
abbrev pub Destroys : World → World → Type 0
Destroys t u =
    (destroy_data t ≡ ok u)
    × (u.callback_data ≡ none)
    × (u.unrefs ≡ t.unrefs)
    × (u.gsource ≡ t.gsource)
    × IsKept u

abbrev pub world :
    GSource
    → Option Source
    → Option SourceCallbackData
    → (ℕ → Option SourceConnectionNode)
    → ℕ
    → World
world gsource source d nodes unrefs = record {
  gsource = gsource;
  source = source;
  callback_data = d;
  nodes = nodes;
  unrefs = unrefs;
}

abbrev pub data_of : Bool → Option ℕ → SourceCallbackData
data_of w i = record { wrapper = w; node = i }

destroyed-IsKept :
    (alive : GSource) (source : Option Source) (w : Bool) (i : Option ℕ)
    (nodes : ℕ → Option SourceConnectionNode) (unrefs : ℕ)
    → IsKept (world alive source (some (data_of w i)) nodes unrefs)
    → (u : World) × Destroys (world alive source (some (data_of w i)) nodes unrefs) u
unfolding destroy_data destroy_data_at destroy_notify_callback2 read_source
destroyed-IsKept alive source false i nodes unrefs k =
    let t = world alive source (some (data_of false i)) nodes unrefs in
    let (nodes', c) = delete_node-eq t i k.node in
    (
      world alive source none nodes' unrefs,
      (
        ap (λ r. r >>= λ u. map_ok (λ v. set_data v none) (destroy_notify_callback2 u false)) c,
        refl,
        refl,
        refl,
        record {
          keeps = k.keeps;
          node = tt;
          dropped = k.dropped;
          freed = λ e. (refl, (k.freed e).1);
        },
      ),
    )
destroyed-IsKept alive none true i nodes unrefs k = absurd (omega (arith, k.keeps))
destroyed-IsKept alive (some s) true i nodes unrefs k =
    let t = world alive (some s) (some (data_of true i)) nodes unrefs in
    let (nodes', c) = delete_node-eq t i k.node in
    let (r, c', ks, hs) =
      keep_less-Keeps (world alive (some s) (some (data_of true i)) nodes' unrefs) s (held (some s))
        (omega (arith, k.keeps)) (omega arith) in
    (
      world alive r none nodes' unrefs,
      (
        ap (λ r. r >>= λ u. map_ok (λ v. set_data v none) (destroy_notify_callback2 u true)) c
            ∙ ap (λ v. ok (set_data v none)) c',
        refl,
        refl,
        refl,
        record {
          keeps = subst (Keeps r) (omega (arith, hs)) ks;
          node = tt;
          dropped = ap (λ n. unrefs + n) hs ∙ k.dropped;
          freed = λ e. (refl, (k.freed e).1);
        },
      ),
    )

-- Whether GLib calls the destroy function, which it does while there is callback data.
abbrev pub CanNotify : Bool → World → Type 0
CanNotify false t = Unit
CanNotify true t = (d : SourceCallbackData) × (t.callback_data ≡ some d)

-- Whether GLib frees the GSource, which it does when nobody has a reference, not without calling the
-- destroy function before.
abbrev pub CanFree : Bool → Bool → World → Type 0
CanFree frees true t = Unit
CanFree false false t = Unit
CanFree true false t = t.callback_data ≡ none

-- The Source has dropped its reference by then.
abbrev pub IsDropped : Bool → World → Type 0
IsDropped false t = Unit
IsDropped true t = t.unrefs ≡ 1

free_gsource-IsKept :
    (t : World) (frees : Bool)
    → IsKept t
    → IsDropped frees t
    → CanFree frees false t
    → IsKept (free_gsource frees t)
free_gsource-IsKept t false k d f = k
free_gsource-IsKept t true k d f = record {
  keeps = k.keeps;
  node = k.node;
  dropped = k.dropped;
  freed = λ e. (f, d);
}

free_gsource-unrefs : (t : World) (frees : Bool) → (free_gsource frees t).unrefs ≡ t.unrefs
free_gsource-unrefs t false = refl
free_gsource-unrefs t true = refl

without_data : (frees : Bool) (t : World) → t.callback_data ≡ none → CanFree frees false t
without_data false t e = tt
without_data true t e = e

pub transfer-IsDropped :
    (frees : Bool) (t u : World) → u.unrefs ≡ t.unrefs → IsDropped frees t → IsDropped frees u
transfer-IsDropped false t u e d = tt
transfer-IsDropped true t u e d = e ∙ d

pub when-IsKept :
    (t : World) (notifies frees : Bool)
    → IsKept t
    → CanNotify notifies t
    → CanFree frees notifies t
    → IsDropped frees t
    → (u : World) × (when notifies frees t ≡ ok u) × (u.unrefs ≡ t.unrefs) × IsKept u
unfolding when
when-IsKept t false frees k n f d =
    (free_gsource frees t, refl, free_gsource-unrefs t frees, free_gsource-IsKept t frees k d f)
when-IsKept t true frees k (d, e) f g =
    let (u, (c, gone, count, same, k')) = go t.callback_data e k in
    (
      free_gsource frees u,
      ap (map_ok (free_gsource frees)) c,
      free_gsource-unrefs u frees ∙ count,
      free_gsource-IsKept u frees k' (transfer-IsDropped frees t u count g)
          (without_data frees u gone),
    )
  where
    go :
        (o : Option SourceCallbackData)
        → o ≡ some d
        → IsKept (world t.gsource t.source o t.nodes t.unrefs)
        → (u : World) × Destroys (world t.gsource t.source o t.nodes t.unrefs) u
    go none q k = absurd (none-some q)
    go (some d') q k = destroyed-IsKept t.gsource t.source d'.wrapper d'.node t.nodes t.unrefs k

pub transfer :
    (notifies : Bool) (t u : World)
    → t.callback_data ≡ u.callback_data
    → CanNotify notifies t
    → CanNotify notifies u
transfer false t u e n = tt
transfer true t u e (d, q) = (d, sym e ∙ q)

pub transfer_free :
    (frees notifies : Bool) (t u : World)
    → t.callback_data ≡ u.callback_data
    → CanFree frees notifies t
    → CanFree frees notifies u
transfer_free false false t u e f = tt
transfer_free false true t u e f = tt
transfer_free true true t u e f = tt
transfer_free true false t u e f = sym e ∙ f

-- g_source_destroy() of a GSource that is there.
pub g_source_destroy-IsKept :
    (t : World) (notifies frees : Bool)
    → IsKept t
    → t.gsource.is_there ≡ true
    → CanNotify notifies t
    → CanFree frees notifies t
    → IsDropped frees t
    → (u : World) × (g_source_destroy t notifies frees ≡ ok u) × IsKept u
unfolding g_source_destroy with_gsource
g_source_destroy-IsKept t notifies frees k there can f g =
    let m = mark_destroyed t in
    let k' : IsKept m = record {
      keeps = k.keeps;
      node = k.node;
      dropped = k.dropped;
      freed = k.freed;
    } in
    let (u, c, count, k2) =
      when-IsKept m notifies frees k' (transfer notifies t m refl can)
        (transfer_free frees notifies t m refl f) (transfer-IsDropped frees t m refl g) in
    (u, ap (λ b. if b then when notifies frees m else err undefined_behaviour) there ∙ c, k2)
