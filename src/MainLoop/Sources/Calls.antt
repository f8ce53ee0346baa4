-- ===== src/MainLoop/Sources/Calls.antt =====
-- What the users of a Source, its connections and GLib do in any order.
use glibmm.Base.{
  none-some, ℕ, ◌+◌, ◌<◌, ◌≡◌, refl, sym, ap, subst, ◌∙◌, inl, inr, Bool, true, false, Option, none,
  some, Result, ok, ◌>>=◌, map_ok, if◌then◌else◌, arith, Bool-cases,
}
use glibmm.MainLoop.Sources.{
  GSource, g_source_destroy, SourceConnectionNode, SourceCallbackData, Source, World, set_at,
  read_source, set_source, set_nodes, when, reference_source, unreference_source, connect_generic,
  notify_at, notify, destroy_source,
}
use glibmm.MainLoop.Sources.Lifetime.{
  CanFree, IsDropped, transfer-IsDropped, held, linked, IsKept, world, CanNotify, when-IsKept,
  transfer, transfer_free, g_source_destroy-IsKept,
}
use glibmm.MainLoop.Sources.Unreferenced.{held-alive, unreference_at}
use glibmm.MainLoop.Sources.Connections.{there, set_nodes-IsKept, connects-IsKept}

-- The operations on a Source. Its users hold a reference while they use it, a node is new or one that
-- exists, GLib destroys the GSource, calls the destroy function of the callback data while that is there,
-- and frees the GSource behind the last reference and the callback data.
abbrev pub HasUser : World → Type 0
HasUser t = (s : Source) × (t.source ≡ some s) × (0 < s.ref_count_)

-- A node from which no freed GSource is reached: that of the callback data, one without a GSource, or any
-- while the GSource is there.
pub data IsSafe (t : World) (n : ℕ) (c : SourceConnectionNode) : Type 0 where
  current : (d : SourceCallbackData) → t.callback_data ≡ some d → d.node ≡ some n → IsSafe t n c
  cleared : c.source_ ≡ false → IsSafe t n c
  not_freed : t.gsource.is_there ≡ true → IsSafe t n c

pub data Call : World → Result World → Type 0 where
  references : (t : World) → HasUser t → Call t (reference_source t)
  unreferences :
      (t : World) (notifies frees : Bool)
      → HasUser t
      → CanNotify notifies t
      → CanFree frees notifies t
      → Call t (unreference_source t notifies frees)
  connects : (t : World) (n : ℕ) → HasUser t → t.nodes n ≡ none → Call t (connect_generic t n)
  disconnects :
      (t : World) (n : ℕ) (notifies frees : Bool) (c : SourceConnectionNode)
      → t.nodes n ≡ some c
      → IsSafe t n c
      → CanNotify notifies t
      → CanFree frees notifies t
      → IsDropped frees t
      → Call t (notify t n notifies frees)
  destroys :
      (t : World) (notifies frees : Bool)
      → HasUser t
      → CanNotify notifies t
      → CanFree frees notifies t
      → IsDropped frees t
      → Call t (destroy_source t notifies frees)
  destroyed :
      (t : World) (notifies frees : Bool)
      → t.gsource.is_there ≡ true
      → CanNotify notifies t
      → CanFree frees notifies t
      → IsDropped frees t
      → Call t (g_source_destroy t notifies frees)
  released :
      (t : World) (notifies frees : Bool)
      → CanNotify notifies t
      → CanFree frees notifies t
      → IsDropped frees t
      → Call t (when notifies frees t)

read_source-eq : (t : World) (s : Source) → t.source ≡ some s → read_source t.source ≡ ok s
unfolding read_source
read_source-eq t s e = rw e

pub with_source :
    (t : World) (s : Source)
    → t.source ≡ some s
    → IsKept t
    → IsKept (world t.gsource (some s) t.callback_data t.nodes t.unrefs)
with_source t s e k = subst (λ o. IsKept (world t.gsource o t.callback_data t.nodes t.unrefs)) e k

references-IsKept :
    (alive : GSource) (s : Source) (d : Option SourceCallbackData)
    (nodes : ℕ → Option SourceConnectionNode) (unrefs : ℕ)
    → 0 < s.ref_count_
    → IsKept (world alive (some s) d nodes unrefs)
    → IsKept (world alive (some (record s { ref_count_ = s.ref_count_ + 1 })) d nodes unrefs)
references-IsKept alive s d nodes unrefs live k =
    let h : held (some (record s { ref_count_ = s.ref_count_ + 1 })) ≡ held (some s) =
      ground arith in
    record {
      keeps = (k.keeps.0 ∙ ap (λ n. n + linked d) (sym h), omega (arith, k.keeps, h));
      node = k.node;
      dropped = ap (λ n. unrefs + n) h ∙ k.dropped;
      freed = k.freed;
    }

IsSafe-alive :
    (t : World) (n : ℕ) (c : SourceConnectionNode)
    → IsKept t
    → IsSafe t n c
    → c.source_ ≡ true
    → t.gsource.is_there ≡ true
IsSafe-alive t n c k (current d e q) there = elim (Bool-cases t.gsource.is_there) [
  | inl alive ↦ alive
  | inr dead ↦ absurd (none-some (sym (k.freed dead).0 ∙ e))
]
IsSafe-alive t n c k (cleared e) there = cc
IsSafe-alive t n c k (not_freed e) there = e

disconnects-IsKept :
    (t : World) (n : ℕ) (notifies frees : Bool) (c : SourceConnectionNode)
    → t.nodes n ≡ some c
    → IsSafe t n c
    → CanNotify notifies t
    → CanFree frees notifies t
    → IsDropped frees t
    → IsKept t
    → (u : World) × (notify t n notifies frees ≡ ok u) × IsKept u
unfolding notify notify_at
disconnects-IsKept t n notifies frees c e safe can f g k = elim (Bool-cases c.source_) [
  | inl there ↦
      let u' = set_nodes t (set_at t.nodes n (some (record { source_ = false }))) in
      let (u, q, k') =
        g_source_destroy-IsKept u' notifies frees
          (set_nodes-IsKept t n (record { source_ = false }) k) (IsSafe-alive t n c k safe there)
          (transfer notifies t u' refl can) (transfer_free frees notifies t u' refl f)
          (transfer-IsDropped frees t u' refl g) in
      (
        u,
        ap (notify_at t n notifies frees) e
            ∙ ap (λ b. if b then g_source_destroy u' notifies frees else ok t) there
            ∙ q,
        k',
      )
  | inr gone ↦ (
    t,
    ap (notify_at t n notifies frees) e
        ∙ ap
            (λ b.
              if b
              then g_source_destroy
                  (set_nodes t (set_at t.nodes n (some (record { source_ = false })))) notifies
                  frees
              else ok t)
            gone,
    k,
  )
]

pub user-alive : (t : World) → IsKept t → HasUser t → t.gsource.is_there ≡ true
user-alive t k (s, e, live) = held-alive t k (ap held e ∙ ground arith)

pub there_eq : (t : World) → t.gsource.is_there ≡ true → t.gsource ≡ there t.gsource.is_destroyed
there_eq t e = ap (λ b. record { is_there = b; is_destroyed = t.gsource.is_destroyed }) e

-- Every operation succeeds, whenever GLib calls the destroy function and frees the GSource: no deleted
-- Source, callback data, node or GSource is used, and no node is deleted twice. A slot is disconnected
-- only if its node is that of the callback data, has no GSource any more, or has one that is not freed.
-- The Source is there exactly as long as it has users or callback data that knows it, and its one
-- reference to the GSource is dropped exactly when it has no users any more.
pub Call-IsKept :
    (t : World) (r : Result World) → IsKept t → Call t r → (u : World) × (r ≡ ok u) × IsKept u
unfolding reference_source destroy_source
Call-IsKept t r k (references _ (s, e, live)) = (
  _,
  ap (map_ok (λ s. set_source t (some (record s { ref_count_ = s.ref_count_ + 1 }))))
      (read_source-eq t s e),
  references-IsKept t.gsource s t.callback_data t.nodes t.unrefs live (with_source t s e k),
)
Call-IsKept t r k (unreferences _ notifies frees (s, e, live) can f) =
    let t' = world t.gsource (some s) t.callback_data t.nodes t.unrefs in
    let (u, c, k', count) =
      unreference_at t.gsource s t.callback_data t.nodes t.unrefs notifies frees
        (with_source t s e k) live (transfer notifies t t' refl can)
        (transfer_free frees notifies t t' refl f) in
    (
      u,
      ap
            (λ x.
              unreference_source (world t.gsource x t.callback_data t.nodes t.unrefs) notifies
                frees)
            e
          ∙ c,
      k',
    )
Call-IsKept t r k (connects _ n (s, e, live) free) =
    let b = t.gsource.is_destroyed in
    let a = there_eq t (user-alive t k (s, e, live)) in
    let (u, c, k') = connects-IsKept b s t.callback_data t.nodes t.unrefs n (
      subst (λ m. IsKept (world m (some s) t.callback_data t.nodes t.unrefs)) a
        (with_source t s e k)) in
    (
      u,
      ap (λ x. connect_generic (world t.gsource x t.callback_data t.nodes t.unrefs) n) e
          ∙ ap (λ m. connect_generic (world m (some s) t.callback_data t.nodes t.unrefs) n) a
          ∙ c,
      k',
    )
Call-IsKept t r k (disconnects _ n notifies frees c e safe can f g) =
    disconnects-IsKept t n notifies frees c e safe can f g k
Call-IsKept t r k (destroys _ notifies frees (s, e, live) can f g) =
    let (u, c, k') =
      g_source_destroy-IsKept t notifies frees k (user-alive t k (s, e, live)) can f g in
    (u, ap (λ r. r >>= λ s. g_source_destroy t notifies frees) (read_source-eq t s e) ∙ c, k')
Call-IsKept t r k (destroyed _ notifies frees there can f g) =
    g_source_destroy-IsKept t notifies frees k there can f g
Call-IsKept t r k (released _ notifies frees can f g) =
    let (u, c, count, k') = when-IsKept t notifies frees k can f g in (u, c, k')
