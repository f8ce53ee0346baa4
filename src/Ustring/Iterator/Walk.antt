-- ===== src/Ustring/Iterator/Walk.antt =====
-- Iterators over a text stand between code points.
use mathlib.Core.List.{reverse, reverse-append, reverse-cons, reverse-reverse}
use glibmm.Base.{
  ℕ, suc, ◌≡◌, refl, sym, ap, ◌∙◌, List, [], ◌∷◌, ◌++◌, append_assoc, append-nil, ok, ◌>>=◌, arith,
  length, All, All-append, true, false,
}
use glibmm.Utf8.{IsUnichar, IsText, lead, trail, encode}
use glibmm.Utf8.Bounds.{IsCont, trail-IsCont, encode-append}
use glibmm.GlibUtf8.{GlibUtf8, IsGlibUtf8}
use glibmm.Ustring.Unichar.{get_unichar-encode}
use glibmm.Ustring.Iterator.{
  Iterator, advance, steps_on, retreat, dereference, decrement, increment_at, increment, erase_at,
  sequence_loop, sequence_to_string,
}

-- The iterator between two parts of a text.
abbrev pub between : List ℕ → List ℕ → Iterator
between xs ys = record { before = reverse (encode xs); after = encode ys }

advance-append :
    (bs before after : List ℕ)
    → advance (length bs) before (bs ++ after)
      ≡ ok (record { before = reverse bs ++ before; after = after })
unfolding advance
advance-append [] before after = refl
advance-append (b ∷ bs) before after =
    advance-append bs (b ∷ before) after
    ∙ ap (λ t. ok (record { before = t; after = after }))
        (sym (append_assoc (reverse bs) (b ∷ []) before)
          ∙ ap (λ t. t ++ before) (sym (reverse-cons b bs)))

before-snoc :
    (xs : List ℕ) (c : ℕ)
    → reverse (encode (xs ++ c ∷ [])) ≡ reverse (lead c ∷ trail c) ++ reverse (encode xs)
before-snoc xs c =
    ap reverse
      (encode-append xs (c ∷ []) ∙ ap (λ t. encode xs ++ lead c ∷ t) (append-nil (trail c)))
    ∙ reverse-append (encode xs) (lead c ∷ trail c)

lead-steps_on : (c : ℕ) → IsUnichar c → steps_on (lead c) ≡ false
unfolding steps_on lead
lead-steps_on c h = ground arith

IsCont-steps_on : (b : ℕ) → IsCont b → steps_on b ≡ true
unfolding steps_on
IsCont-steps_on b h = ground arith

retreat-append :
    (bs before after : List ℕ) (c : ℕ)
    → All IsCont bs
    → IsUnichar c
    → retreat (bs ++ lead c ∷ before) after
      ≡ ok (record { before = before; after = lead c ∷ (reverse bs ++ after) })
unfolding retreat
retreat-append [] before after c k h = rw (lead-steps_on c h)
retreat-append (b ∷ bs) before after c (kb, k) h = rw (
  IsCont-steps_on b kb,
  retreat-append bs before (b ∷ after) c k h,
  reverse-cons b bs,
  append_assoc,
)

All-reverse : (bs : List ℕ) → All IsCont bs → All IsCont (reverse bs)
All-reverse [] h = tt
All-reverse (b ∷ bs) (k, h) =
    rw (reverse-cons b bs) (All-append IsCont (reverse bs) (b ∷ []) (All-reverse bs h) (k, tt))

-- Back over a code point, and reading it: `--it` from behind `c` stands before it, and `*it` is `c`.
pub decrement-between :
    (xs ys : List ℕ) (c : ℕ)
    → IsUnichar c
    → (decrement (between (xs ++ c ∷ []) ys) ≡ ok (between xs (c ∷ ys)))
      × (dereference (between xs (c ∷ ys)) ≡ ok c)
unfolding decrement dereference
decrement-between xs ys c h = (
  rw (before-snoc xs c, reverse-cons (lead c) (trail c), append_assoc)
      (retreat-append (reverse (trail c)) (reverse (encode xs)) (encode ys) c
          (All-reverse (trail c) (trail-IsCont c h)) h
        ∙ ap (λ t. ok (record { before = reverse (encode xs); after = lead c ∷ (t ++ encode ys) }))
            (reverse-reverse (trail c))),
  get_unichar-encode c (encode ys) h,
)

module _ (g : GlibUtf8) (laws : IsGlibUtf8 g) where
  forth :
      (xs ys : List ℕ) (c : ℕ)
      → IsUnichar c
      → increment g (between xs (c ∷ ys)) ≡ ok (between (xs ++ c ∷ []) ys)
  unfolding increment increment_at
  forth xs ys c h =
      let e : g.skip (lead c) ≡ suc (length (trail c)) = omega (arith, laws.skip-lead c h) in
      rw (e, before-snoc xs c) (advance-append (lead c ∷ trail c) (reverse (encode xs)) (encode ys))

  -- Forth over a code point, and back: `++it` from before `c` stands behind it, `--it` before it again.
  pub increment-between :
      (xs ys : List ℕ) (c : ℕ)
      → IsUnichar c
      → (increment g (between xs (c ∷ ys)) ≡ ok (between (xs ++ c ∷ []) ys))
        × ((increment g (between xs (c ∷ ys)) >>= decrement) ≡ ok (between xs (c ∷ ys)))
  increment-between xs ys c h =
      (forth xs ys c h, rw (forth xs ys c h) ((decrement-between xs ys c h).0))

  -- erase(it) takes one code point out of the text, and returns the iterator to the next one.
  pub erase_at-between :
      (xs ys : List ℕ) (c : ℕ) → IsUnichar c → erase_at g (between xs (c ∷ ys)) ≡ ok (between xs ys)
  unfolding erase_at
  erase_at-between xs ys c h = rw ((increment-between xs ys c h).0)

  sequence_loop-encode :
      (cs ds : List ℕ) → IsText cs → sequence_loop g cs (encode ds) ≡ encode (ds ++ cs)
  unfolding sequence_loop
  sequence_loop-encode [] ds t = ap encode (sym (append-nil ds))
  sequence_loop-encode (c ∷ cs) ds (h, t) = rw (laws.unichar_to_utf8-eq c h) (
      ap (sequence_loop g cs) (
        ap (λ x. encode ds ++ lead c ∷ x) (sym (append-nil (trail c)))
        ∙ sym (encode-append ds (c ∷ [])))
      ∙ sequence_loop-encode cs (ds ++ c ∷ []) t
      ∙ ap encode (append_assoc ds (c ∷ []) cs))

  -- A ustring made from a range of code points encodes them in order.
  pub sequence_to_string-encode : (cs : List ℕ) → IsText cs → sequence_to_string g cs ≡ encode cs
  unfolding sequence_to_string
  sequence_to_string-encode cs t = sequence_loop-encode cs [] t
