-- ===== src/Utf8/Bounds.antt =====
-- Sizes of encoded texts, and which bytes start a code point.
use glibmm.Base.{
  ℕ, ◌+◌, ◌/◌, ◌≤◌, ◌<◌, ◌≡◌, ◌≢◌, refl, sym, ap, ◌∙◌, List, [], ◌∷◌, ◌++◌, append_assoc, arith,
  length, length-append, take, drop, take-append-drop, take-length-append, drop-length-append, All,
}
use glibmm.StdString.{npos}
use glibmm.Utf8.{IsUnichar, IsByte, lead, trail, encode}

-- `(b & 0xC0) == 0x80` of a byte.
abbrev pub IsCont : ℕ → Type 0
IsCont b = b / 64 ≡ 2

pub lead-IsByte : (c : ℕ) → IsUnichar c → IsByte (lead c)
unfolding lead
lead-IsByte c h = ground arith

pub lead-not-IsCont : (c : ℕ) → IsUnichar c → lead c / 64 ≢ 2
unfolding lead
lead-not-IsCont c h = ground arith

pub trail-IsCont : (c : ℕ) → IsUnichar c → All IsCont (trail c)
unfolding trail
trail-IsCont c h = ground arith

pub length-trail-le : (c : ℕ) → length (trail c) ≤ 5
unfolding trail
length-trail-le c = ground arith

pub encode-append : (xs ys : List ℕ) → encode (xs ++ ys) ≡ encode xs ++ encode ys
encode-append [] ys = refl
encode-append (x ∷ xs) ys =
    ap (λ t. lead x ∷ trail x ++ t) (encode-append xs ys)
    ∙ ap (◌∷◌ (lead x)) (sym (append_assoc (trail x) (encode xs) (encode ys)))

pub length-encode-ge : (xs : List ℕ) → length xs ≤ length (encode xs)
length-encode-ge [] = omega arith
length-encode-ge (x ∷ xs) = omega (arith, length-encode-ge xs, length-append (trail x) (encode xs))

pub length-encode-take-drop :
    (n : ℕ) (xs : List ℕ)
    → length (encode (take n xs)) + length (encode (drop n xs)) ≡ length (encode xs)
length-encode-take-drop n xs =
    sym (length-append (encode (take n xs)) (encode (drop n xs)))
    ∙ ap length (sym (encode-append (take n xs) (drop n xs)))
    ∙ ap (λ t. length (encode t)) (take-append-drop n xs)

pub encode-take-drop : (n : ℕ) (xs : List ℕ) → encode xs ≡ encode (take n xs) ++ encode (drop n xs)
encode-take-drop n xs =
    ap encode (sym (take-append-drop n xs)) ∙ encode-append (take n xs) (drop n xs)

-- The bytes before and behind the first `n` code points.
pub take-encode :
    (n : ℕ) (xs : List ℕ) → take (length (encode (take n xs))) (encode xs) ≡ encode (take n xs)
take-encode n xs =
    ap (take (length (encode (take n xs)))) (encode-take-drop n xs)
    ∙ take-length-append (encode (take n xs)) (encode (drop n xs))

pub drop-encode :
    (n : ℕ) (xs : List ℕ) → drop (length (encode (take n xs))) (encode xs) ≡ encode (drop n xs)
drop-encode n xs =
    ap (drop (length (encode (take n xs)))) (encode-take-drop n xs)
    ∙ drop-length-append (encode (take n xs)) (encode (drop n xs))

-- No string object is as large as `npos`.
abbrev pub Fits : List ℕ → Type 0
Fits xs = length (encode xs) < npos

pub Fits-drop : (n : ℕ) (xs : List ℕ) → Fits xs → Fits (drop n xs)
Fits-drop n xs f = omega (arith, length-encode-take-drop n xs)
