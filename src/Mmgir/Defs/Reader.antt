-- ===== src/Mmgir/Defs/Reader.antt =====
-- How a reader of a .defs file splits it: parentheses, quoted texts, and words between them.
use glibmm.Base.{
  ℕ, ◌≡◌, ◌≢◌, refl, sym, ap, ◌∙◌, Bool, true, false, List, [], ◌∷◌, ◌++◌, ◌&&◌, ◌==◌,
  if◌then◌else◌, All, append_assoc, append-nil,
}
use glibmm.Mmgir.TypeCasts.{Name}

pub data Token : Type 0 where
  open_paren close_paren : Token
  word quoted : Name → Token

pub data Kind : Type 0 where
  opening closing quote blank letter : Kind

unfoldable pub kind : ℕ → Kind
kind c =
    if c == b'('
    then opening
    else if c == b')'
    then closing
    else if c == b'"'
    then quote
    else if c == b' '
    then blank
    else if c == 10
    then blank
    else letter

abbrev chosen : Kind → (a b c d e : List Token) → List Token
chosen k a b c d e = elim k [ opening ↦ a | closing ↦ b | quote ↦ c | blank ↦ d | letter ↦ e ]

unfoldable mutual
  -- Between words, in a word, and in a quoted text.
  pub read : List ℕ → List Token
  read [] = []
  read (c ∷ s) = elim (kind c) [
    | opening ↦ open_paren ∷ read s
    | closing ↦ close_paren ∷ read s
    | quote ↦ read_quoted [] s
    | blank ↦ read s
    | letter ↦ read_word (c ∷ []) s
  ]

  pub read_word : Name → List ℕ → List Token
  read_word w [] = word w ∷ []
  read_word w (c ∷ s) = elim (kind c) [
    | opening ↦ word w ∷ open_paren ∷ read s
    | closing ↦ word w ∷ close_paren ∷ read s
    | quote ↦ word w ∷ read_quoted [] s
    | blank ↦ word w ∷ read s
    | letter ↦ read_word (w ++ c ∷ []) s
  ]

  pub read_quoted : Name → List ℕ → List Token
  read_quoted q [] = []
  read_quoted q (c ∷ s) = elim (kind c) [
    | quote ↦ quoted q ∷ read s
    | _ ↦ read_quoted (q ++ c ∷ []) s
  ]

abbrev pub IsLetter : ℕ → Type 0
IsLetter c = kind c ≡ letter

-- A word that a reader finds whole, and a text that a pair of quotes can hold.
abbrev pub IsWord : Name → Type 0
IsWord [] = ⊥
IsWord (c ∷ w) = IsLetter c × All IsLetter w

abbrev pub IsQuotable : Name → Type 0
IsQuotable q = All (λ c. kind c ≢ quote) q

-- The reader finds these tokens in the text, and goes on behind it.
pub record Reads (t : List ℕ) (ks : List Token) : Type 0 where
  pub reads : (s : List ℕ) → read (t ++ s) ≡ ks ++ read s

pub Reads-nil : Reads [] []
Reads-nil = record { reads = λ s. refl }

pub Reads-append :
    {t u : List ℕ} {ks ls : List Token} → Reads t ks → Reads u ls → Reads (t ++ u) (ks ++ ls)
Reads-append {t} {u} {ks} {ls} p q = record {
  reads = λ s.
      ap read (append_assoc t u s)
      ∙ p.reads (u ++ s)
      ∙ ap (λ r. ks ++ r) (q.reads s)
      ∙ sym (append_assoc ks ls (read s));
}

pub word_step : (k : Kind) (a b c d e : List Token) → k ≡ letter → chosen k a b c d e ≡ e
word_step letter a b c d e h = refl
word_step opening a b c d e h = absurd (cc)
word_step closing a b c d e h = absurd (cc)
word_step quote a b c d e h = absurd (cc)
word_step blank a b c d e h = absurd (cc)

quoted_step : (k : Kind) (a b : List Token) → k ≢ quote → chosen k b b a b b ≡ b
quoted_step quote a b h = absurd (h refl)
quoted_step letter a b h = refl
quoted_step opening a b h = refl
quoted_step closing a b h = refl
quoted_step blank a b h = refl

pub read_word-append :
    (w v s : List ℕ) → All IsLetter v → read_word w (v ++ s) ≡ read_word (w ++ v) s
unfolding read_word
read_word-append w [] s h = ap (λ u. read_word u s) (sym (append-nil w))
read_word-append w (c ∷ v) s (l, h) =
    word_step (kind c) _ _ _ _ _ l
    ∙ read_word-append (w ++ c ∷ []) v s h
    ∙ ap (λ u. read_word u s) (append_assoc w (c ∷ []) v)

quote_ends : (q s : List ℕ) → read_quoted q (b'"' ∷ s) ≡ quoted q ∷ read s
unfolding read_quoted kind
quote_ends q s = refl

pub read_quoted-append :
    (q v s : List ℕ) → IsQuotable v → read_quoted q (v ++ b'"' ∷ s) ≡ quoted (q ++ v) ∷ read s
unfolding read_quoted
read_quoted-append q [] s h = quote_ends q s ∙ ap (λ u. quoted u ∷ read s) (sym (append-nil q))
read_quoted-append q (c ∷ v) s (l, h) =
    quoted_step (kind c) _ _ l
    ∙ read_quoted-append (q ++ c ∷ []) v s h
    ∙ ap (λ u. quoted u ∷ read s) (append_assoc q (c ∷ []) v)

abbrev is_letter : Kind → Bool
is_letter letter = true
is_letter opening = false
is_letter closing = false
is_letter quote = false
is_letter blank = false

abbrev are_letters : Name → Bool
are_letters [] = true
are_letters (c ∷ w) = is_letter (kind c) && are_letters w

letter_of : (k : Kind) (b : Bool) → (is_letter k && b) ≡ true → (k ≡ letter) × (b ≡ true)
letter_of letter b h = (refl, h)
letter_of opening b h = absurd (cc)
letter_of closing b h = absurd (cc)
letter_of quote b h = absurd (cc)
letter_of blank b h = absurd (cc)

letters_of : (w : Name) → are_letters w ≡ true → All IsLetter w
letters_of [] h = tt
letters_of (c ∷ w) h = let (l, r) = letter_of (kind c) (are_letters w) h in (l, letters_of w r)

abbrev pub is_word : Name → Bool
is_word [] = false
is_word (c ∷ w) = are_letters (c ∷ w)

pub word_of : (w : Name) → is_word w ≡ true → IsWord w
word_of [] h = absurd (cc)
word_of (c ∷ w) h = letters_of (c ∷ w) h

letter-ne-quote : {k : Kind} → k ≡ letter → k ≢ quote
letter-ne-quote e q = cc

letters-IsQuotable : (w : Name) → All IsLetter w → IsQuotable w
letters-IsQuotable [] h = tt
letters-IsQuotable (c ∷ w) (l, h) = (letter-ne-quote l, letters-IsQuotable w h)

pub word-IsQuotable : (w : Name) → IsWord w → IsQuotable w
word-IsQuotable [] h = absurd h
word-IsQuotable (c ∷ w) h = letters-IsQuotable (c ∷ w) h

abbrev is_other : Kind → Bool
is_other quote = false
is_other letter = true
is_other opening = true
is_other closing = true
is_other blank = true

abbrev pub are_quotable : Name → Bool
are_quotable [] = true
are_quotable (c ∷ q) = is_other (kind c) && are_quotable q

other_of : (k : Kind) (b : Bool) → (is_other k && b) ≡ true → (k ≢ quote) × (b ≡ true)
other_of quote b h = absurd (cc)
other_of letter b h = (λ e. cc, h)
other_of opening b h = (λ e. cc, h)
other_of closing b h = (λ e. cc, h)
other_of blank b h = (λ e. cc, h)

pub IsQuotable-of : (q : Name) → are_quotable q ≡ true → IsQuotable q
IsQuotable-of [] h = tt
IsQuotable-of (c ∷ q) h =
    let (l, r) = other_of (kind c) (are_quotable q) h in (l, IsQuotable-of q r)
