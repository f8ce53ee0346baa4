-- ===== src/Mmgir/Defs/Lines.antt =====
-- The forms of the calls of fmt::print in gen_defs.cc, and what a reader finds in each.
use Prim.Native.String.{String}
use mathlib.Core.List.{map}
use glibmm.Base.{ℕ, ◌≡◌, refl, sym, ap, ◌∙◌, List, [], ◌∷◌, ◌++◌, append_assoc, if◌then◌else◌, ◌==◌}
use glibmm.Mmgir.TypeCasts.{Name, codes}
use glibmm.Mmgir.Defs.Reader.{
  Token, open_paren, close_paren, word, quoted, kind, read, read_word, read_quoted, IsLetter,
  IsWord, IsQuotable, Reads, word_step, read_word-append, read_quoted-append,
}

-- "(define-function {}\n" and the like
abbrev pub print_head : String → Name → List ℕ
print_head define name = codes "(" ++ (codes define ++ (codes " " ++ (name ++ codes "\n")))

-- "  (c-name \"{}\")\n" and the like
abbrev pub print_attribute : String → Name → List ℕ
print_attribute key value = codes "  (" ++ (codes key ++ (codes " \"" ++ (value ++ codes "\")\n")))

-- "  (varargs #t)\n" and the like
abbrev pub print_switch : String → Name → List ℕ
print_switch key value = codes "  (" ++ (codes key ++ (codes " " ++ (value ++ codes ")\n")))

-- "    '(\"{}\" \"{}\")\n" and the like
abbrev pub print_pair : Name → Name → List ℕ
print_pair a b = codes "    '(\"" ++ (a ++ (codes "\" \"" ++ (b ++ codes "\")\n")))

abbrev pub print_triple : Name → Name → Name → List ℕ
print_triple a b c =
    codes "    '(\"" ++ (a ++ (codes "\" \"" ++ (b ++ (codes "\" \"" ++ (c ++ codes "\")\n")))))

-- "  (parameters\n" and "  (values\n", "  )\n", and ")\n\n"
abbrev pub print_list : String → List ℕ
print_list key = codes "  (" ++ (codes key ++ codes "\n")

abbrev pub print_list_end : List ℕ
print_list_end = codes "  )\n"

abbrev pub print_end : List ℕ
print_end = codes ")\n\n"

-- `std::replace(name.begin(), name.end(), from, to)`
unfoldable pub replace_all : ℕ → ℕ → Name → Name
replace_all from to [] = []
replace_all from to (c ∷ name) = (if c == from then to else c) ∷ replace_all from to name

-- The tokens of each form.
abbrev pub attribute : String → Name → List Token
attribute key value = open_paren ∷ word (codes key) ∷ quoted value ∷ close_paren ∷ []

abbrev pub switch : String → Name → List Token
switch key value = open_paren ∷ word (codes key) ∷ word value ∷ close_paren ∷ []

abbrev pub row : List Name → List Token
row cells = word (codes "'") ∷ open_paren ∷ (map quoted cells ++ close_paren ∷ [])

letter_starts : (c : ℕ) (s : List ℕ) → IsLetter c → read (c ∷ s) ≡ read_word (c ∷ []) s
unfolding read
letter_starts c s h = word_step (kind c) _ _ _ _ _ h

word_blank : (w : Name) (s : List ℕ) → read_word w (b' ' ∷ s) ≡ word w ∷ read s
unfolding read_word kind
word_blank w s = refl

word_line : (w : Name) (s : List ℕ) → read_word w (10 ∷ s) ≡ word w ∷ read s
unfolding read_word kind
word_line w s = refl

word_closed : (w : Name) (s : List ℕ) → read_word w (b')' ∷ s) ≡ word w ∷ close_paren ∷ read s
unfolding read_word kind
word_closed w s = refl

word_found : (w : Name) (s : List ℕ) → IsWord w → (u : Name) → u ≡ w → read (w ++ s) ≡ read_word u s
word_found [] s h u e = absurd h
word_found (c ∷ w) s (l, h) u e =
    letter_starts c (w ++ s) l ∙ read_word-append (c ∷ []) w s h ∙ ap (λ u. read_word u s) (sym e)

read_open : (s : List ℕ) → read (codes "  (" ++ s) ≡ open_paren ∷ read s
unfolding read kind
read_open s = refl

read_quote : (s : List ℕ) → read (b'"' ∷ s) ≡ read_quoted [] s
unfolding read kind
read_quote s = refl

read_close : (s : List ℕ) → read (codes ")\n" ++ s) ≡ close_paren ∷ read s
unfolding read kind
read_close s = refl

read_paren : (s : List ℕ) → read (b'(' ∷ s) ≡ open_paren ∷ read s
unfolding read kind
read_paren s = refl

read_line : (s : List ℕ) → read (10 ∷ s) ≡ read s
unfolding read kind
read_line s = refl

read_gap : (s : List ℕ) → read (codes " \"" ++ s) ≡ read_quoted [] s
unfolding read kind
read_gap s = refl

read_row :
    (s : List ℕ) → read (codes "    '(\"" ++ s) ≡ word (codes "'") ∷ open_paren ∷ read_quoted [] s
unfolding read read_word kind
read_row s = refl

pub Reads-attribute :
    (key : String) (value : Name)
    → IsWord (codes key)
    → IsQuotable value
    → Reads (print_attribute key value) (attribute key value)
Reads-attribute key value k v = record {
  reads = λ s. simp append_assoc (
      read_open _
      ∙ ap (λ r. open_paren ∷ r)
          (word_found (codes key) _ k (codes key) refl
            ∙ word_blank (codes key) _
            ∙ ap (λ r. word (codes key) ∷ r)
                (read_quote _
                  ∙ read_quoted-append [] value _ v
                  ∙ ap (λ r. quoted value ∷ r) (read_close s))));
}

pub Reads-head :
    (define : String) (name : Name)
    → IsWord (codes define)
    → IsWord name
    → Reads (print_head define name) (open_paren ∷ word (codes define) ∷ word name ∷ [])
Reads-head define name d n = record {
  reads = λ s. simp append_assoc (
      read_paren _
      ∙ ap (λ r. open_paren ∷ r)
          (word_found (codes define) _ d (codes define) refl
            ∙ word_blank (codes define) _
            ∙ ap (λ r. word (codes define) ∷ r)
                (word_found name _ n name refl ∙ word_line name s)));
}

pub Reads-switch :
    (key : String) (value : Name)
    → IsWord (codes key)
    → IsWord value
    → Reads (print_switch key value) (switch key value)
Reads-switch key value k v = record {
  reads = λ s. simp append_assoc (
      read_open _
      ∙ ap (λ r. open_paren ∷ r)
          (word_found (codes key) _ k (codes key) refl
            ∙ word_blank (codes key) _
            ∙ ap (λ r. word (codes key) ∷ r)
                (word_found value _ v value refl
                  ∙ word_closed value (10 ∷ s)
                  ∙ ap (λ r. word value ∷ close_paren ∷ r) (read_line s))));
}

-- A quoted text behind its opening quote, and one more behind it.
next_quoted :
    (a s : List ℕ)
    → IsQuotable a
    → read_quoted [] (a ++ (codes "\" \"" ++ s)) ≡ quoted a ∷ read_quoted [] s
next_quoted a s h = read_quoted-append [] a _ h ∙ ap (λ r. quoted a ∷ r) (read_gap s)

last_quoted :
    (a s : List ℕ)
    → IsQuotable a
    → read_quoted [] (a ++ (codes "\")\n" ++ s)) ≡ quoted a ∷ close_paren ∷ read s
last_quoted a s h = read_quoted-append [] a _ h ∙ ap (λ r. quoted a ∷ r) (read_close s)

pub Reads-pair :
    (a b : Name) → IsQuotable a → IsQuotable b → Reads (print_pair a b) (row (a ∷ b ∷ []))
Reads-pair a b p q = record {
  reads = λ s. simp append_assoc (
      read_row (a ++ (codes "\" \"" ++ (b ++ (codes "\")\n" ++ s))))
      ∙ ap (λ r. word (codes "'") ∷ open_paren ∷ r)
          (next_quoted a (b ++ (codes "\")\n" ++ s)) p
            ∙ ap (λ r. quoted a ∷ r) (last_quoted b s q)));
}

pub Reads-triple :
    (a b c : Name)
    → IsQuotable a
    → IsQuotable b
    → IsQuotable c
    → Reads (print_triple a b c) (row (a ∷ b ∷ c ∷ []))
Reads-triple a b c p q h = record {
  reads = λ s. simp append_assoc (
      read_row (a ++ (codes "\" \"" ++ (b ++ (codes "\" \"" ++ (c ++ (codes "\")\n" ++ s))))))
      ∙ ap (λ r. word (codes "'") ∷ open_paren ∷ r)
          (next_quoted a (b ++ (codes "\" \"" ++ (c ++ (codes "\")\n" ++ s)))) p
            ∙ ap (λ r. quoted a ∷ r)
                (next_quoted b (c ++ (codes "\")\n" ++ s)) q
                  ∙ ap (λ r. quoted b ∷ r) (last_quoted c s h))));
}

pub Reads-list :
    (key : String)
    → IsWord (codes key)
    → Reads (print_list key) (open_paren ∷ word (codes key) ∷ [])
Reads-list key k = record {
  reads = λ s. simp append_assoc (
      read_open (codes key ++ (10 ∷ s))
      ∙ ap (λ r. open_paren ∷ r)
          (word_found (codes key) (10 ∷ s) k (codes key) refl ∙ word_line (codes key) s));
}

pub Reads-list_end : Reads print_list_end (close_paren ∷ [])
unfolding read kind
Reads-list_end = record { reads = λ s. refl }

pub Reads-end : Reads print_end (close_paren ∷ [])
unfolding read kind
Reads-end = record { reads = λ s. refl }
