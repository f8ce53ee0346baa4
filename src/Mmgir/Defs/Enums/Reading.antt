-- ===== src/Mmgir/Defs/Enums/Reading.antt =====
-- What a reader finds in the definitions of enums, flags and objects.
use Prim.Native.String.{String}
use glibmm.Base.{
  ℕ, ◌≡◌, refl, ap, ◌==◌, if◌then◌else◌, Bool, false, List, [], ◌∷◌, ◌++◌, Option, none, some, All,
}
use glibmm.Mmgir.Bitfields.{Formatted, format_bitfield_members}
use glibmm.Mmgir.TypeCasts.{Name, codes}
use glibmm.Mmgir.Defs.Schema.{Member, Enumeration, is_skippable}
use glibmm.Mmgir.Defs.Reader.{
  Token, open_paren, close_paren, word, kind, IsWord, IsQuotable, Reads, Reads-append, Reads-nil,
  word_of,
}
use glibmm.Mmgir.Defs.Lines.{
  print_attribute, print_list, print_list_end, print_end, attribute, row, Reads-head,
  Reads-attribute, replace_all, Reads-triple, Reads-list, Reads-list_end, Reads-end,
}
use glibmm.Mmgir.Defs.Enums.{
  nickname_or, converted_name, print_module, print_members, print_flag, print_flags,
  generate_extended_enum_def, generate_extended_bitfield_def,
}

abbrev pub module_of : Option Name → List Token
module_of none = []
module_of (some name) = attribute "in-module" name

abbrev pub IsModule : Option Name → Type 0
IsModule none = Unit
IsModule (some name) = IsQuotable name

-- A row for each member, in the order of the members.
abbrev pub rows_of : {V : Type 0} → (Member V → List Token) → List (Member V) → List Token
rows_of f [] = []
rows_of f (m ∷ ms) = f m ++ rows_of f ms

-- A name with dashes for its underscores.
abbrev pub dashes : Name → Name
dashes [] = []
dashes (c ∷ name) = (if c == b'_' then b'-' else c) ∷ dashes name

-- Which name a member of an enum is to have, by its nickname.
abbrev pub enum_name : Option Name → Name → Name
enum_name none name = dashes name
enum_name (some nickname) name = nickname

-- The same of a member of flags.
abbrev pub flag_name : Option Name → Name → Name
flag_name none name = dashes name
flag_name (some nickname) name = name

replace_all-dashes : (name : Name) → replace_all b'_' b'-' name ≡ dashes name
unfolding replace_all
replace_all-dashes [] = refl
replace_all-dashes (c ∷ name) =
    ap (λ cs. (if c == b'_' then b'-' else c) ∷ cs) (replace_all-dashes name)

nickname_or-eq :
    (nickname : Option Name) (name : Name) → nickname_or nickname name ≡ enum_name nickname name
unfolding nickname_or
nickname_or-eq none name = replace_all-dashes name
nickname_or-eq (some nickname) name = refl

converted_name-eq :
    (nickname : Option Name) (name : Name) → converted_name nickname name ≡ flag_name nickname name
unfolding converted_name
converted_name-eq none name = replace_all-dashes name
converted_name-eq (some nickname) name = refl

abbrev pub enum_row : Member Name → List Token
enum_row m = row (enum_name m.nickname m.name ∷ m.c_identifier ∷ m.value ∷ [])

abbrev pub valued_row : Name → Name → Option Name → List Token
valued_row name c_identifier none = []
valued_row name c_identifier (some value) = row (name ∷ c_identifier ∷ value ∷ [])

abbrev pub formatted : (Formatted → Name) → Option Formatted → Option Name
formatted format none = none
formatted format (some value) = some (format value)

abbrev pub flag_row : (Formatted → Name) → Member (Option (Bool × ℕ)) → List Token
flag_row format m =
    valued_row (flag_name m.nickname m.name) m.c_identifier
      (formatted format (format_bitfield_members m.value))

abbrev pub values_definition :
    {V : Type 0} → String → Option Name → Enumeration V → (Member V → List Token) → List Token
values_definition define namespace_name e f =
    (open_paren ∷ word (codes define) ∷ word e.name ∷ [])
    ++ (module_of namespace_name
        ++ (attribute "c-name" e.c_type
            ++ ((open_paren ∷ word (codes "values") ∷ [])
                ++ (rows_of f e.members ++ ((close_paren ∷ []) ++ (close_paren ∷ []))))))

module_word : IsWord (codes "in-module")
unfolding kind
module_word = word_of (codes "in-module") refl

c_name_word : IsWord (codes "c-name")
unfolding kind
c_name_word = word_of (codes "c-name") refl

values_word : IsWord (codes "values")
unfolding kind
values_word = word_of (codes "values") refl

enum_word : IsWord (codes "define-enum-extended")
unfolding kind
enum_word = word_of (codes "define-enum-extended") refl

flags_word : IsWord (codes "define-flags-extended")
unfolding kind
flags_word = word_of (codes "define-flags-extended") refl

Reads-module : (n : Option Name) → IsModule n → Reads (print_module n) (module_of n)
unfolding print_module
Reads-module none h = Reads-nil
Reads-module (some name) h = Reads-attribute "in-module" name module_word h

Reads-members :
    (ms : List (Member Name))
    → All
        (λ m.
          IsQuotable (enum_name m.nickname m.name) × IsQuotable m.c_identifier × IsQuotable m.value)
        ms
    → Reads (print_members ms) (rows_of enum_row ms)
unfolding print_members
Reads-members [] h = Reads-nil
Reads-members (m ∷ ms) ((a, b, c), h) =
    rw (nickname_or-eq m.nickname m.name)
      (Reads-append (Reads-triple _ m.c_identifier m.value a b c) (Reads-members ms h))

module _ (format : Formatted → Name) where
  Reads-flag :
      (name c_identifier : Name) (v : Option Formatted)
      → IsQuotable name
      → IsQuotable c_identifier
      → ((f : Formatted) → IsQuotable (format f))
      → Reads
          (print_flag format name c_identifier v)
          (valued_row name c_identifier (formatted format v))
  unfolding print_flag
  Reads-flag name i none a b c = Reads-nil
  Reads-flag name i (some v) a b c = Reads-triple name i (format v) a b (c v)

  Reads-flags :
      (ms : List (Member (Option (Bool × ℕ))))
      → ((f : Formatted) → IsQuotable (format f))
      → All (λ m. IsQuotable (flag_name m.nickname m.name) × IsQuotable m.c_identifier) ms
      → Reads (print_flags format ms) (rows_of (flag_row format) ms)
  unfolding print_flags
  Reads-flags [] c h = Reads-nil
  Reads-flags (m ∷ ms) c ((a, b), h) = rw (converted_name-eq m.nickname m.name) (
      Reads-append (Reads-flag _ m.c_identifier (format_bitfield_members m.value) a b c)
        (Reads-flags ms c h))

  -- The definitions of an enum and of flags that are not skipped, whose names are words and whose
  -- other texts can be quoted. A reader finds one definition with the module, the C name and a row for each member, in their order: its name, its
  -- C identifier and its value. The name of a member of an enum is its nickname, else the name with
  -- dashes; that of a member of flags is the name, with dashes if it has no nickname, and the
  -- nickname is not used. A member of flags whose value cannot be formatted has no row.
  pub generate_extended_enum_def-Reads :
      (e : Enumeration Name) (f : Enumeration (Option (Bool × ℕ))) (n : Option Name)
      → is_skippable e.name ≡ false
      → is_skippable f.name ≡ false
      → IsWord e.name
      → IsWord f.name
      → IsQuotable e.c_type
      → IsQuotable f.c_type
      → IsModule n
      → All
          (λ m.
            IsQuotable (enum_name m.nickname m.name)
            × IsQuotable m.c_identifier
            × IsQuotable m.value)
          e.members
      → All (λ m. IsQuotable (flag_name m.nickname m.name) × IsQuotable m.c_identifier) f.members
      → ((v : Formatted) → IsQuotable (format v))
      → Reads
          (generate_extended_enum_def e n)
          (values_definition "define-enum-extended" n e enum_row)
        × Reads
            (generate_extended_bitfield_def format f n)
            (values_definition "define-flags-extended" n f (flag_row format))
  unfolding generate_extended_enum_def generate_extended_bitfield_def
  generate_extended_enum_def-Reads e f n se sf we wf ce cf m me mf v = (
    rw se (
        Reads-append (Reads-head "define-enum-extended" e.name enum_word we)
          (valued e.c_type ce (Reads-members e.members me))),
    rw sf (
        Reads-append (Reads-head "define-flags-extended" f.name flags_word wf)
          (valued f.c_type cf (Reads-flags f.members v mf))),
  )
    where
      valued :
          (c_type : Name) {t : List ℕ} {ks : List Token}
          → IsQuotable c_type
          → Reads t ks
          → Reads
              (print_module n
                ++ (print_attribute "c-name" c_type
                    ++ (print_list "values" ++ (t ++ (print_list_end ++ print_end)))))
              (module_of n
                ++ (attribute "c-name" c_type
                    ++ ((open_paren ∷ word (codes "values") ∷ [])
                        ++ (ks ++ ((close_paren ∷ []) ++ (close_paren ∷ []))))))
      valued c_type c r = Reads-append (Reads-module n m) (
          Reads-append (Reads-attribute "c-name" c_type c_name_word c) (
            Reads-append (Reads-list "values" values_word)
              (Reads-append r (Reads-append Reads-list_end Reads-end))))
