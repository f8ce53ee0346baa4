-- ===== src/Mmgir/Defs/Enums.antt =====
-- The definitions of enums, flags and objects in gen_defs.cc.
pub mod Reading
use glibmm.Base.{
  Bool, true, false, List, [], ◌∷◌, ◌++◌, Option, none, some, ℕ, ◌==◌, if◌then◌else◌, Result, ok,
  err, bad_optional_access, ◌>>=◌, map_ok,
}
use glibmm.Mmgir.Bitfields.{Formatted, format_bitfield_members}
use glibmm.Mmgir.TypeCasts.{Name, codes, gen_c_type_cast}
use glibmm.Mmgir.Defs.Schema.{Member, Enumeration, is_skippable}
use glibmm.Mmgir.Defs.Lines.{
  print_head, print_attribute, print_pair, print_triple, print_list, print_list_end, print_end,
  replace_all,
}

-- The nickname of a member of an enum; else its name with dashes.
unfoldable pub nickname_or : Option Name → Name → Name
unfolding replace_all
nickname_or none name = replace_all b'_' b'-' name
nickname_or (some nickname) name = nickname

-- The name of a member of flags, with dashes if it has no nickname.
unfoldable pub converted_name : Option Name → Name → Name
unfolding replace_all
converted_name none name = replace_all b'_' b'-' name
converted_name (some nickname) name = name

-- `if (namespace_name) { ... }`
pub print_module : Option Name → List ℕ
print_module none = []
print_module (some name) = print_attribute "in-module" name

pub print_members : List (Member Name) → List ℕ
unfolding nickname_or
print_members [] = []
print_members (m ∷ ms) =
    print_triple (nickname_or m.nickname m.name) m.c_identifier m.value ++ print_members ms

unfoldable pub generate_extended_enum_def : Enumeration Name → Option Name → List ℕ
unfolding print_members print_module is_skippable
generate_extended_enum_def e namespace_name =
    if is_skippable e.name
    then []
    else print_head "define-enum-extended" e.name
      ++ (print_module namespace_name
          ++ (print_attribute "c-name" e.c_type
              ++ (print_list "values"
                  ++ (print_members e.members ++ (print_list_end ++ print_end)))))

-- fmt::format of a formatted value, "1 << {}", "{:#x}" or "-{:#x}", is a parameter.
module _ (format : Formatted → Name) where
  pub print_flag : Name → Name → Option Formatted → List ℕ
  print_flag name c_identifier none = []
  print_flag name c_identifier (some value) = print_triple name c_identifier (format value)

  pub print_flags : List (Member (Option (Bool × ℕ))) → List ℕ
  unfolding print_flag converted_name
  print_flags [] = []
  print_flags (m ∷ ms) =
      print_flag (converted_name m.nickname m.name) m.c_identifier (format_bitfield_members m.value)
      ++ print_flags ms

  unfoldable pub generate_extended_bitfield_def :
      Enumeration (Option (Bool × ℕ)) → Option Name → List ℕ
  unfolding print_flags print_module is_skippable
  generate_extended_bitfield_def e namespace_name =
      if is_skippable e.name
      then []
      else print_head "define-flags-extended" e.name
        ++ (print_module namespace_name
            ++ (print_attribute "c-name" e.c_type
                ++ (print_list "values"
                    ++ (print_flags e.members ++ (print_list_end ++ print_end)))))

-- generate_standard_object_def() for an object of this name.
unfoldable pub generate_standard_object_def :
    Name → Name → Option Name → List Name → Result (List ℕ)
unfolding print_module
generate_standard_object_def name type_name namespace_name prefixes =
    gen_c_type_cast type_name prefixes >>= λ cast. ok (
      print_head "define-object" name
      ++ (print_module namespace_name
          ++ (print_attribute "c-name" type_name
              ++ (print_attribute "gtype-id" cast ++ print_end))))

-- The name and glib_type_name of an Interface or Class.
unfoldable pub generate_class_object_def : Name → Name → Option Name → List Name → Result (List ℕ)
unfolding is_skippable generate_standard_object_def
generate_class_object_def name glib_type_name namespace_name prefixes =
    if is_skippable name
    then ok []
    else generate_standard_object_def name glib_type_name namespace_name prefixes

record_c_type : Option Name → Result Name
record_c_type none = err bad_optional_access
record_c_type (some c_type) = ok c_type

unfoldable pub generate_record_object_def :
    Name → Option Name → Option Name → List Name → Result (List ℕ)
unfolding is_skippable generate_standard_object_def record_c_type
generate_record_object_def name c_type namespace_name prefixes =
    if is_skippable name
    then ok []
    else (record_c_type c_type >>= λ type_name.
        generate_standard_object_def name type_name namespace_name prefixes)
