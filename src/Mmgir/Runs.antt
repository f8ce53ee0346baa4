-- ===== src/Mmgir/Runs.antt =====
-- Bit fields and prefixes at concrete inputs.
use glibmm.Base.{◌≡◌, refl, true, false, [], ◌∷◌, All, length}
use glibmm.Mmgir.Bitfields.Values.{Formats, format_bitfield_members-value}
use glibmm.Mmgir.TypeCasts.{codes, is_upper, build_identifier_prefixes}
use glibmm.Mmgir.TypeCasts.Prefixes.{IsFalling, HasLength, build_identifier_prefixes-IsFalling}

format_bitfield_members-value_example : Formats false 0x40000000
format_bitfield_members-value_example = format_bitfield_members-value false 0x40000000

build_identifier_prefixes-IsFalling_example :
    IsFalling (build_identifier_prefixes (codes "G" ∷ codes "Gtk" ∷ []) (codes "Gdk" ∷ []))
    × All
        (λ p.
          HasLength
            (length p)
            (build_identifier_prefixes (codes "G" ∷ codes "Gtk" ∷ []) (codes "Gdk" ∷ [])))
        (codes "G" ∷ codes "Gtk" ∷ codes "Gdk" ∷ [])
build_identifier_prefixes-IsFalling_example =
    build_identifier_prefixes-IsFalling (codes "G" ∷ codes "Gtk" ∷ []) (codes "Gdk" ∷ [])

not_upper : (is_upper b't' ≡ false) × ((is_upper b'k' ≡ false) × Unit {0})
unfolding is_upper
not_upper = (refl, (refl, tt))

upper : is_upper b'W' ≡ true
unfolding is_upper
upper = refl
