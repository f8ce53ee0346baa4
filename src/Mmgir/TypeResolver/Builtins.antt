-- ===== src/Mmgir/TypeResolver/Builtins.antt =====
-- The tables of builtin types of tools/mmgir/type_resolver.cc.
use glibmm.Base.{List, [], ◌∷◌}
use glibmm.Mmgir.Names.{String}

pub data GParam : Type 0 where
  boolean boxed char double enum_ flags float gtype int int64 : GParam
  long object pointer string uchar uint uint64 ulong unichar variant : GParam
  not_applicable : GParam

pub to_string : GParam → String
to_string boolean = "GParamBoolean"
to_string boxed = "GParamBoxed"
to_string char = "GParamChar"
to_string double = "GParamDouble"
to_string enum_ = "GParamEnum"
to_string flags = "GParamFlags"
to_string float = "GParamFloat"
to_string gtype = "GParamGType"
to_string int = "GParamInt"
to_string int64 = "GParamInt64"
to_string long = "GParamLong"
to_string object = "GParamObject"
to_string pointer = "GParamPointer"
to_string string = "GParamString"
to_string uchar = "GParamUChar"
to_string uint = "GParamUInt"
to_string uint64 = "GParamUInt64"
to_string ulong = "GParamULong"
to_string unichar = "GParamUnichar"
to_string variant = "GParamVariant"
to_string not_applicable = "(n/a)"

unfoldable pub s_builtin_type_to_c_type : List (String × String)
s_builtin_type_to_c_type =
    ("GType", "GType")
    ∷ ("gboolean", "gboolean")
    ∷ ("gsize", "gsize")
    ∷ ("gssize", "gssize")
    ∷ ("goffset", "goffset")
    ∷ ("gpointer", "gpointer")
    ∷ ("gconstpointer", "gconstpointer")
    ∷ ("gintptr", "gintptr")
    ∷ ("guintptr", "guintptr")
    ∷ ("gchar", "gchar")
    ∷ ("gint", "gint")
    ∷ ("gshort", "glong")
    ∷ ("glong", "glong")
    ∷ ("gfloat", "gfloat")
    ∷ ("gdouble", "gdouble")
    ∷ ("guchar", "guchar")
    ∷ ("guint", "guint")
    ∷ ("gushort", "gulong")
    ∷ ("gulong", "gulong")
    ∷ ("gint8", "gint8")
    ∷ ("gint16", "gint16")
    ∷ ("gint32", "gint32")
    ∷ ("gint64", "gint64")
    ∷ ("guint8", "guint8")
    ∷ ("guint16", "guint16")
    ∷ ("guint32", "guint32")
    ∷ ("guint64", "guint64")
    ∷ ("gunichar", "gunichar")
    ∷ ("utf8", "const gchar*")
    ∷ ("filename", "const gchar*")
    ∷ ("va_list", "va_list")
    ∷ ("time_t", "time_t")
    ∷ ("none", "void")
    ∷ []

unfoldable pub s_builtin_name_to_g_param : List (String × GParam)
s_builtin_name_to_g_param =
    ("GType", gtype)
    ∷ ("gboolean", boolean)
    ∷ ("gpointer", pointer)
    ∷ ("gconstpointer", pointer)
    ∷ ("gchar", char)
    ∷ ("gint", int)
    ∷ ("gshort", int)
    ∷ ("glong", long)
    ∷ ("gfloat", float)
    ∷ ("gdouble", double)
    ∷ ("guchar", uchar)
    ∷ ("guint", uint)
    ∷ ("gushort", uint)
    ∷ ("gulong", ulong)
    ∷ ("gint8", int)
    ∷ ("gint16", int)
    ∷ ("gint32", int)
    ∷ ("gint64", int64)
    ∷ ("guint8", uint)
    ∷ ("guint16", uint)
    ∷ ("guint32", uint)
    ∷ ("guint64", uint64)
    ∷ ("gunichar", unichar)
    ∷ ("utf8", string)
    ∷ ("filename", string)
    ∷ ("GLib.Variant", variant)
    ∷ []
