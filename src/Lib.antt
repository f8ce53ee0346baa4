-- ===== src/Lib.antt =====
-- glibmm, the C++ interface of GLib: a model of the hand-written code of the library.
--
-- Ustring models glib/glibmm/ustring.cc and the inline parts of glib/glibmm/ustring.h. A
-- Glib::ustring is the list of the bytes of its `string_`; a method returns the new bytes, or `err`
-- with the exception that it throws. Its child modules: Offsets (utf8_byte_offset,
-- Utf8SubstrBounds, utf8_char_offset), Unichar (get_unichar_from_std_iterator), Edit (constructors,
-- assign, append, insert, replace, erase, at, resize), Search (the find family), Compose
-- (compose_private) and Iterator (ustring_Iterator, the methods that take one, and
-- SequenceToString). Utf8 is the encoding that the table in ustring.cc shows, and the meaning of a
-- ustring's bytes. StdString is what the code uses of std::string, generic in the unit, so that it
-- serves as the specification of Ustring on code points too; `npos` and size_type have 64 bits.
-- GlibUtf8 holds the functions of GLib's gunicode.h as parameters, with what GLib's manual says of
-- them; GlibUtf8.Reference shows that these assumptions can be met.
--
-- Dispatcher models glib/glibmm/dispatcher.cc: one thread's DispatchNotifier, the Impls of its
-- Dispatchers on a heap of numbered objects, and the operations on them; pipe_io_handler() is
-- handler_start and handler_finish, since slots run in between and call any of the operations. A
-- use of nullptr or of a deleted object is `err undefined_behaviour`. Dispatcher.Messages is the
-- interface of the pipe, with the laws of a channel that keeps order; Dispatcher.Win32 is the queue
-- and event that take its place on Windows, and meets them. Not modelled there: failing system
-- calls, the main loop that calls the handler, and what slots do apart from calling the Dispatcher.
--
-- MainLoop models three parts of glib/glibmm/main.cc: Sources is the life of one Source with its
-- SourceCallbackData and SourceConnectionNodes, where GLib's calls of the destroy function and its
-- freeing of the GSource are arguments and steps of their own, Timeouts is TimeoutSource, on times
-- that its calls of get_time() return, and Query is MainContext::query() on what
-- g_main_context_query() answers.
-- Exceptions models glib/glibmm/exceptionhandler.cc; whether a handler throws is a parameter.
-- Property models glib/glibmm/property.cc: the values of interface and custom properties of one
-- object, and the numbers of custom properties; Property.Classes is custom_class_init_function() of
-- glib/glibmm/class.cc, where the interface properties get theirs.
--
-- Wrappers models glib/glibmm/objectbase.cc, the constructors of glib/glibmm/object.cc and
-- glib/glibmm/wrap.cc: wrappers on a heap of numbers, over the instances of GObject, which are the
-- interface Wrappers.GObject with the laws of reference counts and of the pointer under glibmm's
-- quark; an unref() may finalize any instances, each of which deletes its wrapper. Wrappers.Counted
-- meets the laws. Wrappers.Table is the table of wrap functions and wrap_auto(). Destructors of
-- derived classes, and the callbacks of sigc::trackable, are taken to do nothing that the model
-- sees.
--
-- Signals models glib/glibmm/signalproxy_connectionnode.cc and the connection of a property's
-- signal in glib/glibmm/propertyproxy_base.cc, for one connection; what GLib answers is an
-- argument.
--
-- Containers models glib/glibmm/vectorutils.h and vectorutils.cc: arrays and lists of C that become
-- vectors, and back. A C value is a number, 0 for null; Memory has the ownership, the traits and
-- the interfaces of GLib's allocator and of list nodes; Arrays and Lists are the keepers and
-- handlers; Copies is any sequence of copies and destructions of keepers; Agreement compares arrays
-- and lists. The conversions of the traits are functions of values, and release_c_type() is a
-- record of its calls. `none` is undefined behaviour there, or a walk along a list that has used up
-- its fuel, for which the length of the list is enough.
--
-- Mmgir models a part of tools/mmgir, which generates .defs files from GIR: Schema is what the
-- resolver reads of schema.h; TypeResolver is type_resolver.cc, with the tables in Builtins, the
-- queries in Resolution and what a namespace refers to, apart from signals, in References;
-- Bitfields and TypeCasts are format_bitfield_members(), build_identifier_prefixes() and
-- gen_c_type_cast() of gen_defs.cc. Sets and maps of the resolver are taken without their order.
-- Defs is the printing of definitions in gen_defs.cc: Schema is what it reads of schema.h, Lines
-- the forms of the calls of fmt::print, Callables, Enums and Signals the generators, and Objects
-- the loops over the callables of an object. Reader says what a reader of a .defs file finds in a
-- text: parentheses, words and quoted texts. What the resolver answers is an argument of the
-- generators of properties and signals, and so is the text of a formatted value. A generator that
-- throws returns the exception only, and log messages are left out. The loops over a namespace, the
-- older forms of enums and flags that nothing calls, and the XML parser, which reads with tinyxml2,
-- are not modelled.
--
-- Loops: a loop over bytes that recurs on them needs no bound; the loops of find_first_of and of
-- compose_private, which step by what GLib's table says, take the number of bytes as fuel and
-- return `none` when it runs out; their theorems say that it does not on valid UTF-8. The loop of
-- query() ends only when GLib's answer stops growing, and its theorem says how much fuel is then
-- enough. The loop over the bits of a member's value has fuel 33, enough for 32 bits; the search
-- for a wrap function has the depth of the type. Theorems about texts assume valid UTF-8 as the
-- table has it (six bytes and 0x7FFFFFFF at most) and a size below `npos`.
--
-- The other parts of the library, such as errors, values and the other sources of the main loop,
-- are not modelled.
pub mod Base
pub mod StdString
pub mod Utf8
pub mod GlibUtf8
pub mod Ustring
pub mod Dispatcher
pub mod MainLoop
pub mod Exceptions
pub mod Property
pub mod Wrappers
pub mod Signals
pub mod Containers
pub mod Mmgir
pub mod Tests
