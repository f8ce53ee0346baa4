-- ===== src/Containers/Memory.antt =====
-- What the converters rely on: the traits of the element type, and the memory of C.
use glibmm.Base.{
  ℕ, ◌<◌, ◌≡◌, ◌≢◌, Bool, true, false, Option, none, some, List, [], ◌∷◌, zero, suc, length, ◌==◌,
  if◌then◌else◌,
}

-- A result, or `none`: undefined behaviour, such as a read of memory that does not live, or a loop
-- that has used up its fuel.
infixl 5 ◌>>=◌
abbrev pub ◌>>=◌ {ℓ κ} : {A : Type ℓ} {B : Type κ} → Option A → (A → Option B) → Option B
none >>= f = none
some a >>= f = f a

pub data OwnershipType : Type 0 where
  ownership_none ownership_shallow ownership_deep : OwnershipType

abbrev pub is_none : OwnershipType → Bool
is_none ownership_none = true
is_none ownership_shallow = false
is_none ownership_deep = false

abbrev pub is_shallow : OwnershipType → Bool
is_shallow ownership_none = false
is_shallow ownership_shallow = true
is_shallow ownership_deep = false

-- The C values are words: numbers and pointers, with 0 for null and FALSE.
pub record TypeTraits (CppType : Type 0) : Type 0 where
  pub to_c_type : CppType → ℕ
  pub to_cpp_type : ℕ → CppType

-- The generic traits, where the C++ type is the C type.
abbrev pub same_traits : TypeTraits ℕ
same_traits = record { to_c_type = λ item. item; to_cpp_type = λ item. item }

abbrev pub bool_traits : TypeTraits Bool
bool_traits = record {
  to_c_type = λ item. if item then 1 else 0;
  to_cpp_type = λ item. if item == 0 then false else true;
}

-- The memory, and the C values that release_c_type() was called on, in the order of the calls.
pub record Storage (Memory : Type 0) : Type 0 where
  pub memory : Memory
  pub released : List ℕ

abbrev pub in_memory : {Memory : Type 0} → Memory → List ℕ → Storage Memory
in_memory m r = record { memory = m; released = r }

abbrev pub set : List ℕ → ℕ → ℕ → List ℕ
set [] i c = []
set (x ∷ xs) zero c = c ∷ xs
set (x ∷ xs) (suc i) c = x ∷ set xs i c

-- GLib's allocator as arrays of words see it. `array` is the contents of the allocation that lives
-- at an address, and `assign` the assignment to an element.
pub record ArrayMemory : Type 1 where
  pub Memory : Type 0
  pub array : Memory → ℕ → Option (List ℕ)
  pub g_malloc : Memory → ℕ → Memory × ℕ
  pub g_free : Memory → ℕ → Memory
  pub assign : Memory → ℕ → ℕ → ℕ → Memory
  pub malloc-new :
      (m : Memory) (n : ℕ)
      → (xs : List ℕ) × (array (g_malloc m n).0 (g_malloc m n).1 ≡ some xs) × (length xs ≡ n)
  pub malloc-fresh : (m : Memory) (n : ℕ) → array m (g_malloc m n).1 ≡ none
  pub malloc-old :
      (m : Memory) (n p : ℕ) → p ≢ (g_malloc m n).1 → array (g_malloc m n).0 p ≡ array m p
  pub free-array :
      (m : Memory) (p q : ℕ) → array (g_free m p) q ≡ (if p == q then none else array m q)
  pub assign-same :
      (m : Memory) (p i c : ℕ) (xs : List ℕ)
      → array m p ≡ some xs
      → i < length xs
      → array (assign m p i c) p ≡ some (set xs i c)
  pub assign-other : (m : Memory) (p q i c : ℕ) → p ≢ q → array (assign m p i c) q ≡ array m q

-- The nodes of GList, or those of GSList: the data of the node that lives at an address and its
-- successor. A list is the address of its first node.
pub record ListMemory : Type 1 where
  pub Memory : Type 0
  pub node : Memory → ℕ → Option (ℕ × Option ℕ)
  pub prepend : Memory → Option ℕ → ℕ → Memory × ℕ
  pub free_list : Memory → Option ℕ → Memory
  pub prepend-fresh : (m : Memory) (l : Option ℕ) (c : ℕ) → node m (prepend m l c).1 ≡ none
  pub prepend-new :
      (m : Memory) (l : Option ℕ) (c : ℕ) → node (prepend m l c).0 (prepend m l c).1 ≡ some (c, l)
  pub prepend-old :
      (m : Memory) (l : Option ℕ) (c p : ℕ)
      → p ≢ (prepend m l c).1
      → node (prepend m l c).0 p ≡ node m p
  pub free-head : (m : Memory) (p : ℕ) → node (free_list m (some p)) p ≡ none
