-- ===== src/MMap.antt =====
-- src/mmap.h, src/mmap.cpp: the class MMap, one mapping of /proc/<pid>/smaps.
pub mod State
pub mod Attributes
pub mod Permissions
pub mod Offset
use libsysinfo.Boost.Pattern.{Part, plain, group, one, many, some_of, Regex, lit, any}
use libsysinfo.Boost.{Boost}
use libsysinfo.MMap.State.{
  MMap, MappingType, shared, priv, Attribute, attribute_index, m_size, m_rss, m_pss, m_shared_clean,
  m_shared_dirty, m_private_clean, m_private_dirty, m_referenced, m_anonymous, m_anonhugepages,
  m_swap, m_kernelpagesize, m_mmupagesize, m_locked,
}
use libsysinfo.Prelude.{
  ℕ, Bool, true, false, ◌||◌, List, [], ◌∷◌, ◌++◌, Option, none, some, ◌==◌, if◌then◌else◌, ℤ,
  to_u64, to_int, Result, ok, throw,
}
use libsysinfo.Text.Lines.{lines}
use libsysinfo.Text.Number.{ten, sixteen, stoi, stol}
use libsysinfo.Text.{
  Bytes, codes, same_text, is_empty, is_space, is_digit, is_xdigit, is_alpha, has_substring,
}

-- [ab], one of two bytes
abbrev pub either : ℕ → ℕ → ℕ → Bool
either a b c = c == a || c == b

-- ^([[:xdigit:]]+)-([[:xdigit:]]+)\s([r-])([w-])([x-])([sp])\s([[:xdigit:]]+)\s([[:xdigit:]]+)
-- :([[:xdigit:]]+)\s([[:digit:]]+)\s+(.*)$
abbrev pub regex_declare_mapping : Regex
regex_declare_mapping =
    group (some_of is_xdigit)
    ∷ lit b'-'
    ∷ group (some_of is_xdigit)
    ∷ plain (one is_space)
    ∷ group (one (either b'r' b'-'))
    ∷ group (one (either b'w' b'-'))
    ∷ group (one (either b'x' b'-'))
    ∷ group (one (either b's' b'p'))
    ∷ plain (one is_space)
    ∷ group (some_of is_xdigit)
    ∷ plain (one is_space)
    ∷ group (some_of is_xdigit)
    ∷ lit b':'
    ∷ group (some_of is_xdigit)
    ∷ plain (one is_space)
    ∷ group (some_of is_digit)
    ∷ plain (some_of is_space)
    ∷ group (many any)
    ∷ []

-- ^([[:alpha:]]+):\s+(.*)$
abbrev pub regex_key_value : Regex
regex_key_value =
    group (some_of is_alpha) ∷ lit b':' ∷ plain (some_of is_space) ∷ group (many any) ∷ []

-- ^([[:digit:]])\s.*$
abbrev pub regex_value : Regex
regex_value = group (one is_digit) ∷ plain (one is_space) ∷ plain (many any) ∷ []

abbrev pub and_then : Result MMap → (MMap → Result MMap) → Result MMap
and_then (ok m) f = f m
and_then (throw e) f = throw e

abbrev pub then_store : Result ℤ → (ℤ → Result MMap) → Result MMap
then_store (ok z) f = f z
then_store (throw e) f = throw e

-- The four integers of a declaration. The offset is converted by stol in base ten, and to int.
unfoldable pub set_numbers : Bytes → Bytes → Bytes → Bytes → MMap → Result MMap
set_numbers offset major minor inode m = then_store (stol offset ten) λ z0.
    then_store (stoi major sixteen) λ z1. then_store (stoi minor sixteen) λ z2.
      then_store (stol inode ten) λ z3.
        ok (record m { offset = to_int (to_u64 z0); dev_major = z1; dev_minor = z2; inode = z3 })

-- What the groups of a declaration are stored as.
unfoldable pub declare : List Bytes → MMap → Result MMap
unfolding same_text
declare (from ∷ to ∷ r ∷ w ∷ x ∷ t ∷ offset ∷ major ∷ minor ∷ inode ∷ path ∷ []) m =
    let named = record m {
      address_from = from;
      address_to = to;
      perm_read = same_text r (codes "r");
      perm_write = same_text w (codes "w");
      perm_execute = same_text x (codes "x");
      mapping = if same_text t (codes "p") then priv else shared;
    } in
    and_then (set_numbers offset major minor inode named) λ n. ok (record n { pathname = path })
declare _ m = ok m

abbrev pub declare_matched : Option (List Bytes) → MMap → Result MMap
declare_matched none m = ok m
declare_matched (some caps) m = declare caps m

-- The keys of the int members, in the order of the source.
abbrev pub attribute_keys : List (Bytes × Attribute)
attribute_keys =
    (codes "Size", m_size)
    ∷ (codes "Rss", m_rss)
    ∷ (codes "Pss", m_pss)
    ∷ (codes "Shared_Clean", m_shared_clean)
    ∷ (codes "Shared_Dirty", m_shared_dirty)
    ∷ (codes "Private_Clean", m_private_clean)
    ∷ (codes "Private_Dirty", m_private_dirty)
    ∷ (codes "Referenced", m_referenced)
    ∷ (codes "Anonymous", m_anonymous)
    ∷ (codes "AnonHugePages", m_anonhugepages)
    ∷ (codes "Swap", m_swap)
    ∷ (codes "KernelPageSize", m_kernelpagesize)
    ∷ (codes "MMUPageSize", m_mmupagesize)
    ∷ (codes "Locked", m_locked)
    ∷ []

-- An assignment to one of the int members.
abbrev pub set_attribute : Attribute → ℤ → MMap → MMap
set_attribute a z m = record m {
  attribute = λ j. if attribute_index j == attribute_index a then z else m.attribute j;
}

unfoldable pub store_attribute : List (Bytes × Attribute) → Bytes → Bytes → MMap → Result MMap
store_attribute [] key digit m = ok m
store_attribute ((k, a) ∷ ks) key digit m =
    if same_text key k
    then then_store (stoi digit ten) (λ z. ok (set_attribute a z m))
    else store_attribute ks key digit m

-- What is done with a trimmed value: one digit and a blank make a size, all else is taken for the
-- VmFlags.
abbrev pub store_value : Boost → Bytes → Bytes → Option (List Bytes) → MMap → Result MMap
store_value boost key value (some (digit ∷ [])) m = store_attribute attribute_keys key digit m
store_value boost key value (some _) m = ok m
store_value boost key value none m = ok (record m { vmflags = boost.split value b' ' })

abbrev pub store_pair : Boost → Option (List Bytes) → MMap → Result MMap
store_pair boost (some (key ∷ v ∷ [])) m =
    let value = boost.trim v in store_value boost key value (boost.regex_match regex_value value) m
store_pair boost _ m = ok m

-- One attribute line.
unfoldable pub read_attribute : Boost → Bytes → MMap → Result MMap
read_attribute boost l m = store_pair boost (boost.regex_match regex_key_value l) m

unfoldable pub read_attributes : Boost → List Bytes → MMap → Result MMap
read_attributes boost [] m = ok m
read_attributes boost (l ∷ ls) m = and_then (read_attribute boost l m) (read_attributes boost ls)

-- MMap::defineCategory
unfoldable pub category_of : Bytes → MappingType → Bytes
unfolding has_substring same_text
category_of path t =
    if has_substring (codes "/usr/bin") path
      || (has_substring (codes "/usr/lib") path
          || (same_text path (codes "[vsyscall]")
              || (same_text path (codes "[vdso]") || same_text path (codes "[vvar]"))))
    then codes "Image"
    else if has_substring (codes "[heap]") path
    then codes "Heap"
    else if has_substring (codes "[stack") path
    then codes "Stack"
    else elim t [
      | shared ↦ codes "Shareable"
      | priv ↦ if is_empty path then codes "Private" else codes "Mapped File"
    ]

-- The declaration is the first line, the attributes are the others.
unfoldable pub read_all : Boost → List Bytes → MMap → Result MMap
read_all boost [] m = declare_matched (boost.regex_match regex_declare_mapping []) m
read_all boost (l ∷ ls) m =
    and_then (declare_matched (boost.regex_match regex_declare_mapping l) m)
      (read_attributes boost ls)

-- The constructor from a stream with this text. `raw` is what the storage holds before: strings and
-- the vector start out empty, the other members are not initialised.
unfoldable pub mmap : Boost → MMap → Bytes → Result MMap
mmap boost raw text =
    let start = record raw {
      address_from = [];
      address_to = [];
      pathname = [];
      vmflags = [];
      category = [];
    } in
    and_then (read_all boost (lines b'\n' text) start)
      λ m. ok (record m { category = category_of m.pathname m.mapping })

-- MMap::permissions
unfoldable pub permissions : MMap → Bytes
permissions m =
    (if m.perm_read then codes "r" else codes "-")
    ++ ((if m.perm_write then codes "w" else codes "-")
        ++ (if m.perm_execute then codes "x" else codes "-"))

-- MMap::type
unfoldable pub type_name : MMap → Bytes
type_name m = elim m.mapping [ shared ↦ codes "Shared" | priv ↦ codes "Private" ]
