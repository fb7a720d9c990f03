-- ===== src/MMap/Permissions.antt =====
-- What the declaration of a mapping and its attribute lines do to its permissions, type and offset.
use libsysinfo.Boost.Pattern.{one, Fits}
use libsysinfo.Boost.Groups.{Matches-Groups}
use libsysinfo.Boost.{Boost, IsBoost}
use libsysinfo.MMap.State.{MMap, MappingType, shared, priv, Attribute}
use libsysinfo.MMap.{
  either, regex_declare_mapping, regex_key_value, regex_value, and_then, then_store, set_numbers,
  declare, declare_matched, store_attribute, attribute_keys, set_attribute, store_value, store_pair,
  read_attribute, read_attributes, read_all, permissions, type_name,
}
use libsysinfo.Prelude.{
  ℕ, ◌≡◌, refl, sym, ap, ◌∙◌, to_int, to_u64, Bool, true, false, List, [], ◌∷◌, ◌++◌, Option, none,
  some, Bool-cases, inl, inr, ℤ, pos, Result, ok, throw, ok-injective, throw-ne-ok, arith,
  if◌then◌else◌,
}
use libsysinfo.Text.Number.{ten, sixteen, stoi, stol}
use libsysinfo.Text.{Bytes, codes, same_text}

-- The members of a declaration that are shown.
abbrev pub shown : MMap → Bytes × MappingType × ℤ
shown m = (permissions m, m.mapping, m.offset)

-- A result that leaves them as they are, or an exception.
abbrev Keeps : MMap → Result MMap → Type 0
Keeps m (ok n) = shown n ≡ shown m
Keeps m (throw e) = Unit

then_store-Keeps :
    (m : MMap) (r : Result ℤ) (f : ℤ → Result MMap)
    → ((z : ℤ) → Keeps m (f z))
    → Keeps m (then_store r f)
then_store-Keeps m (ok z) f h = h z
then_store-Keeps m (throw e) f h = tt

Keeps-trans : (m n : MMap) (r : Result MMap) → shown n ≡ shown m → Keeps n r → Keeps m r
Keeps-trans m n (ok o) h k = k ∙ h
Keeps-trans m n (throw e) h k = tt

and_then-Keeps :
    (m : MMap) (r : Result MMap) (f : MMap → Result MMap)
    → Keeps m r
    → ((n : MMap) → Keeps n (f n))
    → Keeps m (and_then r f)
and_then-Keeps m (ok n) f h k = Keeps-trans m n (f n) h (k n)
and_then-Keeps m (throw e) f h k = tt

-- The offset that is stored, 0 standing for none.
abbrev pub stored_offset : Result ℤ → ℤ
stored_offset (ok z) = to_int (to_u64 z)
stored_offset (throw e) = pos 0

numbers-Keeps :
    (m : MMap) (r0 r1 r2 r3 : Result ℤ)
    → Keeps
        (record m { offset = stored_offset r0 })
        (then_store r0 λ z0. then_store r1 λ z1. then_store r2 λ z2. then_store r3 λ z3.
          ok (record m { offset = to_int (to_u64 z0); dev_major = z1; dev_minor = z2; inode = z3 }))
unfolding permissions
numbers-Keeps m (throw e) r1 r2 r3 = tt
numbers-Keeps m (ok z0) (throw e) r2 r3 = tt
numbers-Keeps m (ok z0) (ok z1) (throw e) r3 = tt
numbers-Keeps m (ok z0) (ok z1) (ok z2) (throw e) = tt
numbers-Keeps m (ok z0) (ok z1) (ok z2) (ok z3) = refl

set_numbers-Keeps :
    (a b c d : Bytes) (m : MMap)
    → Keeps (record m { offset = stored_offset (stol a ten) }) (set_numbers a b c d m)
unfolding set_numbers
set_numbers-Keeps a b c d m =
    numbers-Keeps m (stol a ten) (stoi b sixteen) (stoi c sixteen) (stol d ten)

store_attribute-Keeps :
    (ks : List (Bytes × Attribute)) (key digit : Bytes) (m : MMap)
    → Keeps m (store_attribute ks key digit m)
unfolding store_attribute permissions
store_attribute-Keeps [] key digit m = refl
store_attribute-Keeps ((k, a) ∷ ks) key digit m = elim (Bool-cases (same_text key k)) [
  | inl e ↦ rw e (then_store-Keeps m (stoi digit ten) (λ z. ok (set_attribute a z m)) (λ z. refl))
  | inr e ↦ rw e (store_attribute-Keeps ks key digit m)
]

store_value-Keeps :
    (boost : Boost) (key value : Bytes) (o : Option (List Bytes)) (m : MMap)
    → Keeps m (store_value boost key value o m)
unfolding permissions
store_value-Keeps boost key value none m = refl
store_value-Keeps boost key value (some []) m = refl
store_value-Keeps boost key value (some (d ∷ [])) m = store_attribute-Keeps attribute_keys key d m
store_value-Keeps boost key value (some (d ∷ e ∷ ds)) m = refl

store_pair-Keeps :
    (boost : Boost) (o : Option (List Bytes)) (m : MMap) → Keeps m (store_pair boost o m)
store_pair-Keeps boost none m = refl
store_pair-Keeps boost (some []) m = refl
store_pair-Keeps boost (some (k ∷ [])) m = refl
store_pair-Keeps boost (some (k ∷ v ∷ [])) m =
    store_value-Keeps boost k (boost.trim v) (boost.regex_match regex_value (boost.trim v)) m
store_pair-Keeps boost (some (k ∷ v ∷ x ∷ xs)) m = refl

read_attributes-Keeps :
    (boost : Boost) (ls : List Bytes) (m : MMap) → Keeps m (read_attributes boost ls m)
unfolding read_attributes read_attribute
read_attributes-Keeps boost [] m = refl
read_attributes-Keeps boost (l ∷ ls) m =
    and_then-Keeps m (store_pair boost (boost.regex_match regex_key_value l) m)
      (read_attributes boost ls) (store_pair-Keeps boost (boost.regex_match regex_key_value l) m)
      (read_attributes-Keeps boost ls)

-- one letter or the dash
letter :
    (a c : ℕ)
    → either a b'-' c ≡ true
    → (if same_text (c ∷ []) (a ∷ []) then a ∷ [] else b'-' ∷ []) ≡ c ∷ []
unfolding same_text
letter a c h = ground arith

letter-Fits :
    (a : ℕ) (s : Bytes)
    → Fits (one (either a b'-')) s
    → (if same_text s (a ∷ []) then a ∷ [] else b'-' ∷ []) ≡ s
letter-Fits a s (c, e, h) = rw e (letter a c h)

type_of :
    (b : Bool)
    → (elim (if b then priv else shared) as (λ _. Bytes) [
      | shared ↦ codes "Shared"
      | priv ↦ codes "Private"
    ])
      ≡ (if b then codes "Private" else codes "Shared")
type_of true = refl
type_of false = refl

-- the members that the declaration sets before its numbers
abbrev unnumbered : (from to r w x t : Bytes) → MMap → MMap
unnumbered from to r w x t m = record m {
  address_from = from;
  address_to = to;
  perm_read = same_text r (codes "r");
  perm_write = same_text w (codes "w");
  perm_execute = same_text x (codes "x");
  mapping = if same_text t (codes "p") then priv else shared;
}

-- the members that the declaration itself sets, and the offset
abbrev named : (from to r w x t offset : Bytes) → MMap → MMap
named from to r w x t offset m = record (unnumbered from to r w x t m) {
  offset = stored_offset (stol offset ten);
}

declare-Keeps :
    (from to r w x t offset major minor inode path : Bytes) (m : MMap)
    → Keeps
        (named from to r w x t offset m)
        (declare (from ∷ to ∷ r ∷ w ∷ x ∷ t ∷ offset ∷ major ∷ minor ∷ inode ∷ path ∷ []) m)
unfolding declare permissions
declare-Keeps from to r w x t offset major minor inode path m =
    and_then-Keeps (named from to r w x t offset m)
      (set_numbers offset major minor inode (unnumbered from to r w x t m))
      (λ n. ok (record n { pathname = path }))
      (set_numbers-Keeps offset major minor inode (unnumbered from to r w x t m)) (λ n. refl)

Keeps-ok : (m : MMap) (r : Result MMap) {n : MMap} → Keeps m r → r ≡ ok n → shown n ≡ shown m
Keeps-ok m (ok o) h e = ap shown (sym (ok-injective e)) ∙ h
Keeps-ok m (throw x) h e = absurd (throw-ne-ok e)

named-shown :
    (from to r w x t offset : Bytes) (m : MMap)
    → Fits (one (either b'r' b'-')) r
    → Fits (one (either b'w' b'-')) w
    → Fits (one (either b'x' b'-')) x
    → shown (named from to r w x t offset m) ≡ (
      r ++ (w ++ x),
      if same_text t (codes "p") then priv else shared,
      stored_offset (stol offset ten),
    )
unfolding permissions
named-shown from to r w x t offset m fr fw fx =
    rw (letter-Fits b'r' r fr, letter-Fits b'w' w fw, letter-Fits b'x' x fx) refl

pub read_all-shown :
    (boost : Boost) (b : IsBoost boost) (l : Bytes) (ls : List Bytes)
    (from to r w x t offset major minor inode path : Bytes) (m : MMap) {n : MMap}
    → boost.regex_match regex_declare_mapping l
      ≡ some (from ∷ to ∷ r ∷ w ∷ x ∷ t ∷ offset ∷ major ∷ minor ∷ inode ∷ path ∷ [])
    → read_all boost (l ∷ ls) m ≡ ok n
    → shown n ≡ (
      r ++ (w ++ x),
      if same_text t (codes "p") then priv else shared,
      stored_offset (stol offset ten),
    )
unfolding read_all
read_all-shown boost b l ls from to r w x t offset major minor inode path m h k =
    let caps = from ∷ to ∷ r ∷ w ∷ x ∷ t ∷ offset ∷ major ∷ minor ∷ inode ∷ path ∷ [] in
    let (_, (_, (fr, (fw, (fx, _))))) =
      Matches-Groups regex_declare_mapping l caps (b.match_sound regex_declare_mapping l caps h) in
    let kept : Keeps (named from to r w x t offset m)
        (and_then (declare caps m) (read_attributes boost ls)) =
      and_then-Keeps (named from to r w x t offset m) (declare caps m) (read_attributes boost ls)
        (declare-Keeps from to r w x t offset major minor inode path m)
        (read_attributes-Keeps boost ls) in
    Keeps-ok (named from to r w x t offset m) (and_then (declare caps m) (read_attributes boost ls))
      kept (sym (ap (λ o. and_then (declare_matched o m) (read_attributes boost ls)) h) ∙ k)
    ∙ named-shown from to r w x t offset m fr fw fx

-- A mapping whose first line matches shows, if no number is refused, the three letters of the line as
-- its permissions, and the type Private exactly for a p; the attribute lines change neither.
pub read_all-permissions :
    (boost : Boost) (b : IsBoost boost) (l : Bytes) (ls : List Bytes)
    (from to r w x t offset major minor inode path : Bytes) (m : MMap) {n : MMap}
    → boost.regex_match regex_declare_mapping l
      ≡ some (from ∷ to ∷ r ∷ w ∷ x ∷ t ∷ offset ∷ major ∷ minor ∷ inode ∷ path ∷ [])
    → read_all boost (l ∷ ls) m ≡ ok n
    → (permissions n ≡ r ++ (w ++ x))
      × (type_name n ≡ (if same_text t (codes "p") then codes "Private" else codes "Shared"))
unfolding type_name
read_all-permissions boost b l ls from to r w x t offset major minor inode path m h k =
    let same = read_all-shown boost b l ls from to r w x t offset major minor inode path m h k in
    (
      ap (λ (q : Bytes × MappingType × ℤ). q.0) same,
      ap
            (λ (q : Bytes × MappingType × ℤ). elim q.1 as (λ _. Bytes) [
              | shared ↦ codes "Shared"
              | priv ↦ codes "Private"
            ])
            same
          ∙ type_of (same_text t (codes "p")),
    )
