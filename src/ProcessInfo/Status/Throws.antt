-- ===== src/ProcessInfo/Status/Throws.antt =====
-- The exceptions of readStatus: a number that does not fit in an int.
use libsysinfo.Boost.Pattern.{Regex, Matches, Fits, plain, group}
use libsysinfo.Boost.{Boost, IsBoost}
use libsysinfo.Prelude.{
  ◌^◌, ◌≡◌, ◌≢◌, refl, sym, Bool, true, false, List, [], ◌∷◌, ◌++◌, some, arith, if◌then◌else◌,
  Bool-cases, Option-cases, inl, inr, ℤ, Result, Exception, ok, throw, out_of_range, Result-cases,
  throw-ne-ok, All, ltb,
}
use libsysinfo.ProcessInfo.State.{Status, VmField}
use libsysinfo.ProcessInfo.Status.{
  push_numbers, push_matched, read_vm, store_vm, store_matched, read_status_line, read_status_lines,
  vm_keys, regex_uids, regex_vm,
}
use libsysinfo.Text.Decimal.{strtol-value, strtol_overflow}
use libsysinfo.Text.Lines.{before, after}
use libsysinfo.Text.Number.{ten, stoi, value}
use libsysinfo.Text.{Bytes, codes, same_text, is_digit, AllOf}

-- A run of digits.
abbrev pub IsNumber : Bytes → Type 0
IsNumber s = (s ≢ []) × AllOf is_digit s

-- The only exception that a computation may end with is out_of_range.
pub data Fine {A : Type 0} : Result A → Type 0 where
  returns : {a : A} → Fine (ok a)
  too_large : Fine (throw out_of_range)

pub Fine-throw :
    {A : Type 0} {r : Result A} {e : Exception} → Fine r → r ≡ throw e → e ≡ out_of_range
Fine-throw returns h = absurd (throw-ne-ok (sym h))
Fine-throw too_large h = cc

pub throw-Fine : {e : Exception} → e ≡ out_of_range → Fine {A = Unit {0}} (throw e)
throw-Fine h = rw h too_large

-- the text of digits is a number, or too large
pub stoi-IsNumber : (s : Bytes) → IsNumber s → Fine (stoi s ten)
unfolding stoi
stoi-IsNumber s (ne, a) = elim (Bool-cases (ltb (value ten 0 s) (2 ^ 31))) [
  | inl e ↦ rw (strtol-value 31 s ne a (ground arith)) returns
  | inr e ↦ rw (strtol_overflow 31 s ne a (ground arith)) too_large
]

push_numbers-Fine :
    (cs : List Bytes) (ids : List ℤ) → All IsNumber cs → Fine (push_numbers cs ids).0
unfolding push_numbers
push_numbers-Fine [] ids h = returns
push_numbers-Fine (c ∷ cs) ids h = elim (Result-cases (stoi c ten)) [
  | inl (z, e) ↦ rw (e, push_numbers) (push_numbers-Fine cs (ids ++ z ∷ []) h.1)
  | inr (x, e) ↦ rw (e, push_numbers) (throw-Fine (Fine-throw (stoi-IsNumber c h.0) e))
]

-- Every group of the pattern takes numbers only.
abbrev GroupsAreNumbers : Regex → Type 0
GroupsAreNumbers [] = Unit
GroupsAreNumbers (plain x ∷ r) = GroupsAreNumbers r
GroupsAreNumbers (group x ∷ r) = ((s : Bytes) → Fits x s → IsNumber s) × GroupsAreNumbers r

Matches-All :
    (r : Regex) (s : Bytes) (caps : List Bytes)
    → GroupsAreNumbers r
    → Matches r s caps
    → All IsNumber caps
Matches-All [] s caps g (_, e) = rw e tt
Matches-All (plain x ∷ r) s caps g (run, rest, _, _, m) = Matches-All r rest caps g m
Matches-All (group x ∷ r) s caps g (run, rest, later, _, f, e, m) =
    rw e (g.0 run f, Matches-All r rest later g.1 m)

module _ (boost : Boost) (b : IsBoost boost) where
  push_matched-Fine :
      (s : Bytes) (ids : List ℤ) → Fine (push_matched (boost.regex_match regex_uids s) ids).0
  push_matched-Fine s ids = elim (Option-cases (boost.regex_match regex_uids s)) [
    | inl e ↦ rw e returns
    | inr (caps, e) ↦ rw e (
        push_numbers-Fine caps ids (
          Matches-All regex_uids s caps ((λ t f. f), ((λ t f. f), ((λ t f. f), ((λ t f. f), tt))))
            (b.match_sound regex_uids s caps e)))
  ]

  store_vm-Fine : (f : VmField) (r : Result ℤ) (st : Status) → Fine r → Fine (store_vm f r st).0
  store_vm-Fine f (ok z) st h = returns
  store_vm-Fine f (throw e) st h = throw-Fine (Fine-throw h refl)

  store_matched-Fine :
      (f : VmField) (st : Status) (caps : List Bytes)
      → All IsNumber caps
      → Fine (store_matched f (some caps) st).0
  store_matched-Fine f st [] h = returns
  store_matched-Fine f st (c ∷ cs) h = store_vm-Fine f (stoi c ten) st (stoi-IsNumber c h.0)

  read_vm-Fine :
      (ks : List (Bytes × VmField)) (key v : Bytes) (st : Status)
      → Fine (read_vm boost ks key v st).0
  unfolding read_vm
  read_vm-Fine [] key v st = returns
  read_vm-Fine ((k, f) ∷ ks) key v st = elim (Bool-cases (same_text key k)) [
    | inr e ↦ rw e (read_vm-Fine ks key v st)
    | inl e ↦ rw e (elim (Option-cases (boost.regex_match regex_vm v)) [
      | inl none_found ↦ rw none_found returns
      | inr (caps, found) ↦ rw found (
          store_matched-Fine f st caps
            (Matches-All regex_vm v caps ((λ t f. f), tt) (b.match_sound regex_vm v caps found)))
    ])
  ]

  if-Fine :
      (c : Bool) (x y : Result (Unit {0}) × Status)
      → Fine x.0
      → Fine y.0
      → Fine (if c then x else y).0
  if-Fine true x y hx hy = hx
  if-Fine false x y hx hy = hy

  read_status_line-Fine : (l : Bytes) (st : Status) → Fine (read_status_line boost l st).0
  unfolding read_status_line
  read_status_line-Fine l st =
      let key = before b':' l in
      let v = before b'\n' (after b':' l) in
      if-Fine (same_text key (codes "Uid")) _ _ (push_matched-Fine v st.uids) (
        if-Fine (same_text key (codes "Gid")) _ _ (push_matched-Fine v st.gids)
          (read_vm-Fine vm_keys key v st))

  read_status_lines-Fine : (ls : List Bytes) (st : Status) → Fine (read_status_lines boost ls st).0
  unfolding read_status_lines
  read_status_lines-Fine [] st = returns
  read_status_lines-Fine (l ∷ ls) st = elim (Result-cases (read_status_line boost l st).0) [
    | inl (z, e) ↦
        rw (e, read_status_lines) (read_status_lines-Fine ls (read_status_line boost l st).1)
    | inr (x, e) ↦
        rw (e, read_status_lines) (throw-Fine (Fine-throw (read_status_line-Fine l st) e))
  ]

  -- Whatever the file holds, readStatus throws nothing but out_of_range: the patterns let only
  -- digits through to stoi, so it never meets a text that is no number.
  pub read_status_lines_throws :
      (ls : List Bytes) (st : Status) {e : Exception}
      → (read_status_lines boost ls st).0 ≡ throw e
      → e ≡ out_of_range
  read_status_lines_throws ls st h = Fine-throw (read_status_lines-Fine ls st) h
