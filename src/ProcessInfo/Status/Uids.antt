-- ===== src/ProcessInfo/Status/Uids.antt =====
-- The lists of ids over several calls of readStatus.
use libsysinfo.Boost.{Boost}
use libsysinfo.Prelude.{
  ◌≡◌, refl, sym, ap, ◌∙◌, Bool, true, false, List, [], ◌∷◌, ◌++◌, append_assoc, append-nil, Option,
  none, some, if◌then◌else◌, Bool-cases, inl, inr, ℤ, Result, ok, throw, throw-ne-ok, ok-injective,
  Result-cases,
}
use libsysinfo.ProcessInfo.Io.{lines_of}
use libsysinfo.ProcessInfo.Life.{need_update}
use libsysinfo.ProcessInfo.State.{Os, ProcessInfo, Status, VmField}
use libsysinfo.ProcessInfo.Status.{
  push_numbers, push_matched, read_vm, store_vm, store_matched, read_status_line, read_status_lines,
  read_status, update_status, clear_status, vm_keys, real_uid, regex_uids, regex_vm, name_of,
  name_or_number, user_name, status_value,
}
use libsysinfo.Text.Lines.{before, after}
use libsysinfo.Text.Number.{ten, stoi}
use libsysinfo.Text.{Bytes, codes, same_text}

-- The second list is the first with more behind it.
abbrev pub Extends : List ℤ → List ℤ → Type 0
Extends xs ys = (more : List ℤ) × (ys ≡ xs ++ more)

Extends-refl : (xs : List ℤ) → Extends xs xs
Extends-refl xs = ([], sym (append-nil xs))

Extends-trans : (xs ys zs : List ℤ) → Extends xs ys → Extends ys zs → Extends xs zs
Extends-trans xs ys zs (a, e) (b, k) = (a ++ b, k ∙ ap (λ t. t ++ b) e ∙ append_assoc xs a b)

push_numbers-Extends : (cs : List Bytes) (ids : List ℤ) → Extends ids (push_numbers cs ids).1
unfolding push_numbers
push_numbers-Extends [] ids = Extends-refl ids
push_numbers-Extends (c ∷ cs) ids = elim (Result-cases (stoi c ten)) [
  | inl (z, e) ↦
      rw (e, push_numbers)
        (Extends-trans ids (ids ++ z ∷ []) _ (z ∷ [], refl)
          (push_numbers-Extends cs (ids ++ z ∷ [])))
  | inr (x, e) ↦ rw (e, push_numbers) (Extends-refl ids)
]

push_matched-Extends : (m : Option (List Bytes)) (ids : List ℤ) → Extends ids (push_matched m ids).1
push_matched-Extends none ids = Extends-refl ids
push_matched-Extends (some caps) ids = push_numbers-Extends caps ids

store_matched-uids :
    (f : VmField) (m : Option (List Bytes)) (st : Status) → (store_matched f m st).1.uids ≡ st.uids
store_matched-uids f none st = refl
store_matched-uids f (some []) st = refl
store_matched-uids f (some (c ∷ cs)) st = go (stoi c ten)
  where
    go : (r : Result ℤ) → (store_vm f r st).1.uids ≡ st.uids
    go (ok z) = refl
    go (throw e) = refl

read_vm-uids :
    (boost : Boost) (ks : List (Bytes × VmField)) (key value : Bytes) (st : Status)
    → (read_vm boost ks key value st).1.uids ≡ st.uids
unfolding read_vm
read_vm-uids boost [] key value st = refl
read_vm-uids boost ((k, f) ∷ ks) key value st = elim (Bool-cases (same_text key k)) [
  | inl e ↦ rw e (store_matched-uids f (boost.regex_match regex_vm value) st)
  | inr e ↦ rw e (read_vm-uids boost ks key value st)
]

if-Extends :
    (b : Bool) (xs : List ℤ) (x y : Result (Unit {0}) × Status)
    → Extends xs x.1.uids
    → Extends xs y.1.uids
    → Extends xs (if b then x else y).1.uids
if-Extends true xs x y hx hy = hx
if-Extends false xs x y hx hy = hy

read_status_line-Extends :
    (boost : Boost) (l : Bytes) (st : Status) → Extends st.uids (read_status_line boost l st).1.uids
unfolding read_status_line
read_status_line-Extends boost l st =
    let key = before b':' l in
    let value = before b'\n' (after b':' l) in
    if-Extends (same_text key (codes "Uid")) st.uids _ _
      (push_matched-Extends (boost.regex_match regex_uids value) st.uids)
      (if-Extends (same_text key (codes "Gid")) st.uids _ _ (Extends-refl st.uids)
        (rw (read_vm-uids boost vm_keys key value st) (Extends-refl st.uids)))

-- Whatever the file holds, and however the read ends, the old user ids stay in front of the new.
pub read_status_lines-Extends :
    (boost : Boost) (ls : List Bytes) (st : Status)
    → Extends st.uids (read_status_lines boost ls st).1.uids
unfolding read_status_lines
read_status_lines-Extends boost [] st = Extends-refl st.uids
read_status_lines-Extends boost (l ∷ ls) st = elim (Result-cases (read_status_line boost l st).0) [
  | inl (z, e) ↦
      rw (e, read_status_lines)
        (Extends-trans st.uids (read_status_line boost l st).1.uids _
          (read_status_line-Extends boost l st)
          (read_status_lines-Extends boost ls (read_status_line boost l st).1))
  | inr (x, e) ↦ rw (e, read_status_lines) (read_status_line-Extends boost l st)
]

real_uid-Extends :
    (z : ℤ) (xs ys : List ℤ) → Extends xs ys → real_uid xs ≡ some z → real_uid ys ≡ some z
real_uid-Extends z [] ys e h = absurd (cc)
real_uid-Extends z (x ∷ xs) ys (more, e) h = ap real_uid e ∙ h

clear_status-value :
    {A : Type 0} (view : Status → A) (p : ProcessInfo) (r : Result (Unit {0})) (st : Status) {a : A}
    {q : ProcessInfo}
    → status_value view (clear_status (r, record p { status = st })) ≡ (ok a, q)
    → a ≡ view st
clear_status-value view p (ok t) st h = sym (ok-injective (ap (λ x. x.0) h))
clear_status-value view p (throw e) st h = absurd (throw-ne-ok (ap (λ x. x.0) h))

-- Once a user id has been read, userName after needUpdate goes on giving its name, if it returns:
-- the file is read again, but the ids that it holds now are put behind the old ones, and the
-- first is used.
pub user_name-stale :
    (boost : Boost) (os : Os) (p : ProcessInfo) (z : ℤ) {r : Option Bytes} {q : ProcessInfo}
    → real_uid p.status.uids ≡ some z
    → user_name boost os (need_update p) ≡ (ok r, q)
    → r ≡ some (name_or_number (os.user_name z) z)
unfolding user_name update_status read_status need_update
user_name-stale boost os p z known h =
    let text = lines_of (os.open_file (p.proc_path ++ codes "status")) in
    clear_status-value (λ st. name_of os (real_uid st.uids)) (need_update p) _ _ h
    ∙ ap (name_of os)
        (real_uid-Extends z p.status.uids _ (read_status_lines-Extends boost text p.status) known)
