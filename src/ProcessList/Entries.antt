-- ===== src/ProcessList/Entries.antt =====
-- The lists over the entries of /proc, directories of processes and others.
use libsysinfo.Boost.{Boost, IsBoost}
use libsysinfo.Prelude.{
  to_int, ℕ, ◌^◌, ◌<◌, ◌≡◌, ◌≢◌, refl, sym, ap, ◌∙◌, ◌⊎◌, inl, inr, Bool, true, false, ◌&&◌, List,
  [], ◌∷◌, ◌++◌, append_assoc, append-nil, map, length, length-map, All, some, Option-cases, ℤ, pos,
  ok,
}
use libsysinfo.ProcessInfo.Life.{process_info, need_update}
use libsysinfo.ProcessInfo.State.{Os, ProcessInfo}
use libsysinfo.ProcessList.{
  regex_number, is_match, entry_path, list_pids, list_entries, process_list_pid, with_pids,
  process_count, process_list,
}
use libsysinfo.Text.Decimal.{to_string, to_string-AllOf, to_string-ne-nil, stoi-to_string}
use libsysinfo.Text.{Bytes, codes, is_digit, AllOf}

-- An entry of /proc: the directory of a process, or something else.
pub data Entry : Type 0 where
  of_process : ℕ → Entry
  other : Bytes → Entry

abbrev pub name_of : Entry → Bytes
name_of (of_process n) = to_string n
name_of (other s) = s

abbrev pub numbers : List Entry → List ℕ
numbers [] = []
numbers (of_process n ∷ es) = n ∷ numbers es
numbers (other s ∷ es) = numbers es

-- The directory of a process is a directory, and its number an int; anything else is no directory or
-- has a name that is no run of digits.
abbrev pub IsProc : Os → Entry → Type 0
IsProc os (of_process n) = (os.is_directory (entry_path (to_string n)) ≡ true) × (n < 2 ^ 31)
IsProc os (other s) = (os.is_directory (entry_path s) ≡ false) ⊎ (¬ ((s ≢ []) × AllOf is_digit s))

and-false : (x : Bool) → (x && false) ≡ false
and-false true = refl
and-false false = refl

module _ (boost : Boost) (b : IsBoost boost) (os : Os) where
  number-is_match :
      (s : Bytes) → s ≢ [] → AllOf is_digit s → is_match (boost.regex_match regex_number s) ≡ true
  number-is_match s ne a = elim (Option-cases (boost.regex_match regex_number s)) [
    | inl e ↦
        absurd
          (b.match_complete regex_number s [] (s, [], sym (append-nil s), (ne, a), (refl, refl)) e)
    | inr (caps, e) ↦ ap is_match e
  ]

  other-is_match :
      (s : Bytes)
      → ¬ ((s ≢ []) × AllOf is_digit s)
      → is_match (boost.regex_match regex_number s) ≡ false
  other-is_match s h = elim (Option-cases (boost.regex_match regex_number s)) [
    | inl e ↦ ap is_match e
    | inr (caps, e) ↦
        let (run, rest, split, (ne, a), (end, k)) = b.match_sound regex_number s caps e in
        let same : s ≡ run = split ∙ ap (λ t. run ++ t) end ∙ append-nil run in
        absurd (h (rw same (ne, a)))
  ]

  other_false :
      (s : Bytes)
      → IsProc os (other s)
      → (os.is_directory (entry_path s) && is_match (boost.regex_match regex_number s)) ≡ false
  other_false s (inl h) = ap (λ x. x && is_match (boost.regex_match regex_number s)) h
  other_false s (inr h) =
      ap (λ x. os.is_directory (entry_path s) && x) (other-is_match s h)
      ∙ and-false (os.is_directory (entry_path s))

  list_pids-numbers :
      (es : List Entry) (pids : List ℤ)
      → All (IsProc os) es
      → list_pids boost os (map name_of es) pids ≡ ok (pids ++ map pos (numbers es))
  unfolding list_pids
  list_pids-numbers [] pids h = ap ok (sym (append-nil pids))
  list_pids-numbers (of_process n ∷ es) pids ((dir, small), h) =
      let found : (os.is_directory (entry_path (to_string n))
            && is_match (boost.regex_match regex_number (to_string n)))
          ≡ true =
        ap (λ x. x && is_match (boost.regex_match regex_number (to_string n))) dir
        ∙ number-is_match (to_string n) (to_string-ne-nil n) (to_string-AllOf n) in
      rw (found, list_pids)
        (rw (stoi-to_string n small, list_pids)
          (list_pids-numbers es (pids ++ pos n ∷ []) h
            ∙ ap ok (append_assoc pids (pos n ∷ []) (map pos (numbers es)))))
  list_pids-numbers (other s ∷ es) pids (is_other, h) =
      rw (other_false s is_other, list_pids) (list_pids-numbers es pids h)

  proc_paths :
      (raw : ProcessInfo) (ns : List ℕ)
      → map (λ (p : ProcessInfo). p.proc_path) (map (process_info raw) (map pos ns))
        ≡ map (λ n. entry_path (to_string n) ++ codes "/") ns
  unfolding process_info need_update
  proc_paths raw [] = refl
  proc_paths raw (n ∷ ns) = ap (◌∷◌ (entry_path (to_string n) ++ codes "/")) (proc_paths raw ns)

  -- If the entries of /proc are directories named by a number below 2 ^ 31, and others that are no
  -- directory or have another name, then processListPid returns exactly these numbers in the order
  -- of the directory, processCount how many they are as an int, and processList an object for each,
  -- which reads its files from that very directory.
  pub process_list-numbers :
      (raw : ProcessInfo) (es : List Entry)
      → os.list_directory (codes "/proc") ≡ some (map name_of es)
      → All (IsProc os) es
      → (ps : List ProcessInfo) × (process_list boost os raw ≡ ok ps)
        × (map (λ (p : ProcessInfo). p.proc_path) ps
            ≡ map (λ n. entry_path (to_string n) ++ codes "/") (numbers es))
        × (process_list_pid boost os ≡ ok (map pos (numbers es)))
        × (process_count boost os ≡ ok (to_int (length (numbers es))))
  unfolding process_list process_count process_list_pid
  process_list-numbers raw es e h =
      let pids : process_list_pid boost os ≡ ok (map pos (numbers es)) =
        ap (list_entries boost os) e ∙ list_pids-numbers es [] h in
      (
        map (process_info raw) (map pos (numbers es)),
        ap (λ r. with_pids r (map (process_info raw))) pids,
        proc_paths raw (numbers es),
        pids,
        ap (λ r. with_pids r λ ps. to_int (length ps)) pids
            ∙ ap (λ n. ok (to_int n)) (length-map pos (numbers es)),
      )
