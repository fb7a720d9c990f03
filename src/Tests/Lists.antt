-- ===== src/Tests/Lists.antt =====
-- A /proc with two processes, and the terminals.
use libsysinfo.Boost.Instance.{reference, reference-IsBoost}
use libsysinfo.Prelude.Dictionary.{find, last_value}
use libsysinfo.Prelude.{
  to_int, ◌≡◌, refl, inl, inr, true, false, not, List, [], ◌∷◌, ◌++◌, map, length, some, pos,
  to_u64, eqb_ℤ, ok, arith, if◌then◌else◌,
}
use libsysinfo.ProcessInfo.Fd.Kept.{link, fds-last_value}
use libsysinfo.ProcessInfo.Fd.{Fds, fds}
use libsysinfo.ProcessInfo.Life.{need_update}
use libsysinfo.ProcessInfo.State.{Os, ProcessInfo, m_tty_nr}
use libsysinfo.ProcessInfo.Getters.{update_stat}
use libsysinfo.ProcessInfo.Tty.Device.{IsTerminal, tty_nr-IsTerminal}
use libsysinfo.ProcessInfo.Tty.{tty_nr}
use libsysinfo.ProcessList.Entries.{
  Entry, of_process, other, name_of, numbers, process_list-numbers,
}
use libsysinfo.ProcessList.{entry_path, process_list_pid, process_count, process_list}
use libsysinfo.Tests.Data.{process, system}
use libsysinfo.Text.Decimal.{to_string}
use libsysinfo.Text.{Bytes, codes, same_text}

abbrev entries : List Entry
entries = of_process 1 ∷ other (codes "net") ∷ other (codes "77") ∷ of_process 42 ∷ []

-- 77 is a file.
abbrev proc : Os
proc = record (system 0 []) {
  list_directory = λ path. some (map name_of entries);
  is_directory = λ path. not (same_text path (codes "/proc/77"));
}

process_list-numbers_example :
    (ps : List ProcessInfo) × (process_list reference proc (process []) ≡ ok ps)
    × (map (λ (p : ProcessInfo). p.proc_path) ps
        ≡ map (λ n. entry_path (to_string n) ++ codes "/") (numbers entries))
    × (process_list_pid reference proc ≡ ok (map pos (numbers entries)))
    × (process_count reference proc ≡ ok (to_int (length (numbers entries))))
unfolding same_text to_string
process_list-numbers_example =
    process_list-numbers reference reference-IsBoost proc (process []) entries refl (
      (refl, omega arith),
      (inr (λ h. let no_digit : false ≡ true = h.1.0 in cc), (inl refl, ((refl, omega arith), tt))),
    )

-- A process on /dev/pts/3.
abbrev terminals : Os
terminals = record (system 0 (codes "7 (sh) S 1 1 1 34819 ")) {
  list_directory = λ path.
      if same_text path (codes "/dev")
      then some (codes "tty1" ∷ codes "null" ∷ [])
      else some (codes "0" ∷ codes "3" ∷ []);
  device = λ path. if same_text path (codes "/dev/pts/3") then some 34819 else some 0;
}

tty_nr-IsTerminal_example :
    (path : Bytes) × ((tty_nr reference terminals (need_update (process []))).0 ≡ ok path)
    × IsTerminal terminals
        (to_u64 ((update_stat terminals (need_update (process []))).stat.number m_tty_nr))
        (codes "tty1" ∷ codes "null" ∷ [])
        (codes "0" ∷ codes "3" ∷ [])
        path
unfolding same_text
tty_nr-IsTerminal_example =
    tty_nr-IsTerminal reference reference-IsBoost terminals (need_update (process []))
      (codes "tty1" ∷ codes "null" ∷ []) (codes "0" ∷ codes "3" ∷ []) refl refl

abbrev open_files : Os
open_files = record (system 0 []) {
  list_directory = λ path. some (map to_string (0 ∷ 12 ∷ []));
  read_symlink = λ path. some (codes "/dev/null");
}

-- Descriptor 5 was open at an earlier read.
abbrev with_fd : ProcessInfo
with_fd = record (process []) { fds = (pos 5, codes "/tmp/x") ∷ [] }

fds-last_value_example :
    (m : Fds) × ((fds open_files (need_update with_fd)).0 ≡ ok m)
    × (find eqb_ℤ (pos 5) m
        ≡ last_value eqb_ℤ
            (pos 5)
            (map (link open_files (codes "/proc/7/fd")) (0 ∷ 12 ∷ []))
            (find eqb_ℤ (pos 5) ((pos 5, codes "/tmp/x") ∷ [])))
fds-last_value_example =
    fds-last_value open_files with_fd (0 ∷ 12 ∷ []) (pos 5) refl (omega arith, (omega arith, tt))
