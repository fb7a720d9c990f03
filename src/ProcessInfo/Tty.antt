-- ===== src/ProcessInfo/Tty.antt =====
-- src/processinfo.cpp: ttyNr, which looks for the device of the controlling terminal.
pub mod Device
use libsysinfo.Boost.Pattern.{plain, group, many, one, Regex, lit}
use libsysinfo.Boost.{Boost}
use libsysinfo.Prelude.{
  ℕ, Bool, true, false, ◌&&◌, List, [], ◌∷◌, ◌++◌, Option, none, some, ◌==◌, if◌then◌else◌, ℤ,
  to_u64, Result, ok, throw, filesystem_error,
}
use libsysinfo.ProcessInfo.Getters.{update_stat}
use libsysinfo.ProcessInfo.Io.{Effect}
use libsysinfo.ProcessInfo.State.{Os, ProcessInfo, m_tty_nr}
use libsysinfo.ProcessList.{is_match}
use libsysinfo.Text.{Bytes, codes, is_digit}

-- ^tty\d*$
abbrev pub regex_tty : Regex
regex_tty = lit b't' ∷ lit b't' ∷ lit b'y' ∷ plain (many is_digit) ∷ []

-- stat succeeds, and st_rdev is the number
abbrev pub has_device : ℕ → Option ℕ → Bool
has_device n none = false
has_device n (some d) = d == n

-- The loop over a directory: the first path that is looked at and has the device.
unfoldable pub find_device : Os → (Bytes → Bool) → Bytes → ℕ → List Bytes → Option Bytes
find_device os looked_at directory n [] = none
find_device os looked_at directory n (name ∷ names) =
    let rest = find_device os looked_at directory n names in
    if looked_at name && has_device n (os.device (directory ++ name))
    then some (directory ++ name)
    else rest

abbrev pub every_name : Bytes → Bool
every_name name = true

abbrev pub is_tty : Boost → Bytes → Bool
is_tty boost name = is_match (boost.regex_match regex_tty name)

-- /dev/pts, which is looked at last
abbrev pub in_pts : Os → ℕ → Option (List Bytes) → Result Bytes
in_pts os n none = throw filesystem_error
in_pts os n (some names) = elim (find_device os every_name (codes "/dev/pts/") n names) [
  | some path ↦ ok path
  | none ↦ ok []
]

abbrev pub in_dev : Boost → Os → ℕ → Option (List Bytes) → Result Bytes
in_dev boost os n none = throw filesystem_error
in_dev boost os n (some names) = elim (find_device os (is_tty boost) (codes "/dev/") n names) [
  | some path ↦ ok path
  | none ↦ in_pts os n (os.list_directory (codes "/dev/pts"))
]

-- ProcessInfo::ttyNr. The comparison with st_rdev converts the int to unsigned long.
unfoldable pub tty_nr : Boost → Os → ProcessInfo → Effect Bytes
unfolding find_device
tty_nr boost os p =
    let q = update_stat os p in
    (in_dev boost os (to_u64 (q.stat.number m_tty_nr)) (os.list_directory (codes "/dev")), q)
