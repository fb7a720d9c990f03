-- ===== src/Tests/Files.antt =====
-- The arguments, the environment and the counters of a process.
use libsysinfo.Prelude.Dictionary.{find, last_value}
use libsysinfo.Prelude.{List, map, ok, arith, ◌≡◌, refl, [], ◌∷◌}
use libsysinfo.Boost.Instance.{reference, reference-IsBoost}
use libsysinfo.ProcessInfo.Io.RoundTrip.{io_lines, read_io-io_lines}
use libsysinfo.ProcessInfo.Io.{read_io}
use libsysinfo.ProcessInfo.Environ.Kept.{
  Entry, variable_of, with_lines, bare, entry_text, environ-last_value,
}
use libsysinfo.ProcessInfo.Environ.{environ}
use libsysinfo.ProcessInfo.Life.{need_update}
use libsysinfo.ProcessInfo.Links.Cmdline.{cmdline-unlines}
use libsysinfo.ProcessInfo.Links.{cmdline}
use libsysinfo.ProcessInfo.State.{Os, ProcessInfo, IoStat}
use libsysinfo.Tests.Data.{process, system, no_io}
use libsysinfo.Text.Lines.{unlines}
use libsysinfo.Text.{codes, same_text}

abbrev command : Os
command = system 0 (unlines 0 (codes "sleep" ∷ [] ∷ codes "10" ∷ []))

cmdline-unlines_example :
    ((cmdline command (need_update (process []))).0 ≡ codes "sleep" ∷ [] ∷ codes "10" ∷ [])
    × ((cmdline (system 1 []) (cmdline command (need_update (process []))).1).0
        ≡ codes "sleep" ∷ [] ∷ codes "10" ∷ [])
cmdline-unlines_example =
    cmdline-unlines command (system 1 []) (process []) (codes "sleep" ∷ [] ∷ codes "10" ∷ []) refl
      (assumption refl)

abbrev with_home : ProcessInfo
with_home = record (process []) { environ = (codes "HOME", codes "/root") ∷ [] }

-- The second USER has two lines, and HOME is no longer in the file.
abbrev variables : List Entry
variables =
    variable_of (codes "USER") (codes "x")
    ∷ with_lines (codes "USER") (codes "y") (codes "z=1")
    ∷ bare (codes "A")
    ∷ []

environ-last_value_example :
    find same_text
      (codes "USER")
      (environ (system 1 (unlines 0 (map entry_text variables))) (need_update with_home)).0
    ≡ last_value same_text
        (codes "USER")
        ((codes "USER", codes "x") ∷ (codes "USER", codes "y") ∷ (codes "A", []) ∷ [])
        (find same_text (codes "USER") ((codes "HOME", codes "/root") ∷ []))
environ-last_value_example =
    environ-last_value (system 1 (unlines 0 (map entry_text variables))) with_home (codes "USER")
      variables refl
      (
        (assumption refl, assumption refl),
        ((assumption refl, assumption refl), (assumption refl, tt)),
      )
      (assumption refl)

abbrev counters : IoStat
counters = record no_io { rchar = 4096; syscr = 3; read_bytes = 1048576; last_read = 1 }

read_io-io_lines_example :
    read_io reference (system 5 (unlines b'\n' (io_lines counters))) (process [])
    ≡ (ok tt, record (process []) { io = record counters { last_read = 5 } })
read_io-io_lines_example =
    read_io-io_lines reference reference-IsBoost (system 5 (unlines b'\n' (io_lines counters)))
      (process []) counters refl
      (omega arith, omega arith, omega arith, omega arith, omega arith, omega arith, omega arith)
