-- ===== src/Tests/Session.antt =====
-- An object that is asked for its usage of files twice.
use libsysinfo.Boost.Instance.{reference}
use libsysinfo.Prelude.{[], ◌∷◌, pos, arith}
use libsysinfo.ProcessInfo.Life.{need_update}
use libsysinfo.ProcessInfo.State.{Os}
use libsysinfo.ProcessInfo.Status.{update_status}
use libsysinfo.ProcessInfo.Usage.Clock.Others.{of_cwd, ask_file}
use libsysinfo.ProcessInfo.Usage.Clock.Session.{
  Session, after_reply, here, next, refreshes, asks_read_usage, asks_status, asks_file, begun,
  Yields, usage-Yields,
}
use libsysinfo.ProcessInfo.Usage.{io_read_usage, io_write_usage, io_total_usage}
use libsysinfo.Tests.Data.{process, system}
use libsysinfo.Text.Lines.{unlines}
use libsysinfo.Text.{codes}

abbrev first : Os
first = system 5 (unlines b'\n' (codes "read_bytes: 10" ∷ []))

abbrev second : Os
second = system 9 (unlines b'\n' (codes "read_bytes: 50" ∷ codes "write_bytes: 3" ∷ []))

abbrev start : Session
start = begun 1 (process []) (pos 7)

abbrev asked : Session
asked = after_reply 5 (io_read_usage reference first start.statics start.object)

-- The owner asks for the status and the directory in between.
abbrev named : Session
named = record asked { object = (update_status reference first asked.object).1 }

abbrev moved : Session
moved = record named { object = ask_file of_cwd first named.object }

abbrev refreshed : Session
refreshed = record moved { object = need_update moved.object }

usage-Yields_example :
    Yields (io_read_usage reference second refreshed.statics refreshed.object)
    × Yields (io_write_usage reference second refreshed.statics refreshed.object)
    × Yields (io_total_usage reference second refreshed.statics refreshed.object)
usage-Yields_example =
    usage-Yields reference 1 (process []) (pos 7) second {s = refreshed}
      (next {t = moved}
        (next {t = named}
          (next {t = asked} (next {t = start} here (asks_read_usage first (omega arith)))
            (asks_status first))
          (asks_file of_cwd first))
        refreshes)
      (omega arith)
