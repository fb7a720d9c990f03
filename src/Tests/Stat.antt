-- ===== src/Tests/Stat.antt =====
-- readStat and the getters over it.
use libsysinfo.Prelude.{◌∷◌, ◌≡◌, refl, [], arith, pos}
use libsysinfo.ProcessInfo.Stat.RoundTrip.{stat_text, IsPrintable, read_stat_from-stat_text}
use libsysinfo.ProcessInfo.Stat.Blank.{Shifted, blank_line, read_stat_from-Shifted}
use libsysinfo.ProcessInfo.Stat.{describe_state, read_stat_from}
use libsysinfo.ProcessInfo.State.{Stat, m_pid}
use libsysinfo.Tests.Data.{sample, process, system}
use libsysinfo.ProcessInfo.Getters.Snapshot.{
  run_calls, members_of, run_calls-stat_text, run_calls-members_of,
}
use libsysinfo.ProcessInfo.Getters.{update_stat}
use libsysinfo.ProcessInfo.Life.{need_update}
use libsysinfo.Text.Stream.{good}
use libsysinfo.Text.{codes}

abbrev blank : Stat
blank = record { name = []; state = []; number = λ f. pos 7 }

sample-IsPrintable : IsPrintable sample
sample-IsPrintable = ground arith

read_stat_from-stat_text_example :
    read_stat_from (good (stat_text sample)) blank
    ≡ record { name = codes "bash"; state = describe_state (codes "S"); number = sample.number }
read_stat_from-stat_text_example = read_stat_from-stat_text sample blank sample-IsPrintable

read_stat_from-Shifted_example :
    Shifted
      (codes "tmux:")
      (codes "server")
      (sample.number m_pid)
      blank
      (read_stat_from (good (blank_line (codes "tmux:") (codes "server") b'S' sample)) blank)
read_stat_from-Shifted_example =
    read_stat_from-Shifted (codes "tmux:") (codes "server") b'S' sample blank (ground arith)
      (ground arith) (cc) refl (omega arith)

run_calls-stat_text_example :
    run_calls ((9, system 0 (stat_text sample)) ∷ (10, system 1 []) ∷ []) (need_update (process []))
    ≡ members_of sample.number ((9, system 0 (stat_text sample)) ∷ (10, system 1 []) ∷ [])
run_calls-stat_text_example =
    run_calls-stat_text 9 (system 0 (stat_text sample)) ((10, system 1 []) ∷ []) (process []) sample
      refl sample-IsPrintable

run_calls-members_of_example :
    run_calls ((9, system 0 (codes "7 (sh) R 1 ")) ∷ (10, system 1 []) ∷ []) (process [])
    ≡ members_of
        (update_stat (system 0 (codes "7 (sh) R 1 ")) (process [])).stat.number
        ((9, system 0 (codes "7 (sh) R 1 ")) ∷ (10, system 1 []) ∷ [])
run_calls-members_of_example =
    run_calls-members_of 9 (system 0 (codes "7 (sh) R 1 ")) ((10, system 1 []) ∷ []) (process [])
