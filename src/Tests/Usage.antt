-- ===== src/Tests/Usage.antt =====
-- The usage of files and of the processor.
use libsysinfo.Boost.Instance.{reference}
use libsysinfo.Boost.Reference.Trim.{trim}
use libsysinfo.Prelude.{to_u64, ◌≡◌, ◌*◌, ◌/◌, ◌≤◌, if◌then◌else◌, refl, arith, [], some, pos, ok}
use libsysinfo.ProcessInfo.Getters.{pid, utime, stime, update_stat}
use libsysinfo.ProcessInfo.Io.{read_bytes, update_io, read_io, read_io_lines, read_io_line, set_io}
use libsysinfo.ProcessInfo.Life.{need_update}
use libsysinfo.ProcessInfo.State.{Os, Usage, sum, per_second, zero_usage, assign}
use libsysinfo.ProcessInfo.Usage.Cpu.Rate.{
  cpu_rate_bounds, cpu_usage_twice, process_time, system_time,
}
use libsysinfo.ProcessInfo.Usage.Cpu.{Locals, cpu_rate, cpu_usage, update_cpu_usage, cpu_delta}
use libsysinfo.ProcessInfo.Usage.Mixed.{cpu_usage_behind_io}
use libsysinfo.ProcessInfo.Usage.Total.{io_total_usage-eq, io_read_usage_twice}
use libsysinfo.ProcessInfo.Usage.{
  Statics, find_oldstate, set_oldstate, io_read_usage, io_total_usage, sub_u64,
  update_io_read_usage, io_read_delta,
}
use libsysinfo.ProcessInfo.Stat.{read_stat, read_stat_from, extract_numbers}
use libsysinfo.Text.Stream.{extract_number, extract_word}
use libsysinfo.Tests.Data.{process, system}
use libsysinfo.Text.Lines.{lines, before, after}
use libsysinfo.Text.Number.{stol, strtol, convert, value, in_signed_range}
use libsysinfo.Text.{Bytes, codes, same_text, take_while, drop_while}

abbrev fresh : Statics
fresh = record { map_pid_oldstate = []; nb_core = some 4 }

abbrev before_read : Os
before_read = system 1000 (codes "read_bytes: 10\nwrite_bytes: 30\n")

abbrev after_write : Os
after_write = system 3000 (codes "read_bytes: 25\nwrite_bytes: 90\n")

io_read_usage_twice_example :
    (io_read_usage reference after_write
      (io_read_usage reference before_read fresh (need_update (process []))).1
      (need_update (io_read_usage reference before_read fresh (need_update (process []))).2)).0
    ≡ ok (per_second 15 (pos 2000))
unfolding read_bytes update_io read_io read_io_lines read_io_line set_io need_update lines before
    after stol strtol convert value in_signed_range same_text take_while drop_while trim
    io_read_usage update_io_read_usage io_read_delta find_oldstate set_oldstate pid to_u64
io_read_usage_twice_example =
    io_read_usage_twice reference before_read after_write fresh (process []) refl refl (omega arith)
      (omega arith) (omega arith)

io_total_usage-eq_example :
    (u : Usage) × ((io_read_usage reference before_read fresh (need_update (process []))).0 ≡ ok u)
    × ((io_total_usage reference before_read fresh (need_update (process []))).0
        ≡ ok (sum u zero_usage))
unfolding read_bytes update_io read_io read_io_lines read_io_line set_io need_update lines before
    after stol strtol convert value in_signed_range same_text take_while drop_while trim
io_total_usage-eq_example = io_total_usage-eq reference before_read fresh (process []) refl

cpu_rate_bounds_example :
    (cpu_rate 4 30 100 ≡ pos (100 * 4 * 30 / 100)) × (100 * 4 * 30 / 100 ≤ 100 * 4)
cpu_rate_bounds_example =
    cpu_rate_bounds 4 30 100 (omega arith) (omega arith) (omega arith) (omega arith)

abbrev locals : Locals
locals = record { nice = pos 0; system = pos 0; idle = pos 0 }

-- A system with this text of /proc/stat, and this line for each process.
abbrev cpu_system : Bytes → Bytes → Os
cpu_system cpu line = record (system 0 []) {
  open_file = λ path. if same_text path (codes "/proc/stat") then some cpu else some line;
}

abbrev early : Os
early =
    cpu_system (codes "cpu  100 0 100 800 9\n")
      (codes "7 (sh) S 1 7 7 0 -1 0 0 0 0 0 20 5 0 0 20 0 1 0 100 4096 0 ")

abbrev late : Os
late =
    cpu_system (codes "cpu  150 0 150 900 9\n")
      (codes "7 (sh) S 1 7 7 0 -1 0 0 0 0 0 30 15 0 0 20 0 1 0 100 4096 0 ")

cpu_usage_twice_example :
    (cpu_usage reference locals late
      (cpu_usage reference locals early fresh (need_update (process []))).1
      (need_update (cpu_usage reference locals early fresh (need_update (process []))).2)).0
    ≡ ok (
        cpu_rate 4
          (sub_u64
            (process_time late
              (need_update (cpu_usage reference locals early fresh (need_update (process []))).2))
            (process_time early (need_update (process []))))
          (sub_u64 (system_time locals late) (system_time locals early)))
unfolding cpu_usage update_cpu_usage cpu_delta need_update pid utime stime update_stat read_stat
    read_stat_from extract_number extract_word extract_numbers assign find_oldstate same_text
cpu_usage_twice_example = cpu_usage_twice reference locals early late fresh (process []) refl refl

cpu_usage_behind_io_example :
    (cpu_usage reference locals late
      (io_read_usage reference before_read fresh (need_update (process []))).1
      (io_read_usage reference before_read fresh (need_update (process []))).2).0
    ≡ ok (
        cpu_rate 4
          (sub_u64
            (process_time late
              (io_read_usage reference before_read fresh (need_update (process []))).2)
            12)
          (sub_u64 (system_time locals late) 11))
unfolding read_bytes update_io read_io read_io_lines read_io_line set_io need_update lines before
    after stol strtol convert value in_signed_range same_text take_while drop_while trim
    io_read_usage update_io_read_usage io_read_delta find_oldstate set_oldstate pid to_u64 utime
    stime update_stat read_stat read_stat_from extract_number extract_word extract_numbers assign
cpu_usage_behind_io_example =
    cpu_usage_behind_io reference locals before_read late fresh (process []) refl refl refl refl
