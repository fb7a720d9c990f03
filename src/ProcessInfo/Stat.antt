-- ===== src/ProcessInfo/Stat.antt =====
-- src/processinfo.cpp, readStat: the members read from /proc/<pid>/stat.
pub mod Blank
pub mod Fields
pub mod Line
pub mod RoundTrip
use libsysinfo.Prelude.{
  ℕ, Bool, true, false, List, [], ◌∷◌, ◌++◌, Option, none, some, ℤ, not, ◌==◌, if◌then◌else◌,
}
use libsysinfo.Text.{Bytes, codes, same_text}
use libsysinfo.Text.Stream.{
  Stream, Kind, signed, unsigned, extract_number, extract_word, good, failed,
}
use libsysinfo.ProcessInfo.State.{
  Os, ProcessInfo, Stat, StatField, stat_index, assign, m_pid, m_ppid, m_pgid, m_session, m_tty_nr,
  m_tpgid, m_flags, m_minflt, m_cminflt, m_majflt, m_cmajflt, m_utime, m_stime, m_cutime, m_cstime,
  m_priority, m_nice, m_num_threads, m_itrealvalue, m_starttime, m_vmsize, m_rss, m_rsslim,
  m_startcode, m_endcode, m_startstack, m_kstkesp, m_kstkeip, m_signal, m_blocked, m_siginore,
  m_sigcatch, m_wchan_addr, m_nswap, m_cnswap, m_exit_signal, m_processor, m_rt_priority, m_policy,
  m_delayacct_blkio_ticks, m_guest_time, m_cguest_time, m_start_data, m_end_data, m_start_brk,
  m_arg_start, m_arg_end, m_env_start, m_env_end, m_exit_code,
}

abbrev pub int : Kind
int = signed 31

abbrev pub long : Kind
long = signed 63

abbrev pub unsigned_int : Kind
unsigned_int = unsigned 32

abbrev pub unsigned_long : Kind
unsigned_long = unsigned 64

-- s.erase(std::remove(s.begin(), s.end(), c), s.end())
unfoldable pub remove_all : ℕ → Bytes → Bytes
remove_all b [] = []
remove_all b (c ∷ s) = let rest = remove_all b s in if c == b then rest else c ∷ rest

-- The state letter spelled out.
unfoldable pub describe_state : Bytes → Bytes
unfolding same_text
describe_state s =
    if same_text s (codes "R")
    then codes "Running"
    else if same_text s (codes "S")
    then codes "Sleeping"
    else if same_text s (codes "D")
    then codes "Disk sleep"
    else if same_text s (codes "Z")
    then codes "Zombie"
    else if same_text s (codes "T")
    then codes "Stopped"
    else if same_text s (codes "W")
    then codes "Waking"
    else s

-- The members extracted behind the state, in the order of the source, with their types.
abbrev pub numbers_behind_state : List (StatField × Kind)
numbers_behind_state =
    (m_ppid, int)
    ∷ (m_pgid, int)
    ∷ (m_session, int)
    ∷ (m_tty_nr, int)
    ∷ (m_tpgid, int)
    ∷ (m_flags, unsigned_int)
    ∷ (m_minflt, unsigned_long)
    ∷ (m_cminflt, unsigned_long)
    ∷ (m_majflt, unsigned_long)
    ∷ (m_cmajflt, unsigned_long)
    ∷ (m_utime, unsigned_long)
    ∷ (m_stime, unsigned_long)
    ∷ (m_cutime, unsigned_long)
    ∷ (m_cstime, unsigned_long)
    ∷ (m_priority, long)
    ∷ (m_nice, long)
    ∷ (m_num_threads, long)
    ∷ (m_itrealvalue, long)
    ∷ (m_starttime, unsigned_long)
    ∷ (m_vmsize, unsigned_long)
    ∷ (m_rss, long)
    ∷ (m_rsslim, unsigned_long)
    ∷ (m_startcode, unsigned_long)
    ∷ (m_endcode, unsigned_long)
    ∷ (m_startstack, unsigned_long)
    ∷ (m_kstkesp, unsigned_long)
    ∷ (m_kstkeip, unsigned_long)
    ∷ (m_signal, unsigned_long)
    ∷ (m_blocked, unsigned_long)
    ∷ (m_siginore, unsigned_long)
    ∷ (m_sigcatch, unsigned_long)
    ∷ (m_wchan_addr, unsigned_long)
    ∷ (m_nswap, unsigned_long)
    ∷ (m_cnswap, unsigned_long)
    ∷ (m_exit_signal, int)
    ∷ (m_processor, int)
    ∷ (m_rt_priority, unsigned_int)
    ∷ (m_policy, unsigned_int)
    ∷ (m_delayacct_blkio_ticks, unsigned_long)
    ∷ (m_guest_time, unsigned_long)
    ∷ (m_cguest_time, long)
    ∷ (m_start_data, unsigned_long)
    ∷ (m_end_data, unsigned_long)
    ∷ (m_start_brk, unsigned_long)
    ∷ (m_arg_start, unsigned_long)
    ∷ (m_arg_end, unsigned_long)
    ∷ (m_env_start, unsigned_long)
    ∷ (m_env_end, unsigned_long)
    ∷ (m_exit_code, int)
    ∷ []

-- One statement `if_stat >> this->m_...` after the other.
unfoldable pub extract_numbers :
    List (StatField × Kind) → (StatField → ℤ) → Stream → (StatField → ℤ) × Stream
extract_numbers [] store st = (store, st)
extract_numbers ((f, k) ∷ fs) store st =
    let (z, st') = extract_number k (store f) st in
    extract_numbers fs (assign stat_index store f z) st'

-- The stream of an ifstream on a path: one that cannot be opened has failed.
abbrev pub stream_of : Option Bytes → Stream
stream_of none = failed []
stream_of (some s) = good s

-- `std::string state` starts out empty.
unfoldable pub read_stat_from : Stream → Stat → Stat
read_stat_from st0 old =
    let (pid, st1) = extract_number int (old.number m_pid) st0 in
    let (name, st2) = extract_word old.name st1 in
    let (state, st3) = extract_word [] st2 in
    let (number, st4) =
      extract_numbers numbers_behind_state (assign stat_index old.number m_pid pid) st3 in
    record {
      name = remove_all b')' (remove_all b'(' name);
      state = describe_state state;
      number = number;
    }

unfoldable pub read_stat : Os → ProcessInfo → ProcessInfo
unfolding read_stat_from
read_stat os p = record p {
  stat = read_stat_from (stream_of (os.open_file (p.proc_path ++ codes "stat"))) p.stat;
}
