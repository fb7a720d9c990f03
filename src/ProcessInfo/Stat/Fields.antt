-- ===== src/ProcessInfo/Stat/Fields.antt =====
-- The members of /proc/<pid>/stat are told apart by their places in the file.
use libsysinfo.Prelude.{
  ℕ, zero, suc, ◌≡◌, refl, List, [], ◌∷◌, ◌==◌, ◌∙◌, sym, ap, Bool, true, false, ◌||◌,
}
use libsysinfo.ProcessInfo.State.{
  StatField, stat_index, m_pid, m_ppid, m_pgid, m_session, m_tty_nr, m_tpgid, m_flags, m_minflt,
  m_cminflt, m_majflt, m_cmajflt, m_utime, m_stime, m_cutime, m_cstime, m_priority, m_nice,
  m_num_threads, m_itrealvalue, m_starttime, m_vmsize, m_rss, m_rsslim, m_startcode, m_endcode,
  m_startstack, m_kstkesp, m_kstkeip, m_signal, m_blocked, m_siginore, m_sigcatch, m_wchan_addr,
  m_nswap, m_cnswap, m_exit_signal, m_processor, m_rt_priority, m_policy, m_delayacct_blkio_ticks,
  m_guest_time, m_cguest_time, m_start_data, m_end_data, m_start_brk, m_arg_start, m_arg_end,
  m_env_start, m_env_end, m_exit_code,
}
use libsysinfo.ProcessInfo.Stat.{numbers_behind_state}
use libsysinfo.Text.Stream.{Kind}

abbrev at : List StatField → ℕ → StatField
at [] n = m_pid
at (f ∷ fs) zero = f
at (f ∷ fs) (suc n) = at fs n

abbrev all_fields : List StatField
all_fields =
    m_pid ∷ m_ppid ∷ m_pgid ∷ m_session ∷ m_tty_nr ∷ m_tpgid ∷ m_flags ∷ m_minflt ∷ m_cminflt
    ∷ m_majflt ∷ m_cmajflt ∷ m_utime ∷ m_stime ∷ m_cutime ∷ m_cstime ∷ m_priority ∷ m_nice
    ∷ m_num_threads ∷ m_itrealvalue ∷ m_starttime ∷ m_vmsize ∷ m_rss ∷ m_rsslim ∷ m_startcode
    ∷ m_endcode ∷ m_startstack ∷ m_kstkesp ∷ m_kstkeip ∷ m_signal ∷ m_blocked ∷ m_siginore
    ∷ m_sigcatch ∷ m_wchan_addr ∷ m_nswap ∷ m_cnswap ∷ m_exit_signal ∷ m_processor ∷ m_rt_priority
    ∷ m_policy ∷ m_delayacct_blkio_ticks ∷ m_guest_time ∷ m_cguest_time ∷ m_start_data ∷ m_end_data
    ∷ m_start_brk ∷ m_arg_start ∷ m_arg_end ∷ m_env_start ∷ m_env_end ∷ m_exit_code ∷ []

at-stat_index : (f : StatField) → at all_fields (stat_index f) ≡ f
at-stat_index m_pid = refl
at-stat_index _ = refl

pub stat_index-injective : (f g : StatField) → stat_index f ≡ stat_index g → f ≡ g
stat_index-injective f g e = sym (at-stat_index f) ∙ ap (at all_fields) e ∙ at-stat_index g

-- The member is among those of the list.
abbrev pub is_listed : StatField → List (StatField × Kind) → Bool
is_listed j [] = false
is_listed j ((f, k) ∷ fs) = stat_index j == stat_index f || is_listed j fs

-- Every member but the first is extracted behind the state.
pub all_listed : (j : StatField) → stat_index j == 0 || is_listed j numbers_behind_state ≡ true
all_listed m_pid = refl
all_listed _ = refl
