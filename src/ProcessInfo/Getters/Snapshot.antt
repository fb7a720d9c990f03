-- ===== src/ProcessInfo/Getters/Snapshot.antt =====
-- Sequences of calls of the getters over /proc/<pid>/stat.
use libsysinfo.Prelude.{◌≡◌, refl, ap, ◌∙◌, List, [], ◌∷◌, ◌++◌, arith, some, ℤ, ℕ, zero, suc, All}
use libsysinfo.ProcessInfo.Getters.{
  Getter, stat_getter, update_stat, ppid, pgid, sid, tpgid, flags, minflt, cminflt, majflt, cmajflt,
  utime, stime, cutime, cstime, priority, nice, num_threads, vm_size, start_code, end_code,
  start_stack, kstk_esp, kstk_eip, wchan_addr, processor, rt_priority, delayacct_blkio_ticks,
  guest_time, start_data, end_data, start_brk, start_arg, end_arg, start_env, end_env,
}
use libsysinfo.ProcessInfo.Life.{need_update}
use libsysinfo.ProcessInfo.Stat.RoundTrip.{stat_text, IsPrintable, read_stat_from-stat_text}
use libsysinfo.ProcessInfo.Stat.{describe_state, read_stat}
use libsysinfo.ProcessInfo.State.{
  Os, ProcessInfo, Stat, StatField, m_arg_end, m_arg_start, m_cmajflt, m_cminflt, m_cstime,
  m_cutime, m_delayacct_blkio_ticks, m_end_data, m_endcode, m_env_end, m_env_start, m_flags,
  m_guest_time, m_kstkeip, m_kstkesp, m_majflt, m_minflt, m_nice, m_num_threads, m_pgid, m_ppid,
  m_priority, m_processor, m_rt_priority, m_session, m_start_brk, m_start_data, m_startcode,
  m_startstack, m_stime, m_tpgid, m_utime, m_vmsize, m_wchan_addr,
}
use libsysinfo.Text.{codes}

-- The getters that return a member as it is, with the member.
abbrev pub stat_getters : List (StatField × Getter ℤ)
stat_getters =
    (m_ppid, ppid)
    ∷ (m_pgid, pgid)
    ∷ (m_session, sid)
    ∷ (m_tpgid, tpgid)
    ∷ (m_flags, flags)
    ∷ (m_minflt, minflt)
    ∷ (m_cminflt, cminflt)
    ∷ (m_majflt, majflt)
    ∷ (m_cmajflt, cmajflt)
    ∷ (m_utime, utime)
    ∷ (m_stime, stime)
    ∷ (m_cutime, cutime)
    ∷ (m_cstime, cstime)
    ∷ (m_priority, priority)
    ∷ (m_nice, nice)
    ∷ (m_num_threads, num_threads)
    ∷ (m_vmsize, vm_size)
    ∷ (m_startcode, start_code)
    ∷ (m_endcode, end_code)
    ∷ (m_startstack, start_stack)
    ∷ (m_kstkesp, kstk_esp)
    ∷ (m_kstkeip, kstk_eip)
    ∷ (m_wchan_addr, wchan_addr)
    ∷ (m_processor, processor)
    ∷ (m_rt_priority, rt_priority)
    ∷ (m_delayacct_blkio_ticks, delayacct_blkio_ticks)
    ∷ (m_guest_time, guest_time)
    ∷ (m_start_data, start_data)
    ∷ (m_end_data, end_data)
    ∷ (m_start_brk, start_brk)
    ∷ (m_arg_start, start_arg)
    ∷ (m_arg_end, end_arg)
    ∷ (m_env_start, start_env)
    ∷ (m_env_end, end_env)
    ∷ []

abbrev pub IsGetterOf : StatField × Getter ℤ → Type 0
IsGetterOf (f, g) = g ≡ stat_getter (λ s. s.number f)

stat_getters-IsGetterOf : All IsGetterOf stat_getters
unfolding ppid pgid sid tpgid flags minflt cminflt majflt cmajflt utime stime cutime cstime priority
    nice num_threads vm_size start_code end_code start_stack kstk_esp kstk_eip wchan_addr processor
    rt_priority delayacct_blkio_ticks guest_time start_data end_data start_brk start_arg end_arg
    start_env end_env
stat_getters-IsGetterOf = assumption refl

-- The file is not read again.
update_stat-update_stat :
    (os os' : Os) (p : ProcessInfo) → update_stat os' (update_stat os p) ≡ update_stat os p
unfolding update_stat
update_stat-update_stat os os' p = ground arith

-- A getter by its place in the list; behind the end stands the first.
abbrev pub getter_at : List (StatField × Getter ℤ) → ℕ → StatField × Getter ℤ
getter_at [] i = (m_ppid, ppid)
getter_at (g ∷ gs) zero = g
getter_at (g ∷ gs) (suc i) = getter_at gs i

getter_at-IsGetterOf :
    (gs : List (StatField × Getter ℤ)) (i : ℕ) → All IsGetterOf gs → IsGetterOf (getter_at gs i)
unfolding ppid
getter_at-IsGetterOf [] i h = refl
getter_at-IsGetterOf (g ∷ gs) zero h = h.0
getter_at-IsGetterOf (g ∷ gs) (suc i) h = getter_at-IsGetterOf gs i h.1

-- The member that the getter numbered `i` returns.
abbrev pub member : ℕ → StatField
member i = (getter_at stat_getters i).0

-- A call of the getter numbered `i`.
unfoldable pub call : ℕ → Os → ProcessInfo → ℤ × ProcessInfo
call i = (getter_at stat_getters i).1

call-stat_getter :
    (i : ℕ) (os : Os) (p : ProcessInfo)
    → call i os p ≡ ((update_stat os p).stat.number (member i), update_stat os p)
unfolding call
call-stat_getter i os p =
    ap (λ (g : Getter ℤ). g os p) (getter_at-IsGetterOf stat_getters i stat_getters-IsGetterOf)

-- A sequence of calls, each with the operating system as it is at that call: the values.
unfoldable pub run_calls : List (ℕ × Os) → ProcessInfo → List ℤ
run_calls [] p = []
run_calls ((i, os) ∷ cs) p = let (z, q) = call i os p in z ∷ run_calls cs q

abbrev pub members_of : (StatField → ℤ) → List (ℕ × Os) → List ℤ
members_of v [] = []
members_of v ((i, os) ∷ cs) = v (member i) ∷ members_of v cs

run_calls-read :
    (cs : List (ℕ × Os)) (os : Os) (p : ProcessInfo)
    → run_calls cs (update_stat os p) ≡ members_of (update_stat os p).stat.number cs
unfolding run_calls
run_calls-read [] os p = refl
run_calls-read ((i, os') ∷ cs) os p =
    ap (λ (r : ℤ × ProcessInfo). r.0 ∷ run_calls cs r.1)
      (call-stat_getter i os' (update_stat os p)
        ∙ ap (λ (q : ProcessInfo). (q.stat.number (member i), q))
            (update_stat-update_stat os os' p))
    ∙ ap (λ zs. (update_stat os p).stat.number (member i) ∷ zs) (run_calls-read cs os p)

-- In a sequence of calls of getters, all return members of the object as the first call left it,
-- however the files change between the calls.
pub run_calls-members_of :
    (i : ℕ) (os : Os) (cs : List (ℕ × Os)) (p : ProcessInfo)
    → run_calls ((i, os) ∷ cs) p ≡ members_of (update_stat os p).stat.number ((i, os) ∷ cs)
unfolding run_calls
run_calls-members_of i os cs p =
    ap (λ (r : ℤ × ProcessInfo). r.0 ∷ run_calls cs r.1) (call-stat_getter i os p)
    ∙ ap (λ zs. (update_stat os p).stat.number (member i) ∷ zs) (run_calls-read cs os p)

update_stat-stat_text :
    (os : Os) (p : ProcessInfo) (s : Stat)
    → os.open_file (p.proc_path ++ codes "stat") ≡ some (stat_text s)
    → IsPrintable s
    → (update_stat os (need_update p)).stat
      ≡ record { name = s.name; state = describe_state s.state; number = s.number }
unfolding update_stat read_stat need_update
update_stat-stat_text os p s e h = rw e (read_stat_from-stat_text s p.stat h)

-- If /proc/<pid>/stat holds, at the first call after needUpdate, the line that the kernel writes
-- for printable members, then every call of a sequence of getters returns the integer that stands
-- in that line for its member, whatever the files hold at the later calls.
pub run_calls-stat_text :
    (i : ℕ) (os : Os) (cs : List (ℕ × Os)) (p : ProcessInfo) (s : Stat)
    → os.open_file (p.proc_path ++ codes "stat") ≡ some (stat_text s)
    → IsPrintable s
    → run_calls ((i, os) ∷ cs) (need_update p) ≡ members_of s.number ((i, os) ∷ cs)
run_calls-stat_text i os cs p s e h =
    run_calls-members_of i os cs (need_update p)
    ∙ ap (λ (t : Stat). members_of t.number ((i, os) ∷ cs)) (update_stat-stat_text os p s e h)
