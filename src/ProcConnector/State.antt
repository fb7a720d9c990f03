-- ===== src/ProcConnector/State.antt =====
-- src/procconnector.h: the members of ProcConnector, and what the class takes from the kernel.
use libsysinfo.Prelude.{ℕ, Bool, List, ℤ, Result}
use libsysinfo.Text.{Bytes}

-- What a system call returns: a value, or -1 with errno.
pub data Answer : Type 0 where
  done : ℤ → Answer
  fails : ℕ → Answer

-- struct sockaddr_nl, as far as it is filled
pub record Address : Type 0 where
  pub nl_family : ℕ
  pub nl_groups : ℕ
  pub nl_pid : ℕ

-- the message that subscribe sends: the members that are set behind the memset
pub record Message : Type 0 where
  pub nlmsg_len : ℕ
  pub nlmsg_pid : ℕ
  pub nlmsg_type : ℕ
  pub id_idx : ℕ
  pub id_val : ℕ
  pub len : ℕ
  pub cn_mcast : ℕ

-- The constants of the system headers.
pub record Headers : Type 0 where
  pub af_netlink : ℕ
  pub cn_idx_proc : ℕ
  pub cn_val_proc : ℕ
  pub nlmsg_done : ℕ
  pub proc_cn_mcast_listen : ℕ
  pub eintr : ℕ
  -- sizeof(nlcn_msg) and sizeof(enum proc_cn_mcast_op)
  pub sizeof_message : ℕ
  pub sizeof_op : ℕ

-- The kernel while an object is constructed. close may change errno.
pub record Kernel : Type 0 where
  pub headers : Headers
  pub socket : Answer
  pub bind : ℤ → Address → Answer
  pub send : ℤ → Message → Answer
  pub errno_behind_close : ℕ → ℕ
  pub getpid : ℕ
  pub strerror : ℕ → Bytes

-- A callback gets an event of type E and works on the rest of the program, W. It may throw.
abbrev pub Callback : Type 0 → Type 0 → Type 0
Callback E W = E → W → Result (Unit {0}) × W

pub record ProcConnector (E W : Type 0) : Type 0 where
  pub nl_sock : ℤ
  -- m_thread_listen is not nullptr
  pub thread_listen : Bool
  pub subscribers : List (Callback E W)

-- What recv returns: a message, of which the event is used whatever its length, or -1 with errno.
pub data Received (E : Type 0) : Type 0 where
  event : E → Received E
  error : ℕ → Received E
