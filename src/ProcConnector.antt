-- ===== src/ProcConnector.antt =====
-- src/procconnector.cpp: the class ProcConnector, which listens to the process events of the
-- kernel on a netlink socket.
pub mod State
pub mod Calls
pub mod Heard
pub mod Threads
pub mod Sockets
use libsysinfo.Prelude.{
  ℕ, Bool, true, false, List, [], ◌∷◌, ◌++◌, ◌==◌, if◌then◌else◌, ℤ, eqb_ℤ, Result, ok, throw,
  message,
}
use libsysinfo.ProcConnector.State.{
  Answer, done, fails, Address, Message, Headers, Kernel, Callback, ProcConnector, Received, event,
  error,
}
use libsysinfo.Text.{Bytes}

-- The descriptors that are open.
abbrev pub Sockets : Type 0
Sockets = List ℤ

unfoldable pub close : ℤ → Sockets → Sockets
close s [] = []
close s (t ∷ ts) = let rest = close s ts in if eqb_ℤ t s then rest else t ∷ rest

-- the address that the socket is bound to
abbrev pub own_address : Kernel → Address
own_address k = record {
  nl_family = k.headers.af_netlink;
  nl_groups = k.headers.cn_idx_proc;
  nl_pid = k.getpid;
}

abbrev pub bound : Kernel → ℤ → Answer → Sockets → Result ℤ × Sockets
bound k s (done rc) open_sockets = (ok s, open_sockets)
bound k s (fails errno) open_sockets =
    (throw (message (k.strerror (k.errno_behind_close errno))), close s open_sockets)

abbrev pub opened : Kernel → Answer → Sockets → Result ℤ × Sockets
opened k (done s) open_sockets = bound k s (k.bind s (own_address k)) (s ∷ open_sockets)
opened k (fails errno) open_sockets = (throw (message (k.strerror errno)), open_sockets)

-- ProcConnector::connect: the socket
unfoldable pub connect : Kernel → Sockets → Result ℤ × Sockets
unfolding close
connect k = opened k k.socket

-- the message that asks for the events
abbrev pub listen_message : Kernel → Message
listen_message k = record {
  nlmsg_len = k.headers.sizeof_message;
  nlmsg_pid = k.getpid;
  nlmsg_type = k.headers.nlmsg_done;
  id_idx = k.headers.cn_idx_proc;
  id_val = k.headers.cn_val_proc;
  len = k.headers.sizeof_op;
  cn_mcast = k.headers.proc_cn_mcast_listen;
}

abbrev pub sent : Kernel → Answer → Result (Unit {0})
sent k (done rc) = ok tt
sent k (fails errno) = throw (message (k.strerror errno))

-- ProcConnector::subscribe
unfoldable pub subscribe : Kernel → ℤ → Result (Unit {0})
subscribe k s = sent k (k.send s (listen_message k))

module _ {E W : Type 0} where
  abbrev pub subscribed : ℤ → Result (Unit {0}) → Result (ProcConnector E W)
  subscribed s (ok t) = ok (record { nl_sock = s; thread_listen = false; subscribers = [] })
  subscribed s (throw e) = throw e

  abbrev pub connected : Kernel → Result ℤ × Sockets → Result (ProcConnector E W) × Sockets
  connected k (ok s, open_sockets) = (subscribed s (subscribe k s), open_sockets)
  connected k (throw e, open_sockets) = (throw e, open_sockets)

  -- ProcConnector::ProcConnector. A constructor that throws runs no destructor.
  unfoldable pub construct : Kernel → Sockets → Result (ProcConnector E W) × Sockets
  construct k open_sockets = connected k (connect k open_sockets)

  -- ProcConnector::addCallback
  unfoldable pub add_callback : Callback E W → ProcConnector E W → ProcConnector E W
  add_callback c p = record p { subscribers = p.subscribers ++ c ∷ [] }

  -- ProcConnector::listen(false): a thread runs listenBlock
  unfoldable pub listen_thread : ProcConnector E W → ProcConnector E W
  listen_thread p = record p { thread_listen = true }

  -- the range-for over m_subscribers: a callback that throws ends it
  unfoldable pub call_all : List (Callback E W) → E → W → Result (Unit {0}) × W
  call_all [] e w = (ok tt, w)
  call_all (c ∷ cs) e w =
      let (r, next) = c e w in elim r [ ok t ↦ call_all cs e next | throw x ↦ (throw x, next) ]

  -- ProcConnector::processEvent, with what recv returns
  unfoldable pub process_event : Kernel → ProcConnector E W → Received E → W → Result (Unit {0}) × W
  process_event k p (event e) w = call_all p.subscribers e w
  process_event k p (error errno) w =
      if errno == k.headers.eintr then (ok tt, w) else (throw (message (k.strerror errno)), w)

  -- ProcConnector::listenBlock, with what the calls of recv return one after the other: behind the
  -- last, (ok, w) says that it waits in recv. It leaves the loop by an exception only.
  unfoldable pub listen_block :
      Kernel → ProcConnector E W → List (Received E) → W → Result (Unit {0}) × W
  listen_block k p [] w = (ok tt, w)
  listen_block k p (m ∷ ms) w =
      let (r, next) = process_event k p m w in
      elim r [ ok t ↦ listen_block k p ms next | throw x ↦ (throw x, next) ]

  -- ProcConnector::~ProcConnector: false where the program is terminated, which the destructor of a
  -- thread that was not joined does.
  unfoldable pub destroy : ProcConnector E W → Sockets → Bool × Sockets
  unfolding close
  destroy p open_sockets = (if p.thread_listen then false else true, close p.nl_sock open_sockets)
