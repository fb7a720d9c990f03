-- ===== src/Network/State.antt =====
-- src/sysinfo.h: struct unix_socket_t and struct tcp_socket_t.
use libsysinfo.Prelude.{ℕ, ℤ}
use libsysinfo.Text.{Bytes}

-- `state` is the value that is cast to enum socket_state.
pub record UnixSocket : Type 0 where
  pub num : Bytes
  pub ref_count : ℤ
  pub protocol : ℤ
  pub flags : ℤ
  pub kind : ℤ
  pub state : ℤ
  pub inode : ℤ
  pub path : Bytes

pub record TcpSocket : Type 0 where
  pub num : ℤ
  pub local_address : Bytes
  pub local_port : ℤ
  pub rem_address : Bytes
  pub rem_port : ℤ
  pub state : ℤ
  pub tx_queue : ℤ
  pub rx_queue : ℤ
  pub timer_active : ℤ
  pub tm_when : ℤ
  pub retrnsmt : ℤ
  pub uid : ℤ

-- What getSocketTCP calls of the C library: htonl on 32 bits, and inet_ntoa on an address in network
-- order.
pub record Inet : Type 0 where
  pub htonl : ℕ → ℕ
  pub inet_ntoa : ℕ → Bytes
