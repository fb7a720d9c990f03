-- ===== src/Tests/Network.antt =====
-- Lines of /proc/net/unix and /proc/net/tcp.
use libsysinfo.Boost.Instance.{reference, reference-IsBoost}
use libsysinfo.Boost.Reference.Match.{regex_match}
use libsysinfo.Network.Address.{bits, dotted, AreBytes, IsLittleEndian}
use libsysinfo.Network.Address.Reversed.{Entry, entry_line, reversed, tcp_line-reversed}
use libsysinfo.Network.State.{UnixSocket, TcpSocket, Inet}
use libsysinfo.Network.Unnamed.{count_full, get_socket_unix-count_full}
use libsysinfo.Network.{tcp_line, unix_socket, get_socket_unix}
use libsysinfo.Prelude.{ℕ, ◌/◌, ◌%◌, ◌≤◌, ◌≡◌, refl, [], ◌∷◌, length, pos, ok, arith}
use libsysinfo.Text.Lines.{lines, unlines}
use libsysinfo.Text.Number.{stoi}
use libsysinfo.Text.{Bytes, codes}

abbrev little_endian : Inet
little_endian = record {
  htonl = λ n. bits (n / 16777216 % 256) (n / 65536 % 256) (n / 256 % 256) (n % 256);
  inet_ntoa = λ n. dotted (n % 256) (n / 256 % 256) (n / 65536 % 256) (n / 16777216 % 256);
}

byte_0 : (a b c d : ℕ) → AreBytes a b c d → bits a b c d % 256 ≡ a
byte_0 a b c d h = omega (arith, h)

byte_1 : (a b c d : ℕ) → AreBytes a b c d → bits a b c d / 256 % 256 ≡ b
byte_1 a b c d h = omega (arith, h)

byte_2 : (a b c d : ℕ) → AreBytes a b c d → bits a b c d / 65536 % 256 ≡ c
byte_2 a b c d h = omega (arith, h)

byte_3 : (a b c d : ℕ) → AreBytes a b c d → bits a b c d / 16777216 % 256 ≡ d
byte_3 a b c d h = omega (arith, h)

little_endian-IsLittleEndian : IsLittleEndian little_endian
little_endian-IsLittleEndian = record {
  htonl_swaps =
      λ a b c d h. rw (byte_0 a b c d h, byte_1 a b c d h, byte_2 a b c d h, byte_3 a b c d h);
  inet_ntoa_dotted =
      λ a b c d h. rw (byte_0 a b c d h, byte_1 a b c d h, byte_2 a b c d h, byte_3 a b c d h);
}

abbrev unread : TcpSocket
unread = record {
  num = pos 0;
  local_address = [];
  local_port = pos 0;
  rem_address = [];
  rem_port = pos 0;
  state = pos 0;
  tx_queue = pos 0;
  rx_queue = pos 0;
  timer_active = pos 0;
  tm_when = pos 0;
  retrnsmt = pos 0;
  uid = pos 0;
}

abbrev loopback : Entry
loopback = record {
  slot = 3;
  local = record { a = 127; b = 0; c = 0; d = 1 };
  local_port = 8080;
  remote = record { a = 10; b = 2; c = 0; d = 15 };
  rem_port = 443;
}

tcp_line-reversed_example :
    (s : TcpSocket) × (tcp_line reference little_endian unread
        (entry_line (codes "   ") loopback (codes " 01"))
      ≡ ok (s ∷ []))
    × (s.num ≡ pos 3)
    × (s.local_address ≡ reversed loopback.local)
    × (s.local_port ≡ pos 8080)
    × (s.rem_address ≡ reversed loopback.remote)
tcp_line-reversed_example =
    tcp_line-reversed reference reference-IsBoost little_endian little_endian-IsLittleEndian unread
      (codes "   ") loopback (codes " 01") ((cc), (refl, (refl, (refl, tt))))
      (
        omega arith,
        (omega arith, omega arith, omega arith, omega arith),
        omega arith,
        (omega arith, omega arith, omega arith, omega arith),
        omega arith,
      )
      refl

-- a socket with a path, and one without
abbrev unix_table : Bytes
unix_table = unlines b'\n' (codes "0a: 2 0 10000 1 1 57 @/x" ∷ codes "0b: 2 0 0 2 1 58" ∷ [])

abbrev pub at_path : UnixSocket
at_path = record {
  num = codes "0a";
  ref_count = pos 2;
  protocol = pos 0;
  flags = pos 10000;
  kind = pos 1;
  state = pos 1;
  inode = pos 57;
  path = codes "@/x";
}

get_socket_unix-count_full_example : length (at_path ∷ []) ≤ count_full (lines b'\n' unix_table)
unfolding get_socket_unix lines unlines regex_match unix_socket stoi
get_socket_unix-count_full_example =
    get_socket_unix-count_full reference reference-IsBoost unix_table refl
