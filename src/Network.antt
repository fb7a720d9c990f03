-- ===== src/Network.antt =====
-- src/sysinfo.cpp: getSocketUNIX over /proc/net/unix and getSocketTCP over /proc/net/tcp.
pub mod State
pub mod Unnamed
pub mod Hex
pub mod Groups
pub mod Address
pub mod Row
pub mod Table
use libsysinfo.Boost.Pattern.{Part, plain, group, one, many, some_of, Regex, lit, any}
use libsysinfo.Boost.{Boost}
use libsysinfo.Network.State.{UnixSocket, TcpSocket, Inet}
use libsysinfo.Prelude.{
  ℕ, ◌%◌, ◌^◌, List, [], ◌∷◌, ◌++◌, Option, none, some, ℤ, to_u64, Result, ok, throw,
}
use libsysinfo.Text.Lines.{lines}
use libsysinfo.Text.Number.{ten, sixteen, stoi, stol}
use libsysinfo.Text.{Bytes, is_space, is_digit, is_xdigit}

-- ^([[:xdigit:]]+):\s([[:digit:]]+)\s([[:digit:]]+)\s([[:digit:]]+)\s([[:digit:]]+)\s([[:digit:]]+)
-- \s([[:digit:]]+)\s(.*)$
abbrev pub regex_unix : Regex
regex_unix =
    group (some_of is_xdigit)
    ∷ lit b':'
    ∷ plain (one is_space)
    ∷ group (some_of is_digit)
    ∷ plain (one is_space)
    ∷ group (some_of is_digit)
    ∷ plain (one is_space)
    ∷ group (some_of is_digit)
    ∷ plain (one is_space)
    ∷ group (some_of is_digit)
    ∷ plain (one is_space)
    ∷ group (some_of is_digit)
    ∷ plain (one is_space)
    ∷ group (some_of is_digit)
    ∷ plain (one is_space)
    ∷ group (many any)
    ∷ []

-- ^\s+([[:digit:]]+):\s([[:xdigit:]]+):([[:xdigit:]]+)\s([[:xdigit:]]+):([[:xdigit:]]+).*$
abbrev pub regex_tcp : Regex
regex_tcp =
    plain (some_of is_space)
    ∷ group (some_of is_digit)
    ∷ lit b':'
    ∷ plain (one is_space)
    ∷ group (some_of is_xdigit)
    ∷ lit b':'
    ∷ group (some_of is_xdigit)
    ∷ plain (one is_space)
    ∷ group (some_of is_xdigit)
    ∷ lit b':'
    ∷ group (some_of is_xdigit)
    ∷ plain (many any)
    ∷ []

abbrev pub with_number : {A : Type 0} → Result ℤ → (ℤ → Result A) → Result A
with_number (ok z) f = f z
with_number (throw e) f = throw e

-- One line of /proc/net/unix: the sockets that it adds.
unfoldable pub unix_socket : List Bytes → Result (List UnixSocket)
unix_socket (num ∷ ref ∷ protocol ∷ flags ∷ kind ∷ state ∷ inode ∷ path ∷ []) =
    with_number (stoi ref sixteen) λ z1. with_number (stoi protocol ten) λ z2.
      with_number (stoi flags ten) λ z3. with_number (stoi kind ten) λ z4.
        with_number (stoi state ten) λ z5. with_number (stoi inode ten) λ z6. ok (
          record {
            num = num;
            ref_count = z1;
            protocol = z2;
            flags = z3;
            kind = z4;
            state = z5;
            inode = z6;
            path = path;
          }
          ∷ [])
unix_socket _ = ok []

abbrev pub matched_unix : Option (List Bytes) → Result (List UnixSocket)
matched_unix none = ok []
matched_unix (some caps) = unix_socket caps

-- One line of /proc/net/tcp. The members behind rem_port are not set: `raw` is what they hold.
unfoldable pub tcp_socket : Inet → TcpSocket → List Bytes → Result (List TcpSocket)
tcp_socket inet raw (num ∷ local_address ∷ local_port ∷ rem_address ∷ rem_port ∷ []) =
    with_number (stoi num ten) λ z1. with_number (stol local_address sixteen) λ z2.
      with_number (stoi local_port sixteen) λ z3. with_number (stol rem_address sixteen) λ z4.
        with_number (stoi rem_port sixteen) λ z5. ok (
          record raw {
            num = z1;
            local_address = inet.inet_ntoa (inet.htonl (to_u64 z2 % 2 ^ 32));
            local_port = z3;
            rem_address = inet.inet_ntoa (inet.htonl (to_u64 z4 % 2 ^ 32));
            rem_port = z5;
          }
          ∷ [])
tcp_socket inet raw _ = ok []

abbrev pub matched_tcp : Inet → TcpSocket → Option (List Bytes) → Result (List TcpSocket)
matched_tcp inet raw none = ok []
matched_tcp inet raw (some caps) = tcp_socket inet raw caps

-- The loop over the lines of a table.
module _ {A : Type 0} (read_line : Bytes → Result (List A)) where
  unfoldable pub read_table : List Bytes → List A → Result (List A)
  read_table [] found = ok found
  read_table (l ∷ ls) found = elim (read_line l) [
    | ok more ↦ read_table ls (found ++ more)
    | throw e ↦ throw e
  ]

  -- The table of a file; empty if it cannot be opened.
  unfoldable pub read_table_file : Option Bytes → Result (List A)
  unfolding read_table
  read_table_file none = ok []
  read_table_file (some s) = read_table (lines b'\n' s) []

abbrev pub unix_line : Boost → Bytes → Result (List UnixSocket)
unix_line boost l = matched_unix (boost.regex_match regex_unix l)

abbrev pub tcp_line : Boost → Inet → TcpSocket → Bytes → Result (List TcpSocket)
tcp_line boost inet raw l = matched_tcp inet raw (boost.regex_match regex_tcp l)

-- getSocketUNIX, with the content of /proc/net/unix
unfoldable pub get_socket_unix : Boost → Option Bytes → Result (List UnixSocket)
unfolding read_table_file
get_socket_unix boost = read_table_file (unix_line boost)

-- getSocketTCP, with the content of /proc/net/tcp
unfoldable pub get_socket_tcp : Boost → Inet → TcpSocket → Option Bytes → Result (List TcpSocket)
unfolding read_table_file
get_socket_tcp boost inet raw = read_table_file (tcp_line boost inet raw)
