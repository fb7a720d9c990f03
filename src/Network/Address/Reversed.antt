-- ===== src/Network/Address/Reversed.antt =====
-- What getSocketTCP makes of a line that the kernel writes.
use libsysinfo.Boost.Pattern.{Matches}
use libsysinfo.Boost.{Boost, IsBoost}
use libsysinfo.Network.Address.{
  bits, dotted, AreBytes, IsLittleEndian, hex_address, hex_port, hex_address-AllOf, hex_port-AllOf,
  stol-hex_address, stoi-hex_port, stoi-short,
}
use libsysinfo.Boost.Groups.{AllOf-any, Run}
use libsysinfo.Network.Groups.{tcp_text, regex_tcp-groups}
use libsysinfo.Network.State.{TcpSocket, Inet}
use libsysinfo.Network.{regex_tcp, tcp_socket, matched_tcp, tcp_line}
use libsysinfo.Prelude.{
  ℕ, ◌%◌, ◌^◌, ◌<◌, ◌≡◌, refl, sym, ap, ◌∙◌, [], ◌∷◌, ◌++◌, arith, some, Option-cases, inl, inr, ℤ,
  pos, to_u64, ok, append-nil,
}
use libsysinfo.Text.Decimal.{to_string, to_string-AllOf, to_string-ne-nil, stoi-to_string}
use libsysinfo.Text.Number.{sixteen, stoi}
use libsysinfo.Text.{Bytes, codes, is_space, is_digit, is_xdigit, Stops}

pub record Ipv4 : Type 0 where
  pub a : ℕ
  pub b : ℕ
  pub c : ℕ
  pub d : ℕ

-- A line of the table: the number of the slot, and the two ends.
pub record Entry : Type 0 where
  pub slot : ℕ
  pub local : Ipv4
  pub local_port : ℕ
  pub remote : Ipv4
  pub rem_port : ℕ

abbrev pub IsIpv4 : Ipv4 → Type 0
IsIpv4 x = AreBytes x.a x.b x.c x.d

abbrev pub IsEntry : Entry → Type 0
IsEntry t =
    (t.slot < 2 ^ 31)
    × IsIpv4 t.local
    × (t.local_port < 65536)
    × IsIpv4 t.remote
    × (t.rem_port < 65536)

abbrev pub hex_ipv4 : Ipv4 → Bytes
hex_ipv4 x = hex_address x.a x.b x.c x.d

-- The address with its bytes in the other order.
abbrev pub reversed : Ipv4 → Bytes
reversed x = dotted x.d x.c x.b x.a

abbrev pub entry_line : Bytes → Entry → Bytes → Bytes
entry_line blanks t rest =
    tcp_text blanks (to_string t.slot) (hex_ipv4 t.local) (hex_port t.local_port)
      (hex_ipv4 t.remote) (hex_port t.rem_port) rest

-- the line is matched
tcp_text-Matches :
    (blanks num la lp ra rp rest : Bytes)
    → Run is_space blanks
    → Run is_digit num
    → Run is_xdigit la
    → Run is_xdigit lp
    → Run is_xdigit ra
    → Run is_xdigit rp
    → Matches regex_tcp (tcp_text blanks num la lp ra rp rest) (num ∷ la ∷ lp ∷ ra ∷ rp ∷ [])
tcp_text-Matches blanks num la lp ra rp rest hb hn hla hlp hra hrp =
    let s6 = rp ++ rest in
    let s5 = ra ++ b':' ∷ s6 in
    let s4 = lp ++ b' ' ∷ s5 in
    let s3 = la ++ b':' ∷ s4 in
    let s2 = num ++ b':' ∷ b' ' ∷ s3 in
    (
      blanks,
      s2,
      refl,
      hb,
      (
        num,
        b':' ∷ b' ' ∷ s3,
        la ∷ lp ∷ ra ∷ rp ∷ [],
        refl,
        hn,
        refl,
        (
          codes ":",
          b' ' ∷ s3,
          refl,
          (b':', refl, refl),
          (
            codes " ",
            s3,
            refl,
            (b' ', refl, refl),
            (
              la,
              b':' ∷ s4,
              lp ∷ ra ∷ rp ∷ [],
              refl,
              hla,
              refl,
              (
                codes ":",
                s4,
                refl,
                (b':', refl, refl),
                (
                  lp,
                  b' ' ∷ s5,
                  ra ∷ rp ∷ [],
                  refl,
                  hlp,
                  refl,
                  (
                    codes " ",
                    s5,
                    refl,
                    (b' ', refl, refl),
                    (
                      ra,
                      b':' ∷ s6,
                      rp ∷ [],
                      refl,
                      hra,
                      refl,
                      (
                        codes ":",
                        s6,
                        refl,
                        (b':', refl, refl),
                        (
                          rp,
                          rest,
                          [],
                          refl,
                          hrp,
                          refl,
                          (rest, [], sym (append-nil rest), AllOf-any rest, (refl, refl)),
                        ),
                      ),
                    ),
                  ),
                ),
              ),
            ),
          ),
        ),
      ),
    )

-- what the address of a line becomes
address-reversed :
    (inet : Inet)
    → IsLittleEndian inet
    → (x : Ipv4) → IsIpv4 x
    → inet.inet_ntoa (inet.htonl (to_u64 (pos (bits x.a x.b x.c x.d)) % 2 ^ 32)) ≡ reversed x
unfolding to_u64
address-reversed inet le x h =
    ap (λ n. inet.inet_ntoa (inet.htonl n)) (omega (arith, h))
    ∙ ap inet.inet_ntoa (le.htonl_swaps x.a x.b x.c x.d h)
    ∙ le.inet_ntoa_dotted x.d x.c x.b x.a (h.3, h.2, h.1, h.0)

-- the socket of a line whose last group is read as `z`
abbrev read_socket : Inet → TcpSocket → Entry → ℤ → TcpSocket
read_socket inet raw t z = record raw {
  num = pos t.slot;
  local_address =
      inet.inet_ntoa
        (inet.htonl (to_u64 (pos (bits t.local.a t.local.b t.local.c t.local.d)) % 2 ^ 32));
  local_port = pos t.local_port;
  rem_address =
      inet.inet_ntoa
        (inet.htonl (to_u64 (pos (bits t.remote.a t.remote.b t.remote.c t.remote.d)) % 2 ^ 32));
  rem_port = z;
}

tcp_socket-entry :
    (inet : Inet) (raw : TcpSocket) (t : Entry) (port : Bytes) (z : ℤ)
    → IsEntry t
    → stoi port sixteen ≡ ok z
    → tcp_socket inet raw (
        to_string t.slot ∷ hex_ipv4 t.local ∷ hex_port t.local_port ∷ hex_ipv4 t.remote ∷ port ∷ [])
      ≡ ok (read_socket inet raw t z ∷ [])
unfolding tcp_socket
tcp_socket-entry inet raw t port z (hs, hl, hp, hr, hq) e = rw (
  stoi-to_string t.slot hs,
  stol-hex_address t.local.a t.local.b t.local.c t.local.d hl,
  stoi-hex_port t.local_port hp,
  stol-hex_address t.remote.a t.remote.b t.remote.c t.remote.d hr,
  e,
)

to_string-Run : (n : ℕ) → Run is_digit (to_string n)
to_string-Run n = (to_string-ne-nil n, to_string-AllOf n)

module _ (boost : Boost) (b : IsBoost boost) (inet : Inet) (le : IsLittleEndian inet) where
  -- On a machine that stores the lowest byte first, a line of /proc/net/tcp as the kernel writes it adds
  -- one socket, with the number of the slot and the local port. But its two addresses have
  -- their bytes in the other order: 127.0.0.1 becomes 1.0.0.127.
  pub tcp_line-reversed :
      (raw : TcpSocket) (blanks : Bytes) (t : Entry) (rest : Bytes)
      → Run is_space blanks
      → IsEntry t
      → Stops is_xdigit rest
      → (s : TcpSocket) × (tcp_line boost inet raw (entry_line blanks t rest) ≡ ok (s ∷ []))
        × (s.num ≡ pos t.slot)
        × (s.local_address ≡ reversed t.local)
        × (s.local_port ≡ pos t.local_port)
        × (s.rem_address ≡ reversed t.remote)
  tcp_line-reversed raw blanks t rest hb (hs, hl, hp, hr, hq) st =
      let line = entry_line blanks t rest in
      let num = to_string t.slot in
      let la = hex_ipv4 t.local in
      let lp = hex_port t.local_port in
      let ra = hex_ipv4 t.remote in
      let rp = hex_port t.rem_port in
      let al = hex_address-AllOf t.local.a t.local.b t.local.c t.local.d hl in
      let ar = hex_address-AllOf t.remote.a t.remote.b t.remote.c t.remote.d hr in
      let ap' = hex_port-AllOf t.local_port hp in
      elim (Option-cases (boost.regex_match regex_tcp line)) [
        | inl e ↦ absurd (
            b.match_complete regex_tcp line (num ∷ la ∷ lp ∷ ra ∷ rp ∷ [])
              (tcp_text-Matches blanks num la lp ra rp rest hb (to_string-Run t.slot) ((cc), al)
                ((cc), ap') ((cc), ar) ((cc), hex_port-AllOf t.rem_port hq))
              e)
        | inr (caps, e) ↦
            let (port, more, groups, run, split) =
              regex_tcp-groups blanks num la lp ra (rp ++ rest) caps hb.1 (to_string-Run t.slot) al
                ap' ar (b.match_sound regex_tcp line caps e) in
            let (z, number) = stoi-short port more t.rem_port rest run st split in
            (
              read_socket inet raw t z,
              ap (matched_tcp inet raw) (e ∙ ap some groups)
                  ∙ tcp_socket-entry inet raw t port z (hs, hl, hp, hr, hq) number,
              refl,
              address-reversed inet le t.local hl,
              refl,
              address-reversed inet le t.remote hr,
            )
      ]
