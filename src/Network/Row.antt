-- ===== src/Network/Row.antt =====
-- The line of /proc/net/unix for a socket with a path.
use mathlib.Core.Path.{subst}
use libsysinfo.Boost.Groups.{AllOf-any, Run, run_unique, one-Stops, one_rest}
use libsysinfo.Boost.Pattern.{plain, group, one, many, some_of, Regex, any, Matches}
use libsysinfo.Network.Hex.{strtol-hex}
use libsysinfo.Network.State.{UnixSocket}
use libsysinfo.Network.{regex_unix, unix_socket}
use libsysinfo.Prelude.{
  ℕ, zero, suc, ◌^◌, ◌<◌, ◌≡◌, refl, sym, ap, ◌∙◌, true, false, List, [], ◌∷◌, ◌++◌, append-nil,
  arith, ◌==◌, pos, ok,
}
use libsysinfo.Text.Decimal.{strtol-value}
use libsysinfo.Text.Number.{ten, sixteen, value, stoi}
use libsysinfo.Text.{Bytes, is_space, is_digit, is_xdigit, AllOf}

space-not-digit : (c : ℕ) → is_space c ≡ true → is_digit c ≡ false
space-not-digit c h = ground arith

-- ([[:digit:]]+)\s in front of a pattern
abbrev field : Regex → Regex
field r = group (some_of is_digit) ∷ plain (one is_space) ∷ r

field-Matches :
    (r : Regex) (x t : Bytes) (later : List Bytes)
    → Run is_digit x
    → Matches r t later
    → Matches (field r) (x ++ b' ' ∷ t) (x ∷ later)
field-Matches r x t later h m =
    (x, b' ' ∷ t, later, refl, h, refl, (b' ' ∷ [], t, refl, (b' ', refl, refl), m))

field-groups :
    (r : Regex) (x t : Bytes) (caps : List Bytes)
    → AllOf is_digit x
    → Matches (field r) (x ++ b' ' ∷ t) caps
    → (later : List Bytes) × (caps ≡ x ∷ later) × Matches r t later
field-groups r x t caps h (g, s, later, e, f, k, (g', s', e', (c, y, z), m)) =
    let (same, rest) =
      run_unique is_digit g s x (b' ' ∷ t) f.1 h
        (one-Stops is_digit is_space s g' s' c space-not-digit y z e') refl e in
    (
      later,
      k ∙ ap (λ y. y ∷ later) same,
      subst (λ u. Matches r u later) (one_rest s g' s' t c b' ' rest e' y) m,
    )

-- the path, behind so many fields
abbrev path_behind : ℕ → Regex
path_behind zero = group (many any) ∷ []
path_behind (suc n) = field (path_behind n)

path_group :
    (path : Bytes) (caps : List Bytes) → Matches (path_behind 0) path caps → caps ≡ path ∷ []
path_group path caps (g, s, later, e, f, k, (end, none_left)) =
    let same : g ≡ path = sym (append-nil g) ∙ ap (λ t. g ++ t) (sym end) ∙ sym e in cc

-- A line: the texts of its fields.
pub record Row : Type 0 where
  pub num : Bytes
  pub ref_count : Bytes
  pub protocol : Bytes
  pub flags : Bytes
  pub kind : Bytes
  pub state : Bytes
  pub inode : Bytes
  pub path : Bytes

abbrev pub row_text : Row → Bytes
row_text r =
    r.num
    ++ b':'
      ∷ b' '
      ∷ (r.ref_count
          ++ b' '
            ∷ (r.protocol
                ++ b' '
                  ∷ (r.flags
                      ++ b' ' ∷ (r.kind ++ b' ' ∷ (r.state ++ b' ' ∷ (r.inode ++ b' ' ∷ r.path))))))

abbrev pub groups : Row → List Bytes
groups r = r.num ∷ r.ref_count ∷ r.protocol ∷ r.flags ∷ r.kind ∷ r.state ∷ r.inode ∷ r.path ∷ []

-- A run of digits that spells an int.
abbrev pub IsInt : Bytes → Type 0
IsInt s = Run is_digit s × (value ten 0 s < 2 ^ 31)

abbrev pub IsRow : Row → Type 0
IsRow r =
    Run is_xdigit r.num
    × Run is_digit r.ref_count
    × (value sixteen 0 r.ref_count < 2 ^ 31)
    × IsInt r.protocol
    × IsInt r.flags
    × IsInt r.kind
    × IsInt r.state
    × IsInt r.inode

-- The entry for a line: of its numbers only the reference count is read in base sixteen.
abbrev pub socket_of : Row → UnixSocket
socket_of r = record {
  num = r.num;
  ref_count = pos (value sixteen 0 r.ref_count);
  protocol = pos (value ten 0 r.protocol);
  flags = pos (value ten 0 r.flags);
  kind = pos (value ten 0 r.kind);
  state = pos (value ten 0 r.state);
  inode = pos (value ten 0 r.inode);
  path = r.path;
}

colon-not-xdigit : (c : ℕ) → (c == b':') ≡ true → is_xdigit c ≡ false
colon-not-xdigit c h = ground arith

pub row_text-Matches : (r : Row) → IsRow r → Matches regex_unix (row_text r) (groups r)
row_text-Matches r (num, ref, _, (protocol, _), (flags, _), (kind, _), (state, _), (inode, _)) = (
  r.num,
  _,
  _,
  refl,
  num,
  refl,
  (
    b':' ∷ [],
    _,
    refl,
    (b':', refl, refl),
    (
      b' ' ∷ [],
      _,
      refl,
      (b' ', refl, refl),
      field-Matches (path_behind 5) r.ref_count _ _ ref (
          field-Matches (path_behind 4) r.protocol _ _ protocol (
            field-Matches (path_behind 3) r.flags _ _ flags (
              field-Matches (path_behind 2) r.kind _ _ kind (
                field-Matches (path_behind 1) r.state _ _ state (
                  field-Matches (path_behind 0) r.inode _ _ inode (
                    r.path,
                    [],
                    [],
                    sym (append-nil r.path),
                    AllOf-any r.path,
                    refl,
                    (refl, refl),
                  )))))),
    ),
  ),
)

pub regex_unix-groups :
    (r : Row) (caps : List Bytes) → IsRow r → Matches regex_unix (row_text r) caps → caps ≡ groups r
regex_unix-groups r caps (num, ref, _, (protocol, _), (flags, _), (kind, _), (state, _), (inode, _))
      (g1, s1, l1, e1, f1, k1, (g2, s2, e2, (c2, x2, y2), (g3, s3, e3, (c3, x3, y3), m))) =
    let (r1, t1) =
      run_unique is_xdigit g1 s1 r.num _ f1.1 num.1
        (one-Stops is_xdigit (λ c. c == b':') s1 g2 s2 c2 colon-not-xdigit x2 y2 e2) refl e1 in
    let t2 = one_rest s1 g2 s2 _ c2 b':' t1 e2 x2 in
    let t3 = one_rest s2 g3 s3 _ c3 b' ' t2 e3 x3 in
    let (l2, k2, m2) =
      field-groups (path_behind 5) r.ref_count _ l1 ref.1
        (subst (λ u. Matches (path_behind 6) u l1) t3 m) in
    let (l3, k3, m3) = field-groups (path_behind 4) r.protocol _ l2 protocol.1 m2 in
    let (l4, k4, m4) = field-groups (path_behind 3) r.flags _ l3 flags.1 m3 in
    let (l5, k5, m5) = field-groups (path_behind 2) r.kind _ l4 kind.1 m4 in
    let (l6, k6, m6) = field-groups (path_behind 1) r.state _ l5 state.1 m5 in
    let (l7, k7, m7) = field-groups (path_behind 0) r.inode _ l6 inode.1 m6 in
    let k8 = path_group r.path l7 m7 in cc

stoi-IsInt : (s : Bytes) → IsInt s → stoi s ten ≡ ok (pos (value ten 0 s))
unfolding stoi
stoi-IsInt s ((ne, a), small) = strtol-value 31 s ne a small

digits-xdigits : (s : Bytes) → AllOf is_digit s → AllOf is_xdigit s
digits-xdigits [] a = tt
digits-xdigits (c ∷ s) a = (ground arith, digits-xdigits s a.1)

stoi-ref_count :
    (s : Bytes)
    → Run is_digit s
    → value sixteen 0 s < 2 ^ 31
    → stoi s sixteen ≡ ok (pos (value sixteen 0 s))
unfolding stoi
stoi-ref_count s (ne, a) small = strtol-hex 31 s ne (digits-xdigits s a) small

pub unix_socket-socket_of : (r : Row) → IsRow r → unix_socket (groups r) ≡ ok (socket_of r ∷ [])
unfolding unix_socket
unix_socket-socket_of r (num, ref, small, protocol, flags, kind, state, inode) = rw (
  stoi-ref_count r.ref_count ref small,
  stoi-IsInt r.protocol protocol,
  stoi-IsInt r.flags flags,
  stoi-IsInt r.kind kind,
  stoi-IsInt r.state state,
  stoi-IsInt r.inode inode,
)
