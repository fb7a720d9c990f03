-- ===== src/Network/Table.antt =====
-- getSocketUNIX over a table as the kernel writes it.
use libsysinfo.Boost.Pattern.{Matches}
use libsysinfo.Boost.{Boost, IsBoost}
use libsysinfo.Network.Row.{
  Row, row_text, groups, IsRow, socket_of, row_text-Matches, regex_unix-groups,
  unix_socket-socket_of,
}
use libsysinfo.Network.State.{UnixSocket}
use libsysinfo.Network.Unnamed.{blanks, regex_unix-blanks}
use libsysinfo.Network.{regex_unix, matched_unix, unix_line, read_table, get_socket_unix}
use libsysinfo.Prelude.{
  ◌<◌, ◌≡◌, refl, sym, ap, ◌∙◌, ◌⊎◌, inl, inr, List, [], ◌∷◌, ◌++◌, append_assoc, append-nil, map,
  All, some, Option-cases, arith, ok,
}
use libsysinfo.Text.Lines.{unlines, Lacks, lines-unlines}
use libsysinfo.Text.{Bytes, is_xdigit, Stops}

-- A line of the table: a socket with a path, or another line.
pub data Entry : Type 0 where
  socket : Row → Entry
  other : Bytes → Entry

abbrev pub entry_text : Entry → Bytes
entry_text (socket r) = row_text r
entry_text (other l) = l

-- Another line does not begin with a hexadecimal digit, as the title, or has few blanks, as the
-- line of a socket without a path.
abbrev pub IsEntry : Entry → Type 0
IsEntry (socket r) = IsRow r
IsEntry (other l) = Stops is_xdigit l ⊎ (blanks l < 7)

abbrev pub sockets : List Entry → List UnixSocket
sockets [] = []
sockets (socket r ∷ es) = socket_of r ∷ sockets es
sockets (other l ∷ es) = sockets es

starts_xdigit : (l : Bytes) (caps : List Bytes) → Matches regex_unix l caps → Stops is_xdigit l → ⊥
starts_xdigit l caps ([], s, later, e, (ne, a), k, m) st = ne refl
starts_xdigit [] caps (c ∷ g, s, later, e, f, k, m) st = cc
starts_xdigit (d ∷ l) caps (c ∷ g, s, later, e, (ne, a), k, m) st = let same : d ≡ c = cc in cc

module _ (boost : Boost) (b : IsBoost boost) where
  unix_line-socket : (r : Row) → IsRow r → unix_line boost (row_text r) ≡ ok (socket_of r ∷ [])
  unix_line-socket r h = elim (Option-cases (boost.regex_match regex_unix (row_text r))) [
    | inl e ↦ absurd (b.match_complete regex_unix (row_text r) (groups r) (row_text-Matches r h) e)
    | inr (caps, e) ↦
        ap matched_unix
          (e ∙ ap some (regex_unix-groups r caps h (b.match_sound regex_unix (row_text r) caps e)))
        ∙ unix_socket-socket_of r h
  ]

  other-no_match :
      (l : Bytes) (caps : List Bytes) → Matches regex_unix l caps → IsEntry (other l) → ⊥
  other-no_match l caps m (inl h) = starts_xdigit l caps m h
  other-no_match l caps m (inr h) = omega (arith, regex_unix-blanks l caps m)

  unix_line-other : (l : Bytes) → IsEntry (other l) → unix_line boost l ≡ ok []
  unix_line-other l h = elim (Option-cases (boost.regex_match regex_unix l)) [
    | inl e ↦ ap matched_unix e
    | inr (caps, e) ↦ absurd (other-no_match l caps (b.match_sound regex_unix l caps e) h)
  ]

  read_table-sockets :
      (es : List Entry) (found : List UnixSocket)
      → All IsEntry es
      → read_table (unix_line boost) (map entry_text es) found ≡ ok (found ++ sockets es)
  unfolding read_table
  read_table-sockets [] found h = ap ok (sym (append-nil found))
  read_table-sockets (socket r ∷ es) found (is, h) =
      rw (unix_line-socket r is, read_table)
        (read_table-sockets es (found ++ socket_of r ∷ []) h
          ∙ ap ok (append_assoc found (socket_of r ∷ []) (sockets es)))
  read_table-sockets (other l ∷ es) found (is, h) =
      rw (unix_line-other l is, read_table)
        (read_table-sockets es (found ++ []) h ∙ ap (λ f. ok (f ++ sockets es)) (append-nil found))

  -- If every line of /proc/net/unix is that of a socket with a path, in whose fields are digits only
  -- and no number too large for an int, or begins with no hexadecimal digit, as the title, or has
  -- fewer than seven blanks, as that of a socket without a path, then getSocketUNIX returns one
  -- entry for each line of the first kind and no other, in their order, with the text of num and of
  -- the path, the reference count read in base sixteen, and the other numbers read in base ten: also
  -- the protocol, the flags, the type and the state, which the kernel writes in base sixteen.
  pub get_socket_unix-base_ten :
      (es : List Entry)
      → All IsEntry es
      → All (Lacks b'\n') (map entry_text es)
      → get_socket_unix boost (some (unlines b'\n' (map entry_text es))) ≡ ok (sockets es)
  unfolding get_socket_unix
  get_socket_unix-base_ten es h lacks =
      ap (λ ls. read_table (unix_line boost) ls []) (lines-unlines b'\n' (map entry_text es) lacks)
      ∙ read_table-sockets es [] h
