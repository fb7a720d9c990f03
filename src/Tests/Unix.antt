-- ===== src/Tests/Unix.antt =====
-- A table of /proc/net/unix with a title, and with one socket that has a path.
use libsysinfo.Boost.Instance.{reference, reference-IsBoost}
use libsysinfo.Network.Table.{Entry, socket, other, entry_text, get_socket_unix-base_ten}
use libsysinfo.Network.{get_socket_unix}
use libsysinfo.Prelude.{◌≡◌, refl, inl, inr, List, [], ◌∷◌, map, some, ok, arith}
use libsysinfo.Tests.Network.{at_path}
use libsysinfo.Text.Lines.{unlines}
use libsysinfo.Text.Number.{value}
use libsysinfo.Text.{codes}

-- The title, a socket with a path, and one without.
abbrev table : List Entry
table =
    other (codes "Num       RefCount Protocol Flags    Type St Inode Path")
    ∷ socket (record {
      num = codes "0a";
      ref_count = codes "02";
      protocol = codes "0";
      flags = codes "10000";
      kind = codes "1";
      state = codes "1";
      inode = codes "57";
      path = codes "@/x";
    })
    ∷ other (codes "0b: 2 0 0 2 1 58")
    ∷ []

get_socket_unix-base_ten_example :
    get_socket_unix reference (some (unlines b'\n' (map entry_text table))) ≡ ok (at_path ∷ [])
unfolding value
get_socket_unix-base_ten_example =
    get_socket_unix-base_ten reference reference-IsBoost table
      (
        inl refl,
        (
          (
            ((cc), assumption refl),
            ((cc), assumption refl),
            omega arith,
            (((cc), assumption refl), omega arith),
            (((cc), assumption refl), omega arith),
            (((cc), assumption refl), omega arith),
            (((cc), assumption refl), omega arith),
            (((cc), assumption refl), omega arith),
          ),
          (inr (omega arith), tt),
        ),
      )
      (assumption refl)
