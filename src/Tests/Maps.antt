-- ===== src/Tests/Maps.antt =====
-- The constructor of MMap.
use libsysinfo.Boost.Instance.{reference, reference-IsBoost}
use libsysinfo.Boost.Reference.Match.{regex_match}
use libsysinfo.Boost.Reference.{find_split, fits, all_of}
use libsysinfo.Boost.Reference.Trim.{trim}
use libsysinfo.Boost.Reference.Split.{split}
use libsysinfo.MMap.Attributes.{attribute_line, read_attribute-digits}
use libsysinfo.MMap.Offset.{read_all-offset}
use libsysinfo.MMap.Permissions.{read_all-permissions}
use libsysinfo.MMap.State.{MMap, shared, priv}
use libsysinfo.MMap.{
  read_attribute, permissions, type_name, read_all, read_attributes, declare, set_numbers,
  store_attribute,
}
use libsysinfo.Prelude.{
  to_u64, to_int, ◌≡◌, ◌≢◌, refl, arith, [], ◌++◌, false, true, pos, ok, if◌then◌else◌,
}
use libsysinfo.Text.Number.{ten, stoi, stol, strtol, convert, value, in_signed_range}
use libsysinfo.Text.{codes, is_digit, same_text, take_while, drop_while}

abbrev pub raw : MMap
raw = record {
  address_from = [];
  address_to = [];
  perm_read = false;
  perm_write = false;
  perm_execute = false;
  mapping = shared;
  offset = pos 0;
  dev_major = pos 0;
  dev_minor = pos 0;
  inode = pos 0;
  pathname = [];
  attribute = λ a. pos 0;
  vmflags = [];
  category = [];
}

read_attribute-digits_example :
    read_attribute reference (attribute_line (codes "Rss") (codes "   ") (codes "12 kB")) raw
    ≡ ok (record raw { vmflags = reference.split (codes "12 kB") b' ' })
read_attribute-digits_example =
    read_attribute-digits reference reference-IsBoost (codes "Rss") (codes "   ") b'1' b'2'
      (codes " kB") raw (cc) (ground arith) (cc) (ground arith) refl refl refl

read_all-permissions_example :
    (permissions (record raw {
      address_from = codes "0";
      address_to = codes "1";
      perm_read = true;
      perm_execute = true;
      mapping = priv;
      dev_major = pos 8;
      dev_minor = pos 1;
      inode = pos 5;
      pathname = codes "/c";
    })
      ≡ codes "r" ++ (codes "-" ++ codes "x"))
    × (type_name (record raw {
      address_from = codes "0";
      address_to = codes "1";
      perm_read = true;
      perm_execute = true;
      mapping = priv;
      dev_major = pos 8;
      dev_minor = pos 1;
      inode = pos 5;
      pathname = codes "/c";
    })
        ≡ (if same_text (codes "p") (codes "p") then codes "Private" else codes "Shared"))
unfolding read_all read_attributes read_attribute declare set_numbers store_attribute regex_match
    find_split fits all_of trim split stoi stol strtol convert value in_signed_range same_text
    take_while drop_while to_u64 to_int
read_all-permissions_example =
    read_all-permissions reference reference-IsBoost (codes "0-1 r-xp 0 8:1 5  /c") [] (codes "0")
      (codes "1") (codes "r") (codes "-") (codes "x") (codes "p") (codes "0") (codes "8")
      (codes "1") (codes "5") (codes "/c") raw refl refl

-- The offset is 0x12a000.
read_all-offset_example :
    (take_while is_digit (codes "12a000") ≢ [])
    × (pos 12 ≡ to_int (to_u64 (pos (value ten 0 (codes "12")))))
unfolding read_all read_attributes read_attribute declare set_numbers store_attribute regex_match
    find_split fits all_of trim split stoi stol strtol convert value in_signed_range same_text
    take_while drop_while to_u64 to_int
read_all-offset_example =
    read_all-offset reference reference-IsBoost (codes "0-1 r-xp 12a000 8:1 5  /c") [] (codes "0")
      (codes "1") (codes "r") (codes "-") (codes "x") (codes "p") (codes "12a000") (codes "8")
      (codes "1") (codes "5") (codes "/c") raw refl refl
