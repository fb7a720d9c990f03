-- ===== src/CpuInfo/RoundTrip.antt =====
-- readCPUInfo, getNbCores and getNbCPUs on records as the kernel writes them.
use libsysinfo.Boost.{Boost, IsBoost}
use libsysinfo.CpuInfo.Items.{
  Item, number, text, missed, key, shown_value, put, IsItem, set_member-put, key-IsKey,
}
use libsysinfo.CpuInfo.State.{CpuInfo, zero_cpu_info}
use libsysinfo.CpuInfo.{
  set_member, read_line, read_lines, read_cpu_info, count_first_cores, get_nb_cpus, get_nb_cores,
}
use libsysinfo.Prelude.{
  to_int, ◌≡◌, ◌≢◌, refl, sym, ap, ◌∙◌, false, List, [], ◌∷◌, ◌++◌, append_assoc, append-nil, map,
  length, length-map, All, All-append, some, ok, arith,
}
use libsysinfo.ProcessInfo.Io.RoundTrip.{digits-Lacks}
use libsysinfo.Text.Decimal.{to_string, to_string-AllOf}
use libsysinfo.Text.Lines.{
  before-Lacks, before, after, unlines, Lacks, lines-unlines, before-append, after-append,
}
use libsysinfo.Text.{Bytes, is_space, is_empty, AllOf}

-- A line: the item, and the blanks in front of its colon.
pub record Line : Type 0 where
  pub item : Item
  pub blanks : Bytes

abbrev pub line_text : Line → Bytes
line_text l = key l.item ++ (l.blanks ++ b':' ∷ b' ' ∷ shown_value l.item)

abbrev pub IsLine : Line → Type 0
IsLine l = IsItem l.item × AllOf is_space l.blanks × Lacks b'\n' l.blanks

-- The lines of a record, and the empty line that ends it.
abbrev pub record_lines : List Line → List Bytes
record_lines r = map line_text r ++ [] ∷ []

abbrev pub file_lines : List (List Line) → List Bytes
file_lines [] = []
file_lines (r ∷ rs) = record_lines r ++ file_lines rs

-- The record with the members of its lines; where a key stands twice, the last one counts.
abbrev pub put_all : List Line → CpuInfo → CpuInfo
put_all [] c = c
put_all (l ∷ r) c = put_all r (put l.item c)

abbrev pub loaded : List Line → CpuInfo
loaded r = put_all r zero_cpu_info

value-Lacks : (i : Item) → IsItem i → Lacks b'\n' (shown_value i)
value-Lacks (number k n) h = digits-Lacks b'\n' (to_string n) refl (to_string-AllOf n)
value-Lacks (text k v) h = h
value-Lacks (missed k v) h = h

spaces-Lacks : (s : Bytes) → AllOf is_space s → Lacks b':' s
spaces-Lacks [] a = tt
spaces-Lacks (c ∷ s) a = (ground arith, spaces-Lacks s a.1)

not_empty : (s t : Bytes) → s ≢ [] → is_empty (s ++ t) ≡ false
not_empty [] t ne = absurd (ne refl)
not_empty (c ∷ s) t ne = refl

line_text-Lacks : (l : Line) → IsLine l → Lacks b'\n' (line_text l)
line_text-Lacks l (is, spaces, no_end) =
    All-append _ (key l.item) (l.blanks ++ b':' ∷ b' ' ∷ shown_value l.item) (key-IsKey l.item).4 (
      All-append _ l.blanks (b':' ∷ b' ' ∷ shown_value l.item) no_end
        (refl, (refl, value-Lacks l.item is)))

record_lines-Lacks :
    (r : List Line) (ls : List Bytes)
    → All IsLine r
    → All (Lacks b'\n') ls
    → All (Lacks b'\n') (record_lines r ++ ls)
record_lines-Lacks [] ls h k = (tt, k)
record_lines-Lacks (l ∷ r) ls h k = (line_text-Lacks l h.0, record_lines-Lacks r ls h.1 k)

file_lines-Lacks : (rs : List (List Line)) → All (All IsLine) rs → All (Lacks b'\n') (file_lines rs)
file_lines-Lacks [] h = tt
file_lines-Lacks (r ∷ rs) h = record_lines-Lacks r (file_lines rs) h.0 (file_lines-Lacks rs h.1)

module _ (boost : Boost) (b : IsBoost boost) where
  read_line-put :
      (l : Line) (c : CpuInfo) → IsLine l → read_line boost (line_text l) c ≡ ok (put l.item c)
  unfolding read_line
  read_line-put l c (is, spaces, no_end) =
      let (ne, starts, ends, colon, end) = key-IsKey l.item in
      let front = key l.item ++ l.blanks in
      let value = b' ' ∷ shown_value l.item in
      let lacks : Lacks b':' front =
        All-append _ (key l.item) l.blanks colon (spaces-Lacks l.blanks spaces) in
      let whole : line_text l ≡ front ++ b':' ∷ value =
        sym (append_assoc (key l.item) l.blanks (b':' ∷ value)) in
      ap (λ s. set_member (boost.trim (before b':' s)) (before b'\n' (after b':' s)) c) whole
      ∙ ap (λ s. set_member (boost.trim s) (before b'\n' (after b':' (front ++ b':' ∷ value))) c)
          (before-append b':' front value lacks)
      ∙ ap (λ s. set_member s (before b'\n' (after b':' (front ++ b':' ∷ value))) c)
          (b.trim_blanks [] (key l.item) l.blanks tt starts ends spaces)
      ∙ ap (λ s. set_member (key l.item) (before b'\n' s) c) (after-append b':' front value lacks)
      ∙ ap (λ s. set_member (key l.item) s c)
          (before-Lacks b'\n' value (refl, value-Lacks l.item is))
      ∙ set_member-put l.item c is

  read_lines-record :
      (r : List Line) (rest : List Bytes) (cur : CpuInfo) (done : List CpuInfo)
      → All IsLine r
      → read_lines boost (record_lines r ++ rest) cur done
        ≡ read_lines boost rest zero_cpu_info (done ++ put_all r cur ∷ [])
  unfolding read_lines
  read_lines-record [] rest cur done h = refl
  read_lines-record (l ∷ r) rest cur done (is, h) =
      rw
        (
          not_empty (key l.item) (l.blanks ++ b':' ∷ b' ' ∷ shown_value l.item)
              (key-IsKey l.item).0,
          read_lines,
        )
        (rw (read_line-put l cur is, read_lines) (read_lines-record r rest (put l.item cur) done h))

  read_lines-loaded :
      (rs : List (List Line)) (done : List CpuInfo)
      → All (All IsLine) rs
      → read_lines boost (file_lines rs) zero_cpu_info done ≡ ok (done ++ map loaded rs)
  unfolding read_lines
  read_lines-loaded [] done h = ap ok (sym (append-nil done))
  read_lines-loaded (r ∷ rs) done (is, h) =
      read_lines-record r (file_lines rs) zero_cpu_info done is
      ∙ read_lines-loaded rs (done ++ loaded r ∷ []) h
      ∙ ap ok (append_assoc done (loaded r ∷ []) (map loaded rs))

  -- If /proc/cpuinfo holds records of lines with integers below 2 ^ 31, texts and the keys that the
  -- source spells otherwise, each ended by an empty line, then readCPUInfo returns one record for
  -- each, with its integers and its texts, these with the blank behind the colon; getNbCores
  -- returns how many records there are, and getNbCPUs how many of them have the core id 0, as ints.
  pub read_cpu_info-loaded :
      (rs : List (List Line))
      → All (All IsLine) rs
      → (read_cpu_info boost (some (unlines b'\n' (file_lines rs))) ≡ ok (map loaded rs))
        × (get_nb_cores boost (some (unlines b'\n' (file_lines rs))) ≡ ok (to_int (length rs)))
        × (get_nb_cpus boost (some (unlines b'\n' (file_lines rs)))
            ≡ ok (to_int (count_first_cores (map loaded rs))))
  unfolding read_cpu_info get_nb_cores get_nb_cpus
  read_cpu_info-loaded rs h =
      let records =
        ap (λ ls. read_lines boost ls zero_cpu_info [])
          (lines-unlines b'\n' (file_lines rs) (file_lines-Lacks rs h))
        ∙ read_lines-loaded rs [] h in
      (
        records,
        rw (records, get_nb_cores) (ap (λ n. ok (to_int n)) (length-map loaded rs)),
        rw (records, get_nb_cpus) refl,
      )
