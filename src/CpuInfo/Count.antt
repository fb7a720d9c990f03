-- ===== src/CpuInfo/Count.antt =====
-- How many records readCPUInfo returns.
use libsysinfo.Boost.{Boost}
use libsysinfo.CpuInfo.State.{CpuInfo, zero_cpu_info}
use libsysinfo.CpuInfo.{read_line, read_lines, read_cpu_info, get_nb_cores}
use libsysinfo.Prelude.{
  ℕ, ℤ, sym, ap, ◌∙◌, to_int, suc, ◌+◌, ◌≡◌, List, [], ◌∷◌, ◌++◌, some, arith, if◌then◌else◌,
  throw-ne-ok, ok-injective, Result-cases, ok, length, length-append, inl, inr,
}
use libsysinfo.Text.Lines.{lines}
use libsysinfo.Text.{Bytes, is_empty}

-- The lines with nothing on them.
abbrev pub count_blank : List Bytes → ℕ
count_blank [] = 0
count_blank (l ∷ ls) = if is_empty l then suc (count_blank ls) else count_blank ls

read_lines-count_blank :
    (boost : Boost) (ls : List Bytes) (cur : CpuInfo) (done : List CpuInfo) {cs : List CpuInfo}
    → read_lines boost ls cur done ≡ ok cs
    → length cs ≡ length done + count_blank ls
unfolding read_lines
read_lines-count_blank boost [] cur done h = ground arith
read_lines-count_blank boost ([] ∷ ls) cur done h = omega (
  arith,
  read_lines-count_blank boost ls zero_cpu_info (done ++ cur ∷ []) h,
  length-append done (cur ∷ []),
)
read_lines-count_blank boost ((c ∷ l) ∷ ls) cur done h =
    elim (Result-cases (read_line boost (c ∷ l) cur)) [
      | inl (next, e) ↦ read_lines-count_blank boost ls next done (rw (e, read_lines) at h)
      | inr (x, e) ↦ absurd (throw-ne-ok (rw (e, read_lines) at h))
    ]

-- Where getNbCores returns, it counts the blank lines of the file, as an int, whatever its other lines hold:
-- a last record that no blank line ends is not counted as a core.
pub get_nb_cores-count_blank :
    (boost : Boost) (s : Bytes) {n : ℤ}
    → get_nb_cores boost (some s) ≡ ok n
    → n ≡ to_int (count_blank (lines b'\n' s))
unfolding get_nb_cores read_cpu_info
get_nb_cores-count_blank boost s h =
    elim (Result-cases (read_lines boost (lines b'\n' s) zero_cpu_info [])) [
      | inl (cs, e) ↦
          sym (ok-injective (rw (e, get_nb_cores) at h))
          ∙ ap to_int
              (omega (arith, read_lines-count_blank boost (lines b'\n' s) zero_cpu_info [] e))
      | inr (x, e) ↦ absurd (throw-ne-ok (rw (e, get_nb_cores) at h))
    ]
