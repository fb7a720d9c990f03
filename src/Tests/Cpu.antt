-- ===== src/Tests/Cpu.antt =====
-- readCPUInfo and the two counts.
use libsysinfo.Boost.Instance.{reference, reference-IsBoost}
use libsysinfo.Boost.Reference.Trim.{trim}
use libsysinfo.CpuInfo.Count.{count_blank, get_nb_cores-count_blank}
use libsysinfo.CpuInfo.Items.{
  number, text, missed, of_processor, of_model_name, of_siblings, of_core_id,
}
use libsysinfo.CpuInfo.RoundTrip.{Line, file_lines, loaded, read_cpu_info-loaded}
use libsysinfo.CpuInfo.Members.{IsUnset, read_cpu_info-IsUnset}
use libsysinfo.CpuInfo.State.{zero_cpu_info}
use libsysinfo.CpuInfo.{
  read_cpu_info, get_nb_cpus, get_nb_cores, read_lines, read_line, set_member, choose, branches,
  store,
}
use libsysinfo.Prelude.{to_int, arith, ok, List, map, ◌≡◌, refl, [], ◌∷◌, some, pos, All}
use libsysinfo.Text.Lines.{unlines, lines, before, after}
use libsysinfo.Text.Number.{stoi, stol, strtol, convert, value, in_signed_range}
use libsysinfo.Text.{Bytes, codes, same_text, take_while, drop_while}

-- Two records, the second with no blank line behind it.
abbrev cpuinfo : Bytes
cpuinfo = codes "processor\t: 0\ncore id\t: 0\nfpu\t: yes\n\nprocessor\t: 1\nwp\t: yes\n"

get_nb_cores-count_blank_example : pos 1 ≡ to_int (count_blank (lines b'\n' cpuinfo))
unfolding to_int read_cpu_info get_nb_cores read_lines read_line set_member choose branches store
    lines before after stoi stol strtol convert value in_signed_range same_text take_while
    drop_while trim
get_nb_cores-count_blank_example = get_nb_cores-count_blank reference cpuinfo refl

read_cpu_info-IsUnset_example :
    All IsUnset (record zero_cpu_info { processor = pos 0; core_id = pos 0 } ∷ [])
unfolding read_cpu_info read_lines read_line set_member choose branches store lines before after
    stoi stol strtol convert value in_signed_range same_text take_while drop_while trim
read_cpu_info-IsUnset_example = read_cpu_info-IsUnset reference cpuinfo (assumption refl) refl

-- Two threads of the first core, and another core.
abbrev machine : List (List Line)
machine =
    (record { item = number of_processor 0; blanks = codes "\t" }
      ∷ record { item = text of_model_name (codes "Intel"); blanks = codes "\t" }
      ∷ record { item = missed of_siblings (codes "3"); blanks = codes "\t" }
      ∷ record { item = number of_core_id 0; blanks = codes "\t\t" }
      ∷ [])
    ∷ (record { item = number of_processor 1; blanks = [] } ∷ [])
    ∷ (record { item = number of_core_id 1; blanks = codes "\t\t" } ∷ [])
    ∷ []

read_cpu_info-loaded_example :
    (read_cpu_info reference (some (unlines b'\n' (file_lines machine))) ≡ ok (map loaded machine))
    × (get_nb_cores reference (some (unlines b'\n' (file_lines machine))) ≡ ok (to_int 3))
    × (get_nb_cpus reference (some (unlines b'\n' (file_lines machine))) ≡ ok (to_int 2))
read_cpu_info-loaded_example = read_cpu_info-loaded reference reference-IsBoost machine (
  (
    (omega arith, (refl, tt), (refl, tt)),
    (
      (assumption refl, (refl, tt), (refl, tt)),
      (
        (assumption refl, (refl, tt), (refl, tt)),
        ((omega arith, (refl, (refl, tt)), (refl, (refl, tt))), tt),
      ),
    ),
  ),
  (((omega arith, tt, tt), tt), (((omega arith, (refl, (refl, tt)), (refl, (refl, tt))), tt), tt)),
)
