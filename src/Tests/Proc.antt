-- ===== src/Tests/Proc.antt =====
-- The control groups, the limits, the stack and the mappings of a process.
use libsysinfo.Boost.Instance.{reference, reference-IsBoost}
use libsysinfo.Boost.Reference.Match.{regex_match}
use libsysinfo.Boost.Reference.{find_split, fits, all_of}
use libsysinfo.Prelude.{◌≡◌, refl, List, [], ◌∷◌, ◌++◌, map, some, ok, out_of_range, arith}
use libsysinfo.ProcessInfo.Cgroup.RoundTrip.{Hierarchy, hierarchy_line, stored, read_cgroup-stored}
use libsysinfo.ProcessInfo.Cgroup.{read_cgroup}
use libsysinfo.ProcessInfo.Limits.Throws.{read_limits_lines_throws}
use libsysinfo.ProcessInfo.Limits.{limit_value, read_limits_lines}
use libsysinfo.ProcessInfo.Smaps.Blocks.{Block, file_lines, load_blocks, read_smaps-load_blocks}
use libsysinfo.ProcessInfo.Smaps.Empty.{unread_mapping, read_smaps_empty}
use libsysinfo.ProcessInfo.Smaps.{read_smaps}
use libsysinfo.ProcessInfo.Stack.RoundTrip.{stack_line, read_stack-append}
use libsysinfo.ProcessInfo.Stack.{read_stack}
use libsysinfo.ProcessInfo.State.{Os, StackFunc, Limits}
use libsysinfo.Tests.Data.{process, system}
use libsysinfo.Text.Decimal.{to_string}
use libsysinfo.Text.Lines.{unlines}
use libsysinfo.Text.Number.{stoi, strtol, convert, value, in_signed_range}
use libsysinfo.Text.{Bytes, contains, codes, same_text, take_while, drop_while}
use libsysinfo.Tests.Maps.{raw}

abbrev hierarchies : List Hierarchy
hierarchies =
    record {
      number = 12;
      subsystem = codes "cpu";
      others = codes "cpuacct" ∷ [];
      path = codes "/a";
      more = codes "b" ∷ [];
    }
    ∷ record { number = 0; subsystem = []; others = []; path = codes "/"; more = [] }
    ∷ []

abbrev cgroup_file : Os
cgroup_file = system 0 (unlines b'\n' (map hierarchy_line hierarchies))

read_cgroup-stored_example :
    read_cgroup reference cgroup_file (process [])
    ≡ some (ok tt, record (process []) { cgroups = [] ++ map stored hierarchies })
unfolding to_string
read_cgroup-stored_example =
    read_cgroup-stored reference reference-IsBoost cgroup_file (process []) hierarchies refl
      (
        (omega arith, assumption refl, assumption refl, assumption refl),
        ((omega arith, assumption refl, assumption refl, assumption refl), tt),
      )
      (assumption refl)

abbrev no_limits : Limits
no_limits = (process []).limits

-- 2 ^ 31 bytes
abbrev limit_lines : List Bytes
limit_lines = codes "Max file size 2147483648 9 bytes" ∷ []

read_limits_lines_throws_example : out_of_range ≡ out_of_range
unfolding read_limits_lines limit_value same_text stoi strtol convert value in_signed_range
    regex_match find_split fits all_of take_while drop_while
read_limits_lines_throws_example =
    read_limits_lines_throws reference reference-IsBoost limit_lines no_limits {e = out_of_range}
      refl

abbrev frames : List StackFunc
frames =
    record { address = codes "0"; function = codes "do_wait+0x1/0x2" }
    ∷ record { address = codes "ffa0"; function = codes "ret" }
    ∷ []

abbrev stack_file : Os
stack_file = system 0 (unlines b'\n' (map stack_line frames))

read_stack-append_example :
    read_stack reference stack_file (process []) ≡ record (process []) { stack = [] ++ frames }
read_stack-append_example =
    read_stack-append reference reference-IsBoost stack_file (process []) frames refl
      (((cc), assumption refl), (((cc), assumption refl), tt)) (assumption refl)

read_smaps_empty_example :
    read_smaps reference (λ n. raw) (system 0 []) (process [])
    ≡ (ok tt, record (process []) { maps = unread_mapping raw ∷ [] })
read_smaps_empty_example =
    read_smaps_empty reference reference-IsBoost (λ n. raw) (system 0 []) (process []) refl

abbrev stack_block : Block
stack_block = record {
  declaration = codes "0-1 rw-p 0 0:0 0  [stack]";
  attributes = codes "Rss: 4 kB" ∷ [];
}

abbrev heap_block : Block
heap_block = record { declaration = codes "2-3 rw-p 0 0:0 0  [heap]"; attributes = [] }

abbrev smaps_file : Os
smaps_file = system 0 (unlines b'\n' (file_lines (stack_block ∷ heap_block ∷ [])))

read_smaps-load_blocks_example : read_smaps reference (λ n. raw) smaps_file (process []) ≡ (
  (load_blocks reference (λ n. raw) (stack_block ∷ heap_block ∷ []) []).0,
  record (process []) {
    maps = (load_blocks reference (λ n. raw) (stack_block ∷ heap_block ∷ []) []).1;
  },
)
unfolding contains
read_smaps-load_blocks_example =
    read_smaps-load_blocks reference (λ n. raw) smaps_file (process []) stack_block
      (heap_block ∷ []) refl ((refl, (refl, tt)), ((refl, tt), tt)) (assumption refl)
