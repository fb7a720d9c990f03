-- ===== src/ProcessInfo/Stack.antt =====
-- src/processinfo.cpp: readStack over /proc/<pid>/stack. No getter calls it yet.
pub mod RoundTrip
use libsysinfo.Boost.Pattern.{plain, group, one, many, some_of, Regex, lit, any}
use libsysinfo.Boost.{Boost}
use libsysinfo.Prelude.{ℕ, List, [], ◌∷◌, ◌++◌, Option, none, some}
use libsysinfo.ProcessInfo.Io.{lines_of}
use libsysinfo.ProcessInfo.State.{Os, ProcessInfo, StackFunc}
use libsysinfo.Text.{Bytes, codes, is_space, is_xdigit}

-- ^\[<([[:xdigit:]]+)>\]\s(.*)$
abbrev pub regex_stack : Regex
regex_stack =
    lit b'['
    ∷ lit b'<'
    ∷ group (some_of is_xdigit)
    ∷ lit b'>'
    ∷ lit b']'
    ∷ plain (one is_space)
    ∷ group (many any)
    ∷ []

abbrev pub stack_func : Option (List Bytes) → List StackFunc
stack_func (some (address ∷ function ∷ [])) = record { address = address; function = function } ∷ []
stack_func _ = []

-- The loop.
unfoldable pub read_stack_lines : Boost → List Bytes → List StackFunc → List StackFunc
read_stack_lines boost [] stack = stack
read_stack_lines boost (l ∷ ls) stack =
    read_stack_lines boost ls (stack ++ stack_func (boost.regex_match regex_stack l))

unfoldable pub read_stack : Boost → Os → ProcessInfo → ProcessInfo
read_stack boost os p = record p {
  stack = read_stack_lines boost (lines_of (os.open_file (p.proc_path ++ codes "/stack"))) p.stack;
}
