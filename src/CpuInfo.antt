-- ===== src/CpuInfo.antt =====
-- src/sysinfo.cpp: readCPUInfo over /proc/cpuinfo, getNbCPUs and getNbCores.
pub mod State
pub mod Members
pub mod Count
pub mod Items
pub mod RoundTrip
use libsysinfo.Boost.{Boost}
use libsysinfo.CpuInfo.State.{CpuInfo, zero_cpu_info}
use libsysinfo.Prelude.{
  ℕ, suc, Bool, true, false, List, [], ◌∷◌, ◌++◌, Option, none, some, ◌==◌, if◌then◌else◌, ℤ, pos,
  eqb_ℤ, to_int, Result, ok, throw, length,
}
use libsysinfo.Text.Lines.{before, after, lines, on_head}
use libsysinfo.Text.Number.{ten, stoi, stol}
use libsysinfo.Text.{Bytes, codes, same_text, is_empty, is_space}

-- What a conversion that succeeds puts into the record.
unfoldable pub store : Result ℤ → (ℤ → CpuInfo) → Result CpuInfo
store (ok z) f = ok (f z)
store (throw e) f = throw e

pieces : Bytes → List Bytes
pieces [] = [] ∷ []
pieces (c ∷ s) = let rest = pieces s in if is_space c then [] ∷ rest else on_head c rest

not_empty : List Bytes → List Bytes
not_empty [] = []
not_empty (w ∷ ws) = let rest = not_empty ws in if is_empty w then rest else w ∷ rest

-- while (flags_stream >> cur_flag): the words between the blanks
unfoldable pub words : Bytes → List Bytes
unfolding pieces not_empty
words s = not_empty (pieces s)

-- What the source does with the value of a key.
abbrev pub Action : Type 0
Action = Bytes → CpuInfo → Result CpuInfo

-- The branches of the chain of tests on the key, in their order. The value stands as it is behind
-- the colon, blanks included: the source trims it before it is read.
unfoldable pub branches : List (Bytes × Action)
unfolding words
branches =
    (codes "processor", λ value c. store (stoi value ten) (λ z. record c { processor = z }))
    ∷ (codes "vendor_id", λ value c. ok (record c { vendor_id = value }))
    ∷ (codes "cpu family", λ value c. store (stoi value ten) (λ z. record c { cpu_family = z }))
    ∷ (codes "model", λ value c. store (stoi value ten) (λ z. record c { model = z }))
    ∷ (codes "model name", λ value c. ok (record c { model_name = value }))
    ∷ (codes "stepping", λ value c. store (stoi value ten) (λ z. record c { stepping = z }))
    ∷ (codes "microcode", λ value c. store (stoi value ten) (λ z. record c { microcode = z }))
    ∷ (codes "cpu MHz", λ value c. store (stol value ten) (λ z. record c { cpu_mhz = z }))
    ∷ (codes "cache size", λ value c. ok (record c { cache_size = pos 0 }))
    ∷ (codes "physical id", λ value c. store (stoi value ten) (λ z. record c { physical_id = z }))
    ∷ (codes "sibblings", λ value c. store (stoi value ten) (λ z. record c { siblings = z }))
    ∷ (codes "core id", λ value c. store (stoi value ten) (λ z. record c { core_id = z }))
    ∷ (codes "cpu cores", λ value c. store (stoi value ten) (λ z. record c { cpu_cores = z }))
    ∷ (codes "apicid", λ value c. store (stoi value ten) (λ z. record c { apicid = z }))
    ∷ (
      codes "initial apicid",
      λ value c. store (stoi value ten) (λ z. record c { initial_apicid = z }),
    )
    ∷ (codes "fpu", λ value c. ok (record c { fpu = same_text value (codes "yes") }))
    ∷ (
      codes "fpu_exception",
      λ value c. ok (record c { fpu_exception = same_text value (codes "yes") }),
    )
    ∷ (codes "cpuid_level", λ value c. store (stoi value ten) (λ z. record c { cpuid_level = z }))
    ∷ (codes "wp", λ value c. ok (record c { wp = same_text value (codes "yes") }))
    ∷ (codes "flags", λ value c. ok (record c { flags = c.flags ++ words value }))
    ∷ (codes "bugs", λ value c. ok (record c { bugs = value }))
    ∷ (codes "bogomipinfo", λ value c. store (stol value ten) (λ z. record c { bogomips = z }))
    ∷ (codes "clflush size", λ value c. store (stoi value ten) (λ z. record c { clflush_size = z }))
    ∷ (
      codes "cache_alignement",
      λ value c. store (stoi value ten) (λ z. record c { cache_alignement = z }),
    )
    ∷ (codes "address sizes", λ value c. ok (record c { address_sizes = value }))
    ∷ (codes "power management", λ value c. ok (record c { power_management = value }))
    ∷ []

unfoldable pub choose : List (Bytes × Action) → Bytes → Action
choose [] key value c = ok c
choose ((k, action) ∷ more) key value c =
    if same_text key k then action value c else choose more key value c

unfoldable pub set_member : Bytes → Action
set_member = choose branches

-- A line that is not blank: the key is trimmed, the value is not.
unfoldable pub read_line : Boost → Bytes → CpuInfo → Result CpuInfo
read_line boost l c = set_member (boost.trim (before b':' l)) (before b'\n' (after b':' l)) c

-- The loop. A blank line ends a record; a last record with no blank line behind it is dropped.
-- An empty line was ended by its newline, so eof() does not hold there and the record is reset.
unfoldable pub read_lines : Boost → List Bytes → CpuInfo → List CpuInfo → Result (List CpuInfo)
read_lines boost [] cur done = ok done
read_lines boost (l ∷ ls) cur done = elim (is_empty l) [
  | true ↦ read_lines boost ls zero_cpu_info (done ++ cur ∷ [])
  | false ↦ elim (read_line boost l cur) [
    | ok next ↦ read_lines boost ls next done
    | throw e ↦ throw e
  ]
]

-- The text of /proc/cpuinfo, none if it cannot be opened.
unfoldable pub read_cpu_info : Boost → Option Bytes → Result (List CpuInfo)
read_cpu_info boost none = ok []
read_cpu_info boost (some s) = read_lines boost (lines b'\n' s) zero_cpu_info []

abbrev pub count_first_cores : List CpuInfo → ℕ
count_first_cores [] = 0
count_first_cores (c ∷ cs) =
    if eqb_ℤ c.core_id (pos 0) then suc (count_first_cores cs) else count_first_cores cs

-- The counts are ints.
unfoldable pub get_nb_cpus : Boost → Option Bytes → Result ℤ
get_nb_cpus boost file = elim (read_cpu_info boost file) [
  | ok cs ↦ ok (to_int (count_first_cores cs))
  | throw e ↦ throw e
]

unfoldable pub get_nb_cores : Boost → Option Bytes → Result ℤ
get_nb_cores boost file = elim (read_cpu_info boost file) [
  | ok cs ↦ ok (to_int (length cs))
  | throw e ↦ throw e
]
