-- ===== src/ProcessInfo/Smaps.antt =====
-- src/processinfo.cpp: readSmaps over /proc/<pid>/smaps, and its getter. The file is cut at the
-- declarations, and each piece is given to the constructor of MMap.
pub mod Blocks
pub mod Empty
use libsysinfo.Boost.{Boost}
use libsysinfo.MMap.State.{MMap}
use libsysinfo.MMap.{mmap}
use libsysinfo.Prelude.{
  ℕ, Bool, true, false, not, ◌&&◌, List, [], ◌∷◌, ◌++◌, length, Option, none, some, if◌then◌else◌,
  Result, ok, throw,
}
use libsysinfo.ProcessInfo.Io.{Effect}
use libsysinfo.ProcessInfo.State.{Os, ProcessInfo}
use libsysinfo.Text.Lines.{lines}
use libsysinfo.Text.{Bytes, codes, contains, is_empty}

-- A step that works on m_maps and may throw.
abbrev pub Maps : Type 0
Maps = Result (Unit {0}) × List MMap

-- MMap map = MMap(map_stream); m_maps.push_back(map). `raw` is what the storage of the mapping with
-- that number holds before it is constructed.
unfoldable pub push_map : Boost → (ℕ → MMap) → Bytes → List MMap → Maps
push_map boost raw text maps = elim (mmap boost (raw (length maps)) text) [
  | ok m ↦ (ok tt, maps ++ m ∷ [])
  | throw e ↦ (throw e, maps)
]

-- map_stream << line; map_stream << "\n"
abbrev pub put_line : Bytes → Bytes → Bytes
put_line text l = text ++ (l ++ b'\n' ∷ [])

-- The loop, with what map_stream holds, and the last mapping behind it.
unfoldable pub read_smaps_lines : Boost → (ℕ → MMap) → List Bytes → Bytes → List MMap → Maps
read_smaps_lines boost raw [] text maps = push_map boost raw text maps
read_smaps_lines boost raw (l ∷ ls) text maps = elim (contains b'-' l && not (is_empty text)) [
  | true ↦
      let (r, more) = push_map boost raw text maps in
      elim r [
        | ok t ↦ read_smaps_lines boost raw ls (put_line [] l) more
        | throw e ↦ (throw e, more)
      ]
  | false ↦ read_smaps_lines boost raw ls (put_line text l) maps
]

abbrev pub read_smaps_file : Boost → (ℕ → MMap) → Option Bytes → Maps
read_smaps_file boost raw none = (ok tt, [])
read_smaps_file boost raw (some s) = read_smaps_lines boost raw (lines b'\n' s) [] []

unfoldable pub read_smaps : Boost → (ℕ → MMap) → Os → ProcessInfo → Effect (Unit {0})
read_smaps boost raw os p =
    let (r, maps) = read_smaps_file boost raw (os.open_file (p.proc_path ++ codes "/smaps")) in
    (r, record p { maps = maps })

abbrev pub maps_value : Effect (Unit {0}) → Effect (List MMap)
maps_value (ok t, p) =
    (ok p.maps, record p { need_update = record p.need_update { smaps = false } })
maps_value (throw e, p) = (throw e, p)

-- ProcessInfo::maps
unfoldable pub maps : Boost → (ℕ → MMap) → Os → ProcessInfo → Effect (List MMap)
maps boost raw os p =
    if p.need_update.smaps then maps_value (read_smaps boost raw os p) else (ok p.maps, p)
