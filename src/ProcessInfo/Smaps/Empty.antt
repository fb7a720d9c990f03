-- ===== src/ProcessInfo/Smaps/Empty.antt =====
-- An empty smaps, such as that of a kernel thread.
use libsysinfo.Boost.Pattern.{Matches}
use libsysinfo.Boost.{Boost, IsBoost}
use libsysinfo.MMap.State.{MMap}
use libsysinfo.MMap.{mmap, read_all, declare_matched, regex_declare_mapping, and_then, category_of}
use libsysinfo.Prelude.{
  ℕ, ◌≡◌, refl, ap, ◌∙◌, List, [], ◌∷◌, ◌++◌, none, some, Option-cases, inl, inr, Result, ok, throw,
}
use libsysinfo.ProcessInfo.Smaps.{Maps, push_map, read_smaps_lines, read_smaps_file, read_smaps}
use libsysinfo.ProcessInfo.State.{Os, ProcessInfo}
use libsysinfo.Text.Lines.{lines}
use libsysinfo.Text.{Bytes, codes}

-- A mapping of which nothing has been read: its strings are empty, and the rest is what the storage
-- held.
abbrev pub unread_mapping : MMap → MMap
unread_mapping raw = record raw {
  address_from = [];
  address_to = [];
  pathname = [];
  vmflags = [];
  category = category_of [] raw.mapping;
}

empty-no_match : (caps : List Bytes) → ¬ Matches regex_declare_mapping [] caps
empty-no_match caps ([], rest, later, e, (ne, a), k, m) = ne refl
empty-no_match caps (c ∷ run, rest, later, e, f, k, m) = cc

module _ (boost : Boost) (b : IsBoost boost) where
  regex_declare_mapping-none : boost.regex_match regex_declare_mapping [] ≡ none
  regex_declare_mapping-none = elim (Option-cases (boost.regex_match regex_declare_mapping [])) [
    | inl e ↦ e
    | inr (caps, e) ↦ absurd (empty-no_match caps (b.match_sound regex_declare_mapping [] caps e))
  ]

  mmap-nil : (raw : MMap) → mmap boost raw [] ≡ ok (unread_mapping raw)
  unfolding mmap read_all lines
  mmap-nil raw =
      let start = record raw {
        address_from = [];
        address_to = [];
        pathname = [];
        vmflags = [];
        category = [];
      } in
      ap
        (λ o.
          and_then (declare_matched o start)
            (λ m. ok (record m { category = category_of m.pathname m.mapping })))
        regex_declare_mapping-none

  -- A smaps that can be opened and is empty leaves one mapping all the same: it has no path, and its
  -- permissions and sizes are what the storage held, whichever mappings there were before.
  pub read_smaps_empty :
      (raw : ℕ → MMap) (os : Os) (p : ProcessInfo)
      → os.open_file (p.proc_path ++ codes "/smaps") ≡ some []
      → read_smaps boost raw os p ≡ (ok tt, record p { maps = unread_mapping (raw 0) ∷ [] })
  unfolding read_smaps read_smaps_lines push_map lines
  read_smaps_empty raw os p e =
      ap (λ (m : Maps). (m.0, record p { maps = m.1 }))
        (ap (read_smaps_file boost raw) e
          ∙ ap
              (λ (r : Result MMap). elim r as (λ _. Maps) [
                | ok m ↦ (ok tt, m ∷ [])
                | throw x ↦ (throw x, [])
              ])
              (mmap-nil (raw 0)))
