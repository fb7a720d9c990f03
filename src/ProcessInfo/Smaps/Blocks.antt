-- ===== src/ProcessInfo/Smaps/Blocks.antt =====
-- readSmaps on a file of blocks: a declaration, and the attribute lines behind it.
use libsysinfo.Boost.{Boost}
use libsysinfo.MMap.State.{MMap}
use libsysinfo.Prelude.{
  ℕ, ◌≡◌, refl, sym, ap, ◌∙◌, true, false, not, ◌&&◌, List, [], ◌∷◌, ◌++◌, append_assoc, append-nil,
  some, All, ok, throw,
}
use libsysinfo.ProcessInfo.Smaps.{
  Maps, push_map, put_line, read_smaps_lines, read_smaps_file, read_smaps, maps,
}
use libsysinfo.ProcessInfo.State.{Os, ProcessInfo}
use libsysinfo.Text.Lines.{unlines, Lacks, lines-unlines}
use libsysinfo.Text.{Bytes, codes, contains, is_empty}

-- The lines of one mapping.
pub record Block : Type 0 where
  pub declaration : Bytes
  pub attributes : List Bytes

abbrev pub block_lines : Block → List Bytes
block_lines b = b.declaration ∷ b.attributes

-- The lines of the file.
abbrev pub file_lines : List Block → List Bytes
file_lines [] = []
file_lines (b ∷ bs) = block_lines b ++ file_lines bs

-- A declaration has a dash, between its addresses, and an attribute line has none.
abbrev pub IsBlock : Block → Type 0
IsBlock b = (contains b'-' b.declaration ≡ true) × All (λ l. contains b'-' l ≡ false) b.attributes

-- One mapping for each block, made from the text of its lines, up to the first exception.
abbrev pub load_blocks : Boost → (ℕ → MMap) → List Block → List MMap → Maps
load_blocks boost raw [] maps = (ok tt, maps)
load_blocks boost raw (b ∷ bs) maps =
    let (r, more) = push_map boost raw (unlines b'\n' (block_lines b)) maps in
    elim r [ ok t ↦ load_blocks boost raw bs more | throw e ↦ (throw e, more) ]

abbrev and_load : Boost → (ℕ → MMap) → List Block → Maps → Maps
and_load boost raw bs (ok t, more) = load_blocks boost raw bs more
and_load boost raw bs (throw e, more) = (throw e, more)

unlines-full : (l : Bytes) (ls : List Bytes) → is_empty (unlines b'\n' (l ∷ ls)) ≡ false
unfolding unlines
unlines-full [] ls = refl
unlines-full (c ∷ l) ls = refl

put_lines :
    (text l : Bytes) (ls : List Bytes)
    → put_line text l ++ unlines b'\n' ls ≡ text ++ unlines b'\n' (l ∷ ls)
unfolding unlines
put_lines text l ls =
    append_assoc text (l ++ b'\n' ∷ []) (unlines b'\n' ls)
    ∙ ap (λ t. text ++ t) (append_assoc l (b'\n' ∷ []) (unlines b'\n' ls))

-- One step for each of the two outcomes of the test.
module _ (boost : Boost) (raw : ℕ → MMap) where
  abbrev begin_block : List Bytes → Bytes → Maps → Maps
  begin_block ls l (ok t, more) = read_smaps_lines boost raw ls (put_line [] l) more
  begin_block ls l (throw e, more) = (throw e, more)

  step_attribute :
      (l : Bytes) (ls : List Bytes) (text : Bytes) (maps : List MMap)
      → (contains b'-' l && not (is_empty text)) ≡ false
      → read_smaps_lines boost raw (l ∷ ls) text maps
        ≡ read_smaps_lines boost raw ls (put_line text l) maps
  unfolding read_smaps_lines
  step_attribute l ls text maps h = rw (h, read_smaps_lines)

  step_declaration :
      (l : Bytes) (ls : List Bytes) (text : Bytes) (maps : List MMap)
      → (contains b'-' l && not (is_empty text)) ≡ true
      → read_smaps_lines boost raw (l ∷ ls) text maps
        ≡ begin_block ls l (push_map boost raw text maps)
  unfolding read_smaps_lines
  step_declaration l ls text maps h =
      rw (h, read_smaps_lines) (begin_elim ls l (push_map boost raw text maps))
    where
      begin_elim :
          (ls : List Bytes) (l : Bytes) (m : Maps)
          → (elim m.0 as (λ _. Maps) [
            | ok t ↦ read_smaps_lines boost raw ls (put_line [] l) m.1
            | throw e ↦ (throw e, m.1)
          ])
            ≡ begin_block ls l m
      begin_elim ls l (ok t, more) = refl
      begin_elim ls l (throw e, more) = refl

  -- lines without a dash are put behind the text
  read_attribute_lines :
      (ls rest : List Bytes) (text : Bytes) (maps : List MMap)
      → All (λ l. contains b'-' l ≡ false) ls
      → read_smaps_lines boost raw (ls ++ rest) text maps
        ≡ read_smaps_lines boost raw rest (text ++ unlines b'\n' ls) maps
  unfolding unlines
  read_attribute_lines [] rest text maps h =
      ap (λ t. read_smaps_lines boost raw rest t maps) (sym (append-nil text))
  read_attribute_lines (a ∷ ls) rest text maps h =
      step_attribute a (ls ++ rest) text maps (ap (λ b. b && not (is_empty text)) h.0)
      ∙ read_attribute_lines ls rest (put_line text a) maps h.1
      ∙ ap (λ t. read_smaps_lines boost raw rest t maps) (put_lines text a ls)

  and_load-nil : (m : Maps) → m ≡ and_load boost raw [] m
  and_load-nil (ok t, more) = refl
  and_load-nil (throw e, more) = refl

  and_load-cons :
      (b : Block) (bs : List Block) (more : List MMap)
      → and_load boost raw bs (push_map boost raw (unlines b'\n' (block_lines b)) more)
        ≡ load_blocks boost raw (b ∷ bs) more
  and_load-cons b bs more = eta (push_map boost raw (unlines b'\n' (block_lines b)) more)
    where
      eta :
          (m : Maps)
          → and_load boost raw bs m ≡ (elim m.0 as (λ _. Maps) [
            | ok t ↦ load_blocks boost raw bs m.1
            | throw e ↦ (throw e, m.1)
          ])
      eta (ok t, more) = refl
      eta (throw e, more) = refl

  -- The blocks `bs` are read whatever text stands in map_stream.
  abbrev ReadsBlocks : List Block → Type 0
  ReadsBlocks bs =
      (text : Bytes) (maps : List MMap)
      → is_empty text ≡ false
      → read_smaps_lines boost raw (file_lines bs) text maps
        ≡ and_load boost raw bs (push_map boost raw text maps)

  -- the attributes of a block, behind its declaration
  read_block :
      (b : Block) (bs : List Block) (maps : List MMap)
      → All (λ l. contains b'-' l ≡ false) b.attributes
      → ReadsBlocks bs
      → read_smaps_lines boost raw (b.attributes ++ file_lines bs) (put_line [] b.declaration) maps
        ≡ load_blocks boost raw (b ∷ bs) maps
  unfolding unlines
  read_block b bs maps h ih =
      read_attribute_lines b.attributes (file_lines bs) (put_line [] b.declaration) maps h
      ∙ ap (λ t. read_smaps_lines boost raw (file_lines bs) t maps)
          (put_lines [] b.declaration b.attributes)
      ∙ ih (unlines b'\n' (block_lines b)) maps (unlines-full b.declaration b.attributes)
      ∙ and_load-cons b bs maps

  begin-and_load :
      (b : Block) (bs : List Block) (m : Maps)
      → All (λ l. contains b'-' l ≡ false) b.attributes
      → ReadsBlocks bs
      → begin_block (b.attributes ++ file_lines bs) b.declaration m ≡ and_load boost raw (b ∷ bs) m
  begin-and_load b bs (ok t, more) h ih = read_block b bs more h ih
  begin-and_load b bs (throw e, more) h ih = refl

  read_blocks : (bs : List Block) → All IsBlock bs → ReadsBlocks bs
  unfolding read_smaps_lines
  read_blocks [] h text maps full = and_load-nil (push_map boost raw text maps)
  read_blocks (b ∷ bs) ((dash, attributes), h) text maps full =
      step_declaration b.declaration (b.attributes ++ file_lines bs) text maps
        (ap (λ x. x && not (is_empty text)) dash ∙ ap not full)
      ∙ begin-and_load b bs (push_map boost raw text maps) attributes (read_blocks bs h)

  -- the first block finds map_stream empty
  read_smaps_lines-blocks :
      (b : Block) (bs : List Block)
      → All IsBlock (b ∷ bs)
      → read_smaps_lines boost raw (file_lines (b ∷ bs)) [] [] ≡ load_blocks boost raw (b ∷ bs) []
  read_smaps_lines-blocks b bs ((dash, attributes), h) =
      step_attribute b.declaration (b.attributes ++ file_lines bs) [] [] (ap (λ x. x && false) dash)
      ∙ read_block b bs [] attributes (read_blocks bs h)

  -- If /proc/<pid>/smaps holds blocks, at least one, each a declaration with a dash and attribute lines
  -- without, then readSmaps constructs one mapping from each block, from its own lines and in the
  -- order of the file, until the constructor throws; what m_maps held before is gone.
  pub read_smaps-load_blocks :
      (os : Os) (p : ProcessInfo) (b : Block) (bs : List Block)
      → os.open_file (p.proc_path ++ codes "/smaps") ≡ some (unlines b'\n' (file_lines (b ∷ bs)))
      → All IsBlock (b ∷ bs)
      → All (Lacks b'\n') (file_lines (b ∷ bs))
      → read_smaps boost raw os p ≡ (
        (load_blocks boost raw (b ∷ bs) []).0,
        record p { maps = (load_blocks boost raw (b ∷ bs) []).1 },
      )
  unfolding read_smaps
  read_smaps-load_blocks os p b bs e h lacks =
      ap (λ (m : Maps). (m.0, record p { maps = m.1 }))
        (ap (read_smaps_file boost raw) e
          ∙ ap (λ ls. read_smaps_lines boost raw ls [] [])
              (lines-unlines b'\n' (file_lines (b ∷ bs)) lacks)
          ∙ read_smaps_lines-blocks b bs h)
