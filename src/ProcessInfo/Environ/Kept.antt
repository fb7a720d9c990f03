-- ===== src/ProcessInfo/Environ/Kept.antt =====
-- What environ holds of a variable after several reads.
use libsysinfo.Prelude.Dictionary.{find, last_value, find-assign_all}
use libsysinfo.Prelude.{ℕ, map, ◌≡◌, refl, ap, ◌∙◌, List, [], ◌∷◌, ◌++◌, some, All, arith}
use libsysinfo.ProcessInfo.Environ.{variable, read_variables, read_environ, environ}
use libsysinfo.ProcessInfo.Life.{need_update}
use libsysinfo.ProcessInfo.Links.{zero_ended}
use libsysinfo.ProcessInfo.State.{Os, ProcessInfo}
use libsysinfo.Text.Lines.{
  before-Lacks, before, after, unlines, Lacks, lines-unlines, before-append, after-append,
}
use libsysinfo.Text.{Bytes, codes, same_text, same_text_iff}

-- An entry of the environment: KEY=value, where the value may have more lines than its first, or a
-- text without '='.
pub data Entry : Type 0 where
  variable_of : (key first_line : Bytes) → Entry
  with_lines : (key first_line others : Bytes) → Entry
  bare : Bytes → Entry

abbrev pub entry_text : Entry → Bytes
entry_text (variable_of key first_line) = key ++ b'=' ∷ first_line
entry_text (with_lines key first_line others) = key ++ b'=' ∷ (first_line ++ b'\n' ∷ others)
entry_text (bare text) = text

abbrev pub IsEntry : Entry → Type 0
IsEntry (variable_of key first_line) = Lacks b'=' key × Lacks b'\n' first_line
IsEntry (with_lines key first_line others) = Lacks b'=' key × Lacks b'\n' first_line
IsEntry (bare text) = Lacks b'=' text

-- What is stored for an entry: its key with the first line of its value.
abbrev pub stored : Entry → Bytes × Bytes
stored (variable_of key first_line) = (key, first_line)
stored (with_lines key first_line others) = (key, first_line)
stored (bare text) = (text, [])

after-Lacks : (d : ℕ) (s : Bytes) → Lacks d s → after d s ≡ []
unfolding after
after-Lacks d [] h = refl
after-Lacks d (c ∷ s) h = ground (arith, after-Lacks d s h.1)

variable-stored : (e : Entry) → IsEntry e → variable (entry_text e) ≡ stored e
unfolding before
variable-stored (variable_of key first_line) (k, v) = rw (
  before-append b'=' key first_line k,
  after-append b'=' key first_line k,
  before-Lacks b'\n' first_line v,
)
variable-stored (with_lines key first_line others) (k, v) = rw (
  before-append b'=' key (first_line ++ b'\n' ∷ others) k,
  after-append b'=' key (first_line ++ b'\n' ∷ others) k,
  before-append b'\n' first_line others v,
)
variable-stored (bare text) k = rw (before-Lacks b'=' text k, after-Lacks b'=' text k) refl

variables-stored :
    (es : List Entry) → All IsEntry es → map variable (map entry_text es) ≡ map stored es
variables-stored [] h = refl
variables-stored (e ∷ es) h =
    ap (λ v. v ∷ map variable (map entry_text es)) (variable-stored e h.0)
    ∙ ap (λ vs. stored e ∷ vs) (variables-stored es h.1)

-- If /proc/<pid>/environ holds entries without '\0', each behind it a '\0', then after needUpdate a
-- variable has the first line of the value of the last entry with its key, where an entry without '='
-- is a key with an empty value, and a variable that no entry has any more keeps the value of an
-- earlier read.
pub environ-last_value :
    (os : Os) (p : ProcessInfo) (key : Bytes) (entries : List Entry)
    → os.open_file (p.proc_path ++ codes "environ") ≡ some (unlines 0 (map entry_text entries))
    → All IsEntry entries
    → All (Lacks 0) (map entry_text entries)
    → find same_text key (environ os (need_update p)).0
      ≡ last_value same_text key (map stored entries) (find same_text key p.environ)
unfolding environ read_environ read_variables need_update
environ-last_value os p key entries e is h =
    ap (λ o. find same_text key (read_variables (zero_ended o) p.environ)) e
    ∙ ap (λ ls. find same_text key (read_variables ls p.environ))
        (lines-unlines 0 (map entry_text entries) h)
    ∙ find-assign_all same_text same_text_iff key (map variable (map entry_text entries)) p.environ
    ∙ ap (λ vs. last_value same_text key vs (find same_text key p.environ))
        (variables-stored entries is)
