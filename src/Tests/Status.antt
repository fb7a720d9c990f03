-- ===== src/Tests/Status.antt =====
-- readStatus and userName.
use libsysinfo.Boost.Instance.{reference, reference-IsBoost}
use libsysinfo.Boost.Reference.Match.{regex_match}
use libsysinfo.Boost.Reference.{find_split, fits, all_of}
use libsysinfo.Prelude.{
  ◌^◌, ◌≤◌, ◌<◌, ◌≡◌, refl, arith, [], ◌∷◌, some, pos, ok, throw, out_of_range,
}
use libsysinfo.ProcessInfo.Life.{need_update}
use libsysinfo.ProcessInfo.State.{m_vm_rss, vm_index, assign}
use libsysinfo.ProcessInfo.Status.Throws.{read_status_lines_throws}
use libsysinfo.ProcessInfo.Status.Uids.{user_name-stale}
use libsysinfo.ProcessInfo.Status.Vm.{vm_text, store_matched-vm_text}
use libsysinfo.ProcessInfo.Status.{
  store_matched, regex_vm, name_or_number, read_status_lines, user_name, update_status, read_status,
  read_status_line, push_numbers,
}
use libsysinfo.Tests.Data.{process, system}
use libsysinfo.Text.Decimal.{to_string}
use libsysinfo.Text.Lines.{lines, before, after}
use libsysinfo.Text.Number.{ten, stoi, strtol, convert, value, in_signed_range}
use libsysinfo.Text.{codes, same_text, take_while, drop_while}

-- The user was 3 at the first read and is 5 now.
user_name-stale_example :
    some (codes "3") ≡ some (name_or_number ((system 0 []).user_name (pos 3)) (pos 3))
unfolding user_name update_status read_status need_update read_status_lines read_status_line
    push_numbers lines before after same_text stoi strtol convert value in_signed_range take_while
    drop_while regex_match find_split fits all_of to_string
user_name-stale_example =
    user_name-stale reference (system 0 (codes "Uid:\t5\t5\t5\t5\n")) (process (pos 3 ∷ [])) (pos 3)
      refl refl

read_status_lines_throws_example : out_of_range ≡ out_of_range
unfolding read_status_lines read_status_line push_numbers before after same_text stoi strtol convert
    value in_signed_range take_while drop_while regex_match find_split fits all_of
read_status_lines_throws_example =
    read_status_lines_throws reference reference-IsBoost (codes "Gid:\t4294967294\t1\t1\t1" ∷ [])
      (process []).status refl

store_matched-vm_text_example :
    (value ten 0 (codes "9600") < 2 ^ 31
      → store_matched m_vm_rss
          (reference.regex_match regex_vm (vm_text (codes "\t  ") (codes "9600")))
          (process []).status
        ≡ (
          ok tt,
          record (process []).status {
            vm = assign vm_index (process []).status.vm m_vm_rss (pos (value ten 0 (codes "9600")));
          },
        ))
    × (2 ^ 31 ≤ value ten 0 (codes "9600")
        → store_matched m_vm_rss
            (reference.regex_match regex_vm (vm_text (codes "\t  ") (codes "9600")))
            (process []).status
          ≡ (throw out_of_range, (process []).status))
store_matched-vm_text_example =
    store_matched-vm_text reference reference-IsBoost m_vm_rss (process []).status (codes "\t  ")
      (codes "9600") (cc) (ground arith) (cc) (ground arith)
