-- ===== src/ProcessInfo/Links/Cmdline.antt =====
-- cmdline on arguments as the kernel writes them.
use libsysinfo.Prelude.{◌≡◌, ap, ◌∙◌, List, ◌++◌, some, All}
use libsysinfo.ProcessInfo.Life.{need_update}
use libsysinfo.ProcessInfo.Links.{cmdline, read_cmdline, zero_ended}
use libsysinfo.ProcessInfo.State.{Os, ProcessInfo}
use libsysinfo.Text.Lines.{unlines, Lacks, lines-unlines}
use libsysinfo.Text.{Bytes, codes}

-- If /proc/<pid>/cmdline holds arguments without '\0', each behind it a '\0', then cmdline returns
-- them after needUpdate, empty ones included and whatever was read before; the next call returns
-- them too, whatever the file holds by then.
pub cmdline-unlines :
    (os os' : Os) (p : ProcessInfo) (arguments : List Bytes)
    → os.open_file (p.proc_path ++ codes "cmdline") ≡ some (unlines 0 arguments)
    → All (Lacks 0) arguments
    → ((cmdline os (need_update p)).0 ≡ arguments)
      × ((cmdline os' (cmdline os (need_update p)).1).0 ≡ arguments)
unfolding cmdline read_cmdline need_update
cmdline-unlines os os' p arguments e h =
    let same = ap zero_ended e ∙ lines-unlines 0 arguments h in (same, same)
