-- ===== src/Tests/Descriptors.antt =====
-- Constructors that throw, and a destructor behind listen(false).
use libsysinfo.Prelude.{ℕ, ◌≡◌, refl, [], ◌∷◌, true, false, pos, ok}
use libsysinfo.ProcConnector.Sockets.{throws, construct_sockets, adds, listens, run, destroy-run}
use libsysinfo.ProcConnector.State.{Kernel, ProcConnector, Callback, done, fails}
use libsysinfo.ProcConnector.{construct, connect, subscribe, destroy, close}
use libsysinfo.Text.{codes}

-- A kernel on which bind succeeds and send fails with EPERM.
abbrev pub kernel : Kernel
kernel = record {
  headers = record {
    af_netlink = 16;
    cn_idx_proc = 1;
    cn_val_proc = 1;
    nlmsg_done = 3;
    proc_cn_mcast_listen = 1;
    eintr = 4;
    sizeof_message = 40;
    sizeof_op = 4;
  };
  socket = done (pos 5);
  bind = λ s a. done (pos 0);
  send = λ s m. fails 1;
  errno_behind_close = λ n. n;
  getpid = 77;
  strerror = λ n. codes "error";
}

construct_sockets_example :
    ((construct {E = ℕ} {W = ℕ} kernel (pos 3 ∷ [])).1 ≡ pos 5 ∷ pos 3 ∷ [])
    × (throws (construct {E = ℕ} {W = ℕ} kernel (pos 3 ∷ [])).0 ≡ true)
construct_sockets_example = construct_sockets ℕ (ℕ) kernel (pos 5) (pos 3 ∷ []) refl (refl, tt)

abbrev kind_kernel : Kernel
kind_kernel = record kernel { send = λ s m. done (pos 40) }

abbrev constructed : ProcConnector ℕ ℕ
constructed = record { nl_sock = pos 5; thread_listen = false; subscribers = [] }

abbrev silent : Callback ℕ ℕ
silent e w = (ok tt, w)

destroy-run_example :
    destroy (run ℕ ℕ (adds silent ∷ listens ∷ []) constructed) (pos 5 ∷ pos 3 ∷ [])
    ≡ (false, close (pos 5) (pos 5 ∷ pos 3 ∷ []))
unfolding construct connect subscribe
destroy-run_example =
    destroy-run ℕ ℕ kind_kernel [] (pos 5 ∷ pos 3 ∷ []) (adds silent ∷ listens ∷ [])
      {p = constructed} refl
