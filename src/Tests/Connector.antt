-- ===== src/Tests/Connector.antt =====
-- A connector with two callbacks.
use libsysinfo.Prelude.{
  ℕ, if◌then◌else◌, ◌&&◌, ◌==◌, ◌≡◌, refl, List, [], ◌∷◌, ◌++◌, map, true, false, pos, ok, throw,
  message,
}
use libsysinfo.ProcConnector.Calls.{Log, Behaviour, noting, calls_of}
use libsysinfo.ProcConnector.Heard.{heard, ended, listen_block-heard}
use libsysinfo.ProcConnector.State.{ProcConnector, Received, event, error}
use libsysinfo.ProcConnector.Threads.{
  Machine, here, next, adds, listens, hears, Delivered, Reach-Delivered,
}
use libsysinfo.ProcConnector.{listen_block, process_event, call_all, add_callback, listen_thread}
use libsysinfo.Tests.Descriptors.{kernel}

-- The callback 0 throws at the event 12.
abbrev does : Behaviour ℕ
does i e = if (i == 0) && (e == 12) then throw (message []) else ok tt

abbrev listener : ProcConnector ℕ (Log ℕ)
listener = record {
  nl_sock = pos 5;
  thread_listen = true;
  subscribers = map (noting does) (0 ∷ 1 ∷ []);
}

-- two events with an interruption between them, and the event at which the callback 0 throws
abbrev messages : List (Received ℕ)
messages = event 10 ∷ error 4 ∷ event 11 ∷ event 12 ∷ error 105 ∷ event 13 ∷ []

listen_block-heard_example :
    ((listen_block kernel listener messages []).0 ≡ ended does kernel (0 ∷ 1 ∷ []) messages)
    × (calls_of 1 (listen_block kernel listener messages []).1
        ≡ [] ++ heard does kernel 1 (0 ∷ 1 ∷ []) messages)
listen_block-heard_example =
    listen_block-heard does kernel listener (0 ∷ 1 ∷ []) 1 messages [] refl refl

abbrev idle : Machine ℕ
idle = record {
  connector = record {
    nl_sock = pos 5;
    thread_listen = false;
    subscribers = map (noting does) (0 ∷ []);
  };
  ids = 0 ∷ [];
  received = [];
  log = [];
}

-- A callback is added while the thread listens.
abbrev listening : Machine ℕ
listening = record idle { connector = listen_thread idle.connector }

abbrev heard_one : Machine ℕ
heard_one = record listening {
  received = 10 ∷ [];
  log = (process_event kernel listening.connector (event 10) []).1;
}

abbrev added : Machine ℕ
added = record heard_one {
  connector = add_callback (noting does 1) heard_one.connector;
  ids = 0 ∷ 1 ∷ [];
}

abbrev heard_two : Machine ℕ
heard_two = record added {
  received = 10 ∷ 11 ∷ [];
  log = (process_event kernel added.connector (event 11) added.log).1;
}

Reach-Delivered_example : Delivered kernel does 0 idle heard_two
unfolding listen_thread add_callback process_event call_all
Reach-Delivered_example =
    Reach-Delivered kernel does 0 {m = idle} {n = heard_two}
      (next (next (next (next here listens) (hears 10 refl refl)) (adds 1)) (hears 11 refl refl))
      refl refl refl
