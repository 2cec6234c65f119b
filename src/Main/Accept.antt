-- ===== src/Main/Accept.antt =====
-- The server mode of `main` of src/main.rs: clients are accepted one at a time.
pub mod Invariant
pub mod Preserved
pub mod Lock
pub mod Served
pub mod Next
mod Examples
use deltasync.Base.{
  ℕ, zero, suc, ◌+◌, List, [], ◌∷◌, ◌++◌, Bool, true, false, Option, none, some, ◌==◌,
  if◌then◌else◌, get_elem?, set,
}
use deltasync.Common.Status.{StatusCode}

-- How far a spawned task is: in `process_new_client`, in `write_status`, before `count.store`.
pub data Task : Type 0 where
  processing : Task
  replying : StatusCode → Task
  storing : Task

-- The loop takes the next client, awaits the task of the one client (`--one-shot`), or is left.
pub data Phase : Type 0 where
  accepting awaiting left : Phase

-- A client is known by the number of those that came before it. `replies` are the statuses that
-- `main` has written or tried to write, `over` the clients whose process is over.
pub record Acceptor : Type 0 where
  pub one_shot : Bool
  pub client_count : ℕ
  pub tasks : List (ℕ × Task)
  pub arrivals : ℕ
  pub replies : List (ℕ × StatusCode)
  pub over : List ℕ
  pub phase : Phase

abbrev pub bind : Bool → Acceptor
bind one_shot = record {
  one_shot = one_shot;
  client_count = 0;
  tasks = [];
  arrivals = 0;
  replies = [];
  over = [];
  phase = accepting;
}

-- What happens next: the stream of the listener yields a client, or ends or fails; or the task at a
-- place of the list gets on: `process_new_client` returns `Ok(status)` or `Err`, the status is
-- written or its write fails, the count is stored.
pub data Move : Type 0 where
  connects stream_ends : Move
  returns : ℕ → Option StatusCode → Move
  replied stored : ℕ → Move

unfoldable pub remove_at {ℓ} : {A : Type ℓ} → ℕ → List A → List A
remove_at i [] = []
remove_at zero (x ∷ xs) = xs
remove_at (suc i) (x ∷ xs) = x ∷ remove_at i xs

-- The task is spawned; with `--one-shot` the loop awaits it.
unfoldable pub spawn_task : Acceptor → Acceptor
spawn_task a = record a {
  client_count = 1;
  tasks = a.tasks ++ (a.arrivals, processing) ∷ [];
  arrivals = a.arrivals + 1;
  phase = if a.one_shot then awaiting else accepting;
}

-- The client is told that another one is connected.
unfoldable pub turn_away : Acceptor → Acceptor
turn_away a = record a {
  arrivals = a.arrivals + 1;
  replies = a.replies ++ (a.arrivals, StatusCode.client_already_connected) ∷ [];
}

-- `count.compare_exchange(0, 1, ..).is_ok()`
unfoldable pub accept_client : Acceptor → Acceptor
accept_client a = if a.client_count == 0 then spawn_task a else turn_away a

unfoldable pub on_connect : Phase → Acceptor → Acceptor
on_connect accepting a = accept_client a
on_connect awaiting a = a
on_connect left a = a

unfoldable pub on_stream_end : Phase → Acceptor → Acceptor
on_stream_end accepting a = record a { phase = left }
on_stream_end awaiting a = a
on_stream_end left a = a

-- The `match` on what `process_new_client` returns.
unfoldable pub on_return : ℕ → Option StatusCode → Option (ℕ × Task) → Acceptor → Acceptor
on_return i (some status) (some (client, processing)) a = record a {
  tasks = set a.tasks i (client, replying status);
}
on_return i none (some (client, processing)) a = record a {
  tasks = set a.tasks i (client, storing);
}
on_return i r t a = a

-- Behind `let _ = write_status(..).await`.
unfoldable pub on_reply : ℕ → Option (ℕ × Task) → Acceptor → Acceptor
on_reply i (some (client, replying status)) a = record a {
  tasks = set a.tasks i (client, storing);
  replies = a.replies ++ (client, status) ∷ [];
}
on_reply i t a = a

-- The handle that is awaited is that of the one task.
unfoldable pub after_await : Phase → Phase
after_await accepting = accepting
after_await awaiting = left
after_await left = left

-- `count.store(0, Ordering::Release)`, and the end of the task.
unfoldable pub on_store : ℕ → Option (ℕ × Task) → Acceptor → Acceptor
on_store i (some (client, storing)) a = record a {
  client_count = 0;
  tasks = remove_at i a.tasks;
  over = a.over ++ client ∷ [];
  phase = after_await a.phase;
}
on_store i t a = a

-- A move that is not possible changes nothing. Behind the end of the stream the tasks go on here; the
-- runtime of the program drops them, which is a run with fewer moves.
unfoldable pub step : Move → Acceptor → Acceptor
step connects a = on_connect a.phase a
step stream_ends a = on_stream_end a.phase a
step (returns i r) a = on_return i r (get_elem? a.tasks i) a
step (replied i) a = on_reply i (get_elem? a.tasks i) a
step (stored i) a = on_store i (get_elem? a.tasks i) a

unfoldable pub accept_loop : List Move → Acceptor → Acceptor
accept_loop [] a = a
accept_loop (m ∷ ms) a = accept_loop ms (step m a)
