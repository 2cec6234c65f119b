-- ===== src/Sync/Examples.antt =====
-- The theorems about src/sync.rs at concrete inputs.
use deltasync.Base.{
  ℕ, suc, ◌≡◌, ◌≢◌, ◌≤◌, refl, List, [], ◌∷◌, ◌++◌, inl, false, true, length, arith,
}
use deltasync.HashFile.Stride.{stride, stride-AreDistinct}
use deltasync.Sync.Channel.{wants, blocking_send, send, next_wanted, ask, finish}
use deltasync.Sync.Loan.{writes, drops, lend, uses, Returns, uses-Returns}
use deltasync.Sync.System.{
  System, start, Move, call, round, ask_next, take_value, return_value, waiting, entering, polling,
  blocked, put, notify_all, after_round, round_by, call_by, ask_by, take_by, return_by, step, run,
  idx_of,
}
use deltasync.Sync.System.Invariant.{items}
use deltasync.Sync.System.Safety.{run-received, run-bounded, run-waiting, run-delivers}

-- Two threads; the second one calls first and has to wait.
abbrev moves : List Move
moves = call 1 ∷ ask_next ∷ round 1 ∷ call 0 ∷ round 0 ∷ take_value ∷ return_value ∷ []

abbrev after : List Move → System ℕ
after ms = run (stride 2) (λ k. k) 2 ms start

ran : System ℕ
unfolding run step call_by round_by ask_by take_by return_by after_round send blocking_send wants
    next_wanted ask finish put notify_all
ran = after moves

first_received : (after moves).received ≡ 0 ∷ []
unfolding ran
first_received = refl

run-received_example : (after moves).received ≡ items (λ k. k) (length (after moves).received)
run-received_example = run-received 2 (stride 2) (λ k. k) (stride-AreDistinct 2) moves

run-bounded_example :
    (length (after moves).channel.queue ≤ 1)
    × ((after moves).locked ≡ false)
    × (((after moves).senders 1).place ≢ blocked)
run-bounded_example = run-bounded 2 (stride 2) (λ k. k) (stride-AreDistinct 2) moves 1

second_waits : ((after moves).senders 1).place ≡ waiting
unfolding ran
second_waits = refl

run-waiting_example :
    ((after moves).channel.shared.recv_closed ≡ false)
    × (wants
          (after moves).channel.shared.wanted_idx
          (idx_of (stride 2) (λ (k : ℕ). k) 1 (after moves))
        ≡ false)
run-waiting_example = run-waiting 2 (stride 2) (λ k. k) (stride-AreDistinct 2) moves 1 second_waits

-- The first thread is asked for its value.
abbrev asked : List Move
asked = call 0 ∷ ask_next ∷ []

ran_asked : System ℕ
unfolding run step call_by round_by ask_by take_by return_by after_round send blocking_send wants
    next_wanted ask finish put notify_all
ran_asked = after asked

asked-wants :
    wants (after asked).channel.shared.wanted_idx (idx_of (stride 2) (λ (k : ℕ). k) 0 (after asked))
    ≡ true
unfolding ran_asked wants
asked-wants = refl

asked_enters : ((after asked).senders 0).place ≡ entering
unfolding ran_asked
asked_enters = refl

asked_polls : (after asked).receiver ≡ polling
unfolding ran_asked
asked_polls = refl

asked_open :
    ((after asked).channel.shared.recv_closed ≡ false) × ((after asked).channel.rx_closed ≡ false)
unfolding ran_asked
asked_open = (refl, refl)

run-delivers_example :
    (run
      (stride 2)
      (λ (k : ℕ). k)
      2
      (round 0 ∷ take_value ∷ return_value ∷ [])
      (after asked)).received
    ≡ (after asked).received ++ idx_of (stride 2) (λ (k : ℕ). k) 0 (after asked) ∷ []
run-delivers_example =
    run-delivers 2 (stride 2) (λ k. k) (stride-AreDistinct 2) asked 0 (omega arith) asked_polls
      asked_open.0 asked_open.1 asked-wants (inl asked_enters)

uses-Returns_example :
    Returns
      (uses (writes suc ∷ drops ∷ []) (lend 3)).holder
      (uses (writes suc ∷ drops ∷ []) (lend 3)).slot
      4
uses-Returns_example = uses-Returns (writes suc ∷ drops ∷ []) 3
