-- ===== src/HashFile/Stream/Examples.antt =====
-- The end of two threads where the stream is dropped.
use deltasync.Base.{ℕ, ◌≡◌, refl, List, [], ◌∷◌, true, arith}
use deltasync.HashFile.Stream.{
  Stream, opened, Act, moves, drops_loan, drops_stream, has_reclaimed, is_open, close_stream, act,
  act_all,
}
use deltasync.HashFile.Stream.Joins.{drop-joins}
use deltasync.HashFile.Stride.{stride, stride-AreDistinct}
use deltasync.Sync.Channel.{wants, blocking_send, send, next_wanted, ask, finish, close_receiver}
use deltasync.Sync.System.{
  call, round, ask_next, take_value, return_value, gone, put, notify_all, after_round, round_by,
  call_by, ask_by, take_by, return_by, shut_by, step,
}

-- The first block is received and dropped, the second thread is in `send`, and the stream is dropped.
abbrev acts : List Act
acts =
    moves (call 0)
    ∷ moves ask_next
    ∷ moves (round 0)
    ∷ moves take_value
    ∷ moves return_value
    ∷ drops_loan 0
    ∷ moves (call 1)
    ∷ drops_stream
    ∷ []

abbrev after : Stream ℕ
after = act_all (stride 2) (λ k. k) 2 acts opened

ran : Stream ℕ
unfolding act_all act is_open close_stream step call_by round_by ask_by take_by return_by shut_by
    after_round send blocking_send wants next_wanted ask finish close_receiver put notify_all
ran = after

joins : after.joining ≡ true
unfolding ran
joins = refl

first_reclaimed : has_reclaimed (stride 2) (λ (k : ℕ). k) 2 0 after ≡ true
unfolding ran
first_reclaimed = refl

drop-joins_example :
    ((act_all (stride 2) (λ k. k) 2 (moves (call 0) ∷ moves (round 0) ∷ []) after).system.senders
      0).place
    ≡ gone
drop-joins_example =
    drop-joins 2 (stride 2) (λ k. k) (stride-AreDistinct 2) acts 0 (omega arith) joins
      first_reclaimed
