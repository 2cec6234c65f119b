-- ===== src/Main/Accept/Examples.antt =====
-- The theorems about the accept loop of src/main.rs at concrete runs.
use deltasync.Base.{◌≡◌, ◌++◌, refl, List, [], ◌∷◌, true, false, some}
use deltasync.Common.Status.{StatusCode}
use deltasync.Main.Accept.{
  bind, accept_client, spawn_task, turn_away, on_connect, Move, connects, returns, replied, stored,
  step, accept_loop,
}
use deltasync.Main.Accept.Invariant.{Inv}
use deltasync.Main.Accept.Preserved.{accept_loop-Inv}
use deltasync.Main.Accept.Lock.{free, view, ◌⟶◌, ◌⟶*◌, accept_loop-⟶}
use deltasync.Main.Accept.Next.{
  reply_of, ending, ending_among, next_served, finished, accept_loop-next, accept_loop-one_shot,
}

-- Two clients come, of which the second one is turned away; the first one is served.
abbrev moves : List Move
moves = connects ∷ connects ∷ returns 0 (some StatusCode.ack) ∷ replied 0 ∷ []

accept_loop-Inv_example : Inv (accept_loop moves (bind false))
accept_loop-Inv_example = accept_loop-Inv false moves

accept_loop-⟶_example :
    (free ⟶* view (accept_loop moves (bind false)))
    × (view (accept_loop moves (bind false))
        ⟶ view (step (stored 0) (accept_loop moves (bind false))))
accept_loop-⟶_example = accept_loop-⟶ false moves (stored 0)

-- The first client is served, the second one and the two behind it are turned away, and the last one
-- is served.
accept_loop-next_example :
    accept_loop
      (connects ∷ connects ∷ [] ++ (ending_among (some StatusCode.ack) 1 0 1 ++ connects ∷ []))
      (bind false)
    ≡ next_served (some StatusCode.ack) 0 1 0 1 2 ((1, StatusCode.client_already_connected) ∷ []) []
unfolding accept_loop step on_connect accept_client spawn_task turn_away
accept_loop-next_example =
    accept_loop-next (connects ∷ connects ∷ []) (some StatusCode.ack) 0 1 0 1 tt refl

accept_loop-one_shot_example :
    accept_loop (connects ∷ ending (some StatusCode.ack) ++ connects ∷ []) (bind true)
    ≡ finished (reply_of 0 (some StatusCode.ack))
accept_loop-one_shot_example = accept_loop-one_shot (some StatusCode.ack) (connects ∷ [])
