-- ===== src/Main/Accept/Next.antt =====
-- What follows a session in the accept loop of src/main.rs.
use deltasync.Base.{
  ℕ, ◌+◌, ◌≡◌, refl, sym, append-nil, ap, ◌∙◌, List, [], ◌∷◌, ◌++◌, true, false, Option, none, some,
}
use deltasync.Common.Status.{StatusCode}
use deltasync.Main.Accept.{
  processing, replying, storing, left, Acceptor, bind, Move, connects, stream_ends, returns,
  replied, stored, remove_at, accept_client, spawn_task, on_connect, on_stream_end, on_return,
  on_reply, after_await, on_store, step, accept_loop,
}
use deltasync.Main.Accept.Served.{
  holding, callers, turned_away, IsListening, accept_loop-append, callers-holding, reached,
}

-- The status that the client is sent at the end: none where `process_new_client` has failed.
abbrev pub reply_of : ℕ → Option StatusCode → List (ℕ × StatusCode)
reply_of c none = []
reply_of c (some status) = (c, status) ∷ []

-- The moves of a session from its end on; without a status none is written.
abbrev pub ending : Option StatusCode → List Move
ending none = returns 0 none ∷ stored 0 ∷ []
ending (some status) = returns 0 (some status) ∷ replied 0 ∷ stored 0 ∷ []

-- The same, with `n` clients that come before it, `m` behind the return and `l` behind the write.
abbrev pub ending_among : Option StatusCode → ℕ → ℕ → ℕ → List Move
ending_among none n m l = callers n ++ returns 0 none ∷ callers m ++ callers l ++ stored 0 ∷ []
ending_among (some status) n m l =
    callers n ++ returns 0 (some status) ∷ callers m ++ replied 0 ∷ callers l ++ stored 0 ∷ []

-- The state where the session is over and the next client is served.
abbrev pub next_served :
    Option StatusCode → ℕ → ℕ → ℕ → ℕ → ℕ → List (ℕ × StatusCode) → List ℕ → Acceptor
next_served r c n m l arrivals replies over =
    holding (arrivals + n + m + l) processing (arrivals + n + m + l + 1)
      ((((replies ++ turned_away arrivals n) ++ turned_away (arrivals + n) m) ++ reply_of c r)
        ++ turned_away (arrivals + n + m) l)
      (over ++ c ∷ [])

after :
    (xs ys : List Move) (a b : Acceptor)
    → accept_loop xs a ≡ b
    → accept_loop (xs ++ ys) a ≡ accept_loop ys b
after xs ys a b e = accept_loop-append xs ys a ∙ ap (accept_loop ys) e

session_ends :
    (r : Option StatusCode) (c n m l arrivals : ℕ) (replies : List (ℕ × StatusCode)) (over : List ℕ)
    → accept_loop
        (ending_among r n m l ++ connects ∷ [])
        (holding c processing arrivals replies over)
      ≡ next_served r c n m l arrivals replies over
unfolding accept_loop step on_return on_reply on_store on_connect accept_client spawn_task
    after_await remove_at
session_ends none c n m l arrivals replies over =
    let s = holding c processing arrivals replies over in
    let told = replies ++ turned_away arrivals n in
    let told' = told ++ turned_away (arrivals + n) m in
    let before = callers n in
    let returned = before ++ returns 0 none ∷ callers m in
    let waited = returned ++ callers l in
    let e1 = callers-holding n c processing arrivals replies over in
    let e2 =
      after before (returns 0 none ∷ callers m) s (holding c processing (arrivals + n) told over) e1
      ∙ callers-holding m c storing (arrivals + n) told over in
    let e3 =
      after returned (callers l) s (holding c storing (arrivals + n + m) told' over) e2
      ∙ callers-holding l c storing (arrivals + n + m) told' over in
    let s3 =
      holding c storing (arrivals + n + m + l) (told' ++ turned_away (arrivals + n + m) l) over in
    after (waited ++ stored 0 ∷ []) (connects ∷ []) s (accept_loop (stored 0 ∷ []) s3)
      (after waited (stored 0 ∷ []) s s3 e3)
    ∙ ap
        (λ (x : List (ℕ × StatusCode)).
          holding (arrivals + n + m + l) processing (arrivals + n + m + l + 1)
            (x ++ turned_away (arrivals + n + m) l) (over ++ c ∷ []))
        (sym (append-nil told'))
session_ends (some status) c n m l arrivals replies over =
    let s = holding c processing arrivals replies over in
    let told = replies ++ turned_away arrivals n in
    let told' = told ++ turned_away (arrivals + n) m in
    let answered = told' ++ (c, status) ∷ [] in
    let before = callers n in
    let returned = before ++ returns 0 (some status) ∷ callers m in
    let waited = returned ++ replied 0 ∷ callers l in
    let e1 = callers-holding n c processing arrivals replies over in
    let e2 =
      after before (returns 0 (some status) ∷ callers m) s
        (holding c processing (arrivals + n) told over) e1
      ∙ callers-holding m c (replying status) (arrivals + n) told over in
    let e3 =
      after returned (replied 0 ∷ callers l) s
        (holding c (replying status) (arrivals + n + m) told' over) e2
      ∙ callers-holding l c storing (arrivals + n + m) answered over in
    let s3 =
      holding c storing (arrivals + n + m + l) (answered ++ turned_away (arrivals + n + m) l)
        over in
    after (waited ++ stored 0 ∷ []) (connects ∷ []) s (accept_loop (stored 0 ∷ []) s3)
      (after waited (stored 0 ∷ []) s s3 e3)

-- Without `--one-shot`, whatever has happened before, as long as the stream of the listener has not
-- ended: where a client is being served, its process may return a status or `Err`, and any number
-- of clients may come before that, between that and the write of the status, and behind it; each of
-- them is told that another one is connected, the status is written in the first case and none in
-- the second, and the next client that connects behind the end of the task is served.
pub accept_loop-next :
    (ms : List Move) (r : Option StatusCode) (c n m l : ℕ)
    → IsListening ms
    → (accept_loop ms (bind false)).tasks ≡ (c, processing) ∷ []
    → let a = accept_loop ms (bind false) in
      accept_loop (ms ++ (ending_among r n m l ++ connects ∷ [])) (bind false)
      ≡ next_served r c n m l a.arrivals a.replies a.over
accept_loop-next ms r c n m l listens e =
    let a = accept_loop ms (bind false) in
    accept_loop-append ms (ending_among r n m l ++ connects ∷ []) (bind false)
    ∙ ap (accept_loop (ending_among r n m l ++ connects ∷ [])) (reached ms c listens e)
    ∙ session_ends r c n m l a.arrivals a.replies a.over

-- The loop is left, and no task is there.
abbrev pub finished : List (ℕ × StatusCode) → Acceptor
finished replies = record {
  one_shot = true;
  client_count = 0;
  tasks = [];
  arrivals = 1;
  replies = replies;
  over = 0 ∷ [];
  phase = left;
}

finished-step :
    (m : Move) (replies : List (ℕ × StatusCode)) → step m (finished replies) ≡ finished replies
unfolding step on_return on_reply on_store on_connect on_stream_end
finished-step connects replies = refl
finished-step stream_ends replies = refl
finished-step (returns i none) replies = refl
finished-step (returns i (some status)) replies = refl
finished-step (replied i) replies = refl
finished-step (stored i) replies = refl

finished-stays :
    (ms : List Move) (replies : List (ℕ × StatusCode))
    → accept_loop ms (finished replies) ≡ finished replies
unfolding accept_loop
finished-stays [] replies = refl
finished-stays (m ∷ ms) replies =
    ap (accept_loop ms) (finished-step m replies) ∙ finished-stays ms replies

-- With `--one-shot`, the loop is left for good behind the first client, whether its process
-- returned a status, which was written, or `Err`: no move changes anything afterwards.
pub accept_loop-one_shot :
    (r : Option StatusCode) (ms : List Move)
    → accept_loop (connects ∷ ending r ++ ms) (bind true) ≡ finished (reply_of 0 r)
unfolding accept_loop step on_return on_reply on_store on_connect accept_client spawn_task
    after_await remove_at
accept_loop-one_shot none ms = finished-stays ms []
accept_loop-one_shot (some status) ms = finished-stays ms ((0, status) ∷ [])
