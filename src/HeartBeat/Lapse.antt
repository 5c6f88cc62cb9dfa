-- ===== src/HeartBeat/Lapse.antt =====
-- A ps command that fails in the round in which the client takes the peer's place.
use cpp_study.Base.{
  ℕ, ◌+◌, ◌<◌, ◌≡◌, refl, ap, ◌∙◌, List, [], ◌∷◌, ◌++◌, Bool, true, false, arith, length,
}
use mathlib.Core.List.{append-nil}
use cpp_study.HeartBeat.Client.{
  main_flag, Watch, Ps, popen_failed, fgets_failed, counted, if_up, pause, Config, Round, for_each,
  answered, attempt, after_ups, react, round, run_client,
}
use cpp_study.HeartBeat.Takeover.{
  Silent, AllSilent, pauses, link, link_after, link-append, link-pauses, links_up,
  run_client-append, silent_rounds,
}

-- The peer answers in every round.
abbrev pub AllAnswered : List Round → Type 0
AllAnswered [] = Unit
AllAnswered (r ∷ rs) = (answered r ≡ true) × AllAnswered rs

-- The ps command gives no count.
abbrev pub PsFails : Ps → Type 0
PsFails popen_failed = Unit
PsFails fgets_failed = Unit
PsFails (counted n) = ⊥

after_failed_ps : (w : Watch) (ps : Ps) → PsFails ps → after_ups w ps ≡ (w, [])
unfolding after_ups
after_failed_ps w popen_failed f = refl
after_failed_ps w fgets_failed f = refl
after_failed_ps w (counted n) f = absurd f

failed_round :
    (conf : Config) (w : Watch) (r : Round)
    → Silent r
    → w.flag ≡ main_flag
    → w.retry_times ≡ conf.max_retries
    → PsFails r.ps
    → round conf w r ≡ (
      record { retry_times = conf.max_retries + 1; error_flag = true; flag = main_flag },
      for_each if_up 0 conf.ethernet_number ++ [],
    )
unfolding round attempt react
failed_round conf w r quiet main full fails =
    let w' : Watch = record { retry_times = w.retry_times + 1; error_flag = true; flag = w.flag } in
    rw (quiet, main) (ground (arith, after_failed_ps w' r.ps fails))

calm_round :
    (conf : Config) (w : Watch) (r : Round)
    → answered r ≡ true
    → w.flag ≡ main_flag
    → round conf w r
      ≡ (record { retry_times = 0; error_flag = false; flag = main_flag }, pause ∷ [])
unfolding round attempt react
calm_round conf w r ok main = rw (ok, main) refl

calm_rounds :
    (conf : Config) (w : Watch) (rs : List Round) (k : ℕ) (b : Bool)
    → AllAnswered rs
    → w.flag ≡ main_flag
    → ((run_client conf w rs).0.flag ≡ main_flag) × (link k (run_client conf w rs).1 b ≡ b)
unfolding run_client link link_after
calm_rounds conf w [] k b ok main = (main, refl)
calm_rounds conf w (r ∷ rs) k b (o, ok) main = rw (calm_round conf w r o main) (
    calm_rounds conf (record { retry_times = 0; error_flag = false; flag = main_flag }) rs k b ok
      refl)

-- If the ps command fails in the round that ends the silence, and from then on the peer answers in
-- every round, the client holds the main flag and never takes the interfaces down again: they
-- stay up on this host while the peer serves.
pub lapse :
    (conf : Config) (w : Watch) (rs : List Round) (last : Round) (later : List Round) (k : ℕ)
    → AllSilent rs
    → Silent last
    → w.flag ≡ main_flag
    → w.retry_times + length rs ≡ conf.max_retries
    → PsFails last.ps
    → AllAnswered later
    → k < conf.ethernet_number
    → ((run_client conf w (rs ++ (last ∷ later))).0.flag ≡ main_flag)
      × (link k (run_client conf w (rs ++ (last ∷ later))).1 false ≡ true)
unfolding run_client
lapse conf w rs last later k quiet q main full fails ok h =
    let w1 = record w { retry_times = w.retry_times + length rs } in
    let w2 : Watch = record {
      retry_times = conf.max_retries + 1;
      error_flag = true;
      flag = main_flag;
    } in
    let (main', up) = calm_rounds conf w2 later k true ok refl in
    rw
      (
        run_client-append conf w rs (last ∷ later),
        silent_rounds conf w rs quiet (ground arith),
        failed_round conf w1 last q main full fails,
      )
      (
        main',
        link-append k (pauses (length rs))
              (for_each if_up 0 conf.ethernet_number ++ [] ++ (run_client conf w2 later).1) false
            ∙ ap
                (link k
                  (for_each if_up 0 conf.ethernet_number ++ [] ++ (run_client conf w2 later).1))
                (link-pauses k (length rs) false)
            ∙ link-append k (for_each if_up 0 conf.ethernet_number ++ [])
                (run_client conf w2 later).1 false
            ∙ ap (link k (run_client conf w2 later).1)
                (rw (append-nil (for_each if_up 0 conf.ethernet_number)) (links_up conf k false h))
            ∙ up,
      )
