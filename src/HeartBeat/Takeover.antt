-- ===== src/HeartBeat/Takeover.antt =====
-- When the client takes the peer's place and when it gives it back.
use cpp_study.Base.{
  ℕ, zero, suc, ◌+◌, ◌≤◌, ◌<◌, ◌≡◌, refl, ap, sym, ◌∙◌, List, [], ◌∷◌, ◌++◌, Bool, true, false,
  ◌&&◌, arith, ltb, leb, ◌==◌, if◌then◌else◌, length,
}
use mathlib.Core.List.{append-nil, append_assoc}
use cpp_study.HeartBeat.Client.{
  Flag, main_flag, backup_flag, is_backup, Watch, counted, Action, if_up, if_down, start, quick,
  pause, Config, Round, for_each, answered, attempt, after_ups, react, round, run_client,
}

-- Neither address answered in the round.
abbrev pub Silent : Round → Type 0
Silent r = answered r ≡ false

abbrev pub AllSilent : List Round → Type 0
AllSilent [] = Unit
AllSilent (r ∷ rs) = Silent r × AllSilent rs

-- No round's ps command fails.
abbrev pub AllCounted : List Round → Type 0
AllCounted [] = Unit
AllCounted (r ∷ rs) = (n : ℕ) × (r.ps ≡ counted n) × AllCounted rs

unfoldable pub pauses : ℕ → List Action
pauses zero = []
pauses (suc n) = pause ∷ pauses n

round_quiet :
    (conf : Config) (w : Watch) (r : Round)
    → Silent r
    → w.retry_times < conf.max_retries
    → round conf w r ≡ (record w { retry_times = w.retry_times + 1 }, pause ∷ [])
unfolding round attempt
round_quiet conf w r quiet room = rw quiet (ground arith)

pub silent_rounds :
    (conf : Config) (w : Watch) (rs : List Round)
    → AllSilent rs
    → w.retry_times + length rs ≤ conf.max_retries
    → run_client conf w rs
      ≡ (record w { retry_times = w.retry_times + length rs }, pauses (length rs))
unfolding run_client pauses
silent_rounds conf w [] quiet room = ground arith
silent_rounds conf w (r ∷ rs) (q, quiet) room =
    rw
      (
        round_quiet conf w r q (ground arith),
        silent_rounds conf (record w { retry_times = w.retry_times + 1 }) rs quiet (ground arith),
      )
      (ground arith)

-- Whether the interface `k` is up behind an action, and behind a list of actions.
unfoldable pub link_after : ℕ → Action → Bool → Bool
link_after k (if_up i) b = if i == k then true else b
link_after k (if_down i) b = if i == k then false else b
link_after k start b = b
link_after k quick b = b
link_after k pause b = b

unfoldable pub link : ℕ → List Action → Bool → Bool
unfolding link_after
link k [] b = b
link k (a ∷ rest) b = link k rest (link_after k a b)

pub link-append :
    (k : ℕ) (cs bs : List Action) (b : Bool) → link k (cs ++ bs) b ≡ link k bs (link k cs b)
unfolding link
link-append k [] bs b = refl
link-append k (a ∷ rest) bs b = link-append k rest bs (link_after k a b)

pub link-pauses : (k n : ℕ) (b : Bool) → link k (pauses n) b ≡ b
unfolding link link_after pauses
link-pauses k zero b = refl
link-pauses k (suc n) b = link-pauses k n b

link-for_each :
    (k : ℕ) (command : ℕ → Action) (v : Bool)
    → ((i : ℕ) (b : Bool) → link_after k (command i) b ≡ (if i == k then v else b))
    → (i n : ℕ) (b : Bool)
    → link k (for_each command i n) b ≡ (if leb i k && ltb k (i + n) then v else b)
unfolding link for_each
link-for_each k command v one i zero b = ground arith
link-for_each k command v one i (suc n) b = ground (
  arith,
  one i b,
  link-for_each k command v one (i + 1) n b,
  link-for_each k command v one (i + 1) n v,
)

pub links_up :
    (conf : Config) (k : ℕ) (b : Bool)
    → k < conf.ethernet_number
    → link k (for_each if_up 0 (conf.ethernet_number)) b ≡ true
unfolding link_after
links_up conf k b h =
    ground (arith, link-for_each k if_up true (λ i b. refl) 0 (conf.ethernet_number) b)

links_down :
    (conf : Config) (k : ℕ) (b : Bool)
    → k < conf.ethernet_number
    → link k (for_each if_down 0 (conf.ethernet_number)) b ≡ false
unfolding link_after
links_down conf k b h =
    ground (arith, link-for_each k if_down false (λ i b. refl) 0 (conf.ethernet_number) b)

pub run_client-append :
    (conf : Config) (w : Watch) (xs ys : List Round)
    → run_client conf w (xs ++ ys) ≡ (
      (run_client conf (run_client conf w xs).0 ys).0,
      (run_client conf w xs).1 ++ (run_client conf (run_client conf w xs).0 ys).1,
    )
unfolding run_client
run_client-append conf w [] ys = refl
run_client-append conf w (x ∷ xs) ys = rw (run_client-append conf (round conf w x).0 xs ys) (
    ap (λ l. ((run_client conf (run_client conf (round conf w x).0 xs).0 ys).0, l))
      (sym (
        append_assoc (round conf w x).1 (run_client conf (round conf w x).0 xs).1
          (run_client conf (run_client conf (round conf w x).0 xs).0 ys).1)))

-- What a round gives with which the silence lasts too long.
last_round :
    (conf : Config) (w : Watch) (r : Round) (n : ℕ)
    → Silent r
    → w.flag ≡ main_flag
    → w.retry_times ≡ conf.max_retries
    → r.ps ≡ counted n
    → round conf w r ≡ (
      record { retry_times = conf.max_retries + 1; error_flag = true; flag = backup_flag },
      for_each if_up 0 conf.ethernet_number ++ (if n == 0 then start ∷ pause ∷ [] else pause ∷ []),
    )
unfolding round attempt react after_ups
last_round conf w r n quiet main full ps = rw (quiet, ps, main) (ground arith)

-- Rounds in which neither address answers: with a main flag, as long as they are as many as the
-- retries left, the client does nothing but sleep after each. In the next silent round, if its ps
-- command gives a count, it brings every interface up, starts the manager if the count is 0, sleeps,
-- and is the backup that serves.
pub takeover :
    (conf : Config) (w : Watch) (rs : List Round) (last : Round) (n : ℕ)
    → AllSilent rs
    → Silent last
    → w.flag ≡ main_flag
    → w.retry_times + length rs ≡ conf.max_retries
    → last.ps ≡ counted n
    → run_client conf w (rs ++ (last ∷ [])) ≡ (
      record { retry_times = conf.max_retries + 1; error_flag = true; flag = backup_flag },
      pauses (length rs)
          ++ (for_each if_up 0 conf.ethernet_number
              ++ (if n == 0 then start ∷ pause ∷ [] else pause ∷ [])),
    )
unfolding run_client
takeover conf w rs last n quiet q main full ps =
    let w1 = record w { retry_times = w.retry_times + length rs } in
    rw
      (
        run_client-append conf w rs (last ∷ []),
        silent_rounds conf w rs quiet (ground arith),
        last_round conf w1 last n q main full ps,
        append-nil (
            for_each if_up 0 conf.ethernet_number
            ++ (if n == 0 then start ∷ pause ∷ [] else pause ∷ [])),
      )
      refl

links_up_then :
    (conf : Config) (k n : ℕ) (b : Bool)
    → k < conf.ethernet_number
    → link k
        (for_each if_up 0 conf.ethernet_number
          ++ (if n == 0 then start ∷ pause ∷ [] else pause ∷ []))
        b
      ≡ true
unfolding link link_after
links_up_then conf k n b h =
    rw
      (
        link-append k (for_each if_up 0 conf.ethernet_number)
            (if n == 0 then start ∷ pause ∷ [] else pause ∷ []) b,
        links_up conf k b h,
      )
      (ground arith)

links_down_then :
    (conf : Config) (k : ℕ) (b : Bool)
    → k < conf.ethernet_number
    → link k (for_each if_down 0 conf.ethernet_number ++ (quick ∷ pause ∷ [])) b ≡ false
unfolding link link_after
links_down_then conf k b h =
    rw
      (
        link-append k (for_each if_down 0 conf.ethernet_number) (quick ∷ pause ∷ []) b,
        links_down conf k b h,
      )
      refl

react-link :
    (conf : Config) (w : Watch) (n k : ℕ)
    → k < conf.ethernet_number
    → link k (react conf w (counted n)).1 (is_backup w.flag)
      ≡ is_backup (react conf w (counted n)).0.flag
unfolding react after_ups link link_after
react-link conf w n k h = by_flags w.error_flag w.flag refl refl
  where
    by_flags :
        (e : Bool) (f : Flag)
        → w.error_flag ≡ e
        → w.flag ≡ f
        → link k (react conf w (counted n)).1 (is_backup w.flag)
          ≡ is_backup (react conf w (counted n)).0.flag
    by_flags true main_flag e f = rw (e, f) (links_up_then conf k n false h)
    by_flags false main_flag e f = rw (e, f) refl
    by_flags true backup_flag e f = rw (e, f) refl
    by_flags false backup_flag e f = rw (e, f) (links_down_then conf k true h)

attempt-flag : (conf : Config) (w : Watch) (r : Round) → (attempt conf w r).1.flag ≡ w.flag
unfolding attempt
attempt-flag conf w r = ground arith

round-link :
    (conf : Config) (w : Watch) (r : Round) (n k : ℕ)
    → r.ps ≡ counted n
    → k < conf.ethernet_number
    → (link k (round conf w r).1 (is_backup w.flag)) ≡ is_backup (round conf w r).0.flag
unfolding round link link_after
round-link conf w r n k ps h =
    let react_lem = react-link conf (attempt conf w r).1 n k h in
    rw (ps, sym (attempt-flag conf w r)) (ground (arith, react_lem))

-- If no ps command fails, and an interface is up exactly if this host is the backup that serves, then
-- that is so again after any number of rounds.
pub run_client-link :
    (conf : Config) (w : Watch) (rs : List Round) (k : ℕ)
    → AllCounted rs
    → k < conf.ethernet_number
    → link k (run_client conf w rs).1 (is_backup w.flag) ≡ is_backup (run_client conf w rs).0.flag
unfolding run_client link
run_client-link conf w [] k counts h = refl
run_client-link conf w (r ∷ rs) k (n, ps, counts) h =
    link-append k (round conf w r).1 (run_client conf (round conf w r).0 rs).1 (is_backup w.flag)
    ∙ ap (link k (run_client conf (round conf w r).0 rs).1) (round-link conf w r n k ps h)
    ∙ run_client-link conf (round conf w r).0 rs k counts h
