-- ===== src/Tests/Hosts.antt =====
-- The heartbeat with two interfaces, two retries and a peer that is silent.
use cpp_study.Base.{◌≡◌, refl, [], ◌∷◌, true, false, arith}
use cpp_study.Base.Int.{pos, negsuc}
use cpp_study.HeartBeat.Client.{
  Config, Round, counted, first_watch, run_client, backup_flag, is_backup, if_up, start, pause,
  for_each,
}
use cpp_study.HeartBeat.Takeover.{takeover, run_client-link, link, pauses}

abbrev conf : Config
conf = record { ethernet_number = 2; max_retries = 2 }

abbrev silent : Round
silent = record { ret1 = negsuc 0; ret2 = negsuc 0; ps = counted 0 }

abbrev alive : Round
alive = record { ret1 = negsuc 0; ret2 = pos 0; ps = counted 0 }

takeover_example : run_client conf first_watch (silent ∷ silent ∷ silent ∷ []) ≡ (
  record { retry_times = 3; error_flag = true; flag = backup_flag },
  pause ∷ pause ∷ if_up 0 ∷ if_up 1 ∷ start ∷ pause ∷ [],
)
unfolding first_watch pauses for_each
takeover_example =
    takeover conf first_watch (silent ∷ silent ∷ []) silent 0 (refl, (refl, tt)) refl refl refl refl

run_client-link_example :
    link 1 (run_client conf first_watch (silent ∷ silent ∷ silent ∷ alive ∷ [])).1 false
    ≡ is_backup (run_client conf first_watch (silent ∷ silent ∷ silent ∷ alive ∷ [])).0.flag
unfolding first_watch
run_client-link_example =
    run_client-link conf first_watch (silent ∷ silent ∷ silent ∷ alive ∷ []) 1
      (0, refl, (0, refl, (0, refl, (0, refl, tt)))) (omega arith)
