-- ===== src/Tests/Context.antt =====
-- The FDP events and features at concrete inputs.
use nvmevirt_fdp.Prelude.{ℕ, ◌≡◌, refl, [], ◌∷◌, map, take, some, true, arith}
use nvmevirt_fdp.Fdp.Context.{
  FdpCtx, fdp_ctx, fdp_init_ctx, fdp_set_feature_events, fdp_get_feature_events, desc_of,
  log_events, evt_invalid_pid,
}
use nvmevirt_fdp.Fdp.Context.Ring.{Emission, recorded, emit_all, history, log_events-history}
use nvmevirt_fdp.Fdp.Context.Features.{redecided, get-set_feature_events}

abbrev pub pids_on : FdpCtx
unfolding fdp_ctx fdp_set_feature_events
pids_on =
    (fdp_set_feature_events fdp_ctx 0x1_0000
      (some (record { evt = evt_invalid_pid; evta = 1 } ∷ []))).0

abbrev bad_pid_at : ℕ → Emission
bad_pid_at now = record { clock = now; type = evt_invalid_pid; flags = 3; pid = 99; nsid = 1 }

log_events-history_example :
    log_events (emit_all (fdp_init_ctx pids_on 0) (bad_pid_at 5 ∷ bad_pid_at 7 ∷ []))
    ≡ take 63 (history pids_on.events (bad_pid_at 5 ∷ bad_pid_at 7 ∷ []) [])
log_events-history_example = log_events-history pids_on 0 (bad_pid_at 5 ∷ bad_pid_at 7 ∷ [])

both_logged :
    history pids_on.events (bad_pid_at 5 ∷ bad_pid_at 7 ∷ []) []
    ≡ recorded (bad_pid_at 7) ∷ recorded (bad_pid_at 5) ∷ []
unfolding history fdp_ctx fdp_set_feature_events
both_logged = refl

get-set_feature_events_example :
    (fdp_get_feature_events
      (fdp_set_feature_events fdp_ctx 0x1_0000 (some (record { evt = 0x81; evta = 1 } ∷ []))).0
      true).1
    ≡ map desc_of (map (redecided (record { evt = 0x81; evta = 1 } ∷ [])) fdp_ctx.events)
get-set_feature_events_example =
    get-set_feature_events fdp_ctx 0x1_0000 (record { evt = 0x81; evta = 1 } ∷ []) (omega arith)
