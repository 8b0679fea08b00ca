-- ===== src/MapSession/Tests.antt =====
-- A mapping session with its saves, with times in milliseconds: witnesses and runs.
use ros_pre_runner.Prelude.{◌≡◌, refl, true, false, [], ◌∷◌, str_eq}
use ros_pre_runner.Prelude.Millis.{Millis, ms, millis_float}
use ros_pre_runner.MapSession.State.{
  save_succeeded, save_failed, SaveOutcome, MapSessionModel, new_model, ready, run, runtime,
  evidence, refreshed, save_recorded, save_begun, call, observe_runtime, observe_map_evidence,
  record_save,
}
use ros_pre_runner.MapSession.Evidence.{new_session-needs_evidence}
use ros_pre_runner.MapSession.Saves.{IsUnsaved, run-IsUnsaved}

abbrev mapping : MapSessionModel Millis
mapping = run new_model ((runtime true "one" 1, ms 1000) ∷ (evidence true, ms 2000) ∷ [])

mapping_ready : ready mapping.session (ms 9000) ≡ true
unfolding run ready call observe_map_evidence observe_runtime
mapping_ready = refl

stale : ready mapping.session (ms 11000) ≡ false
unfolding run ready call observe_map_evidence observe_runtime
stale = refl

abbrev written : SaveOutcome
written = record {
  state = save_succeeded;
  detail = "saved";
  name = "studio";
  revision = "r1";
  session_id = "one";
}

abbrev refused : SaveOutcome
refused = record written { state = save_failed; detail = "no map"; revision = "" }

another : str_eq "two" mapping.session.session_id ≡ false
unfolding run call observe_map_evidence observe_runtime
another = refl

-- The retry of a save of session "one" during session "two" marks "two" as saved.
abbrev retried : MapSessionModel Millis
retried = run mapping (
    (save_recorded 7 written, ms 3000)
    ∷ (runtime true "two" 2, ms 4000)
    ∷ (save_recorded 7 written, ms 5000)
    ∷ [])

retried_saved : (retried.session.session_id ≡ "two") × (retried.session.unsaved ≡ false)
unfolding run call observe_map_evidence observe_runtime record_save
retried_saved = (refl, refl)

new_session-needs_evidence_example :
    ready
      (run mapping (
        (runtime true "two" 2, ms 3000)
        ∷ (save_recorded 7 written, ms 3500)
        ∷ (refreshed, ms 4000)
        ∷ [])).session
      (ms 4000)
    ≡ false
new_session-needs_evidence_example =
    new_session-needs_evidence mapping "two" 2 (ms 3000) (ms 4000)
      ((save_recorded 7 written, ms 3500) ∷ (refreshed, ms 4000) ∷ []) refl another refl

run-IsUnsaved_example :
    IsUnsaved
      (run (new_model {F = Millis}) (
        (runtime true "one" 1, ms 1000)
        ∷ (evidence true, ms 2000)
        ∷ (save_begun 7, ms 3000)
        ∷ (save_recorded 7 refused, ms 3500)
        ∷ [])).session
run-IsUnsaved_example =
    run-IsUnsaved
      ((runtime true "one" 1, ms 1000)
        ∷ (evidence true, ms 2000)
        ∷ (save_begun 7, ms 3000)
        ∷ (save_recorded 7 refused, ms 3500)
        ∷ [])
      refl
