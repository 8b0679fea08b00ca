-- ===== src/MapSession/Evidence.antt =====
-- What makes a mapping session ready.
use ros_pre_runner.Prelude.{
  ◌∙◌, ℕ, String, str_eq, ◌≡◌, refl, Bool, true, false, not, ◌&&◌, none, List, [], ◌∷◌, arith,
}
use ros_pre_runner.Prelude.Float.{Float}
use ros_pre_runner.MapSession.State.{
  SaveState, save_idle, save_running, save_succeeded, save_failed, SaveOutcome, MappingSession,
  MapSessionModel, active, ready, is_ready_or_saved, settle, observe_runtime, observe_map_evidence,
  refresh, record_save, begin_save, set_selection, record_delete, Call, call, run, runtime,
  evidence, refreshed, save_recorded, save_begun, selection, delete_recorded,
}

module _ {F : Type 0} where
  abbrev pub is_evidence : Call F → Bool
  is_evidence (evidence produced_after) = produced_after
  is_evidence _ = false

  abbrev pub no_evidence : List (Call F × F) → Bool
  no_evidence [] = true
  no_evidence ((k, now) ∷ ks) = not (is_evidence k) && no_evidence ks

module _ {F : Type 0} ⦃fl : Float F⦄ where
  -- A refresh leaves exactly those sessions in the phases READY and SAVED that are ready.
  pub refresh_exact :
      (m : MapSessionModel F) (now : F)
      → let s = (refresh m now).session in (active s && is_ready_or_saved s.phase) ≡ ready s now
  unfolding refresh active ready
  refresh_exact m now = ground arith

  settle-evidence :
      (state : SaveState) (o : SaveOutcome) (s : MappingSession F)
      → (settle state o s).evidence_at ≡ s.evidence_at
  settle-evidence save_idle o s = refl
  settle-evidence save_running o s = refl
  settle-evidence save_succeeded o s = refl
  settle-evidence save_failed o s = ground arith

  runtime-evidence :
      (m : MapSessionModel F) (b : Bool) (id : String) (epoch : ℕ) (now : F)
      → m.session.evidence_at ≡ none
      → (observe_runtime m b id epoch now).session.evidence_at ≡ none
  unfolding observe_runtime
  runtime-evidence m b id epoch now h = ground arith

  call-evidence :
      (m : MapSessionModel F) (k : Call F) (now : F)
      → is_evidence k ≡ false
      → m.session.evidence_at ≡ none
      → (call m k now).session.evidence_at ≡ none
  unfolding call
  call-evidence m (runtime b id epoch) now n h = runtime-evidence m b id epoch now h
  call-evidence m (evidence b) now n h = unfold observe_map_evidence in ground arith
  call-evidence m refreshed now n h = unfold refresh in ground arith
  call-evidence m (save_recorded r o) now n h =
      unfold record_save in settle-evidence o.state o m.session ∙ h
  call-evidence m (save_begun r) now n h = unfold begin_save in ground arith
  call-evidence m (selection a b c) now n h = unfold set_selection in h
  call-evidence m (delete_recorded r n s d) now e h = unfold record_delete in h

  run-evidence :
      (m : MapSessionModel F) (ks : List (Call F × F))
      → no_evidence ks ≡ true
      → m.session.evidence_at ≡ none
      → (run m ks).session.evidence_at ≡ none
  unfolding run
  run-evidence m [] n h = h
  run-evidence m ((k, now) ∷ ks) n h =
      run-evidence (call m k now) ks (ground arith) (call-evidence m k now (ground arith) h)

  unseen-not_ready : (s : MappingSession F) (now : F) → s.evidence_at ≡ none → ready s now ≡ false
  unfolding ready
  unseen-not_ready s now h = ground arith

  started-evidence :
      (m : MapSessionModel F) (id : String) (epoch : ℕ) (now : F)
      → str_eq id "" ≡ false
      → str_eq id m.session.session_id ≡ false
      → (observe_runtime m true id epoch now).session.evidence_at ≡ none
  unfolding observe_runtime
  started-evidence m id epoch now p q = ground arith

  -- Readiness does not carry over: once the runtime reports another session, no calls but map
  -- evidence of that session make it ready, whatever was known of the session before.
  pub new_session-needs_evidence :
      (m : MapSessionModel F) (id : String) (epoch : ℕ) (now later : F) (ks : List (Call F × F))
      → str_eq id "" ≡ false
      → str_eq id m.session.session_id ≡ false
      → no_evidence ks ≡ true
      → ready (run m ((runtime true id epoch, now) ∷ ks)).session later ≡ false
  unfolding run call
  new_session-needs_evidence m id epoch now later ks p q n = unseen-not_ready _ later (
      run-evidence (observe_runtime m true id epoch now) ks n (started-evidence m id epoch now p q))
