-- ===== src/MapSession/Saves.antt =====
-- Which saves a mapping session reports.
use ros_pre_runner.Prelude.{
  ℕ, String, str_eq, ◌≡◌, refl, ◌∙◌, Bool, true, false, not, ◌&&◌, ◌||◌, some, List, [], ◌∷◌, ◌==◌,
  if_both, arith,
}
use ros_pre_runner.Prelude.Float.{Float}
use ros_pre_runner.MapSession.State.{
  SaveState, save_idle, save_running, save_succeeded, save_failed, SaveOutcome, MappingSession,
  SessionPhase, saved, new_model, started_session, is_running, MapSessionModel, active, settle,
  observe_runtime, get_result, set_result, cached_save, observe_map_evidence, refresh, record_save,
  begin_save, set_selection, record_delete, Call, call, run, runtime, evidence, refreshed,
  save_recorded, save_begun, selection, delete_recorded,
}

abbrev is_success : SaveState → Bool
is_success save_succeeded = true
is_success _ = false

abbrev pub is_saved : SessionPhase → Bool
is_saved saved = true
is_saved _ = false

get_result-set_result :
    (k : ℕ) (o : SaveOutcome) (d : List (ℕ × SaveOutcome))
    → get_result k (set_result k o d) ≡ some o
unfolding get_result set_result
get_result-set_result k o [] = ground arith
get_result-set_result k o ((j, p) ∷ rest) = ground (arith, get_result-set_result k o rest)

get_result-set_result_other :
    (k l : ℕ) (o : SaveOutcome) (d : List (ℕ × SaveOutcome))
    → (l == k) ≡ false
    → get_result k (set_result l o d) ≡ get_result k d
unfolding get_result set_result
get_result-set_result_other k l o [] h = ground arith
get_result-set_result_other k l o ((j, p) ∷ rest) h =
    ground (arith, get_result-set_result_other k l o rest h)

module _ {F : Type 0} where
  abbrev pub records : ℕ → Call F → Bool
  records request_id (save_recorded other outcome) = other == request_id
  records request_id _ = false

  abbrev pub never_records : ℕ → List (Call F × F) → Bool
  never_records request_id [] = true
  never_records request_id ((k, now) ∷ ks) =
      not (records request_id k) && never_records request_id ks

  abbrev is_saving_call : Call F → Bool
  is_saving_call (save_recorded request_id outcome) = is_success outcome.state
  is_saving_call _ = false

  abbrev pub never_succeeds : List (Call F × F) → Bool
  never_succeeds [] = true
  never_succeeds ((k, now) ∷ ks) = not (is_saving_call k) && never_succeeds ks

  -- A session that is there is unsaved, and never in the phase SAVED.
  abbrev pub IsUnsaved : MappingSession F → Type 0
  IsUnsaved s = ((str_eq s.session_id "" || s.unsaved) ≡ true) × (is_saved s.phase ≡ false)

module _ {F : Type 0} ⦃fl : Float F⦄ where
  call-results :
      (m : MapSessionModel F) (k : Call F) (now : F) (request_id : ℕ)
      → records request_id k ≡ false
      → cached_save (call m k now) request_id ≡ cached_save m request_id
  unfolding call cached_save
  call-results m (runtime b id epoch) now r n = unfold observe_runtime in ground arith
  call-results m (evidence b) now r n = unfold observe_map_evidence in ground arith
  call-results m refreshed now r n = unfold refresh in ground arith
  call-results m (save_recorded q o) now r n =
      unfold record_save in get_result-set_result_other r q o m.save_results n
  call-results m (save_begun q) now r n = unfold begin_save in refl
  call-results m (selection a b c) now r n = unfold set_selection in refl
  call-results m (delete_recorded q a s d) now r n = unfold record_delete in refl

  run-results :
      (m : MapSessionModel F) (ks : List (Call F × F)) (request_id : ℕ)
      → never_records request_id ks ≡ true
      → cached_save (run m ks) request_id ≡ cached_save m request_id
  unfolding run
  run-results m [] r n = refl
  run-results m ((k, now) ∷ ks) r n =
      run-results (call m k now) ks r (ground arith) ∙ call-results m k now r (ground arith)

  -- A retried save gets the outcome of its request: it is found again after any calls that do not
  -- record that request once more, other sessions included.
  cached_save-run :
      (m : MapSessionModel F) (request_id : ℕ) (outcome : SaveOutcome) (now : F)
      (ks : List (Call F × F))
      → never_records request_id ks ≡ true
      → cached_save (run m ((save_recorded request_id outcome, now) ∷ ks)) request_id ≡ some outcome
  unfolding run call
  cached_save-run m r o now ks n =
      run-results (record_save m r o) ks r n
      ∙ (unfold cached_save record_save in get_result-set_result r o m.save_results)

  settle-IsUnsaved :
      (state : SaveState) (o : SaveOutcome) (s : MappingSession F)
      → is_success state ≡ false
      → IsUnsaved s
      → IsUnsaved (settle state o s)
  settle-IsUnsaved save_idle o s n h = h
  settle-IsUnsaved save_running o s n h = h
  settle-IsUnsaved save_succeeded o s n h = absurd (cc)
  settle-IsUnsaved save_failed o s n h = ground arith

  started-IsUnsaved : (id : String) (epoch : ℕ) (now : F) → IsUnsaved (started_session id epoch now)
  started-IsUnsaved id epoch now = (ground arith, refl)

  runtime-IsUnsaved :
      (m : MapSessionModel F) (b : Bool) (id : String) (epoch : ℕ) (now : F)
      → IsUnsaved m.session
      → IsUnsaved (observe_runtime m b id epoch now).session
  unfolding observe_runtime
  runtime-IsUnsaved m b id epoch now h =
      let P : MapSessionModel F → Type 0 = λ t. IsUnsaved t.session in
      if_both P (not b || str_eq id "")
        (λ p. if_both P (active m.session) (λ q. (refl, refl)) (λ q. h))
        (λ p.
          if_both P (str_eq id m.session.session_id) (λ q. h)
            (λ q.
              if_both P (is_running m.save_state) (λ r. started-IsUnsaved id epoch now)
                (λ r. started-IsUnsaved id epoch now)))

  call-IsUnsaved :
      (m : MapSessionModel F) (k : Call F) (now : F)
      → is_saving_call k ≡ false
      → IsUnsaved m.session
      → IsUnsaved (call m k now).session
  unfolding call
  call-IsUnsaved m (runtime b id epoch) now n h = runtime-IsUnsaved m b id epoch now h
  call-IsUnsaved m (evidence b) now n h = unfold observe_map_evidence in ground arith
  call-IsUnsaved m refreshed now n h = unfold refresh in ground arith
  call-IsUnsaved m (save_recorded r o) now n h =
      unfold record_save in settle-IsUnsaved o.state o m.session n h
  call-IsUnsaved m (save_begun r) now n h = unfold begin_save in ground arith
  call-IsUnsaved m (selection a b c) now n h = unfold set_selection in h
  call-IsUnsaved m (delete_recorded r a s d) now n h = unfold record_delete in h

  run_from-IsUnsaved :
      (m : MapSessionModel F) (ks : List (Call F × F))
      → never_succeeds ks ≡ true
      → IsUnsaved m.session
      → IsUnsaved (run m ks).session
  unfolding run
  run_from-IsUnsaved m [] n h = h
  run_from-IsUnsaved m ((k, now) ∷ ks) n h =
      run_from-IsUnsaved (call m k now) ks (ground arith) (call-IsUnsaved m k now (ground arith) h)

  -- No session is reported as saved unless a save succeeded: from the start of the process, any calls
  -- without a successful outcome leave a session that is there unsaved, and none in the phase SAVED.
  pub run-IsUnsaved :
      (ks : List (Call F × F)) → never_succeeds ks ≡ true → IsUnsaved (run new_model ks).session
  run-IsUnsaved ks n = run_from-IsUnsaved new_model ks n (refl, refl)
