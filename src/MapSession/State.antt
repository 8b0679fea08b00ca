-- ===== src/MapSession/State.antt =====
-- `MappingSession` and `MapSessionModel` of src/runner_paddock/runner_paddock/map_session.py, less
-- the catalog, which reads the map directory. A method returns the new model; the keyword `now` is
-- an argument. `_save_results` is an association list.
use ros_pre_runner.Prelude.{
  ℕ, String, str_eq, Bool, true, false, not, ◌&&◌, ◌||◌, Option, none, some, List, [], ◌∷◌, ◌==◌,
  if◌then◌else◌,
}
use ros_pre_runner.Prelude.Float.{Float, zero_f}

pub data SessionPhase : Type 0 where
  no_session starting ready_phase saving saved failed : SessionPhase

pub data SaveState : Type 0 where
  save_idle save_running save_succeeded save_failed : SaveState

pub data DeleteState : Type 0 where
  delete_idle delete_succeeded delete_failed : DeleteState

-- `phase == SessionPhase.NONE`, and so on
abbrev pub is_no_session : SessionPhase → Bool
is_no_session no_session = true
is_no_session _ = false

abbrev pub is_starting : SessionPhase → Bool
is_starting starting = true
is_starting _ = false

abbrev pub is_saving : SessionPhase → Bool
is_saving saving = true
is_saving _ = false

-- `phase in (SessionPhase.READY, SessionPhase.SAVED)`
abbrev pub is_ready_or_saved : SessionPhase → Bool
is_ready_or_saved ready_phase = true
is_ready_or_saved saved = true
is_ready_or_saved _ = false

abbrev pub is_running : SaveState → Bool
is_running save_running = true
is_running _ = false

pub record SaveOutcome : Type 0 where
  pub state : SaveState
  pub detail : String
  pub name : String
  pub revision : String
  pub session_id : String

pub record MappingSession (F : Type 0) : Type 0 where
  pub session_id : String
  pub runtime_epoch : ℕ
  pub created : F
  pub phase : SessionPhase
  pub unsaved : Bool
  pub saved_name : String
  pub saved_revision : String
  pub evidence_at : Option F

pub record MapSessionModel (F : Type 0) : Type 0 where
  pub session : MappingSession F
  pub save_state : SaveState
  pub save_request_id : ℕ
  pub save_detail : String
  pub selected_requested : String
  pub selected_applied : String
  pub selected_reason : String
  pub delete_state : DeleteState
  pub delete_request_id : ℕ
  pub delete_name : String
  pub delete_detail : String
  pub save_results : List (ℕ × SaveOutcome)

unfoldable pub get_result : ℕ → List (ℕ × SaveOutcome) → Option SaveOutcome
get_result k [] = none
get_result k ((j, o) ∷ rest) = if j == k then some o else get_result k rest

unfoldable pub set_result : ℕ → SaveOutcome → List (ℕ × SaveOutcome) → List (ℕ × SaveOutcome)
set_result k o [] = (k, o) ∷ []
set_result k o ((j, p) ∷ rest) = if j == k then (k, o) ∷ rest else (j, p) ∷ set_result k o rest

module _ {F : Type 0} where
  unfoldable pub active : MappingSession F → Bool
  active s = not (str_eq s.session_id "") && not (is_no_session s.phase)

module _ {F : Type 0} ⦃fl : Float F⦄ where
  -- `evidence_at is not None and now - evidence_at <= evidence_timeout`, with its default
  abbrev pub is_recent : Option F → F → Bool
  is_recent none now = false
  is_recent (some at) now = fl.le (fl.sub now at) (fl.lit 8 1)

  unfoldable pub ready : MappingSession F → F → Bool
  unfolding active
  ready s now = active s && (is_ready_or_saved s.phase && is_recent s.evidence_at now)

  -- `MappingSession()`
  abbrev pub new_session : MappingSession F
  new_session = record {
    session_id = "";
    runtime_epoch = 0;
    created = zero_f;
    phase = no_session;
    unsaved = false;
    saved_name = "";
    saved_revision = "";
    evidence_at = none;
  }

  -- `MapSessionModel(map_dir)`
  abbrev pub new_model : MapSessionModel F
  new_model = record {
    session = new_session;
    save_state = save_idle;
    save_request_id = 0;
    save_detail = "";
    selected_requested = "";
    selected_applied = "";
    selected_reason = "";
    delete_state = delete_idle;
    delete_request_id = 0;
    delete_name = "";
    delete_detail = "";
    save_results = [];
  }

  abbrev pub started_session : String → ℕ → F → MappingSession F
  started_session session_id runtime_epoch now = record new_session {
    session_id = session_id;
    runtime_epoch = runtime_epoch;
    created = now;
    phase = starting;
    unsaved = true;
  }

  -- A save that runs while the session changes has failed.
  abbrev interrupt_save : MapSessionModel F → MapSessionModel F
  interrupt_save m =
      if is_running m.save_state
      then record m { save_state = save_failed; save_detail = "session changed during save" }
      else m

  unfoldable pub observe_runtime : MapSessionModel F → Bool → String → ℕ → F → MapSessionModel F
  unfolding active
  observe_runtime m mapping_active session_id runtime_epoch now =
      if not mapping_active || str_eq session_id ""
      then (if active m.session then record m { session = new_session } else m)
      else if str_eq session_id m.session.session_id
      then m
      else interrupt_save (record m { session = started_session session_id runtime_epoch now })

  unfoldable pub observe_map_evidence : MapSessionModel F → Bool → F → MapSessionModel F
  unfolding active
  observe_map_evidence m produced_after now =
      if not (active m.session) || not produced_after then m else record m {
        session = record m.session {
          evidence_at = some now;
          phase = if is_starting m.session.phase then ready_phase else m.session.phase;
        };
      }

  unfoldable pub refresh : MapSessionModel F → F → MapSessionModel F
  unfolding active ready
  refresh m now =
      if active m.session && (is_ready_or_saved m.session.phase && not (ready m.session now))
      then record m { session = record m.session { phase = starting } }
      else m

  unfoldable pub cached_save : MapSessionModel F → ℕ → Option SaveOutcome
  cached_save m request_id = get_result request_id m.save_results

  -- What an outcome makes of the session.
  abbrev pub settle : SaveState → SaveOutcome → MappingSession F → MappingSession F
  settle save_succeeded o s = record s {
    unsaved = false;
    saved_name = o.name;
    saved_revision = o.revision;
    phase = saved;
  }
  settle save_failed o s =
      if active s && is_saving s.phase then record s { phase = ready_phase } else s
  settle _ o s = s

  unfoldable pub record_save : MapSessionModel F → ℕ → SaveOutcome → MapSessionModel F
  unfolding active
  record_save m request_id outcome = record m {
    save_results = set_result request_id outcome m.save_results;
    save_request_id = request_id;
    save_state = outcome.state;
    save_detail = outcome.detail;
    session = settle outcome.state outcome m.session;
  }

  unfoldable pub begin_save : MapSessionModel F → ℕ → MapSessionModel F
  unfolding active
  begin_save m request_id = record m {
    save_request_id = request_id;
    save_state = save_running;
    save_detail = "serializing SLAM posegraph";
    session = if active m.session then record m.session { phase = saving } else m.session;
  }

  unfoldable pub set_selection : MapSessionModel F → String → String → String → MapSessionModel F
  set_selection m requested applied reason = record m {
    selected_requested = requested;
    selected_applied = applied;
    selected_reason = reason;
  }

  unfoldable pub record_delete :
      MapSessionModel F → ℕ → String → DeleteState → String → MapSessionModel F
  record_delete m request_id name state detail = record m {
    delete_request_id = request_id;
    delete_name = name;
    delete_state = state;
    delete_detail = detail;
  }

pub data Call (F : Type 0) : Type 0 where
  runtime : Bool → String → ℕ → Call F
  evidence : Bool → Call F
  refreshed : Call F
  save_recorded : ℕ → SaveOutcome → Call F
  save_begun : ℕ → Call F
  selection : String → String → String → Call F
  delete_recorded : ℕ → String → DeleteState → String → Call F

module _ {F : Type 0} ⦃fl : Float F⦄ where
  unfoldable pub call : MapSessionModel F → Call F → F → MapSessionModel F
  call m (runtime mapping session_id epoch) now = observe_runtime m mapping session_id epoch now
  call m (evidence produced_after) now = observe_map_evidence m produced_after now
  call m refreshed now = refresh m now
  call m (save_recorded request_id outcome) now = record_save m request_id outcome
  call m (save_begun request_id) now = begin_save m request_id
  call m (selection requested applied reason) now = set_selection m requested applied reason
  call m (delete_recorded request_id name state detail) now =
      record_delete m request_id name state detail

  -- The model after calls, each with the clock that it was given.
  unfoldable pub run : MapSessionModel F → List (Call F × F) → MapSessionModel F
  run m [] = m
  run m ((k, now) ∷ rest) = run (call m k now) rest
