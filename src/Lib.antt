-- ===== src/Lib.antt =====
-- The Runner vehicle's command path: how Paddock, the operator's station, comes to drive the car.
--
-- Parts, in src/runner_paddock/runner_paddock unless another path is given:
--   gateway.py             Gateway            the browsers' actions under the one control lease, as
--                                             control events and requests
--   state_machine.py       StateMachine       the reducer of modes, lease, RUN gate and manual control
--   command_supervisor.py  CommandSupervisor  the lease's deadmen and sequence numbers, and the gate
--                                             through which raw velocity samples reach the car
--   stop_enforcer.py       StopEnforcer       the persistent STOP that locks the drive
--   src/runner_encoder/runner_encoder/encoder_state.py
--                          EncoderState       the edges, the direction and the rate of the wheel encoder
--   map_session.py         MapSession         the mapping session, its evidence, saves and deletes
--   src/runner_drive_adapter/runner_drive_adapter/drive_adapter.py
--                          DriveAdapter       from a velocity command to throttle and steering: the
--                                             configuration, its live changes and the control step
--   mode_runtime.py        ModeRuntime        the systemd-backed runtime that stops one mode before it
--                                             starts another
--   png_codec.py, semantics.py
--                          Png                the grayscale PNG codec and the class rasters in it
-- The supervisor holds a `PaddockState` and calls `transition` for every change of it; its events are
-- the control events of the gateway, of which ROS carries the fields unchanged (ros_state_node.py to
-- command_authority_node.py, `input_of` of Gateway/Link), its clock comes from its owner. What may
-- follow what among the control events is a protocol of its own (Gateway/Protocol), between the
-- gateway's side (Gateway/Obeys) and the supervisor's (Gateway/Link). `submit` of ros_state_node.py
-- (Gateway/Submit) is what publishes them. Of a request that is no message the initial pose is followed
-- further (Gateway/Pose): the transaction of ros_state_node.py that waits for STOP and standstill,
-- publishes the pose, confirms it by a transform and clears both costmaps. The STOP enforcer is a node of its own,
-- driven by requests, sensor messages and a 50 Hz timer, with a worker thread that writes its record.
--
-- State and operations. A Python object is a record of its attributes, and a method that assigns them
-- returns the new record, with its result or what it publishes; `transition` has one function for
-- each event, named on_<event>, and handle_control_event one for each stage. Optional values are
-- Option, exceptions of constructors are a sum or none, dictionaries are association lists. An integer
-- of Python is ℕ where the source keeps it non-negative; the 64-bit sequence numbers wrap as written.
-- Python's float is the parameter F with the operations that the source uses (Prelude/Float), and no
-- law is assumed of them; Prelude/Millis is a concrete one, for the examples. Clocks are arguments.
-- Runs are lists of calls, in any order and with any clock. A poll of the mode runtime until a
-- deadline is given the list of what its looks show, of any length, and times out at the end of it.
-- The decoder's loop over the chunks of a file has fuel, one turn for each byte, which is enough since
-- a chunk has at least 12 bytes (Png/Ends). All other loops are over their inputs.
-- Bytes are natural numbers; `struct` and the rows' arithmetic keep their bounds (% 256, 2^32), and
-- zlib is a parameter, of which Png/Roundtrip states what it relies on.
-- The mode runtime publishes and calls outside in the middle of its work, and may raise there: its
-- methods are computations over the snapshot and the list of actions so far (ModeRuntime/Run), with
-- what systemd, the graph and the callbacks answer as arguments (ModeRuntime/View).
--
-- An action is what json.loads makes of a browser's message; what Python's built-in functions make of
-- its values is a parameter (Builtins), and an OverflowError of float() or int() escapes, as it does
-- there. The texts of the uuid factory are an argument of each call. On their way the control events
-- keep their order and may be lost but for those of the lease (`submit` itself holds some CLEAR STOPs
-- back); numbers are then below 2^63.
--
-- Not modelled: ROS and its messages' transport, threads and locks (each call is one step), files and
-- JSON (the parsed value, or the failure, is an argument, and so is the outcome of a write to disk),
-- device I/O, launch files, the third-party packages; and of the rest of the repository the nodes that
-- wrap these parts, with their own work on a request that is no message (for `submit` its outcome is an
-- argument; of that work only the initial pose is modelled, its lookup of the transform and the
-- snapshots being arguments), recordings, the web server, and the map bundles on disk, with the files of the class
-- rasters.
pub mod Prelude
pub mod StateMachine
pub mod CommandSupervisor
pub mod StopEnforcer
pub mod EncoderState
pub mod MapSession
pub mod DriveAdapter
pub mod ModeRuntime
pub mod Png
pub mod Gateway
