-- ===== src/Lib.antt =====
-- CAPS-DASH: a car-park server. Cameras watch parking slots, an object detector finds vehicles, and
-- the server decides which slots are taken, shows it live, records it, and reports on it.
--
-- The parts and how they interact. A camera loop reads frames, publishes them to the viewers, and
-- starts a detection when the scene warrants one. A finished detection is assigned to the slots of
-- the camera's map, each slot's observation goes through a vote over the last frames, and the slots
-- whose verdict changed are written to the history. The history is what parking sessions and the
-- hourly statistics are derived from. Users sign in with access and refresh tokens; a rate limiter
-- guards the sign-in; alerts are raised by jobs.
--
-- Which module models which file (paths from the repository's root):
--   Vision.States            backend/caps_dash/vision/domain/states.py
--   Vision.VoteFilter        backend/caps_dash/vision/domain/vote_filter.py: SlotVoteFilter and
--                            SlotMapFilter
--   Vision.Geometry          backend/caps_dash/vision/domain/geometry.py, detection.py, and the
--                            shapes of slot_map.py
--   Vision.Assignment        backend/caps_dash/vision/domain/assignment.py: assign_detection
--   Vision.SlotDetections    backend/caps_dash/vision/domain/slot_detections.py, and fit_to_frame
--                            of slot_map.py
--   Vision.Detectors         backend/caps_dash/vision/detectors/box_utils.py and onnx_decode.py
--   Vision.RtspSource        backend/caps_dash/vision/sources/rtsp_stream_source.py and
--                            rtsp_stream_diagnostics.py
--   Workers.OutcomeApplier   backend/caps_dash/workers/inference_outcome_applier.py: apply_outcome
--   Workers.StateTracker     backend/caps_dash/workers/state_tracker.py
--   Workers.Scheduler        backend/caps_dash/workers/inference_scheduler.py and run_camera_loop of
--                            camera_loop.py, as a step relation
--   Workers.TickPolicy       backend/caps_dash/vision/frame_change_gate.py,
--                            backend/caps_dash/workers/camera_tick_policy.py and _maybe_infer of
--                            camera_loop.py
--   Workers.Supervisor       backend/caps_dash/workers/camera_supervisor.py, camera_start_stagger.py
--                            and reload_signals.py
--   Realtime.BroadcastHub    backend/caps_dash/realtime/broadcast_hub.py and subscriber.py
--   Realtime.FrameProtocol   backend/caps_dash/realtime/frame_protocol.py
--   Realtime.Handshake       backend/caps_dash/realtime/ws_auth.py
--   Realtime.Heartbeat       backend/caps_dash/realtime/ws_heartbeat.py and ws_control.py
--   Security.RateLimiter     backend/caps_dash/security/rate_limiter.py
--   Security.Access          backend/caps_dash/security/jwt_tokens.py, current_user.py and rbac.py
--   Services.Auth            backend/caps_dash/services/auth_service.py (rotation, logout) with
--                            backend/caps_dash/repositories/user_repository.py
--   Services.Refresh         backend/caps_dash/services/auth_service.py (refresh, with its decoding)
--   Services.Login           backend/caps_dash/services/auth_service.py (login)
--   Services.Users           backend/caps_dash/services/user_service.py
--   Services.SlotMaps        backend/caps_dash/services/slot_map_service.py: replace
--   Services.Cameras         backend/caps_dash/services/camera_service.py and camera_validation.py
--   Services.CameraControl   backend/caps_dash/services/camera_control_service.py
--   Services.LedRing         backend/caps_dash/services/slot_led_service.py
--   Services.StateHistory    backend/caps_dash/services/slot_state_service.py and the seeding in
--                            backend/caps_dash/workers/camera_context.py
--   Services.Histories       backend/caps_dash/services/history_service.py, with
--                            backend/caps_dash/repositories/history_repository.py and
--                            backend/caps_dash/api/pagination.py
--   Services.PlateSearch     backend/caps_dash/services/plate_search_service.py
--   Services.Retention       backend/caps_dash/services/retention_service.py
--   Services.Sessions        backend/caps_dash/services/session_derivation_service.py
--   Services.Timeline        backend/caps_dash/services/hourly_timeline.py and rollup of
--                            hourly_stat_writer.py
--   Services.Aggregation     backend/caps_dash/services/hourly_aggregation_service.py
--   Services.Alerts          backend/caps_dash/services/alert_service.py, alert_rules.py and
--                            backend/caps_dash/repositories/alert_repository.py
--   Prelude                  shared names: Boolean tests, lists over the native numbers, and Python's
--                            dictionaries as association lists in insertion order
-- Each module's child modules hold its lemmas and are named for what they prove; runs on concrete
-- inputs stand in the modules called Tests.
--
-- How the code is represented. A class is a record, a method a function from the old record to the
-- new one and the result; an exception is a constructor of an error type. Database tables are lists
-- of rows. Every reading of a clock is an argument, so that no theorem assumes when the code runs
-- beyond what it says; instants and durations are natural numbers of a small unit. Python's
-- integers have no bound, so there is no overflow to model; the one fixed width, the four bytes of
-- a message's length, is written out. `float` is the interface Vision.Geometry.Scalars, and the
-- order laws that a theorem relies on are its LessLaws (numbers without NaN). Code between two
-- awaits of the event loop is one step; a write to the history that a frame awaits, and that may
-- fail, is a step of its own. Loops are structural recursion on the data they walk, or on the cap
-- that the code itself sets (24 hours a run), but for two while loops that take fuel and end
-- without a result when it runs out: the suppression of boxes, for which one more round than there
-- are boxes is enough, and the deletion in batches, for which one more than there are old rows is.
--
-- What stands outside, as arguments: the password hasher, PyJWT, the JSON codec, the splitting of
-- an address, numpy's sort, the database's order of rows with the same time, the image encoder, and
-- the comparison of two pictures. Not modelled: the web routes and schemas, the database engine and
-- its migrations, the neural networks and the other camera sources (numeric and image libraries,
-- devices), the diagnostics of cameras, the command line, the timers that call the jobs, logging,
-- and the browser's part in frontend.
pub mod Prelude
pub mod Vision
pub mod Security
pub mod Services
pub mod Workers
pub mod Realtime
