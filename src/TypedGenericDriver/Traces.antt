-- ===== src/TypedGenericDriver/Traces.antt =====
-- src/typed_generic_driver.rs, src/submission_session.rs: what is observed of a ready driver over
-- sequences of calls, some of them made in submission sessions.
use rust_gpu_driver_lab.Base.{ℕ, List, [], ◌∷◌, ◌++◌, map, Run, returns, and_then}
use rust_gpu_driver_lab.Command.{RawCommand}
use rust_gpu_driver_lab.Device.Buffer.{BufferId}
use rust_gpu_driver_lab.QueueBackend.{SubmissionQueue}
use rust_gpu_driver_lab.GenericDriver.Traces as Generically
use rust_gpu_driver_lab.GenericDriver.Traces.{
  Reply, finished, allocated, handed_out, counted, answered,
}
use rust_gpu_driver_lab.TypedDriver.{DriverState, ready_operational}
use rust_gpu_driver_lab.TypedGenericDriver
use rust_gpu_driver_lab.TypedGenericDriver.{TypedGenericGpuDriver}
use rust_gpu_driver_lab.SubmissionSession
use rust_gpu_driver_lab.SubmissionSession.{SubmissionSession}

pub data SessionCall : Type 0 where
  submit : BufferId → RawCommand → SessionCall
  queued_len is_queue_empty is_queue_full : SessionCall

pub data Call : Type 0 where
  allocate_buffer : (capacity : ℕ) → Call
  write_buffer : BufferId → List ℕ → Call
  submit : BufferId → RawCommand → Call
  next_submission peek_submission queued_len is_queue_empty is_queue_full : Call
  in_session : List SessionCall → Call

module _ (backend : SubmissionQueue) where
  abbrev pub Ready : Type 0
  Ready = TypedGenericGpuDriver DriverState.ready backend

  abbrev pub Session : Type 0
  Session = SubmissionSession DriverState.ready backend

  unfoldable pub session_step : Session → SessionCall → Session × Reply backend.Error
  session_step d (SessionCall.submit id command) =
      let (e, r) = SubmissionSession.submit backend ready_operational d id command in
      (e, finished r)
  session_step d SessionCall.queued_len =
      (d, counted (SubmissionSession.queued_len backend ready_operational d))
  session_step d SessionCall.is_queue_empty =
      (d, answered (SubmissionSession.is_queue_empty backend ready_operational d))
  session_step d SessionCall.is_queue_full =
      (d, answered (SubmissionSession.is_queue_full backend ready_operational d))

  unfoldable pub session_run : Session → List SessionCall → Session × List (Reply backend.Error)
  session_run d [] = (d, [])
  session_run d (c ∷ cs) =
      let (e, r) = session_step d c in let (f, rs) = session_run e cs in (f, r ∷ rs)

  -- The driver after a call beside the replies, which are several for a session.
  unfoldable pub step : Ready → Call → Run (Ready × List (Reply backend.Error))
  step d (allocate_buffer capacity) =
      let (e, r) = TypedGenericDriver.allocate_buffer backend ready_operational d capacity in
      returns (e, allocated r ∷ [])
  step d (write_buffer id bytes) =
      let (e, r) = TypedGenericDriver.write_buffer backend ready_operational d id bytes in
      returns (e, finished r ∷ [])
  step d (Call.submit id command) =
      let (e, r) = TypedGenericDriver.submit backend ready_operational d id command in
      returns (e, finished r ∷ [])
  step d next_submission =
      and_then (TypedGenericDriver.next_submission backend ready_operational d)
        λ (e, o). returns (e, handed_out o ∷ [])
  step d peek_submission =
      and_then (TypedGenericDriver.peek_submission backend ready_operational d)
        λ o. returns (d, handed_out o ∷ [])
  step d Call.queued_len =
      returns (d, counted (TypedGenericDriver.queued_len backend ready_operational d) ∷ [])
  step d Call.is_queue_empty =
      returns (d, answered (TypedGenericDriver.is_queue_empty backend ready_operational d) ∷ [])
  step d Call.is_queue_full =
      returns (d, answered (TypedGenericDriver.is_queue_full backend ready_operational d) ∷ [])
  step d (in_session cs) =
      let begun = SubmissionSession.begin_submission_session backend ready_operational d in
      let (session, replies) = session_run begun cs in
      returns (SubmissionSession.finish backend ready_operational session, replies)

  abbrev pub prepend_all :
      List (Reply backend.Error)
      → Run (List (Reply backend.Error))
      → Run (List (Reply backend.Error))
  prepend_all [] rest = rest
  prepend_all (r ∷ rs) rest = Generically.prepend backend r (prepend_all rs rest)

  unfoldable pub run : Ready → List Call → Run (List (Reply backend.Error))
  run d [] = returns []
  run d (c ∷ cs) = and_then (step d c) λ (e, rs). prepend_all rs (run e cs)

abbrev pub session_call : SessionCall → Generically.Call
session_call (SessionCall.submit id command) = Generically.submit id command
session_call SessionCall.queued_len = Generically.queued_len
session_call SessionCall.is_queue_empty = Generically.is_queue_empty
session_call SessionCall.is_queue_full = Generically.is_queue_full

-- The calls of the generic driver that a call stands for.
abbrev pub to_calls : Call → List Generically.Call
to_calls (allocate_buffer capacity) = Generically.allocate_buffer capacity ∷ []
to_calls (write_buffer id bytes) = Generically.write_buffer id bytes ∷ []
to_calls (Call.submit id command) = Generically.submit id command ∷ []
to_calls next_submission = Generically.next_submission ∷ []
to_calls peek_submission = Generically.peek_submission ∷ []
to_calls Call.queued_len = Generically.queued_len ∷ []
to_calls Call.is_queue_empty = Generically.is_queue_empty ∷ []
to_calls Call.is_queue_full = Generically.is_queue_full ∷ []
to_calls (in_session cs) = map session_call cs

abbrev pub all_calls : List Call → List Generically.Call
all_calls [] = []
all_calls (c ∷ cs) = to_calls c ++ all_calls cs
