-- ===== src/Client/Session/Writes.antt =====
-- src/client/configuration-session.ts: how a write comes to the port of the tab, `#dispatchWrite` to
-- `#sendWriteResult`. A job is a call of `supervisor.write`; what the supervisor answers to it, and its
-- calls of `mayBegin`, are operations. `#awaitedApprovals` says which job asked. A message is acted on
-- once the terms believe it. `log` is what the tab sent and told, newest first; the code does not read it.
pub mod Counts
pub mod Carried
pub mod Ended
pub mod Conserved
pub mod Questions
pub mod Asking
pub mod Approvals
mod Tests
use serial_broker.Prelude.{
  ℕ, suc, Bool, true, false, not, ◌&&◌, ◌==◌, Option, none, some, List, [], ◌∷◌, if◌then◌else◌,
  is_some, is_value, Text, text_eq,
}
use serial_broker.Core.Errors.{SerialBrokerError}
use serial_broker.Client.AcceptedWrites.{
  AcceptedWrites, Admission, fresh, in_progress, finished, new, max_remembered_finished_writes,
  key_of, get, put, is_known, admit, finish,
}
use serial_broker.Client.Session.State.{SessionSettings, Session}
use serial_broker.Client.Session.Histories.{Happening, step}
use serial_broker.Client.Session.Terms.{stops_owner}

-- A write given to the tab holding the port in `term`, by itself or by another tab.
pub record Request : Type 0 where
  pub is_local : Bool
  pub origin : Text
  pub request_id : Text
  pub payload : ℕ
  pub term : ℕ

-- With the record of accepted writes it was admitted to.
pub record Job : Type 0 where
  pub id : ℕ
  pub epoch : ℕ
  pub request : Request

pub record Question : Type 0 where
  pub term : ℕ
  pub job : ℕ

pub data WriteEvent : Type 0 where
  takes repeats tells_sent sends_data asks_own sends_ready : Request → WriteEvent
  answers : Request → Option SerialBrokerError → WriteEvent
  hands_over : ℕ → Request → WriteEvent
  sends_request : Text → ℕ → ℕ → WriteEvent
  resolves : ℕ → Bool → WriteEvent

-- `own` is the client of the tab, `epoch` counts the records of accepted writes.
pub record Desk : Type 0 where
  pub session : Session
  pub own : Text
  pub accepted : AcceptedWrites
  pub epoch : ℕ
  pub jobs : List Job
  pub next_job : ℕ
  pub awaited : List (Text × Question)
  pub log : List WriteEvent

abbrev pub new_desk : Text → Session → Desk
new_desk own session = record {
  session = session;
  own = own;
  accepted = new max_remembered_finished_writes;
  epoch = 0;
  jobs = [];
  next_job = 0;
  awaited = [];
  log = [];
}

abbrev pub note : WriteEvent → Desk → Desk
note e s = record s { log = e ∷ s.log }

-- `approvalKey`, and the key of the accepted writes.
abbrev pub request_key : Request → Text
request_key q = key_of q.origin q.request_id

-- `Map.delete`
abbrev pub erase {ℓ} : {V : Type ℓ} → Text → List (Text × V) → List (Text × V)
erase key [] = []
erase key (entry ∷ entries) =
    let rest = erase key entries in if text_eq entry.0 key then rest else entry ∷ rest

abbrev pub find_job : ℕ → List Job → Option Job
find_job id [] = none
find_job id (j ∷ js) = if j.id == id then some j else find_job id js

abbrev pub drop_job : ℕ → List Job → List Job
drop_job id [] = []
drop_job id (j ∷ js) = let rest = drop_job id js in if j.id == id then js else j ∷ rest

-- `report.finished`: for another tab's write, the question is over and the result is sent.
abbrev pub report_finished : Request → Option SerialBrokerError → Desk → Desk
report_finished q error s =
    if q.is_local
    then note (answers q error) s
    else note (answers q error) (record s { awaited = erase (request_key q) s.awaited })

abbrev pub hand_over : Request → Desk → Desk
hand_over q s = note (hands_over s.next_job q) (record s {
  jobs = record { id = s.next_job; epoch = s.epoch; request = q } ∷ s.jobs;
  next_job = suc s.next_job;
})

abbrev pub take_up : Admission → Request → Desk → Desk
take_up in_progress q s = note (repeats q) s
take_up (finished error) q s = report_finished q error s
take_up fresh q s = hand_over q s

abbrev pub refusal_of : Request → Option SerialBrokerError → Desk → Option SerialBrokerError
refusal_of q refusal s = if is_known q.origin q.request_id s.accepted then none else refusal

-- `#performWrite`, with what `refusalOfWrite` of the supervisor says.
abbrev pub perform : Request → Option SerialBrokerError → Desk → Desk
perform q refusal s = elim (refusal_of q refusal s) [
  | some error ↦ report_finished q (some error) (note (takes q) s)
  | none ↦
      take_up (admit q.origin q.request_id s.accepted).1 q
        (note (takes q) (record s { accepted = (admit q.origin q.request_id s.accepted).0 }))
]

-- `#dispatchWrite`
abbrev pub dispatch_write : Text → ℕ → ℕ → Option SerialBrokerError → Desk → Desk
dispatch_write r payload term refusal s =
    if s.session.is_owner && is_some s.session.supervisor && is_value s.session.term term
    then perform
        (record { is_local = true; origin = s.own; request_id = r; payload = payload; term = term })
        refusal s
    else note (sends_request r payload term) s

-- `#performWriteForPeer`
abbrev pub perform_for_peer : Text → Text → ℕ → ℕ → Option SerialBrokerError → Desk → Desk
perform_for_peer origin r payload requested_term refusal s =
    if is_some s.session.supervisor && is_value s.session.term requested_term
    then perform
        (record {
          is_local = false;
          origin = origin;
          request_id = r;
          payload = payload;
          term = requested_term;
        })
        refusal s
    else s

-- The supervisor calls `mayBegin` of a job.
abbrev pub ask : Request → ℕ → Desk → Desk
ask q id s =
    if q.is_local
    then note (asks_own q) s
    else note (sends_ready q)
        (record s { awaited = put (request_key q) (record { term = q.term; job = id }) s.awaited })

abbrev pub may_begin : ℕ → Desk → Desk
may_begin id s = elim (find_job id s.jobs) [ none ↦ s | some j ↦ ask j.request id s ]

-- `#takeApproval`: the job that asked for the answer.
abbrev pub asker : ℕ → Option Question → Option ℕ
asker term none = none
asker term (some q) = if q.term == term then some q.job else none

abbrev pub approval_of : Text → Text → ℕ → Desk → Option ℕ
approval_of from r term s = asker term (get (key_of from r) s.awaited)

abbrev pub take_approval : Text → Text → ℕ → Bool → Desk → Desk
take_approval from r term approved s = elim (approval_of from r term s) [
  | none ↦ s
  | some id ↦ note (resolves id approved) (record s { awaited = erase (key_of from r) s.awaited })
]

-- `supervisor.write` of a job has settled; `#announceSent`.
abbrev pub announce : Request → Option SerialBrokerError → Desk → Desk
announce q none s = note (sends_data q) (note (tells_sent q) s)
announce q (some error) s = s

abbrev pub end_job : ℕ → Job → Option SerialBrokerError → Desk → Desk
end_job id j error s = announce j.request error (
    report_finished j.request error (record s {
      jobs = drop_job id s.jobs;
      accepted =
          if j.epoch == s.epoch
          then finish j.request.origin j.request.request_id error s.accepted
          else s.accepted;
    }))

abbrev pub settle_job : ℕ → Option SerialBrokerError → Desk → Desk
settle_job id error s = elim (find_job id s.jobs) [ none ↦ s | some j ↦ end_job id j error s ]

-- What happens to the session; `#stopBeingOwner` begins a new record of accepted writes.
abbrev pub renew : Bool → Desk → Desk
renew b s =
    if b then record s { accepted = new max_remembered_finished_writes; epoch = suc s.epoch } else s

abbrev pub session_step : SessionSettings → Happening → Desk → Desk
session_step c h s = record (renew (stops_owner h s.session) s) { session = step c h s.session }
