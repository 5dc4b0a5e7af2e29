-- ===== src/Client/Session/State.antt =====
-- src/client/configuration-session.ts: the state of `ConfigurationSession`, without its writes. A term
-- and the supervisor that is made for it have one number. `trace` is what the session said on the bus,
-- told its listeners and asked of its parts, newest first; the code does not read it.
use serial_broker.Prelude.{ℕ, Bool, true, false, Option, none, List, []}
use serial_broker.Core.Errors.{ErrorCode}
use serial_broker.Owner.PortMatcher.{DeviceFilter, ResolvedDevice}

-- `SerialBrokerStatus`
pub data SessionStatus : Type 0 where
  idle queued awaiting_permission connecting opened reconnecting failed released : SessionStatus

abbrev pub same_status : SessionStatus → SessionStatus → Bool
same_status idle idle = true
same_status queued queued = true
same_status awaiting_permission awaiting_permission = true
same_status connecting connecting = true
same_status opened opened = true
same_status reconnecting reconnecting = true
same_status failed failed = true
same_status released released = true
same_status _ _ = false

pub data SessionEvent : Type 0 where
  claims says_goodbye stops_supervisor retries_supervisor follows_device : ℕ → SessionEvent
  takes_own ends_own : ℕ → SessionEvent
  starts_supervisor : ℕ → Bool → SessionEvent
  broadcasts : ℕ → SessionStatus → SessionEvent
  requests_status : Bool → SessionEvent
  changes : SessionStatus → SessionStatus → SessionEvent
  reports sends_error : ErrorCode → SessionEvent
  receives : Bool → SessionEvent
  sends_data disposes_terms starts_slot stops_slot starts_election stops_election : SessionEvent
  attaches detaches fails_writes dispatches_waiting resends_unstarted resolves_device : SessionEvent

-- `release()` awaits the stop of the supervisor of a term, if there is one, and of the election.
pub data ReleasePhase : Type 0 where
  not_releasing awaits_election has_released : ReleasePhase
  awaits_stop : Option ℕ → ReleasePhase

-- What the session takes from its configuration.
pub record SessionSettings : Type 0 where
  pub auto_reconnect : Bool
  pub max_tabs : Option ℕ

pub record Session : Type 0 where
  pub device : DeviceFilter
  pub status : SessionStatus
  pub last_error_code : Option ErrorCode
  pub is_released : Bool
  pub after_gap : Bool
  pub is_joined : Bool
  -- With the `maxTabs` of the tab holding the port; no number where there is no limit.
  pub withdrawal : Option (Option ℕ)
  pub is_owner : Bool
  pub is_election_stopped : Bool
  pub supervisor : Option ℕ
  pub term : Option ℕ
  pub next_term : ℕ
  pub stopping : List ℕ
  pub release_phase : ReleasePhase
  pub has_delayed_answer : Bool
  pub trace : List SessionEvent

abbrev pub new_session : DeviceFilter → Session
new_session device = record {
  device = device;
  status = idle;
  last_error_code = none;
  is_released = false;
  after_gap = true;
  is_joined = false;
  withdrawal = none;
  is_owner = false;
  is_election_stopped = false;
  supervisor = none;
  term = none;
  next_term = 0;
  stopping = [];
  release_phase = not_releasing;
  has_delayed_answer = false;
  trace = [];
}

-- A `status` message: the device is there if it says which it is.
pub record StatusMessage : Type 0 where
  pub status : SessionStatus
  pub max_tabs : Option ℕ
  pub device : Option ResolvedDevice
