-- ===== src/Client/Session/Inbox.antt =====
-- What a session does with the messages its terms believe: `#applyStatus`, `#withdraw`,
-- `#answerStatusRequest` and the device of auto mode.
use serial_broker.Prelude.{
  ℕ, Bool, true, false, not, ◌&&◌, ◌||◌, ◌==◌, Option, none, some, if◌then◌else◌, is_some,
}
use serial_broker.Core.Errors.{ErrorCode}
use serial_broker.Owner.PortMatcher.{DeviceFilter, ResolvedDevice, usb, non_usb, auto}
use serial_broker.Client.Session.State.{
  opened, failed, same_status, retries_supervisor, follows_device, disposes_terms, stops_election,
  detaches, fails_writes, resends_unstarted, resolves_device, SessionSettings, Session,
  StatusMessage,
}
use serial_broker.Client.Session.{emit, set_status, broadcast_status, emit_error, leave_slot}

-- `#withdraw`
abbrev pub withdraw : SessionSettings → Option ℕ → Session → Session
withdraw c holding_max_tabs s = set_status failed (
    leave_slot c (
      emit detaches (
        emit stops_election (
          emit disposes_terms (
            emit fails_writes (
              emit_error false ErrorCode.configuration_conflict (record s {
                withdrawal = some holding_max_tabs;
                has_delayed_answer = false;
                is_election_stopped = true;
              })))))))

-- `isSameResolution`
abbrev pub is_same_resolution : Option ResolvedDevice → ResolvedDevice → Bool
is_same_resolution none next = false
is_same_resolution (some non_usb) non_usb = true
is_same_resolution (some non_usb) (usb w q) = false
is_same_resolution (some (usb v p)) non_usb = false
is_same_resolution (some (usb v p)) (usb w q) = v == w && p == q

-- `resolveDevice`: whether it changes the device.
abbrev pub resolves : DeviceFilter → ResolvedDevice → Bool
resolves (auto d) next = not (is_same_resolution d next)
resolves _ next = false

abbrev pub resolve_device : ResolvedDevice → Session → Session
resolve_device next s =
    if resolves s.device next
    then emit resolves_device (record s { device = auto (some next) })
    else s

abbrev pub same_max_tabs : Option ℕ → Option ℕ → Bool
same_max_tabs none none = true
same_max_tabs (some a) (some b) = a == b
same_max_tabs _ _ = false

abbrev pub note_device : Option ResolvedDevice → Session → Session
note_device none s = s
note_device (some d) s = resolve_device d s

-- `#applyStatus`
unfoldable pub apply_status : SessionSettings → StatusMessage → Session → Session
apply_status c m s =
    if s.is_released || is_some s.withdrawal || s.is_owner
    then s
    else if not (same_max_tabs m.max_tabs c.max_tabs)
    then withdraw c m.max_tabs s
    else set_status m.status (
        if same_status m.status opened
        then emit resends_unstarted (note_device m.device s)
        else note_device m.device s)

-- `#answerStatusRequest`, with what the rate limit says.
abbrev pub answer_status_request : Bool → Session → Session
answer_status_request is_allowed s =
    if not s.is_owner
    then s
    else if is_allowed
    then broadcast_status s.status s
    else record s { has_delayed_answer = true }

-- A `status-request`, once it is believed.
abbrev pub follow_choice : Option ℕ → Option ResolvedDevice → Session → Session
follow_choice none d s = s
follow_choice (some n) none s = emit (retries_supervisor n) s
follow_choice (some n) (some d) s =
    if resolves s.device d
    then emit (follows_device n) (resolve_device d s)
    else emit (retries_supervisor n) s

unfoldable pub apply_status_request : Bool → Option ResolvedDevice → Bool → Session → Session
apply_status_request is_retry chosen is_allowed s =
    answer_status_request is_allowed (if is_retry then follow_choice s.supervisor chosen s else s)

-- The timer of a delayed answer.
unfoldable pub answer_late : Session → Session
answer_late s =
    let fired : Session = record s { has_delayed_answer = false } in
    if not s.has_delayed_answer
    then s
    else if s.is_released || not s.is_owner
    then fired
    else broadcast_status s.status fired
