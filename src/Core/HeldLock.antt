-- ===== src/Core/HeldLock.antt =====
-- src/core/held-lock.ts: the class `HeldLock`. What the browser does with the request, and what `hold`
-- comes to, are operations; the reactions to its end are two, as in the code: `.then` and `.finally`.
-- Once the lock is stopped its signal of release is resolved and its request aborted.
use serial_broker.Prelude.{Bool, true, false, ◌||◌, if◌then◌else◌}

pub data Outcome : Type 0 where
  returned aborted refused : Outcome

-- `settled` waits for `.then`, `ends` for `.finally`.
pub data LockRequest : Type 0 where
  no_request waits holds ends : LockRequest
  settled : Outcome → LockRequest

pub record HeldLock : Type 0 where
  pub is_stopped : Bool
  pub request : LockRequest
  pub has_retry : Bool

abbrev pub new_lock : HeldLock
new_lock = record { is_stopped = false; request = no_request; has_retry = false }

abbrev is_requested : LockRequest → Bool
is_requested no_request = false
is_requested _ = true

abbrev pub starts_now : HeldLock → Bool
starts_now l = if l.is_stopped || is_requested l.request then false else true

abbrev pub start_lock : HeldLock → HeldLock
start_lock l = if starts_now l then record l { request = waits } else l

-- The callback of a request that is granted.
abbrev pub grant_lock : HeldLock → HeldLock
grant_lock l =
    if l.is_stopped then record l { request = settled returned } else record l { request = holds }

abbrev pub settle_lock : Outcome → HeldLock → HeldLock
settle_lock outcome l = record l { request = settled outcome }

abbrev pub fails_lock : Outcome → HeldLock → Bool
fails_lock refused l = if l.is_stopped then false else true
fails_lock _ l = false

abbrev pub react_lock : Outcome → HeldLock → HeldLock
react_lock outcome l =
    if fails_lock outcome l
    then record l { request = ends; has_retry = true }
    else record l { request = ends }

abbrev pub finish_lock : HeldLock → HeldLock
finish_lock l = record l { request = no_request }

abbrev pub retry_lock : HeldLock → HeldLock
retry_lock l = start_lock (record l { has_retry = false })

abbrev pub stop_lock : HeldLock → HeldLock
stop_lock l = if l.is_stopped then l else record l { is_stopped = true; has_retry = false }
