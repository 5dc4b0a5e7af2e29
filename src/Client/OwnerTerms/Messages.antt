-- ===== src/Client/OwnerTerms/Messages.antt =====
-- src/client/owner-terms.ts: what the messages say of terms, as far as `authorize` reads them, and the
-- answer of `#isEndingCleanly`. The last number of a message stands for the rest of it.
use serial_broker.Prelude.{
  ℕ, Bool, true, false, ◌&&◌, ◌||◌, Option, none, some, List, [], ◌∷◌, ◌==◌, Text, text_eq,
}

pub record TermClaim : Type 0 where
  pub term : ℕ
  pub from : ℕ
  pub max_tabs : ℕ

unfoldable pub is_same_claim : TermClaim → TermClaim → Bool
is_same_claim known claim = known.from == claim.from && known.max_tabs == claim.max_tabs

pub data Message : Type 0 where
  -- `owner-claimed`, `status`
  speaks_for_owner : TermClaim → ℕ → Message
  -- `owner-released`: its term and its sender
  releases : ℕ → ℕ → Message
  -- `write-ready`, `write-result`
  answers : Option ℕ → ℕ → ℕ → Message
  -- `data-received`, `data-sent`, `error`
  carries_device_data : ℕ → ℕ → Message
  -- anything else
  speaks_for_writer : ℕ → Message

pub data LockMode : Type 0 where
  exclusive shared : LockMode

pub record LockInfo : Type 0 where
  pub name : Text
  pub mode : Option LockMode

abbrev is_exclusive : Option LockMode → Bool
is_exclusive none = true
is_exclusive (some exclusive) = true
is_exclusive (some shared) = false

abbrev is_queued : Text → List LockInfo → Bool
is_queued name [] = false
is_queued name (lock ∷ locks) =
    (text_eq lock.name name && is_exclusive lock.mode) || is_queued name locks

-- What asking the browser for its locks gave: it cannot list them, it failed or was late, or it
-- listed the requests that wait, if it lists any.
pub data LockQuery : Type 0 where
  unsupported failed : LockQuery
  listed : Option (List LockInfo) → LockQuery

pub is_ending_cleanly : Text → LockQuery → Bool
is_ending_cleanly name unsupported = false
is_ending_cleanly name failed = false
is_ending_cleanly name (listed none) = false
is_ending_cleanly name (listed (some pending)) = is_queued name pending
