-- ===== src/Lib.antt =====
-- Verification of serial-broker: the parts that decide when bytes may be written to a shared port.
--
-- The program lets every tab of an origin use one serial port. One tab, the owner, holds the port; a
-- tab that writes keeps the write in `PendingWrites` (src/client/pending-writes.ts), hands it to the
-- term of ownership it believes in, and lets that term begin it at most once. The owner keeps what
-- it has accepted in `AcceptedWrites` (src/client/accepted-writes.ts) and performs it through its
-- `WriteQueue` (src/owner/write-queue.ts).
--
-- Prelude: shared names, Boolean tests, lists, tables (a `Map` in insertion order), texts (a string
-- as its code units).
-- Core/Errors: src/core/error-codes.ts and src/core/errors.ts, codes and the error record.
-- Client/Deadline: `scheduleDeadline` of src/client/pending-writes.ts.
-- Client/PendingWrites: the class `PendingWrites`, one definition for each method.
-- Client/AcceptedWrites: the class `AcceptedWrites`.
-- Owner/WriteQueue: the class `WriteQueue`.
-- Owner/ReceiveBuffer: the class `ReceiveBuffer` of src/owner/receive-buffer.ts.
-- Client/OwnerTerms: the class `OwnerTerms` of src/client/owner-terms.ts, which decides what a tab
-- believes about the port. `trim` is the loop of `#remember`, given as many rounds as there are
-- terms, which is enough since each round forgets one.
-- Client/Session: the class `ConfigurationSession` of src/client/configuration-session.ts without its
-- writes. Its messages are in Inbox, the state in State, histories and their invariant in Order,
-- Keeps, Steps, Ends and Histories; Over and Silence are about a session that is released, Release about
-- how a release ends, Kept and Terms about what becomes of the term.
-- Client/Session/Writes: the way of a write through the same class to the port of the tab, and back,
-- together with the session, its accepted writes (Client/AcceptedWrites) and the questions it has asked.
-- Every step of the session is a step there too, so that a term that ends begins a new record.
-- Client/TabSlot: the class `TabSlot` of src/client/tab-slot.ts, from the gate on.
-- Worker/Broker: the class `Broker` of src/worker/broker.ts.
-- Core/HeldLock: the class `HeldLock` of src/core/held-lock.ts. Owner/Election: the class
-- `OwnershipElection` of src/owner/election.ts on it, for one tab.
-- Core/Backoff: the class `BackoffState` of src/core/backoff.ts.
-- Core/Emitter: the class `EventEmitter` of src/core/emitter.ts, with what a listener does as a
-- parameter.
-- Owner/PortSupervisor: the class `PortSupervisor` of src/owner/port-supervisor.ts without the path of
-- a write, of which only the loss that a rejected one causes is here. Its states and fields are in
-- State, its methods up to their first `await` in PortSupervisor.antt, what they do afterwards in
-- Resume, histories in Run. The proofs are by one invariant (Invariant), kept by attempts (Begins) and
-- losses (Attempts), calls (Calls), the platform (Platform), stops (Stops) and what settles (Settles,
-- Connects, Opens). The generation that the code compares after an `await` is the key of what is
-- awaited.
--
-- Owner/PortWrite: a write of the same class, from `#write` to the end of its chunks; the loop over the
-- chunks is one step for each chunk. Owner/Unanswered: what waits at the port and what is refused.
-- Owner/PortMatcher: src/owner/port-matcher.ts and the device filters of src/core/defaults.ts.
--
-- Not modelled: how the supervisor closes a port step by step, the requests of a port from the user, the
-- client that keeps the sessions, the transports and storage, which wrap the browser; validation of
-- untyped input, diagnostics and logs.
--
-- A history of the supervisor lets a return of `#findPort` or `#open` be taken up at once. A close is
-- begun and ends, and the model does not say how. Of the locks of the browser, TabSlot and Election say
-- only when a request is granted, refused or withdrawn, and when it settles, for one tab. A history of a
-- session lets the election give it the port once it has joined and while the election is not stopped. A
-- listener that is told of a status in the middle of `#join`, `#startTerm` or a write's end and calls the
-- session from there is taken to call it after that operation.
--
-- How the code is read. Identifiers that the code only compares with `===` are numbers; readings of a
-- clock and durations are numbers of milliseconds. Everything a callback does is an event appended to
-- the field `trace`, newest first, which no operation reads. A callback that the code calls as the
-- last thing of an operation may call back in at once: that is an operation that follows. What a
-- timer, a microtask or a promise reaction runs later is an operation of its own, and a history is
-- a list of calls in any order. Every other loop is by recursion on the list it walks, so none has fuel.
-- An error keeps its code and the context fields that the code under study sets; its texts and its
-- cause are left out.
mod Prelude
pub mod Core
pub mod Client
pub mod Owner
pub mod Worker
