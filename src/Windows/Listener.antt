-- ===== src/Windows/Listener.antt =====
-- The queue of requests between the functions of kernel/window_sys.c and its listener process: a ring
-- under a spin lock, which a full ring leaves locked. The processes take turns at any point, so each
-- statement of the enqueue and the dequeue function that reads or writes the ring is a step; the update
-- of one variable is not divided. The early returns of the enqueue function, before the system is
-- initialised and when the listener's own process asks while the lock is held, change nothing and are
-- no steps.
pub mod Contents
pub mod Invariant
pub mod Outside
pub mod Sending
pub mod Receiving
pub mod Fifo
pub mod Deadlock
mod Race
mod Tests
use osdev_graphical.Base.{
  ℕ, zero, suc, ◌+◌, ◌-◌, ◌%◌, ◌<◌, ◌≡◌, ◌≢◌, Bool, true, false, List, [], ◌∷◌, ◌++◌, if◌then◌else◌,
  ◌==◌, ltb,
}

pub record WinsysOp : Type 0 where
  pub op : ℕ
  pub wid : ℕ
  pub x : ℕ
  pub y : ℕ
  pub w : ℕ
  pub h : ℕ

abbrev pub winsys_queue_size : ℕ
winsys_queue_size = 20

-- `winsys_queue`, `winsys_queue_start`, `winsys_queue_end`, `winsys_queue_index`, and whether
-- `winsys_queue_lock` is held.
pub record Ring : Type 0 where
  pub ops : ℕ → WinsysOp
  pub start : ℕ
  pub end : ℕ
  pub index : ℕ
  pub locked : Bool

-- `acquireLock`, which waits until the lock is free, and `releaseLock`.
pub set_lock : Bool → Ring → Ring
set_lock held r = record r { locked = held }

-- The statements of `winsys_enqueue_to_winsys_listener` under the lock.
pub store : WinsysOp → Ring → Ring
store operation r = record r { ops = λ j. if j == r.end then operation else r.ops j }

pub advance_end : Ring → Ring
advance_end r = record r { end = (r.end + 1) % winsys_queue_size }

pub count : Ring → Ring
count r = record r { index = r.index + 1 }

-- The statements of `winsys_dequeue_from_winsys_listener` behind its test of the index.
pub take : Ring → WinsysOp
take r = r.ops r.start

pub advance_start : Ring → Ring
advance_start r = record r { start = (r.start + 1) % winsys_queue_size }

pub uncount : Ring → Ring
uncount r = record r { index = r.index - 1 }

-- Where a process stands in the enqueue function: outside it or waiting for the lock; with the lock;
-- behind the store, the new end and the new index; and behind a test that found room, with the lock to
-- give back.
pub data Sender : Type 0 where
  idle : Sender
  holding : WinsysOp → Sender
  stored : WinsysOp → Sender
  advanced : WinsysOp → Sender
  counted : Sender
  leaving : Sender

-- Where the listener stands: it waits for a request; it has seen one; it has found the ring not full and
-- is to take the lock; it is behind the lock, or goes on without it; behind the read of the slot, the
-- new start and the new index.
pub data Phase : Type 0 where
  waiting : Phase
  awake : Phase
  to_lock : Phase
  inside : Phase
  taken : WinsysOp → Phase
  moved : WinsysOp → Phase
  lowered : Phase

-- The system, with a sender for each process, the requests that were counted and those that the
-- listener has taken off the count, in order.
pub record System : Type 0 where
  pub ring : Ring
  pub senders : ℕ → Sender
  pub phase : Phase
  pub sent : List WinsysOp
  pub received : List WinsysOp

-- `senders` with process `i` standing elsewhere.
abbrev pub stands : (ℕ → Sender) → ℕ → Sender → ℕ → Sender
stands senders i x j = if j == i then x else senders j

-- One statement of one process.
pub data Step : System → System → Type 0 where
  enter :
      (s : System) (i : ℕ) (operation : WinsysOp)
      → s.senders i ≡ idle
      → s.ring.locked ≡ false
      → Step s (record s {
        ring = set_lock true s.ring;
        senders = stands s.senders i (holding operation);
      })
  put_slot :
      (s : System) (i : ℕ) (operation : WinsysOp)
      → s.senders i ≡ holding operation
      → Step s (record s {
        ring = store operation s.ring;
        senders = stands s.senders i (stored operation);
      })
  move_end :
      (s : System) (i : ℕ) (operation : WinsysOp)
      → s.senders i ≡ stored operation
      → Step s (record s {
        ring = advance_end s.ring;
        senders = stands s.senders i (advanced operation);
      })
  add :
      (s : System) (i : ℕ) (operation : WinsysOp)
      → s.senders i ≡ advanced operation
      → Step s (record s {
        ring = count s.ring;
        senders = stands s.senders i counted;
        sent = s.sent ++ (operation ∷ []);
      })
  check :
      (s : System) (i : ℕ)
      → s.senders i ≡ counted
      → Step s (record s {
        senders = stands s.senders i (if ltb s.ring.index winsys_queue_size then leaving else idle);
      })
  leave :
      (s : System) (i : ℕ)
      → s.senders i ≡ leaving
      → Step s (record s { ring = set_lock false s.ring; senders = stands s.senders i idle })
  wake : (s : System) → s.phase ≡ waiting → s.ring.index ≢ 0 → Step s (record s { phase = awake })
  test :
      (s : System)
      → s.phase ≡ awake
      → Step s (record s { phase = if ltb s.ring.index winsys_queue_size then to_lock else inside })
  lock :
      (s : System)
      → s.phase ≡ to_lock
      → s.ring.locked ≡ false
      → Step s (record s { phase = inside; ring = set_lock true s.ring })
  get_slot : (s : System) → s.phase ≡ inside → Step s (record s { phase = taken (take s.ring) })
  move_start :
      (s : System) (operation : WinsysOp)
      → s.phase ≡ taken operation
      → Step s (record s { phase = moved operation; ring = advance_start s.ring })
  subtract :
      (s : System) (operation : WinsysOp)
      → s.phase ≡ moved operation
      → Step s (record s {
        phase = lowered;
        ring = uncount s.ring;
        received = s.received ++ (operation ∷ []);
      })
  release :
      (s : System)
      → s.phase ≡ lowered
      → Step s (record s { phase = waiting; ring = set_lock false s.ring })

pub data Reach (s : System) : System → Type 0 where
  here : Reach s s
  next : {t u : System} → Reach s t → Step t u → Reach s u

-- The static initial values.
abbrev pub start_ring : (ℕ → WinsysOp) → Ring
start_ring ops = record { ops = ops; start = 0; end = 0; index = 0; locked = false }

abbrev pub start_system : (ℕ → WinsysOp) → System
start_system ops = record {
  ring = start_ring ops;
  senders = λ i. idle;
  phase = waiting;
  sent = [];
  received = [];
}
