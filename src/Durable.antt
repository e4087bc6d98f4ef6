-- ===== src/Durable.antt =====
-- internal/durable/file.go: one locked read, modify and replace of a JSON file.
use gopherharness.Base.{Option, none, some}
pub mod Atomic
pub mod Rename
pub mod Refined
mod Tests

-- What the file system does for one transaction: it refuses before the callback runs (lock,
-- directory, read or decoding), or lets it run and then the replacement is lost, is made without
-- its directory being synced, or is made.
pub data Disk : Type 0 where
  blocked lost unsynced healthy : Disk

-- What the callback decides: an error, or a new value together with what it hands out.
pub data Verdict (E A T : Type 0) : Type 0 where
  refuse : E → Verdict E A T
  accept : A → T → Verdict E A T

pub data Fault (E : Type 0) : Type 0 where
  disk_error : Fault E
  refused : E → Fault E

-- What a caller of `Update` sees: its error, what the callback handed out, and the file.
pub record Outcome (E A T : Type 0) : Type 0 where
  pub failure : Option (Fault E)
  pub out : Option A
  pub file : Option T

-- A file that does not exist decodes to the zero value.
abbrev pub current : {T : Type 0} → T → Option T → T
current zero_value none = zero_value
current zero_value (some t) = t

-- `Read`: the same transaction without its replacement.
unfoldable pub read : {T : Type 0} → T → Disk → Option T → Option T
read zero_value blocked f = none
read zero_value lost f = some (current zero_value f)
read zero_value unsynced f = some (current zero_value f)
read zero_value healthy f = some (current zero_value f)

module _ {E A T : Type 0} where
  -- The steps after the callback: its error ends the transaction, else the file is replaced.
  abbrev pub replace : Verdict E A T → Disk → Option T → Outcome E A T
  replace (refuse e) d f = record { failure = some (refused e); out = none; file = f }
  replace (accept a t) blocked f = record { failure = some disk_error; out = some a; file = f }
  replace (accept a t) lost f = record { failure = some disk_error; out = some a; file = f }
  replace (accept a t) unsynced f = record {
    failure = some disk_error;
    out = some a;
    file = some t;
  }
  replace (accept a t) healthy f = record { failure = none; out = some a; file = some t }

  unfoldable pub update : T → (T → Verdict E A T) → Disk → Option T → Outcome E A T
  update zero_value fn blocked f = record { failure = some disk_error; out = none; file = f }
  update zero_value fn lost f = replace (fn (current zero_value f)) lost f
  update zero_value fn unsynced f = replace (fn (current zero_value f)) unsynced f
  update zero_value fn healthy f = replace (fn (current zero_value f)) healthy f
