-- ===== src/Outbound.antt =====
-- The outbound queue that src/libs/protobuf_comm/server.cpp (Session) and client.cpp keep under
-- `outbound_mutex_`: one write is handed to the socket at a time, later messages wait.
pub mod Fifo
mod Examples
use at_work_central_factory.Common.{
  Bool, true, false, Option, none, some, List, [], ◌∷◌, ◌++◌, if◌then◌else◌,
}

pub record Outbound {ℓ} (A : Type ℓ) : Type ℓ where
  pub queue : List A  -- outbound_queue_, oldest first
  pub active : Bool  -- outbound_active_

module _ {ℓ} {A : Type ℓ} where
  abbrev pub idle : Outbound A
  idle = record { queue = []; active = false }

  -- The end of `send`: the write to start, if none is under way.
  unfoldable pub enqueue : Outbound A → A → Outbound A × Option A
  enqueue o entry =
      if o.active
      then (record o { queue = o.queue ++ entry ∷ [] }, none)
      else (record o { active = true }, some entry)

  next_write : List A → Outbound A → Outbound A × Option A
  next_write [] o = (record o { active = false }, none)
  next_write (entry ∷ rest) o = (record o { queue = rest }, some entry)

  -- The part of `handle_write` that follows a write without error.
  unfoldable pub complete : Outbound A → Outbound A × Option A
  unfolding next_write
  complete o = next_write o.queue o
