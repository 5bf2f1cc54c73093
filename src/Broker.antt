-- ===== src/Broker.antt =====
-- apps/api/src/realtime/sse/sseBroker.ts: the queue of a connection and its writes. A flush runs up
-- to its wait for a write; frames come in between.
pub mod Queue
pub mod Order
use elitehub_vault.Base.{
  ℕ, suc, ◌+◌, ◌-◌, ◌++◌, Text, codes, decimal, text_eq, nat_eq, List, [], ◌∷◌, Option, none, some,
  Bool, true, false, ◌||◌, ltb, if◌then◌else◌, length,
}
use elitehub_vault.Contracts.{EventType, event_name}
use elitehub_vault.Contracts.Payloads.{Payload}
use elitehub_vault.Registry.{matches_system_id_filter}

abbrev pub max_queue_messages : ℕ
max_queue_messages = 200

abbrev pub max_queue_bytes : ℕ
max_queue_bytes = 1048576

unfoldable pub create_sse_event_frame : EventType → ℕ → Text → Text
unfolding decimal
create_sse_event_frame event_type event_id data_text =
    codes "id: "
    ++ (decimal event_id
        ++ (codes "\nevent: "
            ++ (event_name event_type ++ (codes "\ndata: " ++ (data_text ++ codes "\n\n")))))

-- The part of `SseConnection` that the queue needs, `writableEnded` of its response, and the frames that
-- `writeFrame` has written to it.
pub record Connection : Type 0 where
  pub system_id_allowlist : Option (List Text)
  pub queue : List Text
  pub queued_bytes : ℕ
  pub is_flushing : Bool
  pub is_closed : Bool
  pub writable_ended : Bool
  pub next_event_id : ℕ
  pub handed : List Text

-- The effect of `cleanupConnection` on a connection that is open, where `end` of the response does not
-- throw.
unfoldable pub close_connection : Connection → Connection
close_connection c = record c {
  is_closed = true;
  queue = [];
  queued_bytes = 0;
  writable_ended = true;
}

unfoldable pub cleanup_connection : Connection → Connection
unfolding close_connection
cleanup_connection c = if c.is_closed then c else close_connection c

-- What happens to a connection. `ends` is an `end` of its response by others, such as the lease heartbeat.
pub data Traffic : Type 0 where
  sends : Text → Traffic
  writes : Bool → Traffic
  closes ends : Traffic

-- `byte_length` is `Buffer.byteLength` for UTF-8.
module _ (byte_length : Text → ℕ) where
  -- The loop of `flushConnectionQueue` up to its next wait, over the queue: an empty frame is passed
  -- over; without a frame the flush is over. `writeFrame` drops a frame where the response has ended.
  unfoldable pub next_write : List Text → Connection → Connection
  next_write [] c = record c { queue = []; is_flushing = false }
  next_write ([] ∷ queue) c = next_write queue c
  next_write ((x ∷ frame) ∷ queue) c = record c {
    queue = queue;
    queued_bytes = c.queued_bytes - byte_length (x ∷ frame);
    is_flushing = true;
    handed = if c.writable_ended then c.handed else c.handed ++ ((x ∷ frame) ∷ []);
  }

  unfoldable pub flush_connection_queue : Connection → Connection
  unfolding next_write
  flush_connection_queue c = if c.is_closed || c.is_flushing then c else next_write c.queue c

  unfoldable pub enqueue_raw_frame : Text → Connection → Connection
  unfolding close_connection flush_connection_queue
  enqueue_raw_frame frame c =
      let pushed = record c {
        queue = c.queue ++ (frame ∷ []);
        queued_bytes = c.queued_bytes + byte_length frame;
      } in
      if c.is_closed
      then c
      else if ltb max_queue_messages (length c.queue + 1)
          || ltb max_queue_bytes (c.queued_bytes + byte_length frame)
      then close_connection c
      else flush_connection_queue pushed

  -- Behind the wait for a write: it has gone through or was dropped, or it failed or took too long.
  unfoldable pub after_write : Bool → Connection → Connection
  unfolding next_write cleanup_connection
  after_write ok c =
      if ok
      then (if c.is_closed then record c { is_flushing = false } else next_write c.queue c)
      else record (cleanup_connection c) { is_flushing = false }

  -- The body of the loop of `routeEvent`, with the text of `toSseData`.
  unfoldable pub route_to_connection :
      {J N : Type 0} → EventType → Payload J N → Text → Connection → Connection
  unfolding matches_system_id_filter create_sse_event_frame enqueue_raw_frame
  route_to_connection event_type payload data_text c =
      if c.is_closed
      then c
      else if matches_system_id_filter c.system_id_allowlist payload
      then enqueue_raw_frame (create_sse_event_frame event_type c.next_event_id data_text)
          (record c { next_event_id = c.next_event_id + 1 })
      else c

  -- A write ends only where a flush waits for it.
  unfoldable pub handle : Traffic → Connection → Connection
  unfolding enqueue_raw_frame after_write cleanup_connection
  handle (sends frame) c = enqueue_raw_frame frame c
  handle (writes ok) c = if c.is_flushing then after_write ok c else c
  handle closes c = cleanup_connection c
  handle ends c = record c { writable_ended = true }

  unfoldable pub handle_all : List Traffic → Connection → Connection
  unfolding handle
  handle_all [] c = c
  handle_all (e ∷ es) c = handle_all es (handle e c)
