-- ===== src/Broker/Queue.antt =====
-- apps/api/src/realtime/sse/sseBroker.ts: the bounds of a connection's queue.
use elitehub_vault.Base.{
  ℕ, ◌+◌, ◌≤◌, ◌++◌, Text, nat_eq, List, [], ◌∷◌, Bool, true, false, ◌||◌, ◌≡◌, refl, arith, ltb,
  if◌then◌else◌, length, length-append,
}
use elitehub_vault.Broker.{
  max_queue_messages, max_queue_bytes, Connection, close_connection, cleanup_connection, next_write,
  flush_connection_queue, enqueue_raw_frame, after_write, Traffic, sends, writes, closes, ends,
  handle, handle_all,
}

module _ (byte_length : Text → ℕ) where
  unfoldable pub total_bytes : List Text → ℕ
  total_bytes [] = 0
  total_bytes (frame ∷ queue) = byte_length frame + total_bytes queue

  total_bytes-append :
      (xs ys : List Text) → total_bytes (xs ++ ys) ≡ total_bytes xs + total_bytes ys
  unfolding total_bytes
  total_bytes-append [] ys = omega arith
  total_bytes-append (frame ∷ xs) ys = omega (arith, total_bytes-append xs ys)

  -- The bytes are those of the frames in the queue, both bounds hold, and frames wait only behind a
  -- write.
  pub record IsBounded (c : Connection) : Type 0 where
    pub bytes : c.queued_bytes ≡ total_bytes c.queue
    pub max_bytes : c.queued_bytes ≤ max_queue_bytes
    pub max_messages : length c.queue ≤ max_queue_messages
    pub flushed : c.is_flushing ≡ false → c.queue ≡ []
    pub emptied : c.is_closed ≡ true → c.queue ≡ []

  next_write-IsBounded :
      (queue : List Text) (c : Connection)
      → byte_length [] ≡ 0
      → c.is_closed ≡ false
      → c.queued_bytes ≡ total_bytes queue
      → c.queued_bytes ≤ max_queue_bytes
      → length queue ≤ max_queue_messages
      → IsBounded (next_write byte_length queue c)
  unfolding next_write total_bytes
  next_write-IsBounded [] c z o b m l = record {
    bytes = b;
    max_bytes = m;
    max_messages = omega arith;
    flushed = λ e. refl;
    emptied = λ e. refl;
  }
  next_write-IsBounded ([] ∷ queue) c z o b m l =
      next_write-IsBounded queue c z o (omega (arith, z, b)) m (omega (arith, l))
  next_write-IsBounded ((x ∷ frame) ∷ queue) c z o b m l = record {
    bytes = omega (arith, b);
    max_bytes = omega (arith, m);
    max_messages = omega (arith, l);
    flushed = λ e. absurd (ground (arith, e));
    emptied = λ e. absurd (ground (arith, e, o));
  }

  closed-IsBounded : (c : Connection) → IsBounded (close_connection c)
  unfolding close_connection total_bytes
  closed-IsBounded c = record {
    bytes = refl;
    max_bytes = omega arith;
    max_messages = omega arith;
    flushed = λ e. refl;
    emptied = λ e. refl;
  }

  -- A test decides between two connections that are both bounded.
  if-IsBounded :
      (b : Bool) (c d : Connection)
      → (b ≡ true → IsBounded c)
      → (b ≡ false → IsBounded d)
      → IsBounded (if b then c else d)
  if-IsBounded true c d h g = h refl
  if-IsBounded false c d h g = g refl

  cleanup-IsBounded : (c : Connection) → IsBounded c → IsBounded (cleanup_connection c)
  unfolding cleanup_connection
  cleanup-IsBounded c h =
      if-IsBounded c.is_closed c (close_connection c) (λ e. h) (λ e. closed-IsBounded c)

  -- The connection with a frame put behind its queue.
  abbrev pushed : Text → Connection → Connection
  pushed frame c = record c {
    queue = c.queue ++ (frame ∷ []);
    queued_bytes = c.queued_bytes + byte_length frame;
  }

  flush-IsBounded :
      (frame : Text) (c : Connection)
      → byte_length [] ≡ 0
      → c.is_closed ≡ false
      → IsBounded c
      → length c.queue + 1 ≤ max_queue_messages
      → c.queued_bytes + byte_length frame ≤ max_queue_bytes
      → IsBounded (flush_connection_queue byte_length (pushed frame c))
  unfolding flush_connection_queue total_bytes
  flush-IsBounded frame c z o h l m =
      let bytes : c.queued_bytes + byte_length frame ≡ total_bytes (c.queue ++ (frame ∷ [])) =
        omega (arith, total_bytes-append c.queue (frame ∷ []), h.bytes) in
      let fits : length (c.queue ++ (frame ∷ [])) ≤ max_queue_messages =
        omega (arith, length-append c.queue (frame ∷ []), l) in
      if-IsBounded (c.is_closed || c.is_flushing) (pushed frame c)
        (next_write byte_length (c.queue ++ (frame ∷ [])) (pushed frame c))
        (λ e. record {
          bytes = bytes;
          max_bytes = m;
          max_messages = fits;
          flushed = λ f. absurd (ground (arith, e, f, o));
          emptied = λ f. absurd (ground (arith, f, o));
        })
        (λ e. next_write-IsBounded (c.queue ++ (frame ∷ [])) (pushed frame c) z o bytes m fits)

  enqueue-IsBounded :
      (frame : Text) (c : Connection)
      → byte_length [] ≡ 0
      → IsBounded c
      → IsBounded (enqueue_raw_frame byte_length frame c)
  unfolding enqueue_raw_frame
  enqueue-IsBounded frame c z h =
      let over =
        ltb max_queue_messages (length c.queue + 1)
        || ltb max_queue_bytes (c.queued_bytes + byte_length frame) in
      if-IsBounded c.is_closed c
        (if over then close_connection c else flush_connection_queue byte_length (pushed frame c))
        (λ e. h)
        (λ o.
          if-IsBounded over (close_connection c)
            (flush_connection_queue byte_length (pushed frame c)) (λ e. closed-IsBounded c)
            (λ e. flush-IsBounded frame c z o h (ground (arith, e)) (ground (arith, e))))

  cleanup_empties : (c : Connection) → IsBounded c → (cleanup_connection c).queue ≡ []
  unfolding cleanup_connection close_connection
  cleanup_empties c h = ground (arith, h.emptied)

  after_write-IsBounded :
      (ok : Bool) (c : Connection)
      → byte_length [] ≡ 0
      → IsBounded c
      → IsBounded (after_write byte_length ok c)
  unfolding after_write
  after_write-IsBounded true c z h =
      if-IsBounded c.is_closed (record c { is_flushing = false }) (next_write byte_length c.queue c)
        (λ o. record {
          bytes = h.bytes;
          max_bytes = h.max_bytes;
          max_messages = h.max_messages;
          flushed = λ f. h.emptied o;
          emptied = h.emptied;
        })
        (λ o. next_write-IsBounded c.queue c z o h.bytes h.max_bytes h.max_messages)
  after_write-IsBounded false c z h =
      let clean = cleanup-IsBounded c h in
      record {
        bytes = clean.bytes;
        max_bytes = clean.max_bytes;
        max_messages = clean.max_messages;
        flushed = λ f. cleanup_empties c h;
        emptied = clean.emptied;
      }

  handle-IsBounded :
      (e : Traffic) (c : Connection)
      → byte_length [] ≡ 0
      → IsBounded c
      → IsBounded (handle byte_length e c)
  unfolding handle
  handle-IsBounded (sends frame) c z h = enqueue-IsBounded frame c z h
  handle-IsBounded (writes ok) c z h =
      if-IsBounded c.is_flushing (after_write byte_length ok c) c
        (λ e. after_write-IsBounded ok c z h) (λ e. h)
  handle-IsBounded closes c z h = cleanup-IsBounded c h
  handle-IsBounded ends c z h = record {
    bytes = h.bytes;
    max_bytes = h.max_bytes;
    max_messages = h.max_messages;
    flushed = h.flushed;
    emptied = h.emptied;
  }

  -- Where the empty text has no bytes: whatever is sent to a connection and however its writes end,
  -- its queue never holds more than 200 frames or 1048576 bytes, the bytes are counted right, frames
  -- wait only behind a write, and a closed connection keeps none.
  pub handle_all-IsBounded :
      (es : List Traffic) (c : Connection)
      → byte_length [] ≡ 0
      → IsBounded c
      → IsBounded (handle_all byte_length es c)
  unfolding handle_all
  handle_all-IsBounded [] c z h = h
  handle_all-IsBounded (e ∷ es) c z h =
      handle_all-IsBounded es (handle byte_length e c) z (handle-IsBounded e c z h)
