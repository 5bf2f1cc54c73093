-- ===== src/Broker/Order.antt =====
-- apps/api/src/realtime/sse/sseBroker.ts: the order of a connection's frames.
use elitehub_vault.Base.{
  ℕ, ◌+◌, ◌++◌, Text, nat_eq, List, [], ◌∷◌, Bool, true, false, ◌||◌, ◌≡◌, refl, sym, ap, ◌∙◌,
  arith, ltb, if◌then◌else◌, length,
}
use mathlib.Core.List.{append_assoc, append-nil}
use elitehub_vault.Broker.{
  max_queue_messages, max_queue_bytes, Connection, close_connection, cleanup_connection, next_write,
  flush_connection_queue, enqueue_raw_frame, after_write, Traffic, sends, writes, closes, ends,
  handle, handle_all,
}

-- The frames that are not empty.
abbrev pub filled : List Text → List Text
filled [] = []
filled ([] ∷ frames) = filled frames
filled ((x ∷ frame) ∷ frames) = (x ∷ frame) ∷ filled frames

filled-append : (xs ys : List Text) → filled (xs ++ ys) ≡ filled xs ++ filled ys
filled-append [] ys = refl
filled-append ([] ∷ xs) ys = filled-append xs ys
filled-append ((x ∷ frame) ∷ xs) ys = ap (λ zs. (x ∷ frame) ∷ zs) (filled-append xs ys)

-- What was written to the response, and behind it what waits.
abbrev pub stream : Connection → List Text
stream c = c.handed ++ filled c.queue

-- The frames that are sent to a connection.
abbrev pub frames_of : List Traffic → List Text
frames_of [] = []
frames_of (sends frame ∷ es) = frame ∷ frames_of es
frames_of (e ∷ es) = frames_of es

module _ (byte_length : Text → ℕ) where
  next_write-stream :
      (queue : List Text) (c : Connection)
      → c.writable_ended ≡ false
      → stream (next_write byte_length queue c) ≡ c.handed ++ filled queue
  unfolding next_write
  next_write-stream [] c w = refl
  next_write-stream ([] ∷ queue) c w = next_write-stream queue c w
  next_write-stream ((x ∷ frame) ∷ queue) c w =
      rw w (append_assoc c.handed ((x ∷ frame) ∷ []) (filled queue))

  next_write_closed :
      (queue : List Text) (c : Connection)
      → ((next_write byte_length queue c).is_closed ≡ c.is_closed)
        × ((next_write byte_length queue c).writable_ended ≡ c.writable_ended)
  unfolding next_write
  next_write_closed [] c = (refl, refl)
  next_write_closed ([] ∷ queue) c = next_write_closed queue c
  next_write_closed ((x ∷ frame) ∷ queue) c = (refl, refl)

  -- Either the connection is closed or its response ended behind an event, or its stream has grown by what was sent.
  abbrev Grows : Traffic → Connection → Connection → Type 0
  Grows e c d =
      d.is_closed ≡ false
      → d.writable_ended ≡ false
      → (c.is_closed ≡ false)
        × (c.writable_ended ≡ false)
        × (stream d ≡ stream c ++ filled (frames_of (e ∷ [])))

  if-Grows :
      (e : Traffic) (c : Connection) (b : Bool) (d d' : Connection)
      → (b ≡ true → Grows e c d)
      → (b ≡ false → Grows e c d')
      → Grows e c (if b then d else d')
  if-Grows e c true d d' h g = h refl
  if-Grows e c false d d' h g = g refl

  -- The connection with a frame put behind its queue.
  abbrev pushed : Text → Connection → Connection
  pushed frame c = record c {
    queue = c.queue ++ (frame ∷ []);
    queued_bytes = c.queued_bytes + byte_length frame;
  }

  pushed-stream :
      (frame : Text) (c : Connection)
      → c.handed ++ filled (c.queue ++ (frame ∷ [])) ≡ stream c ++ filled (frame ∷ [])
  pushed-stream frame c =
      ap (λ q. c.handed ++ q) (filled-append c.queue (frame ∷ []))
      ∙ sym (append_assoc c.handed (filled c.queue) (filled (frame ∷ [])))

  flush-Grows :
      (frame : Text) (c : Connection)
      → Grows (sends frame) c (flush_connection_queue byte_length (pushed frame c))
  unfolding flush_connection_queue
  flush-Grows frame c =
      if-Grows (sends frame) c (c.is_closed || c.is_flushing) (pushed frame c)
        (next_write byte_length (c.queue ++ (frame ∷ [])) (pushed frame c))
        (λ e o w. (o, w, pushed-stream frame c))
        (λ e o w.
          let same = next_write_closed (c.queue ++ (frame ∷ [])) (pushed frame c) in
          let open_still = sym same.1 ∙ w in
          (
            sym same.0 ∙ o,
            open_still,
            next_write-stream (c.queue ++ (frame ∷ [])) (pushed frame c) open_still
                ∙ pushed-stream frame c,
          ))

  after_write-Grows :
      (ok : Bool) (c : Connection) → Grows (writes ok) c (after_write byte_length ok c)
  unfolding after_write cleanup_connection close_connection
  after_write-Grows true c =
      if-Grows (writes true) c c.is_closed (record c { is_flushing = false })
        (next_write byte_length c.queue c) (λ e o w. (o, w, sym (append-nil (stream c))))
        (λ e o w.
          let open_still = sym (next_write_closed c.queue c).1 ∙ w in
          (e, open_still, next_write-stream c.queue c open_still ∙ sym (append-nil (stream c))))
  after_write-Grows false c = λ o w. absurd (ground (arith, o))

  handle-Grows : (e : Traffic) (c : Connection) → Grows e c (handle byte_length e c)
  unfolding handle cleanup_connection close_connection enqueue_raw_frame
  handle-Grows (sends frame) c =
      let over =
        ltb max_queue_messages (length c.queue + 1)
        || ltb max_queue_bytes (c.queued_bytes + byte_length frame) in
      if-Grows (sends frame) c c.is_closed c
        (if over then close_connection c else flush_connection_queue byte_length (pushed frame c))
        (λ e o w. absurd (ground (arith, e, o)))
        (λ e.
          if-Grows (sends frame) c over (close_connection c)
            (flush_connection_queue byte_length (pushed frame c))
            (λ q o w. absurd (ground (arith, o))) (λ q. flush-Grows frame c))
  handle-Grows (writes ok) c =
      if-Grows (writes ok) c c.is_flushing (after_write byte_length ok c) c
        (λ e. after_write-Grows ok c) (λ e o w. (o, w, sym (append-nil (stream c))))
  handle-Grows closes c = λ o w. absurd (ground (arith, o))
  handle-Grows ends c = λ o w. absurd (ground (arith, w))

  frames_of-append :
      (e : Traffic) (es : List Traffic)
      → filled (frames_of (e ∷ es)) ≡ filled (frames_of (e ∷ [])) ++ filled (frames_of es)
  frames_of-append (sends frame) es = filled-append (frame ∷ []) (frames_of es)
  frames_of-append (writes ok) es = refl
  frames_of-append closes es = refl
  frames_of-append ends es = refl

  -- A connection that is open behind any events, with a response that has not ended, was so before them,
  -- and has had every frame that was sent to it and is not empty: what was handed to the write of its
  -- response and what waits, in that order, are what was there before and then those frames, none lost,
  -- doubled or out of order.
  pub open_connection_has_all :
      (es : List Traffic) (c : Connection)
      → (handle_all byte_length es c).is_closed ≡ false
      → (handle_all byte_length es c).writable_ended ≡ false
      → (c.is_closed ≡ false)
        × (c.writable_ended ≡ false)
        × (stream (handle_all byte_length es c) ≡ stream c ++ filled (frames_of es))
  unfolding handle_all
  open_connection_has_all [] c o w = (o, w, sym (append-nil (stream c)))
  open_connection_has_all (e ∷ es) c o w =
      let (later, live, grown) = open_connection_has_all es (handle byte_length e c) o w in
      let (before, alive, first) = handle-Grows e c later live in
      (
        before,
        alive,
        grown
            ∙ (ap (λ s. s ++ filled (frames_of es)) first
                ∙ (append_assoc (stream c) (filled (frames_of (e ∷ []))) (filled (frames_of es))
                    ∙ ap (λ s. stream c ++ s) (sym (frames_of-append e es)))),
      )
