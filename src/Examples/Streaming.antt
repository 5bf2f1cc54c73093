-- ===== src/Examples/Streaming.antt =====
-- Broker.
use elitehub_vault.Base.{
  codes, List, [], ◌∷◌, ◌++◌, none, false, true, ◌≡◌, refl, length, nat_eq, arith,
}
use elitehub_vault.Broker.{Connection, Traffic, sends, writes, handle_all}
use elitehub_vault.Broker.Queue.{IsBounded, total_bytes, handle_all-IsBounded}
use elitehub_vault.Broker.Order.{stream, filled, frames_of, open_connection_has_all}

abbrev new_connection : Connection
new_connection = record {
  system_id_allowlist = none;
  queue = [];
  queued_bytes = 0;
  is_flushing = false;
  is_closed = false;
  writable_ended = false;
  next_event_id = 1;
  handed = [];
}

-- Three frames while the first is written, which then goes through.
abbrev traffic : List Traffic
traffic =
    sends (codes "retry: 2000\n\n")
    ∷ sends (codes ": connected\n\n")
    ∷ writes true
    ∷ sends (codes ": keepalive\n\n")
    ∷ []

new-IsBounded : IsBounded length new_connection
unfolding total_bytes
new-IsBounded = record {
  bytes = refl;
  max_bytes = omega arith;
  max_messages = omega arith;
  flushed = λ e. refl;
  emptied = λ e. refl;
}

handle_all-IsBounded_example : IsBounded length (handle_all length traffic new_connection)
handle_all-IsBounded_example = handle_all-IsBounded length traffic new_connection refl new-IsBounded

stays_open : (handle_all length traffic new_connection).is_closed ≡ false
unfolding handle_all
stays_open = refl

stays_writable : (handle_all length traffic new_connection).writable_ended ≡ false
unfolding handle_all
stays_writable = refl

open_connection_has_all_example :
    (new_connection.is_closed ≡ false)
    × (new_connection.writable_ended ≡ false)
    × (stream (handle_all length traffic new_connection)
        ≡ stream new_connection ++ filled (frames_of traffic))
open_connection_has_all_example =
    open_connection_has_all length traffic new_connection stays_open stays_writable

handed_run :
    (handle_all length traffic new_connection).handed
    ≡ codes "retry: 2000\n\n" ∷ codes ": connected\n\n" ∷ []
unfolding handle_all
handed_run = refl
