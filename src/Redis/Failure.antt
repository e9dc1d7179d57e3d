-- ===== src/Redis/Failure.antt =====
-- What becomes of the requests when the socket fails.
use eiptnd.Prelude.{
  arith, ◌≡◌, ◌≢◌, refl, ap, ◌∙◌, Bool, true, false, List, [], ◌∷◌, Bytes, if◌then◌else◌, ℕ,
}
use eiptnd.Redis.Connection.{
  Library, Connection, ok, ErrorCode, success, operation_aborted, failure, Callback, user, no_ping,
  Op, called, async_resolve, socket_shutdown, socket_close, timer_cancel, op, invoke,
  timeout_no_ping, drop_all, drop, close, reconnect, resolve, publish,
}
use eiptnd.Redis.Handlers.{handle_write, handle_read}

-- What the callbacks do when each is called with `false`, the first one first.
abbrev pub refused : List Callback → List Op → List Op
refused [] os = os
refused (user k ∷ cs) os = refused cs (called k false ∷ os)
refused (no_ping ∷ cs) os = refused cs os

-- The timer is cancelled, and a socket that is open is shut down and closed.
abbrev pub closing : Bool → List Op → List Op
closing is_open os =
    if is_open then socket_close ∷ socket_shutdown ∷ timer_cancel ∷ os else timer_cancel ∷ os

module _ {L : Library} where
  drop_all-refused :
      (cs : List Callback) (s : Connection L) → drop_all cs s ≡ record s { ops = refused cs s.ops }
  unfolding drop_all invoke timeout_no_ping
  drop_all-refused [] s = refl
  drop_all-refused (user k ∷ cs) s = drop_all-refused cs (op (called k false) s)
  drop_all-refused (no_ping ∷ cs) s = drop_all-refused cs s

  -- The client when its connection has failed: nobody waits for a reply, the bytes of both queues
  -- and the callbacks of what waits to be written stay, and the last address is resolved again.
  abbrev pub failed : Connection L → Connection L
  failed s = record s {
    is_connected = false;
    is_open = false;
    out_tmp_buf = record { bytes = s.out_tmp_buf.bytes; callbacks = [] };
    busy = false;
    ops = async_resolve s.host s.port ∷ refused s.out_tmp_buf.callbacks (closing s.is_open s.ops);
  }

  closed_as :
      (b : Bool) (s : Connection L)
      → close (record s { is_open = b })
        ≡ record s { is_connected = false; is_open = false; ops = closing b s.ops }
  unfolding close
  closed_as true s = refl
  closed_as false s = refl

  closed :
      (s : Connection L)
      → close s ≡ record s { is_connected = false; is_open = false; ops = closing s.is_open s.ops }
  closed s = closed_as s.is_open s

  drop-refused :
      (s : Connection L)
      → drop s ≡ record s {
        out_tmp_buf = record { bytes = s.out_tmp_buf.bytes; callbacks = [] };
        busy = false;
        ops = refused s.out_tmp_buf.callbacks s.ops;
      }
  unfolding drop
  drop-refused s =
      ap {A = Connection L} {B = Connection L}
        (λ t. record t {
          out_tmp_buf = record { bytes = t.out_tmp_buf.bytes; callbacks = [] };
          busy = false;
        })
        (drop_all-refused s.out_tmp_buf.callbacks s)

  pub reconnect-failed : (s : Connection L) → reconnect s ≡ failed s
  unfolding reconnect resolve
  reconnect-failed s =
      ap (λ t. resolve t.host t.port t)
        (ap drop (closed s)
          ∙ drop-refused
              (record s { is_connected = false; is_open = false; ops = closing s.is_open s.ops }))

  refused_at_once :
      (channel message : Bytes) (k : ℕ) (t : Connection L)
      → t.is_connected ≡ false
      → publish channel message (user k) t ≡ ok (op (called k false) t)
  unfolding publish invoke
  refused_at_once ch msg k t d = ground arith

  -- When a write or a read fails, with any error, each callback of a request on the wire is called
  -- once, with `false`, in the order of the requests; the bytes of both queues and the requests
  -- that wait to be written stay as they are; the timer is cancelled and the socket closed, if it
  -- was open; the last address is resolved again; the mutex is free; and the client is not
  -- connected. In every state in which it is not, this one or a later one, a request that is
  -- published only has its callback called, at once and with `false`.
  pub publish-failed :
      (ec : ErrorCode) (channel message : Bytes) (k : ℕ) (s t : Connection L)
      → ec ≢ success
      → t.is_connected ≡ false
      → (handle_write ec s ≡ failed s)
        × (handle_read ec s ≡ ok (failed s))
        × ((failed s).is_connected ≡ false)
        × (publish channel message (user k) t ≡ ok (op (called k false) t))
  unfolding handle_write handle_read
  publish-failed success ch msg k s t n d = absurd (n refl)
  publish-failed operation_aborted ch msg k s t n d =
      (reconnect-failed s, ap ok (reconnect-failed s), refl, refused_at_once ch msg k t d)
  publish-failed failure ch msg k s t n d =
      (reconnect-failed s, ap ok (reconnect-failed s), refl, refused_at_once ch msg k t d)
