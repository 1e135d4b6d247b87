-- ===== src/Gateway/Ws/Calls.antt =====
-- src/gateway/ws.c: the invariant of the map and the queues along any sequence of calls.
use mathlib.Core.List.{append_assoc}
use shellclaw.Common.{
  ℕ, Bool, true, false, Option, none, some, List, [], ◌∷◌, ◌++◌, ◌≡◌, inl, inr, refl, sym, ◌∙◌,
  arith, ◌==◌, ==_iff, leb, Bytes, replicate, Bool-cases,
}
use shellclaw.Gateway.Ws.{
  Ws, Msg, Conn, max_queue, max_connections, text_len_ok, find_wsi, dequeue_outgoing, register_conn,
  unregister_conn, enqueue_outgoing, push_incoming, pop_incoming, send_to, broadcast_from,
  broadcast_text, next_conn_id, set_context, shutdown_signal, cleanup,
}
use shellclaw.Gateway.Ws.Frames.{is_live}
use shellclaw.Gateway.Ws.Valid.{
  IsValid, register-IsValid, unregister-IsValid, push-IsValid, pop-IsValid, dequeue-IsValid,
  enqueue-IsValid, wake-IsValid, send-IsValid,
}

-- every call of the header, with its arguments
pub data WsCall : Type 0 where
  call_context : Bool → WsCall
  call_next_id call_shutdown call_cleanup : WsCall
  call_register : ℕ → ℕ → WsCall
  call_unregister : ℕ → WsCall
  call_push : ℕ → Bytes → WsCall
  call_pop : ℕ → ℕ → WsCall
  call_dequeue : ℕ → ℕ → WsCall
  call_send : Bytes → Bytes → WsCall
  call_broadcast : Bytes → WsCall

abbrev pub step : Ws → WsCall → Ws
step s (call_context b) = set_context s b
step s call_next_id = (next_conn_id s).1
step s call_shutdown = shutdown_signal s
step s call_cleanup = cleanup s
step s (call_register id wsi) = (register_conn s id wsi).1
step s (call_unregister id) = unregister_conn s id
step s (call_push id text) = push_incoming s id text
step s (call_pop session_size text_size) = (pop_incoming s session_size text_size).1
step s (call_dequeue id buf_size) = (dequeue_outgoing s id buf_size).1
step s (call_send session_id text) = (send_to s session_id text).1
step s (call_broadcast text) = broadcast_text s text

abbrev pub run : Ws → List WsCall → Ws
run s [] = s
run s (c ∷ cs) = run (step s c) cs

-- the static variables at the program's start
abbrev pub start : Ws
start = record {
  conns = replicate max_connections none;
  incoming = [];
  outgoing = [];
  incoming_count = 0;
  outgoing_count = 0;
  last_conn_id = 0;
  shutdown = false;
  context = false;
  wakes = 0;
}

find_wsi-middle :
    (pre cs : List (Option Conn)) (c : Conn)
    → is_live (find_wsi c.conn_id (pre ++ some c ∷ cs)) ≡ true
unfolding find_wsi
find_wsi-middle [] cs c = rw ((==_iff c.conn_id c.conn_id).1 refl) refl
find_wsi-middle (none ∷ pre) cs c = find_wsi-middle pre cs c
find_wsi-middle (some d ∷ pre) cs c = elim (Bool-cases (d.conn_id == c.conn_id)) [
  | inl e ↦ rw e refl
  | inr e ↦ rw e (find_wsi-middle pre cs c)
]

broadcast_from-IsValid :
    (s : Ws) (pre cs : List (Option Conn)) (text : Bytes) (queued : Bool)
    → s.conns ≡ pre ++ cs
    → IsValid s
    → IsValid (broadcast_from s cs text queued).0
unfolding broadcast_from
broadcast_from-IsValid s pre [] text queued e h = h
broadcast_from-IsValid s pre (none ∷ cs) text queued e h =
    broadcast_from-IsValid s (pre ++ none ∷ []) cs text queued
      (e ∙ sym (append_assoc pre (none ∷ []) cs)) h
broadcast_from-IsValid s pre (some c ∷ cs) text queued e h =
    elim (Bool-cases (leb max_queue s.outgoing_count)) [
      | inl full ↦ rw full h
      | inr room ↦
          let m : Msg = record { conn_id = c.conn_id; text = text } in
          rw room (
            broadcast_from-IsValid (enqueue_outgoing s m) (pre ++ some c ∷ []) cs text true
              (e ∙ sym (append_assoc pre (some c ∷ []) cs))
              (enqueue-IsValid s h m (ground arith) (rw e (find_wsi-middle pre cs c))))
    ]

broadcast-IsValid : (s : Ws) (text : Bytes) → IsValid s → IsValid (broadcast_text s text)
unfolding broadcast_text
broadcast-IsValid s text h = elim (Bool-cases (text_len_ok text)) [
  | inr l ↦ rw l h
  | inl l ↦
      let v = broadcast_from-IsValid s [] s.conns text false refl h in
      elim (Bool-cases (broadcast_from s s.conns text false).1) [
        | inl q ↦ rw (l, q) (wake-IsValid _ v)
        | inr q ↦ rw (l, q) v
      ]
]

keep-IsValid :
    (s s' : Ws)
    → IsValid s
    → s'.conns ≡ s.conns
    → s'.incoming ≡ s.incoming
    → s'.outgoing ≡ s.outgoing
    → s'.incoming_count ≡ s.incoming_count
    → s'.outgoing_count ≡ s.outgoing_count
    → IsValid s'
keep-IsValid s s' h a b c d e = record {
  incoming_counted = rw (b, d) h.incoming_counted;
  incoming_bound = rw d h.incoming_bound;
  outgoing_counted = rw (c, e) h.outgoing_counted;
  outgoing_bound = rw e h.outgoing_bound;
  live = rw (a, c) h.live;
}

empty-IsValid : (s : Ws) → IsValid (cleanup s)
empty-IsValid s = record {
  incoming_counted = refl;
  incoming_bound = omega arith;
  outgoing_counted = refl;
  outgoing_bound = omega arith;
  live = tt;
}

step-IsValid : (s : Ws) (c : WsCall) → IsValid s → IsValid (step s c)
step-IsValid s (call_context b) h = keep-IsValid s _ h refl refl refl refl refl
step-IsValid s call_next_id h = keep-IsValid s _ h refl refl refl refl refl
step-IsValid s call_shutdown h = keep-IsValid s _ h refl refl refl refl refl
step-IsValid s call_cleanup h = empty-IsValid s
step-IsValid s (call_register id wsi) h = register-IsValid s h id wsi
step-IsValid s (call_unregister id) h = unregister-IsValid s h id
step-IsValid s (call_push id text) h = push-IsValid s h id text
step-IsValid s (call_pop a b) h = pop-IsValid s h a b
step-IsValid s (call_dequeue id n) h = dequeue-IsValid s h id n
step-IsValid s (call_send session_id text) h = send-IsValid s session_id text h
step-IsValid s (call_broadcast text) h = broadcast-IsValid s text h

run_from-IsValid : (s : Ws) (cs : List WsCall) → IsValid s → IsValid (run s cs)
run_from-IsValid s [] h = h
run_from-IsValid s (c ∷ cs) h = run_from-IsValid (step s c) cs (step-IsValid s c h)

-- After any sequence of calls from the start, both counters are the lengths of their queues and at
-- most 64, and every frame that is still queued belongs to a connection that is in the map.
pub run-IsValid : (cs : List WsCall) → IsValid (run start cs)
run-IsValid cs = run_from-IsValid start cs (empty-IsValid start)
