-- ===== src/Gateway/Ws/Valid.antt =====
-- src/gateway/ws.c: what holds of the map and the queues after any sequence of calls.
use shellclaw.Common.{
  ℕ, ◌≤◌, ◌<◌, true, List, [], ◌∷◌, ◌≡◌, inl, inr, refl, arith, leb, Bytes, length, length-append,
  Bool-cases, Option-cases, ℤ, pos, negsuc, ◌==◌, ◌||◌,
}
use shellclaw.Gateway.Ws.{
  Ws, Msg, max_queue, text_len_ok, find_wsi, unlink_frame, dequeue_outgoing, put_conn,
  register_conn, unregister_conn, enqueue_outgoing, wake_service, push_incoming, take_incoming,
  pop_incoming, send_on, send_parsed, send_to, parse_conn_id,
}
use shellclaw.Gateway.Ws.Frames.{is_live, unlink_frame-some}
use shellclaw.Gateway.Ws.Live.{
  AllLive, AllLive-append, AllLive-put, AllLive-drop, length-drop_outgoing, AllLive-unlink,
}

-- The counters are the lengths of the queues and within the bound, and every queued frame belongs to
-- a connection that is still there.
pub record IsValid (s : Ws) : Type 0 where
  pub incoming_counted : s.incoming_count ≡ length s.incoming
  pub incoming_bound : s.incoming_count ≤ max_queue
  pub outgoing_counted : s.outgoing_count ≡ length s.outgoing
  pub outgoing_bound : s.outgoing_count ≤ max_queue
  pub live : AllLive s.conns s.outgoing

module _ (s : Ws) (h : IsValid s) where
  pub register-IsValid : (conn_id wsi : ℕ) → IsValid (register_conn s conn_id wsi).1
  unfolding register_conn
  register-IsValid conn_id wsi =
      elim (Option-cases (put_conn (record { wsi = wsi; conn_id = conn_id }) s.conns)) [
        | inl e ↦ rw e h
        | inr (cs, e) ↦ rw e (record {
          incoming_counted = h.incoming_counted;
          incoming_bound = h.incoming_bound;
          outgoing_counted = h.outgoing_counted;
          outgoing_bound = h.outgoing_bound;
          live =
              AllLive-put (record { wsi = wsi; conn_id = conn_id }) s.conns cs s.outgoing e h.live;
        })
      ]

  pub unregister-IsValid : (id : ℕ) → IsValid (unregister_conn s id)
  unfolding unregister_conn
  unregister-IsValid id =
      let n = length-drop_outgoing id s.outgoing in
      record {
        incoming_counted = h.incoming_counted;
        incoming_bound = h.incoming_bound;
        outgoing_counted = omega (arith, h.outgoing_counted);
        outgoing_bound = omega (arith, h.outgoing_bound);
        live = AllLive-drop id s.conns s.outgoing h.live;
      }

  pub push-IsValid : (conn_id : ℕ) (text : Bytes) → IsValid (push_incoming s conn_id text)
  unfolding push_incoming
  push-IsValid conn_id text = elim (Bool-cases (text_len_ok text)) [
    | inr l ↦ rw l h
    | inl l ↦ elim (Bool-cases (leb max_queue s.incoming_count)) [
      | inl full ↦ rw (l, full) h
      | inr room ↦
          rw (l, room)
            (record {
              incoming_counted = omega (
                arith,
                h.incoming_counted,
                length-append s.incoming (record { conn_id = conn_id; text = text } ∷ []),
              );
              incoming_bound = ground arith;
              outgoing_counted = h.outgoing_counted;
              outgoing_bound = h.outgoing_bound;
              live = h.live;
            })
    ]
  ]

  take-IsValid :
      (session_size text_size : ℕ) (ms : List Msg)
      → length s.incoming ≡ length ms
      → IsValid (take_incoming s session_size text_size ms).1
  take-IsValid a b [] e = h
  take-IsValid a b (m ∷ ms) e = record {
    incoming_counted = omega (arith, e, h.incoming_counted);
    incoming_bound = omega (arith, h.incoming_bound);
    outgoing_counted = h.outgoing_counted;
    outgoing_bound = h.outgoing_bound;
    live = h.live;
  }

  pub pop-IsValid : (session_size text_size : ℕ) → IsValid (pop_incoming s session_size text_size).1
  unfolding pop_incoming
  pop-IsValid a b = elim (Bool-cases (a == 0 || b == 0)) [
    | inl no_room ↦ rw no_room h
    | inr room ↦ elim (Bool-cases s.shutdown) [
      | inl e ↦ simp (room, e) h
      | inr e ↦ simp (room, e) (take-IsValid a b s.incoming refl)
    ]
  ]

  pub dequeue-IsValid : (id buf_size : ℕ) → IsValid (dequeue_outgoing s id buf_size).1
  unfolding dequeue_outgoing
  dequeue-IsValid id buf_size = elim (Bool-cases (buf_size == 0)) [
    | inl no_room ↦ rw no_room h
    | inr room ↦ elim (Option-cases (unlink_frame id s.outgoing)) [
      | inl e ↦ rw (room, e) h
      | inr ((f, ms), e) ↦
          let u = unlink_frame-some id s.outgoing ms f e in
          rw (room, e)
            (record {
              incoming_counted = h.incoming_counted;
              incoming_bound = h.incoming_bound;
              outgoing_counted = omega (arith, u.shorter, h.outgoing_counted);
              outgoing_bound = omega (arith, h.outgoing_bound);
              live = AllLive-unlink id s.conns s.outgoing ms f e h.live;
            })
    ]
  ]

  pub enqueue-IsValid :
      (m : Msg)
      → s.outgoing_count < max_queue
      → is_live (find_wsi m.conn_id s.conns) ≡ true
      → IsValid (enqueue_outgoing s m)
  enqueue-IsValid m b l = record {
    incoming_counted = h.incoming_counted;
    incoming_bound = h.incoming_bound;
    outgoing_counted = omega (arith, h.outgoing_counted, length-append s.outgoing (m ∷ []));
    outgoing_bound = omega (arith, b);
    live = AllLive-append s.conns s.outgoing m h.live l;
  }

pub wake-IsValid : (s : Ws) → IsValid s → IsValid (wake_service s)
wake-IsValid s h = record {
  incoming_counted = h.incoming_counted;
  incoming_bound = h.incoming_bound;
  outgoing_counted = h.outgoing_counted;
  outgoing_bound = h.outgoing_bound;
  live = h.live;
}

send_on-IsValid :
    (s : Ws) (id : ℕ) (text : Bytes)
    → IsValid s
    → IsValid (send_on s id text (find_wsi id s.conns)).1
send_on-IsValid s id text h = elim (Option-cases (find_wsi id s.conns)) [
  | inl e ↦ rw e h
  | inr (wsi, e) ↦ elim (Bool-cases (leb max_queue s.outgoing_count)) [
    | inl full ↦ rw e (rw full h)
    | inr room ↦
        let m : Msg = record { conn_id = id; text = text } in
        rw e (rw room (wake-IsValid _ (enqueue-IsValid s h m (ground arith) (rw e refl))))
  ]
]

pub send-IsValid :
    (s : Ws) (session_id text : Bytes) → IsValid s → IsValid (send_to s session_id text).1
unfolding send_to
send-IsValid s session_id text h = elim (Bool-cases (text_len_ok text)) [
  | inr l ↦ rw l h
  | inl l ↦ rw l (parsed (parse_conn_id session_id))
]
  where
    parsed : (z : ℤ) → IsValid (send_parsed s z text).1
    parsed (pos id) = send_on-IsValid s id text h
    parsed (negsuc n) = h
