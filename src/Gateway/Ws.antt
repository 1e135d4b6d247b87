-- ===== src/Gateway/Ws.antt =====
-- src/gateway/ws.c: the connection map and the message queues of the WebSocket server. The static
-- variables are the fields of `Ws`; a linked list is the list of its messages, and its tail pointer is
-- left out. Each section under the mutex is one step. Memory is taken to suffice. The 16 slots of
-- `g_conns` hold `none` where `wsi` is null.
pub mod Frames
pub mod Live
pub mod Valid
pub mod Calls
pub mod Routing
mod Tests
use shellclaw.Common.{
  ℕ, zero, suc, ◌+◌, ◌-◌, ◌*◌, Bool, true, false, ◌&&◌, ◌||◌, not, Option, none, some, List, [],
  ◌∷◌, ◌++◌, ◌==◌, ltb, leb, if◌then◌else◌, Bytes, is_empty, codes, has_prefix, length, take, drop,
  replicate, ℤ, pos, negsuc, strtol, atoi_of, decimal,
}

abbrev pub max_connections : ℕ
max_connections = 16

abbrev pub max_queue : ℕ
max_queue = 64

abbrev pub ws_text_max : ℕ
ws_text_max = 32 * 1024

pub record Msg : Type 0 where
  pub conn_id : ℕ
  pub text : Bytes

pub record Conn : Type 0 where
  pub wsi : ℕ
  pub conn_id : ℕ

pub record Ws : Type 0 where
  pub conns : List (Option Conn)
  pub incoming : List Msg
  pub outgoing : List Msg
  pub incoming_count : ℕ
  pub outgoing_count : ℕ
  pub last_conn_id : ℕ
  pub shutdown : Bool
  -- whether a service context is set, and how often it was woken
  pub context : Bool
  pub wakes : ℕ

abbrev pub text_len_ok : Bytes → Bool
text_len_ok text = ltb 0 (length text) && leb (length text) ws_text_max

abbrev pub set_context : Ws → Bool → Ws
set_context s ctx = record s { context = ctx }

abbrev pub wake_service : Ws → Ws
wake_service s = record s { wakes = if s.context then s.wakes + 1 else s.wakes }

-- whether some frame is queued for the connection
unfoldable pub has_frame : ℕ → List Msg → Bool
has_frame id [] = false
has_frame id (m ∷ ms) = m.conn_id == id || has_frame id ms

-- the sockets that the service thread marks writable
unfoldable pub on_service_cancel : List (Option Conn) → List Msg → List ℕ
on_service_cancel [] out = []
on_service_cancel (none ∷ cs) out = on_service_cancel cs out
on_service_cancel (some c ∷ cs) out =
    let rest = on_service_cancel cs out in if has_frame c.conn_id out then c.wsi ∷ rest else rest

-- the id returned, and the counter after it
abbrev pub next_conn_id : Ws → ℕ × Ws
next_conn_id s = (s.last_conn_id + 1, record s { last_conn_id = s.last_conn_id + 1 })

-- `none` where no slot is free
unfoldable pub put_conn : Conn → List (Option Conn) → Option (List (Option Conn))
put_conn c [] = none
put_conn c (none ∷ cs) = some (some c ∷ cs)
put_conn c (some d ∷ cs) = elim (put_conn c cs) [ none ↦ none | some cs' ↦ some (some d ∷ cs') ]

abbrev registered : Ws → Option (List (Option Conn)) → Bool × Ws
registered s none = (false, s)
registered s (some cs) = (true, record s { conns = cs })

-- `true` is the C result 0
unfoldable pub register_conn : Ws → ℕ → ℕ → Bool × Ws
unfolding put_conn
register_conn s conn_id wsi =
    registered s (put_conn (record { wsi = wsi; conn_id = conn_id }) s.conns)

-- the frames left, and how many were dropped
unfoldable pub drop_outgoing : ℕ → List Msg → List Msg × ℕ
drop_outgoing id [] = ([], 0)
drop_outgoing id (m ∷ ms) =
    let (rest, n) = drop_outgoing id ms in if m.conn_id == id then (rest, n + 1) else (m ∷ rest, n)

unfoldable pub find_wsi : ℕ → List (Option Conn) → Option ℕ
find_wsi id [] = none
find_wsi id (none ∷ cs) = find_wsi id cs
find_wsi id (some c ∷ cs) =
    let rest = find_wsi id cs in if c.conn_id == id then some c.wsi else rest

unfoldable pub remove_conn : ℕ → List (Option Conn) → List (Option Conn)
remove_conn id [] = []
remove_conn id (none ∷ cs) = none ∷ remove_conn id cs
remove_conn id (some c ∷ cs) =
    let rest = remove_conn id cs in if c.conn_id == id then none ∷ cs else some c ∷ rest

abbrev pub enqueue_outgoing : Ws → Msg → Ws
enqueue_outgoing s m = record s {
  outgoing = s.outgoing ++ m ∷ [];
  outgoing_count = s.outgoing_count + 1;
}

unfoldable pub unregister_conn : Ws → ℕ → Ws
unregister_conn s id =
    let (kept, dropped) = drop_outgoing id s.outgoing in
    record s {
      conns = remove_conn id s.conns;
      outgoing = kept;
      outgoing_count = s.outgoing_count - dropped;
    }

unfoldable pub push_incoming : Ws → ℕ → Bytes → Ws
push_incoming s conn_id text =
    if not (text_len_ok text) then s else if leb max_queue s.incoming_count then s else record s {
      incoming = s.incoming ++ record { conn_id = conn_id; text = text } ∷ [];
      incoming_count = s.incoming_count + 1;
    }

abbrev pub session_prefix : Bytes
session_prefix = codes "webchat:"

unfoldable pub parse_conn_id : Bytes → ℤ
parse_conn_id session_id =
    if has_prefix session_id session_prefix then atoi_of (strtol (drop 8 session_id)) else negsuc 0

-- The session id and the text that are written, cut to the buffers. `none` where nothing is taken: the
-- wait timed out on an empty queue, the server shuts down, or a buffer has no byte.
abbrev pub take_incoming : Ws → ℕ → ℕ → List Msg → Option (Bytes × Bytes) × Ws
take_incoming s session_size text_size [] = (none, s)
take_incoming s session_size text_size (m ∷ ms) = (
  some (take (session_size - 1) (session_prefix ++ decimal m.conn_id), take (text_size - 1) m.text),
  record s { incoming = ms; incoming_count = s.incoming_count - 1 },
)

unfoldable pub pop_incoming : Ws → ℕ → ℕ → Option (Bytes × Bytes) × Ws
pop_incoming s session_size text_size =
    if session_size == 0 || text_size == 0
    then (none, s)
    else if s.shutdown
    then (none, s)
    else take_incoming s session_size text_size s.incoming

abbrev pub keep_front : Msg → Option (Msg × List Msg) → Option (Msg × List Msg)
keep_front m none = none
keep_front m (some (f, ms)) = some (f, m ∷ ms)

-- the first frame of the connection, and the queue without it
unfoldable pub unlink_frame : ℕ → List Msg → Option (Msg × List Msg)
unlink_frame id [] = none
unlink_frame id (m ∷ ms) =
    let rest = keep_front m (unlink_frame id ms) in if m.conn_id == id then some (m, ms) else rest

abbrev pub dequeued : Ws → ℕ → Option (Msg × List Msg) → Option Bytes × Ws
dequeued s buf_size none = (none, s)
dequeued s buf_size (some (m, ms)) = (
  some (take (buf_size - 1) m.text),
  record s { outgoing = ms; outgoing_count = s.outgoing_count - 1 },
)

-- the text written to the buffer
unfoldable pub dequeue_outgoing : Ws → ℕ → ℕ → Option Bytes × Ws
dequeue_outgoing s conn_id buf_size =
    if buf_size == 0 then (none, s) else dequeued s buf_size (unlink_frame conn_id s.outgoing)

abbrev pub has_pending_outgoing : Ws → ℕ → Bool
has_pending_outgoing s conn_id = has_frame conn_id s.outgoing

-- on the live socket of the connection; `true` is the C result 0
abbrev pub send_on : Ws → ℕ → Bytes → Option ℕ → Bool × Ws
send_on s id text none = (true, s)
send_on s id text (some wsi) =
    if leb max_queue s.outgoing_count
    then (false, s)
    else (true, wake_service (enqueue_outgoing s (record { conn_id = id; text = text })))

abbrev pub send_parsed : Ws → ℤ → Bytes → Bool × Ws
send_parsed s (negsuc n) text = (false, s)
send_parsed s (pos id) text = send_on s id text (find_wsi id s.conns)

unfoldable pub send_to : Ws → Bytes → Bytes → Bool × Ws
send_to s session_id text =
    if not (text_len_ok text) then (false, s) else send_parsed s (parse_conn_id session_id) text

-- the loop over the connections: the state, and whether a frame was queued
unfoldable pub broadcast_from : Ws → List (Option Conn) → Bytes → Bool → Ws × Bool
broadcast_from s [] text queued = (s, queued)
broadcast_from s (none ∷ cs) text queued = broadcast_from s cs text queued
broadcast_from s (some c ∷ cs) text queued =
    let next =
      broadcast_from (enqueue_outgoing s (record { conn_id = c.conn_id; text = text })) cs text
        true in
    if leb max_queue s.outgoing_count then (s, queued) else next

unfoldable pub broadcast_text : Ws → Bytes → Ws
unfolding broadcast_from
broadcast_text s text =
    if not (text_len_ok text)
    then s
    else let (s', queued) = broadcast_from s s.conns text false in
      if queued then wake_service s' else s'

abbrev pub shutdown_signal : Ws → Ws
shutdown_signal s = record s { shutdown = true }

abbrev pub cleanup : Ws → Ws
cleanup s = record s {
  conns = replicate max_connections none;
  incoming = [];
  outgoing = [];
  incoming_count = 0;
  outgoing_count = 0;
}
