-- ===== src/Gateway/Ws/Tests.antt =====
-- src/gateway/ws.c: the theorems at two connections with queued frames.
use shellclaw.Common.{
  strtol, read_digits, ℕ, ◌+◌, ◌-◌, ◌<◌, ◌^◌, Bool, true, false, ◌&&◌, not, Option, none, some,
  List, [], ◌∷◌, ◌++◌, ◌≡◌, refl, arith, Bytes, codes, length, take, leb, ◌==◌, if◌then◌else◌, ℤ,
  pos, decimal, decimal_fuel,
}
use shellclaw.Gateway.Ws.{
  Ws, register_conn, push_incoming, broadcast_text, max_queue, find_wsi, dequeue_outgoing,
  pop_incoming, send_to, parse_conn_id, session_prefix,
}
use shellclaw.Gateway.Ws.Frames.{
  frames_of, is_live, accepts, front, dequeue_outgoing-frames, send_to-frames,
}
use shellclaw.Gateway.Ws.Calls.{
  WsCall, call_register, call_push, call_send, call_broadcast, run, start,
}
use shellclaw.Gateway.Ws.Valid.{IsValid}
use shellclaw.Gateway.Ws.Calls.{run-IsValid}
use shellclaw.Gateway.Ws.Routing.{pop-parse_conn_id}

abbrev two_calls : List WsCall
two_calls =
    call_register 1 901
    ∷ call_register 2 902
    ∷ call_push 2 (codes "ping")
    ∷ call_send (codes "webchat:2") (codes "pong")
    ∷ call_broadcast (codes "all")
    ∷ []

abbrev two_conns : Ws
two_conns = run start two_calls

second_queue : frames_of 2 two_conns.outgoing ≡ codes "pong" ∷ codes "all" ∷ []
unfolding register_conn push_incoming send_to broadcast_text parse_conn_id
    shellclaw.Common.has_prefix strtol read_digits find_wsi
second_queue = refl

run-IsValid_example : IsValid (run start two_calls)
run-IsValid_example = run-IsValid two_calls

dequeue_outgoing-frames_example :
    ((dequeue_outgoing two_conns 2 64).0 ≡ front 64 (frames_of 2 two_conns.outgoing))
    × (frames_of 1 (dequeue_outgoing two_conns 2 64).1.outgoing ≡ frames_of 1 two_conns.outgoing)
dequeue_outgoing-frames_example = dequeue_outgoing-frames two_conns 2 64 1 (omega arith)

parses_two : parse_conn_id (codes "webchat:2") ≡ pos 2
unfolding parse_conn_id strtol read_digits shellclaw.Common.has_prefix
parses_two = refl

send_to-frames_example :
    ((send_to two_conns (codes "webchat:2") (codes "hi")).0 ≡ (
      true && not (is_live (find_wsi 2 two_conns.conns) && leb max_queue two_conns.outgoing_count)))
    × (frames_of 1 (send_to two_conns (codes "webchat:2") (codes "hi")).1.outgoing ≡ (
        if accepts two_conns 2 (codes "hi") && false
        then frames_of 1 two_conns.outgoing ++ codes "hi" ∷ []
        else frames_of 1 two_conns.outgoing))
send_to-frames_example = send_to-frames two_conns (codes "webchat:2") (codes "hi") 2 1 parses_two

abbrev one_waiting : Ws
one_waiting = record start {
  incoming = record { conn_id = 17; text = codes "hello" } ∷ [];
  incoming_count = 1;
}

short_id : length (session_prefix ++ decimal 17) < 64
unfolding decimal decimal_fuel
short_id = omega arith

pop-parse_conn_id_example :
    ((pop_incoming one_waiting 64 100).0 ≡ some (session_prefix ++ decimal 17, codes "hello"))
    × (parse_conn_id (session_prefix ++ decimal 17) ≡ pos 17)
    × ((pop_incoming one_waiting 64 100).1.incoming ≡ [])
pop-parse_conn_id_example =
    pop-parse_conn_id one_waiting (record { conn_id = 17; text = codes "hello" }) [] 64 100 refl
      refl (omega arith) short_id (omega arith)
