-- ===== src/Gateway/Ws/Frames.antt =====
-- src/gateway/ws.c: the frames of each connection leave in the order in which they were queued.
use mathlib.Core.Path.{subst}
use mathlib.Core.List.{append-nil}
use mathlib.Core.Option.{some-injective}
use shellclaw.Common.{
  ℕ, suc, ◌-◌, Bool, true, false, ◌&&◌, not, Option, none, some, List, [], ◌∷◌, ◌++◌, ◌≡◌, ◌≢◌, ◌<◌,
  inl, inr, refl, ap, arith, ◌==◌, ==_iff, ==-ne, leb, if◌then◌else◌, Bytes, length, take,
  Bool-cases, Option-cases, pos,
}
use shellclaw.Gateway.Ws.{
  Ws, Msg, max_queue, text_len_ok, drop_outgoing, find_wsi, unlink_frame, dequeue_outgoing,
  unregister_conn, send_on, send_to, parse_conn_id,
}

-- The texts queued for a connection, the next to leave first.
abbrev pub frames_of : ℕ → List Msg → List Bytes
frames_of id [] = []
frames_of id (m ∷ ms) =
    let rest = frames_of id ms in if m.conn_id == id then m.text ∷ rest else rest

pub frames_of-append :
    (id : ℕ) (ms ns : List Msg) → frames_of id (ms ++ ns) ≡ frames_of id ms ++ frames_of id ns
frames_of-append id [] ns = refl
frames_of-append id (m ∷ ms) ns = ground (arith, frames_of-append id ms ns)

-- what unlinking the first frame of a connection takes out of the queue
pub record Unlinked (id : ℕ) (ms : List Msg) (f : Msg) (ms' : List Msg) : Type 0 where
  pub of_conn : f.conn_id ≡ id
  pub next : frames_of id ms ≡ f.text ∷ frames_of id ms'
  pub others : (j : ℕ) → j ≢ id → frames_of j ms' ≡ frames_of j ms
  pub shorter : length ms ≡ suc (length ms')

Unlinked-here : (id : ℕ) (m : Msg) (ms : List Msg) → m.conn_id ≡ id → Unlinked id (m ∷ ms) m ms
Unlinked-here id m ms e = record {
  of_conn = e;
  next = ground arith;
  others = λ j n. ground arith;
  shorter = refl;
}

Unlinked-behind :
    (id : ℕ) (m : Msg) (ms : List Msg) (g : Msg) (ns : List Msg)
    → (m.conn_id == id) ≡ false
    → Unlinked id ms g ns
    → Unlinked id (m ∷ ms) g (m ∷ ns)
Unlinked-behind id m ms g ns e u = record {
  of_conn = u.of_conn;
  next = rw e u.next;
  others = λ j n. ground (arith, u.others j n);
  shorter = ap suc u.shorter;
}

pub unlink_frame-some :
    (id : ℕ) (ms ms' : List Msg) (f : Msg)
    → unlink_frame id ms ≡ some (f, ms')
    → Unlinked id ms f ms'
unfolding unlink_frame
unlink_frame-some id [] ms' f h = cc
unlink_frame-some id (m ∷ ms) ms' f h = elim (Bool-cases (m.conn_id == id)) [
  | inl e ↦
      let q = some-injective (m, ms) (f, ms') (rw e at h) in
      subst (λ (x : Msg × List Msg). Unlinked id (m ∷ ms) x.0 x.1) q
        (Unlinked-here id m ms ((==_iff m.conn_id id).0 e))
  | inr e ↦ elim (Option-cases (unlink_frame id ms)) [
    | inl n ↦ cc (rw (e, n) at h)
    | inr ((g, ns), n) ↦
        let u = unlink_frame-some id ms ns g n in
        let q = some-injective (g, m ∷ ns) (f, ms') (rw (e, n) at h) in
        subst (λ (x : Msg × List Msg). Unlinked id (m ∷ ms) x.0 x.1) q
          (Unlinked-behind id m ms g ns e u)
  ]
]

unlink_frame-none : (id : ℕ) (ms : List Msg) → unlink_frame id ms ≡ none → frames_of id ms ≡ []
unfolding unlink_frame
unlink_frame-none id [] h = refl
unlink_frame-none id (m ∷ ms) h = elim (Bool-cases (m.conn_id == id)) [
  | inl e ↦ cc (rw e at h)
  | inr e ↦ elim (Option-cases (unlink_frame id ms)) [
    | inl n ↦ rw e (unlink_frame-none id ms n)
    | inr ((g, ns), n) ↦ cc (rw (e, n) at h)
  ]
]

-- what a connection gets from its queue
abbrev pub front : ℕ → List Bytes → Option Bytes
front buf_size [] = none
front buf_size (t ∷ ts) = some (take (buf_size - 1) t)

abbrev pub behind : List Bytes → List Bytes
behind [] = []
behind (t ∷ ts) = ts

-- Into a buffer that has a byte, the service thread takes the frames of each connection in the order in
-- which they were queued, and taking one leaves the frames of the other connections as they are.
pub dequeue_outgoing-frames :
    (s : Ws) (id buf_size j : ℕ)
    → 0 < buf_size
    → ((dequeue_outgoing s id buf_size).0 ≡ front buf_size (frames_of id s.outgoing))
      × (frames_of j (dequeue_outgoing s id buf_size).1.outgoing
          ≡ (if j == id then behind (frames_of j s.outgoing) else frames_of j s.outgoing))
unfolding dequeue_outgoing
dequeue_outgoing-frames s id buf_size j room =
    let z : (buf_size == 0) ≡ false = ground arith in
    elim (Option-cases (unlink_frame id s.outgoing)) [
      | inl e ↦
          rw (z, e, unlink_frame-none id s.outgoing e)
            (
              refl,
              elim (Bool-cases (j == id)) [
                | inl same ↦ rw (same, (==_iff j id).0 same, unlink_frame-none id s.outgoing e) refl
                | inr other ↦ rw other refl
              ],
            )
      | inr ((f, ms), e) ↦
          let u = unlink_frame-some id s.outgoing ms f e in
          rw (z, e, u.next)
            (
              refl,
              elim (Bool-cases (j == id)) [
                | inl same ↦ rw (same, (==_iff j id).0 same, u.next) refl
                | inr other ↦ rw other (u.others j (==-ne j id other))
              ],
            )
    ]

frames_of-drop : (id : ℕ) (ms : List Msg) → frames_of id (drop_outgoing id ms).0 ≡ []
unfolding drop_outgoing
frames_of-drop id [] = refl
frames_of-drop id (m ∷ ms) = ground (arith, frames_of-drop id ms)

frames_of-drop_ne :
    (id j : ℕ) (ms : List Msg) → j ≢ id → frames_of j (drop_outgoing id ms).0 ≡ frames_of j ms
unfolding drop_outgoing
frames_of-drop_ne id j [] n = refl
frames_of-drop_ne id j (m ∷ ms) n = ground (arith, frames_of-drop_ne id j ms n)

-- Closing a connection drops all its frames and no other.
pub unregister_conn-frames :
    (s : Ws) (id j : ℕ)
    → frames_of j (unregister_conn s id).outgoing ≡ (if j == id then [] else frames_of j s.outgoing)
unfolding unregister_conn
unregister_conn-frames s id j = elim (Bool-cases (j == id)) [
  | inl same ↦ rw (same, (==_iff j id).0 same) (frames_of-drop id s.outgoing)
  | inr other ↦ rw other (frames_of-drop_ne id j s.outgoing (==-ne j id other))
]

abbrev pub is_live : Option ℕ → Bool
is_live none = false
is_live (some wsi) = true

-- A connection with a live socket, a text of a length in range and room in the queue.
abbrev pub accepts : Ws → ℕ → Bytes → Bool
accepts s id text =
    text_len_ok text && is_live (find_wsi id s.conns) && not (leb max_queue s.outgoing_count)

send_on-frames :
    (s : Ws) (id j : ℕ) (text : Bytes) (o : Option ℕ)
    → ((send_on s id text o).0 ≡ not (is_live o && leb max_queue s.outgoing_count))
      × (frames_of j (send_on s id text o).1.outgoing ≡ (
          if is_live o && not (leb max_queue s.outgoing_count) && id == j
          then frames_of j s.outgoing ++ text ∷ []
          else frames_of j s.outgoing))
send_on-frames s id j text none = (refl, refl)
send_on-frames s id j text (some wsi) = elim (Bool-cases (leb max_queue s.outgoing_count)) [
  | inl full ↦ rw full (refl, refl)
  | inr room ↦ rw room (
    refl,
    rw (frames_of-append j s.outgoing (record { conn_id = id; text = text } ∷ []))
        (ground (arith, append-nil (frames_of j s.outgoing))),
  )
]

-- A text for a session whose id names a connection: the call fails exactly if the length is out of
-- range, or the connection is live and the queue is full; the text is queued exactly if the connection
-- is live and neither is so, as the last frame of that connection, and no other frame changes.
pub send_to-frames :
    (s : Ws) (session_id text : Bytes) (id j : ℕ)
    → parse_conn_id session_id ≡ pos id
    → ((send_to s session_id text).0 ≡ (
        text_len_ok text && not (is_live (find_wsi id s.conns) && leb max_queue s.outgoing_count)))
      × (frames_of j (send_to s session_id text).1.outgoing ≡ (
          if accepts s id text && id == j
          then frames_of j s.outgoing ++ text ∷ []
          else frames_of j s.outgoing))
unfolding send_to
send_to-frames s session_id text id j p = elim (Bool-cases (text_len_ok text)) [
  | inl l ↦ rw (l, p) (send_on-frames s id j text (find_wsi id s.conns))
  | inr l ↦ rw l (refl, refl)
]
