-- ===== src/Gateway/Ws/Live.antt =====
-- src/gateway/ws.c: the connections of queued frames, through the loops over the map and the queue.
use mathlib.Core.Path.{subst}
use mathlib.Core.Option.{some-injective}
use shellclaw.Common.{
  ℕ, ◌+◌, true, false, Option, none, some, List, [], ◌∷◌, ◌++◌, ◌≡◌, ◌≢◌, inl, inr, refl, arith,
  ◌==◌, ==_iff, ==-ne, length, Bool-cases, Option-cases,
}
use shellclaw.Gateway.Ws.{Msg, Conn, drop_outgoing, find_wsi, unlink_frame, put_conn, remove_conn}
use shellclaw.Gateway.Ws.Frames.{is_live}

abbrev pub AllLive : List (Option Conn) → List Msg → Type 0
AllLive conns [] = Unit
AllLive conns (m ∷ ms) = (is_live (find_wsi m.conn_id conns) ≡ true) × AllLive conns ms

pub AllLive-append :
    (conns : List (Option Conn)) (ms : List Msg) (m : Msg)
    → AllLive conns ms
    → is_live (find_wsi m.conn_id conns) ≡ true
    → AllLive conns (ms ++ m ∷ [])
AllLive-append conns [] m h l = (l, tt)
AllLive-append conns (x ∷ ms) m h l = (h.0, AllLive-append conns ms m h.1 l)

find_wsi-put :
    (c : Conn) (conns conns' : List (Option Conn)) (id : ℕ)
    → put_conn c conns ≡ some conns'
    → is_live (find_wsi id conns) ≡ true
    → is_live (find_wsi id conns') ≡ true
unfolding put_conn find_wsi
find_wsi-put c [] conns' id h l = cc
find_wsi-put c (none ∷ cs) conns' id h l =
    subst (λ (x : List (Option Conn)). is_live (find_wsi id x) ≡ true)
      (some-injective (some c ∷ cs) conns' h)
      (elim (Bool-cases (c.conn_id == id)) [ inl e ↦ rw e refl | inr e ↦ rw e l ])
find_wsi-put c (some d ∷ cs) conns' id h l = elim (Option-cases (put_conn c cs)) [
  | inl e ↦ cc (rw (e, put_conn) at h)
  | inr (cs', e) ↦
      let h' : ◌≡◌ {A = Option (List (Option Conn))} (some (some d ∷ cs')) (some conns') =
        rw (e, put_conn) at h in
      subst (λ (x : List (Option Conn)). is_live (find_wsi id x) ≡ true)
        (some-injective (some d ∷ cs') conns' h')
        (elim (Bool-cases (d.conn_id == id)) [
          | inl q ↦ rw q refl
          | inr q ↦ rw q (find_wsi-put c cs cs' id e (rw q at l))
        ])
]

pub AllLive-put :
    (c : Conn) (conns conns' : List (Option Conn)) (ms : List Msg)
    → put_conn c conns ≡ some conns'
    → AllLive conns ms
    → AllLive conns' ms
AllLive-put c conns conns' [] h l = tt
AllLive-put c conns conns' (m ∷ ms) h l =
    (find_wsi-put c conns conns' m.conn_id h l.0, AllLive-put c conns conns' ms h l.1)

find_wsi-remove :
    (id j : ℕ) (conns : List (Option Conn))
    → j ≢ id
    → find_wsi j (remove_conn id conns) ≡ find_wsi j conns
unfolding find_wsi remove_conn
find_wsi-remove id j [] n = refl
find_wsi-remove id j (none ∷ cs) n = find_wsi-remove id j cs n
find_wsi-remove id j (some c ∷ cs) n = elim (Bool-cases (c.conn_id == id)) [
  | inl e ↦ let d : (c.conn_id == j) ≡ false = ground (arith, ==_iff c.conn_id id) in rw (e, d) refl
  | inr e ↦ rw e (ground (arith, find_wsi-remove id j cs n))
]

pub AllLive-drop :
    (id : ℕ) (conns : List (Option Conn)) (ms : List Msg)
    → AllLive conns ms
    → AllLive (remove_conn id conns) (drop_outgoing id ms).0
unfolding drop_outgoing
AllLive-drop id conns [] h = tt
AllLive-drop id conns (m ∷ ms) h = elim (Bool-cases (m.conn_id == id)) [
  | inl e ↦ rw e (AllLive-drop id conns ms h.1)
  | inr e ↦ rw e (
    rw (find_wsi-remove id m.conn_id conns (==-ne m.conn_id id e)) h.0,
    AllLive-drop id conns ms h.1,
  )
]

pub length-drop_outgoing :
    (id : ℕ) (ms : List Msg) → length (drop_outgoing id ms).0 + (drop_outgoing id ms).1 ≡ length ms
unfolding drop_outgoing
length-drop_outgoing id [] = omega arith
length-drop_outgoing id (m ∷ ms) = ground (arith, length-drop_outgoing id ms)

pub AllLive-unlink :
    (id : ℕ) (conns : List (Option Conn)) (ms ms' : List Msg) (f : Msg)
    → unlink_frame id ms ≡ some (f, ms')
    → AllLive conns ms
    → AllLive conns ms'
unfolding unlink_frame
AllLive-unlink id conns [] ms' f h l = cc
AllLive-unlink id conns (m ∷ ms) ms' f h l = elim (Bool-cases (m.conn_id == id)) [
  | inl e ↦
      subst (λ (x : Msg × List Msg). AllLive conns x.1)
        (some-injective (m, ms) (f, ms') (rw e at h)) l.1
  | inr e ↦ elim (Option-cases (unlink_frame id ms)) [
    | inl n ↦ cc (rw (e, n) at h)
    | inr ((g, ns), n) ↦
        subst (λ (x : Msg × List Msg). AllLive conns x.1)
          (some-injective (g, m ∷ ns) (f, ms') (rw (e, n) at h))
          (l.0, AllLive-unlink id conns ms ns g n l.1)
  ]
]
