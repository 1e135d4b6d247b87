-- ===== src/Providers/Router/Walk.antt =====
-- src/providers/router.c: which backend answers a chat, and what the status then shows.
use mathlib.Core.List.{append_assoc}
use mathlib.Core.Path.{ap₂}
use native.Mathlib.Nat.{add-zero, zero-add}
use shellclaw.Common.{
  ℕ, suc, ◌+◌, ◌-◌, Bool, true, false, Option, none, some, List, [], ◌∷◌, ◌++◌, ◌≡◌, ◌⊎◌, inl, inr,
  refl, sym, ◌∙◌, ap, arith, Bool-cases, Bytes, length, length-append, take, get_elem?,
  get_elem?-middle, is_empty, pos, negsuc,
}
use shellclaw.Providers.Response.{Response, cleared, allows_fallback_retry}
use shellclaw.Providers.Router.{
  Backend, World, Router, RouterConfig, or_empty, snap_set_active, snapshot_set_last_err,
  snap_act_sz, is_success, chat_walk, chat_guarded, composite_chat,
}

-- The backend fails, with an error after which the next one is tried.
abbrev pub IsRetryable : World → Backend → Type 0
IsRetryable w b =
    (is_success (w.chat b).0 ≡ false) × (allows_fallback_retry (w.chat b).1.content ≡ true)

abbrev pub AllRetryable : World → List Backend → Type 0
AllRetryable w [] = Unit
AllRetryable w (b ∷ bs) = IsRetryable w b × AllRetryable w bs

-- The router once `b` at place `ix` has answered.
abbrev pub answered : World → Router → Backend → ℕ → Router
answered w r b ix = snapshot_set_last_err (snap_set_active r (or_empty (w.name b)) ix) []

module _ (w : World) where
  walk-answered :
      (pre post : List Backend) (b : Backend) (r : Router) (ix : ℕ)
      → AllRetryable w pre
      → is_success (w.chat b).0 ≡ true
      → chat_walk w r ix (pre ++ b ∷ post) ≡ (pos 0, (w.chat b).1, answered w r b (ix + length pre))
  unfolding chat_walk
  walk-answered [] post b r ix h e = rw (e, add-zero)
  walk-answered (p ∷ pre) post b r ix (h, hs) e =
      let here : ix + suc (length pre) ≡ ix + 1 + length pre = omega arith in
      rw (h.0, h.1, here)
        (walk-answered pre post b (snapshot_set_last_err r (or_empty (w.chat p).1.content)) (ix + 1)
          hs e)

  walk-refused :
      (pre post : List Backend) (b : Backend) (r : Router) (ix : ℕ)
      → AllRetryable w pre
      → is_success (w.chat b).0 ≡ false
      → allows_fallback_retry (w.chat b).1.content ≡ false
      → chat_walk w r ix (pre ++ b ∷ post)
        ≡ ((w.chat b).0, (w.chat b).1, snapshot_set_last_err r (or_empty (w.chat b).1.content))
  unfolding chat_walk
  walk-refused [] post b r ix h e n = rw (e, n)
  walk-refused (p ∷ pre) post b r ix (h, hs) e n =
      rw (h.0, h.1)
        (walk-refused pre post b (snapshot_set_last_err r (or_empty (w.chat p).1.content)) (ix + 1)
          hs e n)

module _ (w : World) (r : Router) (cfg : RouterConfig) (response : Response)
    (c : r.cfg ≡ some cfg) where
  not_empty :
      (pre post : List Backend) (b : Backend)
      → r.backends ≡ pre ++ b ∷ post
      → is_empty r.backends ≡ false
  not_empty [] post b e = rw e
  not_empty (p ∷ pre) post b e = rw e

  chat-walk :
      (pre post : List Backend) (b : Backend)
      → r.backends ≡ pre ++ b ∷ post
      → composite_chat w r response ≡ chat_walk w r 0 (pre ++ b ∷ post)
  unfolding composite_chat
  chat-walk pre post b e =
      ap₂ (chat_guarded w r response) c (not_empty pre post b e) ∙ ap (chat_walk w r 0) e

  -- The first backend in the order of the chain that succeeds answers, provided that each one before
  -- it failed in a way that lets the next be tried. The status then names it and shows no error.
  pub chat-answered :
      (pre post : List Backend) (b : Backend)
      → r.backends ≡ pre ++ b ∷ post
      → AllRetryable w pre
      → is_success (w.chat b).0 ≡ true
      → composite_chat w r response ≡ (pos 0, (w.chat b).1, answered w r b (length pre))
  chat-answered pre post b e h s =
      chat-walk pre post b e
      ∙ walk-answered w pre post b r 0 h s
      ∙ ap (λ (n : ℕ). (pos 0, (w.chat b).1, answered w r b n)) (zero-add (length pre))

  -- The first error that must not be tried again ends the walk with the value and the response of its
  -- backend. The active backend stays, and the status shows the error.
  pub chat-refused :
      (pre post : List Backend) (b : Backend)
      → r.backends ≡ pre ++ b ∷ post
      → AllRetryable w pre
      → is_success (w.chat b).0 ≡ false
      → allows_fallback_retry (w.chat b).1.content ≡ false
      → composite_chat w r response
        ≡ ((w.chat b).0, (w.chat b).1, snapshot_set_last_err r (or_empty (w.chat b).1.content))
  chat-refused pre post b e h s n = chat-walk pre post b e ∙ walk-refused w pre post b r 0 h s n

-- Where every backend fails in a way that lets the next be tried, the chat fails with an empty
-- response, and the active backend stays as it was.
walk-exhausted :
    (w : World) (bs : List Backend) (r : Router) (ix : ℕ)
    → AllRetryable w bs
    → (err : Bytes) × (chat_walk w r ix bs ≡ (negsuc 0, cleared, record r { snap_err = err }))
unfolding chat_walk
walk-exhausted w [] r ix h = (r.snap_err, refl)
walk-exhausted w (b ∷ bs) r ix (h, hs) =
    let (err, e) =
      walk-exhausted w bs (snapshot_set_last_err r (or_empty (w.chat b).1.content)) (ix + 1) hs in
    (err, rw (h.0, h.1) e)

-- Each list of backends has a first backend that ends the walk, or none.
pub data FirstStop (w : World) (bs : List Backend) : Type 0 where
  stops :
      (pre post : List Backend) (b : Backend)
      → bs ≡ pre ++ b ∷ post
      → AllRetryable w pre
      → (is_success (w.chat b).0 ≡ true)
        ⊎ ((is_success (w.chat b).0 ≡ false) × (allows_fallback_retry (w.chat b).1.content ≡ false))
      → FirstStop w bs
  exhausts : AllRetryable w bs → FirstStop w bs

FirstStop-cons :
    (w : World) (b : Backend) (bs : List Backend)
    → IsRetryable w b
    → FirstStop w bs
    → FirstStop w (b ∷ bs)
FirstStop-cons w b bs h (stops pre post c e hs s) = stops (b ∷ pre) post c (ap (◌∷◌ b) e) (h, hs) s
FirstStop-cons w b bs h (exhausts hs) = exhausts (h, hs)

pub first_stop : (w : World) (bs : List Backend) → FirstStop w bs
first_stop w [] = exhausts tt
first_stop w (b ∷ bs) = elim (Bool-cases (is_success (w.chat b).0)) [
  | inl s ↦ stops [] bs b refl tt (inl s)
  | inr s ↦ elim (Bool-cases (allows_fallback_retry (w.chat b).1.content)) [
    | inl a ↦ FirstStop-cons w b bs (s, a) (first_stop w bs)
    | inr a ↦ stops [] bs b refl tt (inr (s, a))
  ]
]

-- The status names the active backend: it is in the list at the index shown.
pub record IsConsistent (w : World) (r : Router) : Type 0 where
  pub active :
      (r.backends ≡ [])
      ⊎ ((b : Backend) × (get_elem? r.backends r.snap_chain_ix ≡ some b)
          × (r.snap_act ≡ take (snap_act_sz - 1) (or_empty (w.name b))))

answered-IsConsistent :
    (w : World) (r : Router) (pre post : List Backend) (b : Backend) (ix : ℕ)
    → r.backends ≡ pre ++ b ∷ post
    → length pre ≡ ix
    → IsConsistent w (answered w r b ix)
answered-IsConsistent w r pre post b ix e l = record {
  active = inr (
    b,
    ap (λ (bs : List Backend). get_elem? bs ix) e ∙ rw (← l) (get_elem?-middle pre post b),
    refl,
  );
}

walk-IsConsistent :
    (w : World) (r : Router) (ix : ℕ) (pre bs : List Backend)
    → r.backends ≡ pre ++ bs
    → length pre ≡ ix
    → IsConsistent w r
    → IsConsistent w (chat_walk w r ix bs).2
unfolding chat_walk
walk-IsConsistent w r ix pre [] e l h = h
walk-IsConsistent w r ix pre (b ∷ bs) e l h =
    let erred : IsConsistent w (snapshot_set_last_err r (or_empty (w.chat b).1.content)) = record {
      active = h.active;
    } in
    elim (Bool-cases (is_success (w.chat b).0)) [
      | inl s ↦ rw s (answered-IsConsistent w r pre bs b ix e l)
      | inr s ↦ elim (Bool-cases (allows_fallback_retry (w.chat b).1.content)) [
        | inl a ↦
            rw (s, a)
              (walk-IsConsistent w (snapshot_set_last_err r (or_empty (w.chat b).1.content))
                (ix + 1) (pre ++ b ∷ []) bs (e ∙ sym (append_assoc pre (b ∷ []) bs))
                (omega (arith, length-append pre (b ∷ []))) erred)
        | inr a ↦ rw (s, a) erred
      ]
    ]

-- Whatever the backends do, a chat keeps the status consistent.
pub chat-IsConsistent :
    (w : World) (r : Router) (response : Response)
    → IsConsistent w r
    → IsConsistent w (composite_chat w r response).2
unfolding composite_chat
chat-IsConsistent w r response h = guarded r.cfg (is_empty r.backends)
  where
    guarded :
        (c : Option RouterConfig) (e : Bool) → IsConsistent w (chat_guarded w r response c e).2
    guarded none false = h
    guarded none true = h
    guarded (some cfg) true = h
    guarded (some cfg) false = walk-IsConsistent w r 0 [] r.backends refl refl h
