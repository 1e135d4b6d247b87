-- ===== src/Core/Session/Compacted.antt =====
-- src/core/agent.c: what a compaction leaves of a session.
use mathlib.Core.Path.{subst}
use mathlib.Core.Option.{some-injective}
use shellclaw.Common.{
  ℕ, zero, suc, ◌+◌, ◌-◌, ◌<◌, ◌≤◌, Bool, true, false, ◌&&◌, ◌||◌, not, Option, none, some, List,
  [], ◌∷◌, ◌++◌, ◌==◌, ◌≡◌, ◌⊎◌, inl, inr, refl, sym, ◌∙◌, ap, arith, if◌then◌else◌, Bool-cases,
  Option-cases, Bytes, codes, is_empty, str_equal, length, length-drop, take, take-all, drop,
  get_or,
}
use shellclaw.Providers.Router.{is_success}
use shellclaw.Core.Session.{
  Item, role_of, content_of, is_user, starts_with_user, Pass, pass_step, take_line, value_or,
  summarize, with_summary, fold_summary, summary_user, compacted_items, Chat, compact_items, plain,
  summarize_system, summary_result_max,
}

-- an object with a string as its role, as every message is that the agent writes
abbrev pub is_spoken : Item → Bool
is_spoken item = item.is_object && elim item.role [ none ↦ false | some r ↦ true ]

abbrev pub AllSpoken : List Item → Type 0
AllSpoken [] = Unit
AllSpoken (x ∷ xs) = (is_spoken x ≡ true) × AllSpoken xs

abbrev blank_item : Item
blank_item = record { is_object = false; role = none; content = none; others = [] }

-- a pass over the items that stops at index `j`, with what it has read till then
record Stop (i : ℕ) (buf : Bytes) (items : List Item) (p : Pass) (j : ℕ) : Type 0 where
  place : ℕ
  at : j ≡ i + place
  inside : place < length items
  folds :
      p.fold ≡ (j == 1 && not (str_equal (role_of (get_or items place blank_item)) (codes "user")))
  moved : (0 < place) ⊎ (p.source ≡ buf)

-- what a step makes of the `Stop` of the items behind
pass_step-Stop :
    (i : ℕ) (buf : Bytes) (item : Item) (items : List Item) (line : Option Bytes) (rest : Pass)
    (j : ℕ)
    → ((b : Bytes) → line ≡ some b → rest.stopped_at ≡ some j → Stop (i + 1) b items rest j)
    → (pass_step buf i (role_of item) line rest).stopped_at ≡ some j
    → Stop i buf (item ∷ items) (pass_step buf i (role_of item) line rest) j
pass_step-Stop i buf item items none rest j later e =
    let same = some-injective i j e in
    record {
      place = 0;
      at = omega (arith, same);
      inside = omega arith;
      folds = ap (λ (x : ℕ). x == 1 && not (str_equal (role_of item) (codes "user"))) same;
      moved = inr refl;
    }
pass_step-Stop i buf item items (some b) rest j later e =
    let s = later b refl e in
    record {
      place = suc s.place;
      at = omega (arith, s.at);
      inside = omega (arith, s.inside);
      folds = s.folds;
      moved = inl (omega arith);
    }

summarize-Stop :
    (i : ℕ) (buf : Bytes) (items : List Item) (j : ℕ)
    → (summarize i buf items).stopped_at ≡ some j
    → Stop i buf items (summarize i buf items) j
unfolding summarize
summarize-Stop i buf [] j h = cc
summarize-Stop i buf (item ∷ items) j h =
    let line =
      if item.is_object then take_line buf (role_of item) (content_of item) else some buf in
    pass_step-Stop i buf item items line (summarize (i + 1) (value_or buf line) items) j
      (λ (b : Bytes) (l : line ≡ some b) e.
        subst (λ (v : Bytes). Stop (i + 1) v items (summarize (i + 1) (value_or buf line) items) j)
          (ap (value_or buf) l) (summarize-Stop (i + 1) (value_or buf line) items j e))
      h

get_or-take :
    (n k : ℕ) (xs : List Item) → k < n → get_or (take n xs) k blank_item ≡ get_or xs k blank_item
get_or-take zero k xs l = absurd (omega arith)
get_or-take (suc n) k [] l = refl
get_or-take (suc n) zero (x ∷ xs) l = refl
get_or-take (suc n) (suc k) (x ∷ xs) l = get_or-take n k xs (omega arith)

length-take_le : (n : ℕ) (xs : List Item) → length (take n xs) ≤ n
length-take_le zero xs = omega arith
length-take_le (suc n) [] = omega arith
length-take_le (suc n) (x ∷ xs) = omega (arith, length-take_le n xs)

spoken_user :
    (x : Item)
    → is_spoken x ≡ true
    → (x.is_object && is_user x.role) ≡ str_equal (role_of x) (codes "user")
spoken_user x h = by_role x.is_object x.role h
  where
    by_role :
        (o : Bool) (r : Option Bytes)
        → (o && elim r [ none ↦ false | some _ ↦ true ]) ≡ true
        → (o && is_user r) ≡ str_equal (elim r [ none ↦ codes "user" | some s ↦ s ]) (codes "user")
    by_role true (some s) e = refl
    by_role true none e = cc
    by_role false (some s) e = cc
    by_role false none e = cc

drop-user :
    (k : ℕ) (xs : List Item)
    → AllSpoken xs
    → k < length xs
    → starts_with_user (drop k xs) ≡ str_equal (role_of (get_or xs k blank_item)) (codes "user")
drop-user k [] h l = absurd (omega arith)
drop-user zero (x ∷ xs) h l = spoken_user x h.0
drop-user (suc k) (x ∷ xs) h l = drop-user k xs h.1 (omega arith)

drop-drop : (k : ℕ) (xs : List Item) → drop 1 (drop k xs) ≡ drop (suc k) xs
drop-drop zero [] = refl
drop-drop zero (x ∷ xs) = refl
drop-drop (suc k) [] = refl
drop-drop (suc k) (x ∷ xs) = drop-drop k xs

-- what the first message is: the summary, or the message before those that are kept with the summary
-- before its content
pub data Opening (items rest : List Item) (summary : Bytes) : Item → Type 0 where
  alone :
      Opening items rest summary (record {
        is_object = true;
        role = some (codes "user");
        content = some summary;
        others = [];
      })
  folded :
      (x : Item) (k : ℕ)
      → drop k items ≡ x ∷ rest
      → Opening items rest summary
          (record x { content = some (summary ++ (codes "\n\n" ++ content_of x)) })

-- fewer messages, of which all but the first are the last ones of the session
pub record IsCompacted (items new : List Item) (summary : Bytes) : Type 0 where
  pub first : Item
  pub rest : List Item
  pub split : new ≡ first ∷ rest
  pub opening : Opening items rest summary first
  pub fewer : length new < length items
  pub filled : 0 < length new
  pub kept : drop 1 new ≡ drop (length items + 1 - length new) items

with_summary-IsCompacted :
    (items : List Item) (start : ℕ) (merge : Bool) (summary : Bytes) (new : List Item)
    → 0 < start
    → start < length items
    → ((merge ≡ true) ⊎ (1 < start))
    → with_summary merge summary (drop start items) ≡ some new
    → IsCompacted items new summary
with_summary-IsCompacted items start false summary new z l m h =
    let e = some-injective (summary_user summary ∷ drop start items) new h in
    subst (λ (xs : List Item). IsCompacted items xs summary) e
      (record {
        first = summary_user summary;
        rest = drop start items;
        split = refl;
        opening = alone;
        fewer = elim m [ inl t ↦ cc | inr b ↦ omega (arith, length-drop start items, b) ];
        filled = omega arith;
        kept =
            let at : start ≡ length items + 1 - suc (length (drop start items)) =
              omega (arith, length-drop start items) in
            ap (λ (k : ℕ). drop k items) at;
      })
with_summary-IsCompacted items start true summary new z l m h = merged (drop start items) refl h
  where
    merged :
        (kept : List Item)
        → drop start items ≡ kept
        → with_summary true summary kept ≡ some new
        → IsCompacted items new summary
    merged [] d e = cc
    merged (x ∷ kept) d e =
        let s = some-injective (fold_summary x summary ∷ kept) new e in
        let n : suc (length kept) ≡ length items - start =
          sym (ap length d) ∙ length-drop start items in
        subst (λ (xs : List Item). IsCompacted items xs summary) s
          (record {
            first = fold_summary x summary;
            rest = kept;
            split = refl;
            opening = folded x start d;
            fewer = omega (arith, n);
            filled = omega arith;
            kept =
                let at : suc start ≡ length items + 1 - suc (length kept) = omega (arith, n) in
                sym (ap (drop 1) d) ∙ drop-drop start items ∙ ap (λ (k : ℕ). drop k items) at;
          })

module _ (items : List Item) (max_ctx : ℕ) (s : AllSpoken items) (b : 2 ≤ max_ctx)
    (over : max_ctx < length items) where
  IsCompacted-at :
      (p : Pass) (start : ℕ) (summary : Bytes) (new : List Item)
      → 0 < start
      → start < length items
      → (((starts_with_user (drop start items) || p.fold) ≡ true) ⊎ (1 < start))
      → with_summary
          (starts_with_user (drop start items) || p.fold)
          summary
          (take (length items - start) (drop start items))
        ≡ some new
      → IsCompacted items new summary
  IsCompacted-at p start summary new z l m h =
      let all =
        take-all (length items - start) (drop start items)
          (omega (arith, length-drop start items)) in
      with_summary-IsCompacted items start (starts_with_user (drop start items) || p.fold) summary
        new z l m (rw all at h)

  compacted_items-IsCompacted :
      (p : Pass) (summary : Bytes) (new : List Item) (o : Option ℕ)
      → p.stopped_at ≡ o
      → ((j : ℕ) → o ≡ some j → Stop 0 [] (take (length items - max_ctx + 1) items) p j)
      → is_empty p.source ≡ false
      → compacted_items items (length items) max_ctx p summary ≡ some new
      → IsCompacted items new (take (summary_result_max - 1) summary)
  compacted_items-IsCompacted p summary new none e st f h =
      IsCompacted-at p (length items - (max_ctx - 1)) _ new (omega arith) (omega arith)
        (inr (omega arith)) (rw e at h)
  compacted_items-IsCompacted p summary new (some j) e st f h =
      let stop = st j refl in
      let bound = length-take_le (length items - max_ctx + 1) items in
      let inside : j < length items = omega (arith, stop.at, stop.inside, bound) in
      let after_first : 0 < j = elim stop.moved [
        | inl m ↦ omega (arith, m, stop.at)
        | inr empty ↦ cc (rw empty at f)
      ] in
      IsCompacted-at p j _ new after_first inside (second j stop after_first inside bound)
        (rw e at h)
    where
      second :
          (j : ℕ)
          → Stop 0 [] (take (length items - max_ctx + 1) items) p j
          → 0 < j
          → j < length items
          → length (take (length items - max_ctx + 1) items) ≤ length items - max_ctx + 1
          → ((starts_with_user (drop j items) || p.fold) ≡ true) ⊎ (1 < j)
      second j stop z inside bound = elim (Bool-cases (j == 1)) [
        | inr later ↦ inr (ground arith)
        | inl one ↦
            let here : stop.place ≡ j = omega (arith, stop.at) in
            let in_take =
              get_or-take (length items - max_ctx + 1) stop.place items
                (omega (arith, stop.inside, bound)) in
            let user = drop-user j items s inside in
            let f : p.fold
                ≡ (true && not (str_equal (role_of (get_or items j blank_item)) (codes "user"))) =
              rw (one, in_take, here) at stop.folds in
            inl (rw (user, f) (ground arith))
      ]

-- A compaction of a session over its limit, all of whose messages have a role, leaves fewer messages if
-- it succeeds: the last ones of the session as they were, behind a first one. That is a message of the
-- user with the summary, or the next one of the session with the summary before its content, where the
-- summary is what the model answers when it is asked for one, cut to 4095 bytes.
pub compact_items-IsCompacted :
    (chat : Chat) (items new : List Item) (max_ctx : ℕ)
    → AllSpoken items
    → 2 ≤ max_ctx
    → max_ctx < length items
    → compact_items chat items (length items) max_ctx ≡ some new
    → (source : Bytes) × (answer : Bytes) × ((chat
          (plain (codes "system") summarize_system ∷ plain (codes "user") source ∷ [])).1.content
        ≡ some answer)
      × IsCompacted items new (take (summary_result_max - 1) answer)
unfolding compact_items
compact_items-IsCompacted chat items new max_ctx s b over h =
    let source = take (length items - max_ctx + 1) items in
    let p = summarize 0 [] source in
    let asked = plain (codes "system") summarize_system ∷ plain (codes "user") p.source ∷ [] in
    let r = chat asked in
    elim (Bool-cases (is_empty p.source)) [
      | inl empty ↦ cc (rw empty at h)
      | inr filled ↦ elim (Bool-cases (is_success r.0)) [
        | inr failed ↦ cc (rw (filled, failed) at h)
        | inl fine ↦ elim (Option-cases r.1.content) [
          | inl nothing ↦ cc (rw (filled, fine, nothing) at h)
          | inr (summary, is) ↦ (
            p.source,
            summary,
            is,
            compacted_items-IsCompacted items max_ctx s b over p summary new p.stopped_at refl
                (λ j e. summarize-Stop 0 [] source j e) filled (rw (filled, fine, is) at h),
          )
        ]
      ]
    ]
