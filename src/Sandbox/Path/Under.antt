-- ===== src/Sandbox/Path/Under.antt =====
-- src/sandbox/allowlist_path.c: what a path that is let through resolves to.
use shellclaw.Common.{
  ℕ, zero, suc, ◌<◌, true, ◌&&◌, ◌||◌, Option, none, some, [], ◌∷◌, ◌++◌, ◌≡◌, inl, inr, refl, ap,
  arith, Bytes, codes, Bool-cases, Option-cases, leb, ◌==◌, ==_iff, is_empty, length, drop,
  has_prefix, str_equal,
}
use shellclaw.Sandbox.Path.{
  FileSystem, path_max, ends_segment, is_under, ancestor_from, lexical_collapse_path,
  collapsed_is_under, path_is_under, actual_workspace, path_is_under_workspace,
}

-- The workspace itself, or a path that goes on with a slash behind it.
pub record IsBelow (resolved ws : Bytes) : Type 0 where
  pub tail : Bytes
  pub is_tail : resolved ≡ ws ++ tail
  pub ends : ends_segment tail ≡ true

-- the parent, taken a number of times
abbrev pub up : FileSystem → ℕ → Bytes → Bytes
up fs zero path = path
up fs (suc n) path = up fs n (fs.dirname path)

-- the path that was resolved: the one given, or the first that exists of the collapsed one and its
-- parents
pub data Source (fs : FileSystem) (path q : Bytes) : Type 0 where
  itself : q ≡ path → Source fs path q
  above :
      (collapsed : Bytes) (n : ℕ)
      → fs.realpath path ≡ none
      → lexical_collapse_path fs path path_max ≡ some collapsed
      → ((k : ℕ) → k < n → fs.realpath (up fs k collapsed) ≡ none)
      → q ≡ up fs n collapsed
      → Source fs path q

pub record Confined (fs : FileSystem) (path ws : Bytes) : Type 0 where
  pub source : Bytes
  pub resolved : Bytes
  pub from : Source fs path source
  pub resolves : fs.realpath source ≡ some resolved
  pub below : IsBelow resolved ws

has_prefix-split : (s p : Bytes) → has_prefix s p ≡ true → s ≡ p ++ drop (length p) s
unfolding has_prefix
has_prefix-split s [] h = refl
has_prefix-split [] (p ∷ ps) h = cc
has_prefix-split (c ∷ cs) (p ∷ ps) h =
    let same : (c == p) ≡ true = ground (arith, h) in
    let rest : has_prefix cs ps ≡ true = ground (arith, h) in
    let e = (==_iff c p).0 same in rw e (ap (◌∷◌ p) (has_prefix-split cs ps rest))

is_under-IsBelow : (r ws : Bytes) → is_under r ws ≡ true → IsBelow r ws
unfolding is_under
is_under-IsBelow r ws h = elim (Bool-cases (is_empty ws)) [
  | inl e ↦ cc (rw e at h)
  | inr e ↦
      let both : (has_prefix r ws && ends_segment (drop (length ws) r)) ≡ true = rw e at h in
      record {
        tail = drop (length ws) r;
        is_tail = has_prefix-split r ws (ground (arith, both));
        ends = ground (arith, both);
      }
]

-- the first of the path and its parents that resolves, which it does below the workspace
pub record Ancestor (fs : FileSystem) (path ws : Bytes) : Type 0 where
  pub hops : ℕ
  pub passed : (k : ℕ) → k < hops → fs.realpath (up fs k path) ≡ none
  pub resolved : Bytes
  pub resolves : fs.realpath (up fs hops path) ≡ some resolved
  pub below : IsBelow resolved ws

-- what is passed on the way when there is one more behind
passed_by :
    (fs : FileSystem) (path : Bytes) (n : ℕ)
    → fs.realpath path ≡ none
    → ((k : ℕ) → k < n → fs.realpath (up fs k (fs.dirname path)) ≡ none)
    → (k : ℕ) → k < suc n
    → fs.realpath (up fs k path) ≡ none
passed_by fs path n here earlier zero l = here
passed_by fs path n here earlier (suc k) l = earlier k (omega arith)

ancestor_from-Ancestor :
    (fs : FileSystem) (rounds : ℕ) (path ws : Bytes)
    → ancestor_from fs rounds path ws ≡ true
    → Ancestor fs (fs.dirname path) ws
unfolding ancestor_from
ancestor_from-Ancestor fs zero path ws h = cc
ancestor_from-Ancestor fs (suc rounds) path ws h =
    elim (Bool-cases (is_empty (fs.dirname path) || leb path_max (length (fs.dirname path)))) [
      | inl e ↦ cc (rw e at h)
      | inr e ↦ elim (Option-cases (fs.realpath (fs.dirname path))) [
        | inr (r, u) ↦ record {
          hops = 0;
          passed = λ k l. absurd (omega arith);
          resolved = r;
          resolves = u;
          below = is_under-IsBelow r ws (rw (e, u) at h);
        }
        | inl u ↦
            elim (Bool-cases (
              str_equal (fs.dirname path) (codes ".") || str_equal (fs.dirname path) (codes "/"))) [
                | inl t ↦ cc (rw (e, u, t) at h)
                | inr t ↦
                    let next =
                      ancestor_from-Ancestor fs rounds (fs.dirname path) ws (rw (e, u, t) at h) in
                    record {
                      hops = suc next.hops;
                      passed = passed_by fs (fs.dirname path) next.hops u next.passed;
                      resolved = next.resolved;
                      resolves = next.resolves;
                      below = next.below;
                    }
              ]
      ]
    ]

module _ (fs : FileSystem) (path ws collapsed : Bytes) (missing : fs.realpath path ≡ none)
    (c : lexical_collapse_path fs path path_max ≡ some collapsed) where
  collapsed-Confined :
      (o : Option Bytes)
      → fs.realpath collapsed ≡ o
      → collapsed_is_under fs collapsed ws o ≡ true
      → Confined fs path ws
  collapsed-Confined (some r) e h = record {
    source = collapsed;
    resolved = r;
    from = above collapsed 0 missing c (λ k l. absurd (omega arith)) refl;
    resolves = e;
    below = is_under-IsBelow r ws h;
  }
  collapsed-Confined none e h =
      elim (Bool-cases (is_empty collapsed || leb path_max (length collapsed))) [
        | inl bad ↦ cc (rw bad at h)
        | inr fits ↦
            let a = ancestor_from-Ancestor fs path_max collapsed ws (rw fits at h) in
            record {
              source = up fs (suc a.hops) collapsed;
              resolved = a.resolved;
              from =
                  above collapsed (suc a.hops) missing c (passed_by fs collapsed a.hops e a.passed)
                    refl;
              resolves = a.resolves;
              below = a.below;
            }
      ]

resolved-Confined :
    (fs : FileSystem) (path ws : Bytes) (o : Option Bytes)
    → fs.realpath path ≡ o
    → path_is_under fs path ws o ≡ true
    → Confined fs path ws
resolved-Confined fs path ws (some r) e h = record {
  source = path;
  resolved = r;
  from = itself refl;
  resolves = e;
  below = is_under-IsBelow r ws h;
}
resolved-Confined fs path ws none e h =
    elim (Option-cases (lexical_collapse_path fs path path_max)) [
      | inl u ↦ cc (rw u at h)
      | inr (collapsed, u) ↦
          collapsed-Confined fs path ws collapsed e u (fs.realpath collapsed) refl (rw u at h)
    ]

-- A path is let through only if something resolves to the workspace or below it: the path itself where
-- it exists, and otherwise the first that exists of the collapsed path and its parents.
pub path_is_under_workspace-Confined :
    (fs : FileSystem) (path workspace_root : Bytes)
    → path_is_under_workspace fs path workspace_root ≡ true
    → Confined fs path (actual_workspace workspace_root (fs.realpath workspace_root))
unfolding path_is_under_workspace
path_is_under_workspace-Confined fs path root h = elim (Bool-cases (is_empty root)) [
  | inl e ↦ cc (rw e at h)
  | inr e ↦
      resolved-Confined fs path (actual_workspace root (fs.realpath root)) (fs.realpath path) refl
        (rw e at h)
]
