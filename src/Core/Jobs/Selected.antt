-- ===== src/Core/Jobs/Selected.antt =====
-- src/core/memory.c: what holds of the rows that a query gives.
use mathlib.Core.Path.{subst}
use mathlib.Core.Option.{some-injective}
use shellclaw.Common.{
  str_equal_iff, ℕ, zero, suc, Bool, true, false, ltb, some, List, [], ◌∷◌, ◌≡◌, inl, inr, refl,
  arith, map, take, take-all, Bool-cases, Bytes, str_equal, str_equal_refl, length,
}
use shellclaw.Core.Jobs.{
  JobRow, row_of, has_row, row_before, insert_row, ordered, selected, is_due, key_of, job_list_due,
  row, get_by_id, fill_row, job_text_max,
}
use shellclaw.Core.Jobs.Calls.{KeysUnique, Fits, AllFit, str_equal_sym}

module _ {A : Type 0} (P : A → Type 0) where
  abbrev pub Every : List A → Type 0
  Every [] = Unit
  Every (x ∷ xs) = P x × Every xs

  pub take-Every : (n : ℕ) (xs : List A) → Every xs → Every (take n xs)
  take-Every zero xs h = tt
  take-Every (suc n) [] h = tt
  take-Every (suc n) (x ∷ xs) h = (h.0, take-Every n xs h.1)

pub Every-map :
    {A B : Type 0} (P : A → Type 0) (Q : B → Type 0) (f : A → B) (xs : List A)
    → ((a : A) → P a → Q (f a))
    → Every P xs
    → Every Q (map f xs)
Every-map P Q f [] g h = tt
Every-map P Q f (x ∷ xs) g h = (g x h.0, Every-map P Q f xs g h.1)

pub Every-weaken :
    {A : Type 0} (P Q : A → Type 0) (xs : List A) → ((a : A) → P a → Q a) → Every P xs → Every Q xs
Every-weaken P Q [] g h = tt
Every-weaken P Q (x ∷ xs) g h = (g x h.0, Every-weaken P Q xs g h.1)

module _ (P : JobRow → Type 0) where
  insert_row-Every :
      (r : JobRow) (rows : List JobRow) → P r → Every P rows → Every P (insert_row r rows)
  unfolding insert_row
  insert_row-Every r [] p h = (p, tt)
  insert_row-Every r (s ∷ rows) p h = elim (Bool-cases (row_before s r)) [
    | inl t ↦ rw t (h.0, insert_row-Every r rows p h.1)
    | inr f ↦ rw f (p, h)
  ]

  ordered-Every : (rows : List JobRow) → Every P rows → Every P (ordered rows)
  unfolding ordered
  ordered-Every [] h = tt
  ordered-Every (r ∷ rows) h = insert_row-Every r (ordered rows) h.0 (ordered-Every rows h.1)

  selected-Every :
      (test : JobRow → Bool) (rows : List JobRow)
      → Every P rows
      → Every (λ r. P r × (test r ≡ true)) (selected test rows)
  unfolding selected
  selected-Every test [] h = tt
  selected-Every test (r ∷ rows) h = elim (Bool-cases (test r)) [
    | inl t ↦ rw t ((h.0, t), selected-Every test rows h.1)
    | inr f ↦ rw f (selected-Every test rows h.1)
  ]

-- what holds of every row of the table holds of the row behind each key that is due
pub job_list_due-Every :
    (P : JobRow → Type 0) (rows : List JobRow) (now max_count : ℕ)
    → Every P rows
    → Every
        (λ k. (r : JobRow) × (P r × (is_due now r ≡ true)) × (k ≡ key_of r))
        (job_list_due rows now max_count)
unfolding job_list_due
job_list_due-Every P rows now max_count h =
    let Due : JobRow → Type 0 = λ r. P r × (is_due now r ≡ true) in
    Every-map Due (λ k. (r : JobRow) × (P r × (is_due now r ≡ true)) × (k ≡ key_of r)) key_of
      (take max_count (ordered (selected (is_due now) rows))) (λ r p. (r, p, refl))
      (take-Every Due max_count (ordered (selected (is_due now) rows))
        (ordered-Every Due (selected (is_due now) rows) (selected-Every P (is_due now) rows h)))

-- a stored row is the row of its key, and fits
abbrev pub IsRowOf : List JobRow → JobRow → Type 0
IsRowOf rows r = (row_of rows r.id ≡ some r) × Fits r

stored_behind :
    (r : JobRow) (all rows : List JobRow)
    → has_row rows r.id ≡ false
    → Every (IsRowOf all) rows
    → Every (IsRowOf (r ∷ all)) rows
unfolding row_of has_row
stored_behind r all [] h e = tt
stored_behind r all (s ∷ rows) h e = elim (Bool-cases (str_equal s.id r.id)) [
  | inl t ↦ cc (rw t at h)
  | inr d ↦
      let other = str_equal_sym s.id r.id d in
      ((rw other e.0.0, e.0.1), stored_behind r all rows (rw d at h) e.1)
]

pub stored-IsRowOf :
    (rows : List JobRow) → KeysUnique rows → AllFit rows → Every (IsRowOf rows) rows
unfolding row_of
stored-IsRowOf [] k a = tt
stored-IsRowOf (r ∷ rows) k a = (
  (rw (str_equal_refl r.id) refl, a.0),
  stored_behind r rows rows k.0 (stored-IsRowOf rows k.1 a.1),
)

-- the row as it is read
abbrev pub read_of : JobRow → JobRow
read_of r = record r { channel = take 63 r.channel; recipient = take 63 r.recipient }

pub get_by_id-stored :
    (rows : List JobRow) (id : Bytes) (r : JobRow)
    → row_of rows id ≡ some r
    → Fits r
    → get_by_id rows id ≡ row (read_of r)
unfolding get_by_id fill_row
get_by_id-stored rows id r e f =
    let s : ltb job_text_max (length r.schedule) ≡ false = ground (arith, f.1.0) in
    let m : ltb job_text_max (length r.message) ≡ false = ground (arith, f.1.1) in
    let i : take 127 r.id ≡ r.id = take-all 127 r.id (omega (arith, f.0)) in
    rw e (rw (s, m, i) refl)

-- what is found by an id is a stored row of that id
pub row_of-found :
    (rows : List JobRow) (id : Bytes) (r : JobRow)
    → AllFit rows
    → row_of rows id ≡ some r
    → Fits r × (r.id ≡ id)
unfolding row_of
row_of-found [] id r a e = cc
row_of-found (s ∷ rows) id r a e = elim (Bool-cases (str_equal s.id id)) [
  | inr f ↦ row_of-found rows id r a.1 (rw f at e)
  | inl t ↦
      let same : s ≡ r = some-injective s r (rw t at e) in
      subst (λ x. Fits x × (x.id ≡ id)) same (a.0, (str_equal_iff s.id id).0 t)
]
