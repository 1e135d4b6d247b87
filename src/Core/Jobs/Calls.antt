-- ===== src/Core/Jobs/Calls.antt =====
-- src/core/memory.c: the table of scheduled jobs after any calls.
use shellclaw.Common.{
  ◌<◌, ◌≤◌, Bool, false, Option, List, [], ◌∷◌, ◌++◌, ◌≡◌, inl, inr, refl, ◌∙◌, ap, arith, ltb, leb,
  map, Bytes, Bool-cases, str_equal, str_equal_iff, str_equal_refl, length, ℤ,
}
use shellclaw.Core.Jobs.{
  JobRow, has_row, job_create, remove_rows, job_delete, on_row, toggled, job_toggle, moved_to,
  job_update_next_run, job_text_max, id_size,
}

pub data JobCall : Type 0 where
  create : Bytes → Bytes → Bytes → Option Bytes → Option Bytes → ℤ → Bool → JobCall
  delete toggle : Bytes → JobCall
  update_next_run : Bytes → ℤ → JobCall

abbrev pub call : List JobRow → JobCall → Bool × List JobRow
call rows (create id schedule message channel recipient next_run enabled) =
    job_create rows id schedule message channel recipient next_run enabled
call rows (delete id) = job_delete rows id
call rows (toggle id) = job_toggle rows id
call rows (update_next_run id next_run) = job_update_next_run rows id next_run

unfoldable pub run : List JobRow → List JobCall → List JobRow
run rows [] = rows
run rows (c ∷ cs) = run (call rows c).1 cs

abbrev pub KeysUnique : List JobRow → Type 0
KeysUnique [] = Unit
KeysUnique (r ∷ rs) = (has_row rs r.id ≡ false) × KeysUnique rs

-- a row that is read as it was written
abbrev pub Fits : JobRow → Type 0
Fits r =
    (length r.id < id_size)
    × ((length r.schedule ≤ job_text_max) × (length r.message ≤ job_text_max))

abbrev pub AllFit : List JobRow → Type 0
AllFit [] = Unit
AllFit (r ∷ rs) = Fits r × AllFit rs

pub record IsStored (rows : List JobRow) : Type 0 where
  pub keys : KeysUnique rows
  pub fit : AllFit rows

pub str_equal_sym : (a b : Bytes) → str_equal a b ≡ false → str_equal b a ≡ false
str_equal_sym a b h = elim (Bool-cases (str_equal b a)) [
  | inr f ↦ f
  | inl t ↦ let e : b ≡ a = (str_equal_iff b a).0 t in cc (rw e at h, str_equal_refl a)
]

has_row-append :
    (rows : List JobRow) (r : JobRow) (id : Bytes)
    → has_row rows id ≡ false
    → str_equal r.id id ≡ false
    → has_row (rows ++ r ∷ []) id ≡ false
unfolding has_row
has_row-append [] r id h d = rw d refl
has_row-append (x ∷ rows) r id h d = elim (Bool-cases (str_equal x.id id)) [
  | inl t ↦ cc (rw t at h)
  | inr f ↦ rw f (has_row-append rows r id (rw f at h) d)
]

append-IsStored :
    (rows : List JobRow) (r : JobRow)
    → KeysUnique rows
    → AllFit rows
    → has_row rows r.id ≡ false
    → Fits r
    → KeysUnique (rows ++ r ∷ []) × AllFit (rows ++ r ∷ [])
unfolding has_row
append-IsStored [] r k a h f = ((refl, tt), (f, tt))
append-IsStored (x ∷ rows) r k a h f = elim (Bool-cases (str_equal x.id r.id)) [
  | inl t ↦ cc (rw t at h)
  | inr d ↦
      let rest = append-IsStored rows r k.1 a.1 (rw d at h) f in
      ((has_row-append rows r x.id k.0 (str_equal_sym x.id r.id d), rest.0), (a.0, rest.1))
]

has_row-remove :
    (rows : List JobRow) (key id : Bytes)
    → has_row rows id ≡ false
    → has_row (remove_rows rows key) id ≡ false
unfolding has_row remove_rows
has_row-remove [] key id h = refl
has_row-remove (x ∷ rows) key id h = elim (Bool-cases (str_equal x.id id)) [
  | inl t ↦ cc (rw t at h)
  | inr d ↦
      let rest = has_row-remove rows key id (rw d at h) in
      elim (Bool-cases (str_equal x.id key)) [ inl t ↦ rw t rest | inr f ↦ rw (f, d) rest ]
]

remove-IsStored :
    (rows : List JobRow) (key : Bytes)
    → KeysUnique rows
    → AllFit rows
    → KeysUnique (remove_rows rows key) × AllFit (remove_rows rows key)
unfolding remove_rows
remove-IsStored [] key k a = (tt, tt)
remove-IsStored (x ∷ rows) key k a =
    let rest = remove-IsStored rows key k.1 a.1 in
    elim (Bool-cases (str_equal x.id key)) [
      | inl t ↦ rw t rest
      | inr f ↦ rw f ((has_row-remove rows key x.id k.0, rest.0), (a.0, rest.1))
    ]

-- a change of a row that leaves its key and its texts
abbrev pub Keeps : (JobRow → JobRow) → Type 0
Keeps f = (r : JobRow) → (f r).id ≡ r.id × ((f r).schedule ≡ r.schedule × (f r).message ≡ r.message)

module _ (f : JobRow → JobRow) (keeps : Keeps f) (key : Bytes) where
  on_row-id : (r : JobRow) → (on_row f key r).id ≡ r.id
  on_row-id r = elim (Bool-cases (str_equal r.id key)) [
    | inl t ↦ rw t (keeps r).0
    | inr n ↦ rw n refl
  ]

  on_row-Fits : (r : JobRow) → Fits r → Fits (on_row f key r)
  on_row-Fits r h = elim (Bool-cases (str_equal r.id key)) [
    | inl t ↦ let k = keeps r in rw (t, k.0, k.1.0, k.1.1) h
    | inr n ↦ rw n h
  ]

  pub has_row-map :
      (rows : List JobRow) (id : Bytes) → has_row (map (on_row f key) rows) id ≡ has_row rows id
  unfolding has_row
  has_row-map [] id = refl
  has_row-map (x ∷ rows) id = rw (on_row-id x, has_row-map rows id) refl

  map-IsStored :
      (rows : List JobRow)
      → KeysUnique rows
      → AllFit rows
      → KeysUnique (map (on_row f key) rows) × AllFit (map (on_row f key) rows)
  map-IsStored [] k a = (tt, tt)
  map-IsStored (x ∷ rows) k a =
      let rest = map-IsStored rows k.1 a.1 in
      (
        (
          ap (has_row (map (on_row f key) rows)) (on_row-id x) ∙ (has_row-map rows x.id ∙ k.0),
          rest.0,
        ),
        (on_row-Fits x a.0, rest.1),
      )

IsStored-of : (rows : List JobRow) → KeysUnique rows × AllFit rows → IsStored rows
IsStored-of rows h = record { keys = h.0; fit = h.1 }

create-IsStored :
    (rows : List JobRow) (id schedule message : Bytes) (channel recipient : Option Bytes)
    (next_run : ℤ) (enabled : Bool)
    → IsStored rows
    → IsStored (job_create rows id schedule message channel recipient next_run enabled).1
unfolding job_create
create-IsStored rows id schedule message channel recipient next_run enabled h =
    elim (Bool-cases (leb id_size (length id))) [
      | inl long ↦ rw long h
      | inr short ↦ elim (Bool-cases (ltb job_text_max (length schedule))) [
        | inl long ↦ rw (short, long) h
        | inr s ↦ elim (Bool-cases (ltb job_text_max (length message))) [
          | inl long ↦ rw (short, s, long) h
          | inr m ↦ elim (Bool-cases (has_row rows id)) [
            | inl there ↦ rw (short, s, m, there) h
            | inr new ↦
                rw (short, s, m, new)
                  (IsStored-of (rows ++ _ ∷ []) (
                    append-IsStored rows _ h.keys h.fit new
                      (ground arith, (ground arith, ground arith))))
          ]
        ]
      ]
    ]

call-IsStored : (rows : List JobRow) (c : JobCall) → IsStored rows → IsStored (call rows c).1
unfolding job_delete job_toggle job_update_next_run
call-IsStored rows (create id schedule message channel recipient next_run enabled) h =
    create-IsStored rows id schedule message channel recipient next_run enabled h
call-IsStored rows (delete id) h = IsStored-of _ (remove-IsStored rows id h.keys h.fit)
call-IsStored rows (toggle id) h =
    IsStored-of _ (map-IsStored toggled (λ r. (refl, (refl, refl))) id rows h.keys h.fit)
call-IsStored rows (update_next_run id next_run) h =
    IsStored-of _
      (map-IsStored (moved_to next_run) (λ r. (refl, (refl, refl))) id rows h.keys h.fit)

-- Through any sequence of calls that change the table of jobs, each id keeps at most one row, and the id,
-- the schedule and the message of every row fit the buffers that they are read into: 127 bytes for the
-- id, and 32 KiB for the two texts. Of the channel and the recipient nothing is said.
pub run-IsStored : (cs : List JobCall) (rows : List JobRow) → IsStored rows → IsStored (run rows cs)
unfolding run
run-IsStored [] rows h = h
run-IsStored (c ∷ cs) rows h = run-IsStored cs (call rows c).1 (call-IsStored rows c h)
