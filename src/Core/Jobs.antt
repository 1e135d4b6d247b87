-- ===== src/Core/Jobs.antt =====
-- src/core/memory.c: the scheduled jobs. The table `cron_jobs` is a list of its rows, and each function
-- what its statement does to it; the database is open and its calls succeed, but for the insertion of a
-- key that is there. `true` is 0, `false` is -1.
pub mod Calls
pub mod Selected
mod Tests
use shellclaw.Common.{
  ℕ, ◌-◌, ◌*◌, Bool, true, false, ◌&&◌, ◌||◌, not, Option, none, some, List, [], ◌∷◌, ◌++◌, ◌==◌,
  ltb, leb, if◌then◌else◌, map, Bytes, str_equal, is_empty, length, take, ℤ, pos, negsuc,
}

abbrev pub job_text_max : ℕ
job_text_max = 32 * 1024

abbrev pub id_size : ℕ
id_size = 128

pub record JobRow : Type 0 where
  pub id : Bytes
  pub schedule : Bytes
  pub message : Bytes
  pub channel : Bytes
  pub recipient : Bytes
  pub next_run : ℤ
  pub enabled : Bool

-- a row of the table, as it is read into the fields of fixed size; `none` where a text is too long
unfoldable pub fill_row : JobRow → Option JobRow
fill_row r =
    if ltb job_text_max (length r.schedule) || ltb job_text_max (length r.message)
    then none
    else some (record r {
      id = take (id_size - 1) r.id;
      channel = take 63 r.channel;
      recipient = take 63 r.recipient;
    })

abbrev pub text_or_empty : Option Bytes → Bytes
text_or_empty none = []
text_or_empty (some t) = t

-- the first row of a key, of which there is one at most
unfoldable pub row_of : List JobRow → Bytes → Option JobRow
row_of [] id = none
row_of (r ∷ rs) id = let rest = row_of rs id in if str_equal r.id id then some r else rest

unfoldable pub has_row : List JobRow → Bytes → Bool
has_row [] id = false
has_row (r ∷ rs) id = str_equal r.id id || has_row rs id

abbrev pub insert_job : List JobRow → JobRow → Bool × List JobRow
insert_job rows r = if has_row rows r.id then (false, rows) else (true, rows ++ r ∷ [])

unfoldable pub job_create :
    List JobRow
    → Bytes
    → Bytes
    → Bytes
    → Option Bytes
    → Option Bytes
    → ℤ
    → Bool
    → Bool × List JobRow
job_create rows id schedule message channel recipient next_run enabled =
    if leb id_size (length id)
    then (false, rows)
    else if ltb job_text_max (length schedule)
    then (false, rows)
    else if ltb job_text_max (length message)
    then (false, rows)
    else insert_job rows (record {
      id = id;
      schedule = schedule;
      message = message;
      channel = text_or_empty channel;
      recipient = text_or_empty recipient;
      next_run = next_run;
      enabled = enabled;
    })

unfoldable pub remove_rows : List JobRow → Bytes → List JobRow
remove_rows [] id = []
remove_rows (r ∷ rs) id =
    let rest = remove_rows rs id in if str_equal r.id id then rest else r ∷ rest

unfoldable pub job_delete : List JobRow → Bytes → Bool × List JobRow
job_delete rows id = (has_row rows id, remove_rows rows id)

abbrev pub on_row : (JobRow → JobRow) → Bytes → JobRow → JobRow
on_row f id r = if str_equal r.id id then f r else r

abbrev pub toggled : JobRow → JobRow
toggled r = record r { enabled = not r.enabled }

unfoldable pub job_toggle : List JobRow → Bytes → Bool × List JobRow
job_toggle rows id = (has_row rows id, map (on_row toggled id) rows)

abbrev pub moved_to : ℤ → JobRow → JobRow
moved_to next_run r = record r { next_run = next_run }

-- an update of no row is no error
unfoldable pub job_update_next_run : List JobRow → Bytes → ℤ → Bool × List JobRow
job_update_next_run rows id next_run = (true, map (on_row (moved_to next_run) id) rows)

-- the order of SQLite on a text, which is that of its bytes
unfoldable pub text_before : Bytes → Bytes → Bool
text_before a [] = false
text_before [] (d ∷ b) = true
text_before (c ∷ a) (d ∷ b) = let rest = text_before a b in ltb c d || (c == d && rest)

abbrev pub int_before : ℤ → ℤ → Bool
int_before (negsuc m) (negsuc n) = ltb n m
int_before (negsuc m) (pos n) = true
int_before (pos m) (negsuc n) = false
int_before (pos m) (pos n) = ltb m n

-- ORDER BY next_run ASC, id ASC
abbrev pub row_before : JobRow → JobRow → Bool
row_before a b =
    int_before a.next_run b.next_run
    || (not (int_before b.next_run a.next_run) && text_before a.id b.id)

unfoldable pub insert_row : JobRow → List JobRow → List JobRow
insert_row r [] = r ∷ []
insert_row r (s ∷ rows) =
    let rest = insert_row r rows in if row_before s r then s ∷ rest else r ∷ s ∷ rows

unfoldable pub ordered : List JobRow → List JobRow
ordered [] = []
ordered (r ∷ rows) = insert_row r (ordered rows)

unfoldable pub selected : (JobRow → Bool) → List JobRow → List JobRow
selected test [] = []
selected test (r ∷ rows) = let rest = selected test rows in if test r then r ∷ rest else rest

-- next_run <= now
abbrev pub has_come : ℤ → ℕ → Bool
has_come (negsuc n) now = true
has_come (pos n) now = leb n now

abbrev pub is_due : ℕ → JobRow → Bool
is_due now r = has_come r.next_run now && r.enabled

abbrev pub filled_or : Option JobRow → Option (List JobRow) → Option (List JobRow)
filled_or none rest = none
filled_or (some r) none = none
filled_or (some r) (some rows) = some (r ∷ rows)

unfoldable pub fill_all : List JobRow → Option (List JobRow)
fill_all [] = some []
fill_all (r ∷ rows) = filled_or (fill_row r) (fill_all rows)

-- the rows, or `none` for an error
unfoldable pub job_list : List JobRow → ℕ → Option (List JobRow)
job_list rows max_count = if max_count == 0 then none else fill_all (take max_count (ordered rows))

pub record DueKey : Type 0 where
  pub id : Bytes
  pub next_run : ℤ

abbrev pub key_of : JobRow → DueKey
key_of r = record { id = take (id_size - 1) r.id; next_run = r.next_run }

-- `max_count` is positive
unfoldable pub job_list_due : List JobRow → ℕ → ℕ → List DueKey
job_list_due rows now max_count = map key_of (take max_count (ordered (selected (is_due now) rows)))

-- 1 with the row, 0 and -1
pub data Found : Type 0 where
  row : JobRow → Found
  missing unread : Found

abbrev pub read_row : Option JobRow → Found
read_row none = unread
read_row (some r) = row r

abbrev pub found_row : Option JobRow → Found
found_row none = missing
found_row (some r) = read_row (fill_row r)

abbrev pub first_row : List JobRow → Option JobRow
first_row [] = none
first_row (r ∷ rows) = some r

abbrev pub is_past : ℤ → Bytes → JobRow → Bool
is_past after_run after_id r =
    int_before after_run r.next_run
    || (not (int_before r.next_run after_run) && text_before after_id r.id)

unfoldable pub get_next_due : List JobRow → ℕ → Found
get_next_due rows now = found_row (first_row (ordered (selected (is_due now) rows)))

unfoldable pub get_next_due_after : List JobRow → ℕ → ℤ → Bytes → Found
get_next_due_after rows now after_run after_id =
    if is_empty after_id
    then unread
    else found_row
        (first_row (ordered (selected (λ r. is_due now r && is_past after_run after_id r) rows)))

unfoldable pub get_by_id : List JobRow → Bytes → Found
get_by_id rows id = found_row (row_of rows id)
