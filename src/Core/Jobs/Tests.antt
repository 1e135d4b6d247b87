-- ===== src/Core/Jobs/Tests.antt =====
-- src/core/memory.c: a table of two jobs, and the theorem at calls on it.
use shellclaw.Common.{
  ℕ, ◌<◌, ◌≤◌, Bool, true, false, Option, none, some, List, [], ◌∷◌, ◌≡◌, refl, arith, Bytes, codes,
  pos, length,
}
use shellclaw.Core.Jobs.{
  JobRow, job_create, job_list_due, get_next_due, get_next_due_after, get_by_id, row, missing,
  job_update_next_run, job_list,
}
use shellclaw.Core.Jobs.Calls.{
  IsStored, JobCall, create, delete, toggle, update_next_run, run, run-IsStored,
}

abbrev job : Bytes → ℕ → JobRow
job id next_run = record {
  id = id;
  schedule = codes "interval:60";
  message = codes "tidy up";
  channel = codes "cli";
  recipient = codes "default";
  next_run = pos next_run;
  enabled = true;
}

abbrev two_jobs : List JobRow
two_jobs = job (codes "late") 20 ∷ job (codes "early") 10 ∷ []

due_in_order :
    job_list_due two_jobs 20 64
    ≡ record { id = codes "early"; next_run = pos 10 }
      ∷ record { id = codes "late"; next_run = pos 20 }
      ∷ []
unfolding job_list_due shellclaw.Core.Jobs.ordered shellclaw.Core.Jobs.selected
    shellclaw.Core.Jobs.insert_row
due_in_order = refl

after_early : get_next_due_after two_jobs 20 (pos 10) (codes "early") ≡ row (job (codes "late") 20)
unfolding get_next_due_after shellclaw.Core.Jobs.ordered shellclaw.Core.Jobs.selected
    shellclaw.Core.Jobs.insert_row shellclaw.Core.Jobs.text_before shellclaw.Core.Jobs.fill_row
after_early = refl

next_is_early : get_next_due two_jobs 20 ≡ row (job (codes "early") 10)
unfolding get_next_due shellclaw.Core.Jobs.ordered shellclaw.Core.Jobs.selected
    shellclaw.Core.Jobs.insert_row shellclaw.Core.Jobs.fill_row
next_is_early = refl

nothing_there : get_by_id two_jobs (codes "x") ≡ missing
unfolding get_by_id shellclaw.Core.Jobs.row_of shellclaw.Common.str_equal
nothing_there = refl

listed : job_list two_jobs 1 ≡ some (job (codes "early") 10 ∷ [])
unfolding job_list shellclaw.Core.Jobs.fill_all shellclaw.Core.Jobs.ordered
    shellclaw.Core.Jobs.insert_row shellclaw.Core.Jobs.fill_row
listed = refl

abbrev calls : List JobCall
calls =
    create (codes "a") (codes "at:5") (codes "hi") none none (pos 5) true
    ∷ create (codes "a") (codes "at:6") (codes "again") none none (pos 6) true
    ∷ toggle (codes "a")
    ∷ update_next_run (codes "a") (pos 9)
    ∷ create (codes "b") (codes "at:5") (codes "hi") none none (pos 5) true
    ∷ delete (codes "b")
    ∷ []

run-IsStored_example : IsStored (run [] calls)
run-IsStored_example = run-IsStored calls [] (record { keys = tt; fit = tt })
