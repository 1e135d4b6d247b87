-- ===== src/Tools/Cron/Delivery/Tool.antt =====
-- src/tools/cron.c: the tool that lists, creates, deletes and toggles jobs. The arguments are those
-- members of the JSON text that are strings; printing the rows is a parameter.
use shellclaw.Common.{
  ℕ, ◌-◌, Bool, true, false, Option, none, some, List, ◌++◌, if◌then◌else◌, Bytes, codes, str_equal,
  is_empty, take,
}
use shellclaw.Core.Jobs.{JobRow, job_list, job_delete, job_toggle}
use shellclaw.Tools.Cron.{Localtime}
use shellclaw.Tools.Cron.Delivery.{cron_create_job}

pub record ToolArgs : Type 0 where
  pub operation : Option Bytes
  pub schedule : Option Bytes
  pub message : Option Bytes
  pub id : Option Bytes
  pub channel : Option Bytes
  pub recipient : Option Bytes

pub record ToolHost : Type 0 where
  pub localtime : Localtime
  pub now : ℕ
  pub random : Option (ℕ × ℕ)
  -- the array of the rows as text, if it can be printed
  pub print : List JobRow → Option Bytes

pub record ToolResult : Type 0 where
  pub ok : Bool
  pub text : Bytes
  pub rows : List JobRow

abbrev pub result_of : Bool → Bytes → List JobRow → ToolResult
result_of ok text rows = record { ok = ok; text = text; rows = rows }

abbrev pub printed_rows : Option Bytes → List JobRow → ToolResult
printed_rows none rows = result_of false (codes "{\"error\":\"serialization failed\"}") rows
printed_rows (some s) rows = result_of true s rows

abbrev pub list_result : ToolHost → List JobRow → Option (List JobRow) → ToolResult
list_result host rows none = result_of false (codes "{\"error\":\"failed to list jobs\"}") rows
list_result host rows (some listed) = printed_rows (host.print listed) rows

abbrev pub create_result : Option Bytes × List JobRow → ToolResult
create_result (none, rows) = result_of false (codes "{\"error\":\"failed to create job\"}") rows
create_result (some id, rows) =
    result_of true (codes "{\"ok\":true,\"id\":\"" ++ (id ++ codes "\"}")) rows

abbrev pub id_of : Option Bytes → Bytes
id_of none = codes ""
id_of (some id) = take 127 id

abbrev pub create_op : ToolHost → List JobRow → ToolArgs → Option Bytes → Option Bytes → ToolResult
create_op host rows args none message =
    result_of false (codes "{\"error\":\"schedule and message required\"}") rows
create_op host rows args (some schedule) none =
    result_of false (codes "{\"error\":\"schedule and message required\"}") rows
create_op host rows args (some schedule) (some message) = create_result (
    cron_create_job host.localtime rows host.now host.random schedule message args.channel
      args.recipient (id_of args.id) 128)

abbrev pub changed : Bool × List JobRow → ToolResult
changed (false, rows) = result_of false (codes "{\"error\":\"job not found\"}") rows
changed (true, rows) = result_of true (codes "{\"ok\":true}") rows

-- delete and toggle
abbrev pub on_id :
    (List JobRow → Bytes → Bool × List JobRow) → List JobRow → Option Bytes → ToolResult
on_id f rows none = result_of false (codes "{\"error\":\"id required\"}") rows
on_id f rows (some id) =
    if is_empty id
    then result_of false (codes "{\"error\":\"id required\"}") rows
    else changed (f rows id)

abbrev pub operate : ToolHost → List JobRow → ToolArgs → Option Bytes → ToolResult
operate host rows args none = result_of false (codes "{\"error\":\"operation required\"}") rows
operate host rows args (some operation) =
    if str_equal operation (codes "list")
    then list_result host rows (job_list rows 64)
    else if str_equal operation (codes "create")
    then create_op host rows args args.schedule args.message
    else if str_equal operation (codes "delete")
    then on_id job_delete rows args.id
    else if str_equal operation (codes "toggle")
    then on_id job_toggle rows args.id
    else result_of false (codes "{\"error\":\"invalid operation\"}") rows

abbrev pub operate_parsed : ToolHost → List JobRow → Option ToolArgs → ToolResult
operate_parsed host rows none = result_of false (codes "{\"error\":\"invalid JSON\"}") rows
operate_parsed host rows (some args) = operate host rows args args.operation

-- the arguments are `none` where the text does not parse; the text of the result is cut to its buffer
unfoldable pub cron_tool_execute : ToolHost → List JobRow → Option ToolArgs → ℕ → ToolResult
cron_tool_execute host rows args max_len =
    let r = operate_parsed host rows args in record r { text = take (max_len - 1) r.text }
