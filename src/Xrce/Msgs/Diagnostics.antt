-- ===== src/Xrce/Msgs/Diagnostics.antt =====
-- The diagnostics messages of xrce/src/msgs.c.
use rtos_kernel_from_scratch.Common.{ℕ, Option, some, List, ◌++◌, ◌≡◌, ◌≤◌, ◌<◌, length, All, arith}
use rtos_kernel_from_scratch.Xrce.Cdr.{
  Write, Read, ◌>>◌, ◌>>=◌, pure, write_u32, read_u32, write_u8, read_u8, write_string, read_string,
  write_each, read_counted,
}
use rtos_kernel_from_scratch.Xrce.Cdr.Trip.{Trip, Trip-bind, Trip-last}
use rtos_kernel_from_scratch.Xrce.Cdr.Scalars.{Trip-u32, Trip-u8}
use rtos_kernel_from_scratch.Xrce.Cdr.Strings.{Trip-string, Trip-counted}
use rtos_kernel_from_scratch.Xrce.Msgs.{encode, decode, decode-encode}
use rtos_kernel_from_scratch.Xrce.Msgs.Geometry.{
  Header, HeaderOk, write_stamped, read_stamped, Trip-stamped,
}

-- `XRCE_MSGS_DIAG_STR_MAX`, `XRCE_MSGS_KV_MAX` and `XRCE_MSGS_DIAG_STATUS_MAX`
abbrev diag_str_max : ℕ
diag_str_max = 64

abbrev kv_max : ℕ
kv_max = 8

abbrev diag_status_max : ℕ
diag_status_max = 16

abbrev DiagStrOk : List ℕ → Type 0
DiagStrOk s = length s < diag_str_max

Trip-diag_str : (s : List ℕ) → DiagStrOk s → Trip (write_string s) (read_string diag_str_max) s
Trip-diag_str s h = Trip-string s diag_str_max h (omega (arith, h))

-- `diagnostic_msgs_KeyValue`
pub record KeyValue : Type 0 where
  pub key : List ℕ
  pub value : List ℕ

unfoldable pub write_key_value : KeyValue → Write
write_key_value m = do write_string m.key; write_string m.value

unfoldable read_key_value : Read KeyValue
read_key_value = do
  key ← read_string diag_str_max
  value ← read_string diag_str_max
  pure (record { key = key; value = value })

pub record KeyValueOk (m : KeyValue) : Type 0 where
  pub key_ok : DiagStrOk m.key
  pub value_ok : DiagStrOk m.value

Trip-key_value : (m : KeyValue) → KeyValueOk m → Trip (write_key_value m) read_key_value m
unfolding write_key_value read_key_value
Trip-key_value m h =
    Trip-bind _ _ _ _ _ _ (Trip-diag_str m.key h.key_ok)
      (Trip-last _ _ _ _ (Trip-diag_str m.value h.value_ok))

-- The values of a status, the first `values_count` of its array.
unfoldable pub write_key_values : List KeyValue → Write
write_key_values list = do write_u32 (length list); write_each write_key_value list

unfoldable read_key_values : Read (List KeyValue)
read_key_values = read_u32 >>= read_counted read_key_value kv_max

abbrev KeyValuesOk : List KeyValue → Type 0
KeyValuesOk list = (length list ≤ kv_max) × All KeyValueOk list

Trip-key_values :
    (list : List KeyValue) → KeyValuesOk list → Trip (write_key_values list) read_key_values list
unfolding write_key_values read_key_values
Trip-key_values list h =
    Trip-bind _ _ _ _ _ _ (Trip-u32 (length list) (omega (arith, h.0)))
      (Trip-counted write_key_value read_key_value KeyValueOk list kv_max h.0 Trip-key_value h.1)

-- `diagnostic_msgs_DiagnosticStatus`
pub record DiagnosticStatus : Type 0 where
  pub level : ℕ
  pub name : List ℕ
  pub message : List ℕ
  pub hardware_id : List ℕ
  pub values : List KeyValue

unfoldable pub write_diagnostic_status : DiagnosticStatus → Write
write_diagnostic_status m = do
  write_u8 m.level
  write_string m.name
  write_string m.message
  write_string m.hardware_id
  write_key_values m.values

unfoldable read_diagnostic_status : Read DiagnosticStatus
read_diagnostic_status = do
  level ← read_u8
  name ← read_string diag_str_max
  message ← read_string diag_str_max
  hardware_id ← read_string diag_str_max
  values ← read_key_values
  pure (record {
    level = level;
    name = name;
    message = message;
    hardware_id = hardware_id;
    values = values;
  })

pub record DiagnosticStatusOk (m : DiagnosticStatus) : Type 0 where
  pub name_ok : DiagStrOk m.name
  pub message_ok : DiagStrOk m.message
  pub hardware_id_ok : DiagStrOk m.hardware_id
  pub values_ok : KeyValuesOk m.values

Trip-diagnostic_status :
    (m : DiagnosticStatus)
    → DiagnosticStatusOk m
    → Trip (write_diagnostic_status m) read_diagnostic_status m
unfolding write_diagnostic_status read_diagnostic_status
Trip-diagnostic_status m h = Trip-bind _ _ _ _ _ _ (Trip-u8 m.level) (
    Trip-bind _ _ _ _ _ _ (Trip-diag_str m.name h.name_ok) (
      Trip-bind _ _ _ _ _ _ (Trip-diag_str m.message h.message_ok) (
        Trip-bind _ _ _ _ _ _ (Trip-diag_str m.hardware_id h.hardware_id_ok)
          (Trip-last _ _ _ _ (Trip-key_values m.values h.values_ok)))))

-- The first `status_count` elements of the array of a DiagnosticArray.
unfoldable pub write_diagnostic_statuses : List DiagnosticStatus → Write
write_diagnostic_statuses list = do write_u32 (length list); write_each write_diagnostic_status list

unfoldable read_diagnostic_statuses : Read (List DiagnosticStatus)
read_diagnostic_statuses = read_u32 >>= read_counted read_diagnostic_status diag_status_max

abbrev DiagnosticStatusesOk : List DiagnosticStatus → Type 0
DiagnosticStatusesOk list = (length list ≤ diag_status_max) × All DiagnosticStatusOk list

Trip-diagnostic_statuses :
    (list : List DiagnosticStatus)
    → DiagnosticStatusesOk list
    → Trip (write_diagnostic_statuses list) read_diagnostic_statuses list
unfolding write_diagnostic_statuses read_diagnostic_statuses
Trip-diagnostic_statuses list h =
    Trip-bind _ _ _ _ _ _ (Trip-u32 (length list) (omega (arith, h.0))) (
      Trip-counted write_diagnostic_status read_diagnostic_status DiagnosticStatusOk list
        diag_status_max h.0 Trip-diagnostic_status h.1)

-- `diagnostic_msgs_DiagnosticArray`
pub record DiagnosticArray : Type 0 where
  pub header : Header
  pub statuses : List DiagnosticStatus

unfoldable pub write_diagnostic_array : DiagnosticArray → Write
write_diagnostic_array m = do write_stamped m.header; write_diagnostic_statuses m.statuses

unfoldable read_diagnostic_array : Read DiagnosticArray
read_diagnostic_array = do
  header ← read_stamped
  statuses ← read_diagnostic_statuses
  pure (record { header = header; statuses = statuses })

pub record DiagnosticArrayOk (m : DiagnosticArray) : Type 0 where
  pub header_ok : HeaderOk m.header
  pub statuses_ok : DiagnosticStatusesOk m.statuses

Trip-diagnostic_array :
    (m : DiagnosticArray)
    → DiagnosticArrayOk m
    → Trip (write_diagnostic_array m) read_diagnostic_array m
unfolding write_diagnostic_array read_diagnostic_array
Trip-diagnostic_array m h =
    Trip-bind _ _ _ _ _ _ (Trip-stamped m.header h.header_ok)
      (Trip-last _ _ _ _ (Trip-diagnostic_statuses m.statuses h.statuses_ok))

-- `diagnostic_msgs_DiagnosticArray_encode`, `diagnostic_msgs_DiagnosticArray_decode`
unfoldable pub diagnostic_array_encode : DiagnosticArray → ℕ → Option (List ℕ)
diagnostic_array_encode msg = encode (write_diagnostic_array msg)

pub diagnostic_array_decode : List ℕ → Option DiagnosticArray
diagnostic_array_decode = decode read_diagnostic_array

-- A diagnostics report, up to 16 states of up to 8 values each, every text shorter than its array,
-- is decoded as it was encoded, whatever follows it.
pub diagnostic_array_decode-encode :
    (msg : DiagnosticArray) (cap : ℕ) (bytes rest : List ℕ)
    → DiagnosticArrayOk msg
    → diagnostic_array_encode msg cap ≡ some bytes
    → diagnostic_array_decode (bytes ++ rest) ≡ some msg
unfolding diagnostic_array_encode diagnostic_array_decode
diagnostic_array_decode-encode msg cap bytes rest h =
    decode-encode (write_diagnostic_array msg) read_diagnostic_array msg cap bytes rest
      (Trip-diagnostic_array msg h)
