-- ===== src/Xrce/Msgs/Basic.antt =====
-- xrce/src/msgs.c: numbers, texts and the Trigger service.
use rtos_kernel_from_scratch.Common.{ℕ, Bool, Option, some, List, ◌++◌, ℤ, ◌≡◌, ◌<◌, length, arith}
use rtos_kernel_from_scratch.Xrce.Cdr.{
  Write, Read, ◌>>◌, ◌>>=◌, done, pure, write_i32, read_i32, write_string, read_string, write_bool,
  read_bool,
}
use rtos_kernel_from_scratch.Xrce.Cdr.Trip.{Trip, Trip-bind, Trip-last}
use rtos_kernel_from_scratch.Xrce.Cdr.Scalars.{InRange, Trip-i32, Trip-bool}
use rtos_kernel_from_scratch.Xrce.Cdr.Strings.{Trip-string}
use rtos_kernel_from_scratch.Xrce.Msgs.{encode, decode, decode-encode}

-- `std_msgs_Int32_encode`, `std_msgs_Int32_decode`
unfoldable pub int32_encode : ℤ → ℕ → Option (List ℕ)
int32_encode msg = encode (write_i32 msg)

unfoldable int32_decode : List ℕ → Option ℤ
int32_decode = decode read_i32

int32_decode-encode :
    (msg : ℤ) (cap : ℕ) (bytes rest : List ℕ)
    → InRange 32 msg
    → int32_encode msg cap ≡ some bytes
    → int32_decode (bytes ++ rest) ≡ some msg
unfolding int32_encode int32_decode
int32_decode-encode msg cap bytes rest h =
    decode-encode (write_i32 msg) read_i32 msg cap bytes rest (Trip-i32 msg h)

-- `XRCE_MSGS_STRING_MAX`
abbrev string_max : ℕ
string_max = 256

-- `std_msgs_String_encode`, `std_msgs_String_decode`
unfoldable string_encode : List ℕ → ℕ → Option (List ℕ)
string_encode msg = encode (write_string msg)

unfoldable string_decode : List ℕ → Option (List ℕ)
string_decode = decode (read_string string_max)

string_decode-encode :
    (msg : List ℕ) (cap : ℕ) (bytes rest : List ℕ)
    → length msg < string_max
    → string_encode msg cap ≡ some bytes
    → string_decode (bytes ++ rest) ≡ some msg
unfolding string_encode string_decode
string_decode-encode msg cap bytes rest h =
    decode-encode (write_string msg) (read_string string_max) msg cap bytes rest
      (Trip-string msg string_max h (omega arith))

-- `std_srvs_Trigger_Request_encode`, `std_srvs_Trigger_Request_decode`: the header and no field.
unfoldable trigger_request_encode : ℕ → Option (List ℕ)
trigger_request_encode = encode done

unfoldable trigger_request_decode : List ℕ → Option (Unit {0})
trigger_request_decode = decode (pure tt)

-- `std_srvs_Trigger_Response`
pub record TriggerResponse : Type 0 where
  pub success : Bool
  pub message : List ℕ

unfoldable pub write_trigger_response : TriggerResponse → Write
write_trigger_response m = do write_bool m.success; write_string m.message

unfoldable read_trigger_response : Read TriggerResponse
read_trigger_response = do
  success ← read_bool
  message ← read_string string_max
  pure (record { success = success; message = message })

-- `std_srvs_Trigger_Response_encode`, `std_srvs_Trigger_Response_decode`
unfoldable pub trigger_response_encode : TriggerResponse → ℕ → Option (List ℕ)
trigger_response_encode msg = encode (write_trigger_response msg)

pub trigger_response_decode : List ℕ → Option TriggerResponse
trigger_response_decode = decode read_trigger_response

Trip-trigger_response :
    (m : TriggerResponse)
    → length m.message < string_max
    → Trip (write_trigger_response m) read_trigger_response m
unfolding write_trigger_response read_trigger_response
Trip-trigger_response m h =
    Trip-bind _ _ _ _ _ _ (Trip-bool m.success)
      (Trip-last _ _ _ _ (Trip-string m.message string_max h (omega arith)))

-- The reply of the Trigger service survives the wire if its message fits the array.
pub trigger_response_decode-encode :
    (msg : TriggerResponse) (cap : ℕ) (bytes rest : List ℕ)
    → length msg.message < string_max
    → trigger_response_encode msg cap ≡ some bytes
    → trigger_response_decode (bytes ++ rest) ≡ some msg
unfolding trigger_response_encode trigger_response_decode
trigger_response_decode-encode msg cap bytes rest h =
    decode-encode (write_trigger_response msg) read_trigger_response msg cap bytes rest
      (Trip-trigger_response msg h)
