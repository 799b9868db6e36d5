-- ===== src/Xrce/Msgs/Actions.antt =====
-- The action messages of xrce/src/msgs.c: Fibonacci goals, their status and their cancelling.
use rtos_kernel_from_scratch.Common.{
  ℕ, Bool, Option, some, List, ◌++◌, ℤ, pos, negsuc, ◌≡◌, ◌≤◌, length, All, arith, subst,
}
use rtos_kernel_from_scratch.Xrce.Cdr.{
  Write, Read, ◌>>◌, ◌>>=◌, pure, write_i32, read_i32, to_word, of_word, write_u8, read_u8,
  write_bool, read_bool, write_bytes, read_bytes, write_seq_i32, read_seq_i32,
}
use rtos_kernel_from_scratch.Xrce.Cdr.Trip.{Trip, Trip-bind, Trip-last, Trip-bytes}
use rtos_kernel_from_scratch.Xrce.Cdr.Scalars.{InRange, Trip-i32, Trip-u8, Trip-bool, Trip-map}
use rtos_kernel_from_scratch.Xrce.Cdr.Strings.{Trip-seq_i32}
use rtos_kernel_from_scratch.Xrce.Msgs.{encode, decode, decode-encode}
use rtos_kernel_from_scratch.Xrce.Msgs.Geometry.{Time, TimeOk, write_time, read_time, Trip-time}

-- `XRCE_MSGS_UUID_SIZE`, `XRCE_MSGS_SEQ_I32_MAX` and `XRCE_MSGS_GOAL_STATUS_MAX`
abbrev pub uuid_size : ℕ
uuid_size = 16

abbrev seq_i32_max : ℕ
seq_i32_max = 16

abbrev pub goal_status_max : ℕ
goal_status_max = 8

abbrev pub UuidOk : List ℕ → Type 0
UuidOk id = length id ≡ uuid_size

pub Trip-uuid : (id : List ℕ) → UuidOk id → Trip (write_bytes id) (read_bytes uuid_size) id
Trip-uuid id h = subst (λ n. Trip (write_bytes id) (read_bytes n) id) h (Trip-bytes id)

-- An `int8_t` through `(uint8_t)` and `(int8_t)`.
unfoldable pub write_i8 : ℤ → Write
write_i8 v = write_u8 (to_word 8 v)

pub read_i8 : Read ℤ
read_i8 = read_u8 >>= λ u. pure (of_word 8 u)

word8 : (v : ℤ) → InRange 8 v → of_word 8 (to_word 8 v) ≡ v
word8 (pos n) h = ground arith
word8 (negsuc n) h = ground arith

pub Trip-i8 : (v : ℤ) → InRange 8 v → Trip (write_i8 v) read_i8 v
unfolding write_i8 read_i8
Trip-i8 v h =
    Trip-map (write_u8 (to_word 8 v)) read_u8 (of_word 8) (to_word 8 v) v (word8 v h)
      (Trip-u8 (to_word 8 v))

-- `write_fibonacci_result`, `read_fibonacci_result`: a sequence of at most 16 elements.
unfoldable pub write_fibonacci_result : List ℤ → Write
write_fibonacci_result sequence = write_seq_i32 sequence

unfoldable read_fibonacci_result : Read (List ℤ)
read_fibonacci_result = read_seq_i32 seq_i32_max

abbrev FibonacciOk : List ℤ → Type 0
FibonacciOk xs = (length xs ≤ seq_i32_max) × All (InRange 32) xs

Trip-fibonacci_result :
    (xs : List ℤ) → FibonacciOk xs → Trip (write_fibonacci_result xs) read_fibonacci_result xs
unfolding write_fibonacci_result read_fibonacci_result
Trip-fibonacci_result xs h = Trip-seq_i32 xs seq_i32_max h.0 (omega (arith, h.0)) h.1

-- `example_interfaces_Fibonacci_SendGoal_Request`
record SendGoalRequest : Type 0 where
  pub goal_id : List ℕ
  pub order : ℤ

unfoldable write_send_goal_request : SendGoalRequest → Write
write_send_goal_request m = do write_bytes m.goal_id; write_i32 m.order

unfoldable read_send_goal_request : Read SendGoalRequest
read_send_goal_request = do
  goal_id ← read_bytes uuid_size
  order ← read_i32
  pure (record { goal_id = goal_id; order = order })

record SendGoalRequestOk (m : SendGoalRequest) : Type 0 where
  pub goal_id_ok : UuidOk m.goal_id
  pub order_ok : InRange 32 m.order

Trip-send_goal_request :
    (m : SendGoalRequest)
    → SendGoalRequestOk m
    → Trip (write_send_goal_request m) read_send_goal_request m
unfolding write_send_goal_request read_send_goal_request
Trip-send_goal_request m h =
    Trip-bind _ _ _ _ _ _ (Trip-uuid m.goal_id h.goal_id_ok)
      (Trip-last _ _ _ _ (Trip-i32 m.order h.order_ok))

-- `example_interfaces_Fibonacci_SendGoal_Request_encode`, `example_interfaces_Fibonacci_SendGoal_Request_decode`
unfoldable send_goal_request_encode : SendGoalRequest → ℕ → Option (List ℕ)
send_goal_request_encode msg = encode (write_send_goal_request msg)

unfoldable send_goal_request_decode : List ℕ → Option SendGoalRequest
send_goal_request_decode = decode read_send_goal_request

send_goal_request_decode-encode :
    (msg : SendGoalRequest) (cap : ℕ) (bytes rest : List ℕ)
    → SendGoalRequestOk msg
    → send_goal_request_encode msg cap ≡ some bytes
    → send_goal_request_decode (bytes ++ rest) ≡ some msg
unfolding send_goal_request_encode send_goal_request_decode
send_goal_request_decode-encode msg cap bytes rest h =
    decode-encode (write_send_goal_request msg) read_send_goal_request msg cap bytes rest
      (Trip-send_goal_request msg h)

-- `example_interfaces_Fibonacci_SendGoal_Response`
record SendGoalResponse : Type 0 where
  pub accepted : Bool
  pub stamp : Time

unfoldable write_send_goal_response : SendGoalResponse → Write
write_send_goal_response m = do write_bool m.accepted; write_time m.stamp

unfoldable read_send_goal_response : Read SendGoalResponse
read_send_goal_response = do
  accepted ← read_bool
  stamp ← read_time
  pure (record { accepted = accepted; stamp = stamp })

record SendGoalResponseOk (m : SendGoalResponse) : Type 0 where
  pub stamp_ok : TimeOk m.stamp

Trip-send_goal_response :
    (m : SendGoalResponse)
    → SendGoalResponseOk m
    → Trip (write_send_goal_response m) read_send_goal_response m
unfolding write_send_goal_response read_send_goal_response
Trip-send_goal_response m h =
    Trip-bind _ _ _ _ _ _ (Trip-bool m.accepted) (Trip-last _ _ _ _ (Trip-time m.stamp h.stamp_ok))

-- `example_interfaces_Fibonacci_SendGoal_Response_encode`, `example_interfaces_Fibonacci_SendGoal_Response_decode`
unfoldable send_goal_response_encode : SendGoalResponse → ℕ → Option (List ℕ)
send_goal_response_encode msg = encode (write_send_goal_response msg)

unfoldable send_goal_response_decode : List ℕ → Option SendGoalResponse
send_goal_response_decode = decode read_send_goal_response

send_goal_response_decode-encode :
    (msg : SendGoalResponse) (cap : ℕ) (bytes rest : List ℕ)
    → SendGoalResponseOk msg
    → send_goal_response_encode msg cap ≡ some bytes
    → send_goal_response_decode (bytes ++ rest) ≡ some msg
unfolding send_goal_response_encode send_goal_response_decode
send_goal_response_decode-encode msg cap bytes rest h =
    decode-encode (write_send_goal_response msg) read_send_goal_response msg cap bytes rest
      (Trip-send_goal_response msg h)

-- `example_interfaces_Fibonacci_GetResult_Request_encode`, `example_interfaces_Fibonacci_GetResult_Request_decode`: its only
-- field is the goal's id.
unfoldable get_result_request_encode : List ℕ → ℕ → Option (List ℕ)
get_result_request_encode goal_id = encode (write_bytes goal_id)

unfoldable get_result_request_decode : List ℕ → Option (List ℕ)
get_result_request_decode = decode (read_bytes uuid_size)

-- `example_interfaces_Fibonacci_GetResult_Response`
pub record GetResultResponse : Type 0 where
  pub status : ℤ
  pub result : List ℤ

unfoldable pub write_get_result_response : GetResultResponse → Write
write_get_result_response m = do write_i8 m.status; write_fibonacci_result m.result

unfoldable read_get_result_response : Read GetResultResponse
read_get_result_response = do
  status ← read_i8
  result ← read_fibonacci_result
  pure (record { status = status; result = result })

pub record GetResultResponseOk (m : GetResultResponse) : Type 0 where
  pub status_ok : InRange 8 m.status
  pub result_ok : FibonacciOk m.result

Trip-get_result_response :
    (m : GetResultResponse)
    → GetResultResponseOk m
    → Trip (write_get_result_response m) read_get_result_response m
unfolding write_get_result_response read_get_result_response
Trip-get_result_response m h =
    Trip-bind _ _ _ _ _ _ (Trip-i8 m.status h.status_ok)
      (Trip-last _ _ _ _ (Trip-fibonacci_result m.result h.result_ok))

-- `example_interfaces_Fibonacci_GetResult_Response_encode`, `example_interfaces_Fibonacci_GetResult_Response_decode`
unfoldable pub get_result_response_encode : GetResultResponse → ℕ → Option (List ℕ)
get_result_response_encode msg = encode (write_get_result_response msg)

pub get_result_response_decode : List ℕ → Option GetResultResponse
get_result_response_decode = decode read_get_result_response

-- The result of a goal, its status and at most 16 numbers, is decoded as it was encoded.
pub get_result_response_decode-encode :
    (msg : GetResultResponse) (cap : ℕ) (bytes rest : List ℕ)
    → GetResultResponseOk msg
    → get_result_response_encode msg cap ≡ some bytes
    → get_result_response_decode (bytes ++ rest) ≡ some msg
unfolding get_result_response_encode get_result_response_decode
get_result_response_decode-encode msg cap bytes rest h =
    decode-encode (write_get_result_response msg) read_get_result_response msg cap bytes rest
      (Trip-get_result_response msg h)

-- `example_interfaces_Fibonacci_FeedbackMessage`
record FeedbackMessage : Type 0 where
  pub goal_id : List ℕ
  pub feedback : List ℤ

unfoldable write_feedback_message : FeedbackMessage → Write
write_feedback_message m = do write_bytes m.goal_id; write_fibonacci_result m.feedback

unfoldable read_feedback_message : Read FeedbackMessage
read_feedback_message = do
  goal_id ← read_bytes uuid_size
  feedback ← read_fibonacci_result
  pure (record { goal_id = goal_id; feedback = feedback })

record FeedbackMessageOk (m : FeedbackMessage) : Type 0 where
  pub goal_id_ok : UuidOk m.goal_id
  pub feedback_ok : FibonacciOk m.feedback

Trip-feedback_message :
    (m : FeedbackMessage)
    → FeedbackMessageOk m
    → Trip (write_feedback_message m) read_feedback_message m
unfolding write_feedback_message read_feedback_message
Trip-feedback_message m h =
    Trip-bind _ _ _ _ _ _ (Trip-uuid m.goal_id h.goal_id_ok)
      (Trip-last _ _ _ _ (Trip-fibonacci_result m.feedback h.feedback_ok))

-- `example_interfaces_Fibonacci_FeedbackMessage_encode`, `example_interfaces_Fibonacci_FeedbackMessage_decode`
unfoldable feedback_message_encode : FeedbackMessage → ℕ → Option (List ℕ)
feedback_message_encode msg = encode (write_feedback_message msg)

unfoldable feedback_message_decode : List ℕ → Option FeedbackMessage
feedback_message_decode = decode read_feedback_message

feedback_message_decode-encode :
    (msg : FeedbackMessage) (cap : ℕ) (bytes rest : List ℕ)
    → FeedbackMessageOk msg
    → feedback_message_encode msg cap ≡ some bytes
    → feedback_message_decode (bytes ++ rest) ≡ some msg
unfolding feedback_message_encode feedback_message_decode
feedback_message_decode-encode msg cap bytes rest h =
    decode-encode (write_feedback_message msg) read_feedback_message msg cap bytes rest
      (Trip-feedback_message msg h)
