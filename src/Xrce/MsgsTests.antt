-- ===== src/Xrce/MsgsTests.antt =====
-- Runs of the message code of xrce/src/msgs.c on small examples.
use rtos_kernel_from_scratch.Common.{
  ℕ, ◌-◌, ◌^◌, ◌<◌, ◌≡◌, refl, true, Option, none, some, List, [], ◌∷◌, ◌++◌, pos, negsuc, length,
  replicate, All, arith,
}
use rtos_kernel_from_scratch.Xrce.Cdr.{
  align_writer, write_bytes, le_bytes, write_uint, write_u8, write_bool, write_u32, write_i32,
  write_f64, write_header, write_string, write_each, write_seq_i32,
}
use rtos_kernel_from_scratch.Xrce.Msgs.Basic.{
  TriggerResponse, write_trigger_response, trigger_response_encode, trigger_response_decode,
  trigger_response_decode-encode,
}
use rtos_kernel_from_scratch.Xrce.Msgs.Geometry.{
  Vector3, Vector3Ok, Time, TimeOk, Header, HeaderOk, Imu, ImuOk, write_vec3, write_cov, write_time,
  write_stamped, write_quaternion, write_imu, imu_encode, imu_decode, imu_decode-encode,
}
use rtos_kernel_from_scratch.Xrce.Msgs.Actions.{
  GetResultResponse, write_i8, write_fibonacci_result, write_get_result_response,
  get_result_response_encode, get_result_response_decode, get_result_response_decode-encode,
}
use rtos_kernel_from_scratch.Xrce.Msgs.Goals.{
  GoalInfo, GoalInfoOk, GoalStatus, write_goal_info, write_goal_status, write_goal_status_array,
  goal_status_array_encode, goal_status_array_decode, goal_status_array_decode-encode,
}
use rtos_kernel_from_scratch.Xrce.Msgs.Diagnostics.{
  KeyValue, DiagnosticStatus, DiagnosticArray, DiagnosticArrayOk, write_key_value, write_key_values,
  write_diagnostic_status, write_diagnostic_statuses, write_diagnostic_array,
  diagnostic_array_encode, diagnostic_array_decode, diagnostic_array_decode-encode,
}

abbrev from_some : {A : Type 0} → A → Option A → A
from_some d none = d
from_some d (some a) = a

-- An IMU sample, with a negative time and a frame id of three bytes.
abbrev stamp : Time
stamp = record { sec = negsuc 4; nanosec = 500000000 }

abbrev header : Header
header = record { stamp = stamp; frame_id = 105 ∷ 109 ∷ 117 ∷ [] }

abbrev vec : Vector3
vec = record { x = 1; y = 0x3FF0000000000000; z = 2 ^ 64 - 1 }

abbrev cov : List ℕ
cov = 1 ∷ 2 ∷ 3 ∷ 4 ∷ 5 ∷ 6 ∷ 7 ∷ 8 ∷ 9 ∷ []

abbrev sample : Imu
sample = record {
  header = header;
  orientation = record { x = 1; y = 2; z = 3; w = 4 };
  orientation_covariance = cov;
  angular_velocity = vec;
  angular_velocity_covariance = cov;
  linear_acceleration = vec;
  linear_acceleration_covariance = cov;
}

abbrev imu_bytes : List ℕ
imu_bytes = from_some [] (imu_encode sample 512)

stamp-Ok : TimeOk stamp
stamp-Ok = record { sec_ok = omega arith; nanosec_ok = omega arith }

header-Ok : HeaderOk header
header-Ok = record { stamp_ok = stamp-Ok; frame_id_ok = omega arith }

vec-Ok : Vector3Ok vec
vec-Ok = record { x_ok = omega arith; y_ok = omega arith; z_ok = omega arith }

cov-Ok : (length cov ≡ 9) × All (λ v. v < 2 ^ 64) cov
cov-Ok = (refl, ground arith)

sample-Ok : ImuOk sample
sample-Ok = record {
  header_ok = header-Ok;
  orientation_ok = record {
    x_ok = omega arith;
    y_ok = omega arith;
    z_ok = omega arith;
    w_ok = omega arith;
  };
  orientation_covariance_ok = cov-Ok;
  angular_velocity_ok = vec-Ok;
  angular_velocity_covariance_ok = cov-Ok;
  linear_acceleration_ok = vec-Ok;
  linear_acceleration_covariance_ok = cov-Ok;
}

imu_decode-encode_example : imu_decode (imu_bytes ++ (1 ∷ 2 ∷ [])) ≡ some sample
unfolding imu_encode write_imu write_vec3 write_cov write_stamped write_time write_quaternion
    write_each write_f64 write_string write_i32 write_u32 write_uint write_bytes le_bytes
    align_writer write_header
imu_decode-encode_example = imu_decode-encode sample 512 imu_bytes (1 ∷ 2 ∷ []) sample-Ok refl

-- One status of a diagnostics report, with one value.
abbrev value : KeyValue
value = record { key = 107 ∷ []; value = 118 ∷ 118 ∷ [] }

abbrev status : DiagnosticStatus
status = record {
  level = 2;
  name = 110 ∷ [];
  message = [];
  hardware_id = 104 ∷ 119 ∷ [];
  values = value ∷ [];
}

abbrev diagnostics : DiagnosticArray
diagnostics = record { header = header; statuses = status ∷ [] }

abbrev diagnostic_bytes : List ℕ
diagnostic_bytes = from_some [] (diagnostic_array_encode diagnostics 512)

diagnostics-Ok : DiagnosticArrayOk diagnostics
diagnostics-Ok = record {
  header_ok = header-Ok;
  statuses_ok = (
    omega arith,
    (
      record {
        name_ok = omega arith;
        message_ok = omega arith;
        hardware_id_ok = omega arith;
        values_ok = (omega arith, (record { key_ok = omega arith; value_ok = omega arith }, tt));
      },
      tt,
    ),
  );
}

diagnostic_array_decode-encode_example :
    diagnostic_array_decode (diagnostic_bytes ++ []) ≡ some diagnostics
unfolding diagnostic_array_encode write_diagnostic_array write_diagnostic_statuses
    write_diagnostic_status write_key_values write_key_value write_stamped write_time write_each
    write_string write_i32 write_u32 write_u8 write_uint write_bytes le_bytes align_writer
    write_header
diagnostic_array_decode-encode_example =
    diagnostic_array_decode-encode diagnostics 512 diagnostic_bytes [] diagnostics-Ok refl

-- Two goals with their states.
abbrev goal : GoalInfo
goal = record { goal_id = replicate 16 7; stamp = stamp }

abbrev goals : List GoalStatus
goals =
    record { goal_info = goal; status = pos 4 }
    ∷ record { goal_info = goal; status = negsuc 0 }
    ∷ []

abbrev goal_bytes : List ℕ
goal_bytes = from_some [] (goal_status_array_encode goals 128)

goal-Ok : GoalInfoOk goal
goal-Ok = record { goal_id_ok = refl; stamp_ok = stamp-Ok }

goal_status_array_decode-encode_example :
    goal_status_array_decode (goal_bytes ++ (9 ∷ [])) ≡ some goals
unfolding goal_status_array_encode write_goal_status_array write_goal_status write_goal_info
    write_i8 write_time write_each write_i32 write_u32 write_u8 write_uint write_bytes le_bytes
    align_writer write_header
goal_status_array_decode-encode_example =
    goal_status_array_decode-encode goals 128 goal_bytes (9 ∷ [])
      (
        omega arith,
        (
          record { goal_info_ok = goal-Ok; status_ok = omega arith },
          (record { goal_info_ok = goal-Ok; status_ok = omega arith }, tt),
        ),
      )
      refl

abbrev result : GetResultResponse
result = record { status = pos 4; result = pos 0 ∷ pos 1 ∷ negsuc 7 ∷ [] }

abbrev result_bytes : List ℕ
result_bytes = from_some [] (get_result_response_encode result 64)

get_result_response_decode-encode_example :
    get_result_response_decode (result_bytes ++ []) ≡ some result
unfolding get_result_response_encode write_get_result_response write_i8 write_fibonacci_result
    write_seq_i32 write_each write_i32 write_u32 write_u8 write_uint write_bytes le_bytes
    align_writer write_header
get_result_response_decode-encode_example =
    get_result_response_decode-encode result 64 result_bytes []
      (record { status_ok = omega arith; result_ok = (omega arith, ground arith) }) refl

abbrev reply : TriggerResponse
reply = record { success = true; message = 111 ∷ 107 ∷ [] }

abbrev reply_bytes : List ℕ
reply_bytes = from_some [] (trigger_response_encode reply 32)

trigger_response_decode-encode_example : trigger_response_decode (reply_bytes ++ []) ≡ some reply
unfolding trigger_response_encode write_trigger_response write_bool write_string write_u32 write_u8
    write_uint write_bytes le_bytes align_writer write_header
trigger_response_decode-encode_example =
    trigger_response_decode-encode reply 32 reply_bytes [] (omega arith) refl
