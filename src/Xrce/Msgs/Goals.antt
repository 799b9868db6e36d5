-- ===== src/Xrce/Msgs/Goals.antt =====
-- The messages of xrce/src/msgs.c on the state of goals: action_msgs.
use rtos_kernel_from_scratch.Common.{ℕ, Option, some, List, ◌++◌, ℤ, ◌≡◌, ◌≤◌, length, All, arith}
use rtos_kernel_from_scratch.Xrce.Cdr.{
  Write, Read, ◌>>◌, ◌>>=◌, pure, write_u32, read_u32, write_each, write_bytes, read_bytes,
  read_counted,
}
use rtos_kernel_from_scratch.Xrce.Cdr.Trip.{Trip, Trip-bind, Trip-last}
use rtos_kernel_from_scratch.Xrce.Cdr.Scalars.{InRange, Trip-u32}
use rtos_kernel_from_scratch.Xrce.Cdr.Strings.{Trip-counted}
use rtos_kernel_from_scratch.Xrce.Msgs.{encode, decode, decode-encode}
use rtos_kernel_from_scratch.Xrce.Msgs.Geometry.{Time, TimeOk, write_time, read_time, Trip-time}
use rtos_kernel_from_scratch.Xrce.Msgs.Actions.{
  uuid_size, goal_status_max, UuidOk, Trip-uuid, write_i8, read_i8, Trip-i8,
}

-- `action_msgs_GoalInfo`
pub record GoalInfo : Type 0 where
  pub goal_id : List ℕ
  pub stamp : Time

unfoldable pub write_goal_info : GoalInfo → Write
write_goal_info m = do write_bytes m.goal_id; write_time m.stamp

unfoldable read_goal_info : Read GoalInfo
read_goal_info = do
  goal_id ← read_bytes uuid_size
  stamp ← read_time
  pure (record { goal_id = goal_id; stamp = stamp })

pub record GoalInfoOk (m : GoalInfo) : Type 0 where
  pub goal_id_ok : UuidOk m.goal_id
  pub stamp_ok : TimeOk m.stamp

Trip-goal_info : (m : GoalInfo) → GoalInfoOk m → Trip (write_goal_info m) read_goal_info m
unfolding write_goal_info read_goal_info
Trip-goal_info m h =
    Trip-bind _ _ _ _ _ _ (Trip-uuid m.goal_id h.goal_id_ok)
      (Trip-last _ _ _ _ (Trip-time m.stamp h.stamp_ok))

-- `action_msgs_GoalStatus`
pub record GoalStatus : Type 0 where
  pub goal_info : GoalInfo
  pub status : ℤ

unfoldable pub write_goal_status : GoalStatus → Write
write_goal_status m = do write_goal_info m.goal_info; write_i8 m.status

unfoldable read_goal_status : Read GoalStatus
read_goal_status = do
  goal_info ← read_goal_info
  status ← read_i8
  pure (record { goal_info = goal_info; status = status })

pub record GoalStatusOk (m : GoalStatus) : Type 0 where
  pub goal_info_ok : GoalInfoOk m.goal_info
  pub status_ok : InRange 8 m.status

Trip-goal_status : (m : GoalStatus) → GoalStatusOk m → Trip (write_goal_status m) read_goal_status m
unfolding write_goal_status read_goal_status
Trip-goal_status m h =
    Trip-bind _ _ _ _ _ _ (Trip-goal_info m.goal_info h.goal_info_ok)
      (Trip-last _ _ _ _ (Trip-i8 m.status h.status_ok))

-- `action_msgs_GoalStatus_encode`, `action_msgs_GoalStatus_decode`
unfoldable goal_status_encode : GoalStatus → ℕ → Option (List ℕ)
goal_status_encode msg = encode (write_goal_status msg)

unfoldable goal_status_decode : List ℕ → Option GoalStatus
goal_status_decode = decode read_goal_status

goal_status_decode-encode :
    (msg : GoalStatus) (cap : ℕ) (bytes rest : List ℕ)
    → GoalStatusOk msg
    → goal_status_encode msg cap ≡ some bytes
    → goal_status_decode (bytes ++ rest) ≡ some msg
unfolding goal_status_encode goal_status_decode
goal_status_decode-encode msg cap bytes rest h =
    decode-encode (write_goal_status msg) read_goal_status msg cap bytes rest
      (Trip-goal_status msg h)

-- `action_msgs_GoalStatusArray`: the first `status_list_count` elements of its array.
unfoldable pub write_goal_status_array : List GoalStatus → Write
write_goal_status_array list = do write_u32 (length list); write_each write_goal_status list

unfoldable read_goal_status_array : Read (List GoalStatus)
read_goal_status_array = read_u32 >>= read_counted read_goal_status goal_status_max

abbrev GoalStatusArrayOk : List GoalStatus → Type 0
GoalStatusArrayOk list = (length list ≤ goal_status_max) × All GoalStatusOk list

Trip-goal_status_array :
    (list : List GoalStatus)
    → GoalStatusArrayOk list
    → Trip (write_goal_status_array list) read_goal_status_array list
unfolding write_goal_status_array read_goal_status_array
Trip-goal_status_array list h =
    Trip-bind _ _ _ _ _ _ (Trip-u32 (length list) (omega (arith, h.0))) (
      Trip-counted write_goal_status read_goal_status GoalStatusOk list goal_status_max h.0
        Trip-goal_status h.1)

-- `action_msgs_GoalStatusArray_encode`, `action_msgs_GoalStatusArray_decode`
unfoldable pub goal_status_array_encode : List GoalStatus → ℕ → Option (List ℕ)
goal_status_array_encode msg = encode (write_goal_status_array msg)

pub goal_status_array_decode : List ℕ → Option (List GoalStatus)
goal_status_array_decode = decode read_goal_status_array

-- Up to eight goal states are decoded as they were encoded, whatever follows them.
pub goal_status_array_decode-encode :
    (msg : List GoalStatus) (cap : ℕ) (bytes rest : List ℕ)
    → GoalStatusArrayOk msg
    → goal_status_array_encode msg cap ≡ some bytes
    → goal_status_array_decode (bytes ++ rest) ≡ some msg
unfolding goal_status_array_encode goal_status_array_decode
goal_status_array_decode-encode msg cap bytes rest h =
    decode-encode (write_goal_status_array msg) read_goal_status_array msg cap bytes rest
      (Trip-goal_status_array msg h)

-- `action_msgs_CancelGoal_Request_encode`, `action_msgs_CancelGoal_Request_decode`
unfoldable cancel_goal_request_encode : GoalInfo → ℕ → Option (List ℕ)
cancel_goal_request_encode goal_info = encode (write_goal_info goal_info)

unfoldable cancel_goal_request_decode : List ℕ → Option GoalInfo
cancel_goal_request_decode = decode read_goal_info

-- The counted list of `action_msgs_CancelGoal_Response`.
unfoldable write_goal_infos : List GoalInfo → Write
write_goal_infos list = do write_u32 (length list); write_each write_goal_info list

unfoldable read_goal_infos : Read (List GoalInfo)
read_goal_infos = read_u32 >>= read_counted read_goal_info goal_status_max

abbrev GoalInfosOk : List GoalInfo → Type 0
GoalInfosOk list = (length list ≤ goal_status_max) × All GoalInfoOk list

Trip-goal_infos :
    (list : List GoalInfo) → GoalInfosOk list → Trip (write_goal_infos list) read_goal_infos list
unfolding write_goal_infos read_goal_infos
Trip-goal_infos list h = Trip-bind _ _ _ _ _ _ (Trip-u32 (length list) (omega (arith, h.0))) (
    Trip-counted write_goal_info read_goal_info GoalInfoOk list goal_status_max h.0 Trip-goal_info
      h.1)

-- `action_msgs_CancelGoal_Response`
record CancelGoalResponse : Type 0 where
  pub return_code : ℤ
  pub goals_canceling : List GoalInfo

unfoldable write_cancel_goal_response : CancelGoalResponse → Write
write_cancel_goal_response m = do write_i8 m.return_code; write_goal_infos m.goals_canceling

unfoldable read_cancel_goal_response : Read CancelGoalResponse
read_cancel_goal_response = do
  return_code ← read_i8
  goals_canceling ← read_goal_infos
  pure (record { return_code = return_code; goals_canceling = goals_canceling })

record CancelGoalResponseOk (m : CancelGoalResponse) : Type 0 where
  pub return_code_ok : InRange 8 m.return_code
  pub goals_canceling_ok : GoalInfosOk m.goals_canceling

Trip-cancel_goal_response :
    (m : CancelGoalResponse)
    → CancelGoalResponseOk m
    → Trip (write_cancel_goal_response m) read_cancel_goal_response m
unfolding write_cancel_goal_response read_cancel_goal_response
Trip-cancel_goal_response m h =
    Trip-bind _ _ _ _ _ _ (Trip-i8 m.return_code h.return_code_ok)
      (Trip-last _ _ _ _ (Trip-goal_infos m.goals_canceling h.goals_canceling_ok))

-- `action_msgs_CancelGoal_Response_encode`, `action_msgs_CancelGoal_Response_decode`
unfoldable cancel_goal_response_encode : CancelGoalResponse → ℕ → Option (List ℕ)
cancel_goal_response_encode msg = encode (write_cancel_goal_response msg)

unfoldable cancel_goal_response_decode : List ℕ → Option CancelGoalResponse
cancel_goal_response_decode = decode read_cancel_goal_response

cancel_goal_response_decode-encode :
    (msg : CancelGoalResponse) (cap : ℕ) (bytes rest : List ℕ)
    → CancelGoalResponseOk msg
    → cancel_goal_response_encode msg cap ≡ some bytes
    → cancel_goal_response_decode (bytes ++ rest) ≡ some msg
unfolding cancel_goal_response_encode cancel_goal_response_decode
cancel_goal_response_decode-encode msg cap bytes rest h =
    decode-encode (write_cancel_goal_response msg) read_cancel_goal_response msg cap bytes rest
      (Trip-cancel_goal_response msg h)
