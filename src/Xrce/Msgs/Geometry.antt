-- ===== src/Xrce/Msgs/Geometry.antt =====
-- The messages of xrce/src/msgs.c with numbers, text and geometry. A `double` is its 64 bits.
use rtos_kernel_from_scratch.Common.{
  ℕ, Option, some, List, ◌++◌, ℤ, ◌≡◌, ◌<◌, ◌^◌, length, All, arith, subst,
}
use rtos_kernel_from_scratch.Xrce.Cdr.{
  Write, Read, ◌>>◌, ◌>>=◌, pure, write_i32, read_i32, write_u32, read_u32, write_f64, read_f64,
  write_string, read_string, write_each, read_each,
}
use rtos_kernel_from_scratch.Xrce.Cdr.Trip.{Trip, Trip-bind, Trip-last}
use rtos_kernel_from_scratch.Xrce.Cdr.Scalars.{InRange, Trip-i32, Trip-u32, Trip-f64}
use rtos_kernel_from_scratch.Xrce.Cdr.Strings.{Trip-string, Trip-each}
use rtos_kernel_from_scratch.Xrce.Msgs.{encode, decode, decode-encode}

-- `geometry_msgs_Vector3`
pub record Vector3 : Type 0 where
  pub x : ℕ
  pub y : ℕ
  pub z : ℕ

-- `write_vec3`, `read_vec3`
unfoldable pub write_vec3 : Vector3 → Write
write_vec3 v = do write_f64 v.x; write_f64 v.y; write_f64 v.z

unfoldable read_vec3 : Read Vector3
read_vec3 = do x ← read_f64; y ← read_f64; z ← read_f64; pure (record { x = x; y = y; z = z })

-- A `double` as bits.
abbrev Bits64 : ℕ → Type 0
Bits64 v = v < 2 ^ 64

pub record Vector3Ok (v : Vector3) : Type 0 where
  pub x_ok : Bits64 v.x
  pub y_ok : Bits64 v.y
  pub z_ok : Bits64 v.z

Trip-vec3 : (v : Vector3) → Vector3Ok v → Trip (write_vec3 v) read_vec3 v
unfolding write_vec3 read_vec3
Trip-vec3 v h =
    Trip-bind _ _ _ _ _ _ (Trip-f64 v.x h.x_ok)
      (Trip-bind _ _ _ _ _ _ (Trip-f64 v.y h.y_ok) (Trip-last _ _ _ _ (Trip-f64 v.z h.z_ok)))

-- `write_cov`, `read_cov`: the nine numbers of a covariance.
unfoldable pub write_cov : List ℕ → Write
write_cov cov = write_each write_f64 cov

unfoldable read_cov : Read (List ℕ)
read_cov = read_each read_f64 9

abbrev CovOk : List ℕ → Type 0
CovOk cov = (length cov ≡ 9) × All Bits64 cov

Trip-cov : (cov : List ℕ) → CovOk cov → Trip (write_cov cov) read_cov cov
unfolding write_cov read_cov
Trip-cov cov h =
    subst (λ n. Trip (write_each write_f64 cov) (read_each read_f64 n) cov) h.0
      (Trip-each write_f64 read_f64 Bits64 cov Trip-f64 h.1)

-- `XRCE_MSGS_FRAME_ID_MAX`
abbrev frame_id_max : ℕ
frame_id_max = 64

-- `builtin_interfaces_Time`, written and read field by field.
pub record Time : Type 0 where
  pub sec : ℤ
  pub nanosec : ℕ

unfoldable pub write_time : Time → Write
write_time t = do write_i32 t.sec; write_u32 t.nanosec

pub read_time : Read Time
read_time = do sec ← read_i32; nanosec ← read_u32; pure (record { sec = sec; nanosec = nanosec })

pub record TimeOk (t : Time) : Type 0 where
  pub sec_ok : InRange 32 t.sec
  pub nanosec_ok : t.nanosec < 2 ^ 32

pub Trip-time : (t : Time) → TimeOk t → Trip (write_time t) read_time t
unfolding write_time read_time
Trip-time t h =
    Trip-bind _ _ _ _ _ _ (Trip-i32 t.sec h.sec_ok)
      (Trip-last _ _ _ _ (Trip-u32 t.nanosec h.nanosec_ok))

-- `std_msgs_Header`
pub record Header : Type 0 where
  pub stamp : Time
  pub frame_id : List ℕ

unfoldable pub write_stamped : Header → Write
write_stamped h = do write_time h.stamp; write_string h.frame_id

pub read_stamped : Read Header
read_stamped = do
  stamp ← read_time
  frame_id ← read_string frame_id_max
  pure (record { stamp = stamp; frame_id = frame_id })

pub record HeaderOk (h : Header) : Type 0 where
  pub stamp_ok : TimeOk h.stamp
  pub frame_id_ok : length h.frame_id < frame_id_max

pub Trip-stamped : (v : Header) → HeaderOk v → Trip (write_stamped v) read_stamped v
unfolding write_stamped read_stamped
Trip-stamped v h = Trip-bind _ _ _ _ _ _ (Trip-time v.stamp h.stamp_ok) (
    Trip-last _ _ _ _
      (Trip-string v.frame_id frame_id_max h.frame_id_ok (omega (arith, h.frame_id_ok))))

-- `geometry_msgs_Quaternion`
pub record Quaternion : Type 0 where
  pub x : ℕ
  pub y : ℕ
  pub z : ℕ
  pub w : ℕ

unfoldable pub write_quaternion : Quaternion → Write
write_quaternion q = do write_f64 q.x; write_f64 q.y; write_f64 q.z; write_f64 q.w

unfoldable read_quaternion : Read Quaternion
read_quaternion = do
  x ← read_f64
  y ← read_f64
  z ← read_f64
  w ← read_f64
  pure (record { x = x; y = y; z = z; w = w })

pub record QuaternionOk (q : Quaternion) : Type 0 where
  pub x_ok : Bits64 q.x
  pub y_ok : Bits64 q.y
  pub z_ok : Bits64 q.z
  pub w_ok : Bits64 q.w

Trip-quaternion : (q : Quaternion) → QuaternionOk q → Trip (write_quaternion q) read_quaternion q
unfolding write_quaternion read_quaternion
Trip-quaternion q h = Trip-bind _ _ _ _ _ _ (Trip-f64 q.x h.x_ok) (
    Trip-bind _ _ _ _ _ _ (Trip-f64 q.y h.y_ok)
      (Trip-bind _ _ _ _ _ _ (Trip-f64 q.z h.z_ok) (Trip-last _ _ _ _ (Trip-f64 q.w h.w_ok))))

-- `sensor_msgs_Imu`
pub record Imu : Type 0 where
  pub header : Header
  pub orientation : Quaternion
  pub orientation_covariance : List ℕ
  pub angular_velocity : Vector3
  pub angular_velocity_covariance : List ℕ
  pub linear_acceleration : Vector3
  pub linear_acceleration_covariance : List ℕ

unfoldable pub write_imu : Imu → Write
write_imu m = do
  write_stamped m.header
  write_quaternion m.orientation
  write_cov m.orientation_covariance
  write_vec3 m.angular_velocity
  write_cov m.angular_velocity_covariance
  write_vec3 m.linear_acceleration
  write_cov m.linear_acceleration_covariance

unfoldable read_imu : Read Imu
read_imu = do
  header ← read_stamped
  orientation ← read_quaternion
  oc ← read_cov
  angular ← read_vec3
  ac ← read_cov
  linear ← read_vec3
  lc ← read_cov
  pure (record {
    header = header;
    orientation = orientation;
    orientation_covariance = oc;
    angular_velocity = angular;
    angular_velocity_covariance = ac;
    linear_acceleration = linear;
    linear_acceleration_covariance = lc;
  })

-- `sensor_msgs_Imu_encode`, `sensor_msgs_Imu_decode`
unfoldable pub imu_encode : Imu → ℕ → Option (List ℕ)
imu_encode msg = encode (write_imu msg)

pub imu_decode : List ℕ → Option Imu
imu_decode = decode read_imu

pub record ImuOk (m : Imu) : Type 0 where
  pub header_ok : HeaderOk m.header
  pub orientation_ok : QuaternionOk m.orientation
  pub orientation_covariance_ok : CovOk m.orientation_covariance
  pub angular_velocity_ok : Vector3Ok m.angular_velocity
  pub angular_velocity_covariance_ok : CovOk m.angular_velocity_covariance
  pub linear_acceleration_ok : Vector3Ok m.linear_acceleration
  pub linear_acceleration_covariance_ok : CovOk m.linear_acceleration_covariance

Trip-imu : (m : Imu) → ImuOk m → Trip (write_imu m) read_imu m
unfolding write_imu read_imu
Trip-imu m h = Trip-bind _ _ _ _ _ _ (Trip-stamped m.header h.header_ok) (
    Trip-bind _ _ _ _ _ _ (Trip-quaternion m.orientation h.orientation_ok) (
      Trip-bind _ _ _ _ _ _ (Trip-cov m.orientation_covariance h.orientation_covariance_ok) (
        Trip-bind _ _ _ _ _ _ (Trip-vec3 m.angular_velocity h.angular_velocity_ok) (
          Trip-bind _ _ _ _ _ _
            (Trip-cov m.angular_velocity_covariance h.angular_velocity_covariance_ok)
            (Trip-bind _ _ _ _ _ _ (Trip-vec3 m.linear_acceleration h.linear_acceleration_ok) (
              Trip-last _ _ _ _ (
                Trip-cov m.linear_acceleration_covariance h.linear_acceleration_covariance_ok)))))))

-- An IMU sample that was encoded into a buffer of any size is decoded as it was, whatever bytes
-- follow it: every number is a 64 bit pattern, the frame id fits its array, and each covariance has
-- nine numbers.
pub imu_decode-encode :
    (msg : Imu) (cap : ℕ) (bytes rest : List ℕ)
    → ImuOk msg
    → imu_encode msg cap ≡ some bytes
    → imu_decode (bytes ++ rest) ≡ some msg
unfolding imu_encode imu_decode
imu_decode-encode msg cap bytes rest h =
    decode-encode (write_imu msg) read_imu msg cap bytes rest (Trip-imu msg h)

-- `geometry_msgs_Twist`
record Twist : Type 0 where
  pub linear : Vector3
  pub angular : Vector3

unfoldable write_twist : Twist → Write
write_twist m = do write_vec3 m.linear; write_vec3 m.angular

unfoldable read_twist : Read Twist
read_twist = do
  linear ← read_vec3
  angular ← read_vec3
  pure (record { linear = linear; angular = angular })

-- `geometry_msgs_Twist_encode`, `geometry_msgs_Twist_decode`
unfoldable twist_encode : Twist → ℕ → Option (List ℕ)
twist_encode msg = encode (write_twist msg)

unfoldable twist_decode : List ℕ → Option Twist
twist_decode = decode read_twist

record TwistOk (m : Twist) : Type 0 where
  pub linear_ok : Vector3Ok m.linear
  pub angular_ok : Vector3Ok m.angular

Trip-twist : (m : Twist) → TwistOk m → Trip (write_twist m) read_twist m
unfolding write_twist read_twist
Trip-twist m h =
    Trip-bind _ _ _ _ _ _ (Trip-vec3 m.linear h.linear_ok)
      (Trip-last _ _ _ _ (Trip-vec3 m.angular h.angular_ok))

twist_decode-encode :
    (msg : Twist) (cap : ℕ) (bytes rest : List ℕ)
    → TwistOk msg
    → twist_encode msg cap ≡ some bytes
    → twist_decode (bytes ++ rest) ≡ some msg
unfolding twist_encode twist_decode
twist_decode-encode msg cap bytes rest h =
    decode-encode (write_twist msg) read_twist msg cap bytes rest (Trip-twist msg h)
