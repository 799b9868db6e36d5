-- ===== src/Firmware/Tests.antt =====
-- rtos/arm/ros2_demo.c on examples, and its theorem at a concrete build.
use rtos_kernel_from_scratch.Common.{
  ◌≡◌, ◌≤◌, refl, false, none, some, [], ◌∷◌, length, replicate, arith, All,
}
use rtos_kernel_from_scratch.Xrce.Serial.{FrameReader, reader_init, feed_all}
use rtos_kernel_from_scratch.Firmware.Node.{Build, Node, ascii, uint_text, digits_of, node_suffix}
use rtos_kernel_from_scratch.Firmware.Announce.{run_main, datareader_xml}
use rtos_kernel_from_scratch.Firmware.Heard.{IsListening, IsFrame, carried}
use rtos_kernel_from_scratch.Firmware.Speaking.{frame_max}
use rtos_kernel_from_scratch.Firmware.Running.{run_main-IsHeard}

abbrev second : Build
second = record { secure_link = false; node_id = 2; node_id_str = 50 ∷ [] }

node_suffix_test : node_suffix second ≡ ascii "_2"
node_suffix_test = refl

uint_text_test : uint_text 4294967295 ≡ ascii "4294967295"
unfolding uint_text digits_of
uint_text_test = refl

datareader_xml_test : length (datareader_xml "rt/setpoint" second) ≡ 146
datareader_xml_test = refl

abbrev listener : FrameReader
listener = reader_init 0 (replicate 268 0) 268

-- A byte that is no frame arrives during the first pause.
run_main-IsHeard_example :
    (n : Node) × (run_main second (none ∷ some 126 ∷ []) 3 ≡ some n)
    × IsListening frame_max (feed_all listener n.uart).0
    × All (IsFrame frame_max) (feed_all listener n.uart).1
    × (14 ≤ carried (feed_all listener n.uart).1)
unfolding reader_init
run_main-IsHeard_example =
    run_main-IsHeard second (none ∷ some 126 ∷ []) 3 listener (omega arith) (omega arith) record {
      no_escape = refl;
      waits = refl;
      for_addr = refl;
      room = omega arith;
      storage = omega arith;
    }
