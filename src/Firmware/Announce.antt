-- ===== src/Firmware/Announce.antt =====
-- rtos/arm/ros2_demo.c: the announcement of the entities of the node, and `main`.
use rtos_kernel_from_scratch.Common.{
  ℕ, zero, suc, ◌+◌, ◌%◌, ◌&&◌, Option, none, some, List, [], ◌∷◌, ◌++◌, drop, replicate, pos, ◌==◌,
  ltb, if◌then◌else◌,
}
use Prim.Native.String.{String}
use rtos_kernel_from_scratch.Xrce.Serial.{reader_init}
use rtos_kernel_from_scratch.Xrce.Secure.{secure_init, overhead}
use rtos_kernel_from_scratch.Xrce.Msgs.Basic.{int32_encode}
use rtos_kernel_from_scratch.Xrce.Session.{
  Session, ObjectId, object_id, Built, session_init, build_create_client, build_create_participant,
  build_create_xml, build_read_data, build_write_data,
}
use rtos_kernel_from_scratch.Firmware.Node.{
  Build, node_suffix, ascii, serial_addr, best_effort_stream, Entities, Node, puts, put_uint,
  send_built, pace_and_poll_rx, frame_room,
}

-- The kinds of objects of xrce/include/xrce/session.h.
abbrev objk_participant : ℕ
objk_participant = 1

abbrev objk_topic : ℕ
objk_topic = 2

abbrev objk_publisher : ℕ
objk_publisher = 3

abbrev objk_subscriber : ℕ
objk_subscriber = 4

abbrev objk_datawriter : ℕ
objk_datawriter = 5

abbrev objk_datareader : ℕ
objk_datareader = 6

abbrev pub pace_busy_loops : ℕ
pace_busy_loops = 5000

abbrev pub reannounce_every : ℕ
reannounce_every = 200

-- The size of `msg` in `announce_entities`, and in `main`.
abbrev pub announce_cap : ℕ
announce_cap = 192

abbrev pub publish_cap : ℕ
publish_cap = 64

-- What `announce_entities` does for each entity: a line of text, a message, and a pause.
unfoldable pub announce : Build → String → (Session → Built) → Node → Node
announce cfg line build n =
    let n' = puts line n in
    let sent = send_built cfg (build n'.session) n' in
    pace_and_poll_rx cfg sent.entities.datareader pace_busy_loops sent

-- A description: the suffix of the node stands behind the name.
abbrev pub xml : String → String → String → Build → List ℕ
xml head name tail cfg = (ascii head ++ ascii name) ++ (node_suffix cfg ++ ascii tail)

abbrev pub participant_xml : Build → List ℕ
participant_xml =
    xml "<dds><participant><rtps><name>" "rtos_qemu_demo" "</name></rtps></participant></dds>"

abbrev pub topic_xml : String → Build → List ℕ
topic_xml name =
    xml "<dds><topic><name>" name
      "</name><dataType>std_msgs::msg::dds_::Int32_</dataType></topic></dds>"

abbrev pub datawriter_xml : String → Build → List ℕ
datawriter_xml name =
    xml "<dds><data_writer><topic><kind>NO_KEY</kind><name>" name
      "</name><dataType>std_msgs::msg::dds_::Int32_</dataType></topic></data_writer></dds>"

abbrev pub datareader_xml : String → Build → List ℕ
datareader_xml name =
    xml "<dds><data_reader><topic><kind>NO_KEY</kind><name>" name
      "</name><dataType>std_msgs::msg::dds_::Int32_</dataType></topic></data_reader></dds>"

abbrev pub create_xml : ObjectId → ObjectId → List ℕ → Session → Built
create_xml oid parent xml s = build_create_xml s best_effort_stream oid parent xml announce_cap

-- The naming of an object, before its line of text.
abbrev named : Entities → Node → Node
named entities n = record n { entities = entities }

abbrev pub announce_client : Build → Node → Node
announce_client cfg n =
    announce cfg "-> CREATE_CLIENT\r\n" (λ s. (s, build_create_client s announce_cap)) n

abbrev pub announce_participant : Build → Node → Node
announce_participant cfg n =
    let e = record n.entities { participant = object_id 1 objk_participant } in
    announce cfg "-> CREATE participant\r\n"
      (λ s.
        build_create_participant s best_effort_stream e.participant (pos 0) (participant_xml cfg)
          announce_cap)
      (named e n)

abbrev announce_topic : Build → Node → Node
announce_topic cfg n =
    let e = record n.entities { topic = object_id 1 objk_topic } in
    announce cfg "-> CREATE topic (rt/chatter)\r\n"
      (create_xml e.topic e.participant (topic_xml "rt/chatter" cfg)) (named e n)

abbrev announce_publisher : Build → Node → Node
announce_publisher cfg n =
    let e = record n.entities { publisher = object_id 1 objk_publisher } in
    announce cfg "-> CREATE publisher\r\n" (create_xml e.publisher e.participant []) (named e n)

abbrev announce_datawriter : Build → Node → Node
announce_datawriter cfg n =
    let e = record n.entities { datawriter = object_id 1 objk_datawriter } in
    announce cfg "-> CREATE datawriter\r\n"
      (create_xml e.datawriter e.publisher (datawriter_xml "rt/chatter" cfg)) (named e n)

abbrev announce_cmd_topic : Build → Node → Node
announce_cmd_topic cfg n =
    let e = record n.entities { cmd_topic = object_id 2 objk_topic } in
    announce cfg "-> CREATE topic (rt/setpoint)\r\n"
      (create_xml e.cmd_topic e.participant (topic_xml "rt/setpoint" cfg)) (named e n)

abbrev announce_subscriber : Build → Node → Node
announce_subscriber cfg n =
    let e = record n.entities { subscriber = object_id 1 objk_subscriber } in
    announce cfg "-> CREATE subscriber\r\n" (create_xml e.subscriber e.participant []) (named e n)

abbrev announce_datareader : Build → Node → Node
announce_datareader cfg n =
    let e = record n.entities { datareader = object_id 1 objk_datareader } in
    announce cfg "-> CREATE datareader\r\n"
      (create_xml e.datareader e.subscriber (datareader_xml "rt/setpoint" cfg)) (named e n)

abbrev pub announce_read : Build → Node → Node
announce_read cfg n =
    announce cfg "-> READ_DATA (rt/setpoint)\r\n"
      (λ s.
        build_read_data s best_effort_stream n.entities.datareader best_effort_stream announce_cap)
      n

abbrev announce_pong_topic : Build → Node → Node
announce_pong_topic cfg n =
    let e = record n.entities { pong_topic = object_id 3 objk_topic } in
    announce cfg "-> CREATE topic (rt/pong)\r\n"
      (create_xml e.pong_topic e.participant (topic_xml "rt/pong" cfg)) (named e n)

abbrev announce_pong_datawriter : Build → Node → Node
announce_pong_datawriter cfg n =
    let e = record n.entities { pong_datawriter = object_id 2 objk_datawriter } in
    announce cfg "-> CREATE datawriter (rt/pong)\r\n"
      (create_xml e.pong_datawriter e.publisher (datawriter_xml "rt/pong" cfg)) (named e n)

-- `announce_entities`, one entity behind the other
unfoldable pub in_turn : List (Node → Node) → Node → Node
in_turn [] n = n
in_turn (f ∷ fs) n = in_turn fs (f n)

unfoldable pub announce_entities : Build → Node → Node
announce_entities cfg = in_turn (
    announce_client cfg
    ∷ announce_participant cfg
    ∷ announce_topic cfg
    ∷ announce_publisher cfg
    ∷ announce_datawriter cfg
    ∷ announce_cmd_topic cfg
    ∷ announce_subscriber cfg
    ∷ announce_datareader cfg
    ∷ announce_read cfg
    ∷ announce_pong_topic cfg
    ∷ announce_pong_datawriter cfg
    ∷ [])

abbrev secure_key : List ℕ
secure_key =
    0xDE ∷ 0xAD ∷ 0xBE ∷ 0xEF ∷ 0xCA ∷ 0xFE ∷ 0xBA ∷ 0xBE ∷ 0x13 ∷ 0x37 ∷ 0xC0 ∷ 0xDE ∷ 0xF0 ∷ 0x0D
    ∷ 0x5E ∷ 0xED ∷ []

abbrev no_entities : Entities
no_entities =
    let none_yet = object_id 0 0 in
    record {
      participant = none_yet;
      topic = none_yet;
      publisher = none_yet;
      datawriter = none_yet;
      cmd_topic = none_yet;
      subscriber = none_yet;
      datareader = none_yet;
      pong_topic = none_yet;
      pong_datawriter = none_yet;
    }

-- `main` before its loop, with what is going to arrive; without `SECURE_LINK` the two contexts of the
-- secure transport do not exist, and are not used here.
abbrev pub node_init : Build → List (Option ℕ) → Node
node_init cfg arriving = record {
  session = session_init 1 (0x52 ∷ 0x54 ∷ 0x4F ∷ ((0x53 + cfg.node_id) % 256) ∷ []) 512;
  uplink = secure_init secure_key;
  downlink = secure_init secure_key;
  rx_reader = reader_init serial_addr (replicate (frame_room + overhead) 0) (frame_room + overhead);
  entities = no_entities;
  arriving = arriving;
  uart = [];
}

abbrev pub say_secure : Build → Node → Node
say_secure cfg n =
    if cfg.secure_link
    then puts
        "SECURE_LINK enabled: every frame HMAC-authenticated, point this at host/secure_gateway.c, not a bare agent\r\n"
        n
    else n

unfoldable pub boot_node : Build → List (Option ℕ) → Node
boot_node cfg arriving =
    puts "Publishing std_msgs/Int32 on rt/chatter, watching rt/setpoint...\r\n" (
      announce_entities cfg (
        say_secure cfg (
          puts "RTOS ROS2 demo: booting, sending XRCE frames over UART1\r\n"
            (node_init cfg arriving))))

-- The sample without its encapsulation header, and what follows from sending it.
abbrev pub publish_sample : Build → ℕ → List ℕ → Node → Node
publish_sample cfg i sample n =
    let sent =
      send_built cfg
        (build_write_data n.session best_effort_stream n.entities.datawriter (drop 4 sample)
          publish_cap)
        n in
    let told = puts "\r\n" (put_uint i (puts "published data=" sent)) in
    pace_and_poll_rx cfg told.entities.datareader pace_busy_loops told

abbrev pub reannounce : Build → ℕ → Node → Node
reannounce cfg i n = if ltb 0 i && (i % reannounce_every == 0) then announce_entities cfg n else n

-- A round of the loop of `main`, with `i` below 2 ^ 31; `none` where the program hangs on an error.
abbrev pub publish_encoded : Build → ℕ → Option (List ℕ) → Node → Option Node
publish_encoded cfg i none n = none
publish_encoded cfg i (some sample) n = some (publish_sample cfg i sample n)

unfoldable pub publish : Build → ℕ → Node → Option Node
publish cfg i n = publish_encoded cfg i (int32_encode (pos i) 16) (reannounce cfg i n)

-- The first `rounds` rounds of the loop, from the number `i` on.
unfoldable pub publish_from : Build → ℕ → ℕ → Node → Option Node
publish_from cfg zero i n = some n
publish_from cfg (suc rounds) i n = elim (publish cfg i n) [
  | none ↦ none
  | some n' ↦ publish_from cfg rounds (i + 1) n'
]

unfoldable pub run_main : Build → List (Option ℕ) → ℕ → Option Node
run_main cfg arriving rounds = publish_from cfg rounds 0 (boot_node cfg arriving)
