-- ===== src/Firmware/Announcing.antt =====
-- What rtos/arm/ros2_demo.c says while it announces its entities is heard.
use Prim.Native.String.{String}
use rtos_kernel_from_scratch.Common.{
  ℕ, suc, ◌+◌, ◌≤◌, ◌≡◌, refl, true, List, [], ◌∷◌, ◌++◌, length, arith, leb, ◌∙◌, pos,
  length-append,
}
use rtos_kernel_from_scratch.Xrce.Session.{
  Session, ObjectId, object_id, Built, build_create_client, submsg_create_client,
}
use rtos_kernel_from_scratch.Xrce.Session.Headers.{header_bytes, submessage}
use rtos_kernel_from_scratch.Xrce.Session.Requests.{create_participant, create_entity, read_data}
use rtos_kernel_from_scratch.Xrce.Session.Control.{control-messages, handshake, length-handshake}
use rtos_kernel_from_scratch.Firmware.Node.{
  Build, node_suffix, ascii, best_effort_stream, Node, puts,
}
use rtos_kernel_from_scratch.Firmware.Announce.{
  announce, announce_cap, pace_busy_loops, xml, participant_xml, topic_xml, datawriter_xml,
  datareader_xml, create_xml, announce_client, announce_participant, announce_read, in_turn,
  announce_entities,
}
use rtos_kernel_from_scratch.Firmware.Heard.{all_plain}
use rtos_kernel_from_scratch.Firmware.Speaking.{
  IsClear, IsClear-fewer, puts-IsClear, IsFitting, build-IsFitting, fitting-some, quiet,
  send_built-IsClear, pace_and_poll_rx-IsClear,
}

announce-IsClear :
    (cfg : Build) (line : String) (make : Session → Built) (n : Node) {m : ℕ}
    → all_plain (ascii line) ≡ true
    → ((s : Session) → length s.client_key ≡ 4 → IsFitting (make s))
    → IsClear m n
    → IsClear (suc m) (announce cfg line make n)
unfolding announce
announce-IsClear cfg line make n p fits c =
    let c1 = puts-IsClear line n p c in
    pace_and_poll_rx-IsClear cfg _ pace_busy_loops _
      (send_built-IsClear cfg (make (puts line n).session) (puts line n) (fits _ c1.key) c1)

-- The node id of a build has a text of a sensible length.
abbrev pub IsSensible : Build → Type 0
IsSensible cfg = length cfg.node_id_str ≤ 20

IsShort : ℕ → String → String → String → Type 0
IsShort k head name tail = leb (length (ascii head ++ ascii name) + length (ascii tail)) k ≡ true

xml_small :
    (k : ℕ) (head name tail : String) (cfg : Build)
    → IsSensible cfg
    → IsShort k head name tail
    → length (xml head name tail cfg) ≤ k + 21
unfolding IsShort
xml_small k head name tail cfg h short =
    let front = ascii head ++ ascii name in
    let suffix : length (node_suffix cfg) ≤ 21 = ground arith in
    let l1 = length-append {0} front (node_suffix cfg ++ ascii tail) in
    let l2 = length-append {0} (node_suffix cfg) (ascii tail) in
    let x : length front + length (ascii tail) ≤ k = ground arith in omega arith

create_xml-IsFitting :
    (oid parent : ObjectId) (text : List ℕ) (s : Session)
    → length text ≤ 165
    → length s.client_key ≡ 4
    → IsFitting (create_xml oid parent text s)
create_xml-IsFitting oid parent text s small key =
    build-IsFitting s best_effort_stream (create_entity oid parent text) announce_cap key
      (omega arith) (omega arith) (omega arith)

participant_xml-IsSmall : (cfg : Build) → IsSensible cfg → length (participant_xml cfg) ≤ 164
unfolding IsShort
participant_xml-IsSmall cfg h =
    xml_small 143 "<dds><participant><rtps><name>" "rtos_qemu_demo"
      "</name></rtps></participant></dds>" cfg h refl

topic_xml-IsSmall :
    (name : String) (cfg : Build)
    → IsSensible cfg
    → IsShort 144 "<dds><topic><name>" name
        "</name><dataType>std_msgs::msg::dds_::Int32_</dataType></topic></dds>"
    → length (topic_xml name cfg) ≤ 165
topic_xml-IsSmall name cfg h short =
    xml_small 144 "<dds><topic><name>" name
      "</name><dataType>std_msgs::msg::dds_::Int32_</dataType></topic></dds>" cfg h short

datawriter_xml-IsSmall :
    (name : String) (cfg : Build)
    → IsSensible cfg
    → IsShort 144 "<dds><data_writer><topic><kind>NO_KEY</kind><name>" name
        "</name><dataType>std_msgs::msg::dds_::Int32_</dataType></topic></data_writer></dds>"
    → length (datawriter_xml name cfg) ≤ 165
datawriter_xml-IsSmall name cfg h short =
    xml_small 144 "<dds><data_writer><topic><kind>NO_KEY</kind><name>" name
      "</name><dataType>std_msgs::msg::dds_::Int32_</dataType></topic></data_writer></dds>" cfg h
      short

datareader_xml-IsSmall :
    (name : String) (cfg : Build)
    → IsSensible cfg
    → IsShort 144 "<dds><data_reader><topic><kind>NO_KEY</kind><name>" name
        "</name><dataType>std_msgs::msg::dds_::Int32_</dataType></topic></data_reader></dds>"
    → length (datareader_xml name cfg) ≤ 165
datareader_xml-IsSmall name cfg h short =
    xml_small 144 "<dds><data_reader><topic><kind>NO_KEY</kind><name>" name
      "</name><dataType>std_msgs::msg::dds_::Int32_</dataType></topic></data_reader></dds>" cfg h
      short

client-IsFitting :
    (s : Session) → length s.client_key ≡ 4 → IsFitting (s, build_create_client s announce_cap)
client-IsFitting s key =
    let same = (control-messages s 0 0 0 announce_cap key).0 in
    let msg = header_bytes 0 0 0 s.client_key ++ submessage submsg_create_client (handshake s) in
    let l1 = length-append {0} s.client_key (submessage submsg_create_client (handshake s)) in
    let l2 = length-handshake s key in
    let made = same ∙ fitting-some announce_cap msg (omega arith) in
    record { said = rw made (omega arith); short = rw made (omega arith); key = key }

-- Each of the announcements.
abbrev pub Keeps : (Node → Node) → Type 0
Keeps f = (n : Node) (m : ℕ) → IsClear m n → IsClear m (f n)

-- A step that says a frame.
abbrev Sends : (Node → Node) → Type 0
Sends f = (n : Node) (m : ℕ) → IsClear m n → IsClear (suc m) (f n)

announce_client-Sends : (cfg : Build) → Sends (announce_client cfg)
announce_client-Sends cfg n m c =
    announce-IsClear cfg "-> CREATE_CLIENT\r\n" (λ s. (s, build_create_client s announce_cap)) n
      refl client-IsFitting c

announce_participant-Sends : (cfg : Build) → IsSensible cfg → Sends (announce_participant cfg)
announce_participant-Sends cfg h n m c =
    announce-IsClear cfg "-> CREATE participant\r\n" _ _ refl
      (λ s key.
        build-IsFitting s best_effort_stream
          (create_participant (object_id 1 1) (pos 0) (participant_xml cfg)) announce_cap key
          (let small = participant_xml-IsSmall cfg h in omega arith)
          (let small = participant_xml-IsSmall cfg h in omega arith) (omega arith))
      (quiet n _ refl refl c)

-- An entity with a parent: its line of text, its description, and the object it names.
entity-IsClear :
    (cfg : Build) (line : String) (n n' : Node) {m : ℕ} (oid parent : ObjectId) (text : List ℕ)
    → all_plain (ascii line) ≡ true
    → length text ≤ 165
    → n'.uart ≡ n.uart
    → n'.session ≡ n.session
    → IsClear m n
    → IsClear (suc m) (announce cfg line (create_xml oid parent text) n')
entity-IsClear cfg line n n' oid parent text p small u e c =
    announce-IsClear cfg line (create_xml oid parent text) n' p
      (λ s key. create_xml-IsFitting oid parent text s small key) (quiet n n' u e c)

announce_read-Sends : (cfg : Build) → Sends (announce_read cfg)
announce_read-Sends cfg n m c =
    announce-IsClear cfg "-> READ_DATA (rt/setpoint)\r\n" _ n refl
      (λ s key.
        build-IsFitting s best_effort_stream (read_data n.entities.datareader best_effort_stream)
          announce_cap key tt (omega arith) (omega arith))
      c

-- Steps in turn that each say a frame.
data AllSend : List (Node → Node) → Type 1 where
  no_more : AllSend []
  and_then : {f : Node → Node} {fs : List (Node → Node)} → Sends f → AllSend fs → AllSend (f ∷ fs)

in_turn-IsClear :
    (fs : List (Node → Node)) (n : Node) {m : ℕ}
    → AllSend fs
    → IsClear m n
    → IsClear (length fs + m) (in_turn fs n)
unfolding in_turn
in_turn-IsClear [] n {m} no_more c = IsClear-fewer m (0 + m) n (omega arith) c
in_turn-IsClear (f ∷ fs) n {m} (and_then k ks) c =
    IsClear-fewer (length fs + suc m) (suc (length fs) + m) (in_turn fs (f n)) (omega arith)
      (in_turn-IsClear fs (f n) ks (k n _ c))

-- The eleven announcements.
pub announce_entities-IsClear :
    (cfg : Build) (n : Node) {m : ℕ}
    → IsSensible cfg
    → IsClear m n
    → IsClear (11 + m) (announce_entities cfg n)
unfolding announce_entities IsShort
announce_entities-IsClear cfg n h c =
    in_turn-IsClear _ n
      (and_then (announce_client-Sends cfg) (
        and_then (announce_participant-Sends cfg h) (
          and_then
            (λ n m c.
              entity-IsClear cfg "-> CREATE topic (rt/chatter)\r\n" n _ _ _ _ refl
                (topic_xml-IsSmall "rt/chatter" cfg h refl) refl refl c)
            (and_then
              (λ n m c.
                entity-IsClear cfg "-> CREATE publisher\r\n" n _ _ _ [] refl (omega arith) refl refl
                  c)
              (and_then
                (λ n m c.
                  entity-IsClear cfg "-> CREATE datawriter\r\n" n _ _ _ _ refl
                    (datawriter_xml-IsSmall "rt/chatter" cfg h refl) refl refl c)
                (and_then
                  (λ n m c.
                    entity-IsClear cfg "-> CREATE topic (rt/setpoint)\r\n" n _ _ _ _ refl
                      (topic_xml-IsSmall "rt/setpoint" cfg h refl) refl refl c)
                  (and_then
                    (λ n m c.
                      entity-IsClear cfg "-> CREATE subscriber\r\n" n _ _ _ [] refl (omega arith)
                        refl refl c)
                    (and_then
                      (λ n m c.
                        entity-IsClear cfg "-> CREATE datareader\r\n" n _ _ _ _ refl
                          (datareader_xml-IsSmall "rt/setpoint" cfg h refl) refl refl c)
                      (and_then (announce_read-Sends cfg) (
                        and_then
                          (λ n m c.
                            entity-IsClear cfg "-> CREATE topic (rt/pong)\r\n" n _ _ _ _ refl
                              (topic_xml-IsSmall "rt/pong" cfg h refl) refl refl c)
                          (and_then
                            (λ n m c.
                              entity-IsClear cfg "-> CREATE datawriter (rt/pong)\r\n" n _ _ _ _ refl
                                (datawriter_xml-IsSmall "rt/pong" cfg h refl) refl refl c)
                            no_more)))))))))))
      c
