-- ===== src/Peer/Examples.antt =====
-- Tests of the peer of src/libs/protobuf_comm/peer.cpp in plain text, and its theorems at concrete
-- peers.
use at_work_central_factory.Common.{
  length, ◌<◌, ℕ, ◌≡◌, refl, true, false, none, some, List, [], ◌∷◌, take, drop, replicate, ok,
  arith,
}
use at_work_central_factory.Common.Dict.{nat_key}
use at_work_central_factory.Common.Bytes.{htons, htonl}
use at_work_central_factory.Wire.{
  QueueEntry, pb_frame_v1, pb_frame_v2, new_entry, read_frame_header, frame_header_bytes,
  frame_header_v1_bytes, message_header_bytes,
}
use at_work_central_factory.Protobuf.{Protobuf}
use at_work_central_factory.Protobuf.Plain.{
  Descriptor, Message, plain, plain-ProtobufLaws, beacon, order,
}
use at_work_central_factory.Register.{Register, key_type_key, serialize}
use at_work_central_factory.Server.{Endpoint, no_header}
use at_work_central_factory.Crypto.Plain.{plain_openssl}
use at_work_central_factory.Peer.{
  Peer, packet_bytes, first_bytes, async_send_to, async_receive_from, sig_rcvd_raw, sig_recv_error,
  invalid_number_of_bytes, max_packet_length,
}
use at_work_central_factory.Peer.Sending.{
  send, send_serialized, push_send, start_send, send_first, fill_packet,
}
use at_work_central_factory.Peer.Receiving.{handle_recv, is_local}
use at_work_central_factory.Peer.Delivery.{Listens, SendsPlain}
use at_work_central_factory.Peer.Transfer.{heard_as, handle_recv-send}
use at_work_central_factory.Peer.Refused.{handle_recv_v1_refused, handle_recv_cut_refused}

abbrev pub pb : Protobuf Descriptor Message
pb = plain (beacon ∷ order ∷ [])

abbrev pub beacons : Register Message
beacons = record {
  has_importer = false;
  by_comp_type = ((2000, 1), record { desc = beacon; bytes = [] }) ∷ [];
  by_typename = ("llsf_msgs.BeaconSignal", record { desc = beacon; bytes = [] }) ∷ [];
  failed_to_load = [];
}

abbrev pub blank : QueueEntry
blank = record {
  serialized_message = [];
  frame_header = no_header;
  frame_header_v1 = record { component_id = 0; msg_type = 0; payload_size = 0 };
  message_header = record { component_id = 0; msg_type = 0 };
}

abbrev pub hello : Message
hello = record { desc = beacon; bytes = 8 ∷ 3 ∷ [] }

abbrev pub robot : Endpoint
robot = ("10.0.0.7", 4445)

abbrev pub intruder : Endpoint
intruder = ("10.0.0.66", 1)

-- A peer that has resolved its address and has one listener.
abbrev pub peer : Peer Message
peer = record {
  filter_self = true;
  crypto = false;
  crypto_buf = false;
  recv_encrypted = false;
  crypto_enc = none;
  crypto_dec = none;
  frame_header_version = pb_frame_v2;
  in_data = [];
  enc_in_data = none;
  local_endpoints = ("10.0.0.1", 4445) ∷ [];
  listeners = 1;
  outbound_queue = [];
  outbound_active = false;
  outbound_endpoint = some ("10.0.0.255", 4445);
  message_register = beacons;
}

abbrev hello_datagram : List ℕ
hello_datagram = 2 ∷ 0 ∷ 0 ∷ 0 ∷ 0 ∷ 0 ∷ 0 ∷ 6 ∷ 7 ∷ 208 ∷ 0 ∷ 1 ∷ 8 ∷ 3 ∷ []

send_plain :
    (send plain_openssl pb blank peer 2000 1 hello).1
    ≡ ok (async_send_to hello_datagram (some ("10.0.0.255", 4445)) ∷ [])
unfolding send send_serialized push_send start_send send_first fill_packet packet_bytes first_bytes
    serialize new_entry frame_header_bytes message_header_bytes htons htonl
send_plain = refl

sends : SendsPlain peer
sends = record { plain = refl; idle = refl; empty = refl }

listens : Listens pb peer robot 2000 1 hello
unfolding is_local
listens = record {
  component_fits = omega arith;
  type_fits = omega arith;
  heard = omega arith;
  accepts = refl;
  known = (record { desc = beacon; bytes = [] }, refl, refl);
}

handle_recv-send_example :
    (b' : Peer Message) × (handle_recv plain_openssl pb peer robot (ok hello_datagram)
      ≡ ok (
        b',
        heard_as plain_openssl pb
            (plain-ProtobufLaws (beacon ∷ order ∷ []))
            robot
            hello_datagram
            2000
            1
            hello,
      ))
handle_recv-send_example =
    handle_recv-send plain_openssl pb (plain-ProtobufLaws (beacon ∷ order ∷ [])) blank peer peer
      robot 2000 1 hello hello_datagram (some ("10.0.0.255", 4445)) sends refl send_plain
      (omega arith) refl refl refl listens

-- Version 1
abbrev peer_v1 : Peer Message
peer_v1 = record peer { frame_header_version = pb_frame_v1 }

abbrev v1_datagram : List ℕ
v1_datagram = 7 ∷ 208 ∷ 0 ∷ 1 ∷ 0 ∷ 0 ∷ 0 ∷ 6 ∷ 8 ∷ 3 ∷ []

send_v1 :
    (send plain_openssl pb blank peer_v1 2000 1 hello).1
    ≡ ok (async_send_to v1_datagram (some ("10.0.0.255", 4445)) ∷ [])
unfolding send send_serialized push_send start_send send_first fill_packet packet_bytes first_bytes
    serialize new_entry frame_header_v1_bytes htons htonl
send_v1 = refl

handle_recv_v1_refused_example :
    (b' : Peer Message) × (handle_recv plain_openssl pb peer_v1 robot (ok v1_datagram)
      ≡ ok (
        b',
        sig_recv_error robot invalid_number_of_bytes ∷ async_receive_from max_packet_length ∷ [],
      ))
handle_recv_v1_refused_example =
    handle_recv_v1_refused plain_openssl pb (plain-ProtobufLaws (beacon ∷ order ∷ [])) blank peer_v1
      peer_v1 robot 2000 1 hello v1_datagram (some ("10.0.0.255", 4445))
      (record { plain = refl; idle = refl; empty = refl }) refl send_v1 refl refl refl (omega arith)

-- A message of 1020 bytes
abbrev long : Message
long = record { desc = beacon; bytes = replicate 1020 1 }

handle_recv_cut_refused_example :
    (datagram : List ℕ) × ((send plain_openssl pb blank peer 2000 1 long).1
      ≡ ok (async_send_to datagram (some ("10.0.0.255", 4445)) ∷ []))
    × (max_packet_length < length datagram)
    × (b' : Peer Message) × (handle_recv plain_openssl pb peer robot (ok (take 1024 datagram))
        ≡ ok (
          b',
          sig_rcvd_raw robot (read_frame_header datagram) (drop 8 (take 1024 datagram))
              ∷ sig_recv_error robot invalid_number_of_bytes
              ∷ async_receive_from max_packet_length
              ∷ [],
        ))
handle_recv_cut_refused_example =
    handle_recv_cut_refused plain_openssl pb (plain-ProtobufLaws (beacon ∷ order ∷ [])) blank peer
      peer robot 2000 1 long (replicate 1020 1) sends refl refl (omega arith) (omega arith) refl
      refl refl (omega arith)
