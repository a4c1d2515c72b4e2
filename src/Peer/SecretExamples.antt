-- ===== src/Peer/SecretExamples.antt =====
-- Tests of the encrypted peer of src/libs/protobuf_comm/peer.cpp and of crypto.cpp, and their
-- theorems at concrete peers.
use at_work_central_factory.Common.{
  ℕ, ◌≡◌, ◌≢◌, refl, true, false, ◌&&◌, none, some, List, [], ◌∷◌, ◌++◌, drop, replicate, ok, err,
  arith,
}
use at_work_central_factory.Common.Dict.{insert, nat_key}
use at_work_central_factory.Common.Bytes.{htons, htonl}
use at_work_central_factory.Wire.{
  pb_frame_v2, new_entry, read_frame_header, read_message_header, frame_header_bytes,
  message_header_bytes,
}
use at_work_central_factory.Protobuf.Plain.{Message, plain-ProtobufLaws, beacon, order}
use at_work_central_factory.Register.{
  key_type_key, serialize, deserialize, new_message_for, data_size,
}
use at_work_central_factory.Crypto.{
  aes_128_cbc, BufferEncryptor, BufferDecryptor, overrun, cipher_by_id, cipher_by_name,
  cipher_name_to_id, new_encryptor, new_decryptor, next_iv, encrypt_with, encrypt,
  encrypted_buffer_size, generate_key, with_key, decrypt_with, decrypt,
}
use at_work_central_factory.Crypto.Inverse.{KeysMatch, decrypt-encrypt, encrypt_fits}
use at_work_central_factory.Crypto.Plain.{plain_openssl, plain_openssl-OpensslLaws}
use at_work_central_factory.Peer.{
  Peer, packet_bytes, first_bytes, Action, async_send_to, async_receive_from, sig_rcvd_raw,
  sig_rcvd, sig_recv_error, encryption_enabled, max_packet_length, null_pointer, start_recv, ctor,
  setup_crypto, without_keys,
}
use at_work_central_factory.Peer.Sending.{
  send, send_serialized, push_send, start_send, send_first, send_encrypted, send_encrypted_sized,
  encrypted_packet, fill_packet, handle_sent,
}
use at_work_central_factory.Peer.Receiving.{
  handle_recv, look_at, received, received_v2, check_cipher, decrypt_received, decrypted, deliver,
  signalled, parts, expected_min_size, is_local,
}
use at_work_central_factory.Peer.Events.{Event, connect_slot, recv_done, resolve_done, step, run}
use at_work_central_factory.Peer.Delivery.{Listens}
use at_work_central_factory.Peer.Transfer.{heard_as}
use at_work_central_factory.Peer.Encrypted.{Heard, handle_recv-send_encrypted}
use at_work_central_factory.Peer.Replay.{plain_replays}
use at_work_central_factory.Peer.Sound.{Sound}
use at_work_central_factory.Peer.States.{is_null_pointer, is_waiting, run-ctor-Sound}
use at_work_central_factory.Peer.Examples.{pb, beacons, blank, hello, robot, intruder, peer}

-- Encryption
abbrev encryptor : BufferEncryptor
encryptor = record { key = 1 ∷ 2 ∷ []; iv = 0; cipher = aes_128_cbc; cipher_id = 2 }

abbrev decryptor : BufferDecryptor
decryptor = record { key = "secret"; keys = [] }

new_encryptor_test : new_encryptor plain_openssl "secret" "aes-128-cbc" (some 0) ≡ ok encryptor
unfolding new_encryptor cipher_by_name cipher_name_to_id
new_encryptor_test = refl

abbrev secret_peer : Peer Message
secret_peer = record peer {
  crypto = true;
  crypto_buf = true;
  recv_encrypted = true;
  crypto_enc = some encryptor;
  crypto_dec = some decryptor;
  enc_in_data = some [];
}

-- The vector, the two headers and the message, and the padding.
abbrev secret_text : List ℕ
secret_text = 1 ∷ 1 ∷ 2 ∷ 3 ∷ 7 ∷ 208 ∷ 0 ∷ 1 ∷ 8 ∷ 3 ∷ 0 ∷ []

abbrev secret_datagram : List ℕ
secret_datagram = 2 ∷ 2 ∷ 0 ∷ 0 ∷ 0 ∷ 0 ∷ 0 ∷ 11 ∷ secret_text

encrypt_test :
    (encrypt plain_openssl encryptor (7 ∷ 208 ∷ 0 ∷ 1 ∷ 8 ∷ 3 ∷ []) (replicate 11 0)).1
    ≡ ok secret_text
unfolding encrypt cipher_by_id next_iv encrypt_with
encrypt_test = refl

keys_match : KeysMatch plain_openssl plain_openssl-OpensslLaws decryptor
keys_match = record { generated = λ id key h. cc }

decrypt-encrypt_example :
    (decrypt plain_openssl decryptor 2 (secret_text ++ 9 ∷ []) 11).1
    ≡ ok (7 ∷ 208 ∷ 0 ∷ 1 ∷ 8 ∷ 3 ∷ [])
decrypt-encrypt_example =
    decrypt-encrypt plain_openssl plain_openssl-OpensslLaws encryptor decryptor
      (7 ∷ 208 ∷ 0 ∷ 1 ∷ 8 ∷ 3 ∷ []) (replicate 11 0) secret_text (9 ∷ []) keys_match (λ c h. refl)
      encrypt_test (omega arith) (omega arith)

sized : encrypted_buffer_size plain_openssl encryptor 6 ≡ ok 11
unfolding encrypted_buffer_size cipher_by_id
sized = refl

encrypt_fits_example :
    (encrypt plain_openssl encryptor (7 ∷ 208 ∷ 0 ∷ 1 ∷ 8 ∷ 3 ∷ []) (replicate 11 0)).1
    ≢ err overrun
encrypt_fits_example =
    encrypt_fits plain_openssl plain_openssl-OpensslLaws encryptor (7 ∷ 208 ∷ 0 ∷ 1 ∷ 8 ∷ 3 ∷ [])
      (replicate 11 0) sized

send_secret :
    (send plain_openssl pb blank secret_peer 2000 1 hello).1
    ≡ ok (async_send_to secret_datagram (some ("10.0.0.255", 4445)) ∷ [])
unfolding send send_serialized push_send start_send send_first send_encrypted send_encrypted_sized
    encrypted_packet encrypted_buffer_size encrypt cipher_by_id next_iv encrypt_with fill_packet
    packet_bytes first_bytes serialize new_entry frame_header_bytes message_header_bytes htons htonl
send_secret = refl

secret-Listens : Listens pb secret_peer robot 2000 1 hello
unfolding is_local
secret-Listens = record {
  component_fits = omega arith;
  type_fits = omega arith;
  heard = omega arith;
  accepts = refl;
  known = (record { desc = beacon; bytes = [] }, refl, refl);
}

handle_recv-send_encrypted_example :
    (b' : Peer Message) × (handle_recv plain_openssl pb secret_peer robot (ok secret_datagram)
      ≡ ok (
        b',
        heard_as plain_openssl pb
            (plain-ProtobufLaws (beacon ∷ order ∷ []))
            robot
            secret_datagram
            2000
            1
            hello,
      ))
handle_recv-send_encrypted_example =
    handle_recv-send_encrypted plain_openssl pb (plain-ProtobufLaws (beacon ∷ order ∷ []))
      plain_openssl-OpensslLaws blank secret_peer secret_peer encryptor decryptor robot 2000 1 hello
      secret_datagram (some ("10.0.0.255", 4445))
      (record { encrypted = refl; encryptor = refl; idle = refl; empty = refl }) refl send_secret
      (omega arith)
      (record {
        version = refl;
        awaits = refl;
        into = refl;
        decryptor = refl;
        buffer = [];
        allocated = refl;
      })
      keys_match (λ c h. refl) secret-Listens

-- The peer after the encrypted message
abbrev after_secret : Peer Message
after_secret = record secret_peer {
  crypto_dec = some (record { key = "secret"; keys = (2, 1 ∷ 2 ∷ []) ∷ [] });
  enc_in_data = some secret_datagram;
  in_data = 2 ∷ 2 ∷ 0 ∷ 0 ∷ 0 ∷ 0 ∷ 0 ∷ 11 ∷ 7 ∷ 208 ∷ 0 ∷ 1 ∷ 8 ∷ 3 ∷ [];
}

heard_secret :
    Heard plain_openssl pb
      (plain-ProtobufLaws (beacon ∷ order ∷ []))
      plain_openssl-OpensslLaws
      secret_peer
      after_secret
      robot
      secret_datagram
      2000
      1
      hello
unfolding handle_recv look_at received received_v2 check_cipher decrypt_received decrypted decrypt
    with_key generate_key decrypt_with cipher_by_id insert deliver parts signalled expected_min_size
    is_local deserialize new_message_for data_size read_frame_header read_message_header
    message_header_bytes htons htonl start_recv
heard_secret = record {
  signals = refl;
  bytes = 8 ∷ 3 ∷ [];
  rest = [];
  serialized = refl;
  left = refl;
  same = (refl, refl, refl, refl, refl, refl, refl);
  buffer = secret_datagram;
  allocated = refl;
}

-- Six bytes of no meaning, from elsewhere
abbrev noise : List ℕ
noise = 2 ∷ 0 ∷ 0 ∷ 0 ∷ 0 ∷ 0 ∷ 0 ∷ 6 ∷ 9 ∷ 9 ∷ 9 ∷ 9 ∷ 9 ∷ 9 ∷ []

intruder-Listens : Listens pb secret_peer intruder 2000 1 hello
unfolding is_local
intruder-Listens = record {
  component_fits = omega arith;
  type_fits = omega arith;
  heard = omega arith;
  accepts = refl;
  known = (record { desc = beacon; bytes = [] }, refl, refl);
}

plain_replays_example :
    (b'' : Peer Message) × (handle_recv plain_openssl pb after_secret intruder (ok noise)
      ≡ ok (
        b'',
        sig_rcvd_raw intruder (read_frame_header noise) (drop 8 noise)
            ∷ sig_recv_error intruder encryption_enabled
            ∷ sig_rcvd intruder 2000 1 hello
            ∷ async_receive_from max_packet_length
            ∷ [],
      ))
unfolding heard_secret read_frame_header htonl
plain_replays_example =
    plain_replays plain_openssl pb (plain-ProtobufLaws (beacon ∷ order ∷ []))
      plain_openssl-OpensslLaws secret_peer after_secret robot intruder secret_datagram noise 2000 1
      hello heard_secret refl refl intruder-Listens (omega arith) refl refl refl

-- A peer whose address cannot be resolved, and which hears of something.
abbrev history : List (Event Message)
history = connect_slot ∷ resolve_done none ∷ []

abbrev constructed : Peer Message
constructed = record {
  filter_self = true;
  crypto = true;
  crypto_buf = true;
  recv_encrypted = true;
  crypto_enc = some encryptor;
  crypto_dec = some decryptor;
  frame_header_version = pb_frame_v2;
  in_data = [];
  enc_in_data = some [];
  local_endpoints = [];
  listeners = 0;
  outbound_queue = [];
  outbound_active = true;
  outbound_endpoint = none;
  message_register = beacons;
}

ctor_test :
    ctor plain_openssl beacons pb_frame_v2 [] "10.0.0.255" 4445 "secret" "aes-128-cbc" (some 0)
    ≡ ok (
      constructed,
      Action.async_resolve "10.0.0.255" 4445 ∷ async_receive_from max_packet_length ∷ [],
    )
unfolding ctor setup_crypto new_encryptor cipher_by_name cipher_name_to_id start_recv new_decryptor
ctor_test = refl

run-ctor-Sound_example :
    let r = run plain_openssl pb constructed history in
    Sound r
    × ((step plain_openssl pb r (recv_done robot (ok secret_datagram))).1 ≢ err null_pointer)
    × (is_null_pointer (handle_sent plain_openssl (without_keys r) false).1
        ≡ r.crypto && is_waiting r.outbound_queue)
run-ctor-Sound_example =
    run-ctor-Sound plain_openssl pb beacons pb_frame_v2 [] "10.0.0.255" 4445 "secret" "aes-128-cbc"
      (some 0) constructed _ history (recv_done robot (ok secret_datagram)) false ctor_test
