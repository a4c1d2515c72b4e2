-- ===== src/Peer/Sending.antt =====
-- Sending in src/libs/protobuf_comm/peer.cpp: one datagram at a time, the oldest of a queue.
use at_work_central_factory.Common.{
  ℕ, ◌%◌, ◌^◌, Bool, true, false, Option, none, some, List, [], ◌∷◌, ◌++◌, length, replicate, ltb,
  if◌then◌else◌, Result, ok, err,
}
use at_work_central_factory.Common.Bytes.{htonl}
use at_work_central_factory.Wire.{
  FrameHeader, MessageHeader, QueueEntry, FrameVersion, pb_frame_v1, pb_frame_v2, new_entry,
  message_header_bytes,
}
use at_work_central_factory.Protobuf.{Protobuf}
use at_work_central_factory.Register.{Thrown, key_from_desc, serialize}
use at_work_central_factory.Server.{Endpoint}
use at_work_central_factory.Crypto.{
  Openssl, CryptoError, BufferEncryptor, encrypt, encrypted_buffer_size,
}
use at_work_central_factory.Peer.{
  Peer, Packet, packet_bytes, async_send_to, sig_send_error, resolving_failed, sending_failed,
  null_pointer, too_big, crypto_failure, thrown, Outcome, before, max_packet_length,
}

-- The frame header gets the size and the cipher of what is sent.
unfoldable pub encrypted_packet : Packet → ℕ → List ℕ → Packet
encrypted_packet packet cipher_id bytes = record packet {
  entry = record packet.entry {
    frame_header = record packet.entry.frame_header {
      payload_size = htonl (length bytes % 2 ^ 32);
      cipher = cipher_id % 256;
    };
  };
  second = bytes;
  third = [];
}

-- The packet that `send` fills in. In version 1 the size goes out as it is.
unfoldable pub fill_packet :
    FrameVersion → QueueEntry → FrameHeader × MessageHeader × List ℕ → Packet
fill_packet pb_frame_v1 entry (fh, mh, bytes) = record {
  first = pb_frame_v1;
  entry = record entry {
    frame_header = fh;
    message_header = mh;
    serialized_message = bytes;
    frame_header_v1 = record {
      component_id = mh.component_id;
      msg_type = mh.msg_type;
      payload_size = fh.payload_size;
    };
  };
  second = [];
  third = bytes;
}
fill_packet pb_frame_v2 entry (fh, mh, bytes) = record {
  first = pb_frame_v2;
  entry = record entry { frame_header = fh; message_header = mh; serialized_message = bytes };
  second = message_header_bytes mh;
  third = bytes;
}

module _ {Message Context : Type 0} (o : Openssl Context) where
  -- The buffer is one of the size that the encryptor asks for.
  unfoldable pub send_encrypted_sized :
      Peer Message → BufferEncryptor → Packet → Result CryptoError ℕ → Outcome Message
  unfolding encrypted_packet
  send_encrypted_sized p e packet (err what) = (p, err (crypto_failure what))
  send_encrypted_sized p e packet (ok size) =
      let (e', r) = encrypt o e (packet.second ++ packet.third) (replicate size 0) in
      let p' = record p { crypto_enc = some e' } in
      elim r [
        | err what ↦ (p', err (crypto_failure what))
        | ok bytes ↦ (
          p',
          ok (
              async_send_to (packet_bytes (encrypted_packet packet e'.cipher_id bytes))
                p.outbound_endpoint
              ∷ []),
        )
      ]

  unfoldable pub send_encrypted : Peer Message → Option BufferEncryptor → Packet → Outcome Message
  unfolding send_encrypted_sized
  send_encrypted p none packet = (p, err null_pointer)
  send_encrypted p (some e) packet =
      send_encrypted_sized p e packet
        (encrypted_buffer_size o e (length (packet.second ++ packet.third)))

  -- The oldest packet of a queue that is taken out.
  unfoldable pub send_first : Peer Message → List Packet → Outcome Message
  unfolding send_encrypted
  send_first p [] = (p, ok [])
  send_first p (packet ∷ rest) =
      let p' = record p { outbound_active = true; outbound_queue = rest } in
      if p.crypto
      then send_encrypted p' p.crypto_enc packet
      else (p', ok (async_send_to (packet_bytes packet) p.outbound_endpoint ∷ []))

  unfoldable pub start_send : Peer Message → Outcome Message
  unfolding send_first
  start_send p = if p.outbound_active then (p, ok []) else send_first p p.outbound_queue

  unfoldable pub handle_resolve : Peer Message → Option Endpoint → Outcome Message
  handle_resolve p (some endpoint) =
      start_send (record p { outbound_active = false; outbound_endpoint = some endpoint })
  handle_resolve p none = before (sig_send_error resolving_failed ∷ []) (start_send p)

  unfoldable pub handle_sent : Peer Message → (error : Bool) → Outcome Message
  handle_sent p error =
      before (if error then sig_send_error sending_failed ∷ [] else [])
        (start_send (record p { outbound_active = false }))

  unfoldable pub push_send : Peer Message → Packet → Outcome Message
  push_send p packet = start_send (record p { outbound_queue = p.outbound_queue ++ packet ∷ [] })

  -- `send_raw(frame_header, data, data_size)`
  unfoldable pub send_raw : QueueEntry → Peer Message → FrameHeader → List ℕ → Outcome Message
  send_raw fresh p frame_header bytes = push_send p (record {
    first = pb_frame_v2;
    entry = record (new_entry fresh) { frame_header = frame_header; serialized_message = bytes };
    second = [];
    third = bytes;
  })

module _ {Descriptor Message Context : Type 0} (o : Openssl Context)
    (pb : Protobuf Descriptor Message) where
  unfoldable pub send_serialized :
      QueueEntry
      → Peer Message
      → Result Thrown (FrameHeader × MessageHeader × List ℕ)
      → Outcome Message
  send_serialized entry p (err what) = (p, err (thrown what))
  send_serialized entry p (ok (fh, mh, bytes)) =
      if ltb max_packet_length (length bytes)
      then (p, err too_big)
      else push_send o p (fill_packet p.frame_header_version entry (fh, mh, bytes))

  -- `send(component_id, msg_type, m)`; `fresh` is the memory that the new entry occupies.
  unfoldable pub send : QueueEntry → Peer Message → ℕ → ℕ → Message → Outcome Message
  unfolding send_serialized
  send fresh p component_id msg_type m =
      send_serialized (new_entry fresh) p
        (serialize pb component_id msg_type m (new_entry fresh).frame_header)

  -- `send(m)`: component ID and message type are read off the descriptor.
  unfoldable pub send_message : QueueEntry → Peer Message → Message → Outcome Message
  send_message fresh p m = elim (key_from_desc pb (pb.descriptor m)) [
    | err what ↦ (p, err (thrown what))
    | ok (component_id, msg_type) ↦ send fresh p component_id msg_type m
  ]
