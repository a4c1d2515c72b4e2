-- ===== src/Peer/Receiving.antt =====
-- Receiving in src/libs/protobuf_comm/peer.cpp: what a datagram leads to.
use at_work_central_factory.Common.{
  ℕ, ◌+◌, ◌-◌, ◌%◌, ◌^◌, Bool, false, ◌&&◌, ◌||◌, not, Option, none, some, List, [], ◌∷◌, ◌++◌,
  length, take, drop, ltb, ◌==◌, str_eq, if◌then◌else◌, Result, ok, err, ◌>>=◌, or_throw,
}
use at_work_central_factory.Common.Bytes.{ntohs, ntohl, htonl}
use at_work_central_factory.Wire.{
  FrameHeader, MessageHeader, FrameVersion, pb_frame_v1, pb_frame_v2, encryption_none,
  frame_header_size, message_header_size, read_frame_header, read_frame_header_v1,
  read_message_header,
}
use at_work_central_factory.Protobuf.{Protobuf}
use at_work_central_factory.Register.{Thrown, runtime_error, logic_error, deserialize}
use at_work_central_factory.Server.{Endpoint}
use at_work_central_factory.Crypto.{Openssl, CryptoError, BufferDecryptor, decrypt}
use at_work_central_factory.Peer.{
  Peer, Action, sig_rcvd_raw, sig_rcvd, sig_recv_error, encryption_disabled, encryption_enabled,
  decryption_fail, deserialization_fail, invalid_number_of_bytes, general_error, Failure,
  null_pointer, thrown, start_recv,
}

-- `std::binary_search` in the sorted list of local endpoints
unfoldable pub is_local : Endpoint → List Endpoint → Bool
is_local e [] = false
is_local e (f ∷ fs) = (str_eq f.0 e.0 && f.1 == e.1) || is_local e fs

-- A buffer into which bytes were written from `at` on.
abbrev pub overwrite : ℕ → List ℕ → List ℕ → List ℕ
overwrite at bytes buffer = take at buffer ++ (bytes ++ drop (at + length bytes) buffer)

-- The shortest datagram that is looked at: in version 1 a frame header, and in version 2 a message
-- header too.
unfoldable pub expected_min_size : FrameVersion → ℕ
expected_min_size pb_frame_v1 = frame_header_size
expected_min_size pb_frame_v2 = frame_header_size + message_header_size

-- The headers that go to the register, and the data. In version 1 the size is made one that
-- includes a message header.
unfoldable pub parts : FrameVersion → FrameHeader → List ℕ → FrameHeader × MessageHeader × List ℕ
parts pb_frame_v1 frame_header in_data =
    let v1 = read_frame_header_v1 in_data in
    (
      record frame_header {
        payload_size = htonl ((ntohl frame_header.payload_size + message_header_size) % 2 ^ 32);
      },
      record { component_id = v1.component_id; msg_type = v1.msg_type },
      drop frame_header_size in_data,
    )
parts pb_frame_v2 frame_header in_data = (
  frame_header,
  read_message_header (drop frame_header_size in_data),
  drop (frame_header_size + message_header_size) in_data,
)

-- What a datagram has become on its way to the register: what was signalled, the header, and the
-- number of bytes.
pub record Received (Message : Type 0) : Type 0 where
  pub peer : Peer Message
  pub out : List (Action Message)
  pub frame_header : FrameHeader
  pub bytes_rcvd : ℕ

module _ {Message : Type 0} where
  -- The buffer that the datagram was put into: that which the read was given.
  abbrev pub pending_buffer : Peer Message → Option (List ℕ)
  pending_buffer p = if p.recv_encrypted then p.enc_in_data else some p.in_data

  -- The buffer that the datagram is looked for in, by `crypto_buf_` as it is then.
  abbrev pub in_buffer : Peer Message → Option (List ℕ)
  in_buffer p = if p.crypto_buf then p.enc_in_data else some p.in_data

  abbrev pub set_buffer : Peer Message → List ℕ → Peer Message
  set_buffer p buffer =
      if p.recv_encrypted
      then record p { enc_in_data = some buffer }
      else record p { in_data = buffer }

module _ {Message Context : Type 0} (o : Openssl Context) where
  -- A decryption that failed counts as no bytes; what it wrote before it failed is not kept here.
  unfoldable pub decrypted :
      Received Message → Endpoint → BufferDecryptor × Result CryptoError (List ℕ) → Received Message
  decrypted r endpoint (d, err what) = record r {
    peer = record r.peer { crypto_dec = some d };
    out = r.out ++ sig_recv_error endpoint (decryption_fail what) ∷ [];
    bytes_rcvd = 0;
  }
  decrypted r endpoint (d, ok plain) = record r {
    peer = record r.peer {
      crypto_dec = some d;
      in_data = overwrite frame_header_size plain r.peer.in_data;
    };
    frame_header = record r.frame_header { payload_size = htonl (length plain % 2 ^ 32) };
    bytes_rcvd = length plain + frame_header_size;
  }

  -- The header is copied, and the data behind it decrypted into the plain buffer.
  unfoldable pub decrypt_received :
      Received Message
      → Endpoint
      → List ℕ
      → Option BufferDecryptor
      → Result Failure (Received Message)
  decrypt_received r endpoint buffer none = err null_pointer
  decrypt_received r endpoint buffer (some d) =
      let r' = record r {
        peer = record r.peer {
          in_data = overwrite 0 (take frame_header_size buffer) r.peer.in_data;
        };
      } in
      ok (
        decrypted r' endpoint (
          decrypt o d r.frame_header.cipher (drop frame_header_size buffer)
            (r.bytes_rcvd - frame_header_size)))

  -- A datagram that is encrypted as it should not be, or is not as it should be, is reported, and
  -- goes on all the same.
  unfoldable pub check_cipher :
      Received Message → Endpoint → List ℕ → Result Failure (Received Message)
  check_cipher r endpoint buffer =
      if r.peer.crypto_buf
      then (if r.frame_header.cipher == encryption_none
          then ok (record r { out = r.out ++ sig_recv_error endpoint encryption_enabled ∷ [] })
          else decrypt_received r endpoint buffer r.peer.crypto_dec)
      else (if r.frame_header.cipher == encryption_none
          then ok r
          else ok (record r { out = r.out ++ sig_recv_error endpoint encryption_disabled ∷ [] }))

  unfoldable pub received_v2 :
      Peer Message → Endpoint → (n : ℕ) (buffer : List ℕ) → Result Failure (Received Message)
  received_v2 p endpoint n buffer =
      let frame_header = read_frame_header buffer in
      let raw =
        sig_rcvd_raw endpoint frame_header
          (take (n - frame_header_size) (drop frame_header_size buffer)) in
      let r : Received Message = record {
        peer = p;
        out = raw ∷ [];
        frame_header = frame_header;
        bytes_rcvd = n;
      } in
      if ltb 0 p.listeners then check_cipher r endpoint buffer else ok r

  -- Version 1 is plain, and stands in `in_data_`.
  unfoldable pub received_v1 : Peer Message → (n : ℕ) → Received Message
  received_v1 p n = record {
    peer = p;
    out = [];
    frame_header = record {
      header_version = 1;
      cipher = encryption_none;
      reserved_2 = 0;
      reserved_3 = 0;
      payload_size = (read_frame_header_v1 p.in_data).payload_size;
    };
    bytes_rcvd = n;
  }

  unfoldable pub received :
      FrameVersion
      → Peer Message
      → Endpoint
      → (n : ℕ) → Option (List ℕ)
      → Result Failure (Received Message)
  unfolding received_v1
  received pb_frame_v1 p endpoint n buffer = ok (received_v1 p n)
  received pb_frame_v2 p endpoint n none = err null_pointer
  received pb_frame_v2 p endpoint n (some buffer) = received_v2 p endpoint n buffer

module _ {Descriptor Message : Type 0} (pb : Protobuf Descriptor Message) where
  -- What `deserialize` gives or throws becomes a signal; only `std::runtime_error` is caught.
  unfoldable pub signalled :
      Endpoint → ℕ → ℕ → Result Thrown Message → Result Failure (List (Action Message))
  signalled endpoint comp_id msg_type (ok m) = ok (sig_rcvd endpoint comp_id msg_type m ∷ [])
  signalled endpoint comp_id msg_type (err (runtime_error what)) =
      ok (sig_recv_error endpoint (deserialization_fail what) ∷ [])
  signalled endpoint comp_id msg_type (err (logic_error what)) = err (thrown (logic_error what))

  unfoldable pub deliver : Received Message → Endpoint → Result Failure (List (Action Message))
  unfolding signalled
  deliver r endpoint =
      let p = r.peer in
      if ltb 0 p.listeners
      then (if r.bytes_rcvd == frame_header_size + ntohl r.frame_header.payload_size
          then (if not p.filter_self || not (is_local endpoint p.local_endpoints)
              then (let (fh, mh, body) = parts p.frame_header_version r.frame_header p.in_data in
                  signalled endpoint (ntohs mh.component_id) (ntohs mh.msg_type)
                    (deserialize pb p.message_register fh mh body))
              else ok [])
          else ok (sig_recv_error endpoint invalid_number_of_bytes ∷ []))
      else ok []

module _ {Descriptor Message Context : Type 0} (o : Openssl Context)
    (pb : Protobuf Descriptor Message) where
  -- The handler but for the read that it starts: `bytes` have been put into the buffer.
  unfoldable pub look_at :
      Peer Message
      → Endpoint
      → Result (Unit {0}) (List ℕ)
      → Result Failure (Peer Message × List (Action Message))
  look_at p endpoint (err _) = ok (p, sig_recv_error endpoint general_error ∷ [])
  look_at p endpoint (ok bytes) =
      if ltb (length bytes) (expected_min_size p.frame_header_version)
      then ok (p, sig_recv_error endpoint general_error ∷ [])
      else (do
        r ← received o p.frame_header_version p endpoint (length bytes) (in_buffer p)
        out ← deliver pb r endpoint
        ok (r.peer, r.out ++ out))

  -- `handle_recv`; a datagram that was received stands at the front of the buffer that the read
  -- was given.
  unfoldable pub handle_recv :
      Peer Message
      → Endpoint
      → Result (Unit {0}) (List ℕ)
      → Result Failure (Peer Message × List (Action Message))
  unfolding start_recv
  handle_recv p endpoint (err e) = do
    (p', out) ← look_at p endpoint (err e)
    ok ((start_recv p').0, out ++ (start_recv p').1)
  handle_recv p endpoint (ok bytes) = do
    buffer ← or_throw (pending_buffer p) null_pointer
    (p', out) ← look_at (set_buffer p (overwrite 0 bytes buffer)) endpoint (ok bytes)
    ok ((start_recv p').0, out ++ (start_recv p').1)
