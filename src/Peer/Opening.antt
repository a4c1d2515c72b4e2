-- ===== src/Peer/Opening.antt =====
-- What the handler of src/libs/protobuf_comm/peer.cpp makes of a datagram where encryption is on.
use at_work_central_factory.Common.{
  ℕ, ◌+◌, ◌-◌, ◌%◌, ◌^◌, ◌≤◌, ◌<◌, ◌≡◌, refl, sym, ◌∙◌, ap, true, false, some, List, [], ◌∷◌, ◌++◌,
  append_assoc, length, take, drop, ltb, ◌==◌, Result, ok, err, arith, length-append, length-take,
  take-append, drop-append,
}
use at_work_central_factory.Common.Bytes.{htonl}
use at_work_central_factory.Wire.{
  FrameHeader, pb_frame_v2, encryption_none, frame_header_size, read_frame_header,
  frame_header_bytes,
}
use at_work_central_factory.Wire.Layout.{read_frame_header_bytes}
use at_work_central_factory.Protobuf.{Protobuf, ProtobufLaws}
use at_work_central_factory.Server.{Endpoint}
use at_work_central_factory.Crypto.{CryptoError, Openssl, OpensslLaws, BufferDecryptor, decrypt}
use at_work_central_factory.Peer.{
  Peer, Action, async_receive_from, sig_rcvd_raw, max_packet_length, start_recv,
}
use at_work_central_factory.Peer.Receiving.{
  Received, overwrite, received, received_v2, check_cipher, decrypt_received, decrypted, look_at,
  handle_recv, set_buffer, in_buffer, pending_buffer,
}
use at_work_central_factory.Peer.Transfer.{read_front, drop_front, length_front}

pub drop-overwrite :
    (at : ℕ) (bytes buffer : List ℕ)
    → at ≤ length buffer
    → drop at (overwrite at bytes buffer) ≡ bytes ++ drop (at + length bytes) buffer
drop-overwrite at bytes buffer h =
    let rest = bytes ++ drop (at + length bytes) buffer in
    ap (λ (n : ℕ). drop n (take at buffer ++ rest)) (sym (length-take at buffer h))
    ∙ drop-append (take at buffer) rest

pub read_whole :
    (xs rest : List ℕ)
    → frame_header_size ≤ length xs
    → read_frame_header (xs ++ rest) ≡ read_frame_header xs
unfolding read_frame_header
read_whole (x0 ∷ x1 ∷ x2 ∷ x3 ∷ x4 ∷ x5 ∷ x6 ∷ x7 ∷ xs) rest h = refl
read_whole xs rest h = absurd (omega arith)

pub copied_length :
    (buffer old : List ℕ)
    → frame_header_size ≤ length buffer
    → frame_header_size ≤ length (overwrite 0 (take frame_header_size buffer) old)
copied_length buffer old h =
    let front = take frame_header_size buffer in
    omega (
      arith,
      length-take frame_header_size buffer h,
      length-append front (drop (0 + length front) old),
    )

module _ {Message : Type 0} where
  -- A peer that awaits encrypted datagrams.
  pub record ExpectsEncrypted (b : Peer Message) (d : BufferDecryptor) : Type 0 where
    pub version : b.frame_header_version ≡ pb_frame_v2
    pub awaits : b.crypto_buf ≡ true
    pub into : b.recv_encrypted ≡ true
    pub decryptor : b.crypto_dec ≡ some d
    pub buffer : List ℕ
    pub allocated : b.enc_in_data ≡ some buffer

  pub set_buffer_encrypted :
      (p : Peer Message) (buffer : List ℕ)
      → p.recv_encrypted ≡ true
      → set_buffer p buffer ≡ record p { enc_in_data = some buffer }
  set_buffer_encrypted p buffer on = ground arith

  pub in_buffer_encrypted : (p : Peer Message) → p.crypto_buf ≡ true → in_buffer p ≡ p.enc_in_data
  in_buffer_encrypted p on = rw on refl

  pub pending_buffer_encrypted :
      (p : Peer Message) → p.recv_encrypted ≡ true → pending_buffer p ≡ p.enc_in_data
  pending_buffer_encrypted p on = rw on refl

  -- The peer behind a datagram that stands in `buffer` and holds `plain`.
  abbrev pub opened : Peer Message → List ℕ → List ℕ → BufferDecryptor → Peer Message
  opened p buffer plain d' = record p {
    crypto_dec = some d';
    in_data =
        overwrite frame_header_size plain (overwrite 0 (take frame_header_size buffer) p.in_data);
  }

module _ {Descriptor Message Context : Type 0} (o : Openssl Context)
    (pb : Protobuf Descriptor Message) where
  pub decrypted_ok :
      (r : Received Message) (endpoint : Endpoint)
      (x : BufferDecryptor × Result CryptoError (List ℕ)) (plain : List ℕ)
      → x.1 ≡ ok plain
      → decrypted o r endpoint x ≡ record r {
        peer = record r.peer {
          crypto_dec = some x.0;
          in_data = overwrite frame_header_size plain r.peer.in_data;
        };
        frame_header = record r.frame_header { payload_size = htonl (length plain % 2 ^ 32) };
        bytes_rcvd = length plain + frame_header_size;
      }
  unfolding decrypted
  decrypted_ok r endpoint (d, ok p) plain e = let same : p ≡ plain = ground arith in rw same refl
  decrypted_ok r endpoint (d, err what) plain e = cc

  pub received_opens :
      (p : Peer Message) (endpoint : Endpoint) (n : ℕ) (buffer : List ℕ) (d : BufferDecryptor)
      → p.frame_header_version ≡ pb_frame_v2
      → p.crypto_buf ≡ true
      → p.crypto_dec ≡ some d
      → p.enc_in_data ≡ some buffer
      → 0 < p.listeners
      → ((read_frame_header buffer).cipher == encryption_none) ≡ false
      → received o p.frame_header_version p endpoint n p.enc_in_data
        ≡ ok (
            decrypted o
              (record {
                peer = record p { in_data = overwrite 0 (take frame_header_size buffer) p.in_data };
                out =
                    sig_rcvd_raw endpoint
                      (read_frame_header buffer)
                      (take (n - frame_header_size) (drop frame_header_size buffer))
                    ∷ [];
                frame_header = read_frame_header buffer;
                bytes_rcvd = n;
              })
              endpoint
              (decrypt o d
                (read_frame_header buffer).cipher
                (drop frame_header_size buffer)
                (n - frame_header_size)))
  unfolding received received_v2 check_cipher decrypt_received
  received_opens p endpoint n buffer d ver on dec buf heard some_cipher =
      let h : ltb 0 p.listeners ≡ true = ground arith in simp (ver, on, dec, buf, h, some_cipher)

  pub received_encrypted :
      (p : Peer Message) (endpoint : Endpoint) (n : ℕ) (buffer plain : List ℕ) (d : BufferDecryptor)
      → p.frame_header_version ≡ pb_frame_v2
      → p.crypto_buf ≡ true
      → p.crypto_dec ≡ some d
      → p.enc_in_data ≡ some buffer
      → 0 < p.listeners
      → ((read_frame_header buffer).cipher == encryption_none) ≡ false
      → (decrypt o d
          (read_frame_header buffer).cipher
          (drop frame_header_size buffer)
          (n - frame_header_size)).1
        ≡ ok plain
      → let d' =
          (decrypt o d
            (read_frame_header buffer).cipher
            (drop frame_header_size buffer)
            (n - frame_header_size)).0 in
        received o p.frame_header_version p endpoint n p.enc_in_data
        ≡ ok (record {
          peer = opened p buffer plain d';
          out =
              sig_rcvd_raw endpoint
                (read_frame_header buffer)
                (take (n - frame_header_size) (drop frame_header_size buffer))
              ∷ [];
          frame_header = record (read_frame_header buffer) {
            payload_size = htonl (length plain % 2 ^ 32);
          };
          bytes_rcvd = length plain + frame_header_size;
        })
  received_encrypted p endpoint n buffer plain d ver on dec buf heard some_cipher e =
      received_opens p endpoint n buffer d ver on dec buf heard some_cipher
      ∙ ap ok (decrypted_ok _ endpoint _ plain e)

-- How a sealed datagram reads at the front of a buffer.
pub record SealedFront (h : FrameHeader) (datagram out rest : List ℕ) : Type 0 where
  pub fields : read_frame_header (datagram ++ rest) ≡ h
  pub alone : read_frame_header datagram ≡ h
  pub behind : drop frame_header_size (datagram ++ rest) ≡ out ++ rest
  pub payload : drop frame_header_size datagram ≡ out
  pub size : length datagram ≡ frame_header_size + length out
  pub raw :
      take (length datagram - frame_header_size) (drop frame_header_size (datagram ++ rest)) ≡ out

module _ {Descriptor Message Context : Type 0} (o : Openssl Context)
    (pb : Protobuf Descriptor Message) (laws : ProtobufLaws pb) (openssl : OpensslLaws o) where
  pub sealed_front :
      (h : FrameHeader) (datagram out rest : List ℕ)
      → h.payload_size < 2 ^ 32
      → datagram ≡ frame_header_bytes h ++ out
      → SealedFront h datagram out rest
  sealed_front h datagram out rest small made =
      let back = read_frame_header_bytes h small in
      let assoc : datagram ++ rest ≡ frame_header_bytes h ++ (out ++ rest) =
        ap (λ (g : List ℕ). g ++ rest) made ∙ append_assoc (frame_header_bytes h) out rest in
      let size : length datagram ≡ frame_header_size + length out =
        ap length made
        ∙ length-append (frame_header_bytes h) out
        ∙ ap (λ (n : ℕ). n + length out) (length_front o pb laws h) in
      let behind : drop frame_header_size (datagram ++ rest) ≡ out ++ rest =
        ap (drop frame_header_size) assoc ∙ drop_front o pb laws h (out ++ rest) in
      let n : length datagram - frame_header_size ≡ length out = omega arith in
      record {
        fields = ap read_frame_header assoc ∙ read_front o pb laws h (out ++ rest) ∙ back;
        alone = ap read_frame_header made ∙ read_front o pb laws h out ∙ back;
        behind = behind;
        payload = ap (drop frame_header_size) made ∙ drop_front o pb laws h out;
        size = size;
        raw = rw (n, behind) (take-append out rest);
      }

  pub handle_recv_encrypted :
      (b : Peer Message) (endpoint : Endpoint) (datagram old : List ℕ) (p' : Peer Message)
      (out : List (Action Message))
      → b.recv_encrypted ≡ true
      → b.enc_in_data ≡ some old
      → look_at o pb
          (record b { enc_in_data = some (overwrite 0 datagram old) })
          endpoint
          (ok datagram)
        ≡ ok (p', out)
      → handle_recv o pb b endpoint (ok datagram)
        ≡ ok ((start_recv p').0, out ++ async_receive_from max_packet_length ∷ [])
  unfolding handle_recv start_recv
  handle_recv_encrypted b endpoint datagram old p' out on have e =
      let found : pending_buffer b ≡ some old = pending_buffer_encrypted b on ∙ have in
      rw (found, set_buffer_encrypted b (overwrite 0 datagram old) on, e) refl
