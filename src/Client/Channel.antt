-- ===== src/Client/Channel.antt =====
-- Two clients as the ends of a channel: what src/libs/protobuf_comm/client.cpp promises of the
-- messages that are sent on a connection, as one history of the sender against the handlers of the
-- receiver.
use at_work_central_factory.Common.{
  ℕ, suc, ◌≡◌, refl, sym, ◌∙◌, ap, inl, inr, List, [], ◌∷◌, ◌++◌, map, length, take, ok, arith,
  Bool-cases, length-append, length-map, subst, ◌≤◌,
}
use mathlib.Core.List.{map-append}
use at_work_central_factory.Wire.{QueueEntry, FrameVersion, new_entry}
use at_work_central_factory.Protobuf.{Protobuf, ProtobufLaws}
use at_work_central_factory.Register.{Register}
use at_work_central_factory.Register.Codec.{serialize_fields}
use at_work_central_factory.Outbound.{Outbound, enqueue, complete}
use at_work_central_factory.Outbound.Fifo
use at_work_central_factory.Outbound.Fifo.{Run, Run-Fifo, count, to_list}
use at_work_central_factory.Client.{Client, Action, init, send, handle_write, fill_entry, buffers}
use at_work_central_factory.Client.Transfer.{
  AllCarry, AllKnown, receive, signals, stream, receive_all,
}
use at_work_central_factory.Client.Histories.{
  constructed, sent, wrote, other, Fits, History, Simulated, writes-started, length-started,
  AllCarry-append, AllCarry-take, AllKnown-take, Enqueued, step_keeps, send-eq-ok,
}

module _ (Hosts : Type 0) {Descriptor Message : Type 0} (pb : Protobuf Descriptor Message)
    (laws : ProtobufLaws pb) where
  sent-Enqueued :
      (fresh : QueueEntry) (v : FrameVersion) (x x' : Client Message) (c t : ℕ) (m : Message)
      (out : List (Action Hosts Message))
      → x.frame_header_version ≡ v
      → Fits Hosts pb c t m
      → send {Hosts = Hosts} pb fresh x c t m ≡ ok (x', out)
      → Enqueued Hosts pb v x x' c t m out
  sent-Enqueued fresh v x x' c t m out ver fits h =
      let ((fh, mh, bytes), s, ex, eo) = send-eq-ok Hosts pb fresh x x' c t m out h in
      let (sz, _, _) = serialize_fields pb laws c t m _ fh mh bytes s in
      record {
        entry = fill_entry v (new_entry fresh) (fh, mh, bytes);
        carries = record {
          fresh = fresh;
          frame_header = fh;
          message_header = mh;
          bytes = bytes;
          written = s;
          filled = refl;
          component_fits = fits.component_fits;
          type_fits = fits.type_fits;
          bytes_fit = fits.bytes_fit bytes sz;
        };
        outbound = rw (ex, ver) refl;
        version = rw ex refl;
        out_started = rw (eo, ver) refl;
      }

  History-Simulated :
      {mr : Register Message} {v : FrameVersion} {x : Client Message} {ms : List (ℕ × ℕ × Message)}
      {written : List (List ℕ)} {flying : ℕ}
      → History Hosts pb mr v x ms written flying
      → Simulated Hosts pb v x ms written flying
  unfolding init handle_write
  History-Simulated constructed = record {
    entries = [];
    begun = [];
    run = Fifo.start;
    carry = tt;
    bytes = refl;
    version = refl;
  }
  History-Simulated {v = v} (sent {x} {x'} {ms} {written} {flying} fresh c t m out fits h r) =
      let s = History-Simulated r in
      let q = sent-Enqueued fresh v x x' c t m out s.version fits h in
      let push = (enqueue x.outbound q.entry).1 in
      record {
        entries = s.entries ++ q.entry ∷ [];
        begun = s.begun ++ to_list push;
        run =
            rw (q.outbound, q.out_started, length-started Hosts pb v push)
              (Fifo.send q.entry s.run);
        carry = AllCarry-append Hosts pb v s.entries ms q.entry c t m s.carry q.carries;
        bytes =
            rw (s.bytes, q.out_started, writes-started Hosts pb v push)
              (sym (map-append (buffers v) s.begun (to_list push)));
        version = q.version ∙ s.version;
      }
  History-Simulated {v = v} (wrote {x} {ms} {written} {flying} r) =
      let s = History-Simulated r in
      let next = (complete x.outbound).1 in
      record {
        entries = s.entries;
        begun = s.begun ++ to_list next;
        run = rw (length-started Hosts pb x.frame_header_version next) (Fifo.written s.run);
        carry = s.carry;
        bytes =
            rw (s.bytes, writes-started Hosts pb x.frame_header_version next, s.version)
              (sym (map-append (buffers v) s.begun (to_list next)));
        version = s.version;
      }
  History-Simulated (other {x} e quiet r) =
      let s = History-Simulated r in
      let (same, ver) = step_keeps Hosts pb x e quiet in
      record {
        entries = s.entries;
        begun = s.begun;
        run = rw same s.run;
        carry = s.carry;
        bytes = s.bytes;
        version = ver ∙ s.version;
      }

abbrev pub concat : List (List ℕ) → List ℕ
concat [] = []
concat (xs ∷ xss) = xs ++ concat xss

stream-concat :
    (v : FrameVersion) (es : List QueueEntry) → stream v es ≡ concat (map (buffers v) es)
stream-concat v [] = refl
stream-concat v (e ∷ es) = ap (◌++◌ (buffers v e)) (stream-concat v es)

length-AllCarry :
    {Descriptor Message : Type 0} (pb : Protobuf Descriptor Message) (v : FrameVersion)
    (es : List QueueEntry) (ms : List (ℕ × ℕ × Message))
    → AllCarry pb v es ms
    → length es ≡ length ms
length-AllCarry pb v [] [] k = refl
length-AllCarry pb v [] (m ∷ ms) k = absurd k
length-AllCarry pb v (e ∷ es) [] k = absurd k
length-AllCarry pb v (e ∷ es) (m ∷ ms) k = ap suc (length-AllCarry pb v es ms k.1)

-- What is written at most lags behind what was sent, and does not where nothing is under way.
begun_lengths :
    {o : Outbound QueueEntry} {entries begun : List QueueEntry} {flying : ℕ}
    → Run o entries begun flying
    → (length begun ≤ length entries) × (flying ≤ 1) × (flying ≡ 0 → length begun ≡ length entries)
begun_lengths {o} {entries} {begun} r =
    let f = Run-Fifo r in
    let e = ap length f.in_order in
    let l = length-append begun o.queue in
    elim (Bool-cases o.active) [
      | inl on ↦ (omega arith, ground arith, λ z. ground arith)
      | inr off ↦ (omega arith, ground arith, λ z. ground (arith, f.waits off))
    ]

module _ (Hosts : Type 0) {Descriptor Message : Type 0} (pb : Protobuf Descriptor Message)
    (laws : ProtobufLaws pb) where
  -- Two clients of one version implement a channel: over any history of the sender in which no
  -- write fails and each message has fewer than 2^31 bytes and 16-bit numbers, a receiver that knows
  -- the types of the messages and whose `realloc` succeeds, handed the bytes that were written,
  -- signals the messages that were sent, unchanged and in the order of the sends, as many as writes
  -- were started. At most one write is under way; where none is, those are all messages.
  pub History-receive :
      {mr : Register Message} {v : FrameVersion} {x : Client Message} {ms : List (ℕ × ℕ × Message)}
      {written : List (List ℕ)} {flying : ℕ} (y : Client Message)
      → History Hosts pb mr v x ms written flying
      → y.frame_header_version ≡ v
      → AllKnown pb y.message_register ms
      → ((y' : Client Message) × (receive {Hosts = Hosts} pb (length written) y (concat written)
            ≡ ok (y', signals (take (length written) ms))))
        × (length written ≤ length ms)
        × (flying ≤ 1)
        × (flying ≡ 0 → length written ≡ length ms)
  History-receive {v = v} {ms = ms} y h ver known =
      let s = History-Simulated Hosts pb laws h in
      let f = Run-Fifo s.run in
      let (le, one, whole) = begun_lengths s.run in
      let n = length-AllCarry pb v s.entries ms s.carry in
      let same = length-map s.begun (buffers v) in
      let carried : AllCarry pb v s.begun (take (length s.begun) ms) =
        AllCarry-take Hosts pb v s.begun _ ms
          (subst {A = List QueueEntry} (λ es. AllCarry pb v es ms) (sym f.in_order) s.carry) in
      rw (s.bytes, ← stream-concat v s.begun, same)
        (
          receive_all Hosts pb laws v s.begun (take (length s.begun) ms) y ver carried
              (AllKnown-take Hosts pb y.message_register (length s.begun) ms known),
          rw (← n) le,
          one,
          λ z. whole z ∙ n,
        )
