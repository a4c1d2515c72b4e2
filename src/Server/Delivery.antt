-- ===== src/Server/Delivery.antt =====
-- What `send` and `send_to_all` of src/libs/protobuf_comm/server.cpp queue, and whom they reach.
use at_work_central_factory.Common.{
  true, ℕ, ◌<◌, ◌≡◌, refl, sym, ◌∙◌, ap, Bool-cases, inl, inr, if◌then◌else◌, Option, none, false,
  some, List, [], ◌∷◌, ◌++◌, ◌==◌, ok, err, ◌>>=◌, arith, All, All-map, All-map₂,
}
use at_work_central_factory.Common.Dict.{
  Dict, nat_key, find, find-insert_self, find-insert_ne, find-erase_self,
}
use at_work_central_factory.Common.Ordered.{Above, Above-IsSorted, IsSorted, IsSorted-entries}
use at_work_central_factory.Wire.{FrameHeader, MessageHeader, QueueEntry, new_entry}
use at_work_central_factory.Protobuf.{Protobuf}
use at_work_central_factory.Register.{serialize}
use at_work_central_factory.Outbound.{enqueue}
use at_work_central_factory.Server.{
  Server, Session, ErrorCode, Action, client_does_not_exist, set_object, disconnected, started,
  async_write,
}
use at_work_central_factory.Server.Sending.{session_send, send, send_each, send_to_all}
use at_work_central_factory.Server.Sessions.{Inv, set_object-Inv}

-- No client of the list has the object.
abbrev NotIn : ℕ → Dict ℕ ℕ → Type 0
NotIn o l = All (λ e. (o == e.1) ≡ false) l

-- The keys of a list that rises above `k`.
Above-keys : (k : ℕ) (l : Dict ℕ ℕ) → Above k l → All (λ e. k < e.0) l
Above-keys k [] a = tt
Above-keys k ((j, o) ∷ l) a = (a.0, All-map (λ e h. omega (arith, a.0)) l (Above-keys j l a.1))

module _ {Descriptor Message : Type 0} (pb : Protobuf Descriptor Message) where
  -- Once a session is disconnected its client ID names nobody, and other clients are served as
  -- before.
  pub send-disconnected :
      (fresh : QueueEntry) (s : Server Message) (x : Session) (e : ErrorCode) (c t : ℕ)
      (m : Message)
      → (send pb fresh (disconnected s x e).0 x.id c t m ≡ err client_does_not_exist)
  unfolding send disconnected
  send-disconnected fresh s x e c t m = rw (find-erase_self x.id s.sessions)

  -- The entry that `serialize` fills.
  abbrev pub filled_entry : QueueEntry → FrameHeader × MessageHeader × List ℕ → QueueEntry
  filled_entry fresh (fh, mh, bytes) = record (new_entry fresh) {
    frame_header = fh;
    message_header = mh;
    serialized_message = bytes;
  }

  -- A session that has taken the entry: behind what its queue held, if a write is under way, and
  -- else it is written at once.
  abbrev pub queued : QueueEntry → Session → Session
  queued entry x = record x {
    outbound = record {
      active = true;
      queue = if x.outbound.active then x.outbound.queue ++ entry ∷ [] else x.outbound.queue;
    };
  }

  abbrev pub write_of : QueueEntry → ℕ → Option Session → List (Action Message)
  write_of entry o none = []
  write_of entry o (some x) = if x.outbound.active then [] else async_write o (entry) ∷ []

  -- The writes that are started, for the clients of a list.
  abbrev pub writes_of : QueueEntry → Server Message → Dict ℕ ℕ → List (Action Message)
  writes_of entry s [] = []
  writes_of entry s ((k, o) ∷ l) = write_of entry o (find o s.objects) ++ writes_of entry s l

  module _ (fresh : QueueEntry) (c t : ℕ) (m : Message)
      (parts : FrameHeader × MessageHeader × List ℕ)
      (can : serialize pb c t m (new_entry fresh).frame_header ≡ ok parts) where
    enqueue-queued :
        (o : ℕ) (x : Session)
        → (record x { outbound = (enqueue x.outbound (filled_entry fresh parts)).0 }
            ≡ queued (filled_entry fresh parts) x)
          × (started o (enqueue x.outbound (filled_entry fresh parts)).1
              ≡ write_of (filled_entry fresh parts) o (some x))
    unfolding enqueue started
    enqueue-queued o x = elim (Bool-cases x.outbound.active) [
      | inl on ↦ (simp on, simp on)
      | inr off ↦ (simp off, simp off)
    ]

    send_lem :
        (s : Server Message) (client o : ℕ) (x : Session)
        → find client s.sessions ≡ some o
        → find o s.objects ≡ some x
        → send pb fresh s client c t m
          ≡ ok (
            set_object o (queued (filled_entry fresh parts) x) s,
            write_of (filled_entry fresh parts) o (some x),
          )
    unfolding send session_send
    send_lem s client o x named there =
        let (session, write) = enqueue-queued o x in
        rw (named, there, can)
          (ap
              (λ (y : Session).
                ok (set_object o y s, started o (enqueue x.outbound (filled_entry fresh parts)).1))
              session
            ∙ ap
                (λ (ws : List (Action Message)).
                  ok (set_object o (queued (filled_entry fresh parts) x) s, ws))
                write)

    -- What `send_to_all` leaves behind: each client of the list has the entry on its queue, or under
    -- way, behind what it had; the table of clients is as it was.
    abbrev Delivered : Server Message → Server Message → Dict ℕ ℕ → Type 0
    Delivered s s' l =
        All
          (λ e.
            (x : Session) × (find e.1 s.objects ≡ some x)
            × (find e.1 s'.objects ≡ some (queued (filled_entry fresh parts) x)))
          l

    -- Objects of other clients differ from the object of a client below them.
    others :
        (s : Server Message) (k o : ℕ) (x : Session) (l : Dict ℕ ℕ)
        → Inv s
        → find o s.objects ≡ some x
        → x.id ≡ k
        → All (λ e. find e.0 s.sessions ≡ some e.1) l
        → Above k l
        → NotIn o l
    others s k o x l v there id named above =
        All-map₂ l (λ e f lt. let (y, h, i) = v.named e.0 e.1 f in ground arith) named
          (Above-keys k l above)

    -- The result of `send_each` on the clients of a list.
    record Sent (s : Server Message) (l : Dict ℕ ℕ) : Type 0 where
      s' : Server Message
      out : List (Action Message)
      result : send_each pb fresh c t m l s ≡ ok (s', out)
      writes : out ≡ writes_of (filled_entry fresh parts) s l
      delivered : Delivered s s' l
      frame : (o : ℕ) → NotIn o l → find o s'.objects ≡ find o s.objects
      table : s'.sessions ≡ s.sessions

    writes_of-set :
        (o : ℕ) (y : Session) (s : Server Message) (l : Dict ℕ ℕ)
        → NotIn o l
        → writes_of (filled_entry fresh parts) (set_object o y s) l
          ≡ writes_of (filled_entry fresh parts) s l
    writes_of-set o y s [] ne = refl
    writes_of-set o y s ((k, p) ∷ l) ne =
        rw (find-insert_ne o p y s.objects ne.0, writes_of-set o y s l ne.1) refl

    send_each-Sent :
        (l : Dict ℕ ℕ) (s : Server Message)
        → Inv s
        → All (λ e. find e.0 s.sessions ≡ some e.1) l
        → IsSorted l
        → Sent s l
    unfolding send_each
    send_each-Sent [] s v named sorted = record {
      s' = s;
      out = [];
      result = refl;
      writes = refl;
      delivered = tt;
      frame = λ o _. refl;
      table = refl;
    }
    send_each-Sent ((k, o) ∷ l) s v named sorted =
        let (x, there, id) = v.named k o named.0 in
        let apart = others s k o x l v there id named.1 sorted in
        let ih =
          send_each-Sent l (set_object o (queued (filled_entry fresh parts) x) s)
            (set_object-Inv s o x (queued (filled_entry fresh parts) x) there refl v) named.1
            (Above-IsSorted k l sorted) in
        record {
          s' = ih.s';
          out = write_of (filled_entry fresh parts) o (some x) ++ ih.out;
          writes = rw there (
              ap (λ ws. write_of (filled_entry fresh parts) o (some x) ++ ws)
                (ih.writes ∙ writes_of-set o (queued (filled_entry fresh parts) x) s l apart));
          result = rw (send_lem s k o x named.0 there, ◌>>=◌, ih.result) refl;
          delivered = (
            (
              x,
              there,
              ih.frame o apart ∙ find-insert_self o (queued (filled_entry fresh parts) x) s.objects,
            ),
            All-map₂ l
                (λ e d ne. (
                  d.0,
                  sym (find-insert_ne o e.1 (queued (filled_entry fresh parts) x) s.objects ne)
                      ∙ d.1,
                  d.2,
                ))
                ih.delivered apart,
          );
          frame = λ p ne.
              ih.frame p ne.1
              ∙ find-insert_ne o p (queued (filled_entry fresh parts) x) s.objects (ground arith);
          table = ih.table;
        }

    -- `send_to_all` reaches every client, if the message can be serialized: in the order of the
    -- client IDs, each session of the table takes the entry once. Where no write is under way the
    -- entry is written at once, and else it stands behind what the queue held; nothing else is
    -- written.
    pub send_to_all_delivers :
        (s : Server Message)
        → Inv s
        → (s' : Server Message) × (send_to_all pb fresh s c t m
            ≡ ok (s', writes_of (filled_entry fresh parts) s s.sessions))
          × Delivered s s' s.sessions
          × (s'.sessions ≡ s.sessions)
    unfolding send_to_all
    send_to_all_delivers s v =
        let r = send_each-Sent s.sessions s v (IsSorted-entries s.sessions v.ordered) v.ordered in
        (r.s', r.result ∙ ap (λ out. ok (r.s', out)) r.writes, r.delivered, r.table)
