-- ===== src/MemoryTest/Session/Laws.antt =====
-- What a session writes, and when it ends.
use mathlib.Core.List.{append-nil}
use boost_beast_websocket_ec.Prelude.{
  if◌then◌else◌, Bool-cases, ◌≡◌, refl, ap, sym, ◌∙◌, ◌≢◌, subst, inl, inr, Bool, List, [], ◌∷◌,
  ◌++◌, drop-length, ErrorCode, is_error, is_closed, arith,
}
use boost_beast_websocket_ec.Prelude.Text.{Text}
use boost_beast_websocket_ec.MemoryTest.Session.{
  Operation, accept, read, write, Session, session, run, on_accept, on_read, on_write, Event,
  accepted, received, wrote, Pending, completed, handle, step, Enabled, Reach, start, next,
}

-- What a session is to write after some events: the octets of each read that has not completed with
-- closed, with its kind.
abbrev pub echoes : List Event → List (Bool × Text)
echoes [] = []
echoes (received ec got_text bytes ∷ es) =
    let rest = echoes es in if is_closed ec then rest else (got_text, bytes) ∷ rest
echoes (accepted ec ∷ es) = echoes es
echoes (wrote ec ∷ es) = echoes es

-- At most one operation is pending, and the buffer is empty while it is an accept or a read.
abbrev pub OneOperation : List Operation → Text → Type 0
OneOperation [] buffer = Unit {0}
OneOperation (accept ∷ []) buffer = buffer ≡ []
OneOperation (read ∷ []) buffer = buffer ≡ []
OneOperation (write ∷ []) buffer = Unit {0}
OneOperation (o ∷ (p ∷ ps)) buffer = ⊥

pub record IsValid (es : List Event) (s : Session) : Type 0 where
  pub one_operation : OneOperation s.pending s.buffer
  pub writes_echo : s.writes ≡ echoes es

echoes-append : (es fs : List Event) → echoes (es ++ fs) ≡ echoes es ++ echoes fs
echoes-append [] fs = refl
echoes-append (accepted ec ∷ es) fs = echoes-append es fs
echoes-append (received ec got_text bytes ∷ es) fs = ground (arith, echoes-append es fs)
echoes-append (wrote ec ∷ es) fs = echoes-append es fs

only-Pending :
    (o : Operation) (ps : List Operation) (buffer : Text)
    → OneOperation ps buffer
    → Pending o ps
    → ps ≡ o ∷ []
only-Pending o [] buffer v h = absurd h
only-Pending o (accept ∷ []) buffer v (inl e) = ap (λ p. p ∷ []) e
only-Pending o (read ∷ []) buffer v (inl e) = ap (λ p. p ∷ []) e
only-Pending o (write ∷ []) buffer v (inl e) = ap (λ p. p ∷ []) e
only-Pending o (p ∷ []) buffer v (inr h) = absurd h
only-Pending o (accept ∷ (q ∷ ps)) buffer v h = absurd v
only-Pending o (read ∷ (q ∷ ps)) buffer v h = absurd v
only-Pending o (write ∷ (q ∷ ps)) buffer v h = absurd v

-- The handlers, on a session whose operation has completed.
on_accept-OneOperation :
    (ec : ErrorCode) (s : Session)
    → s.pending ≡ []
    → s.buffer ≡ []
    → OneOperation (on_accept ec s).pending (on_accept ec s).buffer
      × ((on_accept ec s).writes ≡ s.writes)
unfolding on_accept
on_accept-OneOperation ec s p b = elim (Bool-cases (is_error ec)) [
  | inl e ↦ rw (e, p) (tt, refl)
  | inr e ↦ rw (e, p) (b, refl)
]

on_write-OneOperation :
    (ec : ErrorCode) (s : Session)
    → s.pending ≡ []
    → OneOperation (on_write ec s).pending (on_write ec s).buffer
      × ((on_write ec s).writes ≡ s.writes)
unfolding on_write
on_write-OneOperation ec s p = elim (Bool-cases (is_error ec)) [
  | inl e ↦ rw (e, p) (tt, refl)
  | inr e ↦ rw (e, p) (drop-length s.buffer, refl)
]

on_read-OneOperation :
    (ec : ErrorCode) (got_text : Bool) (s : Session)
    → s.pending ≡ []
    → OneOperation (on_read ec got_text s).pending (on_read ec got_text s).buffer
      × ((on_read ec got_text s).writes ≡ s.writes ++ echoes (received ec got_text s.buffer ∷ []))
unfolding on_read
on_read-OneOperation ec got_text s p = elim (Bool-cases (is_closed ec)) [
  | inl e ↦ rw (e, p) (tt, sym (append-nil s.writes))
  | inr e ↦ (elim (Bool-cases (is_error ec)) [
    | inl f ↦ rw (e, f, p) (tt, refl)
    | inr f ↦ rw (e, f, p) (tt, refl)
  ])
]

completed-only : (o : Operation) (ps : List Operation) → ps ≡ o ∷ [] → completed o ps ≡ []
completed-only accept ps h = ap (completed accept) h
completed-only read ps h = ap (completed read) h
completed-only write ps h = ap (completed write) h

OneOperation-buffer :
    (o : Operation) (ps : List Operation) (buffer : Text)
    → ps ≡ o ∷ []
    → o ≢ write
    → OneOperation ps buffer
    → buffer ≡ []
OneOperation-buffer accept ps buffer h n v = subst (λ p. OneOperation p buffer) h v
OneOperation-buffer read ps buffer h n v = subst (λ p. OneOperation p buffer) h v
OneOperation-buffer write ps buffer h n v = absurd (n refl)

step-IsValid :
    (es : List Event) (e : Event) (s : Session)
    → IsValid es s
    → Enabled e s
    → IsValid (es ++ (e ∷ [])) (step e s)
unfolding step handle
step-IsValid es (accepted ec) s v h =
    let only = only-Pending accept s.pending s.buffer v.one_operation h in
    let r =
      on_accept-OneOperation ec (record s { pending = completed accept s.pending })
        (completed-only accept s.pending only)
        (OneOperation-buffer accept s.pending s.buffer only (ground arith) v.one_operation) in
    record {
      one_operation = r.0;
      writes_echo =
          r.1
          ∙ v.writes_echo
          ∙ sym (append-nil (echoes es))
          ∙ sym (echoes-append es (accepted ec ∷ []));
    }
step-IsValid es (wrote ec) s v h =
    let only = only-Pending write s.pending s.buffer v.one_operation h in
    let r =
      on_write-OneOperation ec (record s { pending = completed write s.pending })
        (completed-only write s.pending only) in
    record {
      one_operation = r.0;
      writes_echo =
          r.1
          ∙ v.writes_echo
          ∙ sym (append-nil (echoes es))
          ∙ sym (echoes-append es (wrote ec ∷ []));
    }
step-IsValid es (received ec got_text bytes) s v h =
    let only = only-Pending read s.pending s.buffer v.one_operation h in
    let r =
      on_read-OneOperation ec got_text
        (record s { pending = completed read s.pending; buffer = s.buffer ++ bytes })
        (completed-only read s.pending only) in
    let b = OneOperation-buffer read s.pending s.buffer only (ground arith) v.one_operation in
    record {
      one_operation = r.0;
      writes_echo =
          r.1
          ∙ ap (λ t. s.writes ++ echoes (received ec got_text (t ++ bytes) ∷ [])) b
          ∙ ap (λ w. w ++ echoes (received ec got_text bytes ∷ [])) v.writes_echo
          ∙ sym (echoes-append es (received ec got_text bytes ∷ []));
    }

-- In every session reached at most one operation is pending, the buffer is empty while the handshake or
-- a read is pending, and the messages whose write has begun are, in order, the octets of every read that
-- has completed other than with closed, failed ones included, each with its kind.
pub session_echoes : (es : List Event) (s : Session) → Reach es s → IsValid es s
unfolding run session
session_echoes es s start = record { one_operation = refl; writes_echo = refl }
session_echoes es s (next {es = before} {s = old} e h r) =
    step-IsValid before e old (session_echoes before old r) h
