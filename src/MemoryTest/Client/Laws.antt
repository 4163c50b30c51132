-- ===== src/MemoryTest/Client/Laws.antt =====
-- The connections are open together: none that has come up is let go before the last is spawned.
use boost_beast_websocket_ec.Prelude.{
  ℕ, zero, suc, ◌+◌, ◌*◌, ◌%◌, ◌≤◌, ◌<◌, ◌≡◌, refl, ap, sym, subst, ◌∙◌, Bool, true, Bool-cases,
  inl, inr, List, [], ◌∷◌, ◌++◌, length, length-append, All, ErrorCode, is_error, if◌then◌else◌,
  ltb, ◌==◌, arith,
}
use boost_beast_websocket_ec.Prelude.Text.{Text, codes, to_string}
use boost_beast_websocket_ec.MemoryTest.Client.{
  Stage, resolving, connecting, handshaking, writing, sleeping, returned, caught, throws, Thread,
  text, thread_step, Client, main, Event, main_goes, thread_goes, change_at, step, Reach, start,
  next, spawn_thread, main_turn, start_handshake,
}

-- The host of a handshake: the one that was looked up, a colon, and the port of some endpoint.
abbrev pub WithPort : Text → Type 0
WithPort host = (port : ℕ) × (host ≡ codes "192.168.0.55" ++ codes ":" ++ to_string port)

-- What holds of a thread in each stage, while main has finished spawning or not.
abbrev pub Holds : Bool → Thread → Stage → Type 0
Holds finished t resolving =
    (t.host ≡ codes "192.168.0.55") × (t.written ≡ []) × (t.handshakes ≡ [])
Holds finished t connecting =
    (t.host ≡ codes "192.168.0.55") × (t.written ≡ []) × (t.handshakes ≡ [])
Holds finished t handshaking = WithPort t.host × (t.written ≡ []) × (t.handshakes ≡ t.host ∷ [])
Holds finished t writing = WithPort t.host × (t.written ≡ text ∷ []) × (t.handshakes ≡ t.host ∷ [])
Holds finished t sleeping = WithPort t.host × (t.written ≡ text ∷ []) × (t.handshakes ≡ t.host ∷ [])
Holds finished t returned =
    WithPort t.host × (t.written ≡ text ∷ []) × (t.handshakes ≡ t.host ∷ []) × (finished ≡ true)
Holds finished t (caught ec) = is_error ec ≡ true

abbrev pub AllHold : Bool → List Thread → Type 0
AllHold finished = All (λ t. Holds finished t t.stage)

pub record IsValid (m : Client) : Type 0 where
  pub one_each : length m.threads ≡ m.i
  pub at_most : m.i ≤ 30000
  pub all_spawned : m.finished ≡ true → m.i ≡ 30000
  pub lines_least : m.i ≤ 1000 * length m.printed
  pub lines_most : 1000 * length m.printed < m.i + 1000
  pub holds : AllHold m.finished m.threads

-- The port is appended once.
start_handshake-Holds :
    (finished : Bool) (port : ℕ) (t : Thread)
    → Holds finished t connecting
    → Holds finished (start_handshake port t) handshaking
unfolding start_handshake
start_handshake-Holds finished port t (at_first, unwritten, none_yet) = (
  (port, ap (λ host. host ++ codes ":" ++ to_string port) at_first),
  unwritten,
  ap (λ hs. hs ++ ((t.host ++ codes ":" ++ to_string port) ∷ [])) none_yet,
)

thread_step-connecting :
    (finished : Bool) (ec : ErrorCode) (port : ℕ) (t : Thread)
    → t.stage ≡ connecting
    → thread_step finished ec port t ≡ (if is_error ec then throws ec t else start_handshake port t)
unfolding thread_step
thread_step-connecting finished ec port t e = rw (e) refl

connecting-Holds :
    (finished : Bool) (ec : ErrorCode) (port : ℕ) (t : Thread)
    → Holds finished t connecting
    → let t' = if is_error ec then throws ec t else start_handshake port t in
      Holds finished t' t'.stage
unfolding start_handshake
connecting-Holds finished ec port t h = elim (Bool-cases (is_error ec)) [
  | inl e ↦ rw (e) e
  | inr e ↦ rw (e) (start_handshake-Holds finished port t h)
]

thread_step-Holds :
    (finished : Bool) (ec : ErrorCode) (port : ℕ) (t : Thread) (s : Stage)
    → t.stage ≡ s
    → Holds finished t t.stage
    → Holds finished (thread_step finished ec port t) (thread_step finished ec port t).stage
unfolding thread_step start_handshake
thread_step-Holds finished ec port t resolving e h = ground arith
thread_step-Holds finished ec port t connecting e h =
    let h' = subst (Holds finished t) e h in
    subst (λ u. Holds finished u u.stage) (sym (thread_step-connecting finished ec port t e))
      (connecting-Holds finished ec port t h')
thread_step-Holds finished ec port t handshaking e h = ground arith
thread_step-Holds finished ec port t writing e h = ground arith
thread_step-Holds finished ec port t sleeping e h = ground arith
thread_step-Holds finished ec port t returned e h = ground arith
thread_step-Holds finished ec port t (caught x) e h = ground arith

change_at-AllHold :
    (finished : Bool) (k : ℕ) (ec : ErrorCode) (port : ℕ) (ts : List Thread)
    → AllHold finished ts
    → AllHold finished (change_at k (thread_step finished ec port) ts)
unfolding change_at
change_at-AllHold finished k ec port [] h = tt
change_at-AllHold finished zero ec port (t ∷ ts) h =
    (thread_step-Holds finished ec port t t.stage refl h.0, h.1)
change_at-AllHold finished (suc k) ec port (t ∷ ts) h =
    (h.0, change_at-AllHold finished k ec port ts h.1)

length-change_at :
    (k : ℕ) (f : Thread → Thread) (ts : List Thread) → length (change_at k f ts) ≡ length ts
unfolding change_at
length-change_at k f [] = refl
length-change_at zero f (t ∷ ts) = refl
length-change_at (suc k) f (t ∷ ts) = ap suc (length-change_at k f ts)

spawned-AllHold :
    (finished : Bool) (ts : List Thread)
    → AllHold finished ts
    → AllHold finished (ts ++ spawn_thread ∷ [])
unfolding spawn_thread
spawned-AllHold finished [] h = ((refl, refl, refl), tt)
spawned-AllHold finished (t ∷ ts) h = (h.0, spawned-AllHold finished ts h.1)

-- What a thread has done stays true when finished is set.
finished-Holds : (finished : Bool) (t : Thread) (s : Stage) → Holds finished t s → Holds true t s
finished-Holds finished t resolving h = h
finished-Holds finished t connecting h = h
finished-Holds finished t handshaking h = h
finished-Holds finished t writing h = h
finished-Holds finished t sleeping h = h
finished-Holds finished t returned h = (h.0, h.1, h.2, refl)
finished-Holds finished t (caught ec) h = h

finished-AllHold : (finished : Bool) (ts : List Thread) → AllHold finished ts → AllHold true ts
finished-AllHold finished [] h = tt
finished-AllHold finished (t ∷ ts) h =
    (finished-Holds finished t t.stage h.0, finished-AllHold finished ts h.1)

-- A line is printed for every thousandth thread, the first included.
lines_step :
    (i : ℕ) (printed : List ℕ)
    → i ≤ 1000 * length printed
    → 1000 * length printed < i + 1000
    → let lines = length (if i % 1000 == 0 then printed ++ i ∷ [] else printed) in
      (i + 1 ≤ 1000 * lines) × (1000 * lines < i + 1 + 1000)
lines_step i printed h k = ground (arith, length-append printed (i ∷ []))

main_turn-IsValid : (m : Client) → IsValid m → IsValid (main_turn m)
unfolding main_turn
main_turn-IsValid m v = elim (Bool-cases (ltb m.i 30000)) [
  | inl e ↦
      let lines = lines_step m.i m.printed v.lines_least v.lines_most in
      rw (e) (record {
        one_each = omega (arith, v.one_each, length-append m.threads (spawn_thread ∷ []));
        at_most = ground arith;
        all_spawned = ground arith;
        lines_least = lines.0;
        lines_most = lines.1;
        holds = spawned-AllHold m.finished m.threads v.holds;
      })
  | inr e ↦ rw (e) (record {
    one_each = v.one_each;
    at_most = v.at_most;
    all_spawned = ground arith;
    lines_least = v.lines_least;
    lines_most = v.lines_most;
    holds = finished-AllHold m.finished m.threads v.holds;
  })
]

step-IsValid : (m : Client) (e : Event) → IsValid m → IsValid (step m e)
unfolding step
step-IsValid m main_goes v = main_turn-IsValid m v
step-IsValid m (thread_goes k ec port) v = record {
  one_each = length-change_at k (thread_step m.finished ec port) m.threads ∙ v.one_each;
  at_most = v.at_most;
  all_spawned = v.all_spawned;
  lines_least = v.lines_least;
  lines_most = v.lines_most;
  holds = change_at-AllHold m.finished k ec port m.threads v.holds;
}

-- In every state that an interleaving of main and its threads reaches, there is a thread for each turn
-- of the loop, at most 30000, and a line was printed for every thousandth; a thread that is connected
-- has asked its host for one handshake, with the port appended once, and has written the message at most
-- once; and a thread that has returned without an error has written it, and returned after all 30000 were
-- spawned.
pub held_open : {m : Client} → Reach m → IsValid m
unfolding main
held_open start = ground arith
held_open (next {m} e reach) = step-IsValid m e (held_open reach)
