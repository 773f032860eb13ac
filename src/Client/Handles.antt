-- ===== src/Client/Handles.antt =====
-- What connectOverConn and Close of internal/client/client.go leave open.
use lotun.Base.{
  Bool, true, false, ◌≡◌, ◌⊎◌, ◌≢◌, inl, inr, refl, Option, if◌then◌else◌, ◌++◌, Bool-cases,
}
use lotun.Base.Bytes.{bytes}
use lotun.Protocol.{Message}
use lotun.Client.{Reply, received, broken, failed, unexpected, connect}

-- The three fields of a Client, and whether each is open.
pub record Handles : Type 0 where
  pub conn_open : Bool
  pub sess_open : Bool
  pub control_open : Bool

-- What the calls of connectOverConn meet: whether yamux.Client, Open and WriteMessage succeed, and the
-- reply, if ReadMessage reads one.
pub record Meets : Type 0 where
  pub session : Bool
  pub stream : Bool
  pub written : Bool
  pub reply : Option Message

-- conn.Close(), and sess.Close(), which closes the streams of the session too.
abbrev pub close_conn : Handles → Handles
close_conn h = record h { conn_open = false }

abbrev pub close_sess : Handles → Handles
close_sess h = record h { sess_open = false; control_open = false }

abbrev pub close_control : Handles → Handles
close_control h = record h { control_open = false }

-- Every failure behind yamux.Client.
abbrev pub give_up : Handles → Handles
give_up h = close_conn (close_sess h)

-- The switch on the reply.
unfoldable pub on_reply : Handles → Reply (Unit {0}) → Handles × Reply (Unit {0})
on_reply h (received u) = (h, received u)
on_reply h broken = (give_up h, broken)
on_reply h (failed m) = (give_up h, failed (bytes "auth rejected: " ++ m))
on_reply h (unexpected m) = (give_up h, unexpected m)

-- What is open before yamux.Client, before Open and after it.
abbrev pub with_conn : Handles
with_conn = record { conn_open = true; sess_open = false; control_open = false }

abbrev pub with_sess : Handles
with_sess = record with_conn { sess_open = true }

abbrev pub with_control : Handles
with_control = record with_sess { control_open = true }

-- connectOverConn on an open connection.
unfoldable pub connect_handles : Meets → Handles × Reply (Unit {0})
unfolding on_reply
connect_handles w =
    if w.session
    then (if w.stream
        then (if w.written
            then on_reply with_control (connect w.reply)
            else (give_up with_control, broken))
        else (give_up with_sess, broken))
    else (close_conn with_conn, broken)

-- Close()
unfoldable pub close_client : Handles → Handles
close_client h = close_conn (close_sess (close_control h))

abbrev pub AllOpen : Handles → Type 0
AllOpen h = (h.conn_open ≡ true) × (h.sess_open ≡ true) × (h.control_open ≡ true)

abbrev pub AllClosed : Handles → Type 0
AllClosed h = (h.conn_open ≡ false) × (h.sess_open ≡ false) × (h.control_open ≡ false)

-- What makes connectOverConn fail.
abbrev pub Fails : Meets → Type 0
Fails w =
    (w.session ≡ false)
    ⊎ ((w.stream ≡ false) ⊎ ((w.written ≡ false) ⊎ (connect w.reply ≢ received tt)))

-- A client is made, all of it open; or there is an error, and nothing is left open.
abbrev pub Connected : Meets → Handles × Reply (Unit {0}) → Type 0
Connected w (h, answer) =
    ((answer ≡ received tt)
      × AllOpen h
      × AllClosed (close_client h)
      × (w.session ≡ true)
      × (w.stream ≡ true)
      × (w.written ≡ true)
      × (connect w.reply ≡ received tt))
    ⊎ ((answer ≢ received tt) × AllClosed h × Fails w)

on_reply-cases :
    (h : Handles) (a : Reply (Unit {0}))
    → ((a ≡ received tt) × (on_reply h a ≡ (h, received tt)))
      ⊎ (((on_reply h a).1 ≢ received tt) × ((on_reply h a).0 ≡ give_up h) × (a ≢ received tt))
unfolding on_reply
on_reply-cases h (received u) = inl (refl, refl)
on_reply-cases h broken = inr (λ e. cc, refl, λ e. cc)
on_reply-cases h (failed m) = inr (λ e. cc, refl, λ e. cc)
on_reply-cases h (unexpected m) = inr (λ e. cc, refl, λ e. cc)

-- Behind a message that was written.
on_reply-Connected :
    (w : Meets)
    → w.session ≡ true
    → w.stream ≡ true
    → w.written ≡ true
    → Connected w (on_reply with_control (connect w.reply))
unfolding close_client
on_reply-Connected w set_up opened sent = elim (on_reply-cases with_control (connect w.reply)) [
  | inl (took, is) ↦
      rw is (inl (refl, (refl, refl, refl), (refl, refl, refl), set_up, opened, sent, took))
  | inr (refused, is, other) ↦ inr (refused, rw is (refl, refl, refl), inr (inr (inr other)))
]

gave_up-Connected :
    (w : Meets) (h : Handles)
    → AllClosed h
    → connect_handles w ≡ (h, broken)
    → Fails w
    → Connected w (connect_handles w)
gave_up-Connected w h shut is why = rw is (inr (λ e. cc, shut, why))

-- Whatever its calls meet, connectOverConn gives a client exactly if the session, the stream and
-- the write succeed and the handshake takes the reply; then the connection, the session and the
-- control stream are open, and Close closes all three; in every other case there is an error, and
-- nothing is left open.
pub connect_handles-Connected : (w : Meets) → Connected w (connect_handles w)
unfolding connect_handles
connect_handles-Connected w = elim (Bool-cases w.session) [
  | inr off ↦ gave_up-Connected w (close_conn with_conn) (refl, refl, refl) (rw off refl) (inl off)
  | inl set_up ↦ elim (Bool-cases w.stream) [
    | inr off ↦
        gave_up-Connected w (give_up with_sess) (refl, refl, refl) (rw (set_up, off) refl)
          (inr (inl off))
    | inl opened ↦ elim (Bool-cases w.written) [
      | inr off ↦
          gave_up-Connected w (give_up with_control) (refl, refl, refl)
            (rw (set_up, opened, off) refl) (inr (inr (inl off)))
      | inl sent ↦
          let is : connect_handles w ≡ on_reply with_control (connect w.reply) =
            rw (set_up, opened, sent) refl in
          rw is (on_reply-Connected w set_up opened sent)
    ]
  ]
]
