-- ===== src/Outline/Mobile/Ports.antt =====
-- What the mobile apps need to be connected.
use outline_go_tun2socks.Common.{
  ℕ, ◌≡◌, ◌≢◌, ◌↔◌, inl, inr, refl, sym, ap, ◌∙◌, ℤ, pos, negsuc, Bool, true, false, Option, none,
  some, if◌then◌else◌, if-true, if-false,
}
use outline_go_tun2socks.Tunnel.Packets.{TunFileError, TunFile, opened, make_tun_file}
use outline_go_tun2socks.Tunnel.Packets as Packets
use outline_go_tun2socks.Outline.Session.{
  Session, NewSession, Clients, new_session, failed, created,
}
use outline_go_tun2socks.Outline.Command.{bad_port}
use outline_go_tun2socks.Outline.Command.Flags.{ValidPort, port_cases}
use outline_go_tun2socks.Outline.Mobile.{
  Connected, invalid_port, connected, of_session, of_file, connect_android, connect_apple,
}

-- A session is there just if the descriptor could be opened and a session created.
abbrev pub Opens : ℤ → Option ℕ → Bool → Type 0
Opens fd dup opens = ((n : ℕ) × (fd ≡ pos n)) × (dup ≢ none) × (opens ≡ true)

of_session_created : (r : NewSession) (s : Session) → (of_session r ≡ connected s) ↔ (r ≡ created s)
of_session_created (failed e) s = (λ h. absurd (cc h), λ h. absurd (cc h))
of_session_created (created s') s = (λ h. cc h, λ h. ap of_session h)

file_opened :
    (fd : ℤ) (dup : Option ℕ) (opens : Bool) (file : ℕ)
    → make_tun_file fd dup opens ≡ opened file
    → Opens fd dup opens
unfolding make_tun_file
file_opened (negsuc n) dup opens file h = absurd (cc h)
file_opened (pos n) none opens file h = absurd (cc h)
file_opened (pos n) (some newfd) false file h = absurd (cc h)
file_opened (pos n) (some newfd) true file h = ((n, refl), λ e. cc e, refl)

of_file_created :
    (client enabled : Bool) (clients : Clients) (f : TunFile) (s : Session)
    → of_file client enabled clients f ≡ connected s
    → ((file : ℕ) × (f ≡ opened file)) × (new_session true client enabled clients ≡ created s)
of_file_created client enabled clients (Packets.refused e) s h = absurd (cc h)
of_file_created client enabled clients (opened file) s h =
    ((file, refl), (of_session_created (new_session true client enabled clients) s).0 h)

of_session_port : (r : NewSession) → of_session r ≢ invalid_port
of_session_port (failed e) h = cc h
of_session_port (created s) h = cc h

of_file_port :
    (client enabled : Bool) (clients : Clients) (f : TunFile)
    → of_file client enabled clients f ≢ invalid_port
of_file_port client enabled clients (Packets.refused e) h = cc h
of_file_port client enabled clients (opened file) h =
    of_session_port (new_session true client enabled clients) h

guarded :
    (port : ℤ) (x : Connected)
    → x ≢ invalid_port
    → ((if bad_port port then invalid_port else x) ≡ invalid_port) ↔ (¬ ValidPort port)
guarded port x other = elim (port_cases port) [
  | inl (good, valid) ↦
      (λ h. absurd (other (sym (if-false _ _ good) ∙ h)), λ no_. absurd (no_ valid))
  | inr (bad, invalid) ↦ (λ _. invalid, λ _. if-true _ _ bad)
]

past_guard :
    (port : ℤ) (x : Connected) (s : Session)
    → (if bad_port port then invalid_port else x) ≡ connected s
    → ValidPort port × (x ≡ connected s)
past_guard port x s h = elim (port_cases port) [
  | inl (good, valid) ↦ (valid, sym (if-false _ _ good) ∙ h)
  | inr (bad, invalid) ↦ let e = sym (if-true _ _ bad) ∙ h in absurd (cc e)
]

-- Both mobile apps, the one with a writer, refuse a port just if it is not one of 1 to 65535. Where one is
-- connected, the port is one of these, the session is one that NewTunnel created for a writer, and on
-- Android the descriptor is not negative and was duplicated and opened.
pub connected_needs :
    (fd : ℤ) (dup : Option ℕ) (opens : Bool) (port : ℤ) (client enabled : Bool) (clients : Clients)
    → ((connect_android fd dup opens port client enabled clients ≡ invalid_port)
        ↔ (¬ ValidPort port))
      × ((connect_apple true port client enabled clients ≡ invalid_port) ↔ (¬ ValidPort port))
      × ((s : Session)
          → connect_android fd dup opens port client enabled clients ≡ connected s
          → ValidPort port
            × Opens fd dup opens
            × (new_session true client enabled clients ≡ created s))
      × ((writer : Bool) (s : Session)
          → connect_apple writer port client enabled clients ≡ connected s
          → (writer ≡ true)
            × ValidPort port
            × (new_session true client enabled clients ≡ created s))
unfolding connect_android connect_apple
connected_needs fd dup opens port client enabled clients = (
  guarded port (of_file client enabled clients (make_tun_file fd dup opens))
      (of_file_port client enabled clients (make_tun_file fd dup opens)),
  guarded port (of_session (new_session true client enabled clients))
      (of_session_port (new_session true client enabled clients)),
  λ s h.
      let (valid, made) =
        past_guard port (of_file client enabled clients (make_tun_file fd dup opens)) s h in
      let ((file, is), is_new) =
        of_file_created client enabled clients (make_tun_file fd dup opens) s made in
      (valid, file_opened fd dup opens file is, is_new),
  λ writer s. apple writer s,
)
  where
    apple :
        (writer : Bool) (s : Session)
        → connect_apple writer port client enabled clients ≡ connected s
        → (writer ≡ true) × ValidPort port × (new_session true client enabled clients ≡ created s)
    apple false s h = absurd (cc h)
    apple true s h =
        let r = new_session true client enabled clients in
        let (valid, made) = past_guard port (of_session r) s h in
        (refl, valid, (of_session_created r s).0 made)
