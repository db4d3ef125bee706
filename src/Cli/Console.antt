-- ===== src/Cli/Console.antt =====
-- IsConsoleSessionActive and ReportWhyNotOnScreen (cli/nyanvddctl.cpp).
use nyan_real_vdd.Base.{
  ℕ, Bool, false, not, ◌&&◌, Option, none, some, List, [], ◌∷◌, ◌==◌, leb, if◌then◌else◌,
}
use nyan_real_vdd.Cli.{
  Owner, another_session, remote_desktop, another_local_session, not_visible_here,
  should_be_transient, Session, say,
}

-- WTS_CONNECTSTATE_CLASS::WTSActive
abbrev wts_active : ℕ
wts_active = 0

-- An entry of WTSEnumerateSessions, with what WTSClientProtocolType answers for it: the number of
-- bytes and the protocol.
pub record WtsSession : Type 0 where
  pub state : ℕ
  pub protocol : Option (ℕ × ℕ)

-- What the terminal services answer: the console session, the size and value of its state, and the
-- sessions.
pub record Wts : Type 0 where
  pub console_session : ℕ
  pub console_state : Option (ℕ × ℕ)
  pub sessions : Option (List WtsSession)

-- sizeof(USHORT) bytes with a protocol that is not the console's.
unfoldable pub is_remote : Option (ℕ × ℕ) → Bool
is_remote none = false
is_remote (some (bytes, protocol)) = leb 2 bytes && not (protocol == 0)

-- The loop over the sessions, which ends at the first that is active.
unfoldable pub owner_of : List WtsSession → Owner
owner_of [] = another_session
owner_of (s ∷ ss) =
    let rest = owner_of ss in
    if not (s.state == wts_active)
    then rest
    else if is_remote s.protocol
    then remote_desktop
    else another_local_session

abbrev owner_of_all : Option (List WtsSession) → Owner
owner_of_all none = another_session
owner_of_all (some ss) = owner_of ss

-- IsConsoleSessionActive: `none` for true, and otherwise who owns the desktop. A state takes four
-- bytes.
unfoldable pub is_console_session_active : Wts → Option Owner
is_console_session_active w =
    if w.console_session == 0xFFFFFFFF then none else elim w.console_state [
      | none ↦ none
      | some (bytes, value) ↦
          if not (leb 4 bytes)
          then none
          else if value == wts_active
          then none
          else some (owner_of_all w.sessions)
    ]

-- ReportWhyNotOnScreen
unfoldable pub report_why_not_on_screen {ℓ} : {D : Type ℓ} → Wts → Session D → Session D
report_why_not_on_screen w s = elim (is_console_session_active w) [
  | some owner ↦ say (not_visible_here owner) s
  | none ↦ say should_be_transient s
]
