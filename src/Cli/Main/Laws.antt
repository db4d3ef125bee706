-- ===== src/Cli/Main/Laws.antt =====
-- What nyanvddctl sends to a driver before it knows the driver's protocol version.
use nyan_real_vdd.Base.{
  ℕ, ◌≡◌, refl, true, inl, inr, Option, none, some, List, [], ◌∷◌, Bool-cases, ap, ◌∙◌, sym, subst,
  ◌==◌,
}
use nyan_real_vdd.Protocol.{control_protocol_supported}
use nyan_real_vdd.Driver.Ioctl.{Request, Answer, get_status_request}
use nyan_real_vdd.Cli.{Text, same_text, Message, ControlResult, answered, Session, say, ioctl}
use nyan_real_vdd.Cli.Commands.{read_status}
use nyan_real_vdd.Cli.Commands.Laws.{
  Result-cases, AtMostOne, none_sent, one_sent, cmd_resolve-AtMostOne, cmd_status-AtMostOne,
  cmd_list-AtMostOne, cmd_unplug-AtMostOne, cmd_watchdog-AtMostOne,
}
use nyan_real_vdd.Cli.Plug.Laws.{cmd_plug-AtMostOne}
use nyan_real_vdd.Cli.Lifetime.{SwDevice, SwLifetime, set_device_lifetime, open_device}
use nyan_real_vdd.Cli.Main.{
  install_word, remove_word, status_word, list_word, resolve_word, plug_word, unplug_word,
  watchdog_word, Windows, say_all, change_device_node, run_with, run_command, checked, probe,
  with_handle, wmain,
}

module _ {ℓ} {D : Type ℓ} (control : Request → D → ControlResult × D) (w : Windows) where
  run_with-AtMostOne :
      (cmd : Text) (args : List Text) (s : Session D)
      → AtMostOne s.sent (run_with control w cmd args s).1.sent
  unfolding run_with
  run_with-AtMostOne cmd [] s = none_sent
  run_with-AtMostOne cmd (arg ∷ args) s = elim (Bool-cases (same_text cmd unplug_word)) [
    | inl unplug ↦ simp unplug (cmd_unplug-AtMostOne control s w.scanner.wcstoul arg)
    | inr no_unplug ↦ elim (Bool-cases (same_text cmd watchdog_word)) [
      | inl dog ↦ simp (no_unplug, dog) (cmd_watchdog-AtMostOne control s w.scanner.wcstoul arg)
      | inr no_dog ↦ simp (no_unplug, no_dog) none_sent
    ]
  ]

  run_command-AtMostOne :
      (cmd : Text) (args : List Text) (s : Session D)
      → AtMostOne s.sent (run_command control w cmd args s).1.sent
  unfolding run_command
  run_command-AtMostOne cmd args s = elim (Bool-cases (same_text cmd status_word)) [
    | inl status ↦ simp status (cmd_status-AtMostOne control s)
    | inr a ↦ elim (Bool-cases (same_text cmd list_word)) [
      | inl list ↦ simp (a, list) (cmd_list-AtMostOne control s w.wts)
      | inr b ↦ elim (Bool-cases (same_text cmd resolve_word)) [
        | inl resolve ↦ simp (a, b, resolve) (cmd_resolve-AtMostOne control s w.wts w.displays)
        | inr c ↦ elim (Bool-cases (same_text cmd plug_word)) [
          | inl plug ↦
              simp (a, b, c, plug) (cmd_plug-AtMostOne control s w.scanner w.random w.wts args)
          | inr e ↦ simp (a, b, c, e) (run_with-AtMostOne cmd args s)
        ]
      ]
    ]
  ]

  -- The requests after a run that began in `s`, the latest first: none; the status alone; or one more
  -- after a status whose protocol version the program supports.
  pub data VersionFirst (s : Session D) : List Request → Type ℓ where
    silent : VersionFirst s s.sent
    status_only : VersionFirst s (get_status_request ∷ s.sent)
    version_known :
        (a : Answer) (d : D) (r : Request)
        → control get_status_request s.driver ≡ (answered a, d)
        → control_protocol_supported (read_status a).protocol_version ≡ true
        → VersionFirst s (r ∷ get_status_request ∷ s.sent)

  after_check :
      (s : Session D) (a : Answer) (d : D) {rs : List Request}
      → control get_status_request s.driver ≡ (answered a, d)
      → control_protocol_supported (read_status a).protocol_version ≡ true
      → AtMostOne (get_status_request ∷ s.sent) rs
      → VersionFirst s rs
  after_check s a d e ok none_sent = status_only
  after_check s a d e ok (one_sent r) = version_known a d r e ok

  probe-VersionFirst :
      (cmd : Text) (args : List Text) (s : Session D)
      → VersionFirst s (probe control w cmd args s).1.sent
  unfolding probe ioctl checked
  probe-VersionFirst cmd args s = elim (Result-cases (control get_status_request s.driver)) [
    | inr (code, d, e) ↦ simp e status_only
    | inl (a, d, e) ↦
        let version = (read_status a).protocol_version in
        elim (Bool-cases (control_protocol_supported version)) [
          | inr unknown ↦ simp (e, unknown) status_only
          | inl known ↦
              simp (e, known) (after_check s a d e known (run_command-AtMostOne cmd args _))
        ]
  ]

  with_handle-VersionFirst :
      (cmd : Text) (args : List Text) (h : Option ℕ) (s : Session D)
      → VersionFirst s (with_handle control w cmd args h s).session.sent
  unfolding with_handle
  with_handle-VersionFirst cmd args none s = silent
  with_handle-VersionFirst cmd args (some h) s = probe-VersionFirst cmd args s

  sent-say_all : (ms : List Message) (s : Session D) → (say_all ms s).sent ≡ s.sent
  unfolding say_all
  sent-say_all [] s = refl
  sent-say_all (m ∷ ms) s = sent-say_all ms (say m s)

  moved :
      {s s' : Session D} {rs : List Request}
      → s'.driver ≡ s.driver
      → s'.sent ≡ s.sent
      → VersionFirst s' rs
      → VersionFirst s rs
  moved {s} {s'} {rs} e h silent = subst (VersionFirst s) (sym h) silent
  moved {s} {s'} {rs} e h status_only =
      subst (λ xs. VersionFirst s (get_status_request ∷ xs)) (sym h) status_only
  moved {s} {s'} {rs} e h (version_known a d r f ok) =
      subst (λ xs. VersionFirst s (r ∷ get_status_request ∷ xs)) (sym h)
        (version_known a d r (ap (control get_status_request) (sym e) ∙ f) ok)

  driver-say_all : (ms : List Message) (s : Session D) → (say_all ms s).driver ≡ s.driver
  unfolding say_all
  driver-say_all [] s = refl
  driver-say_all (m ∷ ms) s = driver-say_all ms (say m s)

  change_device_node-VersionFirst :
      (x : SwDevice) (l : SwLifetime) (m : Message) (s : Session D)
      → VersionFirst s (change_device_node x l m s).session.sent
  unfolding change_device_node
  change_device_node-VersionFirst x l m s =
      let r = set_device_lifetime x l in
      let same : VersionFirst s (say_all r.2 s).sent =
        subst (VersionFirst s) (sym (sent-say_all r.2 s)) silent in
      elim (Bool-cases (r.0 == 0)) [ inl ok ↦ simp ok same | inr bad ↦ simp bad same ]

  -- Whatever Windows and the driver answer and whatever its arguments are, a run of the program sends
  -- nothing, or the status request alone, or after it one more request to a driver whose answer to the
  -- status request has a protocol version that the program supports.
  pub wmain-VersionFirst :
      (argv : List Text) (s : Session D) → VersionFirst s (wmain control w argv s).session.sent
  unfolding wmain
  wmain-VersionFirst [] s = silent
  wmain-VersionFirst (cmd ∷ args) s = elim (Bool-cases (same_text cmd install_word)) [
    | inl install ↦ simp install (change_device_node-VersionFirst w.sw_device _ _ s)
    | inr a ↦ elim (Bool-cases (same_text cmd remove_word)) [
      | inl remove ↦ simp (a, remove) (change_device_node-VersionFirst w.sw_device _ _ s)
      | inr b ↦
          let r = open_device w.interfaces in
          simp (a, b)
            (moved (driver-say_all r.1 s) (sent-say_all r.1 s)
              (with_handle-VersionFirst cmd args r.0 (say_all r.1 s)))
    ]
  ]
