-- ===== src/Cli/Commands/Laws.antt =====
-- Which requests the commands of nyanvddctl send.
use nyan_real_vdd.Base.{
  ℕ, ◌≡◌, refl, ◌⊎◌, inl, inr, Option, none, some, List, [], ◌∷◌, arith, Bool-cases, Option-cases,
  subst, sym, ◌∙◌, ◌==◌,
}
use nyan_real_vdd.Protocol.{MonitorInfo}
use nyan_real_vdd.Driver.Ioctl.{
  Request, Answer, get_status_request, unplug_request, list_request, set_watchdog_request,
}
use nyan_real_vdd.Cli.{
  Text, same_text, ResolvedDisplay, ControlResult, answered, refused, Session, ioctl, or_fail,
}
use nyan_real_vdd.Cli.Console.{Wts, is_console_session_active, report_why_not_on_screen}
use nyan_real_vdd.Cli.Displays.{DisplayConfig, find_display, resolve_displays}
use nyan_real_vdd.Cli.Commands.{
  all_word, is_known, count_not_driven, say_resolved, say_monitors, say_orphans, report_resolved,
  say_connectors, report_list, read_list, cmd_resolve, cmd_status, cmd_list, cmd_unplug,
  cmd_watchdog,
}

pub Result-cases {ℓ} :
    {D : Type ℓ} (r : ControlResult × D)
    → ((a : Answer) × (d : D) × (r ≡ (answered a, d)))
      ⊎ ((code : ℕ) × (d : D) × (r ≡ (refused code, d)))
Result-cases (answered a, d) = inl (a, d, refl)
Result-cases (refused code, d) = inr (code, d, refl)

-- At most one request was sent.
pub data AtMostOne (before : List Request) : List Request → Type 0 where
  none_sent : AtMostOne before before
  one_sent : (r : Request) → AtMostOne before (r ∷ before)

module _ {ℓ} {D : Type ℓ} where
  -- Nothing that is said sends a request.
  sent-report_why : (w : Wts) (s : Session D) → (report_why_not_on_screen w s).sent ≡ s.sent
  unfolding report_why_not_on_screen
  sent-report_why w s = ground arith

  sent-say_resolved :
      (m : MonitorInfo) (d : Option ResolvedDisplay) (s : Session D)
      → (say_resolved m d s).sent ≡ s.sent
  unfolding say_resolved
  sent-say_resolved m none s = refl
  sent-say_resolved m (some d) s = ground arith

  sent-say_monitors :
      (ms : List MonitorInfo) (ds : List ResolvedDisplay) (s : Session D)
      → (say_monitors ms ds s).1.sent ≡ s.sent
  unfolding say_monitors
  sent-say_monitors [] ds s = refl
  sent-say_monitors (m ∷ ms) ds s =
      sent-say_monitors ms ds (say_resolved m (find_display m.cookie ds) s)
      ∙ sent-say_resolved m (find_display m.cookie ds) s

  sent-say_orphans :
      (ds : List ResolvedDisplay) (ms : List MonitorInfo) (s : Session D)
      → (say_orphans ds ms s).sent ≡ s.sent
  unfolding say_orphans
  sent-say_orphans [] ms s = refl
  sent-say_orphans (d ∷ ds) ms s = elim (Bool-cases (is_known d.cookie ms)) [
    | inl known ↦ simp known (sent-say_orphans ds ms s)
    | inr unknown ↦ simp unknown (sent-say_orphans ds ms _)
  ]

  sent-report_resolved :
      (w : Wts) (ms : List MonitorInfo) (ds : Option (List ResolvedDisplay)) (s : Session D)
      → (report_resolved w ms ds s).1.sent ≡ s.sent
  unfolding report_resolved
  sent-report_resolved w ms none s = refl
  sent-report_resolved w [] (some ds) s = refl
  sent-report_resolved w (m ∷ ms) (some ds) s =
      let (missing, s') = say_monitors (m ∷ ms) ds s in
      let s'' = say_orphans ds (m ∷ ms) s' in
      let same : s''.sent ≡ s.sent =
        sent-say_orphans ds (m ∷ ms) s' ∙ sent-say_monitors (m ∷ ms) ds s in
      elim (Bool-cases (missing == 0)) [
        | inl all ↦ simp all same
        | inr some_missing ↦ simp some_missing (sent-report_why w s'' ∙ same)
      ]

  sent-say_connectors :
      (ms : List MonitorInfo) (s : Session D) → (say_connectors ms s).sent ≡ s.sent
  unfolding say_connectors
  sent-say_connectors [] s = refl
  sent-say_connectors (m ∷ ms) s = sent-say_connectors ms _

  sent-report_list :
      (w : Wts) (ms : List MonitorInfo) (s : Session D) → (report_list w ms s).sent ≡ s.sent
  unfolding report_list
  sent-report_list w [] s = refl
  sent-report_list w (m ∷ ms) s =
      let s' = say_connectors (m ∷ ms) s in
      let same = sent-say_connectors (m ∷ ms) s in
      elim (Option-cases (is_console_session_active w)) [
        | inr (owner, away) ↦ simp away same
        | inl here ↦ elim (Bool-cases (count_not_driven (m ∷ ms) == 0)) [
          | inl driven ↦ simp (here, driven) same
          | inr idle ↦ simp (here, idle) (sent-report_why w s' ∙ same)
        ]
      ]

  module _ (control : Request → D → ControlResult × D) where
    pub sent-ioctl : (r : Request) (s : Session D) → (ioctl control r s).1.sent ≡ (r ∷ s.sent)
    unfolding ioctl
    sent-ioctl r s = elim (Result-cases (control r s.driver)) [
      | inl (a, d, e) ↦ simp e refl
      | inr (code, d, e) ↦ simp e refl
    ]

  or_fail-sent :
      (x : Option Answer × Session D) (rest : Answer → Session D → ℕ × Session D)
      → ((a : Answer) (s : Session D) → (rest a s).1.sent ≡ s.sent)
      → (or_fail x rest).1.sent ≡ x.1.sent
  or_fail-sent (none, s) rest h = refl
  or_fail-sent (some a, s) rest h = h a s

  module _ (control : Request → D → ControlResult × D) (s : Session D) where
    -- A command that sends one request and then only reports.
    pub asks-AtMostOne :
        (r : Request) (rest : Answer → Session D → ℕ × Session D)
        → ((a : Answer) (s' : Session D) → (rest a s').1.sent ≡ s'.sent)
        → AtMostOne s.sent (or_fail (ioctl control r s) rest).1.sent
    asks-AtMostOne r rest h =
        subst (AtMostOne s.sent)
          (sym (or_fail-sent (ioctl control r s) rest h ∙ sent-ioctl control r s)) (one_sent r)

    pub cmd_resolve-AtMostOne :
        (w : Wts) (c : DisplayConfig) → AtMostOne s.sent (cmd_resolve control w c s).1.sent
    unfolding cmd_resolve
    cmd_resolve-AtMostOne w c =
        asks-AtMostOne list_request _
          (λ a s'. sent-report_resolved w (read_list a) (resolve_displays c) s')

    pub cmd_status-AtMostOne : AtMostOne s.sent (cmd_status control s).1.sent
    unfolding cmd_status
    cmd_status-AtMostOne = asks-AtMostOne get_status_request _ (λ a s'. refl)

    pub cmd_list-AtMostOne : (w : Wts) → AtMostOne s.sent (cmd_list control w s).1.sent
    unfolding cmd_list
    cmd_list-AtMostOne w =
        asks-AtMostOne list_request _ (λ a s'. sent-report_list w (read_list a) s')

    pub cmd_unplug-AtMostOne :
        (wcstoul : Text → ℕ) (arg : Text)
        → AtMostOne s.sent (cmd_unplug control wcstoul arg s).1.sent
    unfolding cmd_unplug
    cmd_unplug-AtMostOne wcstoul arg = elim (Bool-cases (same_text arg all_word)) [
      | inl all ↦ simp all (asks-AtMostOne (unplug_request 0) _ (λ a s'. refl))
      | inr one ↦ elim (Bool-cases (wcstoul arg == 0)) [
        | inl wrong ↦ simp (one, wrong) none_sent
        | inr right ↦
            simp (one, right) (asks-AtMostOne (unplug_request (wcstoul arg)) _ (λ a s'. refl))
      ]
    ]

    pub cmd_watchdog-AtMostOne :
        (wcstoul : Text → ℕ) (arg : Text)
        → AtMostOne s.sent (cmd_watchdog control wcstoul arg s).1.sent
    unfolding cmd_watchdog
    cmd_watchdog-AtMostOne wcstoul arg = asks-AtMostOne (set_watchdog_request _) _ (λ a s'. refl)
