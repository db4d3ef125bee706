-- ===== src/Cli/Plug/Laws.antt =====
-- The plug command: the cookie it draws, and the request it sends.
use nyan_real_vdd.Base.{
  ℕ, zero, suc, ◌+◌, ◌<◌, ◌≤◌, ◌≡◌, ◌≢◌, refl, ◌⊎◌, inl, inr, List, arith, Option-cases, ap, ◌∙◌,
  sym,
}
use nyan_real_vdd.Protocol.{PlugIn}
use nyan_real_vdd.Driver.Ioctl.{Request, Answer, plug_request}
use nyan_real_vdd.Cli.{Text, ControlResult, Session}
use nyan_real_vdd.Cli.Console.{Wts, is_console_session_active}
use nyan_real_vdd.Cli.Commands.Laws.{AtMostOne, none_sent, asks-AtMostOne}
use nyan_real_vdd.Cli.Plug.{
  Scanner, default_plug, Parsed, parsed, bad, parse_plug, draw, draw_fuel, with_drawn, report_plug,
  send_plug, cmd_plug,
}

-- The loop over the random device ends with the first number that is not 0.
pub draw_lem :
    (fuel : ℕ) (rd : ℕ → ℕ) (k j : ℕ)
    → j ≤ fuel
    → rd (k + j) ≢ 0
    → ((i : ℕ) → i < j → rd (k + i) ≡ 0)
    → draw fuel rd k ≡ rd (k + j)
unfolding draw
draw_lem zero rd k j le nz before = ap rd (omega arith)
draw_lem (suc fuel) rd k zero le nz before =
    let e : rd (k + 0) ≡ rd k = ap rd (omega arith) in ground arith
draw_lem (suc fuel) rd k (suc j) le nz before =
    let e : rd (k + 0) ≡ rd k = ap rd (omega arith) in
    let z : rd k ≡ 0 = sym e ∙ before 0 (omega arith) in
    let shift : (i : ℕ) → rd (suc k + i) ≡ rd (k + suc i) = λ i. ap rd (omega arith) in
    let rest : draw fuel rd (suc k) ≡ rd (suc k + j) =
      draw_lem fuel rd (suc k) j (omega arith) (λ e'. nz (sym (shift j) ∙ e'))
        (λ i lt. shift i ∙ before (suc i) (omega arith)) in
    simp z (rest ∙ shift j)

-- The cookie that is sent, where a number among the first five is not 0.
pub with_drawn-nonzero :
    (rd : ℕ → ℕ) (p : PlugIn) (j : ℕ)
    → j ≤ draw_fuel
    → rd j ≢ 0
    → ((i : ℕ) → i < j → rd i ≡ 0)
    → (with_drawn rd p).cookie ≢ 0
with_drawn-nonzero rd p j le nz before =
    let at_zero : (i : ℕ) → rd (0 + i) ≡ rd i = λ i. ap rd (omega arith) in
    let drawn : draw draw_fuel rd 0 ≡ rd j =
      draw_lem draw_fuel rd 0 j le (λ e. nz (sym (at_zero j) ∙ e)) (λ i lt. at_zero i ∙ before i lt)
      ∙ at_zero j in
    ground arith

pub Parsed-cases : (x : Parsed) → ((p : PlugIn) × (x ≡ parsed p)) ⊎ ((arg : Text) × (x ≡ bad arg))
Parsed-cases (parsed p) = inl (p, refl)
Parsed-cases (bad arg) = inr (arg, refl)

module _ {ℓ} {D : Type ℓ} where
  sent-report_plug :
      (w : Wts) (p : PlugIn) (a : Answer) (s : Session D) → (report_plug w p a s).1.sent ≡ s.sent
  unfolding report_plug
  sent-report_plug w p a s = elim (Option-cases (is_console_session_active w)) [
    | inl here ↦ simp here refl
    | inr (owner, away) ↦ simp away refl
  ]

  pub cmd_plug-AtMostOne :
      (control : Request → D → ControlResult × D) (s : Session D) (c : Scanner) (rd : ℕ → ℕ)
      (w : Wts) (args : List Text)
      → AtMostOne s.sent (cmd_plug control c rd w args s).1.sent
  unfolding cmd_plug send_plug
  cmd_plug-AtMostOne control s c rd w args = elim (Parsed-cases (parse_plug c args default_plug)) [
    | inl (p, e) ↦ simp e (
        asks-AtMostOne control s (plug_request (with_drawn rd p)) _
          (λ a s'. sent-report_plug w (with_drawn rd p) a s'))
    | inr (arg, e) ↦ simp e none_sent
  ]
