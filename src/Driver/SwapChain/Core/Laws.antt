-- ===== src/Driver/SwapChain/Core/Laws.antt =====
-- No channel is followed after the worker's loop.
use nyan_real_vdd.Base.{
  ℕ, ◌≡◌, refl, true, false, inl, inr, Option, none, some, List, [], ◌∷◌, arith, Bool-cases, sym,
  subst, ◌==◌,
}
use nyan_real_vdd.FrameShare.Channel.{Channel, stop}
use nyan_real_vdd.FrameShare.Publisher.{Publisher}
use nyan_real_vdd.Driver.SwapChain.Core.{
  Core, map_channel, stop_at, reset_publisher, is_live, PassEnv, pass, leave, run_core,
}

-- The channel that is followed is not active.
abbrev pub IsSilent : Core → Option ℕ → Type 0
IsSilent s none = Unit
IsSilent s (some k) = is_live (s.channels k) ≡ false

stopped-IsSilent : (o : Option Channel) → is_live (map_channel stop o) ≡ false
unfolding stop
stopped-IsSilent none = refl
stopped-IsSilent (some c) = refl

stop_at-IsSilent : (o : Option ℕ) (s : Core) → IsSilent (stop_at o s) o
stop_at-IsSilent none s = tt
stop_at-IsSilent (some k) s =
    let self : (k == k) ≡ true = ground arith in simp self (stopped-IsSilent (s.channels k))

-- The followed channel is silent once it was stopped, and stays so.
stopped : (o : Option ℕ) (s : Core) → s.channel ≡ o → IsSilent (stop_at o s) (stop_at o s).channel
stopped none s e = subst (IsSilent s) (sym e) tt
stopped (some k) s e = subst (IsSilent (stop_at (some k) s)) (sym e) (stop_at-IsSilent (some k) s)

reset-IsSilent :
    (p : Option Publisher) (s : Core)
    → IsSilent s s.channel
    → IsSilent (reset_publisher p s) (reset_publisher p s).channel
reset-IsSilent none s h = h
reset-IsSilent (some p) s h = unnamed (stop_at s.channel s) (stopped s.channel s refl)
  where
    unnamed : (t : Core) → IsSilent t t.channel → IsSilent (record t { publisher = none }) t.channel
    unnamed t h' = h'

leave-IsSilent : (s : Core) → IsSilent (leave s) (leave s).channel
unfolding leave
leave-IsSilent s =
    let t = stop_at s.channel s in reset-IsSilent t.publisher t (stopped s.channel s refl)

-- A worker's loop that ended leaves the channel that it followed last inactive, if there is one, whatever
-- the system answered in its passes.
pub run_core-IsSilent :
    (envs : List PassEnv) (s s' : Core) → run_core envs s ≡ some s' → IsSilent s' s'.channel
unfolding run_core
run_core-IsSilent [] s s' e = absurd cc
run_core-IsSilent (env ∷ envs) s s' e = elim (Bool-cases (pass env s).0) [
  | inl on ↦ run_core-IsSilent envs (pass env s).1 s' (simp on at e)
  | inr over ↦
      let left : leave (pass env s).1 ≡ s' = cc in
      subst (λ x. IsSilent x x.channel) left (leave-IsSilent (pass env s).1)
]
