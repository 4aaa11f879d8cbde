-- ===== src/Shared/Miniquad/Laws.antt =====
-- That the platform of shared/src/impls/miniquad is that of shared/src/impls/wasm_bindgen.
use naia_socket.Base.{ℕ, ◌≡◌, refl, sym, subst}
use naia_socket.Base.Int.{ℤ}
use naia_socket.Shared.Config.{Rates}
use naia_socket.Shared.World.{World, IsLawful, Profile}
use naia_socket.Shared.Web.{Browser, web_world}
use naia_socket.Shared.Web
use naia_socket.Shared.Web.Laws.{IsRandom, web_world-IsLawful}
use naia_socket.Shared.Miniquad.{
  elapsed, until, add_millis, cmp, timestamp_now, Timer, new, reset, ringing, ring_manual,
  gen_range_f32, gen_range_u32, gen_bool, miniquad_world,
}

-- The browser's timer with the same fields.
abbrev pub web_timer : Timer → Web.Timer
web_timer t = record { duration = t.duration; last = t.last }

instants_same :
    (a b : ℤ) (m : ℕ)
    → (elapsed a b ≡ Web.elapsed a b)
      × (until a b ≡ Web.until a b)
      × (add_millis a m ≡ Web.add_millis a m)
      × (cmp a b ≡ Web.cmp a b)
      × (timestamp_now a ≡ Web.timestamp_now a)
unfolding elapsed until add_millis cmp timestamp_now Web.elapsed Web.until Web.add_millis Web.cmp
    Web.timestamp_now
instants_same a b m = (refl, refl, refl, refl, refl)

timers_same :
    (a : ℤ) (d : ℕ) (t : Timer)
    → (web_timer (new a d) ≡ Web.new a d)
      × (web_timer (reset t a) ≡ Web.reset (web_timer t) a)
      × (ringing t a ≡ Web.ringing (web_timer t) a)
      × (web_timer (ring_manual t) ≡ Web.ring_manual (web_timer t))
unfolding new reset ringing ring_manual Web.new Web.reset Web.ringing Web.ring_manual
timers_same a d t = (refl, refl, refl, refl)

module _ {R : Rates} (N : Browser R) (profile : Profile) where
  world_same : miniquad_world N profile ≡ web_world N profile
  unfolding gen_range_f32 gen_range_u32 gen_bool Web.gen_range_f32 Web.gen_range_u32 Web.gen_bool
  world_same = refl

  -- Over the same clock and random source, each function of the one platform is that of the other.
  pub miniquad_same :
      (a b : ℤ) (m d : ℕ) (t : Timer)
      → (elapsed a b ≡ Web.elapsed a b)
        × (until a b ≡ Web.until a b)
        × (add_millis a m ≡ Web.add_millis a m)
        × (cmp a b ≡ Web.cmp a b)
        × (timestamp_now a ≡ Web.timestamp_now a)
        × (web_timer (new a d) ≡ Web.new a d)
        × (web_timer (reset t a) ≡ Web.reset (web_timer t) a)
        × (ringing t a ≡ Web.ringing (web_timer t) a)
        × (web_timer (ring_manual t) ≡ Web.ring_manual (web_timer t))
        × (miniquad_world N profile ≡ web_world N profile)
  miniquad_same a b m d t =
      let (e, u, l, c, s) = instants_same a b m in
      let (n, r, k, g) = timers_same a d t in (e, u, l, c, s, n, r, k, g, world_same)

  pub miniquad_world-IsLawful : IsRandom N → IsLawful (miniquad_world N profile)
  miniquad_world-IsLawful I =
      subst (λ (V : World R). IsLawful V) (sym world_same) (web_world-IsLawful N I profile)
