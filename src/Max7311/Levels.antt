-- ===== src/Max7311/Levels.antt =====
-- What the commands ask of the outputs: the level of a pin after all that was sent.
use haussteuerung.Prelude.{
  ℕ, ◌/◌, ◌%◌, ◌^◌, ◌≡◌, refl, Bool, true, false, List, [], ◌∷◌, ◌==◌, if◌then◌else◌,
}
use haussteuerung.Prelude.Int.{pos}
use haussteuerung.E6TcpClient.{Ret}
use haussteuerung.Max7311.{
  Command, set_out, set_word, set_direction, pulse_out, set_value, Max7311, set, setb,
}

-- The newest command for the pin decides; without one it is low. A pulse ends at the level at
-- which it began.
unfoldable pub level : ℕ → List Command → Bool
level pin [] = false
level pin (set_out port state ∷ cs) = if pin == port then state else level pin cs
level pin (set_word word ∷ cs) = word / 2 ^ pin % 2 == 1
level pin (set_direction word ∷ cs) = level pin cs
level pin (pulse_out port time ∷ cs) = level pin cs
level pin (set_value port value ∷ cs) =
    if pin == port then (if value == 0 then false else true) else level pin cs

pub level-set :
    (pin port : ℕ) (state : Bool) (m : Max7311)
    → level pin (set port state m).sent ≡ (if pin == port then state else level pin m.sent)
unfolding level set
level-set pin port state m = refl

-- `setb` sends no command and reports success, for every port, byte and device.
pub setb_idle :
    (results : ℕ → Ret) (port byte : ℕ) (m : Max7311) → setb results port byte m ≡ (m, pos 0)
unfolding setb
setb_idle results port byte m = refl
