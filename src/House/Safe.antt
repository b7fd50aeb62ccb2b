-- ===== src/House/Safe.antt =====
-- What holds in the house of src/haussteuerung.cpp at all times, kept by each call that the
-- branches of the main loop make.
use haussteuerung.Prelude.{ℕ, ◌<◌, ◌≡◌, ◌≢◌, Bool, arith}
use haussteuerung.Config.{orient}
use haussteuerung.Ini.{Ini}
use haussteuerung.Pcf8574.{Pcf8574}
use haussteuerung.Pcf8574
use haussteuerung.Pcf8574.Bits.{set_lem}
use haussteuerung.Max7311.{Max7311}
use haussteuerung.Max7311
use haussteuerung.Jalousie.State.{Jalousie}
use haussteuerung.Jalousie.State
use haussteuerung.Jalousie.Timer
use haussteuerung.Abluft
use haussteuerung.Abluft.Agreement.{IsAgreed, Step-IsAgreed}
use haussteuerung.Terrasse
use haussteuerung.Switches.{Hwr, Orient}
use haussteuerung.Switches.Sharing.{IsLit}
use haussteuerung.House.{House, with_fan, lamp, with_lamp, with_port}
use haussteuerung.House.Ventilation.{Keeps}

module _ (ini : Ini) (m : Max7311) (p : Pcf8574) where
  -- The shutters and the terrace are where their own commands, threads and reconnections can bring
  -- them from their constructors on; the ventilation and the light agree with their pins and
  -- displays.
  pub record IsSafe (h : House ini) : Type 0 where
    pub jal : Timer.Reach (State.create m) h.jal
    pub agreed : IsAgreed ini h.abluft
    pub lit : IsLit (lamp ini h)
    pub terrasse : Terrasse.Reach (Terrasse.create p) h.terrasse

  pub abluft-IsSafe :
      (h : House ini) (a : Abluft.Abluft ini)
      → IsSafe h
      → Abluft.Step ini h.abluft a
      → Keeps ini h.abluft a
      → IsSafe (record h { abluft = a })
  abluft-IsSafe h a w st (v, same) = record {
    jal = w.jal;
    agreed = Step-IsAgreed ini st w.agreed;
    lit = record {
      valid = v;
      legal = w.lit.legal;
      level = ground (arith, same, w.lit.level);
      display = w.lit.display;
    };
    terrasse = w.terrasse;
  }

  -- A write to another pin than those of the ventilation and the light.
  pub port-IsSafe :
      (port : ℕ) (b : Bool) (h : House ini)
      → IsSafe h
      → 1 < port
      → port < 8
      → port ≢ orient
      → IsSafe (with_port ini (Pcf8574.set port b h.abluft.pcf) h)
  port-IsSafe port b h w l g n =
      let wrote = set_lem port orient b h.abluft.pcf in
      abluft-IsSafe h _ w (Abluft.other_port port b l g)
        (ground (arith, wrote, w.agreed.valid, g), ground (arith, wrote, w.agreed.valid, g, n))

  -- A call of the light that writes to its pin.
  pub lamp-IsSafe :
      (b : Bool) (x : Orient) (h : House ini)
      → IsSafe h
      → IsLit x
      → x.pcf ≡ Pcf8574.set orient b h.abluft.pcf
      → IsSafe (with_lamp ini x h)
  lamp-IsSafe b x h w l e = record {
    jal = w.jal;
    agreed = rw e (
        Step-IsAgreed ini {a = h.abluft} (Abluft.other_port orient b (omega arith) (omega arith))
          w.agreed);
    lit = l;
    terrasse = w.terrasse;
  }

  -- A call of the fan, which writes to its pin of the MAX7311.
  pub fan-IsSafe :
      (b : Bool) (x : Hwr) (h : House ini)
      → IsSafe h
      → x.max ≡ Max7311.set 8 b h.jal.max
      → IsSafe (with_fan ini x h)
  fan-IsSafe b x h w e = record {
    jal = rw e (Timer.next w.jal (Timer.hwr b));
    agreed = w.agreed;
    lit = w.lit;
    terrasse = w.terrasse;
  }
