-- ===== src/House/Returns.antt =====
-- A device that comes back, `init_E6TCPClient` of src/haussteuerung.cpp, keeps what holds in the
-- house.
use haussteuerung.Prelude.{◌≡◌, refl, Bool, true, false, ◌==◌, arith, Bool-cases, inl, inr}
use haussteuerung.Prelude.Int.{ℤ}
use haussteuerung.Prelude.Text.{Text}
use haussteuerung.Config.{orient, aus, hsgui_power, hsgui_reset}
use haussteuerung.Ini.{Ini}
use haussteuerung.Pcf8574.{Pcf8574}
use haussteuerung.Pcf8574
use haussteuerung.Max7311.{Max7311}
use haussteuerung.Max7311
use haussteuerung.E6TcpClient.{connect_to_server}
use haussteuerung.Jalousie.State
use haussteuerung.Jalousie.Timer
use haussteuerung.Abluft
use haussteuerung.Terrasse
use haussteuerung.Switches.{
  Hwr, Orient, orient_init, orient_an, orient_aus, hwr_an, hwr_aus, hwr_init, gui_init,
  reset_device,
}
use haussteuerung.House.{
  House, Env, Device, main_device, hwr_device, terrasse_device, no_device, exchange, fan, with_fan,
  lamp, with_lamp, with_port, init_main, init_hwr, init_terrasse, init_e6_tcp_client,
}
use haussteuerung.House.Ventilation.{init-Keeps}
use haussteuerung.House.Safe.{IsSafe, abluft-IsSafe, port-IsSafe, lamp-IsSafe, fan-IsSafe}
use haussteuerung.House.Calls.{lit_lem}

-- `init` of the light and of the fan writes one level to the pin.
pub orient_init-pin : (o : Orient) → (b : Bool) × ((orient_init o).pcf ≡ Pcf8574.set orient b o.pcf)
unfolding orient_init orient_an orient_aus
orient_init-pin o = elim (Bool-cases (o.state == aus)) [
  | inl y ↦ (false, ground (arith, y))
  | inr n ↦ (true, ground (arith, n))
]

pub hwr_init-pin : (x : Hwr) → (b : Bool) × ((hwr_init x).max ≡ Max7311.set 8 b x.max)
unfolding hwr_init hwr_an hwr_aus
hwr_init-pin x = elim (Bool-cases (x.state == aus)) [
  | inl y ↦ (false, ground (arith, y))
  | inr n ↦ (true, ground (arith, n))
]

module _ (ini : Ini) (m : Max7311) (p : Pcf8574) where
  pub lamp_init-IsSafe :
      (h : House ini)
      → IsSafe ini m p h
      → IsSafe ini m p (with_lamp ini (orient_init (lamp ini h)) h)
  lamp_init-IsSafe h w =
      let (b, e) = orient_init-pin (lamp ini h) in
      lamp-IsSafe ini m p b (orient_init (lamp ini h)) h w (lit_lem (lamp ini h) w.agreed.valid).2 e

  pub fan_init-IsSafe :
      (h : House ini) → IsSafe ini m p h → IsSafe ini m p (with_fan ini (hwr_init (fan ini h)) h)
  fan_init-IsSafe h w =
      let (b, e) = hwr_init-pin (fan ini h) in fan-IsSafe ini m p b (hwr_init (fan ini h)) h w e

  pub gui_init-IsSafe :
      (h : House ini) → IsSafe ini m p h → IsSafe ini m p (with_port ini (gui_init h.abluft.pcf) h)
  unfolding gui_init
  gui_init-IsSafe h w =
      let power = with_port ini (Pcf8574.set hsgui_power false h.abluft.pcf) h in
      port-IsSafe ini m p hsgui_reset false power
        (port-IsSafe ini m p hsgui_power false h w (omega arith) (omega arith)
          (λ e. absurd (omega (arith, e))))
        (omega arith) (omega arith) (λ e. absurd (omega (arith, e)))

  port_init-IsSafe :
      (h : House ini)
      → IsSafe ini m p h
      → IsSafe ini m p (with_port ini (Pcf8574.init h.abluft.pcf) h)
  port_init-IsSafe h w =
      abluft-IsSafe ini m p h _ w Abluft.port_inits (unfold Pcf8574.init in (w.agreed.valid, refl))

  -- The objects that `IsSafe` does not speak of may change.
  pub others-IsSafe :
      (h k : House ini)
      → IsSafe ini m p h
      → k.jal ≡ h.jal
      → k.abluft ≡ h.abluft
      → k.orient ≡ h.orient
      → k.terrasse ≡ h.terrasse
      → IsSafe ini m p k
  others-IsSafe h k w a b c d = record {
    jal = rw a w.jal;
    agreed = rw b w.agreed;
    lit = rw (b, c) w.lit;
    terrasse = rw d w.terrasse;
  }

  init_main-IsSafe :
      (atof : Text → ℤ) (e : Env ini) (h : House ini)
      → IsSafe ini m p h
      → IsSafe ini m p (init_main ini atof e h)
  unfolding init_main
  init_main-IsSafe atof e h w =
      let h1 = with_port ini (Pcf8574.init h.abluft.pcf) h in
      let w1 = port_init-IsSafe h w in
      let h2 : House ini = record h1 { abluft = Abluft.init ini h1.abluft } in
      let w2 =
        abluft-IsSafe ini m p h1 _ w1 Abluft.inits (init-Keeps ini h1.abluft w1.agreed.valid) in
      let h3 = with_lamp ini (orient_init (lamp ini h2)) h2 in
      let w4 = gui_init-IsSafe h3 (lamp_init-IsSafe h2 w2) in
      record { jal = w4.jal; agreed = w4.agreed; lit = w4.lit; terrasse = w4.terrasse }

  init_terrasse-IsSafe : (h : House ini) → IsSafe ini m p h → IsSafe ini m p (init_terrasse ini h)
  unfolding init_terrasse
  init_terrasse-IsSafe h w = record {
    jal = w.jal;
    agreed = w.agreed;
    lit = w.lit;
    terrasse = Terrasse.next w.terrasse Terrasse.inits;
  }

  init_hwr-IsSafe :
      (atof : Text → ℤ) (e : Env ini) (h : House ini)
      → IsSafe ini m p h
      → IsSafe ini m p (init_hwr ini atof e h)
  unfolding init_hwr
  init_hwr-IsSafe atof e h w =
      let driven = (Max7311.init_out e.word_set e.direction_set h.jal.max).0 in
      let h1 : House ini = record h { jal = State.init (record h.jal { max = driven }) } in
      let w1 : IsSafe ini m p h1 = record {
        jal = Timer.next w.jal (Timer.again e.word_set e.direction_set);
        agreed = w.agreed;
        lit = w.lit;
        terrasse = w.terrasse;
      } in
      let w2 = fan_init-IsSafe h1 w1 in
      record { jal = w2.jal; agreed = w2.agreed; lit = w2.lit; terrasse = w2.terrasse }

  -- Whichever device comes back, and also where the address is none of the three.
  pub init_e6_tcp_client-IsSafe :
      (atof : Text → ℤ) (e : Env ini) (device : Device) (h : House ini)
      → IsSafe ini m p h
      → IsSafe ini m p (init_e6_tcp_client ini atof e device h)
  unfolding init_e6_tcp_client
  init_e6_tcp_client-IsSafe atof e main_device h w =
      let c = exchange e.detect (connect_to_server e.network h.main_client).0 in
      let h1 : House ini = record h { main_client = exchange e.rec868 c } in
      init_main-IsSafe atof e h1 (others-IsSafe h h1 w refl refl refl refl)
  init_e6_tcp_client-IsSafe atof e hwr_device h w =
      let c = exchange e.detect (connect_to_server e.network h.hwr_client).0 in
      let h1 : House ini = record h { hwr_client = c } in
      init_hwr-IsSafe atof e h1 (others-IsSafe h h1 w refl refl refl refl)
  init_e6_tcp_client-IsSafe atof e terrasse_device h w =
      let c = exchange e.detect (connect_to_server e.network h.terrasse_client).0 in
      let h1 : House ini = record h { terrasse_client = c } in
      init_terrasse-IsSafe h1 (others-IsSafe h h1 w refl refl refl refl)
  init_e6_tcp_client-IsSafe atof e no_device h w = w

  -- The two writes to the reset key of the touch screen.
  pub touch_screen-IsSafe :
      (h : House ini)
      → IsSafe ini m p h
      → IsSafe ini m p (with_port ini (reset_device h.abluft.pcf) h)
  unfolding reset_device
  touch_screen-IsSafe h w =
      let h1 = with_port ini (Pcf8574.set hsgui_reset true h.abluft.pcf) h in
      let w1 =
        port-IsSafe ini m p hsgui_reset true h w (omega arith) (omega arith)
          (λ e. absurd (omega (arith, e))) in
      port-IsSafe ini m p hsgui_reset false h1 w1 (omega arith) (omega arith)
        (λ e. absurd (omega (arith, e)))
