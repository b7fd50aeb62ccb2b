-- ===== src/Updates.antt =====
-- `writeUpdatesToSharedMem` of src/haussteuerung.cpp: the times of the sun and the connections, for
-- the user interface.
use haussteuerung.Prelude.{
  ℕ, ◌+◌, ◌/◌, ◌%◌, ◌<◌, ◌≡◌, not, ◌&&◌, [], ◌∷◌, Option, if◌then◌else◌, ◌==◌, ◌>>=◌, arith,
  Bool-cases,
}
use haussteuerung.Prelude.Text.{Text, codes, digit_char, two_digits}
use haussteuerung.E6TcpClient.{Client}
use haussteuerung.SharedMem.{update_helper}

-- `%02d:%02d` of a time of day.
unfoldable pub time_text : ℕ → ℕ → Text
time_text hour min = two_digits hour (b':' ∷ two_digits min [])

-- `MAIN_IS_CONNECTED`, `HWR_IS_CONNECTED` and `TERRASSE_IS_CONNECTED` are 1, 2 and 4.
unfoldable pub connected_flag : Client → Client → Client → ℕ
connected_flag main hwr terrasse =
    (if main.connected && not main.dummy then 1 else 0)
    + (if hwr.connected && not hwr.dummy then 2 else 0)
    + (if terrasse.connected && not terrasse.dummy then 4 else 0)

-- `%03d` of a number under 1000.
unfoldable pub flag_text : ℕ → Text
flag_text flag = digit_char (flag / 100) ∷ two_digits (flag % 100) []

-- Sunrise, sunset, the three clients, and the shared memory.
unfoldable pub write_updates : ℕ × ℕ → ℕ × ℕ → Client → Client → Client → Text → Option Text
write_updates sa su main hwr terrasse shm =
    update_helper (codes "<SA>") (time_text sa.0 sa.1) shm >>= λ s1.
    update_helper (codes "<SU>") (time_text su.0 su.1) s1 >>= λ s2.
    update_helper (codes "<TCPConnected>") (flag_text (connected_flag main hwr terrasse)) s2

-- The flag is three bytes, of which the last one is a digit under 8: its bits tell the connections
-- apart, of the first, the second and the third client, and none of them counts that is a dummy.
pub flag_lem :
    (main hwr terrasse : Client)
    → let flag = connected_flag main hwr terrasse in
      (flag_text flag ≡ b'0' ∷ b'0' ∷ (b'0' + flag) ∷ [])
      × (flag < 8)
      × ((flag % 2 == 1) ≡ (main.connected && not main.dummy))
      × ((flag / 2 % 2 == 1) ≡ (hwr.connected && not hwr.dummy))
      × ((flag / 4 == 1) ≡ (terrasse.connected && not terrasse.dummy))
unfolding connected_flag flag_text
flag_lem main hwr terrasse = ground (
  arith,
  Bool-cases (main.connected && not main.dummy),
  Bool-cases (hwr.connected && not hwr.dummy),
  Bool-cases (terrasse.connected && not terrasse.dummy),
)
