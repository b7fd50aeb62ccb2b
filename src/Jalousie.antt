-- ===== src/Jalousie.antt =====
-- src/jalousie.cpp, include/jalousie.h: four shutters on one MAX7311, each driven for a time by a
-- timer thread. The arrays are functions of the shutter's number, which is below 4 in every call
-- that the theorems speak of. A public method holds the object's mutex throughout, so it is one
-- step. `created` says whether `pthread_create` succeeds.
pub mod State
pub mod Timer
pub mod Closure
pub mod Wiring
pub mod Watch
pub mod Course
pub mod Race
pub mod Tests
unfoldable pub use State.*
unfoldable pub use Timer.*
